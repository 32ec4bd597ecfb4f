-- ===== src/RwLock/Invariant.antt =====
-- What every lock word of falcon/utils/rwlock.c says about the handles of all backends.
use falconfs.Common.{
  ◌^◌, ◌+◌, ◌≡◌, ℕ, ◌-◌, ◌≤◌, ◌<◌, refl, inl, total, total-update, total-le, total-eq-zero,
  le-total, arith, ite, ℕ_discrete, update,
}
use falconfs.RwLock.Held.{uses}
use falconfs.RwLock.Word.{Encodes}
use falconfs.RwLock.Counts.{
  shared_of, exclusive_of, refs_of, IsOrderly, shared_of-le, refs_of-le, Encodes-cast, Counts,
}
use falconfs.RwLock.Moves.{Act-Counts, Act-IsOrderly}
use falconfs.RwLock.System.{Backend, System, Act, Step, pick, Reach, start, later, initial}

-- So many backends, each with a full array of handles, do not overflow the count of shared holders.
abbrev pub max_backends : ℕ
max_backends = 2046

-- The word of each lock counts the handles of the first `n` backends.
pub record Inv (n : ℕ) (s : System) : Type 0 where
  pub counted :
      (l : ℕ)
      → Encodes
          (s.words l)
          (total (shared_of l) n s.backends)
          (total (exclusive_of l) n s.backends)
          (total (refs_of l) n s.backends)
  pub orderly : (i : ℕ) → IsOrderly (s.backends i)

initial-Inv : (n : ℕ) → Inv n initial
unfolding uses
initial-Inv n = record {
  counted = λ l.
      Encodes-cast {s = 0} {e = 0} {r = 0}
        (record {
          waiter = 0;
          waiter_le = omega arith;
          value = omega arith;
          shared_fits = omega arith;
          refs_fit = omega arith;
          exclusion = inl refl;
        })
        refl (total-eq-zero (shared_of l) n initial.backends (λ i. refl))
        (total-eq-zero (exclusive_of l) n initial.backends (λ i. refl))
        (total-eq-zero (refs_of l) n initial.backends (λ i. refl));
  orderly = λ i. record { room = omega arith; request = tt };
}

-- The share of lock `l` that the backends other than `i` have.
abbrev pub rest : (Backend → ℕ) → ℕ → System → ℕ → ℕ
rest weight n s i = total weight n s.backends - weight (s.backends i)

module _ {n : ℕ} {s : System} (few : n ≤ max_backends) (inv : Inv n s) (i : ℕ) (lt : i < n) where
  pub rest_few :
      (l : ℕ)
      → (rest (shared_of l) n s i + 8197 < 2 ^ 24) × (rest (refs_of l) n s i + 8197 < 2 ^ 25)
  rest_few l = (
    omega (arith, total-le (shared_of l) 8196 n s.backends (λ j. shared_of-le l _ (inv.orderly j))),
    omega (arith, total-le (refs_of l) 8196 n s.backends (λ j. refs_of-le l _ (inv.orderly j))),
  )

  pub rest-Counts :
      (l : ℕ)
      → Counts l s.words
          (s.backends i)
          (rest (shared_of l) n s i)
          (rest (exclusive_of l) n s i)
          (rest (refs_of l) n s i)
  rest-Counts l =
      Encodes-cast (inv.counted l) refl (omega (arith, le-total (shared_of l) n s.backends i lt))
        (omega (arith, le-total (exclusive_of l) n s.backends i lt))
        (omega (arith, le-total (refs_of l) n s.backends i lt))

  total-rest :
      (weight : Backend → ℕ) (b' : Backend)
      → total weight n (update s.backends i b') ≡ rest weight n s i + weight b'
  total-rest weight b' =
      omega (arith, le-total weight n s.backends i lt, total-update weight n s.backends i b' lt)

  step_counted :
      {ws' : ℕ → ℕ} {b' : Backend} (l : ℕ)
      → Act s.words (s.backends i) ws' b'
      → Encodes
          (ws' l)
          (total (shared_of l) n (update s.backends i b'))
          (total (exclusive_of l) n (update s.backends i b'))
          (total (refs_of l) n (update s.backends i b'))
  step_counted {ws'} {b'} l act =
      Encodes-cast
        (Act-Counts s.words (s.backends i) (inv.orderly i) l _ _ _ (rest_few l) (rest-Counts l) act)
        refl (total-rest (shared_of l) b') (total-rest (exclusive_of l) b')
        (total-rest (refs_of l) b')

  step-IsOrderly :
      {ws' : ℕ → ℕ} {b' : Backend} (j : ℕ)
      → Act s.words (s.backends i) ws' b'
      → IsOrderly (update s.backends i b' j)
  step-IsOrderly {ws'} {b'} j act =
      elim (ℕ_discrete i j) as (λ d. IsOrderly (ite d b' (s.backends j))) [
        | yes p ↦ Act-IsOrderly s.words (s.backends i) (inv.orderly i) act
        | no p ↦ inv.orderly j
      ]

-- Every step keeps the invariant.
pub Step-Inv : {n : ℕ} {s t : System} → n ≤ max_backends → Inv n s → Step n s t → Inv n t
Step-Inv few inv (pick i lt act) = record {
  counted = λ l. step_counted few inv i lt l act;
  orderly = λ j. step-IsOrderly few inv i lt j act;
}

pub Reach-Inv : {n : ℕ} {s : System} → n ≤ max_backends → Reach n s → Inv n s
Reach-Inv {n} few start = initial-Inv n
Reach-Inv few (later r st) = Step-Inv few (Reach-Inv few r) st
