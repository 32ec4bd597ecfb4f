-- ===== src/RwLock/Safety.antt =====
-- What any use of falconfs' reader-writer lock by several backends guarantees.
use falconfs.Common.{
  ℕ, ◌≤◌, ◌<◌, ◌≡◌, ◌⊎◌, ◌↔◌, inl, inr, List, [], ◌∷◌, true, total, le-total, add-le-total,
  total-eq-zero_below, arith, ℕ_discrete,
}
use falconfs.RwLock.{RwLockMode, exclusive, shared, Handle, check_destroyable}
use falconfs.RwLock.Held.{uses}
use falconfs.RwLock.Word.{check_destroyable_iff}
use falconfs.RwLock.Counts.{as_shared, as_exclusive, shared_of, exclusive_of, refs_of}
use falconfs.RwLock.System.{System, Reach}
use falconfs.RwLock.Invariant.{Reach-Inv, max_backends}

-- A handle of this mode on lock `l` is among the handles.
abbrev pub Holds : ℕ → RwLockMode → List Handle → Type 0
Holds l mode [] = ⊥
Holds l mode (h ∷ hs) = ((h.lock ≡ l) × (h.mode ≡ mode)) ⊎ Holds l mode hs

uses_of_Holds :
    (k : RwLockMode → ℕ) (l : ℕ) (mode : RwLockMode) (hs : List Handle)
    → Holds l mode hs
    → k mode ≤ uses k l hs
unfolding uses
uses_of_Holds k l mode [] h = absurd h
uses_of_Holds k l mode (x ∷ hs) (inl (p, q)) = ground arith
uses_of_Holds k l mode (x ∷ hs) (inr h) = ground (arith, uses_of_Holds k l mode hs h)

module _ {n : ℕ} {s : System} (few : n ≤ max_backends) (r : Reach n s) (l i j : ℕ) (i_in : i < n)
    (j_in : j < n) (i_holds : Holds l exclusive (s.backends i).held) where
  one_exclusive : total (exclusive_of l) n s.backends ≡ 1
  one_exclusive = omega (
    arith,
    ((Reach-Inv few r).counted l).exclusion,
    le-total (exclusive_of l) n s.backends i i_in,
    uses_of_Holds as_exclusive l exclusive (s.backends i).held i_holds,
  )

  no_shared : total (shared_of l) n s.backends ≡ 0
  no_shared = omega (arith, ((Reach-Inv few r).counted l).exclusion, one_exclusive)

  same_backend : Holds l exclusive (s.backends j).held → i ≡ j
  same_backend h = elim (ℕ_discrete i j) [
    | yes p ↦ p
    | no p ↦ absurd (
        omega (
          arith,
          one_exclusive,
          add-le-total (exclusive_of l) n s.backends i j p i_in j_in,
          uses_of_Holds as_exclusive l exclusive (s.backends i).held i_holds,
          uses_of_Holds as_exclusive l exclusive (s.backends j).held h,
        ))
  ]

  not_shared : ¬ Holds l shared (s.backends j).held
  not_shared h = absurd (
      omega (
        arith,
        no_shared,
        le-total (shared_of l) n s.backends j j_in,
        uses_of_Holds as_shared l shared (s.backends j).held h,
      ))

-- While a backend holds a lock exclusively, no backend, itself included, holds it shared, and no
-- other backend holds it exclusively: in every state that at most 2046 backends reach.
pub mutual_exclusion :
    {n : ℕ} {s : System}
    → n ≤ max_backends
    → Reach n s
    → (l i j : ℕ) → i < n
    → j < n
    → Holds l exclusive (s.backends i).held
    → (¬ Holds l shared (s.backends j).held) × (Holds l exclusive (s.backends j).held → i ≡ j)
mutual_exclusion few r l i j i_in j_in h =
    (not_shared few r l i j i_in j_in h, same_backend few r l i j i_in j_in h)

-- RWLockCheckDestroyable allows a lock's memory to go exactly when no backend has a handle on the
-- lock and none is in a call on it: in every state that at most 2046 backends reach.
pub destroyable_iff :
    {n : ℕ} {s : System}
    → n ≤ max_backends
    → Reach n s
    → (l : ℕ)
    → (check_destroyable (s.words l) ≡ true) ↔ ((i : ℕ) → i < n → refs_of l (s.backends i) ≡ 0)
destroyable_iff {n} {s} few r l = (
  λ e i lt. omega (
    arith,
    le-total (refs_of l) n s.backends i lt,
    (check_destroyable_iff ((Reach-Inv few r).counted l)).0 e,
  ),
  λ h.
      (check_destroyable_iff ((Reach-Inv few r).counted l)).1
        (total-eq-zero_below (refs_of l) n s.backends h),
)
