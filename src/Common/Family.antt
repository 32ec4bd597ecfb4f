-- ===== src/Common/Family.antt =====
-- Families indexed by a number (backends, locks): update at one index, and sums over the first n.
use Prim.Native.Nat.{ℕ, zero, suc, ◌+◌, ◌*◌, ◌≤◌, ◌<◌}
use mathlib.Core.Path.{subst, sym, ◌≡◌, refl}
use mathlib.Core.Logic.{ite, if_pos, if_neg, ◌≢◌}
use native.Mathlib.Decide.{dec_lt, ℕ_discrete}
use native.Mathlib.Omega.{arith}

abbrev pub update {ℓ} : {A : Type ℓ} → (ℕ → A) → ℕ → A → ℕ → A
update members at next j = ite (ℕ_discrete at j) next (members j)

module _ {ℓ} {A : Type ℓ} where
  pub update_here : (members : ℕ → A) (k l : ℕ) (next : A) → k ≡ l → update members k next l ≡ next
  update_here members k l next p = if_pos _ p next (members l)

  pub update_there :
      (members : ℕ → A) (k l : ℕ) (next : A) → k ≢ l → update members k next l ≡ members l
  update_there members k l next p = if_neg _ p next (members l)

-- To prove next property of the family's member after an update.
pub update-elim {ℓ κ} :
    {A : Type ℓ} (P : A → Type κ) (members : ℕ → A) (at : ℕ) (next : A) (j : ℕ)
    → (at ≡ j → P next)
    → (at ≢ j → P (members j))
    → P (update members at next j)
update-elim P members at next j h t = elim (ℕ_discrete at j) [
  | yes e ↦ subst P (sym (update_here members at j next e)) (h e)
  | no ne ↦ subst P (sym (update_there members at j next ne)) (t ne)
]

module _ {ℓ} {A : Type ℓ} (weight : A → ℕ) where
  pub total : ℕ → (ℕ → A) → ℕ
  total zero members = 0
  total (suc count) members = total count members + weight (members count)

  total-update_out :
      (count : ℕ) (members : ℕ → A) (at : ℕ) (next : A)
      → count ≤ at
      → total count (update members at next) ≡ total count members
  unfolding total
  total-update_out zero members at next h = refl
  total-update_out (suc count) members at next h =
      ground (arith, total-update_out count members at next)

  -- An update at an index in range replaces one summand.
  pub total-update :
      (count : ℕ) (members : ℕ → A) (at : ℕ) (next : A)
      → at < count
      → total count (update members at next) + weight (members at)
        ≡ total count members + weight next
  unfolding total
  total-update zero members at next h = absurd (omega arith)
  total-update (suc count) members at next h = elim (dec_lt at count) [
    | yes below ↦ ground (arith, total-update count members at next below)
    | no last ↦ ground (arith, total-update_out count members at next)
  ]

  pub total-le :
      (m count : ℕ) (members : ℕ → A)
      → ((at : ℕ) → weight (members at) ≤ m)
      → total count members ≤ count * m
  unfolding total
  total-le m zero members h = omega arith
  total-le m (suc count) members h = grind (arith, h count, total-le m count members h)

  pub le-total :
      (count : ℕ) (members : ℕ → A) (at : ℕ)
      → at < count
      → weight (members at) ≤ total count members
  unfolding total
  le-total zero members at h = absurd (omega arith)
  le-total (suc count) members at h = elim (dec_lt at count) [
    | yes below ↦ omega (arith, le-total count members at below)
    | no last ↦ ground arith
  ]

  -- Two different indices weigh at most the total together.
  pub add-le-total :
      (count : ℕ) (members : ℕ → A) (at j : ℕ)
      → at ≢ j
      → at < count
      → j < count
      → weight (members at) + weight (members j) ≤ total count members
  unfolding total
  add-le-total zero members at j h p q = absurd (omega arith)
  add-le-total (suc count) members at j h p q = elim (dec_lt at count) [
    | yes i_below ↦ elim (dec_lt j count) [
      | yes j_below ↦ omega (arith, add-le-total count members at j h i_below j_below)
      | no last ↦ ground (arith, le-total count members at)
    ]
    | no last ↦ ground (arith, le-total count members j)
  ]

  pub total-eq-zero :
      (count : ℕ) (members : ℕ → A) → ((at : ℕ) → weight (members at) ≡ 0) → total count members ≡ 0
  unfolding total
  total-eq-zero zero members h = refl
  total-eq-zero (suc count) members h = omega (arith, h count, total-eq-zero count members h)

  pub total-eq-zero_below :
      (count : ℕ) (members : ℕ → A)
      → ((at : ℕ) → at < count → weight (members at) ≡ 0)
      → total count members ≡ 0
  unfolding total
  total-eq-zero_below zero members h = refl
  total-eq-zero_below (suc count) members h = omega (
    arith,
    h count (omega arith),
    total-eq-zero_below count members (λ at lt. h at (omega arith)),
  )

  -- A positive sum has next positive summand.
  pub total-pos :
      (count : ℕ) (members : ℕ → A)
      → 0 < total count members
      → (at : ℕ) × (at < count) × (0 < weight (members at))
  unfolding total
  total-pos zero members h = absurd (omega arith)
  total-pos (suc count) members h = elim (dec_lt 0 (weight (members count))) [
    | yes here ↦ (count, omega arith, here)
    | no empty ↦ let (at, lt, p) = total-pos count members (omega arith) in (at, omega arith, p)
  ]
