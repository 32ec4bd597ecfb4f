-- ===== src/Common/Keys.antt =====
-- Keys with a Boolean equality: transaction names, file names, numbers.
use Prim.Native.Nat.{ℕ}
use Prim.Native.String.{String}
use mathlib.Core.Path.{◌≡◌, refl, subst}
use mathlib.Core.Logic.{◌↔◌, ◌≢◌}
use mathlib.Core.Bool.{Bool, true, false, ◌&&◌, ◌||◌, not}
use mathlib.Core.List.{List, [], ◌∷◌, ◌++◌}
use native.Mathlib.Omega.{arith}
use text.Mathlib.Text.{◌==◌ as str_eq}
use text.Mathlib.TextEquality.{eq_iff}
use falconfs.Common.Tests.{◌==◌, ==_iff, if◌then◌else◌}

pub record Eq {ℓ} (A : Type ℓ) : Type ℓ where
  pub beq : A → A → Bool
  pub beq_iff : (a b : A) → (beq a b ≡ true) ↔ (a ≡ b)

infix 50 ◌=?◌
abbrev pub ◌=?◌ {ℓ} : {A : Type ℓ} ⦃e : Eq A⦄ → A → A → Bool
◌=?◌ ⦃e⦄ = e.beq

instance abbrev pub nat_eq : Eq ℕ
nat_eq = record { beq = ◌==◌; beq_iff = ==_iff }

instance abbrev pub string_eq : Eq String
string_eq = record { beq = str_eq; beq_iff = eq_iff }

-- Sets as lists.
module _ {ℓ} {A : Type ℓ} ⦃e : Eq A⦄ where
  pub =?_refl : (a : A) → (a =? a) ≡ true
  =?_refl a = (e.beq_iff a a).1 refl

  unfoldable pub elem : A → List A → Bool
  elem a [] = false
  elem a (x ∷ xs) = x =? a || elem a xs

  unfoldable pub erase : A → List A → List A
  erase a [] = []
  erase a (x ∷ xs) = if x =? a then erase a xs else x ∷ erase a xs

  pub elem-erase : (a b : A) (xs : List A) → elem b (erase a xs) ≡ not (a =? b) && elem b xs
  unfolding elem erase
  elem-erase a b [] = ground arith
  elem-erase a b (x ∷ xs) =
      ground (arith, elem-erase a b xs, e.beq_iff x a, e.beq_iff x b, e.beq_iff a b)

  pub elem-append : (a : A) (xs ys : List A) → elem a (xs ++ ys) ≡ elem a xs || elem a ys
  unfolding elem
  elem-append a [] ys = refl
  elem-append a (x ∷ xs) ys = ground (arith, elem-append a xs ys)

-- Lists of keys.
abbrev pub list_beq {ℓ} : {A : Type ℓ} ⦃e : Eq A⦄ → List A → List A → Bool
list_beq [] [] = true
list_beq [] (y ∷ ys) = false
list_beq (x ∷ xs) [] = false
list_beq (x ∷ xs) (y ∷ ys) = x =? y && list_beq xs ys

pub list_beq-eq {ℓ} : {A : Type ℓ} ⦃e : Eq A⦄ (xs ys : List A) → list_beq xs ys ≡ true → xs ≡ ys
list_beq-eq [] [] h = refl
list_beq-eq [] (y ∷ ys) h = ground arith
list_beq-eq (x ∷ xs) [] h = ground arith
list_beq-eq ⦃e⦄ (x ∷ xs) (y ∷ ys) h = ground (arith, e.beq_iff x y, list_beq-eq xs ys)

pub list_beq_refl {ℓ} : {A : Type ℓ} ⦃e : Eq A⦄ (xs : List A) → list_beq xs xs ≡ true
list_beq_refl [] = refl
list_beq_refl (x ∷ xs) = ground (arith, =?_refl x, list_beq_refl xs)

instance abbrev pub list_eq {ℓ} : {A : Type ℓ} ⦃e : Eq A⦄ → Eq (List A)
list_eq = record {
  beq = list_beq;
  beq_iff =
      λ xs ys. (list_beq-eq xs ys, λ p. subst (λ zs. list_beq xs zs ≡ true) p (list_beq_refl xs));
}

pub =?_ne {ℓ} : {A : Type ℓ} ⦃e : Eq A⦄ (a b : A) → a ≢ b → (a =? b) ≡ false
=?_ne ⦃e⦄ a b ne = ground (arith, e.beq_iff a b)
