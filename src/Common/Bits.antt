-- ===== src/Common/Bits.antt =====
-- The arithmetic forms of single-bit and mask operations agree with the bitwise operations.
use Prim.Native.Nat.{min, max, digits, bitwise, bit_and-bitwise, bit_or-bitwise}
use native.Mathlib.Nat.{le_refl, pow-suc, one-le-pow, div-div-eq-div-mul}
use Prim.Native.Nat.{ℕ, zero, suc, ◌+◌, ◌-◌, ◌*◌, ◌/◌, ◌%◌, ◌^◌, ◌≤◌, ◌<◌, bit_and, bit_or}
use mathlib.Core.Path.{◌≡◌, refl, ap, sym, ◌∙◌}
use native.Mathlib.Omega.{arith}
use falconfs.Common.Words.{low_bits, bit, set_bit}

-- One more binary digit: the recursion behind the native operations has fuel to spare.
module _ (rest : ℕ → ℕ) (op : ℕ → ℕ → ℕ) where
  spare_fuel :
      (x y fuel fuel' : ℕ)
      → x ≤ fuel'
      → x ≤ fuel
      → digits rest op fuel x y ≡ digits rest op fuel' x y
  spare_fuel zero y (suc fuel) (suc fuel') h h' = refl
  spare_fuel zero y (suc fuel) zero h h' = refl
  spare_fuel zero y zero (suc fuel') h h' = refl
  spare_fuel zero y zero zero h h' = refl
  spare_fuel (suc x) y zero fuel' h h' = absurd (omega (arith, h'))
  spare_fuel (suc x) y (suc fuel) zero h h' = absurd (omega (arith, h))
  spare_fuel (suc x) y (suc fuel) (suc fuel') h h' =
      let half = suc x / 2 in rw (spare_fuel half (y / 2) fuel fuel' (omega arith) (omega arith))

  lowest_digit :
      (x y : ℕ)
      → bitwise rest op (suc x) y ≡ op (suc x % 2) (y % 2) + 2 * bitwise rest op (suc x / 2) (y / 2)
  lowest_digit x y =
      let half = suc x / 2 in
      omega (arith, spare_fuel half (y / 2) x half (omega arith) (omega arith))

pub bit_or_halves : (x y : ℕ) → bit_or x y ≡ max (x % 2) (y % 2) + 2 * bit_or (x / 2) (y / 2)
bit_or_halves (suc x) y = simp bit_or-bitwise (lowest_digit (λ t. t) max x y)
bit_or_halves zero y = simp bit_or-bitwise (omega arith)

bit_or-zero_below : (k a : ℕ) → a ≤ k → bit_or a 0 ≡ a
bit_or-zero_below k zero h = omega (arith, bit_or-bitwise 0 0)
bit_or-zero_below zero (suc a) h = absurd (omega arith)
bit_or-zero_below (suc k) (suc a) h =
    omega (arith, bit_or_halves (suc a) 0, bit_or-zero_below k (suc a / 2) (omega arith))

pub bit_and_halves : (x y : ℕ) → bit_and x y ≡ min (x % 2) (y % 2) + 2 * bit_and (x / 2) (y / 2)
bit_and_halves (suc x) y = simp bit_and-bitwise (lowest_digit (λ t. 0) min x y)
bit_and_halves zero y = simp bit_and-bitwise (omega arith)

bit_and-zero_below : (k a : ℕ) → a ≤ k → bit_and a 0 ≡ 0
bit_and-zero_below k zero h = omega (arith, bit_and-bitwise 0 0)
bit_and-zero_below zero (suc a) h = absurd (omega arith)
bit_and-zero_below (suc k) (suc a) h =
    omega (arith, bit_and_halves (suc a) 0, bit_and-zero_below k (suc a / 2) (omega arith))

mul-two-pow-suc : (high width : ℕ) → high * 2 ^ suc width ≡ 2 * (high * 2 ^ width)
mul-two-pow-suc high width = omega (arith, ap (λ (t : ℕ). high * t) (pow-suc 2 width))

-- `(high << width) | low` is a sum when `low` fits `width` bits.
pub bit_or_fields :
    (width high low : ℕ) → low < 2 ^ width → bit_or (high * 2 ^ width) low ≡ high * 2 ^ width + low
bit_or_fields zero high low fits = ground (arith, bit_or-zero_below high high (le_refl _))
bit_or_fields (suc width) high low fits = ground (
  arith,
  bit_or_halves (high * 2 ^ suc width) low,
  mul-two-pow-suc high width,
  pow-suc 2 width,
  bit_or_fields width high (low / 2) (omega (arith, pow-suc 2 width)),
)

bit_and_fields :
    (width high low : ℕ) → low < 2 ^ width → bit_and (high * 2 ^ width + low) (2 ^ width - 1) ≡ low
bit_and_fields zero high low fits =
    omega (arith, bit_and-zero_below (high * 1 + low) (high * 1 + low) (le_refl _))
bit_and_fields (suc width) high low fits = ground (
  arith,
  bit_and_halves (high * 2 ^ suc width + low) (2 ^ suc width - 1),
  mul-two-pow-suc high width,
  pow-suc 2 width,
  one-le-pow width 2,
  bit_and_fields width high (low / 2) (omega (arith, pow-suc 2 width)),
)

-- A mask of `width` low bits is the remainder by `2 ^ width`.
pub bit_and_mask : (width a : ℕ) → bit_and a (2 ^ width - 1) ≡ low_bits a width
bit_and_mask width a =
    ground (arith, one-le-pow width 2, bit_and_fields width (a / 2 ^ width) (a % 2 ^ width))

div-two-pow-suc : (x k : ℕ) → x / 2 ^ suc k ≡ x / 2 / 2 ^ k
div-two-pow-suc x k =
    ap (λ (t : ℕ). x / t) (omega (arith, pow-suc 2 k)) ∙ sym (div-div-eq-div-mul x 2 (2 ^ k))

-- A single bit, one place up.
two-pow-suc-halves : (k : ℕ) → (2 ^ suc k / 2 ≡ 2 ^ k) × (2 ^ suc k % 2 ≡ 0)
two-pow-suc-halves k = omega (arith, pow-suc 2 k)

bit-suc : (x k : ℕ) → bit x (suc k) ≡ bit (x / 2) k
bit-suc x k = ap (λ (t : ℕ). t % 2) (div-two-pow-suc x k)

-- `x | (1 << k)`.
pub bit_or_single : (k x : ℕ) → bit_or x (2 ^ k) ≡ set_bit x k
bit_or_single zero x =
    ground (arith, bit_or_halves x 1, bit_or-zero_below (x / 2) (x / 2) (le_refl _))
bit_or_single (suc k) x =
    rw (bit_or_halves x (2 ^ suc k), (two-pow-suc-halves k).0, (two-pow-suc-halves k).1)
      (rw (bit_or_single k (x / 2), bit-suc x k, mul-two-pow-suc (1 - bit (x / 2) k) k)
        (omega arith))

-- `x & (1 << k)`.
pub bit_and_single : (k x : ℕ) → bit_and x (2 ^ k) ≡ bit x k * 2 ^ k
bit_and_single zero x =
    ground (arith, bit_and_halves x 1, bit_and-zero_below (x / 2) (x / 2) (le_refl _))
bit_and_single (suc k) x =
    rw (bit_and_halves x (2 ^ suc k), (two-pow-suc-halves k).0, (two-pow-suc-halves k).1)
      (rw (bit_and_single k (x / 2), bit-suc x k, mul-two-pow-suc (bit (x / 2) k) k) (omega arith))
