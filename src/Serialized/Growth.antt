-- ===== src/Serialized/Growth.antt =====
-- The growth of the buffer, SerializedDataEnlarge and SerializedDataInit of
-- remote_connection_def/remote_connection_utils/serialized_data.h.
use falconfs.Common.{
  ℕ, zero, suc, ◌*◌, ◌%◌, ◌^◌, ◌≤◌, ◌<◌, ◌≡◌, refl, subst, Bool, true, some, arith, dec_lt, dec_le,
  nat_eq, list_eq, u32,
}
use falconfs.Serialized.{SerializedData, double_until, first_capacity, serialized_data_enlarge}

-- The size is within the capacity, both are words, and the size is a multiple of four.
pub record Sound (sd : SerializedData) : Type 0 where
  pub within : sd.size ≤ sd.capacity
  pub word : sd.capacity < 2 ^ 32
  pub whole : sd.size % 4 ≡ 0

abbrev doublings : ℕ → ℕ → ℕ
doublings zero c = c
doublings (suc n) c = doublings n (c * 2)

doublings-31 : (c : ℕ) → 0 < c → 2 ^ 31 ≤ doublings 31 c
doublings-31 c pos = omega arith

u32-double : (c : ℕ) → c < 2 ^ 31 → c * 2 ≡ u32 (c * 2)
u32-double c lt = omega arith

Doubled : ℕ → ℕ → ℕ → Type 0
Doubled fuel c size =
    (c' : ℕ) × (double_until (suc fuel) c size ≡ some c') × (size ≤ c') × (c' < 2 ^ 32)

double_until-Doubled :
    (fuel c size : ℕ)
    → 0 < c
    → c < 2 ^ 32
    → size ≤ 2 ^ 31
    → size ≤ doublings fuel c
    → Doubled fuel c size
unfolding double_until Doubled
double_until-Doubled zero c size pos word le enough = (c, ground arith, omega arith, word)
double_until-Doubled (suc fuel) c size pos word le enough = elim (dec_lt c size) [
  | yes lt ↦
      let (c', q, reach, word') =
        double_until-Doubled fuel (u32 (c * 2)) size (omega arith) (omega arith) le
          (subst (λ (t : ℕ). size ≤ doublings fuel t) (u32-double c (omega arith)) enough) in
      (c', ground (arith, q), reach, word')
  | no ge ↦ (c, ground arith, omega arith, word)
]

-- What a growth to `size` leaves: the same bytes and size, and room.
pub record Grown (sd : SerializedData) (size : ℕ) (sd' : SerializedData) : Type 0 where
  pub same_buffer : sd'.buffer ≡ sd.buffer
  pub same_size : sd'.size ≡ sd.size
  pub room : size ≤ sd'.capacity
  pub word : sd'.capacity < 2 ^ 32

-- With memory to be had, growing to a size of at most 2^31 ends within 32 doublings, keeps the
-- bytes and the size, and makes the capacity large enough, for every capacity of at most 2^31 - 1.
pub serialized_data_enlarge-Grown :
    (grants : ℕ → Bool) (sd : SerializedData) (size : ℕ)
    → ((c : ℕ) → grants c ≡ true)
    → sd.managed ≡ true
    → sd.capacity < 2 ^ 31
    → size ≤ 2 ^ 31
    → (sd' : SerializedData) × (serialized_data_enlarge grants 32 sd size ≡ some sd')
      × Grown sd size sd'
unfolding serialized_data_enlarge Doubled
serialized_data_enlarge-Grown grants sd size all managed small le = elim (dec_le size sd.capacity) [
  | yes fits ↦ (
    sd,
    ground arith,
    record { same_buffer = refl; same_size = refl; room = fits; word = omega arith },
  )
  | no more ↦
      let first = first_capacity sd.capacity in
      let pos : 0 < first_capacity sd.capacity = ground arith in
      let word : first_capacity sd.capacity < 2 ^ 32 = ground arith in
      let enough : size ≤ doublings 31 (first_capacity sd.capacity) =
        omega (arith, doublings-31 (first_capacity sd.capacity) pos) in
      let (c, q, reach, small') = double_until-Doubled 31 first size pos word le enough in
      (
        record sd { capacity = c },
        ground (arith, q, all c, managed),
        record { same_buffer = refl; same_size = refl; room = reach; word = small' },
      )
]
