-- ===== src/Serialized/Segments.antt =====
-- Segments written and skipped, SerializedDataApplyForSegment and SerializedDataNextSeveralItemSize
-- of remote_connection_def/remote_connection_utils/serialized_data.h.
use falconfs.Common.{
  ℕ, ◌+◌, ◌-◌, ◌%◌, ◌^◌, ◌≤◌, ◌<◌, ◌≡◌, sym, ap, ◌∙◌, Bool, true, false, Option, none, some, arith,
  nat_eq, list_eq, u32,
}
use falconfs.Serialized.{
  SerializedData, convert_between_big_and_little_endian, native_byte, store, load, converted,
  aligned, put_segment, serialized_data_apply_for_segment, skip_items,
  serialized_data_next_several_item_size, alignment,
}
use falconfs.Serialized.Growth.{Sound, Grown, serialized_data_enlarge-Grown}

-- The swap of the bytes of a word undoes itself.
pub convert-convert :
    (v : ℕ)
    → v < 2 ^ 32
    → convert_between_big_and_little_endian (convert_between_big_and_little_endian v) ≡ v
unfolding convert_between_big_and_little_endian
convert-convert v lt = omega arith

store-first : (little : Bool) (p v : ℕ) (b : ℕ → ℕ) → store little p v b p ≡ native_byte little v 0
store-first little p v b = ground arith

store-byte :
    (little : Bool) (p v i : ℕ) (b : ℕ → ℕ)
    → i < 4
    → store little p v b (p + i) ≡ native_byte little v i
store-byte little p v i b lt = ground arith

load-store :
    (little : Bool) (p v : ℕ) (b : ℕ → ℕ) → v < 2 ^ 32 → load little p (store little p v b) ≡ v
load-store true p v b lt = omega (
  arith,
  store-first true p v b,
  store-byte true p v 1 b (omega arith),
  store-byte true p v 2 b (omega arith),
  store-byte true p v 3 b (omega arith),
)
load-store false p v b lt = omega (
  arith,
  store-first false p v b,
  store-byte false p v 1 b (omega arith),
  store-byte false p v 2 b (omega arith),
  store-byte false p v 3 b (omega arith),
)

pub aligned-bounds :
    (size : ℕ)
    → size < 2 ^ 32 - 4
    → (aligned size % 4 ≡ 0) × (size ≤ aligned size) × (aligned size < size + 4)
unfolding aligned
aligned-bounds size lt = omega arith

swapped-lt : (v : ℕ) → convert_between_big_and_little_endian v < 2 ^ 32
unfolding convert_between_big_and_little_endian
swapped-lt v = omega arith

-- On either kind of machine the length written in front of a segment is read back.
length_field :
    (little : Bool) (p v : ℕ) (b : ℕ → ℕ)
    → v < 2 ^ 32
    → converted little (load little p (store little p (converted little v) b)) ≡ v
length_field true p v b lt = load-store true p v b lt
length_field false p v b lt =
    ap convert_between_big_and_little_endian
      (load-store false p (convert_between_big_and_little_endian v) b (swapped-lt v))
    ∙ convert-convert v lt

-- The result of a request for a segment of `size` bytes.
pub record Applied (little : Bool) (sd : SerializedData) (size : ℕ) (sd' : SerializedData) (p : ℕ)
    : Type 0 where
  pub sound : Sound sd'
  pub place : p ≡ sd.size + alignment
  pub holds : p + size ≤ sd'.size
  pub skips : serialized_data_next_several_item_size little sd' sd.size 1 ≡ sd'.size - sd.size

skip_one :
    (little : Bool) (sd : SerializedData) (start a : ℕ)
    → converted little (load little start sd.buffer) ≡ a
    → start % 4 ≡ 0
    → a % 4 ≡ 0
    → start + alignment + a ≤ sd.size
    → sd.size < 2 ^ 32
    → serialized_data_next_several_item_size little sd start 1 ≡ alignment + a
unfolding serialized_data_next_several_item_size skip_items
skip_one little sd start a field whole whole' le word = ground (arith, field)

put_segment-Applied :
    (little : Bool) (sd grown : SerializedData) (size : ℕ)
    → Sound sd
    → Grown sd (u32 (sd.size + alignment + aligned size)) grown
    → sd.size + size < 2 ^ 31 - 8
    → Applied little sd size
        (put_segment little (aligned size) grown).0
        (put_segment little (aligned size) grown).1
put_segment-Applied little sd grown size sound g le =
    let bounds = aligned-bounds size (omega arith) in
    record {
      sound = record {
        within = omega (arith, bounds, g.room, g.same_size);
        word = g.word;
        whole = omega (arith, bounds, sound.whole, g.same_size);
      };
      place = omega (arith, g.same_size);
      holds = omega (arith, bounds, g.same_size);
      skips =
          skip_one little (put_segment little (aligned size) grown).0 sd.size (aligned size)
            (ap
                (λ (t : ℕ).
                  converted little
                    (load little t (put_segment little (aligned size) grown).0.buffer))
                (sym g.same_size)
              ∙ length_field little grown.size (aligned size) grown.buffer (omega (arith, bounds)))
            sound.whole bounds.0 (omega (arith, bounds, g.same_size)) (omega arith)
          ∙ omega (arith, bounds, g.same_size);
    }

-- With memory to be had and room below 2^31, a request for a segment succeeds: the segment lies
-- behind the old contents and within the new size and capacity, the buffer stays a multiple of four
-- long, and skipping one item from the old end leads to the new end, on either kind of machine.
pub serialized_data_apply_for_segment-Applied :
    (little : Bool) (grants : ℕ → Bool) (sd : SerializedData) (size : ℕ)
    → ((c : ℕ) → grants c ≡ true)
    → Sound sd
    → sd.managed ≡ true
    → sd.capacity < 2 ^ 31
    → sd.size + size < 2 ^ 31 - 8
    → (sd' : SerializedData) × (p : ℕ) × (serialized_data_apply_for_segment little grants 32 sd size
        ≡ some (sd', p))
      × Applied little sd size sd' p
unfolding serialized_data_apply_for_segment
serialized_data_apply_for_segment-Applied little grants sd size all sound managed small le =
    let bounds = aligned-bounds size (omega arith) in
    let total : u32 (sd.size + alignment + aligned size) ≤ 2 ^ 31 = omega (arith, bounds) in
    let (grown, q, g) =
      serialized_data_enlarge-Grown grants sd (u32 (sd.size + alignment + aligned size)) all managed
        small total in
    (
      (put_segment little (aligned size) grown).0,
      (put_segment little (aligned size) grown).1,
      ap
          (λ (o : Option SerializedData). elim o [
            | none ↦ none
            | some sd' ↦ some (put_segment little (aligned size) sd')
          ])
          q,
      put_segment-Applied little sd grown size sound g le,
    )
