-- ===== src/Serialized.antt =====
-- remote_connection_def/remote_connection_utils/serialized_data.h: a buffer of segments, each a
-- length of four bytes in little-endian order and its bytes. Offsets into the buffer stand for
-- pointers; whether the memory manager gives memory is a parameter.
pub mod Growth
pub mod Segments
mod Tests
use falconfs.Common.{
  ℕ, zero, suc, ◌+◌, ◌-◌, ◌*◌, ◌/◌, ◌%◌, ◌^◌, ◌≤◌, ◌<◌, ◌≡◌, ◌≢◌, refl, sym, ap, ap₂, subst, ◌∙◌,
  fun_ext, ◌↔◌, ◌⊎◌, inl, inr, Bool, true, false, not, ◌&&◌, ◌||◌, Option, none, some, List, [],
  ◌∷◌, ◌++◌, map, arith, dec_lt, dec_le, ℕ_discrete, ltb, leb, ◌==◌, if◌then◌else◌, ltb→lt, lt→ltb,
  leb→le, ==_iff, ==_refl, ==_ne, Bool-cases, Option-cases, Eq, ◌=?◌, nat_eq, list_eq, =?_ne,
  =?_refl, length, get_elem?, length-append, get_elem?-append_last, All, Result, ok, err, ◌>>=◌,
  ◌>>◌, guard, u32, u64, low_bits, bit_and, bit_or, bit_xor,
}

abbrev pub alignment : ℕ
alignment = 4

abbrev pub default_capacity : ℕ
default_capacity = 128

pub record SerializedData : Type 0 where
  pub buffer : ℕ → ℕ
  pub size : ℕ
  pub capacity : ℕ
  pub managed : Bool

-- The byte `i` of a word.
abbrev pub byte : ℕ → ℕ → ℕ
byte value i = value / 2 ^ (8 * i) % 2 ^ 8

unfoldable pub convert_between_big_and_little_endian : ℕ → ℕ
convert_between_big_and_little_endian value =
    byte value 3 + byte value 2 * 2 ^ 8 + byte value 1 * 2 ^ 16 + byte value 0 * 2 ^ 24

-- A word in memory, on a little-endian or a big-endian machine.
abbrev pub native_byte : Bool → ℕ → ℕ → ℕ
native_byte little value i = if little then byte value i else byte value (3 - i)

abbrev pub store : Bool → ℕ → ℕ → (ℕ → ℕ) → ℕ → ℕ
store little p value buffer a =
    if leb p a && ltb a (p + 4) then native_byte little value (a - p) else buffer a

abbrev pub load : Bool → ℕ → (ℕ → ℕ) → ℕ
load little p buffer =
    if little
    then buffer p + buffer (p + 1) * 2 ^ 8 + buffer (p + 2) * 2 ^ 16 + buffer (p + 3) * 2 ^ 24
    else buffer (p + 3) + buffer (p + 2) * 2 ^ 8 + buffer (p + 1) * 2 ^ 16 + buffer p * 2 ^ 24

abbrev pub converted : Bool → ℕ → ℕ
converted little value = if little then value else convert_between_big_and_little_endian value

-- SerializedDataInit; no buffer is a NULL pointer.
unfoldable pub serialized_data_init : Option (ℕ → ℕ) → ℕ → ℕ → Bool → Option SerializedData
serialized_data_init none buffer_size valid_bytes managed =
    some (record { buffer = λ a. 0; size = 0; capacity = 0; managed = true })
serialized_data_init (some buffer) buffer_size valid_bytes managed =
    if not (low_bits buffer_size 2 == 0) || not (low_bits valid_bytes 2 == 0)
    then none
    else some
        (record { buffer = buffer; size = valid_bytes; capacity = buffer_size; managed = managed })

unfoldable pub serialized_data_clear : SerializedData → SerializedData
serialized_data_clear sd = record sd { size = 0 }

-- The loop of SerializedDataEnlarge; none is a run out of fuel.
unfoldable pub double_until : ℕ → ℕ → ℕ → Option ℕ
double_until zero new_capacity size = none
double_until (suc fuel) new_capacity size =
    let rest = double_until fuel (u32 (new_capacity * 2)) size in
    if ltb new_capacity size then rest else some new_capacity

abbrev pub first_capacity : ℕ → ℕ
first_capacity capacity = if capacity == 0 then default_capacity else u32 (capacity * 2)

abbrev pub with_capacity : (ℕ → Bool) → SerializedData → Option ℕ → Option SerializedData
with_capacity grants sd none = none
with_capacity grants sd (some c) = if grants c then some (record sd { capacity = c }) else none

-- SerializedDataEnlarge; none is a failure.
unfoldable pub serialized_data_enlarge : (ℕ → Bool) → ℕ → SerializedData → ℕ → Option SerializedData
serialized_data_enlarge grants fuel sd size =
    if leb size sd.capacity
    then some sd
    else if not sd.managed
    then none
    else with_capacity grants sd (double_until fuel (first_capacity sd.capacity) size)

-- size + ((~(size & 3) + 1) & 3)
unfoldable pub aligned : ℕ → ℕ
aligned size = u32 (size + low_bits (2 ^ 32 - low_bits size 2) 2)

abbrev pub put_segment : Bool → ℕ → SerializedData → SerializedData × ℕ
put_segment little size sd = (
  record sd {
    buffer = store little sd.size (converted little size) sd.buffer;
    size = u32 (sd.size + alignment + size);
  },
  sd.size + alignment,
)

-- SerializedDataApplyForSegment: the buffer, and the offset of the segment's bytes.
unfoldable pub serialized_data_apply_for_segment :
    Bool → (ℕ → Bool) → ℕ → SerializedData → ℕ → Option (SerializedData × ℕ)
serialized_data_apply_for_segment little grants fuel sd size =
    elim (serialized_data_enlarge grants fuel sd (u32 (sd.size + alignment + aligned size))) [
      | none ↦ none
      | some sd' ↦ some (put_segment little (aligned size) sd')
    ]

abbrev pub copied : SerializedData → SerializedData → SerializedData
copied dest src = record dest {
  buffer = λ a.
      if leb dest.size a && ltb a (dest.size + src.size)
      then src.buffer (a - dest.size)
      else dest.buffer a;
  size = u32 (dest.size + src.size);
}

unfoldable pub serialized_data_append :
    (ℕ → Bool) → ℕ → SerializedData → SerializedData → Option SerializedData
serialized_data_append grants fuel dest src =
    elim (serialized_data_enlarge grants fuel dest (u32 (dest.size + src.size))) [
      | none ↦ none
      | some dest' ↦ some (copied dest' src)
    ]

-- The loop of SerializedDataNextSeveralItemSize: the offset after the items.
unfoldable pub skip_items : Bool → SerializedData → ℕ → ℕ → Option ℕ
skip_items little sd zero p = some p
skip_items little sd (suc count) p =
    let item_size = converted little (load little p sd.buffer) in
    let rest = skip_items little sd count (p + alignment + item_size) in
    if not (low_bits item_size 2 == 0)
    then none
    else if ltb sd.size (p + alignment + item_size)
    then none
    else rest

-- The failure is -1, the largest word.
unfoldable pub serialized_data_next_several_item_size : Bool → SerializedData → ℕ → ℕ → ℕ
serialized_data_next_several_item_size little sd start item_count =
    if not (low_bits start 2 == 0)
    then 2 ^ 32 - 1
    else elim (skip_items little sd item_count start) [
      | none ↦ 2 ^ 32 - 1
      | some p ↦ u32 (u32 p + 2 ^ 32 - start)
    ]
