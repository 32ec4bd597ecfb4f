-- ===== src/Serialized/Tests.antt =====
-- Runs of the serialized buffer, and its theorems at concrete inputs.
use falconfs.Common.{
  ℕ, ◌+◌, ◌-◌, ◌^◌, ◌≡◌, refl, true, false, ◌&&◌, Option, none, some, arith, ltb, leb,
  if◌then◌else◌, nat_eq, list_eq,
}
use falconfs.Serialized.{
  SerializedData, double_until, serialized_data_enlarge, serialized_data_init,
  serialized_data_clear, serialized_data_apply_for_segment, serialized_data_append, skip_items,
  serialized_data_next_several_item_size, aligned, convert_between_big_and_little_endian,
}
use falconfs.Serialized.Growth.{Sound, Grown, serialized_data_enlarge-Grown}
use falconfs.Serialized.Segments.{
  Applied, serialized_data_apply_for_segment-Applied, convert-convert,
}

abbrev empty : SerializedData
empty = record { buffer = λ a. 0; size = 0; capacity = 0; managed = true }

empty-Sound : Sound empty
empty-Sound = record { within = omega arith; word = omega arith; whole = refl }

init_run :
    (serialized_data_init none 0 0 false ≡ some empty)
    × (serialized_data_init (some (λ a. 0)) 6 0 true ≡ none)
unfolding serialized_data_init
init_run = (refl, refl)

abbrev request : Option (SerializedData × ℕ) → ℕ → Option (SerializedData × ℕ)
request none size = none
request (some (sd, p)) size = serialized_data_apply_for_segment true (λ c. true) 32 sd size

abbrev items_of : Option (SerializedData × ℕ) → ℕ
items_of none = 0
items_of (some (sd, p)) = serialized_data_next_several_item_size true sd 0 2

abbrev capacity_of : Option (SerializedData × ℕ) → Option ℕ
capacity_of none = none
capacity_of (some (sd, p)) = some sd.capacity

-- Two segments, of 5 and 130 bytes, are 8 + 4 and 132 + 4 bytes long.
segments_run : items_of (request (request (some (empty, 0)) 5) 130) ≡ 148
unfolding serialized_data_apply_for_segment serialized_data_enlarge double_until aligned skip_items
    serialized_data_next_several_item_size
segments_run = refl

-- A buffer appended to itself in a cleared state is the buffer.
append_run :
    serialized_data_append (λ c. true) 32 (serialized_data_clear empty) empty
    ≡ some (record empty { buffer = λ a. if leb 0 a && ltb a 0 then 0 else 0 })
unfolding serialized_data_append serialized_data_clear serialized_data_enlarge
append_run = refl

-- Beyond 2^31 the doubled capacity wraps to 0 and stays there.
endless_growth_run : double_until 64 128 (2 ^ 31 + 1) ≡ none
unfolding double_until
endless_growth_run = refl

-- The sum of the sizes wraps, so an empty buffer grants a segment of 2^32 - 4 bytes and still has no
-- room.
wrapped_request_run : capacity_of (request (some (empty, 0)) (2 ^ 32 - 4)) ≡ some 0
unfolding serialized_data_apply_for_segment serialized_data_enlarge aligned
wrapped_request_run = refl

swap_twice_run :
    convert_between_big_and_little_endian (convert_between_big_and_little_endian 258) ≡ 258
swap_twice_run = convert-convert 258 (omega arith)

serialized_data_enlarge-Grown_example :
    (sd' : SerializedData) × (serialized_data_enlarge (λ c. true) 32 empty 1000 ≡ some sd')
    × Grown empty 1000 sd'
serialized_data_enlarge-Grown_example =
    serialized_data_enlarge-Grown (λ c. true) empty 1000 (λ c. refl) refl (omega arith)
      (omega arith)

serialized_data_apply_for_segment-Applied_example :
    (sd' : SerializedData) × (p : ℕ) × (serialized_data_apply_for_segment false
        (λ c. true)
        32
        empty
        5
      ≡ some (sd', p))
    × Applied false empty 5 sd' p
serialized_data_apply_for_segment-Applied_example =
    serialized_data_apply_for_segment-Applied false (λ c. true) empty 5 (λ c. refl) empty-Sound refl
      (omega arith) (omega arith)
