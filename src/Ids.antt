-- ===== src/Ids.antt =====
-- How falcon/utils/path_parse.c, falcon/utils/utils.c and falcon/metadb/meta_handle_helper.c make
-- the numbers of inodes and of the parts of a directory. Values are unsigned words; PostgreSQL's
-- nextval is a function of how often it was called.
pub mod Issue
pub mod Fields
mod Tests
use falconfs.Common.{
  update, ℕ, zero, suc, ◌+◌, ◌-◌, ◌*◌, ◌/◌, ◌%◌, ◌^◌, ◌≤◌, ◌<◌, ◌≡◌, ◌≢◌, refl, sym, ap, ap₂, subst,
  ◌∙◌, fun_ext, ◌↔◌, ◌⊎◌, inl, inr, Bool, true, false, not, ◌&&◌, ◌||◌, Option, none, some, List,
  [], ◌∷◌, ◌++◌, map, arith, dec_lt, dec_le, ℕ_discrete, ltb, leb, ◌==◌, if◌then◌else◌, ltb→lt,
  lt→ltb, leb→le, ==_iff, ==_refl, ==_ne, Bool-cases, Option-cases, Eq, ◌=?◌, nat_eq, list_eq,
  =?_ne, =?_refl, length, get_elem?, length-append, get_elem?-append_last, All, Result, ok, err,
  ◌>>=◌, ◌>>◌, guard, u32, u64, low_bits, bit_and, bit_or, bit_xor,
}

-- The static variables of GetNextSequenceNum in one backend.
pub record Batch : Type 0 where
  pub remain : ℕ
  pub current : ℕ

-- The backends, and how many batches the sequence has handed out.
pub record Sequence : Type 0 where
  pub batches : ℕ → Batch
  pub drawn : ℕ

abbrev pub batch_size : ℕ
batch_size = 32

unfoldable pub refill : (ℕ → ℕ) → Batch → ℕ → Batch × ℕ
refill nextval b drawn =
    if b.remain == 0
    then (record { remain = batch_size; current = u64 (nextval drawn) }, drawn + 1)
    else (b, drawn)

-- GetNextSequenceNum in one backend.
unfoldable pub next_sequence_num : (ℕ → ℕ) → Batch → ℕ → ℕ × Batch × ℕ
next_sequence_num nextval b drawn =
    let (filled, drawn') = refill nextval b drawn in
    let current' = u64 (filled.current + 1) in
    (
      u64 (current' + (2 ^ 64 - 1)),
      record { remain = filled.remain - 1; current = current' },
      drawn',
    )

-- The same in the backend `i`.
pub next_in : (ℕ → ℕ) → ℕ → Sequence → ℕ × Sequence
next_in nextval i s =
    let (n, b, drawn') = next_sequence_num nextval (s.batches i) s.drawn in
    (n, record { batches = update s.batches i b; drawn = drawn' })

-- The numbers that backends get, in the order in which they ask.
pub issued : (ℕ → ℕ) → List ℕ → Sequence → List ℕ
issued nextval [] s = []
issued nextval (i ∷ is) s = let (n, s') = next_in nextval i s in n ∷ issued nextval is s'

unfoldable pub generate_inode_id_by_seq_and_node_id : ℕ → ℕ → ℕ
generate_inode_id_by_seq_and_node_id seq node_id =
    bit_or (u64 (seq * 2 ^ 12)) (bit_and node_id (2 ^ 12 - 1))

abbrev pub part_id_bit_count : ℕ
part_id_bit_count = 13

abbrev pub part_id_mask : ℕ
part_id_mask = 8191

-- A `char` widened to 16 bits: it is signed.
abbrev pub widen : ℕ → ℕ
widen c = if ltb c 128 then c else c + 2 ^ 16 - 2 ^ 8

pub hash_name : ℕ → List ℕ → ℕ → ℕ
hash_name zero cs hash = hash
hash_name (suc bound) [] hash = hash
hash_name (suc bound) (c ∷ cs) hash = hash_name bound cs ((hash * 31 + widen c) % 2 ^ 16)

-- HashPartId, of the bytes before the terminator; `bound` is FILENAMELENGTH.
pub hash_part_id : ℕ → List ℕ → ℕ
hash_part_id bound file_name = bit_and (hash_name bound file_name 0) part_id_mask

pub combine_parent_id_with_part_id : ℕ → ℕ → ℕ
combine_parent_id_with_part_id parent_id part_id =
    bit_or (u64 (parent_id * 2 ^ part_id_bit_count)) part_id
