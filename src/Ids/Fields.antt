-- ===== src/Ids/Fields.antt =====
-- The fields of the numbers made by GenerateInodeIdBySeqAndNodeId, falcon/utils/utils.c, and by
-- HashPartId and CombineParentIdWithPartId, falcon/metadb/meta_handle_helper.c.
use falconfs.Common.{
  ℕ, ◌+◌, ◌*◌, ◌/◌, ◌%◌, ◌^◌, ◌<◌, ◌≡◌, ap, List, arith, u32, u64, low_bits, bit_xor,
}
use falconfs.Common.Bits.{bit_or_fields, bit_and_mask}
use falconfs.Shard.{hash_shard}
use falconfs.Ids.{
  generate_inode_id_by_seq_and_node_id, hash_part_id, hash_name, combine_parent_id_with_part_id,
}

u64_mul12 : (n : ℕ) → u64 (n * 2 ^ 12) ≡ n % 2 ^ 52 * 2 ^ 12
u64_mul12 n = omega arith

u64_mul13 : (n : ℕ) → u64 (n * 2 ^ 13) ≡ n % 2 ^ 51 * 2 ^ 13
u64_mul13 n = omega arith

generate_inode_id-fields :
    (seq node_id : ℕ)
    → generate_inode_id_by_seq_and_node_id seq node_id ≡ u64 (seq * 2 ^ 12) + low_bits node_id 12
unfolding generate_inode_id_by_seq_and_node_id
generate_inode_id-fields seq node_id = ground (
  arith,
  bit_and_mask 12 node_id,
  u64_mul12 seq,
  bit_or_fields 12 (seq % 2 ^ 52) (node_id % 2 ^ 12) (omega arith),
)

-- For a sequence number below 2^52, the inode number's upper bits are the sequence number and its
-- lower 12 bits are those of the node number.
pub generate_inode_id-seq :
    (seq node_id : ℕ)
    → seq < 2 ^ 52
    → (generate_inode_id_by_seq_and_node_id seq node_id / 2 ^ 12 ≡ seq)
      × (low_bits (generate_inode_id_by_seq_and_node_id seq node_id) 12 ≡ low_bits node_id 12)
generate_inode_id-seq seq node_id lt = rw (generate_inode_id-fields seq node_id) (omega arith)

hash_part_id-low_bits :
    (bound : ℕ) (name : List ℕ) → hash_part_id bound name ≡ low_bits (hash_name bound name 0) 13
unfolding hash_part_id
hash_part_id-low_bits bound name = bit_and_mask 13 (hash_name bound name 0)

combine_parent_id_with_part_id-fields :
    (parent_id part_id : ℕ)
    → part_id < 2 ^ 13
    → combine_parent_id_with_part_id parent_id part_id ≡ u64 (parent_id * 2 ^ 13) + part_id
unfolding combine_parent_id_with_part_id
combine_parent_id_with_part_id-fields parent_id part_id lt =
    ground (arith, u64_mul13 parent_id, bit_or_fields 13 (parent_id % 2 ^ 51) part_id lt)

hash_part_id-lt : (bound : ℕ) (name : List ℕ) → hash_part_id bound name < 2 ^ 13
hash_part_id-lt bound name = omega (arith, hash_part_id-low_bits bound name)

combined_low_bits :
    (parent_id part_id : ℕ)
    → part_id < 2 ^ 13
    → low_bits (combine_parent_id_with_part_id parent_id part_id) 13 ≡ part_id
combined_low_bits parent_id part_id lt =
    omega (arith, combine_parent_id_with_part_id-fields parent_id part_id lt)

hash_shard-low_bits :
    (hash_bytes : ℕ → ℕ) (a b : ℕ)
    → low_bits a 13 ≡ low_bits b 13
    → hash_shard hash_bytes a ≡ hash_shard hash_bytes b
unfolding hash_shard
hash_shard-low_bits hash_bytes a b e =
    ap (λ (v : ℕ). low_bits (u32 (hash_bytes (bit_xor (u32 v) (v / 2 ^ 32)))) 31) e

-- The key of a file, made of its parent's number below 2^51 and of its name's part, gives both back,
-- and its shard is that of the part alone: files with one name have one hash value, whatever their
-- directories.
pub combine-hash_part_id :
    (bound : ℕ) (hash_bytes : ℕ → ℕ) (parent_id : ℕ) (name : List ℕ)
    → parent_id < 2 ^ 51
    → let key = combine_parent_id_with_part_id parent_id (hash_part_id bound name) in
      (key / 2 ^ 13 ≡ parent_id)
      × (low_bits key 13 ≡ hash_part_id bound name)
      × (hash_shard hash_bytes key ≡ hash_shard hash_bytes (hash_part_id bound name))
combine-hash_part_id bound hash_bytes parent_id name lt =
    let part_lt = hash_part_id-lt bound name in
    let key_eq =
      combine_parent_id_with_part_id-fields parent_id (hash_part_id bound name) part_lt in
    let low = combined_low_bits parent_id (hash_part_id bound name) part_lt in
    (
      omega (arith, key_eq, part_lt),
      low,
      hash_shard-low_bits hash_bytes
          (combine_parent_id_with_part_id parent_id (hash_part_id bound name))
          (hash_part_id bound name) (omega (arith, low, part_lt)),
    )
