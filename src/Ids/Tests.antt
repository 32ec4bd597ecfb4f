-- ===== src/Ids/Tests.antt =====
-- Runs of the number generators, and their theorems at concrete inputs.
use falconfs.Common.{ℕ, ◌+◌, ◌*◌, ◌/◌, ◌^◌, ◌≡◌, refl, [], ◌∷◌, arith, ℕ_discrete, low_bits}
use falconfs.Shard.{hash_shard}
use falconfs.Ids.{
  generate_inode_id_by_seq_and_node_id, hash_part_id, combine_parent_id_with_part_id, issued,
  next_in, next_sequence_num, refill, hash_name,
}
use falconfs.Ids.Issue.{fresh, Distinct, issued-Distinct}
use falconfs.Ids.Fields.{generate_inode_id-seq, combine-hash_part_id}

abbrev values : ℕ → ℕ
values k = 1 + 32 * k

-- Two backends with a batch each.
issued_run : issued values (4 ∷ 7 ∷ 4 ∷ 7 ∷ []) (fresh 0) ≡ 1 ∷ 33 ∷ 2 ∷ 34 ∷ []
unfolding issued next_in next_sequence_num refill ℕ_discrete
issued_run = refl

inode_id_run : generate_inode_id_by_seq_and_node_id 5 4099 ≡ 20483
unfolding generate_inode_id_by_seq_and_node_id
inode_id_run = refl

part_run : hash_part_id 256 (97 ∷ 98 ∷ []) ≡ 3105
unfolding hash_part_id hash_name
part_run = refl

issued-Distinct_example : Distinct (issued values (4 ∷ 7 ∷ 4 ∷ 7 ∷ []) (fresh 0))
issued-Distinct_example = issued-Distinct values 0 (4 ∷ 7 ∷ 4 ∷ 7 ∷ []) (λ k lt. omega arith)

generate_inode_id-seq_example :
    (generate_inode_id_by_seq_and_node_id 5 4099 / 2 ^ 12 ≡ 5)
    × (low_bits (generate_inode_id_by_seq_and_node_id 5 4099) 12 ≡ 3)
generate_inode_id-seq_example = generate_inode_id-seq 5 4099 (omega arith)

combine-hash_part_id_example :
    let key = combine_parent_id_with_part_id 20483 (hash_part_id 256 (97 ∷ 98 ∷ [])) in
    (key / 2 ^ 13 ≡ 20483)
    × (low_bits key 13 ≡ hash_part_id 256 (97 ∷ 98 ∷ []))
    × (hash_shard (λ v. v) key ≡ hash_shard (λ v. v) (hash_part_id 256 (97 ∷ 98 ∷ [])))
combine-hash_part_id_example = combine-hash_part_id 256 (λ v. v) 20483 (97 ∷ 98 ∷ []) (omega arith)
