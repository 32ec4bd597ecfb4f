-- ===== src/DirHash/EvictTests.antt =====
-- Eliminations of falcon/dir_path_shmem/dir_path_hash.c in a partition with thirteen entries.
use falconfs.Common.{
  elem, pos, ℕ, ◌≡◌, refl, Bool, true, [], ◌∷◌, arith, nat_eq, list_eq, find, change, remove,
  Distinct, ok,
}
use falconfs.RwLock.{check_destroyable}
use falconfs.DirTable.{Key, key_eq}
use falconfs.DirHash.{Item, Partition, find_next_item}
use falconfs.DirHash.Ops.{rescan, choose, eliminate_loop, eliminate}
use falconfs.DirHash.Used.{ScansAll, All-UsedBelow}
use falconfs.DirHash.Evict.{eliminate-ends}
use falconfs.DirHash.Counts.{Evicted, eliminate-Evicted}
use falconfs.DirHash.Tests.{small}

-- Thirteen entries, one more than an elimination lets stay.
abbrev entry : ℕ → Key × Item
entry n = ((1, n ∷ []), record { inode_id = n; lock = 0; usage_count = pos 2 })

abbrev thirteen : Partition
thirteen = record {
  items =
      entry 1
      ∷ entry 2
      ∷ entry 3
      ∷ entry 4
      ∷ entry 5
      ∷ entry 6
      ∷ entry 7
      ∷ entry 8
      ∷ entry 9
      ∷ entry 10
      ∷ entry 11
      ∷ entry 12
      ∷ entry 13
      ∷ [];
  entry_count = 13;
}

small-ScansAll : ScansAll small
unfolding find elem
small-ScansAll [] k item h = absurd (ground (arith, h))
small-ScansAll ((j, v) ∷ xs) k item h = ground (arith, h, small-ScansAll xs k item)

eliminate-ends_example : (b : Bool) × ((eliminate small 4 thirteen).1 ≡ ok b)
eliminate-ends_example =
    eliminate-ends small small-ScansAll 4 3 thirteen (All-UsedBelow 3 thirteen.items (omega arith))
      (omega arith)

eliminate_run : (eliminate small 4 thirteen).1 ≡ ok true
unfolding eliminate eliminate_loop choose rescan find_next_item find change check_destroyable remove
eliminate_run = refl

thirteen_Distinct : Distinct thirteen.items
unfolding find
thirteen_Distinct = (
  refl,
  (
    refl,
    (refl, (refl, (refl, (refl, (refl, (refl, (refl, (refl, (refl, (refl, (refl, tt))))))))))),
  ),
)

eliminate-Evicted_example : Evicted 13 (eliminate small 4 thirteen)
eliminate-Evicted_example =
    eliminate-Evicted small 4 thirteen (thirteen_Distinct, refl, omega arith)
