-- ===== src/DirHash/Ops.antt =====
-- The operations of falcon/dir_path_shmem/dir_path_hash.c on the cache and the directory table.
use falconfs.Common.{
  pos, ℕ, zero, suc, ◌+◌, ◌-◌, ◌%◌, ◌^◌, Bool, true, false, Option, none, some, List, [], ◌∷◌, ltb,
  leb, ◌==◌, if◌then◌else◌, nat_eq, list_eq, find, change, remove, update, length, Result, ok, err,
  u32,
}
use falconfs.PathParse.{DirLock, dir_lock_exclusive, dir_lock_shared, dir_lock_none, not_exist}
use falconfs.DirTable.{
  Key, key_eq, search_directory_table_info, insert_into_directory_table,
  delete_from_directory_table,
}
use falconfs.DirHash.{
  unknown, partition_size, clear_begin, Item, Items, Partition, Action, added, renumbered, DirHash,
  Error, target_exists, corrupt, not_supported_lock_mode, cannot_find_elem, wrong_lock_number,
  waits, endless, M, run_on, ◌>>=◌, ◌>>◌, give, raise, Env, dir_path_hash_to_commit_add_entry,
  dir_path_hash_to_commit_update_entry, dir_path_hash_to_commit_clear, on_table, is_none, try_lock,
  pinned, known, find_next_item, may_go,
}

-- The settling of a number read from the table with the one that an entry got meanwhile.
unfoldable pub settle : ℕ → ℕ → Result Error ℕ
settle id cached =
    if cached == unknown then ok id else if cached == id then ok cached else err corrupt

abbrev pub emptied : Partition → Partition
emptied p = record p { items = [] }

-- The entry counts stay.
unfoldable pub clear_dir_path_hash : DirHash → DirHash
clear_dir_path_hash s = record s {
  partitions = λ i. if ltb i partition_size then emptied (s.partitions i) else s.partitions i;
}

unfoldable pub abort_for_dir_path_hash : DirHash → DirHash
abort_for_dir_path_hash s = dir_path_hash_to_commit_clear s

module _ (env : Env) where
  unfoldable pub index : Key → ℕ
  index k = env.hash k % partition_size

  -- hash_search_with_hash_value with HASH_FIND.
  unfoldable pub peek : Key → DirHash → Option Item
  peek k s = find k (s.partitions (index k)).items

  abbrev pub with_items : (Items → Items) → Partition → Partition
  with_items f p = record p { items = f p.items }

  unfoldable pub modify : Key → (Item → Item) → DirHash → DirHash
  modify k f s = record s {
    partitions = update s.partitions (index k) (with_items (change k f) (s.partitions (index k)));
  }

  abbrev pub has_room : Key → DirHash → Bool
  has_room k s = env.has_room (index k) (length (s.partitions (index k)).items)

  -- What HASH_ENTER_NULL makes, and the count of the entries.
  unfoldable pub new_entry : Key → Item → DirHash → DirHash
  new_entry k item s =
      let p = s.partitions (index k) in
      record s {
        partitions =
            update s.partitions (index k)
              (record { items = (k, item) ∷ p.items; entry_count = u32 (p.entry_count + 1) });
      }

  abbrev pub recycled : Key → DirHash → Item
  recycled k s = env.recycled (s.partitions (index k)).items

  module _ (fuel : ℕ) where
    -- The scans from the first bucket, until an entry is chosen or none is destroyable.
    unfoldable pub rescan : ℕ → Items → Items × Result Error (Option Key)
    rescan zero items = (items, err endless)
    rescan (suc rounds) items =
        let (chosen, items', destroyable) = find_next_item (env.scan_all items) items in
        let again = rescan rounds items' in
        elim chosen [
          | some k ↦ (items', ok (some k))
          | none ↦ if destroyable == 0 then (items', ok none) else again
        ]

    unfoldable pub choose : Items → Items × Result Error (Option Key)
    choose items =
        let (chosen, items', destroyable) = find_next_item (env.scan_from_random items) items in
        elim chosen [ some k ↦ (items', ok (some k)) | none ↦ rescan fuel items' ]

    abbrev pub without : Key → Items → Partition → Partition
    without k items p = record {
      items = remove k items;
      entry_count = u32 (p.entry_count + 2 ^ 32 - 1);
    }

    unfoldable pub eliminate_loop : ℕ → Partition → Partition × Result Error Bool
    eliminate_loop zero p = (p, err endless)
    eliminate_loop (suc rounds) p =
        let (items, chosen) = choose p.items in
        let again = eliminate_loop rounds (record p { items = items }) in
        elim chosen [
          | err e ↦ (record p { items = items }, err e)
          | ok none ↦ (record p { items = items }, ok false)
          | ok (some k) ↦ if may_go (find k items) then (without k items p, ok true) else again
        ]

    -- EliminateDirPathHashByLRU on one partition.
    unfoldable pub eliminate : Partition → Partition × Result Error Bool
    eliminate p = if leb p.entry_count clear_begin then (p, ok false) else eliminate_loop fuel p

    unfoldable pub eliminate_dir_path_hash_by_lru : ℕ → M Bool
    eliminate_dir_path_hash_by_lru i s =
        let (p, result) = eliminate (s.partitions i) in
        (record s { partitions = update s.partitions i p }, result)

    abbrev pub settled : Key → Item → Result Error ℕ → M (Option Item)
    settled k item (ok id) s =
        (modify k (λ i. record i { inode_id = id }) s, ok (some (record item { inode_id = id })))
    settled k item (err e) s = (s, err e)

    -- The loop that finds or makes the entry: a new one has the number `fresh`, an old one keeps what
    -- `settling` says. Without memory a lock of mode NONE goes without an entry.
    unfoldable pub enter_loop : ℕ → DirLock → Key → ℕ → (ℕ → Result Error ℕ) → M (Option Item)
    enter_loop zero mode k fresh settling s = (s, err endless)
    enter_loop (suc rounds) mode k fresh settling s =
        let item : Item = record { inode_id = fresh; lock = 0; usage_count = pos 0 } in
        let again =
          (eliminate_dir_path_hash_by_lru (index k) >>= λ gone.
          enter_loop rounds mode k fresh settling)
            s in
        elim (peek k s) [
          | some old ↦ settled k old (settling old.inode_id) s
          | none ↦
              if has_room k s
              then (dir_path_hash_to_commit_add_entry k >> give (some item)) (new_entry k item s)
              else if is_none mode
              then (s, ok none)
              else again
        ]

    -- The use is counted, and the lock taken.
    unfoldable pub pin : DirLock → Key → Item → M (Unit {0})
    pin mode k item s =
        (modify k (pinned mode) s, if (try_lock mode item.lock).0 then ok tt else err waits)

    abbrev pub locate : DirLock → Key → ℕ → M (Option Item)
    locate mode k id s = elim (known (peek k s)) [
      | some item ↦ (s, ok (some item))
      | none ↦ enter_loop fuel mode k id (settle id) s
    ]

    abbrev pub searched : DirLock → Key → ℕ → Option Item → M ℕ
    searched mode k id none = give id
    searched mode k id (some item) = pin mode k item >> give item.inode_id

    unfoldable pub search_directory_by_directory_hash_table : Key → DirLock → M ℕ
    search_directory_by_directory_hash_table k mode s =
        let id = search_directory_table_info k s.table in
        (locate mode k id >>= searched mode k id) s

    abbrev pub located_absent : DirLock → Key → M (Option Item)
    located_absent mode k s = elim (known (peek k s)) [
      | some item ↦ (s, ok (some item))
      | none ↦
          let id = search_directory_table_info k s.table in
          if id == not_exist
          then enter_loop fuel mode k id (settle id) s
          else (s, err target_exists)
    ]

    abbrev pub inserted : DirLock → Key → ℕ → Option Item → M (Unit {0})
    inserted mode k id none = on_table (insert_into_directory_table k id)
    inserted mode k id (some item) = do
      pin mode k item
      on_table (insert_into_directory_table k id)
      dir_path_hash_to_commit_update_entry k id

    unfoldable pub insert_directory_by_directory_hash_table : Key → ℕ → DirLock → M (Unit {0})
    insert_directory_by_directory_hash_table k id mode =
        located_absent mode k >>= inserted mode k id

    abbrev pub deleted : DirLock → Key → Option Item → M (Unit {0})
    deleted mode k none = on_table (delete_from_directory_table k)
    deleted mode k (some item) = do
      pin mode k item
      on_table (delete_from_directory_table k)
      dir_path_hash_to_commit_update_entry k not_exist

    abbrev pub locate_any : DirLock → Key → M (Option Item)
    locate_any mode k s = elim (peek k s) [
      | some item ↦ (s, ok (some item))
      | none ↦ enter_loop fuel mode k unknown (λ id. ok id) s
    ]

    unfoldable pub delete_directory_by_directory_hash_table : Key → DirLock → M (Unit {0})
    delete_directory_by_directory_hash_table k dir_lock_shared = raise not_supported_lock_mode
    delete_directory_by_directory_hash_table k mode = locate_any mode k >>= deleted mode k

    -- An entry made here keeps the lock word and the use count that its memory held.
    unfoldable pub commit_number : Key → ℕ → DirHash → DirHash
    commit_number k id s = elim (peek k s) [
      | some item ↦ modify k (λ i. record i { inode_id = id }) s
      | none ↦ if has_room k s then new_entry k (record (recycled k s) { inode_id = id }) s else s
    ]

    unfoldable pub commit_action : Action → M (Unit {0})
    commit_action (added k) s = (eliminate_dir_path_hash_by_lru (index k) >>= λ gone. give tt) s
    commit_action (renumbered k id) s = (commit_number k id s, ok tt)

    unfoldable pub commit_actions : List Action → M (Unit {0})
    commit_actions [] s = (s, ok tt)
    commit_actions (a ∷ as') s = run_on (λ u. commit_actions as') (commit_action a s)

    unfoldable pub commit_for_dir_path_hash : M (Unit {0})
    commit_for_dir_path_hash s =
        run_on (λ u s'. (dir_path_hash_to_commit_clear s', ok tt)) (commit_actions s.to_commit s)

    -- The function that SQL calls, with the lock given by a number.
    unfoldable pub lock_of_number : ℕ → Result Error DirLock
    lock_of_number zero = ok dir_lock_none
    lock_of_number (suc zero) = ok dir_lock_shared
    lock_of_number (suc (suc zero)) = ok dir_lock_exclusive
    lock_of_number (suc (suc (suc n))) = err wrong_lock_number

    abbrev pub search_locked : Key → Result Error DirLock → M (Unit {0})
    search_locked k (ok mode) = search_directory_by_directory_hash_table k mode >>= λ id.
        if id == not_exist then raise cannot_find_elem else give tt
    search_locked k (err e) = raise e

    unfoldable pub falcon_acquire_hash_lock : Key → ℕ → M (Unit {0})
    falcon_acquire_hash_lock k number = search_locked k (lock_of_number number)
