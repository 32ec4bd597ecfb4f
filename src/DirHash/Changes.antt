-- ===== src/DirHash/Changes.antt =====
-- Insertion and deletion of falcon/dir_path_shmem/dir_path_hash.c within a transaction, under a lock
-- that the transaction holds.
use falconfs.Common.{
  ℕ, ◌≡◌, refl, subst, inl, inr, Option, none, some, [], ◌∷◌, ◌++◌, arith, leb, Bool-cases, ◌=?◌,
  nat_eq, list_eq, =?_refl, length, Result-cases, Result, ok, err,
}
use falconfs.PathParse.{DirLock, dir_lock_exclusive, dir_lock_shared, dir_lock_none, not_exist}
use falconfs.DirTable.{
  Key, key_eq, key_beq_iff, updated, DirectoryTable, TableError, search_directory_table_info,
  insert_into_directory_table, delete_from_directory_table, search-insert, search-delete,
}
use falconfs.DirHash.{
  max_to_commit, Item, renumbered, DirHash, Error, M, Env, dir_path_hash_to_commit_update_entry,
  ◌>>◌, on_table, pinned, try_lock,
}
use falconfs.DirHash.Ops.{
  peek, modify, pin, located_absent, locate_any, insert_directory_by_directory_hash_table,
  delete_directory_by_directory_hash_table,
}
use falconfs.DirHash.Lookup.{peek-modify}
use falconfs.DirHash.Pins.{EntryFits}
use falconfs.DirHash.Coherent.{
  replay-append_renumbered, touched-append_renumbered, IsHeld, IsCoherent, InProgress, IsHeld-known,
}
use falconfs.DirHash.Steps.{pin-InProgress, pinned-IsHeld}

abbrev held_item : (o : Option Item) → IsHeld o → Item
held_item none h = absurd h
held_item (some item) h = item

held_item-eq : (o : Option Item) (h : IsHeld o) → o ≡ some (held_item o h)
held_item-eq none h = absurd h
held_item-eq (some item) h = refl

module _ (env : Env) (numbers : Key → ℕ) where
  -- The transaction goes on after a success; after an error the cache agrees with the old numbers.
  abbrev pub Changed : DirHash × Result Error (Unit {0}) → Type 0
  Changed (s, ok u) = InProgress env numbers s
  Changed (s, err e) = IsCoherent env numbers s

  changed-InProgress :
      (k : Key) (id : ℕ) (s : DirHash) (rows : DirectoryTable)
      → InProgress env numbers s
      → IsHeld (peek env k s)
      → ((j : Key)
          → search_directory_table_info j rows
            ≡ updated k id (λ i. search_directory_table_info i s.table) j)
      → InProgress env numbers
          (record s { table = rows; to_commit = s.to_commit ++ renumbered k id ∷ [] })
  unfolding peek
  changed-InProgress k id s rows p h view = record {
    coherent = p.coherent;
    logged = λ j.
        rw (replay-append_renumbered s.to_commit k id numbers) (ground (arith, view j, p.logged j));
    held = λ j t. elim (Bool-cases (k =? j)) [
      | inl e ↦ subst (λ i. IsHeld (peek env i s)) ((key_beq_iff k j).0 e) h
      | inr e ↦ p.held j (ground (arith, touched-append_renumbered j s.to_commit k id, t, e))
    ];
  }

  -- What an insertion and a deletion do once the entry is there.
  abbrev written :
      ℕ
      → (DirectoryTable → Result TableError DirectoryTable)
      → DirLock
      → Key
      → ℕ
      → Item
      → M (Unit {0})
  written fuel f mode k id item = do
    pin env fuel mode k item
    on_table f
    dir_path_hash_to_commit_update_entry k id

  written-Changed :
      (fuel : ℕ) (f : DirectoryTable → Result TableError DirectoryTable) (mode : DirLock) (k : Key)
      (id : ℕ) (item : Item) (s : DirHash)
      → InProgress env numbers s
      → EntryFits (peek env k s)
      → IsHeld (peek env k s)
      → peek env k s ≡ some item
      → ((rows : DirectoryTable)
          → f s.table ≡ ok rows
          → (j : Key)
          → search_directory_table_info j rows
            ≡ updated k id (λ i. search_directory_table_info i s.table) j)
      → Changed (written fuel f mode k id item s)
  unfolding pin dir_path_hash_to_commit_update_entry modify peek
  written-Changed fuel f mode k id item s p fits h found view =
      let s' = modify env k (pinned mode) s in
      let p' = pin-InProgress env numbers mode k s p fits in
      let h' : IsHeld (peek env k s') =
        rw (peek-modify env k k (pinned mode) s, =?_refl k) (pinned-IsHeld mode _ fits h) in
      elim (Bool-cases (try_lock mode item.lock).0) [
        | inr g ↦ rw g p'.coherent
        | inl g ↦ elim (Result-cases (f s.table)) [
          | inr (x, e) ↦ rw (g, on_table, e) p'.coherent
          | inl (rows, e) ↦ elim (Bool-cases (leb max_to_commit (length s.to_commit))) [
            | inl l ↦ rw (g, on_table, e, l) p'.coherent
            | inr l ↦ rw (g, on_table, e, l) (changed-InProgress k id s' rows p' h' (view rows e))
          ]
        ]
      ]

  pub insert-Changed :
      (fuel : ℕ) (k : Key) (id : ℕ) (mode : DirLock) (s : DirHash)
      → InProgress env numbers s
      → EntryFits (peek env k s)
      → IsHeld (peek env k s)
      → Changed (insert_directory_by_directory_hash_table env fuel k id mode s)
  unfolding insert_directory_by_directory_hash_table
  insert-Changed fuel k id mode s p fits h =
      let found = held_item-eq _ h in
      rw (located_absent, IsHeld-known _ h, found)
        (written-Changed fuel (insert_into_directory_table k id) mode k id _ s p fits h found
          (λ rows e j. search-insert k j id s.table e))

  pub delete-Changed :
      (fuel : ℕ) (k : Key) (mode : DirLock) (s : DirHash)
      → InProgress env numbers s
      → EntryFits (peek env k s)
      → IsHeld (peek env k s)
      → Changed (delete_directory_by_directory_hash_table env fuel k mode s)
  unfolding delete_directory_by_directory_hash_table
  delete-Changed fuel k dir_lock_shared s p fits h = p.coherent
  delete-Changed fuel k dir_lock_exclusive s p fits h =
      let found = held_item-eq _ h in
      rw (locate_any, found)
        (written-Changed fuel (delete_from_directory_table k) dir_lock_exclusive k not_exist _ s p
          fits h found (λ rows e j. search-delete k j s.table e))
  delete-Changed fuel k dir_lock_none s p fits h =
      let found = held_item-eq _ h in
      rw (locate_any, found)
        (written-Changed fuel (delete_from_directory_table k) dir_lock_none k not_exist _ s p fits h
          found (λ rows e j. search-delete k j s.table e))
