-- ===== src/DirHash/Tests.antt =====
-- The cache of falcon/dir_path_shmem/dir_path_hash.c on small tables.
use falconfs.Common.{
  pos, ℕ, ◌+◌, ◌^◌, ◌≡◌, ◌≢◌, refl, inr, some, [], ◌∷◌, map, arith, ℕ_discrete, ltb, if◌then◌else◌,
  ◌=?◌, nat_eq, list_eq, find, change, remove, length, ok, err,
}
use falconfs.PathParse.{dir_lock_exclusive, dir_lock_none, not_exist}
use falconfs.RwLock.{check_destroyable, attempt}
use falconfs.DirTable.{Key, key_eq, search_directory_table_info, delete_from_directory_table}
use falconfs.DirHash.{
  cannot_find_elem, unknown, Item, DirHash, Env, try_lock, dir_path_hash_to_commit_add_entry,
  dir_path_hash_to_commit_update_entry, dir_path_hash_to_commit_clear,
}
use falconfs.DirHash.Ops.{
  index, peek, modify, new_entry, eliminate, eliminate_dir_path_hash_by_lru, settle, enter_loop,
  pin, search_directory_by_directory_hash_table, delete_directory_by_directory_hash_table,
  commit_number, commit_action, commit_actions, commit_for_dir_path_hash, abort_for_dir_path_hash,
  clear_dir_path_hash, lock_of_number, falcon_acquire_hash_lock,
}
use falconfs.DirHash.Pins.{LockFits, EntryFits}
use falconfs.DirHash.Coherent.{IsCoherent, IsHeld}
use falconfs.DirHash.Runs.{
  Runs, begins, searches, deletes, search-number, search-IsHeld, commit-IsCoherent,
}

abbrev pub small : Env
small = record {
  hash = λ k. k.0;
  has_room = λ i n. ltb n 16;
  scan_from_random = λ items. [];
  scan_all = map (λ x. x.0);
  recycled = λ items. record { inode_id = 0; lock = 0; usage_count = pos 0 };
}

abbrev docs : Key
docs = (1, b'd' ∷ [])

abbrev music : Key
music = (1, b'm' ∷ [])

abbrev before : Key → ℕ
before k = if docs =? k then 7 else not_exist

abbrev start : DirHash
start = record {
  partitions = λ i. record { items = []; entry_count = 0 };
  to_commit = [];
  table = (docs, 7) ∷ [];
}

abbrev opened : DirHash
opened = (search_directory_by_directory_hash_table small 3 docs dir_lock_exclusive start).0

abbrev removed : DirHash
removed = (delete_directory_by_directory_hash_table small 3 docs dir_lock_none opened).0

-- The entry under its exclusive lock.
abbrev locked : Item
locked = record { inode_id = 7; lock = 2 ^ 24 + 2 ^ 25; usage_count = pos 1 }

search_run :
    (search_directory_by_directory_hash_table small 3 docs dir_lock_exclusive start).1 ≡ ok 7
unfolding search_directory_by_directory_hash_table search_directory_table_info enter_loop peek index
    find new_entry dir_path_hash_to_commit_add_entry pin try_lock attempt modify change
search_run = refl

peek-opened : peek small docs opened ≡ some locked
unfolding search_directory_by_directory_hash_table search_directory_table_info enter_loop peek index
    find new_entry dir_path_hash_to_commit_add_entry pin try_lock attempt modify change ℕ_discrete
peek-opened = refl

started : Runs small 3 before start
unfolding peek find search_directory_table_info
started = begins start (λ k. tt) refl (λ k. ground arith)

start_fits : EntryFits (peek small docs start)
unfolding peek find
start_fits = tt

search-number_example : 7 ≡ before docs
search-number_example =
    search-number small 3 before start docs dir_lock_exclusive 7 started start_fits search_run

known_number : before docs ≢ unknown
known_number e = ground (arith, e)

search-IsHeld_example : IsHeld (peek small docs opened)
search-IsHeld_example =
    search-IsHeld small 3 before start docs dir_lock_exclusive 7 started start_fits refl
      known_number search_run

-- One exclusive holder and one reference.
locked_fits : LockFits locked.lock
locked_fits = (
  0,
  1,
  1,
  record {
    waiter = 0;
    waiter_le = omega arith;
    value = refl;
    shared_fits = omega arith;
    refs_fit = omega arith;
    exclusion = inr (refl, refl);
  },
  omega arith,
  omega arith,
)

opened-IsHeld : IsHeld (peek small docs opened)
unfolding check_destroyable
opened-IsHeld = rw peek-opened (known_number, refl)

opened_fits : EntryFits (peek small docs opened)
opened_fits = rw peek-opened locked_fits

remove_run : (delete_directory_by_directory_hash_table small 3 docs dir_lock_none opened).1 ≡ ok tt
unfolding search_directory_by_directory_hash_table search_directory_table_info enter_loop peek index
    find new_entry dir_path_hash_to_commit_add_entry pin try_lock attempt modify change ℕ_discrete
    delete_directory_by_directory_hash_table delete_from_directory_table remove
    dir_path_hash_to_commit_update_entry
remove_run = refl

commit_run : (commit_for_dir_path_hash small 3 removed).1 ≡ ok tt
unfolding search_directory_by_directory_hash_table search_directory_table_info enter_loop peek index
    find new_entry dir_path_hash_to_commit_add_entry pin try_lock attempt modify change ℕ_discrete
    delete_directory_by_directory_hash_table delete_from_directory_table remove
    dir_path_hash_to_commit_update_entry commit_for_dir_path_hash commit_actions commit_action
    commit_number eliminate_dir_path_hash_by_lru eliminate dir_path_hash_to_commit_clear
commit_run = refl

removed_runs : Runs small 3 before removed
removed_runs =
    deletes docs dir_lock_none opened (searches docs dir_lock_exclusive start started start_fits)
      opened_fits opened-IsHeld remove_run

commit-IsCoherent_example :
    let s' = (commit_for_dir_path_hash small 3 removed).0 in
    IsCoherent small (λ k. search_directory_table_info k removed.table) s'
    × (s'.to_commit ≡ [])
    × (s'.table ≡ removed.table)
commit-IsCoherent_example = commit-IsCoherent small 3 before removed removed_runs commit_run

-- ClearDirPathHash leaves the count of the entries that it removes.
cleared_count_run :
    ((clear_dir_path_hash opened).partitions 1).entry_count
    ≡ length ((clear_dir_path_hash opened).partitions 1).items + 1
unfolding search_directory_by_directory_hash_table search_directory_table_info enter_loop peek index
    find new_entry dir_path_hash_to_commit_add_entry pin try_lock attempt modify change ℕ_discrete
    clear_dir_path_hash
cleared_count_run = refl

-- A deletion makes an entry that is not known; a search in the same transaction then fills it from
-- the table as changed, and it stays so when the transaction is aborted.
abbrev poisoned : DirHash
poisoned =
    abort_for_dir_path_hash
      (search_directory_by_directory_hash_table small 3 docs dir_lock_none
        (delete_directory_by_directory_hash_table small 3 docs dir_lock_none start).0).0

poisoned_run :
    peek small docs poisoned ≡ some (record { inode_id = not_exist; lock = 0; usage_count = pos 2 })
unfolding search_directory_by_directory_hash_table search_directory_table_info enter_loop peek index
    find new_entry dir_path_hash_to_commit_add_entry pin try_lock attempt modify change ℕ_discrete
    delete_directory_by_directory_hash_table delete_from_directory_table remove settle
    dir_path_hash_to_commit_update_entry abort_for_dir_path_hash dir_path_hash_to_commit_clear
poisoned_run = refl

acquire_run : (falcon_acquire_hash_lock small 3 music 2 start).1 ≡ err cannot_find_elem
unfolding search_directory_by_directory_hash_table search_directory_table_info enter_loop peek index
    find new_entry dir_path_hash_to_commit_add_entry pin try_lock attempt modify change
    falcon_acquire_hash_lock lock_of_number
acquire_run = refl
