-- ===== src/DirHash.antt =====
-- falcon/dir_path_shmem/dir_path_hash.c: the shared cache of the directory table, in 128 partitions,
-- whose entries carry the directory locks, and the log of what a transaction does to it. One backend
-- works at a time; what others hold is in the lock words. The hash function, the tables of PostgreSQL
-- (their memory, the order of a scan, what a reused element holds) and rand() are parameters.
pub mod Ops
pub mod Lookup
pub mod Pins
pub mod Coherent
pub mod Moves
pub mod Steps
pub mod Changes
pub mod Commit
pub mod Runs
pub mod Scan
pub mod Used
pub mod Evict
pub mod Counts
mod Tests
mod EvictTests
use falconfs.Common.{
  is_positive, sub_one, ℤ, add_one, ℕ, zero, suc, ◌+◌, ◌-◌, ◌*◌, ◌/◌, ◌%◌, ◌^◌, ◌≤◌, ◌<◌, ◌≡◌, ◌≢◌,
  refl, sym, ap, ap₂, subst, ◌∙◌, fun_ext, ◌↔◌, ◌⊎◌, inl, inr, Bool, true, false, not, ◌&&◌, ◌||◌,
  Option, none, some, List, [], ◌∷◌, ◌++◌, map, arith, dec_lt, dec_le, ℕ_discrete, ltb, leb, ◌==◌,
  if◌then◌else◌, ltb→lt, lt→ltb, leb→le, ==_iff, ==_refl, ==_ne, Bool-cases, Option-cases, Eq, ◌=?◌,
  nat_eq, list_eq, =?_ne, =?_refl, find, change, remove, Distinct, mapped, find-change, find-remove,
  change-Distinct, remove-Distinct, length-change, length-remove, update, update-elim, fetch_add,
  fetch_sub, length, get_elem?, length-append, get_elem?-append_last, All, Result, ok, err, guard,
  u32, u64, low_bits, bit_and, bit_or, bit_xor,
}
use falconfs.PathParse.{
  Name, DirLock, dir_lock_exclusive, dir_lock_shared, dir_lock_none, not_exist,
}
use falconfs.RwLock.{RwLockMode, exclusive, shared, attempt, check_destroyable, rw_val_ref_count}
use falconfs.DirTable.{
  Key, key_eq, DirectoryTable, TableError, search_directory_table_info, insert_into_directory_table,
  delete_from_directory_table,
}

-- DIR_HASH_TABLE_PATH_UNKNOWN, -2 as an unsigned 64-bit number.
abbrev pub unknown : ℕ
unknown = 2 ^ 64 - 2

abbrev pub partition_size : ℕ
partition_size = 128

abbrev pub max_to_commit : ℕ
max_to_commit = 4096

-- MAX_BUCKET_SUM_LRU_CLAER_BEGIN / DIR_PATH_HASH_PARTITION_SIZE
abbrev pub clear_begin : ℕ
clear_begin = 2048 / 4 * 3 / 128

-- A DirPathHashItem under its key.
pub record Item : Type 0 where
  pub inode_id : ℕ
  pub lock : ℕ
  pub usage_count : ℤ

abbrev pub Items : Type 0
Items = List (Key × Item)

pub record Partition : Type 0 where
  pub items : Items
  pub entry_count : ℕ

-- The actions 'A' and 'U' of DirPathHashToCommitAction.
pub data Action : Type 0 where
  added : Key → Action
  renumbered : Key → ℕ → Action

-- The log stands oldest first; the table is the directory table as the transaction sees it.
pub record DirHash : Type 0 where
  pub partitions : ℕ → Partition
  pub to_commit : List Action
  pub table : DirectoryTable

pub data Error : Type 0 where
  too_many_actions target_exists corrupt not_supported_lock_mode cannot_find_elem : Error
  wrong_lock_number : Error
  in_table : TableError → Error
  -- the backend waits for a lock, or goes round a loop for ever
  waits endless : Error

abbrev pub M : Type 0 → Type 0
M A = DirHash → DirHash × Result Error A

abbrev pub run_on : {A B : Type 0} → (A → M B) → DirHash × Result Error A → DirHash × Result Error B
run_on f (s, ok a) = f a s
run_on f (s, err e) = (s, err e)

infixl 5 ◌>>=◌ ◌>>◌
abbrev pub ◌>>=◌ : {A B : Type 0} → M A → (A → M B) → M B
◌>>=◌ m f s = run_on f (m s)

abbrev pub ◌>>◌ : {B : Type 0} → M (Unit {0}) → M B → M B
m >> k = m >>= λ _. k

abbrev pub give : {A : Type 0} → A → M A
give a s = (s, ok a)

abbrev pub raise : {A : Type 0} → Error → M A
raise e s = (s, err e)

-- What is not in the repository: the hash value, whether a table with so many entries has memory for
-- one more, the keys that hash_seq_search returns from a random bucket and from the first one, and
-- what the memory of a new entry holds.
pub record Env : Type 0 where
  pub hash : Key → ℕ
  pub has_room : ℕ → ℕ → Bool
  pub scan_from_random : Items → List Key
  pub scan_all : Items → List Key
  pub recycled : Items → Item

pub dir_path_hash_to_commit_add_entry : Key → M (Unit {0})
dir_path_hash_to_commit_add_entry k s =
    if leb max_to_commit (length s.to_commit)
    then (s, err too_many_actions)
    else (record s { to_commit = s.to_commit ++ added k ∷ [] }, ok tt)

pub dir_path_hash_to_commit_update_entry : Key → ℕ → M (Unit {0})
dir_path_hash_to_commit_update_entry k id s =
    if leb max_to_commit (length s.to_commit)
    then (s, err too_many_actions)
    else (record s { to_commit = s.to_commit ++ renumbered k id ∷ [] }, ok tt)

pub dir_path_hash_to_commit_clear : DirHash → DirHash
dir_path_hash_to_commit_clear s = record s { to_commit = [] }

abbrev pub on_table : (DirectoryTable → Result TableError DirectoryTable) → M (Unit {0})
on_table f s = elim (f s.table) [
  | ok rows ↦ (record s { table = rows }, ok tt)
  | err e ↦ (s, err (in_table e))
]

-- RWLockDeclare, one round of RWLockAcquire, and RWLockUndeclare once the lock is held.
abbrev pub rw_mode : DirLock → RwLockMode
rw_mode dir_lock_exclusive = exclusive
rw_mode _ = shared

abbrev pub is_none : DirLock → Bool
is_none dir_lock_none = true
is_none _ = false

pub try_lock : DirLock → ℕ → Bool × ℕ
try_lock mode w =
    let (got, w') =
      attempt (rw_mode mode) (fetch_add (fetch_add w rw_val_ref_count) rw_val_ref_count) in
    if is_none mode then (true, w) else (got, if got then fetch_sub w' rw_val_ref_count else w')

abbrev pub pinned : DirLock → Item → Item
pinned mode item = record item {
  lock = (try_lock mode item.lock).1;
  usage_count = add_one item.usage_count;
}

-- An entry whose number the cache knows.
abbrev pub known : Option Item → Option Item
known none = none
known (some item) = if item.inode_id == unknown then none else some item

-- FindNextItem over the keys still to come, with the number of destroyable entries it met.
pub find_next_item : List Key → Items → Option Key × Items × ℕ
find_next_item [] items = (none, items, 0)
find_next_item (k ∷ ks) items =
    let lowered = change k (λ item. record item { usage_count = sub_one item.usage_count }) items in
    let rest = find_next_item ks lowered in
    let skipped = find_next_item ks items in
    elim (find k items) [
      | none ↦ skipped
      | some item ↦
          if not (check_destroyable item.lock)
          then skipped
          else if is_positive (sub_one item.usage_count)
          then (rest.0, rest.1, rest.2 + 1)
          else (some k, lowered, 1)
    ]

abbrev pub lock_of : Option Item → ℕ
lock_of none = 0
lock_of (some item) = item.lock

-- The entry is looked up again under the exclusive lock of the partition.
abbrev pub may_go : Option Item → Bool
may_go none = false
may_go (some item) = check_destroyable item.lock
