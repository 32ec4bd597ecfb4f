-- ===== src/Inode.antt =====
-- SearchAndUpdateInodeTableInfo of falcon/metadb/meta_handle_helper.c: a row of an inode table is
-- found by its key, read, and changed or deleted. A table is the list of its rows; its unique index
-- is on the key and the name. Numbers are the words of their columns.
pub mod Rows
pub mod Effects
pub mod Columns
pub mod Unlink
mod Tests
use falconfs.Common.{
  ℕ, zero, suc, ◌+◌, ◌-◌, ◌*◌, ◌/◌, ◌%◌, ◌^◌, ◌≤◌, ◌<◌, ◌≡◌, ◌≢◌, refl, sym, ap, ap₂, subst, ◌∙◌,
  fun_ext, ◌↔◌, ◌⊎◌, inl, inr, Bool, true, false, not, ◌&&◌, ◌||◌, Option, none, some, List, [],
  ◌∷◌, ◌++◌, map, arith, dec_lt, dec_le, ℕ_discrete, ltb, leb, ◌==◌, if◌then◌else◌, ltb→lt, lt→ltb,
  leb→le, ==_iff, ==_refl, ==_ne, Bool-cases, Option-cases, Eq, ◌=?◌, nat_eq, list_eq, =?_ne,
  =?_refl, length, get_elem?, length-append, get_elem?-append_last, All, Result, ok, err, ◌>>=◌,
  ◌>>◌, guard, u32, u64, low_bits, bit_and, bit_or, bit_xor,
}

pub record InodeRow : Type 0 where
  pub name : List ℕ
  pub st_ino : ℕ
  pub parentid_partid : ℕ
  pub st_dev : ℕ
  pub st_mode : ℕ
  pub st_nlink : ℕ
  pub st_uid : ℕ
  pub st_gid : ℕ
  pub st_rdev : ℕ
  pub st_size : ℕ
  pub st_blksize : ℕ
  pub st_blocks : ℕ
  pub st_atim : ℕ
  pub st_mtim : ℕ
  pub st_ctim : ℕ
  pub etag : List ℕ
  pub update_version : ℕ
  pub primary_nodeid : ℕ
  pub backup_nodeid : ℕ

pub data ModeCheck : Type 0 where
  mode_check_none mode_check_must_be_file mode_check_must_be_directory : ModeCheck

-- The arguments: which values are wanted (pointers that are not NULL), and the new values.
pub record Request : Type 0 where
  pub do_update : Bool
  pub inode_id : Bool
  pub size : Bool
  pub new_size : Option ℕ
  pub version : Bool
  pub nlink : Bool
  pub nlink_change_num : ℕ
  pub mode : Bool
  pub new_exec_mode : Option ℕ
  pub mode_check_type : ModeCheck
  pub new_uid : Option ℕ
  pub new_gid : Option ℕ
  pub new_etag : Option (List ℕ)
  pub new_atime : Option ℕ
  pub new_mtime : Option ℕ
  pub primary_node_id : Bool
  pub new_primary_node_id : Option ℕ
  pub backup_node_id : Bool

-- What the pointers hold afterwards; none where nothing is written.
pub record Found : Type 0 where
  pub inode_id : Option ℕ
  pub size : Option ℕ
  pub version : Option ℕ
  pub nlink : Option ℕ
  pub mode : Option ℕ
  pub primary_node_id : Option ℕ
  pub backup_node_id : Option ℕ

pub data Error : Type 0 where
  update_of_deleted : Error

abbrev pub is_row : ℕ → List ℕ → InodeRow → Bool
is_row key name r = r.parentid_partid == key && r.name =? name

-- The index scan.
unfoldable pub find_row : ℕ → List ℕ → List InodeRow → Option InodeRow
find_row key name [] = none
find_row key name (r ∷ rs) = if is_row key name r then some r else find_row key name rs

unfoldable pub delete_row : ℕ → List ℕ → List InodeRow → List InodeRow
delete_row key name [] = []
delete_row key name (r ∷ rs) = if is_row key name r then rs else r ∷ delete_row key name rs

unfoldable pub replace_row : ℕ → List ℕ → InodeRow → List InodeRow → List InodeRow
replace_row key name new [] = []
replace_row key name new (r ∷ rs) =
    if is_row key name r then new ∷ rs else r ∷ replace_row key name new rs

-- S_ISREG and S_ISDIR.
abbrev pub s_isreg : ℕ → Bool
s_isreg mode = bit_and mode 61440 == 32768

abbrev pub s_isdir : ℕ → Bool
s_isdir mode = bit_and mode 61440 == 16384

abbrev pub wrong_type : ModeCheck → ℕ → Bool
wrong_type mode_check_none mode = false
wrong_type mode_check_must_be_file mode = not (s_isreg mode)
wrong_type mode_check_must_be_directory mode = not (s_isdir mode)

-- The sum is of 64-bit words: a negative change is its two's complement.
abbrev pub changed_nlink : Request → InodeRow → ℕ
changed_nlink q r = u64 (r.st_nlink + q.nlink_change_num)

unfoldable pub deletes : Request → InodeRow → Bool
deletes q r = q.nlink && (q.do_update && changed_nlink q r == 0)

unfoldable pub mode_mismatch : Request → InodeRow → Bool
mode_mismatch q r = q.mode && wrong_type q.mode_check_type r.st_mode

abbrev pub given {ℓ} : {A : Type ℓ} → Option A → Bool
given none = false
given (some a) = true

abbrev pub or_old {ℓ} : {A : Type ℓ} → Option A → A → A
or_old none old = old
or_old (some a) old = a

-- needCatalogTupleUpdate, where updates are asked for.
unfoldable pub needs_update : Request → InodeRow → Bool
needs_update q r =
    given q.new_size
    || q.version
    || (q.nlink && not (changed_nlink q r == 0))
    || given q.new_uid
    || given q.new_gid
    || given q.new_exec_mode
    || given q.new_etag
    || given q.new_atime
    || given q.new_mtime
    || given q.new_primary_node_id

-- (oldMode & ~0x1FF) | newExecMode
unfoldable pub changed_mode : Option ℕ → ℕ → ℕ
changed_mode none mode = mode
changed_mode (some exec_mode) mode = bit_or (mode / 2 ^ 9 * 2 ^ 9) exec_mode

-- heap_modify_tuple with the columns that are to change.
unfoldable pub modified : Request → InodeRow → InodeRow
modified q r = record r {
  st_size = or_old q.new_size r.st_size;
  update_version = if q.version then u64 (r.update_version + 1) else r.update_version;
  st_nlink = if q.nlink && not (changed_nlink q r == 0) then changed_nlink q r else r.st_nlink;
  st_uid = or_old q.new_uid r.st_uid;
  st_gid = or_old q.new_gid r.st_gid;
  st_mode = changed_mode q.new_exec_mode r.st_mode;
  etag = or_old q.new_etag r.etag;
  st_atim = or_old q.new_atime r.st_atim;
  st_mtim = or_old q.new_mtime r.st_mtim;
  primary_nodeid = or_old q.new_primary_node_id r.primary_nodeid;
}

abbrev pub if_wanted : Bool → ℕ → Option ℕ
if_wanted wanted n = if wanted then some n else none

-- The values before the changes. After a mismatch of the mode the node numbers are not written.
unfoldable pub read_row : Request → InodeRow → Found
read_row q r = record {
  inode_id = if_wanted q.inode_id r.st_ino;
  size = if_wanted q.size r.st_size;
  version = if_wanted q.version r.update_version;
  nlink = if_wanted q.nlink r.st_nlink;
  mode = if_wanted q.mode r.st_mode;
  primary_node_id = if_wanted (q.primary_node_id && not (mode_mismatch q r)) r.primary_nodeid;
  backup_node_id = if_wanted (q.backup_node_id && not (mode_mismatch q r)) r.backup_nodeid;
}

-- The row is deleted before its type is looked at. PostgreSQL refuses to update a row that the same
-- transaction has deleted.
unfoldable pub change_row :
    Request → ℕ → List ℕ → InodeRow → List InodeRow → Result Error (Option Found × List InodeRow)
change_row q key name r rows =
    let kept = if deletes q r then delete_row key name rows else rows in
    if mode_mismatch q r
    then ok (some (read_row q r), kept)
    else if q.do_update && needs_update q r
    then if deletes q r
      then err update_of_deleted
      else ok (some (read_row q r), replace_row key name (modified q r) rows)
    else ok (some (read_row q r), kept)

abbrev pub change_found :
    Request
    → ℕ
    → List ℕ
    → Option InodeRow
    → List InodeRow
    → Result Error (Option Found × List InodeRow)
change_found q key name none rows = ok (none, rows)
change_found q key name (some r) rows = change_row q key name r rows

unfoldable pub search_and_update_inode_table_info :
    Request → ℕ → List ℕ → List InodeRow → Result Error (Option Found × List InodeRow)
search_and_update_inode_table_info q key name rows =
    change_found q key name (find_row key name rows) rows
