-- ===== src/Inode/Columns.antt =====
-- The columns of a row that SearchAndUpdateInodeTableInfo of falcon/metadb/meta_handle_helper.c has
-- changed, and what it answers.
use falconfs.Common.{
  ℕ, ◌+◌, ◌/◌, ◌^◌, ◌<◌, ◌≡◌, refl, Bool, true, false, Option, none, some, List, arith, ◌==◌,
  if◌then◌else◌, nat_eq, list_eq, ok, u64, low_bits, not, ◌&&◌,
}
use falconfs.Inode.{
  InodeRow, Request, Found, find_row, replace_row, deletes, mode_mismatch, needs_update,
  changed_mode, modified, read_row, or_old, search_and_update_inode_table_info, changed_nlink,
}
use falconfs.Inode.Effects.{search_and_update-modified, changed_mode-permissions}

-- A column after a call that may have a new value for it.
abbrev pub Wrote {ℓ} : {A : Type ℓ} → Option A → A → A → Type ℓ
Wrote none old new = new ≡ old
Wrote (some v) old new = new ≡ v

abbrev pub WroteIf : Bool → ℕ → ℕ → ℕ → Type 0
WroteIf true v old new = new ≡ v
WroteIf false v old new = new ≡ old

-- New permission bits are nine bits wide.
abbrev pub ModeWrote : Option ℕ → ℕ → ℕ → Type 0
ModeWrote none old new = new ≡ old
ModeWrote (some v) old new = v < 2 ^ 9 → (low_bits new 9 ≡ v) × (new / 2 ^ 9 ≡ old / 2 ^ 9)

pub record Updated (q : Request) (old new : InodeRow) : Type 0 where
  pub size : Wrote q.new_size old.st_size new.st_size
  pub uid : Wrote q.new_uid old.st_uid new.st_uid
  pub gid : Wrote q.new_gid old.st_gid new.st_gid
  pub etag : Wrote q.new_etag old.etag new.etag
  pub atim : Wrote q.new_atime old.st_atim new.st_atim
  pub mtim : Wrote q.new_mtime old.st_mtim new.st_mtim
  pub primary : Wrote q.new_primary_node_id old.primary_nodeid new.primary_nodeid
  pub version :
      WroteIf q.version (u64 (old.update_version + 1)) old.update_version new.update_version
  pub nlink : WroteIf q.nlink (u64 (old.st_nlink + q.nlink_change_num)) old.st_nlink new.st_nlink
  pub mode : ModeWrote q.new_exec_mode old.st_mode new.st_mode
  pub same_key : (new.parentid_partid ≡ old.parentid_partid) × (new.name ≡ old.name)
  pub same_file :
      (new.st_ino ≡ old.st_ino)
      × (new.st_dev ≡ old.st_dev)
      × (new.st_rdev ≡ old.st_rdev)
      × (new.st_blksize ≡ old.st_blksize)
      × (new.st_blocks ≡ old.st_blocks)
      × (new.st_ctim ≡ old.st_ctim)
      × (new.backup_nodeid ≡ old.backup_nodeid)

-- A pointer that is given gets the value, and one that is not gets nothing.
abbrev pub Answered : Bool → ℕ → Option ℕ → Type 0
Answered true v o = o ≡ some v
Answered false v o = o ≡ none

pub record Answers (q : Request) (old : InodeRow) (found : Found) : Type 0 where
  pub inode_id : Answered q.inode_id old.st_ino found.inode_id
  pub size : Answered q.size old.st_size found.size
  pub version : Answered q.version old.update_version found.version
  pub nlink : Answered q.nlink old.st_nlink found.nlink
  pub mode : Answered q.mode old.st_mode found.mode
  pub primary : Answered q.primary_node_id old.primary_nodeid found.primary_node_id
  pub backup : Answered q.backup_node_id old.backup_nodeid found.backup_node_id

or_old-Wrote {ℓ} : {A : Type ℓ} (o : Option A) (old : A) → Wrote o old (or_old o old)
or_old-Wrote none old = refl
or_old-Wrote (some v) old = refl

if-WroteIf : (b : Bool) (v old : ℕ) → WroteIf b v old (if b then v else old)
if-WroteIf true v old = refl
if-WroteIf false v old = refl

nlink-WroteIf :
    (b d : Bool) (v old : ℕ)
    → d ≡ true
    → b && (d && v == 0) ≡ false
    → WroteIf b v old (if b && not (v == 0) then v else old)
nlink-WroteIf true d v old on h = ground (arith, on, h)
nlink-WroteIf false d v old on h = refl

changed_mode-ModeWrote : (o : Option ℕ) (mode : ℕ) → ModeWrote o mode (changed_mode o mode)
unfolding changed_mode
changed_mode-ModeWrote none mode = refl
changed_mode-ModeWrote (some v) mode = λ lt. changed_mode-permissions v mode lt

modified-Updated :
    (q : Request) (r : InodeRow)
    → q.do_update ≡ true
    → deletes q r ≡ false
    → Updated q r (modified q r)
unfolding modified deletes
modified-Updated q r on d = record {
  size = or_old-Wrote q.new_size r.st_size;
  uid = or_old-Wrote q.new_uid r.st_uid;
  gid = or_old-Wrote q.new_gid r.st_gid;
  etag = or_old-Wrote q.new_etag r.etag;
  atim = or_old-Wrote q.new_atime r.st_atim;
  mtim = or_old-Wrote q.new_mtime r.st_mtim;
  primary = or_old-Wrote q.new_primary_node_id r.primary_nodeid;
  version = if-WroteIf q.version (u64 (r.update_version + 1)) r.update_version;
  nlink = nlink-WroteIf q.nlink q.do_update (changed_nlink q r) r.st_nlink on d;
  mode = changed_mode-ModeWrote q.new_exec_mode r.st_mode;
  same_key = (refl, refl);
  same_file = (refl, refl, refl, refl, refl, refl, refl);
}

if-Answered : (b : Bool) (v : ℕ) → Answered b v (if b then some v else none)
if-Answered true v = refl
if-Answered false v = refl

matched-Answered :
    (b m : Bool) (v : ℕ) → m ≡ false → Answered b v (if b && not m then some v else none)
matched-Answered true m v h = ground (arith, h)
matched-Answered false m v h = refl

read_row-Answers :
    (q : Request) (r : InodeRow) → mode_mismatch q r ≡ false → Answers q r (read_row q r)
unfolding read_row
read_row-Answers q r m = record {
  inode_id = if-Answered q.inode_id r.st_ino;
  size = if-Answered q.size r.st_size;
  version = if-Answered q.version r.update_version;
  nlink = if-Answered q.nlink r.st_nlink;
  mode = if-Answered q.mode r.st_mode;
  primary = matched-Answered q.primary_node_id (mode_mismatch q r) r.primary_nodeid m;
  backup = matched-Answered q.backup_node_id (mode_mismatch q r) r.backup_nodeid m;
}

-- If the row under the key and the name is of the expected type, the call has doUpdate and a change to
-- make, and the row keeps a link, then the call succeeds. It answers to each pointer given what the row
-- held before, and to no other. Afterwards the key and the name lead to a row in which a column with a
-- new value has it, the version is one higher if it was asked for, the link count has the change added
-- if it was asked for (both of 64 bits), new permissions below 2^9 are the lower nine bits of the mode
-- and leave the others, and every other column is as before.
pub search_and_update-Updated :
    (q : Request) (key : ℕ) (name : List ℕ) (rows : List InodeRow) (r : InodeRow)
    → find_row key name rows ≡ some r
    → q.do_update ≡ true
    → deletes q r ≡ false
    → mode_mismatch q r ≡ false
    → needs_update q r ≡ true
    → (found : Found) × (rows' : List InodeRow) × (new : InodeRow)
      × (search_and_update_inode_table_info q key name rows ≡ ok (some found, rows'))
      × Answers q r found
      × (find_row key name rows' ≡ some new)
      × Updated q r new
search_and_update-Updated q key name rows r e on d m u =
    let (called, there) = search_and_update-modified q key name rows r e on d m u in
    (
      read_row q r,
      replace_row key name (modified q r) rows,
      modified q r,
      called,
      read_row-Answers q r m,
      there,
      modified-Updated q r on d,
    )
