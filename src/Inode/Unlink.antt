-- ===== src/Inode/Unlink.antt =====
-- The last loop of FalconUnlinkHandle, falcon/metadb/meta_handle.c: the rows of the files to be
-- unlinked are deleted, and each file gets its error code.
use falconfs.Common.{
  ℕ, ◌-◌, ◌^◌, ◌≡◌, refl, ap, ◌∙◌, true, false, not, Option, none, some, List, [], ◌∷◌, arith, ◌==◌,
  if◌then◌else◌, nat_eq, list_eq, Result, ok, ◌>>=◌,
}
use falconfs.Inode.{
  InodeRow, Request, Found, Error, s_isreg, search_and_update_inode_table_info, find_row,
  delete_row, read_row, needs_update, changed_nlink, mode_check_must_be_file,
}
use falconfs.Inode.Rows.{Unique}
use falconfs.Inode.Effects.{search_and_update-unlink}

pub data Code : Type 0 where
  success file_not_exists path_verify_failed program_error : Code

-- The fields of MetaProcessInfo that the loop uses.
pub record Entry : Type 0 where
  pub parent_id_part_id : ℕ
  pub name : List ℕ
  pub error_code : Code
  pub inode_id : ℕ
  pub st_size : ℕ
  pub node_id : ℕ

abbrev pub unlink_request : Request
unlink_request = record {
  do_update = true;
  inode_id = true;
  size = true;
  new_size = none;
  version = false;
  nlink = true;
  nlink_change_num = 2 ^ 64 - 1;
  mode = true;
  new_exec_mode = none;
  mode_check_type = mode_check_must_be_file;
  new_uid = none;
  new_gid = none;
  new_etag = none;
  new_atime = none;
  new_mtime = none;
  primary_node_id = true;
  new_primary_node_id = none;
  backup_node_id = false;
}

-- What a pointer's target holds after the call.
abbrev pub value_or : Option ℕ → ℕ → ℕ
value_or none old = old
value_or (some new) old = new

unfoldable pub code_of : Option Found → Code
code_of none = file_not_exists
code_of (some f) =
    if not (s_isreg (value_or f.mode 0))
    then path_verify_failed
    else if not (value_or f.nlink 0 == 1)
    then program_error
    else success

abbrev pub with_found : Option Found → Entry → Entry
with_found none info = record info { error_code = code_of none }
with_found (some f) info = record info {
  error_code = code_of (some f);
  inode_id = value_or f.inode_id info.inode_id;
  st_size = value_or f.size info.st_size;
  node_id = value_or f.primary_node_id info.node_id;
}

unfoldable pub unlink_pending : Entry → List InodeRow → Result Error (Entry × List InodeRow)
unlink_pending info rows =
    search_and_update_inode_table_info unlink_request info.parent_id_part_id info.name rows
    >>= λ out. ok (with_found out.0 info, out.1)

-- An entry that has failed before is left alone.
abbrev pub unlink_by_code : Code → Entry → List InodeRow → Result Error (Entry × List InodeRow)
unlink_by_code success info rows = unlink_pending info rows
unlink_by_code file_not_exists info rows = ok (info, rows)
unlink_by_code path_verify_failed info rows = ok (info, rows)
unlink_by_code program_error info rows = ok (info, rows)

unfoldable pub unlink_entry : Entry → List InodeRow → Result Error (Entry × List InodeRow)
unlink_entry info rows = unlink_by_code info.error_code info rows

unfoldable pub unlink_entries :
    List Entry → List InodeRow → Result Error (List Entry × List InodeRow)
unlink_entries [] rows = ok ([], rows)
unlink_entries (info ∷ infos) rows = do
  (info', rows') ← unlink_entry info rows
  (infos', rows'') ← unlink_entries infos rows'
  ok (info' ∷ infos', rows'')

zero_links : (r : InodeRow) → r.st_nlink ≡ 1 → changed_nlink unlink_request r ≡ 0
zero_links r one = omega (arith, one)

nothing_else : (r : InodeRow) → r.st_nlink ≡ 1 → needs_update unlink_request r ≡ false
unfolding needs_update
nothing_else r one = ground (arith, zero_links r one)

code_of-read :
    (r : InodeRow)
    → r.st_nlink ≡ 1
    → code_of (some (read_row unlink_request r))
      ≡ (if s_isreg r.st_mode then success else path_verify_failed)
unfolding code_of read_row
code_of-read r one = ground (arith, one)

-- Unlinking an entry whose row has one link deletes the row under its key and name and no error is
-- raised. The entry's code is SUCCESS for a regular file, and PATH_VERIFY_FAILED for anything else,
-- a directory included, whose row is gone as well.
pub unlink_entry-last_link :
    (info : Entry) (rows : List InodeRow) (r : InodeRow)
    → Unique rows
    → info.error_code ≡ success
    → find_row info.parent_id_part_id info.name rows ≡ some r
    → r.st_nlink ≡ 1
    → (info' : Entry) × (rows' : List InodeRow) × (unlink_entry info rows ≡ ok (info', rows'))
      × (info'.error_code ≡ (if s_isreg r.st_mode then success else path_verify_failed))
      × (find_row info.parent_id_part_id info.name rows' ≡ none)
unfolding unlink_entry unlink_pending
unlink_entry-last_link info rows r u code e one =
    let (run, gone) =
      search_and_update-unlink unlink_request info.parent_id_part_id info.name rows r u e refl refl
        (zero_links r one) (nothing_else r one) in
    (
      with_found (some (read_row unlink_request r)) info,
      delete_row info.parent_id_part_id info.name rows,
      ap (λ (c : Code). unlink_by_code c info rows) code
          ∙ ap
              (λ (o : Result Error (Option Found × List InodeRow)).
                o >>= λ out. ok (with_found out.0 info, out.1))
              run,
      code_of-read r one,
      gone,
    )
