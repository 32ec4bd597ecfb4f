-- ===== src/Inode/Tests.antt =====
-- Runs of the inode table's search and update, and its theorems at concrete inputs.
use falconfs.Common.{
  ℕ, ◌-◌, ◌/◌, ◌^◌, ◌≡◌, refl, true, false, none, some, List, [], ◌∷◌, arith, nat_eq, list_eq, ok,
  low_bits,
}
use falconfs.Common.{OkAll}
use falconfs.Inode.Columns.{Answers, Updated, search_and_update-Updated}
use falconfs.Inode.Unlink.{
  Entry, success, path_verify_failed, file_not_exists, unlink_entries, unlink_entry, unlink_pending,
  code_of, unlink_entry-last_link,
}
use falconfs.Inode.{
  Found, InodeRow, Request, find_row, delete_row, deletes, mode_mismatch, needs_update,
  changed_mode, read_row, change_row, search_and_update_inode_table_info, mode_check_none,
  mode_check_must_be_file,
}
use falconfs.Inode.Effects.{
  KeepsOther, search_and_update-KeepsOther, search_and_update-read, search_and_update-unlink,
  changed_mode-permissions,
}

abbrev inode : List ℕ → ℕ → ℕ → InodeRow
inode name number mode = record {
  name = name;
  st_ino = number;
  parentid_partid = 8;
  st_dev = 0;
  st_mode = mode;
  st_nlink = 1;
  st_uid = 0;
  st_gid = 0;
  st_rdev = 0;
  st_size = 10;
  st_blksize = 4096;
  st_blocks = 1;
  st_atim = 0;
  st_mtim = 0;
  st_ctim = 0;
  etag = [];
  update_version = 0;
  primary_nodeid = 2;
  backup_nodeid = 3;
}

-- A directory 0755 and a file 0644.
abbrev directory : InodeRow
directory = inode (100 ∷ []) 4096 16877

abbrev file : InodeRow
file = inode (102 ∷ []) 8192 33188

abbrev rows : List InodeRow
rows = file ∷ directory ∷ []

-- The request of FalconUnlinkHandle.
abbrev unlink : Request
unlink = record {
  do_update = true;
  inode_id = true;
  size = true;
  new_size = none;
  version = false;
  nlink = true;
  nlink_change_num = 2 ^ 64 - 1;
  mode = true;
  new_exec_mode = none;
  mode_check_type = mode_check_must_be_file;
  new_uid = none;
  new_gid = none;
  new_etag = none;
  new_atime = none;
  new_mtime = none;
  primary_node_id = true;
  new_primary_node_id = none;
  backup_node_id = false;
}

abbrev stat : Request
stat = record unlink { do_update = false; mode_check_type = mode_check_none }

abbrev chmod : Request
chmod = record stat { do_update = true; nlink = false; new_exec_mode = some 448 }

-- A directory is not a file, and its row is gone all the same.
unlink_directory_run :
    (mode_mismatch unlink directory ≡ true)
    × (search_and_update_inode_table_info unlink 8 (100 ∷ []) rows
        ≡ ok (some (read_row unlink directory), file ∷ []))
unfolding search_and_update_inode_table_info find_row change_row deletes mode_mismatch delete_row
    read_row
unlink_directory_run = (refl, refl)

search_and_update-unlink_example :
    (search_and_update_inode_table_info unlink 8 (100 ∷ []) rows
      ≡ ok (some (read_row unlink directory), delete_row 8 (100 ∷ []) rows))
    × (find_row 8 (100 ∷ []) (delete_row 8 (100 ∷ []) rows) ≡ none)
unfolding find_row needs_update
search_and_update-unlink_example =
    search_and_update-unlink unlink 8 (100 ∷ []) rows directory (refl, (refl, tt)) refl refl refl
      refl refl

read_run :
    search_and_update_inode_table_info stat 8 (102 ∷ []) rows ≡ ok (some (read_row stat file), rows)
unfolding find_row
read_run = search_and_update-read stat 8 (102 ∷ []) rows refl

search_and_update-Updated_example :
    (found : Found) × (rows' : List InodeRow) × (new : InodeRow)
    × (search_and_update_inode_table_info chmod 8 (102 ∷ []) rows ≡ ok (some found, rows'))
    × Answers chmod file found
    × (find_row 8 (102 ∷ []) rows' ≡ some new)
    × Updated chmod file new
unfolding find_row deletes mode_mismatch needs_update
search_and_update-Updated_example =
    search_and_update-Updated chmod 8 (102 ∷ []) rows file refl refl refl refl refl

search_and_update-KeepsOther_example :
    OkAll
      (KeepsOther unlink 8 (100 ∷ []) 9 (102 ∷ []) rows)
      (search_and_update_inode_table_info unlink 8 (100 ∷ []) rows)
search_and_update-KeepsOther_example =
    search_and_update-KeepsOther unlink 8 (100 ∷ []) 9 (102 ∷ []) rows (λ k n. omega arith)

permissions_run :
    (low_bits (changed_mode (some 448) 33188) 9 ≡ 448)
    × (changed_mode (some 448) 33188 / 2 ^ 9 ≡ 33188 / 2 ^ 9)
permissions_run = changed_mode-permissions 448 33188 (omega arith)

-- The directory's entry of an unlink.
abbrev entry : Entry
entry = record {
  parent_id_part_id = 8;
  name = 100 ∷ [];
  error_code = success;
  inode_id = 0;
  st_size = 0;
  node_id = 0;
}

unlink_entries_run :
    unlink_entries (entry ∷ record entry { name = 120 ∷ [] } ∷ []) rows
    ≡ ok (
      record entry { error_code = path_verify_failed; inode_id = 4096; st_size = 10 }
          ∷ record entry { name = 120 ∷ []; error_code = file_not_exists }
          ∷ [],
      file ∷ [],
    )
unfolding unlink_entries unlink_entry unlink_pending code_of search_and_update_inode_table_info
    find_row change_row deletes mode_mismatch delete_row read_row needs_update
unlink_entries_run = refl

unlink_entry-last_link_example :
    (info' : Entry) × (rows' : List InodeRow) × (unlink_entry entry rows ≡ ok (info', rows'))
    × (info'.error_code ≡ path_verify_failed)
    × (find_row 8 (100 ∷ []) rows' ≡ none)
unfolding find_row
unlink_entry-last_link_example =
    unlink_entry-last_link entry rows directory (refl, (refl, tt)) refl refl refl
