-- ===== src/PathParse/Insert.antt =====
-- PathParseTreeInsert and VerifyPathValidity of falcon/utils/path_parse.c: the cutting of a path into
-- names, and the choice of what happens to the target.
use falconfs.Common.{
  ℕ, zero, suc, ◌+◌, Bool, not, ◌&&◌, Option, none, some, List, [], ◌∷◌, ◌==◌, if◌then◌else◌,
  nat_eq, list_eq, length, Result, ok, err, bit_and, bit_or,
}
use falconfs.PathParse.{
  Name, Code, State, Env, walk, create_directory, create_file, remove_directory, share_target,
  success, program_error, path_is_root, path_is_invalid, path_verify_failed, out_of_fuel,
}

abbrev pub slash : ℕ
slash = 47

-- path[i], with the terminator after the last byte.
abbrev pub char_at : List ℕ → ℕ → ℕ
char_at [] i = 0
char_at (c ∷ cs) zero = c
char_at (c ∷ cs) (suc i) = char_at cs i

-- The `len` bytes from `start` on.
abbrev pub sub_path : List ℕ → ℕ → ℕ → Name
sub_path [] start len = []
sub_path (c ∷ cs) (suc start) len = sub_path cs start len
sub_path (c ∷ cs) zero zero = []
sub_path (c ∷ cs) zero (suc len) = c ∷ sub_path cs zero len

-- The inner loop: the length of the name that starts at `start`.
unfoldable pub scan_name : ℕ → List ℕ → ℕ → ℕ → ℕ
scan_name zero path start len = len
scan_name (suc fuel) path start len =
    let c = char_at path (start + len) in
    let rest = scan_name fuel path start (len + 1) in
    if not (c == 0) && not (c == slash) then rest else len

abbrev pub with_name : Name → Option (List Name × Name) → Option (List Name × Name)
with_name name none = none
with_name name (some (names, last)) = some (name ∷ names, last)

-- The outer loop: the names of the directories, and the name that is left when the path ends.
unfoldable pub name_loop : ℕ → List ℕ → ℕ → ℕ → Option (List Name × Name)
name_loop zero path start len = none
name_loop (suc fuel) path start len =
    let start' = if start == 0 then 1 else start + len + 1 in
    let len' = scan_name (length path) path start' 0 in
    let rest = name_loop fuel path start' len' in
    if char_at path (start + len) == 0
    then some ([], sub_path path start len)
    else with_name (sub_path path start len) rest

abbrev pub flag_not_root : ℕ
flag_not_root = 1

abbrev pub flag_target_is_directory : ℕ
flag_target_is_directory = 2

abbrev pub flag_target_to_be_created : ℕ
flag_target_to_be_created = 4

abbrev pub flag_inode_id_for_input : ℕ
flag_inode_id_for_input = 8

abbrev pub flag_target_to_be_deleted : ℕ
flag_target_to_be_deleted = 16

abbrev pub flag_allow_operation_under_created_directory : ℕ
flag_allow_operation_under_created_directory = 32

abbrev pub flag_acquire_shared_lock_if_target_is_directory : ℕ
flag_acquire_shared_lock_if_target_is_directory = 64

unfoldable pub flag_set : ℕ → ℕ → Bool
flag_set flag bit = not (bit_and flag bit == 0)

-- What the caller's pointers hold afterwards; none where nothing is written.
pub record Answer : Type 0 where
  pub parent_id : Option ℕ
  pub file_name : Option Name
  pub inode_id : Option ℕ

abbrev pub value_of : Option ℕ → ℕ
value_of none = 0
value_of (some n) = n

abbrev pub written : {D : Type 0} → State D × Code × ℕ → State D × Code × Option ℕ
written (s, code, n) = (s, code, some n)

-- A NULL pointer gets nothing.
abbrev pub written_if : {D : Type 0} → Option ℕ → State D × Code × ℕ → State D × Code × Option ℕ
written_if none (s, code, n) = (s, code, none)
written_if (some given) (s, code, n) = (s, code, some n)

module _ {D : Type 0} (env : Env D) where
  unfoldable pub create_target :
      ℕ → Option ℕ → Name → List Name → ℕ → State D → State D × Code × Option ℕ
  create_target flag none file at parent s = (s, program_error, none)
  create_target flag (some given) file at parent s =
      if flag_set flag flag_target_is_directory
      then written (
          create_directory env (flag_set flag flag_inode_id_for_input)
            (flag_set flag flag_allow_operation_under_created_directory) given file at parent s)
      else written (create_file env (flag_set flag flag_inode_id_for_input) given s)

  unfoldable pub remove_target :
      Option ℕ → Name → List Name → ℕ → State D → State D × Code × Option ℕ
  remove_target none file at parent s = (s, program_error, none)
  remove_target (some given) file at parent s =
      written (remove_directory env given file at parent s)

  unfoldable pub insert_target :
      ℕ → Option ℕ → Name → List Name → ℕ → State D → State D × Code × Option ℕ
  insert_target flag inode file at parent s =
      if flag_set flag flag_target_to_be_created
      then create_target flag inode file at parent s
      else if flag_set flag flag_target_to_be_deleted && flag_set flag flag_target_is_directory
      then remove_target inode file at parent s
      else if flag_set flag flag_acquire_shared_lock_if_target_is_directory
      then written_if inode (
          share_target env (flag_set flag flag_target_is_directory) (value_of inode) file at parent
            s)
      else (s, success, inode)

  abbrev pub at_target :
      ℕ → Option ℕ → Name → State D × Result Code (List Name × ℕ) → State D × Code × Answer
  at_target flag inode file (s, err e) =
      (s, e, record { parent_id = none; file_name = none; inode_id = inode })
  at_target flag inode file (s, ok (at, parent)) =
      let (s', code, inode') = insert_target flag inode file at parent s in
      (s', code, record { parent_id = some parent; file_name = some file; inode_id = inode' })

  unfoldable pub insert_names : ℕ → Option ℕ → List Name → Name → State D → State D × Code × Answer
  insert_names flag inode names file s = at_target flag inode file (walk env names [] 0 s)

  abbrev pub insert_cut :
      ℕ → Option ℕ → Option (List Name × Name) → State D → State D × Code × Answer
  insert_cut flag inode none s =
      (s, out_of_fuel, record { parent_id = none; file_name = none; inode_id = inode })
  insert_cut flag inode (some (names, file)) s = insert_names flag inode names file s

  abbrev pub is_root : List ℕ → Bool
  is_root path = char_at path 0 == slash && char_at path 1 == 0

  unfoldable pub path_parse_tree_insert : ℕ → Option ℕ → List ℕ → State D → State D × Code × Answer
  path_parse_tree_insert flag inode path s =
      if is_root path && flag_set flag flag_not_root
      then (s, path_is_root, record { parent_id = none; file_name = none; inode_id = inode })
      else insert_cut flag inode (name_loop (suc (length path)) path 0 1) s

abbrev pub last_char : List ℕ → ℕ
last_char [] = 0
last_char (c ∷ []) = c
last_char (c ∷ d ∷ cs) = last_char (d ∷ cs)

-- VerifyPathValidity: the code, and the property. No path is a NULL pointer.
unfoldable pub verify_path_validity : Option (List ℕ) → ℕ → Code × ℕ
verify_path_validity none requirement = (path_is_invalid, 0)
verify_path_validity (some path) requirement =
    let property = if last_char path == slash then 1 else bit_or 1 2 in
    if not (char_at path 0 == slash)
    then (path_is_invalid, 0)
    else if flag_set requirement 1 && not (flag_set property 1)
    then (path_verify_failed, property)
    else if flag_set requirement 2 && not (flag_set property 2)
    then (path_verify_failed, property)
    else (success, property)
