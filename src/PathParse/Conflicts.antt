-- ===== src/PathParse/Conflicts.antt =====
-- Paths through a directory that the transaction has created or removed, falcon/utils/path_parse.c.
use falconfs.Common.{
  ℕ, ◌≡◌, refl, sym, ap, subst, ◌∙◌, Bool, true, false, Option, none, some, List, [], ◌∷◌, ◌++◌,
  if◌then◌else◌, nat_eq, list_eq, err,
}
use falconfs.PathParse.{
  Name, State, Env, walk, success, pp_exclusive, pp_exclusive_for_create, path_lock_conflict,
}
use falconfs.PathParse.Visit.{Passes, walk-exclusive, walk-Open}
use falconfs.PathParse.Reached.{
  walk-through, insert_names-Reached, create_target-Created, remove_target-Removed,
}
use falconfs.PathParse.Insert.{
  Answer, insert_names, at_target, flag_set, flag_target_to_be_created, flag_target_is_directory,
  flag_target_to_be_deleted, flag_allow_operation_under_created_directory,
}

module _ {D : Type 0} (env : Env D) where
  -- An exclusive node on the way ends a parse with a conflict.
  insert_names-conflict :
      (flag : ℕ) (inode : Option ℕ) (names : List Name) (file : Name) (s : State D)
      → walk env names [] 0 s ≡ (s, err path_lock_conflict)
      → insert_names env flag inode names file s
        ≡ (s, path_lock_conflict, record { parent_id = none; file_name = none; inode_id = inode })
  unfolding insert_names
  insert_names-conflict flag inode names file s e = ap (at_target env flag inode file) e

  -- After a parse that created the directory `file`, without the flag that allows operations under
  -- it, the parse of every longer path through it, with any flags, ends with PATH_LOCK_CONFLICT and
  -- leaves the tree, the directory table's locks and the sequence as they are.
  pub insert_names-create_conflict :
      (flag : ℕ) (inode : Option ℕ) (names : List Name) (file : Name) (s s' : State D)
      (answer : Answer)
      → insert_names env flag inode names file s ≡ (s', success, answer)
      → flag_set flag flag_target_to_be_created ≡ true
      → flag_set flag flag_target_is_directory ≡ true
      → flag_set flag flag_allow_operation_under_created_directory ≡ false
      → (flag' : ℕ) (inode' : Option ℕ) (more : List Name) (file' : Name)
      → insert_names env flag' inode' (names ++ file ∷ more) file' s'
        ≡ (s', path_lock_conflict, record { parent_id = none; file_name = none; inode_id = inode' })
  insert_names-create_conflict flag inode names file s s' answer h c d n flag' inode' more file' =
      let w = insert_names-Reached env flag inode names file s s' answer h in
      let (id, number, created) =
        create_target-Created env flag inode file w.at w.parent w.before s' w.result c d
          w.inserted in
      insert_names-conflict flag' inode' (names ++ file ∷ more) file' s' (
        walk-through env names more file w.at w.parent s w.before s' w.walked (created refl).1
        ∙ walk-exclusive env file more w.at w.parent s' _ (created refl).0
            (ap (λ (b : Bool). if b then pp_exclusive_for_create else pp_exclusive) n))

  -- With the flag, the walk of every longer path passes the new directory without a search, and goes
  -- on under it with the inode number that the parse returned.
  pub insert_names-create_allow :
      (flag : ℕ) (inode : Option ℕ) (names : List Name) (file : Name) (s s' : State D)
      (answer : Answer)
      → insert_names env flag inode names file s ≡ (s', success, answer)
      → flag_set flag flag_target_to_be_created ≡ true
      → flag_set flag flag_target_is_directory ≡ true
      → flag_set flag flag_allow_operation_under_created_directory ≡ true
      → (id : ℕ) × (at : List Name) × (answer.inode_id ≡ some id)
        × ((more : List Name)
            → walk env (names ++ file ∷ more) [] 0 s' ≡ walk env more (file ∷ at) id s')
  insert_names-create_allow flag inode names file s s' answer h c d n =
      let w = insert_names-Reached env flag inode names file s s' answer h in
      let (id, number, created) =
        create_target-Created env flag inode file w.at w.parent w.before s' w.result c d
          w.inserted in
      (
        id,
        w.at,
        w.answered ∙ number,
        λ more.
            walk-through env names more file w.at w.parent s w.before s' w.walked (created refl).1
            ∙ walk-Open env file more w.at w.parent id s' (record {
              node = _;
              present = (created refl).0;
              passes =
                  subst (λ (b : Bool). Passes (if b then pp_exclusive_for_create else pp_exclusive))
                    (sym n) tt;
              same_id = refl;
            }),
      )

  -- After a parse that removed the directory `file`, the parse of every longer path through it, with
  -- any flags, ends with PATH_LOCK_CONFLICT and changes nothing.
  pub insert_names-remove_conflict :
      (flag : ℕ) (inode : Option ℕ) (names : List Name) (file : Name) (s s' : State D)
      (answer : Answer)
      → insert_names env flag inode names file s ≡ (s', success, answer)
      → flag_set flag flag_target_to_be_created ≡ false
      → flag_set flag flag_target_to_be_deleted ≡ true
      → flag_set flag flag_target_is_directory ≡ true
      → (flag' : ℕ) (inode' : Option ℕ) (more : List Name) (file' : Name)
      → insert_names env flag' inode' (names ++ file ∷ more) file' s'
        ≡ (s', path_lock_conflict, record { parent_id = none; file_name = none; inode_id = inode' })
  insert_names-remove_conflict flag inode names file s s' answer h c v d flag' inode' more file' =
      let w = insert_names-Reached env flag inode names file s s' answer h in
      let (id, removed) =
        remove_target-Removed env flag inode file w.at w.parent w.before s' w.result c v d
          w.inserted in
      let (node, present, lock) = (removed refl).0 in
      insert_names-conflict flag' inode' (names ++ file ∷ more) file' s' (
        walk-through env names more file w.at w.parent s w.before s' w.walked (removed refl).1
        ∙ walk-exclusive env file more w.at w.parent s' node present lock)
