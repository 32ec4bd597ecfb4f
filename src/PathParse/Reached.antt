-- ===== src/PathParse/Reached.antt =====
-- A parse that succeeded: the walk to its target, and what the target became, falcon/utils/path_parse.c.
use falconfs.Common.{
  ℕ, ◌≡◌, ◌≢◌, refl, sym, ap, subst, ◌∙◌, true, false, Option, none, some, List, [], ◌∷◌, ◌++◌,
  arith, nat_eq, list_eq, length, Result, ok, err,
}
use falconfs.PathParse.{
  Name, Code, program_error, State, Env, walk, success, create_directory, remove_directory,
}
use falconfs.PathParse.Visit.{Agree}
use falconfs.PathParse.Walk.{Walked, walk-Walked, walk_again, Agree-OnWay, walk-append, walk_on}
use falconfs.PathParse.Created.{
  create_directory-Created, remove_directory-Removed, Created, Removed,
}
use falconfs.PathParse.Insert.{
  Answer, insert_names, insert_target, create_target, remove_target, at_target, flag_set,
  flag_target_to_be_created, flag_target_is_directory, flag_target_to_be_deleted,
  flag_allow_operation_under_created_directory, flag_inode_id_for_input, written,
}

program_error-ne : program_error ≢ success
program_error-ne e = ground (arith, e)

module _ {D : Type 0} (env : Env D) where
  -- A walk that succeeded, and then the node of `file` under it.
  pub walk-through :
      (names more : List Name) (file : Name) (at : List Name) (parent : ℕ) (s s1 s2 : State D)
      → walk env names [] 0 s ≡ (s1, ok (at, parent))
      → Agree (length at) s1.tree s2.tree
      → walk env (names ++ file ∷ more) [] 0 s2 ≡ walk env (file ∷ more) at parent s2
  walk-through names more file at parent s s1 s2 e a =
      walk-append env names (file ∷ more) [] 0 s2
      ∙ ap (walk_on env (file ∷ more)) (
          walk_again env names [] at 0 parent s s1 s2 e
            (Agree-OnWay (length at) s1.tree s2.tree at (omega arith) a))

  -- Whatever the parse of a target did, on success the walk to it had succeeded.
  pub record Reached (flag : ℕ) (inode : Option ℕ) (names : List Name) (file : Name)
      (s s' : State D) (answer : Answer) : Type 0 where
    pub before : State D
    pub at : List Name
    pub parent : ℕ
    pub result : Option ℕ
    pub walked : walk env names [] 0 s ≡ (before, ok (at, parent))
    pub answered : answer.inode_id ≡ result
    pub inserted : insert_target env flag inode file at parent before ≡ (s', success, result)

  at_target-success :
      (flag : ℕ) (inode : Option ℕ) (names : List Name) (file : Name) (s s' : State D)
      (answer : Answer) (p : State D × Result Code (List Name × ℕ))
      → walk env names [] 0 s ≡ p
      → Walked env s.tree names [] 0 p
      → at_target env flag inode file p ≡ (s', success, answer)
      → Reached flag inode names file s s' answer
  at_target-success flag inode names file s s' answer (s1, err e) w ne h =
      absurd (ne (ap (λ (q : State D × Code × Answer). q.1) h))
  at_target-success flag inode names file s s' answer (s1, ok (at, parent)) w done h = record {
    before = s1;
    at = at;
    parent = parent;
    result = (insert_target env flag inode file at parent s1).2;
    walked = w;
    answered = sym (ap (λ (q : State D × Code × Answer). q.2.inode_id) h);
    inserted =
        ap
          (λ (q : State D × Code × Answer).
            (q.0, q.1, (insert_target env flag inode file at parent s1).2))
          h;
  }

  pub insert_names-Reached :
      (flag : ℕ) (inode : Option ℕ) (names : List Name) (file : Name) (s s' : State D)
      (answer : Answer)
      → insert_names env flag inode names file s ≡ (s', success, answer)
      → Reached flag inode names file s s' answer
  unfolding insert_names
  insert_names-Reached flag inode names file s s' answer h =
      at_target-success flag inode names file s s' answer (walk env names [] 0 s) refl
        (walk-Walked env names [] 0 s) h

  create_target-none :
      (flag : ℕ) (file : Name) (at : List Name) (parent : ℕ) (s : State D)
      → flag_set flag flag_target_to_be_created ≡ true
      → insert_target env flag none file at parent s ≡ (s, program_error, none)
  unfolding insert_target create_target
  create_target-none flag file at parent s c = rw c refl

  create_target-some :
      (flag given : ℕ) (file : Name) (at : List Name) (parent : ℕ) (s : State D)
      → flag_set flag flag_target_to_be_created ≡ true
      → flag_set flag flag_target_is_directory ≡ true
      → insert_target env flag (some given) file at parent s
        ≡ written (
            create_directory env
              (flag_set flag flag_inode_id_for_input)
              (flag_set flag flag_allow_operation_under_created_directory)
              given
              file
              at
              parent
              s)
  unfolding insert_target create_target
  create_target-some flag given file at parent s c d = rw (c, d) refl

  remove_target-none :
      (flag : ℕ) (file : Name) (at : List Name) (parent : ℕ) (s : State D)
      → flag_set flag flag_target_to_be_created ≡ false
      → flag_set flag flag_target_to_be_deleted ≡ true
      → flag_set flag flag_target_is_directory ≡ true
      → insert_target env flag none file at parent s ≡ (s, program_error, none)
  unfolding insert_target remove_target
  remove_target-none flag file at parent s c r d = rw (c, r, d) refl

  remove_target-some :
      (flag given : ℕ) (file : Name) (at : List Name) (parent : ℕ) (s : State D)
      → flag_set flag flag_target_to_be_created ≡ false
      → flag_set flag flag_target_to_be_deleted ≡ true
      → flag_set flag flag_target_is_directory ≡ true
      → insert_target env flag (some given) file at parent s
        ≡ written (remove_directory env given file at parent s)
  unfolding insert_target remove_target
  remove_target-some flag given file at parent s c r d = rw (c, r, d) refl

  not_program_error :
      (q : State D × Code × Option ℕ) (s' : State D) (r : Option ℕ)
      → q.1 ≡ program_error
      → q ≡ (s', success, r)
      → ⊥
  not_program_error q s' r p e =
      program_error-ne (sym p ∙ ap (λ (q : State D × Code × Option ℕ). q.1) e)

  -- The results with a number in place of what is written.
  unwritten :
      (out : State D × Code × ℕ) (s' : State D) (r : Option ℕ)
      → written out ≡ (s', success, r)
      → (out ≡ (s', success, out.2)) × (r ≡ some out.2)
  unwritten out s' r e = (
    ap (λ (q : State D × Code × Option ℕ). (q.0, q.1, out.2)) e,
    sym (ap (λ (q : State D × Code × Option ℕ). q.2) e),
  )

  pub create_target-Created :
      (flag : ℕ) (inode : Option ℕ) (file : Name) (at : List Name) (parent : ℕ) (s s' : State D)
      (r : Option ℕ)
      → flag_set flag flag_target_to_be_created ≡ true
      → flag_set flag flag_target_is_directory ≡ true
      → insert_target env flag inode file at parent s ≡ (s', success, r)
      → (id : ℕ) × (r ≡ some id)
        × Created env
            (flag_set flag flag_allow_operation_under_created_directory)
            (file ∷ at)
            (length at)
            s
            (s', success, id)
  create_target-Created flag none file at parent s s' r c d h = absurd (
      not_program_error (s, program_error, none) s' r refl
        (sym (create_target-none flag file at parent s c) ∙ h))
  create_target-Created flag (some given) file at parent s s' r c d h =
      let allow = flag_set flag flag_allow_operation_under_created_directory in
      let for_input = flag_set flag flag_inode_id_for_input in
      let out = create_directory env for_input allow given file at parent s in
      let (same, number) =
        unwritten out s' r (sym (create_target-some flag given file at parent s c d) ∙ h) in
      (
        out.2,
        number,
        subst (Created env allow (file ∷ at) (length at) s) same
            (create_directory-Created env for_input allow given file at parent s),
      )

  pub remove_target-Removed :
      (flag : ℕ) (inode : Option ℕ) (file : Name) (at : List Name) (parent : ℕ) (s s' : State D)
      (r : Option ℕ)
      → flag_set flag flag_target_to_be_created ≡ false
      → flag_set flag flag_target_to_be_deleted ≡ true
      → flag_set flag flag_target_is_directory ≡ true
      → insert_target env flag inode file at parent s ≡ (s', success, r)
      → (id : ℕ) × Removed env (file ∷ at) (length at) s (s', success, id)
  remove_target-Removed flag none file at parent s s' r c v d h = absurd (
      not_program_error (s, program_error, none) s' r refl
        (sym (remove_target-none flag file at parent s c v d) ∙ h))
  remove_target-Removed flag (some given) file at parent s s' r c v d h =
      let out = remove_directory env given file at parent s in
      let (same, number) =
        unwritten out s' r (sym (remove_target-some flag given file at parent s c v d) ∙ h) in
      (
        out.2,
        subst (Removed env (file ∷ at) (length at) s) same
            (remove_directory-Removed env given file at parent s),
      )
