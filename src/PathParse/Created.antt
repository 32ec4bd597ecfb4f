-- ===== src/PathParse/Created.antt =====
-- What creating or removing a directory leaves in the tree, falcon/utils/path_parse.c.
use falconfs.Common.{
  ℕ, ◌≡◌, ◌≢◌, refl, ap, ◌∙◌, inl, inr, Bool, Option, none, some, List, ◌∷◌, arith, ◌==◌,
  if◌then◌else◌, Bool-cases, nat_eq, list_eq, length,
}
use falconfs.PathParse.{
  not_exist, path_lock_conflict, locked_node, path_not_exists, removal_node, success, pp_exclusive,
  path_exists, create_directory, create_new, create_unless, dir_lock_exclusive, remove_directory,
  pp_exclusive_for_create, Code, Name, Node, Tree, LockMode, State, Env, generate, number_for,
}
use falconfs.PathParse.Visit.{put-Agree, put_here, Agree}

path_exists-ne : path_exists ≢ success
path_exists-ne e = ground (arith, e)

conflict-ne : path_lock_conflict ≢ success
conflict-ne e = ground (arith, e)

not_exists-ne : path_not_exists ≢ success
not_exists-ne e = ground (arith, e)

removal_node-lock : (found : ℕ) (o : Option Node) → (removal_node found o).lock ≡ pp_exclusive
removal_node-lock found none = refl
removal_node-lock found (some node) = refl

module _ {D : Type 0} (env : Env D) where
  number_for-tree :
      (for_input : Bool) (given found : ℕ) (s : State D)
      → (number_for env for_input given found s).1.tree ≡ s.tree
  unfolding number_for generate
  number_for-tree for_input given found s = ground arith

  abbrev lock_of : Bool → LockMode
  lock_of allow = if allow then pp_exclusive_for_create else pp_exclusive

  -- On success the new directory is in the tree under its lock, with the number returned.
  abbrev pub Created : Bool → List Name → ℕ → State D → State D × Code × ℕ → Type 0
  Created allow key depth s (s', code, id) =
      code ≡ success
      → (s'.tree key ≡ some (record { inode_id = id; lock = lock_of allow }))
        × Agree depth s.tree s'.tree

  create_new-Created :
      (for_input allow : Bool) (given : ℕ) (name : Name) (at : List Name) (parent : ℕ) (s : State D)
      → Created allow
          (name ∷ at)
          (length at)
          s
          (create_new env for_input allow given name at parent s)
  unfolding create_new
  create_new-Created for_input allow given name at parent s c =
      let r = env.search dir_lock_exclusive parent name s.directory in
      let before : State D = record s { directory = r.1 } in
      let (id, s') = number_for env for_input given r.0 before in
      let node : Node = record { inode_id = id; lock = lock_of allow } in
      (
        put_here (name ∷ at) node s'.tree,
        λ k le.
            put-Agree name at node s'.tree k le
            ∙ ap {B = Option Node} (λ (t : Tree). t k) (number_for-tree for_input given r.0 before),
      )

  create_unless-Created :
      (o : Option Node) (allow : Bool) (given : ℕ) (key : List Name) (depth : ℕ) (s : State D)
      (created : State D × Code × ℕ)
      → Created allow key depth s created
      → Created allow key depth s (create_unless o given s created)
  create_unless-Created none allow given key depth s created h = h
  create_unless-Created (some node) allow given key depth s created h =
      λ c. absurd (path_exists-ne c)

  pub create_directory-Created :
      (for_input allow : Bool) (given : ℕ) (name : Name) (at : List Name) (parent : ℕ) (s : State D)
      → Created allow
          (name ∷ at)
          (length at)
          s
          (create_directory env for_input allow given name at parent s)
  unfolding create_directory
  create_directory-Created for_input allow given name at parent s =
      create_unless-Created (s.tree (name ∷ at)) allow given (name ∷ at) (length at) s
        (create_new env for_input allow given name at parent s)
        (create_new-Created for_input allow given name at parent s)

  -- On success the removed directory is in the tree under an exclusive lock.
  abbrev pub Removed : List Name → ℕ → State D → State D × Code × ℕ → Type 0
  Removed key depth s (s', code, id) =
      code ≡ success
      → ((node : Node) × (s'.tree key ≡ some node) × (node.lock ≡ pp_exclusive))
        × Agree depth s.tree s'.tree

  pub remove_directory-Removed :
      (given : ℕ) (name : Name) (at : List Name) (parent : ℕ) (s : State D)
      → Removed (name ∷ at) (length at) s (remove_directory env given name at parent s)
  unfolding remove_directory
  remove_directory-Removed given name at parent s =
      elim (Bool-cases (locked_node (s.tree (name ∷ at)))) [
        | inl e ↦ rw (remove_directory, e) (λ c. absurd (conflict-ne c))
        | inr e ↦
            elim (Bool-cases
              ((env.search dir_lock_exclusive parent name s.directory).0 == not_exist)) [
                | inl n ↦ rw (remove_directory, e, n) (λ c. absurd (not_exists-ne c))
                | inr n ↦
                    rw (remove_directory, e, n)
                      (λ c. (
                        (
                          _,
                          put_here (name ∷ at) _ s.tree,
                          removal_node-lock _ (s.tree (name ∷ at)),
                        ),
                        λ k le. put-Agree name at _ s.tree k le,
                      ))
              ]
      ]
