-- ===== src/PathParse/Visit.antt =====
-- One round of the walk of the tree of locked directories, falcon/utils/path_parse.c.
use falconfs.Common.{
  ℕ, ◌≤◌, ◌≡◌, ◌≢◌, refl, sym, ap, subst, ◌∙◌, inl, inr, Bool, Option, none, some, List, ◌∷◌, arith,
  ◌==◌, if◌then◌else◌, Bool-cases, nat_eq, list_eq, =?_ne, =?_refl, length, Result, ok, err,
}
use falconfs.PathParse.{
  path_lock_conflict, Name, LockMode, dir_lock_shared, success, pp_none, pp_shared, pp_exclusive,
  pp_exclusive_for_create, Code, Node, Tree, put, State, Env, visit, visit_node, visit_found, walk,
  enter, lock_again, not_exist,
}

-- The trees agree on the nodes at most `depth` deep.
abbrev pub Agree : ℕ → Tree → Tree → Type 0
Agree depth t u = (k : List Name) → length k ≤ depth → u k ≡ t k

pub put_there : (key k : List Name) (node : Node) (t : Tree) → key ≢ k → put key node t k ≡ t k
put_there key k node t ne = ap (λ (b : Bool). if b then some node else t k) (=?_ne key k ne)

pub put_here : (key : List Name) (node : Node) (t : Tree) → put key node t key ≡ some node
put_here key node t = ap (λ (b : Bool). if b then some node else t key) (=?_refl key)

pub put-Agree :
    (name : Name) (at : List Name) (node : Node) (t : Tree)
    → Agree (length at) t (put (name ∷ at) node t)
put-Agree name at node t k le = put_there (name ∷ at) k node t (λ e. omega (arith, ap length e))

pub Agree-trans : (m n : ℕ) (t u v : Tree) → m ≤ n → Agree m t u → Agree n u v → Agree m t v
Agree-trans m n t u v le a b k h = b k (omega arith) ∙ a k h

-- A lock under which the walk passes.
abbrev pub Passes : LockMode → Type 0
Passes pp_none = ⊥
Passes pp_shared = Unit
Passes pp_exclusive = ⊥
Passes pp_exclusive_for_create = Unit

-- The walk passes the node at `key` and has the number `id` there.
pub record Open (t : Tree) (key : List Name) (id : ℕ) : Type 0 where
  pub node : Node
  pub present : t key ≡ some node
  pub passes : Passes node.lock
  pub same_id : node.inode_id ≡ id

-- What a visit leaves: an open node if it succeeds, and the shallower nodes in any case.
abbrev pub Visited : {D : Type 0} → Tree → Name → List Name → State D × Result Code ℕ → Type 0
Visited t name at (s', ok id) = Open s'.tree (name ∷ at) id × Agree (length at) t s'.tree
Visited t name at (s', err e) = (e ≢ success)

module _ {D : Type 0} (env : Env D) where
  abbrev pub next_walk :
      Name → List Name → List Name → State D × Result Code ℕ → State D × Result Code (List Name × ℕ)
  next_walk name names at p = elim p.1 [
    | err e ↦ (p.0, err e)
    | ok c ↦ walk env names (name ∷ at) c p.0
  ]

  pub visit-Open :
      (name : Name) (at : List Name) (parent id : ℕ) (s : State D)
      → Open s.tree (name ∷ at) id
      → visit env name at parent s ≡ (s, ok id)
  unfolding visit visit_found visit_node
  visit-Open name at parent id s o =
      rw o.present (visit_node-Passes o.node.lock o.passes ∙ ap (λ (i : ℕ). (s, ok i)) o.same_id)
    where
      visit_node-Passes :
          (lock : LockMode)
          → Passes lock
          → visit_node env name at o.node lock s ≡ (s, ok o.node.inode_id)
      visit_node-Passes pp_none p = absurd p
      visit_node-Passes pp_shared p = refl
      visit_node-Passes pp_exclusive p = absurd p
      visit_node-Passes pp_exclusive_for_create p = refl

  visit-exclusive :
      (name : Name) (at : List Name) (parent : ℕ) (node : Node) (s : State D)
      → s.tree (name ∷ at) ≡ some node
      → node.lock ≡ pp_exclusive
      → visit env name at parent s ≡ (s, err path_lock_conflict)
  unfolding visit visit_found visit_node
  visit-exclusive name at parent node s e l =
      rw e (ap (λ lock. visit_node env name at node lock s) l)

  -- An exclusively locked node ends the walk, and nothing changes.
  pub walk-exclusive :
      (file : Name) (more at : List Name) (parent : ℕ) (s : State D) (node : Node)
      → s.tree (file ∷ at) ≡ some node
      → node.lock ≡ pp_exclusive
      → walk env (file ∷ more) at parent s ≡ (s, err path_lock_conflict)
  unfolding walk
  walk-exclusive file more at parent s node e l =
      ap (next_walk file more at) (visit-exclusive file at parent node s e l)

  -- An open node is passed without a search.
  pub walk-Open :
      (file : Name) (more at : List Name) (parent id : ℕ) (s : State D)
      → Open s.tree (file ∷ at) id
      → walk env (file ∷ more) at parent s ≡ walk env more (file ∷ at) id s
  unfolding walk
  walk-Open file more at parent id s o =
      ap (next_walk file more at) (visit-Open file at parent id s o)

  enter-Visited :
      (name : Name) (at : List Name) (parent : ℕ) (s : State D)
      → Visited s.tree name at (enter env name at parent s)
  unfolding enter
  enter-Visited name at parent s =
      elim (Bool-cases ((env.search dir_lock_shared parent name s.directory).0 == not_exist)) [
        | inl e ↦ rw e (λ q. ground (arith, q))
        | inr e ↦ rw e (
          record {
            node = record {
              inode_id = (env.search dir_lock_shared parent name s.directory).0;
              lock = pp_shared;
            };
            present = put_here (name ∷ at) _ s.tree;
            passes = tt;
            same_id = refl;
          },
          put-Agree name at _ s.tree,
        )
      ]

  visit_node-Visited :
      (name : Name) (at : List Name) (node : Node) (lock : LockMode) (s : State D)
      → s.tree (name ∷ at) ≡ some node
      → node.lock ≡ lock
      → Visited s.tree name at (visit_node env name at node lock s)
  unfolding visit_node lock_again
  visit_node-Visited name at node pp_none s e l = (
    record {
      node = record node { lock = pp_shared };
      present = put_here (name ∷ at) _ s.tree;
      passes = tt;
      same_id = refl;
    },
    put-Agree name at _ s.tree,
  )
  visit_node-Visited name at node pp_shared s e l = (
    record { node = node; present = e; passes = subst Passes (sym l) tt; same_id = refl },
    λ k le. refl,
  )
  visit_node-Visited name at node pp_exclusive s e l = λ q. ground (arith, q)
  visit_node-Visited name at node pp_exclusive_for_create s e l = (
    record { node = node; present = e; passes = subst Passes (sym l) tt; same_id = refl },
    λ k le. refl,
  )

  visit_found-Visited :
      (name : Name) (at : List Name) (parent : ℕ) (o : Option Node) (s : State D)
      → s.tree (name ∷ at) ≡ o
      → Visited s.tree name at (visit_found env name at parent o s)
  unfolding visit_found
  visit_found-Visited name at parent none s e = enter-Visited name at parent s
  visit_found-Visited name at parent (some node) s e =
      visit_node-Visited name at node node.lock s e refl

  pub visit-Visited :
      (name : Name) (at : List Name) (parent : ℕ) (s : State D)
      → Visited s.tree name at (visit env name at parent s)
  unfolding visit
  visit-Visited name at parent s = visit_found-Visited name at parent (s.tree (name ∷ at)) s refl
