-- ===== src/PathParse/Walk.antt =====
-- Walks of the tree of locked directories, falcon/utils/path_parse.c.
use falconfs.Common.{
  sym, ℕ, ◌≤◌, ◌≡◌, ◌≢◌, refl, ap, subst, ◌∙◌, List, [], ◌∷◌, ◌++◌, arith, nat_eq, list_eq, length,
  Result, ok, err,
}
use mathlib.Core.List.{append_assoc}
use falconfs.PathParse.{Name, success, Code, Tree, State, Env, visit, walk}
use falconfs.PathParse.Visit.{
  Agree, Agree-trans, Open, Visited, visit-Open, visit-Visited, next_walk,
}

-- Two trees with the same nodes on the way to a key.
abbrev pub OnWay : List Name → Tree → Tree → Type 0
OnWay [] t u = Unit
OnWay (name ∷ at) t u = (u (name ∷ at) ≡ t (name ∷ at)) × OnWay at t u

pub Agree-OnWay :
    (depth : ℕ) (t u : Tree) (at : List Name) → length at ≤ depth → Agree depth t u → OnWay at t u
Agree-OnWay depth t u [] le a = tt
Agree-OnWay depth t u (name ∷ at) le a =
    (a (name ∷ at) le, Agree-OnWay depth t u at (omega arith) a)

same_below :
    (t u : Tree) (more : List Name) (name : Name) (at : List Name)
    → OnWay (more ++ (name ∷ at)) t u
    → u (name ∷ at) ≡ t (name ∷ at)
same_below t u [] name at h = h.0
same_below t u (next ∷ more) name at h = same_below t u more name at h.1

same-Open : (t u : Tree) (key : List Name) (id : ℕ) → u key ≡ t key → Open t key id → Open u key id
same-Open t u key id e o = record {
  node = o.node;
  present = e ∙ o.present;
  passes = o.passes;
  same_id = o.same_id;
}

-- The key `at'` lies under `at`.
abbrev pub Under : List Name → List Name → Type 0
Under at at' = (more : List Name) × (more ++ at ≡ at')

module _ {D : Type 0} (env : Env D) where
  -- The walk repeats itself on every state that has the same nodes on the way.
  abbrev pub Repeats : List Name → List Name → ℕ → State D → List Name → ℕ → Type 0
  Repeats names at id s' at' id' =
      (s'' : State D) → OnWay at' s'.tree s''.tree → walk env names at id s'' ≡ (s'', ok (at', id'))

  abbrev pub Walked :
      Tree → List Name → List Name → ℕ → State D × Result Code (List Name × ℕ) → Type 0
  Walked t names at id (s', ok (at', id')) =
      Agree (length at) t s'.tree × Under at at' × Repeats names at id s' at' id'
  Walked t names at id (s', err e) = (e ≢ success)

  walk-step :
      (t : Tree) (name : Name) (names at : List Name) (parent child : ℕ) (s1 : State D)
      (out : State D × Result Code (List Name × ℕ))
      → Open s1.tree (name ∷ at) child
      → Agree (length at) t s1.tree
      → Walked s1.tree names (name ∷ at) child out
      → Walked t (name ∷ names) at parent out
  unfolding walk
  walk-step t name names at parent child s1 (s', err e) o a w = w
  walk-step t name names at parent child s1 (s', ok (at', id')) o a (a', (more, under), again) = (
    Agree-trans (length at) (length (name ∷ at)) t s1.tree s'.tree (omega arith) a a',
    (more ++ (name ∷ []), append_assoc more (name ∷ []) at ∙ under),
    λ s'' b.
        let same =
          same_below s'.tree s''.tree more name at
            (subst (λ key. OnWay key s'.tree s''.tree) (sym under) b)
          ∙ a' (name ∷ at) (omega arith) in
        ap (next_walk env name names at) (
          visit-Open env name at parent child s''
            (same-Open s1.tree s''.tree (name ∷ at) child same o))
        ∙ again s'' b,
  )

  after_visit :
      (t : Tree) (name : Name) (names at : List Name) (id : ℕ) (p : State D × Result Code ℕ)
      → Visited t name at p
      → ((c : ℕ) (s : State D) → Walked s.tree names (name ∷ at) c (walk env names (name ∷ at) c s))
      → Walked t (name ∷ names) at id (next_walk env name names at p)
  after_visit t name names at id (s1, err e) v rest = v
  after_visit t name names at id (s1, ok c) (o, a) rest =
      walk-step t name names at id c s1 (walk env names (name ∷ at) c s1) o a (rest c s1)

  pub walk-Walked :
      (names at : List Name) (id : ℕ) (s : State D)
      → Walked s.tree names at id (walk env names at id s)
  unfolding walk
  walk-Walked [] at id s = (λ k le. refl, ([], refl), λ s'' b. refl)
  walk-Walked (name ∷ names) at id s =
      after_visit s.tree name names at id (visit env name at id s) (visit-Visited env name at id s)
        (walk-Walked names (name ∷ at))

  abbrev pub walk_on :
      List Name → State D × Result Code (List Name × ℕ) → State D × Result Code (List Name × ℕ)
  walk_on more (s, ok (at, id)) = walk env more at id s
  walk_on more (s, err e) = (s, err e)

  append_after :
      (more : List Name) (name : Name) (names at : List Name) (p : State D × Result Code ℕ)
      → ((c : ℕ) (s : State D)
          → walk env (names ++ more) (name ∷ at) c s
            ≡ walk_on more (walk env names (name ∷ at) c s))
      → next_walk env name (names ++ more) at p ≡ walk_on more (next_walk env name names at p)
  append_after more name names at (s, err e) rest = refl
  append_after more name names at (s, ok c) rest = rest c s

  pub walk-append :
      (names more at : List Name) (id : ℕ) (s : State D)
      → walk env (names ++ more) at id s ≡ walk_on more (walk env names at id s)
  unfolding walk
  walk-append [] more at id s = refl
  walk-append (name ∷ names) more at id s =
      append_after more name names at (visit env name at id s) (walk-append names more (name ∷ at))

  -- A walk that succeeded passes again, to the same node and without any change, on every state whose
  -- tree has the same nodes as the walk left, under the key that it came to and the keys on the way there.
  pub walk_again :
      (names at at' : List Name) (id id' : ℕ) (s s' s'' : State D)
      → walk env names at id s ≡ (s', ok (at', id'))
      → OnWay at' s'.tree s''.tree
      → walk env names at id s'' ≡ (s'', ok (at', id'))
  walk_again names at at' id id' s s' s'' e a =
      (subst (Walked s.tree names at id) e (walk-Walked names at id s)).2 s'' a
