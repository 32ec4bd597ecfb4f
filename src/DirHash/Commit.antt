-- ===== src/DirHash/Commit.antt =====
-- Whole transactions on the cache of falcon/dir_path_shmem/dir_path_hash.c: commit makes it agree
-- with the table as changed, abort leaves it in agreement with the table as it was.
use falconfs.Common.{
  ℕ, ◌≡◌, refl, subst, ◌∙◌, inl, inr, Bool, true, false, Option, none, some, List, [], ◌∷◌,
  if◌then◌else◌, Bool-cases, Option-cases, ◌=?◌, nat_eq, list_eq, mapped, Result, ok, err,
}
use falconfs.DirTable.{Key, key_eq, key_beq_iff, updated}
use falconfs.DirHash.{Item, Action, added, renumbered, DirHash, Error, run_on, Env}
use falconfs.DirHash.Ops.{
  new_entry, modify, index, peek, has_room, recycled, commit_number, commit_action, commit_actions,
  eliminate_dir_path_hash_by_lru,
}
use falconfs.DirHash.Lookup.{peek-modify, peek-new_entry, eliminate-Kept}
use falconfs.DirHash.Coherent.{replay, ItemAgrees, ItemAgrees-Kept, IsCoherent}

numbered-Agrees :
    (id : ℕ) (o : Option Item) → ItemAgrees id (mapped (λ i. record i { inode_id = id }) o)
numbered-Agrees id none = tt
numbered-Agrees id (some item) = inr refl

if-Agrees :
    (b : Bool) (id number : ℕ) (o o' : Option Item)
    → (b ≡ true → ItemAgrees id o)
    → (b ≡ false → ItemAgrees number o')
    → ItemAgrees (if b then id else number) (if b then o else o')
if-Agrees true id number o o' h g = h refl
if-Agrees false id number o o' h g = g refl

if-Agrees_same :
    (b : Bool) (id number : ℕ) (o : Option Item)
    → (b ≡ true → o ≡ none)
    → ItemAgrees number o
    → ItemAgrees (if b then id else number) o
if-Agrees_same true id number o h g = rw (h refl) tt
if-Agrees_same false id number o h g = g

module _ (env : Env) where
  commit_number-IsCoherent :
      (fuel : ℕ) (numbers : Key → ℕ) (k : Key) (id : ℕ) (s : DirHash)
      → IsCoherent env numbers s
      → IsCoherent env (updated k id numbers) (commit_number env fuel k id s)
  unfolding commit_number
  commit_number-IsCoherent fuel numbers k id s c j = elim (Option-cases (peek env k s)) [
    | inr (item, e) ↦
        rw (commit_number, e, peek-modify env j k (λ i. record i { inode_id = id }) s)
          (if-Agrees (k =? j) id (numbers j) _ _ (λ h. numbered-Agrees id (peek env j s))
            (λ h. c j))
    | inl e ↦ elim (Bool-cases (has_room env k s)) [
      | inl r ↦
          rw
            (
              commit_number,
              e,
              r,
              peek-new_entry env j k (record (recycled env k s) { inode_id = id }) s,
            )
            (if-Agrees (k =? j) id (numbers j) _ _ (λ h. inr refl) (λ h. c j))
      | inr r ↦
          rw (commit_number, e, r)
            (if-Agrees_same (k =? j) id (numbers j) _
              (λ h. subst (λ i. peek env i s ≡ none) ((key_beq_iff k j).0 h) e) (c j))
    ]
  ]

  -- Where the actions succeed.
  abbrev pub Committed : (Key → ℕ) → DirHash × Result Error (Unit {0}) → Type 0
  Committed numbers (s, ok u) = IsCoherent env numbers s
  Committed numbers (s, err e) = Unit

  after_added :
      (numbers : Key → ℕ) (o : DirHash × Result Error Bool)
      (next : DirHash → DirHash × Result Error (Unit {0}))
      → IsCoherent env (numbers) o.0
      → (numbers' : Key → ℕ)
      → ((s : DirHash) → IsCoherent env numbers s → Committed numbers' (next s))
      → Committed numbers' (run_on (λ u. next) (run_on (λ gone s. (s, ok tt)) o))
  after_added numbers (s, ok gone) next c numbers' go = go s c
  after_added numbers (s, err e) next c numbers' go = tt

  eliminate-IsCoherent :
      (fuel i : ℕ) (numbers : Key → ℕ) (s : DirHash)
      → IsCoherent env numbers s
      → IsCoherent env numbers (eliminate_dir_path_hash_by_lru env fuel i s).0
  eliminate-IsCoherent fuel i numbers s c k =
      ItemAgrees-Kept (numbers k) _ _ (eliminate-Kept env fuel i s k) (c k)

  pub commit_actions-Committed :
      (fuel : ℕ) (as' : List Action) (numbers : Key → ℕ) (s : DirHash)
      → IsCoherent env numbers s
      → Committed (replay as' numbers) (commit_actions env fuel as' s)
  unfolding commit_actions commit_action replay
  commit_actions-Committed fuel [] numbers s c = c
  commit_actions-Committed fuel (added k ∷ as') numbers s c =
      after_added numbers _ (commit_actions env fuel as')
        (eliminate-IsCoherent fuel (index env k) numbers s c) (replay as' numbers)
        (λ s' c'. commit_actions-Committed fuel as' numbers s' c')
  commit_actions-Committed fuel (renumbered k id ∷ as') numbers s c =
      commit_actions-Committed fuel as' (updated k id numbers) (commit_number env fuel k id s)
        (commit_number-IsCoherent fuel numbers k id s c)

  after_added-table :
      (o : DirHash × Result Error Bool) (next : DirHash → DirHash × Result Error (Unit {0}))
      → ((s : DirHash) → (next s).0.table ≡ s.table)
      → (run_on (λ u. next) (run_on (λ gone s. (s, ok tt)) o)).0.table ≡ o.0.table
  after_added-table (s, ok gone) next h = h s
  after_added-table (s, err e) next h = refl

  commit_number-table :
      (fuel : ℕ) (k : Key) (id : ℕ) (s : DirHash) → (commit_number env fuel k id s).table ≡ s.table
  unfolding commit_number modify new_entry
  commit_number-table fuel k id s = elim (Option-cases (peek env k s)) [
    | inr (item, e) ↦ rw (commit_number, e) refl
    | inl e ↦ elim (Bool-cases (has_room env k s)) [
      | inl r ↦ rw (commit_number, e, r) refl
      | inr r ↦ rw (commit_number, e, r) refl
    ]
  ]

  pub commit_actions-table :
      (fuel : ℕ) (as' : List Action) (s : DirHash)
      → (commit_actions env fuel as' s).0.table ≡ s.table
  unfolding commit_actions commit_action eliminate_dir_path_hash_by_lru
  commit_actions-table fuel [] s = refl
  commit_actions-table fuel (added k ∷ as') s =
      after_added-table (eliminate_dir_path_hash_by_lru env fuel (index env k) s)
        (commit_actions env fuel as') (λ s'. commit_actions-table fuel as' s')
  commit_actions-table fuel (renumbered k id ∷ as') s =
      commit_actions-table fuel as' (commit_number env fuel k id s)
      ∙ commit_number-table fuel k id s
