-- ===== src/DirHash/Coherent.antt =====
-- The agreement of the cache in falcon/dir_path_shmem/dir_path_hash.c with the directory table before
-- the transaction under way, and the log of the transaction.
use falconfs.Common.{
  ℕ, ◌≡◌, ◌≢◌, refl, sym, subst, ◌∙◌, ◌⊎◌, inl, inr, Bool, true, false, ◌||◌, Option, none, some,
  List, [], ◌∷◌, ◌++◌, arith, ==_iff, Bool-cases, ◌=?◌, nat_eq, list_eq,
}
use falconfs.RwLock.{check_destroyable}
use falconfs.DirTable.{Key, key_eq, updated, search_directory_table_info}
use falconfs.DirHash.{unknown, Item, Action, added, renumbered, DirHash, Env, known}
use falconfs.DirHash.Ops.{peek, eliminate_dir_path_hash_by_lru}
use falconfs.DirHash.Lookup.{Kept, eliminate-Kept}

-- What the actions of a log make of a table.
unfoldable pub replay : List Action → (Key → ℕ) → Key → ℕ
replay [] numbers = numbers
replay (added k ∷ as') numbers = replay as' numbers
replay (renumbered k id ∷ as') numbers = replay as' (updated k id numbers)

-- Whether the transaction has changed the key.
unfoldable pub touched : Key → List Action → Bool
touched k [] = false
touched k (added j ∷ as') = touched k as'
touched k (renumbered j id ∷ as') = j =? k || touched k as'

pub replay-append_added :
    (as' : List Action) (j : Key) (numbers : Key → ℕ)
    → replay (as' ++ added j ∷ []) numbers ≡ replay as' numbers
unfolding replay
replay-append_added [] j numbers = refl
replay-append_added (added k ∷ as') j numbers = replay-append_added as' j numbers
replay-append_added (renumbered k id ∷ as') j numbers =
    replay-append_added as' j (updated k id numbers)

pub replay-append_renumbered :
    (as' : List Action) (j : Key) (id : ℕ) (numbers : Key → ℕ)
    → replay (as' ++ renumbered j id ∷ []) numbers ≡ updated j id (replay as' numbers)
unfolding replay
replay-append_renumbered [] j id numbers = refl
replay-append_renumbered (added k ∷ as') j id numbers = replay-append_renumbered as' j id numbers
replay-append_renumbered (renumbered k i ∷ as') j id numbers =
    replay-append_renumbered as' j id (updated k i numbers)

pub touched-append_added :
    (k : Key) (as' : List Action) (j : Key) → touched k (as' ++ added j ∷ []) ≡ touched k as'
unfolding touched
touched-append_added k [] j = refl
touched-append_added k (added i ∷ as') j = touched-append_added k as' j
touched-append_added k (renumbered i id ∷ as') j = ground (arith, touched-append_added k as' j)

pub touched-append_renumbered :
    (k : Key) (as' : List Action) (j : Key) (id : ℕ)
    → touched k (as' ++ renumbered j id ∷ []) ≡ j =? k || touched k as'
unfolding touched
touched-append_renumbered k [] j id = ground arith
touched-append_renumbered k (added i ∷ as') j id = touched-append_renumbered k as' j id
touched-append_renumbered k (renumbered i n ∷ as') j id =
    ground (arith, touched-append_renumbered k as' j id)

pub replay-untouched :
    (k : Key) (as' : List Action) (numbers : Key → ℕ)
    → touched k as' ≡ false
    → replay as' numbers k ≡ numbers k
unfolding replay touched
replay-untouched k [] numbers h = refl
replay-untouched k (added j ∷ as') numbers h = replay-untouched k as' numbers h
replay-untouched k (renumbered j id ∷ as') numbers h =
    ground (arith, replay-untouched k as' (updated j id numbers), h)

-- An entry is not known, or has the number of its key.
abbrev pub ItemAgrees : ℕ → Option Item → Type 0
ItemAgrees number none = Unit
ItemAgrees number (some item) = (item.inode_id ≡ unknown) ⊎ (item.inode_id ≡ number)

-- An entry that is known and under a lock.
abbrev pub IsHeld : Option Item → Type 0
IsHeld none = ⊥
IsHeld (some item) = (item.inode_id ≢ unknown) × (check_destroyable item.lock ≡ false)

pub ItemAgrees-Kept :
    (number : ℕ) (o o' : Option Item) → Kept o o' → ItemAgrees number o → ItemAgrees number o'
ItemAgrees-Kept number none none h a = tt
ItemAgrees-Kept number none (some y) h a = absurd h
ItemAgrees-Kept number (some x) none h a = tt
ItemAgrees-Kept number (some x) (some y) (i, l) (inl u) = inl (i ∙ u)
ItemAgrees-Kept number (some x) (some y) (i, l) (inr u) = inr (i ∙ u)

pub IsHeld-Kept : (o o' : Option Item) → Kept o o' → IsHeld o → IsHeld o'
IsHeld-Kept none o' h d = absurd d
IsHeld-Kept (some x) none h (n, d) = cc
IsHeld-Kept (some x) (some y) (i, l) (n, d) =
    (λ u. n (sym i ∙ u), subst (λ w. check_destroyable w ≡ false) (sym l) d)

pub known-Kept : (o o' : Option Item) → Kept o o' → known o ≡ none → known o' ≡ none
known-Kept none none h e = refl
known-Kept none (some y) h e = absurd h
known-Kept (some x) none h e = refl
known-Kept (some x) (some y) (i, l) e = ground (arith, i, e)

pub IsHeld-known : (o : Option Item) → IsHeld o → known o ≡ o
IsHeld-known none h = refl
IsHeld-known (some x) (n, d) = ground (arith, ==_iff x.inode_id unknown)

module _ (env : Env) (numbers : Key → ℕ) where
  -- The cache agrees with the numbers.
  abbrev pub IsCoherent : DirHash → Type 0
  IsCoherent s = (k : Key) → ItemAgrees (numbers k) (peek env k s)

  -- With the numbers of the table before the transaction: the cache agrees with them, the log leads
  -- from them to the table as it is now, and the transaction holds what it has changed.
  pub record InProgress (s : DirHash) : Type 0 where
    pub coherent : IsCoherent s
    pub logged : (k : Key) → search_directory_table_info k s.table ≡ replay s.to_commit numbers k
    pub held : (k : Key) → touched k s.to_commit ≡ true → IsHeld (peek env k s)

  pub eliminate-InProgress :
      (fuel i : ℕ) (s : DirHash)
      → InProgress s
      → InProgress (eliminate_dir_path_hash_by_lru env fuel i s).0
  unfolding eliminate_dir_path_hash_by_lru
  eliminate-InProgress fuel i s p = record {
    coherent = λ k. ItemAgrees-Kept (numbers k) _ _ (eliminate-Kept env fuel i s k) (p.coherent k);
    logged = p.logged;
    held = λ k t. IsHeld-Kept _ _ (eliminate-Kept env fuel i s k) (p.held k t);
  }

  -- An untouched key has its old number in the table still.
  pub untouched_number :
      (k : Key) (s : DirHash)
      → InProgress s
      → known (peek env k s) ≡ none
      → search_directory_table_info k s.table ≡ numbers k
  untouched_number k s p e = elim (Bool-cases (touched k s.to_commit)) [
    | inr f ↦ p.logged k ∙ replay-untouched k s.to_commit numbers f
    | inl t ↦ let h = p.held k t in absurd (subst IsHeld (sym (IsHeld-known _ h) ∙ e) h)
  ]
