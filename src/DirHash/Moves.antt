-- ===== src/DirHash/Moves.antt =====
-- The agreement of cache and table through the operations of falcon/dir_path_shmem/dir_path_hash.c
-- within a transaction: the entry is found or made.
use falconfs.Common.{
  ℕ, zero, suc, ◌≡◌, refl, sym, ap, subst, ◌∙◌, inl, inr, Bool, true, false, Option, none, some, [],
  ◌∷◌, ◌++◌, arith, leb, ◌==◌, Bool-cases, Option-cases, ◌=?◌, nat_eq, list_eq, =?_refl, mapped,
  length, Result, ok, err,
}
use falconfs.PathParse.{DirLock}
use falconfs.DirTable.{Key, key_eq, key_beq_iff}
use falconfs.DirHash.{
  unknown, max_to_commit, Item, added, DirHash, Error, M, run_on, Env, known,
  dir_path_hash_to_commit_add_entry, give, ◌>>◌, is_none,
}
use falconfs.DirHash.Ops.{
  peek, modify, new_entry, index, settle, settled, enter_loop, has_room,
  eliminate_dir_path_hash_by_lru,
}
use falconfs.DirHash.Pins.{LockFits, LockFits-initial, EntryFits, EntryFits-Kept}
use falconfs.DirHash.Lookup.{peek-modify, peek-new_entry, eliminate-Kept}
use falconfs.DirHash.Coherent.{
  touched, replay-append_added, touched-append_added, ItemAgrees, IsHeld, InProgress, known-Kept,
  IsHeld-known, eliminate-InProgress,
}

module _ (env : Env) (numbers : Key → ℕ) where
  -- A change of one entry.
  pub modify-InProgress :
      (k : Key) (f : Item → Item) (s : DirHash)
      → InProgress env numbers s
      → ItemAgrees (numbers k) (mapped f (peek env k s))
      → (touched k s.to_commit ≡ true → IsHeld (mapped f (peek env k s)))
      → InProgress env numbers (modify env k f s)
  unfolding modify
  modify-InProgress k f s p agrees keeps = record {
    coherent = λ j. rw (peek-modify env j k f s) (elim (Bool-cases (k =? j)) [
      | inl e ↦ rw e (
          subst (λ i. ItemAgrees (numbers i) (mapped f (peek env i s))) ((key_beq_iff k j).0 e)
            agrees)
      | inr e ↦ rw e (p.coherent j)
    ]);
    logged = p.logged;
    held = λ j. rw (peek-modify env j k f s) (elim (Bool-cases (k =? j)) [
      | inl e ↦ rw e (
          subst (λ i. touched i s.to_commit ≡ true → IsHeld (mapped f (peek env i s)))
            ((key_beq_iff k j).0 e) keeps)
      | inr e ↦ rw e (p.held j)
    ]);
  }

  new_entry-InProgress :
      (k : Key) (item : Item) (s : DirHash)
      → InProgress env numbers s
      → item.inode_id ≡ numbers k
      → touched k s.to_commit ≡ false
      → InProgress env numbers (new_entry env k item s)
  unfolding new_entry
  new_entry-InProgress k item s p number new = record {
    coherent = λ j. rw (peek-new_entry env j k item s) (elim (Bool-cases (k =? j)) [
      | inl e ↦ rw e (inr (number ∙ ap numbers ((key_beq_iff k j).0 e)))
      | inr e ↦ rw e (p.coherent j)
    ]);
    logged = p.logged;
    held = λ j. rw (peek-new_entry env j k item s) (elim (Bool-cases (k =? j)) [
      | inl e ↦ rw e (λ t.
          absurd (
            ground (arith, subst (λ i. touched i s.to_commit ≡ false) ((key_beq_iff k j).0 e) new)))
      | inr e ↦ rw e (p.held j)
    ]);
  }

  -- Where an entry was looked for: the transaction goes on, and an entry that is answered is there,
  -- with the number of its key.
  abbrev pub Located : DirLock → Key → DirHash × Result Error (Option Item) → Type 0
  Located mode k (s, ok none) = InProgress env numbers s × (is_none mode ≡ true)
  Located mode k (s, ok (some item)) =
      InProgress env numbers s
      × (peek env k s ≡ some item)
      × (item.inode_id ≡ numbers k)
      × LockFits item.lock
  Located mode k (s, err e) = InProgress env numbers s

  -- An unknown key in a transaction under way.
  abbrev pub Unknown : Key → DirHash → Type 0
  Unknown k s = InProgress env numbers s × (known (peek env k s) ≡ none) × EntryFits (peek env k s)

  Unknown-untouched : (k : Key) (s : DirHash) → Unknown k s → touched k s.to_commit ≡ false
  Unknown-untouched k s (p, e, f) = elim (Bool-cases (touched k s.to_commit)) [
    | inr u ↦ u
    | inl t ↦ absurd (subst IsHeld (sym (IsHeld-known _ (p.held k t)) ∙ e) (p.held k t))
  ]

  eliminate-Unknown :
      (fuel : ℕ) (k : Key) (s : DirHash)
      → Unknown k s
      → Unknown k (eliminate_dir_path_hash_by_lru env fuel (index env k) s).0
  eliminate-Unknown fuel k s (p, e, f) = (
    eliminate-InProgress env numbers fuel (index env k) s p,
    known-Kept _ _ (eliminate-Kept env fuel (index env k) s k) e,
    EntryFits-Kept _ _ (eliminate-Kept env fuel (index env k) s k) f,
  )

  after_elimination :
      (mode : DirLock) (k : Key) (m : M (Option Item)) (o : DirHash × Result Error Bool)
      → Unknown k o.0
      → ((s : DirHash) → Unknown k s → Located mode k (m s))
      → Located mode k (run_on (λ gone. m) o)
  after_elimination mode k m (s, ok gone) u go = go s u
  after_elimination mode k m (s, err e) (p, h, f) go = p

  not_unknown : (old : Item) → known (some old) ≡ none → (old.inode_id == unknown) ≡ false → ⊥
  not_unknown old h f = ground (arith, h, f)

  settled-Located :
      (fuel : ℕ) (mode : DirLock) (k : Key) (old : Item) (s : DirHash)
      → Unknown k s
      → peek env k s ≡ some old
      → Located mode k (settled env fuel k old (settle (numbers k) old.inode_id) s)
  unfolding settle
  settled-Located fuel mode k old s (p, n, fits) e = elim (Bool-cases (old.inode_id == unknown)) [
    | inr f ↦ absurd (not_unknown old (subst (λ o. known o ≡ none) e n) f)
    | inl f ↦
        let number : Item → Item = λ i. record i { inode_id = numbers k } in
        rw f (
          modify-InProgress k number s p (rw e (inr refl))
              (λ t. absurd (ground (arith, t, Unknown-untouched k s (p, n, fits)))),
          peek-modify env k k number s ∙ rw (=?_refl k, e) refl,
          refl,
          subst EntryFits e fits,
        )
  ]

  added-InProgress :
      (k : Key) (s : DirHash)
      → InProgress env numbers s
      → InProgress env numbers (record s { to_commit = s.to_commit ++ added k ∷ [] })
  unfolding peek
  added-InProgress k s p = record {
    coherent = p.coherent;
    logged = λ j.
        p.logged j ∙ sym (ap (λ (f : Key → ℕ). f j) (replay-append_added s.to_commit k numbers));
    held = λ j t. p.held j (sym (touched-append_added j s.to_commit k) ∙ t);
  }

  made-Located :
      (mode : DirLock) (k : Key) (item : Item) (s : DirHash)
      → Unknown k s
      → item.inode_id ≡ numbers k
      → LockFits item.lock
      → Located mode k
          ((dir_path_hash_to_commit_add_entry k >> give (some item)) (new_entry env k item s))
  unfolding dir_path_hash_to_commit_add_entry new_entry peek
  made-Located mode k item s u number fit =
      let s' = new_entry env k item s in
      let p = new_entry-InProgress k item s u.0 number (Unknown-untouched k s u) in
      elim (Bool-cases (leb max_to_commit (length s.to_commit))) [
        | inl full ↦ rw full p
        | inr fits ↦ rw fits (
          added-InProgress k s' p,
          peek-new_entry env k k item s ∙ rw (=?_refl k) refl,
          number,
          fit,
        )
      ]

  pub enter_loop-Located :
      (fuel rounds : ℕ) (mode : DirLock) (k : Key) (s : DirHash)
      → Unknown k s
      → Located mode k (enter_loop env fuel rounds mode k (numbers k) (settle (numbers k)) s)
  unfolding enter_loop
  enter_loop-Located fuel zero mode k s u = u.0
  enter_loop-Located fuel (suc rounds) mode k s u = elim (Option-cases (peek env k s)) [
    | inr (old, e) ↦ rw (enter_loop, e) (settled-Located fuel mode k old s u e)
    | inl e ↦ elim (Bool-cases (has_room env k s)) [
      | inl r ↦ rw (enter_loop, e, r) (made-Located mode k _ s u refl LockFits-initial)
      | inr r ↦ elim (Bool-cases (is_none mode)) [
        | inl m ↦ rw (enter_loop, e, r, m) (u.0, m)
        | inr m ↦
            rw (enter_loop, e, r, m)
              (after_elimination mode k _ _ (eliminate-Unknown fuel k s u)
                (λ s' u'. enter_loop-Located fuel rounds mode k s' u'))
      ]
    ]
  ]
