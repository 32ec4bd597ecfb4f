-- ===== src/DirHash/Counts.antt =====
-- The count that falcon/dir_path_shmem/dir_path_hash.c keeps of the entries of a partition.
use falconfs.Common.{
  ℕ, zero, suc, ◌+◌, ◌^◌, ◌<◌, ◌≡◌, refl, sym, subst, ◌∙◌, inl, inr, Bool, true, false, List, [],
  ◌∷◌, arith, leb, ◌==◌, Bool-cases, Option-cases, nat_eq, list_eq, find, change, Distinct,
  change-Distinct, remove-Distinct, length-change, length-remove, length, Result-cases, Result, ok,
  err,
}
use falconfs.DirTable.{Key, key_eq}
use falconfs.DirHash.{Items, Partition, Error, Env, find_next_item, may_go, clear_begin}
use falconfs.DirHash.Scan.{scan-elim, lowered}
use falconfs.DirHash.Ops.{rescan, choose, without, eliminate_loop, eliminate}

-- Each key has one entry, and the entries are counted.
abbrev pub Counted : Partition → Type 0
Counted p = Distinct p.items × (p.entry_count ≡ length p.items) × (length p.items < 2 ^ 32)

-- As many entries under distinct keys.
abbrev Same : Items → Items → Type 0
Same items items' = Distinct items → Distinct items' × (length items' ≡ length items)

Same-refl : (items : Items) → Same items items
Same-refl items d = (d, refl)

Same-trans : (a b c : Items) → Same a b → Same b c → Same a c
Same-trans a b c f g d = let (d', e) = f d in let (d'', e') = g d' in (d'', e' ∙ e)

lower-Same : (k : Key) (items : Items) → Same items (change k lowered items)
lower-Same k items d = (change-Distinct k lowered items d, length-change k lowered items)

scan-Same : (ks : List Key) (items : Items) → Same items (find_next_item ks items).1
unfolding find_next_item
scan-Same [] items = Same-refl items
scan-Same (k ∷ ks) items =
    scan-elim (λ is o. Same is o.1) k ks items (λ h. scan-Same ks items)
      (λ item f d g. lower-Same k items)
      (λ item f d g.
        Same-trans items (change k lowered items) _ (lower-Same k items)
          (scan-Same ks (change k lowered items)))

abbrev gone : Result Error Bool → ℕ
gone (ok true) = 1
gone (ok false) = 0
gone (err e) = 0

-- The count is right, and one less than `before` if an entry is gone.
abbrev pub Evicted : ℕ → Partition × Result Error Bool → Type 0
Evicted before (p, r) = Counted p × (p.entry_count + gone r ≡ before)

module _ (env : Env) where
  rescan-Same : (fuel rounds : ℕ) (items : Items) → Same items (rescan env fuel rounds items).0
  unfolding rescan
  rescan-Same fuel zero items = Same-refl items
  rescan-Same fuel (suc rounds) items =
      let r = find_next_item (env.scan_all items) items in
      let here = scan-Same (env.scan_all items) items in
      elim (Option-cases r.0) [
        | inr (k, e) ↦ rw (rescan, e) here
        | inl e ↦ elim (Bool-cases (r.2 == 0)) [
          | inl z ↦ rw (rescan, e, z) here
          | inr n ↦ rw (rescan, e, n) (Same-trans items r.1 _ here (rescan-Same fuel rounds r.1))
        ]
      ]

  choose-Same : (fuel : ℕ) (items : Items) → Same items (choose env fuel items).0
  unfolding choose
  choose-Same fuel items =
      let r = find_next_item (env.scan_from_random items) items in
      let here = scan-Same (env.scan_from_random items) items in
      elim (Option-cases r.0) [
        | inr (k, e) ↦ rw (choose, e) here
        | inl e ↦ rw (choose, e) (Same-trans items r.1 _ here (rescan-Same fuel fuel r.1))
      ]

  Same-Counted :
      (items : Items) (p : Partition)
      → Counted p
      → Same p.items items
      → Counted (record p { items = items })
  Same-Counted items p (d, n, l) same = let (d', e) = same d in (d', n ∙ sym e, omega (arith, e))

  without-Evicted :
      (fuel : ℕ) (k : Key) (items : Items) (p : Partition)
      → Counted p
      → Same p.items items
      → may_go (find k items) ≡ true
      → Evicted p.entry_count (without env fuel k items p, ok true)
  without-Evicted fuel k items p (d, n, l) same g = elim (Option-cases (find k items)) [
    | inl e ↦ absurd (ground (arith, subst (λ o. may_go o ≡ true) e g))
    | inr (item, e) ↦
        let (d', same') = same d in
        let shorter = length-remove k item items d' e in
        (
          (
            remove-Distinct k items d',
            omega (arith, same', shorter),
            omega (arith, same', shorter),
          ),
          omega (arith, same', shorter),
        )
  ]

  loop-Evicted :
      (fuel rounds : ℕ) (p : Partition)
      → Counted p
      → Evicted p.entry_count (eliminate_loop env fuel rounds p)
  unfolding eliminate_loop
  loop-Evicted fuel zero p c = (c, omega arith)
  loop-Evicted fuel (suc rounds) p c =
      let r = choose env fuel p.items in
      let same = choose-Same fuel p.items in
      let p' : Partition = record p { items = r.0 } in
      let c' = Same-Counted r.0 p c same in
      elim (Result-cases r.1) [
        | inr (x, e) ↦ rw (eliminate_loop, e) (c', omega arith)
        | inl (o, e) ↦ elim (Option-cases o) [
          | inl f ↦ rw (eliminate_loop, e, f) (c', omega arith)
          | inr (k, f) ↦ elim (Bool-cases (may_go (find k r.0))) [
            | inl g ↦ rw (eliminate_loop, e, f, g) (without-Evicted fuel k r.0 p c same g)
            | inr g ↦ rw (eliminate_loop, e, f, g) (loop-Evicted fuel rounds p' c')
          ]
        ]
      ]

  -- EliminateDirPathHashByLRU keeps the entries of a partition under distinct keys and their count
  -- right, whatever becomes of it; the count falls by one if it answers that an entry is gone, and
  -- stays otherwise.
  pub eliminate-Evicted :
      (fuel : ℕ) (p : Partition) → Counted p → Evicted p.entry_count (eliminate env fuel p)
  unfolding eliminate
  eliminate-Evicted fuel p c = elim (Bool-cases (leb p.entry_count clear_begin)) [
    | inl e ↦ rw e (c, omega arith)
    | inr e ↦ rw e (loop-Evicted fuel fuel p c)
  ]
