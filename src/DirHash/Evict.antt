-- ===== src/DirHash/Evict.antt =====
-- EliminateDirPathHashByLRU of falcon/dir_path_shmem/dir_path_hash.c: its loops end, and it keeps the
-- count of the entries.
use falconfs.Common.{
  ℕ, zero, suc, ◌-◌, ◌<◌, ◌≡◌, refl, ap, ◌∙◌, inl, inr, Bool, true, false, Option, none, some,
  arith, dec_lt, leb, ◌==◌, Bool-cases, Option-cases, nat_eq, list_eq, find, Result-cases, Result,
  ok, err,
}
use falconfs.DirTable.{Key, key_eq}
use falconfs.DirHash.{Items, Partition, Error, Env, find_next_item, may_go, clear_begin}
use falconfs.DirHash.Ops.{rescan, choose, eliminate_loop, eliminate}
use falconfs.DirHash.Scan.{scan-may_go}
use falconfs.DirHash.Used.{UsedBelow, ScansAll, scan-UsedBelow, scan-still_UsedBelow, scan-idle}

-- A choice was made, or there is nothing to choose.
abbrev Chosen : Items × Result Error (Option Key) → Type 0
Chosen (items, ok none) = Unit
Chosen (items, ok (some k)) = may_go (find k items) ≡ true
Chosen (items, err e) = ⊥

Chosen-err : (o : Items × Result Error (Option Key)) (x : Error) → Chosen o → o.1 ≡ err x → ⊥
Chosen-err (items, ok none) x c e = cc
Chosen-err (items, ok (some k)) x c e = cc
Chosen-err (items, err y) x c e = c

Chosen-some :
    (o : Items × Result Error (Option Key)) (k : Key)
    → Chosen o
    → o.1 ≡ ok (some k)
    → may_go (find k o.0) ≡ true
Chosen-some (items, ok none) k c e = absurd (ground (arith, e))
Chosen-some (items, ok (some j)) k c e = ground (arith, c, e)
Chosen-some (items, err x) k c e = absurd (ground (arith, e))

module _ (env : Env) (all : ScansAll env) where
  rescan-Chosen :
      (fuel rounds m : ℕ) (items : Items)
      → UsedBelow m items
      → m < rounds
      → Chosen (rescan env fuel rounds items)
  unfolding rescan
  rescan-Chosen fuel zero m items u h = absurd (omega arith)
  rescan-Chosen fuel (suc rounds) m items u h =
      let r = find_next_item (env.scan_all items) items in
      elim (Option-cases r.0) [
        | inr (k, e) ↦ rw (rescan, e) (scan-may_go (env.scan_all items) items k e)
        | inl e ↦ elim (Bool-cases (r.2 == 0)) [
          | inl z ↦ rw (rescan, e, z) tt
          | inr n ↦
              rw (rescan, e, n)
                (elim (dec_lt 0 m) [
                  | yes p ↦
                      rescan-Chosen fuel rounds (m - 1) r.1
                        (scan-UsedBelow env (m - 1) items all
                          (λ k item f d. omega (arith, u k item f d)) e)
                        (omega arith)
                  | no p ↦ absurd (
                      ground (
                        arith,
                        n,
                        scan-idle (env.scan_all items) items
                            (λ k item f d. omega (arith, u k item f d)),
                      ))
                ])
        ]
      ]

  choose-Chosen :
      (fuel m : ℕ) (items : Items) → UsedBelow m items → m < fuel → Chosen (choose env fuel items)
  unfolding choose
  choose-Chosen fuel m items u h =
      let r = find_next_item (env.scan_from_random items) items in
      elim (Option-cases r.0) [
        | inr (k, e) ↦ rw (choose, e) (scan-may_go (env.scan_from_random items) items k e)
        | inl e ↦
            rw (choose, e)
              (rescan-Chosen fuel fuel m r.1
                (scan-still_UsedBelow (env.scan_from_random items) m items u e) h)
      ]

  abbrev Ended : Partition × Result Error Bool → Type 0
  Ended (p, r) = (b : Bool) × (r ≡ ok b)

  loop-Ended :
      (fuel rounds : ℕ) (p : Partition)
      → Chosen (choose env fuel p.items)
      → 0 < rounds
      → Ended (eliminate_loop env fuel rounds p)
  unfolding eliminate_loop
  loop-Ended fuel zero p c h = absurd (omega arith)
  loop-Ended fuel (suc rounds) p c h =
      let r = choose env fuel p.items in
      elim (Result-cases r.1) [
        | inr (x, e) ↦ absurd (Chosen-err r x c e)
        | inl (o, e) ↦ elim (Option-cases o) [
          | inl f ↦ rw (eliminate_loop, e, f) (false, refl)
          | inr (k, f) ↦ rw (eliminate_loop, e, f, Chosen-some r k c (e ∙ ap ok f)) (true, refl)
        ]
      ]

  -- If a scan from the first bucket comes to every entry, and the use counts of the destroyable entries
  -- are below the fuel, EliminateDirPathHashByLRU ends with an answer.
  pub eliminate-ends :
      (fuel m : ℕ) (p : Partition)
      → UsedBelow m p.items
      → m < fuel
      → (b : Bool) × ((eliminate env fuel p).1 ≡ ok b)
  unfolding eliminate
  eliminate-ends fuel m p u h = elim (Bool-cases (leb p.entry_count clear_begin)) [
    | inl e ↦ rw e (false, refl)
    | inr e ↦ rw e (loop-Ended fuel fuel p (choose-Chosen fuel m p.items u h) (omega arith))
  ]
