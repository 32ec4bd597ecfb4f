-- ===== src/RwLock/Waiter.antt =====
-- The exclusive-waiter flag of falcon/utils/rwlock.c: who set it, and who it turns away.
use falconfs.Common.{
  ℕ, suc, ◌+◌, ◌^◌, ◌≤◌, ◌<◌, ◌≡◌, ◌≢◌, refl, ap, sym, subst, ◌∙◌, ◌⊎◌, inl, inr, Bool, true, false,
  some, bit, update, update_here, fetch_add, fetch_sub, arith, ℕ_discrete, ite,
}
use falconfs.RwLock.{
  RwLockMode, exclusive, shared, declared, attempt, newest, rw_val_ref_count, release_value,
}
use falconfs.RwLock.Held.{uses-remove_newest, uses-remove_declared}
use falconfs.RwLock.Word.{Encodes}
use falconfs.RwLock.Counts.{
  shared_of-le, as_ref, shared_of, as_shared, as_exclusive, refs_of-le, exclusive_of, Counts,
  IsRequest, IsOrderly,
}
use falconfs.RwLock.System.{
  Pc, idle, attempting, trying, dropping, Backend, System, Act, declares, undeclares, acquires,
  reads, swaps, swap_fails, releases, drops, after_swap,
}

-- The backend is inside RWLockAcquire for lock `l`, in exclusive mode.
abbrev pub WantsExclusive : ℕ → Pc → Type 0
WantsExclusive l (attempting k mode) = (k ≡ l) × (mode ≡ exclusive)
WantsExclusive l (trying k mode _) = (k ≡ l) × (mode ≡ exclusive)
WantsExclusive l _ = ⊥

-- A flag that is up has a waiter behind it.
abbrev pub Awaited : ℕ → System → Type 0
Awaited l s = bit (s.words l) 62 ≡ 1 → (i : ℕ) × WantsExclusive l (s.backends i).pc

module _ {w s e r : ℕ} (c : Encodes w s e r) where
  bit-attempt-shared : suc s < 2 ^ 24 → bit (attempt shared w).1 62 ≡ bit w 62
  unfolding attempt
  bit-attempt-shared h = ground arith

  bit-fetch_add : suc r < 2 ^ 25 → bit (fetch_add w rw_val_ref_count) 62 ≡ bit w 62
  bit-fetch_add h = omega arith

  bit-fetch_sub_ref : 0 < r → bit (fetch_sub w rw_val_ref_count) 62 ≡ bit w 62
  bit-fetch_sub_ref h = omega arith

  bit-fetch_sub_value :
      (mode : RwLockMode)
      → as_shared mode ≤ s
      → as_exclusive mode ≤ e
      → mode ≢ declared
      → bit (fetch_sub w (release_value mode)) 62 ≡ bit w 62
  unfolding release_value
  bit-fetch_sub_value exclusive h k d = omega arith
  bit-fetch_sub_value shared h k d = omega arith
  bit-fetch_sub_value declared h k d = absurd (d refl)

bit-attempt-exclusive :
    (w : ℕ) → w < 2 ^ 63 → (attempt exclusive w).0 ≡ true → bit (attempt exclusive w).1 62 ≡ 0
unfolding attempt
bit-attempt-exclusive w fits h = ground arith

-- After a step the flag on `l` was up before, and the waiter has not gone; or the backend waits.
abbrev pub Carries : ℕ → (ℕ → ℕ) → Backend → (ℕ → ℕ) → Backend → Type 0
Carries l ws b ws' b' =
    bit (ws' l) 62 ≡ 1
    → ((bit (ws l) 62 ≡ 1) × (WantsExclusive l b.pc → WantsExclusive l b'.pc))
      ⊎ WantsExclusive l b'.pc

shared_is_not : shared ≢ exclusive
shared_is_not e = cc

module _ (ws : ℕ → ℕ) (b : Backend) (o : IsOrderly b) (l s e r : ℕ)
    (few : (s + 8197 < 2 ^ 24) × (r + 8197 < 2 ^ 25)) (c : Counts l ws b s e r) where
  kept : (k v : ℕ) → (k ≡ l → bit v 62 ≡ bit (ws l) 62) → bit (update ws k v l) 62 ≡ bit (ws l) 62
  kept k v h = elim (ℕ_discrete k l) as (λ d. bit (ite d v (ws l)) 62 ≡ bit (ws l) 62) [
    | yes p ↦ h p
    | no p ↦ refl
  ]

  at_lock :
      {k : ℕ} (f : ℕ → ℕ)
      → k ≡ l
      → bit (f (ws l)) 62 ≡ bit (ws l) 62
      → bit (f (ws k)) 62 ≡ bit (ws l) 62
  at_lock f p h = ap (λ x. bit (f (ws x)) 62) p ∙ h

  -- From the old program counter to the new one, where the old one is known.
  moved :
      {p : Pc} (q : Pc)
      → b.pc ≡ p
      → (WantsExclusive l p → WantsExclusive l q)
      → WantsExclusive l b.pc
      → WantsExclusive l q
  moved q i f w = f (subst (WantsExclusive l) i w)

  newest_counts :
      (k : ℕ) (mode : RwLockMode)
      → newest k b.held ≡ some mode
      → k ≡ l
      → (as_shared mode ≤ s + shared_of l b) × (as_exclusive mode ≤ e + exclusive_of l b)
  newest_counts k mode h p = (
    ground (arith, uses-remove_newest as_shared k l b.held mode h),
    ground (arith, uses-remove_newest as_exclusive k l b.held mode h),
  )

  -- The swap on `l` itself: a request that is refused becomes a waiter, or leaves the flag alone.
  swap_carries :
      (k : ℕ) (mode : RwLockMode) (old : ℕ) (a : Bool × ℕ)
      → b.pc ≡ trying k mode old
      → mode ≢ declared
      → k ≡ l
      → a ≡ attempt mode (ws l)
      → bit a.1 62 ≡ 1
      → ((bit (ws l) 62 ≡ 1)
          × (WantsExclusive l b.pc → WantsExclusive l (after_swap a.0 k mode b).pc))
        ⊎ WantsExclusive l (after_swap a.0 k mode b).pc
  unfolding after_swap
  swap_carries k exclusive old (true, w) i d p q up = absurd (
      omega (
        arith,
        bit-attempt-exclusive (ws l) (omega arith) (ap (λ x. x.0) (sym q)),
        ap (λ x. bit x.1 62) (sym q) ∙ up,
      ))
  swap_carries k exclusive old (false, w) i d p q up = inr (p, refl)
  swap_carries k shared old a i d p q up = inl (
    sym (bit-attempt-shared c (omega (arith, shared_of-le l b o)))
        ∙ ap (λ x. bit x.1 62) (sym q)
        ∙ up,
    λ w. absurd (shared_is_not (subst (WantsExclusive l) i w).1),
  )
  swap_carries k declared old a i d p q up = absurd (d refl)

  pub Act-Carries : {ws' : ℕ → ℕ} {b' : Backend} → Act ws b ws' b' → Carries l ws b ws' b'
  Act-Carries (declares k i m) up = inl (
    sym (
          kept k _ (λ p.
            at_lock (λ x. fetch_add x rw_val_ref_count) p
              (bit-fetch_add c (omega (arith, refs_of-le l b o)))))
        ∙ up,
    λ w. w,
  )
  Act-Carries (undeclares k i h) up = inl (
    sym (
          kept k _ (λ p.
            at_lock (λ x. fetch_sub x rw_val_ref_count) p
              (bit-fetch_sub_ref c (ground (arith, uses-remove_declared as_ref k l b.held h)))))
        ∙ up,
    λ w. w,
  )
  Act-Carries (acquires k mode i d m) up = inl (
    sym (
          kept k _ (λ p.
            at_lock (λ x. fetch_add x rw_val_ref_count) p
              (bit-fetch_add c (omega (arith, refs_of-le l b o)))))
        ∙ up,
    moved (attempting k mode) i (λ w. absurd w),
  )
  Act-Carries (reads k mode i) up = inl (up, moved (trying k mode (ws k)) i (λ w. w))
  Act-Carries (swap_fails k mode old i n) up = inl (up, moved (trying k mode (ws k)) i (λ w. w))
  Act-Carries (swaps k mode old i h) up = elim (ℕ_discrete k l) [
    | yes p ↦
        swap_carries k mode old (attempt mode old) i (subst IsRequest i o.request) p
          (ap (attempt mode) (sym h ∙ ap ws p))
          (ap (λ x. bit x 62) (sym (update_here ws k l _ p)) ∙ up)
    | no p ↦ inl (
      sym (kept k _ (λ q. absurd (p q))) ∙ up,
      moved (after_swap (attempt mode old).0 k mode b).pc i (λ w. absurd (p w.0)),
    )
  ]
  Act-Carries (releases k mode i h d) up = inl (
    sym (
          kept k _ (λ p.
            at_lock (λ x. fetch_sub x (release_value mode)) p
              (bit-fetch_sub_value c mode (newest_counts k mode h p).0 (newest_counts k mode h p).1
                d)))
        ∙ up,
    moved (dropping k) i (λ w. absurd w),
  )
  Act-Carries (drops k i) up = inl (
    sym (
          kept k _ (λ p.
            at_lock (λ x. fetch_sub x rw_val_ref_count) p (bit-fetch_sub_ref c (ground arith))))
        ∙ up,
    moved idle i (λ w. absurd w),
  )
