-- ===== src/RwLock/Word.antt =====
-- The lock word of falcon/utils/rwlock.c read as counts: what each atomic operation does to them.
use falconfs.Common.{
  ℕ, suc, ◌+◌, ◌*◌, ◌^◌, ◌≤◌, ◌<◌, ◌≡◌, ◌⊎◌, inl, inr, ◌↔◌, Bool, true, false, fetch_add, fetch_sub,
  arith, refl, low_bits, bit, set_bit, clear_bit, ◌&&◌, ◌==◌, ==_iff, Bool-cases,
}
use falconfs.RwLock.{
  RwLockMode, exclusive, shared, declared, attempt, check_destroyable, rw_val_exclusive,
  rw_val_shared, rw_val_ref_count,
}

-- The word `w` stands for `s` shared holders, `e` exclusive holders and `r` references.
pub record Encodes (w s e r : ℕ) : Type 0 where
  pub waiter : ℕ
  pub waiter_le : waiter ≤ 1
  pub value : w ≡ s + e * 2 ^ 24 + r * 2 ^ 25 + waiter * 2 ^ 62
  pub shared_fits : s < 2 ^ 24
  pub refs_fit : r < 2 ^ 25
  pub exclusion : (e ≡ 0) ⊎ ((e ≡ 1) × (s ≡ 0))

pub fetch_add-ref :
    {w s e r : ℕ}
    → Encodes w s e r
    → suc r < 2 ^ 25
    → Encodes (fetch_add w rw_val_ref_count) s e (suc r)
fetch_add-ref c h = record {
  waiter = c.waiter;
  waiter_le = c.waiter_le;
  value = omega arith;
  shared_fits = c.shared_fits;
  refs_fit = h;
  exclusion = c.exclusion;
}

pub fetch_sub-ref :
    {w s e r : ℕ} → Encodes w s e (suc r) → Encodes (fetch_sub w rw_val_ref_count) s e r
fetch_sub-ref c = record {
  waiter = c.waiter;
  waiter_le = c.waiter_le;
  value = omega arith;
  shared_fits = c.shared_fits;
  refs_fit = omega arith;
  exclusion = c.exclusion;
}

pub fetch_sub-shared :
    {w s e r : ℕ} → Encodes w (suc s) e r → Encodes (fetch_sub w rw_val_shared) s e r
fetch_sub-shared c = record {
  waiter = c.waiter;
  waiter_le = c.waiter_le;
  value = omega arith;
  shared_fits = omega arith;
  refs_fit = c.refs_fit;
  exclusion = omega arith;
}

pub fetch_sub-exclusive :
    {w s e r : ℕ} → Encodes w s (suc e) r → Encodes (fetch_sub w rw_val_exclusive) s e r
fetch_sub-exclusive c = record {
  waiter = c.waiter;
  waiter_le = c.waiter_le;
  value = omega arith;
  shared_fits = c.shared_fits;
  refs_fit = c.refs_fit;
  exclusion = omega arith;
}

-- What a winning compare-and-swap leaves: for an exclusive request, one exclusive holder if nobody
-- held the lock; for a shared one, one more shared holder; and otherwise the same holders.
abbrev pub Attempted : RwLockMode → Bool × ℕ → ℕ → ℕ → ℕ → Type 0
Attempted exclusive (true, d) s e r = (s ≡ 0) × (e ≡ 0) × Encodes d 0 1 r
Attempted shared (true, d) s e r = (e ≡ 0) × Encodes d (suc s) 0 r
Attempted declared (true, d) s e r = Unit
Attempted m (false, d) s e r = Encodes d s e r

module _ {w s e r : ℕ} (c : Encodes w s e r) where
  taken_exclusive :
      low_bits w 25 ≡ 0 → (s ≡ 0) × (e ≡ 0) × Encodes (clear_bit (set_bit w 24) 62) 0 1 r
  taken_exclusive free = (
    omega arith,
    omega arith,
    record {
      waiter = 0;
      waiter_le = omega arith;
      value = omega arith;
      shared_fits = omega arith;
      refs_fit = c.refs_fit;
      exclusion = inr (refl, refl);
    },
  )

  refused_exclusive : Encodes (set_bit w 62) s e r
  refused_exclusive = record {
    waiter = 1;
    waiter_le = omega arith;
    value = omega arith;
    shared_fits = c.shared_fits;
    refs_fit = c.refs_fit;
    exclusion = c.exclusion;
  }

  taken_shared :
      suc s < 2 ^ 24
      → (bit w 24 == 0 && bit w 62 == 0) ≡ true
      → (e ≡ 0) × Encodes (w + 1) (suc s) 0 r
  taken_shared h free = (
    ground arith,
    record {
      waiter = c.waiter;
      waiter_le = c.waiter_le;
      value = ground arith;
      shared_fits = h;
      refs_fit = c.refs_fit;
      exclusion = inl refl;
    },
  )

  pub attempt-exclusive : Attempted exclusive (attempt exclusive w) s e r
  unfolding attempt
  attempt-exclusive = elim (Bool-cases (low_bits w 25 == 0)) [
    | inl free ↦ rw free (taken_exclusive ((==_iff _ _).0 free))
    | inr busy ↦ rw busy refused_exclusive
  ]

  pub attempt-shared : suc s < 2 ^ 24 → Attempted shared (attempt shared w) s e r
  unfolding attempt
  attempt-shared h = elim (Bool-cases (bit w 24 == 0 && bit w 62 == 0)) [
    | inl free ↦ rw free (taken_shared h free)
    | inr busy ↦ rw busy c
  ]

  -- The code frees a lock's memory only if nobody refers to the lock.
  pub check_destroyable_iff : (check_destroyable w ≡ true) ↔ (r ≡ 0)
  unfolding check_destroyable
  check_destroyable_iff = ground arith
