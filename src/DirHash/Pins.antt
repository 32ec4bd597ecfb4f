-- ===== src/DirHash/Pins.antt =====
-- The lock of an entry of falcon/dir_path_shmem/dir_path_hash.c: an entry under a lock, or waited for,
-- is not destroyable.
use falconfs.Common.{
  ℕ, suc, ◌^◌, ◌<◌, ◌≡◌, refl, sym, subst, inl, Bool, true, false, Option, none, some, arith,
  if◌then◌else◌, nat_eq, list_eq, fetch_sub,
}
use falconfs.PathParse.{DirLock, dir_lock_exclusive, dir_lock_shared, dir_lock_none}
use falconfs.RwLock.{exclusive, shared, check_destroyable, rw_val_ref_count}
use falconfs.RwLock.Word.{
  Encodes, Attempted, fetch_add-ref, fetch_sub-ref, attempt-exclusive, attempt-shared,
  check_destroyable_iff,
}
use falconfs.DirHash.Lookup.{Kept}
use falconfs.DirHash.{Item, is_none, try_lock}

-- The counts of the word have room for one more holder and two more references.
abbrev pub LockFits : ℕ → Type 0
LockFits w =
    (a : ℕ) × (e : ℕ) × (r : ℕ) × Encodes w a e r × (suc (suc r) < 2 ^ 25) × (suc a < 2 ^ 24)

referenced : {w a e r : ℕ} → Encodes w a e (suc r) → check_destroyable w ≡ false
referenced {w} c = ground (arith, check_destroyable_iff c)

abbrev after_try : Bool × ℕ → ℕ
after_try (got, w) = if got then fetch_sub w rw_val_ref_count else w

after_exclusive :
    (o : Bool × ℕ) (a e r : ℕ)
    → Attempted exclusive o a e (suc (suc r))
    → check_destroyable (after_try o) ≡ false
after_exclusive (true, w) a e r (p, q, c) = referenced (fetch_sub-ref c)
after_exclusive (false, w) a e r c = referenced c

after_shared :
    (o : Bool × ℕ) (a e r : ℕ)
    → Attempted shared o a e (suc (suc r))
    → check_destroyable (after_try o) ≡ false
after_shared (true, w) a e r (q, c) = referenced (fetch_sub-ref c)
after_shared (false, w) a e r c = referenced c

-- A request for a lock leaves the word referenced, granted or not.
pub try_lock-referenced :
    (mode : DirLock) (w : ℕ)
    → LockFits w
    → is_none mode ≡ false
    → check_destroyable (try_lock mode w).1 ≡ false
unfolding try_lock
try_lock-referenced dir_lock_none w fits h = cc
try_lock-referenced dir_lock_exclusive w (a, e, r, c, refs, holders) h =
    after_exclusive _ a e r (attempt-exclusive (fetch_add-ref (fetch_add-ref c (omega arith)) refs))
try_lock-referenced dir_lock_shared w (a, e, r, c, refs, holders) h =
    after_shared _ a e r
      (attempt-shared (fetch_add-ref (fetch_add-ref c (omega arith)) refs) holders)

pub try_lock-still_referenced :
    (mode : DirLock) (w : ℕ)
    → LockFits w
    → check_destroyable w ≡ false
    → check_destroyable (try_lock mode w).1 ≡ false
unfolding try_lock
try_lock-still_referenced dir_lock_none w fits h = h
try_lock-still_referenced dir_lock_exclusive w fits h =
    try_lock-referenced dir_lock_exclusive w fits refl
try_lock-still_referenced dir_lock_shared w fits h = try_lock-referenced dir_lock_shared w fits refl

pub LockFits-initial : LockFits 0
LockFits-initial = (
  0,
  0,
  0,
  record {
    waiter = 0;
    waiter_le = omega arith;
    value = refl;
    shared_fits = omega arith;
    refs_fit = omega arith;
    exclusion = inl refl;
  },
  omega arith,
  omega arith,
)

-- A lock word in use has room for the request.
abbrev pub EntryFits : Option Item → Type 0
EntryFits none = Unit
EntryFits (some item) = LockFits item.lock

pub EntryFits-Kept : (o o' : Option Item) → Kept o o' → EntryFits o → EntryFits o'
EntryFits-Kept none none h f = tt
EntryFits-Kept none (some y) h f = absurd h
EntryFits-Kept (some x) none h f = tt
EntryFits-Kept (some x) (some y) (i, l) f = subst LockFits (sym l) f
