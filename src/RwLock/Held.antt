-- ===== src/RwLock/Held.antt =====
-- The handles of one backend in falcon/utils/rwlock.c: what they add to each lock word, and how
-- RWLockReleaseAll takes it away again.
use falconfs.Common.{
  u32, ℕ, zero, suc, ◌+◌, ◌-◌, ◌^◌, ◌≤◌, ◌<◌, ◌≡◌, refl, ap₂, Bool, true, false, List, [], ◌∷◌,
  some, ◌==◌, if◌then◌else◌, length, arith, ==_refl, Result, ok, update, fetch_sub,
}
use falconfs.RwLock.{
  RwLockMode, exclusive, shared, declared, Handle, Process, Error, newest, remove_newest,
  has_declared, remove_declared, is_declared, release_value, undeclare, release, release_last,
  release_all, rw_val_ref_count,
}

-- The handles on lock `l`, each weighed by its mode.
unfoldable pub uses : (RwLockMode → ℕ) → ℕ → List Handle → ℕ
uses k l [] = 0
uses k l (h ∷ hs) = (if h.lock == l then k h.mode else 0) + uses k l hs

module _ (k : RwLockMode → ℕ) where
  pub uses-remove_newest :
      (l l' : ℕ) (hs : List Handle) (m : RwLockMode)
      → newest l hs ≡ some m
      → uses k l' hs ≡ (if l == l' then k m else 0) + uses k l' (remove_newest l hs)
  unfolding uses newest remove_newest
  uses-remove_newest l l' [] m e = ground arith
  uses-remove_newest l l' (h ∷ hs) m e = ground (arith, uses-remove_newest l l' hs m)

  pub uses-remove_declared :
      (l l' : ℕ) (hs : List Handle)
      → has_declared l hs ≡ true
      → uses k l' hs ≡ (if l == l' then k declared else 0) + uses k l' (remove_declared l hs)
  unfolding uses has_declared remove_declared
  uses-remove_declared l l' [] e = ground arith
  uses-remove_declared l l' (h ∷ hs) e = ground (arith, uses-remove_declared l l' hs)

  pub uses-le : ((m : RwLockMode) → k m ≤ 1) → (l : ℕ) (hs : List Handle) → uses k l hs ≤ length hs
  unfolding uses
  uses-le small l [] = omega arith
  uses-le small l (h ∷ hs) = ground (arith, small h.mode, uses-le small l hs)

pub length-remove_newest :
    (l : ℕ) (hs : List Handle) (m : RwLockMode)
    → newest l hs ≡ some m
    → length hs ≡ suc (length (remove_newest l hs))
unfolding newest remove_newest
length-remove_newest l [] m e = ground arith
length-remove_newest l (h ∷ hs) m e = ground (arith, length-remove_newest l hs m)

pub length-remove_declared :
    (l : ℕ) (hs : List Handle)
    → has_declared l hs ≡ true
    → length hs ≡ suc (length (remove_declared l hs))
unfolding has_declared remove_declared
length-remove_declared l [] e = ground arith
length-remove_declared l (h ∷ hs) e = ground (arith, length-remove_declared l hs)

-- What a handle has added to its lock's word.
abbrev pub worth : RwLockMode → ℕ
worth exclusive = 2 ^ 24 + 2 ^ 25
worth shared = 1 + 2 ^ 25
worth declared = 2 ^ 25

abbrev process : (ℕ → ℕ) → List Handle → ℕ → Process
process ws hs n = record { words = ws; held = hs; interrupt_holdoff = n }

-- The words once the handle `h` is given up.
abbrev without : (ℕ → ℕ) → Handle → ℕ → ℕ
without ws h = update ws h.lock (ws h.lock - worth h.mode)

-- InterruptHoldoffCount after a round of RWLockReleaseAll.
abbrev resumed : Bool → ℕ → ℕ
resumed keep n = if keep then n else u32 (n + (2 ^ 32 - 1))

fetch_sub-worth :
    (w : ℕ) (m : RwLockMode)
    → w < 2 ^ 64
    → worth m ≤ w
    → is_declared m ≡ false
    → fetch_sub (fetch_sub w (release_value m)) rw_val_ref_count ≡ w - worth m
unfolding release_value
fetch_sub-worth w exclusive f h e = omega arith
fetch_sub-worth w shared f h e = omega arith
fetch_sub-worth w declared f h e = cc

holdoff_resumed :
    (keep : Bool) (n : ℕ)
    → n < 2 ^ 32
    → u32 ((if keep then u32 (n + 1) else n) + (2 ^ 32 - 1)) ≡ resumed keep n
holdoff_resumed true n lt = omega arith
holdoff_resumed false n lt = refl

resumed-lt : (keep : Bool) (n : ℕ) → n < 2 ^ 32 → resumed keep n < 2 ^ 32
resumed-lt true n lt = lt
resumed-lt false n lt = omega arith

abbrev done : Process → Result Error Process
done p = ok p

module _ (keep : Bool) (ws : ℕ → ℕ) (l : ℕ) (hs : List Handle) (n : ℕ) where
  process_path :
      {v v' k k' : ℕ}
      → v ≡ v'
      → k ≡ k'
      → done (process (update ws l v) hs k) ≡ done (process (update ws l v') hs k')
  process_path p q = ap₂ (λ v k. done (process (update ws l v) hs k)) p q

  newest-head : (m : RwLockMode) → newest l (record { lock = l; mode = m } ∷ hs) ≡ some m
  unfolding newest
  newest-head m = rw (==_refl l)

  remove_newest-head : (m : RwLockMode) → remove_newest l (record { lock = l; mode = m } ∷ hs) ≡ hs
  unfolding remove_newest
  remove_newest-head m = rw (==_refl l)

  release_last-lock :
      (m : RwLockMode)
      → ws l < 2 ^ 64
      → worth m ≤ ws l
      → n < 2 ^ 32
      → release_last keep
          (record { lock = l; mode = m })
          (process ws (record { lock = l; mode = m } ∷ hs) n)
        ≡ ok (process (without ws (record { lock = l; mode = m })) hs (resumed keep n))
  unfolding release_last undeclare release has_declared remove_declared
  release_last-lock declared f h lt =
      rw (==_refl l) (process_path (omega arith) (holdoff_resumed keep n lt))
  release_last-lock m f h lt =
      rw (newest-head m, release, remove_newest-head m)
        (process_path (fetch_sub-worth (ws l) m f h refl) (holdoff_resumed keep n lt))

-- Every word is back to what it was without the handles, and none is left.
pub record Released (keep : Bool) (ws : ℕ → ℕ) (hs : List Handle) (n : ℕ) (q : Process)
    : Type 0 where
  pub none_held : q.held ≡ []
  pub words_back : (l : ℕ) → q.words l + uses worth l hs ≡ ws l
  pub holdoff : u32 (q.interrupt_holdoff + (if keep then 0 else length hs)) ≡ n

-- The handles add to a word no more than it holds.
abbrev pub Covered : (ℕ → ℕ) → List Handle → Type 0
Covered ws hs = (l : ℕ) → (ws l < 2 ^ 64) × (uses worth l hs ≤ ws l)

Covered-head :
    (ws : ℕ → ℕ) (h : Handle) (hs : List Handle) → Covered ws (h ∷ hs) → worth h.mode ≤ ws h.lock
unfolding uses
Covered-head ws h hs c = ground (arith, c h.lock)

Covered-without :
    (ws : ℕ → ℕ) (h : Handle) (hs : List Handle) → Covered ws (h ∷ hs) → Covered (without ws h) hs
unfolding uses
Covered-without ws h hs c l = ground (arith, c l, c h.lock)

holdoff_again :
    (keep : Bool) (n m count : ℕ)
    → n < 2 ^ 32
    → u32 (m + (if keep then 0 else count)) ≡ resumed keep n
    → u32 (m + (if keep then 0 else suc count)) ≡ n
holdoff_again true n m count lt e = e
holdoff_again false n m count lt e = omega (arith, e)

Released-cons :
    (keep : Bool) (ws : ℕ → ℕ) (h : Handle) (hs : List Handle) (n : ℕ) (q : Process)
    → n < 2 ^ 32
    → Covered ws (h ∷ hs)
    → Released keep (without ws h) hs (resumed keep n) q
    → Released keep ws (h ∷ hs) n q
unfolding uses
Released-cons keep ws h hs n q lt c r = record {
  none_held = r.none_held;
  words_back = λ l. ground (arith, c l, c h.lock, r.words_back l);
  holdoff = holdoff_again keep n q.interrupt_holdoff (length hs) lt r.holdoff;
}

release_all-Released :
    (fuel : ℕ) (keep : Bool) (ws : ℕ → ℕ) (hs : List Handle) (n : ℕ)
    → length hs ≤ fuel
    → n < 2 ^ 32
    → Covered ws hs
    → (q : Process) × (release_all fuel keep (process ws hs n) ≡ ok q) × Released keep ws hs n q
unfolding release_all uses
release_all-Released zero keep ws [] n le lt c = (
  process ws [] n,
  refl,
  record { none_held = refl; words_back = λ l. omega arith; holdoff = ground arith },
)
release_all-Released zero keep ws (h ∷ hs) n le lt c = absurd (omega arith)
release_all-Released (suc fuel) keep ws [] n le lt c = (
  process ws [] n,
  refl,
  record { none_held = refl; words_back = λ l. omega arith; holdoff = ground arith },
)
release_all-Released (suc fuel) keep ws (h ∷ hs) n le lt c =
    let (q, e, r) =
      release_all-Released fuel keep (without ws h) hs (resumed keep n) (omega arith)
        (resumed-lt keep n lt) (Covered-without ws h hs c) in
    (
      q,
      rw (release_last-lock keep ws h.lock hs n h.mode (c h.lock).0 (Covered-head ws h hs c) lt) e,
      Released-cons keep ws h hs n q lt c r,
    )

-- If every lock word is below 2^64 and at least what the handles on that lock have added, and the
-- interrupt holdoff count is below 2^32, RWLockReleaseAll ends within one round for each handle held,
-- and then the backend holds nothing. Each lock word has lost exactly what the handles on that lock had
-- added. The holdoff count is unchanged modulo 2^32 if the caller asks to keep it, and otherwise lower
-- by one for each handle, modulo 2^32: it wraps below zero.
pub release_all_lem :
    (keep : Bool) (p : Process)
    → Covered p.words p.held
    → p.interrupt_holdoff < 2 ^ 32
    → (q : Process) × (release_all (length p.held) keep p ≡ ok q)
      × Released keep p.words p.held p.interrupt_holdoff q
release_all_lem keep p c lt =
    release_all-Released (length p.held) keep p.words p.held p.interrupt_holdoff (omega arith) lt c
