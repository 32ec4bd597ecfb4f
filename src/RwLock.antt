-- ===== src/RwLock.antt =====
-- falcon/utils/rwlock.c: a reader-writer lock in one 64-bit word, and the handles that a backend
-- holds. Bits 0 to 23 of the word count the shared holders, bit 24 is the exclusive holder, bits 25
-- to 49 count the references, bit 62 says that an exclusive waiter has been turned away.
pub mod Word
pub mod Held
pub mod System
pub mod Counts
pub mod Moves
pub mod Invariant
pub mod Safety
pub mod Waiter
pub mod Readers
mod Tests
use falconfs.Common.{
  u32, ℕ, zero, suc, ◌+◌, ◌-◌, ◌*◌, ◌^◌, Bool, true, false, ◌&&◌, not, List, [], ◌∷◌, Option, none,
  some, ◌==◌, leb, if◌then◌else◌, length, update, fetch_add, fetch_sub, low_bits, bit, set_bit,
  clear_bit, Result, ok, err, ◌>>=◌, ◌>>◌, guard,
}

pub data RwLockMode : Type 0 where
  exclusive shared declared : RwLockMode

abbrev pub bit_count_for_shared : ℕ
bit_count_for_shared = 24

-- The bit of RW_FLAG_HAS_EXCLUSIVE_WAITER.
abbrev pub waiter_bit : ℕ
waiter_bit = 62

abbrev pub rw_val_exclusive : ℕ
rw_val_exclusive = 2 ^ bit_count_for_shared

abbrev pub rw_val_shared : ℕ
rw_val_shared = 1

abbrev pub rw_val_ref_count : ℕ
rw_val_ref_count = 2 ^ (bit_count_for_shared + 1)

abbrev pub max_simul_rwlocks : ℕ
max_simul_rwlocks = 8196

-- One round of RWLockAttemptLock: whether the lock is free in `old`, and the word to be swapped in.
-- The code takes every mode but RW_EXCLUSIVE for a shared one.
unfoldable pub attempt : RwLockMode → ℕ → Bool × ℕ
attempt exclusive old =
    if low_bits old (bit_count_for_shared + 1) == 0
    then (true, clear_bit (set_bit old bit_count_for_shared) waiter_bit)
    else (false, set_bit old waiter_bit)
attempt mode old =
    if bit old bit_count_for_shared == 0 && bit old waiter_bit == 0
    then (true, old + rw_val_shared)
    else (false, old)

-- state & RW_REF_COUNT_MASK is zero.
unfoldable pub check_destroyable : ℕ → Bool
check_destroyable state =
    low_bits state (bit_count_for_shared * 2 + 2) - low_bits state (bit_count_for_shared + 1) == 0

-- Locks are named by their address.
pub record Handle : Type 0 where
  pub lock : ℕ
  pub mode : RwLockMode

abbrev pub is_declared : RwLockMode → Bool
is_declared declared = true
is_declared _ = false

-- `held_rwlocks` with the newest handle first, so the backward searches of the code run forward.
-- The mode of the newest handle on a lock, which RWLockRelease takes.
pub newest : ℕ → List Handle → Option RwLockMode
newest l [] = none
newest l (h ∷ hs) = if h.lock == l then some h.mode else newest l hs

pub remove_newest : ℕ → List Handle → List Handle
remove_newest l [] = []
remove_newest l (h ∷ hs) = if h.lock == l then hs else h ∷ remove_newest l hs

-- RWLockUndeclare looks for a handle of mode RW_DECLARE only.
pub has_declared : ℕ → List Handle → Bool
has_declared l [] = false
has_declared l (h ∷ hs) = if h.lock == l && is_declared h.mode then true else has_declared l hs

pub remove_declared : ℕ → List Handle → List Handle
remove_declared l [] = []
remove_declared l (h ∷ hs) =
    if h.lock == l && is_declared h.mode then hs else h ∷ remove_declared l hs

-- What RWLockRelease subtracts first.
pub release_value : RwLockMode → ℕ
release_value exclusive = rw_val_exclusive
release_value _ = rw_val_shared

pub data Error : Type 0 where
  not_supported_mode too_many_rwlocks not_declared not_held : Error

-- The shared words, and the handles and the 32-bit InterruptHoldoffCount of one backend.
pub record Process : Type 0 where
  pub words : ℕ → ℕ
  pub held : List Handle
  pub interrupt_holdoff : ℕ

pub declare : ℕ → Process → Result Error Process
declare l p = do
  guard (not (leb max_simul_rwlocks (length p.held))) too_many_rwlocks
  ok (record p {
    words = update p.words l (fetch_add (p.words l) rw_val_ref_count);
    held = record { lock = l; mode = declared } ∷ p.held;
    interrupt_holdoff = u32 (p.interrupt_holdoff + 1);
  })

pub undeclare : ℕ → Process → Result Error Process
undeclare l p = do
  guard (has_declared l p.held) not_declared
  ok (record p {
    words = update p.words l (fetch_sub (p.words l) rw_val_ref_count);
    held = remove_declared l p.held;
    interrupt_holdoff = u32 (p.interrupt_holdoff + (2 ^ 32 - 1));
  })

pub release : ℕ → Process → Result Error Process
release l p = elim (newest l p.held) [
  | none ↦ err not_held
  | some mode ↦ ok (record p {
    words =
        update p.words l (fetch_sub (fetch_sub (p.words l) (release_value mode)) rw_val_ref_count);
    held = remove_newest l p.held;
    interrupt_holdoff = u32 (p.interrupt_holdoff + (2 ^ 32 - 1));
  })
]

-- One round of RWLockReleaseAll, on the newest handle.
pub release_last : Bool → Handle → Process → Result Error Process
release_last keep h p =
    let q : Process = record p {
      interrupt_holdoff = if keep then u32 (p.interrupt_holdoff + 1) else p.interrupt_holdoff;
    } in
    if is_declared h.mode then undeclare h.lock q else release h.lock q

-- RWLockReleaseAll; the fuel bounds the rounds of its loop.
pub release_all : ℕ → Bool → Process → Result Error Process
release_all zero keep p = ok p
release_all (suc fuel) keep p = elim p.held [
  | [] ↦ ok p
  | h ∷ hs ↦ release_last keep h p >>= release_all fuel keep
]
