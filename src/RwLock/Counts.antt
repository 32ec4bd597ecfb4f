-- ===== src/RwLock/Counts.antt =====
-- What one backend of falcon/utils/rwlock.c contributes to a lock word, and how a step changes it.
use falconfs.Common.{ℕ, ◌+◌, ◌≤◌, ◌≡◌, ◌≢◌, ◌==◌, if◌then◌else◌, length, arith}
use falconfs.RwLock.{RwLockMode, exclusive, shared, declared, max_simul_rwlocks}
use falconfs.RwLock.Held.{uses, uses-le}
use falconfs.RwLock.Word.{Encodes}
use falconfs.RwLock.System.{Pc, idle, attempting, trying, dropping, Backend}

abbrev pub as_shared : RwLockMode → ℕ
as_shared shared = 1
as_shared _ = 0

abbrev pub as_exclusive : RwLockMode → ℕ
as_exclusive exclusive = 1
as_exclusive _ = 0

abbrev pub as_ref : RwLockMode → ℕ
as_ref _ = 1

-- A call under way refers to its lock.
abbrev pub pending : ℕ → Pc → ℕ
pending l idle = 0
pending l (attempting k _) = if k == l then 1 else 0
pending l (trying k _ _) = if k == l then 1 else 0
pending l (dropping k) = if k == l then 1 else 0

abbrev pub shared_of : ℕ → Backend → ℕ
shared_of l b = uses as_shared l b.held

abbrev pub exclusive_of : ℕ → Backend → ℕ
exclusive_of l b = uses as_exclusive l b.held

abbrev pub refs_of : ℕ → Backend → ℕ
refs_of l b = uses as_ref l b.held + pending l b.pc

abbrev pub active : Pc → ℕ
active idle = 0
active _ = 1

abbrev pub IsRequest : Pc → Type 0
IsRequest (attempting _ mode) = mode ≢ declared
IsRequest (trying _ mode _) = mode ≢ declared
IsRequest _ = Unit

-- No room for more handles than the array has, and only real lock requests under way.
pub record IsOrderly (b : Backend) : Type 0 where
  pub room : length b.held + active b.pc ≤ max_simul_rwlocks
  pub request : IsRequest b.pc

pub shared_of-le : (l : ℕ) (b : Backend) → IsOrderly b → shared_of l b ≤ max_simul_rwlocks
shared_of-le l b o = omega (arith, uses-le as_shared (λ m. ground arith) l b.held, o.room)

pending-le : (l : ℕ) (pc : Pc) → pending l pc ≤ active pc
pending-le l pc = ground arith

pub refs_of-le : (l : ℕ) (b : Backend) → IsOrderly b → refs_of l b ≤ max_simul_rwlocks
refs_of-le l b o =
    omega (arith, uses-le as_ref (λ m. ground arith) l b.held, pending-le l b.pc, o.room)

pub Encodes-cast :
    {w s e r w' s' e' r' : ℕ}
    → Encodes w s e r
    → w' ≡ w
    → s' ≡ s
    → e' ≡ e
    → r' ≡ r
    → Encodes w' s' e' r'
Encodes-cast c p q h k = record {
  waiter = c.waiter;
  waiter_le = c.waiter_le;
  value = omega arith;
  shared_fits = omega arith;
  refs_fit = omega arith;
  exclusion = omega arith;
}

-- The word of lock `l` counts the backend `b`, and `s`, `e`, `r` of the others.
abbrev pub Counts : ℕ → (ℕ → ℕ) → Backend → ℕ → ℕ → ℕ → Type 0
Counts l ws b s e r = Encodes (ws l) (s + shared_of l b) (e + exclusive_of l b) (r + refs_of l b)
