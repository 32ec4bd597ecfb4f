-- ===== src/RwLock/System.antt =====
-- Backends that use the locks of falcon/utils/rwlock.c at once: each atomic operation on a lock word
-- is one step, and the steps of the backends come in any order.
use falconfs.Common.{
  ℕ, ◌<◌, ◌≡◌, ◌≢◌, Bool, true, false, List, [], ◌∷◌, some, length, update, fetch_add, fetch_sub,
}
use falconfs.RwLock.{
  RwLockMode, declared, Handle, attempt, newest, remove_newest, has_declared, remove_declared,
  release_value, rw_val_ref_count, max_simul_rwlocks,
}

-- Where a backend stands: outside the lock's functions, in RWLockAcquire before the word is read,
-- there with the value `old_state` that was read, or in RWLockRelease with only the reference left
-- to give up.
pub data Pc : Type 0 where
  idle : Pc
  attempting : ℕ → RwLockMode → Pc
  trying : ℕ → RwLockMode → ℕ → Pc
  dropping : ℕ → Pc

pub record Backend : Type 0 where
  pub held : List Handle
  pub pc : Pc

-- After the swap: with the lock taken the handle is noted, otherwise RWLockAcquire goes round again.
unfoldable pub after_swap : Bool → ℕ → RwLockMode → Backend → Backend
after_swap true l mode b = record b { held = record { lock = l; mode = mode } ∷ b.held; pc = idle }
after_swap false l mode b = record b { pc = attempting l mode }

-- One backend's step, from the words `ws` to the words `ws'`. A backend declares, undeclares and
-- releases what it holds, and does not release a lock that it has declared last.
pub data Act (ws : ℕ → ℕ) (b : Backend) : (ℕ → ℕ) → Backend → Type 0 where
  declares :
      (l : ℕ)
      → b.pc ≡ idle
      → length b.held < max_simul_rwlocks
      → Act ws b
          (update ws l (fetch_add (ws l) rw_val_ref_count))
          (record b { held = record { lock = l; mode = declared } ∷ b.held })
  undeclares :
      (l : ℕ)
      → b.pc ≡ idle
      → has_declared l b.held ≡ true
      → Act ws b
          (update ws l (fetch_sub (ws l) rw_val_ref_count))
          (record b { held = remove_declared l b.held })
  acquires :
      (l : ℕ) (mode : RwLockMode)
      → b.pc ≡ idle
      → mode ≢ declared
      → length b.held < max_simul_rwlocks
      → Act ws b
          (update ws l (fetch_add (ws l) rw_val_ref_count))
          (record b { pc = attempting l mode })
  reads :
      (l : ℕ) (mode : RwLockMode)
      → b.pc ≡ attempting l mode
      → Act ws b ws (record b { pc = trying l mode (ws l) })
  swaps :
      (l : ℕ) (mode : RwLockMode) (old : ℕ)
      → b.pc ≡ trying l mode old
      → ws l ≡ old
      → Act ws b (update ws l (attempt mode old).1) (after_swap (attempt mode old).0 l mode b)
  swap_fails :
      (l : ℕ) (mode : RwLockMode) (old : ℕ)
      → b.pc ≡ trying l mode old
      → ws l ≢ old
      → Act ws b ws (record b { pc = trying l mode (ws l) })
  releases :
      (l : ℕ) (mode : RwLockMode)
      → b.pc ≡ idle
      → newest l b.held ≡ some mode
      → mode ≢ declared
      → Act ws b
          (update ws l (fetch_sub (ws l) (release_value mode)))
          (record b { held = remove_newest l b.held; pc = dropping l })
  drops :
      (l : ℕ)
      → b.pc ≡ dropping l
      → Act ws b (update ws l (fetch_sub (ws l) rw_val_ref_count)) (record b { pc = idle })

pub record System : Type 0 where
  pub words : ℕ → ℕ
  pub backends : ℕ → Backend

-- RWLockInitialize has run on every lock, and nobody has used one.
abbrev pub initial : System
initial = record { words = λ _. 0; backends = λ _. record { held = []; pc = idle } }

pub data Step (n : ℕ) (s : System) : System → Type 0 where
  pick :
      (i : ℕ) {ws' : ℕ → ℕ} {b' : Backend}
      → i < n
      → Act s.words (s.backends i) ws' b'
      → Step n s (record { words = ws'; backends = update s.backends i b' })

pub data Reach (n : ℕ) : System → Type 0 where
  start : Reach n initial
  later : {s t : System} → Reach n s → Step n s t → Reach n t
