-- ===== src/DirHash/Steps.antt =====
-- Search, insertion and deletion of falcon/dir_path_shmem/dir_path_hash.c within a transaction.
use falconfs.Common.{
  ℕ, ◌≡◌, ◌≢◌, refl, sym, subst, inl, inr, Option, none, some, arith, ==_iff, Bool-cases,
  Option-cases, nat_eq, list_eq, mapped, Result, ok, err,
}
use falconfs.PathParse.{DirLock}
use falconfs.DirTable.{Key, key_eq}
use falconfs.DirHash.{
  unknown, known, search_directory_table_info, Item, DirHash, Error, run_on, Env, pinned, try_lock,
}
use falconfs.DirHash.Ops.{
  search_directory_by_directory_hash_table, locate, peek, modify, searched, pin,
}
use falconfs.DirHash.Pins.{EntryFits, try_lock-still_referenced}
use falconfs.DirHash.Coherent.{untouched_number, ItemAgrees, IsHeld, InProgress}
use falconfs.DirHash.Moves.{enter_loop-Located, modify-InProgress, Located}

pinned-ItemAgrees :
    (mode : DirLock) (number : ℕ) (o : Option Item)
    → ItemAgrees number o
    → ItemAgrees number (mapped (pinned mode) o)
pinned-ItemAgrees mode number none a = tt
pinned-ItemAgrees mode number (some item) a = a

pub pinned-IsHeld :
    (mode : DirLock) (o : Option Item) → EntryFits o → IsHeld o → IsHeld (mapped (pinned mode) o)
pinned-IsHeld mode none fits h = h
pinned-IsHeld mode (some item) fits (n, d) = (n, try_lock-still_referenced mode item.lock fits d)

pub known_item :
    (o : Option Item) (item : Item)
    → known o ≡ some item
    → (o ≡ some item) × (item.inode_id ≢ unknown)
known_item none item e = absurd (ground (arith, e))
known_item (some x) item e = (ground (arith, e), ground (arith, e, ==_iff x.inode_id unknown))

agreed_number :
    (number : ℕ) (item : Item)
    → item.inode_id ≢ unknown
    → ItemAgrees number (some item)
    → item.inode_id ≡ number
agreed_number number item differs (inl u) = absurd (differs u)
agreed_number number item differs (inr e) = e

module _ (env : Env) (numbers : Key → ℕ) where
  pub pin-InProgress :
      (mode : DirLock) (k : Key) (s : DirHash)
      → InProgress env numbers s
      → EntryFits (peek env k s)
      → InProgress env numbers (modify env k (pinned mode) s)
  pin-InProgress mode k s p fits =
      modify-InProgress env numbers k (pinned mode) s p
        (pinned-ItemAgrees mode (numbers k) _ (p.coherent k))
        (λ t. pinned-IsHeld mode _ fits (p.held k t))

  -- The answer of a search is the number of the key before the transaction.
  abbrev pub Searched : Key → DirHash × Result Error ℕ → Type 0
  Searched k (s, ok id) = InProgress env numbers s × (id ≡ numbers k)
  Searched k (s, err e) = InProgress env numbers s

  searched-Searched :
      (fuel : ℕ) (mode : DirLock) (k : Key) (o : DirHash × Result Error (Option Item))
      → Located env numbers mode k o
      → Searched k (run_on (searched env fuel mode k (numbers k)) o)
  unfolding pin
  searched-Searched fuel mode k (s, ok none) (p, m) = (p, refl)
  searched-Searched fuel mode k (s, ok (some item)) (p, e, number, fits) =
      elim (Bool-cases (try_lock mode item.lock).0) [
        | inl g ↦ rw g (pin-InProgress mode k s p (subst EntryFits (sym e) fits), number)
        | inr g ↦ rw g (pin-InProgress mode k s p (subst EntryFits (sym e) fits))
      ]
  searched-Searched fuel mode k (s, err e) p = p

  known-Located :
      (mode : DirLock) (k : Key) (item : Item) (s : DirHash)
      → InProgress env numbers s
      → EntryFits (peek env k s)
      → known (peek env k s) ≡ some item
      → Located env numbers mode k (s, ok (some item))
  known-Located mode k item s p fits e =
      let (found, differs) = known_item (peek env k s) item e in
      (
        p,
        found,
        agreed_number (numbers k) item differs
            (subst (ItemAgrees (numbers k)) found (p.coherent k)),
        subst EntryFits found fits,
      )

  pub locate-Located :
      (fuel : ℕ) (mode : DirLock) (k : Key) (s : DirHash)
      → InProgress env numbers s
      → EntryFits (peek env k s)
      → Located env numbers mode k
          (locate env fuel mode k (search_directory_table_info k s.table) s)
  locate-Located fuel mode k s p fits = elim (Option-cases (known (peek env k s))) [
    | inr (item, e) ↦ rw (locate, e) (known-Located mode k item s p fits e)
    | inl e ↦
        rw (locate, e, untouched_number env numbers k s p e)
          (enter_loop-Located env numbers fuel fuel mode k s (p, e, fits))
  ]

  search_known :
      (fuel : ℕ) (k : Key) (mode : DirLock) (s : DirHash) (item : Item)
      → InProgress env numbers s
      → EntryFits (peek env k s)
      → known (peek env k s) ≡ some item
      → Searched k (search_directory_by_directory_hash_table env fuel k mode s)
  unfolding search_directory_by_directory_hash_table pin
  search_known fuel k mode s item p fits e =
      let (q, found, number, fit) = known-Located mode k item s p fits e in
      elim (Bool-cases (try_lock mode item.lock).0) [
        | inl g ↦ rw (locate, e, g) (pin-InProgress mode k s p fits, number)
        | inr g ↦ rw (locate, e, g) (pin-InProgress mode k s p fits)
      ]

  pub search-Searched :
      (fuel : ℕ) (k : Key) (mode : DirLock) (s : DirHash)
      → InProgress env numbers s
      → EntryFits (peek env k s)
      → Searched k (search_directory_by_directory_hash_table env fuel k mode s)
  unfolding search_directory_by_directory_hash_table
  search-Searched fuel k mode s p fits = elim (Option-cases (known (peek env k s))) [
    | inr (item, e) ↦ search_known fuel k mode s item p fits e
    | inl e ↦
        subst
          (λ id. Searched k (run_on (searched env fuel mode k id) (locate env fuel mode k id s)))
          (sym (untouched_number env numbers k s p e))
          (searched-Searched fuel mode k (locate env fuel mode k (numbers k) s) (
            subst (λ id. Located env numbers mode k (locate env fuel mode k id s))
              (untouched_number env numbers k s p e) (locate-Located fuel mode k s p fits)))
  ]
