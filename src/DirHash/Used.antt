-- ===== src/DirHash/Used.antt =====
-- The use counts in falcon/dir_path_shmem/dir_path_hash.c under the scans of FindNextItem.
use falconfs.Common.{
  pos_part, elem, ℕ, ◌+◌, ◌<◌, ◌≡◌, refl, subst, Bool, true, false, Option, none, some, List, [],
  ◌∷◌, arith, if◌then◌else◌, nat_eq, list_eq, find, All,
}
use falconfs.RwLock.{check_destroyable}
use falconfs.DirTable.{Key, key_eq}
use falconfs.DirHash.{Item, Items, Env, find_next_item}
use falconfs.DirHash.Scan.{Lower, scan-elim, scan-ScanLower}

-- Every use count of a destroyable entry is below the bound.
abbrev pub UsedBelow : ℕ → Items → Type 0
UsedBelow m items =
    (k : Key) (item : Item)
    → find k items ≡ some item
    → check_destroyable item.lock ≡ true
    → pos_part item.usage_count < m

pub All-UsedBelow :
    (m : ℕ) (items : Items) → All (λ x. pos_part x.1.usage_count < m) items → UsedBelow m items
unfolding find
All-UsedBelow m [] h k item e free = absurd (ground (arith, e))
All-UsedBelow m ((j, v) ∷ xs) (h, hs) k item e free =
    ground (arith, e, h, All-UsedBelow m xs hs k item)

-- A scan that hash_seq_init starts comes to every entry.
abbrev pub ScansAll : Env → Type 0
ScansAll env =
    (items : Items) (k : Key) (item : Item)
    → find k items ≡ some item
    → elem k (env.scan_all items) ≡ true

-- A scan that can choose nothing meets nothing.
pub scan-idle :
    (ks : List Key) (items : Items) → UsedBelow 0 items → (find_next_item ks items).2 ≡ 0
unfolding find_next_item
scan-idle [] items u = refl
scan-idle (j ∷ ks) items u =
    scan-elim (λ is o. o.2 ≡ 0) j ks items (λ h. scan-idle ks items u)
      (λ item f d g. absurd (omega (arith, u j item f d)))
      (λ item f d g. absurd (omega (arith, u j item f d)))

-- What a scan without a choice says of the use that is left.
Lower-use :
    (m : ℕ) (b : Bool) (o : Option Item) (item : Item)
    → ((a : Item)
        → o ≡ some a
        → check_destroyable a.lock ≡ true
        → pos_part a.usage_count < m + (if b then 1 else 0))
    → Lower b o (some item)
    → check_destroyable item.lock ≡ true
    → pos_part item.usage_count < m
Lower-use m b none item used h free = absurd h
Lower-use m b (some a) item used (l, u) free =
    let d = subst (λ w. check_destroyable w ≡ true) l free in omega (arith, used a refl d, u d)

-- A scan from the first bucket that chooses nothing lowers every use count, and any scan raises none.
pub scan-UsedBelow :
    (env : Env) (m : ℕ) (items : Items)
    → ScansAll env
    → UsedBelow (m + 1) items
    → (find_next_item (env.scan_all items) items).0 ≡ none
    → UsedBelow m (find_next_item (env.scan_all items) items).1
scan-UsedBelow env m items all u e k item found free =
    Lower-use m (elem k (env.scan_all items)) (find k items) item
      (λ a f d. rw (all items k a f) (u k a f d))
      (subst (Lower (elem k (env.scan_all items)) (find k items)) found
        (scan-ScanLower (env.scan_all items) items k e))
      free

below_if : (m u : ℕ) (b : Bool) → u < m → u < m + (if b then 1 else 0)
below_if m u true h = omega arith
below_if m u false h = omega arith

pub scan-still_UsedBelow :
    (ks : List Key) (m : ℕ) (items : Items)
    → UsedBelow m items
    → (find_next_item ks items).0 ≡ none
    → UsedBelow m (find_next_item ks items).1
scan-still_UsedBelow ks m items u e k item found free =
    Lower-use m (elem k ks) (find k items) item
      (λ a f d. below_if m (pos_part a.usage_count) (elem k ks) (u k a f d))
      (subst (Lower (elem k ks) (find k items)) found (scan-ScanLower ks items k e)) free
