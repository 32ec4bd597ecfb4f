-- ===== src/DirHash/Scan.antt =====
-- FindNextItem of falcon/dir_path_shmem/dir_path_hash.c: what a scan of a partition lowers and chooses.
use falconfs.Common.{
  negsuc, pos, sub_one, elem, ℤ, is_positive, pos_part, ℕ, zero, suc, ◌+◌, ◌≤◌, ◌≡◌, refl, sym, ap,
  subst, ◌∙◌, inl, inr, Bool, true, false, ◌||◌, Option, none, some, List, [], ◌∷◌, arith,
  if◌then◌else◌, Bool-cases, Option-cases, ◌=?◌, nat_eq, list_eq, =?_refl, find, change,
  find-change,
}
use falconfs.RwLock.{check_destroyable}
use falconfs.DirTable.{Key, key_eq, key_beq_iff}
use falconfs.DirHash.{Item, Items, find_next_item, may_go}

pub lowered : Item → Item
lowered item = record item { usage_count = sub_one item.usage_count }

-- What a scan without a choice leaves of an entry: the lock, and less use if it came to the entry.
abbrev pub Lower : Bool → Option Item → Option Item → Type 0
Lower b none none = Unit
Lower b none (some c) = ⊥
Lower b (some a) none = ⊥
Lower b (some a) (some c) =
    (c.lock ≡ a.lock)
    × (check_destroyable a.lock ≡ true
        → pos_part c.usage_count + (if b then 1 else 0) ≤ pos_part a.usage_count)

Lower-refl : (o : Option Item) → Lower false o o
Lower-refl none = tt
Lower-refl (some a) = (refl, λ d. omega arith)

Lower-absent : (b b' : Bool) (o o' : Option Item) → o ≡ none → Lower b o o' → Lower b' o o'
Lower-absent b b' none none e h = tt
Lower-absent b b' none (some c) e h = h
Lower-absent b b' (some a) o' e h = cc

Lower-pinned :
    (b b' : Bool) (a : Item) (o' : Option Item)
    → check_destroyable a.lock ≡ false
    → Lower b (some a) o'
    → Lower b' (some a) o'
Lower-pinned b b' a none e h = h
Lower-pinned b b' a (some c) e (l, u) = (l, λ d. absurd (ground (arith, d, e)))

pos_part-sub_one : (u : ℤ) → is_positive (sub_one u) ≡ true → pos_part (sub_one u) + 1 ≡ pos_part u
pos_part-sub_one (pos zero) h = cc
pos_part-sub_one (pos (suc n)) h = omega arith
pos_part-sub_one (negsuc n) h = cc

Lower-lowered :
    (b : Bool) (a : Item) (o' : Option Item)
    → is_positive (sub_one a.usage_count) ≡ true
    → Lower b (some (lowered a)) o'
    → Lower true (some a) o'
unfolding lowered
Lower-lowered b a none e h = h
Lower-lowered b a (some c) e (l, u) = (l, λ d. omega (arith, u d, pos_part-sub_one a.usage_count e))

if-Lower :
    (b c : Bool) (o o' : Option Item)
    → (b ≡ true → Lower true o o')
    → (b ≡ false → Lower c o o')
    → Lower (b || c) o o'
if-Lower true c o o' h g = h refl
if-Lower false c o o' h g = g refl

-- The three ways of a scan at an entry.
scan-skip :
    (j : Key) (ks : List Key) (items : Items)
    → may_go (find j items) ≡ false
    → find_next_item (j ∷ ks) items ≡ find_next_item ks items
unfolding find_next_item
scan-skip j ks items h = elim (Option-cases (find j items)) [
  | inl f ↦ rw (find_next_item, f) refl
  | inr (item, f) ↦ rw (find_next_item, f, subst (λ o. may_go o ≡ false) f h) refl
]

module _ (j : Key) (ks : List Key) (items : Items) (item : Item) (found : find j items ≡ some item)
    (free : check_destroyable item.lock ≡ true) where
  scan-stop :
      is_positive (sub_one item.usage_count) ≡ false
      → find_next_item (j ∷ ks) items ≡ (some j, change j lowered items, 1)
  unfolding find_next_item lowered
  scan-stop g = rw (find_next_item, found, free, g) refl

  scan-lower :
      is_positive (sub_one item.usage_count) ≡ true
      → find_next_item (j ∷ ks) items
        ≡ (let rest = find_next_item ks (change j lowered items) in (rest.0, rest.1, rest.2 + 1))
  unfolding find_next_item lowered
  scan-lower g = rw (find_next_item, found, free, g) refl

-- A scan by its three ways.
pub scan-elim {ℓ} :
    (P : Items → Option Key × Items × ℕ → Type ℓ) (j : Key) (ks : List Key) (items : Items)
    → (may_go (find j items) ≡ false → P items (find_next_item ks items))
    → ((item : Item)
        → find j items ≡ some item
        → check_destroyable item.lock ≡ true
        → is_positive (sub_one item.usage_count) ≡ false
        → P items (some j, change j lowered items, 1))
    → ((item : Item)
        → find j items ≡ some item
        → check_destroyable item.lock ≡ true
        → is_positive (sub_one item.usage_count) ≡ true
        → P items
            (let rest = find_next_item ks (change j lowered items) in (rest.0, rest.1, rest.2 + 1)))
    → P items (find_next_item (j ∷ ks) items)
scan-elim P j ks items skips stops lowers = elim (Option-cases (find j items)) [
  | inl f ↦
      let h = subst (λ o. may_go o ≡ false) (sym f) refl in
      subst (P items) (sym (scan-skip j ks items h)) (skips h)
  | inr (item, f) ↦ elim (Bool-cases (check_destroyable item.lock)) [
    | inr d ↦
        let h = subst (λ o. may_go o ≡ false) (sym f) d in
        subst (P items) (sym (scan-skip j ks items h)) (skips h)
    | inl d ↦ elim (Bool-cases (is_positive (sub_one item.usage_count))) [
      | inr g ↦ subst (P items) (sym (scan-stop j ks items item f d g)) (stops item f d g)
      | inl g ↦ subst (P items) (sym (scan-lower j ks items item f d g)) (lowers item f d g)
    ]
  ]
]

abbrev ScanLower : List Key → Key → Items → Option Key × Items × ℕ → Type 0
ScanLower ks k items o = o.0 ≡ none → Lower (elem k ks) (find k items) (find k o.1)

skipped-Lower : (b : Bool) (o o' : Option Item) → may_go o ≡ false → Lower b o o' → Lower true o o'
skipped-Lower b none o' e h = Lower-absent b true none o' refl h
skipped-Lower b (some a) o' e h = Lower-pinned b true a o' e h

abbrev after : Key → List Key → Items → Key → Option Item
after j ks items k = find k (find_next_item ks (change j lowered items)).1

lowered_found :
    (j k : Key) (items : Items) (item : Item)
    → find j items ≡ some item
    → (j =? k) ≡ true
    → (find k items ≡ some item) × (find k (change j lowered items) ≡ some (lowered item))
lowered_found j k items item f same =
    let here = subst (λ i. find i items ≡ some item) ((key_beq_iff j k).0 same) f in
    (here, find-change k j lowered items ∙ rw (same, here) refl)

lowered_other :
    (j k : Key) (items : Items) → (j =? k) ≡ false → find k (change j lowered items) ≡ find k items
lowered_other j k items other = find-change k j lowered items ∙ rw other refl

pub scan-ScanLower :
    (ks : List Key) (items : Items) (k : Key) → ScanLower ks k items (find_next_item ks items)
unfolding find_next_item elem
scan-ScanLower [] items k = λ e. Lower-refl (find k items)
scan-ScanLower (j ∷ ks) items k =
    let skip = scan-ScanLower ks items k in
    let lower = scan-ScanLower ks (change j lowered items) k in
    scan-elim (ScanLower (j ∷ ks) k) j ks items
      (λ h e.
        if-Lower (j =? k) (elem k ks) (find k items) _
          (λ same.
            skipped-Lower (elem k ks) (find k items) _
              (subst (λ i. may_go (find i items) ≡ false) ((key_beq_iff j k).0 same) h) (skip e))
          (λ other. skip e))
      (λ item f d g e. cc)
      (λ item f d g e.
        if-Lower (j =? k) (elem k ks) (find k items) _
          (λ same.
            let (here, there) = lowered_found j k items item f same in
            subst (λ o. Lower true o (after j ks items k)) (sym here)
              (Lower-lowered (elem k ks) item (after j ks items k) g
                (subst (λ o. Lower (elem k ks) o (after j ks items k)) there (lower e))))
          (λ other.
            subst (λ o. Lower (elem k ks) o (after j ks items k)) (lowered_other j k items other)
              (lower e)))

kept_lock : (item : Item) → check_destroyable item.lock ≡ true → may_go (some (lowered item)) ≡ true
unfolding lowered
kept_lock item d = d

-- What a scan chooses may go.
pub scan-may_go :
    (ks : List Key) (items : Items) (k : Key)
    → (find_next_item ks items).0 ≡ some k
    → may_go (find k (find_next_item ks items).1) ≡ true
unfolding find_next_item
scan-may_go [] items k = λ e. cc
scan-may_go (j ∷ ks) items k =
    scan-elim (λ is o. o.0 ≡ some k → may_go (find k o.1) ≡ true) j ks items
      (λ h. scan-may_go ks items k)
      (λ item f d g e.
        let same : j ≡ k = ap (λ (o : Option Key). elim o [ none ↦ j | some i ↦ i ]) e in
        subst (λ i. may_go (find i (change j lowered items)) ≡ true) same
          (rw (lowered_found j j items item f (=?_refl j)).1 (kept_lock item d)))
      (λ item f d g. scan-may_go ks (change j lowered items) k)
