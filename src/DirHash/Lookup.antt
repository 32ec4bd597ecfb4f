-- ===== src/DirHash/Lookup.antt =====
-- What one looks up in falcon/dir_path_shmem/dir_path_hash.c after a change of an entry, and after an
-- elimination, which leaves the number and the lock of every entry in use.
use falconfs.Common.{
  is_positive, sub_one, ℕ, zero, suc, ◌≡◌, refl, ap, subst, ◌∙◌, inl, inr, true, false, Option,
  none, some, List, [], ◌∷◌, leb, ◌==◌, if◌then◌else◌, Bool-cases, Option-cases, ◌=?◌, nat_eq,
  list_eq, =?_ne, find, change, remove, mapped, find-change, find-remove, update-elim, Result-cases,
}
use falconfs.RwLock.{check_destroyable}
use falconfs.DirTable.{Key, key_eq, key_beq_iff}
use falconfs.DirHash.{clear_begin, Item, Items, Partition, DirHash, Env, find_next_item, may_go}
use falconfs.DirHash.Ops.{
  index, peek, modify, new_entry, rescan, choose, eliminate_loop, eliminate,
  eliminate_dir_path_hash_by_lru,
}

-- An entry is as before but for its use count, or is gone if no lock refers to it.
abbrev pub Kept : Option Item → Option Item → Type 0
Kept none none = Unit
Kept none (some b) = ⊥
Kept (some a) none = check_destroyable a.lock ≡ true
Kept (some a) (some b) = (b.inode_id ≡ a.inode_id) × (b.lock ≡ a.lock)

pub Kept-refl : (o : Option Item) → Kept o o
Kept-refl none = tt
Kept-refl (some a) = (refl, refl)

pub Kept-trans : (o o' o'' : Option Item) → Kept o o' → Kept o' o'' → Kept o o''
Kept-trans none none o'' h g = g
Kept-trans none (some b) o'' h g = absurd h
Kept-trans (some a) none none h g = h
Kept-trans (some a) none (some c) h g = absurd g
Kept-trans (some a) (some b) none (i, l) g = subst (λ w. check_destroyable w ≡ true) l g
Kept-trans (some a) (some b) (some c) (i, l) (i', l') = (i' ∙ i, l' ∙ l)

abbrev pub ItemsKept : Items → Items → Type 0
ItemsKept items items' = (k : Key) → Kept (find k items) (find k items')

lowered : Item → Item
lowered item = record item { usage_count = sub_one item.usage_count }

Kept-lowered : (o : Option Item) → Kept o (mapped lowered o)
unfolding lowered
Kept-lowered none = tt
Kept-lowered (some a) = (refl, refl)

ItemsKept-lower : (j : Key) (items : Items) → ItemsKept items (change j lowered items)
ItemsKept-lower j items k =
    rw (find-change k j lowered items)
      (elim (j =? k)
        as (λ b. Kept (find k items) (if b then mapped lowered (find k items) else find k items)) [
          | true ↦ Kept-lowered (find k items)
          | false ↦ Kept-refl (find k items)
        ])

Kept-gone : (o : Option Item) → may_go o ≡ true → Kept o none
Kept-gone none h = tt
Kept-gone (some a) h = h

ItemsKept-remove :
    (j : Key) (items : Items) → may_go (find j items) ≡ true → ItemsKept items (remove j items)
ItemsKept-remove j items h k = elim (Bool-cases (j =? k)) [
  | inl e ↦
      let same = (key_beq_iff j k).0 e in
      rw (find-remove k j items, e)
        (Kept-gone (find k items) (subst (λ i. may_go (find i items) ≡ true) same h))
  | inr e ↦ rw (find-remove k j items, e) (Kept-refl (find k items))
]

pub find_next_item-ItemsKept :
    (ks : List Key) (items : Items) → ItemsKept items (find_next_item ks items).1
unfolding find_next_item lowered
find_next_item-ItemsKept [] items k = Kept-refl (find k items)
find_next_item-ItemsKept (j ∷ ks) items k = elim (Option-cases (find j items)) [
  | inl e ↦ rw (find_next_item, e) (find_next_item-ItemsKept ks items k)
  | inr (item, e) ↦ elim (Bool-cases (check_destroyable item.lock)) [
    | inr f ↦ rw (find_next_item, e, f) (find_next_item-ItemsKept ks items k)
    | inl f ↦ elim (Bool-cases (is_positive (sub_one item.usage_count))) [
      | inr g ↦ rw (find_next_item, e, f, g) (ItemsKept-lower j items k)
      | inl g ↦
          rw (find_next_item, e, f, g)
            (Kept-trans _ _ _ (ItemsKept-lower j items k)
              (find_next_item-ItemsKept ks (change j lowered items) k))
    ]
  ]
]

module _ (env : Env) where
  pub peek-modify :
      (k j : Key) (f : Item → Item) (s : DirHash)
      → peek env k (modify env j f s) ≡ (if j =? k then mapped f (peek env k s) else peek env k s)
  unfolding peek modify
  peek-modify k j f s =
      update-elim
        (λ p. find k p.items ≡ (
          if j =? k
          then mapped f (find k (s.partitions (index env k)).items)
          else find k (s.partitions (index env k)).items))
        s.partitions (index env j) _ (index env k)
        (λ e. rw e (find-change k j f (s.partitions (index env k)).items))
        (λ ne. rw (=?_ne j k (λ p. ne (ap (index env) p))) refl)

  pub peek-new_entry :
      (k j : Key) (item : Item) (s : DirHash)
      → peek env k (new_entry env j item s) ≡ (if j =? k then some item else peek env k s)
  unfolding peek new_entry find
  peek-new_entry k j item s =
      update-elim
        (λ p.
          find k p.items
          ≡ (if j =? k then some item else find k (s.partitions (index env k)).items))
        s.partitions (index env j) _ (index env k) (λ e. rw e refl)
        (λ ne. rw (=?_ne j k (λ p. ne (ap (index env) p))) refl)

  rescan-ItemsKept :
      (fuel rounds : ℕ) (items : Items) → ItemsKept items (rescan env fuel rounds items).0
  unfolding rescan
  rescan-ItemsKept fuel zero items k = Kept-refl (find k items)
  rescan-ItemsKept fuel (suc rounds) items k =
      let r = find_next_item (env.scan_all items) items in
      let here : Kept (find k items) (find k r.1) =
        find_next_item-ItemsKept (env.scan_all items) items k in
      elim (Option-cases r.0) [
        | inr (j, e) ↦ rw (rescan, e) here
        | inl e ↦ elim (Bool-cases (r.2 == 0)) [
          | inl f ↦ rw (rescan, e, f) here
          | inr f ↦ rw (rescan, e, f) (Kept-trans _ _ _ here (rescan-ItemsKept fuel rounds r.1 k))
        ]
      ]

  choose-ItemsKept : (fuel : ℕ) (items : Items) → ItemsKept items (choose env fuel items).0
  unfolding choose
  choose-ItemsKept fuel items k =
      let r = find_next_item (env.scan_from_random items) items in
      let here : Kept (find k items) (find k r.1) =
        find_next_item-ItemsKept (env.scan_from_random items) items k in
      elim (Option-cases r.0) [
        | inr (j, e) ↦ rw (choose, e) here
        | inl e ↦ rw (choose, e) (Kept-trans _ _ _ here (rescan-ItemsKept fuel fuel r.1 k))
      ]

  eliminate_loop-ItemsKept :
      (fuel rounds : ℕ) (p : Partition)
      → ItemsKept p.items (eliminate_loop env fuel rounds p).0.items
  unfolding eliminate_loop
  eliminate_loop-ItemsKept fuel zero p k = Kept-refl (find k p.items)
  eliminate_loop-ItemsKept fuel (suc rounds) p k =
      let r = choose env fuel p.items in
      let here : Kept (find k p.items) (find k r.0) = choose-ItemsKept fuel p.items k in
      elim (Result-cases r.1) [
        | inr (x, e) ↦ rw (eliminate_loop, e) here
        | inl (o, e) ↦ elim (Option-cases o) [
          | inl f ↦ rw (eliminate_loop, e, f) here
          | inr (j, f) ↦ elim (Bool-cases (may_go (find j r.0))) [
            | inl g ↦
                rw (eliminate_loop, e, f, g) (Kept-trans _ _ _ here (ItemsKept-remove j r.0 g k))
            | inr g ↦
                rw (eliminate_loop, e, f, g)
                  (Kept-trans _ _ _ here
                    (eliminate_loop-ItemsKept fuel rounds (record p { items = r.0 }) k))
          ]
        ]
      ]

  eliminate-ItemsKept :
      (fuel : ℕ) (p : Partition) → ItemsKept p.items (eliminate env fuel p).0.items
  unfolding eliminate
  eliminate-ItemsKept fuel p k = elim (Bool-cases (leb p.entry_count clear_begin)) [
    | inl e ↦ rw e (Kept-refl (find k p.items))
    | inr e ↦ rw e (eliminate_loop-ItemsKept fuel fuel p k)
  ]

  -- An elimination, whatever becomes of it, leaves the number and the lock of every entry but those
  -- that it removes, to which no lock refers.
  pub eliminate-Kept :
      (fuel i : ℕ) (s : DirHash) (k : Key)
      → Kept (peek env k s) (peek env k (eliminate_dir_path_hash_by_lru env fuel i s).0)
  unfolding peek eliminate_dir_path_hash_by_lru
  eliminate-Kept fuel i s k =
      update-elim (λ p. Kept (find k (s.partitions (index env k)).items) (find k p.items))
        s.partitions i _ (index env k)
        (λ e. rw e (eliminate-ItemsKept fuel (s.partitions (index env k)) k))
        (λ ne. Kept-refl (peek env k s))
