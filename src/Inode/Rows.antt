-- ===== src/Inode/Rows.antt =====
-- The rows of an inode table and its unique index, for falcon/metadb/meta_handle_helper.c.
use falconfs.Common.{
  ℕ, ◌≡◌, refl, sym, ap, ap₂, subst, ◌∙◌, ◌↔◌, inl, inr, Bool, true, false, Option, none, some,
  List, [], ◌∷◌, arith, if◌then◌else◌, ==_iff, Bool-cases, ◌=?◌, nat_eq, list_eq,
}
use falconfs.Inode.{InodeRow, is_row, find_row, delete_row, replace_row}

-- No two rows have one key and name.
abbrev pub Unique : List InodeRow → Type 0
Unique [] = Unit
Unique (r ∷ rs) = (find_row r.parentid_partid r.name rs ≡ none) × Unique rs

-- Another key or another name.
abbrev pub Other : ℕ → List ℕ → ℕ → List ℕ → Type 0
Other key name key' name' = key ≡ key' → name ≡ name' → ⊥

name_iff : (a b : List ℕ) → ((a =? b) ≡ true) ↔ (a ≡ b)
name_iff a b = list_eq.beq_iff a b

pub is_row-key :
    (key : ℕ) (name : List ℕ) (r : InodeRow)
    → is_row key name r ≡ true
    → (r.parentid_partid ≡ key) × (r.name ≡ name)
is_row-key key name r h = ground (arith, ==_iff r.parentid_partid key, name_iff r.name name)

is_row-Other :
    (key : ℕ) (name : List ℕ) (key' : ℕ) (name' : List ℕ) (r : InodeRow)
    → Other key name key' name'
    → is_row key name r ≡ true
    → is_row key' name' r ≡ false
is_row-Other key name key' name' r o h = elim (Bool-cases (is_row key' name' r)) [
  | inr f ↦ f
  | inl t ↦
      let (k, n) = is_row-key key name r h in
      let (k', n') = is_row-key key' name' r t in absurd (o (sym k ∙ k') (sym n ∙ n'))
]

pub find_row-is_row :
    (key : ℕ) (name : List ℕ) (rows : List InodeRow) (r : InodeRow)
    → find_row key name rows ≡ some r
    → is_row key name r ≡ true
unfolding find_row
find_row-is_row key name [] r e = ground (arith, e)
find_row-is_row key name (x ∷ xs) r e = elim (Bool-cases (is_row key name x)) [
  | inl h ↦
      subst (λ (z : InodeRow). is_row key name z ≡ true)
        (ap (λ (o : Option InodeRow). elim o [ none ↦ x | some y ↦ y ])
          (ap (λ (b : Bool). if b then some x else find_row key name xs) (sym h) ∙ e))
        h
  | inr h ↦
      find_row-is_row key name xs r
        (ap (λ (b : Bool). if b then some x else find_row key name xs) (sym h) ∙ e)
]

pub find_row-delete_row :
    (key : ℕ) (name : List ℕ) (rows : List InodeRow)
    → Unique rows
    → find_row key name (delete_row key name rows) ≡ none
unfolding find_row delete_row
find_row-delete_row key name [] u = refl
find_row-delete_row key name (x ∷ xs) (u, us) = elim (Bool-cases (is_row key name x)) [
  | inl h ↦
      let (k, n) = is_row-key key name x h in
      rw h (ap₂ (λ (i : ℕ) (m : List ℕ). find_row i m xs) (sym k) (sym n) ∙ u)
  | inr h ↦ rw (h, h) (find_row-delete_row key name xs us)
]

pub find_row-delete-Other :
    (key : ℕ) (name : List ℕ) (key' : ℕ) (name' : List ℕ) (rows : List InodeRow)
    → Other key name key' name'
    → find_row key' name' (delete_row key name rows) ≡ find_row key' name' rows
unfolding find_row delete_row
find_row-delete-Other key name key' name' [] o = refl
find_row-delete-Other key name key' name' (x ∷ xs) o = elim (Bool-cases (is_row key name x)) [
  | inl h ↦ ground (arith, h, is_row-Other key name key' name' x o h)
  | inr h ↦ ground (arith, h, find_row-delete-Other key name key' name' xs o)
]

pub find_row-replace_row :
    (key : ℕ) (name : List ℕ) (new r : InodeRow) (rows : List InodeRow)
    → is_row key name new ≡ true
    → find_row key name rows ≡ some r
    → find_row key name (replace_row key name new rows) ≡ some new
unfolding find_row replace_row
find_row-replace_row key name new r [] i e = ground (arith, e)
find_row-replace_row key name new r (x ∷ xs) i e = elim (Bool-cases (is_row key name x)) [
  | inl h ↦ ground (arith, h, i)
  | inr h ↦ ground (arith, h, e, find_row-replace_row key name new r xs i)
]

pub find_row-replace-Other :
    (key : ℕ) (name : List ℕ) (key' : ℕ) (name' : List ℕ) (new : InodeRow) (rows : List InodeRow)
    → Other key name key' name'
    → is_row key name new ≡ true
    → find_row key' name' (replace_row key name new rows) ≡ find_row key' name' rows
unfolding find_row replace_row
find_row-replace-Other key name key' name' new [] o i = refl
find_row-replace-Other key name key' name' new (x ∷ xs) o i =
    elim (Bool-cases (is_row key name x)) [
      | inl h ↦ ground (
        arith,
        h,
        is_row-Other key name key' name' x o h,
        is_row-Other key name key' name' new o i,
      )
      | inr h ↦ ground (arith, h, find_row-replace-Other key name key' name' new xs o i)
    ]
