-- ===== src/DirTable.antt =====
-- falcon/metadb/directory_table.c: the rows of falcon_directory_table as the current transaction
-- sees them, under the unique index on (parent_id, name).
use falconfs.Common.{
  ℕ, ◌≡◌, ◌↔◌, Bool, true, ◌&&◌, none, some, List, ◌∷◌, arith, ◌==◌, if◌then◌else◌, ==_iff, Eq,
  ◌=?◌, nat_eq, list_eq, find, remove, find-remove, Result, ok, err,
}
use falconfs.PathParse.{Name, not_exist}

-- DirPathHashKey, by which the table and its cache are searched.
abbrev pub Key : Type 0
Key = ℕ × Name

abbrev pub key_beq : Key → Key → Bool
key_beq (i, n) (j, m) = i == j && n =? m

name_iff : (a b : Name) → ((a =? b) ≡ true) ↔ (a ≡ b)
name_iff a b = list_eq.beq_iff a b

pub key_beq_iff : (k l : Key) → (key_beq k l ≡ true) ↔ (k ≡ l)
key_beq_iff (i, n) (j, m) = ground (arith, ==_iff i j, name_iff n m)

instance abbrev pub key_eq : Eq Key
key_eq = record { beq = key_beq; beq_iff = key_beq_iff }

abbrev pub DirectoryTable : Type 0
DirectoryTable = List (Key × ℕ)

pub data TableError : Type 0 where
  duplicate_key can_not_find : TableError

unfoldable pub search_directory_table_info : Key → DirectoryTable → ℕ
search_directory_table_info k rows = elim (find k rows) [ none ↦ not_exist | some id ↦ id ]

-- PostgreSQL's index refuses a second row under the key.
unfoldable pub insert_into_directory_table :
    Key → ℕ → DirectoryTable → Result TableError DirectoryTable
insert_into_directory_table k id rows = elim (find k rows) [
  | none ↦ ok ((k, id) ∷ rows)
  | some other ↦ err duplicate_key
]

unfoldable pub delete_from_directory_table : Key → DirectoryTable → Result TableError DirectoryTable
delete_from_directory_table k rows = elim (find k rows) [
  | none ↦ err can_not_find
  | some id ↦ ok (remove k rows)
]

abbrev pub updated : Key → ℕ → (Key → ℕ) → Key → ℕ
updated k id numbers j = if k =? j then id else numbers j

pub search-insert :
    (k j : Key) (id : ℕ) (rows : DirectoryTable) {rows' : DirectoryTable}
    → insert_into_directory_table k id rows ≡ ok rows'
    → search_directory_table_info j rows' ≡ updated k id (λ i. search_directory_table_info i rows) j
unfolding search_directory_table_info insert_into_directory_table find
search-insert k j id rows h = ground (arith, h)

pub search-delete :
    (k j : Key) (rows : DirectoryTable) {rows' : DirectoryTable}
    → delete_from_directory_table k rows ≡ ok rows'
    → search_directory_table_info j rows'
      ≡ updated k not_exist (λ i. search_directory_table_info i rows) j
unfolding search_directory_table_info delete_from_directory_table
search-delete k j rows h = ground (arith, h, find-remove j k rows)
