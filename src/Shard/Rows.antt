-- ===== src/Shard/Rows.antt =====
-- Rows in index order, for falcon/metadb/shard_table.c.
use falconfs.Common.{
  ℕ, ◌+◌, ◌≤◌, ◌<◌, ◌≡◌, refl, Option, none, some, List, [], ◌∷◌, arith, ltb, ◌==◌, if◌then◌else◌,
  ok, err,
}
use falconfs.Shard.{duplicate_range_point, ShardRow, insert_row, upsert}

-- Rows whose range points are at least `low` and strictly increasing.
abbrev pub RowsFrom : ℕ → List ShardRow → Type 0
RowsFrom low [] = Unit
RowsFrom low (r ∷ rs) = (low ≤ r.range_point) × RowsFrom (r.range_point + 1) rs

abbrev pub Increasing : List ShardRow → Type 0
Increasing rows = RowsFrom 0 rows

-- The row of the shard that `hash` belongs to: the first one whose range reaches it.
unfoldable pub first_reaching : ℕ → List ShardRow → Option ShardRow
first_reaching hash [] = none
first_reaching hash (r ∷ rs) = if ltb r.range_point hash then first_reaching hash rs else some r

-- The server of the row with exactly this range point.
unfoldable pub server_of : ℕ → List ShardRow → Option ℕ
server_of p [] = none
server_of p (r ∷ rs) = if r.range_point == p then some r.server_id else server_of p rs

pub first_reaching-skip :
    (hash : ℕ) (r : ShardRow) (rs : List ShardRow)
    → r.range_point < hash
    → first_reaching hash (r ∷ rs) ≡ first_reaching hash rs
unfolding first_reaching
first_reaching-skip hash r rs lt = ground arith

pub first_reaching-stop :
    (hash : ℕ) (r : ShardRow) (rs : List ShardRow)
    → hash ≤ r.range_point
    → first_reaching hash (r ∷ rs) ≡ some r
unfolding first_reaching
first_reaching-stop hash r rs le = ground arith

pub RowsFrom-weaken :
    (low low' : ℕ) (rows : List ShardRow) → low' ≤ low → RowsFrom low rows → RowsFrom low' rows
RowsFrom-weaken low low' [] le h = tt
RowsFrom-weaken low low' (r ∷ rs) le (h, hs) = (omega arith, hs)

pub server_of-below :
    (low p : ℕ) (rows : List ShardRow) → p < low → RowsFrom low rows → server_of p rows ≡ none
unfolding server_of
server_of-below low p [] lt h = refl
server_of-below low p (r ∷ rs) lt (h, hs) =
    ground (arith, server_of-below (r.range_point + 1) p rs (omega arith) hs)

pub upsert-RowsFrom :
    (low : ℕ) (r : ShardRow) (rows : List ShardRow)
    → low ≤ r.range_point
    → RowsFrom low rows
    → RowsFrom low (upsert r rows)
unfolding upsert
upsert-RowsFrom low r [] le h = (le, tt)
upsert-RowsFrom low r (x ∷ xs) le (h, hs) = ground (arith, upsert-RowsFrom (x.range_point + 1) r xs)

pub server_of-upsert :
    (low p : ℕ) (r : ShardRow) (rows : List ShardRow)
    → RowsFrom low rows
    → server_of p (upsert r rows)
      ≡ (if r.range_point == p then some r.server_id else server_of p rows)
unfolding upsert server_of
server_of-upsert low p r [] h = refl
server_of-upsert low p r (x ∷ xs) (h, hs) =
    ground (arith, server_of-upsert (x.range_point + 1) p r xs hs)

-- An insertion under the index is refused for a range point that the table has, and is an upsert
-- otherwise.
pub insert_row-upsert :
    (low : ℕ) (r : ShardRow) (rows : List ShardRow)
    → RowsFrom low rows
    → insert_row r rows ≡ elim (server_of r.range_point rows) [
      | none ↦ ok (upsert r rows)
      | some s ↦ err duplicate_range_point
    ]
unfolding upsert server_of insert_row
insert_row-upsert low r [] h = refl
insert_row-upsert low r (x ∷ xs) (h, hs) = ground (
  arith,
  insert_row-upsert (x.range_point + 1) r xs hs,
  server_of-below (x.range_point + 1) r.range_point xs,
)
