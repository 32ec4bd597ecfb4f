-- ===== src/Shard/Search.antt =====
-- The binary search of SearchShardInfoByHashValue, falcon/metadb/shard_table.c.
use falconfs.Common.{
  ℕ, zero, suc, ◌+◌, ◌/◌, ◌≤◌, ◌<◌, ◌≡◌, refl, ap, ◌∙◌, none, some, List, [], ◌∷◌, arith, ltb,
  if◌then◌else◌, length, get_elem?, ok, err,
}
use falconfs.Shard.{out_of_range, ShardRow, point_at, search_loop, row_found, search_cache}
use falconfs.Shard.Rows.{RowsFrom, Increasing, first_reaching}

-- How many rows end below `hash`.
unfoldable count_below : ℕ → List ShardRow → ℕ
count_below hash [] = 0
count_below hash (r ∷ rs) = if ltb r.range_point hash then suc (count_below hash rs) else 0

count_below-le : (hash : ℕ) (rows : List ShardRow) → count_below hash rows ≤ length rows
unfolding count_below
count_below-le hash [] = omega arith
count_below-le hash (r ∷ rs) = ground (arith, count_below-le hash rs)

get_elem?-count_below :
    (hash : ℕ) (rows : List ShardRow)
    → get_elem? rows (count_below hash rows) ≡ first_reaching hash rows
unfolding count_below first_reaching
get_elem?-count_below hash [] = refl
get_elem?-count_below hash (r ∷ rs) = ground (arith, get_elem?-count_below hash rs)

point_at-above :
    (low : ℕ) (rows : List ShardRow) (i : ℕ)
    → RowsFrom low rows
    → i < length rows
    → low ≤ point_at rows i
point_at-above low [] i h lt = omega arith
point_at-above low (r ∷ rs) zero (h, hs) lt = h
point_at-above low (r ∷ rs) (suc i) (h, hs) lt =
    omega (arith, point_at-above (r.range_point + 1) rs i hs (omega arith))

point_at-below :
    (low hash : ℕ) (rows : List ShardRow) (i : ℕ)
    → RowsFrom low rows
    → i < length rows
    → ltb (point_at rows i) hash ≡ ltb i (count_below hash rows)
unfolding count_below
point_at-below low hash [] i h lt = ground arith
point_at-below low hash (r ∷ rs) zero (h, hs) lt = ground arith
point_at-below low hash (r ∷ rs) (suc i) (h, hs) lt = ground (
  arith,
  point_at-below (r.range_point + 1) hash rs i hs (omega arith),
  point_at-above (r.range_point + 1) rs i hs (omega arith),
)

search_loop_lem :
    (fuel : ℕ) (rows : List ShardRow) (hash l r : ℕ)
    → Increasing rows
    → l ≤ count_below hash rows
    → count_below hash rows ≤ r
    → r ≤ length rows
    → r ≤ l + fuel
    → search_loop fuel rows hash l r ≡ some (count_below hash rows)
unfolding search_loop
search_loop_lem zero rows hash l r inc lo hi le f = ground arith
search_loop_lem (suc fuel) rows hash l r inc lo hi le f = ground (
  arith,
  point_at-below 0 hash rows ((l + r) / 2) inc,
  search_loop_lem fuel rows hash ((l + r) / 2 + 1) r inc,
  search_loop_lem fuel rows hash l ((l + r) / 2) inc,
)

pub search_cache-first_reaching :
    (hash : ℕ) (rows : List ShardRow)
    → Increasing rows
    → search_cache hash rows
      ≡ elim (first_reaching hash rows) [ none ↦ err out_of_range | some r ↦ ok r ]
unfolding search_cache
search_cache-first_reaching hash rows inc =
    ap (row_found rows) (
      search_loop_lem (length rows) rows hash 0 (length rows) inc (omega arith)
        (count_below-le hash rows) (omega arith) (omega arith))
    ∙ ap (λ o. elim o [ none ↦ err out_of_range | some r ↦ ok r ]) (get_elem?-count_below hash rows)
