-- ===== src/Shard/Build.antt =====
-- falcon_build_shard_table of falcon/metadb/shard_table.c on an empty table.
use falconfs.Common.{
  ℕ, zero, suc, ◌+◌, ◌*◌, ◌/◌, ◌%◌, ◌≤◌, ◌<◌, ◌≡◌, ◌≢◌, refl, sym, ap, ◌∙◌, some, List, [], ◌∷◌,
  ◌++◌, arith, dec_lt, length, ok, ◌>>=◌,
}
use falconfs.Shard.{
  ShardRow, ShardTable, range_max, range_point_of, server_at, build_loop, build_shard_table,
  insert_row, invalidate, shard_count_max,
}
use falconfs.Shard.Rows.{
  RowsFrom, Increasing, first_reaching, first_reaching-skip, first_reaching-stop,
}
use mathlib.Core.List.{append-nil, append_assoc}
use native.Mathlib.Nat.{
  le-div_iff_mul-le, div-lt_iff_lt-mul, div-mul-le_self, mod-add-mod, zero-mod,
}

-- The row of shard `i`: the servers take turns.
unfoldable pub planned_row : ℕ → List ℕ → ℕ → ShardRow
planned_row count servers i = record {
  range_point = range_point_of count i;
  server_id = server_at servers (i % length servers);
}

-- The rows of `left` shards from shard `i` on.
unfoldable pub planned_rows : ℕ → List ℕ → ℕ → ℕ → List ShardRow
planned_rows count servers zero i = []
planned_rows count servers (suc left) i =
    planned_row count servers i ∷ planned_rows count servers left (i + 1)

abbrev RowsBelow : ℕ → List ShardRow → Type 0
RowsBelow p [] = Unit
RowsBelow p (r ∷ rs) = (r.range_point < p) × RowsBelow p rs

RowsBelow-append :
    (p q : ℕ) (r : ShardRow) (rows : List ShardRow)
    → RowsBelow p rows
    → p < q
    → r.range_point < q
    → RowsBelow q (rows ++ r ∷ [])
RowsBelow-append p q r [] h lt lt' = (lt', tt)
RowsBelow-append p q r (x ∷ xs) (h, hs) lt lt' = (omega arith, RowsBelow-append p q r xs hs lt lt')

insert_row-last :
    (r : ShardRow) (rows : List ShardRow)
    → RowsBelow r.range_point rows
    → insert_row r rows ≡ ok (rows ++ r ∷ [])
unfolding insert_row
insert_row-last r [] h = refl
insert_row-last r (x ∷ xs) (h, hs) = ground (arith, insert_row-last r xs hs)

div-step : (a n : ℕ) → 0 < n → n ≤ range_max → a / n + 1 ≤ (a + range_max) / n
div-step a n pos le = (le-div_iff_mul-le pos).1 (omega (arith, div-mul-le_self a n))

last_lt : (n k : ℕ) → k < n → range_max * k / n < range_max
last_lt n k lt = (div-lt_iff_lt-mul (omega arith)).1 (omega arith)

range_point_of-increasing :
    (count i : ℕ)
    → count ≤ shard_count_max
    → i + 1 < count
    → range_point_of count i < range_point_of count (i + 1)
unfolding range_point_of
range_point_of-increasing count i le lt =
    ground (
      arith,
      div-step (range_max * (i + 1)) count (omega arith) (omega arith),
      last_lt count (i + 1),
    )

range_point_of-last : (count i : ℕ) → i + 1 ≡ count → range_point_of count i ≡ range_max
unfolding range_point_of
range_point_of-last count i e = ground arith

-- The loop appends the rows still planned.
build_loop-planned_rows :
    (count : ℕ) (servers : List ℕ) (left i : ℕ) (rows : List ShardRow)
    → count ≤ shard_count_max
    → i + left ≡ count
    → ((0 < left) → RowsBelow (range_point_of count i) rows)
    → build_loop count servers left i (i % length servers) rows
      ≡ ok (rows ++ planned_rows count servers left i)
unfolding build_loop planned_rows planned_row
build_loop-planned_rows count servers zero i rows le e below = ap ok (sym (append-nil rows))
build_loop-planned_rows count servers (suc left) i rows le e below =
    ap
      (λ o. o >>= λ rows'.
        build_loop count servers left (i + 1) ((i % length servers + 1) % length servers) rows')
      (insert_row-last (planned_row count servers i) rows (below (omega arith)))
    ∙ ap
        (λ (t : ℕ).
          build_loop count servers left (i + 1) t (rows ++ planned_row count servers i ∷ []))
        (mod-add-mod i (length servers) 1)
    ∙ build_loop-planned_rows count servers left (i + 1) (rows ++ planned_row count servers i ∷ [])
        le (omega arith)
        (λ q.
          RowsBelow-append (range_point_of count i) (range_point_of count (i + 1))
            (planned_row count servers i) rows (below (omega arith))
            (range_point_of-increasing count i le (omega arith))
            (range_point_of-increasing count i le (omega arith)))
    ∙ ap ok (
        append_assoc rows (planned_row count servers i ∷ [])
          (planned_rows count servers left (i + 1)))

planned_rows-RowsFrom :
    (count : ℕ) (servers : List ℕ) (left i low : ℕ)
    → count ≤ shard_count_max
    → i + left ≡ count
    → ((0 < left) → low ≤ range_point_of count i)
    → RowsFrom low (planned_rows count servers left i)
unfolding planned_rows planned_row
planned_rows-RowsFrom count servers zero i low le e h = tt
planned_rows-RowsFrom count servers (suc left) i low le e h = (
  h (omega arith),
  planned_rows-RowsFrom count servers left (i + 1) (range_point_of count i + 1) le (omega arith)
      (λ q. omega (arith, range_point_of-increasing count i le (omega arith))),
)

planned_rows-reach :
    (count : ℕ) (servers : List ℕ) (left i hash : ℕ)
    → i + suc left ≡ count
    → hash ≤ range_max
    → (k : ℕ) × (k < count)
      × (first_reaching hash (planned_rows count servers (suc left) i)
          ≡ some (planned_row count servers k))
unfolding planned_rows planned_row
planned_rows-reach count servers zero i hash e le = (
  i,
  omega arith,
  first_reaching-stop hash (planned_row count servers i) []
      (omega (arith, range_point_of-last count i (omega arith))),
)
planned_rows-reach count servers (suc left) i hash e le =
    elim (dec_lt (range_point_of count i) hash) [
      | yes h ↦
          let (k, lt, q) = planned_rows-reach count servers left (i + 1) hash (omega arith) le in
          (
            k,
            lt,
            first_reaching-skip hash (planned_row count servers i)
                  (planned_rows count servers (suc left) (i + 1)) h
                ∙ q,
          )
      | no h ↦ (
        i,
        omega arith,
        first_reaching-stop hash (planned_row count servers i)
            (planned_rows count servers (suc left) (i + 1)) (omega arith),
      )
    ]

built :
    (c s : ℕ) (ss : List ℕ) (t : ShardTable)
    → t.table ≡ []
    → suc c ≤ shard_count_max
    → build_shard_table (suc c) (s ∷ ss) t
      ≡ ok (invalidate (record t { table = planned_rows (suc c) (s ∷ ss) (suc c) 0 }))
unfolding build_shard_table
built c s ss t e le = ground (
  arith,
  e,
  build_loop-planned_rows (suc c) (s ∷ ss) (suc c) 0 [] le (omega arith) (λ q. tt),
  zero-mod (length (s ∷ ss)),
)

-- On an empty table with a server, building `count` shards succeeds for 0 < count ≤
-- SHARD_COUNT_MAX: the table holds the planned rows, shard i with the server i % length servers, in
-- strictly increasing order of their range points, the cache is invalid, and every hash value up to
-- SHARD_TABLE_RANGE_MAX belongs to one of the rows.
pub build_shard_table-planned :
    (count : ℕ) (servers : List ℕ) (t : ShardTable)
    → t.table ≡ []
    → 0 < count
    → count ≤ shard_count_max
    → servers ≢ []
    → (build_shard_table count servers t
        ≡ ok (invalidate (record t { table = planned_rows count servers count 0 })))
      × (Increasing (planned_rows count servers count 0))
      × ((hash : ℕ)
          → hash ≤ range_max
          → (k : ℕ) × (k < count)
            × (first_reaching hash (planned_rows count servers count 0)
                ≡ some (planned_row count servers k)))
build_shard_table-planned zero servers t e pos le ne = ground arith
build_shard_table-planned (suc c) [] t e pos le ne = ground arith
build_shard_table-planned (suc c) (s ∷ ss) t e pos le ne = (
  built c s ss t e le,
  planned_rows-RowsFrom (suc c) (s ∷ ss) (suc c) 0 0 le (omega arith) (λ q. omega arith),
  λ hash h. planned_rows-reach (suc c) (s ∷ ss) c 0 hash (omega arith) h,
)
