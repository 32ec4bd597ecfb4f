-- ===== src/Shard/Routes.antt =====
-- Lookups after any calls of falcon/metadb/shard_table.c's operations.
use falconfs.Common.{
  OkAll-then, ℕ, zero, suc, ◌+◌, ◌%◌, ◌≤◌, ◌<◌, ◌≡◌, refl, sym, ap, subst, inl, inr, true, false,
  not, ◌&&◌, Option, none, some, List, [], ◌∷◌, arith, dec_le, leb, ◌==◌, Bool-cases, Option-cases,
  nat_eq, list_eq, length, Result, ok, err, guard,
}
use falconfs.Common.{OkAll, OkAll-bind}
use falconfs.Shard.{
  shard_table_data_within, shard_table_size_within, ShardRow, ShardTable, Error, update_loop,
  build_loop, update_shard_table, build_shard_table, insert_row, reload_scan, reload_within,
  refresh_within, invalidate, search_by_hash_within, exceeds_max, out_of_range, length_mismatch,
  range_point_of, server_at, shard_count_max, bad_shard_count, no_worker,
}
use falconfs.Shard.Rows.{Increasing, first_reaching, server_of, upsert-RowsFrom, insert_row-upsert}
use falconfs.Shard.Search.{search_cache-first_reaching}
use falconfs.Shard.Update.{update_loop-Increasing, reload_scan-fits, reload_scan-exceeds}

-- The table is in index order, and a valid cache holds it.
pub record WellFormed (t : ShardTable) : Type 0 where
  pub increasing : Increasing t.table
  pub coherent : t.invalid ≡ false → t.cache ≡ t.table

-- The calls that change the state: the SQL functions, the invalidation callback, and a lookup.
pub data Call : Type 0 where
  build : ℕ → List ℕ → Call
  update : List ℕ → List ℕ → Call
  drop_cache reload : Call
  lookup : ℕ → Call

-- An error rolls the table back.
abbrev unless_error : Result Error ShardTable → ShardTable → ShardTable
unless_error (ok t') t = t'
unless_error (err e) t = t

-- falcon_reload_shard_table_cache invalidates first; a lookup reloads an invalid cache.
unfoldable pub call : ℕ → Call → ShardTable → ShardTable
call limit (build count servers) t = unless_error (build_shard_table count servers t) t
call limit (update points servers) t = unless_error (update_shard_table points servers t) t
call limit drop_cache t = invalidate t
call limit reload t = (reload_within limit (invalidate t)).0
call limit (lookup hash) t = (reload_within limit t).0

unfoldable pub calls : ℕ → List Call → ShardTable → ShardTable
calls limit [] t = t
calls limit (c ∷ cs) t = calls limit cs (call limit c t)

insert_row-Increasing :
    (r : ShardRow) (rows : List ShardRow) → Increasing rows → OkAll Increasing (insert_row r rows)
insert_row-Increasing r rows h = elim (Option-cases (server_of r.range_point rows)) [
  | inl e ↦ rw (insert_row-upsert 0 r rows h, e) (upsert-RowsFrom 0 r rows (omega arith) h)
  | inr (s, e) ↦ rw (insert_row-upsert 0 r rows h, e) tt
]

build_loop-Increasing :
    (count : ℕ) (servers : List ℕ) (left i server_round : ℕ) (rows : List ShardRow)
    → Increasing rows
    → OkAll Increasing (build_loop count servers left i server_round rows)
unfolding build_loop
build_loop-Increasing count servers zero i server_round rows h = h
build_loop-Increasing count servers (suc left) i server_round rows h =
    OkAll-bind Increasing Increasing
      (insert_row
        (record {
          range_point = range_point_of count i;
          server_id = server_at servers server_round;
        })
        rows)
      (build_loop count servers left (i + 1) ((server_round + 1) % length servers))
      (insert_row-Increasing
        (record {
          range_point = range_point_of count i;
          server_id = server_at servers server_round;
        })
        rows h)
      (build_loop-Increasing count servers left (i + 1) ((server_round + 1) % length servers))

reload_within-fits :
    (limit : ℕ) (t : ShardTable)
    → t.invalid ≡ true
    → length t.table ≤ limit
    → reload_within limit t ≡ (record t { cache = t.table; invalid = false }, none)
unfolding reload_within
reload_within-fits limit t i le = rw (i, reload_scan-fits limit t.table le) refl

reload_within-exceeds :
    (limit : ℕ) (t : ShardTable)
    → t.invalid ≡ true
    → limit < length t.table
    → reload_within limit t
      ≡ (record t { cache = (reload_scan limit t.table).0; invalid = true }, some exceeds_max)
unfolding reload_within
reload_within-exceeds limit t i lt = rw (i, reload_scan-exceeds limit t.table lt) refl

reload_within-valid :
    (limit : ℕ) (t : ShardTable) → t.invalid ≡ false → reload_within limit t ≡ (t, none)
unfolding reload_within
reload_within-valid limit t v = ground (arith, v)

reload_within-WellFormed :
    (limit : ℕ) (t : ShardTable) → WellFormed t → WellFormed (reload_within limit t).0
unfolding reload_within
reload_within-WellFormed limit t w = elim (Bool-cases t.invalid) [
  | inl i ↦ elim (dec_le (length t.table) limit) [
    | yes le ↦
        subst (λ (p : ShardTable × Option Error). WellFormed p.0)
          (sym (reload_within-fits limit t i le))
          (record { increasing = w.increasing; coherent = λ _. refl })
    | no gt ↦
        subst (λ (p : ShardTable × Option Error). WellFormed p.0)
          (sym (reload_within-exceeds limit t i (omega arith)))
          (record { increasing = w.increasing; coherent = λ f. ground (arith, f) })
  ]
  | inr v ↦
      subst (λ (p : ShardTable × Option Error). WellFormed p.0)
        (sym (reload_within-valid limit t v)) w
]

WellFormed-unless_error :
    (m : Result Error ShardTable) (t : ShardTable)
    → OkAll WellFormed m
    → WellFormed t
    → WellFormed (unless_error m t)
WellFormed-unless_error (ok t') t h w = h
WellFormed-unless_error (err e) t h w = w

WellFormed-invalidate :
    (t : ShardTable) (rows : List ShardRow)
    → Increasing rows
    → WellFormed (invalidate (record t { table = rows }))
unfolding invalidate
WellFormed-invalidate t rows h = record { increasing = h; coherent = λ f. ground (arith, f) }

build_shard_table-WellFormed :
    (count : ℕ) (servers : List ℕ) (t : ShardTable)
    → WellFormed t
    → OkAll WellFormed (build_shard_table count servers t)
unfolding build_shard_table
build_shard_table-WellFormed count servers t w =
    OkAll-then WellFormed (guard (not (count == 0) && leb count shard_count_max) bad_shard_count) _
      (OkAll-then WellFormed (guard (not (length servers == 0)) no_worker) _ (
        OkAll-bind Increasing WellFormed (build_loop count servers count 0 0 t.table)
          (λ rows. ok (invalidate (record t { table = rows })))
          (build_loop-Increasing count servers count 0 0 t.table w.increasing)
          (WellFormed-invalidate t)))

update_shard_table-WellFormed :
    (points servers : List ℕ) (t : ShardTable)
    → WellFormed t
    → OkAll WellFormed (update_shard_table points servers t)
unfolding update_shard_table
update_shard_table-WellFormed points servers t w =
    OkAll-then WellFormed (guard (length points == length servers) length_mismatch) _ (
      WellFormed-invalidate t (update_loop points servers t.table)
        (update_loop-Increasing points servers t.table w.increasing))

call-WellFormed :
    (limit : ℕ) (c : Call) (t : ShardTable) → WellFormed t → WellFormed (call limit c t)
unfolding call
call-WellFormed limit (build count servers) t w =
    WellFormed-unless_error (build_shard_table count servers t) t
      (build_shard_table-WellFormed count servers t w) w
call-WellFormed limit (update points servers) t w =
    WellFormed-unless_error (update_shard_table points servers t) t
      (update_shard_table-WellFormed points servers t w) w
call-WellFormed limit drop_cache t w = WellFormed-invalidate t t.table w.increasing
call-WellFormed limit reload t w =
    reload_within-WellFormed limit (invalidate t) (WellFormed-invalidate t t.table w.increasing)
call-WellFormed limit (lookup hash) t w = reload_within-WellFormed limit t w

-- Whatever calls of falcon_build_shard_table, falcon_update_shard_table, the invalidation, the
-- reload and the lookup were made, failed ones included, from a well-formed state, the table is in
-- strictly increasing order of its range points and a valid cache is a copy of it.
pub calls-WellFormed :
    (limit : ℕ) (cs : List Call) (t : ShardTable) → WellFormed t → WellFormed (calls limit cs t)
unfolding calls
calls-WellFormed limit [] t w = w
calls-WellFormed limit (c ∷ cs) t w =
    calls-WellFormed limit cs (call limit c t) (call-WellFormed limit c t w)

refresh_within-fits :
    (limit : ℕ) (t : ShardTable)
    → WellFormed t
    → length t.table ≤ limit
    → refresh_within limit t ≡ ok (record t { cache = t.table; invalid = false })
unfolding refresh_within
refresh_within-fits limit t w le = elim (Bool-cases t.invalid) [
  | inl i ↦ ground (arith, i, reload_within-fits limit t i le)
  | inr v ↦ rw v (
      ap (λ (c : List ShardRow). ok (record { table = t.table; cache = c; invalid = false }))
        (w.coherent v))
]

-- In a well-formed state with a table within the cache's limit, SearchShardInfoByHashValue, by
-- binary search in the cache, reloaded if it is invalid, answers the first row of the table whose
-- range point reaches the hash value, and the error out of range if no row does.
pub search_by_hash_within-first_reaching :
    (limit hash : ℕ) (t : ShardTable)
    → WellFormed t
    → length t.table ≤ limit
    → search_by_hash_within limit hash t ≡ elim (first_reaching hash t.table) [
      | none ↦ err out_of_range
      | some r ↦ ok (r, record t { cache = t.table; invalid = false })
    ]
unfolding search_by_hash_within
search_by_hash_within-first_reaching limit hash t w le =
    ground (
      arith,
      refresh_within-fits limit t w le,
      search_cache-first_reaching hash t.table w.increasing,
    )

-- In a well-formed state with a table within the cache's limit, GetShardTableData answers the table
-- and GetShardTableSize its length, and both leave the cache valid.
pub shard_table_data_within-table :
    (limit : ℕ) (t : ShardTable)
    → WellFormed t
    → length t.table ≤ limit
    → (shard_table_data_within limit t
        ≡ ok (t.table, record t { cache = t.table; invalid = false }))
      × (shard_table_size_within limit t
          ≡ ok (length t.table, record t { cache = t.table; invalid = false }))
unfolding shard_table_data_within shard_table_size_within
shard_table_data_within-table limit t w le = (
  ground (arith, refresh_within-fits limit t w le),
  ground (arith, refresh_within-fits limit t w le),
)
