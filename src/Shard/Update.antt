-- ===== src/Shard/Update.antt =====
-- falcon_update_shard_table, and the cache after a reload, of falcon/metadb/shard_table.c.
use falconfs.Common.{
  ℕ, zero, suc, ◌≤◌, ◌<◌, ◌≡◌, refl, ap, true, false, Option, none, some, List, [], ◌∷◌, arith,
  ◌==◌, if◌then◌else◌, length, ok,
}
use falconfs.Shard.{
  ShardRow, ShardTable, update_loop, update_shard_table, upsert, reload_scan, invalidate,
}
use falconfs.Shard.Rows.{Increasing, server_of, upsert-RowsFrom, server_of-upsert}

-- The server that the last entry for `p` of the two argument arrays names.
unfoldable pub last_change : ℕ → List ℕ → List ℕ → Option ℕ
last_change p [] servers = none
last_change p (x ∷ xs) [] = none
last_change p (x ∷ xs) (s ∷ ss) = elim (last_change p xs ss) [
  | none ↦ if x == p then some s else none
  | some s' ↦ some s'
]

abbrev pub changed : Option ℕ → Option ℕ → Option ℕ
changed none old = old
changed (some s) old = some s

pub update_loop-Increasing :
    (points servers : List ℕ) (rows : List ShardRow)
    → Increasing rows
    → Increasing (update_loop points servers rows)
unfolding update_loop
update_loop-Increasing [] servers rows h = h
update_loop-Increasing (p ∷ ps) [] rows h = h
update_loop-Increasing (p ∷ ps) (s ∷ ss) rows h =
    update_loop-Increasing ps ss (upsert (record { range_point = p; server_id = s }) rows)
      (upsert-RowsFrom 0 (record { range_point = p; server_id = s }) rows (omega arith) h)

update_loop-server_of :
    (points servers : List ℕ) (rows : List ShardRow) (p : ℕ)
    → Increasing rows
    → server_of p (update_loop points servers rows)
      ≡ changed (last_change p points servers) (server_of p rows)
unfolding update_loop last_change
update_loop-server_of [] servers rows p h = refl
update_loop-server_of (x ∷ xs) [] rows p h = refl
update_loop-server_of (x ∷ xs) (s ∷ ss) rows p h = ground (
  arith,
  update_loop-server_of xs ss (upsert (record { range_point = x; server_id = s }) rows) p
      (upsert-RowsFrom 0 (record { range_point = x; server_id = s }) rows (omega arith) h),
  server_of-upsert 0 p (record { range_point = x; server_id = s }) rows h,
)

-- For arrays of one length and a table in index order, falcon_update_shard_table succeeds, keeps the
-- order, makes the cache invalid, and leaves at each range point the server of the last change that
-- names it, or the old row where none does.
pub update_shard_table-last_change :
    (points servers : List ℕ) (t : ShardTable)
    → length points ≡ length servers
    → Increasing t.table
    → (t' : ShardTable) × (update_shard_table points servers t ≡ ok t')
      × (Increasing t'.table)
      × (t'.invalid ≡ true)
      × (t'.cache ≡ t.cache)
      × ((p : ℕ)
          → server_of p t'.table ≡ changed (last_change p points servers) (server_of p t.table))
unfolding update_shard_table invalidate
update_shard_table-last_change points servers t e inc = (
  invalidate (record t { table = update_loop points servers t.table }),
  ground arith,
  update_loop-Increasing points servers t.table inc,
  refl,
  refl,
  λ p. update_loop-server_of points servers t.table p inc,
)

pub reload_scan-fits :
    (limit : ℕ) (rows : List ShardRow)
    → length rows ≤ limit
    → reload_scan limit rows ≡ (rows, false)
unfolding reload_scan
reload_scan-fits limit [] le = refl
reload_scan-fits zero (x ∷ xs) le = ground arith
reload_scan-fits (suc limit) (x ∷ xs) le =
    ap (λ q. let (copied, exceed) = q in (x ∷ copied, exceed))
      (reload_scan-fits limit xs (omega arith))

pub reload_scan-exceeds :
    (limit : ℕ) (rows : List ShardRow) → limit < length rows → (reload_scan limit rows).1 ≡ true
unfolding reload_scan
reload_scan-exceeds limit [] lt = ground arith
reload_scan-exceeds zero (x ∷ xs) lt = refl
reload_scan-exceeds (suc limit) (x ∷ xs) lt = reload_scan-exceeds limit xs (omega arith)
