-- ===== src/Shard.antt =====
-- falcon/metadb/shard_table.c: the table that sends each hash value to a metadata server, its
-- shared cache, and the lookup. Range points and hash values are non-negative int32 values. The
-- list of servers comes from the foreign server table; PostgreSQL's table and its unique index
-- on range_point are a list in index order.
pub mod Rows
pub mod Search
pub mod Build
pub mod Update
pub mod Routes
pub mod Clients
mod Tests
use falconfs.Common.{
  ℕ, zero, suc, ◌+◌, ◌-◌, ◌*◌, ◌/◌, ◌%◌, ◌^◌, ◌≤◌, ◌<◌, ◌≡◌, ◌≢◌, refl, sym, ap, ap₂, subst, ◌∙◌,
  fun_ext, ◌↔◌, ◌⊎◌, inl, inr, Bool, true, false, not, ◌&&◌, ◌||◌, Option, none, some, List, [],
  ◌∷◌, ◌++◌, map, arith, dec_lt, dec_le, ℕ_discrete, ltb, leb, ◌==◌, if◌then◌else◌, ltb→lt, lt→ltb,
  leb→le, ==_iff, ==_refl, ==_ne, Bool-cases, Option-cases, Eq, ◌=?◌, nat_eq, list_eq, =?_ne,
  =?_refl, length, get_elem?, length-append, get_elem?-append_last, All, Result, ok, err, ◌>>=◌,
  ◌>>◌, guard, u32, u64, low_bits, bit_and, bit_or, bit_xor,
}

abbrev pub shard_count_max : ℕ
shard_count_max = 100000000

abbrev pub range_min : ℕ
range_min = 0

abbrev pub range_max : ℕ
range_max = 2 ^ 31 - 1

pub record ShardRow : Type 0 where
  pub range_point : ℕ
  pub server_id : ℕ

-- The table in the order of its index, the shared cache, and ShardTableShmemCacheInvalid.
pub record ShardTable : Type 0 where
  pub table : List ShardRow
  pub cache : List ShardRow
  pub invalid : Bool

pub data Error : Type 0 where
  bad_shard_count no_worker length_mismatch duplicate_range_point : Error
  exceeds_max out_of_range out_of_fuel : Error

pub invalidate : ShardTable → ShardTable
invalidate t = record t { invalid = true }

-- An insertion under the unique index.
pub insert_row : ShardRow → List ShardRow → Result Error (List ShardRow)
insert_row r [] = ok (r ∷ [])
insert_row r (x ∷ xs) =
    if ltb r.range_point x.range_point
    then ok (r ∷ x ∷ xs)
    else if r.range_point == x.range_point
    then err duplicate_range_point
    else (insert_row r xs >>= λ ys. ok (x ∷ ys))

-- The upper end of the shard `i` of `count`.
pub range_point_of : ℕ → ℕ → ℕ
range_point_of count i =
    if i == count - 1 then range_max else (range_max - range_min) * (i + 1) / count + range_min

-- list_nth_int, of an index within the list.
abbrev pub server_at : List ℕ → ℕ → ℕ
server_at [] i = 0
server_at (s ∷ ss) zero = s
server_at (s ∷ ss) (suc i) = server_at ss i

-- The loop of falcon_build_shard_table at index `i`, with `left` rounds to go.
pub build_loop : ℕ → List ℕ → ℕ → ℕ → ℕ → List ShardRow → Result Error (List ShardRow)
build_loop count servers zero i server_round rows = ok rows
build_loop count servers (suc left) i server_round rows = do
  rows' ←
      insert_row
        (record {
          range_point = range_point_of count i;
          server_id = server_at servers server_round;
        })
        rows
  build_loop count servers left (i + 1) ((server_round + 1) % length servers) rows'

pub build_shard_table : ℕ → List ℕ → ShardTable → Result Error ShardTable
build_shard_table count servers t = do
  guard (not (count == 0) && leb count shard_count_max) bad_shard_count
  guard (not (length servers == 0)) no_worker
  rows ← build_loop count servers count 0 0 t.table
  ok (invalidate (record t { table = rows }))

-- One round of falcon_update_shard_table: the row with this range point gets the server, or a row
-- is inserted.
pub upsert : ShardRow → List ShardRow → List ShardRow
upsert r [] = r ∷ []
upsert r (x ∷ xs) =
    if ltb r.range_point x.range_point
    then r ∷ x ∷ xs
    else if r.range_point == x.range_point
    then record x { server_id = r.server_id } ∷ xs
    else x ∷ upsert r xs

-- The lists end together, since their lengths have been compared.
pub update_loop : List ℕ → List ℕ → List ShardRow → List ShardRow
update_loop (p ∷ ps) (s ∷ ss) rows =
    update_loop ps ss (upsert (record { range_point = p; server_id = s }) rows)
update_loop _ _ rows = rows

pub update_shard_table : List ℕ → List ℕ → ShardTable → Result Error ShardTable
update_shard_table points servers t = do
  guard (length points == length servers) length_mismatch
  ok (invalidate (record t { table = update_loop points servers t.table }))

-- The scan of ReloadShardTableShmemCache, with `room` entries of the cache free: what it copies, and
-- whether rows were left over.
pub reload_scan : ℕ → List ShardRow → List ShardRow × Bool
reload_scan room [] = ([], false)
reload_scan zero (x ∷ xs) = ([], true)
reload_scan (suc room) (x ∷ xs) = let (copied, exceed) = reload_scan room xs in (x ∷ copied, exceed)

-- ReloadShardTableShmemCache with the table's row limit given. After an error the cache is filled
-- and invalid.
pub reload_within : ℕ → ShardTable → ShardTable × Option Error
reload_within limit t =
    let (copied, exceed) = reload_scan limit t.table in
    if not t.invalid
    then (t, none)
    else if exceed
    then (record t { cache = copied; invalid = true }, some exceeds_max)
    else (record t { cache = copied; invalid = false }, none)

-- `while (cache is invalid) reload`: one reload either makes the cache valid or raises an error.
pub refresh_within : ℕ → ShardTable → Result Error ShardTable
refresh_within limit t =
    let (t', e) = reload_within limit t in
    if t.invalid then elim e [ none ↦ ok t' | some x ↦ err x ] else ok t

-- ShardTableShmemCache[i].range_point.
abbrev pub point_at : List ShardRow → ℕ → ℕ
point_at [] i = 0
point_at (r ∷ rs) zero = r.range_point
point_at (r ∷ rs) (suc i) = point_at rs i

-- The binary search of SearchShardInfoByHashValue.
pub search_loop : ℕ → List ShardRow → ℕ → ℕ → ℕ → Option ℕ
search_loop zero rows hash l r = if ltb l r then none else some l
search_loop (suc fuel) rows hash l r =
    let mid = (l + r) / 2 in
    let right = search_loop fuel rows hash (mid + 1) r in
    let left = search_loop fuel rows hash l mid in
    if ltb l r then (if ltb (point_at rows mid) hash then right else left) else some l

abbrev pub row_found : List ShardRow → Option ℕ → Result Error ShardRow
row_found rows none = err out_of_fuel
row_found rows (some l) = elim (get_elem? rows l) [ none ↦ err out_of_range | some r ↦ ok r ]

pub search_cache : ℕ → List ShardRow → Result Error ShardRow
search_cache hash rows = row_found rows (search_loop (length rows) rows hash 0 (length rows))

pub search_by_hash_within : ℕ → ℕ → ShardTable → Result Error (ShardRow × ShardTable)
search_by_hash_within limit hash t = do
  t' ← refresh_within limit t
  r ← search_cache hash t'.cache
  ok (r, t')

-- GetShardTableData and GetShardTableSize.
pub shard_table_data_within : ℕ → ShardTable → Result Error (List ShardRow × ShardTable)
shard_table_data_within limit t = refresh_within limit t >>= λ t'. ok (t'.cache, t')

pub shard_table_size_within : ℕ → ShardTable → Result Error (ℕ × ShardTable)
shard_table_size_within limit t = refresh_within limit t >>= λ t'. ok (length t'.cache, t')

-- HashShard: hash_bytes_uint32 is PostgreSQL's. The masked id has 13 bits, so its upper half is 0.
unfoldable pub hash_shard : (ℕ → ℕ) → ℕ → ℕ
hash_shard hash_bytes_uint32 id =
    let val = low_bits id 13 in
    low_bits (u32 (hash_bytes_uint32 (bit_xor (u32 val) (val / 2 ^ 32)))) 31

pub search_by_value_within : ℕ → (ℕ → ℕ) → ℕ → ShardTable → Result Error (ShardRow × ShardTable)
search_by_value_within limit hash_bytes id t =
    search_by_hash_within limit (hash_shard hash_bytes id) t

-- What falcon_renew_shard_table tells clients: the range of each row, from the end of the last.
pub record ShardInfo : Type 0 where
  pub info_min : ℕ
  pub info_max : ℕ
  pub info_server : ℕ

pub shard_infos : ℕ → List ShardRow → List ShardInfo
shard_infos low [] = []
shard_infos low (r ∷ rs) =
    record { info_min = low; info_max = r.range_point; info_server = r.server_id }
    ∷ shard_infos (r.range_point + 1) rs
