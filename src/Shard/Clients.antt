-- ===== src/Shard/Clients.antt =====
-- The ranges that falcon_renew_shard_table of falcon/metadb/shard_table.c sends to clients.
use falconfs.Common.{
  ℕ, ◌+◌, ◌≤◌, ◌<◌, ◌≡◌, refl, ◌&&◌, Option, none, some, List, [], ◌∷◌, arith, leb, if◌then◌else◌,
}
use falconfs.Shard.{ShardRow, ShardInfo, shard_infos}
use falconfs.Shard.Rows.{RowsFrom, first_reaching}

-- The servers of all ranges that contain a hash value.
unfoldable pub containing : ℕ → List ShardInfo → List ℕ
containing hash [] = []
containing hash (i ∷ is) =
    if leb i.info_min hash && leb hash i.info_max
    then i.info_server ∷ containing hash is
    else containing hash is

abbrev pub row_server : Option ShardRow → List ℕ
row_server none = []
row_server (some r) = r.server_id ∷ []

-- Below the first row's lower end no range contains the value.
containing-below :
    (low hash : ℕ) (rows : List ShardRow)
    → RowsFrom low rows
    → hash < low
    → containing hash (shard_infos low rows) ≡ []
unfolding containing shard_infos
containing-below low hash [] h lt = refl
containing-below low hash (r ∷ rs) (h, hs) lt =
    ground (arith, containing-below (r.range_point + 1) hash rs hs)

-- For a hash value not below `low` and rows that increase from `low`: if some row reaches the value,
-- exactly one of the ranges made from `low` on contains it, with the server of the first row that
-- reaches it; if no row does, no range contains it.
pub containing-shard_infos :
    (low hash : ℕ) (rows : List ShardRow)
    → RowsFrom low rows
    → low ≤ hash
    → containing hash (shard_infos low rows) ≡ row_server (first_reaching hash rows)
unfolding containing shard_infos first_reaching
containing-shard_infos low hash [] h le = refl
containing-shard_infos low hash (r ∷ rs) (h, hs) le = ground (
  arith,
  containing-shard_infos (r.range_point + 1) hash rs hs,
  containing-below (r.range_point + 1) hash rs hs,
)
