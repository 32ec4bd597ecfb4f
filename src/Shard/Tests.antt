-- ===== src/Shard/Tests.antt =====
-- Runs of the shard table, and its theorems at concrete inputs.
use falconfs.Common.{
  ℕ, ◌*◌, ◌≤◌, ◌<◌, ◌≡◌, refl, true, false, some, List, [], ◌∷◌, arith, nat_eq, list_eq, ok,
}
use falconfs.Shard.{
  shard_table_data_within, shard_table_size_within, ShardRow, ShardTable, build_shard_table,
  update_shard_table, build_loop, range_point_of, insert_row, invalidate, search_cache, search_loop,
  range_max, search_by_hash_within, shard_infos, hash_shard,
}
use falconfs.Shard.Rows.{Increasing, first_reaching, server_of}
use falconfs.Shard.Search.{search_cache-first_reaching}
use falconfs.Shard.Build.{planned_row, planned_rows, build_shard_table-planned}
use falconfs.Shard.Update.{update_shard_table-last_change, changed, last_change}
use falconfs.Shard.Routes.{
  shard_table_data_within-table, WellFormed, build, update, lookup, reload, calls, calls-WellFormed,
  search_by_hash_within-first_reaching,
}
use falconfs.Shard.Clients.{containing-shard_infos, containing}

abbrev empty : ShardTable
empty = record { table = []; cache = []; invalid = true }

abbrev three_rows : List ShardRow
three_rows =
    record { range_point = 100; server_id = 1 }
    ∷ record { range_point = 200; server_id = 2 }
    ∷ record { range_point = 300; server_id = 1 }
    ∷ []

abbrev stale : ShardTable
stale = record { table = three_rows; cache = []; invalid = true }

three_rows-Increasing : Increasing three_rows
three_rows-Increasing = omega arith

stale-WellFormed : WellFormed stale
stale-WellFormed = record { increasing = omega arith; coherent = λ f. ground (arith, f) }

built_rows :
    build_shard_table 3 (7 ∷ 8 ∷ []) empty
    ≡ ok (record {
      table =
          record { range_point = 715827882; server_id = 7 }
          ∷ record { range_point = 1431655764; server_id = 8 }
          ∷ record { range_point = 2147483647; server_id = 7 }
          ∷ [];
      cache = [];
      invalid = true;
    })
unfolding build_shard_table build_loop range_point_of insert_row invalidate
built_rows = refl

found_row : search_cache 101 three_rows ≡ ok (record { range_point = 200; server_id = 2 })
unfolding search_cache search_loop
found_row = refl

hashed : hash_shard (λ v. v * 2654435761) 8195 ≡ 1520856339
unfolding hash_shard
hashed = refl

search_cache-first_reaching_example :
    search_cache 150 three_rows ≡ ok (record { range_point = 200; server_id = 2 })
unfolding first_reaching
search_cache-first_reaching_example =
    search_cache-first_reaching 150 three_rows three_rows-Increasing

build_shard_table-planned_example :
    (build_shard_table 3 (7 ∷ 8 ∷ []) empty
      ≡ ok (invalidate (record empty { table = planned_rows 3 (7 ∷ 8 ∷ []) 3 0 })))
    × (Increasing (planned_rows 3 (7 ∷ 8 ∷ []) 3 0))
    × ((hash : ℕ)
        → hash ≤ range_max
        → (k : ℕ) × (k < 3)
          × (first_reaching hash (planned_rows 3 (7 ∷ 8 ∷ []) 3 0)
              ≡ some (planned_row 3 (7 ∷ 8 ∷ []) k)))
build_shard_table-planned_example =
    build_shard_table-planned 3 (7 ∷ 8 ∷ []) empty refl (omega arith) (omega arith)
      (λ e. ground (arith, e))

update_shard_table-last_change_example :
    (t' : ShardTable) × (update_shard_table (200 ∷ 250 ∷ []) (9 ∷ 3 ∷ []) stale ≡ ok t')
    × (Increasing t'.table)
    × (t'.invalid ≡ true)
    × (t'.cache ≡ [])
    × ((p : ℕ)
        → server_of p t'.table
          ≡ changed (last_change p (200 ∷ 250 ∷ []) (9 ∷ 3 ∷ [])) (server_of p three_rows))
update_shard_table-last_change_example =
    update_shard_table-last_change (200 ∷ 250 ∷ []) (9 ∷ 3 ∷ []) stale refl three_rows-Increasing

calls-WellFormed_example :
    WellFormed (calls 10 (lookup 5 ∷ update (200 ∷ []) (9 ∷ []) ∷ build 0 [] ∷ reload ∷ []) stale)
calls-WellFormed_example =
    calls-WellFormed 10 (lookup 5 ∷ update (200 ∷ []) (9 ∷ []) ∷ build 0 [] ∷ reload ∷ []) stale
      stale-WellFormed

search_by_hash_within-first_reaching_example :
    search_by_hash_within 10 250 stale
    ≡ ok (
      record { range_point = 300; server_id = 1 },
      record { table = three_rows; cache = three_rows; invalid = false },
    )
unfolding first_reaching
search_by_hash_within-first_reaching_example =
    search_by_hash_within-first_reaching 10 250 stale stale-WellFormed (omega arith)

containing-shard_infos_example : containing 250 (shard_infos 0 three_rows) ≡ 1 ∷ []
unfolding first_reaching
containing-shard_infos_example =
    containing-shard_infos 0 250 three_rows three_rows-Increasing (omega arith)

shard_table_data_run :
    (shard_table_data_within 10 stale
      ≡ ok (three_rows, record { table = three_rows; cache = three_rows; invalid = false }))
    × (shard_table_size_within 10 stale
        ≡ ok (3, record { table = three_rows; cache = three_rows; invalid = false }))
shard_table_data_run = shard_table_data_within-table 10 stale stale-WellFormed (omega arith)
