-- ===== src/Cleanup/Tests.antt =====
-- Runs of the two-phase commit cleanup, and its theorems at concrete inputs.
use falconfs.Common.{ℕ, ◌≡◌, refl, true, false, List, [], ◌∷◌, nat_eq, elem, erase}
use falconfs.Cleanup.{
  Row, commit_prepared, rollback_prepared, done, rows_of, state_of, Round, cleanup_prepared,
  cleanup_2pc, sweep_rows, sweep_prepared, judge,
}
use falconfs.Cleanup.Laws.{Resolved, cleanup_prepared-Resolved, commits, rolls_back, recorded}
use falconfs.Cleanup.Safety.{active_untouched, cleanup_2pc-keeps_active}

-- Transactions 1 to 4 are prepared; 1 is under way, 2 has a row, 3 has none, 4 is gone at the second
-- read.
abbrev round : Round ℕ
round = record {
  first_prepared = 1 ∷ 2 ∷ 3 ∷ 4 ∷ [];
  active = 1 ∷ 9 ∷ [];
  second_prepared = 1 ∷ 2 ∷ 3 ∷ [];
  accepts = λ _. true;
}

abbrev table : List (Row ℕ)
table =
    record { nodeid = 6; gid = 1 }
    ∷ record { nodeid = 6; gid = 2 }
    ∷ record { nodeid = 6; gid = 4 }
    ∷ record { nodeid = 5; gid = 4 }
    ∷ []

cleanup_run :
    cleanup_prepared round 6 table
    ≡ done
        (record { nodeid = 6; gid = 1 }
          ∷ record { nodeid = 6; gid = 2 }
          ∷ record { nodeid = 5; gid = 4 }
          ∷ [])
        (record {
          set_a = 1 ∷ 3 ∷ [];
          commands = rollback_prepared 3 ∷ commit_prepared 2 ∷ [];
          cleaned = 2;
        })
unfolding cleanup_prepared sweep_rows sweep_prepared judge elem erase
cleanup_run = refl

cleanup_prepared-Resolved_example :
    Resolved round 6 2 (λ _. refl) table (cleanup_prepared round 6 table)
cleanup_prepared-Resolved_example = cleanup_prepared-Resolved round 6 2 (λ _. refl) table

active_untouched_example :
    (commits 1 (state_of (cleanup_prepared round 6 table)).commands ≡ false)
    × (rolls_back 1 (state_of (cleanup_prepared round 6 table)).commands ≡ false)
    × ((k : ℕ) → recorded k 1 (rows_of (cleanup_prepared round 6 table)) ≡ recorded k 1 table)
unfolding elem
active_untouched_example = active_untouched round 6 1 refl table

cleanup_2pc_active_run :
    recorded 6 9 (cleanup_2pc (λ _. round) (5 ∷ 6 ∷ []) table 0).0 ≡ recorded 6 9 table
unfolding elem
cleanup_2pc_active_run = cleanup_2pc-keeps_active (λ _. round) 9 (λ _. refl) (5 ∷ 6 ∷ []) table 0 6
