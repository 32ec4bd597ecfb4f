-- ===== src/RemoteComm/Recovery.antt =====
-- A coordinator that fails between the phases of falcon/distributed_backend/remote_comm_falcon.c, and
-- the cleanup of falcon/transaction/transaction_cleanup.c that finishes its transaction.
use falconfs.Common.{
  elem, ℕ, ◌≤◌, ◌≡◌, refl, ap, ◌∙◌, inl, inr, true, false, not, some, List, arith, Eq, nat_eq,
  list_eq, ok,
}
use falconfs.Cleanup.{Row, Command, Round, cleanup_prepared, state_of}
use falconfs.Cleanup.Laws.{recorded, commits, rolls_back, cleanup_prepared-Resolved}
use falconfs.RemoteComm.{Net, Coordinator, write_count, falcon_remote_command_prepare}
use falconfs.RemoteComm.Votes.{writes, prepare-Voted, Voted, found}

-- A round of the cleanup that sees the transaction prepared and not under way, on a server that carries
-- out every command.
abbrev pub Sees : {Gid : Type 0} ⦃e : Eq Gid⦄ → Gid → Round Gid → Type 0
Sees g round =
    (elem g round.first_prepared ≡ true)
    × (elem g round.second_prepared ≡ true)
    × (elem g round.active ≡ false)

module _ {Gid : Type 0} ⦃e : Eq Gid⦄ where
  -- What a round says of a transaction it sees: commit with a row, roll back without.
  by_record :
      (g : Gid) (w : ℕ) (round : Round Gid) (rs : List (Row Gid))
      → ((k : Command Gid) → round.accepts k ≡ true)
      → Sees g round
      → (commits g (state_of (cleanup_prepared round w rs)).commands ≡ recorded w g rs)
        × (rolls_back g (state_of (cleanup_prepared round w rs)).commands ≡ not (recorded w g rs))
  by_record g w round rs accepts (first, second, inactive) =
      let r = cleanup_prepared-Resolved round w g accepts rs in
      (
        r.committed ∙ rw (first, second, inactive) (ground arith),
        r.rolled_back ∙ rw (first, inactive) refl,
      )

  module _ (net : Net Gid) where
    Voted-record :
        (g : Gid) (ws : List ℕ) (c c' : Coordinator Gid) (w : ℕ)
        → 2 ≤ write_count net ws c
        → writes ws c.states w ≡ true
        → Voted net g ws c c'
        → recorded w g c'.records ≡ true
    Voted-record g ws c c' w many writer (inl (few, same)) = absurd (omega arith)
    Voted-record g ws c c' w many writer (inr (m, name, busy, workers, all)) =
        (all w).1 ∙ rw writer refl

    -- The prepare returned; two servers or more, this one included, counted as writers once their
    -- connections were looked at; the server in question is one of the others among them, and had no row
    -- for the name before. A round of the cleanup there shows the transaction in both reads and no longer
    -- under way, and the server accepts every command. Then the round commits the transaction if the rows
    -- of the prepare are in the table, because it was committed here, and rolls it back if they are not.
    pub recovery_decided :
        (g : Gid) (ws : List ℕ) (c : Coordinator Gid) (w : ℕ) (round : Round Gid)
        → c.workers ≡ some ws
        → (falcon_remote_command_prepare net g c).1 ≡ ok tt
        → 2 ≤ write_count net ws (found net ws c)
        → writes ws (found net ws c).states w ≡ true
        → recorded w g c.records ≡ false
        → ((k : Command Gid) → round.accepts k ≡ true)
        → Sees g round
        → let after = (falcon_remote_command_prepare net g c).0.records in
          let committed = (state_of (cleanup_prepared round w after)).commands in
          let aborted = (state_of (cleanup_prepared round w c.records)).commands in
          (commits g committed ≡ true)
          × (rolls_back g committed ≡ false)
          × (commits g aborted ≡ false)
          × (rolls_back g aborted ≡ true)
    recovery_decided g ws c w round workers h many writer fresh accepts sees =
        let c' = (falcon_remote_command_prepare net g c).0 in
        let there =
          Voted-record g ws (found net ws c) c' w many writer
            (prepare-Voted net g ws c workers h) in
        let (yes_commit, no_rollback) = by_record g w round c'.records accepts sees in
        let (no_commit, yes_rollback) = by_record g w round c.records accepts sees in
        (
          yes_commit ∙ there,
          no_rollback ∙ ap not there,
          no_commit ∙ fresh,
          yes_rollback ∙ ap not fresh,
        )
