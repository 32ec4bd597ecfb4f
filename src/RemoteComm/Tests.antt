-- ===== src/RemoteComm/Tests.antt =====
-- The end of transactions on the servers 1 and 2 of falcon/distributed_backend/remote_comm_falcon.c.
use falconfs.Common.{
  erase, elem, ℕ, ◌≡◌, refl, Bool, true, false, not, ◌&&◌, ◌||◌, none, some, [], ◌∷◌, arith,
  ℕ_discrete, ◌==◌, if◌then◌else◌, nat_eq, list_eq, ok,
}
use falconfs.Cleanup.{Round, cleanup_prepared, state_of, add_inprogress, remove_inprogress}
use falconfs.Cleanup.Laws.{recorded, commits, rolls_back}
use falconfs.RemoteComm.{
  not_begun, begun_for_write, begun_for_snapshot, prepared, Control, rollback, prepare,
  commit_prepared, rollback_prepared, Net, Coordinator, count_writers, collect_prepared,
  send_prepares, prepare_workers, falcon_remote_command_prepare, clear_remote_connection_command,
  state_after, get_foreign_server_connection, reconnect, all_connected, commit, preparing,
  committing, aborting,
}
use falconfs.RemoteComm.Decide.{
  send_commits, collect_commits, falcon_remote_command_commit, send_rollbacks, collect_rollbacks,
  falcon_remote_command_abort, clear_remote_transaction_gid, commit_event, abort_event,
  end_transaction,
}
use falconfs.RemoteComm.Outcome.{OneDecision, is_ok, end_transaction-OneDecision}
use falconfs.RemoteComm.Recovery.{recovery_decided}

-- Every server answers with success.
abbrev fine : Net ℕ
fine = record {
  reloads = λ p. true;
  live = λ p w. true;
  known = λ p w. true;
  opens = λ p w. true;
  unfetched = λ w. false;
  sends = λ w k. true;
  confirms = λ w k. true;
  ends = λ w. true;
  cache_commits = true;
}

abbrev is_prepare : Control ℕ → Bool
is_prepare (prepare g) = true
is_prepare _ = false

-- Server 2 refuses to prepare.
abbrev refusing : Net ℕ
refusing = record fine { confirms = λ w k. not (w == 2 && is_prepare k) }

-- Both servers have written, and nothing has been sent.
abbrev two_writers : Coordinator ℕ
two_writers = record {
  states = λ w. if w == 1 || w == 2 then begun_for_write else not_begun;
  workers = some (1 ∷ 2 ∷ []);
  local_write = false;
  gid = none;
  in_progress = [];
  records = [];
  sent = [];
}

prepare_run : (falcon_remote_command_prepare fine 9 two_writers).1 ≡ ok tt
unfolding get_foreign_server_connection reconnect all_connected falcon_remote_command_prepare
    count_writers add_inprogress elem prepare_workers send_prepares collect_prepared ℕ_discrete
prepare_run = refl

end_transaction-OneDecision_example :
    let (c, r) = falcon_remote_command_prepare refusing 9 two_writers in
    OneDecision refusing true
      (is_ok refusing r)
      (is_ok refusing (commit_event refusing c).1)
      (end_transaction refusing true 9 two_writers).sent
end_transaction-OneDecision_example = end_transaction-OneDecision refusing true 9 two_writers refl

-- Server 1 had prepared, and is told to roll that back.
end_run :
    (end_transaction refusing true 9 two_writers).sent
    ≡ (2, rollback) ∷ (1, rollback_prepared (some 9)) ∷ (2, prepare 9) ∷ (1, prepare 9) ∷ []
unfolding get_foreign_server_connection reconnect all_connected end_transaction
    falcon_remote_command_prepare count_writers add_inprogress elem prepare_workers send_prepares
    collect_prepared abort_event falcon_remote_command_abort send_rollbacks collect_rollbacks
    clear_remote_transaction_gid clear_remote_connection_command remove_inprogress erase ℕ_discrete
end_run = refl

-- A round that sees transaction 9.
abbrev round : Round ℕ
round = record {
  first_prepared = 9 ∷ [];
  active = [];
  second_prepared = 9 ∷ [];
  accepts = λ k. true;
}

recovery_decided_example :
    let after = (falcon_remote_command_prepare fine 9 two_writers).0.records in
    let committed = (state_of (cleanup_prepared round 2 after)).commands in
    let aborted = (state_of (cleanup_prepared round 2 two_writers.records)).commands in
    (commits 9 committed ≡ true)
    × (rolls_back 9 committed ≡ false)
    × (commits 9 aborted ≡ false)
    × (rolls_back 9 aborted ≡ true)
unfolding elem count_writers recorded
recovery_decided_example =
    recovery_decided fine 9 (1 ∷ 2 ∷ []) two_writers 2 round refl prepare_run (omega arith) refl
      refl (λ k. refl) (refl, refl, refl)

-- The commit on server 1 is answered with an error: the loop returns, and the connection to server 2,
-- which has committed, stays in the state of a prepared transaction.
abbrev failing : Net ℕ
failing = record fine { confirms = λ w k. not (w == 1 && not (is_prepare k)) }

stale_state_run :
    ((end_transaction failing true 9 two_writers).states 2 ≡ prepared)
    × ((end_transaction failing true 9 two_writers).sent
        ≡ (2, commit_prepared (some 9))
          ∷ (1, commit_prepared (some 9))
          ∷ (2, prepare 9)
          ∷ (1, prepare 9)
          ∷ [])
unfolding get_foreign_server_connection reconnect all_connected end_transaction
    falcon_remote_command_prepare count_writers add_inprogress elem prepare_workers send_prepares
    collect_prepared commit_event falcon_remote_command_commit send_commits collect_commits
    clear_remote_transaction_gid clear_remote_connection_command remove_inprogress erase ℕ_discrete
stale_state_run = (refl, refl)

-- A server that was only read keeps that state when it is written, so it is no writer.
read_then_write_run :
    state_after
      (record { need_snapshot = false; write = true })
      (state_after (record { need_snapshot = true; write = false }) not_begun)
    ≡ begun_for_snapshot
read_then_write_run = refl

-- The connection to server 1 breaks before the prepare and comes up again: its part of the transaction
-- is lost, it is no writer any more, and with no write here the prepare returns without two phases. The
-- commit goes to server 2 alone.
abbrev breaking : Net ℕ
breaking = record fine { live = λ p w. not (w == 1) }

lost_writer_run :
    ((falcon_remote_command_prepare breaking 9 two_writers).1 ≡ ok tt)
    × ((end_transaction breaking true 9 two_writers).sent ≡ (2, commit) ∷ [])
unfolding get_foreign_server_connection reconnect all_connected end_transaction
    falcon_remote_command_prepare count_writers add_inprogress elem prepare_workers send_prepares
    collect_prepared commit_event falcon_remote_command_commit send_commits collect_commits
    clear_remote_transaction_gid clear_remote_connection_command remove_inprogress erase ℕ_discrete
lost_writer_run = (refl, refl)

-- Both servers are prepared and this server commits. Then the connection to server 1 cannot be opened:
-- the commit event raises an error, and the abort event rolls back the transaction on both servers.
abbrev failing_commit : Net ℕ
failing_commit = record fine {
  live = λ p w. elim p [ preparing ↦ true | committing ↦ not (w == 1) | aborting ↦ true ];
  opens = λ p w. elim p [ preparing ↦ true | committing ↦ false | aborting ↦ true ];
}

rolled_back_run :
    (end_transaction failing_commit true 9 two_writers).sent
    ≡ (2, rollback_prepared (some 9)) ∷ (2, prepare 9) ∷ (1, prepare 9) ∷ []
unfolding get_foreign_server_connection reconnect all_connected end_transaction
    falcon_remote_command_prepare count_writers add_inprogress elem prepare_workers send_prepares
    collect_prepared commit_event abort_event falcon_remote_command_abort send_rollbacks
    collect_rollbacks falcon_remote_command_commit send_commits collect_commits
    clear_remote_transaction_gid clear_remote_connection_command remove_inprogress erase ℕ_discrete
rolled_back_run = refl
