-- ===== src/RemoteComm/Decide.antt =====
-- The second phase in falcon/distributed_backend/remote_comm_falcon.c, commit or abort, and the
-- commands of a transaction before it.
use falconfs.Common.{
  ℕ, Bool, true, false, not, ◌&&◌, ◌||◌, Option, none, some, List, [], ◌∷◌, if◌then◌else◌, Eq,
  nat_eq, list_eq, update, Result, ok, err,
}
use falconfs.Cleanup.{remove_inprogress}
use falconfs.RemoteComm.{
  RemoteState, not_begun, Control, Net, Coordinator, Error, Log, commit_control, rollback_control,
  clear_remote_connection_command, falcon_remote_command_prepare, committing, aborting, connected,
  get_foreign_server_connection, pipeline_error, cache_error, connection_failed,
}

module _ {Gid : Type 0} (net : Net Gid) where
  -- The first loop of the commit; it ends at the first failure, with `false`.
  unfoldable pub send_commits : Option Gid → List ℕ → (ℕ → RemoteState) → Log Gid → Log Gid × Bool
  send_commits gid [] states log = (log, true)
  send_commits gid (w ∷ ws) states log =
      let passed = send_commits gid ws states log in
      if net.unfetched w then (log, false) else elim (commit_control gid (states w)) [
        | none ↦ passed
        | some k ↦
            let told = send_commits gid ws states ((w, k) ∷ log) in
            if net.sends w k then told else ((w, k) ∷ log, false)
      ]

  -- The second loop, which ends at the first answer that is not a success. An answer that does not end
  -- as a pipeline does is an error, `false`.
  unfoldable pub collect_commits :
      Option Gid → List ℕ → (ℕ → RemoteState) → (ℕ → RemoteState) × Bool
  collect_commits gid [] states = (states, true)
  collect_commits gid (w ∷ ws) states =
      let passed = collect_commits gid ws states in
      let finished = collect_commits gid ws (update states w not_begun) in
      elim (commit_control gid (states w)) [
        | none ↦ passed
        | some k ↦
            if net.confirms w k
            then if net.ends w then finished else (states, false)
            else (states, true)
      ]

  abbrev pub commit_connected : List ℕ → Coordinator Gid → Coordinator Gid × Result Error (Unit {0})
  commit_connected ws c =
      let (log, all_told) = send_commits c.gid ws c.states c.sent in
      let (states, quiet) = collect_commits c.gid ws c.states in
      (
        record c { sent = log; states = if all_told then states else c.states },
        if all_told && not quiet then err pipeline_error else ok tt,
      )

  abbrev pub commit_for :
      Option (List ℕ) → Coordinator Gid → Coordinator Gid × Result Error (Unit {0})
  commit_for none c = (c, ok tt)
  commit_for (some ws) c =
      let (states, reached) = get_foreign_server_connection net committing ws c.states in
      let c' = record c { states = states } in
      let out = commit_connected ws c' in if reached then out else (c', err connection_failed)

  unfoldable pub falcon_remote_command_commit :
      Coordinator Gid → Coordinator Gid × Result Error (Unit {0})
  falcon_remote_command_commit c = commit_for c.workers c

  -- The first loop of the abort goes on after a failure.
  unfoldable pub send_rollbacks : Option Gid → List ℕ → (ℕ → RemoteState) → Log Gid → Log Gid × Bool
  send_rollbacks gid [] states log = (log, true)
  send_rollbacks gid (w ∷ ws) states log =
      let passed = send_rollbacks gid ws states log in
      if not (connected net aborting w)
      then (passed.0, false)
      else elim (rollback_control gid (states w)) [
        | none ↦ passed
        | some k ↦
            let told = send_rollbacks gid ws states ((w, k) ∷ log) in
            if net.sends w k then told else (told.0, false)
      ]

  abbrev pub rolled_back : ℕ → Option (Control Gid) → Bool
  rolled_back w none = true
  rolled_back w (some k) = not (net.sends w k) || net.confirms w k

  -- The second loop. Where nothing was sent there is no answer.
  unfoldable pub collect_rollbacks :
      Option Gid → List ℕ → (ℕ → RemoteState) → (ℕ → RemoteState) × Bool
  collect_rollbacks gid [] states = (states, true)
  collect_rollbacks gid (w ∷ ws) states =
      let rest =
        collect_rollbacks gid ws
          (if connected net aborting w then update states w not_begun else states) in
      (
        rest.0,
        (not (connected net aborting w) || rolled_back w (rollback_control gid (states w)))
            && rest.1,
      )

  abbrev pub abort_connected : List ℕ → Coordinator Gid → Coordinator Gid × Result Error Bool
  abort_connected ws c =
      let (log, all_told) = send_rollbacks c.gid ws c.states c.sent in
      let (states, all_answered) = collect_rollbacks c.gid ws c.states in
      (record c { sent = log; states = states }, ok (all_told && all_answered))

  abbrev pub abort_for : Option (List ℕ) → Coordinator Gid → Coordinator Gid × Result Error Bool
  abort_for none c = (c, ok true)
  abort_for (some ws) c =
      let (states, reached) = get_foreign_server_connection net aborting ws c.states in
      let c' = record c { states = states } in
      let out = abort_connected ws c' in if reached then out else (c', err connection_failed)

  unfoldable pub falcon_remote_command_abort : Coordinator Gid → Coordinator Gid × Result Error Bool
  falcon_remote_command_abort c = abort_for c.workers c

  module _ ⦃e : Eq Gid⦄ where
    abbrev pub left : Option Gid → List Gid → List Gid
    left none gs = gs
    left (some g) gs = remove_inprogress g gs

    -- ClearRemoteTransactionGid, falcon/transaction/transaction.c.
    unfoldable pub clear_remote_transaction_gid : Coordinator Gid → Coordinator Gid
    clear_remote_transaction_gid c = record c { in_progress = left c.gid c.in_progress; gid = none }

    abbrev pub closed : Coordinator Gid → Coordinator Gid
    closed c = clear_remote_connection_command (clear_remote_transaction_gid c)

    -- What FalconTransactionCallback does with the other servers at XACT_EVENT_COMMIT and at
    -- XACT_EVENT_ABORT. An error leaves it at once. The directory cache and the locks come after the
    -- servers in a commit, and before them, without an error, in an abort.
    abbrev pub after_commands :
        Coordinator Gid × Result Error (Unit {0}) → Coordinator Gid × Result Error (Unit {0})
    after_commands (c, ok u) = if net.cache_commits then (closed c, ok tt) else (c, err cache_error)
    after_commands (c, err x) = (c, err x)

    unfoldable pub commit_event : Coordinator Gid → Coordinator Gid × Result Error (Unit {0})
    commit_event c = after_commands (falcon_remote_command_commit c)

    abbrev pub after_rollbacks : Coordinator Gid × Result Error Bool → Coordinator Gid
    after_rollbacks (c, ok b) = closed c
    after_rollbacks (c, err x) = c

    unfoldable pub abort_event : Coordinator Gid → Coordinator Gid
    abort_event c = after_rollbacks (falcon_remote_command_abort c)

    -- PostgreSQL aborts after an error of the commit event too.
    abbrev pub after_commit : Coordinator Gid × Result Error (Unit {0}) → Coordinator Gid
    after_commit (c, ok u) = c
    after_commit (c, err x) = abort_event c

    -- The end of a transaction: XACT_EVENT_PRE_COMMIT, and then by its result and by whether
    -- PostgreSQL commits here, XACT_EVENT_COMMIT or XACT_EVENT_ABORT. The rows that the prepare wrote
    -- are part of the transaction here.
    abbrev pub ended :
        Bool → Coordinator Gid → Coordinator Gid × Result Error (Unit {0}) → Coordinator Gid
    ended commits before (c, ok u) =
        if commits
        then after_commit (commit_event c)
        else abort_event (record c { records = before.records })
    ended commits before (c, err x) = abort_event (record c { records = before.records })

    unfoldable pub end_transaction : Bool → Gid → Coordinator Gid → Coordinator Gid
    end_transaction commits g c = ended commits c (falcon_remote_command_prepare net g c)
