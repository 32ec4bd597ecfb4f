-- ===== src/RemoteComm.antt =====
-- falcon/distributed_backend/remote_comm_falcon.c: the end of a transaction on several servers, by one
-- commit or by two phases, with GetForeignServerConnection of falcon/metadb/foreign_server.c before
-- each. A server's number names its connection; what libpq answers is a parameter, with the results of a
-- pipeline in their documented order.
pub mod Connections
pub mod Decide
pub mod Votes
pub mod Outcome
pub mod Ended
pub mod Recovery
pub mod Commands
pub mod Logs
pub mod Delivery
pub mod Rounds
pub mod Requests
pub mod Served
mod RequestTests
mod Tests
use falconfs.Common.{
  ℕ, zero, suc, ◌+◌, ◌-◌, ◌*◌, ◌/◌, ◌%◌, ◌^◌, ◌≤◌, ◌<◌, ◌≡◌, ◌≢◌, refl, sym, ap, ap₂, subst, ◌∙◌,
  fun_ext, ◌↔◌, ◌⊎◌, inl, inr, Bool, true, false, not, ◌&&◌, ◌||◌, Option, none, some, List, [],
  ◌∷◌, ◌++◌, map, arith, dec_lt, dec_le, ℕ_discrete, ltb, leb, ◌==◌, if◌then◌else◌, ltb→lt, lt→ltb,
  leb→le, ==_iff, ==_refl, ==_ne, Bool-cases, Option-cases, Eq, ◌=?◌, nat_eq, list_eq, =?_ne,
  =?_refl, find, change, remove, Distinct, mapped, find-change, find-remove, change-Distinct,
  remove-Distinct, length-change, length-remove, update, update_here, update_there, update-elim,
  fetch_add, fetch_sub, length, get_elem?, length-append, get_elem?-append_last, All, Result-cases,
  Result, ok, err, guard, u32, u64, low_bits, bit_and, bit_or, bit_xor,
}
use falconfs.Cleanup.{Row, write_2pc_record, add_inprogress, remove_inprogress}

-- FalconRemoteTransactionState.
pub data RemoteState : Type 0 where
  not_begun begun_for_write begun_for_snapshot prepared : RemoteState

-- The transaction control that is sent. The buffers of the prepared ones are filled only if there is a
-- transaction name.
pub data Control (Gid : Type 0) : Type 0 where
  begin commit rollback : Control Gid
  prepare : Gid → Control Gid
  commit_prepared rollback_prepared : Option Gid → Control Gid

-- The three calls at the end of a transaction.
pub data Phase : Type 0 where
  preparing committing aborting : Phase

-- In a phase: whether the list of servers can be read again where it has to be, whether a server's
-- connection is there and not broken, whether the server is in the list, and whether a new connection
-- comes up. Then whether a connection had results that nobody fetched, takes what is sent to it and the
-- end of the pipeline, answers it with success, and ends the answer as a pipeline does; and whether
-- CommitForDirPathHash returns.
pub record Net (Gid : Type 0) : Type 0 where
  pub reloads : Phase → Bool
  pub live : Phase → ℕ → Bool
  pub known : Phase → ℕ → Bool
  pub opens : Phase → ℕ → Bool
  pub unfetched : ℕ → Bool
  pub sends : ℕ → Control Gid → Bool
  pub confirms : ℕ → Control Gid → Bool
  pub ends : ℕ → Bool
  pub cache_commits : Bool

-- The states of the connections, the keys of RemoteConnectionCommandCache if there is one,
-- LocalServerWrite, RemoteTransactionGid, the transactions under way, the rows of
-- falcon_distributed_transaction, and what was handed to libpq, newest first, also what it did not take.
pub record Coordinator (Gid : Type 0) : Type 0 where
  pub states : ℕ → RemoteState
  pub workers : Option (List ℕ)
  pub local_write : Bool
  pub gid : Option Gid
  pub in_progress : List Gid
  pub records : List (Row Gid)
  pub sent : List (ℕ × Control Gid)

pub data Error : Type 0 where
  cache_error connection_failed pipeline_error duplicate_name unfetched_result send_failed
        prepare_failed query_failed :
      Error

abbrev pub is_writer : RemoteState → Bool
is_writer begun_for_write = true
is_writer not_begun = false
is_writer begun_for_snapshot = false
is_writer prepared = false

unfoldable pub count_writers : (ℕ → RemoteState) → List ℕ → ℕ
count_writers states [] = 0
count_writers states (w ∷ ws) = (if is_writer (states w) then 1 else 0) + count_writers states ws

-- The flags of a command on a server.
pub record Flags : Type 0 where
  pub need_snapshot : Bool
  pub write : Bool

-- The state after the commands are sent.
abbrev pub state_after : Flags → RemoteState → RemoteState
state_after flags not_begun =
    if flags.write
    then begun_for_write
    else if flags.need_snapshot
    then begun_for_snapshot
    else not_begun
state_after flags begun_for_write = begun_for_write
state_after flags begun_for_snapshot = begun_for_snapshot
state_after flags prepared = prepared

abbrev pub needs_begin : Flags → RemoteState → Bool
needs_begin flags not_begun = flags.write || flags.need_snapshot
needs_begin flags begun_for_write = false
needs_begin flags begun_for_snapshot = false
needs_begin flags prepared = false

abbrev pub Log : Type 0 → Type 0
Log Gid = List (ℕ × Control Gid)

module _ {Gid : Type 0} where
  -- What the commit sends for a state, and what the abort does.
  abbrev pub commit_control : Option Gid → RemoteState → Option (Control Gid)
  commit_control gid not_begun = none
  commit_control gid begun_for_write = some commit
  commit_control gid begun_for_snapshot = some commit
  commit_control gid prepared = some (commit_prepared gid)

  abbrev pub rollback_control : Option Gid → RemoteState → Option (Control Gid)
  rollback_control gid not_begun = none
  rollback_control gid begun_for_write = some rollback
  rollback_control gid begun_for_snapshot = some rollback
  rollback_control gid prepared = some (rollback_prepared gid)

  -- RegisterLocalProcessFlag.
  unfoldable pub register_local_process_flag : Bool → Coordinator Gid → Coordinator Gid
  register_local_process_flag read_only c = if read_only then c else record c { local_write = true }

  -- ClearRemoteConnectionCommand.
  unfoldable pub clear_remote_connection_command : Coordinator Gid → Coordinator Gid
  clear_remote_connection_command c = record c { workers = none; local_write = false; gid = none }

  module _ (net : Net Gid) where
    abbrev pub connected : Phase → ℕ → Bool
    connected phase w = net.live phase w || net.opens phase w

    -- The first loop of GetForeignServerConnection: a connection that is missing or broken is opened
    -- again, in no transaction, if the server is known.
    unfoldable pub reconnect : Phase → List ℕ → (ℕ → RemoteState) → (ℕ → RemoteState) × Bool
    reconnect phase [] states = (states, true)
    reconnect phase (w ∷ ws) states =
        let kept = reconnect phase ws states in
        let renewed = reconnect phase ws (update states w not_begun) in
        if net.live phase w then kept else if net.known phase w then renewed else (states, false)

    -- Its second loop.
    unfoldable pub all_connected : Phase → List ℕ → Bool
    all_connected phase [] = true
    all_connected phase (w ∷ ws) = connected phase w && all_connected phase ws

    -- An abort goes on without the connections that did not come up.
    abbrev pub may_fail : Phase → Bool
    may_fail preparing = false
    may_fail committing = false
    may_fail aborting = true

    -- GetForeignServerConnection, with `false` for an error.
    unfoldable pub get_foreign_server_connection :
        Phase → List ℕ → (ℕ → RemoteState) → (ℕ → RemoteState) × Bool
    get_foreign_server_connection phase ws states =
        let (renewed, all_known) = reconnect phase ws states in
        if net.reloads phase
        then (renewed, all_known && (may_fail phase || all_connected phase ws))
        else (states, false)

    -- The second loop of the prepare over the writers, where each is taken for one by its state.
    unfoldable pub collect_prepared :
        ⦃e : Eq Gid⦄
        → Gid
        → List ℕ
        → (ℕ → RemoteState)
        → List (Row Gid)
        → (ℕ → RemoteState) × List (Row Gid) × Bool
    collect_prepared g [] states rows = (states, rows, true)
    collect_prepared g (w ∷ ws) states rows =
        let voted = collect_prepared g ws (update states w prepared) (write_2pc_record w g rows) in
        let refused = collect_prepared g ws states rows in
        if not (is_writer (states w))
        then refused
        else if net.confirms w (prepare g)
        then if net.ends w then voted else (states, rows, false)
        else (refused.0, refused.1, false)

    unfoldable pub send_prepares :
        Gid → List ℕ → (ℕ → RemoteState) → Log Gid → Log Gid × Result Error (Unit {0})
    send_prepares g [] states log = (log, ok tt)
    send_prepares g (w ∷ ws) states log =
        let passed = send_prepares g ws states log in
        let asked = send_prepares g ws states ((w, prepare g) ∷ log) in
        if net.unfetched w
        then (log, err unfetched_result)
        else if not (is_writer (states w))
        then passed
        else if net.sends w (prepare g)
        then asked
        else ((w, prepare g) ∷ log, err send_failed)

    abbrev pub voted :
        (ℕ → RemoteState) × List (Row Gid) × Bool
        → Coordinator Gid
        → Coordinator Gid × Result Error (Unit {0})
    voted (states, rows, all_voted) c = (
      record c { states = states; records = rows },
      if all_voted then ok tt else err prepare_failed,
    )

    unfoldable pub prepare_workers :
        ⦃e : Eq Gid⦄ → Gid → List ℕ → Coordinator Gid → Coordinator Gid × Result Error (Unit {0})
    prepare_workers g ws c =
        let (log, r) = send_prepares g ws c.states c.sent in
        let c' = record c { sent = log } in
        elim r [ ok u ↦ voted (collect_prepared g ws c.states c.records) c' | err e ↦ (c', err e) ]

    abbrev pub write_count : List ℕ → Coordinator Gid → ℕ
    write_count ws c = (if c.local_write then 1 else 0) + count_writers c.states ws

    -- With every connection there.
    abbrev pub prepare_connected :
        ⦃e : Eq Gid⦄ → Gid → List ℕ → Coordinator Gid → Coordinator Gid × Result Error (Unit {0})
    prepare_connected g ws c =
        if ltb (write_count ws c) 2 then (c, ok tt) else elim (add_inprogress g c.in_progress) [
          | err b ↦ (record c { gid = some g }, err duplicate_name)
          | ok gs ↦ prepare_workers g ws (record c { gid = some g; in_progress = gs })
        ]

    abbrev pub prepare_for :
        ⦃e : Eq Gid⦄
        → Gid
        → Option (List ℕ)
        → Coordinator Gid
        → Coordinator Gid × Result Error (Unit {0})
    prepare_for g none c = (c, ok tt)
    prepare_for g (some ws) c =
        let (states, reached) = get_foreign_server_connection preparing ws c.states in
        let c' = record c { states = states } in
        let out = prepare_connected g ws c' in if reached then out else (c', err connection_failed)

    -- FalconRemoteCommandPrepare, with the name of GetImplicitTransactionGid.
    unfoldable pub falcon_remote_command_prepare :
        ⦃e : Eq Gid⦄ → Gid → Coordinator Gid → Coordinator Gid × Result Error (Unit {0})
    falcon_remote_command_prepare g c = prepare_for g c.workers c
