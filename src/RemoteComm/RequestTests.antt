-- ===== src/RemoteComm/RequestTests.antt =====
-- The commands of one transaction on the servers 1 and 2 of
-- falcon/distributed_backend/remote_comm_falcon.c.
use falconfs.Common.{
  ℕ, ◌+◌, ◌≡◌, refl, true, false, Option, none, some, List, [], ◌∷◌, ℕ_discrete, nat_eq, list_eq,
  find, change,
}
use falconfs.RemoteComm.{begun_for_snapshot, Flags}
use falconfs.RemoteComm.Commands.{
  Message, begin_work, command, Link, Session, append_remote_command, unsent, get_connections,
  send_items, send_entry, send_entries, collect_items, collect_entries, send_command_and_wait, Call,
  append, round, perform, perform_all,
}
use falconfs.RemoteComm.Logs.{in_transaction, sent_commands, begins}
use falconfs.RemoteComm.Requests.{asked, start, requests_delivered}
use falconfs.RemoteComm.Served.{requests_served}

-- Every server takes everything and answers a command with its double.
abbrev echo : Link ℕ ℕ
echo = record {
  live = λ w. true;
  known = λ w. true;
  opens = λ w. true;
  takes = λ w i. true;
  syncs = λ w. true;
  answers = λ w i. elim i [ begin_work ↦ some 0 | command c ↦ some (c + c) ];
}

abbrev writes : Flags
writes = record { need_snapshot = false; write = true }

abbrev reads : Flags
reads = record { need_snapshot = true; write = false }

abbrev calls : List (Call ℕ)
calls =
    append reads 5 (1 ∷ 2 ∷ []) ∷ round ∷ append writes 6 (2 ∷ []) ∷ append writes 7 (2 ∷ []) ∷ []

abbrev got : Option (Session ℕ) → Session ℕ
got none = start
got (some s) = s

abbrev waiting_session : Session ℕ
waiting_session = got (perform_all echo calls start)

abbrev last_session : Session ℕ
last_session = got (perform echo round waiting_session)

calls_run : perform_all echo calls start ≡ some waiting_session
unfolding perform_all append_remote_command unsent get_connections send_items send_entry
    send_entries collect_items collect_entries send_command_and_wait ℕ_discrete find change
calls_run = refl

round_run : perform echo round waiting_session ≡ some last_session
unfolding perform_all append_remote_command unsent get_connections send_items send_entry
    send_entries collect_items collect_entries send_command_and_wait ℕ_discrete find change
round_run = refl

-- Server 2 stays in the transaction that was begun to read.
sent_run :
    last_session.sent
    ≡ (2, begin_work)
      ∷ (2, command 5)
      ∷ (1, begin_work)
      ∷ (1, command 5)
      ∷ (2, command 6)
      ∷ (2, command 7)
      ∷ []
unfolding perform_all append_remote_command unsent get_connections send_items send_entry
    send_entries collect_items collect_entries send_command_and_wait ℕ_discrete find change
sent_run = refl

snapshot_run : last_session.states 2 ≡ begun_for_snapshot
unfolding perform_all append_remote_command unsent get_connections send_items send_entry
    send_entries collect_items collect_entries send_command_and_wait ℕ_discrete find change
snapshot_run = refl

requests_delivered_example :
    (sent_commands 2 last_session.sent ≡ asked 2 calls)
    × (begins 2 last_session.sent ≡ in_transaction (last_session.states 2))
requests_delivered_example =
    requests_delivered echo calls waiting_session last_session 2 (λ w. refl) calls_run round_run

echo_answers : (w : ℕ) (i : Message ℕ) → (r : ℕ) × (echo.answers w i ≡ some r)
echo_answers w begin_work = (0, refl)
echo_answers w (command c) = (c + c, refl)

requests_served_example :
    (s s' : Session ℕ) × (perform_all echo calls start ≡ some s)
    × (perform echo round s ≡ some s')
    × ((v : ℕ)
        → (sent_commands v s'.sent ≡ asked v calls)
          × (begins v s'.sent ≡ in_transaction (s'.states v)))
requests_served_example =
    requests_served echo (λ w. refl, λ w i. refl, λ w. refl, echo_answers) calls
