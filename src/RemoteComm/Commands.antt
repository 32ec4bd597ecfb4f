-- ===== src/RemoteComm/Commands.antt =====
-- The commands of a transaction in falcon/distributed_backend/remote_comm_falcon.c: the cache that
-- collects them for each server, and the round that sends them and takes the results. The entries of
-- the cache are in the order in which the hash table gives them. What libpq and
-- falcon/metadb/foreign_server.c answer about a connection is a parameter.
use falconfs.Common.{
  ℕ, Bool, true, false, not, ◌&&◌, ◌||◌, Option, none, some, List, [], ◌∷◌, ◌++◌, map,
  if◌then◌else◌, nat_eq, list_eq, find, change, update, Result, ok, err,
}
use falconfs.RemoteComm.{
  RemoteState, not_begun, Flags, Error, send_failed, query_failed, state_after, needs_begin,
}

-- What goes to a server before the end of its transaction.
pub data Message (Cmd : Type 0) : Type 0 where
  begin_work : Message Cmd
  command : Cmd → Message Cmd

-- RemoteConnectionCommandData under its server's number.
pub record CommandData (Cmd : Type 0) : Type 0 where
  pub flags : Flags
  pub commands : List Cmd

-- Whether there is a usable connection, whether the server is known, whether a connection can be
-- opened, whether the server takes an item and
-- the end of a batch, and its result for an item, `none` for an error.
pub record Link (Cmd Res : Type 0) : Type 0 where
  pub live : ℕ → Bool
  pub known : ℕ → Bool
  pub opens : ℕ → Bool
  pub takes : ℕ → Message Cmd → Bool
  pub syncs : ℕ → Bool
  pub answers : ℕ → Message Cmd → Option Res

-- The states of the connections, RemoteConnectionCommandCache, and what was sent, oldest first.
pub record Session (Cmd : Type 0) : Type 0 where
  pub states : ℕ → RemoteState
  pub cache : List (ℕ × CommandData Cmd)
  pub sent : List (ℕ × Message Cmd)

-- The calls of a transaction: a command for some servers, or a round that sends them.
pub data Call (Cmd : Type 0) : Type 0 where
  append : Flags → Cmd → List ℕ → Call Cmd
  round : Call Cmd

abbrev pub both_flags : Flags → Flags → Flags
both_flags f g = record {
  need_snapshot = f.need_snapshot || g.need_snapshot;
  write = f.write || g.write;
}

module _ {Cmd : Type 0} where
  abbrev pub with_command : Flags → Cmd → CommandData Cmd → CommandData Cmd
  with_command f c en = record { flags = both_flags en.flags f; commands = en.commands ++ (c ∷ []) }

  -- The turn of one server, whose entry is entered if it is missing.
  abbrev pub entered :
      Flags
      → Cmd
      → ℕ
      → Option (CommandData Cmd)
      → List (ℕ × CommandData Cmd)
      → List (ℕ × CommandData Cmd)
  entered f c w none cache = (w, record { flags = f; commands = c ∷ [] }) ∷ cache
  entered f c w (some en) cache = change w (with_command f c) cache

  abbrev pub append_for : Flags → Cmd → ℕ → List (ℕ × CommandData Cmd) → List (ℕ × CommandData Cmd)
  append_for f c w cache = entered f c w (find w cache) cache

  -- FalconAppendRemoteCommandToWorkerList.
  unfoldable pub append_remote_command :
      Flags → Cmd → List ℕ → List (ℕ × CommandData Cmd) → List (ℕ × CommandData Cmd)
  append_remote_command f c [] cache = cache
  append_remote_command f c (w ∷ ws) cache = append_remote_command f c ws (append_for f c w cache)

  abbrev pub is_waiting : List Cmd → Bool
  is_waiting [] = false
  is_waiting (c ∷ cs) = true

  -- The entries whose commands are not sent yet.
  unfoldable pub unsent : List (ℕ × CommandData Cmd) → List (ℕ × CommandData Cmd)
  unsent [] = []
  unsent ((w, en) ∷ xs) = if is_waiting en.commands then (w, en) ∷ unsent xs else unsent xs

  abbrev pub messages : Flags → RemoteState → List Cmd → List (Message Cmd)
  messages f s cs = if needs_begin f s then begin_work ∷ map command cs else map command cs

  abbrev pub sent_entry : CommandData Cmd → CommandData Cmd
  sent_entry en = record en { commands = [] }

  module _ {Res : Type 0} (link : Link Cmd Res) where
    -- GetForeignServerConnection: a connection that is missing or broken is opened again, and is in
    -- no transaction.
    unfoldable pub get_connections :
        List (ℕ × CommandData Cmd) → (ℕ → RemoteState) → (ℕ → RemoteState) × Bool
    get_connections [] states = (states, true)
    get_connections ((w, en) ∷ xs) states =
        let kept = get_connections xs states in
        let opened = get_connections xs (update states w not_begun) in
        if link.live w
        then kept
        else if link.known w
        then (opened.0, link.opens w && opened.1)
        else (states, false)

    -- The messages for one server, until one is not taken.
    unfoldable pub send_items : ℕ → List (Message Cmd) → List (ℕ × Message Cmd) × Bool
    send_items w [] = ([], link.syncs w)
    send_items w (i ∷ is) =
        let rest = send_items w is in
        if link.takes w i then ((w, i) ∷ rest.0, rest.1) else ([], false)

    -- One turn of the loop that sends.
    unfoldable pub send_entry : ℕ → CommandData Cmd → Session Cmd → Session Cmd × Bool
    send_entry w en s =
        let (log, taken) = send_items w (messages en.flags (s.states w) en.commands) in
        if taken
        then (
          record {
            states = update s.states w (state_after en.flags (s.states w));
            cache = change w sent_entry s.cache;
            sent = s.sent ++ log;
          },
          true,
        )
        else (record s { sent = s.sent ++ log }, false)

    unfoldable pub send_entries : List (ℕ × CommandData Cmd) → Session Cmd → Session Cmd × Bool
    send_entries [] s = (s, true)
    send_entries ((w, en) ∷ xs) s =
        let (s', taken) = send_entry w en s in
        let rest = send_entries xs s' in if taken then rest else (s', false)

    -- The results of one server, that of a BEGIN left out.
    unfoldable pub collect_items : ℕ → List (Message Cmd) → Option (List Res)
    collect_items w [] = some []
    collect_items w (begin_work ∷ is) =
        let rest = collect_items w is in
        elim (link.answers w begin_work) [ none ↦ none | some r ↦ rest ]
    collect_items w (command c ∷ is) =
        let rest = collect_items w is in
        elim (link.answers w (command c)) [
          | none ↦ none
          | some r ↦ elim rest [ none ↦ none | some rs ↦ some (r ∷ rs) ]
        ]

    -- The loop that collects, with the states from before the commands were sent.
    unfoldable pub collect_entries :
        (ℕ → RemoteState) → List (ℕ × CommandData Cmd) → Option (List (ℕ × List Res))
    collect_entries states [] = some []
    collect_entries states ((w, en) ∷ xs) =
        let rest = collect_entries states xs in
        elim (collect_items w (messages en.flags (states w) en.commands)) [
          | none ↦ none
          | some rs ↦ elim rest [ none ↦ none | some rss ↦ some ((w, rs) ∷ rss) ]
        ]

    abbrev pub with_results :
        Option (List (ℕ × List Res))
        → Session Cmd
        → Session Cmd × Result Error (List (ℕ × List Res))
    with_results none s = (s, err query_failed)
    with_results (some rss) s = (s, ok rss)

    -- FalconSendCommandAndWaitForResult.
    unfoldable pub send_command_and_wait :
        Session Cmd → Session Cmd × Result Error (List (ℕ × List Res))
    send_command_and_wait s =
        let work = unsent s.cache in
        let (states, opened) = get_connections work s.states in
        let (s', taken) = send_entries work (record s { states = states }) in
        if not opened
        then (record s { states = states }, err send_failed)
        else if not taken
        then (s', err send_failed)
        else with_results (collect_entries states work) s'

    abbrev pub served : Session Cmd × Result Error (List (ℕ × List Res)) → Option (Session Cmd)
    served (s, ok r) = some s
    served (s, err e) = none

    abbrev pub perform : Call Cmd → Session Cmd → Option (Session Cmd)
    perform (append f c ws) s = some (record s { cache = append_remote_command f c ws s.cache })
    perform round s = served (send_command_and_wait s)

    -- A sequence of calls, which an error ends.
    unfoldable pub perform_all : List (Call Cmd) → Session Cmd → Option (Session Cmd)
    perform_all [] s = some s
    perform_all (r ∷ rs) s = elim (perform r s) [ none ↦ none | some s' ↦ perform_all rs s' ]
