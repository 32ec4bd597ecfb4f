-- ===== src/RemoteComm/Served.antt =====
-- Servers that answer: every call of a transaction in falcon/distributed_backend/remote_comm_falcon.c
-- returns.
use falconfs.Common.{ℕ, ◌≡◌, refl, true, some, List, [], ◌∷◌, nat_eq, list_eq}
use falconfs.RemoteComm.{RemoteState}
use falconfs.RemoteComm.Commands.{
  Message, begin_work, command, messages, CommandData, Link, Session, unsent, send_items,
  send_entry, send_entries, collect_items, collect_entries, send_command_and_wait, Call, append,
  round, perform, perform_all,
}
use falconfs.RemoteComm.Logs.{in_transaction, sent_commands, begins}
use falconfs.RemoteComm.Rounds.{get_connections-live}
use falconfs.RemoteComm.Requests.{asked, start, requests_delivered}

module _ {Cmd Res : Type 0} (link : Link Cmd Res) where
  -- Every connection is up, takes everything and answers it with success.
  abbrev pub IsServing : Type 0
  IsServing =
      ((w : ℕ) → link.live w ≡ true)
      × ((w : ℕ) (i : Message Cmd) → link.takes w i ≡ true)
      × ((w : ℕ) → link.syncs w ≡ true)
      × ((w : ℕ) (i : Message Cmd) → (r : Res) × (link.answers w i ≡ some r))

  module _ (good : IsServing) where
    send_items-taken : (w : ℕ) (is : List (Message Cmd)) → (send_items link w is).1 ≡ true
    unfolding send_items
    send_items-taken w [] = good.2 w
    send_items-taken w (i ∷ is) = rw (good.1 w i) (send_items-taken w is)

    send_entries-taken :
        (xs : List (ℕ × CommandData Cmd)) (s : Session Cmd) → (send_entries link xs s).1 ≡ true
    unfolding send_entries send_entry
    send_entries-taken [] s = refl
    send_entries-taken ((w, en) ∷ xs) s =
        rw (send_items-taken w (messages en.flags (s.states w) en.commands))
          (send_entries-taken xs _)

    collect_items-some :
        (w : ℕ) (is : List (Message Cmd)) → (rs : List Res) × (collect_items link w is ≡ some rs)
    unfolding collect_items
    collect_items-some w [] = ([], refl)
    collect_items-some w (begin_work ∷ is) =
        let (r, e) = good.3 w begin_work in
        let (rs, h) = collect_items-some w is in (rs, rw (collect_items, e) h)
    collect_items-some w (command c ∷ is) =
        let (r, e) = good.3 w (command c) in
        let (rs, h) = collect_items-some w is in (r ∷ rs, rw (collect_items, e, h) refl)

    collect_entries-some :
        (states : ℕ → RemoteState) (xs : List (ℕ × CommandData Cmd))
        → (rss : List (ℕ × List Res)) × (collect_entries link states xs ≡ some rss)
    unfolding collect_entries
    collect_entries-some states [] = ([], refl)
    collect_entries-some states ((w, en) ∷ xs) =
        let (rs, e) = collect_items-some w (messages en.flags (states w) en.commands) in
        let (rss, h) = collect_entries-some states xs in
        ((w, rs) ∷ rss, rw (collect_entries, e, h) refl)

    perform-some :
        (r : Call Cmd) (s : Session Cmd) → (s' : Session Cmd) × (perform link r s ≡ some s')
    unfolding send_command_and_wait
    perform-some (append f c ws) s = (_, refl)
    perform-some round s =
        let (rss, h) = collect_entries-some s.states (unsent s.cache) in
        (
          (send_entries link (unsent s.cache) s).0,
          rw
              (
                get_connections-live link (unsent s.cache) s.states (good.0),
                send_entries-taken (unsent s.cache) s,
                h,
              )
              refl,
        )

    perform_all-some :
        (rs : List (Call Cmd)) (s : Session Cmd)
        → (s' : Session Cmd) × (perform_all link rs s ≡ some s')
    unfolding perform_all
    perform_all-some [] s = (s, refl)
    perform_all-some (r ∷ rs) s =
        let (t, e) = perform-some r s in
        let (s', h) = perform_all-some rs t in (s', rw (perform_all, e) h)

  -- Where every server serves: any calls of a new transaction and a round after them all return, and then
  -- each server has got exactly the commands asked of it, in order and each once, and one BEGIN if its
  -- state says that it is in a transaction and none otherwise.
  pub requests_served :
      IsServing
      → (rs : List (Call Cmd))
      → (s s' : Session Cmd) × (perform_all link rs start ≡ some s)
        × (perform link round s ≡ some s')
        × ((v : ℕ)
            → (sent_commands v s'.sent ≡ asked v rs)
              × (begins v s'.sent ≡ in_transaction (s'.states v)))
  requests_served good rs =
      let (s, e) = perform_all-some good rs start in
      let (s', h) = perform-some good round s in
      (s, s', e, h, λ v. requests_delivered link rs s s' v (good.0) e h)
