-- ===== src/RemoteComm/Delivery.antt =====
-- The loop of falcon/distributed_backend/remote_comm_falcon.c that sends the entries of a round.
use falconfs.Common.{
  ℕ, ◌+◌, ◌≡◌, refl, sym, ap, subst, inl, inr, Bool, true, false, Option, none, some, List, [], ◌∷◌,
  ◌++◌, map, arith, if◌then◌else◌, ==_iff, Bool-cases, ◌=?◌, nat_eq, list_eq, find, change,
  Distinct, find-change, change-Distinct, update, update-elim,
}
use mathlib.Core.List.{append-nil}
use falconfs.RemoteComm.{state_after, needs_begin}
use falconfs.RemoteComm.Commands.{
  Message, CommandData, Link, Session, messages, sent_entry, send_items, send_entry, send_entries,
}
use falconfs.RemoteComm.Logs.{
  in_transaction, state_after-in_transaction, waiting, commands_in-sent, sent_commands,
  sent_commands-append, begins-append, to_server, sent_commands-messages, begins-messages,
  BeginsOnce,
}

module _ {Cmd : Type 0} where
  -- The session after a turn in which the server takes everything.
  abbrev entry_sent : ℕ → CommandData Cmd → Session Cmd → Session Cmd
  entry_sent w en s = record {
    states = update s.states w (state_after en.flags (s.states w));
    cache = change w sent_entry s.cache;
    sent = s.sent ++ map (to_server w) (messages en.flags (s.states w) en.commands);
  }

  entry_sent-BeginsOnce :
      (w : ℕ) (en : CommandData Cmd) (s : Session Cmd)
      → BeginsOnce s
      → BeginsOnce (entry_sent w en s)
  entry_sent-BeginsOnce w en s once v =
      rw
        (
          begins-append v s.sent (map (to_server w) (messages en.flags (s.states w) en.commands)),
          begins-messages v w en.flags (s.states w) en.commands,
          once v,
        )
        (update-elim
          (λ t.
            in_transaction (s.states v)
              + (if w =? v then if needs_begin en.flags (s.states w) then 1 else 0 else 0)
            ≡ in_transaction t)
          s.states w (state_after en.flags (s.states w)) v
          (λ e. grind (arith, state_after-in_transaction en.flags (s.states w))) (λ n. grind arith))

  entry_sent-sent_commands :
      (v w : ℕ) (en : CommandData Cmd) (s : Session Cmd)
      → sent_commands v (entry_sent w en s).sent
        ≡ sent_commands v s.sent ++ (if w =? v then en.commands else [])
  entry_sent-sent_commands v w en s =
      rw
        (
          sent_commands-append v s.sent
              (map (to_server w) (messages en.flags (s.states w) en.commands)),
          sent_commands-messages v w en.flags (s.states w) en.commands,
        )
        refl

  entry_sent-waiting :
      (v w : ℕ) (en : CommandData Cmd) (s : Session Cmd)
      → waiting v (entry_sent w en s).cache ≡ (if w =? v then [] else waiting v s.cache)
  entry_sent-waiting v w en s = elim (Bool-cases (w =? v)) [
    | inl h ↦ rw (find-change v w sent_entry s.cache, h) (commands_in-sent (find v s.cache))
    | inr h ↦ rw (find-change v w sent_entry s.cache, h) refl
  ]

  abbrev pub has : Option (CommandData Cmd) → Bool
  has none = false
  has (some en) = true

  -- What the loop over the entries does when everything is taken.
  abbrev pub Advanced : List (ℕ × CommandData Cmd) → Session Cmd → Session Cmd → Type 0
  Advanced xs s s' =
      (BeginsOnce s → BeginsOnce s')
      × ((v : ℕ) → sent_commands v s'.sent ≡ sent_commands v s.sent ++ waiting v xs)
      × ((v : ℕ) → waiting v s'.cache ≡ (if has (find v xs) then [] else waiting v s.cache))
      × (Distinct s.cache → Distinct s'.cache)

  pub entry_sent-Advanced :
      (w : ℕ) (en : CommandData Cmd) (xs : List (ℕ × CommandData Cmd)) (s s' : Session Cmd)
      → find w xs ≡ none
      → Advanced xs (entry_sent w en s) s'
      → Advanced ((w, en) ∷ xs) s s'
  unfolding find
  entry_sent-Advanced w en xs s s' absent (once, got, left, keys) = (
    λ o. once (entry_sent-BeginsOnce w en s o),
    λ v. elim (Bool-cases (w =? v)) [
      | inl h ↦
          let none_left : find v xs ≡ none =
            subst (λ j. find j xs ≡ none) ((==_iff w v).0 h) absent in
          rw (got v, entry_sent-sent_commands v w en s, h, none_left)
            (append-nil (sent_commands v s.sent ++ en.commands))
      | inr h ↦
          rw (got v, entry_sent-sent_commands v w en s, h)
            (ap (λ l. l ++ waiting v xs) (append-nil (sent_commands v s.sent)))
    ],
    λ v. elim (Bool-cases (w =? v)) [
      | inl h ↦
          let none_left : find v xs ≡ none =
            subst (λ j. find j xs ≡ none) ((==_iff w v).0 h) absent in
          rw (left v, entry_sent-waiting v w en s, h, none_left) refl
      | inr h ↦ rw (left v, entry_sent-waiting v w en s, h) refl
    ],
    λ d. keys (change-Distinct w sent_entry s.cache d),
  )

  module _ {Res : Type 0} (link : Link Cmd Res) where
    send_items-all :
        (w : ℕ) (is : List (Message Cmd))
        → (send_items link w is).1 ≡ true
        → (send_items link w is).0 ≡ map (to_server w) is
    unfolding send_items
    send_items-all w [] h = refl
    send_items-all w (i ∷ is) h = ground (arith, send_items-all w is)

    send_entry-taken :
        (w : ℕ) (en : CommandData Cmd) (s : Session Cmd)
        → (send_entry link w en s).1 ≡ true
        → (send_entry link w en s).0 ≡ entry_sent w en s
    unfolding send_entry
    send_entry-taken w en s =
        elim (Bool-cases ((send_items link w (messages en.flags (s.states w) en.commands)).1)) [
          | inl t ↦
              rw (t, send_items-all w (messages en.flags (s.states w) en.commands) t) (λ h. refl)
          | inr t ↦ rw t (λ h. ground (arith, h))
        ]

    pub send_entries-Advanced :
        (xs : List (ℕ × CommandData Cmd)) (s : Session Cmd)
        → Distinct xs
        → (send_entries link xs s).1 ≡ true
        → Advanced xs s (send_entries link xs s).0
    unfolding send_entries find
    send_entries-Advanced [] s d =
        λ h. (λ o. o, λ v. sym (append-nil (sent_commands v s.sent)), λ v. refl, λ d. d)
    send_entries-Advanced ((w, en) ∷ xs) s (absent, d) =
        elim (Bool-cases ((send_entry link w en s).1)) [
          | inl t ↦
              rw (t, send_entry-taken w en s t)
                (λ h.
                  entry_sent-Advanced w en xs s _ absent
                    (send_entries-Advanced xs (entry_sent w en s) d h))
          | inr t ↦ rw t (λ h. ground (arith, h))
        ]
