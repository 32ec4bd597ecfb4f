-- ===== src/RemoteComm/Rounds.antt =====
-- A round of falcon/distributed_backend/remote_comm_falcon.c that returns leaves nothing waiting.
use falconfs.Common.{
  ℕ, ◌≡◌, refl, sym, ap, subst, ◌∙◌, inl, inr, true, false, Option, none, some, List, [], ◌∷◌, ◌++◌,
  arith, if◌then◌else◌, ==_iff, Bool-cases, ◌=?◌, nat_eq, list_eq, find, Distinct,
}
use falconfs.RemoteComm.{RemoteState}
use falconfs.RemoteComm.Commands.{
  CommandData, Link, Session, is_waiting, unsent, get_connections, send_entries, collect_entries,
  with_results, send_command_and_wait, served,
}
use falconfs.RemoteComm.Logs.{commands_in, waiting, sent_commands, BeginsOnce}
use falconfs.RemoteComm.Delivery.{has, Advanced, send_entries-Advanced}

module _ {Cmd : Type 0} where
  unsent-find :
      (v : ℕ) (cache : List (ℕ × CommandData Cmd))
      → find v cache ≡ none
      → find v (unsent cache) ≡ none
  unfolding unsent find
  unsent-find v [] h = refl
  unsent-find v ((w, en) ∷ xs) h = ground (arith, unsent-find v xs)

  unsent-Distinct : (cache : List (ℕ × CommandData Cmd)) → Distinct cache → Distinct (unsent cache)
  unfolding unsent
  unsent-Distinct [] d = tt
  unsent-Distinct ((w, en) ∷ xs) (absent, d) = elim (Bool-cases (is_waiting en.commands)) [
    | inl h ↦ rw h (unsent-find w xs absent, unsent-Distinct xs d)
    | inr h ↦ rw h (unsent-Distinct xs d)
  ]

  not_waiting : (cs : List Cmd) → is_waiting cs ≡ false → cs ≡ []
  not_waiting [] h = refl
  not_waiting (c ∷ cs) h = ground (arith, h)

  waiting-unsent :
      (v : ℕ) (cache : List (ℕ × CommandData Cmd))
      → Distinct cache
      → waiting v (unsent cache) ≡ waiting v cache
  unfolding unsent find
  waiting-unsent v [] d = refl
  waiting-unsent v ((w, en) ∷ xs) (absent, d) = elim (Bool-cases (is_waiting en.commands)) [
    | inl h ↦ elim (Bool-cases (w =? v)) [
      | inl k ↦ rw (h, k) refl
      | inr k ↦ rw (h, k) (waiting-unsent v xs d)
    ]
    | inr h ↦ elim (Bool-cases (w =? v)) [
      | inl k ↦
          let none_left : find v xs ≡ none =
            subst (λ j. find j xs ≡ none) ((==_iff w v).0 k) absent in
          rw (h, k, waiting-unsent v xs d, none_left) (sym (not_waiting en.commands h))
      | inr k ↦ rw (h, k) (waiting-unsent v xs d)
    ]
  ]

  abbrev pub OnSome : (Session Cmd → Type 0) → Option (Session Cmd) → Type 0
  OnSome P none = Unit
  OnSome P (some s) = P s

  -- Everything that waited has been sent, and nothing waits.
  abbrev pub Emptied : Session Cmd → Session Cmd → Type 0
  Emptied s s' =
      (BeginsOnce s → BeginsOnce s')
      × ((v : ℕ) → sent_commands v s'.sent ≡ sent_commands v s.sent ++ waiting v s.cache)
      × ((v : ℕ) → waiting v s'.cache ≡ [])
      × Distinct s'.cache

  nothing_left :
      (a b : Option (CommandData Cmd))
      → commands_in a ≡ commands_in b
      → (if has a then [] else commands_in b) ≡ []
  nothing_left none b h = sym h
  nothing_left (some en) b h = refl

  Advanced-Emptied :
      (s s' : Session Cmd) → Distinct s.cache → Advanced (unsent s.cache) s s' → Emptied s s'
  Advanced-Emptied s s' d (once, got, left, keys) = (
    once,
    λ v. got v ∙ ap (λ l. sent_commands v s.sent ++ l) (waiting-unsent v s.cache d),
    λ v.
        left v
        ∙ nothing_left (find v (unsent s.cache)) (find v s.cache) (waiting-unsent v s.cache d),
    keys d,
  )

  module _ {Res : Type 0} (link : Link Cmd Res) where
    pub get_connections-live :
        (xs : List (ℕ × CommandData Cmd)) (states : ℕ → RemoteState)
        → ((w : ℕ) → link.live w ≡ true)
        → get_connections link xs states ≡ (states, true)
    unfolding get_connections
    get_connections-live [] states l = refl
    get_connections-live ((w, en) ∷ xs) states l = rw (l w) (get_connections-live xs states l)

    with_results-OnSome :
        (P : Session Cmd → Type 0) (o : Option (List (ℕ × List Res))) (s : Session Cmd)
        → P s
        → OnSome P (served link (with_results link o s))
    with_results-OnSome P none s p = tt
    with_results-OnSome P (some rss) s p = p

    pub send_command_and_wait-Emptied :
        (s : Session Cmd)
        → ((w : ℕ) → link.live w ≡ true)
        → Distinct s.cache
        → OnSome (Emptied s) (served link (send_command_and_wait link s))
    unfolding send_command_and_wait
    send_command_and_wait-Emptied s l d =
        rw (get_connections-live (unsent s.cache) s.states l)
          (elim (Bool-cases ((send_entries link (unsent s.cache) s).1)) [
            | inl t ↦ rw t (
                with_results-OnSome (Emptied s) (collect_entries link s.states (unsent s.cache)) _ (
                  Advanced-Emptied s _ d
                    (send_entries-Advanced link (unsent s.cache) s (unsent-Distinct s.cache d) t)))
            | inr t ↦ rw t tt
          ])
