-- ===== src/RemoteComm/Requests.antt =====
-- A whole transaction's commands in falcon/distributed_backend/remote_comm_falcon.c: any sequence of
-- commands and rounds.
use falconfs.Common.{
  ℕ, ◌≡◌, refl, sym, ap, subst, ◌∙◌, inl, inr, true, Option, none, some, List, [], ◌∷◌, ◌++◌,
  if◌then◌else◌, ==_iff, Bool-cases, Option-cases, ◌=?◌, nat_eq, list_eq, find, Distinct,
  find-change, change-Distinct,
}
use mathlib.Core.List.{append-nil, append_assoc}
use falconfs.RemoteComm.{not_begun, Flags}
use falconfs.RemoteComm.Commands.{
  entered, CommandData, Link, Session, with_command, append_for, append_remote_command,
  send_command_and_wait, Call, append, round, served, perform, perform_all,
}
use falconfs.RemoteComm.Logs.{in_transaction, waiting, sent_commands, begins, BeginsOnce}
use falconfs.RemoteComm.Rounds.{OnSome, Emptied, send_command_and_wait-Emptied}

module _ {Cmd : Type 0} where
  -- The commands that the calls ask of a server, in order.
  abbrev pub asked_of : Cmd → ℕ → List ℕ → List Cmd
  asked_of c v [] = []
  asked_of c v (w ∷ ws) = (if w =? v then c ∷ [] else []) ++ asked_of c v ws

  abbrev pub asked : ℕ → List (Call Cmd) → List Cmd
  asked v [] = []
  asked v (append f c ws ∷ rs) = asked_of c v ws ++ asked v rs
  asked v (round ∷ rs) = asked v rs

  entered-waiting :
      (f : Flags) (c : Cmd) (w v : ℕ) (o : Option (CommandData Cmd))
      (cache : List (ℕ × CommandData Cmd))
      → find w cache ≡ o
      → waiting v (entered f c w o cache) ≡ waiting v cache ++ (if w =? v then c ∷ [] else [])
  unfolding find
  entered-waiting f c w v none cache e = elim (Bool-cases (w =? v)) [
    | inl h ↦
        let none_there : find v cache ≡ none =
          subst (λ j. find j cache ≡ none) ((==_iff w v).0 h) e in
        rw (h, none_there) refl
    | inr h ↦ rw h (sym (append-nil (waiting v cache)))
  ]
  entered-waiting f c w v (some en) cache e = elim (Bool-cases (w =? v)) [
    | inl h ↦
        let there : find v cache ≡ some en =
          subst (λ j. find j cache ≡ some en) ((==_iff w v).0 h) e in
        rw (find-change v w (with_command f c) cache, h, there) refl
    | inr h ↦ rw (find-change v w (with_command f c) cache, h) (sym (append-nil (waiting v cache)))
  ]

  entered-Distinct :
      (f : Flags) (c : Cmd) (w : ℕ) (o : Option (CommandData Cmd))
      (cache : List (ℕ × CommandData Cmd))
      → find w cache ≡ o
      → Distinct cache
      → Distinct (entered f c w o cache)
  entered-Distinct f c w none cache e d = (e, d)
  entered-Distinct f c w (some en) cache e d = change-Distinct w (with_command f c) cache d

  append_remote_command-waiting :
      (f : Flags) (c : Cmd) (ws : List ℕ) (v : ℕ) (cache : List (ℕ × CommandData Cmd))
      → waiting v (append_remote_command f c ws cache) ≡ waiting v cache ++ asked_of c v ws
  unfolding append_remote_command
  append_remote_command-waiting f c [] v cache = sym (append-nil (waiting v cache))
  append_remote_command-waiting f c (w ∷ ws) v cache =
      rw
        (
          append_remote_command-waiting f c ws v (append_for f c w cache),
          entered-waiting f c w v (find w cache) cache refl,
        )
        (append_assoc (waiting v cache) _ (asked_of c v ws))

  append_remote_command-Distinct :
      (f : Flags) (c : Cmd) (ws : List ℕ) (cache : List (ℕ × CommandData Cmd))
      → Distinct cache
      → Distinct (append_remote_command f c ws cache)
  unfolding append_remote_command
  append_remote_command-Distinct f c [] cache d = d
  append_remote_command-Distinct f c (w ∷ ws) cache d =
      append_remote_command-Distinct f c ws (append_for f c w cache)
        (entered-Distinct f c w (find w cache) cache refl d)

  -- A transaction that has done nothing.
  abbrev pub start : Session Cmd
  start = record { states = λ w. not_begun; cache = []; sent = [] }

  -- What was sent and what waits is what was asked for, and every server has got its BEGIN once.
  abbrev pub InOrder : (ℕ → List Cmd) → Session Cmd → Type 0
  InOrder a s =
      BeginsOnce s
      × ((v : ℕ) → sent_commands v s.sent ++ waiting v s.cache ≡ a v)
      × Distinct s.cache

  module _ {Res : Type 0} (link : Link Cmd Res) where
    OnSome-map :
        (P Q : Session Cmd → Type 0) (o : Option (Session Cmd))
        → ((s : Session Cmd) → P s → Q s)
        → OnSome P o
        → OnSome Q o
    OnSome-map P Q none h p = tt
    OnSome-map P Q (some s) h p = h s p

    perform-InOrder :
        (r : Call Cmd) (a : ℕ → List Cmd) (s : Session Cmd)
        → ((w : ℕ) → link.live w ≡ true)
        → InOrder a s
        → OnSome (InOrder (λ v. a v ++ asked v (r ∷ []))) (perform link r s)
    perform-InOrder (append f c ws) a s l (once, got, d) = (
      once,
      λ v.
          rw (append_remote_command-waiting f c ws v s.cache, append-nil (asked_of c v ws))
            (sym (append_assoc (sent_commands v s.sent) (waiting v s.cache) (asked_of c v ws))
              ∙ ap (λ k. k ++ asked_of c v ws) (got v)),
      append_remote_command-Distinct f c ws s.cache d,
    )
    perform-InOrder round a s l (once, got, d) =
        OnSome-map (Emptied s) (InOrder (λ v. a v ++ []))
          (served link (send_command_and_wait link s))
          (λ s' (again, sent, left, keys). (again once, λ v. rw (left v, sent v, got v) refl, keys))
          (send_command_and_wait-Emptied link s l d)

    asked-cons :
        (v : ℕ) (r : Call Cmd) (rs : List (Call Cmd))
        → asked v (r ∷ []) ++ asked v rs ≡ asked v (r ∷ rs)
    asked-cons v (append f c ws) rs = ap (λ k. k ++ asked v rs) (append-nil (asked_of c v ws))
    asked-cons v round rs = refl

    perform_all-InOrder :
        (rs : List (Call Cmd)) (a : ℕ → List Cmd) (s : Session Cmd)
        → ((w : ℕ) → link.live w ≡ true)
        → InOrder a s
        → OnSome (InOrder (λ v. a v ++ asked v rs)) (perform_all link rs s)
    unfolding perform_all
    perform_all-InOrder [] a s l (once, got, d) = (once, λ v. got v ∙ sym (append-nil (a v)), d)
    perform_all-InOrder (r ∷ rs) a s l i = elim (Option-cases (perform link r s)) [
      | inl n ↦ rw (perform_all, n) tt
      | inr (s', e) ↦
          rw (perform_all, e)
            (OnSome-map (InOrder (λ v. (a v ++ asked v (r ∷ [])) ++ asked v rs))
              (InOrder (λ v. a v ++ asked v (r ∷ rs))) (perform_all link rs s')
              (λ t (once, got, d). (
                once,
                λ v.
                    got v
                    ∙ append_assoc (a v) (asked v (r ∷ [])) (asked v rs)
                    ∙ ap (λ k. a v ++ k) (asked-cons v r rs),
                d,
              ))
              (perform_all-InOrder rs (λ v. a v ++ asked v (r ∷ [])) s' l
                (subst (OnSome (InOrder (λ v. a v ++ asked v (r ∷ [])))) e
                  (perform-InOrder r a s l i))))
    ]

    -- Where every connection is up: after any calls of a new transaction that all return, and a round
    -- that returns, each server has got exactly the commands asked of it, in order and each once, and one
    -- BEGIN if its state says that it is in a transaction and none otherwise.
    pub requests_delivered :
        (rs : List (Call Cmd)) (s s' : Session Cmd) (v : ℕ)
        → ((w : ℕ) → link.live w ≡ true)
        → perform_all link rs start ≡ some s
        → perform link round s ≡ some s'
        → (sent_commands v s'.sent ≡ asked v rs) × (begins v s'.sent ≡ in_transaction (s'.states v))
    unfolding begins sent_commands find
    requests_delivered rs s s' v l e h =
        let (once, got, d) =
          subst (OnSome (InOrder (λ v. asked v rs))) e
            (perform_all-InOrder rs (λ v. []) start l (λ w. refl, λ v. refl, tt)) in
        let (again, sent, left, keys) =
          subst (OnSome (Emptied s)) h (send_command_and_wait-Emptied link s l d) in
        (sent v ∙ got v, again once v)
