-- ===== src/RemoteComm/Logs.antt =====
-- What was sent to one server by falcon/distributed_backend/remote_comm_falcon.c: its commands and its
-- BEGINs.
use falconfs.Common.{
  ℕ, ◌+◌, ◌≡◌, refl, ap, inl, inr, Option, none, some, List, [], ◌∷◌, ◌++◌, map, arith,
  if◌then◌else◌, Bool-cases, ◌=?◌, nat_eq, list_eq, find, mapped,
}
use falconfs.RemoteComm.{
  RemoteState, not_begun, begun_for_write, begun_for_snapshot, prepared, Flags, state_after,
  needs_begin,
}
use falconfs.RemoteComm.Commands.{
  Message, begin_work, command, CommandData, Session, messages, sent_entry,
}

abbrev pub in_transaction : RemoteState → ℕ
in_transaction not_begun = 0
in_transaction begun_for_write = 1
in_transaction begun_for_snapshot = 1
in_transaction prepared = 1

pub state_after-in_transaction :
    (f : Flags) (s : RemoteState)
    → in_transaction (state_after f s) ≡ (if needs_begin f s then 1 else 0) + in_transaction s
state_after-in_transaction f not_begun = elim (Bool-cases f.write) [
  | inl h ↦ rw h refl
  | inr h ↦ elim (Bool-cases f.need_snapshot) [ inl k ↦ rw (h, k) refl | inr k ↦ rw (h, k) refl ]
]
state_after-in_transaction f begun_for_write = refl
state_after-in_transaction f begun_for_snapshot = refl
state_after-in_transaction f prepared = refl

module _ {Cmd : Type 0} where
  abbrev pub commands_in : Option (CommandData Cmd) → List Cmd
  commands_in none = []
  commands_in (some en) = en.commands

  -- The commands that wait for a server.
  abbrev pub waiting : ℕ → List (ℕ × CommandData Cmd) → List Cmd
  waiting w cache = commands_in (find w cache)

  pub commands_in-sent : (o : Option (CommandData Cmd)) → commands_in (mapped sent_entry o) ≡ []
  commands_in-sent none = refl
  commands_in-sent (some en) = refl

  -- The commands that a server got, and how often it got a BEGIN.
  unfoldable pub sent_commands : ℕ → List (ℕ × Message Cmd) → List Cmd
  sent_commands w [] = []
  sent_commands w ((j, begin_work) ∷ xs) = sent_commands w xs
  sent_commands w ((j, command c) ∷ xs) =
      if j =? w then c ∷ sent_commands w xs else sent_commands w xs

  unfoldable pub begins : ℕ → List (ℕ × Message Cmd) → ℕ
  begins w [] = 0
  begins w ((j, begin_work) ∷ xs) = (if j =? w then 1 else 0) + begins w xs
  begins w ((j, command c) ∷ xs) = begins w xs

  pub sent_commands-append :
      (w : ℕ) (xs ys : List (ℕ × Message Cmd))
      → sent_commands w (xs ++ ys) ≡ sent_commands w xs ++ sent_commands w ys
  unfolding sent_commands
  sent_commands-append w [] ys = refl
  sent_commands-append w ((j, begin_work) ∷ xs) ys = sent_commands-append w xs ys
  sent_commands-append w ((j, command c) ∷ xs) ys = elim (Bool-cases (j =? w)) [
    | inl h ↦ rw h (ap (λ l. c ∷ l) (sent_commands-append w xs ys))
    | inr h ↦ rw h (sent_commands-append w xs ys)
  ]

  pub begins-append :
      (w : ℕ) (xs ys : List (ℕ × Message Cmd)) → begins w (xs ++ ys) ≡ begins w xs + begins w ys
  unfolding begins
  begins-append w [] ys = ground arith
  begins-append w ((j, begin_work) ∷ xs) ys = ground (arith, begins-append w xs ys)
  begins-append w ((j, command c) ∷ xs) ys = begins-append w xs ys

  abbrev pub to_server : ℕ → Message Cmd → ℕ × Message Cmd
  to_server w i = (w, i)

  sent_commands-to_server :
      (v w : ℕ) (cs : List Cmd)
      → sent_commands v (map (to_server w) (map command cs)) ≡ (if w =? v then cs else [])
  unfolding sent_commands
  sent_commands-to_server v w [] = ground arith
  sent_commands-to_server v w (c ∷ cs) = ground (arith, sent_commands-to_server v w cs)

  begins-to_server : (v w : ℕ) (cs : List Cmd) → begins v (map (to_server w) (map command cs)) ≡ 0
  unfolding begins
  begins-to_server v w [] = refl
  begins-to_server v w (c ∷ cs) = begins-to_server v w cs

  pub sent_commands-messages :
      (v w : ℕ) (f : Flags) (s : RemoteState) (cs : List Cmd)
      → sent_commands v (map (to_server w) (messages f s cs)) ≡ (if w =? v then cs else [])
  unfolding sent_commands
  sent_commands-messages v w f s cs = elim (Bool-cases (needs_begin f s)) [
    | inl h ↦ rw h (sent_commands-to_server v w cs)
    | inr h ↦ rw h (sent_commands-to_server v w cs)
  ]

  pub begins-messages :
      (v w : ℕ) (f : Flags) (s : RemoteState) (cs : List Cmd)
      → begins v (map (to_server w) (messages f s cs))
        ≡ (if w =? v then if needs_begin f s then 1 else 0 else 0)
  unfolding begins
  begins-messages v w f s cs = elim (Bool-cases (needs_begin f s)) [
    | inl h ↦ rw (h, begins-to_server v w cs) (ground arith)
    | inr h ↦ rw (h, begins-to_server v w cs) (ground arith)
  ]

  -- Every server has got one BEGIN if it is in a transaction, and none otherwise.
  abbrev pub BeginsOnce : Session Cmd → Type 0
  BeginsOnce s = (w : ℕ) → begins w s.sent ≡ in_transaction (s.states w)
