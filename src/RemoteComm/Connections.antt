-- ===== src/RemoteComm/Connections.antt =====
-- GetForeignServerConnection of falcon/metadb/foreign_server.c, as the end of a transaction uses it:
-- the states of the connections after it.
use falconfs.Common.{
  elem, ℕ, ◌≡◌, refl, subst, ◌∙◌, fun_ext, inl, inr, Bool, true, false, not, ◌&&◌, ◌||◌, List, [],
  ◌∷◌, arith, ◌==◌, if◌then◌else◌, ==_iff, Bool-cases, nat_eq, list_eq, update, update_here,
  update_there, All,
}
use falconfs.RemoteComm.{
  RemoteState, not_begun, Net, Phase, aborting, reconnect, all_connected, connected,
  get_foreign_server_connection,
}

module _ {Gid : Type 0} (net : Net Gid) where
  -- A server of the transaction whose connection was not there is in no transaction.
  abbrev pub renewed : Phase → List ℕ → (ℕ → RemoteState) → ℕ → RemoteState
  renewed phase ws states w = if elem w ws && not (net.live phase w) then not_begun else states w

  renewed-live :
      (phase : Phase) (v : ℕ) (ws : List ℕ) (states : ℕ → RemoteState) (w : ℕ)
      → net.live phase v ≡ true
      → renewed phase ws states w ≡ renewed phase (v ∷ ws) states w
  unfolding elem
  renewed-live phase v ws states w l = elim (Bool-cases (v == w)) [
    | inr h ↦ rw h refl
    | inl h ↦
        let lw : net.live phase w ≡ true =
          subst (λ i. net.live phase i ≡ true) ((==_iff v w).0 h) l in
        ground (arith, lw)
  ]

  renewed-lost :
      (phase : Phase) (v : ℕ) (ws : List ℕ) (states : ℕ → RemoteState) (w : ℕ)
      → net.live phase v ≡ false
      → renewed phase ws (update states v not_begun) w ≡ renewed phase (v ∷ ws) states w
  unfolding elem
  renewed-lost phase v ws states w l = elim (Bool-cases (v == w)) [
    | inr h ↦ rw (h, update_there states v w not_begun (λ p. ground (arith, p, h))) refl
    | inl h ↦
        let lw : net.live phase w ≡ false =
          subst (λ i. net.live phase i ≡ false) ((==_iff v w).0 h) l in
        rw (h, lw, update_here states v w not_begun ((==_iff v w).0 h)) (ground arith)
  ]

  reconnect-renewed :
      (phase : Phase) (ws : List ℕ) (states : ℕ → RemoteState) (w : ℕ)
      → (reconnect net phase ws states).1 ≡ true
      → (reconnect net phase ws states).0 w ≡ renewed phase ws states w
  unfolding reconnect elem
  reconnect-renewed phase [] states w = λ h. refl
  reconnect-renewed phase (v ∷ ws) states w = elim (Bool-cases (net.live phase v)) [
    | inl l ↦
        rw (reconnect, l)
          (λ h. reconnect-renewed phase ws states w h ∙ renewed-live phase v ws states w l)
    | inr l ↦ elim (Bool-cases (net.known phase v)) [
      | inr k ↦ rw (reconnect, l, k) (λ h. absurd (ground (arith, h)))
      | inl k ↦
          rw (reconnect, l, k)
            (λ h.
              reconnect-renewed phase ws (update states v not_begun) w h
              ∙ renewed-lost phase v ws states w l)
    ]
  ]

  both : (a b : Bool) → a && b ≡ true → a ≡ true
  both a b h = ground (arith, h)

  pub connection-renewed :
      (phase : Phase) (ws : List ℕ) (states : ℕ → RemoteState)
      → (get_foreign_server_connection net phase ws states).1 ≡ true
      → (get_foreign_server_connection net phase ws states).0 ≡ renewed phase ws states
  unfolding get_foreign_server_connection
  connection-renewed phase ws states = elim (Bool-cases (net.reloads phase)) [
    | inr r ↦ rw r (λ h. absurd (ground (arith, h)))
    | inl r ↦ rw r (λ h. fun_ext (λ w. reconnect-renewed phase ws states w (both _ _ h)))
  ]

  -- A server that the list of servers has, or whose connection is there.
  abbrev pub Reachable : Phase → ℕ → Type 0
  Reachable phase w = (net.live phase w || net.known phase w) ≡ true

  reach_every :
      (phase : Phase) (ws : List ℕ) (states : ℕ → RemoteState)
      → All (Reachable phase) ws
      → (reconnect net phase ws states).1 ≡ true
  unfolding reconnect
  reach_every phase [] states good = refl
  reach_every phase (v ∷ ws) states (g, good) = elim (Bool-cases (net.live phase v)) [
    | inl l ↦ rw (reconnect, l) (reach_every phase ws states good)
    | inr l ↦ elim (Bool-cases (net.known phase v)) [
      | inr k ↦ absurd (ground (arith, g, l, k))
      | inl k ↦ rw (reconnect, l, k) (reach_every phase ws (update states v not_begun) good)
    ]
  ]

  connected_every :
      (phase : Phase) (ws : List ℕ)
      → All (λ w. connected net phase w ≡ true) ws
      → all_connected net phase ws ≡ true
  unfolding all_connected
  connected_every phase [] good = refl
  connected_every phase (v ∷ ws) (g, good) = rw g (connected_every phase ws good)

  -- An abort raises no error if every server can be reached.
  pub abort_connection :
      (ws : List ℕ) (states : ℕ → RemoteState)
      → net.reloads aborting ≡ true
      → All (Reachable aborting) ws
      → (get_foreign_server_connection net aborting ws states).1 ≡ true
  unfolding get_foreign_server_connection
  abort_connection ws states r good = rw (r, reach_every aborting ws states good) refl

  -- Any call does not if moreover every connection comes up.
  pub any_connection :
      (phase : Phase) (ws : List ℕ) (states : ℕ → RemoteState)
      → net.reloads phase ≡ true
      → All (Reachable phase) ws
      → All (λ w. connected net phase w ≡ true) ws
      → (get_foreign_server_connection net phase ws states).1 ≡ true
  unfolding get_foreign_server_connection
  any_connection phase ws states r good up =
      rw (r, reach_every phase ws states good, connected_every phase ws up) (ground arith)
