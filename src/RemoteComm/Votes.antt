-- ===== src/RemoteComm/Votes.antt =====
-- The first phase in falcon/distributed_backend/remote_comm_falcon.c: what a prepare that returns
-- says of every server.
use falconfs.Common.{
  elem, ℕ, ◌≤◌, ◌<◌, ◌≡◌, refl, sym, ap, subst, ◌∙◌, ◌⊎◌, inl, inr, Bool, true, false, ◌&&◌, ◌||◌,
  some, List, [], ◌∷◌, arith, ltb, ◌==◌, if◌then◌else◌, ltb→lt, ==_iff, Bool-cases, Eq, nat_eq,
  list_eq, =?_refl, update, update_here, update_there, Result-cases, Result, ok, err,
}
use falconfs.Cleanup.{add_inprogress, Row, write_2pc_record}
use falconfs.Cleanup.Laws.{recorded}
use falconfs.RemoteComm.Connections.{renewed, connection-renewed}
use falconfs.RemoteComm.{
  preparing, get_foreign_server_connection, prepare_connected, prepare_for, voted, prepare_failed,
  Error, write_count, send_prepares, Coordinator, prepare_workers, falcon_remote_command_prepare,
  RemoteState, prepared, prepare, Net, is_writer, collect_prepared,
}

-- A server of the transaction that has written.
abbrev pub writes : List ℕ → (ℕ → RemoteState) → ℕ → Bool
writes ws states w = elem w ws && is_writer (states w)

same_state : (v w : ℕ) (states : ℕ → RemoteState) → (v == w) ≡ true → states v ≡ states w
same_state v w states h = ap states ((==_iff v w).0 h)

writes-skip :
    (v : ℕ) (ws : List ℕ) (states : ℕ → RemoteState) (w : ℕ)
    → is_writer (states v) ≡ false
    → writes (v ∷ ws) states w ≡ writes ws states w
unfolding elem
writes-skip v ws states w n = elim (Bool-cases (v == w)) [
  | inl h ↦ ground (arith, h, n, ap is_writer (same_state v w states h))
  | inr h ↦ rw h refl
]

writer_here :
    (v w : ℕ) (states : ℕ → RemoteState)
    → (v == w) ≡ true
    → is_writer (states v) ≡ true
    → is_writer (states w) ≡ true
writer_here v w states h y = subst (λ s. is_writer s ≡ true) (same_state v w states h) y

now_prepared :
    (v w : ℕ) (states : ℕ → RemoteState) → (v == w) ≡ true → update states v prepared w ≡ prepared
now_prepared v w states h = update_here states v w prepared ((==_iff v w).0 h)

as_before :
    (v w : ℕ) (states : ℕ → RemoteState) → (v == w) ≡ false → update states v prepared w ≡ states w
as_before v w states h = update_there states v w prepared (λ p. ground (arith, p, h))

vote_state :
    (v : ℕ) (ws : List ℕ) (states : ℕ → RemoteState) (w : ℕ)
    → is_writer (states v) ≡ true
    → (if writes ws (update states v prepared) w then prepared else update states v prepared w)
      ≡ (if writes (v ∷ ws) states w then prepared else states w)
unfolding elem
vote_state v ws states w y = elim (Bool-cases (v == w)) [
  | inl h ↦ rw (now_prepared v w states h, h, writer_here v w states h y) (ground arith)
  | inr h ↦ rw (as_before v w states h, h) refl
]

module _ {Gid : Type 0} ⦃e : Eq Gid⦄ (net : Net Gid) where
  vote_row :
      (v : ℕ) (ws : List ℕ) (states : ℕ → RemoteState) (w : ℕ) (g : Gid) (rows : List (Row Gid))
      → is_writer (states v) ≡ true
      → writes ws (update states v prepared) w || recorded w g (write_2pc_record v g rows)
        ≡ writes (v ∷ ws) states w || recorded w g rows
  unfolding elem recorded
  vote_row v ws states w g rows y = elim (Bool-cases (v == w)) [
    | inl h ↦
        rw (now_prepared v w states h, h, writer_here v w states h y, =?_refl g) (ground arith)
    | inr h ↦ rw (as_before v w states h, h) refl
  ]

  abbrev Collected :
      Gid
      → List ℕ
      → (ℕ → RemoteState)
      → List (Row Gid)
      → (ℕ → RemoteState) × List (Row Gid) × Bool
      → Type 0
  Collected g ws states rows (states', rows', all_voted) =
      all_voted ≡ true
      → (w : ℕ)
      → (states' w ≡ (if writes ws states w then prepared else states w))
        × (recorded w g rows' ≡ writes ws states w || recorded w g rows)

  collect-Collected :
      (g : Gid) (ws : List ℕ) (states : ℕ → RemoteState) (rows : List (Row Gid))
      → Collected g ws states rows (collect_prepared net g ws states rows)
  unfolding collect_prepared elem
  collect-Collected g [] states rows = λ h w. (refl, refl)
  collect-Collected g (v ∷ ws) states rows = elim (Bool-cases (is_writer (states v))) [
    | inr n ↦
        rw (collect_prepared, n)
          (λ h w. rw (writes-skip v ws states w n) (collect-Collected g ws states rows h w))
    | inl y ↦ elim (Bool-cases (net.confirms v (prepare g))) [
      | inr f ↦ rw (collect_prepared, y, f) (λ h. absurd (ground (arith, h)))
      | inl t ↦ elim (Bool-cases (net.ends v)) [
        | inr z ↦ rw (collect_prepared, y, t, z) (λ h. absurd (ground (arith, h)))
        | inl z ↦
            rw (collect_prepared, y, t, z)
              (λ h w.
                let (state, row) =
                  collect-Collected g ws (update states v prepared) (write_2pc_record v g rows) h
                    w in
                (state ∙ vote_state v ws states w y, row ∙ vote_row v ws states w g rows y))
      ]
    ]
  ]

  -- With one writer at most nothing is done. Otherwise every writer is prepared and has its row, and
  -- the transaction is under way.
  abbrev pub Voted : Gid → List ℕ → Coordinator Gid → Coordinator Gid → Type 0
  Voted g ws c c' =
      ((write_count net ws c < 2) × (c' ≡ c))
      ⊎ ((2 ≤ write_count net ws c)
          × (c'.gid ≡ some g)
          × (elem g c'.in_progress ≡ true)
          × (c'.workers ≡ c.workers)
          × ((w : ℕ)
              → (c'.states w ≡ (if writes ws c.states w then prepared else c.states w))
                × (recorded w g c'.records ≡ writes ws c.states w || recorded w g c.records)))

  added : (g : Gid) (gs gs' : List Gid) → add_inprogress g gs ≡ ok gs' → elem g gs' ≡ true
  unfolding add_inprogress elem
  added g gs gs' h = ground (arith, h, =?_refl g)

  abbrev OnOk : (Coordinator Gid → Type 0) → Coordinator Gid × Result Error (Unit {0}) → Type 0
  OnOk P (c, r) = r ≡ ok tt → P c

  passed :
      (b : Bool) (x : Error)
      → (let r : Result Error (Unit {0}) = if b then ok tt else err x in r ≡ ok tt)
      → b ≡ true
  passed true x h = refl
  passed false x h = cc

  abbrev AllPrepared : Gid → List ℕ → Coordinator Gid → Coordinator Gid → Type 0
  AllPrepared g ws c c' =
      (w : ℕ)
      → (c'.states w ≡ (if writes ws c.states w then prepared else c.states w))
        × (recorded w g c'.records ≡ writes ws c.states w || recorded w g c.records)

  workers_voted :
      (g : Gid) (ws : List ℕ) (c : Coordinator Gid)
      → OnOk
          (λ c'.
            (c'.gid ≡ c.gid)
            × (c'.in_progress ≡ c.in_progress)
            × (c'.workers ≡ c.workers)
            × AllPrepared g ws c c')
          (prepare_workers net g ws c)
  unfolding prepare_workers
  workers_voted g ws c = elim (Result-cases (send_prepares net g ws c.states c.sent).1) [
    | inr (x, e) ↦ rw (prepare_workers, voted, e) (λ h. cc)
    | inl (u, e) ↦
        rw (prepare_workers, voted, e)
          (λ h. (
            refl,
            refl,
            refl,
            collect-Collected g ws c.states c.records (passed _ prepare_failed h),
          ))
  ]

  prepare_connected-Voted :
      (g : Gid) (ws : List ℕ) (c : Coordinator Gid)
      → OnOk (Voted g ws c) (prepare_connected net g ws c)
  prepare_connected-Voted g ws c = elim (Bool-cases (ltb (write_count net ws c) 2)) [
    | inl few ↦ rw few (λ h. inl (ltb→lt _ _ few, refl))
    | inr many ↦ elim (Result-cases (add_inprogress g c.in_progress)) [
      | inr (x, d) ↦ rw (many, d) (λ h. cc)
      | inl (gs, d) ↦
          rw (many, d)
            (λ h.
              let (name, under_way, workers, all) =
                workers_voted g ws (record c { gid = some g; in_progress = gs }) h in
              inr (
                ground (arith, many),
                name,
                rw under_way (added g c.in_progress gs d),
                workers,
                all,
              ))
    ]
  ]

  -- The coordinator after its connections were looked at.
  abbrev pub found : List ℕ → Coordinator Gid → Coordinator Gid
  found ws c = record c { states = renewed net preparing ws c.states }

  prepare_for-Voted :
      (g : Gid) (ws : List ℕ) (c : Coordinator Gid)
      → OnOk (Voted g ws (found ws c)) (prepare_for net g (some ws) c)
  prepare_for-Voted g ws c =
      elim (Bool-cases ((get_foreign_server_connection net preparing ws c.states).1)) [
        | inr f ↦ rw f (λ h. cc)
        | inl t ↦ rw t (
            subst
              (λ states.
                OnOk (Voted g ws (found ws c))
                  (prepare_connected net g ws (record c { states = states })))
              (sym (connection-renewed net preparing ws c.states t))
              (prepare_connected-Voted g ws (found ws c)))
      ]

  pub prepare-Voted :
      (g : Gid) (ws : List ℕ) (c : Coordinator Gid)
      → c.workers ≡ some ws
      → (falcon_remote_command_prepare net g c).1 ≡ ok tt
      → Voted g ws (found ws c) (falcon_remote_command_prepare net g c).0
  unfolding falcon_remote_command_prepare
  prepare-Voted g ws c e =
      subst (λ o. OnOk (Voted g ws (found ws c)) (prepare_for net g o c)) (sym e)
        (prepare_for-Voted g ws c)
