-- ===== src/RemoteComm/Outcome.antt =====
-- What the servers of a transaction are told at its end,
-- falcon/distributed_backend/remote_comm_falcon.c.
use falconfs.Common.{
  ap, ℕ, ◌≡◌, refl, sym, subst, ◌∙◌, inl, inr, Bool, true, false, ◌&&◌, ◌||◌, Option, none, some,
  List, [], ◌∷◌, arith, ltb, Bool-cases, Option-cases, Eq, nat_eq, list_eq, Result-cases, Result,
  ok, err,
}
use falconfs.RemoteComm.{
  preparing, committing, aborting, connected, get_foreign_server_connection, prepare_connected,
  clear_remote_connection_command, add_inprogress, write_count, falcon_remote_command_prepare,
  prepare_for, voted, Error, prepare_workers, Coordinator, RemoteState, not_begun, begun_for_write,
  begun_for_snapshot, prepared, Control, begin, commit, rollback, prepare, commit_prepared,
  rollback_prepared, Net, is_writer, Log, commit_control, rollback_control, send_prepares,
}
use falconfs.RemoteComm.Decide.{
  after_rollbacks, after_commands, after_commit, send_commits, commit_for,
  falcon_remote_command_commit, send_rollbacks, abort_for, falcon_remote_command_abort,
  clear_remote_transaction_gid, commit_event, abort_event, ended, end_transaction,
}

-- What a control says to a server.
abbrev pub says_commit : {Gid : Type 0} → Control Gid → Bool
says_commit begin = false
says_commit commit = true
says_commit rollback = false
says_commit (prepare g) = false
says_commit (commit_prepared g) = true
says_commit (rollback_prepared g) = false

abbrev pub says_rollback : {Gid : Type 0} → Control Gid → Bool
says_rollback begin = false
says_rollback commit = false
says_rollback rollback = true
says_rollback (prepare g) = false
says_rollback (commit_prepared g) = false
says_rollback (rollback_prepared g) = true

module _ {Gid : Type 0} where
  -- Whether some server was told so.
  unfoldable pub told : (Control Gid → Bool) → Log Gid → Bool
  told says [] = false
  told says ((w, k) ∷ log) = says k || told says log

  commit_control-says :
      (gid : Option Gid) (s : RemoteState) {k : Control Gid}
      → commit_control gid s ≡ some k
      → says_rollback k ≡ false
  commit_control-says gid not_begun e = ground (arith, e)
  commit_control-says gid begun_for_write e = ground (arith, e)
  commit_control-says gid begun_for_snapshot e = ground (arith, e)
  commit_control-says gid prepared e = ground (arith, e)

  rollback_control-says :
      (gid : Option Gid) (s : RemoteState) {k : Control Gid}
      → rollback_control gid s ≡ some k
      → says_commit k ≡ false
  rollback_control-says gid not_begun e = ground (arith, e)
  rollback_control-says gid begun_for_write e = ground (arith, e)
  rollback_control-says gid begun_for_snapshot e = ground (arith, e)
  rollback_control-says gid prepared e = ground (arith, e)

  module _ (net : Net Gid) where
    send_commits-told :
        (gid : Option Gid) (ws : List ℕ) (states : ℕ → RemoteState) (log : Log Gid)
        → told says_rollback (send_commits net gid ws states log).0 ≡ told says_rollback log
    unfolding send_commits told
    send_commits-told gid [] states log = refl
    send_commits-told gid (w ∷ ws) states log = elim (Bool-cases (net.unfetched w)) [
      | inl u ↦ rw (send_commits, u) refl
      | inr u ↦ elim (Option-cases (commit_control gid (states w))) [
        | inl e ↦ rw (send_commits, u, e) (send_commits-told gid ws states log)
        | inr (k, e) ↦ elim (Bool-cases (net.sends w k)) [
          | inr f ↦ rw (send_commits, u, e, f, commit_control-says gid (states w) e) refl
          | inl t ↦
              rw (send_commits, u, e, t)
                (send_commits-told gid ws states ((w, k) ∷ log)
                  ∙ rw (commit_control-says gid (states w) e) refl)
        ]
      ]
    ]

    send_rollbacks-told :
        (gid : Option Gid) (ws : List ℕ) (states : ℕ → RemoteState) (log : Log Gid)
        → told says_commit (send_rollbacks net gid ws states log).0 ≡ told says_commit log
    unfolding send_rollbacks told
    send_rollbacks-told gid [] states log = refl
    send_rollbacks-told gid (w ∷ ws) states log = elim (Bool-cases (connected net aborting w)) [
      | inr u ↦ rw (send_rollbacks, u) (send_rollbacks-told gid ws states log)
      | inl u ↦ elim (Option-cases (rollback_control gid (states w))) [
        | inl e ↦ rw (send_rollbacks, u, e) (send_rollbacks-told gid ws states log)
        | inr (k, e) ↦ elim (Bool-cases (net.sends w k)) [
          | inr f ↦
              rw (send_rollbacks, u, e, f)
                (send_rollbacks-told gid ws states ((w, k) ∷ log)
                  ∙ rw (rollback_control-says gid (states w) e) refl)
          | inl t ↦
              rw (send_rollbacks, u, e, t)
                (send_rollbacks-told gid ws states ((w, k) ∷ log)
                  ∙ rw (rollback_control-says gid (states w) e) refl)
        ]
      ]
    ]

    send_prepares-told :
        (says : Control Gid → Bool) (g : Gid) (ws : List ℕ) (states : ℕ → RemoteState)
        (log : Log Gid)
        → says (prepare g) ≡ false
        → told says (send_prepares net g ws states log).0 ≡ told says log
    unfolding send_prepares told
    send_prepares-told says g [] states log quiet = refl
    send_prepares-told says g (w ∷ ws) states log quiet = elim (Bool-cases (net.unfetched w)) [
      | inl u ↦ rw (send_prepares, u) refl
      | inr u ↦ elim (Bool-cases (is_writer (states w))) [
        | inr e ↦ rw (send_prepares, u, e) (send_prepares-told says g ws states log quiet)
        | inl e ↦ elim (Bool-cases (net.sends w (prepare g))) [
          | inr f ↦ rw (send_prepares, u, e, f, quiet) refl
          | inl t ↦
              rw (send_prepares, u, e, t)
                (send_prepares-told says g ws states ((w, prepare g) ∷ log) quiet ∙ rw quiet refl)
        ]
      ]
    ]

    module _ ⦃e : Eq Gid⦄ where
      workers-told :
          (says : Control Gid → Bool) (g : Gid) (ws : List ℕ) (c : Coordinator Gid)
          → says (prepare g) ≡ false
          → told says (prepare_workers net g ws c).0.sent ≡ told says c.sent
      unfolding prepare_workers
      workers-told says g ws c quiet =
          elim (Result-cases (send_prepares net g ws c.states c.sent).1) [
            | inl (u, e) ↦
                rw (prepare_workers, voted, e) (send_prepares-told says g ws c.states c.sent quiet)
            | inr (x, e) ↦
                rw (prepare_workers, e) (send_prepares-told says g ws c.states c.sent quiet)
          ]

      prepare_connected-told :
          (says : Control Gid → Bool) (g : Gid) (ws : List ℕ) (c : Coordinator Gid)
          → says (prepare g) ≡ false
          → told says (prepare_connected net g ws c).0.sent ≡ told says c.sent
      prepare_connected-told says g ws c quiet = elim (Bool-cases (ltb (write_count net ws c) 2)) [
        | inl few ↦ rw few refl
        | inr many ↦ elim (Result-cases (add_inprogress g c.in_progress)) [
          | inr (x, d) ↦ rw (many, d) refl
          | inl (gs, d) ↦
              rw (many, d)
                (workers-told says g ws (record c { gid = some g; in_progress = gs }) quiet)
        ]
      ]

      prepare_for-told :
          (says : Control Gid → Bool) (g : Gid) (o : Option (List ℕ)) (c : Coordinator Gid)
          → says (prepare g) ≡ false
          → told says (prepare_for net g o c).0.sent ≡ told says c.sent
      prepare_for-told says g none c quiet = refl
      prepare_for-told says g (some ws) c quiet =
          let (states, reached) = get_foreign_server_connection net preparing ws c.states in
          elim (Bool-cases reached) [
            | inl t ↦ rw t (prepare_connected-told says g ws (record c { states = states }) quiet)
            | inr f ↦ rw f refl
          ]

      commit_for-told :
          (o : Option (List ℕ)) (c : Coordinator Gid)
          → told says_rollback (commit_for net o c).0.sent ≡ told says_rollback c.sent
      commit_for-told none c = refl
      commit_for-told (some ws) c =
          let (states, reached) = get_foreign_server_connection net committing ws c.states in
          elim (Bool-cases reached) [
            | inl t ↦ rw t (send_commits-told c.gid ws states c.sent)
            | inr f ↦ rw f refl
          ]

      abort_for-told :
          (o : Option (List ℕ)) (c : Coordinator Gid)
          → told says_commit (abort_for net o c).0.sent ≡ told says_commit c.sent
      abort_for-told none c = refl
      abort_for-told (some ws) c =
          let (states, reached) = get_foreign_server_connection net aborting ws c.states in
          elim (Bool-cases reached) [
            | inl t ↦ rw t (send_rollbacks-told c.gid ws states c.sent)
            | inr f ↦ rw f refl
          ]

      abbrev pub is_ok : Result Error (Unit {0}) → Bool
      is_ok (ok u) = true
      is_ok (err x) = false

      after_rollbacks-sent :
          (o : Coordinator Gid × Result Error Bool) → (after_rollbacks net o).sent ≡ o.0.sent
      unfolding clear_remote_transaction_gid clear_remote_connection_command
      after_rollbacks-sent (c, ok b) = refl
      after_rollbacks-sent (c, err x) = refl

      abort_event-told :
          (c : Coordinator Gid)
          → told says_commit (abort_event net c).sent ≡ told says_commit c.sent
      unfolding abort_event falcon_remote_command_abort
      abort_event-told c =
          ap (told says_commit) (after_rollbacks-sent (abort_for net c.workers c))
          ∙ abort_for-told c.workers c

      -- Only a transaction that is to be committed, and whose prepare returned, tells a server to
      -- commit. A server is told to roll back only if that is not so, or if the commit event raised an error.
      abbrev pub OneDecision : Bool → Bool → Bool → Log Gid → Type 0
      OneDecision commits votes commit_returned log =
          (told says_commit log ≡ true → (commits ≡ true) × (votes ≡ true))
          × (told says_rollback log ≡ true → (commits && (votes && commit_returned)) ≡ false)

      aborted-OneDecision :
          (commits votes returned : Bool) (c : Coordinator Gid)
          → told says_commit c.sent ≡ false
          → (commits && votes) ≡ false
          → OneDecision commits votes returned (abort_event net c).sent
      aborted-OneDecision commits votes returned c quiet against =
          (λ h. absurd (ground (arith, h, quiet, abort_event-told c)), λ h. ground (arith, against))

      after_commands-sent :
          (o : Coordinator Gid × Result Error (Unit {0})) → (after_commands net o).0.sent ≡ o.0.sent
      unfolding clear_remote_transaction_gid clear_remote_connection_command
      after_commands-sent (c, ok u) = elim (Bool-cases net.cache_commits) [
        | inl t ↦ rw t refl
        | inr f ↦ rw f refl
      ]
      after_commands-sent (c, err x) = refl

      commit_event-told :
          (c : Coordinator Gid)
          → told says_rollback (commit_event net c).0.sent ≡ told says_rollback c.sent
      unfolding commit_event falcon_remote_command_commit
      commit_event-told c =
          ap (told says_rollback) (after_commands-sent (commit_for net c.workers c))
          ∙ commit_for-told c.workers c

      after_commit-OneDecision :
          (o : Coordinator Gid × Result Error (Unit {0}))
          → told says_rollback o.0.sent ≡ false
          → OneDecision true true (is_ok o.1) (after_commit net o).sent
      after_commit-OneDecision (c, ok u) r = (λ h. (refl, refl), λ h. absurd (ground (arith, h, r)))
      after_commit-OneDecision (c, err x) r = (λ h. (refl, refl), λ h. refl)

      ended-OneDecision :
          (commits : Bool) (before : Coordinator Gid)
          (o : Coordinator Gid × Result Error (Unit {0}))
          → told says_commit o.0.sent ≡ false
          → told says_rollback o.0.sent ≡ false
          → OneDecision commits
              (is_ok o.1)
              (is_ok (commit_event net o.0).1)
              (ended net commits before o).sent
      ended-OneDecision true before (c, ok u) q r =
          after_commit-OneDecision (commit_event net c) (commit_event-told c ∙ r)
      ended-OneDecision false before (c, ok u) q r =
          aborted-OneDecision false true (is_ok (commit_event net c).1)
            (record c { records = before.records }) q refl
      ended-OneDecision commits before (c, err x) q r =
          aborted-OneDecision commits false (is_ok (commit_event net c).1)
            (record c { records = before.records }) q (ground arith)

      nothing_told :
          (says : Control Gid → Bool) (c : Coordinator Gid) → c.sent ≡ [] → told says c.sent ≡ false
      unfolding told
      nothing_told says c h = subst (λ log. told says log ≡ false) (sym h) refl

      -- From a coordinator that has sent nothing of the end of its transaction yet: a server is told to
      -- commit only if the prepare returned without an error and PostgreSQL commits here. A server is
      -- told to roll back only if one of these is not so, or if the commit event raised an error. This
      -- holds whichever connections are lost, cannot be opened again, do not take what is sent or do not
      -- answer.
      pub end_transaction-OneDecision :
          (commits : Bool) (g : Gid) (c : Coordinator Gid)
          → c.sent ≡ []
          → let (c', r) = falcon_remote_command_prepare net g c in
            OneDecision commits
              (is_ok r)
              (is_ok (commit_event net c').1)
              (end_transaction net commits g c).sent
      unfolding end_transaction falcon_remote_command_prepare told
      end_transaction-OneDecision commits g c none_sent =
          ended-OneDecision commits c (falcon_remote_command_prepare net g c)
            (prepare_for-told says_commit g c.workers c refl ∙ nothing_told says_commit c none_sent)
            (prepare_for-told says_rollback g c.workers c refl
              ∙ nothing_told says_rollback c none_sent)
