-- ===== src/Cleanup/Safety.antt =====
-- What a round of falcon/transaction/transaction_cleanup.c never does, also when a command fails.
use falconfs.Common.{
  ℕ, ◌≡◌, ◌≢◌, refl, true, false, ◌&&◌, ◌||◌, List, [], ◌∷◌, Eq, ◌=?◌, elem, ◌==◌, arith,
  Bool-cases, inl, inr, ap, ◌∙◌,
}
use falconfs.Cleanup.{
  Row, commit_prepared, rollback_prepared, Cleaning, Outcome, done, failed, rows_of, state_of,
  keep_row, Round, sweep_rows, sweep_prepared, cleanup_prepared, cleanup_2pc, counted, begin,
  then_prepared, Verdict, skip, commit, delete, judge, erased, sent,
}
use falconfs.Cleanup.Laws.{recorded, commits, rolls_back}

module _ {Gid : Type 0} ⦃e : Eq Gid⦄ (round : Round Gid) (server : ℕ) (g : Gid)
    (busy : elem g round.active ≡ true) where
  -- No command so far is about `g`, and the rows of every server for `g` are as they were.
  record Untouched (rs rs' : List (Row Gid)) (c c' : Cleaning Gid) : Type 0 where
    same_commits : commits g c'.commands ≡ commits g c.commands
    same_rollbacks : rolls_back g c'.commands ≡ rolls_back g c.commands
    same_rows : (k : ℕ) → recorded k g rs' ≡ recorded k g rs

  abbrev Spares : List (Row Gid) → Cleaning Gid → Outcome Gid → Type 0
  Spares rs c out = Untouched rs (rows_of out) c (state_of out)

  same : (rs : List (Row Gid)) (c : Cleaning Gid) → Untouched rs rs c c
  same rs c = record { same_commits = refl; same_rollbacks = refl; same_rows = λ k. refl }

  Spares-keep :
      (r : Row Gid) (rs : List (Row Gid)) (c : Cleaning Gid) (out : Outcome Gid)
      → Spares rs c out
      → Spares (r ∷ rs) c (keep_row r out)
  unfolding recorded
  Spares-keep r rs c (done rs' c') s = record {
    same_commits = s.same_commits;
    same_rollbacks = s.same_rollbacks;
    same_rows = λ k. ap (λ b. (r.nodeid == k && r.gid =? g) || b) (s.same_rows k);
  }
  Spares-keep r rs c (failed rs' c') s = record {
    same_commits = s.same_commits;
    same_rollbacks = s.same_rollbacks;
    same_rows = λ k. ap (λ b. (r.nodeid == k && r.gid =? g) || b) (s.same_rows k);
  }

  -- A row that is committed or deleted is about another transaction.
  other_gid :
      (r : Row Gid) (c : Cleaning Gid) → judge round server r c ≢ skip → (r.gid =? g) ≡ false
  unfolding judge
  other_gid r c h = ground (arith, e.beq_iff r.gid g)

  Spares-commit :
      (r : Row Gid) (rs : List (Row Gid)) (c : Cleaning Gid) (out : Outcome Gid)
      → (r.gid =? g) ≡ false
      → Spares rs (sent round server (commit_prepared r.gid) (erased round server r c)) out
      → Spares rs c out
  unfolding commits rolls_back
  Spares-commit r rs c out o s = record {
    same_commits = ground (arith, s.same_commits);
    same_rollbacks = s.same_rollbacks;
    same_rows = s.same_rows;
  }

  Spares-delete :
      (r : Row Gid) (rs : List (Row Gid)) (c : Cleaning Gid) (out : Outcome Gid)
      → (r.gid =? g) ≡ false
      → Spares rs (erased round server r c) out
      → Spares (r ∷ rs) c out
  unfolding recorded
  Spares-delete r rs c out o s = record {
    same_commits = s.same_commits;
    same_rollbacks = s.same_rollbacks;
    same_rows = λ k. ground (arith, s.same_rows k);
  }

  Spares-cons :
      (r : Row Gid) (rs : List (Row Gid)) (c : Cleaning Gid) (v : Verdict)
      → judge round server r c ≡ v
      → ((c' : Cleaning Gid) → Spares rs c' (sweep_rows round server rs c'))
      → Spares (r ∷ rs) c (sweep_rows round server (r ∷ rs) c)
  unfolding sweep_rows
  Spares-cons r rs c skip j ih = rw (j, sweep_rows) (Spares-keep r rs c _ (ih c))
  Spares-cons r rs c commit j ih = elim (Bool-cases (round.accepts (commit_prepared r.gid))) [
    | inl yes_sent ↦
        rw (j, sweep_rows, yes_sent)
          (Spares-keep r rs c _ (
            Spares-commit r rs c
              (sweep_rows round server rs
                (sent round server (commit_prepared r.gid) (erased round server r c)))
              (other_gid r c (λ q. cc)) (ih _)))
    | inr refused ↦ rw (j, sweep_rows, refused) (same (r ∷ rs) c)
  ]
  Spares-cons r rs c delete j ih =
      rw (j, sweep_rows)
        (Spares-delete r rs c (sweep_rows round server rs (erased round server r c))
          (other_gid r c (λ q. cc)) (ih _))

  sweep_rows-Spares :
      (rs : List (Row Gid)) (c : Cleaning Gid) → Spares rs c (sweep_rows round server rs c)
  unfolding sweep_rows
  sweep_rows-Spares [] c = same [] c
  sweep_rows-Spares (r ∷ rs) c =
      Spares-cons r rs c (judge round server r c) refl (sweep_rows-Spares rs)

  Spares-rollback :
      (x : Gid) (rs : List (Row Gid)) (c : Cleaning Gid) (out : Outcome Gid)
      → elem x round.active ≡ false
      → Spares rs (sent round server (rollback_prepared x) c) out
      → Spares rs c out
  unfolding commits rolls_back
  Spares-rollback x rs c out f s = record {
    same_commits = s.same_commits;
    same_rollbacks = ground (arith, s.same_rollbacks, e.beq_iff x g);
    same_rows = s.same_rows;
  }

  sweep_prepared-Spares :
      (gs : List Gid) (rs : List (Row Gid)) (c : Cleaning Gid)
      → Spares rs c (sweep_prepared round server gs rs c)
  unfolding sweep_prepared
  sweep_prepared-Spares [] rs c = same rs c
  sweep_prepared-Spares (x ∷ gs) rs c = elim (Bool-cases (elem x round.active)) [
    | inl b ↦ rw b (sweep_prepared-Spares gs rs c)
    | inr f ↦ elim (Bool-cases (round.accepts (rollback_prepared x))) [
      | inl a ↦
          rw (f, a)
            (Spares-rollback x rs c
              (sweep_prepared round server gs rs (sent round server (rollback_prepared x) c)) f
              (sweep_prepared-Spares gs rs (sent round server (rollback_prepared x) c)))
      | inr refused ↦ rw (f, refused) (same rs c)
    ]
  ]

  both_loops :
      (rs : List (Row Gid)) (out : Outcome Gid)
      → Spares rs (begin round server) out
      → Spares rs (begin round server) (then_prepared round server out)
  both_loops rs (failed rs' c) s = s
  both_loops rs (done rs' c) s = record {
    same_commits = p.same_commits ∙ s.same_commits;
    same_rollbacks = p.same_rollbacks ∙ s.same_rollbacks;
    same_rows = λ k. p.same_rows k ∙ s.same_rows k;
  }
    where
      p : Spares rs' c (sweep_prepared round server c.set_a rs' c)
      p = sweep_prepared-Spares c.set_a rs' c

  cleanup-Spares :
      (rs : List (Row Gid)) → Spares rs (begin round server) (cleanup_prepared round server rs)
  unfolding cleanup_prepared
  cleanup-Spares rs =
      both_loops rs (sweep_rows round server rs (begin round server))
        (sweep_rows-Spares rs (begin round server))

  -- A transaction that is under way here is left alone, whether commands succeed or fail: no command
  -- of the round is about it, and the table has the same rows for it on every server as before.
  pub active_untouched :
      (rs : List (Row Gid))
      → let out = cleanup_prepared round server rs in
        (commits g (state_of out).commands ≡ false)
        × (rolls_back g (state_of out).commands ≡ false)
        × ((k : ℕ) → recorded k g (rows_of out) ≡ recorded k g rs)
  unfolding commits rolls_back
  active_untouched rs = (
    (cleanup-Spares rs).same_commits,
    (cleanup-Spares rs).same_rollbacks,
    (cleanup-Spares rs).same_rows,
  )

module _ {Gid : Type 0} ⦃e : Eq Gid⦄ (rounds : ℕ → Round Gid) (g : Gid)
    (busy : (k : ℕ) → elem g (rounds k).active ≡ true) where
  -- So a whole run of Cleanup2PC, over any list of servers and with errors on some of them, leaves
  -- the rows of a transaction that is under way throughout.
  pub cleanup_2pc-keeps_active :
      (servers : List ℕ) (rs : List (Row Gid)) (n k : ℕ)
      → recorded k g (cleanup_2pc rounds servers rs n).0 ≡ recorded k g rs
  unfolding cleanup_2pc
  cleanup_2pc-keeps_active [] rs n k = refl
  cleanup_2pc-keeps_active (server ∷ servers) rs n k =
      let out = cleanup_prepared (rounds server) server rs in
      cleanup_2pc-keeps_active servers (rows_of out) (counted n out) k
      ∙ (active_untouched (rounds server) server g (busy server) rs).2 k
