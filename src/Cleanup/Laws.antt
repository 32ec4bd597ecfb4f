-- ===== src/Cleanup/Laws.antt =====
-- What one round of falcon/transaction/transaction_cleanup.c does to each transaction.
use falconfs.Common.{
  ℕ, ◌≡◌, refl, Bool, true, false, ◌&&◌, ◌||◌, not, List, [], ◌∷◌, Eq, ◌=?◌, elem, elem-erase, ◌==◌,
  arith, Bool-cases, inl, inr, ◌∙◌, ap,
}
use falconfs.Cleanup.{
  Verdict, skip, commit, delete, judge, erased, sent, Row, Command, commit_prepared,
  rollback_prepared, Cleaning, Outcome, done, failed, rows_of, state_of, keep_row, Round,
  sweep_rows, sweep_prepared, cleanup_prepared, begin, then_prepared,
}

module _ {Gid : Type 0} ⦃e : Eq Gid⦄ where
  -- The table has a row of this server for the transaction.
  unfoldable pub recorded : ℕ → Gid → List (Row Gid) → Bool
  recorded server g [] = false
  recorded server g (r ∷ rs) = (r.nodeid == server && r.gid =? g) || recorded server g rs

  unfoldable pub commits : Gid → List (Command Gid) → Bool
  commits g [] = false
  commits g (commit_prepared x ∷ cs) = x =? g || commits g cs
  commits g (rollback_prepared x ∷ cs) = commits g cs

  unfoldable pub rolls_back : Gid → List (Command Gid) → Bool
  rolls_back g [] = false
  rolls_back g (commit_prepared x ∷ cs) = rolls_back g cs
  rolls_back g (rollback_prepared x ∷ cs) = x =? g || rolls_back g cs

  abbrev pub is_done : Outcome Gid → Bool
  is_done (done rs c) = true
  is_done (failed rs c) = false

  module _ (round : Round Gid) (server : ℕ) (g : Gid) where
    abbrev pub open_record : List (Row Gid) → Bool
    open_record rs = recorded server g rs && not (elem g round.active)

    -- What the loop over the rows does with `g`, from the state `c` to the state `c'`.
    pub record Swept (rs rs' : List (Row Gid)) (c c' : Cleaning Gid) : Type 0 where
      pub left : elem g c'.set_a ≡ elem g c.set_a && not (open_record rs)
      pub committed :
          commits g c'.commands
          ≡ commits g c.commands
            || (open_record rs && (elem g c.set_a && elem g round.second_prepared))
      pub rollback : rolls_back g c'.commands ≡ rolls_back g c.commands
      pub record_kept :
          recorded server g rs'
          ≡ recorded server g rs && (elem g round.active || elem g round.second_prepared)

    abbrev Sweeps : List (Row Gid) → Cleaning Gid → Outcome Gid → Type 0
    Sweeps rs c out = (is_done out ≡ true) × Swept rs (rows_of out) c (state_of out)

    Sweeps-skip :
        (r : Row Gid) (rs : List (Row Gid)) (c : Cleaning Gid) (out : Outcome Gid)
        → judge round server r c ≡ skip
        → Sweeps rs c out
        → Sweeps (r ∷ rs) c (keep_row r out)
    unfolding judge recorded
    Sweeps-skip r rs c (failed rs' c') j (d, s) = cc
    Sweeps-skip r rs c (done rs' c') j (d, s) = (
      refl,
      record {
        left = ground (arith, s.left, e.beq_iff r.gid g);
        committed = ground (arith, s.committed, e.beq_iff r.gid g);
        rollback = s.rollback;
        record_kept = ground (arith, s.record_kept, e.beq_iff r.gid g);
      },
    )

    Sweeps-commit :
        (r : Row Gid) (rs : List (Row Gid)) (c : Cleaning Gid) (out : Outcome Gid)
        → judge round server r c ≡ commit
        → Sweeps rs (sent round server (commit_prepared r.gid) (erased round server r c)) out
        → Sweeps (r ∷ rs) c (keep_row r out)
    unfolding judge recorded commits rolls_back
    Sweeps-commit r rs c (failed rs' c') j (d, s) = cc
    Sweeps-commit r rs c (done rs' c') j (d, s) = (
      refl,
      record {
        left = ground (arith, s.left, e.beq_iff r.gid g, elem-erase r.gid g c.set_a);
        committed = ground (arith, s.committed, e.beq_iff r.gid g, elem-erase r.gid g c.set_a);
        rollback = s.rollback;
        record_kept = ground (arith, s.record_kept, e.beq_iff r.gid g);
      },
    )

    Sweeps-delete :
        (r : Row Gid) (rs : List (Row Gid)) (c : Cleaning Gid) (out : Outcome Gid)
        → judge round server r c ≡ delete
        → Sweeps rs (erased round server r c) out
        → Sweeps (r ∷ rs) c out
    unfolding judge recorded commits rolls_back
    Sweeps-delete r rs c (failed rs' c') j (d, s) = cc
    Sweeps-delete r rs c (done rs' c') j (d, s) = (
      refl,
      record {
        left = ground (arith, s.left, e.beq_iff r.gid g, elem-erase r.gid g c.set_a);
        committed = ground (arith, s.committed, e.beq_iff r.gid g, elem-erase r.gid g c.set_a);
        rollback = s.rollback;
        record_kept = ground (arith, s.record_kept, e.beq_iff r.gid g);
      },
    )

    module _ (accepted : (x : Command Gid) → round.accepts x ≡ true) where
      Sweeps-cons :
          (r : Row Gid) (rs : List (Row Gid)) (c : Cleaning Gid) (v : Verdict)
          → judge round server r c ≡ v
          → ((c' : Cleaning Gid) → Sweeps rs c' (sweep_rows round server rs c'))
          → Sweeps (r ∷ rs) c (sweep_rows round server (r ∷ rs) c)
      unfolding sweep_rows
      Sweeps-cons r rs c skip j ih = rw (j, sweep_rows) (Sweeps-skip r rs c _ j (ih c))
      Sweeps-cons r rs c commit j ih =
          rw (j, sweep_rows, accepted (commit_prepared r.gid)) (Sweeps-commit r rs c _ j (ih _))
      Sweeps-cons r rs c delete j ih = rw (j, sweep_rows) (Sweeps-delete r rs c _ j (ih _))

      sweep_rows-Sweeps :
          (rs : List (Row Gid)) (c : Cleaning Gid) → Sweeps rs c (sweep_rows round server rs c)
      unfolding sweep_rows recorded
      sweep_rows-Sweeps [] c = (
        refl,
        record {
          left = ground arith;
          committed = ground arith;
          rollback = refl;
          record_kept = refl;
        },
      )
      sweep_rows-Sweeps (r ∷ rs) c =
          Sweeps-cons r rs c (judge round server r c) refl (sweep_rows-Sweeps rs)

      -- The loop over what is left of set A rolls back what is not active, and commits nothing.
      record RolledBack (gs : List Gid) (rs rs' : List (Row Gid)) (c c' : Cleaning Gid)
          : Type 0 where
        rows_same : rs' ≡ rs
        same_commits : commits g c'.commands ≡ commits g c.commands
        rollbacks :
            rolls_back g c'.commands
            ≡ rolls_back g c.commands || (elem g gs && not (elem g round.active))

      abbrev Finishes : List Gid → List (Row Gid) → Cleaning Gid → Outcome Gid → Type 0
      Finishes gs rs c out = (is_done out ≡ true) × RolledBack gs rs (rows_of out) c (state_of out)

      Finishes-skip :
          (x : Gid) (gs : List Gid) (rs : List (Row Gid)) (c : Cleaning Gid) (out : Outcome Gid)
          → elem x round.active ≡ true
          → Finishes gs rs c out
          → Finishes (x ∷ gs) rs c out
      unfolding elem
      Finishes-skip x gs rs c out busy (d, f) = (
        d,
        record {
          rows_same = f.rows_same;
          same_commits = f.same_commits;
          rollbacks = ground (arith, f.rollbacks, e.beq_iff x g);
        },
      )

      Finishes-send :
          (x : Gid) (gs : List Gid) (rs : List (Row Gid)) (c : Cleaning Gid) (out : Outcome Gid)
          → elem x round.active ≡ false
          → Finishes gs rs (sent round server (rollback_prepared x) c) out
          → Finishes (x ∷ gs) rs c out
      unfolding elem commits rolls_back
      Finishes-send x gs rs c out free (d, f) = (
        d,
        record {
          rows_same = f.rows_same;
          same_commits = f.same_commits;
          rollbacks = ground (arith, f.rollbacks, e.beq_iff x g);
        },
      )

      sweep_prepared-Finishes :
          (gs : List Gid) (rs : List (Row Gid)) (c : Cleaning Gid)
          → Finishes gs rs c (sweep_prepared round server gs rs c)
      unfolding sweep_prepared elem
      sweep_prepared-Finishes [] rs c =
          (refl, record { rows_same = refl; same_commits = refl; rollbacks = ground arith })
      sweep_prepared-Finishes (x ∷ gs) rs c = elim (Bool-cases (elem x round.active)) [
        | inl busy ↦ rw busy (Finishes-skip x gs rs c _ busy (sweep_prepared-Finishes gs rs c))
        | inr free ↦
            rw (free, accepted (rollback_prepared x))
              (Finishes-send x gs rs c _ free (sweep_prepared-Finishes gs rs _))
      ]

      -- The fate of `g` in one round.
      pub record Resolved (rs : List (Row Gid)) (out : Outcome Gid) : Type 0 where
        pub finished : is_done out ≡ true
        pub committed :
            commits g (state_of out).commands
            ≡ open_record rs && (elem g round.first_prepared && elem g round.second_prepared)
        pub rolled_back :
            rolls_back g (state_of out).commands
            ≡ elem g round.first_prepared
              && (not (elem g round.active) && not (recorded server g rs))
        pub row_kept :
            recorded server g (rows_of out)
            ≡ recorded server g rs && (elem g round.active || elem g round.second_prepared)

      resolved :
          (rs : List (Row Gid)) (out : Outcome Gid)
          → Sweeps rs (begin round server) out
          → Resolved rs (then_prepared round server out)
      unfolding commits rolls_back
      resolved rs (failed rs' c) (d, s) = cc
      resolved rs (done rs' c) (d, s) =
          let (d', f) = sweep_prepared-Finishes c.set_a rs' c in
          record {
            finished = d';
            committed = ground (arith, f.same_commits, s.committed);
            rolled_back = ground (arith, f.rollbacks, s.rollback, s.left);
            row_kept = ap (recorded server g) f.rows_same ∙ s.record_kept;
          }

      -- If the server accepts every command of a round, the round comes to its end. A transaction is
      -- committed exactly if the table has a row of this server for it, it is not under way here, and
      -- both reads of the server's prepared transactions show it. It is rolled back exactly if the
      -- first read shows it, it is not under way here, and the table has no such row. The row stays
      -- exactly if the transaction is under way here or the second read shows it.
      pub cleanup_prepared-Resolved :
          (rs : List (Row Gid)) → Resolved rs (cleanup_prepared round server rs)
      unfolding cleanup_prepared
      cleanup_prepared-Resolved rs = resolved rs _ (sweep_rows-Sweeps rs (begin round server))
