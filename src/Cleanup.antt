-- ===== src/Cleanup.antt =====
-- falcon/transaction/transaction_cleanup.c: the daemon that finishes two-phase commits whose
-- coordinator failed, and the set of the transactions under way. The names of transactions are keys
-- of any type with an equality; the answers of the remote server are arguments.
pub mod Laws
pub mod Safety
mod Tests
use falconfs.Common.{
  ℕ, ◌+◌, Bool, true, false, ◌&&◌, ◌||◌, not, List, [], ◌∷◌, Eq, ◌=?◌, elem, erase, if◌then◌else◌,
  ◌==◌, Result, ok, err,
}

-- A row of falcon_distributed_transaction, which Write2PCRecord writes.
pub record Row (Gid : Type 0) : Type 0 where
  pub nodeid : ℕ
  pub gid : Gid

-- What CommitOrRollbackPreparedTransaction sends.
pub data Command (Gid : Type 0) : Type 0 where
  commit_prepared : Gid → Command Gid
  rollback_prepared : Gid → Command Gid

-- The state of one round: the set of prepared transactions of which none has been found in the
-- table, the commands carried out so far (newest first), and cleanedTransactionCount.
pub record Cleaning (Gid : Type 0) : Type 0 where
  pub set_a : List Gid
  pub commands : List (Command Gid)
  pub cleaned : ℕ

-- A command that fails raises an error; what was done before stays done.
pub data Outcome (Gid : Type 0) : Type 0 where
  done failed : List (Row Gid) → Cleaning Gid → Outcome Gid

-- The table and the state at the end, and the rows that come after a failed command stay.
abbrev pub rows_of : {Gid : Type 0} → Outcome Gid → List (Row Gid)
rows_of (done rs c) = rs
rows_of (failed rs c) = rs

abbrev pub state_of : {Gid : Type 0} → Outcome Gid → Cleaning Gid
state_of (done rs c) = c
state_of (failed rs c) = c

abbrev pub keep_row : {Gid : Type 0} → Row Gid → Outcome Gid → Outcome Gid
keep_row r (done rs c) = done (r ∷ rs) c
keep_row r (failed rs c) = failed (r ∷ rs) c

-- What the remote server answers, and the transactions under way here, during one round.
pub record Round (Gid : Type 0) : Type 0 where
  -- the two reads of pg_prepared_xacts, and the active transactions read between them
  pub first_prepared : List Gid
  pub active : List Gid
  pub second_prepared : List Gid
  -- whether a command succeeds
  pub accepts : Command Gid → Bool

-- What becomes of a row: nothing, its transaction is committed, or the row is deleted.
pub data Verdict : Type 0 where
  skip commit delete : Verdict

module _ {Gid : Type 0} ⦃e : Eq Gid⦄ where
  abbrev pub write_2pc_record : ℕ → Gid → List (Row Gid) → List (Row Gid)
  write_2pc_record server g rs = record { nodeid = server; gid = g } ∷ rs

  unfoldable pub add_inprogress : Gid → List Gid → Result Bool (List Gid)
  add_inprogress g gs = if elem g gs then err true else ok (g ∷ gs)

  -- A name that is not there is only warned of.
  unfoldable pub remove_inprogress : Gid → List Gid → List Gid
  remove_inprogress g gs = erase g gs

  module _ (round : Round Gid) (server : ℕ) where
    abbrev pub sent : Command Gid → Cleaning Gid → Cleaning Gid
    sent command c = record c { commands = command ∷ c.commands; cleaned = c.cleaned + 1 }

    -- The conditions on a row, in the order of the loop's tests. A row of another server is not in
    -- the scan.
    pub judge : Row Gid → Cleaning Gid → Verdict
    judge r c =
        let in_a = elem r.gid c.set_a in
        let in_b = elem r.gid round.active in
        let in_d = elem r.gid round.second_prepared in
        if not (r.nodeid == server)
        then skip
        else if in_b
        then skip
        else if in_a && in_d
        then commit
        else if not in_a && in_d
        then skip
        else delete

    abbrev pub erased : Row Gid → Cleaning Gid → Cleaning Gid
    erased r c = record c { set_a = erase r.gid c.set_a }

    -- The loop over the rows of this server.
    pub sweep_rows : List (Row Gid) → Cleaning Gid → Outcome Gid
    sweep_rows [] c = done [] c
    sweep_rows (r ∷ rs) c = elim (judge r c) [
      | skip ↦ keep_row r (sweep_rows rs c)
      | commit ↦
          let committed = keep_row r (sweep_rows rs (sent (commit_prepared r.gid) (erased r c))) in
          if round.accepts (commit_prepared r.gid) then committed else failed (r ∷ rs) c
      | delete ↦ sweep_rows rs (erased r c)
    ]

    -- The loop over what is left of set A.
    pub sweep_prepared : List Gid → List (Row Gid) → Cleaning Gid → Outcome Gid
    sweep_prepared [] rs c = done rs c
    sweep_prepared (g ∷ gs) rs c =
        let rolled_back = sweep_prepared gs rs (sent (rollback_prepared g) c) in
        let skipped = sweep_prepared gs rs c in
        if elem g round.active
        then skipped
        else if round.accepts (rollback_prepared g)
        then rolled_back
        else failed rs c

    abbrev pub begin : Cleaning Gid
    begin = record { set_a = round.first_prepared; commands = []; cleaned = 0 }

    abbrev pub then_prepared : Outcome Gid → Outcome Gid
    then_prepared (done rs c) = sweep_prepared c.set_a rs c
    then_prepared (failed rs c) = failed rs c

    pub cleanup_prepared : List (Row Gid) → Outcome Gid
    cleanup_prepared rs = then_prepared (sweep_rows rs begin)

  abbrev pub counted : ℕ → Outcome Gid → ℕ
  counted n (done rs c) = n + c.cleaned
  counted n (failed rs c) = n

  -- Cleanup2PC: an error on one server is caught, and the next server has its turn.
  pub cleanup_2pc : (ℕ → Round Gid) → List ℕ → List (Row Gid) → ℕ → List (Row Gid) × ℕ
  cleanup_2pc rounds [] rs n = (rs, n)
  cleanup_2pc rounds (server ∷ servers) rs n =
      let out = cleanup_prepared (rounds server) server rs in
      cleanup_2pc rounds servers (rows_of out) (counted n out)
