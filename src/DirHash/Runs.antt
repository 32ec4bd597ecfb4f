-- ===== src/DirHash/Runs.antt =====
-- Whole transactions on the cache of falcon/dir_path_shmem/dir_path_hash.c: what the searches answer,
-- and what commit and abort leave.
use falconfs.Common.{
  ℕ, ◌≡◌, ◌≢◌, refl, sym, subst, ◌∙◌, Bool, true, false, Option, none, some, [], arith,
  if◌then◌else◌, nat_eq, list_eq, =?_refl, Result, ok, err,
}
use falconfs.PathParse.{DirLock}
use falconfs.DirTable.{Key, search_directory_table_info}
use falconfs.DirHash.{
  give, waits, unknown, Item, DirHash, Error, run_on, Env, dir_path_hash_to_commit_clear, is_none,
  pinned, try_lock,
}
use falconfs.DirHash.Ops.{
  peek, pin, commit_actions, commit_for_dir_path_hash, searched,
  search_directory_by_directory_hash_table, insert_directory_by_directory_hash_table,
  delete_directory_by_directory_hash_table,
}
use falconfs.DirHash.Pins.{EntryFits, try_lock-referenced}
use falconfs.DirHash.Lookup.{peek-modify}
use falconfs.DirHash.Coherent.{ItemAgrees, replay, touched, IsHeld, IsCoherent, InProgress}
use falconfs.DirHash.Moves.{Located}
use falconfs.DirHash.Steps.{search-Searched, Searched, locate-Located}
use falconfs.DirHash.Changes.{insert-Changed, delete-Changed, Changed}
use falconfs.DirHash.Commit.{Committed, commit_actions-Committed, commit_actions-table}

module _ (env : Env) where
  -- The states that a transaction goes through, from a cache in agreement with `numbers`, which are
  -- those of the table: searches under any lock, and insertions and deletions under a lock that it
  -- holds on a known entry. It goes on after a search that failed, not after a failed change.
  pub data Runs (fuel : ℕ) (numbers : Key → ℕ) : DirHash → Type 0 where
    begins :
        (s : DirHash)
        → IsCoherent env numbers s
        → s.to_commit ≡ []
        → ((k : Key) → search_directory_table_info k s.table ≡ numbers k)
        → Runs fuel numbers s
    searches :
        (k : Key) (mode : DirLock) (s : DirHash)
        → Runs fuel numbers s
        → EntryFits (peek env k s)
        → Runs fuel numbers (search_directory_by_directory_hash_table env fuel k mode s).0
    inserts :
        (k : Key) (id : ℕ) (mode : DirLock) (s : DirHash)
        → Runs fuel numbers s
        → EntryFits (peek env k s)
        → IsHeld (peek env k s)
        → (insert_directory_by_directory_hash_table env fuel k id mode s).1 ≡ ok tt
        → Runs fuel numbers (insert_directory_by_directory_hash_table env fuel k id mode s).0
    deletes :
        (k : Key) (mode : DirLock) (s : DirHash)
        → Runs fuel numbers s
        → EntryFits (peek env k s)
        → IsHeld (peek env k s)
        → (delete_directory_by_directory_hash_table env fuel k mode s).1 ≡ ok tt
        → Runs fuel numbers (delete_directory_by_directory_hash_table env fuel k mode s).0

  Searched-InProgress :
      (numbers : Key → ℕ) (k : Key) (o : DirHash × Result Error ℕ)
      → Searched env numbers k o
      → InProgress env numbers o.0
  Searched-InProgress numbers k (s, ok id) (p, e) = p
  Searched-InProgress numbers k (s, err x) p = p

  Changed-InProgress :
      (numbers : Key → ℕ) (o : DirHash × Result Error (Unit {0}))
      → Changed env numbers o
      → o.1 ≡ ok tt
      → InProgress env numbers o.0
  Changed-InProgress numbers (s, ok u) p e = p
  Changed-InProgress numbers (s, err x) p e = cc

  pub Runs-InProgress :
      {fuel : ℕ} {numbers : Key → ℕ} {s : DirHash} → Runs fuel numbers s → InProgress env numbers s
  unfolding replay touched
  Runs-InProgress (begins s c e t) = record {
    coherent = c;
    logged = λ k. rw e (t k);
    held = λ k. rw e (λ h. absurd (ground (arith, h)));
  }
  Runs-InProgress {fuel} {numbers} (searches k mode s r fits) =
      Searched-InProgress numbers k _
        (search-Searched env numbers fuel k mode s (Runs-InProgress r) fits)
  Runs-InProgress {fuel} {numbers} (inserts k id mode s r fits h e) =
      Changed-InProgress numbers _
        (insert-Changed env numbers fuel k id mode s (Runs-InProgress r) fits h) e
  Runs-InProgress {fuel} {numbers} (deletes k mode s r fits h e) =
      Changed-InProgress numbers _
        (delete-Changed env numbers fuel k mode s (Runs-InProgress r) fits h) e

  found_number :
      (numbers : Key → ℕ) (k : Key) (id : ℕ) (o : DirHash × Result Error ℕ)
      → Searched env numbers k o
      → o.1 ≡ ok id
      → id ≡ numbers k
  found_number numbers k id (s, ok i) (p, e) h = ground (arith, e, h)
  found_number numbers k id (s, err x) p h = cc

  -- A run starts from a cache that agrees with the directory table and from an empty log; its insertions
  -- and deletions succeed, and each is of an entry that is known and referenced; every lock word has room
  -- for the request. After such a run, a search that answers, with room in the lock word, answers the
  -- number that the directory table had before the run, under any lock.
  pub search-number :
      (fuel : ℕ) (numbers : Key → ℕ) (s : DirHash) (k : Key) (mode : DirLock) (id : ℕ)
      → Runs fuel numbers s
      → EntryFits (peek env k s)
      → (search_directory_by_directory_hash_table env fuel k mode s).1 ≡ ok id
      → id ≡ numbers k
  search-number fuel numbers s k mode id r fits e =
      found_number numbers k id _
        (search-Searched env numbers fuel k mode s (Runs-InProgress r) fits) e

  cleared :
      (numbers : Key → ℕ) (o : DirHash × Result Error (Unit {0}))
      → Committed env numbers o
      → (run_on (λ u s. (dir_path_hash_to_commit_clear s, ok tt)) o).1 ≡ ok tt
      → let s' = (run_on (λ u s. (dir_path_hash_to_commit_clear s, ok tt)) o).0 in
        IsCoherent env numbers s' × (s'.to_commit ≡ []) × (s'.table ≡ o.0.table)
  unfolding dir_path_hash_to_commit_clear peek
  cleared numbers (s, ok u) c e = (c, refl, refl)
  cleared numbers (s, err x) c e = cc

  -- A run starts from a cache that agrees with the directory table and from an empty log; its insertions
  -- and deletions succeed, and each is of an entry that is known and referenced; every lock word has room
  -- for the request. After such a run, a commit that ends without an error leaves a cache in agreement
  -- with the table as the run changed it, an empty log, and the table.
  pub commit-IsCoherent :
      (fuel : ℕ) (numbers : Key → ℕ) (s : DirHash)
      → Runs fuel numbers s
      → (commit_for_dir_path_hash env fuel s).1 ≡ ok tt
      → let s' = (commit_for_dir_path_hash env fuel s).0 in
        IsCoherent env (λ k. search_directory_table_info k s.table) s'
        × (s'.to_commit ≡ [])
        × (s'.table ≡ s.table)
  unfolding commit_for_dir_path_hash
  commit-IsCoherent fuel numbers s r e =
      let p = Runs-InProgress r in
      let actions = commit_actions env fuel s.to_commit s in
      let (c, log, table) =
        cleared _ actions (commit_actions-Committed env fuel s.to_commit numbers s p.coherent) e in
      (
        λ k.
            subst (λ id. ItemAgrees id (peek env k (commit_for_dir_path_hash env fuel s).0))
              (sym (p.logged k)) (c k),
        log,
        table ∙ commit_actions-table env fuel s.to_commit s,
      )

  granted :
      (b : Bool) (s : DirHash) (x id : ℕ)
      → (run_on (λ u. give x) (s, if b then ok tt else err waits)).1 ≡ ok id
      → b ≡ true
  granted true s x id e = refl
  granted false s x id e = cc

  searched-IsHeld :
      (fuel : ℕ) (numbers : Key → ℕ) (k : Key) (mode : DirLock) (start id : ℕ)
      (o : DirHash × Result Error (Option Item))
      → Located env numbers mode k o
      → is_none mode ≡ false
      → numbers k ≢ unknown
      → (run_on (searched env fuel mode k start) o).1 ≡ ok id
      → IsHeld (peek env k (run_on (searched env fuel mode k start) o).0)
  unfolding pin
  searched-IsHeld fuel numbers k mode start id (s, ok none) (p, n) m u e =
      absurd (ground (arith, n, m))
  searched-IsHeld fuel numbers k mode start id (s, err x) p m u e = cc
  searched-IsHeld fuel numbers k mode start id (s, ok (some item)) (p, found, number, fits) m u e =
      let g = granted (try_lock mode item.lock).0 _ item.inode_id id e in
      rw (g, peek-modify env k k (pinned mode) s, =?_refl k, found)
        (λ n. u (sym number ∙ n), try_lock-referenced mode item.lock fits m)

  -- A run starts from a cache that agrees with the directory table and from an empty log; its insertions
  -- and deletions succeed, and each is of an entry that is known and referenced; every lock word has room
  -- for the request. After such a run, a search under a shared or exclusive lock that answers, with room
  -- in the lock word, leaves an entry that is known and referenced, as insertions and deletions of a run
  -- want it, unless the table held -2 for the key before the run.
  pub search-IsHeld :
      (fuel : ℕ) (numbers : Key → ℕ) (s : DirHash) (k : Key) (mode : DirLock) (id : ℕ)
      → Runs fuel numbers s
      → EntryFits (peek env k s)
      → is_none mode ≡ false
      → numbers k ≢ unknown
      → (search_directory_by_directory_hash_table env fuel k mode s).1 ≡ ok id
      → IsHeld (peek env k (search_directory_by_directory_hash_table env fuel k mode s).0)
  unfolding search_directory_by_directory_hash_table
  search-IsHeld fuel numbers s k mode id r fits m u e =
      searched-IsHeld fuel numbers k mode (search_directory_table_info k s.table) id _
        (locate-Located env numbers fuel mode k s (Runs-InProgress r) fits) m u e
