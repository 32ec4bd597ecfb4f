-- ===== src/PathParse.antt =====
-- falcon/utils/path_parse.c: the tree of the directories that a transaction has locked, and the parse
-- of a path that locks the directories on the way. The nested red-black trees are one map whose keys
-- are the names from a node up to the root; the directory table behind its shared hash table
-- (falcon/dir_path_shmem/dir_path_hash.c), with its locks, is a parameter.
pub mod Insert
pub mod Segments
pub mod Names
pub mod Check
pub mod Visit
pub mod Walk
pub mod Created
pub mod Reached
pub mod Conflicts
mod Tests
use falconfs.Common.{
  ℕ, zero, suc, ◌+◌, ◌-◌, ◌*◌, ◌/◌, ◌%◌, ◌^◌, ◌≤◌, ◌<◌, ◌≡◌, ◌≢◌, refl, sym, ap, ap₂, subst, ◌∙◌,
  fun_ext, ◌↔◌, ◌⊎◌, inl, inr, Bool, true, false, not, ◌&&◌, ◌||◌, Option, none, some, List, [],
  ◌∷◌, ◌++◌, map, arith, dec_lt, dec_le, ℕ_discrete, ltb, leb, ◌==◌, if◌then◌else◌, ltb→lt, lt→ltb,
  leb→le, ==_iff, ==_refl, ==_ne, Bool-cases, Option-cases, Eq, ◌=?◌, nat_eq, list_eq, =?_ne,
  =?_refl, length, get_elem?, length-append, get_elem?-append_last, All, Result, ok, err, ◌>>=◌,
  ◌>>◌, guard, u32, u64, low_bits, bit_and, bit_or, bit_xor,
}
use falconfs.Ids.{Batch, next_sequence_num, generate_inode_id_by_seq_and_node_id}

-- A name is its bytes.
abbrev pub Name : Type 0
Name = List ℕ

pub data DirLock : Type 0 where
  dir_lock_exclusive dir_lock_shared dir_lock_none : DirLock

-- PPLockMode.
pub data LockMode : Type 0 where
  pp_none pp_shared pp_exclusive pp_exclusive_for_create : LockMode

pub data Code : Type 0 where
  path_is_root path_lock_conflict path_is_invalid path_exists path_not_exists : Code
  path_verify_failed program_error success out_of_fuel : Code

pub record Node : Type 0 where
  pub inode_id : ℕ
  pub lock : LockMode

abbrev pub Tree : Type 0
Tree = List Name → Option Node

abbrev pub put : List Name → Node → Tree → Tree
put key node tree k = if key =? k then some node else tree k

-- DIR_HASH_TABLE_PATH_NOT_EXIST, -1 as an unsigned 64-bit number.
abbrev pub not_exist : ℕ
not_exist = 2 ^ 64 - 1

-- What the parse uses: SearchDirectoryByDirectoryHashTable, RWLockRelease of the last lock it took,
-- the sequence, and the server.
pub record Env (D : Type 0) : Type 0 where
  pub search : DirLock → ℕ → Name → D → ℕ × D
  pub release_last : D → D
  pub nextval : ℕ → ℕ
  pub server_id : ℕ

pub record State (D : Type 0) : Type 0 where
  pub tree : Tree
  pub directory : D
  pub batch : Batch
  pub drawn : ℕ

-- TransactionLevelPathParseReset.
pub transaction_level_path_parse_reset : {D : Type 0} → State D → State D
transaction_level_path_parse_reset s = record s { tree = λ k. none }

abbrev pub create_unless :
    {D : Type 0} → Option Node → ℕ → State D → State D × Code × ℕ → State D × Code × ℕ
create_unless none given s created = created
create_unless (some node) given s created = (s, path_exists, given)

abbrev pub is_locked : LockMode → Bool
is_locked pp_none = false
is_locked pp_shared = true
is_locked pp_exclusive = true
is_locked pp_exclusive_for_create = true

abbrev pub locked_node : Option Node → Bool
locked_node none = false
locked_node (some node) = is_locked node.lock

-- The node of a directory to be removed: what the tree has, or the number found.
abbrev pub removal_node : ℕ → Option Node → Node
removal_node found none = record { inode_id = found; lock = pp_exclusive }
removal_node found (some node) = record node { lock = pp_exclusive }

module _ {D : Type 0} (env : Env D) where
  -- A directory that the tree does not have yet.
  pub enter : Name → List Name → ℕ → State D → State D × Result Code ℕ
  enter name at parent s =
      let (id, d) = env.search dir_lock_shared parent name s.directory in
      if id == not_exist then (record s { directory = d }, err path_is_invalid) else (
        record s {
          tree = put (name ∷ at) (record { inode_id = id; lock = pp_shared }) s.tree;
          directory = d;
        },
        ok id,
      )

  -- A node without a lock is locked; the search has the node's own number as the parent.
  pub lock_again : Name → List Name → Node → State D → State D
  lock_again name at node s =
      let (id, d) = env.search dir_lock_shared node.inode_id name s.directory in
      record s { tree = put (name ∷ at) (record node { lock = pp_shared }) s.tree; directory = d }

  pub visit_node : Name → List Name → Node → LockMode → State D → State D × Result Code ℕ
  visit_node name at node pp_exclusive s = (s, err path_lock_conflict)
  visit_node name at node pp_none s = (lock_again name at node s, ok node.inode_id)
  visit_node name at node pp_shared s = (s, ok node.inode_id)
  visit_node name at node pp_exclusive_for_create s = (s, ok node.inode_id)

  pub visit_found : Name → List Name → ℕ → Option Node → State D → State D × Result Code ℕ
  visit_found name at parent none s = enter name at parent s
  visit_found name at parent (some node) s = visit_node name at node node.lock s

  -- One round of the loop over the directories of a path.
  pub visit : Name → List Name → ℕ → State D → State D × Result Code ℕ
  visit name at parent s = visit_found name at parent (s.tree (name ∷ at)) s

  pub walk : List Name → List Name → ℕ → State D → State D × Result Code (List Name × ℕ)
  walk [] at id s = (s, ok (at, id))
  walk (name ∷ names) at id s =
      let (s', r) = visit name at id s in
      elim r [ err e ↦ (s', err e) | ok child ↦ walk names (name ∷ at) child s' ]

  -- GenerateInodeIdBySeqAndNodeId(GetNextSequenceNum(), GetLocalServerId()).
  pub generate : State D → ℕ × State D
  generate s =
      let (n, batch, drawn) = next_sequence_num env.nextval s.batch s.drawn in
      (
        generate_inode_id_by_seq_and_node_id n env.server_id,
        record s { batch = batch; drawn = drawn },
      )

  -- The number of a target to be created: the caller's, the one found, or a new one.
  pub number_for : Bool → ℕ → ℕ → State D → ℕ × State D
  number_for for_input given found s =
      if for_input then (given, s) else if not (found == not_exist) then (found, s) else generate s

  -- The target is a directory to be created, which the tree does not have.
  pub create_new : Bool → Bool → ℕ → Name → List Name → ℕ → State D → State D × Code × ℕ
  create_new for_input allow given name at parent s =
      let (found, d) = env.search dir_lock_exclusive parent name s.directory in
      let (id, s') = number_for for_input given found (record s { directory = d }) in
      let lock = if allow then pp_exclusive_for_create else pp_exclusive in
      (
        record s' { tree = put (name ∷ at) (record { inode_id = id; lock = lock }) s'.tree },
        if not (found == not_exist) then path_exists else success,
        id,
      )

  -- The target is a directory to be created. The results are the code and the inode number.
  pub create_directory : Bool → Bool → ℕ → Name → List Name → ℕ → State D → State D × Code × ℕ
  create_directory for_input allow given name at parent s =
      create_unless (s.tree (name ∷ at)) given s (create_new for_input allow given name at parent s)

  pub create_file : Bool → ℕ → State D → State D × Code × ℕ
  create_file for_input given s =
      if for_input then (s, success, given) else let (id, s') = generate s in (s', success, id)

  -- The target is a directory to be removed.
  pub remove_directory : ℕ → Name → List Name → ℕ → State D → State D × Code × ℕ
  remove_directory given name at parent s =
      let (found, d) = env.search dir_lock_exclusive parent name s.directory in
      if locked_node (s.tree (name ∷ at))
      then (s, path_lock_conflict, given)
      else if found == not_exist
      then (record s { directory = d }, path_not_exists, found)
      else (
        record s {
          tree = put (name ∷ at) (removal_node found (s.tree (name ∷ at))) s.tree;
          directory = d;
        },
        success,
        found,
      )

  -- The target is not in the tree, and is locked if it is a directory.
  pub share_new_target : Bool → ℕ → Name → List Name → ℕ → State D → State D × Code × ℕ
  share_new_target is_directory given name at parent s =
      let (id, d) = env.search dir_lock_shared parent name s.directory in
      if id == not_exist
      then if is_directory then (record s { directory = d }, path_not_exists, given) else (
        record s {
          tree = put (name ∷ at) (record { inode_id = id; lock = pp_none }) s.tree;
          directory = env.release_last d;
        },
        success,
        id,
      )
      else (
        record s {
          tree = put (name ∷ at) (record { inode_id = id; lock = pp_shared }) s.tree;
          directory = d;
        },
        success,
        id,
      )

  pub share_node : Name → List Name → Node → LockMode → ℕ → State D → State D × Code × ℕ
  share_node name at node pp_exclusive given s = (s, path_lock_conflict, given)
  share_node name at node pp_none given s =
      (if node.inode_id == not_exist then s else lock_again name at node s, success, node.inode_id)
  share_node name at node pp_shared given s = (s, success, node.inode_id)
  share_node name at node pp_exclusive_for_create given s = (s, success, node.inode_id)

  pub share_target : Bool → ℕ → Name → List Name → ℕ → State D → State D × Code × ℕ
  share_target is_directory given name at parent s = elim (s.tree (name ∷ at)) [
    | none ↦ share_new_target is_directory given name at parent s
    | some node ↦ share_node name at node node.lock given s
  ]
