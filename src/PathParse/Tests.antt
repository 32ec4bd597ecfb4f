-- ===== src/PathParse/Tests.antt =====
-- Runs of the path parse, and its theorems at concrete inputs.
use falconfs.Common.{
  ℕ, ◌+◌, ◌*◌, ◌≡◌, refl, ◌&&◌, none, some, List, [], ◌∷◌, arith, ◌==◌, if◌then◌else◌, ◌=?◌, nat_eq,
  list_eq, ok,
}
use falconfs.PathParse.{
  put, pp_exclusive, Name, DirLock, Code, State, Env, walk, visit, visit_found, visit_node, enter,
  lock_again, create_directory, create_new, number_for, generate, remove_directory, share_target,
  share_new_target, success, path_lock_conflict, not_exist, path_is_invalid,
}
use falconfs.Ids.{generate_inode_id_by_seq_and_node_id, next_sequence_num, refill}
use falconfs.PathParse.Walk.{walk_again}
use falconfs.PathParse.Names.{name_loop-names_of}
use falconfs.PathParse.Segments.{segments}
use falconfs.PathParse.Check.{check_whether_path_exists, follow, check_whether_path_exists-follow}
use falconfs.PathParse.Conflicts.{
  insert_names-create_conflict, insert_names-create_allow, insert_names-remove_conflict,
}
use falconfs.PathParse.Insert.{
  Answer, insert_names, insert_target, create_target, remove_target, name_loop, scan_name, flag_set,
  verify_path_validity,
}

-- "/", "a", "b".
abbrev root : Name
root = 47 ∷ []

abbrev a : Name
a = 97 ∷ []

abbrev b : Name
b = 98 ∷ []

-- The directory table has the root and /a, with the number 5, and counts the searches.
abbrev table : DirLock → ℕ → Name → ℕ → ℕ × ℕ
table lock parent name count =
    (if name =? root then 0 else if name =? a && parent == 0 then 5 else not_exist, count + 1)

abbrev env : Env ℕ
env = record { search = table; release_last = λ d. d; nextval = λ k. 1 + 32 * k; server_id = 3 }

abbrev start : State ℕ
start = record {
  tree = λ k. none;
  directory = 0;
  batch = record { remain = 0; current = 0 };
  drawn = 0;
}

names_run : name_loop 7 (47 ∷ 97 ∷ 97 ∷ 47 ∷ 98 ∷ []) 0 1 ≡ some (root ∷ (97 ∷ 97 ∷ []) ∷ [], b)
unfolding name_loop scan_name
names_run = refl

validity_run :
    (verify_path_validity (some (47 ∷ 97 ∷ [])) 1 ≡ (success, 3))
    × (verify_path_validity (some (97 ∷ [])) 0 ≡ (path_is_invalid, 0))
unfolding verify_path_validity flag_set
validity_run = (refl, refl)

-- mkdir of /a/b: the number is the first of the sequence, of server 3.
abbrev made : State ℕ × Code × Answer
made = insert_names env 6 (some 0) (root ∷ a ∷ []) b start

made_run :
    (made.1 ≡ success)
    × (made.2 ≡ record { parent_id = some 5; file_name = some b; inode_id = some 4099 })
    × (made.0.directory ≡ 3)
unfolding insert_names walk visit visit_found enter insert_target create_target flag_set
    create_directory create_new number_for generate next_sequence_num refill
    generate_inode_id_by_seq_and_node_id
made_run = (refl, refl, refl)

insert_names-create_conflict_example :
    insert_names env 0 none (root ∷ a ∷ b ∷ []) a made.0
    ≡ (made.0, path_lock_conflict, record { parent_id = none; file_name = none; inode_id = none })
unfolding insert_names walk visit visit_found enter insert_target create_target flag_set
    create_directory create_new number_for generate next_sequence_num refill
    generate_inode_id_by_seq_and_node_id
insert_names-create_conflict_example =
    insert_names-create_conflict env 6 (some 0) (root ∷ a ∷ []) b start made.0 made.2 refl refl refl
      refl 0 none [] a

abbrev allowed : State ℕ × Code × Answer
allowed = insert_names env 38 (some 0) (root ∷ a ∷ []) b start

insert_names-create_allow_example :
    (id : ℕ) × (at : List Name) × (allowed.2.inode_id ≡ some id)
    × ((more : List Name)
        → walk env (root ∷ a ∷ b ∷ more) [] 0 allowed.0 ≡ walk env more (b ∷ at) id allowed.0)
unfolding insert_names walk visit visit_found enter insert_target create_target flag_set
    create_directory create_new number_for generate next_sequence_num refill
    generate_inode_id_by_seq_and_node_id
insert_names-create_allow_example =
    insert_names-create_allow env 38 (some 0) (root ∷ a ∷ []) b start allowed.0 allowed.2 refl refl
      refl refl

abbrev removed : State ℕ × Code × Answer
removed = insert_names env 18 (some 0) (root ∷ []) a start

insert_names-remove_conflict_example : insert_names env 6 (some 0) (root ∷ a ∷ []) b removed.0 ≡ (
  removed.0,
  path_lock_conflict,
  record { parent_id = none; file_name = none; inode_id = some 0 },
)
unfolding insert_names walk visit visit_found enter insert_target remove_target flag_set
    remove_directory
insert_names-remove_conflict_example =
    insert_names-remove_conflict env 18 (some 0) (root ∷ []) a start removed.0 removed.2 refl refl
      refl refl 6 (some 0) [] b

-- The walk to /a, and once more where /b is locked besides.
abbrev walked : State ℕ
walked = (walk env (root ∷ a ∷ []) [] 0 start).0

abbrev beside : State ℕ
beside = record walked {
  tree = put (b ∷ root ∷ []) (record { inode_id = 6; lock = pp_exclusive }) walked.tree;
}

walk_again_example : walk env (root ∷ a ∷ []) [] 0 beside ≡ (beside, ok (a ∷ root ∷ [], 5))
unfolding walk visit visit_found enter
walk_again_example =
    walk_again env (root ∷ a ∷ []) [] (a ∷ root ∷ []) 0 5 start walked beside refl
      (refl, (refl, tt))

-- /b does not exist: its parse with a shared lock leaves a node with the number -1, under which the
-- next parse in the transaction goes on, with -1 for the parent.
missing_parent_run :
    ((insert_names env 64 (some 0) (root ∷ []) b start).1 ≡ success)
    × ((insert_names env 0 none
          (root ∷ b ∷ [])
          a
          (insert_names env 64 (some 0) (root ∷ []) b start).0).1
        ≡ success)
    × ((insert_names env 0 none
          (root ∷ b ∷ [])
          a
          (insert_names env 64 (some 0) (root ∷ []) b start).0).2.parent_id
        ≡ some not_exist)
unfolding insert_names walk visit visit_found visit_node lock_again enter insert_target flag_set
    share_target share_new_target
missing_parent_run = (refl, refl, refl)

name_loop-names_of_example :
    name_loop 6 (47 ∷ 97 ∷ 97 ∷ 47 ∷ 98 ∷ []) 0 1 ≡ some (root ∷ (97 ∷ 97 ∷ []) ∷ [], b)
unfolding segments
name_loop-names_of_example =
    name_loop-names_of (97 ∷ 97 ∷ 47 ∷ 98 ∷ [])
      (λ e. omega arith, (λ e. omega arith, (λ e. omega arith, (λ e. omega arith, tt))))

-- The empty name behind /a is not searched.
check_whether_path_exists-follow_example :
    check_whether_path_exists env (47 ∷ 97 ∷ 47 ∷ []) 0 ≡ (ok 5, 2)
unfolding segments follow
check_whether_path_exists-follow_example =
    check_whether_path_exists-follow env (97 ∷ 47 ∷ []) 0 (λ e. omega arith, (λ e. omega arith, tt))
