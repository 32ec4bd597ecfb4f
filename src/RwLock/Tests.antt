-- ===== src/RwLock/Tests.antt =====
-- Runs of the reader-writer lock, and its theorems at concrete inputs.
use falconfs.Common.{
  ◌-◌, ◌>>=◌, ◌<◌, ◌↔◌, ◌⊎◌, ℕ_discrete, ℕ, ◌+◌, ◌^◌, ◌≡◌, refl, inl, true, false, [], ◌∷◌, ok,
  arith, update,
}
use falconfs.RwLock.{
  release_value, exclusive, shared, declared, Process, attempt, declare, release, release_all,
  check_destroyable, newest,
}
use falconfs.RwLock.Held.{Covered, release_all_lem, Released, uses}
use falconfs.RwLock.System.{
  System, acquires, reads, swaps, pick, Reach, start, later, idle, attempting, trying, after_swap,
}
use falconfs.RwLock.Counts.{refs_of}
use falconfs.RwLock.Safety.{Holds, mutual_exclusion, destroyable_iff}
use falconfs.RwLock.Waiter.{WantsExclusive}
use falconfs.RwLock.Readers.{shared_refused}

abbrev word_of_one : ℕ
word_of_one = 2 ^ 24 + 2 ^ 25

attempts :
    (attempt exclusive 0 ≡ (true, 2 ^ 24))
    × (attempt exclusive (2 ^ 25 + 3) ≡ (false, 2 ^ 62 + 2 ^ 25 + 3))
    × (attempt shared (2 ^ 62) ≡ (false, 2 ^ 62))
    × (attempt shared 3 ≡ (true, 4))
unfolding attempt
attempts = (refl, refl, refl, refl)

-- Backend 0 has taken lock 7 exclusively, in three steps.
abbrev entering : System
entering = record {
  words = update (λ _. 0) 7 (2 ^ 25);
  backends =
      update (λ _. record { held = []; pc = idle }) 0
        (record { held = []; pc = attempting 7 exclusive });
}

abbrev swapping : System
swapping = record {
  words = update (λ _. 0) 7 (2 ^ 25);
  backends = update entering.backends 0 (record { held = []; pc = trying 7 exclusive (2 ^ 25) });
}

abbrev writing : System
writing = record {
  words = update swapping.words 7 (attempt exclusive (2 ^ 25)).1;
  backends =
      update swapping.backends 0
        (after_swap (attempt exclusive (2 ^ 25)).0 7 exclusive (swapping.backends 0));
}

writing_reached : Reach 2 writing
unfolding ℕ_discrete
writing_reached =
    later
      (later
        (later start (pick 0 (omega arith) (acquires 7 exclusive refl (λ e. cc) (omega arith))))
        (pick 0 (omega arith) (reads 7 exclusive refl)))
      (pick 0 (omega arith) (swaps 7 exclusive (2 ^ 25) refl refl))

writer-Holds : Holds 7 exclusive (writing.backends 0).held
unfolding attempt after_swap ℕ_discrete
writer-Holds = inl (refl, refl)

mutual_exclusion_example :
    (¬ Holds 7 shared (writing.backends 1).held)
    × (Holds 7 exclusive (writing.backends 1).held → ◌≡◌ {A = ℕ} 0 1)
mutual_exclusion_example =
    mutual_exclusion (omega arith) writing_reached 7 0 1 (omega arith) (omega arith) writer-Holds

destroyable_iff_example :
    (check_destroyable (writing.words 7) ≡ true)
    ↔ ((i : ℕ) → i < 2 → refs_of 7 (writing.backends i) ≡ 0)
destroyable_iff_example = destroyable_iff (omega arith) writing_reached 7

shared_refused_example :
    ((i : ℕ) × Holds 7 exclusive (writing.backends i).held)
    ⊎ ((i : ℕ) × WantsExclusive 7 (writing.backends i).pc)
unfolding attempt ℕ_discrete
shared_refused_example = shared_refused (omega arith) writing_reached 7 refl

-- Lock 7 is declared and held shared, lock 8 held exclusively.
abbrev busy : Process
busy = record {
  words = update (update (λ _. 0) 7 (2 ^ 26 + 1)) 8 (2 ^ 24 + 2 ^ 25);
  held =
      record { lock = 8; mode = exclusive }
      ∷ record { lock = 7; mode = shared }
      ∷ record { lock = 7; mode = declared }
      ∷ [];
  interrupt_holdoff = 3;
}

busy-Covered : Covered busy.words busy.held
unfolding uses
busy-Covered l = ground arith

release_all_lem_example :
    (q : Process) × (release_all 3 false busy ≡ ok q) × Released false busy.words busy.held 3 q
release_all_lem_example = release_all_lem false busy busy-Covered (omega arith)

-- RWLockRelease takes the newest handle whatever its mode: after a declaration it subtracts a shared
-- count that was never added, and the word wraps into the other fields.
release_of_declared :
    (declare 7 (record { words = λ _. 0; held = []; interrupt_holdoff = 0 }) >>= release 7 >>= λ p.
    ok (p.words 7))
    ≡ ok (2 ^ 64 - 1)
unfolding declare release newest release_value ℕ_discrete
release_of_declared = refl
