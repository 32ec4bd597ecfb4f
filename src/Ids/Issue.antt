-- ===== src/Ids/Issue.antt =====
-- The numbers of GetNextSequenceNum, falcon/utils/path_parse.c, over all backends.
use falconfs.Common.{
  update, update-elim, ℕ, ◌+◌, ◌^◌, ◌≤◌, ◌<◌, ◌≡◌, ◌≢◌, ap, subst, ◌⊎◌, inl, inr, List, [], ◌∷◌,
  arith, ℕ_discrete, length, All,
}
use falconfs.Ids.{next_in, issued, Batch, Sequence, batch_size, refill, next_sequence_num}

-- The numbers that a backend may still hand out of its batch.
abbrev pub Within : Batch → ℕ → Type 0
Within b n = (b.current ≤ n) × (n < b.current + b.remain)

-- The batch `k` of the sequence ends before the next one, and starts within 63 bits.
abbrev pub SpacedAt : (ℕ → ℕ) → ℕ → Type 0
SpacedAt nextval k = (nextval k + batch_size ≤ nextval (k + 1)) × (nextval k < 2 ^ 63)

-- The same of the first `bound` batches.
abbrev pub Spaced : (ℕ → ℕ) → ℕ → Type 0
Spaced nextval bound = (k : ℕ) → k < bound → SpacedAt nextval k

module _ (nextval : ℕ → ℕ) where
  pub record Sound (s : Sequence) : Type 0 where
    pub apart : (i j n : ℕ) → Within (s.batches i) n → Within (s.batches j) n → i ≡ j
    pub drawn_before :
        (i : ℕ)
        → (s.batches i).remain ≢ 0
        → (s.batches i).current + (s.batches i).remain ≤ nextval s.drawn
    pub small : (i : ℕ) → (s.batches i).remain ≤ batch_size

  -- No backend will hand out `n`.
  unfoldable pub Spent : Sequence → ℕ → Type 0
  Spent s n = ((i : ℕ) → ¬ Within (s.batches i) n) × (n < nextval s.drawn)

  -- A backend hands out `n` of its batch, which is filled first if it is empty.
  abbrev Draws : Batch → Batch → ℕ → ℕ → ℕ → Type 0
  Draws b b' n drawn drawn' =
      ((b.remain ≡ 0)
        × (n ≡ nextval drawn)
        × (b'.current ≡ nextval drawn + 1)
        × (b'.remain ≡ 31)
        × (drawn' ≡ drawn + 1))
      ⊎ ((b.remain ≢ 0)
          × (n ≡ b.current)
          × (b'.current ≡ b.current + 1)
          × (b'.remain + 1 ≡ b.remain)
          × (drawn' ≡ drawn))

  next_sequence_num-Draws :
      (b : Batch) (drawn : ℕ)
      → nextval drawn < 2 ^ 63
      → b.remain ≤ batch_size
      → (b.remain ≢ 0 → b.current + b.remain ≤ nextval drawn)
      → let r = next_sequence_num nextval b drawn in Draws b r.1 r.0 drawn r.2
  unfolding next_sequence_num refill
  next_sequence_num-Draws b drawn lt le fits = elim (ℕ_discrete b.remain 0) [
    | yes e ↦ inl (ground arith)
    | no ne ↦ inr (ground arith)
  ]

  module _ (f : ℕ → Batch) (i : ℕ) (b' : Batch) (n drawn drawn' : ℕ)
      (spaced : SpacedAt nextval drawn) (sound : Sound (record { batches = f; drawn = drawn }))
      (draws : Draws (f i) b' n drawn drawn') where
    abbrev after : Sequence
    after = record { batches = update f i b'; drawn = drawn' }

    abbrev before : Sequence
    before = record { batches = f; drawn = drawn }

    drawn_le : nextval drawn ≤ nextval drawn'
    drawn_le = ground (arith, spaced)

    n_before : n < nextval drawn'
    n_before = ground (arith, spaced, draws, sound.drawn_before i)

    ends_before : b'.remain ≢ 0 → b'.current + b'.remain ≤ nextval drawn'
    ends_before ne = ground (arith, spaced, draws, sound.drawn_before i)

    below : (j m : ℕ) → Within (f j) m → m < nextval drawn
    below j m w = ground (arith, sound.drawn_before j)

    inherits :
        (j m : ℕ)
        → i ≡ j
        → Within b' m
        → (n ≢ m) × (Within (f j) m ⊎ ((i ≡ j) × (nextval drawn ≤ m)))
    inherits j m e w = ground (arith, draws, ap f e)

    keeps :
        (j m : ℕ)
        → i ≢ j
        → Within (f j) m
        → (n ≢ m) × (Within (f j) m ⊎ ((i ≡ j) × (nextval drawn ≤ m)))
    keeps j m ne w = ground (arith, draws, below j m, λ (v : Within (f i) m). sound.apart i j m v w)

    -- What the backend `j` can hand out afterwards, it could before, or it is of the new batch.
    Within-after :
        (j m : ℕ)
        → Within (update f i b' j) m
        → (n ≢ m) × (Within (f j) m ⊎ ((i ≡ j) × (nextval drawn ≤ m)))
    Within-after j m =
        update-elim (λ b. Within b m → (n ≢ m) × (Within (f j) m ⊎ ((i ≡ j) × (nextval drawn ≤ m))))
          f i b' j (λ e w. inherits j m e w) (λ ne w. keeps j m ne w)

    Sound-after : Sound after
    Sound-after = record {
      apart = λ j k m wj wk. ground (
        arith,
        Within-after j m wj,
        Within-after k m wk,
        sound.apart j k m,
        below j m,
        below k m,
      );
      drawn_before = λ j.
          update-elim (λ b. b.remain ≢ 0 → b.current + b.remain ≤ nextval drawn') f i b' j
            (λ e ne. ends_before ne) (λ ne ne'. omega (arith, drawn_le, sound.drawn_before j ne'));
      small = λ j.
          update-elim (λ b. b.remain ≤ batch_size) f i b' j (λ e. ground (arith, sound.small i))
            (λ ne. sound.small j);
    }

    Spent-after : (m : ℕ) → Spent before m → Spent after m
    unfolding Spent
    Spent-after m (out, lt) =
        (λ j w. ground (arith, Within-after j m w, out j), omega (arith, drawn_le))

    Spent-drawn : Spent after n
    unfolding Spent
    Spent-drawn = (λ j w. ground (arith, Within-after j n w), n_before)

    Spent-fresh : ¬ Spent before n
    unfolding Spent
    Spent-fresh (out, lt) = ground (arith, draws, out i)

-- No member twice.
abbrev pub Distinct : List ℕ → Type 0
Distinct [] = Unit
Distinct (x ∷ xs) = All (λ y. x ≢ y) xs × Distinct xs

abbrev pub fresh : ℕ → Sequence
fresh drawn = record { batches = λ i. record { remain = 0; current = 0 }; drawn = drawn }

module _ (nextval : ℕ → ℕ) (bound : ℕ) (spaced : Spaced nextval bound) where
  next_in-Draws :
      (i : ℕ) (s : Sequence)
      → Sound nextval s
      → s.drawn < bound
      → let r = next_sequence_num nextval (s.batches i) s.drawn in
        Draws nextval (s.batches i) r.1 r.0 s.drawn r.2
  next_in-Draws i s sound lt =
      next_sequence_num-Draws nextval (s.batches i) s.drawn (spaced s.drawn lt).1 (sound.small i)
        (sound.drawn_before i)

  Draws-once :
      (b b' : Batch) (n drawn drawn' : ℕ) → Draws nextval b b' n drawn drawn' → drawn' ≤ drawn + 1
  Draws-once b b' n drawn drawn' d = ground arith

  -- One number more: the state stays sound, and the number was not spent before and is afterwards.
  next_in-Sound :
      (i : ℕ) (s : Sequence)
      → Sound nextval s
      → s.drawn < bound
      → (Sound nextval (next_in nextval i s).1)
        × ((m : ℕ) → Spent nextval s m → Spent nextval (next_in nextval i s).1 m)
        × (Spent nextval (next_in nextval i s).1 (next_in nextval i s).0)
        × (¬ Spent nextval s (next_in nextval i s).0)
        × ((next_in nextval i s).1.drawn ≤ s.drawn + 1)
  unfolding next_in
  next_in-Sound i s sound lt = (
    Sound-after nextval s.batches i (next_sequence_num nextval (s.batches i) s.drawn).1
        (next_sequence_num nextval (s.batches i) s.drawn).0 s.drawn
        (next_sequence_num nextval (s.batches i) s.drawn).2 (spaced s.drawn lt) sound
        (next_in-Draws i s sound lt),
    Spent-after nextval s.batches i (next_sequence_num nextval (s.batches i) s.drawn).1
        (next_sequence_num nextval (s.batches i) s.drawn).0 s.drawn
        (next_sequence_num nextval (s.batches i) s.drawn).2 (spaced s.drawn lt) sound
        (next_in-Draws i s sound lt),
    Spent-drawn nextval s.batches i (next_sequence_num nextval (s.batches i) s.drawn).1
        (next_sequence_num nextval (s.batches i) s.drawn).0 s.drawn
        (next_sequence_num nextval (s.batches i) s.drawn).2 (spaced s.drawn lt) sound
        (next_in-Draws i s sound lt),
    Spent-fresh nextval s.batches i (next_sequence_num nextval (s.batches i) s.drawn).1
        (next_sequence_num nextval (s.batches i) s.drawn).0 s.drawn
        (next_sequence_num nextval (s.batches i) s.drawn).2 (spaced s.drawn lt) sound
        (next_in-Draws i s sound lt),
    Draws-once (s.batches i) (next_sequence_num nextval (s.batches i) s.drawn).1
        (next_sequence_num nextval (s.batches i) s.drawn).0 s.drawn
        (next_sequence_num nextval (s.batches i) s.drawn).2 (next_in-Draws i s sound lt),
  )

  issued-not_Spent :
      (is : List ℕ) (s : Sequence) (m : ℕ)
      → Sound nextval s
      → Spent nextval s m
      → s.drawn + length is ≤ bound
      → All (λ y. m ≢ y) (issued nextval is s)
  unfolding issued
  issued-not_Spent [] s m sound spent le = tt
  issued-not_Spent (i ∷ is) s m sound spent le =
      let (sound', kept, drawn, new, once) = next_in-Sound i s sound (omega arith) in
      (
        λ e. new (subst (λ (k : ℕ). Spent nextval s k) e spent),
        issued-not_Spent is (next_in nextval i s).1 m sound' (kept m spent) (omega arith),
      )

  issued-Distinct_from :
      (is : List ℕ) (s : Sequence)
      → Sound nextval s
      → s.drawn + length is ≤ bound
      → Distinct (issued nextval is s)
  unfolding issued
  issued-Distinct_from [] s sound le = tt
  issued-Distinct_from (i ∷ is) s sound le =
      let (sound', kept, drawn, new, once) = next_in-Sound i s sound (omega arith) in
      (
        issued-not_Spent is (next_in nextval i s).1 (next_in nextval i s).0 sound' drawn
            (omega arith),
        issued-Distinct_from is (next_in nextval i s).1 sound' (omega arith),
      )

fresh-Sound : (nextval : ℕ → ℕ) (drawn : ℕ) → Sound nextval (fresh drawn)
fresh-Sound nextval drawn = record {
  apart = λ i j n w w'. ground (arith, w);
  drawn_before = λ i ne. ground (arith, ne);
  small = λ i. omega arith;
}

-- If the sequence's batches from `drawn` on, as many as there are calls, are at least 32 apart and start below
-- 2^63, the numbers that GetNextSequenceNum returns to any backends in any order, from the time when no
-- backend holds a batch, are all different.
pub issued-Distinct :
    (nextval : ℕ → ℕ) (drawn : ℕ) (is : List ℕ)
    → Spaced nextval (drawn + length is)
    → Distinct (issued nextval is (fresh drawn))
issued-Distinct nextval drawn is spaced =
    issued-Distinct_from nextval (drawn + length is) spaced is (fresh drawn)
      (fresh-Sound nextval drawn) (omega arith)
