-- ===== src/RwLock/Moves.antt =====
-- A step of one backend of falcon/utils/rwlock.c keeps every lock word in agreement with the handles.
use falconfs.Common.{
  ℕ, suc, ◌+◌, ◌^◌, ◌<◌, ◌≡◌, ◌≢◌, refl, ap, Bool, true, false, some, sym, subst, arith, update,
  update_here, update_there, ℕ_discrete, ◌∙◌, fetch_add, fetch_sub,
}
use falconfs.RwLock.{
  RwLockMode, exclusive, shared, declared, attempt, release_value, rw_val_ref_count,
  remove_declared, remove_newest, newest,
}
use falconfs.RwLock.Held.{
  length-remove_newest, length-remove_declared, uses, uses-remove_newest, uses-remove_declared,
}
use falconfs.RwLock.Word.{
  fetch_add-ref, fetch_sub-ref, fetch_sub-shared, fetch_sub-exclusive, attempt-exclusive,
  attempt-shared, Attempted,
}
use falconfs.RwLock.System.{
  idle, trying, dropping, Backend, after_swap, Act, declares, undeclares, acquires, reads, swaps,
  swap_fails, releases, drops,
}
use falconfs.RwLock.Counts.{
  as_shared, as_exclusive, as_ref, refs_of, refs_of-le, exclusive_of, shared_of, IsRequest,
  shared_of-le, IsOrderly, Encodes-cast, Counts,
}

module _ (ws : ℕ → ℕ) (b : Backend) (o : IsOrderly b) (l s e r : ℕ)
    (few : (s + 8197 < 2 ^ 24) × (r + 8197 < 2 ^ 25)) (c : Counts l ws b s e r) where
  swapped :
      (k : ℕ) (mode : RwLockMode) (old : ℕ) (a : Bool × ℕ)
      → b.pc ≡ trying k mode old
      → mode ≢ declared
      → k ≡ l
      → Attempted mode a (s + shared_of l b) (e + exclusive_of l b) (r + refs_of l b)
      → Counts l (update ws k a.1) (after_swap a.0 k mode b) s e r
  unfolding uses after_swap
  swapped k exclusive old (true, w) i d p (x, y, t) =
      Encodes-cast t (update_here ws k l w p) (ground arith) (ground arith) (ground arith)
  swapped k exclusive old (false, w) i d p t =
      Encodes-cast t (update_here ws k l w p) refl refl (ground arith)
  swapped k shared old (true, w) i d p (y, t) =
      Encodes-cast t (update_here ws k l w p) (ground arith) (ground arith) (ground arith)
  swapped k shared old (false, w) i d p t =
      Encodes-cast t (update_here ws k l w p) refl refl (ground arith)
  swapped k declared old a i d p t = absurd (d refl)

  attempted :
      (mode : RwLockMode) (old : ℕ)
      → mode ≢ declared
      → ws l ≡ old
      → Attempted mode
          (attempt mode old)
          (s + shared_of l b)
          (e + exclusive_of l b)
          (r + refs_of l b)
  attempted exclusive old d p = rw (← p) (attempt-exclusive c)
  attempted shared old d p = rw (← p) (attempt-shared c (omega (arith, shared_of-le l b o)))
  attempted declared old d p = absurd (d refl)

  swapped_elsewhere :
      (k : ℕ) (mode : RwLockMode) (old : ℕ) (a : Bool × ℕ)
      → b.pc ≡ trying k mode old
      → k ≢ l
      → Counts l (update ws k a.1) (after_swap a.0 k mode b) s e r
  unfolding uses after_swap
  swapped_elsewhere k mode old (true, w) i p =
      Encodes-cast c (update_there ws k l w p) (ground arith) (ground arith) (ground arith)
  swapped_elsewhere k mode old (false, w) i p =
      Encodes-cast c (update_there ws k l w p) refl refl (ground arith)

  released :
      (k : ℕ) (mode : RwLockMode)
      → b.pc ≡ idle
      → newest k b.held ≡ some mode
      → mode ≢ declared
      → k ≡ l
      → Counts l
          (update ws k (fetch_sub (ws k) (release_value mode)))
          (record b { held = remove_newest k b.held; pc = dropping k })
          s
          e
          r
  unfolding uses release_value
  released k exclusive i h d p =
      Encodes-cast
        (fetch_sub-exclusive (
          Encodes-cast {s' = s + uses as_shared l (remove_newest k b.held)}
            {e' = suc (e + uses as_exclusive l (remove_newest k b.held))}
            {r' = r + (1 + uses as_ref l (remove_newest k b.held))} c refl
            (ground (arith, uses-remove_newest as_shared k l b.held exclusive h))
            (ground (arith, uses-remove_newest as_exclusive k l b.held exclusive h))
            (ground (arith, uses-remove_newest as_ref k l b.held exclusive h))))
        (update_here ws k l _ p ∙ ap (λ x. fetch_sub (ws x) (2 ^ 24)) p) refl refl (ground arith)
  released k shared i h d p =
      Encodes-cast
        (fetch_sub-shared (
          Encodes-cast {s' = suc (s + uses as_shared l (remove_newest k b.held))}
            {e' = e + uses as_exclusive l (remove_newest k b.held)}
            {r' = r + (1 + uses as_ref l (remove_newest k b.held))} c refl
            (ground (arith, uses-remove_newest as_shared k l b.held shared h))
            (ground (arith, uses-remove_newest as_exclusive k l b.held shared h))
            (ground (arith, uses-remove_newest as_ref k l b.held shared h))))
        (update_here ws k l _ p ∙ ap (λ x. fetch_sub (ws x) 1) p) refl refl (ground arith)
  released k declared i h d p = absurd (d refl)

  request : (k : ℕ) (mode : RwLockMode) (old : ℕ) → b.pc ≡ trying k mode old → mode ≢ declared
  request k mode old i = subst IsRequest i o.request

  pub Act-Counts : {ws' : ℕ → ℕ} {b' : Backend} → Act ws b ws' b' → Counts l ws' b' s e r
  unfolding uses
  Act-Counts (declares k i m) = elim (ℕ_discrete k l) [
    | yes p ↦
        Encodes-cast (fetch_add-ref c (ground (arith, refs_of-le l b o)))
          (update_here ws k l _ p ∙ ap (λ x. fetch_add (ws x) rw_val_ref_count) p) (ground arith)
          (ground arith) (ground arith)
    | no p ↦ Encodes-cast c (update_there ws k l _ p) (ground arith) (ground arith) (ground arith)
  ]
  Act-Counts (undeclares k i h) = elim (ℕ_discrete k l) [
    | yes p ↦
        Encodes-cast
          (fetch_sub-ref (
            Encodes-cast {r' = suc (r + refs_of l (record b { held = remove_declared k b.held }))} c
              refl (ground (arith, uses-remove_declared as_shared k l b.held h))
              (ground (arith, uses-remove_declared as_exclusive k l b.held h))
              (ground (arith, uses-remove_declared as_ref k l b.held h))))
          (update_here ws k l _ p ∙ ap (λ x. fetch_sub (ws x) rw_val_ref_count) p) refl refl refl
    | no p ↦
        Encodes-cast c (update_there ws k l _ p)
          (ground (arith, uses-remove_declared as_shared k l b.held h))
          (ground (arith, uses-remove_declared as_exclusive k l b.held h))
          (ground (arith, uses-remove_declared as_ref k l b.held h))
  ]
  Act-Counts (acquires k mode i d m) = elim (ℕ_discrete k l) [
    | yes p ↦
        Encodes-cast (fetch_add-ref c (ground (arith, refs_of-le l b o)))
          (update_here ws k l _ p ∙ ap (λ x. fetch_add (ws x) rw_val_ref_count) p) (ground arith)
          (ground arith) (ground arith)
    | no p ↦ Encodes-cast c (update_there ws k l _ p) (ground arith) (ground arith) (ground arith)
  ]
  Act-Counts (reads k mode i) = Encodes-cast c refl refl refl (ground arith)
  Act-Counts (swap_fails k mode old i n) = Encodes-cast c refl refl refl (ground arith)
  Act-Counts (drops k i) = elim (ℕ_discrete k l) [
    | yes p ↦
        Encodes-cast
          (fetch_sub-ref
            (Encodes-cast {r' = suc (r + uses as_ref l b.held)} c refl refl refl (ground arith)))
          (update_here ws k l _ p ∙ ap (λ x. fetch_sub (ws x) rw_val_ref_count) p) (ground arith)
          (ground arith) (ground arith)
    | no p ↦ Encodes-cast c (update_there ws k l _ p) (ground arith) (ground arith) (ground arith)
  ]
  Act-Counts (swaps k mode old i h) = elim (ℕ_discrete k l) [
    | yes p ↦
        swapped k mode old (attempt mode old) i (request k mode old i) p
          (attempted mode old (request k mode old i) (ap ws (sym p) ∙ h))
    | no p ↦ swapped_elsewhere k mode old (attempt mode old) i p
  ]
  Act-Counts (releases k mode i h d) = elim (ℕ_discrete k l) [
    | yes p ↦ released k mode i h d p
    | no p ↦
        Encodes-cast c (update_there ws k l _ p)
          (ground (arith, uses-remove_newest as_shared k l b.held mode h))
          (ground (arith, uses-remove_newest as_exclusive k l b.held mode h))
          (ground (arith, uses-remove_newest as_ref k l b.held mode h))
  ]

swapped-IsOrderly :
    (k : ℕ) (mode : RwLockMode) (old : ℕ) (taken : Bool) (b : Backend)
    → IsOrderly b
    → b.pc ≡ trying k mode old
    → IsOrderly (after_swap taken k mode b)
unfolding after_swap
swapped-IsOrderly k mode old true b o i = record { room = ground (arith, o.room); request = tt }
swapped-IsOrderly k mode old false b o i = record {
  room = ground (arith, o.room);
  request = subst IsRequest i o.request;
}

-- A step keeps the number of handles within the array, and requests for real modes only.
pub Act-IsOrderly :
    (ws : ℕ → ℕ) (b : Backend) {ws' : ℕ → ℕ} {b' : Backend}
    → IsOrderly b
    → Act ws b ws' b'
    → IsOrderly b'
Act-IsOrderly ws b o (declares k i m) = record {
  room = ground (arith, o.room);
  request = ground (arith, o.request);
}
Act-IsOrderly ws b o (undeclares k i h) = record {
  room = omega (arith, o.room, length-remove_declared k b.held h);
  request = o.request;
}
Act-IsOrderly ws b o (acquires k mode i d m) = record { room = ground (arith, o.room); request = d }
Act-IsOrderly ws b o (reads k mode i) = record {
  room = ground (arith, o.room);
  request = subst IsRequest i o.request;
}
Act-IsOrderly ws b o (swap_fails k mode old i n) = record {
  room = ground (arith, o.room);
  request = subst IsRequest i o.request;
}
Act-IsOrderly ws b o (drops k i) = record { room = ground (arith, o.room); request = tt }
Act-IsOrderly ws b o (swaps k mode old i h) =
    swapped-IsOrderly k mode old (attempt mode old).0 b o i
Act-IsOrderly ws b o (releases k mode i h d) = record {
  room = ground (arith, o.room, length-remove_newest k b.held mode h);
  request = tt;
}
