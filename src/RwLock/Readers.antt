-- ===== src/RwLock/Readers.antt =====
-- When falcon/utils/rwlock.c turns a shared request away.
use falconfs.Common.{
  ℕ, ◌≤◌, ◌<◌, ◌≡◌, ◌⊎◌, inl, inr, refl, false, sym, total, total-pos, arith, ℕ_discrete, dec_lt,
  update, update_here, bit, List, [], ◌∷◌, subst, ite,
}
use falconfs.RwLock.{exclusive, shared, Handle, attempt}
use falconfs.RwLock.Held.{uses}
use falconfs.RwLock.Word.{Encodes}
use falconfs.RwLock.Counts.{as_exclusive, exclusive_of}
use falconfs.RwLock.System.{Backend, System, Step, pick, Reach, start, later}
use falconfs.RwLock.Invariant.{Inv, Reach-Inv, max_backends, rest_few, rest-Counts}
use falconfs.RwLock.Safety.{Holds}
use falconfs.RwLock.Waiter.{WantsExclusive, Awaited, Carries, Act-Carries}

waiter_of :
    (l : ℕ) (s : System) (i : ℕ) (ws' : ℕ → ℕ) (b' : Backend)
    → Awaited l s
    → Carries l s.words (s.backends i) ws' b'
    → Awaited l (record { words = ws'; backends = update s.backends i b' })
waiter_of l s i ws' b' a c up = from (c up)
  where
    at : (j : ℕ) → Type 0
    at j = WantsExclusive l (update s.backends i b' j).pc

    here : WantsExclusive l b'.pc → at i
    here w = subst (λ b. WantsExclusive l b.pc) (sym (update_here s.backends i i b' refl)) w

    moved :
        (WantsExclusive l (s.backends i).pc → WantsExclusive l b'.pc)
        → (j : ℕ) → WantsExclusive l (s.backends j).pc
        → at j
    moved f j w = elim (ℕ_discrete i j) as (λ d. WantsExclusive l (ite d b' (s.backends j)).pc) [
      | yes p ↦ f (subst (λ k. WantsExclusive l (s.backends k).pc) (sym p) w)
      | no p ↦ w
    ]

    from :
        ((bit (s.words l) 62 ≡ 1) × (WantsExclusive l (s.backends i).pc → WantsExclusive l b'.pc))
          ⊎ WantsExclusive l b'.pc
        → (j : ℕ) × at j
    from (inl (up', f)) = let (j, w) = a up' in (j, moved f j w)
    from (inr w) = (i, here w)

Step-Awaited :
    {n : ℕ} {s t : System} (l : ℕ)
    → n ≤ max_backends
    → Inv n s
    → Step n s t
    → Awaited l s
    → Awaited l t
Step-Awaited {s} l few inv (pick i {ws'} {b'} lt act) a = waiter_of l s i ws' b' a (
    Act-Carries s.words (s.backends i) (inv.orderly i) l _ _ _ (rest_few few inv i lt l)
      (rest-Counts few inv i lt l) act)

Reach-Awaited : {n : ℕ} {s : System} (l : ℕ) → n ≤ max_backends → Reach n s → Awaited l s
Reach-Awaited l few start up = absurd (omega arith)
Reach-Awaited l few (later r st) up =
    Step-Awaited l few (Reach-Inv few r) st (Reach-Awaited l few r) up

Holds-of_uses : (l : ℕ) (hs : List Handle) → 0 < uses as_exclusive l hs → Holds l exclusive hs
unfolding uses
Holds-of_uses l [] h = absurd (omega arith)
Holds-of_uses l (x ∷ hs) h = elim (dec_lt 0 (uses as_exclusive l hs)) [
  | yes p ↦ inr (Holds-of_uses l hs p)
  | no p ↦ inl (ground arith, ground arith)
]

refused : (w s e r : ℕ) → Encodes w s e r → (attempt shared w).0 ≡ false → (0 < e) ⊎ (bit w 62 ≡ 1)
unfolding attempt
refused w s e r c h = ground arith

-- A shared request is turned away only if some backend holds the lock exclusively, or is inside
-- RWLockAcquire asking for it exclusively: the waiter flag never outlives its waiters. This holds in
-- every state that at most 2046 backends reach.
pub shared_refused :
    {n : ℕ} {s : System}
    → n ≤ max_backends
    → Reach n s
    → (l : ℕ) → (attempt shared (s.words l)).0 ≡ false
    → ((i : ℕ) × Holds l exclusive (s.backends i).held)
      ⊎ ((i : ℕ) × WantsExclusive l (s.backends i).pc)
shared_refused {n} {s} few r l h = by_cause (refused _ _ _ _ ((Reach-Inv few r).counted l) h)
  where
    by_cause :
        (0 < total (exclusive_of l) n s.backends) ⊎ (bit (s.words l) 62 ≡ 1)
        → ((i : ℕ) × Holds l exclusive (s.backends i).held)
          ⊎ ((i : ℕ) × WantsExclusive l (s.backends i).pc)
    by_cause (inl p) =
        let (i, lt, q) = total-pos (exclusive_of l) n s.backends p in
        inl (i, Holds-of_uses l (s.backends i).held q)
    by_cause (inr up) = inr (Reach-Awaited l few r up)
