-- ===== src/PathParse/Segments.antt =====
-- A path cut at its slashes, for falcon/utils/path_parse.c.
use falconfs.Common.{
  ℕ, zero, suc, ◌+◌, ◌<◌, ◌≡◌, ◌≢◌, refl, sym, ap, ◌∙◌, inl, inr, Option, none, some, List, [], ◌∷◌,
  arith, ◌==◌, if◌then◌else◌, ==_iff, Bool-cases, nat_eq, list_eq, length, All,
}
use falconfs.PathParse.{Name}
use falconfs.PathParse.Insert.{slash, char_at, sub_path}

-- The name before the first slash, and the names between the later ones.
unfoldable pub segments : List ℕ → Name × List Name
segments [] = ([], [])
segments (c ∷ cs) =
    let (name, names) = segments cs in if c == slash then ([], name ∷ names) else (c ∷ name, names)

-- All names but the last, and the last.
abbrev pub directories : Name → List Name → List Name × Name
directories name [] = ([], name)
directories name (next ∷ names) = let (dirs, last) = directories next names in (name ∷ dirs, last)

-- The names of a path that starts with a slash: the root comes first, and a path of nothing else has
-- only the root.
abbrev pub names_of : List ℕ → List Name × Name
names_of [] = ([], slash ∷ [])
names_of (c ∷ cs) =
    let (name, names) = segments (c ∷ cs) in
    let (dirs, last) = directories name names in ((slash ∷ []) ∷ dirs, last)

-- What follows the first slash, if there is one.
unfoldable pub after_slash : List ℕ → Option (List ℕ)
after_slash [] = none
after_slash (c ∷ cs) = if c == slash then some cs else after_slash cs

abbrev pub drop : ℕ → List ℕ → List ℕ
drop zero cs = cs
drop (suc n) [] = []
drop (suc n) (c ∷ cs) = drop n cs

-- No byte is the terminator.
abbrev pub Terminated : List ℕ → Type 0
Terminated cs = All (λ c. c ≢ 0) cs

pub char_at-drop : (n : ℕ) (path : List ℕ) → char_at path n ≡ char_at (drop n path) 0
char_at-drop zero path = refl
char_at-drop (suc n) [] = refl
char_at-drop (suc n) (c ∷ cs) = char_at-drop n cs

pub sub_path-drop :
    (start len : ℕ) (path : List ℕ) → sub_path path start len ≡ sub_path (drop start path) 0 len
sub_path-drop zero len path = refl
sub_path-drop (suc start) len [] = refl
sub_path-drop (suc start) len (c ∷ cs) = sub_path-drop start len cs

pub zero-add : (n : ℕ) → 0 + n ≡ n
zero-add n = omega arith

suc-add : (m n : ℕ) → suc m + n ≡ suc (m + n)
suc-add m n = omega arith

drop-nil : (n : ℕ) → drop n [] ≡ []
drop-nil zero = refl
drop-nil (suc n) = refl

pub drop-add : (m n : ℕ) (path : List ℕ) → drop (m + n) path ≡ drop n (drop m path)
drop-add zero n path = ap (λ (k : ℕ). drop k path) (zero-add n)
drop-add (suc m) n [] =
    ap (λ (k : ℕ). drop k []) (suc-add m n) ∙ drop-nil (suc (m + n)) ∙ sym (drop-nil n)
drop-add (suc m) n (c ∷ cs) = ap (λ (k : ℕ). drop k (c ∷ cs)) (suc-add m n) ∙ drop-add m n cs

-- The first name of what has no slash is all of it.
pub segments-last :
    (cs : List ℕ) → after_slash cs ≡ none → ((segments cs).0 ≡ cs) × ((segments cs).1 ≡ [])
unfolding segments after_slash
segments-last [] e = (refl, refl)
segments-last (c ∷ cs) e = ground (arith, segments-last cs)

-- Otherwise the slash follows the first name.
pub segments-more :
    (cs rest : List ℕ)
    → after_slash cs ≡ some rest
    → (drop (length (segments cs).0) cs ≡ slash ∷ rest)
      × ((segments cs).1 ≡ (segments rest).0 ∷ (segments rest).1)
      × (length rest < length cs)
unfolding segments after_slash
segments-more [] rest e = ground (arith, e)
segments-more (c ∷ cs) rest e = elim (Bool-cases (c == slash)) [
  | inl q ↦ ground (arith, q, e, (==_iff c slash).0 q)
  | inr q ↦ ground (arith, q, e, segments-more cs rest)
]

pub sub_path-segments : (cs : List ℕ) → sub_path cs 0 (length (segments cs).0) ≡ (segments cs).0
unfolding segments
sub_path-segments [] = refl
sub_path-segments (c ∷ cs) = elim (Bool-cases (c == slash)) [
  | inl q ↦ rw q refl
  | inr q ↦ rw q (ap (λ (n : Name). c ∷ n) (sub_path-segments cs))
]

pub Terminated-after :
    (cs rest : List ℕ) → after_slash cs ≡ some rest → Terminated cs → Terminated rest
unfolding after_slash
Terminated-after [] rest e h = ground (arith, e)
Terminated-after (c ∷ cs) rest e (h, hs) = ground (arith, e, hs, Terminated-after cs rest)
