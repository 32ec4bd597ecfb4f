-- ===== src/PathParse/Names.antt =====
-- The name loop of PathParseTreeInsert, falcon/utils/path_parse.c.
use falconfs.Common.{
  ℕ, zero, suc, ◌+◌, ◌≤◌, ◌<◌, ◌≡◌, ◌≢◌, refl, sym, ap, ap₂, ◌∙◌, inl, inr, Bool, none, some, List,
  [], ◌∷◌, arith, ◌==◌, if◌then◌else◌, ==_ne, Option-cases, nat_eq, list_eq, length,
}
use falconfs.PathParse.{Name}
use falconfs.PathParse.Insert.{slash, char_at, sub_path, scan_name, name_loop, with_name}
use falconfs.PathParse.Segments.{
  names_of, segments, directories, after_slash, drop, Terminated, char_at-drop, sub_path-drop,
  drop-add, zero-add, segments-last, segments-more, sub_path-segments, Terminated-after,
}

char_at-add :
    (start n : ℕ) (path cs : List ℕ)
    → drop start path ≡ cs
    → char_at path (start + n) ≡ char_at (drop n cs) 0
char_at-add start n path cs e =
    char_at-drop (start + n) path
    ∙ ap (λ (p : List ℕ). char_at p 0) (drop-add start n path ∙ ap (drop n) e)

drop-length : (cs : List ℕ) → drop (length cs) cs ≡ []
drop-length [] = refl
drop-length (c ∷ cs) = drop-length cs

add-add_one : (start len : ℕ) → start + (len + 1) ≡ start + len + 1
add-add_one start len = omega arith

pub drop-next : (n : ℕ) (path cs : List ℕ) (c : ℕ) → drop n path ≡ c ∷ cs → drop (n + 1) path ≡ cs
drop-next n path cs c e = drop-add n 1 path ∙ ap (drop 1) e

drop-after :
    (start len : ℕ) (path cs : List ℕ) (c : ℕ)
    → drop (start + len) path ≡ c ∷ cs
    → drop (start + (len + 1)) path ≡ cs
drop-after start len path cs c e =
    ap (λ (n : ℕ). drop n path) (add-add_one start len) ∙ drop-next (start + len) path cs c e

pub scan_name-segments :
    (fuel : ℕ) (path : List ℕ) (start len : ℕ) (cs : List ℕ)
    → drop (start + len) path ≡ cs
    → Terminated cs
    → length cs ≤ fuel
    → scan_name fuel path start len ≡ len + length (segments cs).0
unfolding scan_name segments
scan_name-segments zero path start len [] e t le = omega arith
scan_name-segments zero path start len (c ∷ cs) e t le = absurd (omega arith)
scan_name-segments (suc fuel) path start len [] e t le =
    ground (arith, char_at-drop (start + len) path, ap (λ (p : List ℕ). char_at p 0) e)
scan_name-segments (suc fuel) path start len (c ∷ cs) e (t, ts) le = ground (
  arith,
  char_at-drop (start + len) path,
  ap (λ (p : List ℕ). char_at p 0) e,
  scan_name-segments fuel path start (len + 1) cs (drop-after start len path cs c e) ts
      (omega arith),
)

pub add_zero : (n : ℕ) → n + 0 ≡ n
add_zero n = omega arith

pub positive : (n : ℕ) → 0 < n → n ≢ 0
positive n lt e = omega arith

pub sub_path-name :
    (path : List ℕ) (start : ℕ) (cs : List ℕ)
    → drop start path ≡ cs
    → sub_path path start (length (segments cs).0) ≡ (segments cs).0
sub_path-name path start cs e =
    sub_path-drop start (length (segments cs).0) path
    ∙ ap (λ (p : List ℕ). sub_path p 0 (length (segments cs).0)) e
    ∙ sub_path-segments cs

pub at_end :
    (path : List ℕ) (start : ℕ) (cs : List ℕ)
    → drop start path ≡ cs
    → after_slash cs ≡ none
    → char_at path (start + length (segments cs).0) ≡ 0
at_end path start cs e last =
    char_at-add start (length (segments cs).0) path cs e
    ∙ ap (λ (n : Name). char_at (drop (length n) cs) 0) (segments-last cs last).0
    ∙ ap (λ (p : List ℕ). char_at p 0) (drop-length cs)

pub at_slash :
    (path : List ℕ) (start : ℕ) (cs rest : List ℕ)
    → drop start path ≡ cs
    → after_slash cs ≡ some rest
    → drop (start + length (segments cs).0) path ≡ slash ∷ rest
at_slash path start cs rest e more =
    drop-add start (length (segments cs).0) path
    ∙ ap (drop (length (segments cs).0)) e
    ∙ (segments-more cs rest more).0

pub not_at_end :
    (path : List ℕ) (start : ℕ) (cs rest : List ℕ)
    → drop start path ≡ cs
    → after_slash cs ≡ some rest
    → char_at path (start + length (segments cs).0) ≢ 0
not_at_end path start cs rest e more q = omega (
  arith,
  q,
  char_at-drop (start + length (segments cs).0) path
      ∙ ap (λ (p : List ℕ). char_at p 0) (at_slash path start cs rest e more),
)

name_loop-stop :
    (fuel : ℕ) (path : List ℕ) (start len : ℕ)
    → char_at path (start + len) ≡ 0
    → name_loop (suc fuel) path start len ≡ some ([], sub_path path start len)
unfolding name_loop
name_loop-stop fuel path start len e = rw e refl

name_loop-go :
    (fuel : ℕ) (path : List ℕ) (start len : ℕ)
    → char_at path (start + len) ≢ 0
    → name_loop (suc fuel) path start len
      ≡ with_name (sub_path path start len) (
          name_loop fuel path
            (if start == 0 then 1 else start + len + 1)
            (scan_name (length path) path (if start == 0 then 1 else start + len + 1) 0))
unfolding name_loop
name_loop-go fuel path start len ne = rw (==_ne (char_at path (start + len)) 0 ne) refl

-- The loop from the start of a name on.
name_loop-directories :
    (fuel : ℕ) (path : List ℕ) (start : ℕ) (cs : List ℕ)
    → 0 < start
    → drop start path ≡ cs
    → Terminated cs
    → length cs < fuel
    → length cs ≤ length path
    → name_loop fuel path start (length (segments cs).0)
      ≡ some (directories (segments cs).0 (segments cs).1)
name_loop-directories zero path start cs pos e t lt le = absurd (omega arith)
name_loop-directories (suc fuel) path start cs pos e t lt le =
    elim (Option-cases (after_slash cs)) [
      | inl last ↦
          name_loop-stop fuel path start (length (segments cs).0) (at_end path start cs e last)
          ∙ ap (λ (n : Name). some ([], n)) (sub_path-name path start cs e)
          ∙ ap (λ (ns : List Name). some (directories (segments cs).0 ns))
              (sym (segments-last cs last).1)
      | inr (rest, more) ↦
          let after = start + length (segments cs).0 + 1 in
          let there =
            drop-next (start + length (segments cs).0) path rest slash
              (at_slash path start cs rest e more) in
          name_loop-go fuel path start (length (segments cs).0)
            (not_at_end path start cs rest e more)
          ∙ ap
              (λ (b : Bool). with_name (sub_path path start (length (segments cs).0)) (
                name_loop fuel path (if b then 1 else after)
                  (scan_name (length path) path (if b then 1 else after) 0)))
              (==_ne start 0 (positive start pos))
          ∙ ap₂ (λ (n : Name) (len : ℕ). with_name n (name_loop fuel path after len))
              (sub_path-name path start cs e)
              (scan_name-segments (length path) path after 0 rest
                  (ap (λ (n : ℕ). drop n path) (add_zero after) ∙ there)
                  (Terminated-after cs rest more t) (omega (arith, segments-more cs rest more))
                ∙ zero-add (length (segments rest).0))
          ∙ ap (with_name (segments cs).0) (
              name_loop-directories fuel path after rest (omega arith) there
                (Terminated-after cs rest more t) (omega (arith, segments-more cs rest more))
                (omega (arith, segments-more cs rest more)))
          ∙ ap (λ (ns : List Name). some (directories (segments cs).0 ns))
              (sym (segments-more cs rest more).1)
    ]

-- For a path that starts with a slash and has no zero byte, one round more than the path has bytes is
-- enough for the loop of PathParseTreeInsert: it ends with the root and the names between slashes, as
-- the directories, and with the name after the last slash.
pub name_loop-names_of :
    (cs : List ℕ)
    → Terminated cs
    → name_loop (suc (length (slash ∷ cs))) (slash ∷ cs) 0 1 ≡ some (names_of cs)
name_loop-names_of [] t = name_loop-stop 1 (slash ∷ []) 0 1 refl
name_loop-names_of (c ∷ cs) (t, ts) =
    let path = slash ∷ c ∷ cs in
    name_loop-go (length path) path 0 1 t
    ∙ ap (λ (len : ℕ). with_name (slash ∷ []) (name_loop (length path) path 1 len))
        (scan_name-segments (length path) path 1 0 (c ∷ cs) refl (t, ts) (omega arith)
          ∙ zero-add (length (segments (c ∷ cs)).0))
    ∙ ap (with_name (slash ∷ [])) (
        name_loop-directories (length path) path 1 (c ∷ cs) (omega arith) refl (t, ts) (omega arith)
          (omega arith))
