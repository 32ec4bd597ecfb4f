-- ===== src/PathParse/Check.antt =====
-- CheckWhetherPathExistsInDirectoryTable of falcon/utils/path_parse.c.
use falconfs.Common.{
  ℕ, zero, suc, ◌+◌, ◌≤◌, ◌<◌, ◌≡◌, ◌≢◌, refl, sym, ap, ap₂, ◌∙◌, inl, inr, Bool, false, not, ◌&&◌,
  none, List, [], ◌∷◌, arith, ◌==◌, if◌then◌else◌, ==_ne, Bool-cases, Option-cases, nat_eq, list_eq,
  length, Result, ok, err,
}
use falconfs.PathParse.{Name, Env, dir_lock_none, not_exist}
use falconfs.PathParse.Insert.{slash, char_at, sub_path, scan_name}
use falconfs.PathParse.Segments.{
  segments, after_slash, drop, Terminated, char_at-drop, zero-add, segments-last, segments-more,
  Terminated-after,
}
use falconfs.PathParse.Names.{
  scan_name-segments, add_zero, positive, sub_path-name, at_end, at_slash, not_at_end, drop-next,
}

pub data CheckError : Type 0 where
  argument_error no_end : CheckError

-- The last name is left out if the path ends in a slash.
abbrev pub last_name : Name → List Name
last_name [] = []
last_name (c ∷ cs) = (c ∷ cs) ∷ []

abbrev pub trimmed : Name → List Name → List Name
trimmed name [] = last_name name
trimmed name (next ∷ names) = name ∷ trimmed next names

module _ {D : Type 0} (env : Env D) where
  -- The loop, in a directory and at a name of the path.
  unfoldable pub check_loop : ℕ → List ℕ → ℕ → ℕ → ℕ → D → Result CheckError ℕ × D
  check_loop zero path parent start len d = (err no_end, d)
  check_loop (suc fuel) path parent start len d =
      let (id, d') = env.search dir_lock_none parent (sub_path path start len) d in
      let start' = if start == 0 then 1 else start + len + 1 in
      let rest = check_loop fuel path id start' (scan_name (length path) path start' 0) d' in
      if char_at path start == 0
      then (ok parent, d)
      else if id == not_exist
      then (ok not_exist, d')
      else if not (start == 0) && char_at path (start + len) == 0
      then (ok id, d')
      else rest

  -- The function, with one round more than the path has bytes.
  unfoldable pub check_whether_path_exists : List ℕ → D → Result CheckError ℕ × D
  check_whether_path_exists path d =
      if char_at path 0 == 0
      then (err argument_error, d)
      else if not (char_at path 0 == slash)
      then (err argument_error, d)
      else check_loop (suc (length path)) path 0 0 1 d

  -- The directory that a list of names leads to.
  unfoldable pub follow : ℕ → List Name → D → ℕ × D
  follow parent [] d = (parent, d)
  follow parent (name ∷ names) d =
      let (id, d') = env.search dir_lock_none parent name d in
      let rest = follow id names d' in if id == not_exist then (not_exist, d') else rest

  abbrev pub found : ℕ × D → Result CheckError ℕ × D
  found (id, d) = (ok id, d)

  check_loop-end :
      (fuel : ℕ) (path : List ℕ) (parent start len : ℕ) (d : D)
      → char_at path start ≡ 0
      → check_loop (suc fuel) path parent start len d ≡ (ok parent, d)
  unfolding check_loop
  check_loop-end fuel path parent start len d e = rw e refl

  check_loop-last :
      (fuel : ℕ) (path : List ℕ) (parent start len : ℕ) (d : D)
      → char_at path start ≢ 0
      → start ≢ 0
      → char_at path (start + len) ≡ 0
      → check_loop (suc fuel) path parent start len d
        ≡ found (follow parent (sub_path path start len ∷ []) d)
  unfolding check_loop follow
  check_loop-last fuel path parent start len d here pos last =
      elim (Bool-cases
        ((env.search dir_lock_none parent (sub_path path start len) d).0 == not_exist)) [
          | inl h ↦ rw (==_ne (char_at path start) 0 here, h) refl
          | inr h ↦ rw (==_ne (char_at path start) 0 here, h, ==_ne start 0 pos, last) refl
        ]

  -- The names from one on are followed as soon as they are for the rest.
  check_loop-next :
      (fuel : ℕ) (path : List ℕ) (parent start len : ℕ) (d : D) (names : List Name)
      → char_at path start ≢ 0
      → (not (start == 0) && char_at path (start + len) == 0) ≡ false
      → ((id : ℕ) (d' : D)
          → check_loop fuel path id
              (if start == 0 then 1 else start + len + 1)
              (scan_name (length path) path (if start == 0 then 1 else start + len + 1) 0)
              d'
            ≡ found (follow id names d'))
      → check_loop (suc fuel) path parent start len d
        ≡ found (follow parent (sub_path path start len ∷ names) d)
  unfolding check_loop follow
  check_loop-next fuel path parent start len d names here more rest =
      elim (Bool-cases
        ((env.search dir_lock_none parent (sub_path path start len) d).0 == not_exist)) [
          | inl h ↦ rw (==_ne (char_at path start) 0 here, h) refl
          | inr h ↦ rw (==_ne (char_at path start) 0 here, h, more) (rest _ _)
        ]

  -- What the path leads to from the start of a name on.
  abbrev follow_path : ℕ → Name × List Name → D → Result CheckError ℕ × D
  follow_path parent (name, names) d = found (follow parent (trimmed name names) d)

  follow_path-nil : (parent : ℕ) (d : D) → (ok parent, d) ≡ follow_path parent (segments []) d
  unfolding segments follow
  follow_path-nil parent d = refl

  follow_path-last :
      (parent c : ℕ) (cs : List ℕ) (d : D)
      → after_slash (c ∷ cs) ≡ none
      → found (follow parent ((c ∷ cs) ∷ []) d) ≡ follow_path parent (segments (c ∷ cs)) d
  follow_path-last parent c cs d last = sym (
      ap₂ (λ (n : Name) (ns : List Name). found (follow parent (trimmed n ns) d))
        (segments-last (c ∷ cs) last).0 (segments-last (c ∷ cs) last).1)

  check_loop-follow :
      (fuel : ℕ) (path : List ℕ) (parent start : ℕ) (cs : List ℕ) (d : D)
      → 0 < start
      → drop start path ≡ cs
      → Terminated cs
      → length cs < fuel
      → length cs ≤ length path
      → check_loop fuel path parent start (length (segments cs).0) d
        ≡ follow_path parent (segments cs) d
  check_loop-follow zero path parent start cs d pos e t lt le = absurd (omega arith)
  check_loop-follow (suc fuel) path parent start [] d pos e t lt le =
      check_loop-end fuel path parent start (length (segments []).0) d
        (char_at-drop start path ∙ ap (λ (p : List ℕ). char_at p 0) e)
      ∙ follow_path-nil parent d
  check_loop-follow (suc fuel) path parent start (c ∷ cs) d pos e (t, ts) lt le =
      let here : char_at path start ≢ 0 =
        λ q. t (sym (char_at-drop start path ∙ ap (λ (p : List ℕ). char_at p 0) e) ∙ q) in
      let len = length (segments (c ∷ cs)).0 in
      elim (Option-cases (after_slash (c ∷ cs))) [
        | inl last ↦
            check_loop-last fuel path parent start len d here (positive start pos)
              (at_end path start (c ∷ cs) e last)
            ∙ ap (λ (n : Name). found (follow parent (n ∷ []) d))
                (sub_path-name path start (c ∷ cs) e ∙ (segments-last (c ∷ cs) last).0)
            ∙ follow_path-last parent c cs d last
        | inr (rest, more) ↦
            let after = start + len + 1 in
            let there =
              drop-next (start + len) path rest slash (at_slash path start (c ∷ cs) rest e more) in
            check_loop-next fuel path parent start len d
              (trimmed (segments rest).0 (segments rest).1) here
              (rw
                (
                  ==_ne start 0 (positive start pos),
                  ==_ne (char_at path (start + len)) 0 (not_at_end path start (c ∷ cs) rest e more),
                )
                refl)
              (λ id d'.
                ap
                  (λ (b : Bool).
                    check_loop fuel path id (if b then 1 else after)
                      (scan_name (length path) path (if b then 1 else after) 0) d')
                  (==_ne start 0 (positive start pos))
                ∙ ap (λ (k : ℕ). check_loop fuel path id after k d')
                    (scan_name-segments (length path) path after 0 rest
                        (ap (λ (n : ℕ). drop n path) (add_zero after) ∙ there)
                        (Terminated-after (c ∷ cs) rest more (t, ts))
                        (omega (arith, segments-more (c ∷ cs) rest more))
                      ∙ zero-add (length (segments rest).0))
                ∙ check_loop-follow fuel path id after rest d' (omega arith) there
                    (Terminated-after (c ∷ cs) rest more (t, ts))
                    (omega (arith, segments-more (c ∷ cs) rest more))
                    (omega (arith, segments-more (c ∷ cs) rest more)))
            ∙ ap
                (λ (n : Name).
                  found (follow parent (n ∷ trimmed (segments rest).0 (segments rest).1) d))
                (sub_path-name path start (c ∷ cs) e)
            ∙ ap (λ (ns : List Name). found (follow parent (trimmed (segments (c ∷ cs)).0 ns) d))
                (sym (segments-more (c ∷ cs) rest more).1)
      ]

  sub_path-nothing : (cs : List ℕ) → sub_path cs 0 0 ≡ []
  sub_path-nothing [] = refl
  sub_path-nothing (c ∷ cs) = refl

  -- For a path that starts with a slash and has no zero byte, CheckWhetherPathExistsInDirectoryTable
  -- ends and answers where the root and then the names between slashes lead, each searched in the
  -- directory of the one before and without a lock; an empty name after the last slash is not searched.
  pub check_whether_path_exists-follow :
      (cs : List ℕ) (d : D)
      → Terminated cs
      → check_whether_path_exists (slash ∷ cs) d
        ≡ found (follow 0 ((slash ∷ []) ∷ trimmed (segments cs).0 (segments cs).1) d)
  unfolding check_whether_path_exists
  check_whether_path_exists-follow cs d t =
      check_loop-next (length (slash ∷ cs)) (slash ∷ cs) 0 0 1 d
        (trimmed (segments cs).0 (segments cs).1) (positive slash (omega arith)) refl
        (λ id d'.
          ap (λ (k : ℕ). check_loop (length (slash ∷ cs)) (slash ∷ cs) id 1 k d')
            (scan_name-segments (length (slash ∷ cs)) (slash ∷ cs) 1 0 cs refl t (omega arith)
              ∙ zero-add (length (segments cs).0))
          ∙ check_loop-follow (length (slash ∷ cs)) (slash ∷ cs) id 1 cs d' (omega arith) refl t
              (omega arith) (omega arith))
      ∙ ap
          (λ (n : Name). found (follow 0 ((slash ∷ n) ∷ trimmed (segments cs).0 (segments cs).1) d))
          (sub_path-nothing cs)
