-- ===== src/Inode/Effects.antt =====
-- What SearchAndUpdateInodeTableInfo of falcon/metadb/meta_handle_helper.c does to an inode table.
use falconfs.Common.{
  ℕ, ◌/◌, ◌^◌, ◌<◌, ◌≡◌, refl, sym, ap, ap₂, ◌∙◌, inl, inr, Bool, true, false, ◌&&◌, Option, none,
  some, List, arith, Bool-cases, Option-cases, nat_eq, list_eq, Result, ok, low_bits,
}
use falconfs.Common.{OkAll}
use falconfs.Common.Bits.{bit_or_fields}
use falconfs.Inode.{
  InodeRow, Request, Found, Error, is_row, find_row, delete_row, replace_row, deletes,
  mode_mismatch, needs_update, changed_mode, modified, read_row, change_row, change_found,
  search_and_update_inode_table_info, changed_nlink,
}
use falconfs.Inode.Rows.{
  Unique, Other, find_row-is_row, find_row-delete_row, find_row-delete-Other, find_row-replace_row,
  find_row-replace-Other,
}

module _ (q : Request) (key : ℕ) (name : List ℕ) where
  deletes-off : (r : InodeRow) → q.do_update ≡ false → deletes q r ≡ false
  unfolding deletes
  deletes-off r off = ground (arith, off)

  deletes-zero :
      (r : InodeRow)
      → q.do_update ≡ true
      → q.nlink ≡ true
      → changed_nlink q r ≡ 0
      → deletes q r ≡ true
  unfolding deletes
  deletes-zero r on n z = ground (arith, on, n, z)

  found_by :
      (rows : List InodeRow) (o : Option InodeRow)
      → find_row key name rows ≡ o
      → search_and_update_inode_table_info q key name rows ≡ change_found q key name o rows
  unfolding search_and_update_inode_table_info
  found_by rows o e = ap (λ (o : Option InodeRow). change_found q key name o rows) e

  modified-is_row :
      (r : InodeRow) → is_row key name r ≡ true → is_row key name (modified q r) ≡ true
  unfolding modified
  modified-is_row r h = h

  -- The rows under another key or name are found as before.
  abbrev pub KeepsOther : ℕ → List ℕ → List InodeRow → Option Found × List InodeRow → Type 0
  KeepsOther key' name' rows (found, rows') = find_row key' name' rows' ≡ find_row key' name' rows

  change_row-KeepsOther :
      (key' : ℕ) (name' : List ℕ) (r : InodeRow) (rows : List InodeRow)
      → Other key name key' name'
      → find_row key name rows ≡ some r
      → OkAll (KeepsOther key' name' rows) (change_row q key name r rows)
  unfolding change_row
  change_row-KeepsOther key' name' r rows o e =
      let gone = find_row-delete-Other key name key' name' rows o in
      let new = modified-is_row r (find_row-is_row key name rows r e) in
      let changed = find_row-replace-Other key name key' name' (modified q r) rows o new in
      elim (Bool-cases (deletes q r)) [
        | inl d ↦ elim (Bool-cases (mode_mismatch q r)) [
          | inl m ↦ rw (d, m) gone
          | inr m ↦ elim (Bool-cases (q.do_update && needs_update q r)) [
            | inl u ↦ rw (d, m, u) tt
            | inr u ↦ rw (d, m, u) gone
          ]
        ]
        | inr d ↦ elim (Bool-cases (mode_mismatch q r)) [
          | inl m ↦ rw (d, m) refl
          | inr m ↦ elim (Bool-cases (q.do_update && needs_update q r)) [
            | inl u ↦ rw (d, m, u) changed
            | inr u ↦ rw (d, m, u) refl
          ]
        ]
      ]

  -- Whatever the request, a call that ends without an error leaves every row under another key or
  -- another name as it was.
  pub search_and_update-KeepsOther :
      (key' : ℕ) (name' : List ℕ) (rows : List InodeRow)
      → Other key name key' name'
      → OkAll (KeepsOther key' name' rows) (search_and_update_inode_table_info q key name rows)
  search_and_update-KeepsOther key' name' rows o = elim (Option-cases (find_row key name rows)) [
    | inl e ↦ rw (found_by rows none e) refl
    | inr (r, e) ↦ rw (found_by rows (some r) e) (change_row-KeepsOther key' name' r rows o e)
  ]

  abbrev read_result : List InodeRow → Option InodeRow → Result Error (Option Found × List InodeRow)
  read_result rows o = ok (elim o [ none ↦ none | some r ↦ some (read_row q r) ], rows)

  change_row-read :
      (r : InodeRow) (rows : List InodeRow)
      → q.do_update ≡ false
      → change_row q key name r rows ≡ ok (some (read_row q r), rows)
  unfolding change_row
  change_row-read r rows off =
      let d = deletes-off r off in
      let u = ap (λ (b : Bool). b && needs_update q r) off in
      elim (Bool-cases (mode_mismatch q r)) [ inl m ↦ rw (d, m) refl | inr m ↦ rw (d, m, u) refl ]

  change_row-unlink :
      (r : InodeRow) (rows : List InodeRow)
      → q.do_update ≡ true
      → q.nlink ≡ true
      → changed_nlink q r ≡ 0
      → needs_update q r ≡ false
      → change_row q key name r rows ≡ ok (some (read_row q r), delete_row key name rows)
  unfolding change_row
  change_row-unlink r rows on n z only =
      let d = deletes-zero r on n z in
      let u = ap₂ ◌&&◌ on only in
      elim (Bool-cases (mode_mismatch q r)) [ inl m ↦ rw (d, m) refl | inr m ↦ rw (d, m, u) refl ]

  change_row-modified :
      (r : InodeRow) (rows : List InodeRow)
      → q.do_update ≡ true
      → deletes q r ≡ false
      → mode_mismatch q r ≡ false
      → needs_update q r ≡ true
      → change_row q key name r rows
        ≡ ok (some (read_row q r), replace_row key name (modified q r) rows)
  unfolding change_row
  change_row-modified r rows on d m u = let w = ap₂ ◌&&◌ on u in rw (d, m, w) refl

  -- A call without doUpdate changes nothing, and reads the row under the key and the name if there is
  -- one.
  pub search_and_update-read :
      (rows : List InodeRow)
      → q.do_update ≡ false
      → search_and_update_inode_table_info q key name rows
        ≡ ok (elim (find_row key name rows) [ none ↦ none | some r ↦ some (read_row q r) ], rows)
  search_and_update-read rows off = elim (Option-cases (find_row key name rows)) [
    | inl e ↦ found_by rows none e ∙ ap (read_result rows) (sym e)
    | inr (r, e) ↦
        found_by rows (some r) e ∙ change_row-read r rows off ∙ ap (read_result rows) (sym e)
  ]

  -- A call with doUpdate whose nlink change brings the link count of the row to 0, and that changes
  -- nothing else, deletes the row and answers what it held, whatever the file type of the row and
  -- the type that the caller asked for.
  pub search_and_update-unlink :
      (rows : List InodeRow) (r : InodeRow)
      → Unique rows
      → find_row key name rows ≡ some r
      → q.do_update ≡ true
      → q.nlink ≡ true
      → changed_nlink q r ≡ 0
      → needs_update q r ≡ false
      → (search_and_update_inode_table_info q key name rows
          ≡ ok (some (read_row q r), delete_row key name rows))
        × (find_row key name (delete_row key name rows) ≡ none)
  search_and_update-unlink rows r u e d n z only = (
    found_by rows (some r) e ∙ change_row-unlink r rows d n z only,
    find_row-delete_row key name rows u,
  )

  -- A call with doUpdate that changes the row, of the expected type and with links left, answers what
  -- the row held, and afterwards the key and the name lead to the changed row.
  pub search_and_update-modified :
      (rows : List InodeRow) (r : InodeRow)
      → find_row key name rows ≡ some r
      → q.do_update ≡ true
      → deletes q r ≡ false
      → mode_mismatch q r ≡ false
      → needs_update q r ≡ true
      → (search_and_update_inode_table_info q key name rows
          ≡ ok (some (read_row q r), replace_row key name (modified q r) rows))
        × (find_row key name (replace_row key name (modified q r) rows) ≡ some (modified q r))
  search_and_update-modified rows r e d k m u = (
    found_by rows (some r) e ∙ change_row-modified r rows d k m u,
    find_row-replace_row key name (modified q r) r rows
        (modified-is_row r (find_row-is_row key name rows r e)) e,
  )

-- New permission bits replace the lower nine bits of the mode and leave the others, with the file
-- type, alone.
pub changed_mode-permissions :
    (exec_mode mode : ℕ)
    → exec_mode < 2 ^ 9
    → (low_bits (changed_mode (some exec_mode) mode) 9 ≡ exec_mode)
      × (changed_mode (some exec_mode) mode / 2 ^ 9 ≡ mode / 2 ^ 9)
unfolding changed_mode
changed_mode-permissions exec_mode mode lt =
    rw (bit_or_fields 9 (mode / 2 ^ 9) exec_mode lt) (omega arith)
