-- ===== src/VgaText/Rows.antt =====
-- Copying rows of the text screen upwards.
use avi_kernel.Base.{
  ℕ, zero, suc, ◌+◌, ◌-◌, ◌*◌, ◌%◌, ◌<◌, ◌≤◌, ◌&&◌, ◌==◌, ltb, leb, if◌then◌else◌, Option, some,
  u16, ◌≡◌, refl, ap, ◌∙◌, fun_ext, arith,
}
use avi_kernel.VgaText.{
  VgaText, ◌>>=◌, put_cell, put_at, next_char, move_cursor, putchar_by, copy_columns, copy_row,
  copy_rows,
}
use avi_kernel.VgaText.Cells.{
  some_then, IsPlain, offset_lem, putchar_plain, memory-put, put_at-behind,
}

-- A row from a column on, with the characters of the row below it.
abbrev copied : ℕ → ℕ → ℕ → (ℕ → ℕ) → ℕ → ℕ
copied i rounds to m p =
    if leb (to * 160 + i * 2) p && ltb p (to * 160 + (i + rounds) * 2)
    then if p % 2 == 0 then m (p + 160) else 0x17
    else m p

copied-suc :
    (i rounds to : ℕ) (m : ℕ → ℕ) (p : ℕ)
    → i + suc rounds ≡ 80
    → copied (i + 1) rounds to (put_at (to * 160 + i * 2) (m ((to + 1) * 160 + i * 2)) m) p
      ≡ copied i (suc rounds) to m p
copied-suc i rounds to m p e =
    let o = to * 160 + i * 2 in
    let same : p ≡ o → m (p + 160) ≡ m ((to + 1) * 160 + i * 2) = λ q. ap m (omega arith) in
    ground (arith, same)

module _ (scr : VgaText → Option VgaText) where
  copy_columns_lem :
      (rounds i to : ℕ) (v : VgaText)
      → i + rounds ≡ 80
      → to < 24
      → ((j : ℕ) → i ≤ j → j < 80 → IsPlain (v.memory ((to + 1) * 160 + j * 2)))
      → (w : VgaText) × (copy_columns scr rounds i (to + 1) to v ≡ some w)
        × ((p : ℕ) → w.memory p ≡ copied i rounds to v.memory p)
  unfolding copy_columns
  copy_columns_lem zero i to v e lt plain = (v, refl, λ p. ground arith)
  copy_columns_lem (suc rounds) i to v e lt plain =
      let m = v.memory in
      let from : u16 (i * 2 + (to + 1) * 2 * 80) ≡ (to + 1) * 160 + i * 2 =
        offset_lem i (to + 1) (omega arith) (omega arith) in
      let c = m (u16 (i * 2 + (to + 1) * 2 * 80)) in
      let v' = move_cursor (next_char (put_cell c (record v { x = i; y = to }))) in
      let o = to * 160 + i * 2 in
      let changed : v'.memory ≡ put_at o (m ((to + 1) * 160 + i * 2)) m =
        memory-put c v i to (omega arith) (omega arith) ∙ ap (λ f. put_at o (m f) m) from in
      let put : putchar_by scr c (record v { x = i; y = to }) ≡ some v' =
        putchar_plain scr c (record v { x = i; y = to })
          (rw from (plain i (omega arith) (omega arith))) (omega arith) in
      let later = copy_columns_lem rounds (i + 1) to v' (omega arith) lt (λ j le below. rw changed (
        rw (put_at-behind o (m ((to + 1) * 160 + i * 2)) m ((to + 1) * 160 + j * 2) (omega arith))
          (plain j (omega arith) below))) in
      (
        later.0,
        some_then _ put ∙ later.1,
        λ p.
            later.2 p
            ∙ ap (λ f. copied (i + 1) rounds to f p) changed
            ∙ copied-suc i rounds to m p e,
      )

-- Rows from one on, with the characters of the rows below them.
abbrev pub shifted : ℕ → ℕ → (ℕ → ℕ) → ℕ → ℕ
shifted to rounds m p =
    if leb (to * 160) p && ltb p ((to + rounds) * 160)
    then if p % 2 == 0 then m (p + 160) else 0x17
    else m p

shifted-suc :
    (to rounds : ℕ) (m : ℕ → ℕ) (p : ℕ)
    → shifted (to + 1) rounds (copied 0 80 to m) p ≡ shifted to (suc rounds) m p
shifted-suc to rounds m p = ground arith

copied-behind : (to : ℕ) (m : ℕ → ℕ) (p : ℕ) → (to + 1) * 160 ≤ p → copied 0 80 to m p ≡ m p
copied-behind to m p le = ground arith

-- The characters on the screen from a place on are plain.
abbrev pub IsPlainFrom : ℕ → (ℕ → ℕ) → Type 0
IsPlainFrom from m = (p : ℕ) → from ≤ p → p < 4000 → p % 2 ≡ 0 → IsPlain (m p)

module _ (scr : VgaText → Option VgaText) where
  pub copy_rows_lem :
      (rounds to : ℕ) (v : VgaText)
      → to + rounds ≡ 24
      → IsPlainFrom ((to + 1) * 160) v.memory
      → (w : VgaText) × (copy_rows scr rounds (to + 1) v ≡ some w)
        × (w.x ≡ v.x)
        × (w.y ≡ v.y)
        × ((p : ℕ) → w.memory p ≡ shifted to rounds v.memory p)
  unfolding copy_rows copy_row
  copy_rows_lem zero to v e plain = (v, refl, refl, refl, λ p. ground arith)
  copy_rows_lem (suc rounds) to v e plain =
      let above : to + 1 - 1 ≡ to = omega arith in
      let row =
        copy_columns_lem scr 80 0 to v (omega arith) (omega arith)
          (λ j le lt. plain ((to + 1) * 160 + j * 2) (omega arith) (omega arith) (omega arith)) in
      let v' : VgaText = record (row.0) { x = v.x; y = v.y } in
      let back : VgaText → Option VgaText = λ w. some (record w { x = v.x; y = v.y }) in
      let changed : v'.memory ≡ copied 0 80 to v.memory = fun_ext (row.2) in
      let later = copy_rows_lem rounds (to + 1) v' (omega arith) (λ p le lt even.
        rw changed
          (rw (copied-behind to v.memory p (omega arith)) (plain p (omega arith) lt even))) in
      (
        later.0,
        ap
              (λ k.
                (copy_columns scr 80 0 (to + 1) k v >>= back) >>= copy_rows scr rounds (to + 1 + 1))
              above
            ∙ ap (λ o. (o >>= back) >>= copy_rows scr rounds (to + 1 + 1)) (row.1)
            ∙ later.1,
        later.2,
        later.3,
        λ p.
            later.4 p
            ∙ ap (λ f. shifted (to + 1) rounds f p) changed
            ∙ shifted-suc to rounds v.memory p,
      )
