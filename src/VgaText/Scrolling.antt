-- ===== src/VgaText/Scrolling.antt =====
-- What `VgaText::scroll` makes of the screen.
use avi_kernel.Base.{
  ℕ, ◌+◌, ◌-◌, ◌*◌, ◌%◌, false, ◌==◌, ltb, if◌then◌else◌, Option, some, ◌≡◌, refl, ap, ◌∙◌, fun_ext,
  arith,
}
use avi_kernel.VgaText.{VgaText, ◌>>=◌, put_cell, put_at, put_times, put_regular_char_by, scroll_by}
use avi_kernel.VgaText.Cells.{some_then, put_regular_char_lem, put_times_lem, filled, cell_memory}
use avi_kernel.VgaText.Rows.{shifted, IsPlainFrom, copy_rows_lem}

-- The memory with the characters one row up and a blank last row, in the screen's colours.
abbrev pub scrolled : (ℕ → ℕ) → ℕ → ℕ
scrolled m p =
    if ltb p 4000
    then if p % 2 == 0 then (if ltb p 3840 then m (p + 160) else 32) else 0x17
    else m p

scrolled_lem :
    (m : ℕ → ℕ) (p : ℕ)
    → put_at (24 * 160 + 79 * 2) 32 (filled 24 0 79 32 (shifted 0 24 m)) p ≡ scrolled m p
scrolled_lem m p = ground arith

-- On a screen with plain characters, scrolling moves every row up, over the first, and leaves a blank last one.
-- It puts the cursor at the start of the last row, and calls itself never.
pub scroll_lem :
    (scr : VgaText → Option VgaText) (v : VgaText)
    → v.y ≡ 25
    → IsPlainFrom 160 v.memory
    → (w : VgaText) × (scroll_by scr v ≡ some w)
      × (w.x ≡ 0)
      × (w.y ≡ 24)
      × ((p : ℕ) → w.memory p ≡ scrolled v.memory p)
unfolding scroll_by put_cell
scroll_lem scr v full plain =
    let rows = copy_rows_lem scr 24 0 v (omega arith) plain in
    let last : VgaText = record (rows.0) { x = 0; y = (rows.0).y - 1 } in
    let fill =
      put_times_lem scr 32 24 (omega arith) 79 0 last refl (omega (arith, rows.3)) (omega arith) in
    let blank = fill.0 in
    let cell = cell_memory 32 blank 79 24 (fill.2) (fill.3) (omega arith) (omega arith) in
    (
      record (put_cell 32 blank) { x = 0 },
      ap
            (λ o. o >>= λ w. put_times scr 79 32 (record w { x = 0; y = w.y - 1 }) >>= λ filled.
              put_regular_char_by scr 32 false filled >>= λ blank. some (record blank { x = 0 }))
            (rows.1)
          ∙ some_then _ (fill.1)
          ∙ some_then _ (put_regular_char_lem scr 32 false blank (omega (arith, fill.3))),
      refl,
      fill.3,
      λ p.
          ap (λ f. f p) cell
          ∙ ap (λ f. put_at (24 * 160 + 79 * 2) 32 f p) (fun_ext (fill.4))
          ∙ ap (λ f. put_at (24 * 160 + 79 * 2) 32 (filled 24 0 79 32 f) p) (fun_ext (rows.4))
          ∙ scrolled_lem v.memory p,
    )
