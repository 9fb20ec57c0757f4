-- ===== src/VgaText/Showing.antt =====
-- `VgaText::putchar`: the screen behind a regular character and behind a line feed.
use avi_kernel.Base.{
  ℕ, suc, ◌+◌, ◌*◌, ◌/◌, ◌%◌, ◌>>>◌, List, [], ◌∷◌, u8, u16, ◌<◌, Bool, true, ◌==◌, if◌then◌else◌,
  Option, some, ◌≡◌, refl, sym, ap, ◌∙◌, fun_ext, arith, Bool-cases, inl, inr, ==_iff,
}
use mathlib.Core.Path.{subst}
use avi_kernel.VgaText.{
  VgaText, ◌>>=◌, put_cell, put_at, next_char, next_line, move_cursor, write_data_register,
  putchar_by, new_line_by, put_regular_char_by, scroll, putchar,
}
use avi_kernel.VgaText.Cells.{IsPlain, cell_memory, memory-next_char}
use avi_kernel.VgaText.Rows.{IsPlainFrom}
use avi_kernel.VgaText.Scrolling.{scrolled, scroll_lem}
use avi_kernel.VgaText.Printing.{IsScreen}
use avi_kernel.VgaText.Putchar.{row_of}

-- Where the character goes, and the memory that it goes to.
abbrev pub row : VgaText → ℕ
row v = if v.y == 25 then 24 else v.y

abbrev pub column : VgaText → ℕ
column v = if v.y == 25 then 0 else v.x

abbrev pub shown : VgaText → ℕ → ℕ
shown v = if v.y == 25 then scrolled v.memory else v.memory

-- The ports behind `move_cursor`: the register of the cursor's high byte, 14, and that of its low byte, 15,
-- are written through the index port and the data port, the high byte first; the latest write is in front.
abbrev pub cursor_writes : ℕ → ℕ → List (ℕ × ℕ) → List (ℕ × ℕ)
cursor_writes x y before =
    (0x3D5, (y * 80 + x) % 256) ∷ (0x3D4, 15) ∷ (0x3D5, (y * 80 + x) / 256) ∷ (0x3D4, 14) ∷ before

-- Where the offset has 16 bits, `move_cursor` writes the cursor's place.
move_cursor_lem :
    (v : VgaText) → v.y * 80 + v.x < 65536 → (move_cursor v).ports ≡ cursor_writes v.x v.y v.ports
unfolding move_cursor write_data_register
move_cursor_lem v lt =
    let low : u8 (u16 (v.y * 80 + v.x)) ≡ (v.y * 80 + v.x) % 256 = omega arith in
    let high : u8 (u16 (v.y * 80 + v.x) >>> 8) ≡ (v.y * 80 + v.x) / 256 = omega arith in
    λ i. (0x3D5, low i) ∷ (0x3D4, 15) ∷ (0x3D5, high i) ∷ (0x3D4, 14) ∷ v.ports

next_char_lem :
    (v : VgaText)
    → ((next_char v).x ≡ (if v.x + 1 == 80 then 0 else v.x + 1))
      × ((next_char v).y ≡ (if v.x + 1 == 80 then v.y + 1 else v.y))
      × ((next_char v).ports ≡ v.ports)
      × ((next_char v).y * 80 + (next_char v).x ≡ v.y * 80 + v.x + 1)
unfolding next_char next_line
next_char_lem v = ground arith

-- Where the cursor is in a row, a character goes there.
print_here :
    (c x y : ℕ) (v : VgaText)
    → v.x ≡ x
    → v.y ≡ y
    → x < 80
    → y < 25
    → let w = move_cursor (next_char (put_cell c v)) in
      ((p : ℕ) → w.memory p ≡ put_at (y * 160 + x * 2) c v.memory p)
      × (w.x ≡ (if x + 1 == 80 then 0 else x + 1))
      × (w.y ≡ (if x + 1 == 80 then y + 1 else y))
      × (w.ports ≡ cursor_writes w.x w.y v.ports)
unfolding move_cursor put_cell
print_here c x y v ex ey lx ly =
    let next = next_char_lem (put_cell c v) in
    (
      λ p.
          ap (λ f. f p)
            (memory-next_char (put_cell c v) ∙ cell_memory c v x y ex ey lx (omega arith)),
      next.0 ∙ ap (λ k. if k + 1 == 80 then 0 else k + 1) ex,
      next.1 ∙ λ i. if ex i + 1 == 80 then ey i + 1 else ey i,
      move_cursor_lem (next_char (put_cell c v)) (omega (arith, next.3))
          ∙ ap (cursor_writes (next_char (put_cell c v)).x (next_char (put_cell c v)).y) (next.2),
    )

scrolls :
    (depth : ℕ) (v : VgaText)
    → IsPlainFrom 0 v.memory
    → v.y ≡ 25
    → (w : VgaText) × (scroll (suc depth) v ≡ some w)
      × (w.x ≡ 0)
      × (w.y ≡ 24)
      × ((p : ℕ) → w.memory p ≡ scrolled v.memory p)
unfolding scroll
scrolls depth v plain full =
    scroll_lem (scroll depth) v full (λ p le lt even. plain p (omega arith) lt even)

putchar_by_lem : (depth c : ℕ) (v : VgaText) → putchar depth c v ≡ putchar_by (scroll depth) c v
unfolding putchar
putchar_by_lem depth c v = refl

putchar_by-plain :
    (scr : VgaText → Option VgaText) (c : ℕ) (v : VgaText)
    → IsPlain c
    → putchar_by scr c v ≡ (put_regular_char_by scr c true v >>= λ w. some (move_cursor w))
unfolding putchar_by
putchar_by-plain scr c v plain = rw (plain.0, plain.1, plain.2) refl

putchar_by-line_feed :
    (scr : VgaText → Option VgaText) (v : VgaText)
    → putchar_by scr 10 v ≡ (new_line_by scr v >>= λ w. some (move_cursor w))
unfolding putchar_by
putchar_by-line_feed scr v = refl

-- The effect of a character that is no line feed, tab or backspace: where the cursor is just below the
-- last row, the screen scrolls first; the character and the screen's colours go to the cell of the cursor, no
-- other byte changes, and the cursor goes on by a column, or to the next row behind the last column. The
-- last writes to ports give the cursor's new place to the screen; where nothing scrolls there are no others.
pub putchar_lem :
    (depth c : ℕ) (v : VgaText)
    → IsScreen v
    → IsPlain c
    → (w : VgaText) × (putchar (suc depth) c v ≡ some w)
      × ((p : ℕ) → w.memory p ≡ put_at (row v * 160 + column v * 2) c (shown v) p)
      × (w.x ≡ (if column v + 1 == 80 then 0 else column v + 1))
      × (w.y ≡ (if column v + 1 == 80 then row v + 1 else row v))
      × (scrolling : List (ℕ × ℕ)) × (w.ports
          ≡ cursor_writes w.x w.y (if v.y == 25 then scrolling else v.ports))
unfolding put_regular_char_by
putchar_lem depth c v s plain =
    let scr : VgaText → Option VgaText = scroll (suc depth) in
    let after : Bool → Option VgaText = λ t.
      ((if t then scr v else some v) >>= λ w. some (next_char (put_cell c w))) >>= λ w.
      some (move_cursor w) in
    let Shows : Bool → Type 0 = λ t.
      (w : VgaText) × (putchar (suc depth) c v ≡ some w)
      × ((p : ℕ)
          → w.memory p
            ≡ put_at ((if t then 24 else v.y) * 160 + (if t then 0 else v.x) * 2) c
                (if t then scrolled v.memory else v.memory) p)
      × (w.x ≡ (if (if t then 0 else v.x) + 1 == 80 then 0 else (if t then 0 else v.x) + 1))
      × (w.y ≡ (
          if (if t then 0 else v.x) + 1 == 80
          then (if t then 24 else v.y) + 1
          else (if t then 24 else v.y)))
      × (scrolling : List (ℕ × ℕ)) × (w.ports
          ≡ cursor_writes w.x w.y (if t then scrolling else v.ports)) in
    elim (Bool-cases (v.y == 25)) [
      | inl full ↦
          let r = scrolls depth v (s.plain) ((==_iff v.y 25).0 full) in
          let u = r.0 in
          let here = print_here c 0 24 u (r.2) (r.3) (omega arith) (omega arith) in
          subst Shows (sym full) (
            move_cursor (next_char (put_cell c u)),
            putchar_by_lem (suc depth) c v
                ∙ putchar_by-plain scr c v plain
                ∙ ap after full
                ∙ ap
                    (λ o.
                      (o >>= λ w. some (next_char (put_cell c w))) >>= λ w. some (move_cursor w))
                    (r.1),
            (λ p. here.0 p ∙ ap (λ f. put_at (24 * 160) c f p) (fun_ext (r.4))),
            here.1,
            here.2,
            u.ports,
            here.3,
          )
      | inr room ↦
          let here =
            print_here c v.x v.y v refl refl (s.in_columns) (row_of v.y room (s.in_rows)) in
          subst Shows (sym room) (
            move_cursor (next_char (put_cell c v)),
            putchar_by_lem (suc depth) c v ∙ putchar_by-plain scr c v plain ∙ ap after room,
            here.0,
            here.1,
            here.2,
            [],
            here.3,
          )
    ]

-- The effect of a line feed: the cursor goes to the start of the next row, and where this is the one just
-- below the last row, the screen scrolls and the cursor stays in the last row. Where the cursor was just
-- below the last row already, nothing scrolls, and the cursor leaves the screen, to row 26. The last writes to
-- ports give the cursor's new place to the screen; where nothing scrolls there are no others.
pub new_line_lem :
    (depth : ℕ) (v : VgaText)
    → IsScreen v
    → (w : VgaText) × (putchar (suc depth) 10 v ≡ some w)
      × (w.x ≡ 0)
      × (w.y ≡ (if v.y + 1 == 25 then 24 else v.y + 1))
      × ((p : ℕ) → w.memory p ≡ (if v.y + 1 == 25 then scrolled v.memory p else v.memory p))
      × (scrolling : List (ℕ × ℕ)) × (w.ports
          ≡ cursor_writes w.x w.y (if v.y + 1 == 25 then scrolling else v.ports))
unfolding new_line_by next_line move_cursor
new_line_lem depth v s =
    let scr : VgaText → Option VgaText = scroll (suc depth) in
    let w : VgaText = record v { x = 0; y = v.y + 1 } in
    let after : Bool → Option VgaText =
      λ t. (if t then scr w else some w) >>= λ w. some (move_cursor w) in
    let Shows : Bool → Type 0 = λ t.
      (w : VgaText) × (putchar (suc depth) 10 v ≡ some w)
      × (w.x ≡ 0)
      × (w.y ≡ (if t then 24 else v.y + 1))
      × ((p : ℕ) → w.memory p ≡ (if t then scrolled v.memory p else v.memory p))
      × (scrolling : List (ℕ × ℕ)) × (w.ports
          ≡ cursor_writes w.x w.y (if t then scrolling else v.ports)) in
    elim (Bool-cases (v.y + 1 == 25)) [
      | inl full ↦
          let r = scrolls depth w (s.plain) ((==_iff (v.y + 1) 25).0 full) in
          subst Shows (sym full) (
            move_cursor (r.0),
            putchar_by_lem (suc depth) 10 v
                ∙ putchar_by-line_feed scr v
                ∙ ap after full
                ∙ ap (λ o. o >>= λ w. some (move_cursor w)) (r.1),
            r.2,
            r.3,
            r.4,
            (r.0).ports,
            move_cursor_lem (r.0) (omega (arith, r.2, r.3)),
          )
      | inr room ↦ subst Shows (sym room) (
        move_cursor w,
        putchar_by_lem (suc depth) 10 v ∙ putchar_by-line_feed scr v ∙ ap after room,
        refl,
        refl,
        λ p. refl,
        [],
        move_cursor_lem w (omega (arith, s.in_rows)),
      )
    ]
