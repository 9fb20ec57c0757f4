-- ===== src/VgaText/Cells.antt =====
-- Printing single characters and runs of them on the text screen.
use avi_kernel.Base.{
  ℕ, zero, suc, ◌+◌, ◌*◌, ◌%◌, ◌<◌, ◌≤◌, Bool, true, false, ◌&&◌, ◌==◌, ltb, leb, if◌then◌else◌,
  Option, some, u16, ◌≡◌, refl, ap, ◌∙◌, arith,
}
use avi_kernel.VgaText.{
  VgaText, ◌>>=◌, put_cell, put_at, next_char, next_line, move_cursor, putchar_by, put_times,
  put_regular_char_by,
}

pub some_then :
    {A B : Type 0} {first : Option A} {a : A} (next : A → Option B)
    → first ≡ some a
    → (first >>= next) ≡ next a
some_then next e = ap (λ o. o >>= next) e

-- Neither a line feed nor a tab nor a backspace.
abbrev pub IsPlain : ℕ → Type 0
IsPlain c = ((c == 10) ≡ false) × ((c == 9) ≡ false) × ((c == 8) ≡ false)

pub offset_lem : (x y : ℕ) → x < 80 → y ≤ 25 → u16 (x * 2 + y * 2 * 80) ≡ y * 160 + x * 2
offset_lem x y lt le = omega arith

pub not_full : (y : ℕ) → y < 25 → (y == 25) ≡ false
not_full y lt = ground arith

pub put_regular_char_lem :
    (scr : VgaText → Option VgaText) (c : ℕ) (next : Bool) (v : VgaText)
    → v.y < 25
    → put_regular_char_by scr c next v
      ≡ some (if next then next_char (put_cell c v) else put_cell c v)
unfolding put_regular_char_by
put_regular_char_lem scr c next v lt =
    ap
      (λ t. (if t then scr v else some v) >>= λ w.
        some (if next then next_char (put_cell c w) else put_cell c w))
      (not_full v.y lt)

pub putchar_plain :
    (scr : VgaText → Option VgaText) (c : ℕ) (v : VgaText)
    → IsPlain c
    → v.y < 25
    → putchar_by scr c v ≡ some (move_cursor (next_char (put_cell c v)))
unfolding putchar_by
putchar_plain scr c v plain lt =
    rw (plain.0, plain.1, plain.2) (some_then _ (put_regular_char_lem scr c true v lt))

pub memory-next_char : (v : VgaText) → (next_char v).memory ≡ v.memory
unfolding next_char
memory-next_char v = ground arith

pub put_at-behind : (o c : ℕ) (m : ℕ → ℕ) (p : ℕ) → o + 1 < p → put_at o c m p ≡ m p
put_at-behind o c m p lt = ground arith

-- Printing over a cell changes its two bytes.
pub memory-put :
    (c : ℕ) (v : VgaText) (i y : ℕ)
    → i < 80
    → y ≤ 25
    → (move_cursor (next_char (put_cell c (record v { x = i; y = y })))).memory
      ≡ put_at (y * 160 + i * 2) c v.memory
unfolding move_cursor put_cell
memory-put c v i y lt le =
    memory-next_char (put_cell c (record v { x = i; y = y }))
    ∙ ap (λ o. put_at o c v.memory) (offset_lem i y lt le)

-- Cells of a row from one on, with a character in each.
abbrev pub filled : ℕ → ℕ → ℕ → ℕ → (ℕ → ℕ) → ℕ → ℕ
filled y i rounds c m p =
    if leb (y * 160 + i * 2) p && ltb p (y * 160 + (i + rounds) * 2)
    then if p % 2 == 0 then c else 0x17
    else m p

filled-suc :
    (y i rounds c : ℕ) (m : ℕ → ℕ) (p : ℕ)
    → filled y (i + 1) rounds c (put_at (y * 160 + i * 2) c m) p ≡ filled y i (suc rounds) c m p
filled-suc y i rounds c m p = ground arith

same_row : (x : ℕ) → x < 79 → (x + 1 == 80) ≡ false
same_row x lt = ground arith

pub next_char-same : (v : VgaText) → v.x < 79 → next_char v ≡ record v { x = v.x + 1 }
unfolding next_char
next_char-same v lt =
    ap (λ t. if t then next_line (record v { x = v.x + 1 }) else record v { x = v.x + 1 })
      (same_row v.x lt)

x_of_cell : (c : ℕ) (v : VgaText) (i : ℕ) → v.x ≡ i → i < 79 → (put_cell c v).x < 79
unfolding put_cell
x_of_cell c v i e lt = omega arith

y_of_cell : (c : ℕ) (v : VgaText) (y : ℕ) → v.y ≡ y → (put_cell c v).y ≡ y
unfolding put_cell
y_of_cell c v y e = e

pub cell_memory :
    (c : ℕ) (v : VgaText) (i y : ℕ)
    → v.x ≡ i
    → v.y ≡ y
    → i < 80
    → y ≤ 25
    → (put_cell c v).memory ≡ put_at (y * 160 + i * 2) c v.memory
unfolding put_cell
cell_memory c v i y ex ey lt le =
    ap (λ o. put_at o c v.memory) ((λ i. u16 (ex i * 2 + ey i * 2 * 80)) ∙ offset_lem i y lt le)

module _ (scr : VgaText → Option VgaText) (c y : ℕ) (above : y < 25) where
  pub put_times_lem :
      (rounds i : ℕ) (v : VgaText)
      → v.x ≡ i
      → v.y ≡ y
      → i + rounds < 80
      → (w : VgaText) × (put_times scr rounds c v ≡ some w)
        × (w.x ≡ i + rounds)
        × (w.y ≡ y)
        × ((p : ℕ) → w.memory p ≡ filled y i rounds c v.memory p)
  unfolding put_times
  put_times_lem zero i v ex ey lt = (v, refl, omega arith, ey, λ p. ground arith)
  put_times_lem (suc rounds) i v ex ey lt =
      let v' : VgaText = record (put_cell c v) { x = v.x + 1 } in
      let o = y * 160 + i * 2 in
      let changed : v'.memory ≡ put_at o c v.memory =
        cell_memory c v i y ex ey (omega arith) (omega arith) in
      let put : put_regular_char_by scr c true v ≡ some v' =
        put_regular_char_lem scr c true v (omega arith)
        ∙ ap some (next_char-same (put_cell c v) (x_of_cell c v i ex (omega arith))) in
      let later =
        put_times_lem rounds (i + 1) v' (omega arith) (y_of_cell c v y ey) (omega arith) in
      (
        later.0,
        some_then _ put ∙ later.1,
        omega (arith, later.2),
        later.3,
        λ p.
            later.4 p
            ∙ ap (λ f. filled y (i + 1) rounds c f p) changed
            ∙ filled-suc y i rounds c v.memory p,
      )
