-- ===== src/VgaText.antt =====
-- src/drivers/screen/vga_text.cpp and text_output.cpp: the text screen.
--
-- `memory` are the bytes from the address of the video memory on, `ports` what was written to ports, the
-- latest first. Scrolling prints, and printing scrolls: the depth of calls of `scroll` within one another is
-- bounded, and none is a call beyond this depth. The message of `initialize` is left out.
use avi_kernel.Base.{
  ℕ, zero, suc, ◌+◌, ◌-◌, ◌*◌, Bool, true, false, List, [], ◌∷◌, ◌==◌, if◌then◌else◌, Option, none,
  some, u8, u16, ◌>>>◌,
}
pub mod Cells
pub mod Rows
pub mod Scrolling
pub mod Printing
pub mod Putchar
pub mod Showing

abbrev pub vga_char_attributes : ℕ
vga_char_attributes = 0x17

abbrev pub vga_rows : ℕ
vga_rows = 25

abbrev pub vga_columns : ℕ
vga_columns = 80

pub record VgaText : Type 0 where
  pub x : ℕ
  pub y : ℕ
  pub memory : ℕ → ℕ
  pub ports : List (ℕ × ℕ)

infixl 5 ◌>>=◌
abbrev pub ◌>>=◌ : {A B : Type 0} → Option A → (A → Option B) → Option B
none >>= next = none
some a >>= next = next a

unfoldable pub xy_to_memory_offset : VgaText → ℕ
xy_to_memory_offset v = u16 (v.x * 2 + v.y * 2 * vga_columns)

unfoldable pub write_data_register : ℕ → ℕ → VgaText → VgaText
write_data_register index what v = record v { ports = (0x3D5, what) ∷ (0x3D4, index) ∷ v.ports }

unfoldable pub move_cursor : VgaText → VgaText
unfolding write_data_register
move_cursor v =
    let offset = u16 (v.y * vga_columns + v.x) in
    write_data_register 15 (u8 offset) (write_data_register 14 (u8 (offset >>> 8)) v)

unfoldable pub initalize_cursor : VgaText → VgaText
unfolding write_data_register move_cursor
initalize_cursor v = move_cursor (write_data_register 10 0 v)

unfoldable pub next_line : VgaText → VgaText
next_line v = record v { x = 0; y = v.y + 1 }

unfoldable pub next_char : VgaText → VgaText
unfolding next_line
next_char v = let w = record v { x = v.x + 1 } in if v.x + 1 == vga_columns then next_line w else w

-- The two bytes of a cell of the memory.
abbrev pub put_at : ℕ → ℕ → (ℕ → ℕ) → ℕ → ℕ
put_at address c memory p =
    if p == address + 1 then vga_char_attributes else if p == address then c else memory p

unfoldable pub put_cell : ℕ → VgaText → VgaText
unfolding xy_to_memory_offset
put_cell c v = record v { memory = put_at (xy_to_memory_offset v) c v.memory }

module _ (scroll_again : VgaText → Option VgaText) where
  unfoldable pub put_regular_char_by : ℕ → Bool → VgaText → Option VgaText
  unfolding put_cell next_char
  put_regular_char_by c next v = (if v.y == vga_rows then scroll_again v else some v) >>= λ w.
      some (if next then next_char (put_cell c w) else put_cell c w)

  -- A regular character, as many times.
  unfoldable pub put_times : ℕ → ℕ → VgaText → Option VgaText
  unfolding put_regular_char_by
  put_times zero c v = some v
  put_times (suc rounds) c v = put_regular_char_by c true v >>= put_times rounds c

  unfoldable pub backspace_by : VgaText → Option VgaText
  unfolding put_regular_char_by
  backspace_by v = put_regular_char_by 32 false (
      if v.x == 0
      then if v.y == 0 then record v { x = 0 } else record v { x = vga_columns - 1; y = v.y - 1 }
      else record v { x = v.x - 1 })

  unfoldable pub new_line_by : VgaText → Option VgaText
  unfolding next_line
  new_line_by v = let w = next_line v in if w.y == vga_rows then scroll_again w else some w

  unfoldable pub putchar_by : ℕ → VgaText → Option VgaText
  unfolding new_line_by put_times backspace_by put_regular_char_by move_cursor
  putchar_by c v =
      (if c == 10
        then new_line_by v
        else if c == 9
        then put_times 4 32 v
        else if c == 8
        then backspace_by v
        else put_regular_char_by c true v)
      >>= λ w. some (move_cursor w)

  unfoldable pub copy_columns : ℕ → ℕ → ℕ → ℕ → VgaText → Option VgaText
  unfolding xy_to_memory_offset putchar_by
  copy_columns zero i from to v = some v
  copy_columns (suc rounds) i from to v =
      let c = v.memory (xy_to_memory_offset (record v { x = i; y = from })) in
      putchar_by c (record v { x = i; y = to }) >>= copy_columns rounds (i + 1) from to

  unfoldable pub copy_row : ℕ → ℕ → VgaText → Option VgaText
  unfolding copy_columns
  copy_row from to v =
      copy_columns vga_columns 0 from to v >>= λ w. some (record w { x = v.x; y = v.y })

  unfoldable pub copy_rows : ℕ → ℕ → VgaText → Option VgaText
  unfolding copy_row
  copy_rows zero row v = some v
  copy_rows (suc rounds) row v = copy_row row (row - 1) v >>= copy_rows rounds (row + 1)

  unfoldable pub scroll_by : VgaText → Option VgaText
  unfolding copy_rows put_times put_regular_char_by
  scroll_by v = copy_rows (vga_rows - 1) 1 v >>= λ w.
      put_times (vga_columns - 1) 32 (record w { x = 0; y = w.y - 1 }) >>= λ filled.
      put_regular_char_by 32 false filled >>= λ blank. some (record blank { x = 0 })

unfoldable pub scroll : ℕ → VgaText → Option VgaText
unfolding scroll_by
scroll zero v = none
scroll (suc depth) v = scroll_by (scroll depth) v

unfoldable pub put_regular_char : ℕ → ℕ → Bool → VgaText → Option VgaText
unfolding put_regular_char_by scroll
put_regular_char depth = put_regular_char_by (scroll depth)

unfoldable pub putchar : ℕ → ℕ → VgaText → Option VgaText
unfolding putchar_by scroll
putchar depth = putchar_by (scroll depth)

unfoldable pub clear : ℕ → VgaText → Option VgaText
unfolding put_times put_regular_char_by scroll
clear depth v = put_times (scroll depth) (vga_rows * vga_columns - 1) 32 v >>= λ w.
    put_regular_char_by (scroll depth) 32 false w >>= λ blank. some (record blank { x = 0; y = 0 })

unfoldable pub initialize : ℕ → VgaText → Option VgaText
unfolding clear initalize_cursor
initialize depth v = clear depth (record v { x = 0; y = 0 }) >>= λ w. some (initalize_cursor w)
