-- ===== src/Tests/Screen.antt =====
-- The theorems on the text screen, at a screen of spaces with the cursor just below its last row.
use avi_kernel.Base.{ℕ, ◌+◌, ◌*◌, ◌≤◌, List, [], ◌==◌, if◌then◌else◌, some, ◌≡◌, refl, arith}
use avi_kernel.VgaText.{VgaText, put_at, putchar}
use avi_kernel.VgaText.Scrolling.{scrolled}
use avi_kernel.VgaText.Printing.{IsScreen}
use avi_kernel.VgaText.Putchar.{putchar-IsScreen}
use avi_kernel.VgaText.Showing.{row, column, shown, cursor_writes, putchar_lem, new_line_lem}

abbrev full_screen : VgaText
full_screen = record { x = 0; y = 25; memory = λ p. 32; ports = [] }

full_screen-IsScreen : IsScreen full_screen
full_screen-IsScreen = record {
  in_columns = omega arith;
  in_rows = omega arith;
  plain = λ p le lt even. (refl, refl, refl);
}

abbrev last_column : VgaText
last_column = record full_screen { x = 79; y = 24 }

last_column-IsScreen : IsScreen last_column
last_column-IsScreen = record {
  in_columns = omega arith;
  in_rows = omega arith;
  plain = λ p le lt even. (refl, refl, refl);
}

putchar-IsScreen_example :
    (w : VgaText) × (putchar 1 9 full_screen ≡ some w)
    × IsScreen w
    × ((p : ℕ) → 4000 ≤ p → w.memory p ≡ full_screen.memory p)
putchar-IsScreen_example =
    putchar-IsScreen 0 9 full_screen full_screen-IsScreen (λ e. absurd (omega arith))

putchar_example :
    (w : VgaText) × (putchar 1 65 full_screen ≡ some w)
    × ((p : ℕ)
        → w.memory p
          ≡ put_at (row full_screen * 160 + column full_screen * 2) 65 (shown full_screen) p)
    × (w.x ≡ (if column full_screen + 1 == 80 then 0 else column full_screen + 1))
    × (w.y ≡ (if column full_screen + 1 == 80 then row full_screen + 1 else row full_screen))
    × (scrolling : List (ℕ × ℕ)) × (w.ports
        ≡ cursor_writes w.x w.y (if full_screen.y == 25 then scrolling else []))
putchar_example = putchar_lem 0 65 full_screen full_screen-IsScreen (refl, refl, refl)

new_line_example :
    (w : VgaText) × (putchar 1 10 last_column ≡ some w)
    × (w.x ≡ 0)
    × (w.y ≡ (if last_column.y + 1 == 25 then 24 else last_column.y + 1))
    × ((p : ℕ)
        → w.memory p ≡ (
            if last_column.y + 1 == 25
            then scrolled last_column.memory p
            else last_column.memory p))
    × (scrolling : List (ℕ × ℕ)) × (w.ports
        ≡ cursor_writes w.x w.y (if last_column.y + 1 == 25 then scrolling else []))
new_line_example = new_line_lem 0 last_column last_column-IsScreen
