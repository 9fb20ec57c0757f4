-- ===== src/VgaText/Printing.antt =====
-- Printing keeps a screen a screen: the facts on its memory and its cursor.
use avi_kernel.Base.{
  ℕ, ◌+◌, ◌*◌, ◌%◌, ◌<◌, ◌≤◌, Bool, true, false, ◌==◌, ltb, if◌then◌else◌, Option, some, ◌≡◌, refl,
  ap, ◌∙◌, arith, Bool-cases, inl, inr,
}
use avi_kernel.VgaText.{VgaText, put_cell, put_at, next_char, next_line}
use avi_kernel.VgaText.Cells.{IsPlain, cell_memory, memory-next_char}
use avi_kernel.VgaText.Rows.{IsPlainFrom}
use avi_kernel.VgaText.Scrolling.{scrolled}

-- The cursor is in a column, and in a row or just below the last one; the characters are plain.
pub record IsScreen (v : VgaText) : Type 0 where
  pub in_columns : v.x < 80
  pub in_rows : v.y ≤ 25
  pub plain : IsPlainFrom 0 v.memory

-- The code succeeds, on a screen again, and the memory behind the screen stays.
abbrev pub Keeps : VgaText → Option VgaText → Type 0
Keeps v r =
    (w : VgaText) × (r ≡ some w) × IsScreen w × ((p : ℕ) → 4000 ≤ p → w.memory p ≡ v.memory p)

put_at-IsPlain :
    (o c : ℕ) (m : ℕ → ℕ) (p : ℕ)
    → o % 2 ≡ 0
    → IsPlain c
    → p % 2 ≡ 0
    → IsPlain (m p)
    → IsPlain (put_at o c m p)
put_at-IsPlain o c m p even is_plain even_p before =
    let behind : (p == o + 1) ≡ false = ground arith in
    elim (Bool-cases (p == o)) [ inl e ↦ rw (behind, e) is_plain | inr e ↦ rw (behind, e) before ]

put_at-beyond : (o c : ℕ) (m : ℕ → ℕ) (p : ℕ) → o + 1 < 4000 → 4000 ≤ p → put_at o c m p ≡ m p
put_at-beyond o c m p lt le = ground arith

pub scrolled-beyond : (m : ℕ → ℕ) (p : ℕ) → 4000 ≤ p → scrolled m p ≡ m p
scrolled-beyond m p le = ground arith

pub scrolled-IsPlainFrom : (m : ℕ → ℕ) → IsPlainFrom 0 m → IsPlainFrom 0 (scrolled m)
scrolled-IsPlainFrom m plain p le lt even =
    let inside : ltb p 4000 ≡ true = ground arith in
    let is_even : (p % 2 == 0) ≡ true = ground arith in
    elim (Bool-cases (ltb p 3840)) [
      | inl e ↦ rw (inside, is_even, e) (plain (p + 160) (omega arith) (ground arith) (omega arith))
      | inr e ↦ rw (inside, is_even, e) (refl, refl, refl)
    ]

next_char-bounds :
    (v : VgaText) → v.x < 80 → v.y < 25 → ((next_char v).x < 80) × ((next_char v).y ≤ 25)
unfolding next_char next_line
next_char-bounds v lx ly = ground arith

-- The state behind a character in the row of the cursor.
abbrev pub printed : ℕ → Bool → VgaText → VgaText
printed c next v = if next then next_char (put_cell c v) else put_cell c v

printed-memory :
    (c : ℕ) (next : Bool) (v : VgaText) → (printed c next v).memory ≡ (put_cell c v).memory
printed-memory c true v = memory-next_char (put_cell c v)
printed-memory c false v = refl

printed-bounds :
    (c : ℕ) (next : Bool) (v : VgaText)
    → v.x < 80
    → v.y < 25
    → ((printed c next v).x < 80) × ((printed c next v).y ≤ 25)
unfolding put_cell
printed-bounds c true v lx ly = next_char-bounds (put_cell c v) lx ly
printed-bounds c false v lx ly = (lx, omega arith)

pub printed-IsScreen :
    (c : ℕ) (next : Bool) (v : VgaText)
    → IsPlain c
    → IsScreen v
    → v.y < 25
    → IsScreen (printed c next v) × ((p : ℕ) → 4000 ≤ p → (printed c next v).memory p ≡ v.memory p)
printed-IsScreen c next v is_plain s ly =
    let o = v.y * 160 + v.x * 2 in
    let memory : (printed c next v).memory ≡ put_at o c v.memory =
      printed-memory c next v ∙ cell_memory c v v.x v.y refl refl (s.in_columns) (s.in_rows) in
    let bounds = printed-bounds c next v (s.in_columns) ly in
    (
      record {
        in_columns = bounds.0;
        in_rows = bounds.1;
        plain = λ p le lt even.
            rw memory
              (put_at-IsPlain o c v.memory p (omega arith) is_plain even (s.plain p le lt even));
      },
      λ p le. ap (λ f. f p) memory ∙ put_at-beyond o c v.memory p (omega (arith, s.in_columns)) le,
    )
