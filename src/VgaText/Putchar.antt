-- ===== src/VgaText/Putchar.antt =====
-- `VgaText::putchar`: what every character does to the screen.
use avi_kernel.Base.{
  ℕ, zero, suc, ◌+◌, ◌-◌, ◌<◌, ◌≤◌, Bool, true, false, ◌==◌, if◌then◌else◌, Option, some, ◌≡◌, refl,
  ap, ◌∙◌, fun_ext, arith, Bool-cases, inl, inr, ==_iff,
}
use avi_kernel.VgaText.{
  VgaText, ◌>>=◌, next_line, move_cursor, putchar_by, new_line_by, put_times, backspace_by,
  put_regular_char_by, scroll, putchar,
}
use avi_kernel.VgaText.Cells.{some_then, IsPlain}
use avi_kernel.VgaText.Rows.{IsPlainFrom}
use avi_kernel.VgaText.Scrolling.{scrolled, scroll_lem}
use avi_kernel.VgaText.Printing.{
  IsScreen, Keeps, scrolled-beyond, scrolled-IsPlainFrom, printed, printed-IsScreen,
}

blank-IsPlain : IsPlain 32
blank-IsPlain = (refl, refl, refl)

Keeps-then :
    (v : VgaText) {first : Option VgaText} (next : VgaText → Option VgaText)
    → Keeps v first
    → ((w : VgaText) → IsScreen w → Keeps w (next w))
    → Keeps v (first >>= next)
Keeps-then v next k rest =
    let r = rest (k.0) (k.2) in (r.0, some_then next (k.1) ∙ r.1, r.2, λ p le. r.3 p le ∙ k.3 p le)

Keeps-eq :
    (v : VgaText) {first second : Option VgaText} → first ≡ second → Keeps v second → Keeps v first
Keeps-eq v e k = (k.0, e ∙ k.1, k.2, k.3)

-- Scrolling from below the last row ends in the last row.
scroll-IsScreen :
    (depth : ℕ) (v : VgaText)
    → IsPlainFrom 0 v.memory
    → v.y ≡ 25
    → (w : VgaText) × (scroll (suc depth) v ≡ some w)
      × IsScreen w
      × ((p : ℕ) → 4000 ≤ p → w.memory p ≡ v.memory p)
      × (w.y ≡ 24)
unfolding scroll
scroll-IsScreen depth v plain full =
    let r = scroll_lem (scroll depth) v full (λ p le lt even. plain p (omega arith) lt even) in
    let memory : (r.0).memory ≡ scrolled v.memory = fun_ext (r.4) in
    (
      r.0,
      r.1,
      record {
        in_columns = omega (arith, r.2);
        in_rows = omega (arith, r.3);
        plain = λ p le lt even. rw memory (scrolled-IsPlainFrom v.memory plain p le lt even);
      },
      λ p le. r.4 p ∙ scrolled-beyond v.memory p le,
      r.3,
    )

full_test : (y : ℕ) → y ≡ 25 → (y == 25) ≡ true
full_test y e = ground arith

pub row_of : (y : ℕ) → (y == 25) ≡ false → y ≤ 25 → y < 25
row_of y e le = ground arith

move_cursor-IsScreen : (v : VgaText) → IsScreen v → IsScreen (move_cursor v)
unfolding move_cursor
move_cursor-IsScreen v s = record {
  in_columns = s.in_columns;
  in_rows = s.in_rows;
  plain = s.plain;
}

memory-move_cursor : (v : VgaText) → (move_cursor v).memory ≡ v.memory
unfolding move_cursor
memory-move_cursor v = refl

module _ (depth : ℕ) where
  abbrev scr : VgaText → Option VgaText
  scr = scroll (suc depth)

  put_regular_char-Keeps :
      (c : ℕ) (next : Bool) (v : VgaText)
      → IsPlain c
      → IsScreen v
      → Keeps v (put_regular_char_by scr c next v)
  unfolding put_regular_char_by
  put_regular_char-Keeps c next v plain s = elim (Bool-cases (v.y == 25)) [
    | inl full ↦
        let r = scroll-IsScreen depth v (s.plain) ((==_iff v.y 25).0 full) in
        let done = printed-IsScreen c next (r.0) plain (r.2) (omega (arith, r.4)) in
        (
          printed c next (r.0),
          ap (λ t. (if t then scr v else some v) >>= λ w. some (printed c next w)) full
              ∙ some_then _ (r.1),
          done.0,
          λ p le. done.1 p le ∙ r.3 p le,
        )
    | inr room ↦
        let done = printed-IsScreen c next v plain s (row_of v.y room (s.in_rows)) in
        (
          printed c next v,
          ap (λ t. (if t then scr v else some v) >>= λ w. some (printed c next w)) room,
          done.0,
          done.1,
        )
  ]

  put_times-Keeps : (rounds : ℕ) (v : VgaText) → IsScreen v → Keeps v (put_times scr rounds 32 v)
  unfolding put_times
  put_times-Keeps zero v s = (v, refl, s, λ p le. refl)
  put_times-Keeps (suc rounds) v s =
      Keeps-then v (put_times scr rounds 32) (put_regular_char-Keeps 32 true v blank-IsPlain s)
        (λ w s. put_times-Keeps rounds w s)

  -- Where the cursor of a backspace stands.
  abbrev stepped_back : VgaText → VgaText
  stepped_back v =
      if v.x == 0
      then if v.y == 0 then record v { x = 0 } else record v { x = 79; y = v.y - 1 }
      else record v { x = v.x - 1 }

  stepped_back-IsScreen : (v : VgaText) → IsScreen v → IsScreen (stepped_back v)
  stepped_back-IsScreen v s =
      let memory : (stepped_back v).memory ≡ v.memory = ground arith in
      record {
        in_columns = ground arith;
        in_rows = ground arith;
        plain = λ p le lt even. rw memory (s.plain p le lt even);
      }

  backspace-Keeps : (v : VgaText) → IsScreen v → Keeps v (backspace_by scr v)
  unfolding backspace_by
  backspace-Keeps v s =
      let memory : (stepped_back v).memory ≡ v.memory = ground arith in
      let k =
        put_regular_char-Keeps 32 false (stepped_back v) blank-IsPlain
          (stepped_back-IsScreen v s) in
      (k.0, k.1, k.2, λ p le. k.3 p le ∙ ap (λ f. f p) memory)

  new_line-Keeps : (v : VgaText) → IsScreen v → v.y < 25 → Keeps v (new_line_by scr v)
  unfolding new_line_by next_line
  new_line-Keeps v s lt =
      let w : VgaText = record v { x = 0; y = v.y + 1 } in
      let go : Bool → Option VgaText = λ t. if t then scr w else some w in
      elim (Bool-cases (v.y + 1 == 25)) [
        | inl full ↦
            let r = scroll-IsScreen depth w (s.plain) ((==_iff (v.y + 1) 25).0 full) in
            (r.0, ap go full ∙ r.1, r.2, r.3)
        | inr room ↦ (
          w,
          ap go room,
          record { in_columns = omega arith; in_rows = omega arith; plain = s.plain },
          λ p le. refl,
        )
      ]

-- On a screen, every character but a line feed just below the last row is printed, with one level of scrolling
-- at most: the cursor is on the screen again or just below its last row, the characters are again neither
-- line feeds nor tabs nor backspaces, and no byte behind the screen's 4000 is written.
pub putchar-IsScreen :
    (depth c : ℕ) (v : VgaText)
    → IsScreen v
    → (c ≡ 10 → v.y < 25)
    → (w : VgaText) × (putchar (suc depth) c v ≡ some w)
      × IsScreen w
      × ((p : ℕ) → 4000 ≤ p → w.memory p ≡ v.memory p)
unfolding putchar putchar_by
putchar-IsScreen depth c v s room =
    let moved : (w : VgaText) → IsScreen w → Keeps w (some (move_cursor w)) = λ w s. (
      move_cursor w,
      refl,
      move_cursor-IsScreen w s,
      λ p le. ap (λ f. f p) (memory-move_cursor w),
    ) in
    let code : Bool → Bool → Bool → Option VgaText = λ t t' t''.
      (if t
        then new_line_by (scroll (suc depth)) v
        else if t'
        then put_times (scroll (suc depth)) 4 32 v
        else if t''
        then backspace_by (scroll (suc depth)) v
        else put_regular_char_by (scroll (suc depth)) c true v)
      >>= λ w. some (move_cursor w) in
    elim (Bool-cases (c == 10)) [
      | inl e ↦
          Keeps-eq v (λ i. code (e i) (c == 9) (c == 8))
            (Keeps-then v _ (new_line-Keeps depth v s (room ((==_iff c 10).0 e))) moved)
      | inr e ↦ elim (Bool-cases (c == 9)) [
        | inl e' ↦
            Keeps-eq v (λ i. code (e i) (e' i) (c == 8))
              (Keeps-then v _ (put_times-Keeps depth 4 v s) moved)
        | inr e' ↦ elim (Bool-cases (c == 8)) [
          | inl e'' ↦
              Keeps-eq v (λ i. code (e i) (e' i) (e'' i))
                (Keeps-then v _ (backspace-Keeps depth v s) moved)
          | inr e'' ↦
              Keeps-eq v (λ i. code (e i) (e' i) (e'' i))
                (Keeps-then v _ (put_regular_char-Keeps depth c true v (e, e', e'') s) moved)
        ]
      ]
    ]
