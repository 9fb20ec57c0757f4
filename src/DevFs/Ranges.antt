-- ===== src/DevFs/Ranges.antt =====
-- Ranges of the bytes of a drive.
use avi_kernel.Base.{
  ℕ, zero, suc, ◌+◌, ◌*◌, ◌/◌, ◌%◌, ◌<◌, ◌≤◌, List, [], ◌∷◌, ◌++◌, ◌≡◌, refl, sym, ap, ◌∙◌, arith,
  ok, ◌>>=◌, drop, take, length,
}
use native.Mathlib.Nat.{div-add-mod, mod-lt, le-div_iff_mul-le, div-mul-le_self}
use mathlib.Core.List.{append-nil}
use avi_kernel.String.{copy_chars}
use avi_kernel.String.Laws.{take_all, drop_all}

-- The values at `n` positions from `start` on.
unfoldable pub range : (ℕ → ℕ) → ℕ → ℕ → List ℕ
range f start zero = []
range f start (suc n) = f start ∷ range f (start + 1) n

pub length-range : (f : ℕ → ℕ) (start n : ℕ) → length (range f start n) ≡ n
unfolding range
length-range f start zero = refl
length-range f start (suc n) = ap suc (length-range f (start + 1) n)

pub range-append :
    (f : ℕ → ℕ) (start m n k : ℕ)
    → k ≡ m + n
    → range f start m ++ range f (start + m) n ≡ range f start k
unfolding range
range-append f start zero n k e =
    let same : start + 0 ≡ start = omega arith in
    let same' : k ≡ n = omega arith in rw (same, same') refl
range-append f start (suc m) n zero e = absurd (omega arith)
range-append f start (suc m) n (suc k) e =
    let same : start + suc m ≡ start + 1 + m = omega arith in
    rw same (ap (λ xs. f start ∷ xs) (range-append f (start + 1) m n k (omega arith)))

-- A copy out of a range, from the position `skip` on.
pub copy_chars-range :
    (f : ℕ → ℕ) (start m skip count : ℕ) (buf : List ℕ)
    → skip + count ≤ m
    → count ≤ length buf
    → copy_chars count (drop skip (range f start m)) buf
      ≡ ok (range f (start + skip) count ++ drop count buf)
unfolding range copy_chars
copy_chars-range f start m zero zero buf le room = refl
copy_chars-range f start zero zero (suc count) buf le room = absurd (omega arith)
copy_chars-range f start (suc m) zero (suc count) [] le room = absurd (omega arith)
copy_chars-range f start (suc m) zero (suc count) (b ∷ buf) le room =
    let rest = copy_chars-range f (start + 1) m 0 count buf (omega arith) (omega arith) in
    let same : start + 1 + 0 ≡ start + 0 + 1 = omega arith in
    let same' : start + 0 ≡ start = omega arith in
    ap (λ r. r >>= λ written. ok (f start ∷ written)) rest ∙ λ j.
    ok (f (sym same' j) ∷ (range f (same j) count ++ drop count buf))
copy_chars-range f start zero (suc skip) count buf le room = absurd (omega arith)
copy_chars-range f start (suc m) (suc skip) count buf le room =
    let rest = copy_chars-range f (start + 1) m skip count buf (omega arith) room in
    let same : start + 1 + skip ≡ start + suc skip = omega arith in
    rest ∙ ap (λ s. ok (range f s count ++ drop count buf)) same

pub copy_chars-take-drop :
    (count : ℕ) (src dest : List ℕ)
    → count ≤ length src
    → count ≤ length dest
    → copy_chars count src dest ≡ ok (take count src ++ drop count dest)
unfolding copy_chars
copy_chars-take-drop zero src dest le room = refl
copy_chars-take-drop (suc count) [] dest le room = absurd (omega arith)
copy_chars-take-drop (suc count) (b ∷ src) [] le room = absurd (omega arith)
copy_chars-take-drop (suc count) (b ∷ src) (d ∷ dest) le room =
    ap (λ r. r >>= λ written. ok (b ∷ written))
      (copy_chars-take-drop count src dest (omega arith) (omega arith))

-- What is read into a buffer of its size is the buffer then.
pub copy_chars-whole :
    (src dest : List ℕ) → length dest ≡ length src → copy_chars (length src) src dest ≡ ok src
copy_chars-whole src dest e =
    copy_chars-take-drop (length src) src dest (omega arith) (omega arith)
    ∙ ap (λ xs. ok (xs ++ drop (length src) dest)) (take_all (length src) src (omega arith))
    ∙ ap (λ xs. ok (src ++ xs)) (drop_all (length src) dest (omega arith))
    ∙ ap ok (append-nil src)

-- The sectors from that of the first byte to that of the one behind the last cover the bytes.
pub sectors_cover :
    (size offset count n : ℕ)
    → 0 < size
    → n + offset / size ≡ (offset + count) / size + 1
    → offset % size + count ≤ n * size
sectors_cover size offset count n pos_size e =
    let first = div-add-mod offset size in
    let last = div-add-mod (offset + count) size in
    let below = mod-lt (offset + count) pos_size in
    let whole : (n + offset / size) * size ≡ ((offset + count) / size + 1) * size =
      ap (λ k. k * size) e in
    omega arith

pub sector_start : (size offset : ℕ) → offset / size * size + offset % size ≡ offset
sector_start size offset = omega (arith, div-add-mod offset size)

pub first_sector-le : (size offset count : ℕ) → 0 < size → offset / size ≤ (offset + count) / size
first_sector-le size offset count pos_size =
    (le-div_iff_mul-le pos_size).1 (omega (arith, div-mul-le_self offset size))
