-- ===== src/Bitmap/Laws.antt =====
-- What the operations of src/utils/bitmap.cpp do to each bit of the array.
use native.Mathlib.Nat.{pow-le-pow_right, one-le-pow}
use avi_kernel.Base.{
  ℕ, ◌-◌, ◌*◌, ◌/◌, ◌%◌, ◌^◌, ◌≤◌, ◌<◌, Bool, true, false, ◌&&◌, not, ◌≡◌, arith, bit_and, bit_or,
  ltb, ◌==◌, if◌then◌else◌, not32, ◌<<<◌, Bool-cases, inl, inr,
}
use avi_kernel.Bits.{
  bit_at, bit_at-le, bit_at-bit_or, bit_at-bit_and, bit_at-pow, bit_at-complement, bit_and-pow,
  bit_or-lt, bit_and-lt,
}
use avi_kernel.Bitmap.{Cells, set, clear, put, test}

-- Bit `i` of the array, 0 or 1.
abbrev pub bit : Cells → ℕ → ℕ
bit p i = bit_at (p (i / 32)) (i % 32)

abbrev pub HoldsWords : Cells → Type 0
HoldsWords p = (i : ℕ) → p i < 2 ^ 32

pow-le-word : (k : ℕ) → k < 32 → 2 ^ k ≤ 2 ^ 31
pow-le-word k h = pow-le-pow_right (omega arith) {j = 31} (omega arith)

one-shl : (k : ℕ) → (1 <<< k) ≡ 2 ^ k
one-shl k = omega arith

bit_at-or-mask : (c b k : ℕ) → bit_at (bit_or c (1 <<< b)) k ≡ (if b == k then 1 else bit_at c k)
bit_at-or-mask c b k = rw (one-shl, bit_at-bit_or, bit_at-pow) (ground (arith, bit_at-le c k))

bit_at-not-mask :
    (b k : ℕ) → b < 32 → k < 32 → bit_at (not32 (1 <<< b)) k ≡ (if b == k then 0 else 1)
bit_at-not-mask b k hb hk =
    let fits : 2 ^ b < 2 ^ 32 = omega (arith, pow-le-word b hb) in
    let e : not32 (1 <<< b) ≡ 2 ^ 32 - 1 - 2 ^ b = omega arith in
    rw (e, bit_at-complement 32 (2 ^ b) k fits hk, bit_at-pow) (ground arith)

bit_at-and-mask :
    (c b k : ℕ)
    → b < 32
    → k < 32
    → bit_at (bit_and c (not32 (1 <<< b))) k ≡ (if b == k then 0 else bit_at c k)
bit_at-and-mask c b k hb hk =
    rw (bit_at-bit_and, bit_at-not-mask b k hb hk) (ground (arith, bit_at-le c k))

-- Setting bit `i` makes it 1 and leaves every other bit of the array.
pub bit-set : (p : Cells) (i j : ℕ) → bit (set p i) j ≡ (if i == j then 1 else bit p j)
unfolding set
bit-set p i j = ground (arith, bit_at-or-mask (p (i / 32)) (i % 32) (j % 32))

-- Clearing bit `i` makes it 0 and leaves every other bit of the array.
pub bit-clear : (p : Cells) (i j : ℕ) → bit (clear p i) j ≡ (if i == j then 0 else bit p j)
unfolding clear
bit-clear p i j =
    ground (arith, bit_at-and-mask (p (i / 32)) (i % 32) (j % 32) (omega arith) (omega arith))

pub bit-put :
    (p : Cells) (i j : ℕ) (what : Bool)
    → bit (put p i what) j ≡ (if i == j then (if what then 1 else 0) else bit p j)
unfolding put
bit-put p i j true = bit-set p i j
bit-put p i j false = bit-clear p i j

-- `1 << k` as a positive `int`: all but the sign bit.
pow_positive : (k : ℕ) → k < 31 → (0 < 2 ^ k) × (2 ^ k < 2 ^ 31)
pow_positive k h = (
  one-le-pow k 2 (omega arith),
  omega (arith, pow-le-pow_right {n = 2} (omega arith) {i = k} {j = 30} (omega arith)),
)

is_positive :
    (b k : ℕ)
    → b ≤ 1
    → k < 32
    → (ltb 0 (b * 2 ^ k) && ltb (b * 2 ^ k) (2 ^ 31)) ≡ ((b == 1) && not (k == 31))
is_positive b k hb h = elim (Bool-cases (k == 31)) [
  | inl sign ↦ let e : k ≡ 31 = ground arith in rw e (ground arith)
  | inr plain ↦
      let range = pow_positive k (ground arith) in
      elim (Bool-cases (b == 1)) [
        | inl one ↦
            let e : b * 2 ^ k ≡ 2 ^ k = (let e' : b ≡ 1 = ground arith in rw e' (omega arith)) in
            rw e (ground arith)
        | inr none_set ↦
            let e : b * 2 ^ k ≡ 0 = (let e' : b ≡ 0 = ground arith in rw e' (omega arith)) in
            rw e (ground arith)
      ]
]

-- `test` reads the bit, except at the sign bit of a cell.
pub test-bit : (p : Cells) (i : ℕ) → test p i ≡ ((bit p i == 1) && not (i % 32 == 31))
unfolding test
test-bit p i =
    rw (one-shl, bit_and-pow)
      (is_positive (bit p i) (i % 32) (bit_at-le (p (i / 32)) (i % 32)) (omega arith))

-- A cell stays a 32-bit word.
pub HoldsWords-set : (p : Cells) (i : ℕ) → HoldsWords p → HoldsWords (set p i)
unfolding set
HoldsWords-set p i h j =
    let fits : (1 <<< (i % 32)) < 2 ^ 32 = omega (arith, pow-le-word (i % 32) (omega arith)) in
    ground (arith, h j, bit_or-lt 32 (p (i / 32)) (1 <<< (i % 32)) (h (i / 32)) fits)

pub HoldsWords-clear : (p : Cells) (i : ℕ) → HoldsWords p → HoldsWords (clear p i)
unfolding clear
HoldsWords-clear p i h j =
    ground (arith, h j, bit_and-lt 32 (p (i / 32)) (not32 (1 <<< (i % 32))) (h (i / 32)))

pub HoldsWords-put : (p : Cells) (i : ℕ) (what : Bool) → HoldsWords p → HoldsWords (put p i what)
unfolding put
HoldsWords-put p i true h = HoldsWords-set p i h
HoldsWords-put p i false h = HoldsWords-clear p i h

-- What `put` writes, `test` reads back, and every other index reads as before; but the last bit
-- of a cell always reads as clear, since `test` takes a cell's sign bit for a negative number.
pub test-put :
    (p : Cells) (i j : ℕ) (what : Bool)
    → test (put p i what) j ≡ (if j % 32 == 31 then false else if i == j then what else test p j)
test-put p i j what =
    rw (test-bit (put p i what) j, bit-put p i j what, test-bit p j) (ground arith)
