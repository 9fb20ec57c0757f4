-- ===== src/Bits.antt =====
-- A word digit by digit: what `|`, `&` and `~` do to each bit, at every width.
pub mod Step
use Step.{bit_or_step, bit_and_step, zero-bit_and, bit_and-zero, bit_or-zero}
use native.Mathlib.Nat.{
  pow-suc, one-le-pow, div-div-eq-div-mul, mod-eq-sub-div-mul, div-mul-le_self,
}
use avi_kernel.Base.{
  ℕ, zero, suc, ◌+◌, ◌-◌, ◌*◌, ◌/◌, ◌%◌, ◌^◌, ◌≤◌, ◌<◌, min, max, bit_and, bit_or, ◌≡◌, refl, ap,
  sym, ◌∙◌, arith, ◌==◌, if◌then◌else◌,
}

-- Bit `k` of `x`, 0 or 1.
abbrev pub bit_at : ℕ → ℕ → ℕ
bit_at x zero = x % 2
bit_at x (suc k) = bit_at (x / 2) k

pub bit_at-le : (x k : ℕ) → bit_at x k ≤ 1
bit_at-le x zero = omega arith
bit_at-le x (suc k) = bit_at-le (x / 2) k

pub bit_at-bit_or : (a b k : ℕ) → bit_at (bit_or a b) k ≡ max (bit_at a k) (bit_at b k)
bit_at-bit_or a b zero = omega (arith, bit_or_step a b)
bit_at-bit_or a b (suc k) =
    let e : bit_or a b / 2 ≡ bit_or (a / 2) (b / 2) = omega (arith, bit_or_step a b) in
    rw e (bit_at-bit_or (a / 2) (b / 2) k)

pub bit_at-bit_and : (a b k : ℕ) → bit_at (bit_and a b) k ≡ min (bit_at a k) (bit_at b k)
bit_at-bit_and a b zero = omega (arith, bit_and_step a b)
bit_at-bit_and a b (suc k) =
    let e : bit_and a b / 2 ≡ bit_and (a / 2) (b / 2) = omega (arith, bit_and_step a b) in
    rw e (bit_at-bit_and (a / 2) (b / 2) k)

pub bit_at-zero : (k : ℕ) → bit_at 0 k ≡ 0
bit_at-zero zero = refl
bit_at-zero (suc k) = bit_at-zero k

pub bit_at-pow : (n k : ℕ) → bit_at (2 ^ n) k ≡ (if n == k then 1 else 0)
bit_at-pow zero zero = refl
bit_at-pow zero (suc k) = ground (arith, bit_at-zero k)
bit_at-pow (suc n) zero = grind (arith, pow-suc 2 n)
bit_at-pow (suc n) (suc k) =
    let e : 2 ^ suc n / 2 ≡ 2 ^ n = omega (arith, pow-suc 2 n) in
    rw e (bit_at-pow n k ∙ ground arith)

-- `2 ^ w - 1 - m` has the other bits.
pub bit_at-complement : (w m k : ℕ) → m < 2 ^ w → k < w → bit_at (2 ^ w - 1 - m) k ≡ 1 - bit_at m k
bit_at-complement zero m k h lt = absurd (omega arith)
bit_at-complement (suc w) m zero h lt = omega (arith, pow-suc 2 w)
bit_at-complement (suc w) m (suc k) h lt =
    let e : (2 ^ suc w - 1 - m) / 2 ≡ 2 ^ w - 1 - m / 2 = omega (arith, pow-suc 2 w) in
    rw e (bit_at-complement w (m / 2) k (omega (arith, pow-suc 2 w)) (omega arith))

-- Two words of `w` bits with the same bits are one.
pub bit_at_ext :
    (w a b : ℕ) → a < 2 ^ w → b < 2 ^ w → ((k : ℕ) → k < w → bit_at a k ≡ bit_at b k) → a ≡ b
bit_at_ext zero a b ha hb h = omega arith
bit_at_ext (suc w) a b ha hb h =
    let halves : a / 2 ≡ b / 2 =
      bit_at_ext w (a / 2) (b / 2) (omega (arith, pow-suc 2 w)) (omega (arith, pow-suc 2 w))
        (λ k lt. h (suc k) (omega arith)) in
    let low : a % 2 ≡ b % 2 = h 0 (omega arith) in omega arith

pub bit_or-lt : (w a b : ℕ) → a < 2 ^ w → b < 2 ^ w → bit_or a b < 2 ^ w
bit_or-lt zero a b ha hb =
    let ea : a ≡ 0 = omega arith in let eb : b ≡ 0 = omega arith in rw (ea, eb) (omega arith)
bit_or-lt (suc w) a b ha hb = omega (
  arith,
  pow-suc 2 w,
  bit_or_step a b,
  bit_or-lt w (a / 2) (b / 2) (omega (arith, pow-suc 2 w)) (omega (arith, pow-suc 2 w)),
)

pub bit_and-lt : (w a b : ℕ) → a < 2 ^ w → bit_and a b < 2 ^ w
bit_and-lt zero a b ha = let ea : a ≡ 0 = omega arith in rw ea (omega (arith, zero-bit_and b))
bit_and-lt (suc w) a b ha = omega (
  arith,
  pow-suc 2 w,
  bit_and_step a b,
  bit_and-lt w (a / 2) (b / 2) (omega (arith, pow-suc 2 w)),
)

-- `&` with a single bit is that bit in its place.
pub bit_and-pow : (x k : ℕ) → bit_and x (2 ^ k) ≡ bit_at x k * 2 ^ k
bit_and-pow x zero = omega (arith, bit_and_step x 1, bit_and-zero (x / 2))
bit_and-pow x (suc k) =
    let half : 2 ^ suc k / 2 ≡ 2 ^ k = omega (arith, pow-suc 2 k) in
    let ih : bit_and (x / 2) (2 ^ suc k / 2) ≡ bit_at (x / 2) k * 2 ^ k =
      rw half (bit_and-pow (x / 2) k) in
    let twice : bit_at (x / 2) k * 2 ^ suc k ≡ 2 * (bit_at (x / 2) k * 2 ^ k) =
      omega (arith, ap (λ (t : ℕ). bit_at (x / 2) k * t) (pow-suc 2 k)) in
    omega (arith, bit_and_step x (2 ^ suc k), pow-suc 2 k)

double_pow : (w : ℕ) → 2 ^ suc w ≡ 2 * 2 ^ w
double_pow w = omega (arith, pow-suc 2 w)

mod_double : (a n : ℕ) → 0 < n → a % (2 * n) ≡ a / 2 % n * 2 + a % 2
mod_double a n h =
    let e : a % (2 * n) ≡ a - a / 2 / n * (2 * n) =
      mod-eq-sub-div-mul a (2 * n)
      ∙ ap (λ (t : ℕ). a - t * (2 * n)) (sym (div-div-eq-div-mul a 2 n)) in
    omega (arith, mod-eq-sub-div-mul (a / 2) n, div-mul-le_self (a / 2) n)

-- `&` with a mask of `w` ones is the remainder by `2 ^ w`.
pub bit_and_ones : (w a : ℕ) → bit_and a (2 ^ w - 1) ≡ a % 2 ^ w
bit_and_ones zero a = omega (arith, bit_and-zero a)
bit_and_ones (suc w) a =
    let half : (2 ^ suc w - 1) / 2 ≡ 2 ^ w - 1 = omega (arith, double_pow w) in
    let low : (2 ^ suc w - 1) % 2 ≡ 1 = omega (arith, double_pow w, one-le-pow w 2 (omega arith)) in
    let ih : bit_and (a / 2) ((2 ^ suc w - 1) / 2) ≡ a / 2 % 2 ^ w =
      rw half (bit_and_ones w (a / 2)) in
    let e : a % 2 ^ suc w ≡ a / 2 % 2 ^ w * 2 + a % 2 =
      rw (double_pow w) (mod_double a (2 ^ w) (one-le-pow w 2 (omega arith))) in
    omega (arith, bit_and_step a (2 ^ suc w - 1))

-- A shifted mask keeps nothing below it.
pub bit_and_shifted : (k a m : ℕ) → bit_and a (m * 2 ^ k) ≡ bit_and (a / 2 ^ k) m * 2 ^ k
bit_and_shifted zero a m =
    let em : m * 1 ≡ m = omega arith in
    let ea : a / 1 ≡ a = omega arith in rw (em, ea) (omega arith)
bit_and_shifted (suc k) a m =
    let e : m * 2 ^ suc k ≡ 2 * (m * 2 ^ k) = omega (arith, ap (λ (t : ℕ). m * t) (double_pow k)) in
    let half : 2 * (m * 2 ^ k) / 2 ≡ m * 2 ^ k = omega arith in
    let ih : bit_and (a / 2) (2 * (m * 2 ^ k) / 2) ≡ bit_and (a / 2 / 2 ^ k) m * 2 ^ k =
      rw half (bit_and_shifted k (a / 2) m) in
    let q : a / 2 / 2 ^ k ≡ a / 2 ^ suc k =
      div-div-eq-div-mul a 2 (2 ^ k) ∙ ap (λ (t : ℕ). a / t) (sym (double_pow k)) in
    let ih' : bit_and (a / 2) (2 * (m * 2 ^ k) / 2) ≡ bit_and (a / 2 ^ suc k) m * 2 ^ k =
      rw q at ih in
    rw e (
      omega (
        arith,
        bit_and_step a (2 * (m * 2 ^ k)),
        ap (λ (t : ℕ). bit_and (a / 2 ^ suc k) m * t) (double_pow k),
      ))

-- `(q << k) | r` is a sum when `r` fits in `k` bits.
pub bit_or_apart : (k q r : ℕ) → r < 2 ^ k → bit_or (q * 2 ^ k) r ≡ q * 2 ^ k + r
bit_or_apart zero q r h = let er : r ≡ 0 = omega arith in rw er (omega (arith, bit_or-zero (q * 1)))
bit_or_apart (suc k) q r h =
    let e : q * 2 ^ suc k ≡ 2 * (q * 2 ^ k) = omega (arith, ap (λ (t : ℕ). q * t) (double_pow k)) in
    let half : 2 * (q * 2 ^ k) / 2 ≡ q * 2 ^ k = omega arith in
    let ih : bit_or (2 * (q * 2 ^ k) / 2) (r / 2) ≡ q * 2 ^ k + r / 2 =
      rw half (bit_or_apart k q (r / 2) (omega (arith, double_pow k))) in
    rw e (omega (arith, bit_or_step (2 * (q * 2 ^ k)) r))

pub bit_or_comm : (a b : ℕ) → a < 2 ^ 32 → b < 2 ^ 32 → bit_or a b ≡ bit_or b a
bit_or_comm a b ha hb =
    bit_at_ext 32 (bit_or a b) (bit_or b a) (bit_or-lt 32 a b ha hb) (bit_or-lt 32 b a hb ha)
      (λ k h. rw (bit_at-bit_or a b k, bit_at-bit_or b a k) (omega arith))
