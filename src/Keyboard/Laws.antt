-- ===== src/Keyboard/Laws.antt =====
-- The decoder of the PS/2 keyboard.
use avi_kernel.Base.{
  ℕ, ◌+◌, ◌≤◌, ◌<◌, Bool, true, false, ◌&&◌, Option, none, some, List, [], ◌∷◌, ◌++◌, ◌≡◌, ◌≢◌,
  refl, sym, ◌∙◌, ap, leb, ◌==◌, if◌then◌else◌, get_elem?, length, bit_and, arith, Bool-cases, inl,
  inr, ◌⊎◌, zero, suc,
}
use mathlib.Core.Path.{subst}
use mathlib.Core.List.{append-nil}
use avi_kernel.Bits.{bit_and_ones}
use avi_kernel.Keyboard.Codes.{AviCharcode}
use avi_kernel.Keyboard.ScanCodes.{
  one_scan_code_to_avi_charcode_arr, two_scan_codes_to_avi_charcode_arr,
}
use avi_kernel.Keyboard.{
  char_of_one, char_of_two, Ps2Driver, Call, press, release, Reaction, call_if, ignore, react,
  on_make_scan_code, on_break_scan_code, on_scan_code, on_ke_data,
}

get_elem?-lt {ℓ} :
    {A : Type ℓ} (xs : List A) (i : ℕ) → i < length xs → (a : A) × (get_elem? xs i ≡ some a)
get_elem?-lt [] i lt = elim lt [ ]
get_elem?-lt (x ∷ xs) zero lt = (x, refl)
get_elem?-lt (x ∷ xs) (suc i) lt = get_elem?-lt xs i (omega arith)

length_one : length one_scan_code_to_avi_charcode_arr ≡ 89
unfolding one_scan_code_to_avi_charcode_arr
length_one = refl

length_two : length two_scan_codes_to_avi_charcode_arr ≡ 94
unfolding two_scan_codes_to_avi_charcode_arr
length_two = refl

pub char_of_one_lem : (k : ℕ) → k < 89 → (c : AviCharcode) × (char_of_one k ≡ some c)
unfolding char_of_one
char_of_one_lem k lt = get_elem?-lt one_scan_code_to_avi_charcode_arr k (omega (arith, length_one))

pub char_of_two_lem : (s k : ℕ) → k < 94 → (c : AviCharcode) × (char_of_two s k ≡ some c)
unfolding char_of_two
char_of_two_lem s k lt =
    get_elem?-lt two_scan_codes_to_avi_charcode_arr k (omega (arith, length_two))

-- A break code without its upper bit.
pub break_code : (b : ℕ) → 0x81 ≤ b → b ≤ 0xD8 → bit_and b 0x7F + 0x80 ≡ b
break_code b lo hi = omega (arith, bit_and_ones 7 b)

abbrev pub IsDefined : Reaction → Type 0
IsDefined r = (out : Ps2Driver × List Call) × (r ≡ some out)

react-IsDefined :
    (o : Option AviCharcode) (d : Ps2Driver) (there : Bool) (call : AviCharcode → Call)
    → ((c : AviCharcode) × (o ≡ some c))
    → IsDefined (react o d there call)
unfolding react
react-IsDefined o d there call (c, e) = rw e ((d, call_if there (call c)), refl)

if-IsDefined :
    (b : Bool) (r s : Reaction) → IsDefined r → IsDefined s → IsDefined (if b then r else s)
if-IsDefined true r s g h = g
if-IsDefined false r s g h = h

on_make-IsDefined : (k : ℕ) (d : Ps2Driver) → k < 89 → IsDefined (on_make_scan_code k d)
unfolding on_make_scan_code
on_make-IsDefined k d lt =
    let d' : Ps2Driver = record d { wait_for_second = false } in
    let there = d.has_press_listener in
    if-IsDefined d.wait_for_second (react (char_of_two 0xE0 k) d' there press)
      (react (char_of_one k) d there press)
      (react-IsDefined (char_of_two 0xE0 k) d' there press (char_of_two_lem 0xE0 k (omega arith)))
      (react-IsDefined (char_of_one k) d there press (char_of_one_lem k lt))

on_break-IsDefined : (k : ℕ) (d : Ps2Driver) → k < 89 → IsDefined (on_break_scan_code k d)
unfolding on_break_scan_code
on_break-IsDefined k d lt =
    let d' : Ps2Driver = record d { wait_for_second = false } in
    let there = d.has_release_listener in
    if-IsDefined d.wait_for_second (react (char_of_two 0xE0 k) d' there release)
      (react (char_of_one k) d there release)
      (react-IsDefined (char_of_two 0xE0 k) d' there release (char_of_two_lem 0xE0 k (omega arith)))
      (react-IsDefined (char_of_one k) d there release (char_of_one_lem k lt))

module _ (b : ℕ) (d : Ps2Driver) where
  -- The three branches of the test for scan codes.
  pub make_case : 1 ≤ b → b ≤ 0x58 → on_scan_code b d ≡ on_make_scan_code b d
  unfolding on_scan_code
  make_case lo hi = ground arith

  pub break_case : 0x81 ≤ b → b ≤ 0xD8 → on_scan_code b d ≡ on_break_scan_code (bit_and b 0x7F) d
  unfolding on_scan_code
  break_case lo hi = ground (arith, break_code b)

  pub other_case :
      (b < 1) ⊎ (0x58 < b × b < 0x81) ⊎ (0xD8 < b) → b ≢ 0xE0 → on_scan_code b d ≡ some (d, [])
  unfolding on_scan_code
  other_case (inl lt) ne = ground arith
  other_case (inr (inl lt)) ne = ground arith
  other_case (inr (inr lt)) ne = ground arith

module _ (b : ℕ) (d : Ps2Driver) where
  on_scan_code-IsDefined : b ≢ 0xE0 → IsDefined (on_scan_code b d)
  on_scan_code-IsDefined ne = elim (Bool-cases (leb 1 b && leb b 0x58)) [
    | inl e ↦
        let lo : 1 ≤ b = ground arith in
        let hi : b ≤ 0x58 = ground arith in
        subst IsDefined (sym (make_case b d lo hi)) (on_make-IsDefined b d (omega arith))
    | inr e ↦ elim (Bool-cases (leb 0x81 b && leb b 0xD8)) [
      | inl f ↦
          let lo : 0x81 ≤ b = ground arith in
          let hi : b ≤ 0xD8 = ground arith in
          subst IsDefined (sym (break_case b d lo hi))
            (on_break-IsDefined (bit_and b 0x7F) d (omega (arith, break_code b lo hi)))
      | inr f ↦
          let out : (b < 1) ⊎ (0x58 < b × b < 0x81) ⊎ (0xD8 < b) = ground arith in
          subst IsDefined (sym (other_case b d out ne)) ((d, []), refl)
    ]
  ]

-- Whatever byte arrives, in whatever state, the decoder looks up no character beyond the end of its
-- tables: it ends with a state and a list of calls of the listeners.
pub on_ke_data-IsDefined : (b : ℕ) (d : Ps2Driver) → IsDefined (on_ke_data b d)
unfolding on_ke_data
on_ke_data-IsDefined b d = elim (Bool-cases (b == 0xE0)) [
  | inl e ↦ rw e (_, refl)
  | inr e ↦
      let ne : b ≢ 0xE0 = ground arith in
      rw e (
        if-IsDefined (b == 0xE1) _ _ (_, refl)
          (if-IsDefined (ignore b d).0 _ _ (_, refl) (on_scan_code-IsDefined b (ignore b d).1 ne)))
]

-- One reaction after another.
unfoldable pub add_calls : List Call → Reaction → Reaction
add_calls calls none = none
add_calls calls (some (d, rest)) = some (d, calls ++ rest)

unfoldable pub followed_by : Reaction → (Ps2Driver → Reaction) → Reaction
followed_by none k = none
followed_by (some (d, calls)) k = add_calls calls (k d)

-- Bytes that arrive one after the other.
unfoldable pub on_bytes : List ℕ → Ps2Driver → Reaction
on_bytes [] d = some (d, [])
on_bytes (b ∷ bs) d = followed_by (on_ke_data b d) (on_bytes bs)

pub on_bytes_step :
    (b : ℕ) (bs : List ℕ) (d d' d'' : Ps2Driver) (calls rest : List Call)
    → on_ke_data b d ≡ some (d', calls)
    → on_bytes bs d' ≡ some (d'', rest)
    → on_bytes (b ∷ bs) d ≡ some (d'', calls ++ rest)
unfolding on_bytes followed_by add_calls
on_bytes_step b bs d d' d'' calls rest e f =
    ap (λ r. followed_by r (on_bytes bs)) e ∙ ap (add_calls calls) f

pub on_bytes_last :
    (b : ℕ) (d d' : Ps2Driver) (calls : List Call)
    → on_ke_data b d ≡ some (d', calls)
    → on_bytes (b ∷ []) d ≡ some (d', calls)
unfolding on_bytes
on_bytes_last b d d' calls e =
    on_bytes_step b [] d d' d' calls [] e refl ∙ ap (λ cs. some (d', cs)) (append-nil calls)

-- No longer code is half read.
abbrev pub IsIdle : Ps2Driver → Type 0
IsIdle d = (d.wait_for_second ≡ false) × (d.wait_for_second_and_third ≡ false)
