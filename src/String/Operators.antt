-- ===== src/String/Operators.antt =====
-- The operators and the tests of `String` on strings that represent a text.
use avi_kernel.Base.{
  ℕ, zero, suc, ◌+◌, ◌<◌, ◌≤◌, ◌^◌, Bool, true, false, not, List, [], ◌∷◌, ◌++◌, ◌≡◌, ◌≢◌, ◌↔◌,
  refl, ap, arith, ◌==◌, ltb, if◌then◌else◌, Option, none, some, ok, or_fault, or_panic, set,
  get_elem?, length, length-set, sub32, Bool-cases, inl, inr, is_zero, is_zero_iff, drop,
}
use mathlib.Core.Path.{subst}
use avi_kernel.CString.Laws.{Holds, strcmp_lem}
use avi_kernel.String.{
  String, c_str, at, equal, isspace, only_whitespaces, empty_or_whitespaces, empty, size,
  concat_c_str, concat, copy, initialize_from_char,
}
use avi_kernel.String.Laws.{
  Serves, Represents, Makes, initialize_from_c_string-Makes, append_c_string-Makes, store_in,
  Holds-nil, drop_all,
}

pub Holds-get :
    (bytes text : List ℕ) (i : ℕ)
    → Holds bytes text
    → i < length text
    → get_elem? bytes i ≡ get_elem? text i
Holds-get [] text i h lt = absurd h
Holds-get (b ∷ bytes) [] i h lt = absurd (omega arith)
Holds-get (b ∷ bytes) (c ∷ text) zero h lt = ap some h.0
Holds-get (b ∷ bytes) (c ∷ text) (suc i) h lt = Holds-get bytes text i h.2 (omega arith)

has_elem : (xs : List ℕ) (i : ℕ) → i < length xs → (x : ℕ) × (get_elem? xs i ≡ some x)
has_elem [] i lt = absurd (omega arith)
has_elem (x ∷ xs) zero lt = (x, refl)
has_elem (x ∷ xs) (suc i) lt = has_elem xs i (omega arith)

no_elem : (xs : List ℕ) (i : ℕ) → length xs ≤ i → get_elem? xs i ≡ none
no_elem [] i le = refl
no_elem (x ∷ xs) zero le = absurd (omega arith)
no_elem (x ∷ xs) (suc i) le = no_elem xs i (omega arith)

-- The character at a position of a string with a text that is not empty is that of the text; a position
-- behind the text panics.
pub at_lem :
    (s : String) (text : List ℕ) (i : ℕ)
    → Represents s text
    → 0 < length text
    → length text < 2 ^ 32
    → at s i ≡ or_panic (get_elem? text i)
unfolding at size
at_lem s text i r some_left lt = elim (Bool-cases (ltb i (length text))) [
  | inl e ↦
      let lo : i < length text = ground arith in
      let inside : ltb (sub32 s._size 1) i ≡ false = ground (arith, r.1) in
      let (c, there) = has_elem text i lo in
      rw (inside, Holds-get s.actual_string text i r.0 lo, there) refl
  | inr e ↦
      let le : length text ≤ i = ground arith in
      let beyond : ltb (sub32 s._size 1) i ≡ true = ground (arith, r.1) in
      rw (beyond, no_elem text i le) refl
]

-- A string with the empty text has no position, but `at` reads its buffer at any position.
pub at-nil :
    (s : String) (i : ℕ)
    → Represents s []
    → i < 2 ^ 32
    → at s i ≡ or_fault (get_elem? s.actual_string i)
unfolding at size
at-nil s i r lt =
    let inside : ltb (sub32 s._size 1) i ≡ false = ground (arith, r.1) in rw inside refl

-- Two strings compare equal exactly when their texts are the same.
pub equal_lem :
    (s s' : String) (text text' : List ℕ)
    → Represents s text
    → Represents s' text'
    → (b : Bool) × (equal (c_str s) (c_str s') ≡ ok b) × ((b ≡ true) ↔ (text ≡ text'))
unfolding equal c_str
equal_lem s s' text text' r r' =
    let (d, done, iff) = strcmp_lem s.actual_string s'.actual_string text text' r.0 r'.0 in
    let test = is_zero_iff d in
    (is_zero d, rw done refl, (λ h. iff.0 (test.0 h), λ h. test.1 (iff.1 h)))

-- The text consists of white space.
unfoldable pub all_spaces : List ℕ → Bool
unfolding isspace
all_spaces [] = true
all_spaces (c ∷ text) = let rest = all_spaces text in if not (isspace c) then false else rest

drop_cons :
    (i : ℕ) (xs : List ℕ) (x : ℕ) → get_elem? xs i ≡ some x → drop i xs ≡ x ∷ drop (suc i) xs
drop_cons i [] x e = cc
drop_cons zero (y ∷ xs) x e = cc
drop_cons (suc i) (y ∷ xs) x e = drop_cons i xs x e

-- The test of each character: where it fails, the loop ends.
spaces_step :
    (space rest : Bool)
    → (if not space then ok false else ok rest) ≡ ok (if not space then false else rest)
spaces_step true rest = refl
spaces_step false rest = refl

module _ (s : String) (text : List ℕ) (r : Represents s text) (lt : length text < 2 ^ 32) where
  only_whitespaces-all_spaces :
      (rounds i : ℕ)
      → i + rounds ≡ length text
      → only_whitespaces rounds i s ≡ ok (all_spaces (drop i text))
  unfolding only_whitespaces all_spaces
  only_whitespaces-all_spaces zero i e = rw (drop_all i text (omega arith)) refl
  only_whitespaces-all_spaces (suc rounds) i e =
      let (c, there) = has_elem text i (omega arith) in
      let next : i + 1 ≡ suc i = omega arith in
      rw
        (
          at_lem s text i r (omega arith) lt,
          there,
          only_whitespaces-all_spaces rounds (i + 1) (omega arith),
          drop_cons i text c there,
          next,
        )
        (spaces_step (isspace c) (all_spaces (drop (suc i) text)))

  -- The loop over the characters of a string says whether its text is white space.
  pub empty_or_whitespaces-all_spaces : empty_or_whitespaces s ≡ ok (all_spaces text)
  unfolding empty_or_whitespaces empty size all_spaces
  empty_or_whitespaces-all_spaces = elim (Bool-cases (s._size == 0)) [
    | inl e ↦ rw e (only_whitespaces-all_spaces 0 0 (ground (arith, r.1)))
    | inr e ↦ rw e (only_whitespaces-all_spaces s._size 0 (omega (arith, r.1)))
  ]

two_chars :
    (bytes : List ℕ) (c : ℕ) → length bytes ≡ 2 → c ≢ 0 → Holds (set (set bytes 0 c) 1 0) (c ∷ [])
two_chars [] c e ne = absurd (omega arith)
two_chars (a ∷ []) c e ne = absurd (omega arith)
two_chars (a ∷ b ∷ bytes) c e ne = (refl, ne, refl)

module _ (new_chars : ℕ → Option (List ℕ)) (serves : Serves new_chars) where
  -- A string that was assigned one character holds it alone, but has size 2; one that was assigned a zero
  -- represents the empty text.
  pub initialize_from_char_lem :
      (c : ℕ)
      → (s : String) × (initialize_from_char new_chars c ≡ ok s)
        × (if c == 0 then Represents s [] else Holds s.actual_string (c ∷ []) × (s._size ≡ 2))
  unfolding initialize_from_char
  initialize_from_char_lem c = elim (Bool-cases (c == 0)) [
    | inl e ↦
        let (buffer, given, room) = serves 1 in
        let zero_is : 0 ≡ c = ground arith in
        let ended = store_in buffer 0 c (omega arith) in
        (
          record { actual_string = set buffer 0 c; _size = 0 },
          rw (e, given, ended) refl,
          rw e (
            subst (λ z. Holds (set buffer 0 z) []) zero_is (Holds-nil buffer (omega arith)),
            refl,
          ),
        )
    | inr e ↦
        let (buffer, given, room) = serves 2 in
        let width = length-set buffer 0 c in
        let first = store_in buffer 0 c (omega arith) in
        let second = store_in (set buffer 0 c) 1 0 (omega arith) in
        let ne : c ≢ 0 = ground arith in
        (
          record { actual_string = set (set buffer 0 c) 1 0; _size = 2 },
          rw (e, given, first, second) refl,
          rw e (two_chars buffer c room ne, refl),
        )
  ]

  pub copy-Makes :
      (s : String) (text : List ℕ)
      → Represents s text
      → length text + 1 < 2 ^ 32
      → Makes (copy new_chars s) text
  unfolding copy c_str
  copy-Makes s text r lt =
      initialize_from_c_string-Makes new_chars serves s.actual_string text r.0 lt

  -- The sum of two strings represents both texts, one behind the other, where it is short enough for its
  -- size.
  pub concat-Makes :
      (s s' : String) (text text' : List ℕ)
      → Represents s text
      → Represents s' text'
      → length text + length text' + 1 < 2 ^ 32
      → Makes (concat new_chars s s') (text ++ text')
  unfolding concat concat_c_str c_str
  concat-Makes s s' text text' r r' lt =
      let (t, made, is) = copy-Makes s text r (omega arith) in
      rw made (append_c_string-Makes new_chars serves t s'.actual_string text text' is r'.0 lt)
