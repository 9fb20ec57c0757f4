-- ===== src/String/Laws.antt =====
-- The operations of `String` on strings that represent a text.
use avi_kernel.Base.{
  ℕ, zero, suc, ◌+◌, ◌-◌, ◌<◌, ◌≤◌, ◌^◌, false, List, [], ◌∷◌, ◌++◌, ◌≡◌, ◌≢◌, ◌⊎◌, refl, ap, arith,
  ◌==◌, ltb, Option, some, Result, ok, take, drop, set, length, length-append, length-take,
  length-drop, length-set, u32, sub32, Bool-cases, inl, inr,
}
use mathlib.Core.Path.{subst}
use avi_kernel.CString.Laws.{Holds, strlen-Holds, strcpy-Writes, strcat-Writes}
use avi_kernel.String.{
  String, c_str, size, store, overlay, copy_chars, realloc, initialize_from_c_string,
  initialize_from_char, string_of_chars, clear, append_c_string, append_char, substr, npos,
}

-- Every allocation succeeds, and gives as many bytes as it is asked for.
abbrev pub Serves : (ℕ → Option (List ℕ)) → Type 0
Serves new_chars = (n : ℕ) → (bytes : List ℕ) × (new_chars n ≡ some bytes) × (length bytes ≡ n)

-- The buffer holds the text, and the size is its length.
abbrev pub Represents : String → List ℕ → Type 0
Represents s text = Holds s.actual_string text × (s._size ≡ length text)

-- The operation returns a string that represents the text.
abbrev pub Makes : Result String → List ℕ → Type 0
Makes r text = (s : String) × (r ≡ ok s) × Represents s text

pub store_in : (bytes : List ℕ) (i c : ℕ) → i < length bytes → store bytes i c ≡ ok (set bytes i c)
unfolding store
store_in bytes i c lt = ground arith

overlay-Holds :
    (old new_bytes text : List ℕ)
    → Holds old text
    → length text < length new_bytes
    → Holds (overlay old new_bytes) text
unfolding overlay
overlay-Holds [] new_bytes text h lt = absurd h
overlay-Holds (b ∷ old) [] text h lt = absurd (omega arith)
overlay-Holds (b ∷ old) (d ∷ new_bytes) [] h lt = h
overlay-Holds (b ∷ old) (d ∷ new_bytes) (c ∷ text) h lt =
    (h.0, h.1, overlay-Holds old new_bytes text h.2 (omega arith))

length-overlay : (old new_bytes : List ℕ) → length (overlay old new_bytes) ≡ length new_bytes
unfolding overlay
length-overlay [] new_bytes = refl
length-overlay (b ∷ old) [] = refl
length-overlay (b ∷ old) (d ∷ new_bytes) = ap suc (length-overlay old new_bytes)

-- A character in place of the zero, and a zero behind it.
Holds-set :
    (bytes text : List ℕ) (c : ℕ)
    → Holds bytes text
    → c ≢ 0
    → suc (length text) < length bytes
    → Holds (set (set bytes (length text) c) (suc (length text)) 0) (text ++ c ∷ [])
Holds-set [] text c h ne lt = absurd h
Holds-set (b ∷ []) [] c h ne lt = absurd (omega arith)
Holds-set (b ∷ d ∷ bytes) [] c h ne lt = (refl, ne, refl)
Holds-set (b ∷ bytes) (t ∷ text) c h ne lt = (h.0, h.1, Holds-set bytes text c h.2 ne (omega arith))

copy_chars-set :
    (n : ℕ) (src dest text : List ℕ)
    → Holds src text
    → n ≤ length text
    → n < length dest
    → (bytes : List ℕ) × (copy_chars n src dest ≡ ok bytes)
      × (length bytes ≡ length dest)
      × Holds (set bytes n 0) (take n text)
unfolding copy_chars
copy_chars-set zero src [] text h le lt = absurd (omega arith)
copy_chars-set zero src (d ∷ dest) text h le lt = (d ∷ dest, refl, refl, refl)
copy_chars-set (suc n) [] dest text h le lt = absurd h
copy_chars-set (suc n) (c ∷ src) dest [] h le lt = absurd (omega arith)
copy_chars-set (suc n) (c ∷ src) [] (t ∷ text) h le lt = absurd (omega arith)
copy_chars-set (suc n) (c ∷ src) (d ∷ dest) (t ∷ text) h le lt =
    let (bytes, done, count, holds) =
      copy_chars-set n src dest text h.2 (omega arith) (omega arith) in
    (c ∷ bytes, rw done refl, ap suc count, (h.0, h.1, holds))

Holds-drop :
    (n : ℕ) (bytes text : List ℕ)
    → Holds bytes text
    → n ≤ length text
    → Holds (drop n bytes) (drop n text)
Holds-drop zero bytes text h le = h
Holds-drop (suc n) [] text h le = absurd h
Holds-drop (suc n) (b ∷ bytes) [] h le = absurd (omega arith)
Holds-drop (suc n) (b ∷ bytes) (c ∷ text) h le = Holds-drop n bytes text h.2 (omega arith)

pub take_all : (n : ℕ) (xs : List ℕ) → length xs ≤ n → take n xs ≡ xs
take_all zero [] le = refl
take_all zero (x ∷ xs) le = absurd (omega arith)
take_all (suc n) [] le = refl
take_all (suc n) (x ∷ xs) le = ap (λ ys. x ∷ ys) (take_all n xs (omega arith))

pub drop_all : (n : ℕ) (xs : List ℕ) → length xs ≤ n → drop n xs ≡ []
drop_all zero [] le = refl
drop_all zero (x ∷ xs) le = absurd (omega arith)
drop_all (suc n) [] le = refl
drop_all (suc n) (x ∷ xs) le = drop_all n xs (omega arith)

-- A zero at the start of a buffer ends an empty text.
pub Holds-nil : (bytes : List ℕ) → 0 < length bytes → Holds (set bytes 0 0) []
Holds-nil [] lt = absurd (omega arith)
Holds-nil (b ∷ bytes) lt = refl

realloc-overlay :
    (new_chars : ℕ → Option (List ℕ)) (old bytes : List ℕ) (n : ℕ)
    → new_chars n ≡ some bytes
    → realloc new_chars old n ≡ some (overlay old bytes)
unfolding realloc
realloc-overlay new_chars old bytes n given = rw (given, realloc) refl

module _ (new_chars : ℕ → Option (List ℕ)) (serves : Serves new_chars) where
  pub initialize_from_c_string-Makes :
      (bytes text : List ℕ)
      → Holds bytes text
      → length text + 1 < 2 ^ 32
      → Makes (initialize_from_c_string new_chars bytes) text
  unfolding initialize_from_c_string
  initialize_from_c_string-Makes bytes text h lt =
      let (buffer, given, room) = serves (u32 (length text + 1)) in
      let (written, done, holds, count) = strcpy-Writes buffer bytes text h (omega arith) in
      (
        record { actual_string = written; _size = length text },
        rw (strlen-Holds bytes text h, given, done) refl,
        (holds, refl),
      )

  pub clear-Makes : Makes (clear new_chars) []
  unfolding clear initialize_from_char
  clear-Makes =
      let (buffer, given, room) = serves 1 in
      (
        record { actual_string = set buffer 0 0; _size = 0 },
        rw (given, store_in buffer 0 0 (omega arith)) refl,
        (Holds-nil buffer (omega arith), refl),
      )

  -- A size that is not too small makes room enough.
  pub append_c_string-Holds :
      (s : String) (bytes text more : List ℕ)
      → Holds s.actual_string text
      → length text ≤ s._size
      → Holds bytes more
      → s._size + length more + 1 < 2 ^ 32
      → (t : String) × (append_c_string new_chars s bytes ≡ ok t)
        × Holds t.actual_string (text ++ more)
        × (t._size ≡ s._size + length more)
  unfolding append_c_string size
  append_c_string-Holds s bytes text more held room_left h lt =
      let new_size = u32 (s._size + length more) in
      let (buffer, given, room) = serves (u32 (new_size + 1)) in
      let moved = realloc-overlay new_chars s.actual_string buffer (u32 (new_size + 1)) given in
      let kept = overlay-Holds s.actual_string buffer text held (omega arith) in
      let width = length-overlay s.actual_string buffer in
      let (written, done, holds, count) =
        strcat-Writes (overlay s.actual_string buffer) text bytes more kept h (omega arith) in
      (
        record { actual_string = written; _size = new_size },
        rw (strlen-Holds bytes more h, moved, done) refl,
        holds,
        omega arith,
      )

  -- Appending a C string to a string gives a string of both texts, one behind the other, where the
  -- result is short enough for its size.
  pub append_c_string-Makes :
      (s : String) (bytes text more : List ℕ)
      → Represents s text
      → Holds bytes more
      → length text + length more + 1 < 2 ^ 32
      → Makes (append_c_string new_chars s bytes) (text ++ more)
  append_c_string-Makes s bytes text more r h lt =
      let (t, done, holds, size_is) =
        append_c_string-Holds s bytes text more r.0 (omega (arith, r.1)) h (omega (arith, r.1)) in
      (t, done, (holds, omega (arith, r.1, length-append text more)))

  -- Appending a character other than zero puts it behind the text.
  pub append_char-Makes :
      (s : String) (text : List ℕ) (c : ℕ)
      → Represents s text
      → c ≢ 0
      → length text + 3 < 2 ^ 32
      → Makes (append_char new_chars s c) (text ++ c ∷ [])
  unfolding append_char
  append_char-Makes s text c r ne lt =
      let new_size = u32 (s._size + 1) in
      let (buffer, given, room) = serves (u32 (new_size + 2)) in
      let moved = realloc-overlay new_chars s.actual_string buffer (u32 (new_size + 2)) given in
      let bytes = overlay s.actual_string buffer in
      let kept = overlay-Holds s.actual_string buffer text r.0 (omega (arith, r.1)) in
      let width = length-overlay s.actual_string buffer in
      let width' = length-set bytes (sub32 new_size 1) c in
      let first = store_in bytes (sub32 new_size 1) c (omega (arith, r.1)) in
      let second = store_in (set bytes (sub32 new_size 1) c) new_size 0 (omega (arith, r.1)) in
      let at_end : length text ≡ sub32 new_size 1 = omega (arith, r.1) in
      let behind : suc (length text) ≡ new_size = omega (arith, r.1) in
      let holds = Holds-set bytes text c kept ne (omega (arith, r.1)) in
      (
        record {
          actual_string = set (set bytes (sub32 new_size 1) c) new_size 0;
          _size = new_size;
        },
        rw (moved, first, second) refl,
        (
          subst (λ i. Holds (set (set bytes i c) new_size 0) (text ++ c ∷ [])) at_end
              (subst (λ i. Holds (set (set bytes (length text) c) i 0) (text ++ c ∷ [])) behind
                holds),
          omega (arith, r.1, length-append text (c ∷ [])),
        ),
      )

  string_of_chars-Makes :
      (bytes text : List ℕ) (n : ℕ)
      → Holds bytes text
      → n ≤ length text
      → n + 1 < 2 ^ 32
      → Makes (string_of_chars new_chars bytes n) (take n text)
  unfolding string_of_chars
  string_of_chars-Makes bytes text n h le lt =
      let (buffer, given, room) = serves (u32 (n + 1)) in
      let (copied, done, count, holds) = copy_chars-set n bytes buffer text h le (omega arith) in
      let ended = store_in copied n 0 (omega arith) in
      (
        record { actual_string = set copied n 0; _size = n },
        rw (given, done, ended) refl,
        (holds, omega (arith, length-take n text)),
      )

  -- How many characters `substr` copies.
  module _ (text : List ℕ) (start len : ℕ) (le : start ≤ length text) where
    rest_of : take (length text - start) (drop start text) ≡ drop start text
    rest_of =
        take_all (length text - start) (drop start text) (omega (arith, length-drop start text))

    rest_long : length text - start ≤ len → take len (drop start text) ≡ drop start text
    rest_long lo = take_all len (drop start text) (omega (arith, length-drop start text))

  -- The part of a string that starts at one of its positions or at its end has as many characters as
  -- asked for, or as there are, where the end that is asked for is `npos` or a position below it.
  pub substr-Makes :
      (s : String) (text : List ℕ) (start len : ℕ)
      → Represents s text
      → length text + 1 < npos
      → start ≤ length text
      → (len ≡ npos) ⊎ (len + start ≤ npos)
      → Makes (substr new_chars s start len) (take len (drop start text))
  unfolding substr size c_str
  substr-Makes s text start len r lt le fits = elim (Bool-cases (start == s._size)) [
    | inl e ↦
        let nil = drop_all start text (ground (arith, r.1)) in
        rw (e, rest_long text start len le (ground (arith, r.1)), nil)
          (initialize_from_c_string-Makes (0 ∷ []) [] refl (omega arith))
    | inr e ↦
        let inside : ltb s._size start ≡ false = ground (arith, r.1) in
        let from = Holds-drop start s.actual_string text r.0 le in
        let size_is = length-drop start text in
        let all : Makes (string_of_chars new_chars (drop start s.actual_string) (s._size - start))
            (drop start text) =
          rw r.1 (
            subst
              (Makes (string_of_chars new_chars (drop start s.actual_string) (length text - start)))
              (rest_of text start len le)
              (string_of_chars-Makes (drop start s.actual_string) (drop start text)
                (length text - start) from (omega arith) (omega arith))) in
        elim (Bool-cases (len == npos)) [
          | inl f ↦ rw (e, inside, f, rest_long text start len le (ground arith)) all
          | inr f ↦ elim (Bool-cases (ltb s._size (u32 (len + start)))) [
            | inl g ↦ rw (e, inside, f, g, rest_long text start len le (ground (arith, r.1))) all
            | inr g ↦
                let short : len ≤ length (drop start text) = ground (arith, r.1) in
                rw (e, inside, f, g)
                  (string_of_chars-Makes (drop start s.actual_string) (drop start text) len from
                    short (omega arith))
          ]
        ]
  ]
