-- ===== src/String.antt =====
-- src/libc++/string.cpp: the class `String`.
--
-- A string owns its buffer, so that a string is a value. `new_chars n` is what `new char[n]` gives: the
-- bytes of the allocation as they are found, or none for the null pointer.
use avi_kernel.Base.{
  ℕ, zero, suc, ◌+◌, ◌-◌, Bool, true, false, not, ◌||◌, List, [], ◌∷◌, ◌++◌, ◌==◌, ltb, leb,
  if◌then◌else◌, Option, none, some, Result, panicked, faulted, ok, ◌>>=◌, ◌>>◌, panic_if, or_fault,
  or_panic, take, drop, set, get_elem?, length, u32, sub32, is_zero,
}
use avi_kernel.CString.{strlen, strcpy, strcat, strcmp}
pub mod Laws
pub mod Operators

pub record String : Type 0 where
  pub actual_string : List ℕ
  pub _size : ℕ

-- The largest value of `size_t`.
abbrev pub npos : ℕ
npos = 0xFFFFFFFF

unfoldable pub c_str : String → List ℕ
c_str s = s.actual_string

unfoldable pub size : String → ℕ
size s = s._size

unfoldable pub empty : String → Bool
unfolding size
empty s = size s == 0

-- A store into the buffer.
unfoldable pub store : List ℕ → ℕ → ℕ → Result (List ℕ)
store bytes i c = if ltb i (length bytes) then ok (set bytes i c) else faulted

unfoldable pub at : String → ℕ → Result ℕ
unfolding size
at s i = panic_if (ltb (sub32 (size s) 1) i) >> or_fault (get_elem? s.actual_string i)

unfoldable pub back : String → Result ℕ
unfolding size
back s = or_fault (get_elem? s.actual_string (sub32 (size s) 1))

unfoldable pub front : String → Result ℕ
front s = or_fault (get_elem? s.actual_string 0)

unfoldable pub isspace : ℕ → Bool
isspace c = c == 32 || c == 10 || c == 9 || c == 11 || c == 12 || c == 13

unfoldable pub only_whitespaces : ℕ → ℕ → String → Result Bool
unfolding at isspace
only_whitespaces zero i s = ok true
only_whitespaces (suc rounds) i s = at s i >>= λ c.
    let rest = only_whitespaces rounds (i + 1) s in if not (isspace c) then ok false else rest

unfoldable pub empty_or_whitespaces : String → Result Bool
unfolding only_whitespaces empty size
empty_or_whitespaces s = if empty s then ok true else only_whitespaces (size s) 0 s

-- What `realloc` leaves of the old bytes in the new ones.
unfoldable pub overlay : List ℕ → List ℕ → List ℕ
overlay [] new_bytes = new_bytes
overlay (b ∷ old) [] = []
overlay (b ∷ old) (_ ∷ new_bytes) = b ∷ overlay old new_bytes

unfoldable pub copy_chars : ℕ → List ℕ → List ℕ → Result (List ℕ)
copy_chars zero src dest = ok dest
copy_chars (suc n) [] dest = faulted
copy_chars (suc n) (c ∷ src) [] = faulted
copy_chars (suc n) (c ∷ src) (_ ∷ dest) = copy_chars n src dest >>= λ written. ok (c ∷ written)

unfoldable pub fill_chars : ℕ → ℕ → List ℕ → Result (List ℕ)
fill_chars zero c dest = ok dest
fill_chars (suc rounds) c [] = faulted
fill_chars (suc rounds) c (_ ∷ dest) = fill_chars rounds c dest >>= λ written. ok (c ∷ written)

unfoldable pub equal : List ℕ → List ℕ → Result Bool
equal lhs rhs = strcmp lhs rhs >>= λ d. ok (is_zero d)

module _ (new_chars : ℕ → Option (List ℕ)) where
  unfoldable pub realloc : List ℕ → ℕ → Option (List ℕ)
  unfolding overlay
  realloc old n = elim (new_chars n) [ none ↦ none | some bytes ↦ some (overlay old bytes) ]

  unfoldable pub initialize_from_c_string : List ℕ → Result String
  initialize_from_c_string s = do
    n ← strlen s
    bytes ← or_panic (new_chars (u32 (n + 1)))
    written ← strcpy bytes s
    ok (record { actual_string = written; _size = n })

  unfoldable pub initialize_from_char : ℕ → Result String
  unfolding store
  initialize_from_char c =
      if c == 0
      then (do
        bytes ← or_panic (new_chars 1)
        written ← store bytes 0 c
        ok (record { actual_string = written; _size = 0 }))
      else (do
        bytes ← or_panic (new_chars 2)
        first ← store bytes 0 c
        written ← store first 1 0
        ok (record { actual_string = written; _size = 2 }))

  unfoldable pub string_of_chars : List ℕ → ℕ → Result String
  unfolding copy_chars store
  string_of_chars s n = do
    bytes ← or_panic (new_chars (u32 (n + 1)))
    copied ← copy_chars n s bytes
    written ← store copied n 0
    ok (record { actual_string = written; _size = n })

  -- The loop of this constructor runs up to the character, a signed one, and not up to the count.
  unfoldable pub string_of_repeated : ℕ → ℕ → Result String
  unfolding fill_chars store
  string_of_repeated n c = do
    bytes ← or_panic (new_chars (u32 (n + 1)))
    filled ← fill_chars (if ltb c 128 then c else 0) c bytes
    written ← store filled n 0
    ok (record { actual_string = written; _size = n })

  unfoldable pub copy : String → Result String
  unfolding initialize_from_c_string c_str
  copy s = initialize_from_c_string (c_str s)

  unfoldable pub clear : Result String
  unfolding initialize_from_char
  clear = initialize_from_char 0

  unfoldable pub append_c_string : String → List ℕ → Result String
  unfolding realloc size
  append_c_string s str = do
    n ← strlen str
    let new_size = u32 (size s + n)
    bytes ← or_panic (realloc s.actual_string (u32 (new_size + 1)))
    written ← strcat bytes str
    ok (record { actual_string = written; _size = new_size })

  unfoldable pub append_char : String → ℕ → Result String
  unfolding realloc store
  append_char s c = do
    let new_size = u32 (s._size + 1)
    bytes ← or_fault (realloc s.actual_string (u32 (new_size + 2)))
    first ← store bytes (sub32 new_size 1) c
    written ← store first new_size 0
    ok (record { actual_string = written; _size = new_size })

  unfoldable pub substr : String → ℕ → ℕ → Result String
  unfolding size c_str initialize_from_c_string string_of_chars
  substr s start len =
      if start == size s
      then initialize_from_c_string (0 ∷ [])
      else if ltb (size s) start
      then panicked
      else string_of_chars (drop start (c_str s)) (
          if len == npos
          then size s - start
          else if ltb (size s) (u32 (len + start))
          then size s - start
          else len)

  unfoldable pub concat_c_str : String → List ℕ → Result String
  unfolding copy append_c_string
  concat_c_str lhs rhs = copy lhs >>= λ s. append_c_string s rhs

  unfoldable pub concat : String → String → Result String
  unfolding concat_c_str c_str
  concat lhs rhs = concat_c_str lhs (c_str rhs)

  unfoldable pub c_str_concat : List ℕ → String → Result String
  unfolding initialize_from_c_string append_c_string c_str
  c_str_concat lhs rhs = initialize_from_c_string lhs >>= λ s. append_c_string s (c_str rhs)

  unfoldable pub concat_char : String → ℕ → Result String
  unfolding copy append_char
  concat_char lhs rhs = copy lhs >>= λ s. append_char s rhs

  unfoldable pub char_concat : ℕ → String → Result String
  unfolding initialize_from_char append_c_string c_str
  char_concat lhs rhs = initialize_from_char lhs >>= λ s. append_c_string s (c_str rhs)
