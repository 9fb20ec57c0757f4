-- ===== src/FilePath.antt =====
-- src/fs/path.cpp: paths of files and folders, as vectors of strings.
--
-- `new_chars` is the allocation of characters that strings use. A number that the source keeps in an
-- `int` is an integer here where it can be negative.
use avi_kernel.Base.{
  ℕ, zero, suc, ◌+◌, ◌-◌, Bool, true, false, not, ◌&&◌, ◌||◌, List, [], ◌∷◌, ◌==◌, ltb,
  if◌then◌else◌, Option, Result, panicked, faulted, ok, ◌>>=◌, ◌>>◌, ℤ, pos, negsuc, difference,
  is_zero,
}
use avi_kernel.Vector.{Vector}
use avi_kernel.Vector
use avi_kernel.String.{
  String, c_str, at, back, equal, empty_or_whitespaces, initialize_from_c_string, copy, clear,
  append_char, append_c_string, char_concat,
}
use avi_kernel.String
pub mod Parts
pub mod RoundTrip
pub mod Reading

pub record FilePath : Type 0 where
  pub folder : Bool
  pub parts : Vector String

unfoldable pub is_folder : FilePath → Bool
is_folder p = p.folder

unfoldable pub get_number_of_parts : FilePath → ℕ
unfolding Vector.size
get_number_of_parts p = Vector.size p.parts

unfoldable pub get_depth : FilePath → ℤ
unfolding is_folder Vector.size
get_depth p = if is_folder p then pos (Vector.size p.parts) else difference (Vector.size p.parts) 1

unfoldable pub is_root : FilePath → Bool
unfolding get_depth is_folder
is_root p = is_zero (get_depth p) && is_folder p

unfoldable pub go_up : FilePath → Result FilePath
unfolding get_depth is_folder Vector.pop_back
go_up p =
    if is_zero (get_depth p)
    then panicked
    else if not (is_folder p)
    then panicked
    else Vector.pop_back p.parts >>= λ parts. ok (record p { parts = parts })

unfoldable pub remove_part : FilePath → ℤ → Result FilePath
unfolding Vector.remove
remove_part p index = Vector.remove p.parts index >>= λ parts. ok (record p { parts = parts })

module _ (new_chars : ℕ → Option (List ℕ)) where
  unfoldable pub get_part : FilePath → ℤ → Result String
  unfolding Vector.get copy
  get_part p i = Vector.get p.parts i >>= copy new_chars

  -- An element goes into the vector as a copy.
  unfoldable pub append_part : Vector String → String → Result (Vector String)
  unfolding copy Vector.append
  append_part parts s = copy new_chars s >>= λ part. ok (Vector.append parts part)

  -- The loop over the characters, and the last part behind it.
  unfoldable pub fill_from : List ℕ → String → Vector String → Result (Vector String)
  unfolding append_part clear append_char String.size
  fill_from [] s parts = faulted
  fill_from (c ∷ str) s parts =
      if c == 0
      then (if String.size s == 0 then ok parts else append_part parts s)
      else if c == 47
      then (append_part parts s >>= λ longer. clear new_chars >>= λ next. fill_from str next longer)
      else (append_char new_chars s c >>= λ more. fill_from str more parts)

  unfoldable pub fill_vector : String → Result (Vector String)
  unfolding fill_from clear c_str Vector.empty_vector
  fill_vector s = elim (c_str s) [
    | [] ↦ faulted
    | first ∷ str ↦ clear new_chars >>= λ empty. fill_from str empty Vector.empty_vector
  ]

  unfoldable pub path_of_string : String → Result FilePath
  unfolding copy empty_or_whitespaces append_char at char_concat fill_vector back
  path_of_string given = do
    s ← copy new_chars given
    blank ← empty_or_whitespaces s
    s₁ ← if blank then append_char new_chars s 47 else ok s
    first ← at s₁ 0
    s₂ ← if first == 47 then ok s₁ else (char_concat new_chars 47 s₁ >>= copy new_chars)
    parts ← fill_vector s₂
    last ← back s₂
    ok (record { folder = last == 47; parts = parts })

  unfoldable pub path_of_c_string : List ℕ → Result FilePath
  unfolding path_of_string initialize_from_c_string
  path_of_c_string str = initialize_from_c_string new_chars str >>= path_of_string

  unfoldable pub add_parts : ℕ → ℕ → FilePath → String → Result String
  unfolding get_part append_c_string append_char is_folder get_number_of_parts c_str
  add_parts zero i p s = ok s
  add_parts (suc rounds) i p s = do
    part ← get_part p (pos i)
    s₁ ← append_c_string new_chars s (c_str part)
    s₂ ←
        if is_folder p || ltb i (get_number_of_parts p - 1)
        then append_char new_chars s₁ 47
        else ok s₁
    add_parts rounds (i + 1) p s₂

  unfoldable pub to_string : FilePath → Result String
  unfolding add_parts initialize_from_c_string get_number_of_parts
  to_string p = do
    s ← initialize_from_c_string new_chars (47 ∷ 0 ∷ [])
    add_parts (get_number_of_parts p) 0 p s

  unfoldable pub path_equal : FilePath → FilePath → Result Bool
  unfolding to_string equal c_str
  path_equal p other = do rhs ← to_string other; lhs ← to_string p; equal (c_str rhs) (c_str lhs)
