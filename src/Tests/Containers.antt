-- ===== src/Tests/Containers.antt =====
-- The theorems on vectors, strings and paths at concrete values.
use avi_kernel.Base.{
  ℕ, true, false, List, [], ◌∷◌, ◌++◌, ◌≡◌, refl, arith, ltb, Option, some, ◌>>=◌, take, drop,
  replicate, length-replicate, pos, inr,
}
use mathlib.Core.List.{Perm}
use avi_kernel.Vector.{Vector, remove, append, sort, empty_vector}
use avi_kernel.Vector.Laws.{IsCounted}
use avi_kernel.Vector.Size.{Built, constructed, appended, removed, Built-IsCounted}
use avi_kernel.Vector.Sorting.{IsAscending, sort_lem}
use avi_kernel.CString.Laws.{Holds}
use avi_kernel.String.{String, append_c_string, substr}
use avi_kernel.String.Laws.{Serves, Makes, append_c_string-Makes, substr-Makes}
use avi_kernel.FilePath.{path_of_c_string, to_string}
use avi_kernel.FilePath.Reading.{
  MakesPath, closed, behind_slash, path_of_c_string_lem, to_string-path_of_c_string,
}

abbrev three_two : Vector ℕ
three_two = record { nodes = 3 ∷ 2 ∷ []; vector_size = 2 }

greater_asym : (x y : ℕ) → ltb y x ≡ true → ltb x y ≡ false
greater_asym x y h = ground arith

sort_lem_example :
    Perm (sort (λ x y. ltb y x) three_two).nodes (3 ∷ 2 ∷ [])
    × IsAscending (λ x y. ltb y x) (sort (λ x y. ltb y x) three_two).nodes
    × ((sort (λ x y. ltb y x) three_two).vector_size ≡ 2)
sort_lem_example = sort_lem (λ x y. ltb y x) three_two greater_asym

abbrev one_left : Vector ℕ
one_left = record { nodes = 5 ∷ []; vector_size = 1 }

one_left-Built : Built one_left
unfolding empty_vector append remove
one_left-Built = removed (pos 0) (appended 5 (appended 4 constructed)) refl

Built-IsCounted_example : IsCounted one_left
Built-IsCounted_example = Built-IsCounted one_left one_left-Built

-- The texts "ab", "b" and "/a/b", and buffers that hold them.
abbrev ab_text : List ℕ
ab_text = 97 ∷ 98 ∷ []

abbrev b_text : List ℕ
b_text = 98 ∷ []

abbrev slashes_text : List ℕ
slashes_text = 97 ∷ 47 ∷ 98 ∷ []

abbrev ab_bytes : List ℕ
ab_bytes = 97 ∷ 98 ∷ 0 ∷ []

abbrev b_bytes : List ℕ
b_bytes = 98 ∷ 0 ∷ []

abbrev slashes_bytes : List ℕ
slashes_bytes = 47 ∷ 97 ∷ 47 ∷ 98 ∷ 0 ∷ []

ab_bytes-Holds : Holds ab_bytes ab_text
ab_bytes-Holds = (refl, λ e. cc, (refl, λ e. cc, refl))

b_bytes-Holds : Holds b_bytes b_text
b_bytes-Holds = (refl, λ e. cc, refl)

slashes_bytes-Holds : Holds slashes_bytes (47 ∷ slashes_text)
slashes_bytes-Holds = (refl, λ e. cc, (refl, λ e. cc, (refl, λ e. cc, (refl, λ e. cc, refl))))

abbrev ab : String
ab = record { actual_string = ab_bytes; _size = 2 }

abbrev b : String
b = record { actual_string = b_bytes; _size = 1 }

-- Allocations whose bytes are all 0xCC.
abbrev new_chars : ℕ → Option (List ℕ)
new_chars n = some (replicate n 0xCC)

new_chars-Serves : Serves new_chars
new_chars-Serves n = (replicate n 0xCC, refl, length-replicate n 0xCC)

append_c_string-Makes_example : Makes (append_c_string new_chars ab b_bytes) (ab_text ++ b_text)
append_c_string-Makes_example =
    append_c_string-Makes new_chars new_chars-Serves ab b_bytes ab_text b_text
      (ab_bytes-Holds, refl) b_bytes-Holds (omega arith)

substr-Makes_example : Makes (substr new_chars ab 1 5) (take 5 (drop 1 ab_text))
substr-Makes_example =
    substr-Makes new_chars new_chars-Serves ab ab_text 1 5 (ab_bytes-Holds, refl) (omega arith)
      (omega arith) (inr (omega arith))

path_of_c_string_lem_example :
    MakesPath (path_of_c_string new_chars ab_bytes) (behind_slash (closed ab_text))
path_of_c_string_lem_example =
    path_of_c_string_lem new_chars new_chars-Serves ab_bytes ab_text ab_bytes-Holds (omega arith)

to_string-path_of_c_string_example :
    Makes (path_of_c_string new_chars slashes_bytes >>= to_string new_chars) (47 ∷ slashes_text)
to_string-path_of_c_string_example =
    to_string-path_of_c_string new_chars new_chars-Serves slashes_bytes slashes_text
      slashes_bytes-Holds (omega arith)
