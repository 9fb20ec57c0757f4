-- ===== src/FilePath/Reading.antt =====
-- What path a string gives, and which string the path gives back.
use avi_kernel.Base.{
  ℕ, suc, ◌+◌, ◌<◌, ◌≤◌, ◌^◌, Bool, true, false, List, [], ◌∷◌, ◌++◌, ◌≡◌, refl, sym, ap, ◌∙◌, ◌==◌,
  if◌then◌else◌, arith, length, length-append, Bool-cases, inl, inr, Option, some, Result, ok,
  ◌>>=◌, >>=-run, get_elem?, sub32,
}
use mathlib.Core.Path.{subst}
use avi_kernel.CString.Laws.{Holds}
use avi_kernel.Vector
use avi_kernel.Vector.{Vector, empty_vector}
use avi_kernel.Vector.Laws.{IsCounted}
use avi_kernel.String.{
  String, c_str, copy, clear, append_char, append_c_string, back, at, empty_or_whitespaces,
  initialize_from_c_string, char_concat,
}
use avi_kernel.String
use avi_kernel.String.Laws.{
  Serves, Represents, Makes, clear-Makes, append_char-Makes, append_c_string-Holds,
  initialize_from_c_string-Makes,
}
use avi_kernel.String.Operators.{
  copy-Makes, all_spaces, empty_or_whitespaces-all_spaces, at_lem, Holds-get,
  initialize_from_char_lem,
}
use avi_kernel.FilePath
use avi_kernel.FilePath.{FilePath, fill_vector, path_of_string, path_of_c_string, to_string}
use avi_kernel.FilePath.Parts.{split, join, ends_with_slash, join-split}
use avi_kernel.FilePath.RoundTrip.{RepresentAll, MakesParts, fill_from-MakesParts, add_parts-Makes}

-- Blank text gets a slash behind it.
unfoldable pub closed : List ℕ → List ℕ
unfolding all_spaces
closed text = if all_spaces text then text ++ 47 ∷ [] else text

-- The text behind its first slash, where it starts with one.
unfoldable pub behind_slash : List ℕ → List ℕ
behind_slash [] = []
behind_slash (c ∷ text) = if c == 47 then text else c ∷ text

last_char :
    (c : ℕ) (text : List ℕ)
    → (d : ℕ) × (get_elem? (c ∷ text) (length text) ≡ some d)
      × ((d == 47) ≡ ends_with_slash (c == 47) text)
unfolding ends_with_slash
last_char c [] = (c, refl, refl)
last_char c (d ∷ text) = last_char d text

-- The last character of a string that is not empty.
back_lem :
    (s : String) (c : ℕ) (text : List ℕ)
    → Represents s (c ∷ text)
    → length text + 1 < 2 ^ 32
    → (d : ℕ) × (back s ≡ ok d) × ((d == 47) ≡ ends_with_slash (c == 47) text)
unfolding back String.size
back_lem s c text r lt =
    let (d, there, ends) = last_char c text in
    let last : sub32 s._size 1 ≡ length text = omega (arith, r.1) in
    (
      d,
      rw (last, Holds-get s.actual_string (c ∷ text) (length text) r.0 (omega arith), there) refl,
      ends,
    )

-- The path whose parts and kind are those of a text behind its first slash.
abbrev pub MakesPath : Result FilePath → List ℕ → Type 0
MakesPath r text =
    (p : FilePath) × (r ≡ ok p)
    × RepresentAll p.parts.nodes (split [] text)
    × IsCounted p.parts
    × (p.folder ≡ ends_with_slash true text)

length-behind_slash : (c : ℕ) (text : List ℕ) → length (behind_slash (c ∷ text)) ≤ suc (length text)
unfolding behind_slash
length-behind_slash c text = ground arith

-- A closed text is not empty.
closed-cons :
    (text : List ℕ)
    → (c : ℕ) × (rest : List ℕ) × (closed text ≡ c ∷ rest) × (length rest ≤ length text)
unfolding closed all_spaces
closed-cons [] = (47, [], refl, omega arith)
closed-cons (c ∷ text) = elim (Bool-cases (all_spaces (c ∷ text))) [
  | inl e ↦ (c, text ++ 47 ∷ [], rw e refl, omega (arith, length-append text (47 ∷ [])))
  | inr e ↦ (c, text, rw e refl, omega arith)
]

module _ (new_chars : ℕ → Option (List ℕ)) (serves : Serves new_chars) where
  fill_vector-MakesParts :
      (bytes text : List ℕ) (n : ℕ)
      → Holds bytes (47 ∷ text)
      → length text + 4 < 2 ^ 32
      → MakesParts
          (fill_vector new_chars (record { actual_string = bytes; _size = n }))
          (split [] text)
  unfolding fill_vector c_str empty_vector
  fill_vector-MakesParts [] text n h lt = absurd h
  fill_vector-MakesParts (b ∷ bytes) text n h lt =
      let (empty, cleared, is) = clear-Makes new_chars serves in
      rw cleared (
        fill_from-MakesParts new_chars serves bytes text [] empty empty_vector [] h.2 is tt refl
          (omega arith))

  -- The string with a slash in front of it, where it has none.
  made_absolute :
      (s : String) (c : ℕ) (text : List ℕ)
      → Represents s (c ∷ text)
      → length text + 8 < 2 ^ 32
      → Makes
          (if c == 47 then ok s else (char_concat new_chars 47 s >>= copy new_chars))
          (47 ∷ behind_slash (c ∷ text))
  unfolding char_concat c_str behind_slash copy
  made_absolute s c text r lt = elim (Bool-cases (c == 47)) [
    | inl e ↦
        let slash : c ≡ 47 = ground arith in
        (s, rw e refl, rw e (subst (λ x. Represents s (x ∷ text)) slash r))
    | inr e ↦
        let (t, made, (holds, size_is)) = initialize_from_char_lem new_chars serves 47 in
        let (u, joined, holds', size_is') =
          append_c_string-Holds new_chars serves t s.actual_string (47 ∷ []) (c ∷ text) holds
            (omega arith) r.0 (omega arith) in
        let (v, copied, is) =
          initialize_from_c_string-Makes new_chars serves u.actual_string (47 ∷ c ∷ text) holds'
            (omega arith) in
        (v, rw (e, made, joined, copied) refl, rw e is)
  ]

  -- The first two steps: a blank string gets a slash.
  made_closed :
      (s : String) (text : List ℕ) (blank : Bool)
      → Represents s text
      → length text + 3 < 2 ^ 32
      → Makes
          (if blank then append_char new_chars s 47 else ok s)
          (if blank then text ++ 47 ∷ [] else text)
  made_closed s text true r lt = append_char-Makes new_chars serves s text 47 r (omega arith) lt
  made_closed s text false r lt = (s, refl, r)

  -- What follows for the string with its slash.
  path_of_closed :
      (s : String) (c : ℕ) (text : List ℕ)
      → Represents s (c ∷ text)
      → length text + 8 < 2 ^ 32
      → MakesPath
          (at s 0 >>= λ first.
            (if first == 47 then ok s else (char_concat new_chars 47 s >>= copy new_chars))
            >>= λ s₂. fill_vector new_chars s₂ >>= λ parts.
                back s₂ >>= λ last. ok (record { folder = last == 47; parts = parts }))
          (behind_slash (c ∷ text))
  path_of_closed s c text r lt =
      let rest = behind_slash (c ∷ text) in
      let shorter = length-behind_slash c text in
      let (s₂, made, is) = made_absolute s c text r lt in
      let (v, filled, all, count) =
        fill_vector-MakesParts s₂.actual_string rest s₂._size is.0 (omega arith) in
      let (d, last, ends) = back_lem s₂ 47 rest is (omega arith) in
      let first = at_lem s (c ∷ text) 0 r (omega arith) (omega arith) in
      let p : FilePath = record { folder = d == 47; parts = v } in
      (
        p,
        >>=-run _ first ∙ (>>=-run _ made ∙ (>>=-run _ filled ∙ >>=-run _ last)),
        all,
        count,
        ends,
      )

  -- A string that is not blank gives the path with the parts between its slashes, as if a slash stood in
  -- front of it where none does, and a folder's path exactly when it ends with a slash; a blank string
  -- gives the path that it would give with a slash behind it.
  pub path_of_c_string_lem :
      (bytes text : List ℕ)
      → Holds bytes text
      → length text + 10 < 2 ^ 32
      → MakesPath (path_of_c_string new_chars bytes) (behind_slash (closed text))
  unfolding path_of_c_string path_of_string closed
  path_of_c_string_lem bytes text h lt =
      let (given, read, given_is) =
        initialize_from_c_string-Makes new_chars serves bytes text h (omega arith) in
      let (s, copied, is) = copy-Makes new_chars serves given text given_is (omega arith) in
      let blank = empty_or_whitespaces-all_spaces s text is (omega arith) in
      let (s₁, made, is₁) = made_closed s text (all_spaces text) is (omega arith) in
      let (c, rest, whole, shorter) = closed-cons text in
      let is' = subst (Represents s₁) whole is₁ in
      let (p, done, all, count, ends) = path_of_closed s₁ c rest is' (omega arith) in
      (
        p,
        >>=-run _ read ∙ (>>=-run _ copied ∙ (>>=-run _ blank ∙ (>>=-run _ made ∙ done))),
        subst (λ xs. RepresentAll p.parts.nodes (split [] (behind_slash xs))) (sym whole) all,
        count,
        subst (λ xs. p.folder ≡ ends_with_slash true (behind_slash xs)) (sym whole) ends,
      )

  -- The string of a path that was made from a text.
  MakesPath-to_string :
      (p : FilePath) (text : List ℕ)
      → RepresentAll p.parts.nodes (split [] text)
      → IsCounted p.parts
      → p.folder ≡ ends_with_slash true text
      → length text + 8 < 2 ^ 32
      → Makes (to_string new_chars p) (47 ∷ text)
  unfolding to_string FilePath.get_number_of_parts Vector.size
  MakesPath-to_string p text all count ends lt =
      let (s, made, is) =
        initialize_from_c_string-Makes new_chars serves (47 ∷ 0 ∷ []) (47 ∷ [])
          (refl, λ e. cc, refl) (omega arith) in
      let whole : join p.folder (split [] text) ≡ text =
        ap (λ b. join b (split [] text)) ends ∙ join-split [] text in
      let (t, done, is') =
        add_parts-Makes new_chars serves p (split [] text) all count p.parts.vector_size 0 s
          (47 ∷ []) (omega arith) is (omega (arith, ap (λ xs. length xs) whole)) in
      (t, >>=-run _ made ∙ done, subst (λ xs. Represents t (47 ∷ xs)) whole is')

  -- The path of a text that starts with a slash has this text as its string.
  pub to_string-path_of_c_string :
      (bytes text : List ℕ)
      → Holds bytes (47 ∷ text)
      → length text + 11 < 2 ^ 32
      → Makes (path_of_c_string new_chars bytes >>= to_string new_chars) (47 ∷ text)
  unfolding behind_slash closed all_spaces
  to_string-path_of_c_string bytes text h lt =
      let (p, read, all, count, ends) = path_of_c_string_lem bytes (47 ∷ text) h (omega arith) in
      let (t, written, is) = MakesPath-to_string p text all count ends (omega arith) in
      (t, >>=-run (to_string new_chars) read ∙ written, is)
