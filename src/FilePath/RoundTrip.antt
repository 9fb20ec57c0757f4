-- ===== src/FilePath/RoundTrip.antt =====
-- Reading a path from a string and writing it back.
use avi_kernel.Base.{
  ℕ, zero, suc, ◌+◌, ◌-◌, ◌<◌, ◌≤◌, ◌^◌, Bool, true, false, not, ◌||◌, List, [], ◌∷◌, ◌++◌, ◌≡◌,
  ◌≢◌, refl, sym, ap, ◌∙◌, ◌==◌, ltb, if◌then◌else◌, arith, length, length-append, Bool-cases, inl,
  inr, Option, some, Result, ok, >>=-run, get_elem?, drop, pos, or_panic,
}
use mathlib.Core.Path.{subst}
use mathlib.Core.List.{append-nil, append_assoc}
use avi_kernel.CString.Laws.{Holds}
use avi_kernel.Vector.{Vector}
use avi_kernel.Vector
use avi_kernel.Vector.Laws.{IsCounted, append-IsCounted, get_lem, link_last-append}
use avi_kernel.String.{String, c_str, copy, clear, append_char, append_c_string}
use avi_kernel.String
use avi_kernel.String.Laws.{
  Serves, Represents, Makes, clear-Makes, append_char-Makes, append_c_string-Makes,
}
use avi_kernel.String.Operators.{copy-Makes}
use avi_kernel.FilePath
use avi_kernel.FilePath.{
  FilePath, append_part, fill_from, fill_vector, path_of_string, path_of_c_string, add_parts,
  to_string, get_part,
}
use avi_kernel.FilePath.Parts.{is_nil, separator, split, join}

-- The strings represent these texts, one each.
abbrev pub RepresentAll : List String → List (List ℕ) → Type 0
RepresentAll [] [] = Unit {0}
RepresentAll [] (text ∷ texts) = ⊥
RepresentAll (s ∷ strings) [] = ⊥
RepresentAll (s ∷ strings) (text ∷ texts) = Represents s text × RepresentAll strings texts

RepresentAll-append :
    (strings : List String) (texts : List (List ℕ)) (s : String) (text : List ℕ)
    → RepresentAll strings texts
    → Represents s text
    → RepresentAll (strings ++ s ∷ []) (texts ++ text ∷ [])
RepresentAll-append [] [] s text all r = (r, tt)
RepresentAll-append [] (u ∷ texts) s text all r = absurd all
RepresentAll-append (t ∷ strings) [] s text all r = absurd all
RepresentAll-append (t ∷ strings) (u ∷ texts) s text all r =
    (all.0, RepresentAll-append strings texts s text all.1 r)

-- The string at an index and its text, in front of the texts that follow.
RepresentAll-get :
    (strings : List String) (texts : List (List ℕ)) (i : ℕ)
    → RepresentAll strings texts
    → i < length strings
    → (s : String) × (text : List ℕ) × (get_elem? strings i ≡ some s)
      × Represents s text
      × (drop i texts ≡ text ∷ drop (suc i) texts)
RepresentAll-get [] texts i all lt = absurd (omega arith)
RepresentAll-get (s ∷ strings) [] i all lt = absurd all
RepresentAll-get (s ∷ strings) (text ∷ texts) zero all lt = (s, text, refl, all.0, refl)
RepresentAll-get (s ∷ strings) (text ∷ texts) (suc i) all lt =
    RepresentAll-get strings texts i all.1 (omega arith)

RepresentAll-length :
    (strings : List String) (texts : List (List ℕ))
    → RepresentAll strings texts
    → length strings ≡ length texts
RepresentAll-length [] [] all = refl
RepresentAll-length [] (text ∷ texts) all = absurd all
RepresentAll-length (s ∷ strings) [] all = absurd all
RepresentAll-length (s ∷ strings) (text ∷ texts) all =
    ap suc (RepresentAll-length strings texts all.1)

drop_all : (i : ℕ) (texts : List (List ℕ)) → length texts ≤ i → drop i texts ≡ []
drop_all zero [] le = refl
drop_all zero (x ∷ xs) le = absurd (omega arith)
drop_all (suc i) [] le = refl
drop_all (suc i) (x ∷ xs) le = drop_all i xs (omega arith)

-- A part is the last one exactly when no text follows it.
is_last :
    (i n : ℕ) (texts : List (List ℕ))
    → n ≡ length texts
    → i < n
    → ltb i (n - 1) ≡ not (is_nil (drop (suc i) texts))
is_last i n [] e lt = absurd (omega arith)
is_last zero n (t ∷ []) e lt = ground arith
is_last zero n (t ∷ u ∷ texts) e lt = ground arith
is_last (suc i) n (t ∷ texts) e lt =
    let same : ltb (suc i) (n - 1) ≡ ltb i (n - 1 - 1) = ground arith in
    same ∙ is_last i (n - 1) texts (omega arith) (omega arith)

-- The operation returns a vector of strings that represent these texts.
abbrev pub MakesParts : Result (Vector String) → List (List ℕ) → Type 0
MakesParts r texts = (v : Vector String) × (r ≡ ok v) × RepresentAll v.nodes texts × IsCounted v

module _ (new_chars : ℕ → Option (List ℕ)) (serves : Serves new_chars) where
  append_part-MakesParts :
      (v : Vector String) (texts : List (List ℕ)) (s : String) (text : List ℕ)
      → RepresentAll v.nodes texts
      → IsCounted v
      → Represents s text
      → length text + 1 < 2 ^ 32
      → MakesParts (append_part new_chars v s) (texts ++ text ∷ [])
  unfolding append_part Vector.append
  append_part-MakesParts v texts s text all count r lt =
      let (part, made, is) = copy-Makes new_chars serves s text r lt in
      (
        Vector.append v part,
        rw made refl,
        rw (link_last-append v.nodes part) (RepresentAll-append v.nodes texts part text all is),
        append-IsCounted v part count,
      )

  pub fill_from-MakesParts :
      (str text current : List ℕ) (s : String) (v : Vector String) (texts : List (List ℕ))
      → Holds str text
      → Represents s current
      → RepresentAll v.nodes texts
      → IsCounted v
      → length current + length text + 4 < 2 ^ 32
      → MakesParts (fill_from new_chars str s v) (texts ++ split current text)
  unfolding fill_from String.size split
  fill_from-MakesParts [] text current s v texts h r all count lt = absurd h
  fill_from-MakesParts (c ∷ str) [] [] s v texts h r all count lt =
      let ended : (c == 0) ≡ true = ground arith in
      let none_left : (s._size == 0) ≡ true = ground (arith, r.1) in
      (v, rw (ended, none_left) refl, rw (append-nil texts) all, count)
  fill_from-MakesParts (c ∷ str) [] (x ∷ current) s v texts h r all count lt =
      let ended : (c == 0) ≡ true = ground arith in
      let some_left : (s._size == 0) ≡ false = ground (arith, r.1) in
      rw (ended, some_left)
        (append_part-MakesParts v texts s (x ∷ current) all count r (omega arith))
  fill_from-MakesParts (c ∷ str) (t ∷ text) current s v texts h r all count lt =
      let going : (c == 0) ≡ false = ground (arith, h.0, h.1) in
      elim (Bool-cases (c == 47)) [
        | inl e ↦
            let slash : (t == 47) ≡ true = ground (arith, h.0) in
            let (w, longer, all', count') =
              append_part-MakesParts v texts s current all count r (omega arith) in
            let (next, cleared, empty) = clear-Makes new_chars serves in
            rw (going, e, longer, cleared, slash)
              (subst (MakesParts (fill_from new_chars str next w))
                (append_assoc texts (current ∷ []) (split [] text))
                (fill_from-MakesParts str text [] next w (texts ++ current ∷ []) h.2 empty all'
                  count' (omega arith)))
        | inr e ↦
            let char : (t == 47) ≡ false = ground (arith, h.0) in
            let ne : c ≢ 0 = ground (arith, h.0, h.1) in
            let (more, made, is) =
              append_char-Makes new_chars serves s current c r ne (omega arith) in
            let is' : Represents more (current ++ t ∷ []) =
              subst (λ x. Represents more (current ++ x ∷ [])) h.0 is in
            let size_is = length-append current (t ∷ []) in
            rw (going, e, made, char)
              (fill_from-MakesParts str text (current ++ t ∷ []) more v texts h.2 is' all count
                (omega arith))
      ]

  module _ (p : FilePath) (texts : List (List ℕ)) (all : RepresentAll p.parts.nodes texts)
      (count : IsCounted p.parts) where
    -- A part and what stands behind it, in front of the parts that follow.
    add_part-Makes :
        (s : String) (acc text : List ℕ) (separates : Bool)
        → Represents s (acc ++ text)
        → length (acc ++ text) + 3 < 2 ^ 32
        → Makes
            (if separates then append_char new_chars s 47 else ok s)
            (acc ++ text ++ separator separates)
    add_part-Makes s acc text true r lt =
        append_char-Makes new_chars serves s (acc ++ text) 47 r (omega arith) lt
    add_part-Makes s acc text false r lt = (s, refl, rw (append-nil (acc ++ text)) r)

    pub add_parts-Makes :
        (rounds i : ℕ) (s : String) (acc : List ℕ)
        → i + rounds ≡ length p.parts.nodes
        → Represents s acc
        → length acc + length (join p.folder (drop i texts)) + 4 < 2 ^ 32
        → Makes (add_parts new_chars rounds i p s) (acc ++ join p.folder (drop i texts))
    unfolding add_parts get_part join c_str FilePath.is_folder FilePath.get_number_of_parts
        Vector.size
    add_parts-Makes zero i s acc e r lt =
        let same = RepresentAll-length p.parts.nodes texts all in
        let none_left : drop i texts ≡ [] = drop_all i texts (omega arith) in
        (s, refl, rw (none_left, append-nil acc) r)
    add_parts-Makes (suc rounds) i s acc e r lt =
        let (elem, text, there, is, front) =
          RepresentAll-get p.parts.nodes texts i all (omega arith) in
        let separates = p.folder || not (is_nil (drop (suc i) texts)) in
        let rest = join p.folder (drop (suc i) texts) in
        let whole : join p.folder (drop i texts) ≡ text ++ (separator separates ++ rest) =
          ap (join p.folder) front in
        let size_text = length-append text (separator separates ++ rest) in
        let size_rest = length-append (separator separates) rest in
        let size_acc = length-append acc text in
        let lt' = subst (λ xs. length acc + length xs + 4 < 2 ^ 32) whole lt in
        let (part, copied, part_is) = copy-Makes new_chars serves elem text is (omega arith) in
        let (s₁, longer, s₁_is) =
          append_c_string-Makes new_chars serves s part.actual_string acc text r part_is.0
            (omega arith) in
        let (s₂, ended, s₂_is) = add_part-Makes s₁ acc text separates s₁_is (omega arith) in
        let same = RepresentAll-length p.parts.nodes texts all in
        let test : ltb i (p.parts.vector_size - 1) ≡ not (is_nil (drop (suc i) texts)) =
          is_last i p.parts.vector_size texts (count ∙ same) (omega arith) in
        let size_end = length-append (acc ++ text) (separator separates) in
        let next : i + 1 ≡ suc i = omega arith in
        let behind : join p.folder (drop (i + 1) texts) ≡ rest =
          ap (λ k. join p.folder (drop k texts)) next in
        let (t, done, is') =
          add_parts-Makes rounds (i + 1) s₂ (acc ++ text ++ separator separates) (omega arith) s₂_is
            (omega (arith, ap (λ xs. length xs) behind)) in
        let read : get_part new_chars p (pos i) ≡ ok part =
          >>=-run (copy new_chars) (get_lem p.parts i count ∙ ap or_panic there) ∙ copied in
        let ended' : (if p.folder || ltb i (p.parts.vector_size - 1)
              then append_char new_chars s₁ 47
              else ok s₁)
            ≡ ok s₂ =
          ap (λ b. if p.folder || b then append_char new_chars s₁ 47 else ok s₁) test ∙ ended in
        (
          t,
          >>=-run _ read ∙ (>>=-run _ longer ∙ (>>=-run _ ended' ∙ done)),
          subst (Represents t)
              (ap (λ xs. acc ++ text ++ separator separates ++ xs) behind
                ∙ append_assoc (acc ++ text) (separator separates) rest
                ∙ append_assoc acc text (separator separates ++ rest)
                ∙ ap (λ xs. acc ++ xs) (sym whole))
              is',
        )
