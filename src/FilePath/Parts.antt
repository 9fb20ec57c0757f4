-- ===== src/FilePath/Parts.antt =====
-- A path's text behind its first slash, as its parts, and the parts as a text.
use avi_kernel.Base.{
  ℕ, Bool, true, false, not, ◌||◌, List, [], ◌∷◌, ◌++◌, ◌≡◌, refl, sym, ap, ◌∙◌, ◌==◌,
  if◌then◌else◌, arith, Bool-cases, inl, inr,
}
use mathlib.Core.List.{append_assoc}

abbrev pub is_nil {ℓ} : {A : Type ℓ} → List A → Bool
is_nil [] = true
is_nil (x ∷ xs) = false

-- The parts between the slashes; `current` is the part that has begun.
unfoldable pub split : List ℕ → List ℕ → List (List ℕ)
split current [] = if is_nil current then [] else current ∷ []
split current (c ∷ text) =
    let rest = split [] text in
    let longer = split (current ++ c ∷ []) text in if c == 47 then current ∷ rest else longer

abbrev pub separator : Bool → List ℕ
separator true = 47 ∷ []
separator false = []

-- Each part, with a slash behind it where another part follows or the path is a folder's.
unfoldable pub join : Bool → List (List ℕ) → List ℕ
join folder [] = []
join folder (part ∷ parts) = part ++ (separator (folder || not (is_nil parts)) ++ join folder parts)

-- Whether the text ends with a slash, where `before` says whether one stands in front of it.
unfoldable pub ends_with_slash : Bool → List ℕ → Bool
ends_with_slash before [] = before
ends_with_slash before (c ∷ text) = ends_with_slash (c == 47) text

-- Where no part is left, the text was empty.
slash_behind :
    (text : List ℕ) (folder : Bool) (parts : List (List ℕ))
    → folder ≡ ends_with_slash true text
    → join folder parts ≡ text
    → separator (folder || not (is_nil parts)) ≡ 47 ∷ []
unfolding ends_with_slash join
slash_behind text true parts e j = refl
slash_behind text false (part ∷ parts) e j = refl
slash_behind [] false [] e j = cc
slash_behind (c ∷ text) false [] e j = cc

is_nil-append : (xs : List ℕ) (x : ℕ) → is_nil (xs ++ x ∷ []) ≡ false
is_nil-append [] x = refl
is_nil-append (y ∷ xs) x = refl

-- Joining what `split` gives returns the text.
pub join-split :
    (current text : List ℕ)
    → join (ends_with_slash (is_nil current) text) (split current text) ≡ current ++ text
unfolding join split ends_with_slash
join-split [] [] = refl
join-split (x ∷ current) [] = refl
join-split current (c ∷ text) = elim (Bool-cases (c == 47)) [
  | inl e ↦
      let rest = join-split [] text in
      let folder = ends_with_slash true text in
      let slash : c ≡ 47 = ground arith in
      let behind = slash_behind text folder (split [] text) refl rest in
      rw e (
        ap (λ sep. current ++ (sep ++ join folder (split [] text))) behind
        ∙ ap (λ t. current ++ 47 ∷ t) rest
        ∙ ap (λ x. current ++ x ∷ text) (sym slash))
  | inr e ↦
      let longer = join-split (current ++ c ∷ []) text in
      let some_char : is_nil (current ++ c ∷ []) ≡ false = is_nil-append current c in
      rw e (
        ap (λ b. join (ends_with_slash b text) (split (current ++ c ∷ []) text)) (sym some_char)
        ∙ longer
        ∙ append_assoc current (c ∷ []) text)
]
