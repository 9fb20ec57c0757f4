-- ===== src/CString/Laws.antt =====
-- The C functions on the texts that their arguments hold.
use avi_kernel.Base.{
  ℕ, zero, suc, ◌+◌, ◌-◌, ◌<◌, ◌≤◌, List, [], ◌∷◌, ◌++◌, ◌≡◌, ◌≢◌, refl, sym, ap, ◌∙◌, arith, ◌==◌,
  true, false, Result, ok, take, drop, length, length-append, ℤ, pos, difference, Bool-cases, inl,
  inr, ◌↔◌, leb, leb→le, length-drop, length-take, replicate, u8,
}
use avi_kernel.CString.{memset, pad, strncpy, strcmp, strlen, strcpy, strcat}

-- The bytes of the text stand first, none of them is zero, and a zero stands behind them.
abbrev pub Holds : List ℕ → List ℕ → Type 0
Holds [] text = ⊥
Holds (b ∷ bytes) [] = b ≡ 0
Holds (b ∷ bytes) (c ∷ text) = (b ≡ c) × (c ≢ 0) × Holds bytes text

pub Holds-lt : (bytes text : List ℕ) → Holds bytes text → length text < length bytes
Holds-lt [] text h = absurd h
Holds-lt (b ∷ bytes) [] h = omega arith
Holds-lt (b ∷ bytes) (c ∷ text) h = omega (arith, Holds-lt bytes text h.2)

pub strlen-Holds : (bytes text : List ℕ) → Holds bytes text → strlen bytes ≡ ok (length text)
unfolding strlen
strlen-Holds [] text h = absurd h
strlen-Holds (b ∷ bytes) [] h = let yes : (b == 0) ≡ true = ground arith in rw yes refl
strlen-Holds (b ∷ bytes) (c ∷ text) h =
    let no : (b == 0) ≡ false = ground (arith, h.0, h.1) in
    rw (no, strlen-Holds bytes text h.2) refl

-- What a write into a buffer leaves there.
abbrev pub Writes : Result (List ℕ) → ℕ → List ℕ → Type 0
Writes r n text = (bytes : List ℕ) × (r ≡ ok bytes) × Holds bytes text × (length bytes ≡ n)

pub strcpy-Writes :
    (dest src text : List ℕ)
    → Holds src text
    → length text < length dest
    → Writes (strcpy dest src) (length dest) text
unfolding strcpy
strcpy-Writes dest [] text h lt = absurd h
strcpy-Writes [] (c ∷ src) text h lt = absurd (omega arith)
strcpy-Writes (d ∷ dest) (c ∷ src) [] h lt =
    let yes : (c == 0) ≡ true = ground arith in (c ∷ dest, rw yes refl, h, refl)
strcpy-Writes (d ∷ dest) (c ∷ src) (t ∷ text) h lt =
    let no : (c == 0) ≡ false = ground (arith, h.0, h.1) in
    let (bytes, done, holds, count) = strcpy-Writes dest src text h.2 (omega arith) in
    (c ∷ bytes, rw (no, done) refl, (h.0, h.1, holds), ap suc count)

Holds-append :
    (dest text bytes more : List ℕ)
    → Holds dest text
    → Holds bytes more
    → Holds (take (length text) dest ++ bytes) (text ++ more)
Holds-append [] text bytes more h g = absurd h
Holds-append (b ∷ dest) [] bytes more h g = g
Holds-append (b ∷ dest) (c ∷ text) bytes more h g =
    (h.0, h.1, Holds-append dest text bytes more h.2 g)

module _ (dest text src more : List ℕ) (h : Holds dest text) (g : Holds src more) where
  pub strcat-Writes :
      length text + length more < length dest
      → Writes (strcat dest src) (length dest) (text ++ more)
  unfolding strcat
  strcat-Writes lt =
      let rest = drop (length text) dest in
      let room : length rest ≡ length dest - length text = length-drop (length text) dest in
      let (bytes, done, holds, count) = strcpy-Writes rest src more g (omega arith) in
      let kept = length-take (length text) dest in
      let whole = length-append (take (length text) dest) bytes in
      (
        take (length text) dest ++ bytes,
        rw (strlen-Holds dest text h, done) refl,
        Holds-append dest text bytes more h holds,
        omega arith,
      )

difference-zero : (a b : ℕ) → (difference a b ≡ pos 0) ↔ (a ≡ b)
difference-zero a b = elim (Bool-cases (leb b a)) [
  | inl e ↦
      let le : b ≤ a = leb→le b a e in
      rw e (λ h. (let z : a - b ≡ 0 = cc in omega arith), λ h. ap pos (omega arith))
  | inr e ↦ rw e (λ h. cc, λ h. ground arith)
]

-- Comparing two strings gives 0 exactly when they hold the same text.
pub strcmp_lem :
    (s1 s2 text text' : List ℕ)
    → Holds s1 text
    → Holds s2 text'
    → (d : ℤ) × (strcmp s1 s2 ≡ ok d) × ((d ≡ pos 0) ↔ (text ≡ text'))
unfolding strcmp
strcmp_lem [] s2 text text' h g = absurd h
strcmp_lem (a ∷ s1) [] text text' h g = absurd g
strcmp_lem (a ∷ s1) (b ∷ s2) [] [] h g =
    let yes : (a == 0) ≡ true = ground arith in
    (difference a b, rw yes refl, (λ e. refl, λ e. (difference-zero a b).1 (omega arith)))
strcmp_lem (a ∷ s1) (b ∷ s2) [] (c ∷ text') h g =
    let yes : (a == 0) ≡ true = ground arith in
    (
      difference a b,
      rw yes refl,
      (λ e. let same = (difference-zero a b).0 e in absurd (omega (arith, g.0, g.1)), λ e. cc),
    )
strcmp_lem (a ∷ s1) (b ∷ s2) (c ∷ text) [] h g =
    let no : (a == 0) ≡ false = ground (arith, h.0, h.1) in
    let apart : (a == b) ≡ false = ground (arith, h.0, h.1) in
    (
      difference a b,
      rw (no, apart) refl,
      (λ e. let same = (difference-zero a b).0 e in absurd (omega (arith, h.0, h.1)), λ e. cc),
    )
strcmp_lem (a ∷ s1) (b ∷ s2) (c ∷ text) (c' ∷ text') h g =
    let no : (a == 0) ≡ false = ground (arith, h.0, h.1) in
    elim (Bool-cases (a == b)) [
      | inl e ↦
          let (d, done, zero_iff) = strcmp_lem s1 s2 text text' h.2 g.2 in
          let first : c ≡ c' = ground (arith, h.0, g.0) in
          (d, rw (no, e) done, (λ z. λ i. first i ∷ zero_iff.0 z i, λ same. zero_iff.1 (cc same)))
      | inr e ↦
          let apart : a ≢ b = λ same. ground arith in
          (
            difference a b,
            rw (no, e) refl,
            (
              λ z. absurd (apart ((difference-zero a b).0 z)),
              λ same. let first : c ≡ c' = cc in absurd (apart (h.0 ∙ first ∙ sym g.0)),
            ),
          )
    ]

pub memset_lem :
    (s : List ℕ) (c n : ℕ) → n ≤ length s → memset s c n ≡ ok (replicate n (u8 c) ++ drop n s)
unfolding memset
memset_lem s c zero le = refl
memset_lem [] c (suc n) le = absurd (omega arith)
memset_lem (b ∷ s) c (suc n) le = rw (memset_lem s c n (omega arith)) refl

pad_lem : (s : List ℕ) (n : ℕ) → n ≤ length s → pad s n ≡ ok (replicate n 0 ++ drop n s)
unfolding pad
pad_lem s zero le = refl
pad_lem [] (suc n) le = absurd (omega arith)
pad_lem (b ∷ s) (suc n) le = rw (pad_lem s n (omega arith)) refl

-- Copying `n` bytes at most, into a buffer that has as many, of a string that holds a text: the text
-- stands first, cut at `n`, zeros fill up to `n`, and the bytes behind them stay.
pub strncpy_lem :
    (dest src text : List ℕ) (n : ℕ)
    → Holds src text
    → n ≤ length dest
    → strncpy dest src n ≡ ok (take n text ++ (replicate (n - length text) 0 ++ drop n dest))
unfolding strncpy
strncpy_lem dest src text zero h le =
    let none_left : 0 - length text ≡ 0 = omega arith in rw none_left refl
strncpy_lem dest [] text (suc n) h le = absurd h
strncpy_lem [] (c ∷ src) text (suc n) h le = absurd (omega arith)
strncpy_lem (d ∷ dest) (c ∷ src) [] (suc n) h le =
    let yes : (c == 0) ≡ true = ground arith in
    let whole : suc n - 0 ≡ suc n = omega arith in rw (yes, whole) (pad_lem (d ∷ dest) (suc n) le)
strncpy_lem (d ∷ dest) (c ∷ src) (t ∷ text) (suc n) h le =
    let no : (c == 0) ≡ false = ground (arith, h.0, h.1) in
    let left : suc n - suc (length text) ≡ n - length text = omega arith in
    rw (no, strncpy_lem dest src text n h.2 (omega arith), left, h.0) refl
