-- ===== src/CString.antt =====
-- src/libc/cstring.cpp: the C functions on memory and on strings that end with a zero.
--
-- A pointer is the list of the bytes from it to the end of its allocation; a function that writes
-- returns the bytes behind it.
use avi_kernel.Base.{
  ℕ, zero, suc, List, [], ◌∷◌, ◌++◌, ◌==◌, if◌then◌else◌, u8, Result, faulted, ok, ◌>>=◌, take,
  drop, ℤ, difference,
}
pub mod Laws

unfoldable pub memset : List ℕ → ℕ → ℕ → Result (List ℕ)
memset s c zero = ok s
memset [] c (suc n) = faulted
memset (b ∷ s) c (suc n) = memset s c n >>= λ rest. ok (u8 c ∷ rest)

-- *s1 - *s2, where the walk along both strings ends.
unfoldable pub strcmp : List ℕ → List ℕ → Result ℤ
strcmp [] s2 = faulted
strcmp (a ∷ s1) [] = faulted
strcmp (a ∷ s1) (b ∷ s2) =
    let rest = strcmp s1 s2 in
    if a == 0 then ok (difference a b) else if a == b then rest else ok (difference a b)

unfoldable pub strlen : List ℕ → Result ℕ
strlen [] = faulted
strlen (c ∷ str) = let rest = strlen str in if c == 0 then ok 0 else rest >>= λ n. ok (suc n)

unfoldable pub strcpy : List ℕ → List ℕ → Result (List ℕ)
strcpy dest [] = faulted
strcpy [] (c ∷ src) = faulted
strcpy (d ∷ dest) (c ∷ src) =
    let rest = strcpy dest src in
    if c == 0 then ok (c ∷ dest) else rest >>= λ written. ok (c ∷ written)

-- The second loop of `strncpy`, over the bytes that are left.
unfoldable pub pad : List ℕ → ℕ → Result (List ℕ)
pad dest zero = ok dest
pad [] (suc n) = faulted
pad (d ∷ dest) (suc n) = pad dest n >>= λ written. ok (0 ∷ written)

unfoldable pub strncpy : List ℕ → List ℕ → ℕ → Result (List ℕ)
unfolding pad
strncpy dest src zero = ok dest
strncpy dest [] (suc n) = faulted
strncpy [] (c ∷ src) (suc n) = faulted
strncpy (d ∷ dest) (c ∷ src) (suc n) =
    let rest = strncpy dest src n in
    if c == 0 then pad (d ∷ dest) (suc n) else rest >>= λ written. ok (c ∷ written)

unfoldable pub strcat : List ℕ → List ℕ → Result (List ℕ)
unfolding strlen strcpy
strcat dest src = do
  n ← strlen dest
  written ← strcpy (drop n dest) src
  ok (take n dest ++ written)
