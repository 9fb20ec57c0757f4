-- ===== src/Vfs/Table.antt =====
-- What the operations on descriptors do to the table.
use avi_kernel.Base.{
  ℕ, zero, suc, ◌+◌, ◌<◌, ◌≤◌, true, false, not, List, [], ◌∷◌, ◌≡◌, ◌≢◌, ◌⊎◌, refl, sym, ap, ◌∙◌,
  leb, if◌then◌else◌, none, some, faulted, ok, panic_if, or_fault, set, get_elem?, length,
  length-set, get_elem?-set_ne, ℤ, pos, negsuc, arith, Bool-cases, Option-cases, inl, inr,
  >>=-eq-ok, ok-injective,
}
use mathlib.Core.Path.{subst}
use avi_kernel.Vfs.{
  Vfs, FileDesc, find_unused, get_descriptor, put_descriptor, allocate_descriptor,
  is_legal_descriptor, free_descriptor, set_errno, close, ebadf,
}

-- The tables are as long, and agree but at this index.
abbrev pub OnlyAt : ℤ → List FileDesc → List FileDesc → Type 0
OnlyAt desct before after =
    (length after ≡ length before)
    × ((j : ℕ) → pos j ≢ desct → get_elem? after j ≡ get_elem? before j)

pub OnlyAt-refl : (desct : ℤ) (table : List FileDesc) → OnlyAt desct table table
OnlyAt-refl desct table = (refl, λ j ne. refl)

pub OnlyAt-trans :
    (desct : ℤ) (a b c : List FileDesc) → OnlyAt desct a b → OnlyAt desct b c → OnlyAt desct a c
OnlyAt-trans desct a b c s t = (t.0 ∙ s.0, λ j ne. t.1 j ne ∙ s.1 j ne)

pub set-OnlyAt :
    (table : List FileDesc) (i : ℕ) (d : FileDesc) → OnlyAt (pos i) table (set table i d)
set-OnlyAt table i d =
    (length-set table i d, λ j ne. get_elem?-set_ne table d (λ same. ne (ap pos (sym same))))

pub put_descriptor-OnlyAt :
    (table after : List FileDesc) (desct : ℤ) (d : FileDesc)
    → put_descriptor table desct d ≡ ok after
    → OnlyAt desct table after
unfolding put_descriptor
put_descriptor-OnlyAt table after (negsuc i) d e = cc
put_descriptor-OnlyAt table after (pos i) d e =
    let (old, there, written) = >>=-eq-ok (or_fault (get_elem? table i)) _ e in
    subst (OnlyAt (pos i) table) (ok-injective written) (set-OnlyAt table i d)

pub free_descriptor-OnlyAt :
    (table after : List FileDesc) (desct : ℤ)
    → free_descriptor table desct ≡ ok after
    → OnlyAt desct table after
unfolding free_descriptor
free_descriptor-OnlyAt table after desct e =
    let (d, there, rest) = >>=-eq-ok (get_descriptor table desct) _ e in
    let (done, used, written) = >>=-eq-ok (panic_if (not d.in_use)) _ rest in
    put_descriptor-OnlyAt table after desct (record d { in_use = false }) written

pub get_elem?_lt :
    (table : List FileDesc) (i : ℕ) (d : FileDesc) → get_elem? table i ≡ some d → i < length table
get_elem?_lt [] i d e = cc
get_elem?_lt (f ∷ table) zero d e = omega arith
get_elem?_lt (f ∷ table) (suc i) d e = omega (arith, get_elem?_lt table i d e)

get_elem?_ge : (table : List FileDesc) (i : ℕ) → get_elem? table i ≡ none → length table ≤ i
get_elem?_ge [] i e = omega arith
get_elem?_ge (f ∷ table) zero e = cc
get_elem?_ge (f ∷ table) (suc i) e = omega (arith, get_elem?_ge table i e)

-- Every descriptor below `n` is in use.
abbrev pub UsedBelow : List FileDesc → ℕ → Type 0
UsedBelow table n = (k : ℕ) (d : FileDesc) → k < n → get_elem? table k ≡ some d → d.in_use ≡ true

below_cons :
    (f : FileDesc) (table : List FileDesc) (n : ℕ)
    → f.in_use ≡ true
    → UsedBelow table n
    → UsedBelow (f ∷ table) (suc n)
below_cons f table n u below zero d lt e = let same : f ≡ d = cc in rw (← same) u
below_cons f table n u below (suc k) d lt e = below k d (omega arith) e

find_unused-some :
    (i : ℕ) (table : List FileDesc) (j : ℕ)
    → find_unused i table ≡ some j
    → (k : ℕ) × (j ≡ i + k)
      × (d : FileDesc) × (get_elem? table k ≡ some d)
      × (d.in_use ≡ false)
      × UsedBelow table k
unfolding find_unused
find_unused-some i [] j e = cc
find_unused-some i (d ∷ table) j e = elim (Bool-cases d.in_use) [
  | inl u ↦
      let (k, at, f, there, free, below) = find_unused-some (i + 1) table j (rw u at e) in
      (suc k, omega arith, f, there, free, below_cons d table k u below)
  | inr u ↦
      let same : i ≡ j = cc (rw u at e) in
      (0, omega arith, d, refl, u, λ k f lt at. absurd (omega arith))
]

find_unused-none :
    (i : ℕ) (table : List FileDesc) → find_unused i table ≡ none → UsedBelow table (length table)
unfolding find_unused
find_unused-none i [] e = λ k d lt there. absurd (omega arith)
find_unused-none i (f ∷ table) e = elim (Bool-cases f.in_use) [
  | inl u ↦ below_cons f table (length table) u (find_unused-none (i + 1) table (rw u at e))
  | inr u ↦ cc (rw u at e)
]

-- Either a descriptor is free, and then the first such one is given out and marked as in use; or all are
-- in use, and the store goes to the element with index -1, outside the table.
pub allocate_descriptor_lem :
    (table : List FileDesc)
    → ((i : ℕ) × (d : FileDesc) × (get_elem? table i ≡ some d)
        × (d.in_use ≡ false)
        × UsedBelow table i
        × (allocate_descriptor table ≡ ok (pos i, set table i (record d { in_use = true }))))
      ⊎ (UsedBelow table (length table) × (allocate_descriptor table ≡ faulted))
unfolding allocate_descriptor get_descriptor put_descriptor
allocate_descriptor_lem table = elim (Option-cases (find_unused 0 table)) [
  | inl e ↦ inr (find_unused-none 0 table e, rw e refl)
  | inr (j, e) ↦
      let (k, at, d, there, free, below) = find_unused-some 0 table j e in
      let same : j ≡ k = omega arith in inl (k, d, there, free, below, rw (e, same, there) refl)
]

-- Closing a descriptor of a table of 200: one in use is free behind it, the others stay; one that is not
-- in use and a number of 200 or more are an error; a negative number reads outside the table.
pub close_lem :
    {W : Type 0} (v : Vfs W) (fildes : ℤ)
    → length v.file_descriptors ≡ 200
    → close fildes v ≡ elim fildes [
      | negsuc i ↦ faulted
      | pos i ↦ elim (get_elem? v.file_descriptors i) [
        | none ↦ ok (negsuc 0, record v { errno = ebadf })
        | some d ↦
            if d.in_use
            then ok (
              pos 0,
              record v {
                file_descriptors = set v.file_descriptors i (record d { in_use = false });
              },
            )
            else ok (negsuc 0, record v { errno = ebadf })
      ]
    ]
unfolding close is_legal_descriptor free_descriptor set_errno get_descriptor put_descriptor
close_lem v (negsuc i) e = refl
close_lem v (pos i) e = elim (Option-cases (get_elem? v.file_descriptors i)) [
  | inl none_there ↦
      let le = get_elem?_ge v.file_descriptors i none_there in
      let beyond : leb 200 i ≡ true = ground arith in rw (beyond, none_there) refl
  | inr (d, there) ↦
      let lt = get_elem?_lt v.file_descriptors i d there in
      let inside : leb 200 i ≡ false = ground arith in
      elim (Bool-cases d.in_use) [
        | inl u ↦ rw (inside, there, u) refl
        | inr u ↦ rw (inside, there, u) refl
      ]
]
