-- ===== src/Vector/Sorting.antt =====
-- `Vector::sort` puts the elements in order.
use avi_kernel.Base.{
  suc, ◌+◌, length, arith, Bool, true, false, List, [], ◌∷◌, ◌++◌, ◌≡◌, refl, inl, inr, Bool-cases,
}
use mathlib.Core.List.{Perm, perm_middle, append-nil}
use mathlib.Core.List.Perm
use mathlib.Core.Path.{subst}
use avi_kernel.Vector.{Vector, place_node, sort_from, sort}

module _ {T : Type 0} (compare : T → T → Bool) where
  -- No element compares greater than the one behind it.
  abbrev pub IsAscending : List T → Type 0
  IsAscending [] = Unit {0}
  IsAscending (x ∷ []) = Unit {0}
  IsAscending (x ∷ y ∷ xs) = (compare x y ≡ false) × IsAscending (y ∷ xs)

  place_node-perm : (x : T) (xs : List T) → Perm (place_node compare x xs) (x ∷ xs)
  unfolding place_node
  place_node-perm x [] = Perm.refl (x ∷ [])
  place_node-perm x (y ∷ xs) = elim (Bool-cases (compare y x)) [
    | inl e ↦ rw e (Perm.refl (x ∷ y ∷ xs))
    | inr e ↦ rw e (Perm.trans (Perm.cons y (place_node-perm x xs)) (Perm.swap x y xs))
  ]

  sort_from-perm : (area xs : List T) → Perm (sort_from compare area xs) (xs ++ area)
  unfolding sort_from
  sort_from-perm area [] = Perm.refl area
  sort_from-perm area (x ∷ xs) =
      Perm.trans (sort_from-perm (place_node compare x area) xs)
        (Perm.trans (Perm.append_left xs (place_node-perm x area)) (perm_middle xs area))

  module _ (asym : (x y : T) → compare x y ≡ true → compare y x ≡ false) where
    place_node-IsAscending :
        (x : T) (xs : List T) → IsAscending xs → IsAscending (place_node compare x xs)
    unfolding place_node
    place_node-IsAscending x [] s = tt
    place_node-IsAscending x (y ∷ []) s = elim (Bool-cases (compare y x)) [
      | inl e ↦ rw e (asym y x e, tt)
      | inr e ↦ rw e (e, tt)
    ]
    place_node-IsAscending x (y ∷ z ∷ xs) s = elim (Bool-cases (compare y x)) [
      | inl e ↦ rw e (asym y x e, s)
      | inr e ↦
          let rest = place_node-IsAscending x (z ∷ xs) s.1 in
          elim (Bool-cases (compare z x)) [
            | inl f ↦ rw (e, f) (e, (asym z x f, s.1))
            | inr f ↦ rw (e, f) (s.0, rw f at rest)
          ]
    ]

    sort_from-IsAscending :
        (area xs : List T) → IsAscending area → IsAscending (sort_from compare area xs)
    unfolding sort_from
    sort_from-IsAscending area [] s = s
    sort_from-IsAscending area (x ∷ xs) s =
        sort_from-IsAscending (place_node compare x area) xs (place_node-IsAscending x area s)

  -- For a comparison that does not hold in both directions at once: sorting keeps the elements and
  -- their number, and behind it no element compares greater than the next one.
  pub sort_lem :
      (v : Vector T)
      → ((x y : T) → compare x y ≡ true → compare y x ≡ false)
      → Perm (sort compare v).nodes v.nodes
        × IsAscending (sort compare v).nodes
        × ((sort compare v).vector_size ≡ v.vector_size)
  unfolding sort
  sort_lem v asym = (
    subst (λ ys. Perm (sort_from compare [] v.nodes) ys) (append-nil v.nodes)
        (sort_from-perm [] v.nodes),
    sort_from-IsAscending asym [] v.nodes tt,
    refl,
  )

module _ {T : Type 0} (compare : T → T → Bool) where
  place_node-length : (x : T) (xs : List T) → length (place_node compare x xs) ≡ suc (length xs)
  unfolding place_node
  place_node-length x [] = refl
  place_node-length x (y ∷ xs) = ground (arith, place_node-length x xs)

  pub sort_from-length :
      (area xs : List T) → length (sort_from compare area xs) ≡ length area + length xs
  unfolding sort_from
  sort_from-length area [] = omega arith
  sort_from-length area (x ∷ xs) =
      omega (arith, sort_from-length (place_node compare x area) xs, place_node-length x area)
