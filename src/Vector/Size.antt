-- ===== src/Vector/Size.antt =====
-- The size of every vector that its operations build.
use avi_kernel.Base.{
  suc, ◌+◌, Bool, List, [], ◌∷◌, ◌≡◌, refl, sym, ◌∙◌, arith, >>=-eq-ok, ok-injective, ltb, ltb→lt,
  ok, length, length-append, take, drop, length-take, length-drop, ℤ, pos, negsuc, Bool-cases, inl,
  inr, ◌==◌,
}
use mathlib.Core.Path.{subst}
use avi_kernel.Vector.{
  Vector, append, remove, pop_back, append_vector, sort, empty_vector, empty, size, unlink_last,
  panic_if_illegal_index,
}
use avi_kernel.Vector.Laws.{IsCounted, append-IsCounted, remove_lem, append_vector_lem}
use avi_kernel.Vector.Sorting.{sort_from-length}

module _ {T : Type 0} where
  -- The vectors that a program can build by the public operations that return.
  pub data Built : Vector T → Type 0 where
    constructed : Built empty_vector
    appended : {v : Vector T} (x : T) → Built v → Built (append v x)
    removed : {v w : Vector T} (index : ℤ) → Built v → remove v index ≡ ok w → Built w
    popped : {v w : Vector T} → Built v → pop_back v ≡ ok w → Built w
    joined : {v other w : Vector T} → Built v → Built other → append_vector v other ≡ ok w → Built w
    sorted : {v : Vector T} (compare : T → T → Bool) → Built v → Built (sort compare v)

  remove-IsCounted :
      (v w : Vector T) (index : ℤ) → IsCounted v → remove v index ≡ ok w → IsCounted w
  unfolding remove panic_if_illegal_index
  remove-IsCounted v w (negsuc i) c e = cc
  remove-IsCounted v w (pos i) c e = elim (Bool-cases (ltb i (length v.nodes))) [
    | inl l ↦
        let there = sym (remove_lem v i c) ∙ e in
        let same = ok-injective (rw l at there) in
        subst IsCounted same (
          omega (
            arith,
            length-append (take i v.nodes) (drop (suc i) v.nodes),
            length-take i v.nodes,
            length-drop (suc i) v.nodes,
            ltb→lt i (length v.nodes) l,
          ))
    | inr l ↦ let there = sym (remove_lem v i c) ∙ e in cc (rw l at there)
  ]

  unlink_last-length : (xs ys : List T) → unlink_last xs ≡ ok ys → length xs ≡ length ys + 1
  unfolding unlink_last
  unlink_last-length [] ys e = cc
  unlink_last-length (x ∷ []) ys e = cc
  unlink_last-length (x ∷ y ∷ []) ys e =
      let same = ok-injective e in subst (λ l. 2 ≡ length l + 1) same refl
  unlink_last-length (x ∷ y ∷ z ∷ xs) ys e =
      let (rest, shorter, whole) = >>=-eq-ok (unlink_last (y ∷ z ∷ xs)) _ e in
      let same = ok-injective whole in
      subst (λ l. suc (suc (suc (length xs))) ≡ length l + 1) same
        (omega (arith, unlink_last-length (y ∷ z ∷ xs) rest shorter))

  pop_back-IsCounted : (v w : Vector T) → IsCounted v → pop_back v ≡ ok w → IsCounted w
  unfolding pop_back empty size empty_vector
  pop_back-IsCounted v w c e = elim (Bool-cases (v.vector_size == 0)) [
    | inl none_left ↦ cc (rw none_left at e)
    | inr some_left ↦ elim (Bool-cases (v.vector_size == 1)) [
      | inl one ↦ subst IsCounted (ok-injective (rw (some_left, one) at e)) refl
      | inr more ↦
          let (rest, shorter, whole) =
            >>=-eq-ok (unlink_last v.nodes) _ (rw (some_left, more) at e) in
          subst IsCounted (ok-injective whole)
            (omega (arith, unlink_last-length v.nodes rest shorter))
    ]
  ]

  -- Whatever operations built a vector, its size is the number of its nodes.
  pub Built-IsCounted : (v : Vector T) → Built v → IsCounted v
  unfolding empty_vector sort
  Built-IsCounted v constructed = refl
  Built-IsCounted v (appended {v = u} x b) = append-IsCounted u x (Built-IsCounted u b)
  Built-IsCounted v (removed {v = u} i b e) = remove-IsCounted u v i (Built-IsCounted u b) e
  Built-IsCounted v (popped {v = u} b e) = pop_back-IsCounted u v (Built-IsCounted u b) e
  Built-IsCounted v (joined {v = u} {other = o} b d e) =
      let size_u = Built-IsCounted u b in
      let size_o = Built-IsCounted o d in
      subst IsCounted (ok-injective (sym (append_vector_lem u o size_o) ∙ e))
        (omega (arith, length-append u.nodes o.nodes))
  Built-IsCounted v (sorted {v = u} compare b) =
      omega (arith, sort_from-length compare [] u.nodes, Built-IsCounted u b)
