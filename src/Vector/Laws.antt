-- ===== src/Vector/Laws.antt =====
-- What the accessors of a vector return when its size is the number of its nodes.
use avi_kernel.Base.{
  ℕ, zero, suc, ◌+◌, ◌-◌, ◌≤◌, ◌<◌, true, false, List, [], ◌∷◌, ◌++◌, ◌≡◌, refl, sym, ap, ◌∙◌,
  arith, ◌==◌, ltb, if◌then◌else◌, none, some, panicked, ok, ◌>>=◌, panic_if, or_fault, or_panic,
  get_elem?, take, drop, length, length-append, pos, Bool-cases, inl, inr,
}
use mathlib.Core.List.{append_assoc, append-nil}
use avi_kernel.Vector.{
  Vector, get, get_node, data_of, follow, panic_if_illegal_index, remove, unlink, unlink_after,
  link_last, append, append_from, append_vector, empty_vector, unlink_last, pop_back, size, empty,
}

in_range : (n i : ℕ) → i < n → panic_if (ltb n (i + 1)) ≡ ok tt
in_range n i lt = ground arith

out_of_range : (n i : ℕ) → n ≤ i → panic_if (ltb n (i + 1)) ≡ panicked
out_of_range n i le = ground arith

module _ {T : Type 0} where
  -- The member `vector_size` is the number of nodes.
  abbrev pub IsCounted : Vector T → Type 0
  IsCounted v = v.vector_size ≡ length v.nodes

  pub follow-data_of :
      (i : ℕ) (nodes : List T) → (follow i nodes >>= data_of) ≡ or_fault (get_elem? nodes i)
  unfolding follow data_of
  follow-data_of zero [] = refl
  follow-data_of zero (x ∷ nodes) = refl
  follow-data_of (suc i) [] = refl
  follow-data_of (suc i) (x ∷ nodes) = follow-data_of i nodes

  pub get_elem?-some : (i : ℕ) (xs : List T) → i < length xs → (x : T) × (get_elem? xs i ≡ some x)
  get_elem?-some i [] lt = absurd (omega arith)
  get_elem?-some zero (x ∷ xs) lt = (x, refl)
  get_elem?-some (suc i) (x ∷ xs) lt = get_elem?-some i xs (omega arith)

  pub get_elem?-none : (i : ℕ) (xs : List T) → length xs ≤ i → get_elem? xs i ≡ none
  get_elem?-none i [] le = refl
  get_elem?-none zero (x ∷ xs) le = absurd (omega arith)
  get_elem?-none (suc i) (x ∷ xs) le = get_elem?-none i xs (omega arith)

  -- A vector whose size is the number of its nodes gives the element at an index, and panics at an
  -- index that has none.
  pub get_lem :
      (v : Vector T) (i : ℕ) → IsCounted v → get v (pos i) ≡ or_panic (get_elem? v.nodes i)
  unfolding get get_node panic_if_illegal_index
  get_lem v i c = elim (Bool-cases (ltb i (length v.nodes))) [
    | inl e ↦
        let lt : i < length v.nodes = ground arith in
        let (x, found) = get_elem?-some i v.nodes lt in
        rw (in_range v.vector_size i (omega arith)) (follow-data_of i v.nodes ∙ rw found refl)
    | inr e ↦
        let le : length v.nodes ≤ i = ground arith in
        rw (out_of_range v.vector_size i (omega arith), get_elem?-none i v.nodes le) refl
  ]

  unlink_after-take-drop :
      (i : ℕ) (xs : List T)
      → suc i < length xs
      → unlink_after i xs ≡ ok (take (suc i) xs ++ drop (suc (suc i)) xs)
  unfolding unlink_after
  unlink_after-take-drop i [] lt = absurd (omega arith)
  unlink_after-take-drop zero (x ∷ []) lt = absurd (omega arith)
  unlink_after-take-drop zero (x ∷ y ∷ xs) lt = refl
  unlink_after-take-drop (suc i) (x ∷ xs) lt = rw (unlink_after-take-drop i xs (omega arith)) refl

  unlink-take-drop :
      (i : ℕ) (xs : List T) → i < length xs → unlink i xs ≡ ok (take i xs ++ drop (suc i) xs)
  unfolding unlink
  unlink-take-drop i [] lt = absurd (omega arith)
  unlink-take-drop zero (x ∷ xs) lt = refl
  unlink-take-drop (suc i) (x ∷ xs) lt = unlink_after-take-drop i (x ∷ xs) lt

  -- `remove` at an index of a vector whose size is the number of its nodes takes the element at the
  -- index out and keeps the others in their order; it panics at an index beyond the end.
  pub remove_lem :
      (v : Vector T) (i : ℕ)
      → IsCounted v
      → remove v (pos i) ≡ (
          if ltb i (length v.nodes)
          then ok (record {
            nodes = take i v.nodes ++ drop (suc i) v.nodes;
            vector_size = v.vector_size - 1;
          })
          else panicked)
  unfolding remove panic_if_illegal_index
  remove_lem v i c = elim (Bool-cases (ltb i (length v.nodes))) [
    | inl e ↦
        let lt : i < length v.nodes = ground arith in
        rw (in_range v.vector_size i (omega arith), e, unlink-take-drop i v.nodes lt) refl
    | inr e ↦
        let le : length v.nodes ≤ i = ground arith in
        rw (out_of_range v.vector_size i (omega arith), e) refl
  ]

  pub link_last-append : (xs : List T) (x : T) → link_last xs x ≡ xs ++ x ∷ []
  unfolding link_last
  link_last-append [] x = refl
  link_last-append (y ∷ xs) x = ap (λ ys. y ∷ ys) (link_last-append xs x)

  pub append-IsCounted : (v : Vector T) (x : T) → IsCounted v → IsCounted (append v x)
  unfolding append
  append-IsCounted v x c =
      rw (link_last-append v.nodes x) (omega (arith, length-append v.nodes (x ∷ [])))

  pub drop_cons :
      (i : ℕ) (xs : List T) (x : T) → get_elem? xs i ≡ some x → drop i xs ≡ x ∷ drop (suc i) xs
  drop_cons i [] x e = cc
  drop_cons zero (y ∷ xs) x e = cc
  drop_cons (suc i) (y ∷ xs) x e = drop_cons i xs x e

  pub drop_all : (i : ℕ) (xs : List T) → length xs ≤ i → drop i xs ≡ []
  drop_all zero [] le = refl
  drop_all zero (x ∷ xs) le = absurd (omega arith)
  drop_all (suc i) [] le = refl
  drop_all (suc i) (x ∷ xs) le = drop_all i xs (omega arith)

  append_from-drop :
      (rounds i : ℕ) (v other : Vector T)
      → IsCounted other
      → i + rounds ≡ length other.nodes
      → append_from rounds i other v
        ≡ ok
            (record { nodes = v.nodes ++ drop i other.nodes; vector_size = v.vector_size + rounds })
  unfolding append_from append
  append_from-drop zero i v other d e =
      let nil = drop_all i other.nodes (omega arith) in
      let same : v.nodes ++ drop i other.nodes ≡ v.nodes = rw nil (append-nil v.nodes) in
      let count : v.vector_size ≡ v.vector_size + 0 = omega arith in
      λ j. ok (record { nodes = sym same j; vector_size = count j })
  append_from-drop (suc rounds) i v other d e =
      let (x, found) = get_elem?-some i other.nodes (omega arith) in
      let w = append v x in
      let same : w.nodes ++ drop (i + 1) other.nodes ≡ v.nodes ++ drop i other.nodes =
        let next : i + 1 ≡ suc i = omega arith in
        rw (drop_cons i other.nodes x found, link_last-append v.nodes x, next)
          (append_assoc v.nodes (x ∷ []) (drop (suc i) other.nodes)) in
      let count : w.vector_size + rounds ≡ v.vector_size + suc rounds = omega arith in
      let read : get other (pos i) ≡ ok x = get_lem other i d ∙ rw found refl in
      ap (λ r. r >>= λ element. append_from rounds (i + 1) other (append v element)) read
      ∙ append_from-drop rounds (i + 1) w other d (omega arith)
      ∙ λ j. ok (record { nodes = same j; vector_size = count j })

  -- Appending a vector whose size is the number of its nodes puts its elements behind the others, in
  -- their order.
  pub append_vector_lem :
      (v other : Vector T)
      → IsCounted other
      → append_vector v other
        ≡ ok (record {
          nodes = v.nodes ++ other.nodes;
          vector_size = v.vector_size + other.vector_size;
        })
  unfolding append_vector size
  append_vector_lem v other d = append_from-drop other.vector_size 0 v other d (omega arith)

  unlink_last-append : (x : T) (xs : List T) (y : T) → unlink_last (x ∷ xs ++ y ∷ []) ≡ ok (x ∷ xs)
  unfolding unlink_last
  unlink_last-append x [] y = refl
  unlink_last-append x (z ∷ []) y = refl
  unlink_last-append x (z ∷ w ∷ xs) y = rw (unlink_last-append z (w ∷ xs) y) refl

  popped :
      (nodes : List T) (n : ℕ) (x : T)
      → n ≡ length nodes
      → pop_back (append (record { nodes = nodes; vector_size = n }) x)
        ≡ ok (record { nodes = nodes; vector_size = n })
  unfolding pop_back append empty size empty_vector link_last
  popped [] n x c =
      let some_left : (n + 1 == 0) ≡ false = ground arith in
      let one : (n + 1 == 1) ≡ true = ground arith in
      rw (some_left, one) (λ j. ok (record { nodes = []; vector_size = sym c j }))
  popped (y ∷ ys) n x c =
      let some_left : (n + 1 == 0) ≡ false = ground arith in
      let more : (n + 1 == 1) ≡ false = ground arith in
      let count : n + 1 - 1 ≡ n = omega arith in
      rw (some_left, more, link_last-append ys x, unlink_last-append y ys x)
        (λ j. ok (record { nodes = y ∷ ys; vector_size = count j }))

  -- `pop_back` takes back what `append` did to a vector whose size is the number of its nodes.
  pub pop_back-append : (v : Vector T) (x : T) → IsCounted v → pop_back (append v x) ≡ ok v
  pop_back-append v x c = popped v.nodes v.vector_size x c
