-- ===== src/Heap/Links.antt =====
-- What the pointers of the holes' list stand for: a list of addresses in ascending order.
use avi_kernel.Base.{
  ℕ, ◌+◌, ◌≤◌, ◌<◌, ◌⊎◌, inl, inr, List, [], ◌∷◌, ◌++◌, ◌≡◌, refl, sym, ap, ◌∙◌, arith,
}
use avi_kernel.Heap.State.{Store, Heap, next_at, prev_at}

-- From `node`, with `before` behind its back, the pointers lead through `xs` to `after`, and the
-- last address passed is `last`. The addresses ascend, above `before`.
abbrev pub Segment : Store → (before node : ℕ) → List ℕ → (last after : ℕ) → Type 0
Segment s before node [] last after = (last ≡ before) × (after ≡ node)
Segment s before node (x ∷ xs) last after =
    (node ≡ x)
    × (before + 12 ≤ x)
    × (prev_at s x ≡ before)
    × Segment s x (next_at s x) xs last after

-- The whole list.
abbrev pub Holes : Heap → List ℕ → Type 0
Holes h xs = Segment h.store 0 h.head xs h.tail 0

pub Segment-le :
    (s : Store) (before node : ℕ) (xs : List ℕ) (last after : ℕ)
    → Segment s before node xs last after
    → before ≤ last
Segment-le s before node [] last after g = omega arith
Segment-le s before node (x ∷ xs) last after g =
    omega (arith, Segment-le s x (next_at s x) xs last after g.3)

-- A change of the store that spares the segment's own headers.
pub Segment-frame :
    (s t : Store) (before node : ℕ) (xs : List ℕ) (last after : ℕ)
    → ((a : ℕ) → before + 12 ≤ a → a ≤ last → prev_at t a ≡ prev_at s a)
    → ((a : ℕ) → before + 12 ≤ a → a ≤ last → next_at t a ≡ next_at s a)
    → Segment s before node xs last after
    → Segment t before node xs last after
Segment-frame s t before node [] last after p n g = g
Segment-frame s t before node (x ∷ xs) last after p n g =
    let le = Segment-le s x (next_at s x) xs last after g.3 in
    (
      g.0,
      g.1,
      p x (omega (arith, g.1)) le ∙ g.2,
      rw (n x (omega (arith, g.1)) le) (
          Segment-frame s t x (next_at s x) xs last after (λ a lo hi. p a (omega arith) hi)
            (λ a lo hi. n a (omega arith) hi) g.3),
    )

-- The last header of a segment is linked to another node.
pub Segment-relink :
    (s t : Store) (before node : ℕ) (xs : List ℕ) (last after after' : ℕ)
    → ((a : ℕ) → before + 12 ≤ a → (a ≡ last) ⊎ (a + 12 ≤ last) → prev_at t a ≡ prev_at s a)
    → ((a : ℕ) → before + 12 ≤ a → a + 12 ≤ last → next_at t a ≡ next_at s a)
    → next_at t last ≡ after'
    → before < last
    → Segment s before node xs last after
    → Segment t before node xs last after'
Segment-relink s t before node [] last after after' p n e lt g = absurd (omega arith)
Segment-relink s t before node (x ∷ []) last after after' p n e lt g =
    let at : last ≡ x = g.3.0 in
    (g.0, g.1, p x (omega (arith, g.1)) (inl (omega arith)) ∙ g.2, (at, sym e ∙ ap (next_at t) at))
Segment-relink s t before node (x ∷ y ∷ xs) last after after' p n e lt g =
    let le = Segment-le s y (next_at s y) xs last after g.3.3 in
    (
      g.0,
      g.1,
      p x (omega (arith, g.1)) (inr (omega (arith, g.3.1))) ∙ g.2,
      rw (n x (omega (arith, g.1)) (omega (arith, g.3.1))) (
          Segment-relink s t x (next_at s x) (y ∷ xs) last after after'
            (λ a lo hi. p a (omega arith) hi) (λ a lo hi. n a (omega arith) hi) e (omega arith)
            g.3),
    )

-- Two segments one behind the other.
pub Segment-append :
    (s : Store) (before node : ℕ) (xs ys : List ℕ) (last after last' after' : ℕ)
    → Segment s before node xs last after
    → Segment s last after ys last' after'
    → Segment s before node (xs ++ ys) last' after'
Segment-append s before node [] ys last after last' after' g g' =
    let a : last ≡ before = g.0 in let b : after ≡ node = g.1 in rw (← a, ← b) g'
Segment-append s before node (x ∷ xs) ys last after last' after' g g' =
    (g.0, g.1, g.2, Segment-append s x (next_at s x) xs ys last after last' after' g.3 g')

-- A segment in two parts.
pub Segment-split :
    (s : Store) (before node : ℕ) (xs ys : List ℕ) (last after : ℕ)
    → Segment s before node (xs ++ ys) last after
    → (mid mid_node : ℕ) × Segment s before node xs mid mid_node
      × Segment s mid mid_node ys last after
Segment-split s before node [] ys last after g = (before, node, (refl, refl), g)
Segment-split s before node (x ∷ xs) ys last after g =
    let (mid, mid_node, front, back) = Segment-split s x (next_at s x) xs ys last after g.3 in
    (mid, mid_node, (g.0, g.1, g.2, front), back)

pub Segment-lt :
    (s : Store) (before node x : ℕ) (xs : List ℕ) (last after : ℕ)
    → Segment s before node (x ∷ xs) last after
    → (before < last) × (node ≤ last) × (0 < node)
Segment-lt s before node x xs last after g =
    omega (arith, Segment-le s x (next_at s x) xs last after g.3)

-- The first header of a segment gets another predecessor.
pub Segment-rehead :
    (s t : Store) (before before' node y : ℕ) (ys : List ℕ) (last after : ℕ)
    → ((a : ℕ) → y + 12 ≤ a → prev_at t a ≡ prev_at s a)
    → ((a : ℕ) → (a ≡ y) ⊎ (y + 12 ≤ a) → next_at t a ≡ next_at s a)
    → prev_at t y ≡ before'
    → before' + 12 ≤ y
    → Segment s before node (y ∷ ys) last after
    → Segment t before' node (y ∷ ys) last after
Segment-rehead s t before before' node y ys last after p n e lt g = (
  g.0,
  lt,
  e,
  rw (n y (inl refl)) (
      Segment-frame s t y (next_at s y) ys last after (λ a lo hi. p a lo) (λ a lo hi. n a (inr lo))
        g.3),
)
