-- ===== src/Heap/Remove.antt =====
-- `Heap::remove_from_holes_list` takes one hole out of the list.
use avi_kernel.Base.{
  ℕ, ◌+◌, ◌≤◌, ◌^◌, List, [], ◌∷◌, ◌++◌, ◌≡◌, refl, sym, ap, ◌∙◌, arith, ◌==◌, true,
}
use mathlib.Core.Path.{subst}
use mathlib.Core.List.{append-nil}
use avi_kernel.Heap.State.{Heap, next_at, prev_at, set_next, set_prev, stored, spared}
use avi_kernel.Heap.Holes.{remove_from_holes_list, drop_first, drop_last, drop_middle}
use avi_kernel.Heap.Links.{
  Segment, Holes, Segment-lt, Segment-relink, Segment-rehead, Segment-append, Segment-split,
}

-- The parts of a list around a hole, with the pointers between them.
pub record Around (h : Heap) (front : List ℕ) (hole : ℕ) (back : List ℕ) : Type 0 where
  pub before : ℕ
  pub front_part : Segment h.store 0 h.head front before hole
  pub above : before + 12 ≤ hole
  pub prev_is : prev_at h.store hole ≡ before
  pub back_part : Segment h.store hole (next_at h.store hole) back h.tail 0

pub Holes-Around :
    (h : Heap) (front : List ℕ) (hole : ℕ) (back : List ℕ)
    → Holes h (front ++ hole ∷ back)
    → Around h front hole back
Holes-Around h front hole back g =
    let (before, node, f, b) = Segment-split h.store 0 h.head front (hole ∷ back) h.tail 0 g in
    record {
      before = before;
      front_part = rw (← b.0) f;
      above = b.1;
      prev_is = b.2;
      back_part = b.3;
    }

module _ (h : Heap) (hole : ℕ) where
  remove_only : Around h [] hole [] → Holes (remove_from_holes_list hole h) []
  unfolding remove_from_holes_list
  remove_only a =
      let p : (prev_at h.store hole == 0) ≡ true = ground (arith, a.prev_is, a.front_part.0) in
      let n : (next_at h.store hole == 0) ≡ true = ground (arith, a.back_part.1) in
      rw (p, n) (refl, refl)

  module _ (y : ℕ) (back : List ℕ) (a : Around h [] hole (y ∷ back)) where
    first_case : remove_from_holes_list hole h ≡ drop_first h
    unfolding remove_from_holes_list
    first_case = ground (arith, a.back_part.0, a.back_part.1, a.front_part.1)

    remove_first : Holes (drop_first h) (y ∷ back)
    unfolding drop_first
    remove_first =
        let e : next_at h.store h.head ≡ next_at h.store hole =
          ap (next_at h.store) (sym a.front_part.1) in
        let y_is = a.back_part.0 in
        let node = next_at h.store h.head in
        let store = set_prev node 0 h.store in
        let at : node ≡ y = e ∙ y_is in
        Segment-rehead h.store store hole 0 node y back h.tail 0
          (λ x far. spared _ _ _ _ (ground arith)) (λ x near. spared _ _ _ _ (ground arith))
          (ap (prev_at store) (sym at) ∙ stored _ _ _ (omega arith)) (omega (arith, a.back_part.1))
          (rw e a.back_part)

  module _ (x : ℕ) (front : List ℕ) (a : Around h (x ∷ front) hole []) where
    last_case : remove_from_holes_list hole h ≡ drop_last h
    unfolding remove_from_holes_list
    last_case =
        let facts = Segment-lt h.store 0 h.head x front a.before hole a.front_part in
        ground (arith, a.prev_is, a.above, a.back_part.0)

    remove_last : Holes (drop_last h) (x ∷ front)
    unfolding drop_last
    remove_last =
        let facts = Segment-lt h.store 0 h.head x front a.before hole a.front_part in
        let tail_is : prev_at h.store h.tail ≡ a.before =
          ap (prev_at h.store) a.back_part.0 ∙ a.prev_is in
        subst (λ t. Segment (set_next t 0 h.store) 0 h.head (x ∷ front) t 0) (sym tail_is)
          (Segment-relink h.store (set_next a.before 0 h.store) 0 h.head (x ∷ front) a.before hole 0
            (λ y lo near. spared _ _ _ _ (ground arith)) (λ y lo far. spared _ _ _ _ (ground arith))
            (stored _ _ _ (omega arith)) facts.0 a.front_part)

  module _ (x : ℕ) (front : List ℕ) (y : ℕ) (back : List ℕ)
      (a : Around h (x ∷ front) hole (y ∷ back)) (small : h.tail + 12 ≤ 2 ^ 32) where
    middle_case : remove_from_holes_list hole h ≡ drop_middle hole h
    unfolding remove_from_holes_list
    middle_case =
        let facts = Segment-lt h.store 0 h.head x front a.before hole a.front_part in
        let back_facts =
          Segment-lt h.store hole (next_at h.store hole) y back h.tail 0 a.back_part in
        ground (arith, a.prev_is, a.above, a.back_part.1)

    remove_middle : Holes (drop_middle hole h) (x ∷ front ++ y ∷ back)
    unfolding drop_middle
    remove_middle =
        let next = next_at h.store hole in
        let prev = prev_at h.store hole in
        let linked = set_next prev next h.store in
        let store = set_prev (next_at linked hole) (prev_at linked hole) linked in
        let front_facts = Segment-lt h.store 0 h.head x front a.before hole a.front_part in
        let back_facts = Segment-lt h.store hole next y back h.tail 0 a.back_part in
        let prev_is : prev ≡ a.before = a.prev_is in
        let above : a.before + 12 ≤ hole = a.above in
        let beyond : hole + 12 ≤ y = a.back_part.1 in
        let next_is : next ≡ y = a.back_part.0 in
        let to_next : next_at linked hole ≡ y = spared _ _ _ _ (ground arith) ∙ next_is in
        let to_prev : prev_at linked hole ≡ a.before = spared _ _ _ _ (ground arith) ∙ prev_is in
        Segment-append store 0 h.head (x ∷ front) (y ∷ back) a.before next h.tail 0
          (Segment-relink h.store store 0 h.head (x ∷ front) a.before hole next
            (λ b lo near. spared _ _ _ _ (ground arith) ∙ spared _ _ _ _ (ground arith))
            (λ b lo far. spared _ _ _ _ (ground arith) ∙ spared _ _ _ _ (ground arith))
            (spared _ _ _ _ (ground arith)
              ∙ ap (next_at linked) (sym prev_is)
              ∙ stored _ _ _ (omega (arith, back_facts.1)))
            front_facts.0 a.front_part)
          (Segment-rehead h.store store hole a.before next y back h.tail 0
            (λ b far. spared _ _ _ _ (ground arith) ∙ spared _ _ _ _ (ground arith))
            (λ b near. spared _ _ _ _ (ground arith) ∙ spared _ _ _ _ (ground arith))
            (ap (prev_at store) (sym to_next) ∙ stored _ _ _ (omega arith) ∙ to_prev) (omega arith)
            a.back_part)

-- Where the pointers of the heap lead through an ascending list of holes, in both directions, and the headers
-- of the holes do not overlap and lie below 4 GB, taking out any hole of it leaves pointers that lead through the other holes,
-- in their order.
pub remove_from_holes_list-Holes :
    (h : Heap) (front : List ℕ) (hole : ℕ) (back : List ℕ)
    → Holes h (front ++ hole ∷ back)
    → h.tail + 12 ≤ 2 ^ 32
    → Holes (remove_from_holes_list hole h) (front ++ back)
remove_from_holes_list-Holes h [] hole [] g small = remove_only h hole (Holes-Around h [] hole [] g)
remove_from_holes_list-Holes h [] hole (y ∷ back) g small =
    let a = Holes-Around h [] hole (y ∷ back) g in
    subst (λ r. Holes r (y ∷ back)) (sym (first_case h hole y back a))
      (remove_first h hole y back a)
remove_from_holes_list-Holes h (x ∷ front) hole [] g small =
    let a = Holes-Around h (x ∷ front) hole [] g in
    subst (λ r. Holes r (x ∷ front ++ [])) (sym (last_case h hole x front a))
      (subst (Holes (drop_last h)) (sym (append-nil (x ∷ front))) (remove_last h hole x front a))
remove_from_holes_list-Holes h (x ∷ front) hole (y ∷ back) g small =
    let a = Holes-Around h (x ∷ front) hole (y ∷ back) g in
    subst (λ r. Holes r (x ∷ front ++ y ∷ back)) (sym (middle_case h hole x front y back a small))
      (remove_middle h hole x front y back a small)
