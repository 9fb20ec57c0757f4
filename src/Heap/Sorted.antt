-- ===== src/Heap/Sorted.antt =====
-- `Heap::insert_to_holes_list` on the whole list of holes.
use avi_kernel.Base.{
  ℕ, ◌+◌, ◌<◌, ◌^◌, ◌≤◌, List, [], ◌∷◌, ◌++◌, ◌≡◌, refl, sym, arith, ◌==◌, false, some, length, ◌⊎◌,
}
use mathlib.Core.Path.{subst}
use avi_kernel.Heap.State.{Heap, ok}
use avi_kernel.Heap.Holes.{insert_to_holes_list, find_place, link_before}
use avi_kernel.Heap.Links.{Segment, Holes, Segment-lt}
use avi_kernel.Heap.Insert.{insert, IsNew, place, link_only, link_first, link_last, link_middle}

module _ (h : Heap) (hole : ℕ) (below_end : hole + 12 ≤ 2 ^ 32) (small : h.tail + 12 ≤ 2 ^ 32) where
  linked :
      (front back : List ℕ) (mid node : ℕ)
      → 12 ≤ hole
      → 0 < h.tail
      → Segment h.store 0 h.head front mid node
      → Segment h.store mid node back h.tail 0
      → mid + 12 ≤ hole
      → (node ≡ 0) ⊎ (hole + 12 ≤ node)
      → Holes (link_before hole node h) (front ++ hole ∷ back)
  linked [] [] mid node pos some_hole f b below above =
      let m : mid ≡ 0 = f.0 in let t : h.tail ≡ mid = b.0 in absurd (omega arith)
  linked [] (y ∷ ys) mid node pos some_hole f b below above =
      let m : mid ≡ 0 = f.0 in
      let n : node ≡ h.head = f.1 in
      let at : node ≡ y = b.0 in
      let lo : mid + 12 ≤ y = b.1 in
      let up : hole + 12 ≤ y = ground arith in
      let g : Holes h (y ∷ ys) =
        subst (λ a. Segment h.store a h.head (y ∷ ys) h.tail 0) m
          (subst (λ a. Segment h.store mid a (y ∷ ys) h.tail 0) n b) in
      subst (λ a. Holes (link_before hole a h) (hole ∷ y ∷ ys)) (sym n)
        (link_first h hole below_end small y ys g pos up)
  linked (x ∷ front) [] mid node pos some_hole f b below above =
      let t : h.tail ≡ mid = b.0 in
      let g : Holes h (x ∷ front) =
        subst (λ a. Segment h.store 0 h.head (x ∷ front) a 0) (sym t)
          (subst (λ a. Segment h.store 0 h.head (x ∷ front) mid a) (sym b.1) f) in
      subst (λ a. Holes (link_before hole a h) (x ∷ front ++ hole ∷ [])) b.1
        (link_last h hole below_end small x front g (omega arith))
  linked (x ∷ front) (y ∷ ys) mid node pos some_hole f b below above =
      let at : node ≡ y = b.0 in
      let lo : mid + 12 ≤ y = b.1 in
      let up : hole + 12 ≤ node = ground arith in
      link_middle h hole below_end small x front y ys mid node f b below up

  insert_case :
      (fuel node : ℕ)
      → 0 < h.tail
      → find_place fuel hole h.head h.store ≡ some node
      → insert_to_holes_list fuel hole h ≡ ok tt (link_before hole node h)
  unfolding insert_to_holes_list
  insert_case fuel node some_hole found =
      let no : (h.tail == 0) ≡ false = ground arith in rw (no, found) refl

-- Where the pointers of the heap lead through an ascending list of holes whose headers do not overlap, and with
-- a unit of fuel for each hole and one more, putting in a hole whose header overlaps none of theirs, nor the
-- first 12 bytes of memory, all below 4 GB, succeeds, and then the pointers lead, in both directions, through the list with
-- the new hole at its place in the order of addresses, and no headers overlap.
pub insert_to_holes_list-Holes :
    (fuel hole : ℕ) (h : Heap) (xs : List ℕ)
    → Holes h xs
    → 12 ≤ hole
    → hole + 12 ≤ 2 ^ 32
    → h.tail + 12 ≤ 2 ^ 32
    → IsNew hole xs
    → length xs < fuel
    → (h' : Heap) × (insert_to_holes_list fuel hole h ≡ ok tt h') × Holes h' (insert hole xs)
unfolding insert
insert_to_holes_list-Holes fuel hole h [] g pos below_end small new enough =
    link_only h hole below_end small pos g.0 fuel
insert_to_holes_list-Holes fuel hole h (x ∷ xs) g pos below_end small new enough =
    let facts = Segment-lt h.store 0 h.head x xs h.tail 0 g in
    let p = place h.store hole 0 h.head (x ∷ xs) h.tail fuel g pos new enough in
    (
      link_before hole p.node h,
      insert_case h hole below_end small fuel p.node facts.0 p.found,
      subst (Holes (link_before hole p.node h)) (sym p.inserted) (
          linked h hole below_end small p.front p.back p.mid p.node pos facts.0 p.front_part
            p.back_part p.below p.above),
    )
