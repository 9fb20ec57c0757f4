-- ===== src/Heap/Insert.antt =====
-- `Heap::insert_to_holes_list` keeps the list of holes in the order of their addresses.
use avi_kernel.Base.{
  ℕ, zero, suc, ◌+◌, ◌<◌, ◌^◌, ◌≤◌, List, [], ◌∷◌, ◌++◌, ◌≡◌, refl, sym, ap, ◌∙◌, arith, ◌==◌, ltb,
  if◌then◌else◌, true, false, some, length, ◌⊎◌, inl, inr, Bool-cases,
}
use mathlib.Core.Path.{subst}
use avi_kernel.Heap.State.{Store, Heap, ok, next_at, prev_at, set_next, set_prev, stored, spared}
use avi_kernel.Heap.Holes.{insert_to_holes_list, find_place, link_before}
use avi_kernel.Heap.Links.{
  Segment, Holes, Segment-lt, Segment-relink, Segment-rehead, Segment-append,
}

-- A hole among the others: before the first that lies above it.
unfoldable pub insert : ℕ → List ℕ → List ℕ
insert hole [] = hole ∷ []
insert hole (x ∷ xs) = if ltb hole x then hole ∷ x ∷ xs else x ∷ insert hole xs

-- The header of the hole overlaps none of the others.
abbrev pub IsNew : ℕ → List ℕ → Type 0
IsNew hole [] = Unit {0}
IsNew hole (x ∷ xs) = ((hole + 12 ≤ x) ⊎ (x + 12 ≤ hole)) × IsNew hole xs

-- Where the search for the place ends: the list in two parts, around `mid` and `node`.
pub record Place (s : Store) (hole before first : ℕ) (xs : List ℕ) (last fuel : ℕ) : Type 0 where
  pub front : List ℕ
  pub back : List ℕ
  pub mid : ℕ
  pub node : ℕ
  pub front_part : Segment s before first front mid node
  pub back_part : Segment s mid node back last 0
  pub below : mid + 12 ≤ hole
  pub above : (node ≡ 0) ⊎ (hole + 12 ≤ node)
  pub found : find_place fuel hole first s ≡ some node
  pub inserted : insert hole xs ≡ front ++ hole ∷ back

pub place :
    (s : Store) (hole before first : ℕ) (xs : List ℕ) (last fuel : ℕ)
    → Segment s before first xs last 0
    → before + 12 ≤ hole
    → IsNew hole xs
    → length xs < fuel
    → Place s hole before first xs last fuel
unfolding find_place insert
place s hole before first xs last zero g lt new enough = absurd (omega arith)
place s hole before first [] last (suc fuel) g lt new enough =
    let at : first ≡ 0 = sym g.1 in
    let yes : (first == 0) ≡ true = ground arith in
    record {
      front = [];
      back = [];
      mid = before;
      node = first;
      front_part = (refl, refl);
      back_part = g;
      below = lt;
      above = inl at;
      found = rw yes refl;
      inserted = refl;
    }
place s hole before first (x ∷ xs) last (suc fuel) g lt new enough =
    elim (Bool-cases (ltb hole x)) [
      | inl e ↦
          let at : first ≡ x = g.0 in
          let up : hole + 12 ≤ x = ground (arith, new.0) in
          let no : (first == 0) ≡ false = ground arith in
          let yes : ltb hole first ≡ true = ground arith in
          record {
            front = [];
            back = x ∷ xs;
            mid = before;
            node = first;
            front_part = (refl, refl);
            back_part = g;
            below = lt;
            above = inr (omega arith);
            found = rw (no, yes) refl;
            inserted = rw e refl;
          }
      | inr e ↦
          let at : first ≡ x = g.0 in
          let lo : before + 12 ≤ x = g.1 in
          let up : x + 12 ≤ hole = ground (arith, new.0) in
          let no : (first == 0) ≡ false = ground arith in
          let no' : ltb hole first ≡ false = ground arith in
          let p = place s hole x (next_at s x) xs last fuel g.3 up new.1 (omega arith) in
          let f : find_place fuel hole (next_at s first) s ≡ some p.node =
            ap (λ a. find_place fuel hole (next_at s a) s) at ∙ p.found in
          record {
            front = x ∷ p.front;
            back = p.back;
            mid = p.mid;
            node = p.node;
            front_part = (g.0, g.1, g.2, p.front_part);
            back_part = p.back_part;
            below = p.below;
            above = p.above;
            found = rw (no, no') f;
            inserted = rw e (ap (λ ys. x ∷ ys) p.inserted);
          }
    ]

module _ (h : Heap) (hole : ℕ) (below_end : hole + 12 ≤ 2 ^ 32) (small : h.tail + 12 ≤ 2 ^ 32) where
  pub link_only :
      12 ≤ hole
      → h.tail ≡ 0
      → (fuel : ℕ)
      → (h' : Heap) × (insert_to_holes_list fuel hole h ≡ ok tt h') × Holes h' (hole ∷ [])
  unfolding insert_to_holes_list
  link_only pos e fuel =
      let yes : (h.tail == 0) ≡ true = ground arith in
      let s = set_prev hole 0 (set_next hole 0 h.store) in
      let h' : Heap = record h { head = hole; tail = hole; store = s } in
      let p : prev_at s hole ≡ 0 = stored _ _ _ (omega arith) in
      let n : next_at s hole ≡ 0 = spared _ _ _ _ (ground arith) ∙ stored _ _ _ (omega arith) in
      (h', rw yes refl, (refl, pos, p, (refl, sym n)))

  module _ (y : ℕ) (ys : List ℕ) (g : Holes h (y ∷ ys)) (pos : 12 ≤ hole) (up : hole + 12 ≤ y) where
    pub link_first : Holes (link_before hole h.head h) (hole ∷ y ∷ ys)
    unfolding link_before
    link_first =
        let yes : (h.head == h.head) ≡ true = ground arith in
        let at : h.head ≡ y = g.0 in
        let facts = Segment-lt h.store 0 h.head y ys h.tail 0 g in
        let s = set_prev h.head hole (set_next hole h.head (set_prev hole 0 h.store)) in
        let own_prev : prev_at s hole ≡ 0 =
          spared _ _ _ _ (ground arith)
          ∙ spared _ _ _ _ (ground arith)
          ∙ stored _ _ _ (omega arith) in
        let own_next : next_at s hole ≡ h.head =
          spared _ _ _ _ (ground arith) ∙ stored _ _ _ (omega (arith, facts.1)) in
        let back =
          Segment-rehead h.store s 0 hole h.head y ys h.tail 0
            (λ a far.
              spared _ _ _ _ (ground arith)
              ∙ spared _ _ _ _ (ground arith)
              ∙ spared _ _ _ _ (ground arith))
            (λ a near.
              spared _ _ _ _ (ground arith)
              ∙ spared _ _ _ _ (ground arith)
              ∙ spared _ _ _ _ (ground arith))
            (ap (prev_at s) (sym at) ∙ stored _ _ _ (omega arith)) up g in
        let e : link_before hole h.head h ≡ record h { head = hole; store = s } = rw yes refl in
        subst (λ r. Holes r (hole ∷ y ∷ ys)) (sym e)
          (refl, pos, own_prev, subst (λ a. Segment s hole a (y ∷ ys) h.tail 0) (sym own_next) back)

  module _ (x : ℕ) (front : List ℕ) (g : Holes h (x ∷ front)) (above : h.tail + 12 ≤ hole) where
    pub link_last : Holes (link_before hole 0 h) (x ∷ front ++ hole ∷ [])
    unfolding link_before
    link_last =
        let facts = Segment-lt h.store 0 h.head x front h.tail 0 g in
        let no : (0 == h.head) ≡ false = ground arith in
        let s = set_next hole 0 (set_prev hole h.tail (set_next h.tail hole h.store)) in
        let own_prev : prev_at s hole ≡ h.tail =
          spared _ _ _ _ (ground arith) ∙ stored _ _ _ (omega arith) in
        let own_next : next_at s hole ≡ 0 = stored _ _ _ (omega arith) in
        let e : link_before hole 0 h ≡ record h { tail = hole; store = s } = rw no refl in
        subst (λ r. Holes r (x ∷ front ++ hole ∷ [])) (sym e)
          (Segment-append s 0 h.head (x ∷ front) (hole ∷ []) h.tail hole hole 0
            (Segment-relink h.store s 0 h.head (x ∷ front) h.tail 0 hole
              (λ a lo near.
                spared _ _ _ _ (ground arith)
                ∙ spared _ _ _ _ (ground arith)
                ∙ spared _ _ _ _ (ground arith))
              (λ a lo far.
                spared _ _ _ _ (ground arith)
                ∙ spared _ _ _ _ (ground arith)
                ∙ spared _ _ _ _ (ground arith))
              (spared _ _ _ _ (ground arith)
                ∙ spared _ _ _ _ (ground arith)
                ∙ stored _ _ _ (omega arith))
              facts.0 g)
            (refl, above, own_prev, (refl, sym own_next)))

  module _ (x : ℕ) (front : List ℕ) (y : ℕ) (back : List ℕ) (mid node : ℕ)
      (f : Segment h.store 0 h.head (x ∷ front) mid node)
      (b : Segment h.store mid node (y ∷ back) h.tail 0) (below : mid + 12 ≤ hole)
      (up : hole + 12 ≤ node) where
    pub link_middle : Holes (link_before hole node h) (x ∷ front ++ hole ∷ y ∷ back)
    unfolding link_before
    link_middle =
        let facts = Segment-lt h.store 0 h.head x front mid node f in
        let at : node ≡ y = b.0 in
        let prev_is : prev_at h.store node ≡ mid = ap (prev_at h.store) at ∙ b.2 in
        let no : (node == h.head) ≡ false = ground arith in
        let no' : (node == 0) ≡ false = ground arith in
        let s =
          set_next hole node (set_prev node hole (set_prev hole mid (set_next mid hole h.store))) in
        let own_prev : prev_at s hole ≡ mid =
          spared _ _ _ _ (ground arith)
          ∙ spared _ _ _ _ (ground arith)
          ∙ stored _ _ _ (omega arith) in
        let back_facts = Segment-lt h.store mid node y back h.tail 0 b in
        let own_next : next_at s hole ≡ node = stored _ _ _ (omega (arith, back_facts.1)) in
        let e : link_before hole node h ≡ record h { store = s } = rw (no, no', prev_is) refl in
        subst (λ r. Holes r (x ∷ front ++ hole ∷ y ∷ back)) (sym e)
          (Segment-append s 0 h.head (x ∷ front) (hole ∷ y ∷ back) mid hole h.tail 0
            (Segment-relink h.store s 0 h.head (x ∷ front) mid node hole
              (λ a lo near.
                spared _ _ _ _ (ground arith)
                ∙ spared _ _ _ _ (ground arith)
                ∙ spared _ _ _ _ (ground arith)
                ∙ spared _ _ _ _ (ground arith))
              (λ a lo far.
                spared _ _ _ _ (ground arith)
                ∙ spared _ _ _ _ (ground arith)
                ∙ spared _ _ _ _ (ground arith)
                ∙ spared _ _ _ _ (ground arith))
              (spared _ _ _ _ (ground arith)
                ∙ spared _ _ _ _ (ground arith)
                ∙ spared _ _ _ _ (ground arith)
                ∙ stored _ _ _ (omega arith))
              facts.0 f)
            (
              refl,
              below,
              own_prev,
              subst (λ a. Segment s hole a (y ∷ back) h.tail 0) (sym own_next)
                  (Segment-rehead h.store s mid hole node y back h.tail 0
                    (λ a far.
                      spared _ _ _ _ (ground arith)
                      ∙ spared _ _ _ _ (ground arith)
                      ∙ spared _ _ _ _ (ground arith)
                      ∙ spared _ _ _ _ (ground arith))
                    (λ a near.
                      spared _ _ _ _ (ground arith)
                      ∙ spared _ _ _ _ (ground arith)
                      ∙ spared _ _ _ _ (ground arith)
                      ∙ spared _ _ _ _ (ground arith))
                    (ap (prev_at s) (sym at)
                      ∙ spared _ _ _ _ (ground arith)
                      ∙ stored _ _ _ (omega arith))
                    (omega arith) b),
            ))
