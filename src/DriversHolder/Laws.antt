-- ===== src/DriversHolder/Laws.antt =====
-- Which drivers a holder keeps.
use mathlib.Core.List.{append_assoc, append-nil}
use avi_kernel.Base.{
  ℕ, zero, suc, ◌+◌, Bool, List, [], ◌∷◌, ◌++◌, if◌then◌else◌, Result, ok, ◌>>=◌, ◌≡◌, refl, sym,
  ap, ◌∙◌, arith, length, drop, pos, or_panic, Bool-cases, inl, inr,
}
use avi_kernel.Vector
use avi_kernel.Vector.{Vector}
use avi_kernel.Vector.Laws.{
  IsCounted, get_lem, get_elem?-some, drop_cons, drop_all, append-IsCounted, link_last-append,
}
use avi_kernel.DriversHolder.{DriversHolder, filter, filter_from}

nodes-append : {T : Type 0} (v : Vector T) (x : T) → (Vector.append v x).nodes ≡ v.nodes ++ x ∷ []
unfolding Vector.append
nodes-append v x = link_last-append v.nodes x

-- An element of a vector at an index, in front of those behind it.
pub at_index :
    {T : Type 0} (v : Vector T) (i rounds : ℕ)
    → IsCounted v
    → i + suc rounds ≡ length v.nodes
    → (x : T) × (Vector.get v (pos i) ≡ ok x) × (drop i v.nodes ≡ x ∷ drop (i + 1) v.nodes)
at_index v i rounds counted e =
    let (x, found) = get_elem?-some i v.nodes (omega arith) in
    let next : suc i ≡ i + 1 = omega arith in
    (
      x,
      get_lem v i counted ∙ ap or_panic found,
      drop_cons i v.nodes x found ∙ ap (λ k. x ∷ drop k v.nodes) next,
    )

module _ (exist : ℕ → Bool) where
  -- The drivers of a list that exist.
  abbrev pub existing_of : List ℕ → List ℕ
  existing_of [] = []
  existing_of (d ∷ ds) = if exist d then d ∷ existing_of ds else existing_of ds

  -- The holder's drivers stay; these are appended to the existing ones.
  abbrev pub Adds : List ℕ → DriversHolder → DriversHolder → Type 0
  Adds found before after =
      (after.all_drivers ≡ before.all_drivers)
      × (after.existing_drivers.nodes ≡ before.existing_drivers.nodes ++ found)
      × IsCounted after.existing_drivers

  filter_from_lem :
      (rounds i : ℕ) (holder : DriversHolder)
      → IsCounted holder.all_drivers
      → IsCounted holder.existing_drivers
      → i + rounds ≡ length holder.all_drivers.nodes
      → (w : DriversHolder) × (filter_from exist rounds i holder ≡ ok w)
        × Adds (existing_of (drop i holder.all_drivers.nodes)) holder w
  unfolding filter_from
  filter_from_lem zero i holder all counted e =
      let none_left : drop i holder.all_drivers.nodes ≡ [] =
        drop_all i holder.all_drivers.nodes (omega arith) in
      (
        holder,
        refl,
        (
          refl,
          sym (append-nil holder.existing_drivers.nodes)
              ∙ ap (λ ds. holder.existing_drivers.nodes ++ existing_of ds) (sym none_left),
          counted,
        ),
      )
  filter_from_lem (suc rounds) i holder all counted e =
      let (d, got, here) = at_index holder.all_drivers i rounds all e in
      let rest = drop (i + 1) holder.all_drivers.nodes in
      let old = holder.existing_drivers.nodes in
      let added : DriversHolder = record holder {
        existing_drivers = Vector.append holder.existing_drivers d;
      } in
      let go : Bool → Result DriversHolder =
        λ t. filter_from exist rounds (i + 1) (if t then added else holder) in
      let start =
        ap
          (λ r. r >>= λ d. filter_from exist rounds (i + 1) (
            if exist d
            then record holder { existing_drivers = Vector.append holder.existing_drivers d }
            else holder))
          got in
      let target : Bool → List ℕ → List ℕ = λ t ds. if t then d ∷ ds else ds in
      let whole = ap existing_of here in
      elim (Bool-cases (exist d)) [
        | inl t ↦
            let r =
              filter_from_lem rounds (i + 1) added all
                (append-IsCounted holder.existing_drivers d counted) (omega arith) in
            (
              r.0,
              start ∙ ap go t ∙ r.1,
              (
                (r.2).0,
                (r.2).1
                    ∙ ap (λ ns. ns ++ existing_of rest) (nodes-append holder.existing_drivers d)
                    ∙ append_assoc old (d ∷ []) (existing_of rest)
                    ∙ ap (λ ds. old ++ ds)
                        (ap (λ t. target t (existing_of rest)) (sym t) ∙ sym whole),
                (r.2).2,
              ),
            )
        | inr t ↦
            let r = filter_from_lem rounds (i + 1) holder all counted (omega arith) in
            (
              r.0,
              start ∙ ap go t ∙ r.1,
              (
                (r.2).0,
                (r.2).1
                    ∙ ap (λ ds. old ++ ds)
                        (ap (λ t. target t (existing_of rest)) (sym t) ∙ sym whole),
                (r.2).2,
              ),
            )
      ]

  -- Filtering keeps all drivers, and appends to the existing ones those of all that exist, in their order.
  pub filter_lem :
      (holder : DriversHolder)
      → IsCounted holder.all_drivers
      → IsCounted holder.existing_drivers
      → (w : DriversHolder) × (filter exist holder ≡ ok w)
        × Adds (existing_of holder.all_drivers.nodes) holder w
  unfolding filter Vector.size
  filter_lem holder all counted =
      filter_from_lem holder.all_drivers.vector_size 0 holder all counted (omega arith)
