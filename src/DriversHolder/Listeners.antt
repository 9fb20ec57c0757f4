-- ===== src/DriversHolder/Listeners.antt =====
-- Which listeners the keyboards have.
use avi_kernel.Base.{
  ℕ, zero, suc, ◌+◌, Bool, false, List, [], ◌∷◌, ◌==◌, if◌then◌else◌, ◌||◌, some, ok, ◌>>=◌, ◌≡◌,
  refl, sym, ap, ◌∙◌, fun_ext, arith, length, drop, Bool-cases, inl, inr,
}
use avi_kernel.Vector
use avi_kernel.Vector.{Vector}
use avi_kernel.Vector.Laws.{IsCounted, drop_all}
use avi_kernel.DriversHolder.{
  KeyboardDriver, KeyboardStore, KeyboardGenericDriver, update, each_existing, listen_press,
  listen_release, set_on_press_listener, set_on_release_listener,
}
use avi_kernel.DriversHolder.Laws.{at_index}

abbrev pub member : ℕ → List ℕ → Bool
member n [] = false
member n (d ∷ ds) = n == d || member n ds

-- The drivers with these numbers are changed.
abbrev changed :
    {L : Type 0}
    → (KeyboardDriver L → KeyboardDriver L)
    → List ℕ
    → KeyboardStore L
    → KeyboardStore L
changed change ds store n = if member n ds then change (store n) else store n

module _ {L : Type 0} (change : KeyboardDriver L → KeyboardDriver L)
    (once : (k : KeyboardDriver L) → change (change k) ≡ change k) where
  changed-cons :
      (d : ℕ) (ds : List ℕ) (store : KeyboardStore L) (n : ℕ)
      → changed change ds (update change d store) n ≡ changed change (d ∷ ds) store n
  changed-cons d ds store n = elim (Bool-cases (n == d)) [
    | inl e ↦ elim (Bool-cases (member n ds)) [
      | inl m ↦ rw (e, m) (once (store n))
      | inr m ↦ rw (e, m) refl
    ]
    | inr e ↦ rw e refl
  ]

  each_existing_lem :
      (existing : Vector ℕ) (rounds i : ℕ) (store : KeyboardStore L)
      → IsCounted existing
      → i + rounds ≡ length existing.nodes
      → each_existing change rounds i existing store
        ≡ ok (changed change (drop i existing.nodes) store)
  unfolding each_existing
  each_existing_lem existing zero i store counted e =
      let none_left : drop i existing.nodes ≡ [] = drop_all i existing.nodes (omega arith) in
      ap (λ ds. ok (changed change ds store)) (sym none_left)
  each_existing_lem existing (suc rounds) i store counted e =
      let (d, got, here) = at_index existing i rounds counted e in
      let rest = drop (i + 1) existing.nodes in
      ap (λ r. r >>= λ d. each_existing change rounds (i + 1) existing (update change d store)) got
      ∙ each_existing_lem existing rounds (i + 1) (update change d store) counted (omega arith)
      ∙ ap ok (fun_ext (changed-cons d rest store))
      ∙ ap (λ ds. ok (changed change ds store)) (sym here)

module _ {L : Type 0} where
  set_on_press_listener_lem :
      (l : L) (generic : KeyboardGenericDriver L)
      → IsCounted generic.holder.existing_drivers
      → set_on_press_listener l generic
        ≡ ok (record generic {
          own = listen_press l generic.own;
          store = changed (listen_press l) generic.holder.existing_drivers.nodes generic.store;
        })
  unfolding set_on_press_listener Vector.size listen_press
  set_on_press_listener_lem l generic counted =
      ap
        (λ r.
          r >>= λ store. ok (record generic { own = listen_press l generic.own; store = store }))
        (each_existing_lem (listen_press l) (λ k. refl) generic.holder.existing_drivers
          generic.holder.existing_drivers.vector_size 0 generic.store counted (omega arith))

  set_on_release_listener_lem :
      (l : L) (generic : KeyboardGenericDriver L)
      → IsCounted generic.holder.existing_drivers
      → set_on_release_listener l generic
        ≡ ok (record generic {
          own = listen_press l (listen_release l generic.own);
          store = changed (listen_release l) generic.holder.existing_drivers.nodes generic.store;
        })
  unfolding set_on_release_listener Vector.size listen_press listen_release
  set_on_release_listener_lem l generic counted =
      ap
        (λ r. r >>= λ store.
          ok
            (record generic { own = listen_press l (listen_release l generic.own); store = store }))
        (each_existing_lem (listen_release l) (λ k. refl) generic.holder.existing_drivers
          generic.holder.existing_drivers.vector_size 0 generic.store counted (omega arith))

  -- With a press listener set and then a release listener, every existing driver has the two, every other
  -- driver stays as it was, and the generic driver itself has the release listener for both.
  pub set_listeners_lem :
      (p r : L) (generic : KeyboardGenericDriver L)
      → IsCounted generic.holder.existing_drivers
      → (g : KeyboardGenericDriver L) × ((set_on_press_listener p generic
            >>= set_on_release_listener r)
          ≡ ok g)
        × ((n : ℕ)
            → g.store n ≡ (
                if member n generic.holder.existing_drivers.nodes
                then record { press_listener = some p; release_listener = some r }
                else generic.store n))
        × (g.own ≡ record { press_listener = some r; release_listener = some r })
        × (g.holder ≡ generic.holder)
  unfolding listen_press listen_release
  set_listeners_lem p r generic counted =
      let ds = generic.holder.existing_drivers.nodes in
      let pressed : KeyboardGenericDriver L = record generic {
        own = listen_press p generic.own;
        store = changed (listen_press p) ds generic.store;
      } in
      (
        record generic {
          own = listen_press r (listen_release r pressed.own);
          store = changed (listen_release r) ds pressed.store;
        },
        ap (λ o. o >>= set_on_release_listener r) (set_on_press_listener_lem p generic counted)
            ∙ set_on_release_listener_lem r pressed counted,
        λ n. elim (Bool-cases (member n ds)) [ inl m ↦ rw m refl | inr m ↦ rw m refl ],
        refl,
        refl,
      )
