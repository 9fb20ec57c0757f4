-- ===== src/Heap/Holes.antt =====
-- The list of holes of src/kernel/mm/heap/heap.cpp: a hole is put in by address, taken out, and merged
-- with its neighbours.
use avi_kernel.Base.{
  ℕ, zero, suc, ◌+◌, Bool, ◌&&◌, Option, none, some, ltb, ◌==◌, if◌then◌else◌, u32,
}
use avi_kernel.Heap.State.{
  Store, Heap, Cmd, ok, out_of_fuel, size_at, next_at, prev_at, set_size, set_next, set_prev,
}

-- The cases of `remove_from_holes_list`: the first hole, the last one, one in the middle.
unfoldable pub drop_first : Heap → Heap
drop_first h =
    let head = next_at h.store h.head in record h { head = head; store = set_prev head 0 h.store }

unfoldable pub drop_last : Heap → Heap
drop_last h =
    let tail = prev_at h.store h.tail in record h { tail = tail; store = set_next tail 0 h.store }

unfoldable pub drop_middle : ℕ → Heap → Heap
drop_middle hole h =
    let linked = set_next (prev_at h.store hole) (next_at h.store hole) h.store in
    record h { store = set_prev (next_at linked hole) (prev_at linked hole) linked }

unfoldable pub remove_from_holes_list : ℕ → Heap → Heap
remove_from_holes_list hole h =
    if (prev_at h.store hole == 0) && (next_at h.store hole == 0)
    then record h { head = 0; tail = 0 }
    else if hole == h.head
    then drop_first h
    else if hole == h.tail
    then drop_last h
    else drop_middle hole h

-- The search for the node that should stand behind `hole`.
unfoldable pub find_place : ℕ → ℕ → ℕ → Store → Option ℕ
find_place zero hole node s = none
find_place (suc fuel) hole node s =
    let rest = find_place fuel hole (next_at s node) s in
    if node == 0 then some node else if ltb hole node then some node else rest

-- The three cases, once the node behind `hole` is known.
unfoldable pub link_before : ℕ → ℕ → Heap → Heap
link_before hole node h =
    if node == h.head
    then record h {
      head = hole;
      store = set_prev node hole (set_next hole node (set_prev hole 0 h.store));
    }
    else if node == 0
    then record h {
      tail = hole;
      store = set_next hole 0 (set_prev hole h.tail (set_next h.tail hole h.store));
    }
    else let prev = prev_at h.store node in
      record h {
        store =
            set_next hole node
              (set_prev node hole (set_prev hole prev (set_next prev hole h.store)));
      }

unfoldable pub insert_to_holes_list : ℕ → ℕ → Cmd (Unit {0})
insert_to_holes_list fuel hole h =
    if h.tail == 0
    then ok tt
        (record h { head = hole; tail = hole; store = set_prev hole 0 (set_next hole 0 h.store) })
    else elim (find_place fuel hole h.head h.store) [
      | none ↦ out_of_fuel
      | some node ↦ ok tt (link_before hole node h)
    ]

unfoldable pub merge_next : ℕ → Heap → Heap
merge_next header h =
    let next = next_at h.store header in
    let size = u32 (size_at h.store header + size_at h.store next) in
    remove_from_holes_list next (record h { store = set_size header size h.store })

unfoldable pub merge_previous : ℕ → Heap → Heap
merge_previous header h =
    let prev = prev_at h.store header in
    let size = u32 (size_at h.store prev + size_at h.store header) in
    remove_from_holes_list header (record h { store = set_size prev size h.store })

-- Does the first hole end where the second begins?
abbrev pub is_adjacent : Store → ℕ → ℕ → Bool
is_adjacent s a b = u32 (a + size_at s a) == b

unfoldable pub merge : ℕ → Heap → Heap
merge header h =
    let h₁ =
      if is_adjacent h.store (prev_at h.store header) header then merge_previous header h else h in
    if is_adjacent h₁.store header (next_at h₁.store header) then merge_next header h₁ else h₁
