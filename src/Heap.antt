-- ===== src/Heap.antt =====
-- src/kernel/mm/heap/heap.cpp: the kernel's heap, a doubly linked list of holes kept inside the holes.
-- Addresses and sizes are 32-bit words, and 0 is NULL. `Store` is the memory, byte by byte: the three words of
-- a `heap_hole_header` are at its address, so that headers that overlap share bytes. The first of the words is
-- also the size of an allocated chunk.
-- The loops over the list take fuel, one unit for each hole and one more.
pub mod State
pub mod Holes
pub mod Links
pub mod Remove
pub mod Insert
pub mod Sorted
use State.{
  Store, Heap, Cmd, Run, ok, panicked, faulted, out_of_fuel, get, lift, pure, ◌>>=◌, ◌>>◌, update,
}
use State.{size_at, next_at, set_size, set_next, set_prev}
use avi_kernel.Base.{
  ℕ, zero, suc, ◌+◌, ◌-◌, ◌*◌, ◌/◌, ◌%◌, ◌^◌, Bool, true, false, ◌&&◌, Option, none, some, ltb, leb,
  ◌==◌, if◌then◌else◌, u32, sub32,
}
use Holes.{remove_from_holes_list, insert_to_holes_list, merge}
use avi_kernel.PhysicalMgr.{allocate_block}
use avi_kernel.VirtualMgr.{Outcome, done, panic, page_fault, map, Machine, Statics}
use avi_kernel.VirtualMgr.Processor.{Mmu}

abbrev pub heap_start_addr : ℕ
heap_start_addr = 0xC0C00000

abbrev pub page_size : ℕ
page_size = 4096

abbrev pub sizeof_size_t : ℕ
sizeof_size_t = 4

abbrev pub sizeof_heap_hole_header : ℕ
sizeof_heap_hole_header = 12

module _ (fuel : ℕ) where
  unfoldable pub free : ℕ → Cmd (Unit {0})
  free ptr h =
      let header = sub32 ptr sizeof_size_t in
      let how_many_bytes = size_at h.store header in
      (do insert_to_holes_list fuel header; lift (merge header))
        (record h { store = set_size header how_many_bytes h.store })

  -- The branch of `split` that cuts the hole at `offset`.
  unfoldable pub split_at : ℕ → ℕ → Cmd ℕ
  split_at hole offset h =
      let new_hole = u32 (hole + offset) in
      let new_size = sub32 (size_at h.store hole) offset in
      (do insert_to_holes_list fuel new_hole; lift (remove_from_holes_list hole); pure offset)
        (record h { store = set_size new_hole new_size h.store })

  -- The size of the first part, or 0 if the hole was left whole.
  unfoldable pub split : ℕ → ℕ → Cmd ℕ
  split hole size h =
      if ltb sizeof_heap_hole_header (sub32 (size_at h.store hole) size)
      then split_at hole
          (if ltb sizeof_heap_hole_header size then size else sizeof_heap_hole_header) h
      else ok 0 h

-- The first hole of at least `required` bytes, or 0.
unfoldable pub find_hole : ℕ → ℕ → ℕ → Store → Option ℕ
find_hole zero required node s = none
find_hole (suc fuel) required node s =
    let rest = find_hole fuel required (next_at s node) s in
    if node == 0 then some 0 else if leb required (size_at s node) then some node else rest

-- The rest of `malloc`, once a hole is found.
unfoldable pub take_hole : ℕ → ℕ → ℕ → Cmd ℕ
take_hole fuel hole required = do
  split_size ← split fuel hole required
  hole_size ← get (λ h. size_at h.store hole)
  lift (λ h. if split_size == 0 then remove_from_holes_list hole h else h)
  lift (λ h. record h {
    store = set_size hole (if split_size == 0 then hole_size else split_size) h.store;
  })
  pure (u32 (hole + sizeof_size_t))

-- What `extend_heap` has after its loop.
pub record Extension : Type 0 where
  pub status : Bool
  pub number_of_pages_done : ℕ
  pub header : ℕ

module _ (mmu : Mmu) (k : Statics) where
  -- `VirtualMgr::map` within the heap's state.
  unfoldable pub map_page : ℕ → ℕ → Cmd (Unit {0})
  map_page v_addr frame h = elim (map mmu k v_addr frame true h.machine) [
    | done m ↦ ok tt (record h { machine = m })
    | panic ↦ panicked
    | page_fault ↦ faulted
  ]

  -- The loop of `extend_heap`, with `rounds` pages left.
  unfoldable pub extend_loop : ℕ → ℕ → ℕ → Cmd Extension
  extend_loop zero pages header h =
      ok (record { status = true; number_of_pages_done = pages; header = header }) h
  extend_loop (suc rounds) pages header h =
      let (frame, physical) = allocate_block h.machine.physical in
      let h₁ = record h { machine = record h.machine { physical = physical } } in
      elim (frame == 0) [
        | true ↦ ok (record { status = false; number_of_pages_done = pages; header = header }) h₁
        | false ↦
            (do
              map_page h₁.last_page frame
              lift (λ h. record h { last_page = u32 (h.last_page + page_size) })
              extend_loop rounds (pages + 1) (if header == 0 then h₁.last_page else header))
              h₁
      ]

  unfoldable pub extend_heap : ℕ → ℕ → Cmd Bool
  extend_heap fuel size = do
    let desired_size = u32 (size + sizeof_heap_hole_header)
    let desired_pages = desired_size / page_size + 1
    lift (λ h. record h { last_page = u32 (h.last_page + page_size) })
    e ← extend_loop desired_pages 0 0
    lift (λ h. record h {
      store = set_size e.header (u32 (e.number_of_pages_done * page_size)) h.store;
    })
    insert_to_holes_list fuel e.header
    pure e.status

  -- `rounds` bounds how often `malloc` calls itself.
  unfoldable pub malloc : ℕ → ℕ → ℕ → Cmd ℕ
  malloc fuel zero size h = out_of_fuel
  malloc fuel (suc rounds) size h =
      let required = u32 (size + sizeof_size_t) in
      let again : Bool → Cmd ℕ =
        λ status h'. elim status [ true ↦ malloc fuel rounds size h' | false ↦ ok 0 h' ] in
      if size == 0 then ok 0 h else elim (find_hole fuel required h.head h.store) [
        | none ↦ out_of_fuel
        | some hole ↦
            if hole == 0
            then (extend_heap fuel required >>= again) h
            else take_hole fuel hole required h
      ]

  unfoldable pub initialize : Cmd (Unit {0})
  initialize h =
      let (first_frame, physical) = allocate_block h.machine.physical in
      let h₁ = record h {
        head = heap_start_addr;
        tail = heap_start_addr;
        machine = record h.machine { physical = physical };
      } in
      if first_frame == 0
      then panicked
      else (do
        map_page heap_start_addr first_frame
        lift (λ h. record h {
          last_page = heap_start_addr;
          store =
              set_next heap_start_addr 0
                (set_prev heap_start_addr 0 (set_size heap_start_addr 4096 h.store));
        }))
          h₁

-- `memcpy` of src/libc/cstring.cpp: byte `i` and the next ones, with `rounds` left.
unfoldable pub memcpy : ℕ → ℕ → ℕ → ℕ → (ℕ → ℕ) → ℕ → ℕ
memcpy zero i dest src bytes = bytes
memcpy (suc rounds) i dest src bytes =
    memcpy rounds (i + 1) dest src (update bytes (u32 (dest + i)) (bytes (u32 (src + i))))

-- The end of `realloc`, once the new place is there.
unfoldable pub move_chunk : ℕ → ℕ → ℕ → ℕ → Cmd ℕ
move_chunk fuel ptr bytes_to_copy new_place h =
    if new_place == 0
    then ok 0 h
    else (do
      lift (λ h. record h {
        store = record { memory = memcpy bytes_to_copy 0 new_place ptr h.store.memory };
      })
      free fuel ptr
      pure new_place)
        h

module _ (mmu : Mmu) (k : Statics) where
  unfoldable pub realloc : ℕ → ℕ → ℕ → ℕ → Cmd ℕ
  realloc fuel rounds ptr new_size h =
      let old_size = sub32 (size_at h.store (sub32 ptr sizeof_size_t)) sizeof_size_t in
      let bytes_to_copy = if ltb old_size new_size then old_size else new_size in
      if ptr == 0
      then malloc mmu k fuel rounds new_size h
      else if new_size == 0
      then (free fuel ptr >> pure 0) h
      else (malloc mmu k fuel rounds new_size >>= move_chunk fuel ptr bytes_to_copy) h
