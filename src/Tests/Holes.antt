-- ===== src/Tests/Holes.antt =====
-- The list of holes on a heap of three holes.
use avi_kernel.Base.{◌≡◌, inl, inr, [], ◌∷◌, refl, arith}
use avi_kernel.Heap.State.{Store, Heap, ok, load, put, set_next, set_prev}
use avi_kernel.Heap.Holes.{remove_from_holes_list, insert_to_holes_list}
use avi_kernel.Heap.Insert.{insert}
use avi_kernel.Heap.Sorted.{insert_to_holes_list-Holes}
use avi_kernel.Heap.Links.{Holes}
use avi_kernel.Heap.Remove.{remove_from_holes_list-Holes}
use avi_kernel.Tests.Blocks.{one_cell}

-- Holes at 0x1000, 0x2000 and 0x3000, in a memory of zeros.
abbrev three_headers : Store
three_headers = set_next 0x1000 0x2000 (
    set_next 0x2000 0x3000
      (set_prev 0x2000 0x1000 (set_prev 0x3000 0x2000 (record { memory = λ a. 0 }))))

abbrev three_holes : Heap
three_holes = record {
  head = 0x1000;
  tail = 0x3000;
  last_page = 0x3000;
  store = three_headers;
  machine = record { memory = λ frame i. 0; cr3 = 0; physical = one_cell };
}

three_holes-Holes : Holes three_holes (0x1000 ∷ 0x2000 ∷ 0x3000 ∷ [])
unfolding load put
three_holes-Holes =
    (refl, omega arith, refl, (refl, omega arith, refl, (refl, omega arith, refl, (refl, refl))))

remove_from_holes_list-Holes_example :
    Holes (remove_from_holes_list 0x2000 three_holes) (0x1000 ∷ 0x3000 ∷ [])
remove_from_holes_list-Holes_example =
    remove_from_holes_list-Holes three_holes (0x1000 ∷ []) 0x2000 (0x3000 ∷ []) three_holes-Holes
      (omega arith)

insert_to_holes_list-Holes_example :
    (h' : Heap) × (insert_to_holes_list 4 0x2800 three_holes ≡ ok tt h')
    × Holes h' (0x1000 ∷ 0x2000 ∷ 0x2800 ∷ 0x3000 ∷ [])
unfolding insert
insert_to_holes_list-Holes_example =
    insert_to_holes_list-Holes 4 0x2800 three_holes (0x1000 ∷ 0x2000 ∷ 0x3000 ∷ [])
      three_holes-Holes (omega arith) (omega arith) (omega arith)
      (inr (omega arith), (inr (omega arith), (inl (omega arith), tt))) (omega arith)
