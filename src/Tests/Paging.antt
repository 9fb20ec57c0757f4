-- ===== src/Tests/Paging.antt =====
-- Page table entries, and a mapping on a machine whose directory has no page table yet.
use avi_kernel.Base.{
  ℕ, ◌+◌, ◌%◌, true, false, ◌&&◌, Option, none, some, ◌≡◌, refl, arith, ◌==◌, if◌then◌else◌, inr,
}
use avi_kernel.Bitmap.{Cells, test}
use avi_kernel.PagingEntry.{
  page_directory_entry, get_present, test_flag, get_4mb_page_size, get_frame,
}
use avi_kernel.PagingEntry.Laws.{Describes, page_directory_entry-Describes}
use avi_kernel.VirtualMgr.{Statics, Machine, map, done}
use avi_kernel.VirtualMgr.Processor.{Memory, Mmu, directory_entry, table_entry}
use avi_kernel.VirtualMgr.Invariant.{IsPaged, IsPlaced}
use avi_kernel.VirtualMgr.Map.{Maps, map-Maps}

-- A processor that walks the two entries.
abbrev walk : Memory → ℕ → ℕ → Option ℕ
walk m cr3 v =
    if get_present (directory_entry m cr3 v)
    then (if get_4mb_page_size (directory_entry m cr3 v)
        then none
        else (if get_present (table_entry m cr3 v)
            then some (get_frame (table_entry m cr3 v) + v % 4096)
            else none))
    else none

abbrev processor : Mmu
processor = record { translate = walk; translate_lem = λ m cr3 v a b c. rw (a, b, c) refl }

abbrev statics : Statics
statics = record { page_directory = 0xC0001000; page_etable = 0xC0002000 }

abbrev cells : Cells
cells i = if i == 0 then 7 else 0

-- Only the last entry of the directory is set. Blocks 0 to 2 are in use.
abbrev machine : Machine
machine = record {
  memory = λ frame i.
      if (frame == 0x1000) && (i == 1023)
      then page_directory_entry true true true false 0x2000
      else 0;
  cr3 = 0x1000;
  physical = record {
    bitmap = 0x100000;
    cells = cells;
    number_of_blocks = 32;
    number_of_cells = 1;
    bitmap_size = 4;
  };
}

last_entry-Describes :
    Describes (page_directory_entry true true true false 0x2000) true true true 0x2000
    × (get_4mb_page_size (page_directory_entry true true true false 0x2000) ≡ false)
last_entry-Describes = page_directory_entry-Describes true true true false 0x2000 (omega arith) refl

absent : get_present 0 ≡ false
unfolding get_present test_flag test
absent = refl

machine-IsPaged : IsPaged statics machine
machine-IsPaged = record {
  reaches = record {
    present = last_entry-Describes.0.present_bit;
    small = last_entry-Describes.1;
    target = last_entry-Describes.0.frame_address;
  };
  in_step = λ i lt. let e : (i == 1023) ≡ false = ground arith in rw e refl;
  same_frame = λ i lt p. let a = absent in cc;
  used = λ i lt p. let a = absent in cc;
  apart = λ i lt p. let a = absent in cc;
  different = λ i j lt lt' ne p. let a = absent in cc;
}

machine-IsPlaced : IsPlaced statics machine
machine-IsPlaced = record {
  arrays_apart = omega arith;
  etable_apart = omega arith;
  etable_aligned = refl;
  directory_aligned = refl;
  cr3_aligned = refl;
  etable_used = refl;
  directory_used = refl;
  cr3_used = refl;
  words = λ i. ground arith;
  small = omega arith;
}

map-Maps_example :
    (m' : Machine) × (map processor statics 0x400000 0x5000 true machine ≡ done m')
    × Maps statics machine 0x400000 0x5000 m'
map-Maps_example =
    map-Maps processor statics 0x400000 0x5000 true (omega arith) refl (omega arith) refl machine
      machine-IsPaged machine-IsPlaced (inr (3, omega arith, refl))
