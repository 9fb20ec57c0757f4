-- ===== src/Tests/Blocks.antt =====
-- The bitmap and the physical memory manager on a bitmap of one cell.
use avi_kernel.Base.{
  ℕ, ◌%◌, ◌/◌, ◌<◌, ◌≤◌, true, false, [], ◌∷◌, ◌≡◌, ◌≢◌, ◌⊎◌, refl, arith, ◌==◌, if◌then◌else◌, u32,
}
use avi_kernel.Bitmap.{Cells, put, test}
use avi_kernel.Bitmap.Laws.{bit, HoldsWords, test-put}
use avi_kernel.PhysicalMgr.{
  PhysicalMgr, KernelImage, MmapEntry, allocate_block, free_block, block_size, mark_memory_as,
  fill_bitmap, find_block, find_in_cell,
}
use avi_kernel.PhysicalMgr.Allocate.{
  AllocateOutcome, blocks, allocate_block_outcome, free_block_lem, free_block-allocate_block,
}
use avi_kernel.PhysicalMgr.Mark.{bit-mark_memory_as}
use avi_kernel.PhysicalMgr.Fill.{fill_bitmap_lem}

-- Blocks 0 to 2 are in use.
abbrev pub three_used : Cells
three_used i = if i == 0 then 7 else 0

abbrev pub one_cell : PhysicalMgr
one_cell = record {
  bitmap = 0x100000;
  cells = three_used;
  number_of_blocks = 32;
  number_of_cells = 1;
  bitmap_size = 4;
}

three_used-HoldsWords : HoldsWords three_used
three_used-HoldsWords i = ground arith

-- Bit 31 reads clear, although it was set.
test-put_example : test (put three_used 31 true) 31 ≡ false
test-put_example = test-put three_used 31 31 true

allocate_block_outcome_example : AllocateOutcome one_cell (allocate_block one_cell)
allocate_block_outcome_example = allocate_block_outcome one_cell three_used-HoldsWords

free_block_lem_example :
    ((u32 0x2000 % block_size ≢ 0) × (free_block 0x2000 one_cell ≡ one_cell))
    ⊎ ((u32 0x2000 % block_size ≡ 0)
        × ((2 < blocks one_cell) ⊎ (one_cell.number_of_cells ≤ 2 / 32))
        × ((j : ℕ)
            → bit (free_block 0x2000 one_cell).cells j ≡ (if 2 == j then 0 else bit three_used j)))
free_block_lem_example = free_block_lem 0x2000 one_cell

free_block-allocate_block_example :
    bit (free_block (allocate_block one_cell).0 (allocate_block one_cell).1).cells 3
    ≡ bit three_used 3
unfolding allocate_block find_block find_in_cell test
free_block-allocate_block_example =
    free_block-allocate_block one_cell 3 three_used-HoldsWords (omega arith) (omega arith)

bit-mark_memory_as_example : bit (mark_memory_as 0x4000 0x1800 true three_used) 5 ≡ 1
bit-mark_memory_as_example = bit-mark_memory_as 0x4000 0x1800 5 true three_used (omega arith)

abbrev image : KernelImage
image = record { kernel_start = 0xC0200000; kernel_end = 0xC0300000 }

abbrev region : MmapEntry
region = record { size = 20; addr = 0x100000; len = 0x7F00000; type = 1 }

fill_bitmap_lem_example : bit (fill_bitmap image (region ∷ []) one_cell).cells 3 ≡ 1
fill_bitmap_lem_example =
    fill_bitmap_lem image (region ∷ []) one_cell 3 refl (omega arith) (omega arith) (omega arith)
