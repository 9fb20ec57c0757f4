-- ===== src/PhysicalMgr.antt =====
-- src/kernel/mm/physical_mgr/physical_mgr.cpp: the allocator of physical blocks of 4096 bytes.
-- A block is a bit of the bitmap, set while it is in use. `none` stands for `panic`.
pub mod Allocate
pub mod Mark
pub mod Fill
use avi_kernel.Base.{
  ℕ, zero, suc, ◌+◌, ◌-◌, ◌*◌, ◌/◌, ◌%◌, ◌^◌, Bool, true, false, not, ◌&&◌, Option, none, some,
  List, [], ◌∷◌, ltb, leb, ◌==◌, if◌then◌else◌, u32, u64, sub32,
}
use avi_kernel.Bitmap.{Cells, set, clear, test}

abbrev pub block_size : ℕ
block_size = 1024 * 4

abbrev pub usable_memory_start : ℕ
usable_memory_start = 0x100000

abbrev pub boot_mapping_memory_end : ℕ
boot_mapping_memory_end = 0x400000

-- Where the linker put the kernel: the addresses of `kernelStart` and `kernelEnd`.
pub record KernelImage : Type 0 where
  pub kernel_start : ℕ
  pub kernel_end : ℕ

abbrev pub virtual_to_physical_addr : ℕ → ℕ
virtual_to_physical_addr v = sub32 v 0xC0000000

-- An entry of the multiboot memory map. `size` is that of the entry, `len` that of the region.
pub record MmapEntry : Type 0 where
  pub size : ℕ
  pub addr : ℕ
  pub len : ℕ
  pub type : ℕ

abbrev pub memory_available : ℕ
memory_available = 1

-- The static members. `bitmap` is an address, and `cells` are the words of memory from there
-- on: those of the bitmap, and behind them whatever memory follows it.
pub record PhysicalMgr : Type 0 where
  pub bitmap : ℕ
  pub cells : Cells
  pub number_of_blocks : ℕ
  pub number_of_cells : ℕ
  pub bitmap_size : ℕ

-- The inner loop of `allocate_block`: bits `j` on of cell `i`, with `rounds` left.
unfoldable pub find_in_cell : Cells → ℕ → ℕ → ℕ → Option ℕ
find_in_cell p i zero j = none
find_in_cell p i (suc rounds) j =
    let rest = find_in_cell p i rounds (j + 1) in
    if test p (i * 32 + j) then rest else some (i * 32 + j)

-- The outer loop: the cells from `i` on, with `rounds` left.
unfoldable pub find_block : Cells → ℕ → ℕ → Option ℕ
find_block p zero i = none
find_block p (suc rounds) i =
    let rest = find_block p rounds (i + 1) in
    if p i == 0xffffffff
    then rest
    else elim (find_in_cell p i 32 0) [ none ↦ rest | some bit ↦ some bit ]

-- The address of the block, or 0 (`NULL`), and the new state.
unfoldable pub allocate_block : PhysicalMgr → ℕ × PhysicalMgr
allocate_block s = elim (find_block s.cells s.number_of_cells 0) [
  | none ↦ (0, s)
  | some bit ↦ (u32 (bit * block_size), record s { cells = set s.cells bit })
]

unfoldable pub free_block : ℕ → PhysicalMgr → PhysicalMgr
free_block block s =
    if u32 block % block_size == 0
    then record s { cells = clear s.cells (u32 block / block_size) }
    else s

-- The loop of `mark_memory_as`: block `block` and the next ones, with `rounds` left.
unfoldable pub mark_blocks : ℕ → ℕ → Bool → Cells → Cells
mark_blocks zero block used p = p
mark_blocks (suc rounds) block used p =
    mark_blocks rounds (block + 1) used (if used then set p block else clear p block)

unfoldable pub mark_memory_as : ℕ → ℕ → Bool → Cells → Cells
mark_memory_as start_address size used p =
    let start_block = u32 start_address / block_size in
    let end_block = u32 (start_address + size) / block_size in
    mark_blocks (u32 (sub32 end_block start_block + 1)) start_block used p

-- Does a bitmap of `size` bytes fit in this region, before or after the kernel? Where?
unfoldable pub place_in_entry : KernelImage → ℕ → MmapEntry → Option ℕ
place_in_entry k size e =
    let start_p = virtual_to_physical_addr k.kernel_start in
    let end_p = virtual_to_physical_addr k.kernel_end in
    if (e.type == memory_available)
      && leb usable_memory_start e.addr
      && ltb (u64 (e.addr + size)) boot_mapping_memory_end
      && leb size e.len
    then if ltb (u64 (e.addr + size)) start_p
      then some (u32 e.addr)
      else if ltb (u64 (end_p + 1 + size)) (u64 (e.addr + e.len))
      then some (u32 (end_p + 1))
      else none
    else none

-- The walk over the memory map; `none` is the panic at its end.
unfoldable pub find_memory_for_bitmap : KernelImage → ℕ → List MmapEntry → Option ℕ
find_memory_for_bitmap k size [] = none
find_memory_for_bitmap k size (e ∷ mmap) =
    let rest = find_memory_for_bitmap k size mmap in
    elim (place_in_entry k size e) [ none ↦ rest | some address ↦ some address ]

-- `memset(bitmap, 0, bitmap_size)`; the size is four bytes for each cell.
unfoldable pub clear_cells : ℕ → Cells → Cells
clear_cells count p i = if ltb i count then 0 else p i

unfoldable pub mark_available : List MmapEntry → Cells → Cells
mark_available [] p = p
mark_available (e ∷ mmap) p =
    mark_available mmap
      (if e.type == memory_available then mark_memory_as (u32 e.addr) e.size false p else p)

unfoldable pub fill_bitmap : KernelImage → List MmapEntry → PhysicalMgr → PhysicalMgr
fill_bitmap k mmap s =
    let start_p = virtual_to_physical_addr k.kernel_start in
    let end_p = virtual_to_physical_addr k.kernel_end in
    let freed = mark_available mmap (clear_cells (s.bitmap_size / 4) s.cells) in
    let low = mark_memory_as 0 usable_memory_start true freed in
    let own = mark_memory_as s.bitmap (u32 s.bitmap_size) true low in
    record s { cells = mark_memory_as start_p (sub32 end_p start_p) true own }

-- `memory a` is what stands at address `a` before the start.
unfoldable pub initialize :
    KernelImage → (memory : ℕ → Cells) → ℕ → List MmapEntry → Option PhysicalMgr
initialize k memory higher_memory_size mmap =
    let blocks = higher_memory_size / block_size in
    let cells = blocks / 32 in
    elim (find_memory_for_bitmap k (cells * 4) mmap) [
      | none ↦ none
      | some address ↦ some (
          fill_bitmap k mmap (record {
            bitmap = address;
            cells = memory address;
            number_of_blocks = blocks;
            number_of_cells = cells;
            bitmap_size = cells * 4;
          }))
    ]
