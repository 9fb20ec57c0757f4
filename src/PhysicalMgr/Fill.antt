-- ===== src/PhysicalMgr/Fill.antt =====
-- `PhysicalMgr::fill_bitmap` and `find_memory_for_bitmap`: which blocks start out as free, and where
-- the bitmap is put.
use avi_kernel.Base.{
  ℕ, ◌+◌, ◌*◌, ◌/◌, ◌%◌, ◌^◌, ◌≤◌, ◌<◌, Bool, true, false, ◌||◌, ◌≡◌, arith, ltb, List, [], ◌∷◌,
  ◌==◌, if◌then◌else◌, u32, sub32, ◌⊎◌, inl, inr, Bool-cases, ◌∙◌, ◌++◌,
}
use avi_kernel.Bits.{bit_at-zero}
use avi_kernel.Bitmap.{Cells}
use avi_kernel.Bitmap.Laws.{bit}
use avi_kernel.PhysicalMgr.{
  KernelImage, MmapEntry, PhysicalMgr, virtual_to_physical_addr, clear_cells, mark_memory_as,
  mark_available, fill_bitmap, usable_memory_start, memory_available,
}
use avi_kernel.PhysicalMgr.Mark.{covers, mark_value, bit-mark_memory_as, mark_memory_as-false}

bit-clear_cells : (count j : ℕ) (p : Cells) → j < count * 32 → bit (clear_cells count p) j ≡ 0
unfolding clear_cells
bit-clear_cells count j p h =
    let e : ltb (j / 32) count ≡ true = ground arith in rw e (bit_at-zero (j % 32))

bit-mark_available :
    (mmap : List MmapEntry) (j : ℕ) (p : Cells) → bit p j ≡ 0 → bit (mark_available mmap p) j ≡ 0
unfolding mark_available
bit-mark_available [] j p h = h
bit-mark_available (e ∷ mmap) j p h = elim (Bool-cases (e.type == memory_available)) [
  | inl available ↦ rw available (
      bit-mark_available mmap j (mark_memory_as (u32 e.addr) e.size false p)
        (mark_memory_as-false (u32 e.addr) e.size j p h))
  | inr other ↦ rw other (bit-mark_available mmap j p h)
]

-- The blocks that `fill_bitmap` puts in use: those of the first megabyte and of its end, of the
-- bitmap, and of the kernel.
abbrev pub is_reserved : KernelImage → PhysicalMgr → ℕ → Bool
is_reserved k s j =
    covers 0 usable_memory_start j
    || covers s.bitmap (s.bitmap + s.bitmap_size) j
    || covers (virtual_to_physical_addr k.kernel_start) (virtual_to_physical_addr k.kernel_end) j

three_marks :
    (x y z : Bool) {freed low own all : ℕ}
    → low ≡ (if x then 1 else freed)
    → own ≡ (if y then 1 else low)
    → all ≡ (if z then 1 else own)
    → freed ≡ 0
    → all ≡ (if x || y || z then 1 else 0)
three_marks x y z a b c d = ground arith

-- For a bitmap of four bytes a cell below 4 GB, and a kernel that does not end before it starts,
-- `fill_bitmap` leaves a block of the bitmap in use exactly if it is reserved. The memory map has no
-- part in it: whatever the map says of a block, it starts out as free unless the hardware, the bitmap
-- or the kernel has it.
pub fill_bitmap_lem :
    (k : KernelImage) (mmap : List MmapEntry) (s : PhysicalMgr) (j : ℕ)
    → s.bitmap_size ≡ s.number_of_cells * 4
    → s.bitmap + s.bitmap_size < 2 ^ 32
    → virtual_to_physical_addr k.kernel_start ≤ virtual_to_physical_addr k.kernel_end
    → j < s.number_of_cells * 32
    → bit (fill_bitmap k mmap s).cells j ≡ mark_value (is_reserved k s j)
unfolding fill_bitmap
fill_bitmap_lem k mmap s j size room order h =
    let start_p = virtual_to_physical_addr k.kernel_start in
    let end_p = virtual_to_physical_addr k.kernel_end in
    let freed = mark_available mmap (clear_cells (s.bitmap_size / 4) s.cells) in
    let low = mark_memory_as 0 usable_memory_start true freed in
    let own = mark_memory_as s.bitmap (u32 s.bitmap_size) true low in
    let is_free : bit freed j ≡ 0 =
      bit-mark_available mmap j (clear_cells (s.bitmap_size / 4) s.cells)
        (bit-clear_cells (s.bitmap_size / 4) j s.cells (omega arith)) in
    let last : start_p + sub32 end_p start_p ≡ end_p = omega arith in
    let whole : u32 s.bitmap_size ≡ s.bitmap_size = omega arith in
    let a = bit-mark_memory_as 0 usable_memory_start j true freed (omega arith) in
    let b = bit-mark_memory_as s.bitmap (u32 s.bitmap_size) j true low (omega arith) in
    let c = bit-mark_memory_as start_p (sub32 end_p start_p) j true own (omega arith) in
    let c' = rw last at c in
    let x = covers 0 usable_memory_start j in
    let y = covers s.bitmap (s.bitmap + u32 s.bitmap_size) j in
    let z = covers start_p end_p j in three_marks x y z a b c' is_free ∙ rw whole

-- A region that can be asked for the bitmap: of available memory, that starts at 1 MB or above, so that the
-- bitmap at its start would end below 4 MB, and long enough.
pub record IsCandidate (size : ℕ) (e : MmapEntry) : Type 0 where
  pub available : e.type ≡ 1
  pub above : 0x100000 ≤ e.addr
  pub below : e.addr + size < 0x400000
  pub long : size ≤ e.len

-- The place for the bitmap in a region: its start, where the bitmap ends before the kernel, or else the byte
-- behind the kernel, where the bitmap ends within the region's end.
abbrev pub Fits : KernelImage → ℕ → MmapEntry → ℕ → Type 0
Fits k size e address =
    ((address ≡ e.addr) × (e.addr + size < virtual_to_physical_addr k.kernel_start))
    ⊎ ((address ≡ virtual_to_physical_addr k.kernel_end + 1)
        × (virtual_to_physical_addr k.kernel_start ≤ e.addr + size)
        × (address + size < e.addr + e.len))

-- The region has no place for the bitmap.
abbrev pub HasNoPlace : KernelImage → ℕ → MmapEntry → Type 0
HasNoPlace k size e = (address : ℕ) → IsCandidate size e → Fits k size e address → ⊥

abbrev pub NonePlaced : KernelImage → ℕ → List MmapEntry → Type 0
NonePlaced k size [] = Unit {0}
NonePlaced k size (e ∷ mmap) = HasNoPlace k size e × NonePlaced k size mmap

-- The place is that of the first region of the map that has one.
pub record IsPlaced (k : KernelImage) (size : ℕ) (mmap : List MmapEntry) (address : ℕ)
    : Type 0 where
  pub skipped : List MmapEntry
  pub region : MmapEntry
  pub left : List MmapEntry
  pub split : mmap ≡ skipped ++ region ∷ left
  pub first : NonePlaced k size skipped
  pub candidate : IsCandidate size region
  pub fits : Fits k size region address

-- No region's end, and no bitmap put at its start, goes beyond the 64-bit addresses.
abbrev pub InAddressSpace : ℕ → List MmapEntry → Type 0
InAddressSpace size [] = Unit {0}
InAddressSpace size (e ∷ mmap) =
    (e.addr + size < 2 ^ 64) × (e.addr + e.len < 2 ^ 64) × InAddressSpace size mmap
