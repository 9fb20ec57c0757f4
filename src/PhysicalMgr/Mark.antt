-- ===== src/PhysicalMgr/Mark.antt =====
-- `PhysicalMgr::mark_memory_as`: which bits of the bitmap a memory region covers.
use avi_kernel.Base.{
  ℕ, zero, suc, ◌+◌, ◌/◌, ◌^◌, ◌<◌, Bool, true, false, ◌&&◌, ◌≡◌, ◌∙◌, arith, ltb, leb, ◌==◌,
  if◌then◌else◌, u32, sub32,
}
use avi_kernel.Bitmap.{Cells, set, clear}
use avi_kernel.Bitmap.Laws.{bit, bit-set, bit-clear}
use avi_kernel.PhysicalMgr.{mark_blocks, mark_memory_as, block_size}

abbrev pub mark_value : Bool → ℕ
mark_value used = if used then 1 else 0

mark_one :
    (p : Cells) (block j : ℕ) (used : Bool)
    → bit (if used then set p block else clear p block) j
      ≡ (if block == j then mark_value used else bit p j)
mark_one p block j true = bit-set p block j
mark_one p block j false = bit-clear p block j

bit-mark_blocks :
    (rounds block j : ℕ) (used : Bool) (p : Cells)
    → bit (mark_blocks rounds block used p) j
      ≡ (if leb block j && ltb j (block + rounds) then mark_value used else bit p j)
unfolding mark_blocks
bit-mark_blocks zero block j used p = ground arith
bit-mark_blocks (suc rounds) block j used p = ground (
  arith,
  bit-mark_blocks rounds (block + 1) j used (if used then set p block else clear p block),
  mark_one p block j used,
)

-- Is `j` among the blocks from the one of `first` to the one of `last`, both included?
abbrev pub covers : ℕ → ℕ → ℕ → Bool
covers first last j = leb (first / block_size) j && leb j (last / block_size)

-- For a region that does not wrap round, `mark_memory_as` marks the blocks from the one that holds
-- the first byte to the one that holds the byte behind the region, and leaves all others.
pub bit-mark_memory_as :
    (start size j : ℕ) (used : Bool) (p : Cells)
    → start + size < 2 ^ 32
    → bit (mark_memory_as start size used p) j
      ≡ (if covers start (start + size) j then mark_value used else bit p j)
unfolding mark_memory_as
bit-mark_memory_as start size j used p h =
    let first = u32 start / block_size in
    let last = u32 (start + size) / block_size in
    let rounds = u32 (sub32 last first + 1) in
    let e : first ≡ start / block_size = omega arith in
    let count : first + rounds ≡ suc ((start + size) / block_size) = omega arith in
    bit-mark_blocks rounds first j used p ∙ rw (count, e) (ground arith)

-- Freeing marks, with any region, never put a block in use.
pub mark_memory_as-false :
    (start size j : ℕ) (p : Cells) → bit p j ≡ 0 → bit (mark_memory_as start size false p) j ≡ 0
unfolding mark_memory_as
mark_memory_as-false start size j p h =
    let first = u32 start / block_size in
    let rounds = u32 (sub32 (u32 (start + size) / block_size) first + 1) in
    ground (arith, bit-mark_blocks rounds first j false p)
