-- ===== src/VirtualMgr/Invariant.antt =====
-- The state that `VirtualMgr` keeps: the directory, the table of tables, and the blocks under them.
use avi_kernel.Base.{
  ℕ, ◌/◌, ◌%◌, ◌^◌, ◌≤◌, ◌<◌, true, ◌&&◌, Option, none, some, ◌≡◌, ◌≢◌, if◌then◌else◌,
}
use avi_kernel.Bitmap.Laws.{bit, HoldsWords}
use avi_kernel.PhysicalMgr.{PhysicalMgr}
use avi_kernel.PhysicalMgr.Allocate.{blocks}
use avi_kernel.PagingEntry.{get_present, get_frame}
use avi_kernel.VirtualMgr.Access.{Reaches}
use avi_kernel.VirtualMgr.{Statics, Machine, directory_frame, etable_frame}

-- The block of a frame is marked as used.
abbrev pub InUse : PhysicalMgr → ℕ → Type 0
InUse s frame = bit s.cells (frame / 4096) ≡ 1

-- Frames and memory words, seen from the kernel's two arrays. Both name the same page tables, which
-- are used blocks, all different, and different from the frames of the arrays and of the directory
-- in use.
pub record IsPaged (k : Statics) (m : Machine) : Type 0 where
  pub reaches : Reaches m.memory m.cr3 (etable_frame k)
  pub in_step :
      (i : ℕ)
      → i < 1023
      → get_present (m.memory (etable_frame k) i) ≡ get_present (m.memory (directory_frame k) i)
  pub same_frame :
      (i : ℕ)
      → i < 1023
      → get_present (m.memory (etable_frame k) i) ≡ true
      → get_frame (m.memory (etable_frame k) i) ≡ get_frame (m.memory (directory_frame k) i)
  pub used :
      (i : ℕ)
      → i < 1023
      → get_present (m.memory (etable_frame k) i) ≡ true
      → InUse m.physical (get_frame (m.memory (etable_frame k) i))
  pub apart :
      (i : ℕ)
      → i < 1023
      → get_present (m.memory (etable_frame k) i) ≡ true
      → (get_frame (m.memory (etable_frame k) i) ≢ etable_frame k)
        × (get_frame (m.memory (etable_frame k) i) ≢ directory_frame k)
        × (get_frame (m.memory (etable_frame k) i) ≢ m.cr3)
  pub different :
      (i j : ℕ)
      → i < 1023
      → j < 1023
      → i ≢ j
      → get_present (m.memory (etable_frame k) i) ≡ true
      → get_present (m.memory (etable_frame k) j) ≡ true
      → get_frame (m.memory (etable_frame k) i) ≢ get_frame (m.memory (etable_frame k) j)

-- What stays the same: where the arrays are, and that their blocks are in use.
pub record IsPlaced (k : Statics) (m : Machine) : Type 0 where
  pub arrays_apart : etable_frame k ≢ directory_frame k
  pub etable_apart : etable_frame k ≢ m.cr3
  pub etable_aligned : etable_frame k % 4096 ≡ 0
  pub directory_aligned : directory_frame k % 4096 ≡ 0
  pub cr3_aligned : m.cr3 % 4096 ≡ 0
  pub etable_used : InUse m.physical (etable_frame k)
  pub directory_used : InUse m.physical (directory_frame k)
  pub cr3_used : InUse m.physical m.cr3
  pub words : HoldsWords m.physical.cells
  pub small : blocks m.physical ≤ 2 ^ 20

-- Where the page of address `v` is, by the kernel's directory.
abbrev pub page_of : Statics → Machine → ℕ → Option ℕ
page_of k m v =
    let d = m.memory (directory_frame k) (v / 0x400000) in
    let t = m.memory (get_frame d) (v / 4096 % 1024) in
    if get_present d && get_present t then some (get_frame t) else none
