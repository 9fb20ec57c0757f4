-- ===== src/VirtualMgr/Created.antt =====
-- Memory after `VirtualMgr::map` created a page table, frame by frame.
use avi_kernel.Base.{
  ℕ, ◌*◌, ◌/◌, ◌<◌, true, false, ◌&&◌, ltb, ◌≡◌, ◌≢◌, refl, arith, ◌==◌, if◌then◌else◌,
}
use avi_kernel.Bitmap
use avi_kernel.Bitmap.{Cells}
use avi_kernel.Bitmap.Laws.{bit}
use avi_kernel.PhysicalMgr.{PhysicalMgr}
use avi_kernel.PagingEntry.{get_present, paging_entry, page_directory_entry, test_flag}
use avi_kernel.VirtualMgr.Processor.{Memory, write}
use avi_kernel.VirtualMgr.{Statics, directory_frame, etable_frame}
use avi_kernel.VirtualMgr.Invariant.{InUse}

-- A block that was free is none of the frames in use.
pub fresh : (s : PhysicalMgr) (frame b : ℕ) → InUse s frame → bit s.cells b ≡ 0 → b * 4096 ≢ frame
fresh s frame b used free e =
    let q : frame / 4096 ≡ b = omega arith in
    let one : bit s.cells b ≡ 1 = (rw q at used) in omega arith

-- Memory after a page table of the frame `table` was created for the directory's entry `index`.
unfoldable pub created : Statics → Memory → ℕ → ℕ → Memory
created k memory index table frame j =
    if (table == frame) && ltb j 1024
    then 0
    else write (write memory (etable_frame k) index (paging_entry true true true table))
        (directory_frame k) index (page_directory_entry true true true false table) frame j

module _ (k : Statics) (memory : Memory) (index table : ℕ) (ne : etable_frame k ≢ directory_frame k)
    (ne-etable : table ≢ etable_frame k) (ne-directory : table ≢ directory_frame k) where
  pub created-etable :
      (j : ℕ)
      → created k memory index table (etable_frame k) j
        ≡ (if index == j then paging_entry true true true table else memory (etable_frame k) j)
  unfolding created write
  created-etable j = ground arith

  pub created-directory :
      (j : ℕ)
      → created k memory index table (directory_frame k) j ≡ (
          if index == j
          then page_directory_entry true true true false table
          else memory (directory_frame k) j)
  unfolding created write
  created-directory j = ground arith

  pub created-other :
      (frame j : ℕ)
      → etable_frame k ≢ frame
      → directory_frame k ≢ frame
      → table ≢ frame
      → created k memory index table frame j ≡ memory frame j
  unfolding created write
  created-other frame j a b c = ground arith

  pub created-table : (j : ℕ) → j < 1024 → created k memory index table table j ≡ 0
  unfolding created write
  created-table j h = ground arith

pub get_present-zero : get_present 0 ≡ false
unfolding get_present test_flag Bitmap.test
get_present-zero = refl
