-- ===== src/PagingEntry.antt =====
-- src/kernel/mm/virtual_mgr/paging_entry.cpp, page_table_entry.cpp and page_directory_entry.cpp: an
-- entry of a page table or of the page directory is a 32-bit word. The flags are bits 0 to 11, the
-- address of the frame the others.
pub mod Laws
use avi_kernel.Base.{ℕ, ◌-◌, ◌%◌, ◌^◌, Bool, bit_and, bit_or, u32, not32}
use avi_kernel.Bitmap
use avi_kernel.Bitmap.{Cells}

abbrev pub flag_present : ℕ
flag_present = 0

abbrev pub flag_writable : ℕ
flag_writable = 1

abbrev pub flag_requires_supervisor : ℕ
flag_requires_supervisor = 2

abbrev pub flag_accessed : ℕ
flag_accessed = 5

abbrev pub flag_dirty : ℕ
flag_dirty = 6

abbrev pub flag_4mb : ℕ
flag_4mb = 7

abbrev pub frame_mask : ℕ
frame_mask = 0xFFFFF000

-- The memory from `&entry` on; the flags are bits of its first cell.
abbrev pub at_entry : ℕ → Cells
at_entry entry = λ i. entry

unfoldable pub put_flag : ℕ → ℕ → Bool → ℕ
put_flag entry flag b = Bitmap.put (at_entry entry) flag b 0

unfoldable pub test_flag : ℕ → ℕ → Bool
test_flag entry flag = Bitmap.test (at_entry entry) flag

unfoldable pub set_frame : ℕ → ℕ → ℕ
set_frame entry addr = bit_or (bit_and entry (not32 frame_mask)) (bit_and (u32 addr) frame_mask)

unfoldable pub set_present : ℕ → Bool → ℕ
set_present entry p = put_flag entry flag_present p

unfoldable pub set_writeable : ℕ → Bool → ℕ
set_writeable entry w = put_flag entry flag_writable w

unfoldable pub set_requires_supervisor : ℕ → Bool → ℕ
set_requires_supervisor entry r = put_flag entry flag_requires_supervisor r

unfoldable pub get_present : ℕ → Bool
get_present entry = test_flag entry flag_present

unfoldable pub get_writeable : ℕ → Bool
get_writeable entry = test_flag entry flag_writable

unfoldable pub get_requires_supervisor : ℕ → Bool
get_requires_supervisor entry = test_flag entry flag_requires_supervisor

unfoldable pub get_accessed : ℕ → Bool
get_accessed entry = test_flag entry flag_accessed

unfoldable pub get_frame : ℕ → ℕ
get_frame entry = bit_and entry frame_mask

-- The constructor of `PagingEntry`, and with it that of `PageTableEntry`.
unfoldable pub paging_entry : Bool → Bool → Bool → ℕ → ℕ
paging_entry present writeable requires_supervisor frame =
    set_frame
      (set_requires_supervisor (set_writeable (set_present 0 present) writeable)
        requires_supervisor)
      frame

unfoldable pub get_dirty : ℕ → Bool
get_dirty entry = test_flag entry flag_dirty

unfoldable pub set_4mb_page_size : ℕ → Bool → ℕ
set_4mb_page_size entry b = put_flag entry flag_4mb b

unfoldable pub get_4mb_page_size : ℕ → Bool
get_4mb_page_size entry = test_flag entry flag_4mb

-- The constructor of `PageDirectoryEntry`.
unfoldable pub page_directory_entry : Bool → Bool → Bool → Bool → ℕ → ℕ
page_directory_entry present writeable requires_supervisor mb4_page_size frame =
    set_4mb_page_size (paging_entry present writeable requires_supervisor frame) mb4_page_size
