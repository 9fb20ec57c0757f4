-- ===== src/VirtualMgr/Processor.antt =====
-- Physical memory, as words of page frames, and the processor's translation of addresses.
use avi_kernel.Base.{
  ℕ, ◌+◌, ◌*◌, ◌/◌, ◌%◌, true, false, ◌&&◌, Option, none, some, ◌≡◌, ltb, ◌==◌, if◌then◌else◌,
}
use avi_kernel.Bitmap.{Cells}
use avi_kernel.PagingEntry.{get_present, get_4mb_page_size, get_frame}

-- `m frame i` is word `i` of the page frame at the physical address `frame`.
abbrev pub Memory : Type 0
Memory = ℕ → Cells

unfoldable pub write : Memory → ℕ → ℕ → ℕ → Memory
write m frame i x frame' j = if (frame == frame') && (i == j) then x else m frame' j

-- The entries that the walk for address `v` reads, below the directory at `cr3`.
abbrev pub directory_entry : Memory → ℕ → ℕ → ℕ
directory_entry m cr3 v = m cr3 (v / 0x400000)

abbrev pub table_entry : Memory → ℕ → ℕ → ℕ
table_entry m cr3 v = m (get_frame (directory_entry m cr3 v)) (v / 4096 % 1024)

-- The processor: where both entries are present and the page is not a large one, the address is
-- translated to the frame of the second.
pub record Mmu : Type 0 where
  pub translate : Memory → ℕ → ℕ → Option ℕ
  pub translate_lem :
      (m : Memory) (cr3 v : ℕ)
      → get_present (directory_entry m cr3 v) ≡ true
      → get_4mb_page_size (directory_entry m cr3 v) ≡ false
      → get_present (table_entry m cr3 v) ≡ true
      → translate m cr3 v ≡ some (get_frame (table_entry m cr3 v) + v % 4096)

-- A store of the word `x` at a virtual address.
unfoldable pub store_word : Mmu → Memory → ℕ → ℕ → ℕ → Option Memory
store_word mmu m cr3 v x = elim (mmu.translate m cr3 v) [
  | none ↦ none
  | some a ↦ some (write m (a / 4096 * 4096) (a % 4096 / 4) x)
]

-- `memset(v, 0, 4096)` of a page.
unfoldable pub clear_page : Mmu → Memory → ℕ → ℕ → Option Memory
clear_page mmu m cr3 v = elim (mmu.translate m cr3 v) [
  | none ↦ none
  | some a ↦ some (λ frame j. if (a / 4096 * 4096 == frame) && ltb j 1024 then 0 else m frame j)
]
