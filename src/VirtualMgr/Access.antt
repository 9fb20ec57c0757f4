-- ===== src/VirtualMgr/Access.antt =====
-- Page tables as the kernel reaches them: behind the last entry of the directory.
use avi_kernel.Base.{
  ℕ, ◌+◌, ◌*◌, ◌/◌, ◌%◌, ◌^◌, ◌<◌, true, false, ◌&&◌, some, ltb, ◌≡◌, ◌∙◌, ap, arith, bit_or, ◌==◌,
  if◌then◌else◌, u32, ◌<<<◌, ◌>>>◌,
}
use avi_kernel.Bits.{bit_or_apart, bit_or_comm, bit_and_ones}
use avi_kernel.Bits.Step.{bit_or-zero}
use avi_kernel.PagingEntry.{get_present, get_4mb_page_size, get_frame}
use avi_kernel.PagingEntry.Laws.{get_frame_lem}
use avi_kernel.VirtualMgr.Processor.{
  Memory, write, Mmu, directory_entry, table_entry, store_word, clear_page,
}
use avi_kernel.VirtualMgr.{
  get_page_table_virtual_address, get_page_directory_index, get_page_table_index,
}

pub directory_index_lem : (v : ℕ) → v < 2 ^ 32 → get_page_directory_index v ≡ v / 0x400000
directory_index_lem v h = bit_and_ones 10 (u32 v >>> 22) ∙ omega arith

pub table_index_lem : (v : ℕ) → v < 2 ^ 32 → get_page_table_index v ≡ v / 4096 % 1024
table_index_lem v h = bit_and_ones 10 (u32 v >>> 12) ∙ omega arith

pub page_table_address :
    (index : ℕ) → index < 1024 → get_page_table_virtual_address index ≡ 0xFFC00000 + index * 4096
unfolding get_page_table_virtual_address
page_table_address index h =
    let low : bit_or 0 (u32 (index <<< 12)) ≡ index * 4096 =
      bit_or_comm 0 (u32 (index <<< 12)) (omega arith) (omega arith)
      ∙ bit_or-zero (u32 (index <<< 12))
      ∙ omega arith in
    rw low (
      bit_or_comm (index * 4096) 0xFFC00000 (omega arith) (omega arith)
      ∙ bit_or_apart 22 1023 (index * 4096) (omega arith))

-- The last entry of the directory in use leads to the table of tables.
pub record Reaches (m : Memory) (cr3 etable : ℕ) : Type 0 where
  pub present : get_present (m cr3 1023) ≡ true
  pub small : get_4mb_page_size (m cr3 1023) ≡ false
  pub target : get_frame (m cr3 1023) ≡ etable

pub get_frame-aligned : (entry : ℕ) → get_frame entry % 4096 ≡ 0
get_frame-aligned entry = omega (arith, get_frame_lem entry)

module _ (mmu : Mmu) (m : Memory) (cr3 etable index : ℕ) (r : Reaches m cr3 etable)
    (small : index < 1024) (here : get_present (m etable index) ≡ true) where
  translate-page_table :
      (i : ℕ)
      → i < 1024
      → mmu.translate m cr3 (get_page_table_virtual_address index + i * 4)
        ≡ some (get_frame (m etable index) + i * 4)
  translate-page_table i h =
      let v = 0xFFC00000 + index * 4096 + i * 4 in
      let d : v / 0x400000 ≡ 1023 = omega arith in
      let t : v / 4096 % 1024 ≡ index = omega arith in
      let o : v % 4096 ≡ i * 4 = omega arith in
      let dir : directory_entry m cr3 v ≡ m cr3 1023 = ap (m cr3) d in
      let tab : table_entry m cr3 v ≡ m etable index = rw (d, r.target, t) in
      rw (page_table_address index small)
        (mmu.translate_lem m cr3 v (rw dir r.present) (rw dir r.small) (rw tab here) ∙ rw (tab, o))

  -- A store to entry `i` of the page table `index` goes to its frame.
  pub store-page_table :
      (i x : ℕ)
      → i < 1024
      → store_word mmu m cr3 (get_page_table_virtual_address index + i * 4) x
        ≡ some (write m (get_frame (m etable index)) i x)
  unfolding store_word
  store-page_table i x h =
      let frame = get_frame (m etable index) in
      let al = get_frame-aligned (m etable index) in
      let f : (frame + i * 4) / 4096 * 4096 ≡ frame = omega arith in
      let w : (frame + i * 4) % 4096 / 4 ≡ i = omega arith in
      rw (translate-page_table i h, store_word) (rw (f, w))

  -- Clearing the page table `index` clears its frame.
  pub clear-page_table :
      clear_page mmu m cr3 (get_page_table_virtual_address index)
      ≡ some
          (λ frame j. if (get_frame (m etable index) == frame) && ltb j 1024 then 0 else m frame j)
  unfolding clear_page
  clear-page_table =
      let a = get_page_table_virtual_address index in
      let frame = get_frame (m etable index) in
      let al = get_frame-aligned (m etable index) in
      let z : a + 0 * 4 ≡ a = omega arith in
      let z' : frame + 0 * 4 ≡ frame = omega arith in
      let at = (rw (z, z') at (translate-page_table 0 (omega arith))) in
      let f : frame / 4096 * 4096 ≡ frame = omega arith in rw (at, clear_page) (rw f)
