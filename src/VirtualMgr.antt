-- ===== src/VirtualMgr.antt =====
-- src/kernel/mm/virtual_mgr/virtual_mgr.cpp: the page tables. A page table is reached through the
-- last entry of the directory, behind which stands `page_etable`, the table of all tables.
-- The processor's address translation is a parameter with the law that its manual documents. Caches
-- are not modelled, so `invalidate_cache` and the reload of cr3 have no effect here.
pub mod Processor
pub mod Access
pub mod Invariant
pub mod Created
pub mod Create
pub mod Map
use Processor.{Memory, Mmu, store_word, clear_page, write}
use avi_kernel.Base.{
  ℕ, zero, suc, ◌+◌, ◌-◌, ◌*◌, ◌/◌, ◌%◌, ◌^◌, Bool, true, false, ◌&&◌, Option, none, some, bit_and,
  bit_or, ◌==◌, if◌then◌else◌, u32, sub32, ◌<<<◌, ◌>>>◌,
}
use avi_kernel.PhysicalMgr.{PhysicalMgr, allocate_block}
use avi_kernel.PagingEntry.{get_present, paging_entry, page_directory_entry}

abbrev pub page_size : ℕ
page_size = 4096

abbrev pub get_page_directory_index : ℕ → ℕ
get_page_directory_index v = bit_and (u32 v >>> 22) 0x3FF

abbrev pub get_page_table_index : ℕ → ℕ
get_page_table_index v = bit_and (u32 v >>> 12) 0x3FF

abbrev pub set_page_directory_index : ℕ → ℕ → ℕ
set_page_directory_index v index = bit_or v (u32 (index <<< 22))

abbrev pub set_page_table_index : ℕ → ℕ → ℕ
set_page_table_index v index = bit_or v (u32 (index <<< 12))

abbrev pub kernel_virtual_base_addr : ℕ
kernel_virtual_base_addr = 0xC0000000

abbrev pub kernel_virtual_addr_to_physical : ℕ → ℕ
kernel_virtual_addr_to_physical v = sub32 v kernel_virtual_base_addr

abbrev pub page_etable_directory_index : ℕ
page_etable_directory_index = 1023

-- The virtual addresses that the linker gave the two static arrays.
pub record Statics : Type 0 where
  pub page_directory : ℕ
  pub page_etable : ℕ

-- The kernel's own addresses are mapped at a fixed distance, so its arrays stand there.
abbrev pub directory_frame : Statics → ℕ
directory_frame k = kernel_virtual_addr_to_physical k.page_directory

abbrev pub etable_frame : Statics → ℕ
etable_frame k = kernel_virtual_addr_to_physical k.page_etable

pub record Machine : Type 0 where
  pub memory : Memory
  pub cr3 : ℕ
  pub physical : PhysicalMgr

-- `panic`, and an access to an address that is not mapped.
pub data Outcome : Type 0 where
  done : Machine → Outcome
  panic page_fault : Outcome

abbrev pub and_then : Outcome → (Machine → Outcome) → Outcome
and_then (done m) f = f m
and_then panic f = panic
and_then page_fault f = page_fault

-- A memory access of the machine: a fault, or the new memory.
abbrev pub access : Machine → Option Memory → Outcome
access m none = page_fault
access m (some memory) = done (record m { memory = memory })

unfoldable pub get_page_table_virtual_address : ℕ → ℕ
get_page_table_virtual_address index =
    set_page_directory_index (set_page_table_index 0 index) page_etable_directory_index

module _ (mmu : Mmu) (k : Statics) where
  -- The branch of `map` for a page table that does not exist.
  unfoldable pub create_page_table : ℕ → Machine → Outcome
  create_page_table index m =
      let (table, physical) = allocate_block m.physical in
      let etable = write m.memory (etable_frame k) index (paging_entry true true true table) in
      let memory =
        write etable (directory_frame k) index (page_directory_entry true true true false table) in
      access (record { memory = memory; cr3 = m.cr3; physical = physical })
        (clear_page mmu memory m.cr3 (get_page_table_virtual_address index))

  unfoldable pub map : ℕ → ℕ → Bool → Machine → Outcome
  map v_addr p_addr requires_supervisor m =
      let index_in_page_directory = get_page_directory_index v_addr in
      let index_in_page_table = get_page_table_index v_addr in
      let page_table = get_page_table_virtual_address index_in_page_directory in
      let entry = paging_entry true true requires_supervisor p_addr in
      if u32 v_addr % page_size == 0
      then if u32 p_addr % page_size == 0
        then and_then
            (if get_present (m.memory (etable_frame k) index_in_page_directory)
              then done m
              else create_page_table index_in_page_directory m)
            (λ m'.
              access m'
                (store_word mmu m'.memory m'.cr3 (page_table + index_in_page_table * 4) entry))
        else panic
      else panic

  -- `count` pages from the two addresses on.
  unfoldable pub map_range : ℕ → ℕ → ℕ → Bool → Machine → Outcome
  map_range v_addr p_addr zero requires_supervisor m = done m
  map_range v_addr p_addr (suc count) requires_supervisor m =
      and_then (map v_addr p_addr requires_supervisor m)
        (map_range (u32 (v_addr + page_size)) (u32 (p_addr + page_size)) count requires_supervisor)

-- The entry goes into the directory that cr3 holds. That address is used as a virtual one, which the
-- identity mapping of the first 4 MB makes the same.
unfoldable pub put_page_etable : Statics → Machine → Machine
put_page_etable k m = record m {
  memory =
      write m.memory m.cr3 page_etable_directory_index
        (page_directory_entry true true true false (etable_frame k));
}

-- `memset(page_etable, 0, …)`.
unfoldable pub clear_etable : Statics → Machine → Machine
clear_etable k m = record m {
  memory = λ frame i. if frame == etable_frame k then 0 else m.memory frame i;
}

unfoldable pub initialize : Mmu → Statics → Machine → Outcome
initialize mmu k m =
    let pages = 0x400000 / page_size in
    let m₁ = put_page_etable k (clear_etable k m) in
    and_then (map_range mmu k kernel_virtual_base_addr 0 pages true m₁) λ m₂.
      and_then (map_range mmu k 0 0 pages true m₂)
        λ m₃. done (put_page_etable k (record m₃ { cr3 = directory_frame k }))
