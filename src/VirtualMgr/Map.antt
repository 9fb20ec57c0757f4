-- ===== src/VirtualMgr/Map.antt =====
-- `VirtualMgr::map`: afterwards the page leads to the frame, and no other page leads elsewhere.
use avi_kernel.Base.{
  ℕ, ◌+◌, ◌*◌, ◌/◌, ◌%◌, ◌^◌, ◌<◌, Bool, true, false, some, ◌≡◌, ◌≢◌, ◌∙◌, refl, sym, ap, arith,
  ◌==◌, if◌then◌else◌, Bool-cases, ◌⊎◌, inl, inr, u32,
}
use avi_kernel.Bitmap.Laws.{bit}
use avi_kernel.PhysicalMgr.{allocate_block}
use avi_kernel.PhysicalMgr.Allocate.{blocks, Takes, allocate_block_outcome}
use avi_kernel.PagingEntry.{get_present, get_frame, paging_entry}
use avi_kernel.PagingEntry.Laws.{Describes, paging_entry-Describes}
use avi_kernel.VirtualMgr.Processor.{Memory, write, Mmu, store_word}
use avi_kernel.VirtualMgr.Access.{directory_index_lem, table_index_lem, store-page_table}
use avi_kernel.VirtualMgr.{
  Statics, Machine, done, and_then, access, directory_frame, etable_frame, create_page_table, map,
  get_page_table_virtual_address,
}
use avi_kernel.VirtualMgr.Invariant.{IsPaged, IsPlaced, page_of}
use avi_kernel.VirtualMgr.Create.{
  after, create_page_table-done, after-IsPaged, after-IsPlaced, after-present, after-page_of,
}

write_self : (m : Memory) (frame i x : ℕ) → write m frame i x frame i ≡ x
unfolding write
write_self m frame i x = ground arith

write-ne :
    (m : Memory) (frame frame' i j x : ℕ)
    → (frame ≢ frame') ⊎ (i ≢ j)
    → write m frame i x frame' j ≡ m frame' j
unfolding write
write-ne m frame frame' i j x ne = ground arith

-- The machine after the store of `entry` for address `v` in a page table that is there.
abbrev pub stored_at : Statics → Machine → ℕ → ℕ → Machine
stored_at k m v entry = record m {
  memory =
      write m.memory (get_frame (m.memory (etable_frame k) (v / 0x400000))) (v / 4096 % 1024) entry;
}

module _ (k : Statics) (m : Machine) (p : IsPaged k m) (q : IsPlaced k m) (v entry : ℕ)
    (low : v < 0xFFC00000)
    (here : get_present (m.memory (etable_frame k) (v / 0x400000)) ≡ true) where
  abbrev table : ℕ
  table = get_frame (m.memory (etable_frame k) (v / 0x400000))

  abbrev stored : Machine
  stored = stored_at k m v entry

  stored-other : (frame j : ℕ) → table ≢ frame → stored.memory frame j ≡ m.memory frame j
  unfolding write
  stored-other frame j ne = ground arith

  table_facts : (table ≢ etable_frame k) × (table ≢ directory_frame k) × (table ≢ m.cr3)
  table_facts = p.apart (v / 0x400000) (omega arith) here

  pub stored-IsPaged : IsPaged k stored
  stored-IsPaged = record {
    reaches =
        let e = stored-other m.cr3 1023 table_facts.2 in
        record {
          present = rw e p.reaches.present;
          small = rw e p.reaches.small;
          target = rw e p.reaches.target;
        };
    in_step = λ i. rw (et i, dir i) (p.in_step i);
    same_frame = λ i. rw (et i, dir i) (p.same_frame i);
    used = λ i. rw (et i) (p.used i);
    apart = λ i. rw (et i) (p.apart i);
    different = λ i j. rw (et i, et j) (p.different i j);
  }
    where
      et : (i : ℕ) → stored.memory (etable_frame k) i ≡ m.memory (etable_frame k) i
      et i = stored-other (etable_frame k) i table_facts.0

      dir : (i : ℕ) → stored.memory (directory_frame k) i ≡ m.memory (directory_frame k) i
      dir i = stored-other (directory_frame k) i table_facts.1

  -- The walk for `v` ends at the new entry.
  pub stored-page_of : get_present entry ≡ true → page_of k stored v ≡ some (get_frame entry)
  stored-page_of present =
      let d = stored-other (directory_frame k) (v / 0x400000) table_facts.1 in
      let f = p.same_frame (v / 0x400000) (omega arith) here in
      let there = sym (p.in_step (v / 0x400000) (omega arith)) ∙ here in
      let at : stored.memory table (v / 4096 % 1024) ≡ entry =
        write_self m.memory table (v / 4096 % 1024) entry in
      rw (d, ← f, at, present, there)

  -- The entry for an address of another page is another word.
  other_word :
      (w : ℕ)
      → w < 0xFFC00000
      → w / 4096 ≢ v / 4096
      → get_present (m.memory (directory_frame k) (w / 0x400000)) ≡ true
      → let frame = get_frame (m.memory (directory_frame k) (w / 0x400000)) in
        stored.memory frame (w / 4096 % 1024) ≡ m.memory frame (w / 4096 % 1024)
  other_word w hw ne there =
      let here' = p.in_step (w / 0x400000) (omega arith) ∙ there in
      let f = p.same_frame (w / 0x400000) (omega arith) here' in
      elim (Bool-cases (v / 0x400000 == w / 0x400000)) [
        | inl same ↦
            write-ne m.memory table (get_frame (m.memory (directory_frame k) (w / 0x400000)))
              (v / 4096 % 1024) (w / 4096 % 1024) entry (inr (λ e. ne (ground arith)))
        | inr off ↦
            write-ne m.memory table (get_frame (m.memory (directory_frame k) (w / 0x400000)))
              (v / 4096 % 1024) (w / 4096 % 1024) entry
              (inl (λ e.
                p.different (v / 0x400000) (w / 0x400000) (omega arith) (omega arith) (ground arith)
                  here here' (e ∙ sym f)))
      ]

  -- The walk for an address of another page reads what it read before.
  pub stored-page_of_other :
      (w : ℕ) → w < 0xFFC00000 → w / 4096 ≢ v / 4096 → page_of k stored w ≡ page_of k m w
  stored-page_of_other w hw ne =
      let d = stored-other (directory_frame k) (w / 0x400000) table_facts.1 in
      rw d (elim (Bool-cases (get_present (m.memory (directory_frame k) (w / 0x400000)))) [
        | inl there ↦ rw (other_word w hw ne there)
        | inr not_there ↦ rw not_there
      ])

-- What `map` owes: the state is in order, the page leads to the frame, the others lead where they
-- led.
pub record Maps (k : Statics) (m : Machine) (v p_addr : ℕ) (m' : Machine) : Type 0 where
  pub paged : IsPaged k m'
  pub placed : IsPlaced k m'
  pub page : page_of k m' v ≡ some p_addr
  pub others : (w : ℕ) → w < 0xFFC00000 → w / 4096 ≢ v / 4096 → page_of k m' w ≡ page_of k m w

module _ (mmu : Mmu) (k : Statics) (v p_addr : ℕ) (supervisor : Bool) (low : v < 0xFFC00000)
    (v_aligned : v % 4096 ≡ 0) (fits : p_addr < 2 ^ 32) (p_aligned : p_addr % 4096 ≡ 0) where
  new_entry-Describes :
      Describes (paging_entry true true supervisor p_addr) true true supervisor p_addr
  new_entry-Describes = paging_entry-Describes true true supervisor p_addr fits p_aligned

  -- `map` past its checks, with the indices as quotients.
  map_lem :
      (m : Machine)
      → map mmu k v p_addr supervisor m
        ≡ and_then
            (if get_present (m.memory (etable_frame k) (v / 0x400000))
              then done m
              else create_page_table mmu k (v / 0x400000) m)
            (λ m'. access m' (
              store_word mmu m'.memory m'.cr3
                (get_page_table_virtual_address (v / 0x400000) + v / 4096 % 1024 * 4)
                (paging_entry true true supervisor p_addr)))
  unfolding map
  map_lem m =
      let a : u32 v % 4096 == 0 ≡ true = ground arith in
      let b : u32 p_addr % 4096 == 0 ≡ true = ground arith in
      rw (directory_index_lem v (omega arith), table_index_lem v (omega arith), a, b)

  -- With the page table there, one store is left.
  store_access :
      (m : Machine)
      → IsPaged k m
      → get_present (m.memory (etable_frame k) (v / 0x400000)) ≡ true
      → access m (
          store_word mmu m.memory m.cr3
            (get_page_table_virtual_address (v / 0x400000) + v / 4096 % 1024 * 4)
            (paging_entry true true supervisor p_addr))
        ≡ done (stored_at k m v (paging_entry true true supervisor p_addr))
  store_access m p here = rw (
      store-page_table mmu m.memory m.cr3 (etable_frame k) (v / 0x400000) p.reaches (omega arith)
        here (v / 4096 % 1024) (paging_entry true true supervisor p_addr) (omega arith))

  stored-Maps :
      (m m₀ : Machine)
      → IsPaged k m
      → IsPlaced k m
      → get_present (m.memory (etable_frame k) (v / 0x400000)) ≡ true
      → ((w : ℕ) → w < 0xFFC00000 → page_of k m w ≡ page_of k m₀ w)
      → Maps k m₀ v p_addr (stored_at k m v (paging_entry true true supervisor p_addr))
  stored-Maps m m₀ p q here same =
      let entry = paging_entry true true supervisor p_addr in
      record {
        paged = stored-IsPaged k m p q v entry low here;
        placed = record {
          arrays_apart = q.arrays_apart;
          etable_apart = q.etable_apart;
          etable_aligned = q.etable_aligned;
          directory_aligned = q.directory_aligned;
          cr3_aligned = q.cr3_aligned;
          etable_used = q.etable_used;
          directory_used = q.directory_used;
          cr3_used = q.cr3_used;
          words = q.words;
          small = q.small;
        };
        page =
            stored-page_of k m p q v entry low here new_entry-Describes.present_bit
            ∙ ap some new_entry-Describes.frame_address;
        others = λ w h ne. stored-page_of_other k m p q v entry low here w h ne ∙ same w h;
      }

  map-created :
      (m : Machine) (p : IsPaged k m) (q : IsPlaced k m) (b : ℕ)
      → get_present (m.memory (etable_frame k) (v / 0x400000)) ≡ false
      → Takes m.physical b (allocate_block m.physical)
      → (m' : Machine) × (map mmu k v p_addr supervisor m ≡ done m') × Maps k m v p_addr m'
  map-created m p q b absent t =
      let index = v / 0x400000 in
      let small : index < 1023 = omega arith in
      let m₁ = after mmu k m p q index b small absent t in
      let p₁ = after-IsPaged mmu k m p q index b small absent t in
      let q₁ = after-IsPlaced mmu k m p q index b small absent t in
      let here = after-present mmu k m p q index b small absent t in
      (
        stored_at k m₁ v (paging_entry true true supervisor p_addr),
        map_lem m
            ∙ rw (absent, create_page_table-done mmu k m p q index b small absent t)
                (store_access m₁ p₁ here),
        stored-Maps m₁ m p₁ q₁ here (after-page_of mmu k m p q index b small absent t),
      )

  -- For a page below the last 4 MB and a frame below 4 GB, both aligned, on a machine in order, if the
  -- page table is there or some block is free to become it: `map` succeeds, the machine is in order, the
  -- kernel's page tables lead from the page to the frame, and from every other page below the last 4 MB
  -- where they led before.
  pub map-Maps :
      (m : Machine)
      → IsPaged k m
      → IsPlaced k m
      → (get_present (m.memory (etable_frame k) (v / 0x400000)) ≡ true)
        ⊎ ((b : ℕ) × (b < blocks m.physical) × (bit m.physical.cells b ≡ 0))
      → (m' : Machine) × (map mmu k v p_addr supervisor m ≡ done m') × Maps k m v p_addr m'
  map-Maps m p q room = elim (Bool-cases (get_present (m.memory (etable_frame k) (v / 0x400000)))) [
    | inl here ↦ (
      stored_at k m v (paging_entry true true supervisor p_addr),
      map_lem m ∙ rw here (store_access m p here),
      stored-Maps m m p q here (λ w h. refl),
    )
    | inr absent ↦ elim room [
      | inl here ↦ cc
      | inr (b, lt, free) ↦ elim (allocate_block_outcome m.physical q.words) [
        | inl (full, _) ↦ absurd (let one = full b lt in omega arith)
        | inr (c, t) ↦ map-created m p q c absent t
      ]
    ]
  ]
