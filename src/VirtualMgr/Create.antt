-- ===== src/VirtualMgr/Create.antt =====
-- The branch of `VirtualMgr::map` that creates a page table keeps the state in order.
use avi_kernel.Base.{
  ℕ, ◌*◌, ◌/◌, ◌%◌, ◌^◌, ◌<◌, true, false, ◌&&◌, none, some, ◌≡◌, ◌≢◌, ◌∙◌, refl, sym, arith, ◌==◌,
  if◌then◌else◌, Bool-cases, ◌⊎◌, inl, inr,
}
use avi_kernel.Bitmap.Laws.{HoldsWords-set}
use avi_kernel.PhysicalMgr.{allocate_block}
use avi_kernel.PhysicalMgr.Allocate.{Takes}
use avi_kernel.PagingEntry.{
  get_present, get_4mb_page_size, get_frame, paging_entry, page_directory_entry,
}
use avi_kernel.PagingEntry.Laws.{Describes, paging_entry-Describes, page_directory_entry-Describes}
use avi_kernel.VirtualMgr.Processor.{Memory, write, Mmu, clear_page}
use avi_kernel.VirtualMgr.Access.{Reaches, clear-page_table}
use avi_kernel.VirtualMgr.{
  Statics, Machine, done, directory_frame, etable_frame, create_page_table,
  get_page_table_virtual_address,
}
use avi_kernel.VirtualMgr.Invariant.{InUse, IsPaged, IsPlaced, page_of}
use avi_kernel.VirtualMgr.Created.{
  fresh, created, created-etable, created-directory, created-other, created-table, get_present-zero,
}

module _ (mmu : Mmu) (k : Statics) (m : Machine) (p : IsPaged k m) (q : IsPlaced k m) (index b : ℕ)
    (small : index < 1023) (absent : get_present (m.memory (etable_frame k) index) ≡ false)
    (t : Takes m.physical b (allocate_block m.physical)) where
  table_is : (allocate_block m.physical).0 ≡ b * 4096
  table_is = omega (arith, t.address, t.in_range, q.small)

  in_32_bits : b * 4096 < 2 ^ 32
  in_32_bits = omega (arith, t.in_range, q.small)

  table_entry-Describes :
      Describes (paging_entry true true true (b * 4096)) true true true (b * 4096)
  table_entry-Describes = paging_entry-Describes true true true (b * 4096) in_32_bits (omega arith)

  entry-Describes :
      Describes (page_directory_entry true true true false (b * 4096)) true true true (b * 4096)
      × (get_4mb_page_size (page_directory_entry true true true false (b * 4096)) ≡ false)
  entry-Describes =
      page_directory_entry-Describes true true true false (b * 4096) in_32_bits (omega arith)

  -- The two entries are written before the table is cleared.
  listed : Memory
  listed =
      write (write m.memory (etable_frame k) index (paging_entry true true true (b * 4096)))
        (directory_frame k) index (page_directory_entry true true true false (b * 4096))

  listed-cr3 : listed m.cr3 1023 ≡ m.memory m.cr3 1023
  unfolding listed write
  listed-cr3 = ground arith

  listed-Reaches : Reaches listed m.cr3 (etable_frame k)
  listed-Reaches = record {
    present = rw listed-cr3 p.reaches.present;
    small = rw listed-cr3 p.reaches.small;
    target = rw listed-cr3 p.reaches.target;
  }

  listed-index : listed (etable_frame k) index ≡ paging_entry true true true (b * 4096)
  unfolding listed write
  listed-index = ground (arith, q.arrays_apart)

  abbrev pub after : Machine
  after = record {
    memory = created k m.memory index (b * 4096);
    cr3 = m.cr3;
    physical = (allocate_block m.physical).1;
  }

  listed-cleared :
      clear_page mmu listed m.cr3 (get_page_table_virtual_address index)
      ≡ some (created k m.memory index (b * 4096))
  unfolding created listed
  listed-cleared =
      let present : get_present (listed (etable_frame k) index) ≡ true =
        rw listed-index table_entry-Describes.present_bit in
      let frame : get_frame (listed (etable_frame k) index) ≡ b * 4096 =
        rw listed-index table_entry-Describes.frame_address in
      let at =
        clear-page_table mmu listed m.cr3 (etable_frame k) index listed-Reaches (omega arith)
          present in
      (rw frame at at)

  pub create_page_table-done : create_page_table mmu k index m ≡ done after
  unfolding create_page_table listed
  create_page_table-done = rw (table_is, listed-cleared)

  fresh_facts : (b * 4096 ≢ etable_frame k) × (b * 4096 ≢ directory_frame k) × (b * 4096 ≢ m.cr3)
  fresh_facts = (
    fresh m.physical (etable_frame k) b q.etable_used t.first.free,
    fresh m.physical (directory_frame k) b q.directory_used t.first.free,
    fresh m.physical m.cr3 b q.cr3_used t.first.free,
  )

  after-etable :
      (j : ℕ)
      → after.memory (etable_frame k) j ≡ (
          if index == j
          then paging_entry true true true (b * 4096)
          else m.memory (etable_frame k) j)
  after-etable j =
      created-etable k m.memory index (b * 4096) q.arrays_apart fresh_facts.0 fresh_facts.1 j

  after-directory :
      (j : ℕ)
      → after.memory (directory_frame k) j ≡ (
          if index == j
          then page_directory_entry true true true false (b * 4096)
          else m.memory (directory_frame k) j)
  after-directory j =
      created-directory k m.memory index (b * 4096) q.arrays_apart fresh_facts.0 fresh_facts.1 j

  after-cr3 : after.memory m.cr3 1023 ≡ m.memory m.cr3 1023
  unfolding created write
  after-cr3 = ground (arith, fresh_facts.2)

  InUse-after : (frame : ℕ) → InUse m.physical frame → InUse after.physical frame
  InUse-after frame h = ground (arith, t.marked (frame / 4096))

  -- An entry afterwards: the new one, or what it was.
  after_cases :
      (i : ℕ)
      → ((index ≡ i)
          × (after.memory (etable_frame k) i ≡ paging_entry true true true (b * 4096))
          × (after.memory (directory_frame k) i
              ≡ page_directory_entry true true true false (b * 4096)))
        ⊎ ((index ≢ i)
            × (after.memory (etable_frame k) i ≡ m.memory (etable_frame k) i)
            × (after.memory (directory_frame k) i ≡ m.memory (directory_frame k) i))
  after_cases i = elim (Bool-cases (index == i)) [
    | inl at ↦ inl (ground arith, after-etable i ∙ rw at, after-directory i ∙ rw at)
    | inr off ↦ inr (ground arith, after-etable i ∙ rw off, after-directory i ∙ rw off)
  ]

  new_frame : get_frame (paging_entry true true true (b * 4096)) ≡ b * 4096
  new_frame = table_entry-Describes.frame_address

  fresh_table :
      (j : ℕ)
      → j < 1023
      → get_present (m.memory (etable_frame k) j) ≡ true
      → b * 4096 ≢ get_frame (m.memory (etable_frame k) j)
  fresh_table j h here =
      fresh m.physical (get_frame (m.memory (etable_frame k) j)) b (p.used j h here) t.first.free

  after-different :
      (i j : ℕ)
      → i < 1023
      → j < 1023
      → i ≢ j
      → get_present (after.memory (etable_frame k) i) ≡ true
      → get_present (after.memory (etable_frame k) j) ≡ true
      → get_frame (after.memory (etable_frame k) i) ≢ get_frame (after.memory (etable_frame k) j)
  after-different i j hi hj ne = elim (after_cases i) [
    | inl (ei, ni, _) ↦ elim (after_cases j) [
      | inl (ej, _, _) ↦ absurd (ne (sym ei ∙ ej))
      | inr (_, oj, _) ↦ rw (ni, oj, new_frame) λ _ here. fresh_table j hj here
    ]
    | inr (_, oi, _) ↦ elim (after_cases j) [
      | inl (_, nj, _) ↦ rw (oi, nj, new_frame) λ here _ e. fresh_table i hi here (sym e)
      | inr (_, oj, _) ↦ rw (oi, oj) (p.different i j hi hj ne)
    ]
  ]

  -- The state is in order afterwards.
  pub after-IsPaged : IsPaged k after
  after-IsPaged = record {
    reaches = record {
      present = rw after-cr3 p.reaches.present;
      small = rw after-cr3 p.reaches.small;
      target = rw after-cr3 p.reaches.target;
    };
    in_step = λ i h. elim (after_cases i) [
      | inl (_, n, d) ↦
          rw (n, d) (table_entry-Describes.present_bit ∙ sym entry-Describes.0.present_bit)
      | inr (_, o, d) ↦ rw (o, d) (p.in_step i h)
    ];
    same_frame = λ i h. elim (after_cases i) [
      | inl (_, n, d) ↦ rw (n, d) λ _. new_frame ∙ sym entry-Describes.0.frame_address
      | inr (_, o, d) ↦ rw (o, d) (p.same_frame i h)
    ];
    used = λ i h. elim (after_cases i) [
      | inl (_, n, d) ↦ rw (n, new_frame) λ _. ground (arith, t.marked (b * 4096 / 4096))
      | inr (_, o, d) ↦
          rw o λ here. InUse-after (get_frame (m.memory (etable_frame k) i)) (p.used i h here)
    ];
    apart = λ i h. elim (after_cases i) [
      | inl (_, n, d) ↦ rw (n, new_frame) λ _. fresh_facts
      | inr (_, o, d) ↦ rw o (p.apart i h)
    ];
    different = after-different;
  }

  pub after-IsPlaced : IsPlaced k after
  after-IsPlaced = record {
    arrays_apart = q.arrays_apart;
    etable_apart = q.etable_apart;
    etable_aligned = q.etable_aligned;
    directory_aligned = q.directory_aligned;
    cr3_aligned = q.cr3_aligned;
    etable_used = InUse-after (etable_frame k) q.etable_used;
    directory_used = InUse-after (directory_frame k) q.directory_used;
    cr3_used = InUse-after m.cr3 q.cr3_used;
    words = rw t.state (HoldsWords-set m.physical.cells b q.words);
    small = rw t.state q.small;
  }

  pub after-present : get_present (after.memory (etable_frame k) index) ≡ true
  after-present = elim (after_cases index) [
    | inl (_, n, _) ↦ rw n table_entry-Describes.present_bit
    | inr (ne, _, _) ↦ absurd (ne refl)
  ]

  same_table :
      (i j : ℕ)
      → i < 1023
      → (let d = m.memory (directory_frame k) i in
          let t = after.memory (get_frame d) j in
          let t' = m.memory (get_frame d) j in
          (if get_present d && get_present t then some (get_frame t) else none)
          ≡ (if get_present d && get_present t' then some (get_frame t') else none))
  same_table i j h = elim (Bool-cases (get_present (m.memory (directory_frame k) i))) [
    | inl here ↦
        let here' : get_present (m.memory (etable_frame k) i) ≡ true = p.in_step i h ∙ here in
        let e = p.same_frame i h here' in
        let apart = p.apart i h here' in
        let new = fresh_table i h here' in
        rw (
          created-other k m.memory index (b * 4096) q.arrays_apart fresh_facts.0 fresh_facts.1
            (get_frame (m.memory (directory_frame k) i)) j (λ x. apart.0 (e ∙ sym x))
            (λ x. apart.1 (e ∙ sym x)) (λ x. new (x ∙ sym e)))
    | inr not_here ↦ rw not_here
  ]

  -- No page leads elsewhere: an empty page table maps nothing.
  pub after-page_of : (v : ℕ) → v < 0xFFC00000 → page_of k after v ≡ page_of k m v
  after-page_of v h = elim (after_cases (v / 0x400000)) [
    | inl (at, n, d) ↦
        let old : get_present (m.memory (directory_frame k) (v / 0x400000)) ≡ false =
          (rw at at (sym (p.in_step index small) ∙ absent)) in
        rw (
          d,
          old,
          entry-Describes.0.frame_address,
          created-table k m.memory index (b * 4096) q.arrays_apart fresh_facts.0 fresh_facts.1
              (v / 4096 % 1024) (omega arith),
          get_present-zero,
          entry-Describes.0.present_bit,
        )
    | inr (off, o, d) ↦ rw d (same_table (v / 0x400000) (v / 4096 % 1024) (omega arith))
  ]
