-- ===== src/PagingEntry/Laws.antt =====
-- What the setters of a paging entry write, the getters read.
use avi_kernel.Base.{
  ℕ, ◌+◌, ◌*◌, ◌/◌, ◌%◌, ◌^◌, ◌<◌, Bool, true, false, ◌≡◌, ◌∙◌, refl, arith, bit_and, ◌==◌,
  if◌then◌else◌, Bool-cases, inl, inr, u32, not32,
}
use avi_kernel.Bits.{
  bit_at, bit_at_ext, bit_at-bit_and, bit_and-lt, bit_and_ones, bit_and_shifted, bit_or_apart,
  bit_or_comm,
}
use avi_kernel.Bitmap.Laws.{bit-put, test-bit, HoldsWords-put}
use avi_kernel.PagingEntry.{
  at_entry, put_flag, test_flag, set_frame, set_present, set_writeable, set_requires_supervisor,
  get_present, get_writeable, get_requires_supervisor, get_accessed, get_frame, paging_entry,
  get_dirty, set_4mb_page_size, get_4mb_page_size, page_directory_entry, frame_mask,
}

bit_at-put_flag :
    (entry flag j : ℕ) (b : Bool)
    → flag < 32
    → j < 32
    → bit_at (put_flag entry flag b) j
      ≡ (if flag == j then (if b then 1 else 0) else bit_at entry j)
unfolding put_flag
bit_at-put_flag entry flag j b hf hj =
    let q : j / 32 ≡ 0 = omega arith in
    let r : j % 32 ≡ j = omega arith in (rw (q, r) at (bit-put (at_entry entry) flag j b))

test_flag-bit_at : (entry flag : ℕ) → flag < 31 → test_flag entry flag ≡ (bit_at entry flag == 1)
unfolding test_flag
test_flag-bit_at entry flag h =
    let r : flag % 32 ≡ flag = omega arith in test-bit (at_entry entry) flag ∙ rw r (ground arith)

put_flag-lt : (entry flag : ℕ) (b : Bool) → entry < 2 ^ 32 → put_flag entry flag b < 2 ^ 32
unfolding put_flag
put_flag-lt entry flag b h = HoldsWords-put (at_entry entry) flag b (λ i. h) 0

pub get_frame_lem : (entry : ℕ) → get_frame entry ≡ entry / 4096 % 2 ^ 20 * 4096
unfolding get_frame
get_frame_lem entry = bit_and_shifted 12 entry 0xFFFFF ∙ rw (bit_and_ones 20 (entry / 4096))

-- The frame's address over the flags.
set_frame_lem :
    (entry addr : ℕ) → addr < 2 ^ 32 → set_frame entry addr ≡ addr / 4096 * 4096 + entry % 4096
unfolding set_frame
set_frame_lem entry addr h =
    let flags : bit_and entry (not32 frame_mask) ≡ entry % 4096 = bit_and_ones 12 entry in
    let frame : bit_and (u32 addr) frame_mask ≡ addr / 4096 * 4096 =
      bit_and_shifted 12 (u32 addr) 0xFFFFF
      ∙ rw (bit_and_ones 20 (u32 addr / 4096)) (omega arith) in
    rw (flags, frame)
      (bit_or_comm (entry % 4096) (addr / 4096 * 4096) (omega arith) (omega arith)
        ∙ bit_or_apart 12 (addr / 4096) (entry % 4096) (omega arith))

-- The flags that the constructor sets, before the frame.
abbrev flags_of : Bool → Bool → Bool → ℕ
flags_of p w r = set_requires_supervisor (set_writeable (set_present 0 p) w) r

abbrev bit_of : Bool → ℕ
bit_of b = if b then 1 else 0

bit_at-flags_of :
    (p w r : Bool) (j : ℕ)
    → j < 32
    → bit_at (flags_of p w r) j ≡ (
        if 2 == j
        then bit_of r
        else if 1 == j
        then bit_of w
        else if 0 == j
        then bit_of p
        else bit_at 0 j)
unfolding set_present set_writeable set_requires_supervisor
bit_at-flags_of p w r j h =
    let a = put_flag 0 0 p in
    let b = put_flag a 1 w in
    ground (
      arith,
      bit_at-put_flag b 2 j r (omega arith) h,
      bit_at-put_flag a 1 j w (omega arith) h,
      bit_at-put_flag 0 0 j p (omega arith) h,
    )

paging_entry_lem :
    (p w r : Bool) (frame : ℕ)
    → frame < 2 ^ 32
    → paging_entry p w r frame ≡ frame / 4096 * 4096 + flags_of p w r % 4096
unfolding paging_entry
paging_entry_lem p w r frame h = set_frame_lem (flags_of p w r) frame h

-- What an entry says of its page, field by field.
pub record Describes (entry : ℕ) (present writeable requires_supervisor : Bool) (frame : ℕ)
    : Type 0 where
  pub present_bit : get_present entry ≡ present
  pub writeable_bit : get_writeable entry ≡ writeable
  pub supervisor_bit : get_requires_supervisor entry ≡ requires_supervisor
  pub not_accessed : get_accessed entry ≡ false
  pub not_dirty : get_dirty entry ≡ false
  pub frame_address : get_frame entry ≡ frame

bit_of_test : (b : Bool) → (bit_of b == 1) ≡ b
bit_of_test true = ground arith
bit_of_test false = ground arith

-- The entry that the constructor makes of a page-aligned frame below 4 GB reads back as it was
-- described, and as neither accessed nor dirty.
pub paging_entry-Describes :
    (p w r : Bool) (frame : ℕ)
    → frame < 2 ^ 32
    → frame % 4096 ≡ 0
    → Describes (paging_entry p w r frame) p w r frame
unfolding get_present get_writeable get_requires_supervisor get_accessed get_dirty
paging_entry-Describes p w r frame h aligned =
    let e = paging_entry_lem p w r frame h in
    let entry = paging_entry p w r frame in
    let f = bit_at-flags_of p w r in
    record {
      present_bit = ground (arith, test_flag-bit_at entry 0 (omega arith), e, f 0 (omega arith));
      writeable_bit = ground (arith, test_flag-bit_at entry 1 (omega arith), e, f 1 (omega arith));
      supervisor_bit = ground (arith, test_flag-bit_at entry 2 (omega arith), e, f 2 (omega arith));
      not_accessed = ground (arith, test_flag-bit_at entry 5 (omega arith), e, f 5 (omega arith));
      not_dirty = ground (arith, test_flag-bit_at entry 6 (omega arith), e, f 6 (omega arith));
      frame_address = omega (arith, get_frame_lem entry, e);
    }

-- A flag that stands outside the frame's bits leaves the frame.
get_frame-put_flag :
    (entry flag : ℕ) (b : Bool)
    → entry < 2 ^ 32
    → flag < 32
    → bit_at frame_mask flag ≡ 0
    → get_frame (put_flag entry flag b) ≡ get_frame entry
unfolding get_frame
get_frame-put_flag entry flag b h hf out =
    let entry' = put_flag entry flag b in
    let same : (k : ℕ)
        → k < 32
        → bit_at (bit_and entry' frame_mask) k ≡ bit_at (bit_and entry frame_mask) k =
      λ k hk.
        rw (bit_at-bit_and entry' frame_mask k, bit_at-bit_and entry frame_mask k)
          (elim (Bool-cases (flag == k)) [
            | inl at ↦ let e : k ≡ flag = ground arith in rw e (rw out (omega arith))
            | inr off ↦ rw (bit_at-put_flag entry flag k b hf hk, off)
          ]) in
    bit_at_ext 32 (bit_and entry' frame_mask) (bit_and entry frame_mask)
      (bit_and-lt 32 entry' frame_mask (put_flag-lt entry flag b h))
      (bit_and-lt 32 entry frame_mask h) same

pub get_frame-lt : (entry : ℕ) → entry < 2 ^ 32 → get_frame entry < 2 ^ 32
unfolding get_frame
get_frame-lt entry h = bit_and-lt 32 entry frame_mask h

test_flag-put_flag :
    (entry flag other : ℕ) (b : Bool)
    → flag < 31
    → other < 31
    → test_flag (put_flag entry flag b) other ≡ (if flag == other then b else test_flag entry other)
test_flag-put_flag entry flag other b h ho = ground (
  arith,
  test_flag-bit_at (put_flag entry flag b) other ho,
  bit_at-put_flag entry flag other b (omega arith) (omega arith),
  test_flag-bit_at entry other ho,
)

-- The directory entry that the constructor makes of a page-aligned frame below 4 GB reads back as it
-- was described, with its page size, and as neither accessed nor dirty.
pub page_directory_entry-Describes :
    (p w r large : Bool) (frame : ℕ)
    → frame < 2 ^ 32
    → frame % 4096 ≡ 0
    → Describes (page_directory_entry p w r large frame) p w r frame
      × (get_4mb_page_size (page_directory_entry p w r large frame) ≡ large)
unfolding page_directory_entry set_4mb_page_size get_present get_writeable get_requires_supervisor
    get_accessed get_dirty get_4mb_page_size
page_directory_entry-Describes p w r large frame h aligned =
    let entry = paging_entry p w r frame in
    let fits : entry < 2 ^ 32 = omega (arith, paging_entry_lem p w r frame h) in
    let d = paging_entry-Describes p w r frame h aligned in
    let read =
      λ (flag : ℕ) (lt : flag < 31). test_flag-put_flag entry 7 flag large (omega arith) lt in
    (
      record {
        present_bit = read 0 (omega arith) ∙ d.present_bit;
        writeable_bit = read 1 (omega arith) ∙ d.writeable_bit;
        supervisor_bit = read 2 (omega arith) ∙ d.supervisor_bit;
        not_accessed = read 5 (omega arith) ∙ d.not_accessed;
        not_dirty = read 6 (omega arith) ∙ d.not_dirty;
        frame_address = get_frame-put_flag entry 7 large fits (omega arith) refl ∙ d.frame_address;
      },
      read 7 (omega arith),
    )
