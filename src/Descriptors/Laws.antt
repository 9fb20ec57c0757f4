-- ===== src/Descriptors/Laws.antt =====
-- What the processor reads from the descriptors.
use avi_kernel.Base.{
  ℕ, zero, suc, ◌+◌, ◌*◌, ◌/◌, ◌%◌, ◌^◌, ◌<◌, ◌≡◌, refl, ◌∙◌, ap, arith, ◌==◌, if◌then◌else◌, leb,
  ltb, ◌&&◌, true, false, bit_and, bit_or, ◌>>>◌, Bool-cases, inl, inr,
}
use avi_kernel.Bits.{bit_and_ones, bit_or_apart, bit_or_comm}
use avi_kernel.Descriptors.{
  GdtDescriptor, gdt_descriptor, IdtDescriptor, Idt, idt_descriptor, put_descriptor, put_from,
  cleared, put_descriptors,
}

-- The processor puts the base together from three fields, and the limit from two; the upper four bits
-- of the second are the granularity and the size.
abbrev pub base_of : GdtDescriptor → ℕ
base_of d = d.base_low + d.base_middle * 2 ^ 16 + d.base_high * 2 ^ 24

abbrev pub limit_of : GdtDescriptor → ℕ
limit_of d = d.limit_low + d.l_flags % 16 * 2 ^ 16

-- A segment's descriptor reads back as its 32-bit base and the lower 20 bits of its limit, and it counts
-- the limit in pages of a 32-bit segment.
pub gdt_descriptor_lem :
    (base limit flags : ℕ)
    → base < 2 ^ 32
    → limit < 2 ^ 32
    → (base_of (gdt_descriptor base limit flags) ≡ base)
      × (limit_of (gdt_descriptor base limit flags) ≡ limit % 2 ^ 20)
      × ((gdt_descriptor base limit flags).l_flags / 16 ≡ 0b1100)
unfolding gdt_descriptor
gdt_descriptor_lem base limit flags hb hl =
    let low = bit_and_ones 16 base in
    let middle = bit_and_ones 8 (base >>> 16) in
    let high = bit_and_ones 8 (base >>> 24) in
    let limit_low = bit_and_ones 16 limit in
    let limit_high : bit_and (limit >>> 16) 0xF ≡ (limit >>> 16) % 16 =
      bit_and_ones 4 (limit >>> 16) in
    let upper : bit_or ((limit >>> 16) % 16) 0b11000000 ≡ 12 * 16 + (limit >>> 16) % 16 =
      bit_or_comm ((limit >>> 16) % 16) 0b11000000 (omega arith) (omega arith)
      ∙ bit_or_apart 4 12 ((limit >>> 16) % 16) (omega arith) in
    rw (low, middle, high, limit_low, limit_high, upper) (omega arith, omega arith, omega arith)

-- The address of the routine that an interrupt enters.
abbrev pub handler_of : IdtDescriptor → ℕ
handler_of d = d.handler_lower + d.handler_higher * 2 ^ 16

put_from_lem :
    (isr : ℕ → ℕ) (rounds i j : ℕ) (idt : Idt)
    → put_from isr rounds i idt j
      ≡ (if leb i j && ltb j (i + rounds) then idt_descriptor (isr j) 0x8 0x80 else idt j)
unfolding put_from put_descriptor
put_from_lem isr zero i j idt = ground arith
put_from_lem isr (suc rounds) i j idt =
    let ih = put_from_lem isr rounds (i + 1) j (put_descriptor i (isr i) 0x8 0x80 idt) in
    elim (Bool-cases (i == j)) [
      | inl e ↦
          let at : i ≡ j = ground arith in
          let f : (leb (i + 1) j && ltb j (i + 1 + rounds)) ≡ false = ground arith in
          let t : (leb i j && ltb j (i + suc rounds)) ≡ true = ground arith in
          ih ∙ rw (f, e, t) (ap (λ k. idt_descriptor (isr k) 0x8 0x80) at)
      | inr e ↦
          let f : (leb (i + 1) j && ltb j (i + 1 + rounds)) ≡ (leb i j && ltb j (i + suc rounds)) =
            ground arith in
          ih ∙ rw (f, e) refl
    ]

-- Every interrupt from 0 to 255 enters its own routine, in the kernel's code segment, through a present
-- 32-bit interrupt gate of the kernel's privilege.
pub put_descriptors_lem :
    (isr : ℕ → ℕ) (i : ℕ)
    → i < 256
    → isr i < 2 ^ 32
    → (handler_of (put_descriptors isr i) ≡ isr i)
      × ((put_descriptors isr i).selector ≡ 0x8)
      × ((put_descriptors isr i).flags ≡ 0b10001110)
unfolding put_descriptors idt_descriptor
put_descriptors_lem isr i lt fits =
    let yes : (leb 0 i && ltb i (0 + 256)) ≡ true = ground arith in
    let e : put_descriptors isr i ≡ idt_descriptor (isr i) 0x8 0x80 =
      put_from_lem isr 256 0 i cleared ∙ rw yes refl in
    let low = bit_and_ones 16 (isr i) in
    let high = bit_and_ones 16 (isr i >>> 16) in
    (ap handler_of e ∙ rw (low, high) (omega arith), ap (λ d. d.selector) e, ap (λ d. d.flags) e)
