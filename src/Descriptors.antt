-- ===== src/Descriptors.antt =====
-- src/kernel/gdt/gdt.cpp and src/kernel/interrupts/idt.cpp: the descriptor tables. The addresses of the
-- interrupt routines, written in assembly, are a parameter. The instructions that load the tables are
-- not modelled.
pub mod Laws
use avi_kernel.Base.{ℕ, zero, suc, ◌+◌, ◌==◌, if◌then◌else◌, bit_and, bit_or, ◌>>>◌}

pub record GdtDescriptor : Type 0 where
  pub limit_low : ℕ
  pub base_low : ℕ
  pub base_middle : ℕ
  pub flags : ℕ
  pub l_flags : ℕ
  pub base_high : ℕ

pub record Gdt : Type 0 where
  pub gdt : ℕ → GdtDescriptor
  pub descriptors_count : ℕ

-- `gdt[descriptors_count++] = descriptor`.
unfoldable pub append : GdtDescriptor → Gdt → Gdt
append d t = record {
  gdt = λ i. if t.descriptors_count == i then d else t.gdt i;
  descriptors_count = t.descriptors_count + 1;
}

unfoldable pub null_descriptor : GdtDescriptor
null_descriptor = record {
  limit_low = 0;
  base_low = 0;
  base_middle = 0;
  flags = 0;
  l_flags = 0;
  base_high = 0;
}

unfoldable pub add_null_descriptor : Gdt → Gdt
add_null_descriptor t = append null_descriptor t

unfoldable pub gdt_descriptor : ℕ → ℕ → ℕ → GdtDescriptor
gdt_descriptor base limit flags = record {
  limit_low = bit_and limit 0xFFFF;
  base_low = bit_and base 0xFFFF;
  base_middle = bit_and (base >>> 16) 0xFF;
  flags = bit_or flags 0b10010000;
  l_flags = bit_or (bit_and (limit >>> 16) 0xF) 0b11000000;
  base_high = bit_and (base >>> 24) 0xFF;
}

unfoldable pub add_descriptor : ℕ → ℕ → ℕ → Gdt → Gdt
add_descriptor base limit flags t = append (gdt_descriptor base limit flags) t

abbrev pub privilege_kernel : ℕ
privilege_kernel = 0b00000000

abbrev pub type_executable : ℕ
type_executable = 0b00001000

abbrev pub type_data : ℕ
type_data = 0b00000000

abbrev pub data_read_write : ℕ
data_read_write = 0b00000010

abbrev pub code_read_execute : ℕ
code_read_execute = 0b00000010

unfoldable pub init_descriptors : Gdt → Gdt
init_descriptors t =
    add_descriptor 0 0xFFFFFFFF (bit_or (bit_or privilege_kernel type_data) data_read_write) (
      add_descriptor 0 0xFFFFFFFF
        (bit_or (bit_or privilege_kernel type_executable) code_read_execute)
        (add_null_descriptor t))

-- `GDT::initialize` up to the load of the table.
unfoldable pub initialize : Gdt → Gdt
initialize t = init_descriptors (record t { descriptors_count = 0 })

pub record IdtDescriptor : Type 0 where
  pub handler_lower : ℕ
  pub selector : ℕ
  pub zero_byte : ℕ
  pub flags : ℕ
  pub handler_higher : ℕ

abbrev pub Idt : Type 0
Idt = ℕ → IdtDescriptor

abbrev pub idt_size : ℕ
idt_size = 256

abbrev pub interrupt_in_use : ℕ
interrupt_in_use = 0b10000000

unfoldable pub idt_descriptor : ℕ → ℕ → ℕ → IdtDescriptor
idt_descriptor handler selector flags = record {
  handler_lower = bit_and handler 0xFFFF;
  selector = selector;
  zero_byte = 0;
  flags = bit_or flags 0b00001110;
  handler_higher = bit_and (handler >>> 16) 0xFFFF;
}

unfoldable pub put_descriptor : ℕ → ℕ → ℕ → ℕ → Idt → Idt
put_descriptor index handler selector flags idt i =
    if index == i then idt_descriptor handler selector flags else idt i

-- The lines of `put_descriptors` from the one for interrupt `i` on.
unfoldable pub put_from : (isr : ℕ → ℕ) → ℕ → ℕ → Idt → Idt
put_from isr zero i idt = idt
put_from isr (suc rounds) i idt =
    put_from isr rounds (i + 1)
      (put_descriptor i (isr i) 0x8 (bit_or interrupt_in_use privilege_kernel) idt)

-- `memset(&idt, 0, …)`.
unfoldable pub cleared : Idt
cleared i = record { handler_lower = 0; selector = 0; zero_byte = 0; flags = 0; handler_higher = 0 }

unfoldable pub put_descriptors : (isr : ℕ → ℕ) → Idt
put_descriptors isr = put_from isr idt_size 0 cleared
