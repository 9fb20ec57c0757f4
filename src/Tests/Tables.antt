-- ===== src/Tests/Tables.antt =====
-- Interrupts, and the descriptor tables on a flat segment and on routines that stand 16 bytes apart.
use avi_kernel.Base.{false, [], ◌∷◌, ℕ, ◌+◌, ◌*◌, ◌≡◌, arith}
use avi_kernel.Interrupts.{
  Isrs, outb, call_isr, general_isr_handler, isr_manager_set_isr, isr_manager_remove_isr,
}
use avi_kernel.Interrupts.Dispatch.{general_isr_handler_lem}
use avi_kernel.Descriptors.{put_descriptors}
use avi_kernel.Descriptors.Laws.{handler_of, put_descriptors_lem}

abbrev isr : ℕ → ℕ
isr i = 0xC0100000 + 16 * i

put_descriptors_lem_example :
    (handler_of (put_descriptors isr 33) ≡ 0xC0100210)
    × ((put_descriptors isr 33).selector ≡ 0x8)
    × ((put_descriptors isr 33).flags ≡ 0b10001110)
put_descriptors_lem_example = put_descriptors_lem isr 33 (omega arith) (omega arith)

-- No handler is set.
abbrev no_isrs : Isrs
no_isrs n = record { isr = 0; context = 0; exist = false }

-- The keyboard's interrupt, whose handler was set just before.
general_isr_handler_lem_example :
    (general_isr_handler (isr_manager_set_isr 33 0xC0123450 0xD0 no_isrs) 33 0
      ≡ outb 0x20 0x20 ∷ call_isr 0xC0123450 0xD0 0 ∷ [])
    × (general_isr_handler (isr_manager_remove_isr 33 no_isrs) 33 0 ≡ outb 0x20 0x20 ∷ [])
general_isr_handler_lem_example = general_isr_handler_lem no_isrs 33 33 0xC0123450 0xD0 0
