-- ===== src/Interrupts/Dispatch.antt =====
-- What happens on an interrupt.
use avi_kernel.Base.{
  ℕ, ◌-◌, ◌≡◌, refl, arith, ◌&&◌, List, [], ◌∷◌, ◌++◌, ltb, leb, ◌==◌, if◌then◌else◌, Bool-cases,
  inl, inr, u8,
}
use avi_kernel.Interrupts.{
  Action, outb, call_isr, send_command, send_end_of_interrupt, Isrs, isr_manager_set_isr,
  isr_manager_remove_isr, general_isr_handler,
}

-- The end of interrupt that the hardware waits for: none for an exception, one to the master for its
-- eight lines, and one to the slave and then to the master for the slave's eight lines.
abbrev pub acknowledged : ℕ → List Action
acknowledged n =
    if ltb n 32
    then []
    else if ltb n 40
    then outb 0x20 0x20 ∷ []
    else if ltb n 48
    then outb 0xA0 0x20 ∷ outb 0x20 0x20 ∷ []
    else []

acknowledged_lem :
    (n : ℕ) → (if leb 32 n && leb n 47 then send_end_of_interrupt (n - 32) else []) ≡ acknowledged n
unfolding send_end_of_interrupt send_command
acknowledged_lem n = ground arith

-- A handler that is set for an interrupt, whose number is cut to a byte, is called on it once, with its
-- context and the error code, after the interrupt was acknowledged; after its removal the interrupt is acknowledged and no handler is
-- called. Neither changes what happens on another interrupt.
pub general_isr_handler_lem :
    (isrs : Isrs) (n m isr context err_code : ℕ)
    → (general_isr_handler (isr_manager_set_isr n isr context isrs) m err_code ≡ (
        if u8 n == m
        then acknowledged m ++ (call_isr isr context err_code ∷ [])
        else general_isr_handler isrs m err_code))
      × (general_isr_handler (isr_manager_remove_isr n isrs) m err_code
          ≡ (if u8 n == m then acknowledged m ++ [] else general_isr_handler isrs m err_code))
unfolding general_isr_handler isr_manager_set_isr isr_manager_remove_isr
general_isr_handler_lem isrs n m isr context err_code = elim (Bool-cases (u8 n == m)) [
  | inl e ↦ rw (e, acknowledged_lem m) (refl, refl)
  | inr e ↦ rw e (refl, refl)
]
