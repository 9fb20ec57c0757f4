-- ===== src/Interrupts.antt =====
-- src/kernel/interrupts/isr_manager.cpp and src/drivers_manager/drivers/pic/pic_driver.cpp: the table of
-- interrupt handlers, and the commands to the two interrupt controllers. A handler and its context are
-- addresses. What an operation does outside is the list of its actions, in their order.
pub mod Dispatch
use avi_kernel.Base.{
  ℕ, ◌-◌, Bool, true, false, ◌&&◌, List, [], ◌∷◌, ◌++◌, ltb, leb, ◌==◌, if◌then◌else◌, u8,
}

-- A write to a port, a wait for the port, a call of a handler with its context and the error code.
pub data Action : Type 0 where
  outb : (port value : ℕ) → Action
  io_wait : Action
  call_isr : (isr context err_code : ℕ) → Action

abbrev pub master : ℕ
master = 0

abbrev pub slave : ℕ
slave = 1

abbrev pub end_of_interrupt : ℕ
end_of_interrupt = 0x20

unfoldable pub send_command : ℕ → ℕ → List Action
send_command pic command =
    if ltb 1 pic then [] else outb (if pic == master then 0x0020 else 0x00A0) command ∷ []

unfoldable pub send_data : ℕ → ℕ → List Action
send_data pic value =
    if ltb 1 pic then [] else outb (if pic == master then 0x0021 else 0x00A1) value ∷ []

unfoldable pub send_end_of_interrupt : ℕ → List Action
send_end_of_interrupt irq =
    (if leb 8 irq then send_command slave end_of_interrupt else [])
    ++ send_command master end_of_interrupt

-- A command or a byte of data, and the wait behind it.
unfoldable pub waited : List Action → List Action
waited actions = actions ++ (io_wait ∷ [])

unfoldable pub setup_driver_and_device : List Action
setup_driver_and_device =
    waited (send_command master 0b00010001)
    ++ (waited (send_command slave 0b00010001)
        ++ (waited (send_data master 0x20)
            ++ (waited (send_data slave 0x28)
                ++ (waited (send_data master 0x04)
                    ++ (waited (send_data slave 0x02)
                        ++ (waited (send_data master 0x01) ++ waited (send_data slave 0x01)))))))

unfoldable pub unmask_all_interrupts : List Action
unmask_all_interrupts = send_data master 0x0 ++ send_data slave 0x0

pub record IsrHolder : Type 0 where
  pub isr : ℕ
  pub context : ℕ
  pub exist : Bool

abbrev pub Isrs : Type 0
Isrs = ℕ → IsrHolder

unfoldable pub isr_manager_set_isr : ℕ → ℕ → ℕ → Isrs → Isrs
isr_manager_set_isr interrupt_number isr context isrs n =
    if u8 interrupt_number == n
    then record { isr = isr; context = context; exist = true }
    else isrs n

unfoldable pub isr_manager_remove_isr : ℕ → Isrs → Isrs
isr_manager_remove_isr interrupt_number isrs n =
    if u8 interrupt_number == n then record { isr = 0; context = 0; exist = false } else isrs n

unfoldable pub general_isr_handler : Isrs → ℕ → ℕ → List Action
general_isr_handler isrs interrupt_number err_code =
    (if leb 32 interrupt_number && leb interrupt_number 47
      then send_end_of_interrupt (interrupt_number - 32)
      else [])
    ++ (if (isrs interrupt_number).exist
        then call_isr (isrs interrupt_number).isr (isrs interrupt_number).context err_code ∷ []
        else [])
