-- ===== src/Tests/Drivers.antt =====
-- The keyboard's decoder on an idle driver with one listener, and the PCI driver on a configuration
-- space with one device.
use avi_kernel.Base.{ℕ, true, false, some, [], ◌∷◌, ◌≡◌, refl, arith, ◌==◌, if◌then◌else◌}
use avi_kernel.Keyboard.{Ps2Driver, press, on_ke_data, char_of_one, call_if}
use avi_kernel.Keyboard.Codes.{key_a}
use avi_kernel.Keyboard.ScanCodes.{one_scan_code_to_avi_charcode_arr}
use avi_kernel.Keyboard.Laws.{IsDefined, on_ke_data-IsDefined, on_bytes}
use avi_kernel.Keyboard.Keys.{key_lem}
use avi_kernel.Pci.{PciDevice}

abbrev keyboard : Ps2Driver
keyboard = record {
  wait_for_second = false;
  wait_for_second_and_third = false;
  has_press_listener = true;
  has_release_listener = false;
}

on_ke_data-IsDefined_example : IsDefined (on_ke_data 0x1E keyboard)
on_ke_data-IsDefined_example = on_ke_data-IsDefined 0x1E keyboard

key_lem_example : on_bytes (0x1E ∷ 0x9E ∷ []) keyboard ≡ some (keyboard, press key_a ∷ [])
unfolding call_if char_of_one one_scan_code_to_avi_charcode_arr
key_lem_example = key_lem 0x1E keyboard key_a (refl, refl) (omega arith) (omega arith) refl

abbrev device : PciDevice
device = record { bus_number = 0; device_number = 3; function_number = 0 }

-- A device of one function, number 3 of bus 0; all other reads are of no device.
abbrev config : ℕ → ℕ
config address =
    if address == 0x80001800 then 0x12378086 else if address == 0x8000180C then 0 else 0xFFFFFFFF

abbrev offset : ℕ
offset = 8
