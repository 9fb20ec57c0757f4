-- ===== src/Pci.antt =====
-- src/drivers_manager/drivers/pci/pci_driver.cpp and pci_device.cpp: the devices on the PCI buses. The
-- configuration space is a parameter: the 32 bits read at the data port after `address` was written
-- to the address port. A write is the list of the port and value pairs that go out.
pub mod Table
pub mod Storage
pub mod Media
pub mod Communication
pub mod Serial
pub mod Other
pub mod Classes
pub mod Devices
pub mod Describe
use Prim.Native.String.{String}
use avi_kernel.Base.{
  ℕ, zero, suc, ◌+◌, Bool, not, List, [], ◌∷◌, ◌++◌, ◌==◌, if◌then◌else◌, bit_and, bit_or, u8, u16,
  u32, ◌<<<◌, ◌>>>◌,
}
use Table.{describe}
use Classes.{classes}

pub record PciDevice : Type 0 where
  pub bus_number : ℕ
  pub device_number : ℕ
  pub function_number : ℕ

abbrev pub number_of_buses : ℕ
number_of_buses = 256

abbrev pub number_of_devices_per_bus : ℕ
number_of_devices_per_bus = 32

abbrev pub number_of_functions_per_device : ℕ
number_of_functions_per_device = 8

unfoldable pub generate_pci_config_address : PciDevice → ℕ → ℕ
generate_pci_config_address d offset =
    bit_or
      (bit_or
        (bit_or (bit_or 0x80000000 (u32 (d.bus_number <<< 16))) (u32 (d.device_number <<< 11)))
        (u32 (d.function_number <<< 8)))
      (u32 offset)

-- The ports and the values written to them.
unfoldable pub pci_config_write_32_bits : PciDevice → ℕ → ℕ → List (ℕ × ℕ)
pci_config_write_32_bits d offset what =
    (0xCF8, generate_pci_config_address d offset) ∷ (0xCFC, what) ∷ []

unfoldable pub set_prog_if : PciDevice → ℕ → List (ℕ × ℕ)
set_prog_if d prog_if = pci_config_write_32_bits d 0x8 (u32 (prog_if <<< 8))

-- `f i`, `f (i + 1)` and so on, for as many rounds.
unfoldable pub for_each {ℓ} : {A : Type ℓ} → ℕ → ℕ → (ℕ → List A) → List A
for_each zero i f = []
for_each (suc rounds) i f = f i ++ for_each rounds (i + 1) f

module _ (config : ℕ → ℕ) where
  unfoldable pub pci_config_read_32_bits : PciDevice → ℕ → ℕ
  pci_config_read_32_bits d offset = config (generate_pci_config_address d offset)

  unfoldable pub get_vendor_id : PciDevice → ℕ
  get_vendor_id d = u16 (bit_and (pci_config_read_32_bits d 0x0) 0x0000FFFF >>> 0)

  unfoldable pub get_device_id : PciDevice → ℕ
  get_device_id d = u16 (bit_and (pci_config_read_32_bits d 0x0) 0xFFFF0000 >>> 16)

  unfoldable pub get_class_code : PciDevice → ℕ
  get_class_code d = u8 (bit_and (pci_config_read_32_bits d 0x8) 0xFF000000 >>> 24)

  unfoldable pub get_sub_class_code : PciDevice → ℕ
  get_sub_class_code d = u8 (bit_and (pci_config_read_32_bits d 0x8) 0x00FF0000 >>> 16)

  unfoldable pub get_header_type : PciDevice → ℕ
  get_header_type d = u8 (bit_and (pci_config_read_32_bits d 0xC) 0x00FF0000 >>> 16)

  unfoldable pub get_prog_if : PciDevice → ℕ
  get_prog_if d = u8 (bit_and (pci_config_read_32_bits d 0x8) 0x0000FF00 >>> 8)

  unfoldable pub device_exists : PciDevice → Bool
  device_exists d = not (get_vendor_id d == 0xFFFF)

  -- The devices that one round of a loop appends.
  unfoldable pub existing_function : PciDevice → ℕ → List PciDevice
  existing_function device function =
      let d : PciDevice = record {
        bus_number = device.bus_number;
        device_number = device.device_number;
        function_number = function;
      } in
      if device_exists d then d ∷ [] else []

  unfoldable pub add_device : PciDevice → List PciDevice
  add_device device =
      if bit_and (get_header_type device) 0x80 == 0
      then device ∷ []
      else for_each number_of_functions_per_device 0 (existing_function device)

  unfoldable pub try_device : ℕ → ℕ → List PciDevice
  try_device bus device_number =
      let device : PciDevice = record {
        bus_number = bus;
        device_number = device_number;
        function_number = 0;
      } in
      if device_exists device then add_device device else []

  unfoldable pub enumerate_devices : List PciDevice
  enumerate_devices =
      for_each number_of_buses 0 (λ bus. for_each number_of_devices_per_bus 0 (try_device bus))

  unfoldable pub get_device_description : PciDevice → String
  get_device_description d =
      describe classes (get_class_code d) (get_sub_class_code d) (get_prog_if d)
