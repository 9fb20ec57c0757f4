-- ===== src/Ide/Modes.antt =====
-- The PCI side of the IDE driver: the search for the controller, and the modes of its channels.
--
-- `config` is the PCI configuration space, `devices` are those of the PCI driver. The code uses the
-- device of a search that found none as it stands on the stack: `uninitialised`.
use avi_kernel.Base.{
  ℕ, zero, suc, ◌+◌, Bool, true, false, ◌&&◌, List, ◌==◌, if◌then◌else◌, Option, none, some, Result,
  ok, ◌>>=◌, pos, bit_and,
}
use avi_kernel.Vector
use avi_kernel.Vector.{Vector}
use avi_kernel.Pci.{PciDevice, get_class_code, get_sub_class_code, get_prog_if, set_prog_if}
use avi_kernel.Ide.{any_bit}

abbrev pub icd_pci_class_mass_storage_controller : ℕ
icd_pci_class_mass_storage_controller = 1

abbrev pub icd_pci_subclass_ide_controller : ℕ
icd_pci_subclass_ide_controller = 1

module _ (config : ℕ → ℕ) where
  unfoldable pub is_ide_controller : PciDevice → Bool
  unfolding get_class_code get_sub_class_code
  is_ide_controller device =
      get_class_code config device == icd_pci_class_mass_storage_controller
      && get_sub_class_code config device == icd_pci_subclass_ide_controller

  module _ (devices : Vector PciDevice) where
    unfoldable pub find_ide_controller : ℕ → ℕ → Result (Option PciDevice)
    unfolding Vector.get is_ide_controller
    find_ide_controller zero i = ok none
    find_ide_controller (suc rounds) i = Vector.get devices (pos i) >>= λ device.
        let rest = find_ide_controller rounds (i + 1) in
        if is_ide_controller device then ok (some device) else rest

    unfoldable pub get_pci_ide_controller : Result (Option PciDevice)
    unfolding find_ide_controller Vector.size
    get_pci_ide_controller = find_ide_controller (Vector.size devices) 0

    module _ (uninitialised : PciDevice) where
      unfoldable pub device_or : Option PciDevice → PciDevice
      device_or none = uninitialised
      device_or (some device) = device

      unfoldable pub ide_device : Result PciDevice
      unfolding get_pci_ide_controller device_or
      ide_device = get_pci_ide_controller >>= λ found. ok (device_or found)

      unfoldable pub channel_supports_switch : ℕ → Result Bool
      unfolding ide_device get_prog_if
      channel_supports_switch channel = ide_device >>= λ device.
          ok (any_bit (get_prog_if config device) (if channel == 0 then 2 else 8))

      unfoldable pub channel_in_compatibility_mode : ℕ → Result Bool
      unfolding ide_device get_prog_if
      channel_in_compatibility_mode channel = ide_device >>= λ device.
          ok (bit_and (get_prog_if config device) (if channel == 0 then 0 else 4) == 0)

      unfoldable pub channel_supports_compatibility_mode : ℕ → Result Bool
      unfolding channel_supports_switch channel_in_compatibility_mode
      channel_supports_compatibility_mode channel = channel_supports_switch channel >>= λ switches.
          if switches then ok true else channel_in_compatibility_mode channel

      -- The ports and values of the write to the configuration space.
      unfoldable pub switch_channel_to_compatibility_mode : ℕ → Result (List (ℕ × ℕ))
      unfolding ide_device get_prog_if set_prog_if
      switch_channel_to_compatibility_mode channel = ide_device >>= λ device. ok (
          set_prog_if device
            (bit_and (get_prog_if config device) (if channel == 0 then 14 else 11)))

      unfoldable pub exist : Result Bool
      unfolding get_pci_ide_controller channel_supports_compatibility_mode
      exist = get_pci_ide_controller >>= λ found. elim found [
        | none ↦ ok false
        | some device ↦ channel_supports_compatibility_mode 0 >>= λ first.
            if first then channel_supports_compatibility_mode 1 else ok false
      ]
