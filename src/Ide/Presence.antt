-- ===== src/Ide/Presence.antt =====
-- `StorageIDECompatibilityDriver::exist`: when there is a controller that the driver can use.
use avi_kernel.Base.{
  ℕ, ◌/◌, ◌%◌, ◌^◌, Bool, true, false, ◌||◌, List, [], ◌∷◌, ◌≡◌, refl, ap, ◌∙◌, arith, ◌==◌,
  if◌then◌else◌, Option, none, some, ok, ◌>>=◌, bit_and,
}
use native.Mathlib.Nat.{one-le-pow}
use mathlib.Core.Bool.{or-true}
use avi_kernel.Bits.{bit_and-pow}
use avi_kernel.Bits.Step.{bit_and-zero}
use avi_kernel.Vector
use avi_kernel.Vector.{Vector}
use avi_kernel.Vector.Laws.{IsCounted}
use avi_kernel.Pci.{PciDevice, get_prog_if}
use avi_kernel.Ide.{any_bit}
use avi_kernel.Ide.Detecting.{bit_test, bit_at_lem}
use avi_kernel.Ide.Modes.{
  is_ide_controller, get_pci_ide_controller, device_or, ide_device, channel_supports_switch,
  channel_in_compatibility_mode, channel_supports_compatibility_mode, exist,
}

-- Bit 3 of the programming interface says that the secondary channel can switch its mode, bit 2 that it is
-- in PCI mode now.
abbrev pub secondary_is_usable : ℕ → Bool
secondary_is_usable prog_if = (prog_if / 8 % 2 == 1) || (prog_if / 4 % 2 == 0)

any_bit_lem : (x k : ℕ) → any_bit x (2 ^ k) ≡ (x / 2 ^ k % 2 == 1)
any_bit_lem x k =
    rw (bit_and-pow x k, bit_at_lem k x)
      (bit_test (x / 2 ^ k % 2) (2 ^ k) (omega arith) (one-le-pow k 2 (omega arith)))

no_bit_4 : (x : ℕ) → (bit_and x 4 == 0) ≡ (x / 4 % 2 == 0)
no_bit_4 x = rw (bit_and-pow x 2, bit_at_lem 2 x) (ground arith)

if-or : (a b : Bool) → (if a then ok true else ok b) ≡ ok (a || b)
if-or true b = refl
if-or false b = refl

module _ (config : ℕ → ℕ) where
  -- The first IDE controller of a list of devices.
  abbrev pub first_ide_controller : List PciDevice → Option PciDevice
  first_ide_controller [] = none
  first_ide_controller (d ∷ ds) =
      if is_ide_controller config d then some d else first_ide_controller ds

  module _ (devices : Vector PciDevice) (counted : IsCounted devices) where
    module _ (uninitialised : PciDevice) where
      compatibility_lem :
          (found : Option PciDevice) (channel : ℕ)
          → get_pci_ide_controller config devices ≡ ok found
          → let prog_if = get_prog_if config (device_or config devices uninitialised found) in
            channel_supports_compatibility_mode config devices uninitialised channel
            ≡ ok (
                any_bit prog_if (if channel == 0 then 2 else 8)
                || bit_and prog_if (if channel == 0 then 0 else 4) == 0)
      unfolding channel_supports_compatibility_mode channel_supports_switch
          channel_in_compatibility_mode ide_device
      compatibility_lem found channel e =
          let prog_if = get_prog_if config (device_or config devices uninitialised found) in
          let can = any_bit prog_if (if channel == 0 then 2 else 8) in
          let is = bit_and prog_if (if channel == 0 then 0 else 4) == 0 in
          let ide : ide_device config devices uninitialised
              ≡ ok (device_or config devices uninitialised found) =
            ap (λ r. r >>= λ f. ok (device_or config devices uninitialised f)) e in
          ap
            (λ r.
              (r >>= λ d. ok (any_bit (get_prog_if config d) (if channel == 0 then 2 else 8)))
              >>= λ switches.
                  if switches
                  then ok true
                  else channel_in_compatibility_mode config devices uninitialised channel)
            ide
          ∙ ap
              (λ r.
                if can
                then ok true
                else (r >>= λ d.
                    ok (bit_and (get_prog_if config d) (if channel == 0 then 0 else 4) == 0)))
              ide
          ∙ if-or can is

      exist_from :
          (found : Option PciDevice)
          → get_pci_ide_controller config devices ≡ ok found
          → exist config devices uninitialised
            ≡ ok (elim found as (λ found. Bool) [
              | none ↦ false
              | some device ↦ secondary_is_usable (get_prog_if config device)
            ])
      unfolding exist device_or
      exist_from none e = rw e refl
      exist_from (some device) e =
          let prog_if = get_prog_if config device in
          let second = channel_supports_compatibility_mode config devices uninitialised 1 in
          let primary : (any_bit prog_if 2 || bit_and prog_if 0 == 0) ≡ true =
            rw (bit_and-zero prog_if) (or-true (any_bit prog_if 2)) in
          let secondary : (any_bit prog_if 8 || bit_and prog_if 4 == 0)
              ≡ secondary_is_usable prog_if =
            rw (any_bit_lem prog_if 3, no_bit_4 prog_if) refl in
          rw e (
            ap (λ r. r >>= λ first. if first then second else ok false)
              (compatibility_lem (some device) 0 e ∙ ap ok primary)
            ∙ compatibility_lem (some device) 1 e
            ∙ ap ok secondary)
