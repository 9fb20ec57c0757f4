-- ===== src/Ide/Setup.antt =====
-- `StorageIDECompatibilityDriver::setup_driver_and_device`.
--
-- `config_after` is the PCI configuration space behind what went over the ports; `devices` and
-- `uninitialised` are as in Ide/Modes.antt. What is printed is left out.
use avi_kernel.Base.{ℕ, zero, suc, ◌+◌, List, [], ◌∷◌, if◌then◌else◌, Result}
use avi_kernel.Vector.{Vector}
use avi_kernel.Pci.{PciDevice}
use avi_kernel.Ports.{Io, PortEvent, pure, of_result, ◌>>=◌, ◌>>◌, outl}
use avi_kernel.Ide.{IdeDriver, disable_interrupts}
use avi_kernel.Ide.Detection.{detect_drives}
use avi_kernel.Ide.Modes.{channel_in_compatibility_mode, switch_channel_to_compatibility_mode}

unfoldable pub outl_all : List (ℕ × ℕ) → Io (Unit {0})
unfolding outl
outl_all [] = pure tt
outl_all ((port, val) ∷ writes) = outl port val >> outl_all writes

module _ (config_after : List PortEvent → ℕ → ℕ) (devices : Vector PciDevice)
    (uninitialised : PciDevice) where
  -- Code that reads the configuration space as it is now.
  unfoldable pub with_config : {A : Type 0} → ((ℕ → ℕ) → Result A) → Io A
  with_config code b = of_result (code (config_after b.log)) b

  unfoldable pub switch_channels : ℕ → ℕ → Io (Unit {0})
  unfolding with_config outl_all channel_in_compatibility_mode switch_channel_to_compatibility_mode
  switch_channels zero channel = pure tt
  switch_channels (suc rounds) channel = do
    compatible ←
        with_config (λ config. channel_in_compatibility_mode config devices uninitialised channel)
    if compatible then pure tt else (do
      writes ←
          with_config
            (λ config. switch_channel_to_compatibility_mode config devices uninitialised channel)
      outl_all writes)
    switch_channels rounds (channel + 1)

  unfoldable pub setup_driver_and_device : IdeDriver → Io IdeDriver
  unfolding disable_interrupts switch_channels detect_drives
  setup_driver_and_device driver = do
    disable_interrupts 0
    disable_interrupts 1
    switch_channels 2 0
    detect_drives driver
