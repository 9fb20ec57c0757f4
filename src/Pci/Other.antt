-- ===== src/Pci/Other.antt =====
-- src/drivers_manager/drivers/pci/pci_driver.cpp: the descriptions of the class codes 0xF to 0x11.
use avi_kernel.Base.{[], ◌∷◌}
use avi_kernel.Pci.Table.{SubClasses, text}

unfoldable pub satellite_communication_controller : SubClasses
satellite_communication_controller = record {
  cases =
      (0x1, text "Satellite Communication Controller, Satellite TV Controller")
      ∷ (0x2, text "Satellite Communication Controller, Satellite Audio Controller")
      ∷ (0x3, text "Satellite Communication Controller, Satellite Voice Controller")
      ∷ (0x4, text "Satellite Communication Controller, Satellite Data Controller")
      ∷ [];
  otherwise = "Satellite Communication Controller, Unknown";
}

unfoldable pub encryption_controller : SubClasses
encryption_controller = record {
  cases =
      (0x0, text "Encryption Controller, Network and Computing Encryption/Decryption")
      ∷ (0x10, text "Encryption Controller, Entertainment Encryption/Decryption")
      ∷ (0x80, text "Encryption Controller, Other")
      ∷ [];
  otherwise = "Encryption Controller, Unknown";
}

unfoldable pub signal_processing_controller : SubClasses
signal_processing_controller = record {
  cases =
      (0x0, text "Signal Processing Controller, DPIO Modules")
      ∷ (0x1, text "Signal Processing Controller, Performance Counters")
      ∷ (0x10, text "Signal Processing Controller, Communication Synchronizer")
      ∷ (0x20, text "Signal Processing Controller, Signal Processing Management")
      ∷ (0x80, text "Signal Processing Controller, Other")
      ∷ [];
  otherwise = "Signal Processing Controller, Unknown";
}
