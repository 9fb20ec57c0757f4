-- ===== src/Pci/Media.antt =====
-- src/drivers_manager/drivers/pci/pci_driver.cpp: the descriptions of the class codes 0x4 to 0x6.
use avi_kernel.Base.{[], ◌∷◌}
use avi_kernel.Pci.Table.{SubClasses, text, by_prog_if}

unfoldable pub multimedia_controller : SubClasses
multimedia_controller = record {
  cases =
      (0x0, text "Multimedia Controller, Multimedia Video Controller")
      ∷ (0x1, text "Multimedia Controller, Multimedia Audio Controller")
      ∷ (0x2, text "Multimedia Controller, Computer Telephony Device")
      ∷ (0x3, text "Multimedia Controller, Audio Device")
      ∷ (0x80, text "Multimedia Controller, Other")
      ∷ [];
  otherwise = "Multimedia Controller, Unknown";
}

unfoldable pub memory_controller : SubClasses
memory_controller = record {
  cases =
      (0x0, text "Memory Controller, RAM Controller")
      ∷ (0x1, text "Memory Controller, Flash Controller")
      ∷ (0x80, text "Memory Controller, Other")
      ∷ [];
  otherwise = "Memory Controller, Unknown";
}

unfoldable pub bridge : SubClasses
bridge = record {
  cases =
      (0x0, text "Bridge, Host Bridge")
      ∷ (0x1, text "Bridge, ISA Bridge")
      ∷ (0x2, text "Bridge, EISA Bridge")
      ∷ (0x3, text "Bridge, MCA Bridge")
      ∷ (
        0x4,
        by_prog_if
            ((0x0, "Bridge, PCI-to-PCI Bridge, Normal Decode")
              ∷ (0x1, "Bridge, PCI-to-PCI Bridge, Subtractive Decode")
              ∷ [])
            "Bridge, PCI-to-PCI Bridge",
      )
      ∷ (0x5, text "Bridge, PCMCIA Bridge")
      ∷ (0x6, text "Bridge, NuBus Bridge")
      ∷ (0x7, text "Bridge, CardBus Bridge")
      ∷ (
        0x8,
        by_prog_if
            ((0x0, "Bridge, RACEway Bridge, Transparent Mode")
              ∷ (0x1, "Bridge, RACEway Bridge, Endpoint Mode")
              ∷ [])
            "Bridge, RACEway Bridge",
      )
      ∷ (
        0x9,
        by_prog_if
            ((0x40, "Bridge, PCI-to-PCI Bridge, Semi-Transparent, Primary bus towards host CPU")
              ∷ (
                0x80, "Bridge, PCI-to-PCI Bridge, Semi-Transparent, Secondary bus towards host CPU",
              )
              ∷ [])
            "Bridge, PCI-to-PCI Bridge",
      )
      ∷ (0xA, text "Bridge, InfiniBand-to-PCI Host Bridge")
      ∷ (0x80, text "Bridge, Other")
      ∷ [];
  otherwise = "Bridge, Unknown";
}
