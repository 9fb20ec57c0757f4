-- ===== src/Pci/Storage.antt =====
-- src/drivers_manager/drivers/pci/pci_driver.cpp: the descriptions of the class codes 0x0 to 0x3.
use avi_kernel.Base.{[], ◌∷◌}
use avi_kernel.Pci.Table.{SubClasses, text, by_prog_if}

unfoldable pub unclassified : SubClasses
unclassified = record {
  cases =
      (0x0, text "Unclassified, Non-VGA-Compatible Unclassified Device")
      ∷ (0x1, text "Unclassified, VGA-Compatible Unclassified Device")
      ∷ [];
  otherwise = "Unclassified, Unknown";
}

unfoldable pub mass_storage_controller : SubClasses
mass_storage_controller = record {
  cases =
      (0x0, text "Mass Storage Controller, SCSI Bus Controller")
      ∷ (
        0x1,
        by_prog_if
            ((
              0x0,
              "Mass Storage Controller, IDE Controller, ISA Compatibility mode-only controller",
            )
              ∷ (0x5, "Mass Storage Controller, IDE Controller, PCI native mode-only controller")
              ∷ (
                0xA,
                "Mass Storage Controller, IDE Controller, ISA Compatibility mode controller, supports both channels switched to PCI native mode",
              )
              ∷ (
                0xF,
                "Mass Storage Controller, IDE Controller, PCI native mode controller, supports both channels switched to ISA compatibility mode",
              )
              ∷ (
                0x80,
                "Mass Storage Controller, IDE Controller, ISA Compatibility mode-only controller, supports bus mastering",
              )
              ∷ (
                0x85,
                "Mass Storage Controller, IDE Controller, PCI native mode-only controller, supports bus mastering",
              )
              ∷ (
                0x8A,
                "Mass Storage Controller, IDE Controller, ISA Compatibility mode controller, supports both channels switched to PCI native mode, supports bus mastering",
              )
              ∷ (
                0x8F,
                "Mass Storage Controller, IDE Controller, PCI native mode controller, supports both channels switched to ISA compatibility mode, supports bus mastering",
              )
              ∷ [])
            "Mass Storage Controller, IDE Controller",
      )
      ∷ (0x2, text "Mass Storage Controller, Floppy Disk Controller")
      ∷ (0x3, text "Mass Storage Controller, IPI Bus Controller")
      ∷ (0x4, text "Mass Storage Controller, RAID Controller")
      ∷ (
        0x5,
        by_prog_if
            ((0x20, "Mass Storage Controller, ATA Controller, Single DMA")
              ∷ (0x30, "Mass Storage Controller, ATA Controller, Chained DMA")
              ∷ [])
            "Mass Storage Controller, ATA Controller",
      )
      ∷ (
        0x6,
        by_prog_if
            ((0x0, "Mass Storage Controller, Serial ATA Controller, Vendor Specific Interface")
              ∷ (0x1, "Mass Storage Controller, Serial ATA Controller, AHCI 1.0")
              ∷ (0x2, "Mass Storage Controller, Serial ATA Controller, Serial Storage Bus")
              ∷ [])
            "Mass Storage Controller, Serial ATA Controller",
      )
      ∷ (
        0x7,
        by_prog_if
            ((0x0, "Mass Storage Controller, Serial Attached SCSI Controller, SAS")
              ∷ (
                0x1, "Mass Storage Controller, Serial Attached SCSI Controller, Serial Storage Bus",
              )
              ∷ [])
            "Mass Storage Controller, Serial Attached SCSI Controller",
      )
      ∷ (
        0x8,
        by_prog_if
            ((0x1, "Mass Storage Controller, Non-Volatile Memory Controller, NVMHCI")
              ∷ (0x2, "Mass Storage Controller, Non-Volatile Memory Controller, NVM Express")
              ∷ [])
            "Mass Storage Controller, Non-Volatile Memory Controller",
      )
      ∷ (0x80, text "Mass Storage Controller, Other")
      ∷ [];
  otherwise = "Mass Storage Controller, Unknown";
}

unfoldable pub network_controller : SubClasses
network_controller = record {
  cases =
      (0x0, text "Network Controller, Ethernet Controller")
      ∷ (0x1, text "Network Controller, Token Ring Controller")
      ∷ (0x2, text "Network Controller, FDDI Controller")
      ∷ (0x3, text "Network Controller, ATM Controller")
      ∷ (0x4, text "Network Controller, ISDN Controller")
      ∷ (0x5, text "Network Controller, WorldFip Controller")
      ∷ (0x6, text "Network Controller, PICMG 2.14 Multi Computing Controller")
      ∷ (0x7, text "Network Controller, Infiniband Controller")
      ∷ (0x8, text "Network Controller, Fabric Controller")
      ∷ (0x80, text "Network Controller, Other")
      ∷ [];
  otherwise = "Network Controller, Unknown";
}

unfoldable pub display_controller : SubClasses
display_controller = record {
  cases =
      (
        0x0,
        by_prog_if
            ((0x0, "Display Controller, VGA Compatible Controller, VGA Controller")
              ∷ (0x1, "Display Controller, VGA Compatible Controller, 8514-Compatible Controller")
              ∷ [])
            "Display Controller, VGA Compatible Controller",
      )
      ∷ (0x1, text "Display Controller, XGA Controller")
      ∷ (0x2, text "Display Controller, 3D Controller (Not VGA-Compatible)")
      ∷ (0x80, text "Display Controller, Other")
      ∷ [];
  otherwise = "Display Controller, Unknown";
}
