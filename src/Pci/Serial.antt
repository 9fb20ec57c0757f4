-- ===== src/Pci/Serial.antt =====
-- src/drivers_manager/drivers/pci/pci_driver.cpp: the descriptions of the class codes 0xB to 0xE.
use avi_kernel.Base.{[], ◌∷◌}
use avi_kernel.Pci.Table.{SubClasses, text, by_prog_if}

unfoldable pub processor : SubClasses
processor = record {
  cases =
      (0x0, text "Processor, 386")
      ∷ (0x1, text "Processor, 486")
      ∷ (0x2, text "Processor, Pentium")
      ∷ (0x3, text "Processor, Pentium Pro")
      ∷ (0x10, text "Processor, Alpha")
      ∷ (0x20, text "Processor, PowerPC")
      ∷ (0x30, text "Processor, MIPS")
      ∷ (0x40, text "Processor, Co-Processor")
      ∷ (0x80, text "Processor, Other")
      ∷ [];
  otherwise = "Processor, Unknown";
}

unfoldable pub serial_bus_controller : SubClasses
serial_bus_controller = record {
  cases =
      (
        0x0,
        by_prog_if
            ((0x0, "Serial Bus Controller, FireWire (IEEE 1394) Controller, Generic")
              ∷ (0x10, "Serial Bus Controller, FireWire (IEEE 1394) Controller, OHCI")
              ∷ [])
            "Serial Bus Controller, FireWire (IEEE 1394) Controller",
      )
      ∷ (0x1, text "Serial Bus Controller, ACCESS Bus Controller")
      ∷ (0x2, text "Serial Bus Controller, SSA")
      ∷ (
        0x3,
        by_prog_if
            ((0x0, "Serial Bus Controller, USB Controller, UHCI Controller")
              ∷ (0x10, "Serial Bus Controller, USB Controller, OHCI Controller")
              ∷ (0x20, "Serial Bus Controller, USB Controller, EHCI (USB2) Controller")
              ∷ (0x30, "Serial Bus Controller, USB Controller, XHCI (USB3) Controller")
              ∷ (0x80, "Serial Bus Controller, USB Controller, Unspecified")
              ∷ (0xFE, "Serial Bus Controller, USB Controller, USB Device (Not a host controller)")
              ∷ [])
            "Serial Bus Controller, USB Controller",
      )
      ∷ (0x4, text "Serial Bus Controller, Fibre Channel")
      ∷ (0x5, text "Serial Bus Controller, SMBus Controller")
      ∷ (0x6, text "Serial Bus Controller, InfiniBand Controller")
      ∷ (
        0x7,
        by_prog_if
            ((0x0, "Serial Bus Controller, IPMI Interface, SMIC")
              ∷ (0x1, "Serial Bus Controller, IPMI Interface, Keyboard Controller Style")
              ∷ (0x2, "Serial Bus Controller, IPMI Interface, Block Transfer")
              ∷ [])
            "Serial Bus Controller, IPMI Interface",
      )
      ∷ (0x8, text "Serial Bus Controller, SERCOS Interface (IEC 61491)")
      ∷ (0x9, text "Serial Bus Controller, CANbus Controller")
      ∷ (0x80, text "Serial Bus Controller, Other")
      ∷ [];
  otherwise = "Serial Bus Controller, Unknown";
}

unfoldable pub wireless_controller : SubClasses
wireless_controller = record {
  cases =
      (0x0, text "Wireless Controller, iRDA Compatible Controller")
      ∷ (0x1, text "Wireless Controller, Consumer IR Controller")
      ∷ (0x10, text "Wireless Controller, RF Controller")
      ∷ (0x11, text "Wireless Controller, Bluetooth Controller")
      ∷ (0x12, text "Wireless Controller, Broadband Controller")
      ∷ (0x20, text "Wireless Controller, Ethernet Controller (802.1a)")
      ∷ (0x21, text "Wireless Controller, Ethernet Controller (802.1b)")
      ∷ (0x80, text "Wireless Controller, Other")
      ∷ [];
  otherwise = "Wireless Controller, Unknown";
}

unfoldable pub intelligent_controller : SubClasses
intelligent_controller = record {
  cases = (0x0, text "Intelligent Controller, I20") ∷ [];
  otherwise = "Intelligent Controller, Unknown";
}
