-- ===== src/Pci/Communication.antt =====
-- src/drivers_manager/drivers/pci/pci_driver.cpp: the descriptions of the class codes 0x7 to 0xA.
use avi_kernel.Base.{[], ◌∷◌}
use avi_kernel.Pci.Table.{SubClasses, text, by_prog_if}

unfoldable pub simple_communication_controller : SubClasses
simple_communication_controller = record {
  cases =
      (
        0x0,
        by_prog_if
            ((
              0x0,
              "Simple Communication Controller, Serial Controller, 8250-Compatible (Generic XT)",
            )
              ∷ (0x1, "Simple Communication Controller, Serial Controller, 16450-Compatible")
              ∷ (0x2, "Simple Communication Controller, Serial Controller, 16550-Compatible")
              ∷ (0x3, "Simple Communication Controller, Serial Controller, 16650-Compatible")
              ∷ (0x4, "Simple Communication Controller, Serial Controller, 16750-Compatible")
              ∷ (0x5, "Simple Communication Controller, Serial Controller, 16850-Compatible")
              ∷ (0x6, "Simple Communication Controller, Serial Controller, 16950-Compatible")
              ∷ [])
            "Simple Communication Controller, Serial Controller",
      )
      ∷ (
        0x1,
        by_prog_if
            ((0x0, "Simple Communication Controller, Parallel Controller, Standard Parallel Port")
              ∷ (
                0x1,
                "Simple Communication Controller, Parallel Controller, Bi-Directional Parallel Port",
              )
              ∷ (
                0x2,
                "Simple Communication Controller, Parallel Controller, ECP 1.X Compliant Parallel Port",
              )
              ∷ (0x3, "Simple Communication Controller, Parallel Controller, IEEE 1284 Controller")
              ∷ (
                0xFE,
                "Simple Communication Controller, Parallel Controller, IEEE 1284 Target Device",
              )
              ∷ [])
            "Simple Communication Controller, Parallel Controller",
      )
      ∷ (0x2, text "Simple Communication Controller, Multiport Serial Controller")
      ∷ (
        0x3,
        by_prog_if
            ((0x0, "Simple Communication Controller, Modem, Generic Modem")
              ∷ (0x1, "Simple Communication Controller, Modem, Hayes 16450-Compatible Interface")
              ∷ (0x2, "Simple Communication Controller, Modem, Hayes 16550-Compatible Interface")
              ∷ (0x3, "Simple Communication Controller, Modem, Hayes 16650-Compatible Interface")
              ∷ (0x4, "Simple Communication Controller, Modem, Hayes 16750-Compatible Interface")
              ∷ [])
            "Simple Communication Controller, Modem",
      )
      ∷ (0x4, text "Simple Communication Controller, IEEE 488.1/2 (GPIB) Controller")
      ∷ (0x5, text "Simple Communication Controller, Smart Card Controller")
      ∷ (0x80, text "Simple Communication Controller, Other")
      ∷ [];
  otherwise = "Simple Communication Controller, Unknown";
}

unfoldable pub base_system_peripheral : SubClasses
base_system_peripheral = record {
  cases =
      (
        0x0,
        by_prog_if
            ((0x0, "Base System Peripheral, PIC, Generic 8259-Compatible")
              ∷ (0x1, "Base System Peripheral, PIC, ISA-Compatible")
              ∷ (0x2, "Base System Peripheral, PIC, EISA-Compatible")
              ∷ (0x10, "Base System Peripheral, PIC, I/O APIC Interrupt Controller")
              ∷ (0x20, "Base System Peripheral, PIC, I/O(x) APIC Interrupt Controller")
              ∷ [])
            "Base System Peripheral, PIC",
      )
      ∷ (
        0x1,
        by_prog_if
            ((0x0, "Base System Peripheral, DMA Controller, Generic 8237-Compatible")
              ∷ (0x1, "Base System Peripheral, DMA Controller, ISA-Compatible")
              ∷ (0x2, "Base System Peripheral, DMA Controller, EISA-Compatible")
              ∷ [])
            "Base System Peripheral, DMA Controller",
      )
      ∷ (
        0x2,
        by_prog_if
            ((0x0, "Base System Peripheral, Timer, Generic 8254-Compatible")
              ∷ (0x1, "Base System Peripheral, Timer, ISA-Compatible")
              ∷ (0x2, "Base System Peripheral, Timer, EISA-Compatible")
              ∷ (0x3, "Base System Peripheral, Timer, HPET")
              ∷ [])
            "Base System Peripheral, Timer",
      )
      ∷ (
        0x3,
        by_prog_if
            ((0x0, "Base System Peripheral, RTC Controller, Generic RTC")
              ∷ (0x1, "Base System Peripheral, RTC Controller, ISA-Compatible")
              ∷ [])
            "Base System Peripheral, RTC Controller",
      )
      ∷ (0x4, text "Base System Peripheral, PCI Hot-Plug Controller")
      ∷ (0x5, text "Base System Peripheral, SD Host controller")
      ∷ (0x6, text "Base System Peripheral, IOMMU")
      ∷ (0x80, text "Base System Peripheral, Other")
      ∷ [];
  otherwise = "Base System Peripheral, Unknown";
}

unfoldable pub input_device_controller : SubClasses
input_device_controller = record {
  cases =
      (0x0, text "Input Device Controller, Keyboard Controller")
      ∷ (0x1, text "Input Device Controller, Digitizer Pen")
      ∷ (0x2, text "Input Device Controller, Mouse Controller")
      ∷ (0x3, text "Input Device Controller, Scanner Controller")
      ∷ (
        0x4,
        by_prog_if
            ((0x0, "Input Device Controller, Gameport Controller, Generic")
              ∷ (0x10, "Input Device Controller, Gameport Controller, Extended")
              ∷ [])
            "Input Device Controller, Gameport Controller",
      )
      ∷ (0x80, text "Input Device Controller, Other")
      ∷ [];
  otherwise = "Input Device Controller, Unknown";
}

unfoldable pub docking_station : SubClasses
docking_station = record {
  cases = (0x0, text "Docking Station, Generic") ∷ (0x80, text "Docking Station, Other") ∷ [];
  otherwise = "Docking Station, Unknown";
}
