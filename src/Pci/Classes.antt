-- ===== src/Pci/Classes.antt =====
-- src/drivers_manager/drivers/pci/pci_driver.cpp: the table of all classes.
use avi_kernel.Base.{[], ◌∷◌, List, ℕ}
use avi_kernel.Pci.Table.{Class, no_sub_class, by_sub_class}
use avi_kernel.Pci.Storage.{
  unclassified, mass_storage_controller, network_controller, display_controller,
}
use avi_kernel.Pci.Media.{multimedia_controller, memory_controller, bridge}
use avi_kernel.Pci.Communication.{
  simple_communication_controller, base_system_peripheral, input_device_controller, docking_station,
}
use avi_kernel.Pci.Serial.{
  processor, serial_bus_controller, wireless_controller, intelligent_controller,
}
use avi_kernel.Pci.Other.{
  satellite_communication_controller, encryption_controller, signal_processing_controller,
}

unfoldable pub classes : List (ℕ × Class)
classes =
    (0x0, by_sub_class unclassified)
    ∷ (0x1, by_sub_class mass_storage_controller)
    ∷ (0x2, by_sub_class network_controller)
    ∷ (0x3, by_sub_class display_controller)
    ∷ (0x4, by_sub_class multimedia_controller)
    ∷ (0x5, by_sub_class memory_controller)
    ∷ (0x6, by_sub_class bridge)
    ∷ (0x7, by_sub_class simple_communication_controller)
    ∷ (0x8, by_sub_class base_system_peripheral)
    ∷ (0x9, by_sub_class input_device_controller)
    ∷ (0xA, by_sub_class docking_station)
    ∷ (0xB, by_sub_class processor)
    ∷ (0xC, by_sub_class serial_bus_controller)
    ∷ (0xD, by_sub_class wireless_controller)
    ∷ (0xE, by_sub_class intelligent_controller)
    ∷ (0xF, by_sub_class satellite_communication_controller)
    ∷ (0x10, by_sub_class encryption_controller)
    ∷ (0x11, by_sub_class signal_processing_controller)
    ∷ (0x12, no_sub_class "Processing Accelerator")
    ∷ (0x13, no_sub_class "Non-Essential Instrumentation")
    ∷ (0x40, no_sub_class "Co-Processor")
    ∷ (0xFF, no_sub_class "Unassigned Class (Vendor specific)")
    ∷ []
