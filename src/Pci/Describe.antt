-- ===== src/Pci/Describe.antt =====
-- What a device's description says of its class.
use Prim.Native.String.{String}
use package.text.Mathlib.Text.{starts_with}
use avi_kernel.Base.{
  ℕ, Bool, true, false, ◌&&◌, List, [], ◌∷◌, ◌≡◌, refl, arith, ◌==◌, Bool-cases, inl, inr,
}
use avi_kernel.Pci.Table.{
  switch, Entry, text, by_prog_if, Class, no_sub_class, by_sub_class, describe_entry,
  describe_class, describe,
}
use avi_kernel.Pci.Classes.{classes}
use avi_kernel.Pci.Storage.{
  unclassified, mass_storage_controller, network_controller, display_controller,
}
use avi_kernel.Pci.Media.{multimedia_controller, memory_controller, bridge}
use avi_kernel.Pci.Communication.{
  simple_communication_controller, base_system_peripheral, input_device_controller, docking_station,
}
use avi_kernel.Pci.Serial.{
  processor, serial_bus_controller, wireless_controller, intelligent_controller,
}
use avi_kernel.Pci.Other.{
  satellite_communication_controller, encryption_controller, signal_processing_controller,
}
use avi_kernel.Pci.{PciDevice, get_class_code, get_device_description}

-- The names of the classes in the PCI specification's table of class codes.
abbrev pub class_names : List (ℕ × String)
class_names =
    (0x0, "Unclassified")
    ∷ (0x1, "Mass Storage Controller")
    ∷ (0x2, "Network Controller")
    ∷ (0x3, "Display Controller")
    ∷ (0x4, "Multimedia Controller")
    ∷ (0x5, "Memory Controller")
    ∷ (0x6, "Bridge")
    ∷ (0x7, "Simple Communication Controller")
    ∷ (0x8, "Base System Peripheral")
    ∷ (0x9, "Input Device Controller")
    ∷ (0xA, "Docking Station")
    ∷ (0xB, "Processor")
    ∷ (0xC, "Serial Bus Controller")
    ∷ (0xD, "Wireless Controller")
    ∷ (0xE, "Intelligent Controller")
    ∷ (0xF, "Satellite Communication Controller")
    ∷ (0x10, "Encryption Controller")
    ∷ (0x11, "Signal Processing Controller")
    ∷ (0x12, "Processing Accelerator")
    ∷ (0x13, "Non-Essential Instrumentation")
    ∷ (0x40, "Co-Processor")
    ∷ (0xFF, "Unassigned Class")
    ∷ []

abbrev pub class_name : ℕ → String
class_name class_code = switch class_code class_names "Unknown Device Class"

module _ (name : String) where
  entries : List (ℕ × String) → Bool
  entries [] = true
  entries ((k, s) ∷ cases) = starts_with s name && entries cases

  entry : Entry → Bool
  entry (text s) = starts_with s name
  entry (by_prog_if cases otherwise) = starts_with otherwise name && entries cases

  sub_classes : List (ℕ × Entry) → Bool
  sub_classes [] = true
  sub_classes ((k, e) ∷ cases) = entry e && sub_classes cases

  of_class : Class → Bool
  of_class (no_sub_class s) = starts_with s name
  of_class (by_sub_class t) = starts_with t.otherwise name && sub_classes t.cases

-- The two tables have the same keys, and every text of a class begins with its name.
agree : List (ℕ × Class) → List (ℕ × String) → Bool
agree [] [] = true
agree [] (n ∷ names) = false
agree (c ∷ cs) [] = false
agree ((k, c) ∷ cs) ((k', n) ∷ names) = (k == k') && (of_class n c && agree cs names)

and_left : (a b : Bool) → (a && b) ≡ true → a ≡ true
and_left true b e = refl
and_left false b e = e

and_right : (a b : Bool) → (a && b) ≡ true → b ≡ true
and_right true b e = e
and_right false b e = cc

module _ (name : String) where
  entries_lem :
      (v : ℕ) (cases : List (ℕ × String)) (otherwise : String)
      → starts_with otherwise name ≡ true
      → entries name cases ≡ true
      → starts_with (switch v cases otherwise) name ≡ true
  unfolding switch entries
  entries_lem v [] otherwise o e = o
  entries_lem v ((k, s) ∷ cases) otherwise o e = elim (Bool-cases (v == k)) [
    | inl at ↦ rw at (and_left _ _ e)
    | inr off ↦ rw off (entries_lem v cases otherwise o (and_right _ _ e))
  ]

  entry_lem :
      (prog_if : ℕ) (e : Entry)
      → entry name e ≡ true
      → starts_with (describe_entry e prog_if) name ≡ true
  unfolding entry describe_entry
  entry_lem prog_if (text s) e = e
  entry_lem prog_if (by_prog_if cases otherwise) e =
      entries_lem prog_if cases otherwise (and_left _ _ e) (and_right _ _ e)

  sub_classes_lem :
      (v : ℕ) (cases : List (ℕ × Entry)) (otherwise : Entry)
      → entry name otherwise ≡ true
      → sub_classes name cases ≡ true
      → entry name (switch v cases otherwise) ≡ true
  unfolding switch sub_classes
  sub_classes_lem v [] otherwise o e = o
  sub_classes_lem v ((k, s) ∷ cases) otherwise o e = elim (Bool-cases (v == k)) [
    | inl at ↦ rw at (and_left _ _ e)
    | inr off ↦ rw off (sub_classes_lem v cases otherwise o (and_right _ _ e))
  ]

  class_lem :
      (sub_class prog_if : ℕ) (c : Class)
      → of_class name c ≡ true
      → starts_with (describe_class c sub_class prog_if) name ≡ true
  unfolding of_class entry describe_class
  class_lem sub_class prog_if (no_sub_class s) e = e
  class_lem sub_class prog_if (by_sub_class t) e =
      entry_lem prog_if (switch sub_class t.cases (text t.otherwise))
        (sub_classes_lem sub_class t.cases (text t.otherwise) (and_left _ _ e) (and_right _ _ e))

unknown_class : of_class "Unknown Device Class" (no_sub_class "Unknown Device Class") ≡ true
unfolding of_class
unknown_class = refl

agree_lem :
    (v : ℕ) (cs : List (ℕ × Class)) (names : List (ℕ × String))
    → agree cs names ≡ true
    → of_class
        (switch v names "Unknown Device Class")
        (switch v cs (no_sub_class "Unknown Device Class"))
      ≡ true
unfolding switch agree
agree_lem v [] [] e = unknown_class
agree_lem v [] (n ∷ names) e = cc
agree_lem v (c ∷ cs) [] e = cc
agree_lem v ((k, c) ∷ cs) ((k', n) ∷ names) e =
    let key : (k == k') ≡ true = and_left (k == k') _ e in
    let same : k ≡ k' = ground arith in
    let rest : (of_class n c && agree cs names) ≡ true = and_right (k == k') _ e in
    elim (Bool-cases (v == k)) [
      | inl at ↦ let at' : (v == k') ≡ true = ground arith in rw (at, at') (and_left _ _ rest)
      | inr off ↦
          let off' : (v == k') ≡ false = ground arith in
          rw (off, off') (agree_lem v cs names (and_right _ _ rest))
    ]

tables_agree : agree classes class_names ≡ true
unfolding agree of_class sub_classes entry entries classes unclassified mass_storage_controller
    network_controller display_controller multimedia_controller memory_controller bridge
    simple_communication_controller base_system_peripheral input_device_controller docking_station
    processor serial_bus_controller wireless_controller intelligent_controller
    satellite_communication_controller encryption_controller signal_processing_controller
tables_agree = refl

-- Whatever a device's configuration says, its description begins with the name of its class, and with
-- "Unknown Device Class" for a class that the table of names does not have.
pub get_device_description_lem :
    (config : ℕ → ℕ) (d : PciDevice)
    → starts_with (get_device_description config d) (class_name (get_class_code config d)) ≡ true
unfolding get_device_description describe
get_device_description_lem config d =
    class_lem (class_name (get_class_code config d)) _ _ _
      (agree_lem (get_class_code config d) classes class_names tables_agree)
