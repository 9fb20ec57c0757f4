-- ===== src/Pci/Table.antt =====
-- The nested switch statements of `PCIDriver::get_device_description` as tables.
use Prim.Native.String.{String}
use avi_kernel.Base.{ℕ, List, [], ◌∷◌, ◌==◌, if◌then◌else◌}

-- The case of a value, or the default.
unfoldable pub switch {ℓ} : {A : Type ℓ} → ℕ → List (ℕ × A) → A → A
switch v [] otherwise = otherwise
switch v ((k, a) ∷ cases) otherwise = if v == k then a else switch v cases otherwise

-- A description, or a switch on the programming interface.
pub data Entry : Type 0 where
  text : String → Entry
  by_prog_if : List (ℕ × String) → String → Entry

-- A switch on the sub class.
pub record SubClasses : Type 0 where
  pub cases : List (ℕ × Entry)
  pub otherwise : String

pub data Class : Type 0 where
  no_sub_class : String → Class
  by_sub_class : SubClasses → Class

unfoldable pub describe_entry : Entry → ℕ → String
describe_entry (text s) prog_if = s
describe_entry (by_prog_if cases otherwise) prog_if = switch prog_if cases otherwise

unfoldable pub describe_class : Class → ℕ → ℕ → String
describe_class (no_sub_class s) sub_class prog_if = s
describe_class (by_sub_class t) sub_class prog_if =
    describe_entry (switch sub_class t.cases (text t.otherwise)) prog_if

unfoldable pub describe : List (ℕ × Class) → ℕ → ℕ → ℕ → String
describe classes class_code sub_class prog_if =
    describe_class (switch class_code classes (no_sub_class "Unknown Device Class")) sub_class
      prog_if
