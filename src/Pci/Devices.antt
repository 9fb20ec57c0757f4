-- ===== src/Pci/Devices.antt =====
-- Which devices the enumeration lists, and that no two of them share a configuration address.
use avi_kernel.Base.{
  ℕ, zero, suc, ◌+◌, ◌*◌, ◌≤◌, ◌<◌, Bool, true, false, List, [], ◌∷◌, ◌≡◌, refl, sym, ◌∙◌, ap, inl,
  inr, ◌==◌, if◌then◌else◌, bit_and, bit_or, arith, u32, ◌<<<◌,
}
use mathlib.Core.Path.{subst}
use mathlib.Core.List.{Memᴰ}
use mathlib.Core.List.Memᴰ.{head, tail, append_cases}
use avi_kernel.Bits.{bit_or_apart}
use avi_kernel.Pci.{
  PciDevice, generate_pci_config_address, for_each, get_header_type, device_exists,
  existing_function, add_device, try_device, enumerate_devices,
}

-- The address of a configuration register, by its fields.
config_address_lem :
    (d : PciDevice) (offset : ℕ)
    → d.bus_number < 256
    → d.device_number < 32
    → d.function_number < 8
    → offset < 256
    → generate_pci_config_address d offset
      ≡ 0x80000000
        + d.bus_number * 0x10000
        + d.device_number * 0x800
        + d.function_number * 0x100
        + offset
unfolding generate_pci_config_address
config_address_lem d offset hb hd hf ho =
    let b = d.bus_number in
    let n = d.device_number in
    let f = d.function_number in
    let eb : u32 (b <<< 16) ≡ b * 0x10000 = omega arith in
    let en : u32 (n <<< 11) ≡ n * 0x800 = omega arith in
    let ef : u32 (f <<< 8) ≡ f * 0x100 = omega arith in
    let eo : u32 offset ≡ offset = omega arith in
    let s₁ : bit_or 0x80000000 (b * 0x10000) ≡ 0x80000000 + b * 0x10000 =
      bit_or_apart 31 1 (b * 0x10000) (omega arith) in
    let l₂ : (0x8000 + b) * 0x10000 ≡ 0x80000000 + b * 0x10000 = omega arith in
    let l₃ : (0x100000 + b * 0x20 + n) * 0x800 ≡ 0x80000000 + b * 0x10000 + n * 0x800 =
      omega arith in
    let l₄ : (0x800000 + b * 0x100 + n * 8 + f) * 0x100
        ≡ 0x80000000 + b * 0x10000 + n * 0x800 + f * 0x100 =
      omega arith in
    let s₂ : bit_or (0x80000000 + b * 0x10000) (n * 0x800) ≡ 0x80000000 + b * 0x10000 + n * 0x800 =
      subst (λ x. bit_or x (n * 0x800) ≡ x + n * 0x800) l₂
        (bit_or_apart 16 (0x8000 + b) (n * 0x800) (omega arith)) in
    let s₃ =
      subst (λ x. bit_or x (f * 0x100) ≡ x + f * 0x100) l₃
        (bit_or_apart 11 (0x100000 + b * 0x20 + n) (f * 0x100) (omega arith)) in
    let s₄ =
      subst (λ x. bit_or x offset ≡ x + offset) l₄
        (bit_or_apart 8 (0x800000 + b * 0x100 + n * 8 + f) offset (omega arith)) in
    rw (eb, en, ef, eo, s₁, s₂, s₃) s₄

-- A device as the hardware addresses it: bus, device and function within their 8, 5 and 3 bits.
abbrev pub IsAddressable : PciDevice → Type 0
IsAddressable d = (d.bus_number < 256) × (d.device_number < 32) × (d.function_number < 8)

-- Two configuration registers, of addressable devices and at offsets below 256, that have the same
-- address are the same register of the same device.
pub generate_pci_config_address-injective :
    (d e : PciDevice) (offset offset' : ℕ)
    → IsAddressable d
    → IsAddressable e
    → offset < 256
    → offset' < 256
    → generate_pci_config_address d offset ≡ generate_pci_config_address e offset'
    → (d ≡ e) × (offset ≡ offset')
generate_pci_config_address-injective d e offset offset' (b, n, f) (b', n', f') lt lt' same =
    let same' =
      sym (config_address_lem d offset b n f lt)
      ∙ same
      ∙ config_address_lem e offset' b' n' f' lt' in
    let eb : d.bus_number ≡ e.bus_number = omega arith in
    let en : d.device_number ≡ e.device_number = omega arith in
    let ef : d.function_number ≡ e.function_number = omega arith in
    (λ i. record { bus_number = eb i; device_number = en i; function_number = ef i }, omega arith)

module _ {A : Type 0} where
  -- What the rounds of a loop append.
  mem-for_each :
      (rounds i : ℕ) (f : ℕ → List A) (a : A)
      → Memᴰ a (for_each rounds i f)
      → (j : ℕ) × (i ≤ j) × (j < i + rounds) × Memᴰ a (f j)
  unfolding for_each
  mem-for_each zero i f a m = elim m [ ]
  mem-for_each (suc rounds) i f a m = elim (append_cases (f i) m) [
    | inl here ↦ (i, omega arith, omega arith, here)
    | inr there ↦
        let (j, lo, hi, at) = mem-for_each rounds (i + 1) f a there in
        (j, omega arith, omega arith, at)
  ]

  -- A device that is appended under a condition.
  mem-guarded : (b : Bool) (x a : A) → Memᴰ a (if b then x ∷ [] else []) → (b ≡ true) × (a ≡ x)
  mem-guarded true x a (head e) = (refl, e)
  mem-guarded true x a (tail m) = elim m [ ]
  mem-guarded false x a m = elim m [ ]

  mem-if : (b : Bool) (xs : List A) (a : A) → Memᴰ a (if b then xs else []) → (b ≡ true) × Memᴰ a xs
  mem-if true xs a m = (refl, m)
  mem-if false xs a m = elim m [ ]

abbrev pub first_function : PciDevice → PciDevice
first_function d = record d { function_number = 0 }

-- Bit 7 of the header type.
abbrev pub has_multiple_functions : (ℕ → ℕ) → PciDevice → Bool
has_multiple_functions config d =
    if bit_and (get_header_type config d) 0x80 == 0 then false else true

-- The device is there on its bus, by its function 0; a function above 0 is one of a device that says
-- it has several, and is there itself.
abbrev pub IsListed : (ℕ → ℕ) → PciDevice → Type 0
IsListed config d =
    (d.bus_number < 256)
    × (d.device_number < 32)
    × (device_exists config (first_function d) ≡ true)
    × (if has_multiple_functions config (first_function d)
        then (d.function_number < 8) × (device_exists config d ≡ true)
        else d.function_number ≡ 0)

module _ (config : ℕ → ℕ) where
  -- The devices that `add_device` appends, by the test that it makes.
  OfDevice : Bool → PciDevice → PciDevice → Type 0
  OfDevice single device d =
      (d.bus_number ≡ device.bus_number)
      × (d.device_number ≡ device.device_number)
      × (if (if single then false else true)
          then (d.function_number < 8) × (device_exists config d ≡ true)
          else d.function_number ≡ device.function_number)

  added : Bool → PciDevice → List PciDevice
  added single device =
      if single then device ∷ [] else for_each 8 0 (existing_function config device)

  mem-added :
      (single : Bool) (device d : PciDevice)
      → Memᴰ d (added single device)
      → OfDevice single device d
  unfolding added OfDevice existing_function
  mem-added true device d (head e) =
      (ap (λ x. x.bus_number) e, ap (λ x. x.device_number) e, ap (λ x. x.function_number) e)
  mem-added true device d (tail m) = elim m [ ]
  mem-added false device d m =
      let (f, lo, hi, at) = mem-for_each 8 0 (existing_function config device) d m in
      let (there, e) = mem-guarded _ _ d at in
      (
        ap (λ x. x.bus_number) e,
        ap (λ x. x.device_number) e,
        (
          subst (λ g. g < 8) (sym (ap (λ x. x.function_number) e)) hi,
          ap (device_exists config) e ∙ there,
        ),
      )

  listed : (d : PciDevice) → Memᴰ d (enumerate_devices config) → IsListed config d
  unfolding enumerate_devices try_device add_device added OfDevice
  listed d m =
      let (bus, _, hb, m₁) = mem-for_each 256 0 _ d m in
      let (number, _, hn, m₂) = mem-for_each 32 0 (try_device config bus) d m₁ in
      let (there, m₃) = mem-if _ _ d m₂ in
      let device : PciDevice = record {
        bus_number = bus;
        device_number = number;
        function_number = 0;
      } in
      let (eb, en, rest) =
        mem-added (bit_and (get_header_type config device) 0x80 == 0) device d m₃ in
      let e : first_function d ≡ device =
        λ i. record { bus_number = eb i; device_number = en i; function_number = 0 } in
      (
        omega arith,
        omega arith,
        ap (device_exists config) e ∙ there,
        subst
            (λ x.
              if has_multiple_functions config x
              then (d.function_number < 8) × (device_exists config d ≡ true)
              else d.function_number ≡ 0)
            (sym e) rest,
      )
