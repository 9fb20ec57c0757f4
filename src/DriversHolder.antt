-- ===== src/DriversHolder.antt =====
-- src/drivers_manager/drivers/drivers_holder.cpp, drivers/keyboard/keyboard_generic_driver.cpp and
-- keyborad_driver.cpp: the drivers that exist, and the listeners of keyboards.
--
-- A driver is a number, its address; `KeyboardStore` holds the keyboard drivers by their numbers. `L` is the
-- type of listeners.
use avi_kernel.Base.{
  ℕ, zero, suc, ◌+◌, Bool, true, false, List, [], ◌∷◌, ◌++◌, ◌==◌, ltb, if◌then◌else◌, Option, none,
  some, Result, ok, ◌>>=◌, pos,
}
use avi_kernel.Vector
use avi_kernel.Vector.{Vector}
pub mod Laws
pub mod Listeners

pub record DriversHolder : Type 0 where
  pub all_drivers : Vector ℕ
  pub existing_drivers : Vector ℕ

unfoldable pub drivers_holder : DriversHolder
unfolding Vector.empty_vector
drivers_holder = record {
  all_drivers = Vector.empty_vector;
  existing_drivers = Vector.empty_vector;
}

unfoldable pub add_driver : DriversHolder → ℕ → DriversHolder
unfolding Vector.append
add_driver holder d = record holder { all_drivers = Vector.append holder.all_drivers d }

module _ (exist : ℕ → Bool) where
  unfoldable pub filter_from : ℕ → ℕ → DriversHolder → Result DriversHolder
  unfolding Vector.get Vector.append
  filter_from zero i holder = ok holder
  filter_from (suc rounds) i holder = Vector.get holder.all_drivers (pos i) >>= λ d.
      filter_from rounds (i + 1) (
        if exist d
        then record holder { existing_drivers = Vector.append holder.existing_drivers d }
        else holder)

  unfoldable pub filter : DriversHolder → Result DriversHolder
  unfolding filter_from Vector.size
  filter holder = filter_from (Vector.size holder.all_drivers) 0 holder

pub record KeyboardDriver (L : Type 0) : Type 0 where
  pub press_listener : Option L
  pub release_listener : Option L

module _ {L : Type 0} where
  unfoldable pub listen_press : L → KeyboardDriver L → KeyboardDriver L
  listen_press l driver = record driver { press_listener = some l }

  unfoldable pub listen_release : L → KeyboardDriver L → KeyboardDriver L
  listen_release l driver = record driver { release_listener = some l }

abbrev pub KeyboardStore : Type 0 → Type 0
KeyboardStore L = ℕ → KeyboardDriver L

-- The generic driver is a keyboard driver itself.
pub record KeyboardGenericDriver (L : Type 0) : Type 0 where
  pub own : KeyboardDriver L
  pub holder : DriversHolder
  pub store : KeyboardStore L

module _ {L : Type 0} where
  abbrev pub update : (KeyboardDriver L → KeyboardDriver L) → ℕ → KeyboardStore L → KeyboardStore L
  update change d store n = if n == d then change (store n) else store n

  -- A loop over the existing drivers.
  unfoldable pub each_existing :
      (KeyboardDriver L → KeyboardDriver L)
      → ℕ
      → ℕ
      → Vector ℕ
      → KeyboardStore L
      → Result (KeyboardStore L)
  unfolding Vector.get
  each_existing change zero i existing store = ok store
  each_existing change (suc rounds) i existing store = Vector.get existing (pos i) >>= λ d.
      each_existing change rounds (i + 1) existing (update change d store)

  unfoldable pub set_on_press_listener :
      L → KeyboardGenericDriver L → Result (KeyboardGenericDriver L)
  unfolding listen_press each_existing Vector.size
  set_on_press_listener l generic =
      let existing = generic.holder.existing_drivers in
      each_existing (listen_press l) (Vector.size existing) 0 existing generic.store >>= λ store.
      ok (record generic { own = listen_press l generic.own; store = store })

  unfoldable pub set_on_release_listener :
      L → KeyboardGenericDriver L → Result (KeyboardGenericDriver L)
  unfolding listen_press listen_release each_existing Vector.size
  set_on_release_listener l generic =
      let existing = generic.holder.existing_drivers in
      each_existing (listen_release l) (Vector.size existing) 0 existing generic.store >>= λ store.
      ok (record generic { own = listen_press l (listen_release l generic.own); store = store })

  unfoldable pub generic_exist : KeyboardGenericDriver L → Bool
  unfolding Vector.size
  generic_exist generic = ltb 0 (Vector.size generic.holder.existing_drivers)
