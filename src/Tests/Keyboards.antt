-- ===== src/Tests/Keyboards.antt =====
-- The theorem on the listeners, at two drivers of which one exists.
use avi_kernel.Base.{ℕ, [], ◌∷◌, if◌then◌else◌, none, some, ok, ◌>>=◌, ◌≡◌, refl}
use avi_kernel.DriversHolder.{
  DriversHolder, KeyboardDriver, KeyboardGenericDriver, set_on_press_listener,
  set_on_release_listener,
}
use avi_kernel.DriversHolder.Listeners.{member, set_listeners_lem}

abbrev two_drivers : DriversHolder
two_drivers = record {
  all_drivers = record { nodes = 7 ∷ 8 ∷ []; vector_size = 2 };
  existing_drivers = record { nodes = []; vector_size = 0 };
}

abbrev silent : KeyboardDriver ℕ
silent = record { press_listener = none; release_listener = none }

abbrev keyboard : KeyboardGenericDriver ℕ
keyboard = record {
  own = silent;
  holder = record two_drivers { existing_drivers = record { nodes = 8 ∷ []; vector_size = 1 } };
  store = λ n. silent;
}

set_listeners_example :
    (g : KeyboardGenericDriver ℕ) × ((set_on_press_listener 100 keyboard
        >>= set_on_release_listener 200)
      ≡ ok g)
    × ((n : ℕ)
        → g.store n ≡ (
            if member n (8 ∷ [])
            then record { press_listener = some 100; release_listener = some 200 }
            else silent))
    × (g.own ≡ record { press_listener = some 200; release_listener = some 200 })
    × (g.holder ≡ keyboard.holder)
set_listeners_example = set_listeners_lem 100 200 keyboard refl
