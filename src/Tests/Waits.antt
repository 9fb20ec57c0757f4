-- ===== src/Tests/Waits.antt =====
-- The theorems on the busy loops, at two key presses and at five ticks.
use avi_kernel.Base.{
  ℕ, List, [], ◌∷◌, ◌++◌, ◌≡◌, refl, arith, true, leb, if◌then◌else◌, none, some, ok,
}
use avi_kernel.Keyboard.Codes.{AviCharcode}
use avi_kernel.Input.{Queue, Press, getchar, sleep}
use avi_kernel.Input.Waiting.{typed, getchar_lem, sleep_lem}

abbrev press : AviCharcode → Press
press key = record { key = key; new_node = true }

-- The second key, behind one that has no character, is "a", and the third "b".
getchar_lem_example :
    (presses_left : List Press) × (q : Queue ℕ) × (getchar
        (press 0x1001 ∷ press 97 ∷ press 98 ∷ [])
        (record { nodes = []; queue_size = 0 })
      ≡ some (ok (97, presses_left, q)))
    × (q.nodes ++ typed presses_left ≡ 98 ∷ [])
unfolding typed
getchar_lem_example =
    getchar_lem (press 0x1001 ∷ press 97 ∷ press 98 ∷ []) [] 0 97 (98 ∷ [])
      (refl, (refl, (refl, tt))) refl

sleep_lem_example : sleep 5 3 100 ≡ (if leb 3 5 then some 103 else none)
sleep_lem_example = sleep_lem 5 3 100 (omega arith)
