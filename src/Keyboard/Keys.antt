-- ===== src/Keyboard/Keys.antt =====
-- Which bytes report which key.
use avi_kernel.Base.{
  ℕ, ◌+◌, ◌≤◌, ◌<◌, true, false, ◌⊎◌, inl, inr, some, [], ◌∷◌, ◌++◌, ◌≡◌, ◌≢◌, refl, sym, ◌∙◌, ap,
  bit_and, arith, ◌==◌,
}
use avi_kernel.Keyboard.Codes.{AviCharcode}
use avi_kernel.Keyboard.{
  char_of_one, char_of_two, Ps2Driver, press, release, call_if, ignore, react, on_make_scan_code,
  on_break_scan_code, on_scan_code, on_ke_data,
}
use avi_kernel.Keyboard.Laws.{
  on_bytes, on_bytes_step, on_bytes_last, IsIdle, make_case, break_case, other_case, break_code,
}

waiting : Ps2Driver → Ps2Driver
waiting d = record d { wait_for_second = true }

idle_again :
    (d : Ps2Driver)
    → IsIdle d
    → (d' : Ps2Driver) → d' ≡ record d { wait_for_second = false }
    → d' ≡ d
idle_again d (e, f) d' g = g ∙ ap (λ w. record d { wait_for_second = w }) (sym e)

idle_case : (b : ℕ) (d : Ps2Driver) → IsIdle d → ignore b d ≡ (false, d)
unfolding ignore
idle_case b d (e, f) = rw (e, f) refl

waiting_case :
    (b : ℕ) (d : Ps2Driver)
    → IsIdle d
    → b ≢ 0x2A
    → b ≢ 0xB7
    → b ≢ 0x37
    → b ≢ 0xAA
    → ignore b (waiting d) ≡ (false, waiting d)
unfolding ignore waiting
waiting_case b d (e, f) ne₁ ne₂ ne₃ ne₄ = ground arith

taken_case :
    (b : ℕ) (d : Ps2Driver)
    → ignore b d ≡ (false, d)
    → b ≢ 0xE0
    → b ≢ 0xE1
    → on_ke_data b d ≡ on_scan_code b d
unfolding on_ke_data
taken_case b d g ne₁ ne₂ =
    let e₁ : (b == 0xE0) ≡ false = ground arith in
    let e₂ : (b == 0xE1) ≡ false = ground arith in rw (e₁, e₂, g) refl

prefix_case : (d : Ps2Driver) → on_ke_data 0xE0 d ≡ some (waiting d, [])
unfolding on_ke_data waiting
prefix_case d = refl

module _ (k : ℕ) (d : Ps2Driver) (idle : IsIdle d) (lo : 1 ≤ k) (hi : k ≤ 0x58)
    (c : AviCharcode) where
  low_bits : bit_and (k + 0x80) 0x7F ≡ k
  low_bits = omega (arith, break_code (k + 0x80) (omega arith) (omega arith))

  make_key :
      char_of_one k ≡ some c → on_ke_data k d ≡ some (d, call_if d.has_press_listener (press c))
  unfolding on_make_scan_code react
  make_key e =
      taken_case k d (idle_case k d idle) (omega arith) (omega arith)
      ∙ make_case k d lo hi
      ∙ rw (idle.0, e) refl

  break_key :
      char_of_one k ≡ some c
      → on_ke_data (k + 0x80) d ≡ some (d, call_if d.has_release_listener (release c))
  unfolding on_break_scan_code react
  break_key e =
      taken_case (k + 0x80) d (idle_case (k + 0x80) d idle) (omega arith) (omega arith)
      ∙ break_case (k + 0x80) d (omega arith) (omega arith)
      ∙ rw (low_bits, idle.0, e) refl

  module _ (ne₁ : k ≢ 0x2A) (ne₂ : k ≢ 0x37) (e : char_of_two 0xE0 k ≡ some c) where
    make_extended : on_ke_data k (waiting d) ≡ some (d, call_if d.has_press_listener (press c))
    unfolding on_make_scan_code react waiting
    make_extended =
        taken_case k (waiting d) (waiting_case k d idle ne₁ (omega arith) ne₂ (omega arith))
          (omega arith) (omega arith)
        ∙ make_case k (waiting d) lo hi
        ∙ rw e (
            ap (λ d'. some (d', call_if d.has_press_listener (press c))) (idle_again d idle _ refl))

    break_extended :
        on_ke_data (k + 0x80) (waiting d) ≡ some (d, call_if d.has_release_listener (release c))
    unfolding on_break_scan_code react waiting
    break_extended =
        taken_case (k + 0x80) (waiting d)
          (waiting_case (k + 0x80) d idle (omega arith) (omega arith) (omega arith) (omega arith))
          (omega arith) (omega arith)
        ∙ break_case (k + 0x80) (waiting d) (omega arith) (omega arith)
        ∙ rw (low_bits, e)
            (ap (λ d'. some (d', call_if d.has_release_listener (release c)))
              (idle_again d idle _ refl))

-- A key of one scan code, between 1 and 0x58: while no longer code is half read, its make code and then
-- its break code call the press listener and the release listener, those that are set, once each with
-- the key's entry of the table, and leave the driver as it was.
pub key_lem :
    (k : ℕ) (d : Ps2Driver) (c : AviCharcode)
    → IsIdle d
    → 1 ≤ k
    → k ≤ 0x58
    → char_of_one k ≡ some c
    → on_bytes (k ∷ (k + 0x80) ∷ []) d
      ≡ some
          (d, call_if d.has_press_listener (press c) ++ call_if d.has_release_listener (release c))
key_lem k d c idle lo hi e =
    on_bytes_step k _ d d d _ _ (make_key k d idle lo hi c e)
      (on_bytes_last (k + 0x80) d d _ (break_key k d idle lo hi c e))

-- A key of two scan codes, 0xE0 and one between 1 and 0x58 that the driver does not take for a part of
-- Print Screen: while no longer code is half read, its make code and then its break code call the press
-- listener and the release listener, those that are set, once each with the key's entry of the second
-- table, and leave the driver as it was.
pub extended_key_lem :
    (k : ℕ) (d : Ps2Driver) (c : AviCharcode)
    → IsIdle d
    → 1 ≤ k
    → k ≤ 0x58
    → k ≢ 0x2A
    → k ≢ 0x37
    → char_of_two 0xE0 k ≡ some c
    → on_bytes (0xE0 ∷ k ∷ 0xE0 ∷ (k + 0x80) ∷ []) d
      ≡ some
          (d, call_if d.has_press_listener (press c) ++ call_if d.has_release_listener (release c))
extended_key_lem k d c idle lo hi ne₁ ne₂ e =
    on_bytes_step 0xE0 _ d (waiting d) d [] _ (prefix_case d) (
      on_bytes_step k _ (waiting d) d d _ _ (make_extended k d idle lo hi c ne₁ ne₂ e) (
        on_bytes_step 0xE0 _ d (waiting d) d [] _ (prefix_case d)
          (on_bytes_last (k + 0x80) (waiting d) d _ (break_extended k d idle lo hi c ne₁ ne₂ e))))

-- A key of two scan codes whose second lies above 0x58, such as the GUI keys of the second table: while
-- no longer code is half read, its make code makes no call, and the press of a key of one scan code `j`
-- that follows it is reported as the key of the two scan codes 0xE0 and `j`.
pub unreported_key_lem :
    (k j : ℕ) (d : Ps2Driver) (c : AviCharcode)
    → IsIdle d
    → 0x58 < k
    → k ≤ 0x80
    → 1 ≤ j
    → j ≤ 0x58
    → j ≢ 0x2A
    → j ≢ 0x37
    → char_of_two 0xE0 j ≡ some c
    → on_bytes (0xE0 ∷ k ∷ j ∷ []) d ≡ some (d, call_if d.has_press_listener (press c))
unreported_key_lem k j d c idle above below lo hi ne₁ ne₂ e =
    let out : (k < 1) ⊎ (0x58 < k × k < 0x81) ⊎ (0xD8 < k) = inr (inl (above, omega arith)) in
    let lost : on_ke_data k (waiting d) ≡ some (waiting d, []) =
      taken_case k (waiting d)
        (waiting_case k d idle (omega arith) (omega arith) (omega arith) (omega arith))
        (omega arith) (omega arith)
      ∙ other_case k (waiting d) out (omega arith) in
    on_bytes_step 0xE0 _ d (waiting d) d [] _ (prefix_case d) (
      on_bytes_step k _ (waiting d) (waiting d) d [] _ lost
        (on_bytes_last j (waiting d) d _ (make_extended j d idle lo hi c ne₁ ne₂ e)))
