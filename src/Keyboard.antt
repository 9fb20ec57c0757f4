-- ===== src/Keyboard.antt =====
-- src/drivers_manager/drivers/keyboard/extended_char.cpp and keyboard_ps2_driver.cpp: the characters
-- that keys stand for, and the decoder of the bytes that a PS/2 keyboard sends. The byte read from
-- the port is an argument. A read beyond the end of a table is `none`.
pub mod Codes
pub mod ScanCodes
pub mod Names
pub mod Laws
pub mod Keys
pub mod Named
use avi_kernel.Base.{
  ℕ, ◌+◌, Bool, true, false, not, ◌&&◌, ◌||◌, Option, none, some, List, [], ◌∷◌, ltb, leb, ◌==◌,
  if◌then◌else◌, get_elem?, bit_and,
}
use Codes.{AviCharcode, key_space}
use ScanCodes.{one_scan_code_to_avi_charcode_arr, two_scan_codes_to_avi_charcode_arr}

-- The three constructors of `ExtendedChar`; its only field is the code.
unfoldable pub default_char : AviCharcode
default_char = key_space

unfoldable pub char_of_one : ℕ → Option AviCharcode
char_of_one scan_code = get_elem? one_scan_code_to_avi_charcode_arr scan_code

unfoldable pub char_of_two : ℕ → ℕ → Option AviCharcode
char_of_two scan_code_1 scan_code_2 = get_elem? two_scan_codes_to_avi_charcode_arr scan_code_2

unfoldable pub printable : AviCharcode → Bool
printable c = ltb c 0x1000

unfoldable pub as_regular_char : AviCharcode → ℕ
as_regular_char c = if not (printable c) then 0 else c

abbrev pub make_scan_codes_start : ℕ
make_scan_codes_start = 0x1

abbrev pub make_scan_codes_end : ℕ
make_scan_codes_end = 0x58

abbrev pub break_scan_code_start : ℕ
break_scan_code_start = 0x81

abbrev pub break_scan_code_end : ℕ
break_scan_code_end = 0xD8

abbrev pub scan_code_wait_for_second : ℕ
scan_code_wait_for_second = 0xE0

abbrev pub scan_code_wait_for_second_and_third : ℕ
scan_code_wait_for_second_and_third = 0xE1

-- The driver's members; a listener is there or is NULL.
pub record Ps2Driver : Type 0 where
  pub wait_for_second : Bool
  pub wait_for_second_and_third : Bool
  pub has_press_listener : Bool
  pub has_release_listener : Bool

-- A call of a listener.
pub data Call : Type 0 where
  press release : AviCharcode → Call

-- The driver afterwards and the calls made; `none` is a read beyond the end of a table.
abbrev pub Reaction : Type 0
Reaction = Option (Ps2Driver × List Call)

unfoldable pub call_if : Bool → Call → List Call
call_if there call = if there then call ∷ [] else []

-- Does it ignore this scan code, and the driver afterwards.
unfoldable pub ignore : ℕ → Ps2Driver → Bool × Ps2Driver
ignore scan_code d =
    if d.wait_for_second && ((scan_code == 0x2A) || (scan_code == 0xB7))
    then (true, d)
    else if d.wait_for_second && ((scan_code == 0x37) || (scan_code == 0xAA))
    then (true, record d { wait_for_second = false })
    else if d.wait_for_second_and_third && ((scan_code == 0x1D) || (scan_code == 0x9D))
    then (true, d)
    else if d.wait_for_second_and_third && ((scan_code == 0x45) || (scan_code == 0xC5))
    then (true, record d { wait_for_second_and_third = false })
    else (false, d)

-- The two branches of both handlers: the character looked up, the driver after it, the call.
unfoldable pub react : Option AviCharcode → Ps2Driver → Bool → (AviCharcode → Call) → Reaction
react none d there call = none
react (some c) d there call = some (d, call_if there (call c))

unfoldable pub on_make_scan_code : ℕ → Ps2Driver → Reaction
on_make_scan_code scan_code d =
    if d.wait_for_second
    then react (char_of_two scan_code_wait_for_second scan_code)
        (record d { wait_for_second = false }) d.has_press_listener press
    else react (char_of_one scan_code) d d.has_press_listener press

unfoldable pub on_break_scan_code : ℕ → Ps2Driver → Reaction
on_break_scan_code scan_code d =
    if d.wait_for_second
    then react (char_of_two scan_code_wait_for_second scan_code)
        (record d { wait_for_second = false }) d.has_release_listener release
    else react (char_of_one scan_code) d d.has_release_listener release

-- The tests of `on_ke_data` after `ignore`, with the byte turned into a make code.
unfoldable pub on_scan_code : ℕ → Ps2Driver → Reaction
on_scan_code byte d =
    let is_break = leb break_scan_code_start byte && leb byte break_scan_code_end in
    let code = if is_break then bit_and byte 0x7F else byte in
    if (leb make_scan_codes_start code && leb code make_scan_codes_end)
      || (code == scan_code_wait_for_second)
    then (if is_break then on_break_scan_code code d else on_make_scan_code code d)
    else some (d, [])

unfoldable pub on_ke_data : ℕ → Ps2Driver → Reaction
on_ke_data byte d =
    let (ignored, d') = ignore byte d in
    if byte == scan_code_wait_for_second
    then some (record d { wait_for_second = true }, [])
    else if byte == scan_code_wait_for_second_and_third
    then some (record d { wait_for_second_and_third = true }, [])
    else if ignored
    then some (d', [])
    else on_scan_code byte d'
