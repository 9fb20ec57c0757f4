-- ===== src/Keyboard/Named.antt =====
-- The names of the keys that the driver reports.
use text.Mathlib.Text.{◌==◌}
use avi_kernel.Base.{
  ℕ, zero, suc, Bool, true, false, not, ◌&&◌, some, List, [], ◌∷◌, ◌≡◌, refl, ap, ◌∙◌, sym,
  get_elem?, ◌⊎◌, inl, inr,
}
use avi_kernel.Keyboard.{char_of_one, char_of_two}
use avi_kernel.Keyboard.Codes.{AviCharcode}
use avi_kernel.Keyboard.ScanCodes.{
  one_scan_code_to_avi_charcode_arr, two_scan_codes_to_avi_charcode_arr,
}
use avi_kernel.Keyboard.Names.{avi_charcode_to_string, names, first_name}

abbrev pub has_name : AviCharcode → Bool
has_name c = not (avi_charcode_to_string c == "ERROR0")

all_named : List AviCharcode → Bool
all_named [] = true
all_named (c ∷ cs) = has_name c && all_named cs

and_both : (a b : Bool) → (a && b) ≡ true → (a ≡ true) × (b ≡ true)
and_both true b e = (refl, e)
and_both false b e = cc

named_entry :
    (cs : List AviCharcode) (i : ℕ) (c : AviCharcode)
    → all_named cs ≡ true
    → get_elem? cs i ≡ some c
    → has_name c ≡ true
unfolding all_named
named_entry [] i c all e = cc
named_entry (x ∷ cs) zero c all e =
    let at : x ≡ c = cc in ap has_name (sym at) ∙ (and_both (has_name x) _ all).0
named_entry (x ∷ cs) (suc i) c all e = named_entry cs i c (and_both (has_name x) _ all).1 e

one_named : all_named one_scan_code_to_avi_charcode_arr ≡ true
unfolding all_named one_scan_code_to_avi_charcode_arr avi_charcode_to_string names first_name
one_named = refl

two_named : all_named two_scan_codes_to_avi_charcode_arr ≡ true
unfolding all_named two_scan_codes_to_avi_charcode_arr avi_charcode_to_string names first_name
two_named = refl

-- Every character that a key of one or of two scan codes stands for has a name: for it,
-- `avi_charcode_to_string` does not return "ERROR0".
pub avi_charcode_to_string_lem :
    (k : ℕ) (c : AviCharcode)
    → (char_of_one k ≡ some c) ⊎ (char_of_two 0xE0 k ≡ some c)
    → has_name c ≡ true
unfolding char_of_one char_of_two
avi_charcode_to_string_lem k c (inl e) =
    named_entry one_scan_code_to_avi_charcode_arr k c one_named e
avi_charcode_to_string_lem k c (inr e) =
    named_entry two_scan_codes_to_avi_charcode_arr k c two_named e
