-- ===== src/Keyboard/Names.antt =====
-- src/drivers_manager/drivers/keyboard/extended_char.cpp: the names of the key codes.
use Prim.Native.String.{String}
use avi_kernel.Base.{List, [], ◌∷◌, ◌==◌, if◌then◌else◌}
use avi_kernel.Keyboard.Codes.{
  AviCharcode, key_0, key_1, key_2, key_3, key_4, key_5, key_6, key_7, key_8, key_9, key_a,
  key_apps, key_b, key_backslash, key_backspace, key_c, key_capslock, key_comma, key_d, key_delete,
  key_dot, key_downarrow, key_e, key_end, key_equal, key_escape, key_f, key_f1, key_f10, key_f11,
  key_f12, key_f2, key_f3, key_f4, key_f5, key_f6, key_f7, key_f8, key_f9, key_g, key_grave, key_h,
  key_home, key_i, key_insert, key_j, key_k, key_kp_0, key_kp_2, key_kp_3, key_kp_8,
  key_kp_asterisk, key_kp_decimal, key_kp_divide, key_kp_enter, key_kp_numlock, key_l, key_lctrl,
  key_leftarrow, key_leftbracket, key_lgui, key_lshift, key_m, key_minus, key_n, key_o, key_p,
  key_pagedown, key_pageup, key_q, key_quote, key_r, key_ralt, key_rctrl, key_return, key_rgui,
  key_rightarrow, key_rightbracket, key_rshift, key_s, key_scrolllock, key_semicolon, key_slash,
  key_space, key_t, key_tab, key_u, key_unknown, key_uparrow, key_v, key_w, key_x, key_y, key_z,
}

-- The first pair with this code decides.
unfoldable pub first_name : List (AviCharcode × String) → AviCharcode → String
first_name [] c = "ERROR0"
first_name ((code, name) ∷ rest) c = if c == code then name else first_name rest c

-- The tests of `avi_charcode_to_string`, in their order.
unfoldable pub names : List (AviCharcode × String)
names =
    (key_unknown, "KEY_UNKNOWN")
    ∷ (key_escape, "KEY_ESCAPE")
    ∷ (key_1, "KEY_1")
    ∷ (key_2, "KEY_2")
    ∷ (key_3, "KEY_3")
    ∷ (key_4, "KEY_4")
    ∷ (key_5, "KEY_5")
    ∷ (key_6, "KEY_6")
    ∷ (key_7, "KEY_7")
    ∷ (key_8, "KEY_8")
    ∷ (key_9, "KEY_9")
    ∷ (key_0, "KEY_0")
    ∷ (key_minus, "KEY_MINUS")
    ∷ (key_equal, "KEY_EQUAL")
    ∷ (key_backspace, "KEY_BACKSPACE")
    ∷ (key_tab, "KEY_TAB")
    ∷ (key_q, "KEY_Q")
    ∷ (key_w, "KEY_W")
    ∷ (key_e, "KEY_E")
    ∷ (key_r, "KEY_R")
    ∷ (key_t, "KEY_T")
    ∷ (key_y, "KEY_Y")
    ∷ (key_u, "KEY_U")
    ∷ (key_i, "KEY_I")
    ∷ (key_o, "KEY_O")
    ∷ (key_p, "KEY_P")
    ∷ (key_leftbracket, "KEY_LEFTBRACKET")
    ∷ (key_rightbracket, "KEY_RIGHTBRACKET")
    ∷ (key_return, "KEY_RETURN")
    ∷ (key_lctrl, "KEY_LCTRL")
    ∷ (key_a, "KEY_A")
    ∷ (key_s, "KEY_S")
    ∷ (key_d, "KEY_D")
    ∷ (key_f, "KEY_F")
    ∷ (key_g, "KEY_G")
    ∷ (key_h, "KEY_H")
    ∷ (key_j, "KEY_J")
    ∷ (key_k, "KEY_K")
    ∷ (key_l, "KEY_L")
    ∷ (key_semicolon, "KEY_SEMICOLON")
    ∷ (key_quote, "KEY_QUOTE")
    ∷ (key_grave, "KEY_GRAVE")
    ∷ (key_lshift, "KEY_LSHIFT")
    ∷ (key_backslash, "KEY_BACKSLASH")
    ∷ (key_z, "KEY_Z")
    ∷ (key_x, "KEY_X")
    ∷ (key_c, "KEY_C")
    ∷ (key_v, "KEY_V")
    ∷ (key_b, "KEY_B")
    ∷ (key_n, "KEY_N")
    ∷ (key_m, "KEY_M")
    ∷ (key_comma, "KEY_COMMA")
    ∷ (key_dot, "KEY_DOT")
    ∷ (key_slash, "KEY_SLASH")
    ∷ (key_rshift, "KEY_RSHIFT")
    ∷ (key_kp_asterisk, "KEY_KP_ASTERISK")
    ∷ (key_ralt, "KEY_RALT")
    ∷ (key_space, "KEY_SPACE")
    ∷ (key_capslock, "KEY_CAPSLOCK")
    ∷ (key_f1, "KEY_F1")
    ∷ (key_f2, "KEY_F2")
    ∷ (key_f3, "KEY_F3")
    ∷ (key_f4, "KEY_F4")
    ∷ (key_f5, "KEY_F5")
    ∷ (key_f6, "KEY_F6")
    ∷ (key_f7, "KEY_F7")
    ∷ (key_f8, "KEY_F8")
    ∷ (key_f9, "KEY_F9")
    ∷ (key_f10, "KEY_F10")
    ∷ (key_kp_numlock, "KEY_KP_NUMLOCK")
    ∷ (key_scrolllock, "KEY_SCROLLLOCK")
    ∷ (key_home, "KEY_HOME")
    ∷ (key_kp_8, "KEY_KP_8")
    ∷ (key_pageup, "KEY_PAGEUP")
    ∷ (key_kp_2, "KEY_KP_2")
    ∷ (key_kp_3, "KEY_KP_3")
    ∷ (key_kp_0, "KEY_KP_0")
    ∷ (key_kp_decimal, "KEY_KP_DECIMAL")
    ∷ (key_f11, "KEY_F11")
    ∷ (key_f12, "KEY_F12")
    ∷ (key_kp_enter, "KEY_KP_ENTER")
    ∷ (key_rctrl, "KEY_RCTRL")
    ∷ (key_kp_divide, "KEY_KP_DIVIDE")
    ∷ (key_ralt, "KEY_RALT")
    ∷ (key_home, "KEY_HOME")
    ∷ (key_uparrow, "KEY_UPARROW")
    ∷ (key_pageup, "KEY_PAGEUP")
    ∷ (key_leftarrow, "KEY_LEFTARROW")
    ∷ (key_rightarrow, "KEY_RIGHTARROW")
    ∷ (key_end, "KEY_END")
    ∷ (key_downarrow, "KEY_DOWNARROW")
    ∷ (key_pagedown, "KEY_PAGEDOWN")
    ∷ (key_insert, "KEY_INSERT")
    ∷ (key_delete, "KEY_DELETE")
    ∷ (key_lgui, "KEY_LGUI")
    ∷ (key_rgui, "KEY_RGUI")
    ∷ (key_apps, "KEY_APPS")
    ∷ []

unfoldable pub avi_charcode_to_string : AviCharcode → String
avi_charcode_to_string c = first_name names c
