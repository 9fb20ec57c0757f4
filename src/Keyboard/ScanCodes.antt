-- ===== src/Keyboard/ScanCodes.antt =====
-- src/drivers_manager/drivers/keyboard/extended_char.cpp: the tables of the scan codes.
use avi_kernel.Base.{List, [], ◌∷◌}
use avi_kernel.Keyboard.Codes.{
  AviCharcode, key_0, key_1, key_2, key_3, key_4, key_5, key_6, key_7, key_8, key_9, key_a,
  key_apps, key_b, key_backslash, key_backspace, key_c, key_capslock, key_comma, key_d, key_delete,
  key_dot, key_downarrow, key_e, key_end, key_equal, key_escape, key_f, key_f1, key_f10, key_f11,
  key_f12, key_f2, key_f3, key_f4, key_f5, key_f6, key_f7, key_f8, key_f9, key_g, key_grave, key_h,
  key_home, key_i, key_insert, key_j, key_k, key_kp_0, key_kp_2, key_kp_3, key_kp_8,
  key_kp_asterisk, key_kp_decimal, key_kp_divide, key_kp_enter, key_kp_numlock, key_l, key_lctrl,
  key_leftarrow, key_leftbracket, key_lgui, key_lshift, key_m, key_minus, key_n, key_o, key_p,
  key_pagedown, key_pageup, key_q, key_quote, key_r, key_ralt, key_rctrl, key_return, key_rgui,
  key_rightarrow, key_rightbracket, key_rshift, key_s, key_scrolllock, key_semicolon, key_slash,
  key_space, key_t, key_tab, key_u, key_unknown, key_uparrow, key_v, key_w, key_x, key_y, key_z,
}

-- A key of one scan code.
unfoldable pub one_scan_code_to_avi_charcode_arr : List AviCharcode
one_scan_code_to_avi_charcode_arr =
    key_unknown ∷ key_escape ∷ key_1 ∷ key_2 ∷ key_3 ∷ key_4 ∷ key_5 ∷ key_6 ∷ key_7 ∷ key_8 ∷ key_9
    ∷ key_0 ∷ key_minus ∷ key_equal ∷ key_backspace ∷ key_tab ∷ key_q ∷ key_w ∷ key_e ∷ key_r
    ∷ key_t ∷ key_y ∷ key_u ∷ key_i ∷ key_o ∷ key_p ∷ key_leftbracket ∷ key_rightbracket
    ∷ key_return ∷ key_lctrl ∷ key_a ∷ key_s ∷ key_d ∷ key_f ∷ key_g ∷ key_h ∷ key_j ∷ key_k ∷ key_l
    ∷ key_semicolon ∷ key_quote ∷ key_grave ∷ key_lshift ∷ key_backslash ∷ key_z ∷ key_x ∷ key_c
    ∷ key_v ∷ key_b ∷ key_n ∷ key_m ∷ key_comma ∷ key_dot ∷ key_slash ∷ key_rshift ∷ key_kp_asterisk
    ∷ key_ralt ∷ key_space ∷ key_capslock ∷ key_f1 ∷ key_f2 ∷ key_f3 ∷ key_f4 ∷ key_f5 ∷ key_f6
    ∷ key_f7 ∷ key_f8 ∷ key_f9 ∷ key_f10 ∷ key_kp_numlock ∷ key_scrolllock ∷ key_home ∷ key_kp_8
    ∷ key_pageup ∷ key_unknown ∷ key_unknown ∷ key_unknown ∷ key_unknown ∷ key_unknown ∷ key_unknown
    ∷ key_kp_2 ∷ key_kp_3 ∷ key_kp_0 ∷ key_kp_decimal ∷ key_unknown ∷ key_unknown ∷ key_unknown
    ∷ key_f11 ∷ key_f12 ∷ []

-- A key of two scan codes, by the second.
unfoldable pub two_scan_codes_to_avi_charcode_arr : List AviCharcode
two_scan_codes_to_avi_charcode_arr =
    key_unknown ∷ key_unknown ∷ key_unknown ∷ key_unknown ∷ key_unknown ∷ key_unknown ∷ key_unknown
    ∷ key_unknown ∷ key_unknown ∷ key_unknown ∷ key_unknown ∷ key_unknown ∷ key_unknown
    ∷ key_unknown ∷ key_unknown ∷ key_unknown ∷ key_unknown ∷ key_unknown ∷ key_unknown
    ∷ key_unknown ∷ key_unknown ∷ key_unknown ∷ key_unknown ∷ key_unknown ∷ key_unknown
    ∷ key_unknown ∷ key_unknown ∷ key_unknown ∷ key_kp_enter ∷ key_rctrl ∷ key_unknown ∷ key_unknown
    ∷ key_unknown ∷ key_unknown ∷ key_unknown ∷ key_unknown ∷ key_unknown ∷ key_unknown
    ∷ key_unknown ∷ key_unknown ∷ key_unknown ∷ key_unknown ∷ key_unknown ∷ key_unknown
    ∷ key_unknown ∷ key_unknown ∷ key_unknown ∷ key_unknown ∷ key_unknown ∷ key_unknown
    ∷ key_unknown ∷ key_unknown ∷ key_unknown ∷ key_kp_divide ∷ key_unknown ∷ key_unknown ∷ key_ralt
    ∷ key_unknown ∷ key_unknown ∷ key_unknown ∷ key_unknown ∷ key_unknown ∷ key_unknown
    ∷ key_unknown ∷ key_unknown ∷ key_unknown ∷ key_unknown ∷ key_unknown ∷ key_unknown
    ∷ key_unknown ∷ key_unknown ∷ key_home ∷ key_uparrow ∷ key_pageup ∷ key_unknown ∷ key_leftarrow
    ∷ key_unknown ∷ key_rightarrow ∷ key_unknown ∷ key_end ∷ key_downarrow ∷ key_pagedown
    ∷ key_insert ∷ key_delete ∷ key_unknown ∷ key_unknown ∷ key_unknown ∷ key_unknown ∷ key_unknown
    ∷ key_unknown ∷ key_unknown ∷ key_lgui ∷ key_rgui ∷ key_apps ∷ []
