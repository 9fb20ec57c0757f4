-- ===== src/Keyboard/Codes.antt =====
-- include/drivers_manager/drivers/keyboard/extended_char.h: the key codes, with the numbers of the
-- enumeration `avi_charcode`; those that neither a table nor a name uses are left out.
use avi_kernel.Base.{ℕ}

abbrev pub AviCharcode : Type 0
AviCharcode = ℕ

abbrev pub key_space : AviCharcode
key_space = 32

abbrev pub key_0 : AviCharcode
key_0 = 48

abbrev pub key_1 : AviCharcode
key_1 = 49

abbrev pub key_2 : AviCharcode
key_2 = 50

abbrev pub key_3 : AviCharcode
key_3 = 51

abbrev pub key_4 : AviCharcode
key_4 = 52

abbrev pub key_5 : AviCharcode
key_5 = 53

abbrev pub key_6 : AviCharcode
key_6 = 54

abbrev pub key_7 : AviCharcode
key_7 = 55

abbrev pub key_8 : AviCharcode
key_8 = 56

abbrev pub key_9 : AviCharcode
key_9 = 57

abbrev pub key_a : AviCharcode
key_a = 97

abbrev pub key_b : AviCharcode
key_b = 98

abbrev pub key_c : AviCharcode
key_c = 99

abbrev pub key_d : AviCharcode
key_d = 100

abbrev pub key_e : AviCharcode
key_e = 101

abbrev pub key_f : AviCharcode
key_f = 102

abbrev pub key_g : AviCharcode
key_g = 103

abbrev pub key_h : AviCharcode
key_h = 104

abbrev pub key_i : AviCharcode
key_i = 105

abbrev pub key_j : AviCharcode
key_j = 106

abbrev pub key_k : AviCharcode
key_k = 107

abbrev pub key_l : AviCharcode
key_l = 108

abbrev pub key_m : AviCharcode
key_m = 109

abbrev pub key_n : AviCharcode
key_n = 110

abbrev pub key_o : AviCharcode
key_o = 111

abbrev pub key_p : AviCharcode
key_p = 112

abbrev pub key_q : AviCharcode
key_q = 113

abbrev pub key_r : AviCharcode
key_r = 114

abbrev pub key_s : AviCharcode
key_s = 115

abbrev pub key_t : AviCharcode
key_t = 116

abbrev pub key_u : AviCharcode
key_u = 117

abbrev pub key_v : AviCharcode
key_v = 118

abbrev pub key_w : AviCharcode
key_w = 119

abbrev pub key_x : AviCharcode
key_x = 120

abbrev pub key_y : AviCharcode
key_y = 121

abbrev pub key_z : AviCharcode
key_z = 122

abbrev pub key_return : AviCharcode
key_return = 10

abbrev pub key_escape : AviCharcode
key_escape = 0x1001

abbrev pub key_backspace : AviCharcode
key_backspace = 8

abbrev pub key_tab : AviCharcode
key_tab = 9

abbrev pub key_f1 : AviCharcode
key_f1 = 0x1201

abbrev pub key_f2 : AviCharcode
key_f2 = 0x1202

abbrev pub key_f3 : AviCharcode
key_f3 = 0x1203

abbrev pub key_f4 : AviCharcode
key_f4 = 0x1204

abbrev pub key_f5 : AviCharcode
key_f5 = 0x1205

abbrev pub key_f6 : AviCharcode
key_f6 = 0x1206

abbrev pub key_f7 : AviCharcode
key_f7 = 0x1207

abbrev pub key_f8 : AviCharcode
key_f8 = 0x1208

abbrev pub key_f9 : AviCharcode
key_f9 = 0x1209

abbrev pub key_f10 : AviCharcode
key_f10 = 0x120A

abbrev pub key_f11 : AviCharcode
key_f11 = 0x120B

abbrev pub key_f12 : AviCharcode
key_f12 = 0x120C

abbrev pub key_dot : AviCharcode
key_dot = 46

abbrev pub key_comma : AviCharcode
key_comma = 44

abbrev pub key_semicolon : AviCharcode
key_semicolon = 59

abbrev pub key_slash : AviCharcode
key_slash = 47

abbrev pub key_backslash : AviCharcode
key_backslash = 92

abbrev pub key_minus : AviCharcode
key_minus = 45

abbrev pub key_quote : AviCharcode
key_quote = 39

abbrev pub key_equal : AviCharcode
key_equal = 61

abbrev pub key_leftbracket : AviCharcode
key_leftbracket = 91

abbrev pub key_rightbracket : AviCharcode
key_rightbracket = 93

abbrev pub key_grave : AviCharcode
key_grave = 96

abbrev pub key_kp_0 : AviCharcode
key_kp_0 = 48

abbrev pub key_kp_2 : AviCharcode
key_kp_2 = 50

abbrev pub key_kp_3 : AviCharcode
key_kp_3 = 51

abbrev pub key_kp_8 : AviCharcode
key_kp_8 = 56

abbrev pub key_kp_decimal : AviCharcode
key_kp_decimal = 46

abbrev pub key_kp_divide : AviCharcode
key_kp_divide = 47

abbrev pub key_kp_asterisk : AviCharcode
key_kp_asterisk = 42

abbrev pub key_kp_numlock : AviCharcode
key_kp_numlock = 0x300F

abbrev pub key_kp_enter : AviCharcode
key_kp_enter = 0x3010

abbrev pub key_capslock : AviCharcode
key_capslock = 0x4001

abbrev pub key_lshift : AviCharcode
key_lshift = 0x4002

abbrev pub key_lctrl : AviCharcode
key_lctrl = 0x4003

abbrev pub key_rshift : AviCharcode
key_rshift = 0x4006

abbrev pub key_rctrl : AviCharcode
key_rctrl = 0x4007

abbrev pub key_ralt : AviCharcode
key_ralt = 0x4008

abbrev pub key_insert : AviCharcode
key_insert = 0x400A

abbrev pub key_delete : AviCharcode
key_delete = 0x400B

abbrev pub key_home : AviCharcode
key_home = 0x400C

abbrev pub key_end : AviCharcode
key_end = 0x400D

abbrev pub key_pageup : AviCharcode
key_pageup = 0x400E

abbrev pub key_pagedown : AviCharcode
key_pagedown = 0x400F

abbrev pub key_scrolllock : AviCharcode
key_scrolllock = 0x4010

abbrev pub key_uparrow : AviCharcode
key_uparrow = 0x4012

abbrev pub key_leftarrow : AviCharcode
key_leftarrow = 0x4013

abbrev pub key_rightarrow : AviCharcode
key_rightarrow = 0x4014

abbrev pub key_downarrow : AviCharcode
key_downarrow = 0x4015

abbrev pub key_lgui : AviCharcode
key_lgui = 0x4016

abbrev pub key_rgui : AviCharcode
key_rgui = 0x4017

abbrev pub key_apps : AviCharcode
key_apps = 0x4018

abbrev pub key_unknown : AviCharcode
key_unknown = 0x4019
