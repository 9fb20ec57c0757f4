-- ===== src/Video.antt =====
-- src/drivers_manager/drivers/video/video_driver.cpp: the frame buffer.
--
-- `memory` holds the 32-bit words by their addresses. Of the multiboot information, the members that the driver
-- uses are here.
use avi_kernel.Base.{
  ℕ, suc, ◌+◌, ◌-◌, ◌*◌, ◌/◌, ◌^◌, ◌<◌, ◌≤◌, Bool, true, not, ◌&&◌, ◌==◌, if◌then◌else◌, bit_and,
  bit_or, u32, u64, ◌<<<◌, ◌≡◌, ap, ◌∙◌, sym, arith, Bool-cases, inl, inr, ==_iff, ltb, ltb→lt,
}
use native.Mathlib.Nat.{mul-le-mul_right, suc-mul}
use avi_kernel.Bits.{bit_or_apart}
use avi_kernel.VirtualMgr.Processor.{Mmu}
use avi_kernel.VirtualMgr.{Statics, Machine, Outcome, map_range, page_size}

pub record MultibootInfo : Type 0 where
  pub flags : ℕ
  pub framebuffer_addr : ℕ
  pub framebuffer_pitch : ℕ
  pub framebuffer_width : ℕ
  pub framebuffer_height : ℕ
  pub framebuffer_bpp : ℕ
  pub framebuffer_type : ℕ
  pub framebuffer_red_field_position : ℕ
  pub framebuffer_green_field_position : ℕ
  pub framebuffer_blue_field_position : ℕ

abbrev pub framebuf_avail : ℕ
framebuf_avail = 4096

abbrev pub video_memory : ℕ
video_memory = 0xC0400000

unfoldable pub exist : MultibootInfo → Bool
exist info =
    not (bit_and info.flags framebuf_avail == 0)
    && info.framebuffer_type == 1
    && info.framebuffer_bpp == 32

unfoldable pub framebuffer_frames : MultibootInfo → ℕ
framebuffer_frames info =
    let framebuffer_size = u32 (info.framebuffer_pitch * info.framebuffer_height) in
    u32 (u64 (framebuffer_size + page_size - 1) / page_size)

unfoldable pub setup_driver_and_device : Mmu → Statics → MultibootInfo → Machine → Outcome
unfolding framebuffer_frames map_range
setup_driver_and_device mmu k info m =
    map_range mmu k video_memory (u32 info.framebuffer_addr) (framebuffer_frames info) true m

unfoldable pub get_screen_width : MultibootInfo → ℕ
get_screen_width info = info.framebuffer_width

unfoldable pub get_screen_height : MultibootInfo → ℕ
get_screen_height info = info.framebuffer_height

-- The word of a colour.
unfoldable pub pixel : MultibootInfo → ℕ → ℕ → ℕ → ℕ
pixel info r g b =
    bit_or
      (bit_or (bit_or 0 (u32 (r <<< info.framebuffer_red_field_position)))
        (u32 (g <<< info.framebuffer_green_field_position)))
      (u32 (b <<< info.framebuffer_blue_field_position))

-- The address of a pixel's word.
unfoldable pub pixel_address : MultibootInfo → ℕ → ℕ → ℕ
pixel_address info x y = u32 (video_memory + 4 * (y * (info.framebuffer_pitch / 4) + x))

unfoldable pub put_pixel : MultibootInfo → ℕ → ℕ → ℕ → ℕ → ℕ → (ℕ → ℕ) → ℕ → ℕ
unfolding pixel pixel_address
put_pixel info x y r g b memory address =
    if address == pixel_address info x y then pixel info r g b else memory address

-- A place in a lower row is a lower word.
place_below : (w x y x' y' : ℕ) → x < w → y < y' → y * w + x < y' * w + x'
place_below w x y x' y' lx ly =
    let rows : suc y * w ≤ y' * w = mul-le-mul_right w ly in
    let next : suc y * w ≡ y * w + w = suc-mul y w in omega arith

-- Two places with the same word are one.
place_injective : (w x y x' y' : ℕ) → x < w → x' < w → y * w + x ≡ y' * w + x' → (x ≡ x') × (y ≡ y')
place_injective w x y x' y' lx lx' e = elim (Bool-cases (ltb y y')) [
  | inl lt ↦ absurd (omega (arith, place_below w x y x' y' lx (ltb→lt y y' lt)))
  | inr ge ↦ elim (Bool-cases (ltb y' y)) [
    | inl gt ↦ absurd (omega (arith, place_below w x' y' x y lx' (ltb→lt y' y gt)))
    | inr le ↦
        let same : y ≡ y' = ground arith in
        let words : y * w ≡ y' * w = ap (λ (t : ℕ). t * w) same in (omega arith, same)
  ]
]

-- The place has a word in its row, below the end of the address space.
abbrev pub IsPlaced : MultibootInfo → ℕ → ℕ → Type 0
IsPlaced info x y =
    (x < info.framebuffer_pitch / 4)
    × (0xC0400000 + 4 * (y * (info.framebuffer_pitch / 4) + x) < 2 ^ 32)

-- Red in the bits from 16 on, green from 8, blue from 0.
pub record IsRgb (info : MultibootInfo) : Type 0 where
  pub red : info.framebuffer_red_field_position ≡ 16
  pub green : info.framebuffer_green_field_position ≡ 8
  pub blue : info.framebuffer_blue_field_position ≡ 0

pixel_lem :
    (info : MultibootInfo) (r g b : ℕ)
    → IsRgb info
    → r < 256
    → g < 256
    → b < 256
    → pixel info r g b ≡ r * 65536 + g * 256 + b
unfolding pixel
pixel_lem info r g b layout lr lg lb =
    let whole : ℕ → ℕ → ℕ → ℕ = λ r g b. bit_or (bit_or (bit_or 0 r) g) b in
    let red : u32 (r * 65536) ≡ r * 65536 = omega arith in
    let green : u32 (g * 256) ≡ g * 256 = omega arith in
    let blue : u32 (b * 1) ≡ b = omega arith in
    (λ i.
      whole (u32 (r * 2 ^ layout.red i)) (u32 (g * 2 ^ layout.green i))
        (u32 (b * 2 ^ layout.blue i)))
    ∙ (λ i. whole (red i) (green i) (blue i))
    ∙ ap (λ (t : ℕ). bit_or (bit_or t (g * 256)) b) (bit_or_apart 32 0 (r * 65536) (omega arith))
    ∙ ap (λ (t : ℕ). bit_or (bit_or t (g * 256)) b) (omega arith)
    ∙ ap (λ (t : ℕ). bit_or t b) (bit_or_apart 16 r (g * 256) (omega arith))
    ∙ ap (λ (t : ℕ). bit_or t b) (omega arith)
    ∙ bit_or_apart 8 (r * 256 + g) b lb
    ∙ omega arith

address_lem :
    (info : MultibootInfo) (x y : ℕ)
    → IsPlaced info x y
    → pixel_address info x y ≡ video_memory + 4 * (y * (info.framebuffer_pitch / 4) + x)
unfolding pixel_address
address_lem info x y at = omega (arith, at.1)

same_place :
    (info : MultibootInfo) (x y x' y' : ℕ)
    → IsPlaced info x y
    → IsPlaced info x' y'
    → (pixel_address info x' y' == pixel_address info x y) ≡ (x == x' && y == y')
same_place info x y x' y' at at' =
    let w = info.framebuffer_pitch / 4 in
    let a = address_lem info x y at in
    let a' = address_lem info x' y' at' in
    elim (Bool-cases (pixel_address info x' y' == pixel_address info x y)) [
      | inl e ↦
          let addresses = (==_iff _ _).0 e in
          let same = place_injective w x y x' y' (at.0) (at'.0) (omega arith) in
          e ∙ λ i. sym ((==_iff x x').1 (same.0)) i && sym ((==_iff y y').1 (same.1)) i
      | inr e ↦ elim (Bool-cases (x == x' && y == y')) [
        | inl both ↦
            let ex : x' ≡ x = ground arith in
            let ey : y' ≡ y = ground arith in
            let equal =
              (==_iff (pixel_address info x' y') (pixel_address info x y)).1
                (λ i. pixel_address info (ex i) (ey i)) in
            cc
        | inr not_both ↦ e ∙ sym not_both
      ]
    ]

-- With the usual layout of colours, a pixel that is put has its colour, byte by byte, in its word behind
-- 0xC0400000, row by row and four bytes a pixel, and the word of every other place keeps what it had; both
-- places have words in their rows, below the end of the address space.
pub put_pixel_lem :
    (info : MultibootInfo) (x y x' y' r g b : ℕ) (memory : ℕ → ℕ)
    → IsRgb info
    → r < 256
    → g < 256
    → b < 256
    → IsPlaced info x y
    → IsPlaced info x' y'
    → let place = 0xC0400000 + 4 * (y' * (info.framebuffer_pitch / 4) + x') in
      put_pixel info x y r g b memory place
      ≡ (if x == x' && y == y' then r * 65536 + g * 256 + b else memory place)
unfolding put_pixel
put_pixel_lem info x y x' y' r g b memory layout lr lg lb at at' =
    let place = 0xC0400000 + 4 * (y' * (info.framebuffer_pitch / 4) + x') in
    let at_place : pixel_address info x' y' ≡ place = address_lem info x' y' at' in
    ap (λ t. if t then pixel info r g b else memory place)
      (ap (λ a. a == pixel_address info x y) (sym at_place) ∙ same_place info x y x' y' at at')
    ∙ ap (λ c. if x == x' && y == y' then c else memory place)
        (pixel_lem info r g b layout lr lg lb)
