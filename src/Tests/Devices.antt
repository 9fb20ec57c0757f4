-- ===== src/Tests/Devices.antt =====
-- The theorems on the clock and the frame buffer, at concrete devices.
use avi_kernel.Base.{
  ℕ, ◌+◌, ◌*◌, ◌/◌, ◌<◌, ◌≤◌, [], ◌==◌, ◌&&◌, if◌then◌else◌, ◌≡◌, refl, arith, ◌⊎◌,
}
use avi_kernel.Ports.{Bus, ran, faulted, panicked}
use avi_kernel.Clock.{configure_pit, programmed, pit_dividend, configure_pit_lem}
use avi_kernel.Video.{MultibootInfo, put_pixel, put_pixel_lem}

abbrev quiet : Bus
quiet = record { answers = []; log = [] }

configure_pit_example :
    (◌≡◌ {A = ℕ} 100 0 × (configure_pit 100 quiet ≡ faulted))
    ⊎ (((0 < 100) × (100 < 19) × (configure_pit 100 quiet ≡ panicked))
        ⊎ ((19 ≤ 100)
            × ((low : ℕ) × (high : ℕ) × (configure_pit 100 quiet
                  ≡ ran tt (record { answers = []; log = programmed low high [] }))
                × (low < 256)
                × (high < 256)
                × (low + 256 * high ≡ pit_dividend / 100))))
configure_pit_example = configure_pit_lem 100 quiet

abbrev screen : MultibootInfo
screen = record {
  flags = 4096;
  framebuffer_addr = 0xFD000000;
  framebuffer_pitch = 4096;
  framebuffer_width = 1024;
  framebuffer_height = 768;
  framebuffer_bpp = 32;
  framebuffer_type = 1;
  framebuffer_red_field_position = 16;
  framebuffer_green_field_position = 8;
  framebuffer_blue_field_position = 0;
}

put_pixel_example :
    put_pixel screen 3 4 10 20 30 (λ address. 0) (0xC0400000 + 4 * (6 * (4096 / 4) + 5))
    ≡ (if 3 == 5 && 4 == 6 then 10 * 65536 + 20 * 256 + 30 else 0)
put_pixel_example =
    put_pixel_lem screen 3 4 5 6 10 20 30 (λ address. 0)
      (record { red = refl; green = refl; blue = refl }) (omega arith) (omega arith) (omega arith)
      (omega arith, omega arith) (omega arith, omega arith)
