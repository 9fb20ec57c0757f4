-- ===== src/Ide/Controller.antt =====
-- src/drivers_manager/drivers/storage/ide/ide_controller.cpp: the registers of an IDE controller.
--
-- A buffer of 16-bit numbers is the list of them.
use avi_kernel.Base.{ℕ, zero, suc, ◌+◌, ◌/◌, List, [], ◌∷◌}
use avi_kernel.Ports.{Io, faulted, pure, ◌>>=◌, ◌>>◌, outb, outw, inb, inw}

pub record IdeController : Type 0 where
  pub ports1_base : ℕ
  pub ports2_base : ℕ

module _ (c : IdeController) where
  unfoldable pub read_data_register : Io ℕ
  unfolding inw
  read_data_register = inw (c.ports1_base + 0)

  unfoldable pub read_drive_head_register : Io ℕ
  unfolding inb
  read_drive_head_register = inb (c.ports1_base + 6)

  unfoldable pub read_alternate_status_register : Io ℕ
  unfolding inb
  read_alternate_status_register = inb (c.ports2_base + 0)

  unfoldable pub read_words : ℕ → Io (List ℕ)
  unfolding read_data_register
  read_words zero = pure []
  read_words (suc rounds) = do
    word ← read_data_register
    words ← read_words rounds
    pure (word ∷ words)

  -- The size is in bytes.
  unfoldable pub read_data_register_buffer : ℕ → Io (List ℕ)
  unfolding read_words
  read_data_register_buffer size = read_words (size / 2)

  unfoldable pub write_data_register : ℕ → Io (Unit {0})
  unfolding outw
  write_data_register word = outw (c.ports1_base + 0) word

  unfoldable pub write_words : ℕ → List ℕ → Io (Unit {0})
  unfolding write_data_register
  write_words zero buf = pure tt
  write_words (suc rounds) [] = λ b. faulted
  write_words (suc rounds) (word ∷ buf) = do write_data_register word; write_words rounds buf

  unfoldable pub write_data_register_buffer : List ℕ → ℕ → Io (Unit {0})
  unfolding write_words
  write_data_register_buffer buf size = write_words (size / 2) buf

  unfoldable pub write_sector_count_register : ℕ → Io (Unit {0})
  unfolding outb
  write_sector_count_register val = outb (c.ports1_base + 2) val

  unfoldable pub write_sector_number_register : ℕ → Io (Unit {0})
  unfolding outb
  write_sector_number_register val = outb (c.ports1_base + 3) val

  unfoldable pub write_cylinder_lsb_register : ℕ → Io (Unit {0})
  unfolding outb
  write_cylinder_lsb_register val = outb (c.ports1_base + 4) val

  unfoldable pub write_cylinder_msb_register : ℕ → Io (Unit {0})
  unfolding outb
  write_cylinder_msb_register val = outb (c.ports1_base + 5) val

  unfoldable pub write_drive_head_register : ℕ → Io (Unit {0})
  unfolding outb
  write_drive_head_register val = outb (c.ports1_base + 6) val

  unfoldable pub write_command_register : ℕ → Io (Unit {0})
  unfolding outb
  write_command_register val = outb (c.ports1_base + 7) val

  unfoldable pub write_digital_output_register : ℕ → Io (Unit {0})
  unfolding outb
  write_digital_output_register val = outb (c.ports2_base + 0) val

  unfoldable pub write_sector_count_register_48 : ℕ → ℕ → Io (Unit {0})
  unfolding outb
  write_sector_count_register_48 low high = do
    outb (c.ports1_base + 2) high
    outb (c.ports1_base + 2) low

  unfoldable pub write_lba_lo_register_48 : ℕ → ℕ → Io (Unit {0})
  unfolding outb
  write_lba_lo_register_48 low high = do outb (c.ports1_base + 3) high; outb (c.ports1_base + 3) low

  unfoldable pub write_lba_mid_register_48 : ℕ → ℕ → Io (Unit {0})
  unfolding outb
  write_lba_mid_register_48 low high = do
    outb (c.ports1_base + 4) high
    outb (c.ports1_base + 4) low

  unfoldable pub write_lbi_hi_register_48 : ℕ → ℕ → Io (Unit {0})
  unfolding outb
  write_lbi_hi_register_48 low high = do outb (c.ports1_base + 5) high; outb (c.ports1_base + 5) low
