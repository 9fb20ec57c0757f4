-- ===== src/Ide/Registers.antt =====
-- What the registers of an IDE controller hold behind the set-up of a transfer.
use avi_kernel.Base.{
  ℕ, zero, suc, ◌+◌, ◌*◌, ◌/◌, ◌%◌, ◌^◌, ◌<◌, Bool, true, false, List, [], ◌∷◌, ◌++◌, ◌==◌,
  if◌then◌else◌, bit_and, bit_or, u8, ◌<<<◌, ◌>>>◌, ◌≡◌, refl, ◌∙◌, arith, Bool-cases, inl, inr,
}
use avi_kernel.Bits.{bit_and_ones, bit_and_shifted, bit_or_apart}
use avi_kernel.Ports.{
  Bus, ran, PortEvent, read8, read16, wrote8, wrote16, wrote32, interrupts, slept,
}
use avi_kernel.Ide.{PhysicalIdeDrive, get_ide_controller, setup_rw_48_bits}
use avi_kernel.Ide.Controller.{IdeController}

-- The bytes that were written to ports, with their ports, the latest first.
abbrev pub commands : List PortEvent → List (ℕ × ℕ)
commands [] = []
commands (read8 port a ∷ log) = commands log
commands (read16 port a ∷ log) = commands log
commands (wrote8 port a ∷ log) = (port, a) ∷ commands log
commands (wrote16 port a ∷ log) = commands log
commands (wrote32 port a ∷ log) = commands log
commands (interrupts enabled ∷ log) = commands log
commands (slept ms ∷ log) = commands log

-- The words that were sent, each behind its port, the earliest first.
abbrev pub words_sent : List PortEvent → List (ℕ × ℕ)
words_sent [] = []
words_sent (read8 port a ∷ log) = words_sent log
words_sent (read16 port a ∷ log) = words_sent log
words_sent (wrote8 port a ∷ log) = words_sent log
words_sent (wrote16 port a ∷ log) = words_sent log ++ (port, a) ∷ []
words_sent (wrote32 port a ∷ log) = words_sent log
words_sent (interrupts enabled ∷ log) = words_sent log
words_sent (slept ms ∷ log) = words_sent log

-- What was written to a port last, and before that.
abbrev pub latest : ℕ → List (ℕ × ℕ) → ℕ
latest port [] = 0
latest port ((p, a) ∷ cs) = if p == port then a else latest port cs

abbrev pub earlier : ℕ → List (ℕ × ℕ) → ℕ
earlier port [] = 0
earlier port ((p, a) ∷ cs) = if p == port then latest port cs else earlier port cs

-- The sector that the registers name: with 28 bits, the lowest four of the drive and head register are
-- the highest; with 48 bits, each register holds the two bytes that it was given last.
abbrev pub address_28 : ℕ → List (ℕ × ℕ) → ℕ
address_28 base cs =
    latest (base + 3) cs
    + 2 ^ 8 * latest (base + 4) cs
    + 2 ^ 16 * latest (base + 5) cs
    + 2 ^ 24 * (latest (base + 6) cs % 16)

abbrev pub address_48 : ℕ → List (ℕ × ℕ) → ℕ
address_48 base cs =
    latest (base + 3) cs
    + 2 ^ 8 * latest (base + 4) cs
    + 2 ^ 16 * latest (base + 5) cs
    + 2 ^ 24 * earlier (base + 3) cs
    + 2 ^ 32 * earlier (base + 4) cs
    + 2 ^ 40 * earlier (base + 5) cs

-- The registers name the drive, the address and the number of sectors.
pub record Names28 (base drive lba count : ℕ) (cs : List (ℕ × ℕ)) : Type 0 where
  pub named_address : address_28 base cs ≡ lba % 2 ^ 28
  pub named_count : latest (base + 2) cs ≡ count
  pub named_drive : latest (base + 6) cs / 16 ≡ 14 + drive

pub record Names48 (base drive lba count : ℕ) (cs : List (ℕ × ℕ)) : Type 0 where
  pub named_address : address_48 base cs ≡ lba % 2 ^ 48
  pub named_count : latest (base + 2) cs + 2 ^ 8 * earlier (base + 2) cs ≡ count
  pub named_drive : latest (base + 6) cs / 16 ≡ 14 + drive

low_nibble : (x : ℕ) → bit_and x 0x0F ≡ x % 16
low_nibble x = bit_and_ones 4 x

high_nibble : (x : ℕ) → x < 256 → bit_and x 0xF0 ≡ x / 16 * 16
high_nibble x lt = bit_and_shifted 4 x 15 ∙ (rw (bit_and_ones 4 (x / 2 ^ 4)) (omega arith))

-- The drive and head register, from what it held and from the highest bits of the address.
pub drive_head_lem :
    (head lba3 : ℕ)
    → bit_or (bit_and (u8 head) 0xF0) (bit_and lba3 0x0F) ≡ u8 head / 16 * 16 + lba3 % 16
drive_head_lem head lba3 =
    rw (high_nibble (u8 head) (omega arith), low_nibble lba3)
      (bit_or_apart 4 (u8 head / 16) (lba3 % 16) (omega arith))

-- The selection of drive 0 or 1.
pub select_lem : (drive : ℕ) → drive < 2 → u8 (bit_or 0xE0 (drive <<< 4)) ≡ (14 + drive) * 16
select_lem zero lt = refl
select_lem (suc zero) lt = refl
select_lem (suc (suc n)) lt = absurd (omega arith)

-- The answers to the set-up, where the drive and head register is read.
abbrev pub setup_answers : Bool → ℕ → List ℕ → List ℕ
setup_answers true head rest = rest
setup_answers false head rest = head ∷ rest

abbrev pub Named : Bool → ℕ → ℕ → ℕ → ℕ → List (ℕ × ℕ) → Type 0
Named true base drive lba count cs = Names48 base drive lba count cs
Named false base drive lba count cs = Names28 base drive lba count cs

module _ (drive : PhysicalIdeDrive) (lba count head : ℕ) (rest : List ℕ) (log : List PortEvent)
    (lba_mode : drive.supports_lba ≡ true) (in_channel : drive.drive_in_channel < 2) where
  abbrev pub controller : IdeController
  controller = get_ide_controller drive.channel

  -- The set-up ends with the registers named, behind the one read where it makes one.
  abbrev pub SetUp : Bool → List ℕ → Type 0
  SetUp wide answers =
      (b : Bus) × (setup_rw_48_bits drive controller lba count
          (record { answers = answers; log = log })
        ≡ ran tt b)
      × (b.answers ≡ rest)
      × Named wide controller.ports1_base drive.drive_in_channel lba count (commands b.log)
      × (words_sent b.log ≡ words_sent log)

  setup_48 : drive.uses_48_bits_mode ≡ true → SetUp true rest
  unfolding setup_rw_48_bits get_ide_controller
  setup_48 wide =
      let select = select_lem drive.drive_in_channel in_channel in
      elim (Bool-cases (drive.channel == 0)) [
        | inl e ↦
            rw (e, lba_mode, wide)
              (
                _,
                refl,
                refl,
                record {
                  named_address = omega arith;
                  named_count = omega arith;
                  named_drive = omega arith;
                },
                refl,
              )
        | inr e ↦
            rw (e, lba_mode, wide)
              (
                _,
                refl,
                refl,
                record {
                  named_address = omega arith;
                  named_count = omega arith;
                  named_drive = omega arith;
                },
                refl,
              )
      ]

  setup_28 :
      drive.uses_48_bits_mode ≡ false
      → u8 head / 16 ≡ 14 + drive.drive_in_channel
      → SetUp false (head ∷ rest)
  unfolding setup_rw_48_bits get_ide_controller
  setup_28 narrow selected =
      let whole = drive_head_lem head (u8 (lba >>> 24)) in
      elim (Bool-cases (drive.channel == 0)) [
        | inl e ↦
            rw (e, lba_mode, narrow)
              (
                _,
                refl,
                refl,
                record {
                  named_address = omega arith;
                  named_count = omega arith;
                  named_drive = omega arith;
                },
                refl,
              )
        | inr e ↦
            rw (e, lba_mode, narrow)
              (
                _,
                refl,
                refl,
                record {
                  named_address = omega arith;
                  named_count = omega arith;
                  named_drive = omega arith;
                },
                refl,
              )
      ]

  -- A drive of 28 bits answers to a read of its drive and head register what was written to it.
  pub setup_lem :
      (wide : Bool)
      → drive.uses_48_bits_mode ≡ wide
      → (wide ≡ false → u8 head / 16 ≡ 14 + drive.drive_in_channel)
      → SetUp wide (setup_answers wide head rest)
  setup_lem true e selected = setup_48 e
  setup_lem false e selected = setup_28 e (selected refl)
