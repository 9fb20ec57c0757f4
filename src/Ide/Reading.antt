-- ===== src/Ide/Reading.antt =====
-- `StorageIDECompatibilityDriver::read_sectors`: which sectors are asked for and what the buffer gets.
use mathlib.Core.List.{map-append}
use avi_kernel.Base.{
  ℕ, ◌+◌, ◌/◌, ◌%◌, ◌<◌, Bool, true, false, List, [], ◌∷◌, ◌++◌, u8, u16, ◌≡◌, refl, sym, ap, ◌∙◌,
  arith, if◌then◌else◌, length, map, ℤ, ok, ◌==◌,
}
use avi_kernel.Vector
use avi_kernel.Ports.{sleep, Bus, ran, Io, pure, ◌>>=◌, ◌>>◌, PortEvent, slept, wrote8, of_result}
use avi_kernel.Ide.{
  icd_read_pio_not_48, IdeDriver, PhysicalIdeDrive, get_ide_controller, still_waits, bytes_of,
  read_rounds, read_drive, read_sectors,
}
use avi_kernel.Ide.Controller.{IdeController, write_command_register}
use avi_kernel.Ide.Registers.{commands, Named, setup_answers, setup_lem}
use avi_kernel.Ide.Answers.{
  SectorAnswer, AllReady, words_in, poll_lem, read_words_lem, and_then_run,
}

-- The answers to the reads of these sectors, in front of others.
abbrev pub answers_for : List SectorAnswer → List ℕ → List ℕ
answers_for [] rest = rest
answers_for (s ∷ sectors) rest = s.busy ++ (s.ready ∷ (s.words ++ answers_for sectors rest))

bytes_of-append : (xs ys : List ℕ) → bytes_of (xs ++ ys) ≡ bytes_of xs ++ bytes_of ys
unfolding bytes_of
bytes_of-append [] ys = refl
bytes_of-append (x ∷ xs) ys = ap (λ bs. x % 256 ∷ x / 256 ∷ bs) (bytes_of-append xs ys)

read_rounds_lem :
    (c : IdeController) (sectors : List SectorAnswer) (rest : List ℕ) (log : List PortEvent)
    → AllReady sectors
    → (after : List PortEvent) × (read_rounds c
          (length sectors)
          (record { answers = answers_for sectors rest; log = log })
        ≡ ran (bytes_of (map u16 (words_in sectors))) (record { answers = rest; log = after }))
      × (commands after ≡ commands log)
unfolding read_rounds bytes_of
read_rounds_lem c [] rest log all = (log, refl, refl)
read_rounds_lem c (s ∷ sectors) rest log all =
    let more = s.words ++ answers_for sectors rest in
    let polled =
      poll_lem (c.ports2_base + 0) still_waits s.busy s.ready more log all.0.waiting all.0.ends in
    let heard = read_words_lem c s.words (answers_for sectors rest) (polled.0) in
    let later = read_rounds_lem c sectors rest (heard.0) (all.1) in
    let joined : bytes_of (map u16 s.words) ++ bytes_of (map u16 (words_in sectors))
        ≡ bytes_of (map u16 (s.words ++ words_in sectors)) =
      sym (bytes_of-append (map u16 s.words) (map u16 (words_in sectors)))
      ∙ ap bytes_of (sym (map-append u16 s.words (words_in sectors))) in
    (
      later.0,
      and_then_run _ (polled.1)
          ∙ and_then_run _ (rw (all.0.whole) at (heard.1))
          ∙ and_then_run _ (later.1)
          ∙ ap (λ bs. ran bs (record { answers = rest; log = later.0 })) joined,
      later.2 ∙ heard.2 ∙ polled.2,
    )

-- Both modes read with the same command.
same_command :
    (wide : Bool)
    → (if wide then icd_read_pio_not_48 else icd_read_pio_not_48) ≡ icd_read_pio_not_48
same_command true = refl
same_command false = refl

read_drive_lem :
    (drive : PhysicalIdeDrive) (lba head : ℕ) (sectors : List SectorAnswer) (rest : List ℕ)
    (log : List PortEvent)
    → drive.supports_lba ≡ true
    → drive.drive_in_channel < 2
    → (drive.uses_48_bits_mode ≡ false → u8 head / 16 ≡ 14 + drive.drive_in_channel)
    → AllReady sectors
    → let base = (get_ide_controller drive.channel).ports1_base in
      (b : Bus) × (cs : List (ℕ × ℕ)) × (read_drive drive lba (length sectors) (record {
        answers = setup_answers drive.uses_48_bits_mode head (answers_for sectors rest);
        log = log;
      })
        ≡ ran (bytes_of (map u16 (words_in sectors))) b)
      × (b.answers ≡ rest)
      × (commands b.log ≡ (base + 7, 0x20) ∷ cs)
      × Named drive.uses_48_bits_mode base drive.drive_in_channel lba (length sectors) cs
unfolding read_drive
read_drive_lem drive lba head sectors rest log lba_mode in_channel selected all =
    let c = get_ide_controller drive.channel in
    let n = length sectors in
    let set_up =
      setup_lem drive lba n head (answers_for sectors rest) log lba_mode in_channel
        drive.uses_48_bits_mode refl selected in
    let log' : List PortEvent = slept 1 ∷ wrote8 (c.ports1_base + 7) 0x20 ∷ (set_up.0).log in
    let send : ℕ → Io (List ℕ) =
      λ command. write_command_register c command >> sleep 1 >> read_rounds c n in
    let reads = read_rounds_lem c sectors rest log' all in
    (
      record { answers = rest; log = reads.0 },
      commands (set_up.0).log,
      and_then_run _ (set_up.1)
          ∙ ap (λ command. send command (set_up.0)) (same_command drive.uses_48_bits_mode)
          ∙ ap (λ xs. read_rounds c n (record { answers = xs; log = log' })) (set_up.2)
          ∙ reads.1,
      refl,
      reads.2,
      set_up.3,
    )

-- A read of one or more sectors from a drive with LBA gives the words that the drive answers, as
-- little-endian bytes and in their order, where the drive becomes ready for each sector, and nothing that
-- it answers behind them is taken. The last command is READ SECTORS, 0x20, whatever the mode; in front of it
-- the registers name the drive, the number of sectors, and the address: its lowest 28 bits, or 48 in the mode
-- of 48 bits. The number of sectors is the byte that the count is cut to. A drive of 28 bits answers to the read
-- of its drive and head register what was written there.
pub read_sectors_lem :
    (driver : IdeDriver) (number : ℤ) (drive : PhysicalIdeDrive) (lba count head : ℕ)
    (sectors : List SectorAnswer) (rest : List ℕ) (log : List PortEvent)
    → Vector.get driver.drives number ≡ ok drive
    → drive.supports_lba ≡ true
    → drive.drive_in_channel < 2
    → (drive.uses_48_bits_mode ≡ false → u8 head / 16 ≡ 14 + drive.drive_in_channel)
    → u8 count ≡ length sectors
    → 0 < length sectors
    → AllReady sectors
    → let base = (get_ide_controller drive.channel).ports1_base in
      (b : Bus) × (cs : List (ℕ × ℕ)) × (read_sectors driver number lba count (record {
        answers = setup_answers drive.uses_48_bits_mode head (answers_for sectors rest);
        log = log;
      })
        ≡ ran (bytes_of (map u16 (words_in sectors))) b)
      × (b.answers ≡ rest)
      × (commands b.log ≡ (base + 7, 0x20) ∷ cs)
      × Named drive.uses_48_bits_mode base drive.drive_in_channel lba (length sectors) cs
unfolding read_sectors
read_sectors_lem driver number drive lba count head sectors rest log found lba_mode in_channel
      selected counts some all =
    let run = read_drive_lem drive lba head sectors rest log lba_mode in_channel selected all in
    let n = length sectors in
    let bus : Bus = record {
      answers = setup_answers drive.uses_48_bits_mode head (answers_for sectors rest);
      log = log;
    } in
    let counted : (n == 0) ≡ false = ground arith in
    let given : read_sectors driver number lba count bus ≡ read_drive drive lba n bus =
      ap
        (λ k.
          (if k == 0
              then pure []
              else (of_result (Vector.get driver.drives number) >>= λ d. read_drive d lba k))
            bus)
        counts
      ∙ ap
          (λ t.
            (if t
                then pure []
                else (of_result (Vector.get driver.drives number) >>= λ d. read_drive d lba n))
              bus)
          counted
      ∙ ap (λ r. (of_result r >>= λ d. read_drive d lba n) bus) found in
    (run.0, run.1, given ∙ run.2, run.3, run.4, run.5)
