-- ===== src/Ide/Writing.antt =====
-- `StorageIDECompatibilityDriver::write_sectors`: what the drive is sent.
use avi_kernel.Base.{
  ℕ, zero, suc, ◌+◌, ◌*◌, ◌/◌, ◌%◌, ◌<◌, true, false, List, [], ◌∷◌, ◌++◌, u8, ◌≡◌, refl, sym, ap,
  ◌∙◌, arith, if◌then◌else◌, length, ℤ, ok, ◌==◌, drop,
}
use mathlib.Core.List.{append-nil, append_assoc}
use avi_kernel.Vector
use avi_kernel.Ports.{of_result, Bus, ran, Io, pure, ◌>>=◌, ◌>>◌, PortEvent, slept, wrote8, poll}
use avi_kernel.Ide.{
  IdeDriver, PhysicalIdeDrive, get_ide_controller, still_waits, any_bit, icd_status_bsy, bytes_of,
  words_of, write_rounds, write_drive, write_sectors, icd_write_pio_48, icd_write_pio_not_48,
  icd_flush_cache_48,
}
use avi_kernel.Ide.Controller.{IdeController, write_command_register}
use avi_kernel.Ide.Registers.{commands, Named, setup_answers, setup_lem, words_sent}
use avi_kernel.Ide.Answers.{
  AllWait, at_port, at_port-append, SectorAnswer, AllReady, words_in, poll_lem, write_words_lem,
  and_then_run,
}

-- The answers to the writes of these sectors, in front of others.
abbrev pub states_for : List SectorAnswer → List ℕ → List ℕ
states_for [] rest = rest
states_for (s ∷ sectors) rest = s.busy ++ (s.ready ∷ states_for sectors rest)

-- The bytes of words are read as these words.
words_of-bytes_of :
    (words more : List ℕ) → words_of (bytes_of words ++ more) ≡ words ++ words_of more
unfolding words_of bytes_of
words_of-bytes_of [] more = refl
words_of-bytes_of (w ∷ words) more =
    let same : w % 256 + 256 * (w / 256) ≡ w = omega arith in
    λ i. same i ∷ words_of-bytes_of words more i

drop-bytes_of :
    (words more : List ℕ) (n : ℕ) → n ≡ 2 * length words → drop n (bytes_of words ++ more) ≡ more
unfolding bytes_of
drop-bytes_of [] more zero e = refl
drop-bytes_of [] more (suc n) e = absurd (omega arith)
drop-bytes_of (w ∷ words) more zero e = absurd (omega arith)
drop-bytes_of (w ∷ words) more (suc zero) e = absurd (omega arith)
drop-bytes_of (w ∷ words) more (suc (suc n)) e = drop-bytes_of words more n (omega arith)

-- The bytes of the sectors, in front of others.
abbrev pub bytes_in : List SectorAnswer → List ℕ → List ℕ
bytes_in [] more = more
bytes_in (s ∷ sectors) more = bytes_of s.words ++ bytes_in sectors more

write_rounds_lem :
    (c : IdeController) (sectors : List SectorAnswer) (more rest : List ℕ) (log : List PortEvent)
    → AllReady sectors
    → (after : List PortEvent) × (write_rounds c
          (length sectors)
          (bytes_in sectors more)
          (record { answers = states_for sectors rest; log = log })
        ≡ ran tt (record { answers = rest; log = after }))
      × (commands after ≡ commands log)
      × (words_sent after ≡ words_sent log ++ at_port (c.ports1_base + 0) (words_in sectors))
unfolding write_rounds
write_rounds_lem c [] more rest log all = (log, refl, refl, sym (append-nil (words_sent log)))
write_rounds_lem c (s ∷ sectors) more rest log all =
    let port = c.ports1_base + 0 in
    let bytes = bytes_in sectors more in
    let answers = states_for sectors rest in
    let polled =
      poll_lem (c.ports2_base + 0) still_waits s.busy s.ready answers log all.0.waiting
        all.0.ends in
    let sent = write_words_lem c s.words (words_of bytes) answers (polled.0) in
    let later = write_rounds_lem c sectors more rest (sent.0) (all.1) in
    (
      later.0,
      and_then_run _ (polled.1)
          ∙ rw
              (
                words_of-bytes_of s.words bytes,
                drop-bytes_of s.words bytes 512 (omega (arith, all.0.whole)),
              )
              (and_then_run _ (rw (all.0.whole) at (sent.1)))
          ∙ later.1,
      later.2 ∙ sent.2 ∙ polled.2,
      later.3
          ∙ ap (λ ws. ws ++ at_port port (words_in sectors))
              (sent.3 ∙ ap (λ ws. ws ++ at_port port s.words) (polled.3))
          ∙ append_assoc (words_sent log) (at_port port s.words) (at_port port (words_in sectors))
          ∙ ap (λ ws. words_sent log ++ ws) (sym (at_port-append port s.words (words_in sectors))),
    )

write_drive_lem :
    (drive : PhysicalIdeDrive) (lba head : ℕ) (sectors : List SectorAnswer) (more busy : List ℕ)
    (ready : ℕ) (rest : List ℕ) (log : List PortEvent)
    → drive.supports_lba ≡ true
    → drive.drive_in_channel < 2
    → (drive.uses_48_bits_mode ≡ false → u8 head / 16 ≡ 14 + drive.drive_in_channel)
    → AllReady sectors
    → AllWait (λ status. any_bit status icd_status_bsy) busy
    → any_bit (u8 ready) icd_status_bsy ≡ false
    → let base = (get_ide_controller drive.channel).ports1_base in
      (b : Bus) × (cs : List (ℕ × ℕ)) × (write_drive drive lba
          (length sectors)
          (bytes_in sectors more)
          (record {
            answers =
                setup_answers drive.uses_48_bits_mode head
                  (states_for sectors (busy ++ (ready ∷ rest)));
            log = log;
          })
        ≡ ran tt b)
      × (b.answers ≡ rest)
      × (commands b.log
          ≡ (base + 7, 0xEA) ∷ (base + 7, if drive.uses_48_bits_mode then 0x34 else 0x30) ∷ cs)
      × Named drive.uses_48_bits_mode base drive.drive_in_channel lba (length sectors) cs
      × (words_sent b.log ≡ words_sent log ++ at_port base (words_in sectors))
unfolding write_drive
write_drive_lem drive lba head sectors more busy ready rest log lba_mode in_channel selected all
      flushing flushed =
    let c = get_ide_controller drive.channel in
    let n = length sectors in
    let bytes = bytes_in sectors more in
    let answers = busy ++ (ready ∷ rest) in
    let set_up =
      setup_lem drive lba n head (states_for sectors answers) log lba_mode in_channel
        drive.uses_48_bits_mode refl selected in
    let command : ℕ = if drive.uses_48_bits_mode then icd_write_pio_48 else icd_write_pio_not_48 in
    let log' : List PortEvent = slept 1 ∷ wrote8 (c.ports1_base + 7) command ∷ (set_up.0).log in
    let finish : Io (Unit {0}) =
      write_command_register c icd_flush_cache_48
      >> (poll (c.ports2_base + 0) (λ status. any_bit status icd_status_bsy) >>= λ status.
          pure tt) in
    let writes = write_rounds_lem c sectors more answers log' all in
    let log'' : List PortEvent = wrote8 (c.ports1_base + 7) icd_flush_cache_48 ∷ writes.0 in
    let polled =
      poll_lem (c.ports2_base + 0) (λ status. any_bit status icd_status_bsy) busy ready rest log''
        flushing flushed in
    (
      record { answers = rest; log = polled.0 },
      commands (set_up.0).log,
      and_then_run _ (set_up.1)
          ∙ ap (λ xs. (write_rounds c n bytes >> finish) (record { answers = xs; log = log' }))
              (set_up.2)
          ∙ and_then_run _ (writes.1)
          ∙ and_then_run _ (polled.1),
      refl,
      polled.2 ∙ ap (λ cs. (c.ports1_base + 7, icd_flush_cache_48) ∷ cs) (writes.2),
      set_up.3,
      polled.3
          ∙ writes.3
          ∙ ap (λ ws. ws ++ at_port (c.ports1_base + 0) (words_in sectors)) (set_up.4)
          ∙ ap (λ p. words_sent log ++ at_port p (words_in sectors)) (omega arith),
    )

-- A write of one or more sectors to a drive with LBA returns once the drive is ready for each sector and then
-- not busy, and takes no answer behind that. The words sent go to the data register, the
-- first port of the drive's channel, and are those of the buffer's bytes, in their order; no other port gets
-- a word.
-- The last two commands are WRITE SECTORS, 0x30, or WRITE SECTORS EXT, 0x34, after the mode, and FLUSH CACHE
-- EXT, 0xEA; in front of them the registers name the drive, the number of sectors, and the address: its
-- lowest 28 bits, or 48 in the mode of 48 bits. The number of sectors is the byte that the count is cut to. A
-- drive of 28 bits answers to the read of its drive and
-- head register what was written there.
pub write_sectors_lem :
    (driver : IdeDriver) (number : ℤ) (drive : PhysicalIdeDrive) (lba count head : ℕ)
    (sectors : List SectorAnswer) (more busy : List ℕ) (ready : ℕ) (rest : List ℕ)
    (log : List PortEvent)
    → Vector.get driver.drives number ≡ ok drive
    → drive.supports_lba ≡ true
    → drive.drive_in_channel < 2
    → (drive.uses_48_bits_mode ≡ false → u8 head / 16 ≡ 14 + drive.drive_in_channel)
    → u8 count ≡ length sectors
    → 0 < length sectors
    → AllReady sectors
    → AllWait (λ status. any_bit status icd_status_bsy) busy
    → any_bit (u8 ready) icd_status_bsy ≡ false
    → let base = (get_ide_controller drive.channel).ports1_base in
      (b : Bus) × (cs : List (ℕ × ℕ)) × (write_sectors driver number lba count
          (bytes_in sectors more)
          (record {
            answers =
                setup_answers drive.uses_48_bits_mode head
                  (states_for sectors (busy ++ (ready ∷ rest)));
            log = log;
          })
        ≡ ran tt b)
      × (b.answers ≡ rest)
      × (commands b.log
          ≡ (base + 7, 0xEA) ∷ (base + 7, if drive.uses_48_bits_mode then 0x34 else 0x30) ∷ cs)
      × Named drive.uses_48_bits_mode base drive.drive_in_channel lba (length sectors) cs
      × (words_sent b.log ≡ words_sent log ++ at_port base (words_in sectors))
unfolding write_sectors
write_sectors_lem driver number drive lba count head sectors more busy ready rest log found lba_mode
      in_channel selected counts some all flushing flushed =
    let run =
      write_drive_lem drive lba head sectors more busy ready rest log lba_mode in_channel selected
        all flushing flushed in
    let n = length sectors in
    let bytes = bytes_in sectors more in
    let bus : Bus = record {
      answers =
          setup_answers drive.uses_48_bits_mode head (states_for sectors (busy ++ (ready ∷ rest)));
      log = log;
    } in
    let counted : (n == 0) ≡ false = ground arith in
    let given : write_sectors driver number lba count bytes bus
        ≡ write_drive drive lba n bytes bus =
      ap
        (λ k.
          (if k == 0
              then pure tt
              else (of_result (Vector.get driver.drives number) >>= λ d. write_drive d lba k bytes))
            bus)
        counts
      ∙ ap
          (λ t.
            (if t
                then pure tt
                else (of_result (Vector.get driver.drives number) >>= λ d.
                    write_drive d lba n bytes))
              bus)
          counted
      ∙ ap (λ r. (of_result r >>= λ d. write_drive d lba n bytes) bus) found in
    (run.0, run.1, given ∙ run.2, run.3, run.4, run.5, run.6)
