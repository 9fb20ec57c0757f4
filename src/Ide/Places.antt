-- ===== src/Ide/Places.antt =====
-- One round of `StorageIDECompatibilityDriver::detect_drives`, at every kind of place.
use mathlib.Core.List.{append-nil}
use mathlib.Core.Bool.{and-false}
use avi_kernel.Base.{
  ℕ, ◌+◌, true, false, not, List, [], ◌∷◌, ◌++◌, u8, ◌≡◌, refl, sym, ap, ◌∙◌, arith, ◌==◌,
  if◌then◌else◌, bit_or, ◌<<<◌,
}
use avi_kernel.Ports.{ran, ◌>>=◌, PortEvent, read8, wrote8, slept, pure}
use avi_kernel.Ide.{IdeDriver, get_ide_controller, any_bit, sector_bytes}
use avi_kernel.Ide.Controller.{read_data_register_buffer}
use avi_kernel.Ide.Registers.{commands}
use avi_kernel.Ide.Answers.{AllWait, poll_lem, read_words_lem, and_then_run}
use avi_kernel.Ide.Detection.{add_drive, detect_drive, identify_device, await_device}
use avi_kernel.Ide.Detecting.{
  Place, absent, other, disk, IsPlace, answers_of, is_busy, is_silent, found_at, with_drives,
  add_drive_lem,
}

-- The search at one place, as a run.
abbrev pub Detects : ℕ → ℕ → Place → Type 0
Detects channel drive place =
    (driver : IdeDriver) (rest : List ℕ) (log : List PortEvent)
    → (after : List PortEvent) × (detect_drive channel drive driver
          (record { answers = answers_of place rest; log = log })
        ≡ ran (with_drives driver (found_at channel drive place))
            (record { answers = rest; log = after }))
      × (commands after
          ≡ ((get_ide_controller channel).ports1_base + 7, 0xEC)
            ∷ ((get_ide_controller channel).ports1_base + 6, u8 (bit_or 0xA0 (drive <<< 4)))
            ∷ commands log)

silent_ends-err : (s : ℕ) → any_bit s 1 ≡ true → is_silent s ≡ false
silent_ends-err s e = rw e refl

silent_ends-drq : (s : ℕ) → any_bit s 8 ≡ true → is_silent s ≡ false
silent_ends-drq s e = rw e (and-false (not (any_bit s 1)))

with_drives-nil : (driver : IdeDriver) → driver ≡ with_drives driver []
with_drives-nil driver =
    let same : (n : ℕ) → n ≡ n + 0 = λ n. omega arith in
    λ i. record {
      number_of_drives = same driver.number_of_drives i;
      drives = record {
        nodes = sym (append-nil driver.drives.nodes) i;
        vector_size = same driver.drives.vector_size i;
      };
    }

module _ (channel drive : ℕ) where
  abbrev asked : List PortEvent → List PortEvent
  asked log =
      wrote8 ((get_ide_controller channel).ports1_base + 7) 0xEC
      ∷ slept 1
      ∷ wrote8 ((get_ide_controller channel).ports1_base + 6) (u8 (bit_or 0xA0 (drive <<< 4)))
      ∷ log

  abbrev status_port : ℕ
  status_port = (get_ide_controller channel).ports2_base + 0

  detect-absent : Detects channel drive absent
  unfolding detect_drive
  detect-absent driver rest log = (
    read8 status_port 0 ∷ asked log,
    ap (λ d. ran d (record { answers = rest; log = read8 status_port 0 ∷ asked log }))
        (with_drives-nil driver),
    refl,
  )

  -- Where a device answers, the search waits for it.
  detect_await :
      (status : ℕ) (driver : IdeDriver) (more : List ℕ) (log : List PortEvent)
      → (u8 status == 0) ≡ false
      → detect_drive channel drive driver (record { answers = status ∷ more; log = log })
        ≡ await_device channel drive driver
            (record { answers = more; log = read8 status_port (u8 status) ∷ asked log })
  unfolding detect_drive
  detect_await status driver more log e =
      ap
        (λ t.
          (if t then pure driver else await_device channel drive driver)
            (record { answers = more; log = read8 status_port (u8 status) ∷ asked log }))
        e

  -- The two waits end, and nothing is written meanwhile.
  await_lem :
      (busy : List ℕ) (cleared : ℕ) (silent : List ℕ) (last : ℕ) (driver : IdeDriver)
      (more : List ℕ) (log : List PortEvent)
      → AllWait is_busy busy
      → is_busy (u8 cleared) ≡ false
      → AllWait is_silent silent
      → is_silent (u8 last) ≡ false
      → (after : List PortEvent) × (await_device channel drive driver
            (record { answers = busy ++ (cleared ∷ (silent ++ (last ∷ more))); log = log })
          ≡ identify_device channel drive driver (u8 last) (record { answers = more; log = after }))
        × (commands after ≡ commands log)
  unfolding await_device
  await_lem busy cleared silent last driver more log waits_busy ends_busy waits_silent ends_silent =
      let first =
        poll_lem status_port is_busy busy cleared (silent ++ (last ∷ more)) log waits_busy
          ends_busy in
      let second =
        poll_lem status_port is_silent silent last more (first.0) waits_silent ends_silent in
      (second.0, and_then_run _ (first.1) ∙ and_then_run _ (second.1), second.2 ∙ first.2)

  pub detect_lem : (place : Place) → IsPlace place → Detects channel drive place
  unfolding identify_device
  detect_lem absent is driver rest log = detect-absent driver rest log
  detect_lem (other status busy cleared silent last) is driver rest log =
      let log' = read8 status_port (u8 status) ∷ asked log in
      let run =
        await_lem busy cleared silent last driver rest log' (is.1) (is.2) (is.3)
          (silent_ends-err (u8 last) (is.4)) in
      (
        run.0,
        detect_await status driver (busy ++ (cleared ∷ (silent ++ (last ∷ rest)))) log (is.0)
            ∙ run.1
            ∙ ap
                (λ t.
                  (if t then pure driver else (do
                    buf ← read_data_register_buffer (get_ide_controller channel) sector_bytes
                    pure (add_drive driver channel drive buf)))
                    (record { answers = rest; log = run.0 }))
                (is.4)
            ∙ ap (λ d. ran d (record { answers = rest; log = run.0 })) (with_drives-nil driver),
        run.2,
      )
  detect_lem (disk status busy cleared silent last words) is driver rest log =
      let log' = read8 status_port (u8 status) ∷ asked log in
      let more = words ++ rest in
      let run =
        await_lem busy cleared silent last driver more log' (is.1) (is.2) (is.3)
          (silent_ends-drq (u8 last) (is.5)) in
      let heard = read_words_lem (get_ide_controller channel) words rest (run.0) in
      (
        heard.0,
        detect_await status driver (busy ++ (cleared ∷ (silent ++ (last ∷ more)))) log (is.0)
            ∙ run.1
            ∙ ap
                (λ t.
                  (if t then pure driver else (do
                    buf ← read_data_register_buffer (get_ide_controller channel) sector_bytes
                    pure (add_drive driver channel drive buf)))
                    (record { answers = more; log = run.0 }))
                (is.4)
            ∙ and_then_run _ (rw (is.6) at (heard.1))
            ∙ ap (λ d. ran d (record { answers = rest; log = heard.0 }))
                (add_drive_lem driver channel drive words),
        heard.2 ∙ run.2,
      )
