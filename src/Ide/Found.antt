-- ===== src/Ide/Found.antt =====
-- `StorageIDECompatibilityDriver::detect_drives`: which drives the driver ends with.
use mathlib.Core.List.{append_assoc}
use avi_kernel.Base.{ℕ, ◌+◌, List, ◌∷◌, ◌++◌, ◌≡◌, ap, ◌∙◌}
use avi_kernel.Ports.{ran, PortEvent}
use avi_kernel.Ide.{IdeDriver, get_ide_controller}
use avi_kernel.Ide.Registers.{commands}
use avi_kernel.Ide.Answers.{and_then_run}
use avi_kernel.Ide.Detection.{detect_channel, detect_channels, detect_drives}
use avi_kernel.Ide.Detecting.{Place, IsPlace, answers_of, found_at, with_drives, with_drives-append}
use avi_kernel.Ide.Places.{detect_lem}

-- The two places of a channel.
detect_channel_lem :
    (channel : ℕ) (master slave : Place) (driver : IdeDriver) (rest : List ℕ) (log : List PortEvent)
    → IsPlace master
    → IsPlace slave
    → let base = (get_ide_controller channel).ports1_base in
      (after : List PortEvent) × (detect_channel 2 channel 0 driver
          (record { answers = answers_of master (answers_of slave rest); log = log })
        ≡ ran
            (with_drives driver (found_at channel 0 master ++ found_at channel 1 slave))
            (record { answers = rest; log = after }))
      × (commands after
          ≡ (base + 7, 0xEC)
            ∷ (base + 6, 0xB0)
            ∷ (base + 7, 0xEC)
            ∷ (base + 6, 0xA0)
            ∷ commands log)
unfolding detect_channel
detect_channel_lem channel master slave driver rest log is_master is_slave =
    let d = with_drives driver (found_at channel 0 master) in
    let r = detect_lem channel 0 master is_master driver (answers_of slave rest) log in
    let r' = detect_lem channel 1 slave is_slave d rest (r.0) in
    let base = (get_ide_controller channel).ports1_base in
    (
      r'.0,
      and_then_run _ (r.1)
          ∙ and_then_run _ (r'.1)
          ∙ ap (λ d. ran d (record { answers = rest; log = r'.0 }))
              (with_drives-append driver (found_at channel 0 master) (found_at channel 1 slave)),
      r'.2 ∙ ap (λ cs. (base + 7, 0xEC) ∷ (base + 6, 0xB0) ∷ cs) (r.2),
    )

-- The search tries the four places in their order, masters in front of slaves, with a selection and an IDENTIFY
-- command, 0xEC, for each, and writes no other byte. The driver ends with the drives that the disks
-- among them identify, in this order behind those that it had, and counts them; where nothing answers, and
-- where an error is reported, no drive is added. No answer behind these is taken.
pub detect_drives_lem :
    (first second third fourth : Place) (driver : IdeDriver) (rest : List ℕ) (log : List PortEvent)
    → IsPlace first
    → IsPlace second
    → IsPlace third
    → IsPlace fourth
    → (after : List PortEvent) × (detect_drives driver (record {
      answers = answers_of first (answers_of second (answers_of third (answers_of fourth rest)));
      log = log;
    })
        ≡ ran
            (with_drives driver (
              found_at 0 0 first
              ++ (found_at 0 1 second ++ (found_at 1 0 third ++ found_at 1 1 fourth))))
            (record { answers = rest; log = after }))
      × (commands after
          ≡ (0x177, 0xEC)
            ∷ (0x176, 0xB0)
            ∷ (0x177, 0xEC)
            ∷ (0x176, 0xA0)
            ∷ (0x1F7, 0xEC)
            ∷ (0x1F6, 0xB0)
            ∷ (0x1F7, 0xEC)
            ∷ (0x1F6, 0xA0)
            ∷ commands log)
unfolding detect_drives detect_channels get_ide_controller
detect_drives_lem first second third fourth driver rest log is₁ is₂ is₃ is₄ =
    let primary = found_at 0 0 first ++ found_at 0 1 second in
    let secondary = found_at 1 0 third ++ found_at 1 1 fourth in
    let more = answers_of third (answers_of fourth rest) in
    let r = detect_channel_lem 0 first second driver more log is₁ is₂ in
    let r' = detect_channel_lem 1 third fourth (with_drives driver primary) rest (r.0) is₃ is₄ in
    (
      r'.0,
      and_then_run _ (r.1)
          ∙ and_then_run _ (r'.1)
          ∙ ap (λ d. ran d (record { answers = rest; log = r'.0 }))
              (with_drives-append driver primary secondary
                ∙ ap (λ xs. with_drives driver xs)
                    (append_assoc (found_at 0 0 first) (found_at 0 1 second) secondary)),
      r'.2 ∙ ap (λ cs. (0x177, 0xEC) ∷ (0x176, 0xB0) ∷ (0x177, 0xEC) ∷ (0x176, 0xA0) ∷ cs) (r.2),
    )
