-- ===== src/Ide/Answers.antt =====
-- What an IDE drive answers while sectors are read or written, and what one round of these loops does.
use avi_kernel.Base.{
  ℕ, ◌+◌, Bool, true, false, List, [], ◌∷◌, ◌++◌, u8, u16, ◌≡◌, refl, sym, ap, ◌∙◌, length, map,
}
use mathlib.Core.List.{append-nil, append_assoc}
use avi_kernel.Ports.{
  Bus, Ran, ran, Io, and_then, PortEvent, read8, read16, wrote16, poll_from, poll,
}
use avi_kernel.Ide.{still_waits}
use avi_kernel.Ide.Controller.{IdeController, read_words, write_words}
use avi_kernel.Ide.Registers.{commands, words_sent}

-- Words for one port.
abbrev pub at_port : ℕ → List ℕ → List (ℕ × ℕ)
at_port port [] = []
at_port port (w ∷ words) = (port, w) ∷ at_port port words

pub at_port-append :
    (port : ℕ) (words more : List ℕ)
    → at_port port (words ++ more) ≡ at_port port words ++ at_port port more
at_port-append port [] more = refl
at_port-append port (w ∷ words) more = ap (λ ws. (port, w) ∷ ws) (at_port-append port words more)

-- Code that runs hands its value on.
pub and_then_run :
    {A B : Type 0} {first : Ran A} {a : A} {b : Bus} (next : A → Io B)
    → first ≡ ran a b
    → and_then first next ≡ next a b
and_then_run next e = ap (λ r. and_then r next) e

-- Each of these answers lets the loop go on.
abbrev pub AllWait : (ℕ → Bool) → List ℕ → Type 0
AllWait test [] = Unit
AllWait test (a ∷ busy) = (test (u8 a) ≡ true) × AllWait test busy

-- A polling loop ends at the first answer that does not let it go on.
pub poll_lem :
    (port : ℕ) (test : ℕ → Bool) (busy : List ℕ) (ready : ℕ) (rest : List ℕ) (log : List PortEvent)
    → AllWait test busy
    → test (u8 ready) ≡ false
    → (after : List PortEvent) × (poll port test
          (record { answers = busy ++ (ready ∷ rest); log = log })
        ≡ ran (u8 ready) (record { answers = rest; log = after }))
      × (commands after ≡ commands log)
      × (words_sent after ≡ words_sent log)
unfolding poll poll_from
poll_lem port test [] ready rest log waiting ends =
    (read8 port (u8 ready) ∷ log, rw ends refl, refl, refl)
poll_lem port test (a ∷ busy) ready rest log waiting ends =
    let r = poll_lem port test busy ready rest (read8 port (u8 a) ∷ log) waiting.1 ends in
    (r.0, rw waiting.0 (r.1), r.2, r.3)

pub read_words_lem :
    (c : IdeController) (words rest : List ℕ) (log : List PortEvent)
    → (after : List PortEvent) × (read_words c
          (length words)
          (record { answers = words ++ rest; log = log })
        ≡ ran (map u16 words) (record { answers = rest; log = after }))
      × (commands after ≡ commands log)
      × (words_sent after ≡ words_sent log)
unfolding read_words
read_words_lem c [] rest log = (log, refl, refl, refl)
read_words_lem c (w ∷ words) rest log =
    let r = read_words_lem c words rest (read16 (c.ports1_base + 0) (u16 w) ∷ log) in
    (r.0, and_then_run _ (r.1), r.2, r.3)

pub write_words_lem :
    (c : IdeController) (words more answers : List ℕ) (log : List PortEvent)
    → (after : List PortEvent) × (write_words c
          (length words)
          (words ++ more)
          (record { answers = answers; log = log })
        ≡ ran tt (record { answers = answers; log = after }))
      × (commands after ≡ commands log)
      × (words_sent after ≡ words_sent log ++ at_port (c.ports1_base + 0) words)
unfolding write_words
write_words_lem c [] more answers log = (log, refl, refl, sym (append-nil (words_sent log)))
write_words_lem c (w ∷ words) more answers log =
    let r = write_words_lem c words more answers (wrote16 (c.ports1_base + 0) w ∷ log) in
    (
      r.0,
      r.1,
      r.2,
      r.3
          ∙ append_assoc (words_sent log) ((c.ports1_base + 0, w) ∷ [])
              (at_port (c.ports1_base + 0) words),
    )

-- The answers of a drive while a sector is read or written: the states while it is not ready, the one with
-- which it is, and the sector's words.
pub record SectorAnswer : Type 0 where
  pub busy : List ℕ
  pub ready : ℕ
  pub words : List ℕ

pub record IsReady (s : SectorAnswer) : Type 0 where
  pub waiting : AllWait still_waits s.busy
  pub ends : still_waits (u8 s.ready) ≡ false
  pub whole : length s.words ≡ 256

abbrev pub AllReady : List SectorAnswer → Type 0
AllReady [] = Unit
AllReady (s ∷ sectors) = IsReady s × AllReady sectors

abbrev pub words_in : List SectorAnswer → List ℕ
words_in [] = []
words_in (s ∷ sectors) = s.words ++ words_in sectors
