-- ===== src/Clock.antt =====
-- src/drivers_manager/drivers/clock/clock_driver.cpp and clock_pit_driver.cpp: the clock.
--
-- `L` is the type of listeners. The registration of `on_tick` is what the caller of `configure_pit` does.
use avi_kernel.Base.{
  ℕ, ◌+◌, ◌*◌, ◌/◌, ◌%◌, ◌<◌, ◌≤◌, Bool, true, false, List, [], ◌∷◌, ◌==◌, ltb, if◌then◌else◌,
  Option, none, some, bit_and, u8, ◌>>>◌, ◌≡◌, ap, ◌∙◌, arith, ◌⊎◌, inl, inr, Bool-cases, ==_iff,
}
use native.Mathlib.Nat.{le-div_iff_mul-le}
use avi_kernel.Bits.{bit_and_ones}
use avi_kernel.Ports.{
  Io, Bus, Ran, ran, panicked, faulted, PortEvent, wrote8, interrupts, ◌>>◌, outb, set_interrupts,
}

pub record ClockDriver (L : Type 0) : Type 0 where
  pub listener : Option L
  pub frequency : ℕ

module _ {L : Type 0} where
  unfoldable pub clock_driver : ClockDriver L
  clock_driver = record { listener = none; frequency = 100 }

  unfoldable pub set_on_tick_listener : ClockDriver L → L → ClockDriver L
  set_on_tick_listener driver l = record driver { listener = some l }

  unfoldable pub set_frequency : ClockDriver L → ℕ → ClockDriver L
  set_frequency driver f = record driver { frequency = f }

  -- The listeners that are called.
  unfoldable pub on_tick : ClockDriver L → List L
  on_tick driver = elim driver.listener [ none ↦ [] | some l ↦ l ∷ [] ]

abbrev pub pit_dividend : ℕ
pit_dividend = 1193180

unfoldable pub program_pit : ℕ → Io (Unit {0})
unfolding outb set_interrupts
program_pit divisor = do
  set_interrupts false
  outb 0x43 0x36
  outb 0x40 (u8 (bit_and divisor 0xFF))
  outb 0x40 (u8 (bit_and (divisor >>> 8) 0xFF))
  set_interrupts true

-- A division by zero is a fault.
unfoldable pub configure_pit : ℕ → Io (Unit {0})
unfolding program_pit
configure_pit frequency =
    if frequency == 0
    then (λ b. faulted)
    else if ltb 65535 (pit_dividend / frequency)
    then (λ b. panicked)
    else program_pit (pit_dividend / frequency)

low_byte : (x : ℕ) → u8 (bit_and x 0xFF) ≡ x % 256
low_byte x = rw (bit_and_ones 8 x) (omega arith)

-- The log behind a programming with these two bytes.
abbrev pub programmed : ℕ → ℕ → List PortEvent → List PortEvent
programmed low high log =
    interrupts true ∷ wrote8 0x40 high ∷ wrote8 0x40 low ∷ wrote8 0x43 0x36 ∷ interrupts false ∷ log

program_pit_lem :
    (divisor : ℕ) (b : Bus)
    → program_pit divisor b
      ≡ ran tt (record b { log = programmed (divisor % 256) (divisor / 256 % 256) b.log })
unfolding program_pit
program_pit_lem divisor b = λ i.
    ran tt (record b { log = programmed (low_byte divisor i) (low_byte (divisor / 256) i) b.log })

fits : (f : ℕ) → 19 ≤ f → ltb 65535 (pit_dividend / f) ≡ false
fits f le = elim (Bool-cases (ltb 65535 (pit_dividend / f))) [
  | inl big ↦
      let below : 65536 ≤ pit_dividend / f = ground arith in
      let product : 65536 * f ≤ pit_dividend = (le-div_iff_mul-le (omega arith)).0 below in
      absurd (omega arith)
  | inr small ↦ small
]

too_slow : (f : ℕ) → 0 < f → f < 19 → ltb 65535 (pit_dividend / f) ≡ true
too_slow f above lt =
    let below : 65536 ≤ pit_dividend / f = (le-div_iff_mul-le above).1 (omega arith) in ground arith

-- Every frequency: with 0 the division faults; from 1 to 18 the code panics in front of any write; from 19 on
-- the timer is programmed, with interrupts off meanwhile, by the two bytes of 1193180 divided by the frequency.
pub configure_pit_lem :
    (f : ℕ) (b : Bus)
    → ((f ≡ 0) × (configure_pit f b ≡ faulted))
      ⊎ (((0 < f) × (f < 19) × (configure_pit f b ≡ panicked))
          ⊎ ((19 ≤ f)
              × ((low : ℕ) × (high : ℕ) × (configure_pit f b
                    ≡ ran tt (record b { log = programmed low high b.log }))
                  × (low < 256)
                  × (high < 256)
                  × (low + 256 * high ≡ pit_dividend / f))))
unfolding configure_pit
configure_pit_lem f b =
    let run : Bool → Bool → Ran (Unit {0}) = λ t t'.
      (if t then (λ b. faulted) else if t' then (λ b. panicked) else program_pit (pit_dividend / f))
        b in
    let test = ltb 65535 (pit_dividend / f) in
    elim (Bool-cases (f == 0)) [
      | inl e ↦ inl ((==_iff f 0).0 e, ap (λ t. run t test) e)
      | inr e ↦ elim (Bool-cases (ltb f 19)) [
        | inl slow ↦
            let big = too_slow f (ground arith) (ground arith) in
            inr (inl (ground arith, ground arith, λ i. run (e i) (big i)))
        | inr fast ↦
            let small = fits f (ground arith) in
            let word : pit_dividend / f < 65536 = ground arith in
            inr (
              inr (
                ground arith,
                (
                  pit_dividend / f % 256,
                  pit_dividend / f / 256 % 256,
                  (λ i. run (e i) (small i)) ∙ program_pit_lem (pit_dividend / f) b,
                  omega arith,
                  omega arith,
                  omega arith,
                ),
              ))
      ]
    ]
