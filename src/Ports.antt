-- ===== src/Ports.antt =====
-- src/utils/io.cpp: the ports of the processor, for the code of drivers that talks to a device.
--
-- `answers` is what the device answers to the reads that follow, in their order; code that reads on beyond
-- it still waits. `log` holds what went over the ports, with the sleeps and the switches of the
-- interrupts between, the latest first.
use avi_kernel.Base.{ℕ, Bool, List, [], ◌∷◌, if◌then◌else◌, Result, u8, u16}

pub data PortEvent : Type 0 where
  read8 read16 wrote8 wrote16 : ℕ → ℕ → PortEvent
  wrote32 : ℕ → ℕ → PortEvent
  interrupts : Bool → PortEvent
  slept : ℕ → PortEvent

pub record Bus : Type 0 where
  pub answers : List ℕ
  pub log : List PortEvent

-- `waits` is code that waits for more answers than there are.
pub data Ran (A : Type 0) : Type 0 where
  waits panicked faulted : Ran A
  ran : A → Bus → Ran A

abbrev pub Io : Type 0 → Type 0
Io A = Bus → Ran A

abbrev pub pure : {A : Type 0} → A → Io A
pure a b = ran a b

abbrev pub and_then : {A B : Type 0} → Ran A → (A → Io B) → Ran B
and_then waits next = waits
and_then panicked next = panicked
and_then faulted next = faulted
and_then (ran a b) next = next a b

infixl 5 ◌>>=◌ ◌>>◌
abbrev pub ◌>>=◌ : {A B : Type 0} → Io A → (A → Io B) → Io B
◌>>=◌ m next b = and_then (m b) next

abbrev pub ◌>>◌ : {B : Type 0} → Io (Unit {0}) → Io B → Io B
m >> k = m >>= λ done. k

-- Code that does not use the ports.
abbrev pub of_result : {A : Type 0} → Result A → Io A
of_result Result.panicked b = panicked
of_result Result.faulted b = faulted
of_result (Result.ok a) b = ran a b

unfoldable pub outb : ℕ → ℕ → Io (Unit {0})
outb port val b = ran tt (record b { log = wrote8 port val ∷ b.log })

unfoldable pub outw : ℕ → ℕ → Io (Unit {0})
outw port val b = ran tt (record b { log = wrote16 port val ∷ b.log })

unfoldable pub outl : ℕ → ℕ → Io (Unit {0})
outl port val b = ran tt (record b { log = wrote32 port val ∷ b.log })

unfoldable pub read_answer : (ℕ → PortEvent) → (ℕ → ℕ) → List ℕ → List PortEvent → Ran ℕ
read_answer event cast [] log = waits
read_answer event cast (a ∷ answers) log =
    ran (cast a) (record { answers = answers; log = event (cast a) ∷ log })

unfoldable pub inb : ℕ → Io ℕ
unfolding read_answer
inb port b = read_answer (read8 port) u8 b.answers b.log

unfoldable pub inw : ℕ → Io ℕ
unfolding read_answer
inw port b = read_answer (read16 port) u16 b.answers b.log

-- `sti` and `cli`.
unfoldable pub set_interrupts : Bool → Io (Unit {0})
set_interrupts enabled b = ran tt (record b { log = interrupts enabled ∷ b.log })

-- `Time::sleep`.
unfoldable pub sleep : ℕ → Io (Unit {0})
sleep ms b = ran tt (record b { log = slept ms ∷ b.log })

-- `do value = inb(port); while (test(value));`, with the value that ends it.
unfoldable pub poll_from : ℕ → (ℕ → Bool) → List ℕ → List PortEvent → Ran ℕ
poll_from port test [] log = waits
poll_from port test (a ∷ answers) log =
    let rest = poll_from port test answers (read8 port (u8 a) ∷ log) in
    if test (u8 a)
    then rest
    else ran (u8 a) (record { answers = answers; log = read8 port (u8 a) ∷ log })

unfoldable pub poll : ℕ → (ℕ → Bool) → Io ℕ
unfolding poll_from
poll port test b = poll_from port test b.answers b.log
