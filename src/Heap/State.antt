-- ===== src/Heap/State.antt =====
-- The state of the heap, and commands over it.
use avi_kernel.Base.{
  ℕ, ◌+◌, ◌*◌, ◌/◌, ◌%◌, ◌^◌, ◌<◌, ◌≤◌, ◌≡◌, ◌⊎◌, inl, inr, arith, ◌==◌, if◌then◌else◌,
}
use avi_kernel.VirtualMgr.{Machine}

-- The bytes of the memory.
pub record Store : Type 0 where
  pub memory : ℕ → ℕ

-- The static members of `Heap`, the memory, and the memory managers.
pub record Heap : Type 0 where
  pub head : ℕ
  pub tail : ℕ
  pub last_page : ℕ
  pub store : Store
  pub machine : Machine

-- How an operation ends.
pub data Run (A : Type 0) : Type 0 where
  panicked faulted out_of_fuel : Run A
  ok : A → Heap → Run A

abbrev pub Cmd : Type 0 → Type 0
Cmd A = (before : Heap) → Run A

module _ {A B : Type 0} where
  abbrev pub and_then : Run A → (A → Cmd B) → Run B
  and_then out_of_fuel next = out_of_fuel
  and_then faulted next = faulted
  and_then panicked next = panicked
  and_then (ok result after) next = next result after

  infixl 5 ◌>>=◌ ◌>>◌
  abbrev pub ◌>>=◌ : Cmd A → (A → Cmd B) → Cmd B
  first >>= next = λ before. and_then (first before) next

  abbrev pub ◌>>◌ : Cmd A → Cmd B → Cmd B
  first >> second = first >>= λ result. second

abbrev pub pure : {A : Type 0} → A → Cmd A
pure result before = ok result before

-- A command that reads the state, and one that changes it.
abbrev pub get : {A : Type 0} → (Heap → A) → Cmd A
get f h = ok (f h) h

abbrev pub lift : (Heap → Heap) → Cmd (Unit {0})
lift f h = ok tt (f h)

abbrev pub update : (ℕ → ℕ) → ℕ → ℕ → ℕ → ℕ
update f a v b = if a == b then v else f b

-- The word of four bytes at an address, the lowest first, and a write to it.
unfoldable pub load : Store → ℕ → ℕ
load s a =
    s.memory a + 256 * s.memory (a + 1) + 65536 * s.memory (a + 2) + 16777216 * s.memory (a + 3)

unfoldable pub put : ℕ → ℕ → Store → Store
put a v s = record {
  memory = λ b.
      if b == a
      then v % 256
      else if b == a + 1
      then v / 256 % 256
      else if b == a + 2
      then v / 65536 % 256
      else if b == a + 3
      then v / 16777216 % 256
      else s.memory b;
}

-- The fields of the header at an address.
abbrev pub size_at : Store → ℕ → ℕ
size_at s a = load s a

abbrev pub next_at : Store → ℕ → ℕ
next_at s a = load s (a + 4)

abbrev pub prev_at : Store → ℕ → ℕ
prev_at s a = load s (a + 8)

abbrev pub set_size : ℕ → ℕ → Store → Store
set_size a v s = put a v s

abbrev pub set_next : ℕ → ℕ → Store → Store
set_next a v s = put (a + 4) v s

abbrev pub set_prev : ℕ → ℕ → Store → Store
set_prev a v s = put (a + 8) v s

-- A word that was written is read back, and a write spares the words that it does not overlap.
pub stored : (s : Store) (a v : ℕ) → v < 2 ^ 32 → load (put a v s) a ≡ v
unfolding load put
stored s a v lt = ground arith

pub spared : (s : Store) (a v b : ℕ) → (a + 4 ≤ b) ⊎ (b + 4 ≤ a) → load (put a v s) b ≡ load s b
unfolding load put
spared s a v b (inl le) = ground arith
spared s a v b (inr le) = ground arith
