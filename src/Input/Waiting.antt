-- ===== src/Input/Waiting.antt =====
-- The busy loops end as soon as what they wait for has come.
use avi_kernel.Base.{
  ℕ, zero, suc, ◌+◌, ◌-◌, ◌^◌, ◌<◌, ◌≤◌, true, List, [], ◌∷◌, ◌++◌, ◌≡◌, refl, ap, ◌∙◌, arith, ltb,
  leb, if◌then◌else◌, Option, none, some, Result, panicked, faulted, ok, ◌>>=◌, u64, Bool-cases,
  inl, inr,
}
use mathlib.Core.List.{append_assoc}
use avi_kernel.Keyboard.{printable, as_regular_char}
use avi_kernel.Input.{
  Queue, Press, is_empty, enqueue, dequeue, take_head, on_press, wait_for_char, getchar, on_tick,
  sleep_until, sleep,
}

-- The characters of the keys that have one, in the order of the presses.
unfoldable pub typed : List Press → List ℕ
unfolding printable
typed [] = []
typed (p ∷ presses) = let rest = typed presses in if printable p.key then p.key ∷ rest else rest

-- There is memory for the node of each press.
abbrev pub HaveNodes : List Press → Type 0
HaveNodes [] = Unit {0}
HaveNodes (p ∷ presses) = (p.new_node ≡ true) × HaveNodes presses

on_press-nodes :
    (p : Press) (presses : List Press) (q : Queue ℕ)
    → p.new_node ≡ true
    → (w : Queue ℕ) × (on_press p q ≡ ok w)
      × (w.nodes ++ typed presses ≡ q.nodes ++ typed (p ∷ presses))
unfolding on_press typed enqueue as_regular_char
on_press-nodes p presses q new_node = elim (Bool-cases (printable p.key)) [
  | inl e ↦ rw (e, new_node) (_, refl, append_assoc q.nodes (p.key ∷ []) (typed presses))
  | inr e ↦ rw e (q, refl, refl)
]

-- A press goes into the empty queue, and the loop goes on.
getchar_next :
    (p : Press) (presses : List Press) (queue_size : ℕ) (longer : Queue ℕ)
    → on_press p (record { nodes = []; queue_size = queue_size }) ≡ ok longer
    → getchar (p ∷ presses) (record { nodes = []; queue_size = queue_size })
      ≡ getchar presses longer
unfolding getchar wait_for_char is_empty
getchar_next p presses queue_size longer pressed =
    let waits : Result (Queue ℕ) → Option (Result (List Press × Queue ℕ)) = λ r. elim r [
      | panicked ↦ some panicked
      | faulted ↦ some faulted
      | ok w ↦ wait_for_char presses w
    ] in
    let ends : Option (Result (List Press × Queue ℕ)) → Option (Result (ℕ × List Press × Queue ℕ)) =
      λ o. elim o [
        | none ↦ none
        | some waited ↦ some (waited >>= λ r. dequeue r.1 >>= λ d. ok (d.0, r.0, d.1))
      ] in
    ap (λ r. ends (waits r)) pressed

-- Where there is memory for the node of each press, and a character is in the queue or a key that has one is
-- pressed, `getchar` returns, with the first of these characters; the others stay, in their order, in the
-- queue and among the presses that follow.
pub getchar_lem :
    (presses : List Press) (nodes : List ℕ) (queue_size : ℕ) (c : ℕ) (rest : List ℕ)
    → HaveNodes presses
    → nodes ++ typed presses ≡ c ∷ rest
    → (presses_left : List Press) × (q : Queue ℕ) × (getchar presses
          (record { nodes = nodes; queue_size = queue_size })
        ≡ some (ok (c, presses_left, q)))
      × (q.nodes ++ typed presses_left ≡ rest)
unfolding getchar wait_for_char is_empty dequeue take_head typed
getchar_lem [] [] n c rest have e = cc
getchar_lem [] (x ∷ nodes) n c rest have e =
    let q : Queue ℕ = record { nodes = nodes; queue_size = n - 1 } in
    let first : x ≡ c = cc in ([], q, ap (λ y. some (ok (y, [], q))) first, cc)
getchar_lem (p ∷ presses) [] n c rest have e =
    let q : Queue ℕ = record { nodes = []; queue_size = n } in
    let (pressed, is_pressed, same) = on_press-nodes p presses q (have.0) in
    let later = getchar_lem presses pressed.nodes pressed.queue_size c rest (have.1) (same ∙ e) in
    (later.0, later.1, getchar_next p presses n pressed is_pressed ∙ later.2, later.3)
getchar_lem (p ∷ presses) (x ∷ nodes) n c rest have e =
    let q : Queue ℕ = record { nodes = nodes; queue_size = n - 1 } in
    let first : x ≡ c = cc in (p ∷ presses, q, ap (λ y. some (ok (y, p ∷ presses, q))) first, cc)

sleep_until_lem :
    (ticks end counter : ℕ)
    → counter ≤ end
    → end < 2 ^ 64
    → sleep_until ticks end counter ≡ (if leb (end - counter) ticks then some end else none)
unfolding sleep_until on_tick
sleep_until_lem zero end counter le lt = ground arith
sleep_until_lem (suc ticks) end counter le lt = elim (Bool-cases (ltb counter end)) [
  | inl e ↦
      let next : u64 (counter + 1) ≡ counter + 1 = ground arith in
      let rest = sleep_until_lem ticks end (counter + 1) (ground arith) lt in
      let same : leb (end - (counter + 1)) ticks ≡ leb (end - counter) (suc ticks) = ground arith in
      rw (e, next) (rest ∙ rw same refl)
  | inr e ↦
      let there : counter ≡ end = ground arith in
      let done : leb (end - counter) (suc ticks) ≡ true = ground arith in
      rw (e, done) (ap some there)
]

-- A sleep that ends below 2^64 returns at the tick that completes its milliseconds, and waits as long as
-- there are fewer ticks.
pub sleep_lem :
    (ticks ms counter : ℕ)
    → counter + ms < 2 ^ 64
    → sleep ticks ms counter ≡ (if leb ms ticks then some (counter + ms) else none)
unfolding sleep
sleep_lem ticks ms counter lt =
    let whole : u64 (counter + ms) ≡ counter + ms = omega arith in
    let left : counter + ms - counter ≡ ms = omega arith in
    rw whole (sleep_until_lem ticks (counter + ms) counter (omega arith) lt ∙ rw left refl)
