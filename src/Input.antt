-- ===== src/Input.antt =====
-- include/utils/queue.h, src/kernel/input_manager.cpp and src/utils/time.cpp: the queue of characters that
-- the keyboard fills, and the clock.
--
-- `nodes` is the chain of nodes from `head`, and its last node is `tail`. A busy loop is given the key
-- presses, or the number of ticks, that arrive while it waits, one in each round. Whether the heap has memory
-- for a new node is an argument of what allocates it.
use avi_kernel.Base.{
  ℕ, zero, suc, ◌+◌, ◌-◌, Bool, true, false, List, [], ◌∷◌, ◌++◌, ltb, if◌then◌else◌, Option, none,
  some, Result, panicked, faulted, ok, ◌>>=◌, u64,
}
use avi_kernel.Keyboard.Codes.{AviCharcode}
use avi_kernel.Keyboard.{printable, as_regular_char}
pub mod Waiting

pub record Queue (T : Type 0) : Type 0 where
  pub nodes : List T
  pub queue_size : ℕ

module _ {T : Type 0} where
  unfoldable pub empty_queue : Queue T
  empty_queue = record { nodes = []; queue_size = 0 }

  unfoldable pub is_empty : Queue T → Bool
  is_empty q = elim q.nodes as (λ nodes. Bool) [ [] ↦ true | x ∷ nodes ↦ false ]

  unfoldable pub enqueue : (new_node : Bool) → Queue T → T → Result (Queue T)
  enqueue false q x = panicked
  enqueue true q x = ok (record { nodes = q.nodes ++ x ∷ []; queue_size = q.queue_size + 1 })

  -- The first node of the chain leaves it.
  unfoldable pub take_head : List T → Result (T × List T)
  take_head [] = faulted
  take_head (x ∷ nodes) = ok (x, nodes)

  unfoldable pub dequeue : Queue T → Result (T × Queue T)
  unfolding take_head
  dequeue q =
      take_head q.nodes >>= λ r. ok (r.0, record { nodes = r.1; queue_size = q.queue_size - 1 })

  unfoldable pub top : Queue T → Result T
  unfolding take_head
  top q = take_head q.nodes >>= λ r. ok r.0

  -- The copying constructor takes each element out of the other queue and puts it back behind. The two
  -- functions tell whether there is memory for the two new nodes of a round.
  module _ (for_this for_other : ℕ → Bool) where
    unfoldable pub copy_from : ℕ → Queue T → Queue T → Result (Queue T × Queue T)
    unfolding dequeue enqueue
    copy_from zero q other = ok (q, other)
    copy_from (suc rounds) q other = do
      r ← dequeue other
      longer ← enqueue (for_this rounds) q r.0
      put_back ← enqueue (for_other rounds) r.1 r.0
      copy_from rounds longer put_back

    unfoldable pub copy_queue : Queue T → Result (Queue T × Queue T)
    unfolding copy_from empty_queue
    copy_queue other = copy_from other.queue_size empty_queue other

-- The press of a key, and whether there is memory for a new node when it comes.
pub record Press : Type 0 where
  pub key : AviCharcode
  pub new_node : Bool

unfoldable pub on_press : Press → Queue ℕ → Result (Queue ℕ)
unfolding printable as_regular_char enqueue
on_press p chars_queue =
    if printable p.key
    then enqueue p.new_node chars_queue (as_regular_char p.key)
    else ok chars_queue

-- The presses that are left and the queue where the loop ends; none where it waits for more.
unfoldable pub wait_for_char : List Press → Queue ℕ → Option (Result (List Press × Queue ℕ))
unfolding is_empty on_press
wait_for_char [] q = if is_empty q then none else some (ok ([], q))
wait_for_char (p ∷ presses) q =
    let rest : Option (Result (List Press × Queue ℕ)) = elim (on_press p q) [
      | panicked ↦ some panicked
      | faulted ↦ some faulted
      | ok longer ↦ wait_for_char presses longer
    ] in
    if is_empty q then rest else some (ok (p ∷ presses, q))

-- The character, the presses that are left, and the queue.
unfoldable pub getchar : List Press → Queue ℕ → Option (Result (ℕ × List Press × Queue ℕ))
unfolding wait_for_char dequeue
getchar presses q = elim (wait_for_char presses q) [
  | none ↦ none
  | some waited ↦ some (waited >>= λ r. dequeue r.1 >>= λ d. ok (d.0, r.0, d.1))
]

unfoldable pub on_tick : ℕ → ℕ
on_tick counter_ms = u64 (counter_ms + 1)

-- The loop of `sleep` up to this time.
unfoldable pub sleep_until : ℕ → ℕ → ℕ → Option ℕ
unfolding on_tick
sleep_until zero end counter_ms = if ltb counter_ms end then none else some counter_ms
sleep_until (suc ticks) end counter_ms =
    let rest = sleep_until ticks end (on_tick counter_ms) in
    if ltb counter_ms end then rest else some counter_ms

-- The counter where `sleep` returns; none where it waits for more ticks.
unfoldable pub sleep : ℕ → ℕ → ℕ → Option ℕ
unfolding sleep_until
sleep ticks ms counter_ms = sleep_until ticks (u64 (counter_ms + ms)) counter_ms
