-- ===== src/MessageQueue/Wait.antt =====
-- ndk/message_queue.cpp: the public operations, which wait while the queue is full or empty. A wait
-- gives up the mutex, so what the other threads do meanwhile is an argument: the list of the queues
-- that the thread finds at each wake-up, with `false` where the wait timed out. The list runs out
-- while the thread still waits.
pub mod Loop
pub mod Enqueue
pub mod Dequeue
use cute_ndk.Base.{ℕ, Bool, false, List, [], ◌∷◌, ◌==◌, if◌then◌else◌, Run, ok, out_of_fuel, ◌>>=◌}
use cute_ndk.Base.Int.{ℤ, pos, negsuc}
use cute_ndk.MessageQueue.{
  Queue, is_full_i, is_empty_i, enqueue_tail_i, enqueue_head_i, dequeue_head_i, dequeue_tail_i,
}
use cute_ndk.MessageQueue.Batch.{dequeue_head_n_i, dequeue_tail_n_i}

-- The argument `timeout`: the null pointer, zero, or some other time.
pub data Timeout : Type 0 where
  forever no_wait limited : Timeout

abbrev pub Wakeups : Type 0
Wakeups = List (Bool × Queue)

pub data Signal : Type 0 where
  not_empty not_full : Signal

-- `while (busy()) { if (timeout is zero) return -1; if (wait(timeout) != 0) return -1; } return 0;`
pub wait_while : (Queue → Bool) → Wakeups → Timeout → Queue → Run (Queue × ℤ)
wait_while busy [] timeout q =
    if busy q then elim timeout [ no_wait ↦ ok (q, negsuc 0) | _ ↦ out_of_fuel ] else ok (q, pos 0)
wait_while busy ((woken, q') ∷ wakeups) timeout q =
    let again = wait_while busy wakeups timeout q' in
    let waited : Run (Queue × ℤ) = if woken then again else ok (q', negsuc 0) in
    if busy q then elim timeout [ no_wait ↦ ok (q, negsuc 0) | _ ↦ waited ] else ok (q, pos 0)

unfoldable pub wait_not_full_cond : Wakeups → Timeout → Queue → Run (Queue × ℤ)
wait_not_full_cond = wait_while is_full_i

unfoldable pub wait_not_empty_cond : Wakeups → Timeout → Queue → Run (Queue × ℤ)
wait_not_empty_cond = wait_while is_empty_i

-- The queue, the result, and the conditions that were signalled.
abbrev pub Outcome : Type 0
Outcome = Queue × ℤ × List Signal

-- What follows a wait: failure, or the operation.
abbrev pub after_wait {ℓ} : {A : Type ℓ} → (Queue → A) → (Queue → Run A) → Queue × ℤ → Run A
after_wait failed operation (q, pos n) = operation q
after_wait failed operation (q, negsuc n) = ok (failed q)

abbrev pub with_result : Queue → Outcome
with_result q = (q, negsuc 0, [])

pub enqueue_tail : ℕ → Wakeups → Timeout → Queue → ℕ → Run Outcome
enqueue_tail fuel wakeups timeout q new_item = if new_item == 0 then ok (q, negsuc 0, []) else do
  r ← wait_not_full_cond wakeups timeout q
  after_wait with_result
      (λ q'. enqueue_tail_i fuel q' new_item >>= λ (q'', num). ok (q'', num, not_empty ∷ [])) r

pub enqueue_head : ℕ → Wakeups → Timeout → Queue → ℕ → Run Outcome
enqueue_head fuel wakeups timeout q new_item = if new_item == 0 then ok (q, negsuc 0, []) else do
  r ← wait_not_full_cond wakeups timeout q
  after_wait with_result
      (λ q'. enqueue_head_i fuel q' new_item >>= λ (q'', num). ok (q'', num, not_empty ∷ [])) r

-- With the block that is taken out, null if none is.
abbrev pub Taken : Type 0
Taken = Queue × ℕ × ℤ × List Signal

abbrev pub none_taken : Queue → Taken
none_taken q = (q, 0, negsuc 0, [])

pub dequeue_head : Wakeups → Timeout → Queue → Run Taken
dequeue_head wakeups timeout q = do
  r ← wait_not_empty_cond wakeups timeout q
  after_wait none_taken
      (λ q'. dequeue_head_i q' >>= λ (q'', item, num). ok (q'', item, num, not_full ∷ [])) r

pub dequeue_tail : Wakeups → Timeout → Queue → Run Taken
dequeue_tail wakeups timeout q = do
  r ← wait_not_empty_cond wakeups timeout q
  after_wait none_taken
      (λ q'. dequeue_tail_i q' >>= λ (q'', item, num). ok (q'', item, num, not_full ∷ [])) r

abbrev pub is_zero : ℤ → Bool
is_zero (pos n) = n == 0
is_zero (negsuc n) = false

pub dequeue_head_n : Wakeups → Timeout → Queue → ℤ → Run Taken
dequeue_head_n wakeups timeout q number = if is_zero number then ok (q, 0, pos 0, []) else do
  r ← wait_not_empty_cond wakeups timeout q
  after_wait none_taken
      (λ q'. dequeue_head_n_i q' number >>= λ (q'', items, count).
        ok (q'', items, pos count, not_full ∷ []))
      r

pub dequeue_tail_n : Wakeups → Timeout → Queue → ℤ → Run Taken
dequeue_tail_n wakeups timeout q number = if is_zero number then ok (q, 0, pos 0, []) else do
  r ← wait_not_empty_cond wakeups timeout q
  after_wait none_taken
      (λ q'. dequeue_tail_n_i q' number >>= λ (q'', items, count).
        ok (q'', items, pos count, not_full ∷ []))
      r
