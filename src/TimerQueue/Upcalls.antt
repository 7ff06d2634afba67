-- ===== src/TimerQueue/Upcalls.antt =====
-- ndk/timer_queue.cpp: cancelling all timers of a handler, expiring a timer, and the timeout that is
-- stored for the caller.
use cute_ndk.Base.{
  ℕ, zero, suc, ◌+◌, Bool, false, not, Option, none, some, ltb, ◌==◌, if◌then◌else◌, List, [], ◌∷◌,
  Run, ok, out_of_fuel, ◌>>=◌, ◌>>◌, require,
}
use cute_ndk.Base.Array.{load}
use cute_ndk.Base.Int.{ℤ, pos, negsuc, ltb_ℤ}
use cute_ndk.TimeValue.{TimeValue, before, zero_time, sub}
use cute_ndk.TimerQueue.{TimerQueue, Node, deref, remove}
use cute_ndk.TimerQueue.Nodes.{free_node}
use cute_ndk.TimerQueue.Calls.{unlink_crontab, cancel, dispatch_timer}

-- The walk over the crontab timers: those of the handler are unlinked and freed. The queue, their
-- number, and the handle_close calls.
cancel_crontabs : ℕ → TimerQueue → ℕ → ℕ → Bool → Run (TimerQueue × ℕ × List ℕ)
cancel_crontabs zero q iter handler dont_call = out_of_fuel
cancel_crontabs (suc k) q iter handler dont_call =
    let walk : Run (TimerQueue × ℕ × List ℕ) = do
      node ← deref q iter
      let skip = cancel_crontabs k q node.next handler dont_call
      let drop : Run (TimerQueue × ℕ × List ℕ) = do
        q' ← unlink_crontab q iter
        q'' ← free_node q' iter
        (q3, n, closed) ← cancel_crontabs k q'' node.next handler dont_call
        ok (q3, n + 1, if dont_call then closed else handler ∷ closed)
      if handler == node.handler then drop else skip
    in if iter == 0 then ok (q, 0, []) else walk

-- The loop over the heap, which starts again at 0 behind each timer that it takes out.
cancel_timers : ℕ → TimerQueue → ℕ → ℕ → Run (TimerQueue × ℕ)
cancel_timers zero q i handler = out_of_fuel
cancel_timers (suc k) q i handler =
    let next = cancel_timers k q (i + 1) handler in
    let look : Run (TimerQueue × ℕ) = do
      p ← load q.timer_heap i
      node ← deref q p
      let drop : Run (TimerQueue × ℕ) = do
        (q', temp) ← remove q i
        q'' ← free_node q' temp
        (q3, n) ← cancel_timers k q'' 0 handler
        ok (q3, n + 1)
      if node.handler == handler then drop else next
    in if ltb i q.curr_size then look else ok (q, 0)

-- `cancel(eh, dont_call_handle_close)`: the queue, the number of timers cancelled, and the
-- handle_close calls.
pub cancel_handler : ℕ → TimerQueue → ℕ → Bool → Run (TimerQueue × ℕ × List ℕ)
unfolding cancel_crontabs cancel_timers
cancel_handler fuel q handler dont_call = if handler == 0 then ok (q, 0, []) else do
  (q', n, closed) ← cancel_crontabs fuel q q.crontab_timers handler dont_call
  (q'', m) ← cancel_timers fuel q' 0 handler
  ok (q'', n + m, if dont_call then closed else handler ∷ closed)

-- `expire`: 1 if a timer was dispatched. `handle_timeout` is the event handler's method, on a queue
-- that it may change; a null handler counts as a method that returns -1.
pub expire :
    ℕ
    → (TimerQueue → ℕ → ℕ → TimeValue → Run (TimerQueue × ℤ))
    → TimerQueue
    → TimeValue
    → Run (TimerQueue × ℕ × List ℕ)
expire fuel handle_timeout q current_time = if q.curr_size == 0 then ok (q, 0, []) else do
  (q', dispatched) ← dispatch_timer fuel q current_time
  let upcall : Node → Run (TimerQueue × ℤ) = λ node.
      let call = handle_timeout q' node.handler node.arg current_time in
      if node.handler == 0 then ok (q', negsuc 0) else call
  let fired : Node → Run (TimerQueue × ℕ × List ℕ) = λ node. do
    (q'', r) ← upcall node
    let periodic : Run (TimerQueue × ℕ × List ℕ) = do
      (q3, _, _, closed) ←
          cancel fuel q'' (elim node.timer_id [ none ↦ negsuc 0 | some id ↦ pos id ]) false
      ok (q3, 1, closed)
    let once : Run (TimerQueue × ℕ × List ℕ) = do
      require (not (node.handler == 0))
      ok (q'', 1, node.handler ∷ [])
    let refused = if before zero_time node.interval then periodic else once
    if ltb_ℤ r (pos 0) then refused else ok (q'', 1, [])
  elim dispatched [ none ↦ ok (q', 0, []) | some node ↦ fired node ]

-- `calculate_timeout(max_wait_time, the_timeout)` with a `the_timeout` that is not null: what is
-- stored there and returned, none for null.
pub calculate_timeout_into : TimerQueue → TimeValue → Option TimeValue → Run (Option TimeValue)
calculate_timeout_into q cur_time max_wait_time =
    let pending : Run (Option TimeValue) = do
      p ← load q.timer_heap 0
      earliest ← deref q p
      let left = sub earliest.timer_value cur_time
      ok (
          some (
            if before cur_time earliest.timer_value
            then elim max_wait_time [
              | none ↦ left
              | some longest ↦ if not (before left longest) then longest else left
            ]
            else zero_time))
    in if q.curr_size == 0 then ok max_wait_time else pending
