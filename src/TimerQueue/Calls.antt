-- ===== src/TimerQueue/Calls.antt =====
-- ndk/timer_queue.h and ndk/timer_queue.cpp: the calls that schedule, cancel and dispatch timers. A
-- call of an event handler's handle_close is recorded as that handler.
use cute_ndk.Base.{
  ℕ, zero, suc, Bool, false, not, ◌&&◌, Option, none, some, ltb, leb, ◌==◌, if◌then◌else◌, List, [],
  ◌∷◌, Run, ok, fault, out_of_fuel, ◌>>=◌, ◌>>◌, require,
}
use cute_ndk.Base.Array.{load}
use cute_ndk.Base.Int.{ℤ, pos, negsuc}
use cute_ndk.TimeValue.{TimeValue, before, at_most, zero_time, add, sub}
use cute_ndk.TimerQueue.{TimerQueue, general_timer, Node, deref, set_node, insert, remove}
use cute_ndk.TimerQueue.Nodes.{alloc_timerid, alloc_node, free_node}

-- The id of the new timer, or -1 if the queue is full.
unfoldable pub schedule_i : TimerQueue → ℕ → ℕ → TimeValue → TimeValue → Run (TimerQueue × ℤ)
schedule_i q handler arg delay_time interval_time =
    if leb q.max_size q.curr_size then ok (q, negsuc 0) else do
      (q', node) ← alloc_node q general_timer
      require (not (node == 0))
      let (q'', found) = alloc_timerid q'
      id ← elim found [ none ↦ fault | some i ↦ ok i ]
      q3 ←
          insert
            (set_node q'' node (record {
              timer_id = some id;
              type = general_timer;
              handler = handler;
              arg = arg;
              timer_value = delay_time;
              interval = interval_time;
              prev = 0;
              next = 0;
            }))
            node
      ok (q3, pos id)

-- What cancel returns: the queue, the result, the argument of the timer if there was one, and the
-- handlers that were closed.
abbrev pub Cancelled : Type 0
Cancelled = TimerQueue × ℤ × Option ℕ × List ℕ

abbrev pub closes : Bool → ℕ → List ℕ
closes dont_call handler = if not dont_call && not (handler == 0) then handler ∷ [] else []

abbrev pub has_id : Option ℕ → ℕ → Bool
has_id none id = false
has_id (some i) id = i == id

-- The walk over the crontab timers: the one with the id, or null.
unfoldable pub find_crontab : ℕ → TimerQueue → ℕ → ℕ → Run ℕ
find_crontab zero q iter id = out_of_fuel
find_crontab (suc k) q iter id =
    let walk : Run ℕ = do
      node ← deref q iter
      let rest = find_crontab k q node.next id
      if has_id node.timer_id id then ok iter else rest
    in if iter == 0 then ok 0 else walk

-- The two pointers of a crontab timer that is not the first are taken out of the list.
unfoldable pub unlink_crontab : TimerQueue → ℕ → Run TimerQueue
unlink_crontab q iter = if q.crontab_timers == iter then ok q else do
  node ← deref q iter
  let inner : Run TimerQueue = do
    after ← deref q node.next
    let q' = set_node q node.next (record after { prev = node.prev })
    ahead ← deref q' node.prev
    ok (set_node q' node.prev (record ahead { next = node.next }))
  let front : Run TimerQueue = do
    after ← deref q node.next
    ok (record (set_node q node.next (record after { prev = 0 })) { crontab_timers = node.next })
  let back : Run TimerQueue = do
    ahead ← deref q node.prev
    ok (record (set_node q node.prev (record ahead { next = 0 })) { crontab_timers = node.next })
  q' ←
      if not (node.prev == 0) && not (node.next == 0)
      then inner
      else if node.prev == 0
      then front
      else back
  old ← deref q' iter
  ok (set_node q' iter (record old { prev = 0; next = 0 }))

unfoldable pub cancel_crontab : TimerQueue → ℕ → Bool → Run Cancelled
unfolding unlink_crontab
cancel_crontab q iter dont_call = do
  node ← deref q iter
  q' ← unlink_crontab q iter
  q'' ← free_node q' iter
  ok (q'', pos 0, some node.arg, closes dont_call node.handler)

unfoldable pub cancel_timer : TimerQueue → ℕ → Bool → Run Cancelled
cancel_timer q id dont_call = do
  place ← load q.timer_ids id
  slot ← elim place [ none ↦ fault | some s ↦ ok s ]
  p ← load q.timer_heap slot
  node ← deref q p
  require (has_id node.timer_id id)
  (q', temp) ← remove q slot
  gone ← deref q' temp
  q'' ← free_node q' temp
  ok (q'', pos 0, some gone.arg, closes dont_call gone.handler)

-- `cancel(timer_id, arg, dont_call)`. The fuel bounds the number of crontab timers.
unfoldable pub cancel : ℕ → TimerQueue → ℤ → Bool → Run Cancelled
unfolding find_crontab cancel_crontab cancel_timer
cancel fuel q (negsuc n) dont_call = ok (q, negsuc 0, none, [])
cancel fuel q (pos id) dont_call = if leb q.timer_ids.cap id then ok (q, negsuc 0, none, []) else do
  iter ← find_crontab fuel q q.crontab_timers id
  if iter == 0 then cancel_timer q id dont_call else cancel_crontab q iter dont_call

-- `reset_interval`, which tests the id against `max_size_`.
unfoldable pub reset_interval : TimerQueue → ℤ → TimeValue → Run (TimerQueue × ℤ)
reset_interval q (negsuc n) interval = ok (q, negsuc 0)
reset_interval q (pos id) interval = if ltb q.max_size id then ok (q, negsuc 0) else do
  place ← load q.timer_ids id
  let found : ℕ → Run (TimerQueue × ℤ) = λ slot. do
    p ← load q.timer_heap slot
    node ← deref q p
    require (has_id node.timer_id id)
    ok (set_node q p (record node { interval = interval }), pos 0)
  elim place [ none ↦ ok (q, negsuc 0) | some slot ↦ found slot ]

-- The loop that adds the interval until the time lies behind `current_time`.
unfoldable pub skip_past : ℕ → TimeValue → TimeValue → TimeValue → Run TimeValue
skip_past zero t interval current_time = out_of_fuel
skip_past (suc k) t interval current_time =
    let rest = skip_past k (add t interval) interval current_time in
    if at_most (add t interval) current_time then rest else ok (add t interval)

-- The timer that was dispatched, as it stood, if one was due. The test of remove_first comes only
-- once the first timer was looked at.
unfoldable pub dispatch_timer : ℕ → TimerQueue → TimeValue → Run (TimerQueue × Option Node)
dispatch_timer fuel q current_time = do
  p ← load q.timer_heap 0
  earliest ← deref q p
  let due : Run (TimerQueue × Option Node) = do
    (q', expired) ← remove q 0
    node ← deref q' expired
    let periodic : Run TimerQueue = do
      later ← skip_past fuel node.timer_value node.interval current_time
      insert (set_node q' expired (record node { timer_value = later })) expired
    q'' ← if before zero_time node.interval then periodic else free_node q' expired
    ok (q'', some node)
  let remove_first = if q.curr_size == 0 then ok (q, none) else due
  if at_most earliest.timer_value current_time then remove_first else ok (q, none)

-- `calculate_timeout`, at the time `cur_time`: how long to wait at most, none for ever.
unfoldable pub calculate_timeout :
    TimerQueue → TimeValue → Option TimeValue → Run (Option TimeValue)
calculate_timeout q cur_time max_wait_time = if q.curr_size == 0 then ok max_wait_time else do
  p ← load q.timer_heap 0
  earliest ← deref q p
  let left = sub earliest.timer_value cur_time
  ok (
      if before cur_time earliest.timer_value
      then elim max_wait_time [
        | none ↦ some left
        | some longest ↦ if before left longest then some left else some longest
      ]
      else some zero_time)
