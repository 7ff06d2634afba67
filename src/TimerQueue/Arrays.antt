-- ===== src/TimerQueue/Arrays.antt =====
-- ndk/timer_queue.cpp: the invariant of the heap of timers and of the map from their ids.
use cute_ndk.Base.{ℕ, ◌+◌, ◌≤◌, ◌<◌, ◌≡◌, ◌≢◌, Option, none, some}
use cute_ndk.Heap.Order.{IsHeap}
use cute_ndk.Heap.Places.{Has, IsPlaced}
use cute_ndk.TimerQueue.{TimerQueue, general_timer}
use cute_ndk.TimerQueue.Order.{earlier}
use cute_ndk.TimerQueue.Ready.{key, IsTimer}

-- `p` is a timer of the queue.
abbrev pub Holds : TimerQueue → ℕ → Type 0
Holds q p = Has q.curr_size q.timer_heap.at p

-- The heap is in order, the id of each timer is mapped to its place, no other id is mapped to a
-- place, and the ids below `min_timer_id` are all in use. The id `spare`, if there is one, belongs
-- to a timer that is on its way in or out, and is exempt. There is room for another timer.
pub record Arrays (spare : Option ℕ) (q : TimerQueue) : Type 0 where
  pub least : 3 ≤ q.timer_heap.cap
  pub room : q.curr_size < q.timer_heap.cap
  pub capped : q.timer_heap.cap ≤ q.max_size
  pub ids_cap : q.timer_ids.cap ≡ q.timer_heap.cap
  pub timers : (c : ℕ) → c < q.curr_size → IsTimer q (q.timer_heap.at c)
  pub general : (c : ℕ) → c < q.curr_size → (q.nodes (q.timer_heap.at c)).type ≡ general_timer
  pub low : (c : ℕ) → c < q.curr_size → key q (q.timer_heap.at c) + 1 < q.timer_heap.cap
  pub heap : IsHeap (earlier q) q.curr_size q.timer_heap.at
  pub placed : IsPlaced (key q) q.curr_size q.timer_heap.at q.timer_ids.at
  pub live :
      (j s : ℕ)
      → j < q.timer_ids.cap
      → spare ≢ some j
      → q.timer_ids.at j ≡ some s
      → (s < q.curr_size) × (key q (q.timer_heap.at s) ≡ j)
  pub used : (j : ℕ) → j < q.min_timer_id → spare ≢ some j → q.timer_ids.at j ≢ none
