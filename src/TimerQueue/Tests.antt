-- ===== src/TimerQueue/Tests.antt =====
-- ndk/timer_queue.cpp: a queue with one timer, and the properties at it.
use cute_ndk.Base.{
  ◌+◌, ◌≤◌, Option, ◌≡◌, refl, false, ok, none, some, ◌==◌, if◌then◌else◌, arith, Returns,
  Returns-inv,
}
use cute_ndk.Base.Int.{ℤ, pos}
use cute_ndk.TimeValue.{TimeValue}
use cute_ndk.TimeValue.Normal.{InRange}
use cute_ndk.TimerQueue.{TimerQueue, Node, general_timer}
use cute_ndk.TimerQueue.Nodes.{blank, init}
use cute_ndk.TimerQueue.Calls.{schedule_i, cancel, dispatch_timer}
use cute_ndk.TimerQueue.Valid.{IsValid}
use cute_ndk.TimerQueue.Schedule.{Scheduled, schedule_i_correct}
use cute_ndk.TimerQueue.Cancel.{CancelledTimer, cancel_correct}
use cute_ndk.TimerQueue.Expiry.{Dispatched, dispatch_correct}
use cute_ndk.TimerQueue.Start.{Started, init-Started}
use cute_ndk.TimerQueue.Reach.{
  IsTime, Reach, Sound, started, scheduled, dispatched, dispatches, Reach-Sound,
}

abbrev noon : TimeValue
noon = record { sec = pos 43_200; usec = pos 0 }

abbrev later : TimeValue
later = record { sec = pos 43_202; usec = pos 500_000 }

abbrev second : TimeValue
second = record { sec = pos 1; usec = pos 0 }

abbrev node : Node
node = record {
  timer_id = some 0;
  type = general_timer;
  handler = 70;
  arg = 80;
  timer_value = noon;
  interval = second;
  prev = 0;
  next = 0;
}

-- The timer at address 1, and a free node at address 2.
abbrev sample : TimerQueue
sample = record {
  max_size = 10;
  curr_size = 1;
  timer_heap = record { cap = 4; at = λ i. if i == 0 then 1 else 0 };
  timer_ids = record { cap = 4; at = λ i. if i == 0 then some 0 else none };
  min_timer_id = 1;
  free_timer_nodes = 2;
  free_crontab_timers = 0;
  crontab_timers = 0;
  nodes = λ p. if p == 1 then node else blank;
  fresh = 3;
}

sample-IsValid : IsValid sample
sample-IsValid = record {
  arrays = record {
    least = omega arith;
    room = omega arith;
    capped = omega arith;
    ids_cap = refl;
    timers = λ c h. record {
      real = ground arith;
      has_id = ground arith;
      small = ground arith;
      fits = ground arith;
    };
    general = λ c h. ground arith;
    low = λ c h. ground arith;
    heap = λ c h k. absurd (omega arith);
    placed = λ c h. ground arith;
    live = λ j s h a e. ground arith;
    used = λ j h a. ground arith;
  };
  memory = record {
    len = 1;
    at = λ _. 2;
    start = λ _. refl;
    empty = λ h. absurd (omega arith);
    real = λ k h. omega arith;
    step = λ k h. absurd (omega arith);
    last = λ k h. refl;
    apart = λ j k h l. absurd (omega arith);
    free_old = λ k h. omega arith;
    outside = λ k c h l. ground arith;
    old = λ c h. ground arith;
    first = omega arith;
  };
}

schedule_i_correct_example :
    Returns (Scheduled sample 71 81 later second) (schedule_i sample 71 81 later second)
schedule_i_correct_example =
    schedule_i_correct sample 71 81 later second sample-IsValid (omega arith)

cancel_correct_example : Returns (CancelledTimer sample 0 1 false) (cancel 1 sample (pos 0) false)
cancel_correct_example = cancel_correct sample sample-IsValid 0 0 (omega arith) refl 0 false refl

second-InRange : InRange second
second-InRange = record { below = omega arith; above = omega arith; aligned = λ h. refl }

later-InRange : InRange later
later-InRange = record { below = omega arith; above = omega arith; aligned = λ h. refl }

dispatch_correct_example : Returns (Dispatched sample later) (dispatch_timer 2_500_001 sample later)
dispatch_correct_example =
    dispatch_correct sample sample-IsValid (omega arith) later 2_500_001 later-InRange (omega arith)
      (omega arith) second-InRange (omega arith) (omega arith)

second-IsTime : IsTime second
second-IsTime = record { range = second-InRange; positive = omega arith }

later-IsTime : IsTime later
later-IsTime = record { range = later-InRange; positive = omega arith }

-- A new queue, with one timer, which is then dispatched.
new_queue : (q : TimerQueue) × (init 10 4 ≡ ok q) × Started 10 q
new_queue = Returns-inv (init-Started 10 4 (omega arith) (omega arith))

room_for_one : new_queue.0.curr_size + 2 ≤ new_queue.0.max_size
room_for_one = omega (arith, new_queue.2.empty, new_queue.2.maximum)

one_timer :
    (r : TimerQueue × ℤ) × (schedule_i new_queue.0 71 81 second second ≡ ok r)
    × Scheduled new_queue.0 71 81 second second r
one_timer =
    Returns-inv (schedule_i_correct new_queue.0 71 81 second second new_queue.2.valid room_for_one)

one_timer-Reach : Reach one_timer.0.0
one_timer-Reach =
    scheduled 71 81 second second one_timer.0.1
      (started 10 4 (omega arith) (omega arith) new_queue.1) room_for_one second-IsTime
      second-IsTime one_timer.1

fired_queue :
    (r : TimerQueue × Option Node) × (dispatch_timer 50_000_000_000 one_timer.0.0 later ≡ ok r)
    × Dispatched one_timer.0.0 later r
fired_queue = Returns-inv (
    dispatches one_timer.0.0 (Reach-Sound one_timer-Reach) (omega (arith, one_timer.2.size)) later
      50_000_000_000 later-IsTime (omega arith))

Reach-Sound_example : Sound fired_queue.0.0
Reach-Sound_example = Reach-Sound (
    dispatched 50_000_000_000 later fired_queue.0.1 one_timer-Reach
      (omega (arith, one_timer.2.size)) later-IsTime (omega arith) fired_queue.1)
