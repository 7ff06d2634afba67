-- ===== src/TimerQueue/Valid.antt =====
-- ndk/timer_queue.cpp: the invariant of the queue, and what insert and remove do to its memory.
use cute_ndk.Base.{ℕ, ◌<◌, ◌≢◌, refl, sym, inl, inr, none, arith}
use mathlib.Core.Path.{subst}
use cute_ndk.TimerQueue.{TimerQueue}
use cute_ndk.TimerQueue.Arrays.{Arrays}
use cute_ndk.TimerQueue.Insert.{Inserted}
use cute_ndk.TimerQueue.Remove.{Removed}
use cute_ndk.TimerQueue.Memory.{Memory, Loose}

pub record IsValid (q : TimerQueue) : Type 0 where
  pub arrays : Arrays none q
  pub memory : Memory q

-- The queue with other arrays.
abbrev rearranged : TimerQueue → TimerQueue → TimerQueue
rearranged q q' = record q {
  curr_size = q'.curr_size;
  timer_heap = q'.timer_heap;
  timer_ids = q'.timer_ids;
  min_timer_id = q'.min_timer_id;
}

-- The memory of a queue whose timers are all among those of another, or are loose in it.
rearranged-Memory :
    (q q' : TimerQueue) (m : Memory q)
    → ((c : ℕ)
        → c < q'.curr_size
        → ((k : ℕ) → k < m.len → m.at k ≢ q'.timer_heap.at c) × (q'.timer_heap.at c < q.fresh))
    → Memory (rearranged q q')
rearranged-Memory q q' m timer = record {
  len = m.len;
  at = m.at;
  start = m.start;
  empty = m.empty;
  real = m.real;
  step = m.step;
  last = m.last;
  apart = m.apart;
  free_old = m.free_old;
  outside = λ k c h l. (timer c l).0 k h;
  old = λ c h. (timer c h).1;
  first = m.first;
}

pub Inserted-IsValid :
    (q : TimerQueue) (p : ℕ) (q' : TimerQueue) (m : Memory q)
    → Loose q m p
    → Inserted q p q'
    → IsValid q'
Inserted-IsValid q p q' m l s = record {
  arrays = s.arrays;
  memory = subst Memory (sym s.rest) (
      rearranged-Memory q q' m λ c h. elim ((s.items (q'.timer_heap.at c)).0 (c, h, refl)) [
        | inl (d, u, e) ↦
            (λ k i. ground (arith, m.outside k d i u, e), ground (arith, m.old d u, e))
        | inr e ↦ (λ k i. ground (arith, l.not_free k i, e), ground (arith, l.allocated, e))
      ]);
}

-- The node that is taken out is loose.
pub Removed-Loose :
    (q : TimerQueue) (i : ℕ) (q' : TimerQueue) (v : IsValid q)
    → i < q.curr_size
    → Removed q (q.timer_heap.at i) q'
    → (m : Memory q') × Loose q' m (q.timer_heap.at i)
unfolding rearranged-Memory
Removed-Loose q i q' v h s =
    let p = q.timer_heap.at i in
    let m = v.memory in
    subst (λ x. (m : Memory x) × Loose x m p) (sym s.rest)
      (
        rearranged-Memory q q' m (λ c h.
            let (d, u, e) = ((s.items (q'.timer_heap.at c)).0 (c, h, refl)).0 in
            (λ k i. ground (arith, m.outside k d i u, e), ground (arith, m.old d u, e))),
        record {
          real = (v.arrays.timers i h).real;
          allocated = m.old i h;
          not_free = λ k l. m.outside k i l h;
          no_timer = λ c l. ((s.items (q'.timer_heap.at c)).0 (c, l, refl)).1;
        },
      )
