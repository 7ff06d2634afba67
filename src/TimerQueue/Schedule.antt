-- ===== src/TimerQueue/Schedule.antt =====
-- ndk/timer_queue.cpp: schedule_i.
use cute_ndk.Base.{
  ℕ, ◌+◌, ◌≤◌, ◌<◌, ◌≡◌, ◌≢◌, ◌↔◌, ◌⊎◌, inl, inr, refl, sym, ap, ◌∙◌, Bool-cases, false, leb, ltb,
  ◌==◌, if◌then◌else◌, none, some, arith, Returns, returns, Returns-bind,
}
use mathlib.Core.Path.{subst}
use cute_ndk.Base.Array.{upd, upd_self, upd_ne}
use cute_ndk.Base.Int.{ℤ, pos}
use cute_ndk.Base.Pigeonhole.{pigeonhole}
use cute_ndk.TimeValue.{TimeValue}
use cute_ndk.TimerQueue.{TimerQueue, Node, general_timer, set_node}
use cute_ndk.TimerQueue.Calls.{schedule_i}
use cute_ndk.TimerQueue.Ready.{key}
use cute_ndk.TimerQueue.Arrays.{Arrays, Holds}
use cute_ndk.TimerQueue.Insert.{Inserted, Arriving, Fits, Grows, insert-Inserted}
use cute_ndk.TimerQueue.Ids.{Fresh, alloc_timerid-Fresh}
use cute_ndk.TimerQueue.Memory.{
  Memory, Loose, Allocated, Arrays-nodes, with_memory, alloc_node-Allocated,
}
use cute_ndk.TimerQueue.Valid.{IsValid, Inserted-IsValid}

-- The id that alloc_timerid has given out is exempt until its timer is in the heap.
given-Arrays :
    (q : TimerQueue) (v : Arrays none q) (j : ℕ)
    → Fresh q v j
    → Arrays (some j) (record q { min_timer_id = q.min_timer_id + 1 })
given-Arrays q v j f = record {
  least = v.least;
  room = v.room;
  capped = v.capped;
  ids_cap = v.ids_cap;
  timers = v.timers;
  general = v.general;
  low = v.low;
  heap = v.heap;
  placed = v.placed;
  live = λ l s h a e. v.live l s h (ground arith) e;
  used = λ l h a. ground (arith, v.used l, v.used j, f.lowest l, f.free);
}

-- The id is no timer's.
unused :
    (q : TimerQueue) (v : Arrays none q) (j c : ℕ)
    → Fresh q v j
    → c < q.curr_size
    → key q (q.timer_heap.at c) ≢ j
unused q v j c f h e = ground (arith, v.placed c h, f.free)

-- Where only one place is left, the ids of the timers are all below the new one.
next_id :
    (q : TimerQueue) (v : Arrays none q) (j : ℕ)
    → Fresh q v j
    → q.curr_size + 1 ≡ q.timer_heap.cap
    → j ≡ q.curr_size
next_id q v j f full = elim (Bool-cases (ltb j q.curr_size)) [
  | inl less ↦ absurd (
      pigeonhole q.curr_size (λ c. if c == q.curr_size then j else key q (q.timer_heap.at c))
        (λ c h. ground (arith, v.low c))
        (λ c d h k. ground (arith, unused q v j c f, v.placed c, v.placed d)))
  | inr not_less ↦ ground (arith, f.bound)
]

-- What schedule_i returns: the queue is valid and has exactly one timer more, a node that was not
-- in use with the data of the call, under an id that was free; the other timers are as they were.
pub record Scheduled (q : TimerQueue) (handler arg : ℕ) (time interval : TimeValue)
    (r : TimerQueue × ℤ) : Type 0 where
  pub id : ℕ
  pub node : ℕ
  pub result : r.1 ≡ pos id
  pub valid : IsValid r.0
  pub size : r.0.curr_size ≡ q.curr_size + 1
  pub free_id : q.timer_ids.at id ≡ none
  pub lowest : (j : ℕ) → j < id → q.timer_ids.at j ≢ none
  pub new : ¬ Holds q node
  pub items : (x : ℕ) → Holds r.0 x ↔ (Holds q x ⊎ (x ≡ node))
  pub contents : r.0.nodes node ≡ record {
    timer_id = some id;
    type = general_timer;
    handler = handler;
    arg = arg;
    timer_value = time;
    interval = interval;
    prev = 0;
    next = 0;
  }
  pub others : (x : ℕ) → Holds q x → r.0.nodes x ≡ q.nodes x
  pub crontab : r.0.crontab_timers ≡ q.crontab_timers

module _ (q : TimerQueue) (handler arg : ℕ) (time interval : TimeValue) (v : IsValid q)
    (more : q.curr_size + 2 ≤ q.max_size) where
  module _ (nodes : ℕ → Node) (fresh free p : ℕ) (a : Allocated q nodes fresh free p) where
    abbrev allocated : TimerQueue
    allocated = with_memory q nodes fresh free

    allocated-Arrays : Arrays none allocated
    allocated-Arrays =
        Arrays-nodes none q nodes fresh free
          (λ c h. a.others (q.timer_heap.at c) (a.loose.no_timer c h)) v.arrays

    module _ (j : ℕ) (f : Fresh allocated allocated-Arrays j) where
      abbrev new_node : Node
      new_node = record {
        timer_id = some j;
        type = general_timer;
        handler = handler;
        arg = arg;
        timer_value = time;
        interval = interval;
        prev = 0;
        next = 0;
      }

      -- The queue that insert is called on.
      abbrev ready : TimerQueue
      ready = set_node (record allocated { min_timer_id = q.min_timer_id + 1 }) p new_node

      unchanged :
          (c : ℕ)
          → c < q.curr_size
          → upd nodes p new_node (q.timer_heap.at c) ≡ nodes (q.timer_heap.at c)
      unchanged c h =
          upd_ne nodes p (q.timer_heap.at c) new_node (λ e. a.loose.no_timer c h (sym e))

      own_key : key ready p ≡ j
      own_key = ground arith

      ready-Arriving : Arriving ready p
      ready-Arriving = record {
        arrays =
            subst (λ k. Arrays (some k) ready) (sym own_key)
              (Arrays-nodes (some j) (record allocated { min_timer_id = q.min_timer_id + 1 })
                (upd nodes p new_node) fresh free unchanged
                (given-Arrays allocated allocated-Arrays j f));
        timer = record {
          real = a.loose.real;
          has_id = ground arith;
          small = omega (arith, own_key, f.bound, more);
          fits = omega (arith, own_key, f.bound, v.arrays.room, v.arrays.ids_cap);
        };
        type = ground arith;
        apart = λ c h.
            ground (arith, unused allocated allocated-Arrays j c f h, unchanged c h, own_key);
      }

      ready-room : Fits ready p ⊎ Grows ready p
      ready-room = elim (Bool-cases (ltb (q.curr_size + 1) q.timer_heap.cap)) [
        | inl roomy ↦ inl (record { place = ground arith; id = ground (arith, own_key, f.bound) })
        | inr tight ↦
            let full : q.curr_size + 1 ≡ q.timer_heap.cap = ground (arith, v.arrays.room) in
            inr (record {
              full = full;
              allowed = more;
              next_id = omega (arith, own_key, next_id allocated allocated-Arrays j f full);
              lowest =
                  λ l h. f.lowest l (omega (arith, next_id allocated allocated-Arrays j f full));
            })
      ]

      ready-Loose : (m : Memory ready) × Loose ready m p
      ready-Loose = (
        record {
          len = a.memory.len;
          at = a.memory.at;
          start = a.memory.start;
          empty = a.memory.empty;
          real = a.memory.real;
          step = λ k h. ground (arith, a.memory.step k h, a.loose.not_free k);
          last = λ k h. ground (arith, a.memory.last k h, a.loose.not_free k);
          apart = a.memory.apart;
          free_old = a.memory.free_old;
          outside = a.memory.outside;
          old = a.memory.old;
          first = a.memory.first;
        },
        record {
          real = a.loose.real;
          allocated = a.loose.allocated;
          not_free = a.loose.not_free;
          no_timer = a.loose.no_timer;
        },
      )

      Inserted-Scheduled :
          (q' : TimerQueue)
          → Inserted ready p q'
          → Scheduled q handler arg time interval (q', pos j)
      Inserted-Scheduled q' s = record {
        id = j;
        node = p;
        result = refl;
        valid = Inserted-IsValid ready p q' ready-Loose.0 ready-Loose.1 s;
        size = s.size;
        free_id = f.free;
        lowest = f.lowest;
        new = λ (c, h, e). a.loose.no_timer c h e;
        items = s.items;
        contents = ap (λ x. x.nodes p) s.rest ∙ upd_self nodes p new_node;
        others = λ x (c, h, e).
            ap (λ y. y.nodes x) s.rest
            ∙ upd_ne nodes p x new_node (λ z. a.loose.no_timer c h (e ∙ sym z))
            ∙ a.others x (λ z. a.loose.no_timer c h (e ∙ z));
        crontab = ap (λ y. y.crontab_timers) s.rest;
      }

  -- schedule_i on a valid queue that is at least two timers below its maximum adds exactly one
  -- timer with the data of the call, under the lowest id that is free, and returns that id; the
  -- queue stays valid.
  pub schedule_i_correct :
      Returns (Scheduled q handler arg time interval) (schedule_i q handler arg time interval)
  unfolding schedule_i
  schedule_i_correct =
      let (nodes, fresh, free, p, a) = alloc_node-Allocated q v.memory in
      let (j, f) =
        alloc_timerid-Fresh (with_memory q nodes fresh free)
          (allocated-Arrays nodes fresh free p a) in
      let full : leb q.max_size q.curr_size ≡ false = ground (arith, more) in
      let real : (p == 0) ≡ false = ground (arith, a.loose.real) in
      rw (full, a.result, real, f.result)
        (Returns-bind
          (insert-Inserted (ready nodes fresh free p a j f) p
            (ready-Arriving nodes fresh free p a j f) (ready-room nodes fresh free p a j f))
          λ q' s. returns (Inserted-Scheduled nodes fresh free p a j f q' s))
