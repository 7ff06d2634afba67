-- ===== src/TimerQueue/Insert.antt =====
-- ndk/timer_queue.cpp: insert and grow_heap.
use cute_ndk.Base.{
  ℕ, ◌+◌, ◌≤◌, ◌<◌, ◌≡◌, ◌≢◌, ◌↔◌, ◌⊎◌, inl, inr, refl, sym, leb, ok, none, some, arith, Returns,
  returns, Returns-bind, Returns-map, false, true, le→leb, ltb, if◌then◌else◌,
}
use mathlib.Core.Path.{subst}
use native.Mathlib.Decide.{ℕ_discrete}
use cute_ndk.Base.Array.{upd}
use cute_ndk.Heap.Order.{UpInv}
use cute_ndk.Heap.Places.{Has, Has-grow}
use cute_ndk.TimerQueue.{
  TimerQueue, general_timer, insert, insert_timer, grow_heap, new_size, heap_parent, reheap_up,
}
use cute_ndk.TimerQueue.Order.{earlier}
use cute_ndk.TimerQueue.Ready.{key, IsNode, IsTimer, Ready, Sifted, with_cells, deref-ok}
use cute_ndk.TimerQueue.Up.{reheap_up-Sifted}
use cute_ndk.TimerQueue.Arrays.{Arrays, Holds}

-- A timer on its way into the queue.
pub record Arriving (q : TimerQueue) (p : ℕ) : Type 0 where
  pub arrays : Arrays (some (key q p)) q
  pub timer : IsTimer q p
  pub type : (q.nodes p).type ≡ general_timer
  pub apart : (c : ℕ) → c < q.curr_size → key q (q.timer_heap.at c) ≢ key q p

-- A place and an id for it that leave room for another.
pub record Fits (q : TimerQueue) (p : ℕ) : Type 0 where
  pub place : q.curr_size + 1 < q.timer_heap.cap
  pub id : key q p + 1 < q.timer_heap.cap

-- The heap has to grow: it is full but for one place, and the ids of its timers are the lowest.
pub record Grows (q : TimerQueue) (p : ℕ) : Type 0 where
  pub full : q.curr_size + 1 ≡ q.timer_heap.cap
  pub allowed : q.curr_size + 2 ≤ q.max_size
  pub next_id : key q p ≡ q.curr_size
  pub lowest : (j : ℕ) → j < q.curr_size → q.timer_ids.at j ≢ none

-- The queue with one timer more, and nothing else changed but the two arrays and where the search
-- for an id starts.
pub record Inserted (q : TimerQueue) (p : ℕ) (q' : TimerQueue) : Type 0 where
  pub arrays : Arrays none q'
  pub size : q'.curr_size ≡ q.curr_size + 1
  pub items : (x : ℕ) → Holds q' x ↔ (Holds q x ⊎ (x ≡ p))
  pub rest : q' ≡ record q {
    curr_size = q'.curr_size;
    timer_heap = q'.timer_heap;
    timer_ids = q'.timer_ids;
    min_timer_id = q'.min_timer_id;
  }

module _ (q : TimerQueue) (p : ℕ) (a : Arriving q p) where
  arriving-Ready : q.curr_size < q.timer_heap.cap → Ready (q.curr_size + 1) q q.curr_size p
  arriving-Ready h = record {
    room = omega arith;
    inside = omega arith;
    moved = a.timer;
    others = λ c s t. a.arrays.timers c (omega arith);
    hole = record {
      placed = λ c s t. ground (arith, a.arrays.placed c);
      own = λ c s t. ground (arith, a.apart c);
    };
  }

  arriving-UpInv :
      UpInv (earlier q) (q.curr_size + 1) (upd q.timer_heap.at q.curr_size p) q.curr_size
  arriving-UpInv = record {
    edges = λ c h k e. ground (arith, a.arrays.heap c);
    bridged = λ c h k e s. absurd (omega arith);
  }

  module _ (f : Fits q p) (q' : TimerQueue) (s : Sifted (q.curr_size + 1) q q.curr_size p q') where
    -- Where the new timer and the old ones stand.
    arrived : Has (q.curr_size + 1) s.slots p
    arrived = (s.same p).1 (q.curr_size, omega arith, ground arith)

    kept_place : (c : ℕ) → c < q.curr_size → Has (q.curr_size + 1) s.slots (q.timer_heap.at c)
    kept_place c h = (s.same (q.timer_heap.at c)).1 (c, omega arith, ground arith)

    came_from :
        (c : ℕ)
        → c < q.curr_size + 1
        → (s.slots c ≡ p) ⊎ Has q.curr_size q.timer_heap.at (s.slots c)
    came_from c h =
        elim ((Has-grow q.curr_size q.timer_heap.at p (s.slots c)).0
          ((s.same (s.slots c)).0 (c, h, refl))) [ inl old ↦ inr old | inr new ↦ inl new ]

    -- An id that is mapped to a place is that of the timer there.
    settled_live :
        (j t : ℕ)
        → j < q.timer_ids.cap
        → s.index j ≡ some t
        → (t < q.curr_size + 1) × (key q (s.slots t) ≡ j)
    settled_live j t h e = elim (s.kept j) [
      | inl (c, u, x) ↦ ground (arith, s.placed c u)
      | inr old ↦ elim (ℕ_discrete j (key q p)) [
        | yes x ↦ let (d, u, y) = arrived in ground (arith, s.placed d u)
        | no x ↦
            let (u, y) = a.arrays.live j t h (ground arith) (ground arith) in
            let (d, w, z) = kept_place t u in ground (arith, s.placed d w)
      ]
    ]

    settled_used : (j : ℕ) → j < q.min_timer_id → s.index j ≢ none
    settled_used j h e = elim (s.kept j) [
      | inl (c, u, x) ↦ ground (arith, s.placed c u)
      | inr old ↦ elim (ℕ_discrete j (key q p)) [
        | yes x ↦ let (d, u, y) = arrived in ground (arith, s.placed d u)
        | no x ↦ a.arrays.used j h (ground arith) (ground arith)
      ]
    ]

    abbrev settled : TimerQueue
    settled = record (with_cells q s.slots s.index) { curr_size = q.curr_size + 1 }

    settled-Inserted : Inserted q p settled
    settled-Inserted = record {
      arrays = record {
        least = a.arrays.least;
        room = f.place;
        capped = a.arrays.capped;
        ids_cap = a.arrays.ids_cap;
        timers = λ c h. elim (came_from c h) [
          | inl e ↦ ground (arith, a.timer, e)
          | inr (d, u, e) ↦ ground (arith, a.arrays.timers d u, e)
        ];
        general = λ c h. elim (came_from c h) [
          | inl e ↦ ground (arith, a.type, e)
          | inr (d, u, e) ↦ ground (arith, a.arrays.general d u, e)
        ];
        low = λ c h. elim (came_from c h) [
          | inl e ↦ ground (arith, f.id, e)
          | inr (d, u, e) ↦ ground (arith, a.arrays.low d u, e)
        ];
        heap = s.heap;
        placed = s.placed;
        live = λ j t h _ e. settled_live j t h e;
        used = λ j h _. settled_used j h;
      };
      size = refl;
      items = λ x. (
        λ h. (Has-grow q.curr_size q.timer_heap.at p x).0 ((s.same x).0 h),
        λ h. (s.same x).1 ((Has-grow q.curr_size q.timer_heap.at p x).1 h),
      );
      rest = refl;
    }

  pub climb-Inserted :
      Fits q p
      → Returns
          (λ q'. Inserted q p (record q' { curr_size = q'.curr_size + 1 }))
          (reheap_up (q.curr_size + 1) q p q.curr_size (heap_parent q.curr_size))
  climb-Inserted f =
      Returns-map
        (reheap_up-Sifted (q.curr_size + 1) (q.curr_size + 1) q q.curr_size p (omega arith)
          (arriving-Ready a.arrays.room) arriving-UpInv)
        λ q' s.
          subst (λ x. Inserted q p (record x { curr_size = x.curr_size + 1 })) (sym s.result)
            (settled-Inserted f q' s)

pub insert-general :
    (q : TimerQueue) (p : ℕ)
    → IsTimer q p
    → (q.nodes p).type ≡ general_timer
    → insert q p ≡ insert_timer q p
unfolding insert
insert-general q p t e = rw (deref-ok q p t.real, e) refl

-- Without growth.
insert-Fits :
    (q : TimerQueue) (p : ℕ) → Arriving q p → Fits q p → Returns (Inserted q p) (insert_timer q p)
unfolding insert_timer
insert-Fits q p a f =
    let small : leb q.timer_heap.cap (q.curr_size + 1) ≡ false = ground (arith, f.place) in
    rw small (Returns-bind (climb-Inserted q p a f) λ q' s. returns s)

with_cap :
    (q : TimerQueue) (p cap : ℕ) → IsTimer q p → key q p < cap → IsNode q.nodes q.max_size cap p
with_cap q p cap t h = record { real = t.real; has_id = t.has_id; small = t.small; fits = h }

abbrev grown : TimerQueue → TimerQueue
grown q = record q {
  timer_heap = record {
    cap = new_size q;
    at = λ i. if ltb i q.curr_size then q.timer_heap.at i else 0;
  };
  timer_ids = record {
    cap = new_size q;
    at = λ i. if ltb i q.curr_size then q.timer_ids.at i else none;
  };
  min_timer_id = q.curr_size;
}

module _ (q : TimerQueue) (p : ℕ) (a : Arriving q p) (g : Grows q p) where
  larger : q.curr_size + 2 ≤ new_size q
  larger = ground (arith, g.full, g.allowed, a.arrays.least)

  grow_heap-ok : grow_heap q ≡ ok (grown q)
  unfolding grow_heap
  grow_heap-ok =
      rw
        (
          le→leb q.curr_size (new_size q) (omega (arith, larger)),
          le→leb q.curr_size q.timer_heap.cap (omega (arith, a.arrays.room)),
          le→leb q.curr_size q.timer_ids.cap (omega (arith, a.arrays.room, a.arrays.ids_cap)),
        )
        refl

  grown-Arriving : Arriving (grown q) p
  grown-Arriving = record {
    arrays = record {
      least = omega (arith, larger, a.arrays.least, g.full);
      room = omega (arith, larger);
      capped = ground arith;
      ids_cap = refl;
      timers = λ c h.
          let fact = a.arrays.timers c h in
          let there =
            with_cap q _ (new_size q) fact (omega (arith, larger, a.arrays.low c h, g.full)) in
          ground (arith, there);
      general = λ c h. ground (arith, a.arrays.general c h);
      low = λ c h. ground (arith, a.arrays.low c, larger, g.full);
      heap = λ c h k. ground (arith, a.arrays.heap c h k);
      placed = λ c h. ground (arith, a.arrays.placed c, a.arrays.low c, g.full);
      live = λ j s h n e. ground (arith, a.arrays.live j s, a.arrays.ids_cap, g.full);
      used = λ j h n. ground (arith, g.lowest j);
    };
    timer = with_cap q p (new_size q) a.timer (omega (arith, larger, g.next_id));
    type = a.type;
    apart = λ c h. ground (arith, a.apart c);
  }

  insert-Grows : Returns (Inserted q p) (insert_timer q p)
  unfolding insert_timer
  insert-Grows =
      let full : leb q.timer_heap.cap (q.curr_size + 1) ≡ true = ground (arith, g.full) in
      rw (full, grow_heap-ok)
        (Returns-bind
          (climb-Inserted (grown q) p grown-Arriving
            (record { place = omega (arith, larger); id = omega (arith, larger, g.next_id) }))
          λ q' s. returns (record {
            arrays = s.arrays;
            size = s.size;
            items = λ x. (
              λ h. elim ((s.items x).0 h) [
                | inl (c, u, e) ↦ inl (c, u, ground arith)
                | inr e ↦ inr e
              ],
              λ h.
                  (s.items x).1
                    (elim h [ inl (c, u, e) ↦ inl (c, u, ground arith) | inr e ↦ inr e ]),
            );
            rest = s.rest;
          }))

-- insert adds exactly the timer, grown or not.
pub insert-Inserted :
    (q : TimerQueue) (p : ℕ)
    → Arriving q p
    → Fits q p ⊎ Grows q p
    → Returns (Inserted q p) (insert q p)
insert-Inserted q p a (inl f) = rw (insert-general q p a.timer a.type) (insert-Fits q p a f)
insert-Inserted q p a (inr g) = rw (insert-general q p a.timer a.type) (insert-Grows q p a g)
