-- ===== src/TimerQueue/Remove.antt =====
-- ndk/timer_queue.cpp: remove.
use cute_ndk.Base.{
  ℕ, ◌+◌, ◌-◌, ◌<◌, ◌≡◌, ◌≢◌, ◌↔◌, inl, inr, refl, sym, ap, true, false, none, some, ltb, ltb→lt,
  arith, Returns, returns, Returns-bind, Returns-if, Returns-map,
}
use mathlib.Core.Path.{subst}
use native.Mathlib.Decide.{ℕ_discrete}
use cute_ndk.Base.Array.{upd, load-ok}
use cute_ndk.Heap.Order.{parent, UpInv, DownInv, irrefl}
use cute_ndk.Heap.Places.{Has, IsPlaced-injective}
use cute_ndk.TimerQueue.{TimerQueue, refill, remove}
use cute_ndk.TimeValue.{at_most}
use cute_ndk.TimerQueue.Order.{earlier, earlier-IsOrder, at_most-before}
use cute_ndk.TimerQueue.Ready.{key, Ready, Sifted, with_cells, copied, copy-ok, deref-ok}
use cute_ndk.TimerQueue.Up.{reheap_up-Sifted}
use cute_ndk.TimerQueue.Down.{reheap_down-Sifted}
use cute_ndk.TimerQueue.Arrays.{Arrays, Holds}

-- The queue with one timer less; its id is still mapped.
pub record Removed (q : TimerQueue) (p : ℕ) (q' : TimerQueue) : Type 0 where
  pub arrays : Arrays (some (key q p)) q'
  pub size : q'.curr_size + 1 ≡ q.curr_size
  pub cap : q'.timer_heap.cap ≡ q.timer_heap.cap
  pub items : (x : ℕ) → Holds q' x ↔ (Holds q x × (x ≢ p))
  pub rest : q' ≡ record q {
    curr_size = q'.curr_size;
    timer_heap = q'.timer_heap;
    timer_ids = q'.timer_ids;
    min_timer_id = q'.min_timer_id;
  }

module _ (q : TimerQueue) (i : ℕ) (v : Arrays none q) (p : i < q.curr_size) where
  abbrev n : ℕ
  n = q.curr_size - 1

  abbrev slots : ℕ → ℕ
  slots = q.timer_heap.at

  abbrev last : ℕ
  last = slots n

  -- The queue without its last place, whose timer goes to the place `i`.
  abbrev rest : TimerQueue
  rest = record q { curr_size = q.curr_size - 1 }

  abbrev refilled : TimerQueue
  refilled = copied rest i last

  apart : (c d : ℕ) → c < q.curr_size → d < q.curr_size → c ≢ d → key q (slots c) ≢ key q (slots d)
  apart = IsPlaced-injective (key q) q.curr_size slots q.timer_ids.at v.placed

  distinct : (c d : ℕ) → c < q.curr_size → d < q.curr_size → c ≢ d → slots c ≢ slots d
  distinct c d s t e x = apart c d s t e (ap (key q) x)

  refilled-Ready : i < n → Ready n refilled i last
  refilled-Ready l = record {
    room = omega (arith, v.room);
    inside = l;
    moved = v.timers n (omega arith);
    others = λ c s t. ground (arith, v.timers c);
    hole = record {
      placed = λ c s t. ground (arith, v.placed c, apart c n);
      own = λ c s t. ground (arith, apart c n);
    };
  }

  Has-less : (x : ℕ) → Has n (upd (upd slots i last) i last) x ↔ (Holds q x × (x ≢ slots i))
  Has-less x = (down, up)
    where
      down : Has n (upd (upd slots i last) i last) x → Holds q x × (x ≢ slots i)
      down (c, s, e) = elim (ℕ_discrete c i) [
        | yes a ↦ ((n, omega arith, ground arith), ground (arith, distinct n i))
        | no a ↦ ((c, omega arith, ground arith), ground (arith, distinct c i))
      ]

      up : Holds q x × (x ≢ slots i) → Has n (upd (upd slots i last) i last) x
      up ((c, s, e), t) = elim (ℕ_discrete c n) [
        | yes a ↦ (i, ground arith, ground arith)
        | no a ↦ (c, omega arith, ground arith)
      ]

  refilled-DownInv :
      i < n
      → earlier q last (upd slots i last (parent i)) ≡ false
      → DownInv (earlier q) n (upd (upd slots i last) i last) i
  refilled-DownInv l b = record {
    edges = λ c s t e. ground (arith, v.heap c);
    bridged = λ c s t e z. ground (
      arith,
      v.heap c,
      v.heap i,
      (earlier-IsOrder q).trans (slots (parent i)) (slots i) (slots c),
    );
  }

  refilled-UpInv :
      i < n
      → earlier q last (upd slots i last (parent i)) ≡ true
      → UpInv (earlier q) n (upd (upd slots i last) i last) i
  refilled-UpInv l b = record {
    edges = λ c s t e. ground (
      arith,
      v.heap c,
      v.heap i,
      irrefl (earlier-IsOrder q) last,
      (earlier-IsOrder q).asym last (slots (parent i)),
      (earlier-IsOrder q).trans (slots (parent i)) (slots i) (slots c),
      (earlier-IsOrder q).trans last (slots (parent i)) (slots c),
    );
    bridged = λ c s t e z. ground (
      arith,
      v.heap c,
      v.heap i,
      (earlier-IsOrder q).trans (slots (parent i)) (slots i) (slots c),
    );
  }

  module _ (l : i < n) (q' : TimerQueue) (s : Sifted n refilled i last q') where
    -- A timer that is not taken out still stands somewhere, and only such timers do.
    stays : (x : ℕ) → Holds q x → x ≢ slots i → Has n s.slots x
    stays x h e = (s.same x).1 ((Has-less x).1 (h, e))

    came_from : (c : ℕ) → c < n → Holds q (s.slots c)
    came_from c h = ((Has-less (s.slots c)).0 ((s.same (s.slots c)).0 (c, h, refl))).0

    last_stays : Has n s.slots last
    last_stays = stays last (n, omega arith, refl) (distinct n i (omega arith) p (omega arith))

    sifted_live :
        (j t : ℕ)
        → j < q.timer_ids.cap
        → some (key q (slots i)) ≢ some j
        → s.index j ≡ some t
        → (t < n) × (key q (s.slots t) ≡ j)
    sifted_live j t h away e = elim (s.kept j) [
      | inl (c, u, x) ↦ ground (arith, s.placed c u)
      | inr old ↦ elim (ℕ_discrete j (key q last)) [
        | yes x ↦ let (d, u, y) = last_stays in ground (arith, s.placed d u)
        | no x ↦
            let (u, y) = v.live j t h (ground arith) (ground arith) in
            let (d, w, z) = stays (slots t) (t, u, refl) (ground arith) in
            ground (arith, s.placed d w)
      ]
    ]

    sifted_used : (j : ℕ) → j < q.min_timer_id → s.index j ≢ none
    sifted_used j h e = elim (s.kept j) [
      | inl (c, u, x) ↦ ground (arith, s.placed c u)
      | inr old ↦ ground (arith, v.used j h)
    ]

    sifted-Removed : Removed q (slots i) (with_cells refilled s.slots s.index)
    sifted-Removed = record {
      arrays = record {
        least = v.least;
        room = omega (arith, v.room);
        capped = v.capped;
        ids_cap = v.ids_cap;
        timers = λ c h. let (d, u, e) = came_from c h in ground (arith, v.timers d u, e);
        general = λ c h. let (d, u, e) = came_from c h in ground (arith, v.general d u, e);
        low = λ c h. let (d, u, e) = came_from c h in ground (arith, v.low d u, e);
        heap = s.heap;
        placed = s.placed;
        live = sifted_live;
        used = λ j h _. sifted_used j h;
      };
      size = omega arith;
      cap = refl;
      items = λ x. (λ h. (Has-less x).0 ((s.same x).0 h), λ (h, e). stays x h e);
      rest = refl;
    }

  -- The last timer is taken out.
  shrunk-Removed : i ≡ n → Removed q (slots i) rest
  shrunk-Removed a = record {
    arrays = record {
      least = v.least;
      room = omega (arith, v.room);
      capped = v.capped;
      ids_cap = v.ids_cap;
      timers = λ c h. v.timers c (omega arith);
      general = λ c h. v.general c (omega arith);
      low = λ c h. v.low c (omega arith);
      heap = λ c h k. v.heap c h (omega arith);
      placed = λ c h. v.placed c (omega arith);
      live = λ j t h away e. ground (arith, v.live j t h);
      used = λ j h away. v.used j h (ground arith);
    };
    size = omega arith;
    cap = refl;
    items = λ x. (
      λ (c, h, e). ((c, omega arith, e), ground (arith, distinct c i)),
      λ ((c, h, e), d). (c, ground arith, e),
    );
    rest = refl;
  }

  refill-Removed : i < n → Returns (Removed q (slots i)) (refill rest i)
  unfolding refill
  refill-Removed l =
      let above = upd slots i last (parent i) in
      let there : above ≢ 0 =
        ground (arith, (v.timers n (omega arith)).real, (v.timers (parent i) (omega arith)).real) in
      let compare = at_most-before (q.nodes above).timer_value (q.nodes last).timer_value in
      rw
        (
          load-ok q.timer_heap n (omega (arith, v.room)),
          copy-ok rest i last (omega (arith, v.room)) (v.timers n (omega arith)),
          deref-ok refilled last (v.timers n (omega arith)).real,
          load-ok refilled.timer_heap (parent i) (omega (arith, v.room)),
          deref-ok refilled above there,
        )
        (Returns-if (at_most (q.nodes above).timer_value (q.nodes last).timer_value)
          (λ e.
            Returns-map
              (reheap_down-Sifted (n + 1) refilled i last (omega arith) (refilled-Ready l)
                (refilled-DownInv l (ground (arith, compare))))
              λ q' s. subst (Removed q (slots i)) (sym s.result) (sifted-Removed l q' s))
          (λ e.
            Returns-map
              (reheap_up-Sifted (i + 1) n refilled i last (omega arith) (refilled-Ready l)
                (refilled-UpInv l (ground (arith, compare))))
              λ q' s. subst (Removed q (slots i)) (sym s.result) (sifted-Removed l q' s)))

  pub remove-Removed : Returns (λ (q', r). (r ≡ slots i) × Removed q (slots i) q') (remove q i)
  unfolding remove
  remove-Removed = rw (load-ok q.timer_heap i (omega (arith, v.room))) (
      Returns-bind {P = Removed q (slots i)}
        (Returns-if (ltb i n) (λ e. refill-Removed (ltb→lt i n e))
          (λ e. returns (shrunk-Removed (ground arith))))
        λ q' r. returns (refl, r))
