-- ===== src/TimerQueue/Expiry.antt =====
-- ndk/timer_queue.cpp: dispatch_timer on a valid queue.
use cute_ndk.Base.{
  ℕ, ◌+◌, ◌<◌, ◌≡◌, ◌≢◌, ◌↔◌, inl, inr, refl, sym, ap, ◌∙◌, true, false, ◌==◌, Option, none, some,
  arith, Returns, returns, Returns-bind, Returns-map, Returns-if,
}
use mathlib.Core.Path.{subst}
use native.Mathlib.Decide.{ℕ_discrete}
use cute_ndk.Base.Array.{load-ok, upd_self, upd_ne}
use cute_ndk.Heap.Order.{root_first}
use cute_ndk.TimeValue.{TimeValue, before, at_most, zero_time}
use cute_ndk.TimeValue.Normal.{plus, minus, InRange}
use cute_ndk.TimeValue.Arith.{NonNegative}
use cute_ndk.TimerQueue.{TimerQueue, Node, set_node, insert}
use cute_ndk.TimerQueue.Nodes.{free_node}
use cute_ndk.TimerQueue.Calls.{dispatch_timer, skip_past}
use cute_ndk.TimerQueue.Order.{earlier-IsOrder}
use cute_ndk.TimerQueue.Ready.{key, deref-ok}
use cute_ndk.TimerQueue.Arrays.{Arrays, Holds}
use cute_ndk.TimerQueue.Insert.{Inserted, Arriving, Fits, insert-Inserted}
use cute_ndk.TimerQueue.Remove.{Removed, remove-Removed}
use cute_ndk.TimerQueue.Memory.{Arrays-nodes, set-Loose}
use cute_ndk.TimerQueue.Valid.{IsValid, Inserted-IsValid, Removed-Loose}
use cute_ndk.TimerQueue.Cancel.{freed-CancelledTimer, freed-ok}
use cute_ndk.TimerQueue.Dispatch.{Skipped, skip_past-Skipped}

abbrev pub at_time : TimeValue → Node → Node
at_time time node = record node { timer_value = time }

-- A timer that fires once is gone, and its id is free.
pub record Fired (q : TimerQueue) (p : ℕ) (q' : TimerQueue) : Type 0 where
  pub valid : IsValid q'
  pub size : q'.curr_size + 1 ≡ q.curr_size
  pub items : (x : ℕ) → Holds q' x ↔ (Holds q x × (x ≢ p))
  pub free_id : q'.timer_ids.at (key q p) ≡ none
  pub others : (x : ℕ) → x ≢ p → q'.nodes x ≡ q.nodes x
  pub crontab : q'.crontab_timers ≡ q.crontab_timers

-- A timer that fires again stands in the queue at a later time, and nothing else about the timers
-- changes.
pub record Restarted (q : TimerQueue) (p : ℕ) (time : TimeValue) (q' : TimerQueue) : Type 0 where
  pub valid : IsValid q'
  pub size : q'.curr_size ≡ q.curr_size
  pub items : (x : ℕ) → Holds q' x ↔ Holds q x
  pub moved : q'.nodes p ≡ at_time time (q.nodes p)
  pub others : (x : ℕ) → x ≢ p → q'.nodes x ≡ q.nodes x
  pub crontab : q'.crontab_timers ≡ q.crontab_timers

module _ (q : TimerQueue) (v : IsValid q) (some_timer : 0 < q.curr_size) where
  abbrev p : ℕ
  p = q.timer_heap.at 0

  abbrev earliest : Node
  earliest = q.nodes p

  module _ (q' : TimerQueue) (r : Removed q p q') (later : TimeValue) where
    abbrev moved : Node
    moved = at_time later (q.nodes p)

    same_nodes : (x : ℕ) → q'.nodes x ≡ q.nodes x
    same_nodes x = ap (λ y. y.nodes x) r.rest

    -- The queue that insert is called on.
    abbrev ready : TimerQueue
    ready = set_node q' p moved

    away : (c : ℕ) → c < q'.curr_size → q'.timer_heap.at c ≢ p
    away c h = ((r.items (q'.timer_heap.at c)).0 (c, h, refl)).1

    own_key : key ready p ≡ key q p
    own_key = ground (arith, same_nodes p)

    unchanged :
        (c : ℕ)
        → c < q'.curr_size
        → ready.nodes (q'.timer_heap.at c) ≡ q'.nodes (q'.timer_heap.at c)
    unchanged c h = upd_ne q'.nodes p (q'.timer_heap.at c) moved (λ e. away c h (sym e))

    other_key : (c : ℕ) → c < q'.curr_size → key ready (q'.timer_heap.at c) ≢ key q p
    other_key c h e =
        let ((d, u, x), other) = (r.items (q'.timer_heap.at c)).0 (c, h, refl) in
        ground (
          arith,
          v.arrays.placed d u,
          v.arrays.placed 0 some_timer,
          unchanged c h,
          same_nodes (q'.timer_heap.at c),
          e,
          x,
          other,
        )

    ready-Arriving : Arriving ready p
    ready-Arriving = record {
      arrays =
          subst (λ k. Arrays (some k) ready) (sym own_key)
            (Arrays-nodes (some (key q p)) q' ready.nodes q'.fresh q'.free_timer_nodes unchanged
              r.arrays);
      timer =
          let t = v.arrays.timers 0 some_timer in
          record {
            real = t.real;
            has_id = ground (arith, t.has_id, same_nodes p);
            small = ground (arith, t.small, own_key, ap (λ y. y.max_size) r.rest);
            fits = omega (arith, t.fits, own_key, r.arrays.ids_cap, r.cap, v.arrays.ids_cap);
          };
      type = ground (arith, v.arrays.general 0 some_timer, same_nodes p);
      apart = λ c h e. other_key c h (e ∙ own_key);
    }

    ready-Fits : Fits ready p
    ready-Fits = record {
      place = omega (arith, r.size, r.cap, v.arrays.room);
      id = omega (arith, own_key, r.cap, v.arrays.low 0 some_timer);
    }

    Inserted-Restarted : (q'' : TimerQueue) → Inserted ready p q'' → Restarted q p later q''
    Inserted-Restarted q'' s =
        let (m, l) = Removed-Loose q 0 q' v some_timer r in
        let (m', l') = set-Loose q' p moved m l in
        record {
          valid = Inserted-IsValid ready p q'' m' l' s;
          size = omega (arith, s.size, r.size);
          items = λ x. (
            λ h. elim ((s.items x).0 h) [
              | inl old ↦ ((r.items x).0 old).0
              | inr new ↦ (0, some_timer, sym new)
            ],
            λ h. elim (ℕ_discrete x p) [
              | yes e ↦ (s.items x).1 (inr e)
              | no e ↦ (s.items x).1 (inl ((r.items x).1 (h, e)))
            ],
          );
          moved = ap (λ y. y.nodes p) s.rest ∙ upd_self q'.nodes p moved;
          others = λ x e.
              ap (λ y. y.nodes x) s.rest
              ∙ upd_ne q'.nodes p x moved (λ z. e (sym z))
              ∙ same_nodes x;
          crontab = ap (λ y. y.crontab_timers) s.rest ∙ ap (λ y. y.crontab_timers) r.rest;
        }

    -- The timer goes back at any time.
    pub reinserted : Returns (Restarted q p later) (insert ready p)
    reinserted =
        Returns-map (insert-Inserted ready p ready-Arriving (inl ready-Fits)) Inserted-Restarted

-- The timer `p` is due at `now`, and no timer of the queue is due before it.
pub record Due (q : TimerQueue) (now : TimeValue) (p : ℕ) : Type 0 where
  pub held : Holds q p
  pub due : at_most (q.nodes p).timer_value now ≡ true
  pub first : (x : ℕ) → Holds q x → before (q.nodes x).timer_value (q.nodes p).timer_value ≡ false

-- What dispatch_timer returns: nothing, if no timer is due; or else the first timer, which is gone
-- if its interval is not positive, and stands at the first time after `now` otherwise.
pub data Dispatched (q : TimerQueue) (now : TimeValue) : TimerQueue × Option Node → Type 0 where
  idle :
      ((x : ℕ) → Holds q x → at_most (q.nodes x).timer_value now ≡ false)
      → Dispatched q now (q, none)
  once :
      {p : ℕ} {q' : TimerQueue}
      → Due q now p
      → before zero_time (q.nodes p).interval ≡ false
      → Fired q p q'
      → Dispatched q now (q', some (q.nodes p))
  again :
      {p : ℕ} {q' : TimerQueue} {later : TimeValue}
      → Due q now p
      → before zero_time (q.nodes p).interval ≡ true
      → Skipped (q.nodes p).timer_value (q.nodes p).interval now later
      → Restarted q p later q'
      → Dispatched q now (q', some (q.nodes p))

-- A positive interval.
positive : (i : TimeValue) → InRange i → before zero_time i ≡ true → minus i < plus i
unfolding before
positive i r h = ground (arith, r.below, r.above)

module _ (q : TimerQueue) (v : IsValid q) (some_timer : 0 < q.curr_size) (now : TimeValue) where
  abbrev root : ℕ
  root = q.timer_heap.at 0

  abbrev timer : Node
  timer = q.nodes root

  first_timer : (x : ℕ) → Holds q x → before (q.nodes x).timer_value timer.timer_value ≡ false
  first_timer x (c, h, e) =
      subst (λ y. before (q.nodes y).timer_value timer.timer_value ≡ false) e
        (root_first (earlier-IsOrder q) q.curr_size q.timer_heap.at v.arrays.heap c h)

  root-Due : at_most timer.timer_value now ≡ true → Due q now root
  root-Due e = record { held = (0, some_timer, refl); due = e; first = first_timer }

  none_due :
      at_most timer.timer_value now ≡ false
      → (x : ℕ) → Holds q x
      → at_most (q.nodes x).timer_value now ≡ false
  unfolding before at_most
  none_due e x h = ground (arith, first_timer x h, e)

  fires_once : (q' : TimerQueue) → Removed q root q' → Returns (Fired q root) (free_node q' root)
  fires_once q' r =
      let id = key q root in
      let fits = (v.arrays.timers 0 some_timer).fits in
      let placed = v.arrays.placed 0 some_timer in
      let c = freed-CancelledTimer q v id 0 fits placed true q' r in
      rw (freed-ok q v id 0 fits placed true q' r) (
        returns (record {
          valid = c.valid;
          size = c.size;
          items = c.items;
          free_id = c.free_id;
          others = c.others;
          crontab = c.crontab;
        }))

  module _ (fuel : ℕ) (rn : InRange now) (nn : NonNegative now) (nt : NonNegative timer.timer_value)
      (ri : InRange timer.interval) (some_fuel : 0 < fuel)
      (enough : plus now + minus timer.timer_value
        < fuel + minus now + plus timer.timer_value) where
    -- The time at which the timer fires again.
    next_time :
        before zero_time timer.interval ≡ true
        → Returns
            (Skipped timer.timer_value timer.interval now)
            (skip_past fuel timer.timer_value timer.interval now)
    next_time e =
        skip_past-Skipped timer.interval now ri rn nn (positive timer.interval ri e) fuel
          timer.timer_value nt enough some_fuel

    -- dispatch_timer on a valid queue with a timer changes nothing if no timer is due; otherwise it
    -- hands out the first timer, which is gone then, with its id free, if it fires once, and stands
    -- at the first of its times after `now` if it is periodic; the queue stays valid, and the other
    -- timers are as they were. The times are in range and not before zero, and the fuel exceeds the
    -- microseconds by which the first timer is late.
    pub dispatch_correct : Returns (Dispatched q now) (dispatch_timer fuel q now)
    unfolding dispatch_timer
    dispatch_correct =
        let t = v.arrays.timers 0 some_timer in
        let more : (q.curr_size == 0) ≡ false = ground (arith, some_timer) in
        rw
          (
            load-ok q.timer_heap 0 (omega (arith, some_timer, v.arrays.room)),
            deref-ok q root t.real,
            more,
          )
          (Returns-if (at_most timer.timer_value now)
            (λ due. Returns-bind (remove-Removed q 0 v.arrays some_timer) λ (q', p) (e, r).
              rw (e, deref-ok q' root t.real, same_nodes q v some_timer q' r now root)
                (Returns-bind {P = λ q''. Dispatched q now (q'', some timer)}
                  (Returns-if (before zero_time timer.interval)
                    (λ periodic. Returns-bind (next_time periodic) λ later s.
                      Returns-map (reinserted q v some_timer q' r later)
                        λ q'' u. again (root-Due due) periodic s u)
                    (λ single. Returns-map (fires_once q' r) λ q'' u. once (root-Due due) single u))
                  λ q'' d. returns d))
            (λ early. returns (idle (none_due early))))
