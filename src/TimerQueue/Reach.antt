-- ===== src/TimerQueue/Reach.antt =====
-- ndk/timer_queue.cpp: all that calls of schedule_i, cancel and dispatch_timer make of a new queue.
use cute_ndk.Base.{
  ℕ, suc, ◌+◌, ◌≤◌, ◌<◌, ◌≡◌, inl, inr, sym, ◌∙◌, Bool, Option, ok, fault, refl, returns, List,
  arith, Option-cases, leb, Bool-cases, Returns, Returns-ok,
}
use mathlib.Core.Path.{subst}
use native.Mathlib.Decide.{ℕ_discrete}
use cute_ndk.Base.Int.{ℤ, pos, negsuc}
use cute_ndk.TimeValue.{TimeValue}
use cute_ndk.TimeValue.Normal.{plus, InRange}
use cute_ndk.TimeValue.Arith.{NonNegative}
use cute_ndk.TimerQueue.{TimerQueue, Node}
use cute_ndk.TimerQueue.Nodes.{init}
use cute_ndk.TimerQueue.Calls.{schedule_i, cancel, Cancelled, dispatch_timer}
use cute_ndk.TimerQueue.Arrays.{Holds}
use cute_ndk.TimerQueue.Valid.{IsValid}
use cute_ndk.TimerQueue.Schedule.{Scheduled, schedule_i_correct}
use cute_ndk.TimerQueue.Cancel.{CancelledTimer, cancel_correct, cancel_unknown}
use cute_ndk.TimerQueue.Expiry.{Dispatched, idle, once, again, dispatch_correct}
use cute_ndk.TimerQueue.Start.{init-Started}

-- A time as set leaves it, that is not before zero.
pub record IsTime (t : TimeValue) : Type 0 where
  pub range : InRange t
  pub positive : NonNegative t

abbrev Timely : Node → Type 0
Timely n = IsTime n.timer_value × IsTime n.interval

-- The queues that come about.
pub data Reach : TimerQueue → Type 0 where
  started :
      {q : TimerQueue} (max_size pre_alloc_num : ℕ)
      → 3 ≤ pre_alloc_num
      → pre_alloc_num ≤ max_size
      → init max_size pre_alloc_num ≡ ok q
      → Reach q
  scheduled :
      {q q' : TimerQueue} (handler arg : ℕ) (time interval : TimeValue) (id : ℤ)
      → Reach q
      → q.curr_size + 2 ≤ q.max_size
      → IsTime time
      → IsTime interval
      → schedule_i q handler arg time interval ≡ ok (q', id)
      → Reach q'
  cancelled :
      {q q' : TimerQueue} (fuel : ℕ) (id result : ℤ) (dont_call : Bool) (arg : Option ℕ)
      (closed : List ℕ)
      → Reach q
      → cancel (suc fuel) q id dont_call ≡ ok (q', result, arg, closed)
      → Reach q'
  dispatched :
      {q q' : TimerQueue} (fuel : ℕ) (now : TimeValue) (node : Option Node)
      → Reach q
      → 0 < q.curr_size
      → IsTime now
      → plus now + 1 < fuel
      → dispatch_timer fuel q now ≡ ok (q', node)
      → Reach q'

-- What they all keep to.
pub record Sound (q : TimerQueue) : Type 0 where
  pub valid : IsValid q
  pub times : (x : ℕ) → Holds q x → Timely (q.nodes x)
  pub crontab : q.crontab_timers ≡ 0

Scheduled-Sound :
    (q : TimerQueue) (handler arg : ℕ) (time interval : TimeValue) (q' : TimerQueue) (id : ℤ)
    → Sound q
    → IsTime time
    → IsTime interval
    → Scheduled q handler arg time interval (q', id)
    → Sound q'
Scheduled-Sound q handler arg time interval q' id v t i s = record {
  valid = s.valid;
  times = λ x h. elim ((s.items x).0 h) [
    | inl old ↦ subst Timely (sym (s.others x old)) (v.times x old)
    | inr new ↦ subst (λ y. Timely (q'.nodes y)) (sym new) (subst Timely (sym s.contents) (t, i))
  ];
  crontab = s.crontab ∙ v.crontab;
}

CancelledTimer-Sound :
    (q : TimerQueue) (id p : ℕ) (dont_call : Bool) (r : Cancelled)
    → Sound q
    → CancelledTimer q id p dont_call r
    → Sound r.0
CancelledTimer-Sound q id p dont_call r v s = record {
  valid = s.valid;
  times = λ x h.
      let (old, apart) = (s.items x).0 h in subst Timely (sym (s.others x apart)) (v.times x old);
  crontab = s.crontab ∙ v.crontab;
}

fault-ok : {T : Type 0} {t : T} → fault ≡ ok t → ⊥
fault-ok e = ground (arith, e)

-- dispatch_timer returns, on more fuel than microseconds have passed.
pub dispatches :
    (q : TimerQueue)
    → Sound q
    → 0 < q.curr_size
    → (now : TimeValue) (fuel : ℕ) → IsTime now
    → plus now + 1 < fuel
    → Returns (Dispatched q now) (dispatch_timer fuel q now)
dispatches q v h now fuel t f =
    let (time, interval) = v.times (q.timer_heap.at 0) (0, h, refl) in
    dispatch_correct q v.valid h now fuel t.range t.positive time.positive interval.range
      (omega arith) (omega (arith, time.positive))

-- cancel of any id, where it returns.
cancel-Sound :
    (q q' : TimerQueue) (fuel : ℕ) (id result : ℤ) (dont_call : Bool) (arg : Option ℕ)
    (closed : List ℕ)
    → Sound q
    → cancel (suc fuel) q id dont_call ≡ ok (q', result, arg, closed)
    → Sound q'
unfolding cancel
cancel-Sound q q' fuel (negsuc n) result dont_call arg closed v e =
    Returns-ok {Q = λ r. Sound r.0} (returns v) e
cancel-Sound q q' fuel (pos id) result dont_call arg closed v e =
    elim (Bool-cases (leb q.timer_ids.cap id)) [
      | inl unknown ↦ Returns-ok {Q = λ r. Sound r.0} (rw unknown (returns v)) e
      | inr known ↦ elim (Option-cases (q.timer_ids.at id)) [
        | inl free ↦ absurd (
            fault-ok
              (sym ((cancel_unknown q fuel 0 id dont_call v.crontab free).0 (ground arith)) ∙ e))
        | inr (s, at) ↦ CancelledTimer-Sound q id _ dont_call _ v (
            Returns-ok (cancel_correct q v.valid id s (ground arith) at fuel dont_call v.crontab) e)
      ]
    ]

Dispatched-Sound :
    (q : TimerQueue) (now : TimeValue) (r : TimerQueue × Option Node)
    → Sound q
    → IsTime now
    → Dispatched q now r
    → Sound r.0
Dispatched-Sound q now r v t (idle e) = v
Dispatched-Sound q now r v t (once d e f) = record {
  valid = f.valid;
  times = λ x h.
      let (old, apart) = (f.items x).0 h in subst Timely (sym (f.others x apart)) (v.times x old);
  crontab = f.crontab ∙ v.crontab;
}
Dispatched-Sound q now r v t (again {p = p} {later = later} d e s f) = record {
  valid = f.valid;
  times = λ x h. elim (ℕ_discrete x p) [
    | yes same ↦
        let late : IsTime later = record {
          range = s.in_range;
          positive = omega (arith, s.late, t.positive);
        } in
        subst (λ y. Timely (r.0.nodes y)) (sym same)
          (subst Timely (sym f.moved) (late, (v.times p d.held).1))
    | no apart ↦ subst Timely (sym (f.others x apart)) (v.times x ((f.items x).0 h))
  ];
  crontab = f.crontab ∙ v.crontab;
}

-- Every queue is valid, and the times and intervals of its timers are in range, that comes about from a
-- new queue of 3 places at least and at most its maximum, by calls of schedule_i while the queue is at
-- least two timers below its maximum and with times in range and not before zero, of cancel for any
-- id, and of dispatch_timer while there are timers, at a time in range and not before zero.
pub Reach-Sound : {q : TimerQueue} → Reach q → Sound q
Reach-Sound (started max_size pre_alloc_num h l e) =
    let s = Returns-ok (init-Started max_size pre_alloc_num h l) e in
    record {
      valid = s.valid;
      times = λ x (c, i, y). absurd (omega (arith, i, s.empty));
      crontab = s.crontab;
    }
Reach-Sound (scheduled handler arg time interval id r h t i e) =
    let v = Reach-Sound r in
    Scheduled-Sound _ handler arg time interval _ id v t i
      (Returns-ok (schedule_i_correct _ handler arg time interval v.valid h) e)
Reach-Sound (cancelled fuel id result dont_call arg closed r e) =
    cancel-Sound _ _ fuel id result dont_call arg closed (Reach-Sound r) e
Reach-Sound (dispatched fuel now timer r h t f e) =
    let v = Reach-Sound r in
    Dispatched-Sound _ now _ v t (Returns-ok (dispatches _ v h now fuel t f) e)
