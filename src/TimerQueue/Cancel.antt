-- ===== src/TimerQueue/Cancel.antt =====
-- ndk/timer_queue.cpp: cancel by id, on a queue without crontab timers.
use cute_ndk.Base.{
  ℕ, suc, ◌+◌, ◌≤◌, ◌<◌, ◌≡◌, ◌≢◌, ◌↔◌, refl, sym, ap, ◌∙◌, Bool, true, false, leb, ◌==◌, [], ok,
  fault, none, some, arith, Returns, returns, Returns-bind, ==_refl,
}
use mathlib.Core.Path.{subst}
use cute_ndk.Base.Array.{load-ok, upd_self, upd_ne}
use cute_ndk.Base.Int.{pos, negsuc}
use cute_ndk.TimerQueue.{TimerQueue}
use cute_ndk.TimerQueue.Calls.{cancel, cancel_timer, has_id, find_crontab, closes, Cancelled}
use cute_ndk.TimerQueue.Nodes.{free_node}
use cute_ndk.TimerQueue.Ready.{key, deref-ok}
use cute_ndk.TimerQueue.Arrays.{Arrays, Holds}
use cute_ndk.TimerQueue.Remove.{Removed, remove-Removed}
use cute_ndk.TimerQueue.Memory.{freed, free_node-ok, freed-Memory, freed-Arrays}
use cute_ndk.TimerQueue.Valid.{IsValid, Removed-Loose}

-- What cancel returns for the timer node `p` with the id `id`: success, the timer's argument, its
-- handler's handle_close called if that was asked for, and a valid queue of the other timers, in
-- which the id is free.
pub record CancelledTimer (q : TimerQueue) (id p : ℕ) (dont_call : Bool) (r : Cancelled)
    : Type 0 where
  pub result : r.1 ≡ pos 0
  pub arg : r.2 ≡ some (q.nodes p).arg
  pub closed : r.3 ≡ closes dont_call (q.nodes p).handler
  pub valid : IsValid r.0
  pub size : r.0.curr_size + 1 ≡ q.curr_size
  pub items : (x : ℕ) → Holds r.0 x ↔ (Holds q x × (x ≢ p))
  pub free_id : r.0.timer_ids.at id ≡ none
  pub others : (x : ℕ) → x ≢ p → r.0.nodes x ≡ q.nodes x
  pub crontab : r.0.crontab_timers ≡ q.crontab_timers

no_crontab : (q : TimerQueue) (k iter id : ℕ) → iter ≡ 0 → find_crontab (suc k) q iter id ≡ ok 0
unfolding find_crontab
no_crontab q k iter id e = let test : (iter == 0) ≡ true = ground arith in rw test refl

module _ (q : TimerQueue) (v : IsValid q) (id s : ℕ) (h : id < q.timer_ids.cap)
    (at : q.timer_ids.at id ≡ some s) where
  abbrev node : ℕ
  node = q.timer_heap.at s

  inside : s < q.curr_size
  inside = (v.arrays.live id s h (ground arith) at).0

  own_key : key q node ≡ id
  own_key = (v.arrays.live id s h (ground arith) at).1

  own_id : (q.nodes node).timer_id ≡ some id
  own_id = (v.arrays.timers s inside).has_id ∙ ap some own_key

  module _ (dont_call : Bool) (q' : TimerQueue) (r : Removed q node q') where
    same_nodes : (x : ℕ) → q'.nodes x ≡ q.nodes x
    same_nodes x = ap (λ y. y.nodes x) r.rest

    away : (c : ℕ) → c < q'.curr_size → key q' (q'.timer_heap.at c) ≢ id
    away c l e =
        let ((d, u, x), other) = (r.items (q'.timer_heap.at c)).0 (c, l, refl) in
        ground (arith, v.arrays.placed d u, same_nodes (q'.timer_heap.at c), e, x, other, at)

    pub freed-CancelledTimer : CancelledTimer q id node dont_call (
      freed q' id node,
      pos 0,
      some (q'.nodes node).arg,
      closes dont_call (q'.nodes node).handler,
    )
    freed-CancelledTimer =
        let (m, l) = Removed-Loose q s q' v inside r in
        record {
          result = refl;
          arg = ap (λ n. some n.arg) (same_nodes node);
          closed = ap (λ n. closes dont_call n.handler) (same_nodes node);
          valid = record {
            arrays =
                freed-Arrays q' id node m l (subst (λ k. Arrays (some k) q') own_key r.arrays) away;
            memory = freed-Memory q' id node m l;
          };
          size = r.size;
          items = r.items;
          free_id = upd_self q'.timer_ids.at id none;
          others = λ x e. upd_ne q'.nodes node x _ (λ z. e (sym z)) ∙ same_nodes x;
          crontab = ap (λ y. y.crontab_timers) r.rest;
        }

    pub freed-ok : free_node q' node ≡ ok (freed q' id node)
    freed-ok =
        free_node-ok q' id node (v.arrays.timers s inside).real
          (ap (λ n. n.type) (same_nodes node) ∙ v.arrays.general s inside)
          (ap (λ n. n.timer_id) (same_nodes node) ∙ own_id)
          (omega (arith, r.arrays.ids_cap, r.cap, v.arrays.ids_cap, h))

  timer_cancelled :
      (dont_call : Bool)
      → Returns (CancelledTimer q id node dont_call) (cancel_timer q id dont_call)
  unfolding cancel_timer
  timer_cancelled dont_call =
      let t = v.arrays.timers s inside in
      let mine : has_id (q.nodes node).timer_id id ≡ true =
        ap (λ o. has_id o id) own_id ∙ ==_refl id in
      rw
        (
          load-ok q.timer_ids id h,
          at,
          load-ok q.timer_heap s (omega (arith, inside, v.arrays.room)),
          deref-ok q node t.real,
          mine,
        )
        (Returns-bind (remove-Removed q s v.arrays inside) λ (q', p) (e, r).
          rw (e, deref-ok q' node t.real, freed-ok dont_call q' r)
            (returns (freed-CancelledTimer dont_call q' r)))

  -- cancel of the id of a timer of a valid queue without crontab timers takes out exactly that
  -- timer, frees its id, hands its argument back and calls its handler's handle_close if that is
  -- asked for; the queue stays valid.
  pub cancel_correct :
      (k : ℕ) (dont_call : Bool)
      → q.crontab_timers ≡ 0
      → Returns (CancelledTimer q id node dont_call) (cancel (suc k) q (pos id) dont_call)
  unfolding cancel
  cancel_correct k dont_call none_there =
      let known_id : leb q.timer_ids.cap id ≡ false = ground arith in
      rw (known_id, no_crontab q k q.crontab_timers id none_there) (timer_cancelled dont_call)

-- An id from 0 to the size of the id array that no timer has makes cancel fail an assertion, and
-- any other id that no timer has makes it return -1 and leave the queue as it was.
pub cancel_unknown :
    (q : TimerQueue) (k n id : ℕ) (dont_call : Bool)
    → q.crontab_timers ≡ 0
    → q.timer_ids.at id ≡ none
    → (id < q.timer_ids.cap → cancel (suc k) q (pos id) dont_call ≡ fault)
      × (q.timer_ids.cap ≤ id → cancel (suc k) q (pos id) dont_call ≡ ok (q, negsuc 0, none, []))
      × (cancel (suc k) q (negsuc n) dont_call ≡ ok (q, negsuc 0, none, []))
unfolding cancel cancel_timer
cancel_unknown q k n id dont_call c e = (
  λ h.
      let known_id : leb q.timer_ids.cap id ≡ false = ground arith in
      rw (known_id, no_crontab q k q.crontab_timers id c, load-ok q.timer_ids id h, e) refl,
  λ h. let unknown_id : leb q.timer_ids.cap id ≡ true = ground arith in rw unknown_id refl,
  refl,
)
