-- ===== src/TimerQueue/Start.antt =====
-- ndk/timer_queue.cpp: init, by the constructor.
use cute_ndk.Base.{
  ℕ, zero, suc, ◌+◌, ◌≤◌, ◌<◌, ◌≡◌, ◌≢◌, refl, sym, ap, ◌∙◌, true, false, Run, ◌==◌, none, arith,
  Returns, returns, Returns-if, Returns-map,
}
use mathlib.Core.Path.{subst}
use cute_ndk.Base.Array.{make}
use cute_ndk.TimerQueue.{TimerQueue, Node, set_node}
use cute_ndk.TimerQueue.Nodes.{init, preallocate, new_node, blank}
use cute_ndk.TimerQueue.Ready.{deref-ok}
use cute_ndk.TimerQueue.Memory.{Memory, with_memory}
use cute_ndk.TimerQueue.Valid.{IsValid}

-- The nodes 1 to `m` have been made and are linked in this order.
record Linked (nodes : ℕ → Node) (free : ℕ) (m : ℕ) : Type 0 where
  front : 0 < m → free ≡ 1
  empty : m ≡ 0 → free ≡ 0
  step : (j : ℕ) → 0 < j → j < m → (nodes j).next ≡ j + 1
  last : 0 < m → (nodes m).next ≡ 0

-- The queue with `m` free nodes and everything else as it was.
record Stocked (q : TimerQueue) (m : ℕ) (q' : TimerQueue) : Type 0 where
  linked : Linked q'.nodes q'.free_timer_nodes m
  same : q' ≡ with_memory q q'.nodes (m + 1) q'.free_timer_nodes

preallocate-Stocked :
    (k m : ℕ) (q : TimerQueue) (iter : ℕ)
    → q.fresh ≡ m + 1
    → Linked q.nodes q.free_timer_nodes m
    → (0 < m → iter ≡ m)
    → Returns (Stocked q (m + k)) (preallocate k q iter)
unfolding preallocate
preallocate-Stocked zero m q iter f l e = returns (record {
  linked = subst (Linked q.nodes q.free_timer_nodes) (omega arith) l;
  same = ap (λ x. with_memory q q.nodes x q.free_timer_nodes) (f ∙ omega arith);
})
preallocate-Stocked (suc k) m q iter f l e =
    Returns-if (q.free_timer_nodes == 0)
      (λ t.
        later (record made { free_timer_nodes = q.fresh }) refl
          (preallocate-Stocked k (m + 1) (record made { free_timer_nodes = q.fresh }) q.fresh
            (omega (arith, f)) (first_node t) (λ _. f)))
      (λ t.
        let real : iter ≢ 0 = ground (arith, l.empty, e) in
        rw (deref-ok made iter real) (
          later linked_behind refl (
            preallocate-Stocked k (m + 1) linked_behind q.fresh (omega (arith, f)) (next_node t)
              (λ _. f))))
  where
    made : TimerQueue
    made = (new_node q).0

    linked_behind : TimerQueue
    linked_behind = set_node made iter (record (made.nodes iter) { next = q.fresh })

    first_node : (q.free_timer_nodes == 0) ≡ true → Linked made.nodes q.fresh (m + 1)
    first_node t = record {
      front = λ h. ground (arith, l.front, f);
      empty = λ h. absurd (omega arith);
      step = λ j h i. ground (arith, l.front);
      last = λ h. ground (arith, f);
    }

    next_node :
        (q.free_timer_nodes == 0) ≡ false → Linked linked_behind.nodes q.free_timer_nodes (m + 1)
    next_node t = record {
      front = λ h. ground (arith, l.front, l.empty);
      empty = λ h. absurd (omega arith);
      step = λ j h i. ground (arith, l.step j h, e, f, l.empty);
      last = λ h. ground (arith, f, e, l.empty);
    }

    later :
        (q1 : TimerQueue) {r : Run TimerQueue}
        → with_memory q1 q.nodes 0 0 ≡ with_memory q q.nodes 0 0
        → Returns (Stocked q1 (m + 1 + k)) r
        → Returns (Stocked q (m + suc k)) r
    later q1 w r = Returns-map r λ q' s. record {
      linked = subst (Linked q'.nodes q'.free_timer_nodes) (omega arith) s.linked;
      same =
          s.same
          ∙ ap (λ x. with_memory x q'.nodes (m + 1 + k + 1) q'.free_timer_nodes) w
          ∙ ap (λ x. with_memory q q'.nodes x q'.free_timer_nodes) (omega arith);
    }

-- What init makes: an empty queue, all of whose nodes are free.
abbrev empty_queue : ℕ → ℕ → TimerQueue
empty_queue max_size pre_alloc_num = record {
  max_size = max_size;
  curr_size = 0;
  timer_heap = make pre_alloc_num 0;
  timer_ids = make pre_alloc_num none;
  min_timer_id = 0;
  free_timer_nodes = 0;
  free_crontab_timers = 0;
  crontab_timers = 0;
  nodes = λ _. blank;
  fresh = 1;
}

Linked-Memory :
    (q : TimerQueue) (m : ℕ)
    → Linked q.nodes q.free_timer_nodes m
    → q.fresh ≡ m + 1
    → q.curr_size ≡ 0
    → Memory q
Linked-Memory q m l f z = record {
  len = m;
  at = λ k. k + 1;
  start = λ h. omega (arith, l.front h);
  empty = l.empty;
  real = λ k h. omega arith;
  step = λ k h. ground (arith, l.step (k + 1));
  last = λ k h. ground (arith, l.last);
  apart = λ j k h i. omega arith;
  free_old = λ k h. omega (arith, f);
  outside = λ k c h i. absurd (omega arith);
  old = λ c h. absurd (omega arith);
  first = omega (arith, f);
}

-- A new queue.
pub record Started (max_size : ℕ) (q : TimerQueue) : Type 0 where
  pub valid : IsValid q
  pub maximum : q.max_size ≡ max_size
  pub empty : q.curr_size ≡ 0
  pub crontab : q.crontab_timers ≡ 0

pub init-Started :
    (max_size pre_alloc_num : ℕ)
    → 3 ≤ pre_alloc_num
    → pre_alloc_num ≤ max_size
    → Returns (Started max_size) (init max_size pre_alloc_num)
unfolding init
init-Started max_size pre_alloc_num h l =
    Returns-map
      (preallocate-Stocked pre_alloc_num 0 (empty_queue max_size pre_alloc_num) 0 refl
        (record {
          front = λ x. absurd (omega arith);
          empty = λ _. refl;
          step = λ j x y. absurd (omega arith);
          last = λ x. absurd (omega arith);
        })
        (λ x. absurd (omega arith)))
      λ q' s. subst (Started max_size) (sym s.same) (stocked-Started q' s)
  where
    stocked-Started :
        (q' : TimerQueue)
        → Stocked (empty_queue max_size pre_alloc_num) (0 + pre_alloc_num) q'
        → Started max_size (
            with_memory
              (empty_queue max_size pre_alloc_num)
              q'.nodes
              (0 + pre_alloc_num + 1)
              q'.free_timer_nodes)
    stocked-Started q' s = record {
      valid = record {
        arrays = record {
          least = h;
          room = omega arith;
          capped = l;
          ids_cap = refl;
          timers = λ c x. absurd (omega arith);
          general = λ c x. absurd (omega arith);
          low = λ c x. absurd (omega arith);
          heap = λ c x k. absurd (omega arith);
          placed = λ c x. absurd (omega arith);
          live = λ j t x y e. absurd (ground arith);
          used = λ j x. absurd (omega arith);
        };
        memory = Linked-Memory _ (0 + pre_alloc_num) s.linked refl refl;
      };
      maximum = refl;
      empty = refl;
      crontab = refl;
    }
