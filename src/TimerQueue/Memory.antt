-- ===== src/TimerQueue/Memory.antt =====
-- ndk/timer_queue.cpp: the free list of nodes, alloc_node and free_node.
use cute_ndk.Base.{
  ℕ, ◌+◌, ◌-◌, ◌<◌, ◌≡◌, ◌≢◌, refl, sym, ap, ◌∙◌, lt→ltb, true, false, Bool-cases, inl, inr, Option,
  none, some, ok, ◌==◌, if◌then◌else◌, ltb, arith,
}
use cute_ndk.Base.Array.{upd, upd_ne}
use cute_ndk.Heap.Order.{parent}
use cute_ndk.TimerQueue.{TimerQueue, Node, general_timer}
use cute_ndk.TimerQueue.Nodes.{blank, alloc_node, free_node, release_timerid, link_free}
use cute_ndk.TimerQueue.Ready.{key, deref-ok}
use cute_ndk.TimerQueue.Arrays.{Arrays}

-- The free nodes are linked from `free_timer_nodes`; they and the nodes of the timers have been
-- allocated, and no free node is a timer of the queue.
pub record Memory (q : TimerQueue) : Type 0 where
  pub len : ℕ
  pub at : ℕ → ℕ
  pub start : 0 < len → at 0 ≡ q.free_timer_nodes
  pub empty : len ≡ 0 → q.free_timer_nodes ≡ 0
  pub real : (k : ℕ) → k < len → at k ≢ 0
  pub step : (k : ℕ) → k + 1 < len → (q.nodes (at k)).next ≡ at (k + 1)
  pub last : (k : ℕ) → k + 1 ≡ len → (q.nodes (at k)).next ≡ 0
  pub apart : (j k : ℕ) → j < k → k < len → at j ≢ at k
  pub free_old : (k : ℕ) → k < len → at k < q.fresh
  pub outside : (k c : ℕ) → k < len → c < q.curr_size → at k ≢ q.timer_heap.at c
  pub old : (c : ℕ) → c < q.curr_size → q.timer_heap.at c < q.fresh
  pub first : 0 < q.fresh

-- A node that is neither free nor a timer of the queue.
pub record Loose (q : TimerQueue) (m : Memory q) (p : ℕ) : Type 0 where
  pub real : p ≢ 0
  pub allocated : p < q.fresh
  pub not_free : (k : ℕ) → k < m.len → m.at k ≢ p
  pub no_timer : (c : ℕ) → c < q.curr_size → q.timer_heap.at c ≢ p

-- Behind a node that is loose, what it holds does not matter.
pub set-Loose :
    (q : TimerQueue) (p : ℕ) (n : Node) (m : Memory q)
    → Loose q m p
    → (m' : Memory (record q { nodes = upd q.nodes p n })) × Loose
        (record q { nodes = upd q.nodes p n })
        m'
        p
set-Loose q p n m l = (
  record {
    len = m.len;
    at = m.at;
    start = m.start;
    empty = m.empty;
    real = m.real;
    step = λ k h. ground (arith, m.step k h, l.not_free k);
    last = λ k h. ground (arith, m.last k h, l.not_free k);
    apart = m.apart;
    free_old = m.free_old;
    outside = m.outside;
    old = m.old;
    first = m.first;
  },
  record { real = l.real; allocated = l.allocated; not_free = l.not_free; no_timer = l.no_timer },
)

-- The arrays do not depend on the nodes that are not timers.
pub Arrays-nodes :
    (spare : Option ℕ) (q : TimerQueue) (nodes : ℕ → Node) (fresh free : ℕ)
    → ((c : ℕ) → c < q.curr_size → nodes (q.timer_heap.at c) ≡ q.nodes (q.timer_heap.at c))
    → Arrays spare q
    → Arrays spare (record q { nodes = nodes; fresh = fresh; free_timer_nodes = free })
Arrays-nodes spare q nodes fresh free e v = record {
  least = v.least;
  room = v.room;
  capped = v.capped;
  ids_cap = v.ids_cap;
  timers = λ c h.
      let t = v.timers c h in
      record {
        real = t.real;
        has_id = ground (arith, t.has_id, e c h);
        small = ground (arith, t.small, e c h);
        fits = ground (arith, t.fits, e c h);
      };
  general = λ c h. ground (arith, v.general c h, e c h);
  low = λ c h. ground (arith, v.low c h, e c h);
  heap = λ c h k. ground (arith, v.heap c h k, e c k, e (parent c) (omega arith));
  placed = λ c h. ground (arith, v.placed c h, e c h);
  live = λ j s h a x. ground (arith, v.live j s h a x, e s);
  used = v.used;
}

-- The queue after a change of the memory only.
abbrev pub with_memory : TimerQueue → (ℕ → Node) → ℕ → ℕ → TimerQueue
with_memory q nodes fresh free = record q { nodes = nodes; fresh = fresh; free_timer_nodes = free }

-- What alloc_node gives: a loose node, with nothing else touched.
pub record Allocated (q : TimerQueue) (nodes : ℕ → Node) (fresh free p : ℕ) : Type 0 where
  pub result : alloc_node q general_timer ≡ ok (with_memory q nodes fresh free, p)
  pub others : (x : ℕ) → x ≢ p → nodes x ≡ q.nodes x
  pub memory : Memory (with_memory q nodes fresh free)
  pub loose : Loose (with_memory q nodes fresh free) memory p

-- A node with its type set.
abbrev typed : (ℕ → Node) → ℕ → ℕ → Node
typed nodes p = upd nodes p (record (nodes p) { type = general_timer })

-- A null free list: a new node is made.
new_result :
    (q : TimerQueue)
    → q.free_timer_nodes ≡ 0
    → q.fresh ≢ 0
    → alloc_node q general_timer
      ≡ ok (
        with_memory q (typed (upd q.nodes q.fresh blank) q.fresh) (q.fresh + 1) q.free_timer_nodes,
        q.fresh,
      )
unfolding alloc_node
new_result q e f =
    let test : (q.free_timer_nodes == 0) ≡ true = ground arith in
    rw
      (
        test,
        deref-ok (with_memory q (upd q.nodes q.fresh blank) (q.fresh + 1) q.free_timer_nodes)
            q.fresh f,
      )
      refl

module _ (q : TimerQueue) (m : Memory q) where
  alloc_new :
      q.free_timer_nodes ≡ 0
      → Allocated q
          (typed (upd q.nodes q.fresh blank) q.fresh)
          (q.fresh + 1)
          q.free_timer_nodes
          q.fresh
  alloc_new e = record {
    result = new_result q e (omega (arith, m.first));
    others = λ x h. ground arith;
    memory = record {
      len = m.len;
      at = m.at;
      start = m.start;
      empty = m.empty;
      real = m.real;
      step = λ k h. ground (arith, m.step k h, m.free_old k);
      last = λ k h. ground (arith, m.last k h, m.free_old k);
      apart = m.apart;
      free_old = λ k h. omega (arith, m.free_old k h);
      outside = m.outside;
      old = λ c h. omega (arith, m.old c h);
      first = omega arith;
    };
    loose = record {
      real = omega (arith, m.first);
      allocated = omega arith;
      not_free = λ k h. omega (arith, m.free_old k h);
      no_timer = λ c h. omega (arith, m.old c h);
    };
  }

  abbrev reused : ℕ → Node
  reused =
      let head = q.free_timer_nodes in
      typed (upd q.nodes head (record (q.nodes head) { next = 0 })) head

  reuse_result :
      q.free_timer_nodes ≢ 0
      → alloc_node q general_timer
        ≡ ok (with_memory q reused q.fresh (q.nodes q.free_timer_nodes).next, q.free_timer_nodes)
  unfolding alloc_node
  reuse_result e =
      let test : (q.free_timer_nodes == 0) ≡ false = ground arith in
      let cleared =
        upd q.nodes q.free_timer_nodes (record (q.nodes q.free_timer_nodes) { next = 0 }) in
      rw
        (
          test,
          deref-ok q q.free_timer_nodes e,
          deref-ok (with_memory q cleared q.fresh (q.nodes q.free_timer_nodes).next)
              q.free_timer_nodes e,
        )
        refl

  alloc_reused :
      q.free_timer_nodes ≢ 0
      → Allocated q reused q.fresh (q.nodes q.free_timer_nodes).next q.free_timer_nodes
  alloc_reused e = record {
    result = reuse_result e;
    others = λ x h. ground arith;
    memory = record {
      len = m.len - 1;
      at = λ k. m.at (k + 1);
      start = λ h. ground (arith, m.start, m.step 0);
      empty = λ h. ground (arith, m.start, m.empty, m.last 0);
      real = λ k h. m.real (k + 1) (omega arith);
      step = λ k h. ground (arith, m.step (k + 1), m.apart 0 (k + 1), m.start);
      last = λ k h. ground (arith, m.last (k + 1), m.apart 0 (k + 1), m.start);
      apart = λ j k h l. m.apart (j + 1) (k + 1) (omega arith) (omega arith);
      free_old = λ k h. m.free_old (k + 1) (omega arith);
      outside = λ k c h l. m.outside (k + 1) c (omega arith) l;
      old = m.old;
      first = m.first;
    };
    loose = record {
      real = e;
      allocated = ground (arith, m.free_old 0, m.start, m.empty);
      not_free = λ k h. ground (arith, m.apart 0 (k + 1), m.start);
      no_timer = λ c h. ground (arith, m.outside 0 c, m.start, m.empty);
    };
  }

-- alloc_node gives a node that is loose.
pub alloc_node-Allocated :
    (q : TimerQueue)
    → Memory q
    → (nodes : ℕ → Node) × (fresh : ℕ) × (free : ℕ) × (p : ℕ) × Allocated q nodes fresh free p
alloc_node-Allocated q m = elim (Bool-cases (q.free_timer_nodes == 0)) [
  | inl e ↦ (_, _, _, _, alloc_new q m (ground arith))
  | inr e ↦ (_, _, _, _, alloc_reused q m (ground arith))
]

-- What free_node leaves of a queue, for a timer with an id.
abbrev pub freed : TimerQueue → ℕ → ℕ → TimerQueue
freed q id p = record q {
  timer_ids = record (q.timer_ids) { at = upd q.timer_ids.at id none };
  min_timer_id = if ltb q.min_timer_id id then q.min_timer_id else id;
  nodes = upd q.nodes p (record (q.nodes p) { next = q.free_timer_nodes });
  free_timer_nodes = p;
}

release_ok :
    (q : TimerQueue) (id p : ℕ)
    → id < q.timer_ids.cap
    → link_free general_timer (release_timerid q (some id)) p ≡ freed q id p
unfolding release_timerid
release_ok q id p h = rw (lt→ltb id q.timer_ids.cap h) refl

pub free_node-ok :
    (q : TimerQueue) (id p : ℕ)
    → p ≢ 0
    → (q.nodes p).type ≡ general_timer
    → (q.nodes p).timer_id ≡ some id
    → id < q.timer_ids.cap
    → free_node q p ≡ ok (freed q id p)
unfolding free_node
free_node-ok q id p h t e l =
    let test : (p == 0) ≡ false = ground arith in
    rw (test, deref-ok q p h)
      (ap (λ type. ok (link_free type (release_timerid q (q.nodes p).timer_id) p)) t
        ∙ ap (λ o. ok (link_free general_timer (release_timerid q o) p)) e
        ∙ ap ok (release_ok q id p l))

-- A loose timer node is freed: its id is free, and the node is at the front of the free nodes.
module _ (q : TimerQueue) (id p : ℕ) (m : Memory q) (l : Loose q m p) where
  pub freed-Memory : Memory (freed q id p)
  freed-Memory = record {
    len = m.len + 1;
    at = λ k. if k == 0 then p else m.at (k - 1);
    start = λ h. ground arith;
    empty = λ h. absurd (omega arith);
    real = λ k h. ground (arith, m.real (k - 1), l.real);
    step = λ k h. ground (arith, m.step (k - 1), m.start, l.not_free (k - 1));
    last = λ k h. ground (arith, m.last (k - 1), m.empty, l.not_free (k - 1));
    apart = λ j k h i. ground (arith, m.apart (j - 1) (k - 1), l.not_free (k - 1));
    free_old = λ k h. ground (arith, m.free_old (k - 1), l.allocated);
    outside = λ k c h i. ground (arith, m.outside (k - 1) c, l.no_timer c);
    old = m.old;
    first = m.first;
  }

  pub freed-Arrays :
      Arrays (some id) q
      → ((c : ℕ) → c < q.curr_size → key q (q.timer_heap.at c) ≢ id)
      → Arrays none (freed q id p)
  freed-Arrays v away =
      let e = λ (c : ℕ) (h : c < q.curr_size).
        upd_ne q.nodes p (q.timer_heap.at c) (record (q.nodes p) { next = q.free_timer_nodes })
          (λ x. l.no_timer c h (sym x)) in
      let w =
        Arrays-nodes (some id) q (upd q.nodes p (record (q.nodes p) { next = q.free_timer_nodes }))
          q.fresh p e v in
      record {
        least = w.least;
        room = w.room;
        capped = w.capped;
        ids_cap = w.ids_cap;
        timers = w.timers;
        general = w.general;
        low = w.low;
        heap = w.heap;
        placed = λ c h. ground (arith, v.placed c h, e c h, away c h);
        live = λ j s h a x. ground (arith, v.live j s, e s);
        used = λ j h a. ground (arith, v.used j);
      }
