-- ===== src/TimerQueue/Nodes.antt =====
-- ndk/timer_queue.cpp: the construction of the queue, its ids and its free lists.
use cute_ndk.Base.{
  ℕ, zero, suc, ◌+◌, ◌-◌, Option, none, some, ltb, ◌==◌, if◌then◌else◌, Run, ok, ◌>>=◌,
}
use cute_ndk.Base.Array.{make, upd}
use cute_ndk.TimeValue.{zero_time}
use cute_ndk.TimerQueue.{TimerQueue, TimerType, general_timer, crontab_timer, Node, deref, set_node}

-- `new timer_node`
abbrev pub blank : Node
blank = record {
  timer_id = none;
  type = general_timer;
  handler = 0;
  arg = 0;
  timer_value = zero_time;
  interval = zero_time;
  prev = 0;
  next = 0;
}

abbrev pub new_node : TimerQueue → TimerQueue × ℕ
new_node q = (record q { nodes = upd q.nodes q.fresh blank; fresh = q.fresh + 1 }, q.fresh)

-- The loop of init that links new nodes behind `iter`.
unfoldable pub preallocate : ℕ → TimerQueue → ℕ → Run TimerQueue
preallocate zero q iter = ok q
preallocate (suc k) q iter =
    let (q', node) = new_node q in
    let first : Run TimerQueue = preallocate k (record q' { free_timer_nodes = node }) node in
    let behind : Run TimerQueue = do
      last ← deref q' iter
      preallocate k (set_node q' iter (record last { next = node })) node
    in if q'.free_timer_nodes == 0 then first else behind

-- The constructor, by init.
unfoldable pub init : ℕ → ℕ → Run TimerQueue
unfolding preallocate
init max_size pre_alloc_num =
    preallocate pre_alloc_num
      (record {
        max_size = max_size;
        curr_size = 0;
        timer_heap = make pre_alloc_num 0;
        timer_ids = make pre_alloc_num none;
        min_timer_id = 0;
        free_timer_nodes = 0;
        free_crontab_timers = 0;
        crontab_timers = 0;
        nodes = λ _. blank;
        fresh = 1;
      })
      0

-- The loop of alloc_timerid over the last `k` ids.
unfoldable pub find_id : ℕ → (ℕ → Option ℕ) → ℕ → Option ℕ
find_id zero ids i = none
find_id (suc k) ids i =
    let rest = find_id k ids (i + 1) in elim (ids i) [ none ↦ some i | some _ ↦ rest ]

unfoldable pub alloc_timerid : TimerQueue → TimerQueue × Option ℕ
alloc_timerid q = elim (find_id (q.timer_ids.cap - q.min_timer_id) q.timer_ids.at q.min_timer_id) [
  | none ↦ (q, none)
  | some i ↦ (record q { min_timer_id = q.min_timer_id + 1 }, some i)
]

unfoldable pub release_timerid : TimerQueue → Option ℕ → TimerQueue
release_timerid q none = q
release_timerid q (some id) =
    if ltb id q.timer_ids.cap
    then record q {
      timer_ids = record (q.timer_ids) { at = upd q.timer_ids.at id none };
      min_timer_id = if ltb q.min_timer_id id then q.min_timer_id else id;
    }
    else q

unfoldable pub alloc_node : TimerQueue → TimerType → Run (TimerQueue × ℕ)
alloc_node q type = do
  let (made, new) = new_node q
  let reuse_timer : Run (TimerQueue × ℕ) = do
    node ← deref q q.free_timer_nodes
    ok (
      record (set_node q q.free_timer_nodes (record node { next = 0 })) {
        free_timer_nodes = node.next;
      },
      q.free_timer_nodes,
    )
  let reuse_crontab : Run (TimerQueue × ℕ) = do
    node ← deref q q.free_crontab_timers
    ok (
      record (set_node q q.free_crontab_timers (record node { next = 0 })) {
        free_crontab_timers = node.next;
      },
      q.free_crontab_timers,
    )
  (q', node) ← elim type [
    | general_timer ↦ if q.free_timer_nodes == 0 then ok (made, new) else reuse_timer
    | crontab_timer ↦ if q.free_crontab_timers == 0 then ok (made, new) else reuse_crontab
  ]
  old ← deref q' node
  ok (set_node q' node (record old { type = type }), node)

-- The front of the free list for the type of the node.
abbrev pub link_free : TimerType → TimerQueue → ℕ → TimerQueue
link_free general_timer q p =
    record (set_node q p (record (q.nodes p) { next = q.free_timer_nodes })) {
      free_timer_nodes = p;
    }
link_free crontab_timer q p =
    record (set_node q p (record (q.nodes p) { next = q.free_crontab_timers })) {
      free_crontab_timers = p;
    }

unfoldable pub free_node : TimerQueue → ℕ → Run TimerQueue
free_node q p =
    if p == 0
    then ok q
    else do node ← deref q p; ok (link_free node.type (release_timerid q node.timer_id) p)
