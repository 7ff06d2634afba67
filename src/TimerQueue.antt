-- ===== src/TimerQueue.antt =====
-- ndk/timer_queue.h and ndk/timer_queue.cpp: the timers of a reactor, as an array heap ordered by
-- their times. `timer_ids` maps the id of a timer to its place in the heap.
pub mod Nodes
pub mod Calls
pub mod Upcalls
pub mod Order
pub mod Ready
pub mod Up
pub mod Down
pub mod Arrays
pub mod Insert
pub mod Remove
pub mod Ids
pub mod Memory
pub mod Valid
pub mod Schedule
pub mod Cancel
pub mod Dispatch
pub mod Expiry
pub mod Start
pub mod Reach
mod Tests
use cute_ndk.Base.{
  ℕ, zero, suc, ◌+◌, ◌-◌, ◌*◌, ◌/◌, not, Option, none, some, ltb, leb, ◌==◌, if◌then◌else◌, Run, ok,
  fault, out_of_fuel, ◌>>=◌, ◌>>◌, require,
}
use cute_ndk.Base.Array.{Array, load, store, upd}
use cute_ndk.TimeValue.{TimeValue, before, at_most}

pub data TimerType : Type 0 where
  general_timer crontab_timer : TimerType

-- A timer node; its id is none for -1. The table of a crontab entry is left out.
pub record Node : Type 0 where
  pub timer_id : Option ℕ
  pub type : TimerType
  pub handler : ℕ
  pub arg : ℕ
  pub timer_value : TimeValue
  pub interval : TimeValue
  pub prev : ℕ
  pub next : ℕ

-- The members of the queue, with the memory that its nodes stand in: `nodes` by address, and the
-- first address that no node has had. `timer_heap_size_` and `timer_ids_size_` are the capacities
-- of the arrays.
pub record TimerQueue : Type 0 where
  pub max_size : ℕ
  pub curr_size : ℕ
  pub timer_heap : Array ℕ
  pub timer_ids : Array (Option ℕ)
  pub min_timer_id : ℕ
  pub free_timer_nodes : ℕ
  pub free_crontab_timers : ℕ
  pub crontab_timers : ℕ
  pub nodes : ℕ → Node
  pub fresh : ℕ

-- The node behind a pointer.
unfoldable pub deref : TimerQueue → ℕ → Run Node
deref q p = do require (not (p == 0)); ok (q.nodes p)

-- `assert(id >= 0)`
abbrev pub known : Option ℕ → Run ℕ
known none = fault
known (some id) = ok id

-- `moved_node` is placed at `slot`, and its id is mapped there.
unfoldable pub copy : TimerQueue → ℕ → ℕ → Run TimerQueue
copy q slot moved_node = do
  heap ← store q.timer_heap slot moved_node
  node ← deref q moved_node
  id ← known node.timer_id
  require (ltb id q.max_size)
  ids ← store q.timer_ids id (some slot)
  ok (record q { timer_heap = heap; timer_ids = ids })

-- NDK_HEAP_PARENT, where 0 - 1 is 0, and NDK_HEAP_LCHILD.
abbrev pub heap_parent : ℕ → ℕ
heap_parent x = (x - 1) / 2

abbrev pub heap_lchild : ℕ → ℕ
heap_lchild x = x * 2 + 1

-- The loop, on fuel.
pub reheap_up : ℕ → TimerQueue → ℕ → ℕ → ℕ → Run TimerQueue
reheap_up zero q moved_node slot parent = out_of_fuel
reheap_up (suc k) q moved_node slot parent =
    let rise =
      λ (p : ℕ). copy q slot p >>= λ q'. reheap_up k q' moved_node parent (heap_parent parent) in
    let test : Run TimerQueue = do
      p ← load q.timer_heap parent
      moved ← deref q moved_node
      above ← deref q p
      let up = rise p
      if before moved.timer_value above.timer_value then up else copy q slot moved_node
    in if ltb 0 slot then test else copy q slot moved_node

-- The smaller of the two children.
smaller_child : TimerQueue → ℕ → Run ℕ
smaller_child q child =
    if ltb (child + 1) q.curr_size
    then (do
      r ← load q.timer_heap (child + 1)
      right ← deref q r
      l ← load q.timer_heap child
      left ← deref q l
      ok (if before right.timer_value left.timer_value then child + 1 else child))
    else ok child

pub reheap_down : ℕ → TimerQueue → ℕ → ℕ → ℕ → Run TimerQueue
unfolding smaller_child
reheap_down zero q moved_node slot child = out_of_fuel
reheap_down (suc k) q moved_node slot child =
    let sink = λ (c p : ℕ). copy q slot p >>= λ q'. reheap_down k q' moved_node c (heap_lchild c) in
    let test : Run TimerQueue = do
      c ← smaller_child q child
      p ← load q.timer_heap c
      below ← deref q p
      moved ← deref q moved_node
      let down = sink c p
      if before below.timer_value moved.timer_value then down else copy q slot moved_node
    in if ltb child q.curr_size then test else copy q slot moved_node

-- `std::min(curr_size_ * 2, max_size_)`
abbrev pub new_size : TimerQueue → ℕ
new_size q = if ltb q.max_size (q.curr_size * 2) then q.max_size else q.curr_size * 2

-- The first `curr_size_` cells of both arrays are copied, and the others are reset.
pub grow_heap : TimerQueue → Run TimerQueue
grow_heap q = do
  require (leb q.curr_size (new_size q))
  require (leb q.curr_size q.timer_heap.cap)
  require (leb q.curr_size q.timer_ids.cap)
  ok (record q {
    timer_heap = record {
      cap = new_size q;
      at = λ i. if ltb i q.curr_size then q.timer_heap.at i else 0;
    };
    timer_ids = record {
      cap = new_size q;
      at = λ i. if ltb i q.curr_size then q.timer_ids.at i else none;
    };
    min_timer_id = q.curr_size;
  })

abbrev pub set_node : TimerQueue → ℕ → Node → TimerQueue
set_node q p node = record q { nodes = upd q.nodes p node }

-- A new crontab timer goes to the front of their list.
insert_crontab : TimerQueue → ℕ → Run TimerQueue
insert_crontab q new_node = do
  node ← deref q new_node
  let alone = set_node q new_node (record node { prev = 0; next = 0 })
  let behind : Run TimerQueue = do
    let q' = set_node q new_node (record node { prev = 0 })
    head ← deref q' q'.crontab_timers
    let q'' = set_node q' q'.crontab_timers (record head { prev = new_node })
    linked ← deref q'' new_node
    ok (set_node q'' new_node (record linked { next = q.crontab_timers }))
  q' ← if q.crontab_timers == 0 then ok alone else behind
  ok (record q' { crontab_timers = new_node })

-- A general timer goes into the heap, which grows first if only one place is left.
pub insert_timer : TimerQueue → ℕ → Run TimerQueue
insert_timer q new_node = do
  q' ← if leb q.timer_heap.cap (q.curr_size + 1) then grow_heap q else ok q
  q'' ← reheap_up (q'.curr_size + 1) q' new_node q'.curr_size (heap_parent q'.curr_size)
  ok (record q'' { curr_size = q''.curr_size + 1 })

pub insert : TimerQueue → ℕ → Run TimerQueue
unfolding insert_crontab
insert q new_node = do
  node ← deref q new_node
  elim node.type [
    | general_timer ↦ insert_timer q new_node
    | crontab_timer ↦ insert_crontab q new_node
  ]

-- The node behind the last place goes to `slot`, and from there up or down.
pub refill : TimerQueue → ℕ → Run TimerQueue
refill q slot = do
  moved_node ← load q.timer_heap q.curr_size
  q' ← copy q slot moved_node
  moved ← deref q' moved_node
  p ← load q'.timer_heap (heap_parent slot)
  above ← deref q' p
  if at_most above.timer_value moved.timer_value
      then reheap_down (q'.curr_size + 1) q' moved_node slot (heap_lchild slot)
      else reheap_up (slot + 1) q' moved_node slot (heap_parent slot)

-- The node at a place, which is below `curr_size_`, is taken out.
pub remove : TimerQueue → ℕ → Run (TimerQueue × ℕ)
remove q slot = do
  removed_node ← load q.timer_heap slot
  let rest = record q { curr_size = q.curr_size - 1 }
  let refilled = refill rest slot
  q' ← if ltb slot rest.curr_size then refilled else ok rest
  ok (q', removed_node)
