-- ===== src/MessageQueue.antt =====
-- ndk/message_queue.h and ndk/message_queue.cpp: a queue of message blocks between threads, kept as
-- a doubly linked list through the blocks. Each function runs while its thread holds the mutex.
pub mod Model
pub mod Count
pub mod Enqueue
pub mod Dequeue
pub mod Request
pub mod Batch
pub mod Wait
mod Tests
use cute_ndk.Base.{
  ℕ, zero, suc, ◌+◌, ◌-◌, Bool, leb, ◌==◌, if◌then◌else◌, Run, ok, out_of_fuel, ◌>>=◌, ◌>>◌,
}
use cute_ndk.Base.Int.{ℤ, pos, negsuc}
use cute_ndk.Links.{Links, get_next, get_prev, set_next, set_prev}

-- The queue, with the links of all message blocks.
pub record Queue : Type 0 where
  pub mb_count : ℕ
  pub high_water_mark : ℕ
  pub head : ℕ
  pub tail : ℕ
  pub links : Links

-- The constructor.
pub init : ℕ → Links → Queue
init high_water_mark links = record {
  mb_count = 0;
  high_water_mark = high_water_mark;
  head = 0;
  tail = 0;
  links = links;
}

unfoldable pub is_empty_i : Queue → Bool
is_empty_i q = q.tail == 0

unfoldable pub is_full_i : Queue → Bool
is_full_i q = leb q.high_water_mark q.mb_count

-- The loop that counts a short queue and sets its `prev` pointers: its last block and their number.
-- The fuel bounds the number of blocks.
pub count_blocks : ℕ → Links → ℕ → ℕ → Run (Links × ℕ × ℕ)
count_blocks zero l seq_tail num = out_of_fuel
count_blocks (suc k) l seq_tail num = do
  n ← get_next l seq_tail
  let go : Run (Links × ℕ × ℕ) = set_prev l n seq_tail >>= λ l'. count_blocks k l' n (num + 1)
  if n == 0 then ok (l, seq_tail, num) else go

pub enqueue_tail_i : ℕ → Queue → ℕ → Run (Queue × ℤ)
enqueue_tail_i fuel q new_item = do
  (l, seq_tail, num) ← count_blocks fuel q.links new_item 1
  let fresh : Run Queue = do
    l' ← set_prev l new_item 0
    ok (record q { head = new_item; tail = seq_tail; links = l' })
  let linked : Run Queue = do
    l' ← set_prev l new_item q.tail
    l'' ← set_next l' q.tail new_item
    ok (record q { tail = seq_tail; links = l'' })
  q' ← if q.tail == 0 then fresh else linked
  ok (record q' { mb_count = q.mb_count + num }, pos num)

pub enqueue_head_i : ℕ → Queue → ℕ → Run (Queue × ℤ)
enqueue_head_i fuel q new_item = do
  (l, seq_tail, num) ← count_blocks fuel q.links new_item 1
  l' ← set_prev l new_item 0
  l'' ← set_next l' seq_tail q.head
  let linked : Run Queue = do
    m ← set_prev l'' q.head seq_tail
    ok (record q { head = new_item; links = m })
  q' ←
      if q.head == 0
      then ok (record q { head = new_item; tail = seq_tail; links = l'' })
      else linked
  ok (record q' { mb_count = q.mb_count + num }, pos num)

-- Both pointers of a block that leaves the queue are cleared.
detach : Links → ℕ → Run Links
detach l p = do l' ← set_prev l p 0; set_next l' p 0

-- The queue, the block that was taken out (null if none), and the result.
pub dequeue_head_i : Queue → Run (Queue × ℕ × ℤ)
unfolding detach
dequeue_head_i q = if q.head == 0 then ok (q, 0, negsuc 0) else do
  head ← get_next q.links q.head
  let rest : Run Links = set_prev q.links head 0
  l ← if head == 0 then ok q.links else rest
  l' ← detach l q.head
  ok (
    record q {
      mb_count = q.mb_count - 1;
      head = head;
      tail = if head == 0 then 0 else q.tail;
      links = l';
    },
    q.head,
    pos 0,
  )

pub dequeue_tail_i : Queue → Run (Queue × ℕ × ℤ)
unfolding detach
dequeue_tail_i q = if q.tail == 0 then ok (q, 0, negsuc 0) else do
  before ← get_prev q.links q.tail
  let rest : Run Links = set_next q.links before 0
  l ← if before == 0 then ok q.links else rest
  l' ← detach l q.tail
  ok (
    record q {
      mb_count = q.mb_count - 1;
      head = if before == 0 then 0 else q.head;
      tail = before;
      links = l';
    },
    q.tail,
    pos 0,
  )
