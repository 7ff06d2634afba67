-- ===== src/MessageQueue/Batch.antt =====
-- ndk/message_queue.cpp: dequeue_head_n_i and dequeue_tail_n_i take out several blocks at once, as a
-- chain of their own. The number -1 asks for all of them.
pub mod Head
pub mod Tail
use cute_ndk.Base.{ℕ, zero, suc, ◌+◌, ◌-◌, ◌==◌, if◌then◌else◌, Run, ok, ◌>>=◌}
use cute_ndk.Base.Int.{ℤ, pos, negsuc}
use cute_ndk.Links.{Links, get_next, get_prev, set_next, set_prev}
use cute_ndk.MessageQueue.{Queue}

-- `while (number-- > 0 && head_ != 0)`: the place reached, and the number of steps.
pub advance : ℕ → Links → ℕ → ℕ → Run (ℕ × ℕ)
advance zero l p count = ok (p, count)
advance (suc n) l p count =
    let go : Run (ℕ × ℕ) = get_next l p >>= λ p'. advance n l p' (count + 1) in
    if p == 0 then ok (p, count) else go

-- The same along the `prev` pointers.
pub retreat : ℕ → Links → ℕ → ℕ → Run (ℕ × ℕ)
retreat zero l p count = ok (p, count)
retreat (suc n) l p count =
    let go : Run (ℕ × ℕ) = get_prev l p >>= λ p'. retreat n l p' (count + 1) in
    if p == 0 then ok (p, count) else go

-- How often a loop `while (number-- > 0 && …)` may run.
abbrev pub rounds : ℤ → ℕ
rounds (pos n) = n
rounds (negsuc n) = 0

-- All blocks leave.
take_all : Queue → Run (Queue × ℕ × ℕ)
take_all q = ok (record q { head = 0; tail = 0; mb_count = 0 }, q.head, q.mb_count)

head_part : Queue → ℕ → Run (Queue × ℕ × ℕ)
head_part q n = do
  (head, count) ← advance n q.links q.head 0
  let cut : Run (Queue × ℕ × ℕ) = do
    last ← get_prev q.links head
    l ← set_next q.links last 0
    l' ← set_prev l head 0
    ok (record q { head = head; mb_count = q.mb_count - count; links = l' }, q.head, count)
  if head == 0 then ok (record q { head = 0; tail = 0; mb_count = 0 }, q.head, count) else cut

-- The queue, the first of the blocks that leave (null if none), and their number.
pub dequeue_head_n_i : Queue → ℤ → Run (Queue × ℕ × ℕ)
unfolding take_all head_part
dequeue_head_n_i q (negsuc zero) = if q.head == 0 then ok (q, 0, 0) else take_all q
dequeue_head_n_i q number = if q.head == 0 then ok (q, 0, 0) else head_part q (rounds number)

tail_part : Queue → ℕ → Run (Queue × ℕ × ℕ)
tail_part q n = do
  (tail, count) ← retreat n q.links q.tail 0
  let cut : Run (Queue × ℕ × ℕ) = do
    items ← get_next q.links tail
    l ← set_prev q.links items 0
    l' ← set_next l tail 0
    ok (record q { tail = tail; mb_count = q.mb_count - count; links = l' }, items, count)
  if tail == 0 then ok (record q { head = 0; tail = 0; mb_count = 0 }, q.head, q.mb_count) else cut

pub dequeue_tail_n_i : Queue → ℤ → Run (Queue × ℕ × ℕ)
unfolding take_all tail_part
dequeue_tail_n_i q (negsuc zero) = if q.tail == 0 then ok (q, 0, 0) else take_all q
dequeue_tail_n_i q number = if q.tail == 0 then ok (q, 0, 0) else tail_part q (rounds number)
