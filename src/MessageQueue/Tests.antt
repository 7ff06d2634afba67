-- ===== src/MessageQueue/Tests.antt =====
-- Runs of the message queue on small inputs, and the theorems at concrete queues.
use cute_ndk.Base.{ℕ, suc, ◌-◌, ◌≡◌, refl, true, [], ◌∷◌, Run, ok, fault, ◌>>=◌, Returns, arith}
use cute_ndk.Base.Array.{upd}
use cute_ndk.Base.Int.{pos, negsuc}
use cute_ndk.Links.{Links, get_next, set_next, set_prev}
use cute_ndk.Links.Chain.{Seq, IsForward, Apart, append, take, drop}
use cute_ndk.MessageQueue.{Queue, count_blocks, enqueue_tail_i, dequeue_head_i}
use cute_ndk.MessageQueue.Model.{IsQueue}
use cute_ndk.MessageQueue.Enqueue.{Enqueued, enqueue_tail_i-append}
use cute_ndk.MessageQueue.Dequeue.{Dequeued, dequeue_head_i-drop}
use cute_ndk.MessageQueue.Request.{Parted}
use cute_ndk.MessageQueue.Batch.{dequeue_head_n_i, dequeue_tail_n_i}
use cute_ndk.MessageQueue.Batch.Head.{dequeue_head_n_i-parts, dequeue_head_n_i-fault}
use cute_ndk.MessageQueue.Batch.Tail.{dequeue_tail_n_i-parts}
use cute_ndk.MessageQueue.Wait.{
  forever, limited, Wakeups, enqueue_tail, enqueue_head, dequeue_head, dequeue_tail,
}
use cute_ndk.MessageQueue.{is_full_i, is_empty_i}
use cute_ndk.MessageQueue.Wait.Loop.{Ends}
use cute_ndk.MessageQueue.Wait.Enqueue.{Enqueues, enqueue_tail-Enqueues, enqueue_head-Enqueues}
use cute_ndk.MessageQueue.Wait.Dequeue.{Dequeues, dequeue_head-Dequeues, dequeue_tail-Dequeues}

-- The blocks 1 and 2 are queued, and the blocks 3 and 4 are a short queue.
abbrev blocks : Links
blocks = record { next = upd (upd (λ _. 0) 1 2) 3 4; prev = upd (λ _. 0) 2 1 }

abbrev queued : Seq
queued = record { len = 2; at = λ i. suc i }

abbrev short : Seq
short = record { len = 2; at = λ i. suc (suc (suc i)) }

abbrev sample : Queue
sample = record { mb_count = 2; high_water_mark = 3; head = 1; tail = 2; links = blocks }

sample-IsQueue : IsQueue sample queued
sample-IsQueue = record {
  head = refl;
  tail = refl;
  count = refl;
  chain = record {
    real = λ i p. omega arith;
    distinct = λ i j p q r. omega arith;
    next = λ i p. ground arith;
    prev = λ i p. ground arith;
  };
}

short-IsForward : IsForward blocks short
short-IsForward = record {
  real = λ i p. omega arith;
  distinct = λ i j p q r. omega arith;
  next = λ i p. ground arith;
}

queued-Apart : Apart queued short
queued-Apart i j p q = omega arith

-- The blocks leave in the order 1, 2, 3, 4.
abbrev session : Run (ℕ × ℕ × ℕ × ℕ)
session = do
  (a, _) ← enqueue_tail_i 9 sample 3
  (b, x, _) ← dequeue_head_i a
  (c, y, _) ← dequeue_head_i b
  (d, z, _) ← dequeue_head_i c
  (e, w, _) ← dequeue_head_i d
  ok (x, y, z, w)

session_result : session ≡ ok (1, 2, 3, 4)
unfolding enqueue_tail_i count_blocks dequeue_head_i get_next set_next set_prev
session_result = refl

enqueue_tail_i-append_example :
    Returns (Enqueued sample short (append queued short)) (enqueue_tail_i 2 sample 3)
enqueue_tail_i-append_example =
    enqueue_tail_i-append 2 sample queued short sample-IsQueue short-IsForward (omega arith)
      (omega arith) queued-Apart

dequeue_head_i-drop_example : Returns (Dequeued sample 1 (drop 1 queued)) (dequeue_head_i sample)
dequeue_head_i-drop_example = dequeue_head_i-drop sample queued sample-IsQueue (omega arith)

dequeue_head_n_i-parts_example :
    Returns (Parted sample (take 2 queued) (drop 2 queued)) (dequeue_head_n_i sample (pos 5))
dequeue_head_n_i-parts_example =
    dequeue_head_n_i-parts sample queued sample-IsQueue (pos 5) (omega arith)

dequeue_tail_n_i-parts_example :
    Returns (Parted sample (drop 1 queued) (take 1 queued)) (dequeue_tail_n_i sample (pos 1))
dequeue_tail_n_i-parts_example =
    dequeue_tail_n_i-parts sample queued sample-IsQueue (pos 1) (omega arith)

dequeue_head_n_i-fault_example : dequeue_head_n_i sample (negsuc 1) ≡ fault
dequeue_head_n_i-fault_example =
    dequeue_head_n_i-fault sample queued sample-IsQueue (negsuc 1) (λ h. h) (omega arith)

abbrev full : Queue
full = record sample { high_water_mark = 2 }

full-IsQueue : IsQueue full queued
full-IsQueue = record { head = refl; tail = refl; count = refl; chain = sample-IsQueue.chain }

-- The queue is full at first, and another thread makes room.
abbrev woken : Wakeups
woken = (true, sample) ∷ []

enqueue_tail-Enqueues_example :
    Enqueues short append (Ends is_full_i forever woken full) (enqueue_tail 2 woken forever full 3)
enqueue_tail-Enqueues_example =
    enqueue_tail-Enqueues 2 short (omega arith) (omega arith) woken forever full
      (queued, full-IsQueue, short-IsForward, queued-Apart)
      ((queued, sample-IsQueue, short-IsForward, queued-Apart), tt)

enqueue_head-Enqueues_example :
    Enqueues short
      (λ s u. append u s)
      (Ends is_full_i forever woken full)
      (enqueue_head 2 woken forever full 3)
enqueue_head-Enqueues_example =
    enqueue_head-Enqueues 2 short (omega arith) (omega arith) woken forever full
      (queued, full-IsQueue, short-IsForward, queued-Apart)
      ((queued, sample-IsQueue, short-IsForward, queued-Apart), tt)

dequeue_head-Dequeues_example :
    Dequeues
      (λ q s. Dequeued q (s.at 0) (drop 1 s))
      (Ends is_empty_i limited woken sample)
      (dequeue_head woken limited sample)
dequeue_head-Dequeues_example =
    dequeue_head-Dequeues woken limited sample (queued, sample-IsQueue)
      ((queued, sample-IsQueue), tt)

dequeue_tail-Dequeues_example :
    Dequeues
      (λ q s. Dequeued q (s.at (s.len - 1)) (take (s.len - 1) s))
      (Ends is_empty_i limited woken sample)
      (dequeue_tail woken limited sample)
dequeue_tail-Dequeues_example =
    dequeue_tail-Dequeues woken limited sample (queued, sample-IsQueue)
      ((queued, sample-IsQueue), tt)
