-- ===== src/MessageQueue/Wait/Dequeue.antt =====
-- ndk/message_queue.cpp: the four dequeue operations with their wait.
use cute_ndk.Base.{
  ℕ, ◌-◌, ◌<◌, ◌≡◌, refl, sym, false, [], ◌∷◌, arith, Run, ok, out_of_fuel, ◌>>=◌, Returns, returns,
  Returns-bind,
}
use mathlib.Core.Path.{subst}
use cute_ndk.Base.Int.{ℤ, pos, negsuc}
use cute_ndk.Links.Chain.{Seq, take, drop}
use cute_ndk.MessageQueue.{Queue, is_empty_i}
use cute_ndk.MessageQueue.Model.{IsQueue}
use cute_ndk.MessageQueue.Dequeue.{Dequeued, dequeue_head_i-drop, dequeue_tail_i-take}
use cute_ndk.MessageQueue.Request.{IsRequest, asked, Parted}
use cute_ndk.MessageQueue.Batch.Head.{dequeue_head_n_i-parts}
use cute_ndk.MessageQueue.Batch.Tail.{dequeue_tail_n_i-parts}
use cute_ndk.MessageQueue.Wait.{
  Timeout, Wakeups, Taken, not_full, after_wait, none_taken, is_zero, wait_not_empty_cond,
  dequeue_head, dequeue_tail, dequeue_head_n, dequeue_tail_n,
}
use cute_ndk.MessageQueue.Wait.Loop.{
  AllFound, Ending, found, gives_up, still, Ends, Waits, blocked, failed, ready, wait_while-Waits,
}

-- The links and the count of the queue are in order.
abbrev pub IsSound : Queue → Type 0
IsSound q = (s : Seq) × IsQueue q s

-- What an operation makes of a queue of the sequence `s`.
abbrev pub Post : Type 1
Post = Queue → Seq → Queue × ℕ × ℤ → Type 0

-- How a dequeue ends: it waits still, it fails and the queue that it gives up on is as it was found, or
-- it does its work on the queue that ends the wait, which is not empty, and signals that the queue is
-- not full.
pub data Dequeues (post : Post) (course : Ending → Type 0) : Run Taken → Type 0 where
  waits : course still → Dequeues post course out_of_fuel
  refuses : {q : Queue} → course (gives_up q) → Dequeues post course (ok (q, 0, negsuc 0, []))
  takes :
      {q' : Queue} {item : ℕ} {num : ℤ} (q : Queue) (s : Seq)
      → course (found q)
      → IsQueue q s
      → 0 < s.len
      → post q s (q', item, num)
      → Dequeues post course (ok (q', item, num, not_full ∷ []))

some_there : (q : Queue) (s : Seq) → IsQueue q s → is_empty_i q ≡ false → 0 < s.len
unfolding is_empty_i
some_there q s v e = ground (arith, v.tail)

-- The blocks `out` leave the queue, and `rest` stays.
abbrev pub leaving : (Seq → Seq) → (Seq → Seq) → Post
leaving out rest q s (q', items, num) =
    (count : ℕ) × (num ≡ pos count) × Parted q (out s) (rest s) (q', items, count)

module _ (post : Post) (course : Ending → Type 0) where
  finish :
      (q : Queue) (s : Seq)
      → course (found q)
      → IsQueue q s
      → 0 < s.len
      → {r : Run Taken}
      → Returns (λ (q', item, num, signals). post q s (q', item, num) × (signals ≡ not_full ∷ [])) r
      → Dequeues post course r
  finish q s c v p (returns {value = a} (d, sig)) =
      subst (λ signals. Dequeues post course (ok (a.0, a.1, a.2, signals))) (sym sig)
        (takes q s c v p d)

  wait-Dequeues :
      (operation : Queue → Run Taken)
      → ((q : Queue) (s : Seq)
          → IsQueue q s
          → 0 < s.len
          → Returns
              (λ (q', item, num, signals). post q s (q', item, num) × (signals ≡ not_full ∷ []))
              (operation q))
      → {r : Run (Queue × ℤ)} → Waits IsSound is_empty_i course r
      → Dequeues post course (r >>= after_wait none_taken operation)
  wait-Dequeues operation works (blocked c) = waits c
  wait-Dequeues operation works (failed c f) = refuses c
  wait-Dequeues operation works (ready {q = q} c (s, v) e) =
      finish q s c v (some_there q s v e) (works q s v (some_there q s v e))

module _ (wakeups : Wakeups) (timeout : Timeout) (q : Queue) (f : IsSound q)
    (all : AllFound IsSound wakeups) where
  -- Whatever queue the other threads leave at each wake-up: dequeue_head waits while it is woken and the
  -- queue is empty. From the first queue that is not empty it takes the first block, returns 0
  -- and signals; it fails, and leaves the queue as it is found then, where the
  -- timeout is zero and the queue is empty, or a wait on an empty queue times out; it waits still only
  -- where the wake-ups run out and every queue was empty.
  pub dequeue_head-Dequeues :
      Dequeues
        (λ q s. Dequeued q (s.at 0) (drop 1 s))
        (Ends is_empty_i timeout wakeups q)
        (dequeue_head wakeups timeout q)
  unfolding dequeue_head wait_not_empty_cond
  dequeue_head-Dequeues =
      wait-Dequeues _ _ _
        (λ q s v p. Returns-bind (dequeue_head_i-drop q s v p) λ r d. returns (d, refl))
        (wait_while-Waits IsSound is_empty_i timeout wakeups q f all)

  -- The same of dequeue_tail and the last block.
  pub dequeue_tail-Dequeues :
      Dequeues
        (λ q s. Dequeued q (s.at (s.len - 1)) (take (s.len - 1) s))
        (Ends is_empty_i timeout wakeups q)
        (dequeue_tail wakeups timeout q)
  unfolding dequeue_tail wait_not_empty_cond
  dequeue_tail-Dequeues =
      wait-Dequeues _ _ _
        (λ q s v p. Returns-bind (dequeue_tail_i-take q s v p) λ r d. returns (d, refl))
        (wait_while-Waits IsSound is_empty_i timeout wakeups q f all)

  module _ (number : ℤ) (request : IsRequest number) where
    request-nonzero : is_zero number ≡ false
    request-nonzero = is_request number request
      where
        is_request : (n : ℤ) → IsRequest n → is_zero n ≡ false
        is_request (pos n) h = ground arith
        is_request (negsuc n) h = refl

    -- The same of dequeue_head_n with a number above zero, or -1 for all: it takes that many blocks
    -- from the front, or all if there are fewer.
    pub dequeue_head_n-Dequeues :
        Dequeues
          (leaving (λ s. take (asked number s.len) s) (λ s. drop (asked number s.len) s))
          (Ends is_empty_i timeout wakeups q)
          (dequeue_head_n wakeups timeout q number)
    unfolding dequeue_head_n wait_not_empty_cond
    dequeue_head_n-Dequeues = rw request-nonzero (
        wait-Dequeues _ _ _
          (λ q s v p.
            Returns-bind (dequeue_head_n_i-parts q s v number request)
              λ r d. returns ((r.2, refl, d), refl))
          (wait_while-Waits IsSound is_empty_i timeout wakeups q f all))

    -- The same of dequeue_tail_n, from the back.
    pub dequeue_tail_n-Dequeues :
        Dequeues
          (leaving
            (λ s. drop (s.len - asked number s.len) s)
            (λ s. take (s.len - asked number s.len) s))
          (Ends is_empty_i timeout wakeups q)
          (dequeue_tail_n wakeups timeout q number)
    unfolding dequeue_tail_n wait_not_empty_cond
    dequeue_tail_n-Dequeues = rw request-nonzero (
        wait-Dequeues _ _ _
          (λ q s v p.
            Returns-bind (dequeue_tail_n_i-parts q s v number request)
              λ r d. returns ((r.2, refl, d), refl))
          (wait_while-Waits IsSound is_empty_i timeout wakeups q f all))
