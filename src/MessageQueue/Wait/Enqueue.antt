-- ===== src/MessageQueue/Wait/Enqueue.antt =====
-- ndk/message_queue.cpp: enqueue_tail and enqueue_head with their wait.
use cute_ndk.Base.{
  ℕ, ◌≤◌, ◌<◌, ◌≡◌, refl, ◌⊎◌, inl, inr, false, Bool-cases, [], ◌∷◌, leb, arith, ne→==, ◌>>=◌, Run,
  ok, out_of_fuel, Returns, returns, Returns-inv, Returns-bind, leb→le,
}
use cute_ndk.Base.Int.{ℤ, pos, negsuc}
use cute_ndk.Links.Chain.{Seq, IsForward, Apart, append}
use cute_ndk.MessageQueue.{Queue, is_full_i, enqueue_tail_i, enqueue_head_i}
use cute_ndk.MessageQueue.Model.{IsQueue}
use cute_ndk.MessageQueue.Enqueue.{Enqueued, enqueue_tail_i-append, enqueue_head_i-append}
use cute_ndk.MessageQueue.Wait.{
  Timeout, no_wait, Wakeups, not_empty, Outcome, wait_not_full_cond, after_wait, with_result,
  enqueue_tail, enqueue_head,
}
use cute_ndk.MessageQueue.Wait.Loop.{
  AllFound, Ending, found, gives_up, still, Ends, Waits, blocked, failed, ready, wait_while-Waits,
  wait_while-no_wait,
}

-- The thread may link its short queue `t` to the queue.
abbrev pub Free : Seq → Queue → Type 0
Free t q = (s : Seq) × IsQueue q s × IsForward q.links t × Apart s t

-- How an enqueue ends: it waits still, it fails and the queue that it gives up on is as it was found, or
-- it links the blocks of `t` to those of the queue that ends the wait, which is below its high water
-- mark, and signals that the queue is not empty.
pub data Enqueues (t : Seq) (order : Seq → Seq → Seq) (course : Ending → Type 0)
    : Run Outcome → Type 0 where
  waits : course still → Enqueues t order course out_of_fuel
  refuses : {q : Queue} → course (gives_up q) → Enqueues t order course (ok (q, negsuc 0, []))
  adds :
      {q' : Queue} (q : Queue) (s : Seq)
      → course (found q)
      → IsQueue q s
      → q.mb_count < q.high_water_mark
      → IsQueue q' (order s t)
      → q'.high_water_mark ≡ q.high_water_mark
      → Enqueues t order course (ok (q', pos t.len, not_empty ∷ []))

module _ (k : ℕ) (t : Seq) (p : 0 < t.len) (h : t.len ≤ k) where
  below_mark : (q : Queue) → is_full_i q ≡ false → q.mb_count < q.high_water_mark
  unfolding is_full_i
  below_mark q e = ground arith

  -- The operation behind the wait, for either end of the queue.
  after-Enqueues :
      (course : Ending → Type 0) (order : Seq → Seq → Seq) (operation : Queue → Run (Queue × ℤ))
      → ((q : Queue) (s : Seq)
          → IsQueue q s
          → IsForward q.links t
          → Apart s t
          → Returns (Enqueued q t (order s t)) (operation q))
      → (q : Queue) → course (found q)
      → Free t q
      → is_full_i q ≡ false
      → Enqueues t order course (operation q >>= λ (q', num). ok (q', num, not_empty ∷ []))
  after-Enqueues course order operation works q c (s, v, f, a) e =
      let ((q', num), done, r) = Returns-inv (works q s v f a) in
      rw (done, r.num) (adds q s c v (below_mark q e) r.queue r.mark)

  wait-Enqueues :
      (course : Ending → Type 0) (order : Seq → Seq → Seq) (operation : Queue → Run Outcome)
      → ((q : Queue)
          → course (found q)
          → Free t q
          → is_full_i q ≡ false
          → Enqueues t order course (operation q))
      → {r : Run (Queue × ℤ)} → Waits (Free t) is_full_i course r
      → Enqueues t order course (r >>= after_wait with_result operation)
  wait-Enqueues course order operation works (blocked c) = waits c
  wait-Enqueues course order operation works (failed c f) = refuses c
  wait-Enqueues course order operation works (ready {q = q} c f e) = works q c f e

  -- Whatever the other threads leave at each wake-up, as long as it is a queue that shares no block with
  -- the short queue: enqueue_tail waits while it is woken and the queue is at its high water mark or
  -- above. On the first queue below its mark it adds the blocks behind those of this queue, returns their
  -- number and signals; it fails, and leaves the queue as it is found then, where the timeout is
  -- zero and the queue is full, or a wait on a full queue times out; it waits still only where the
  -- wake-ups run out and every queue was full.
  pub enqueue_tail-Enqueues :
      (wakeups : Wakeups) (timeout : Timeout) (q : Queue)
      → Free t q
      → AllFound (Free t) wakeups
      → Enqueues t append
          (Ends is_full_i timeout wakeups q)
          (enqueue_tail k wakeups timeout q (t.at 0))
  unfolding enqueue_tail wait_not_full_cond
  enqueue_tail-Enqueues wakeups timeout q f all = rw (ne→== (t.at 0) 0 (f.2.real 0 p)) (
      wait-Enqueues (Ends is_full_i timeout wakeups q) append _
        (after-Enqueues (Ends is_full_i timeout wakeups q) append
          (λ q'. enqueue_tail_i k q' (t.at 0))
          (λ q' s v f' a. enqueue_tail_i-append k q' s t v f' p h a))
        (wait_while-Waits (Free t) is_full_i timeout wakeups q f all))

  -- The same of enqueue_head, which adds them before those of the queue.
  pub enqueue_head-Enqueues :
      (wakeups : Wakeups) (timeout : Timeout) (q : Queue)
      → Free t q
      → AllFound (Free t) wakeups
      → Enqueues t
          (λ s u. append u s)
          (Ends is_full_i timeout wakeups q)
          (enqueue_head k wakeups timeout q (t.at 0))
  unfolding enqueue_head wait_not_full_cond
  enqueue_head-Enqueues wakeups timeout q f all = rw (ne→== (t.at 0) 0 (f.2.real 0 p)) (
      wait-Enqueues (Ends is_full_i timeout wakeups q) (λ s u. append u s) _
        (after-Enqueues (Ends is_full_i timeout wakeups q) (λ s u. append u s)
          (λ q'. enqueue_head_i k q' (t.at 0))
          (λ q' s v f' a. enqueue_head_i-append k q' s t v f' p h a))
        (wait_while-Waits (Free t) is_full_i timeout wakeups q f all))

  -- With a zero timeout enqueue_tail does not wait. On a queue at its high water mark it fails and
  -- changes nothing; below the mark it adds the blocks behind those of the queue.
  pub enqueue_tail-no_wait :
      (wakeups : Wakeups) (q : Queue) (s : Seq)
      → IsQueue q s
      → IsForward q.links t
      → Apart s t
      → ((q.high_water_mark ≤ q.mb_count)
          × (enqueue_tail k wakeups no_wait q (t.at 0) ≡ ok (q, negsuc 0, [])))
        ⊎ ((q.mb_count < q.high_water_mark)
            × Returns
                (λ (q', num, signals).
                  Enqueued q t (append s t) (q', num) × (signals ≡ not_empty ∷ []))
                (enqueue_tail k wakeups no_wait q (t.at 0)))
  unfolding enqueue_tail wait_not_full_cond is_full_i
  enqueue_tail-no_wait wakeups q s v f a = elim (Bool-cases (leb q.high_water_mark q.mb_count)) [
    | inl full ↦ inl (
      leb→le _ _ full,
      rw (ne→== (t.at 0) 0 (f.real 0 p), wait_while-no_wait is_full_i wakeups q, full),
    )
    | inr room ↦ inr (
      ground arith,
      rw (ne→== (t.at 0) 0 (f.real 0 p), wait_while-no_wait is_full_i wakeups q, room)
          (Returns-bind (enqueue_tail_i-append k q s t v f p h a) λ r e. returns (e, refl)),
    )
  ]
