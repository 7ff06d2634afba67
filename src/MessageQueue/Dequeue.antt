-- ===== src/MessageQueue/Dequeue.antt =====
-- ndk/message_queue.cpp: dequeue_head_i and dequeue_tail_i take one block out.
use cute_ndk.Base.{
  ℕ, ◌+◌, ◌-◌, ◌<◌, ◌≡◌, ◌≢◌, refl, ne→==, ◌==◌, if◌then◌else◌, arith, ok, Returns, returns,
  Returns-if, Returns-bind,
}
use cute_ndk.Base.Array.{upd}
use cute_ndk.Base.Int.{ℤ, pos, negsuc}
use cute_ndk.Links.{Links}
use cute_ndk.Links.Access.{get_next-ok, get_prev-ok, set_next-ok, set_prev-ok}
use cute_ndk.Links.Chain.{Seq, IsChain, take, drop}
use cute_ndk.Links.Cut.{
  drop-IsChain, take-IsChain, other_next-IsChain, other_prev-IsChain, nothing-IsChain,
}
use cute_ndk.MessageQueue.{Queue, detach, dequeue_head_i, dequeue_tail_i}
use cute_ndk.MessageQueue.Model.{IsQueue}

-- What is returned: success and the block `p`, which points nowhere, and a queue of the sequence `s`.
pub record Dequeued (q : Queue) (p : ℕ) (s : Seq) (r : Queue × ℕ × ℤ) : Type 0 where
  pub item : r.1 ≡ p
  pub status : r.2 ≡ pos 0
  pub queue : IsQueue r.0 s
  pub free : (r.0.links.next p ≡ 0) × (r.0.links.prev p ≡ 0)
  pub mark : r.0.high_water_mark ≡ q.high_water_mark

abbrev detached : Links → ℕ → Links
detached l p = record { next = upd l.next p 0; prev = upd l.prev p 0 }

detach-ok : (l : Links) (p : ℕ) → p ≢ 0 → detach l p ≡ ok (detached l p)
unfolding detach
detach-ok l p h = rw (set_prev-ok l p h 0, set_next-ok (record l { prev = upd l.prev p 0 }) p h 0)

-- A chain of other blocks stays one when a block is detached.
detached-IsChain :
    (l : Links) (s : Seq) (p : ℕ)
    → IsChain l s
    → ((i : ℕ) → i < s.len → s.at i ≢ p)
    → IsChain (detached l p) s
detached-IsChain l s p c h =
    other_next-IsChain (record l { prev = upd l.prev p 0 }) s (other_prev-IsChain l s c p 0 h) p 0 h

module _ (q : Queue) (s : Seq) (v : IsQueue q s) where
  open v use {chain as c}

  -- dequeue_head_i on a queue that is not empty returns the first block, and leaves the others in
  -- their order.
  pub dequeue_head_i-drop : 0 < s.len → Returns (Dequeued q (s.at 0) (drop 1 s)) (dequeue_head_i q)
  unfolding dequeue_head_i
  dequeue_head_i-drop p =
      let head : q.head ≡ s.at 0 = ground (arith, v.head) in
      let real : q.head ≢ 0 = ground (arith, c.real 0) in
      let next : q.links.next q.head ≡ (if 1 == s.len then 0 else s.at 1) =
        ground (arith, c.next 0) in
      Returns-if (q.head == 0) (λ e. absurd (ground arith))
        λ _. rw (get_next-ok q.links q.head real) (
          Returns-bind {T = Links} {P = λ l. IsChain l (drop 1 s)}
            (Returns-if (q.links.next q.head == 0)
              (λ e. returns (nothing-IsChain q.links (drop 1 s) (ground (arith, c.real 1))))
              (λ e.
                let more : 1 < s.len = ground arith in
                rw
                  (
                    set_prev-ok q.links (q.links.next q.head) (ground arith) 0,
                    next,
                    ne→== 1 s.len (omega arith),
                  )
                  (returns (drop-IsChain q.links s c 1 more))))
            λ l d.
              rw (detach-ok l q.head real, head)
                (returns (record {
                  item = refl;
                  status = refl;
                  queue = record {
                    head = ground (arith, c.real 1);
                    tail = ground (arith, v.tail, c.real 1);
                    count = omega (arith, v.count);
                    chain =
                        detached-IsChain l (drop 1 s) (s.at 0) d
                          (λ i r. c.distinct (i + 1) 0 (omega arith) p (omega arith));
                  };
                  free = (ground arith, ground arith);
                  mark = refl;
                })))

  -- dequeue_tail_i on a queue that is not empty returns the last block, and leaves the others in
  -- their order.
  pub dequeue_tail_i-take :
      0 < s.len → Returns (Dequeued q (s.at (s.len - 1)) (take (s.len - 1) s)) (dequeue_tail_i q)
  unfolding dequeue_tail_i
  dequeue_tail_i-take p =
      let tail : q.tail ≡ s.at (s.len - 1) = ground (arith, v.tail) in
      let real : q.tail ≢ 0 = ground (arith, c.real (s.len - 1)) in
      let prev : q.links.prev q.tail ≡ (if s.len - 1 == 0 then 0 else s.at (s.len - 1 - 1)) =
        ground (arith, c.prev (s.len - 1)) in
      Returns-if (q.tail == 0) (λ e. absurd (ground arith))
        λ _. rw (get_prev-ok q.links q.tail real) (
          Returns-bind {T = Links} {P = λ l. IsChain l (take (s.len - 1) s)}
            (Returns-if (q.links.prev q.tail == 0)
              (λ e. returns (
                nothing-IsChain q.links (take (s.len - 1) s)
                  (ground (arith, c.real (s.len - 1 - 1)))))
              (λ e.
                let more : 0 < s.len - 1 = ground arith in
                rw
                  (
                    set_next-ok q.links (q.links.prev q.tail) (ground arith) 0,
                    prev,
                    ne→== (s.len - 1) 0 (omega arith),
                  )
                  (returns (take-IsChain q.links s c (s.len - 1) more (omega arith)))))
            λ l d.
              rw (detach-ok l q.tail real, tail)
                (returns (record {
                  item = refl;
                  status = refl;
                  queue = record {
                    head = ground (arith, v.head, c.real (s.len - 1 - 1));
                    tail = ground (arith, c.real (s.len - 1 - 1));
                    count = omega (arith, v.count);
                    chain =
                        detached-IsChain l (take (s.len - 1) s) (s.at (s.len - 1)) d (λ i r.
                          c.distinct i (s.len - 1) (omega arith) (omega arith) (omega arith));
                  };
                  free = (ground arith, ground arith);
                  mark = refl;
                })))

  -- On an empty queue both refuse, and change nothing.
  pub dequeue_i-empty :
      s.len ≡ 0
      → (dequeue_head_i q ≡ ok (q, 0, negsuc 0)) × (dequeue_tail_i q ≡ ok (q, 0, negsuc 0))
  unfolding dequeue_head_i dequeue_tail_i
  dequeue_i-empty e = (ground (arith, v.head), ground (arith, v.tail))
