-- ===== src/TimerQueue/Up.antt =====
-- ndk/timer_queue.cpp: reheap_up.
use cute_ndk.Base.{
  ℕ, zero, suc, ◌<◌, ◌≢◌, inl, inr, arith, ltb, ltb→lt, Returns, returns, Returns-if, Returns-map,
}
use cute_ndk.Base.Array.{upd, load-ok}
use cute_ndk.Heap.Order.{parent, UpInv, rise-UpInv, settle_up}
use cute_ndk.TimerQueue.{TimerQueue, reheap_up}
use cute_ndk.TimerQueue.Order.{earlier, earlier-IsOrder}
use cute_ndk.TimerQueue.Ready.{
  Ready, Sifted, copied, deref-ok, copy-ok, move-Ready, fill-Sifted, move-Sifted,
}

-- reheap_up brings the moved node up to where the order holds.
pub reheap_up-Sifted :
    (k n : ℕ) (q : TimerQueue) (i m : ℕ)
    → i < k
    → Ready n q i m
    → UpInv (earlier q) n (upd q.timer_heap.at i m) i
    → Returns (Sifted n q i m) (reheap_up k q m i (parent i))
unfolding reheap_up
reheap_up-Sifted zero n q i m f r v = absurd (omega arith)
reheap_up-Sifted (suc k) n q i m f r v =
    let order = earlier-IsOrder q in
    let slots = q.timer_heap.at in
    rw (copy-ok q i m (omega (arith, r.room, r.inside)) r.moved) (
      Returns-if (ltb 0 i)
        (λ pos.
          let low : 0 < i = ltb→lt 0 i pos in
          let up : parent i < i = omega arith in
          let far : parent i ≢ i = omega arith in
          let there = r.others (parent i) (omega (arith, r.inside)) far in
          rw
            (
              load-ok q.timer_heap (parent i) (omega (arith, r.room, r.inside)),
              deref-ok q m r.moved.real,
              deref-ok q (slots (parent i)) there.real,
            )
            (Returns-if (earlier q m (slots (parent i)))
              (λ b. rw (copy-ok q i (slots (parent i)) (omega (arith, r.room, r.inside)) there) (
                Returns-map
                  (reheap_up-Sifted k n (copied q i (slots (parent i))) (parent i) m (omega arith)
                    (move-Ready n q i m r (parent i) (omega (arith, r.inside)) far)
                    (rise-UpInv order n slots i m v low b))
                  λ q'. move-Sifted n q i m r (parent i) q' (omega (arith, r.inside)) far))
              (λ b. returns (fill-Sifted n q i m r (settle_up order n slots i m v (inr b))))))
        (λ root.
          returns (fill-Sifted n q i m r (settle_up order n slots i m v (inl (ground arith))))))
