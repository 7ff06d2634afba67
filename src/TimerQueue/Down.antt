-- ===== src/TimerQueue/Down.antt =====
-- ndk/timer_queue.cpp: reheap_down.
use cute_ndk.Base.{
  ℕ, zero, suc, ◌+◌, ◌*◌, ◌<◌, ◌≡◌, ◌≢◌, inl, inr, ◌⊎◌, refl, Bool-cases, arith, ltb, ltb→lt,
  Returns, returns, Returns-if, Returns-map, Returns-bind,
}
use cute_ndk.Base.Array.{upd, load-ok}
use cute_ndk.Heap.Order.{
  parent, IsFirstChild, DownInv, irrefl, sink-DownInv, settle_down, settle_leaf,
}
use cute_ndk.TimerQueue.{TimerQueue, smaller_child, reheap_down}
use cute_ndk.TimerQueue.Order.{earlier, earlier-IsOrder}
use cute_ndk.TimerQueue.Ready.{
  Ready, Sifted, copied, deref-ok, copy-ok, move-Ready, fill-Sifted, move-Sifted,
}

-- The places below `i`.
children : (c i : ℕ) → 0 < c → parent c ≡ i → (c ≡ i * 2 + 1) ⊎ (c ≡ i * 2 + 1 + 1)
children c i p e = omega arith

smaller_child-IsFirstChild :
    (q : TimerQueue) (i m : ℕ)
    → Ready q.curr_size q i m
    → i * 2 + 1 < q.curr_size
    → Returns (IsFirstChild (earlier q) q.curr_size q.timer_heap.at i) (smaller_child q (i * 2 + 1))
unfolding smaller_child
smaller_child-IsFirstChild q i m r p =
    let order = earlier-IsOrder q in
    let slots = q.timer_heap.at in
    let left = slots (i * 2 + 1) in
    let right = slots (i * 2 + 1 + 1) in
    Returns-if (ltb (i * 2 + 1 + 1) q.curr_size)
      (λ two.
        rw
          (
            load-ok q.timer_heap (i * 2 + 1 + 1) (ground (arith, r.room)),
            deref-ok q right (r.others _ (ltb→lt _ _ two) (omega arith)).real,
            load-ok q.timer_heap (i * 2 + 1) (omega (arith, r.room)),
            deref-ok q left (r.others _ p (omega arith)).real,
          )
          (elim (Bool-cases (earlier q right left)) [
            | inl e ↦ rw e (
                returns (record {
                  inside = ltb→lt _ _ two;
                  child = inr (omega arith);
                  first = λ c a s t.
                      ground
                        (arith, children c i a t, irrefl order (slots c), order.asym left right);
                }))
            | inr e ↦ rw e (
                returns (record {
                  inside = p;
                  child = inl refl;
                  first = λ c a s t. ground (arith, children c i a t, irrefl order (slots c));
                }))
          ]))
      (λ one. returns (record {
        inside = p;
        child = inl refl;
        first = λ c a s t. ground (arith, children c i a t, irrefl order (slots c));
      }))

-- reheap_down brings the moved node down to where the order holds.
pub reheap_down-Sifted :
    (k : ℕ) (q : TimerQueue) (i m : ℕ)
    → q.curr_size < k + i
    → Ready q.curr_size q i m
    → DownInv (earlier q) q.curr_size (upd q.timer_heap.at i m) i
    → Returns (Sifted q.curr_size q i m) (reheap_down k q m i (i * 2 + 1))
unfolding reheap_down
reheap_down-Sifted zero q i m f r v = absurd (omega (arith, r.inside))
reheap_down-Sifted (suc k) q i m f r v =
    let order = earlier-IsOrder q in
    let slots = q.timer_heap.at in
    rw (copy-ok q i m (omega (arith, r.room, r.inside)) r.moved) (
      Returns-if (ltb (i * 2 + 1) q.curr_size)
        (λ below. Returns-bind (smaller_child-IsFirstChild q i m r (ltb→lt _ _ below)) λ c s.
          let far : c ≢ i = omega (arith, s.child) in
          let there = r.others c s.inside far in
          rw
            (
              load-ok q.timer_heap c (omega (arith, r.room, s.inside)),
              deref-ok q (slots c) there.real,
              deref-ok q m r.moved.real,
            )
            (elim (Bool-cases (earlier q (slots c) m)) [
              | inl b ↦
                  rw (b, copy-ok q i (slots c) (omega (arith, r.room, r.inside)) there)
                    (Returns-map
                      (reheap_down-Sifted k (copied q i (slots c)) c m (omega (arith, s.child))
                        (move-Ready q.curr_size q i m r c s.inside far)
                        (sink-DownInv order q.curr_size slots i m c v s b))
                      λ q'. move-Sifted q.curr_size q i m r c q' s.inside far)
              | inr b ↦ rw b (
                  returns (
                    fill-Sifted q.curr_size q i m r
                      (settle_down order q.curr_size slots i m c v s b)))
            ]))
        (λ leaf. returns (
          fill-Sifted q.curr_size q i m r
            (settle_leaf order q.curr_size slots i m v (ground arith)))))
