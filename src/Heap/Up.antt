-- ===== src/Heap/Up.antt =====
-- ndk/heap.h: shift_up.
use cute_ndk.Base.{
  ℕ, zero, suc, ◌+◌, ◌<◌, ◌≢◌, inl, inr, Bool, arith, ltb, ltb→lt, Returns, returns, Returns-if,
  Returns-map,
}
use cute_ndk.Base.Array.{upd}
use cute_ndk.Base.Order.{IsOrder}
use cute_ndk.Heap.{Heap, up_loop, shift_up}
use cute_ndk.Heap.Order.{parent, UpInv, rise-UpInv, settle_up}
use cute_ndk.Heap.Ready.{
  Ready, Sifted, placed_at, item_at-ok, place-ok, move-Ready, fill-Sifted, move-Sifted,
}

module _ {before : ℕ → ℕ → Bool} (order : IsOrder before) where
  up_loop_restores :
      (k : ℕ) (h : Heap) (i m : ℕ)
      → i < k
      → i < h.size
      → Ready h i m
      → UpInv before h.size (upd h.cells.at i m) i
      → Returns (Sifted before h i m) (up_loop before k h i m)
  unfolding up_loop
  up_loop_restores zero h i m f p r v = absurd (omega arith)
  up_loop_restores (suc k) h i m f p r v = rw (place-ok h i m r.inside r.real) (
      Returns-if (ltb 0 i)
        (λ pos.
          let low : 0 < i = ltb→lt 0 i pos in
          let up : parent i < i = omega arith in
          let far : parent i ≢ i = omega arith in
          let there = r.others (parent i) (omega arith) far in
          rw (item_at-ok h (parent i) (omega (arith, r.inside)) there) (
            Returns-if (before m (h.cells.at (parent i)))
              (λ b. rw (place-ok h i (h.cells.at (parent i)) r.inside there) (
                Returns-map
                  (up_loop_restores k (placed_at h i (h.cells.at (parent i))) (parent i) m
                    (omega arith) (omega arith) (move-Ready h i m r (parent i) (omega arith) far)
                    (rise-UpInv order h.size h.cells.at i m v low b))
                  λ h'. move-Sifted h i m r before (parent i) h' p (omega arith)))
              (λ b.
                returns
                  (fill-Sifted h i m r before (settle_up order h.size h.cells.at i m v (inr b))))))
        (λ root. returns (
          fill-Sifted h i m r before
            (settle_up order h.size h.cells.at i m v (inl (ground arith))))))

  pub shift_up_restores :
      (h : Heap) (i m : ℕ)
      → i < h.size
      → Ready h i m
      → UpInv before h.size (upd h.cells.at i m) i
      → Returns (Sifted before h i m) (shift_up before h i m)
  unfolding shift_up
  shift_up_restores h i m = up_loop_restores (i + 1) h i m (omega arith)
