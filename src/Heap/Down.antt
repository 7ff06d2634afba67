-- ===== src/Heap/Down.antt =====
-- ndk/heap.h: shift_down. The hole may be the first place behind the heap, where the moved item
-- lies already.
use cute_ndk.Base.{
  ℕ, zero, suc, ◌+◌, ◌*◌, ◌≤◌, ◌<◌, ◌≡◌, ◌≢◌, inl, inr, ◌⊎◌, refl, Bool, Bool-cases, arith, ltb,
  ltb→lt, Returns, returns, Returns-if, Returns-map, Returns-bind,
}
use cute_ndk.Base.Array.{upd}
use cute_ndk.Base.Order.{IsOrder}
use cute_ndk.Heap.{Heap, first_child, down_loop, shift_down}
use cute_ndk.Heap.Order.{
  parent, IsFirstChild, DownInv, irrefl, sink-DownInv, settle_down, settle_leaf,
}
use cute_ndk.Heap.Ready.{
  Ready, Sifted, placed_at, item_at-ok, place-ok, move-Ready, fill-Sifted, move-Sifted,
}

-- The places below `i`.
children : (c i : ℕ) → 0 < c → parent c ≡ i → (c ≡ i * 2 + 1) ⊎ (c ≡ i * 2 + 1 + 1)
children c i p e = omega arith

module _ {before : ℕ → ℕ → Bool} (order : IsOrder before) where
  first_child-IsFirstChild :
      (h : Heap) (i m : ℕ)
      → Ready h i m
      → i * 2 + 1 < h.size
      → Returns (IsFirstChild before h.size h.cells.at i) (first_child before h (i * 2 + 1))
  unfolding first_child
  first_child-IsFirstChild h i m r p =
      Returns-if (ltb (i * 2 + 1 + 1) h.size)
        (λ two.
          rw
            (
              item_at-ok h (i * 2 + 1) (omega (arith, r.room)) (r.others _ p (omega arith)),
              item_at-ok h (i * 2 + 1 + 1) (ground (arith, r.room))
                  (r.others _ (ltb→lt _ _ two) (omega arith)),
            )
            (elim (Bool-cases (before (h.cells.at (i * 2 + 1 + 1)) (h.cells.at (i * 2 + 1)))) [
              | inl e ↦ rw e (
                  returns (record {
                    inside = ltb→lt _ _ two;
                    child = inr (omega arith);
                    first = λ c q s t. ground (
                      arith,
                      children c i q t,
                      irrefl order (h.cells.at c),
                      order.asym (h.cells.at (i * 2 + 1 + 1)) (h.cells.at (i * 2 + 1)),
                    );
                  }))
              | inr e ↦ rw e (
                  returns (record {
                    inside = p;
                    child = inl refl;
                    first =
                        λ c q s t. ground (arith, children c i q t, irrefl order (h.cells.at c));
                  }))
            ]))
        (λ one. returns (record {
          inside = p;
          child = inl refl;
          first = λ c q s t. ground (arith, children c i q t, irrefl order (h.cells.at c));
        }))

  down_loop_restores :
      (k : ℕ) (h : Heap) (i m : ℕ)
      → h.size < k + i
      → i ≤ h.size
      → Ready h i m
      → DownInv before h.size (upd h.cells.at i m) i
      → Returns (Sifted before h i m) (down_loop before k h i m)
  unfolding down_loop
  down_loop_restores zero h i m f p r v = absurd (omega arith)
  down_loop_restores (suc k) h i m f p r v = rw (place-ok h i m r.inside r.real) (
      Returns-if (ltb (i * 2 + 1) h.size)
        (λ below. Returns-bind (first_child-IsFirstChild h i m r (ltb→lt _ _ below)) λ c s.
          let far : c ≢ i = omega (arith, s.child) in
          let there = r.others c s.inside far in
          rw (item_at-ok h c (omega (arith, r.room, s.inside)) there)
            (elim (Bool-cases (before (h.cells.at c) m)) [
              | inl b ↦
                  rw (b, place-ok h i (h.cells.at c) r.inside there)
                    (Returns-map
                      (down_loop_restores k (placed_at h i (h.cells.at c)) c m
                        (omega (arith, s.child)) (omega (arith, s.inside))
                        (move-Ready h i m r c s.inside far)
                        (sink-DownInv order h.size h.cells.at i m c v s b))
                      λ h'. move-Sifted h i m r before c h' (omega arith) s.inside)
              | inr b ↦ rw b (
                  returns
                    (fill-Sifted h i m r before (settle_down order h.size h.cells.at i m c v s b)))
            ]))
        (λ leaf.
          returns (
            fill-Sifted h i m r before (settle_leaf order h.size h.cells.at i m v (ground arith)))))

  pub shift_down_restores :
      (h : Heap) (i m : ℕ)
      → i ≤ h.size
      → Ready h i m
      → DownInv before h.size (upd h.cells.at i m) i
      → Returns (Sifted before h i m) (shift_down before h i m)
  unfolding shift_down
  shift_down_restores h i m = down_loop_restores (h.size + 1) h i m (omega arith)
