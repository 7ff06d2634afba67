-- ===== src/Heap/Check.antt =====
-- ndk/heap.h: check, which asserts the order of the heap.
use cute_ndk.Base.{
  ℕ, zero, suc, ◌+◌, ◌≤◌, ◌<◌, ◌≡◌, ◌≢◌, ◌↔◌, refl, Bool, false, not, Run, ok, ◌>>=◌, ◌>>◌, require,
  arith,
}
use native.Mathlib.Decide.{ℕ_discrete}
use cute_ndk.Base.Order.{IsOrder}
use cute_ndk.Heap.{Heap, item_at}
use cute_ndk.Heap.Order.{parent, IsHeap, irrefl}
use cute_ndk.Heap.Ready.{item_at-ok}

module _ (before : ℕ → ℕ → Bool) where
  -- The loop, with the rounds that are left.
  check_from : ℕ → Heap → ℕ → Run (Unit {0})
  check_from zero h i = ok tt
  check_from (suc n) h i = do
    item ← item_at h i
    above ← item_at h (parent i)
    require (not (before item above))
    check_from n h (i + 1)

  pub check : Heap → Run (Unit {0})
  unfolding check_from
  check h = check_from h.size h 0

module _ {before : ℕ → ℕ → Bool} (order : IsOrder before) (h : Heap) (room : h.size ≤ h.cells.cap)
    (real : (c : ℕ) → c < h.size → h.cells.at c ≢ 0) where
  check_from-ok :
      (n i : ℕ) → i + n ≡ h.size → IsHeap before h.size h.cells.at → check_from before n h i ≡ ok tt
  unfolding check_from
  check_from-ok zero i e v = refl
  check_from-ok (suc n) i e v =
      rw
        (
          item_at-ok h i (omega arith) (real i (omega arith)),
          item_at-ok h (parent i) (omega arith) (real (parent i) (omega arith)),
        )
        (ground (arith, v i, irrefl order (h.cells.at i), check_from-ok n (i + 1) (omega arith) v))

  -- A round that passes.
  passed_step :
      (n i : ℕ)
      → i < h.size
      → check_from before (suc n) h i ≡ ok tt
      → (before (h.cells.at i) (h.cells.at (parent i)) ≡ false)
        × (check_from before n h (i + 1) ≡ ok tt)
  unfolding check_from
  passed_step n i p passed =
      let here = item_at-ok h i (omega arith) (real i p) in
      let there = item_at-ok h (parent i) (omega arith) (real (parent i) (omega arith)) in
      ground (arith, here, there)

  check_from-IsHeap :
      (n i : ℕ)
      → i + n ≡ h.size
      → check_from before n h i ≡ ok tt
      → (c : ℕ) → 0 < c
      → i ≤ c
      → c < h.size
      → before (h.cells.at c) (h.cells.at (parent c)) ≡ false
  unfolding check_from
  check_from-IsHeap zero i e passed c p q r = absurd (omega arith)
  check_from-IsHeap (suc n) i e passed c p q r =
      let (settled, rest) = passed_step n i (omega arith) passed in
      elim (ℕ_discrete c i) [
        | yes a ↦ rw a settled
        | no a ↦ check_from-IsHeap n (i + 1) (omega arith) rest c p (omega arith) r
      ]

  -- check passes exactly if no item stands before the one above it, on a heap whose cells hold
  -- items.
  pub check_iff : (check before h ≡ ok tt) ↔ IsHeap before h.size h.cells.at
  unfolding check
  check_iff = (
    λ passed c p q. check_from-IsHeap h.size 0 (omega arith) passed c p (omega arith) q,
    check_from-ok h.size 0 (omega arith),
  )
