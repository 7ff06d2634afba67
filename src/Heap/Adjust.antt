-- ===== src/Heap/Adjust.antt =====
-- ndk/heap.h: adjust, which takes an item out and puts it back after its priority has changed.
use cute_ndk.Base.{ℕ, ◌≡◌, ◌≢◌, Bool, true, false, Option, none, some, ok, arith}
use cute_ndk.Base.Array.{upd, load, store}
use cute_ndk.Base.Int.{pos}
use cute_ndk.Heap.{Heap, adjust, pop_at, push, place, item_at, shift_up}
use cute_ndk.Heap.Ready.{placed_at}
use cute_ndk.Heap.Valid.{Holds}

-- A heap of two items, of which the second now stands before the first.
module _ (before : ℕ → ℕ → Bool) (at : ℕ → ℕ) (index : ℕ → Option ℕ) where
  abbrev pub pair_heap : Heap
  pair_heap = record {
    max_size = 2;
    size = 2;
    cells = record { cap = 2; at = at };
    heap_idx = index;
  }

  -- What pop leaves: one item, which is still there.
  abbrev popped : Heap
  popped = placed_at (placed_at (record pair_heap { size = 1 }) 1 (at 0)) 0 (at 1)

  abbrev after : Heap
  after =
      placed_at (record popped { size = 2; heap_idx = upd popped.heap_idx (at 1) none }) 1 (at 1)

  -- The two items are distinct, the second keeps its index, and it now stands before the first.
  module _ (real : at 0 ≢ 0) (real' : at 1 ≢ 0) (own : index (at 1) ≡ some 1)
      (now : before (at 1) (at 0) ≡ true) where
    pop_at-pair : pop_at before pair_heap (some 1) ≡ ok (popped, at 1)
    unfolding pop_at shift_up place item_at load store
    pop_at-pair = ground arith

    push-after :
        before (at 1) (at 1) ≡ false
        → push before (record popped { heap_idx = upd popped.heap_idx (at 1) none }) (at 1)
          ≡ ok (after, pos 0)
    unfolding push shift_up place item_at load store
    push-after same = ground arith

    -- adjust of the second of two items, once it stands before the first, reports success, and the
    -- first item is in the heap no more.
    pub adjust-loses :
        before (at 1) (at 1) ≡ false
        → at 0 ≢ at 1
        → (h : Heap) × (adjust before pair_heap (at 1) ≡ ok (h, pos 0)) × ¬ Holds h (at 0)
    unfolding adjust load
    adjust-loses same apart =
        (after, ground (arith, pop_at-pair, push-after same), λ (c, p, e). ground arith)
