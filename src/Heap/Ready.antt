-- ===== src/Heap/Ready.antt =====
-- ndk/heap.h: the state in which shift_up and shift_down run, and what they return.
use cute_ndk.Base.{ℕ, ◌≤◌, ◌<◌, ◌≡◌, ◌≢◌, refl, Bool, some, ok, arith}
use cute_ndk.Base.Array.{upd, load-ok, store-ok}
use cute_ndk.Heap.{Heap, item_at, place}
use cute_ndk.Heap.Order.{IsHeap}
use cute_ndk.Heap.Places.{
  IsPlaced, Hole, Same, Same-refl, Same-trans, move-Hole, move-Same, fill-IsPlaced,
}

abbrev pub id : ℕ → ℕ
id p = p

-- The heap once `p` has been placed at `i`.
abbrev pub placed_at : Heap → ℕ → ℕ → Heap
placed_at h i p = record h {
  cells = record (h.cells) { at = upd h.cells.at i p };
  heap_idx = upd h.heap_idx p (some i);
}

-- The place `i` is a hole that waits for the item `m`.
pub record Ready (h : Heap) (i m : ℕ) : Type 0 where
  pub room : h.size ≤ h.cells.cap
  pub inside : i < h.cells.cap
  pub real : m ≢ 0
  pub others : (c : ℕ) → c < h.size → c ≢ i → h.cells.at c ≢ 0
  pub hole : Hole id h.size (upd h.cells.at i m) h.heap_idx i

-- The same items and `m`, in order, and each item knows its place.
pub record Sifted (before : ℕ → ℕ → Bool) (h : Heap) (i m : ℕ) (h' : Heap) : Type 0 where
  pub size : h'.size ≡ h.size
  pub max : h'.max_size ≡ h.max_size
  pub cap : h'.cells.cap ≡ h.cells.cap
  pub heap : IsHeap before h.size h'.cells.at
  pub placed : IsPlaced id h.size h'.cells.at h'.heap_idx
  pub same : Same h.size h'.cells.at (upd h.cells.at i m)

pub item_at-ok :
    (h : Heap) (i : ℕ) → i < h.cells.cap → h.cells.at i ≢ 0 → item_at h i ≡ ok (h.cells.at i)
unfolding item_at
item_at-ok h i p q = rw (load-ok h.cells i p) (ground arith)

pub place-ok : (h : Heap) (i p : ℕ) → i < h.cells.cap → p ≢ 0 → place h i p ≡ ok (placed_at h i p)
unfolding place
place-ok h i p q r = rw (store-ok h.cells i p q) (ground arith)

module _ (h : Heap) (i m : ℕ) (r : Ready h i m) where
  -- The item at `k` moves into the hole, and `k` is the hole.
  pub move-Ready : (k : ℕ) → k < h.size → k ≢ i → Ready (placed_at h i (h.cells.at k)) k m
  move-Ready k p q = record {
    room = r.room;
    inside = omega (arith, r.room);
    real = r.real;
    others = λ c s t. ground (arith, r.others c, r.others k);
    hole = move-Hole id h.size h.cells.at h.heap_idx i m r.hole k p q;
  }

  module _ (before : ℕ → ℕ → Bool) where
    pub fill-Sifted :
        IsHeap before h.size (upd h.cells.at i m) → Sifted before h i m (placed_at h i m)
    fill-Sifted s = record {
      size = refl;
      max = refl;
      cap = refl;
      heap = s;
      placed = fill-IsPlaced id h.size h.cells.at h.heap_idx i m r.hole;
      same = Same-refl h.size (upd h.cells.at i m);
    }

    pub move-Sifted :
        (k : ℕ) (h' : Heap)
        → i < h.size
        → k < h.size
        → Sifted before (placed_at h i (h.cells.at k)) k m h'
        → Sifted before h i m h'
    move-Sifted k h' p q s = record {
      size = s.size;
      max = s.max;
      cap = s.cap;
      heap = s.heap;
      placed = s.placed;
      same = Same-trans h.size h'.cells.at _ _ s.same (move-Same h.size h.cells.at i k m p q);
    }
