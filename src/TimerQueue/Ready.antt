-- ===== src/TimerQueue/Ready.antt =====
-- ndk/timer_queue.cpp: the state in which reheap_up and reheap_down run, and what they return.
use cute_ndk.Base.{
  ℕ, ◌⊎◌, inl, inr, ◌≤◌, ◌<◌, ◌≡◌, ◌≢◌, refl, Option, none, some, ok, lt→ltb, arith,
}
use native.Mathlib.Decide.{ℕ_discrete}
use cute_ndk.Base.Array.{upd, store-ok}
use cute_ndk.Heap.Order.{IsHeap}
use cute_ndk.Heap.Places.{
  IsPlaced, Hole, Same, Same-refl, Same-trans, move-Hole, move-Same, fill-IsPlaced,
}
use cute_ndk.TimerQueue.{TimerQueue, Node, deref, copy, known}
use cute_ndk.TimerQueue.Order.{earlier}

-- The id of a timer, where it has one.
abbrev pub key_of : Option ℕ → ℕ
key_of none = 0
key_of (some id) = id

abbrev pub key : TimerQueue → ℕ → ℕ
key q p = key_of (q.nodes p).timer_id

-- A timer node with an id that the arrays have room for.
pub record IsNode (nodes : ℕ → Node) (max_size ids_cap : ℕ) (p : ℕ) : Type 0 where
  pub real : p ≢ 0
  pub has_id : (nodes p).timer_id ≡ some (key_of (nodes p).timer_id)
  pub small : key_of (nodes p).timer_id < max_size
  pub fits : key_of (nodes p).timer_id < ids_cap

abbrev pub IsTimer : TimerQueue → ℕ → Type 0
IsTimer q p = IsNode q.nodes q.max_size q.timer_ids.cap p

-- The queue with other contents of the two arrays.
abbrev pub with_cells : TimerQueue → (ℕ → ℕ) → (ℕ → Option ℕ) → TimerQueue
with_cells q slots index = record q {
  timer_heap = record (q.timer_heap) { at = slots };
  timer_ids = record (q.timer_ids) { at = index };
}

-- The queue once the node `p` has been copied to the place `i`.
abbrev pub copied : TimerQueue → ℕ → ℕ → TimerQueue
copied q i p = with_cells q (upd q.timer_heap.at i p) (upd q.timer_ids.at (key q p) (some i))

pub deref-ok : (q : TimerQueue) (p : ℕ) → p ≢ 0 → deref q p ≡ ok (q.nodes p)
unfolding deref
deref-ok q p h = ground arith

known-ok : (id : Option ℕ) → id ≡ some (key_of id) → known id ≡ ok (key_of id)
known-ok id h = ground arith

pub copy-ok :
    (q : TimerQueue) (i p : ℕ) → i < q.timer_heap.cap → IsTimer q p → copy q i p ≡ ok (copied q i p)
unfolding copy
copy-ok q i p h t =
    rw
      (
        store-ok q.timer_heap i p h,
        deref-ok q p t.real,
        known-ok (q.nodes p).timer_id t.has_id,
        lt→ltb (key q p) q.max_size t.small,
        store-ok q.timer_ids (key q p) (some i) t.fits,
      )
      refl

-- Of the first `n` places, `i` is a hole that waits for the node `m`.
pub record Ready (n : ℕ) (q : TimerQueue) (i m : ℕ) : Type 0 where
  pub room : n ≤ q.timer_heap.cap
  pub inside : i < n
  pub moved : IsTimer q m
  pub others : (c : ℕ) → c < n → c ≢ i → IsTimer q (q.timer_heap.at c)
  pub hole : Hole (key q) n (upd q.timer_heap.at i m) q.timer_ids.at i

-- The same timers and `m`, in order; the id of each is mapped to its place, and no other id is
-- touched.
pub record Sifted (n : ℕ) (q : TimerQueue) (i m : ℕ) (q' : TimerQueue) : Type 0 where
  pub slots : ℕ → ℕ
  pub index : ℕ → Option ℕ
  pub result : q' ≡ with_cells q slots index
  pub heap : IsHeap (earlier q) n slots
  pub placed : IsPlaced (key q) n slots index
  pub same : Same n slots (upd q.timer_heap.at i m)
  pub kept : (j : ℕ) → ((c : ℕ) × (c < n) × (key q (slots c) ≡ j)) ⊎ (index j ≡ q.timer_ids.at j)

module _ (n : ℕ) (q : TimerQueue) (i m : ℕ) (r : Ready n q i m) where
  -- The node at `k` moves into the hole, and `k` is the hole.
  pub move-Ready : (k : ℕ) → k < n → k ≢ i → Ready n (copied q i (q.timer_heap.at k)) k m
  move-Ready k p e = record {
    room = r.room;
    inside = p;
    moved = r.moved;
    others = λ c s t. ground (arith, r.others c, r.others k);
    hole = move-Hole (key q) n q.timer_heap.at q.timer_ids.at i m r.hole k p e;
  }

  pub fill-Sifted : IsHeap (earlier q) n (upd q.timer_heap.at i m) → Sifted n q i m (copied q i m)
  fill-Sifted s = record {
    slots = upd q.timer_heap.at i m;
    index = upd q.timer_ids.at (key q m) (some i);
    result = refl;
    heap = s;
    placed = fill-IsPlaced (key q) n q.timer_heap.at q.timer_ids.at i m r.hole;
    same = Same-refl n (upd q.timer_heap.at i m);
    kept = λ j. elim (ℕ_discrete j (key q m)) [
      | yes e ↦ inl (i, r.inside, ground arith)
      | no e ↦ inr (ground arith)
    ];
  }

  pub move-Sifted :
      (k : ℕ) (q' : TimerQueue)
      → k < n
      → k ≢ i
      → Sifted n (copied q i (q.timer_heap.at k)) k m q'
      → Sifted n q i m q'
  move-Sifted k q' p e s = record {
    slots = s.slots;
    index = s.index;
    result = s.result;
    heap = s.heap;
    placed = s.placed;
    same = Same-trans n s.slots _ _ s.same (move-Same n q.timer_heap.at i k m r.inside p);
    kept = λ j. elim (s.kept j) [
      | inl found ↦ inl found
      | inr same_as ↦ elim (ℕ_discrete j (key q (q.timer_heap.at k))) [
        | yes a ↦
            let (d, u, x) = (s.same (q.timer_heap.at k)).1 (i, r.inside, ground arith) in
            inl (d, u, ground arith)
        | no a ↦ inr (ground arith)
      ]
    ];
  }
