-- ===== src/Heap.antt =====
-- ndk/heap.h: the array heaps `min_heap` and `max_heap` of pointers to items. Each item keeps its
-- place in the member `heap_idx_`, -1 outside a heap. A pointer is a number, 0 the null pointer.
pub mod Order
pub mod Places
pub mod Ready
pub mod Valid
pub mod Up
pub mod Down
pub mod Insert
pub mod Remove
pub mod Kinds
pub mod Check
pub mod Adjust
mod Tests
use cute_ndk.Base.{
  ℕ, zero, suc, ◌+◌, ◌-◌, ◌*◌, ◌/◌, Bool, false, not, Option, none, some, ltb, leb, ◌==◌,
  if◌then◌else◌, Run, ok, fault, out_of_fuel, ◌>>=◌, ◌>>◌, require,
}
use cute_ndk.Base.Array.{Array, make, load, store, upd}
use cute_ndk.Base.Int.{ℤ, pos, negsuc}

-- `heap_idx` is the member `heap_idx_` of every item, `none` for -1.
pub record Heap : Type 0 where
  pub max_size : ℕ
  pub size : ℕ
  pub cells : Array ℕ
  pub heap_idx : ℕ → Option ℕ

-- The constructor. Items are made with `heap_idx_` -1.
pub init : ℕ → Heap
init n = record { max_size = n; size = 0; cells = make n 0; heap_idx = λ _. none }

pub is_empty : Heap → Bool
is_empty h = h.size == 0

pub is_full : Heap → Bool
is_full h = h.size == h.max_size

-- `*(heap_[i])`: the item at a place, which is read through.
unfoldable pub item_at : Heap → ℕ → Run ℕ
item_at h i = do p ← load h.cells i; require (not (p == 0)); ok p

-- `(heap_[i] = p)->heap_idx_ = i`
unfoldable pub place : Heap → ℕ → ℕ → Run Heap
place h i p = do
  cells ← store h.cells i p
  require (not (p == 0))
  ok (record h { cells = cells; heap_idx = upd h.heap_idx p (some i) })

abbrev pub parent : ℕ → ℕ
parent c = (c - 1) / 2

-- Which heap: the one that is ordered by `<`, or the other.
pub data Kind : Type 0 where
  min_heap max_heap : Kind

-- The item's operators compare its priority. `before a b` is `a < b` in a min_heap, and `a > b` in
-- a max_heap.
abbrev pub before : Kind → (ℕ → ℕ) → ℕ → ℕ → Bool
before min_heap priority a b = ltb (priority a) (priority b)
before max_heap priority a b = ltb (priority b) (priority a)

module _ (before : ℕ → ℕ → Bool) where
  -- The loop of shift_up on fuel. It ends by placing the moved item.
  up_loop : ℕ → Heap → ℕ → ℕ → Run Heap
  up_loop zero h i moved = out_of_fuel
  up_loop (suc k) h i moved =
      let rise = λ (p : ℕ). place h i p >>= λ h'. up_loop k h' (parent i) moved in
      let test : Run Heap = do
        p ← item_at h (parent i)
        let up = rise p
        if before moved p then up else place h i moved
      in if ltb 0 i then test else place h i moved

  pub shift_up : Heap → ℕ → ℕ → Run Heap
  unfolding up_loop
  shift_up h i moved = up_loop (i + 1) h i moved

  -- The child that stands first. The right one is read only if it exists.
  first_child : Heap → ℕ → Run ℕ
  first_child h lchild =
      if ltb (lchild + 1) h.size
      then (do
        l ← item_at h lchild
        r ← item_at h (lchild + 1)
        ok (if before r l then lchild + 1 else lchild))
      else ok lchild

  down_loop : ℕ → Heap → ℕ → ℕ → Run Heap
  down_loop zero h i moved = out_of_fuel
  down_loop (suc k) h i moved =
      let sink = λ (c p : ℕ). place h i p >>= λ h'. down_loop k h' c moved in
      let test : Run Heap = do
        c ← first_child h (i * 2 + 1)
        p ← item_at h c
        let down = sink c p
        if not (before p moved) then place h i moved else down
      in if ltb (i * 2 + 1) h.size then test else place h i moved

  pub shift_down : Heap → ℕ → ℕ → Run Heap
  unfolding down_loop first_child
  shift_down h i moved = down_loop (h.size + 1) h i moved

  -- 0 if the item was added, and -1 if the heap is full.
  pub push : Heap → ℕ → Run (Heap × ℤ)
  push h item =
      if leb h.max_size h.size
      then ok (h, negsuc 0)
      else do h' ← shift_up (record h { size = h.size + 1 }) h.size item; ok (h', pos 0)

  -- The first item, or null.
  pub pop : Heap → Run (Heap × ℕ)
  pop h = if h.size == 0 then ok (h, 0) else do
    item ← load h.cells 0
    last ← load h.cells (h.size - 1)
    h' ← shift_down (record h { size = h.size - 1 }) 0 last
    ok (h', item)

  -- `pop(int idx)` with an index that is not negative, and a heap that is not empty.
  pub take_at : Heap → ℕ → Run (Heap × ℕ)
  take_at h i = do
    item ← item_at h i
    require (elim (h.heap_idx item) [ none ↦ false | some j ↦ i == j ])
    let rest = record h { size = h.size - 1 }
    above ← item_at rest (parent i)
    last ← item_at rest rest.size
    h' ← if before last above then shift_up rest i last else shift_down rest i last
    ok (h', item)

  -- The item at an index, or null.
  pub pop_at : Heap → Option ℕ → Run (Heap × ℕ)
  unfolding take_at
  pop_at h none = ok (h, 0)
  pop_at h (some i) = if h.size == 0 then ok (h, 0) else take_at h i

  pub erase : Heap → ℕ → Run (Heap × ℤ)
  erase h item =
      if item == 0
      then ok (h, negsuc 0)
      else do (h', r) ← pop_at h (h.heap_idx item); ok (h', if r == 0 then negsuc 0 else pos 0)

  -- The cell at the item's own index, which faults at the index -1.
  own_cell : Heap → ℕ → Run ℕ
  own_cell h item = elim (h.heap_idx item) [ none ↦ fault | some i ↦ load h.cells i ]

  pub adjust : Heap → ℕ → Run (Heap × ℤ)
  unfolding own_cell
  adjust h item = if item == 0 then ok (h, negsuc 0) else do
    there ← own_cell h item
    require (there == item)
    (h', _) ← pop_at h (h.heap_idx item)
    push (record h' { heap_idx = upd h'.heap_idx item none }) item
