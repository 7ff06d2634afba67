-- ===== src/Heap/Tests.antt =====
-- Runs of the heap on small inputs, and the theorems at concrete heaps.
use cute_ndk.Base.{ℕ, ◌≡◌, ◌↔◌, refl, Bool, Option, none, some, Run, ok, ◌>>=◌, Returns, arith}
use cute_ndk.Base.Array.{upd, load, store}
use cute_ndk.Base.Int.{pos, negsuc}
use cute_ndk.Heap.{
  Heap, min_heap, before, init, push, pop, pop_at, erase, adjust, shift_up, shift_down, item_at,
  place,
}
use cute_ndk.Heap.Order.{IsHeap}
use cute_ndk.Heap.Kinds.{before-IsOrder}
use cute_ndk.Heap.Valid.{Holds, IsValid}
use cute_ndk.Heap.Insert.{Pushed, push_correct}
use cute_ndk.Heap.Remove.{Removed, Popped, pop_correct, erase_correct, remove_empty}
use cute_ndk.Heap.Adjust.{pair_heap, adjust-loses}
use cute_ndk.Heap.Check.{check, check_iff}

-- Each item is its own priority.
abbrev priority : ℕ → ℕ
priority p = p

abbrev min : ℕ → ℕ → Bool
min = before min_heap priority

abbrev sample_cells : ℕ → ℕ
sample_cells = upd (upd (upd (λ _. 0) 0 2) 1 5) 2 3

abbrev sample_index : ℕ → Option ℕ
sample_index = upd (upd (upd (λ _. none) 2 (some 0)) 5 (some 1)) 3 (some 2)

abbrev sample : Heap
sample = record {
  max_size = 4;
  size = 3;
  cells = record { cap = 4; at = sample_cells };
  heap_idx = sample_index;
}

sample-IsValid : IsValid min sample
sample-IsValid = record {
  room = omega arith;
  cap = omega arith;
  real = λ c p. ground arith;
  heap = λ c p q. ground arith;
  placed = λ c p. ground arith;
}

-- The items 5, 3 and 2 leave in the order of their priorities.
abbrev session : Run (ℕ × ℕ × ℕ)
session = do
  (a, _) ← push min (init 4) 5
  (b, _) ← push min a 3
  (c, _) ← push min b 2
  (d, x) ← pop min c
  (e, y) ← pop min d
  (f, z) ← pop min e
  ok (x, y, z)

session_result : session ≡ ok (2, 3, 5)
unfolding push pop init shift_up shift_down place item_at load store
session_result = refl

push_correct_example : Returns (Pushed min sample 4) (push min sample 4)
push_correct_example =
    push_correct (before-IsOrder min_heap priority) sample 4 sample-IsValid (omega arith)
      (omega arith) (λ (c, p, e). ground arith)

pop_correct_example : Returns (Popped min sample) (pop min sample)
pop_correct_example =
    pop_correct (before-IsOrder min_heap priority) sample sample-IsValid (omega arith)

erase_correct_example :
    Returns (λ (h', r). (r ≡ pos 0) × Removed min sample 3 h') (erase min sample 3)
erase_correct_example =
    erase_correct (before-IsOrder min_heap priority) sample sample-IsValid 3 (2, omega arith, refl)

abbrev nothing : Heap
nothing = record sample { size = 0 }

remove_empty_example :
    (pop min nothing ≡ ok (nothing, 0))
    × (pop_at min nothing (some 2) ≡ ok (nothing, 0))
    × (erase min nothing 5 ≡ ok (nothing, negsuc 0))
remove_empty_example = remove_empty min nothing (some 2) 5 refl

check_iff_example : (check min sample ≡ ok tt) ↔ IsHeap min 3 sample_cells
check_iff_example =
    check_iff (before-IsOrder min_heap priority) sample (omega arith) sample-IsValid.real

-- Item 5 has been given the priority 1, and item 2 keeps its own.
abbrev raised : ℕ → ℕ
raised = upd (λ p. p) 5 1

adjust-loses_example :
    (h : Heap) × (adjust
        (before min_heap raised)
        (pair_heap (before min_heap raised) sample_cells sample_index)
        5
      ≡ ok (h, pos 0))
    × ¬ Holds h 2
adjust-loses_example =
    adjust-loses (before min_heap raised) sample_cells sample_index (omega arith) (omega arith) refl
      refl refl (omega arith)
