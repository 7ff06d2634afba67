-- ===== src/Heap/Kinds.antt =====
-- ndk/heap.h: the two kinds of heap. The classes min_heap and max_heap differ in the comparisons.
use cute_ndk.Base.{ℕ}
use cute_ndk.Base.Order.{IsOrder, by_key, by_key_down}
use cute_ndk.Heap.{Kind, min_heap, max_heap, before}

-- Both compare by the priority, as a heap wants.
pub before-IsOrder : (kind : Kind) (priority : ℕ → ℕ) → IsOrder (before kind priority)
before-IsOrder min_heap priority = by_key priority
before-IsOrder max_heap priority = by_key_down priority
