-- ===== src/TimerQueue/Ids.antt =====
-- ndk/timer_queue.cpp: alloc_timerid finds the lowest free id, and there is one.
use cute_ndk.Base.{
  ℕ, zero, suc, ◌+◌, ◌-◌, ◌≤◌, ◌<◌, ◌≡◌, ◌≢◌, inl, inr, refl, Option, none, some, Option-cases,
  Bool-cases, ltb, arith,
}
use cute_ndk.Base.Pigeonhole.{pigeonhole}
use cute_ndk.TimerQueue.{TimerQueue}
use cute_ndk.TimerQueue.Nodes.{find_id, alloc_timerid}
use cute_ndk.TimerQueue.Ready.{key, key_of}
use cute_ndk.TimerQueue.Arrays.{Arrays}

-- The first free id from `i` on, or none among `k` ids.
abbrev Found : (ℕ → Option ℕ) → ℕ → ℕ → Option ℕ → Type 0
Found ids i k none = (l : ℕ) → i ≤ l → l < i + k → ids l ≢ none
Found ids i k (some j) =
    (i ≤ j) × (j < i + k) × (ids j ≡ none) × ((l : ℕ) → i ≤ l → l < j → ids l ≢ none)

Found-later :
    (ids : ℕ → Option ℕ) (i k : ℕ) (o : Option ℕ)
    → ids i ≢ none
    → Found ids (i + 1) k o
    → Found ids i (suc k) o
Found-later ids i k none h f = λ l p s. ground (arith, f l)
Found-later ids i k (some j) h (a, b, c, d) =
    (omega arith, omega arith, c, λ l p s. ground (arith, d l))

find_id-Found : (k : ℕ) (ids : ℕ → Option ℕ) (i : ℕ) → Found ids i k (find_id k ids i)
unfolding find_id
find_id-Found zero ids i = λ l p s. absurd (omega arith)
find_id-Found (suc k) ids i =
    let rest = find_id-Found k ids (i + 1) in
    elim (Option-cases (ids i)) [
      | inl e ↦ rw (e, Found) (omega arith, omega arith, e, λ l p s. absurd (omega arith))
      | inr (j, e) ↦ rw (e, Found) (Found-later ids i k _ (ground arith) rest)
    ]

module _ (q : TimerQueue) (v : Arrays none q) where
  -- The ids in use are as many as the timers.
  in_use :
      (m : ℕ) → m ≤ q.timer_ids.cap → ((l : ℕ) → l < m → q.timer_ids.at l ≢ none) → m ≤ q.curr_size
  in_use m h full = elim (Bool-cases (ltb q.curr_size m)) [
    | inl over ↦ absurd (
        pigeonhole q.curr_size (λ l. key_of (q.timer_ids.at l))
          (λ c s. (slot_of c (ground arith)).0)
          (λ c d s t e. ground (arith, (slot_of c (ground arith)).1, (slot_of d (ground arith)).1)))
    | inr under ↦ ground arith
  ]
    where
      slot_of :
          (l : ℕ)
          → l < m
          → (key_of (q.timer_ids.at l) < q.curr_size)
            × (key q (q.timer_heap.at (key_of (q.timer_ids.at l))) ≡ l)
      slot_of l s =
          v.live l (key_of (q.timer_ids.at l)) (omega arith) (ground arith)
            (ground (arith, full l s))

  -- What alloc_timerid does: there is a free id, it is the lowest, and no more than the number of
  -- timers.
  pub record Fresh (j : ℕ) : Type 0 where
    pub result : alloc_timerid q ≡ (record q { min_timer_id = q.min_timer_id + 1 }, some j)
    pub bound : j ≤ q.curr_size
    pub free : q.timer_ids.at j ≡ none
    pub lowest : (l : ℕ) → l < j → q.timer_ids.at l ≢ none

  abbrev search : Option ℕ
  search = find_id (q.timer_ids.cap - q.min_timer_id) q.timer_ids.at q.min_timer_id

  Fresh-of :
      (o : Option ℕ)
      → search ≡ o
      → Found q.timer_ids.at q.min_timer_id (q.timer_ids.cap - q.min_timer_id) o
      → (j : ℕ) × Fresh j
  unfolding alloc_timerid
  Fresh-of none e f =
      let all = in_use q.timer_ids.cap (omega arith) (λ l h. ground (arith, f l, v.used l)) in
      absurd (omega (arith, all, v.room, v.ids_cap))
  Fresh-of (some j) e (a, b, c, d) = (
    j,
    record {
      result = rw (alloc_timerid, e) refl;
      bound = in_use j (omega arith) (λ l h. ground (arith, d l, v.used l));
      free = c;
      lowest = λ l h. ground (arith, d l, v.used l);
    },
  )

  pub alloc_timerid-Fresh : (j : ℕ) × Fresh j
  alloc_timerid-Fresh =
      Fresh-of search refl
        (find_id-Found (q.timer_ids.cap - q.min_timer_id) q.timer_ids.at q.min_timer_id)
