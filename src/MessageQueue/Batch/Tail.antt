-- ===== src/MessageQueue/Batch/Tail.antt =====
-- ndk/message_queue.cpp: what dequeue_tail_n_i returns.
use cute_ndk.Base.{
  ℕ, zero, suc, ◌+◌, ◌-◌, ◌≤◌, ◌<◌, ◌≡◌, refl, ne→==, Bool-cases, inl, inr, ltb, ltb→lt, ◌==◌,
  if◌then◌else◌, arith, ok, fault, Returns, returns, Returns-if,
}
use cute_ndk.Base.Array.{upd}
use cute_ndk.Base.Int.{ℤ, pos, negsuc}
use cute_ndk.Links.{Links, get_next, set_prev}
use cute_ndk.Links.Access.{get_next-ok, get_prev-ok, set_next-ok, set_prev-ok}
use cute_ndk.Links.Chain.{Seq, IsChain, take, drop}
use cute_ndk.Links.Cut.{
  drop-IsChain, take-IsChain, other_next-IsChain, other_prev-IsChain, nothing-IsChain,
  drop_zero-IsChain,
}
use cute_ndk.MessageQueue.{Queue}
use cute_ndk.MessageQueue.Model.{IsQueue}
use cute_ndk.MessageQueue.Request.{IsRequest, at_most, asked, Parted}
use cute_ndk.MessageQueue.Batch.{retreat, take_all, tail_part, dequeue_tail_n_i}

-- The node before the place `i`, or null.
abbrev before_or_null : Seq → ℕ → ℕ
before_or_null s i = if i == 0 then 0 else s.at (i - 1)

module _ (l : Links) (s : Seq) (c : IsChain l s) where
  prev_at : (i : ℕ) → i < s.len → l.prev (s.at i) ≡ before_or_null s i
  prev_at i p = c.prev i p

  retreat_short :
      (n i count : ℕ)
      → i ≤ s.len
      → n ≤ i
      → retreat n l (before_or_null s i) count ≡ ok (before_or_null s (i - n), count + n)
  unfolding retreat
  retreat_short zero i count p h = ground arith
  retreat_short (suc n) i count p h =
      rw
        (
          ne→== i 0 (omega arith),
          ne→== (s.at (i - 1)) 0 (c.real (i - 1) (omega arith)),
          get_prev-ok l (s.at (i - 1)) (c.real (i - 1) (omega arith)),
          prev_at (i - 1) (omega arith),
          retreat_short n (i - 1) (count + 1) (omega arith) (omega arith),
        )
        (ground arith)

  retreat_long :
      (n i count : ℕ)
      → i ≤ s.len
      → i < n
      → retreat n l (before_or_null s i) count ≡ ok (0, count + i)
  unfolding retreat
  retreat_long zero i count p h = absurd (omega arith)
  retreat_long (suc n) i count p h = elim (Bool-cases (i == 0)) [
    | inl e ↦ rw e (ground arith)
    | inr e ↦
        let pos : 0 < i = ground arith in
        rw
          (
            e,
            ne→== (s.at (i - 1)) 0 (c.real (i - 1) (omega arith)),
            get_prev-ok l (s.at (i - 1)) (c.real (i - 1) (omega arith)),
            prev_at (i - 1) (omega arith),
            retreat_long n (i - 1) (count + 1) (omega arith) (omega arith),
          )
          (ground arith)
  ]

module _ (q : Queue) (s : Seq) (v : IsQueue q s) where
  open v use {chain as c}

  -- All blocks leave.
  from_start :
      (q' : Queue) (num : ℕ)
      → q'.links ≡ q.links
      → q'.head ≡ 0
      → q'.tail ≡ 0
      → q'.mb_count ≡ 0
      → q'.high_water_mark ≡ q.high_water_mark
      → num ≡ s.len
      → Parted q (drop 0 s) (take 0 s) (q', q.head, num)
  from_start q' num same head tail count mark size = record {
    items = ground (arith, v.head);
    chain = rw same (drop_zero-IsChain q.links s c);
    count = omega arith;
    queue = record {
      head = head;
      tail = tail;
      count = count;
      chain = nothing-IsChain q'.links (take 0 s) refl;
    };
    mark = mark;
  }

  none_there : s.len ≡ 0 → Parted q (drop 0 s) (take 0 s) (q, 0, 0)
  none_there e = record {
    items = ground arith;
    chain = drop_zero-IsChain q.links s c;
    count = omega arith;
    queue = record {
      head = ground (arith, v.head);
      tail = ground (arith, v.tail);
      count = omega (arith, v.count);
      chain = nothing-IsChain q.links (take 0 s) refl;
    };
    mark = refl;
  }

  retreat-some :
      (n k : ℕ) → n + k ≡ s.len → 0 < k → retreat n q.links q.tail 0 ≡ ok (s.at (k - 1), n)
  retreat-some n k e p =
      rw (v.tail, retreat_short q.links s c n s.len 0 (omega arith) (omega arith), at_same)
        (ground arith)
    where
      at_same : s.len - n ≡ k
      at_same = omega arith

  retreat-all : (n : ℕ) → s.len ≤ n → retreat n q.links q.tail 0 ≡ ok (0, s.len)
  retreat-all n h = elim (Bool-cases (s.len == n)) [
    | inl e ↦
        rw (v.tail, retreat_short q.links s c n s.len 0 (omega arith) (ground arith)) (ground arith)
    | inr e ↦
        rw (v.tail, retreat_long q.links s c n s.len 0 (omega arith) (ground arith)) (ground arith)
  ]

  tail_part-some :
      (n k : ℕ)
      → n + k ≡ s.len
      → 0 < n
      → 0 < k
      → Returns (Parted q (drop k s) (take k s)) (tail_part q n)
  unfolding tail_part
  tail_part-some n k e p h =
      let last = c.real (k - 1) (omega arith) in
      let here = c.real k (omega arith) in
      let apart = c.distinct in
      let cut : Links = record (q.links) { prev = upd q.links.prev (s.at k) 0 } in
      let next : q.links.next (s.at (k - 1)) ≡ s.at k = ground (arith, c.next (k - 1)) in
      rw
        (
          retreat-some n k e h,
          ne→== (s.at (k - 1)) 0 last,
          get_next-ok q.links (s.at (k - 1)) last,
          next,
          set_prev-ok q.links (s.at k) here 0,
          set_next-ok cut (s.at (k - 1)) last 0,
        )
        (returns (record {
          items = ground arith;
          chain =
              other_next-IsChain cut (drop k s) (drop-IsChain q.links s c k (omega arith))
                (s.at (k - 1)) 0
                (λ i r. apart (i + k) (k - 1) (omega arith) (omega arith) (omega arith));
          count = omega arith;
          queue = record {
            head = ground (arith, v.head);
            tail = ground arith;
            count = omega (arith, v.count);
            chain =
                other_prev-IsChain (record (q.links) { next = upd q.links.next (s.at (k - 1)) 0 })
                  (take k s) (take-IsChain q.links s c k h (omega arith)) (s.at k) 0
                  (λ i r. apart i k (omega arith) (omega arith) (omega arith));
          };
          mark = refl;
        }))

  tail_part-all : (n : ℕ) → s.len ≤ n → Returns (Parted q (drop 0 s) (take 0 s)) (tail_part q n)
  unfolding tail_part
  tail_part-all n h =
      rw (retreat-all n h) (returns (from_start _ q.mb_count refl refl refl refl refl v.count))

  -- dequeue_tail_n_i with a number above zero, or -1 for all, takes out that many blocks from the
  -- back, or all if there are fewer. They leave in their order as a chain of their own, and the
  -- others stay in the queue in their order.
  pub dequeue_tail_n_i-parts :
      (number : ℤ)
      → IsRequest number
      → Returns
          (Parted q (drop (s.len - asked number s.len) s) (take (s.len - asked number s.len) s))
          (dequeue_tail_n_i q number)
  unfolding dequeue_tail_n_i take_all
  dequeue_tail_n_i-parts (pos n) p =
      Returns-if (q.tail == 0)
        (λ e.
          let empty : s.len ≡ 0 = ground (arith, v.tail, c.real (s.len - 1)) in
          let all : s.len - at_most n s.len ≡ 0 = omega arith in
          rw all (returns (none_there empty)))
        (λ e. elim (Bool-cases (ltb n s.len)) [
          | inl few ↦
              let less : n < s.len = ltb→lt n s.len few in
              rw few (tail_part-some n (s.len - n) (omega arith) p (omega arith))
          | inr many ↦
              let all : s.len - s.len ≡ 0 = omega arith in
              rw (many, all) (tail_part-all n (ground arith))
        ])
  dequeue_tail_n_i-parts (negsuc zero) p =
      let all : s.len - s.len ≡ 0 = omega arith in
      rw all (
        Returns-if (q.tail == 0)
          (λ e. returns (none_there (ground (arith, v.tail, c.real (s.len - 1)))))
          (λ e. returns (from_start _ q.mb_count refl refl refl refl refl v.count)))
  dequeue_tail_n_i-parts (negsuc (suc n)) p = elim p [ ]

  fault_at_once : 0 < s.len → tail_part q 0 ≡ fault
  unfolding tail_part retreat get_next set_prev
  fault_at_once p = ground (arith, v.tail, c.real (s.len - 1), c.next (s.len - 1))

  -- With any other number the call on a queue that is not empty writes through the null pointer
  -- behind the last block.
  pub dequeue_tail_n_i-fault :
      (number : ℤ) → ¬ IsRequest number → 0 < s.len → dequeue_tail_n_i q number ≡ fault
  unfolding dequeue_tail_n_i
  dequeue_tail_n_i-fault (pos zero) h p =
      ground (arith, v.tail, c.real (s.len - 1), fault_at_once p)
  dequeue_tail_n_i-fault (pos (suc n)) h p = absurd (h (omega arith))
  dequeue_tail_n_i-fault (negsuc zero) h p = absurd (h tt)
  dequeue_tail_n_i-fault (negsuc (suc n)) h p =
      ground (arith, v.tail, c.real (s.len - 1), fault_at_once p)
