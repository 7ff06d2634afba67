-- ===== src/MessageQueue/Batch/Head.antt =====
-- ndk/message_queue.cpp: what dequeue_head_n_i returns.
use cute_ndk.Base.{
  ℕ, zero, suc, ◌+◌, ◌-◌, ◌≤◌, ◌<◌, ◌≡◌, inl, inr, refl, ne→==, Bool-cases, ltb, ltb→lt, lt→ltb,
  ◌==◌, if◌then◌else◌, arith, ok, fault, Returns, returns, Returns-if,
}
use cute_ndk.Base.Array.{upd}
use cute_ndk.Base.Int.{ℤ, pos, negsuc}
use cute_ndk.Links.{Links, get_prev, set_next}
use cute_ndk.Links.Access.{get_next-ok, get_prev-ok, set_next-ok, set_prev-ok}
use cute_ndk.Links.Chain.{Seq, IsChain, take, drop}
use cute_ndk.Links.Cut.{drop-IsChain, take-IsChain, other_next-IsChain, other_prev-IsChain}
use cute_ndk.MessageQueue.{Queue}
use cute_ndk.MessageQueue.Model.{IsQueue}
use cute_ndk.MessageQueue.Request.{IsRequest, at_most, asked, Parted, whole, nothing}
use cute_ndk.MessageQueue.Batch.{advance, take_all, head_part, dequeue_head_n_i}

-- The node at `i`, or null behind the last.
abbrev at_or_null : Seq → ℕ → ℕ
at_or_null s i = if ltb i s.len then s.at i else 0

module _ (l : Links) (s : Seq) (c : IsChain l s) where
  next_at : (i : ℕ) → i < s.len → l.next (s.at i) ≡ at_or_null s (i + 1)
  next_at i p = ground (arith, c.next i)

  advance_short :
      (n i count : ℕ)
      → i + n ≤ s.len
      → advance n l (at_or_null s i) count ≡ ok (at_or_null s (i + n), count + n)
  unfolding advance
  advance_short zero i count p = ground arith
  advance_short (suc n) i count p =
      rw
        (
          lt→ltb i s.len (omega arith),
          ne→== (s.at i) 0 (c.real i (omega arith)),
          get_next-ok l (s.at i) (c.real i (omega arith)),
          next_at i (omega arith),
          advance_short n (i + 1) (count + 1) (omega arith),
        )
        (ground arith)

  advance_long :
      (n i count : ℕ)
      → i ≤ s.len
      → s.len < i + n
      → advance n l (at_or_null s i) count ≡ ok (0, count + (s.len - i))
  unfolding advance
  advance_long zero i count p q = absurd (omega arith)
  advance_long (suc n) i count p q = elim (Bool-cases (ltb i s.len)) [
    | inl e ↦
        rw
          (
            e,
            ne→== (s.at i) 0 (c.real i (ltb→lt i s.len e)),
            get_next-ok l (s.at i) (c.real i (ltb→lt i s.len e)),
            next_at i (ltb→lt i s.len e),
            advance_long n (i + 1) (count + 1) (ground arith) (omega arith),
          )
          (ground arith)
    | inr e ↦ rw e (ground arith)
  ]

module _ (q : Queue) (s : Seq) (v : IsQueue q s) where
  open v use {chain as c}

  head-real : 0 < s.len → q.head ≡ at_or_null s 0
  head-real p = ground (arith, v.head)

  advance-some : (n : ℕ) → n < s.len → advance n q.links q.head 0 ≡ ok (s.at n, n)
  advance-some n p =
      rw (head-real (omega arith), advance_short q.links s c n 0 0 (omega arith)) (ground arith)

  advance-all : (n : ℕ) → 0 < s.len → s.len ≤ n → advance n q.links q.head 0 ≡ ok (0, s.len)
  advance-all n p h = elim (Bool-cases (s.len == n)) [
    | inl e ↦ rw (head-real p, advance_short q.links s c n 0 0 (ground arith)) (ground arith)
    | inr e ↦
        rw (head-real p, advance_long q.links s c n 0 0 (omega arith) (ground arith)) (ground arith)
  ]

  head_part-some :
      (n : ℕ) → 0 < n → n < s.len → Returns (Parted q (take n s) (drop n s)) (head_part q n)
  unfolding head_part
  head_part-some n p h =
      let last = c.real (n - 1) (omega arith) in
      let here = c.real n h in
      let apart = c.distinct in
      let cut : Links = record (q.links) { next = upd q.links.next (s.at (n - 1)) 0 } in
      let prev : q.links.prev (s.at n) ≡ s.at (n - 1) = ground (arith, c.prev n) in
      rw
        (
          advance-some n h,
          ne→== (s.at n) 0 here,
          get_prev-ok q.links (s.at n) here,
          prev,
          set_next-ok q.links (s.at (n - 1)) last 0,
          set_prev-ok cut (s.at n) here 0,
        )
        (returns (record {
          items = ground (arith, v.head);
          chain =
              other_prev-IsChain cut (take n s) (take-IsChain q.links s c n p (omega arith))
                (s.at n) 0 (λ i r. apart i n (omega arith) h (omega arith));
          count = refl;
          queue = record {
            head = ground arith;
            tail = ground (arith, v.tail);
            count = omega (arith, v.count);
            chain =
                other_next-IsChain (record (q.links) { prev = upd q.links.prev (s.at n) 0 })
                  (drop n s) (drop-IsChain q.links s c n h) (s.at (n - 1)) 0
                  (λ i r. apart (i + n) (n - 1) (omega arith) (omega arith) (omega arith));
          };
          mark = refl;
        }))

  head_part-all :
      (n : ℕ)
      → 0 < s.len
      → s.len ≤ n
      → Returns (Parted q (take s.len s) (drop s.len s)) (head_part q n)
  unfolding head_part
  head_part-all n p h =
      rw (advance-all n p h) (returns (whole q s v _ s.len refl refl refl refl refl refl))

  -- dequeue_head_n_i with a number above zero, or -1 for all, takes out that many blocks from the
  -- front, or all if there are fewer. They leave in their order as a chain of their own, and the
  -- others stay in the queue in their order.
  pub dequeue_head_n_i-parts :
      (number : ℤ)
      → IsRequest number
      → Returns
          (Parted q (take (asked number s.len) s) (drop (asked number s.len) s))
          (dequeue_head_n_i q number)
  unfolding dequeue_head_n_i take_all
  dequeue_head_n_i-parts (pos n) p =
      Returns-if (q.head == 0)
        (λ e.
          let empty : s.len ≡ 0 = ground (arith, v.head, c.real 0) in
          let all : at_most n s.len ≡ s.len = ground arith in
          rw all (returns (nothing q s v empty)))
        (λ e.
          let some_there : 0 < s.len = ground (arith, v.head) in
          elim (Bool-cases (ltb n s.len)) [
            | inl few ↦ rw few (head_part-some n p (ltb→lt n s.len few))
            | inr many ↦ rw many (head_part-all n some_there (ground arith))
          ])
  dequeue_head_n_i-parts (negsuc zero) p =
      Returns-if (q.head == 0) (λ e. returns (nothing q s v (ground (arith, v.head, c.real 0))))
        (λ e. returns (whole q s v _ q.mb_count refl refl refl refl refl v.count))
  dequeue_head_n_i-parts (negsuc (suc n)) p = elim p [ ]

  fault_at_once : 0 < s.len → head_part q 0 ≡ fault
  unfolding head_part advance get_prev set_next
  fault_at_once p = ground (arith, v.head, c.real 0, c.prev 0)

  -- With any other number the call on a queue that is not empty reads through the null pointer in
  -- front of the first block.
  pub dequeue_head_n_i-fault :
      (number : ℤ) → ¬ IsRequest number → 0 < s.len → dequeue_head_n_i q number ≡ fault
  unfolding dequeue_head_n_i
  dequeue_head_n_i-fault (pos zero) h p = ground (arith, v.head, c.real 0, fault_at_once p)
  dequeue_head_n_i-fault (pos (suc n)) h p = absurd (h (omega arith))
  dequeue_head_n_i-fault (negsuc zero) h p = absurd (h tt)
  dequeue_head_n_i-fault (negsuc (suc n)) h p = ground (arith, v.head, c.real 0, fault_at_once p)
