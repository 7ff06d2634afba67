-- ===== src/MessageQueue/Enqueue.antt =====
-- ndk/message_queue.cpp: enqueue_tail and enqueue_head link a short queue of blocks to the queue.
use cute_ndk.Base.{
  ℕ, ◌-◌, ◌≤◌, ◌<◌, ◌≡◌, ◌≢◌, refl, sym, ap, ◌==◌, arith, Returns, returns, Returns-if,
  Returns-bind,
}
use cute_ndk.Base.Array.{upd}
use cute_ndk.Base.Int.{ℤ, pos}
use cute_ndk.Links.{Links}
use cute_ndk.Links.Access.{set_next-ok, set_prev-ok}
use cute_ndk.Links.Chain.{
  Seq, IsChain, IsChain-ext, IsForward, Apart, nothing_before, nothing_behind, IsChain-IsShort,
  append, first, final, append-IsChain,
}
use cute_ndk.MessageQueue.{Queue, enqueue_tail_i, enqueue_head_i}
use cute_ndk.MessageQueue.Model.{IsQueue}
use cute_ndk.MessageQueue.Count.{
  count_blocks_correct, counted-IsShort, cleared-IsChain, kept-IsChain, kept_cleared-IsChain,
}

-- What the two functions return: the number of blocks, and a queue of those of both sequences.
pub record Enqueued (q : Queue) (t s : Seq) (r : Queue × ℤ) : Type 0 where
  pub num : r.1 ≡ pos t.len
  pub queue : IsQueue r.0 s
  pub mark : r.0.high_water_mark ≡ q.high_water_mark

-- The blocks are linked, and not yet counted.
abbrev Joined : Queue → Seq → Queue → Type 0
Joined q s q' =
    IsChain q'.links s
    × (q'.head ≡ first s)
    × (q'.tail ≡ final s)
    × (q'.high_water_mark ≡ q.high_water_mark)
    × (q'.mb_count ≡ q.mb_count)

module _ (k : ℕ) (q : Queue) (s t : Seq) (v : IsQueue q s) (f : IsForward q.links t) where
  tail-zero : q.tail ≡ 0 → s.len ≡ 0
  tail-zero e = ground (arith, v.tail, v.chain.real (s.len - 1))

  tail-last : q.tail ≢ 0 → (0 < s.len) × (q.tail ≡ s.at (s.len - 1))
  tail-last e = ground (arith, v.tail)

  head-zero : q.head ≡ 0 → s.len ≡ 0
  head-zero e = ground (arith, v.head, v.chain.real 0)

  head-first : q.head ≢ 0 → (0 < s.len) × (q.head ≡ s.at 0)
  head-first e = ground (arith, v.head)

  -- enqueue_tail_i adds the blocks of a short queue, in their order, behind those of the queue, and
  -- returns their number. The short queue has a block, shares none with the queue, and has no more
  -- blocks than the fuel.
  pub enqueue_tail_i-append :
      0 < t.len
      → t.len ≤ k
      → Apart s t
      → Returns (Enqueued q t (append s t)) (enqueue_tail_i k q (t.at 0))
  unfolding enqueue_tail_i
  enqueue_tail_i-append p h a =
      Returns-bind (count_blocks_correct k q.links t 0 f p (omega arith)) λ r c.
        let new = f.real 0 p in
        let short = counted-IsShort q.links s t r f c in
        Returns-bind {P = Joined q (append s t)}
          (Returns-if (q.tail == 0)
            (λ e. rw (set_prev-ok r.0 (t.at 0) new 0) (
              returns (
                nothing_before _ s t (tail-zero (ground arith)) (cleared-IsChain q.links s t r f c),
                ground (arith, tail-zero),
                ground (arith, tail-zero, c.last),
                refl,
                refl,
              )))
            (λ e.
              let there : q.tail ≢ 0 = ground arith in
              let (some_there, last) = tail-last there in
              rw
                (
                  set_prev-ok r.0 (t.at 0) new q.tail,
                  set_next-ok (record (r.0) { prev = upd r.0.prev (t.at 0) q.tail }) q.tail there
                      (t.at 0),
                )
                (returns (
                  rw last (
                      append-IsChain r.0 s t (kept-IsChain q.links s t r f c v.chain a) short a
                        some_there p),
                  ground (arith, v.head),
                  ground (arith, c.last),
                  refl,
                  refl,
                ))))
          λ q' (chain, head, tail, mark, count). returns (record {
            num = ap pos c.num;
            queue = record {
              head = head;
              tail = tail;
              count = omega (arith, count, v.count, c.num);
              chain = chain;
            };
            mark = mark;
          })

  -- enqueue_head_i adds the blocks of a short queue, in their order, before those of the queue, and
  -- returns their number. The short queue has a block, shares none with the queue, and has no more
  -- blocks than the fuel.
  pub enqueue_head_i-append :
      0 < t.len
      → t.len ≤ k
      → Apart s t
      → Returns (Enqueued q t (append t s)) (enqueue_head_i k q (t.at 0))
  unfolding enqueue_head_i
  enqueue_head_i-append p h a =
      Returns-bind (count_blocks_correct k q.links t 0 f p (omega arith)) λ r c.
        let new = f.real 0 p in
        let cleared = cleared-IsChain q.links s t r f c in
        let kept = kept_cleared-IsChain q.links s t r f c p v.chain a in
        let end : r.1 ≢ 0 = ground (arith, c.last, f.real (t.len - 1)) in
        rw
          (
            set_prev-ok r.0 (t.at 0) new 0,
            set_next-ok (record (r.0) { prev = upd r.0.prev (t.at 0) 0 }) r.1 end q.head,
          )
          (Returns-bind {P = Joined q (append t s)}
            (Returns-if (q.head == 0)
              (λ e.
                let empty = head-zero (ground arith) in
                returns (
                  nothing_behind _ t s empty (
                      IsChain-ext (record (r.0) { prev = upd r.0.prev (t.at 0) 0 }) _ t
                        (λ x. ground (arith, c.last, c.next (t.at (t.len - 1)), f.next (t.len - 1)))
                        (λ x. refl) cleared),
                  ground (arith, empty),
                  ground (arith, empty, c.last),
                  refl,
                  refl,
                ))
              (λ e.
                let there : q.head ≢ 0 = ground arith in
                let (some_there, head) = head-first there in
                let l' : Links = record {
                  next = upd r.0.next r.1 q.head;
                  prev = upd r.0.prev (t.at 0) 0;
                } in
                rw (set_prev-ok l' q.head there r.1) (
                  returns (
                    rw (head, c.last)
                        (append-IsChain (record (r.0) { prev = upd r.0.prev (t.at 0) 0 }) t s
                          cleared (IsChain-IsShort _ s kept) (λ i j x y z. a j i y x (sym z)) p
                          some_there),
                    ground arith,
                    ground (arith, v.tail),
                    refl,
                    refl,
                  ))))
            λ q' (chain, head, tail, mark, count). returns (record {
              num = ap pos c.num;
              queue = record {
                head = head;
                tail = tail;
                count = omega (arith, count, v.count, c.num);
                chain = chain;
              };
              mark = mark;
            }))
