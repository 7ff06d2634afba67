-- ===== src/MessageQueue/Count.antt =====
-- ndk/message_queue.cpp: the loop at the start of enqueue_tail_i and enqueue_head_i, over a
-- short queue of blocks.
use cute_ndk.Base.{
  ℕ, zero, suc, ◌+◌, ◌-◌, ◌≤◌, ◌<◌, ◌≡◌, ◌≢◌, inl, inr, refl, sym, ap, ◌∙◌, ne→==, leb, ◌==◌,
  if◌then◌else◌, arith, Returns, returns, Returns-map, Bool-cases,
}
use cute_ndk.Base.Array.{upd}
use cute_ndk.Links.{Links}
use cute_ndk.Links.Access.{get_next-ok, set_prev-ok}
use cute_ndk.Links.Chain.{Seq, IsChain, IsForward, IsShort, Apart}
use cute_ndk.MessageQueue.{count_blocks}

-- What the loop leaves: the same `next` pointers, and a chain, but for the `prev` pointers of the
-- blocks up to `j`.
pub record Counted (l : Links) (t : Seq) (j : ℕ) (r : Links × ℕ × ℕ) : Type 0 where
  pub next : (p : ℕ) → r.0.next p ≡ l.next p
  pub prev :
      (i : ℕ) → i < t.len → r.0.prev (t.at i) ≡ (if leb i j then l.prev (t.at i) else t.at (i - 1))
  pub others : (p : ℕ) → ((i : ℕ) → i < t.len → t.at i ≢ p) → r.0.prev p ≡ l.prev p
  pub last : r.1 ≡ t.at (t.len - 1)
  pub num : r.2 ≡ t.len

module _ (l : Links) (t : Seq) (j : ℕ) (p : j < t.len) where
  -- At the last block the loop ends.
  stop-Counted : j + 1 ≡ t.len → Counted l t j (l, t.at j, j + 1)
  stop-Counted e = record {
    next = λ x. refl;
    prev = λ i q. ground arith;
    others = λ x h. refl;
    last = ap t.at (omega arith);
    num = e;
  }

  -- Before it the `prev` pointer of the next block is set.
  step-Counted :
      IsForward l t
      → j + 1 < t.len
      → (r : Links × ℕ × ℕ)
      → Counted (record l { prev = upd l.prev (t.at (j + 1)) (t.at j) }) t (j + 1) r
      → Counted l t j r
  step-Counted f q r c = record {
    next = c.next;
    prev = λ i h. c.prev i h ∙ ground (arith, f.distinct i (j + 1));
    others = λ x h. c.others x h ∙ ground (arith, h (j + 1) q);
    last = c.last;
    num = c.num;
  }

pub count_blocks_correct :
    (k : ℕ) (l : Links) (t : Seq) (j : ℕ)
    → IsForward l t
    → j < t.len
    → t.len ≤ j + k
    → Returns (Counted l t j) (count_blocks k l (t.at j) (j + 1))
unfolding count_blocks
count_blocks_correct zero l t j f p h = absurd (omega arith)
count_blocks_correct (suc k) l t j f p h = elim (Bool-cases (j + 1 == t.len)) [
  | inl e ↦
      rw (get_next-ok l (t.at j) (f.real j p), f.next j p, e)
        (returns (stop-Counted l t j p (ground arith)))
  | inr e ↦
      let q : j + 1 < t.len = ground arith in
      let there = f.real (j + 1) q in
      rw
        (
          get_next-ok l (t.at j) (f.real j p),
          f.next j p,
          e,
          set_prev-ok l (t.at (j + 1)) there (t.at j),
          ne→== (t.at (j + 1)) 0 there,
        )
        (Returns-map
          (count_blocks_correct k (record l { prev = upd l.prev (t.at (j + 1)) (t.at j) }) t (j + 1)
            (record { real = f.real; distinct = f.distinct; next = f.next }) q (omega arith))
          (step-Counted l t j p f q))
]

module _ (l : Links) (s t : Seq) (r : Links × ℕ × ℕ) (f : IsForward l t) (c : Counted l t 0 r) where
  pub counted-IsShort : IsShort r.0 t
  counted-IsShort = record {
    forward = record {
      real = f.real;
      distinct = f.distinct;
      next = λ i p. c.next (t.at i) ∙ f.next i p;
    };
    prev = λ i p q. ground (arith, c.prev i);
  }

  -- With the first block's `prev` pointer cleared it is a chain.
  pub cleared-IsChain : IsChain (record (r.0) { prev = upd r.0.prev (t.at 0) 0 }) t
  cleared-IsChain = record {
    real = f.real;
    distinct = f.distinct;
    next = counted-IsShort.forward.next;
    prev = λ i p. ground (arith, f.distinct i 0, c.prev i);
  }

  -- A chain of other blocks is as it was.
  pub kept-IsChain : IsChain l s → Apart s t → IsChain r.0 s
  kept-IsChain cs a = record {
    real = cs.real;
    distinct = cs.distinct;
    next = λ i p. c.next (s.at i) ∙ cs.next i p;
    prev = λ i p. c.others (s.at i) (λ j q e. a i j p q (sym e)) ∙ cs.prev i p;
  }

  -- And so if a block of the short queue is written to.
  pub kept_cleared-IsChain :
      0 < t.len
      → IsChain l s
      → Apart s t
      → IsChain (record (r.0) { prev = upd r.0.prev (t.at 0) 0 }) s
  kept_cleared-IsChain p cs a = record {
    real = cs.real;
    distinct = cs.distinct;
    next = (kept-IsChain cs a).next;
    prev = λ i q. ground (arith, (kept-IsChain cs a).prev i q, a i 0 q p);
  }
