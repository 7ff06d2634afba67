-- ===== src/Links/Cut.antt =====
-- A chain that is cut, and a chain while other nodes are written to.
use cute_ndk.Base.{ℕ, ◌+◌, ◌-◌, ◌≤◌, ◌<◌, ◌≡◌, ◌≢◌, arith}
use cute_ndk.Base.Array.{upd}
use cute_ndk.Links.{Links}
use cute_ndk.Links.Chain.{Seq, IsChain, take, drop}

module _ (l : Links) (s : Seq) (c : IsChain l s) where
  -- The nodes from `n` on, once the first of them points back to null.
  pub drop-IsChain :
      (n : ℕ) → n < s.len → IsChain (record l { prev = upd l.prev (s.at n) 0 }) (drop n s)
  drop-IsChain n p = record {
    real = λ i q. c.real (i + n) (omega arith);
    distinct = λ i j q r e. c.distinct (i + n) (j + n) (omega arith) (omega arith) (omega arith);
    next = λ i q. ground (arith, c.next (i + n));
    prev = λ i q. ground (arith, c.prev (i + n), c.distinct (i + n) n);
  }

  -- The first `n` nodes, once the last of them points to null.
  pub take-IsChain :
      (n : ℕ)
      → 0 < n
      → n ≤ s.len
      → IsChain (record l { next = upd l.next (s.at (n - 1)) 0 }) (take n s)
  take-IsChain n p q = record {
    real = λ i r. c.real i (omega arith);
    distinct = λ i j r t e. c.distinct i j (omega arith) (omega arith) e;
    next = λ i r. ground (arith, c.next i, c.distinct i (n - 1));
    prev = λ i r. c.prev i (omega arith);
  }

  module _ (p v : ℕ) (h : (i : ℕ) → i < s.len → s.at i ≢ p) where
    pub other_next-IsChain : IsChain (record l { next = upd l.next p v }) s
    other_next-IsChain = record {
      real = c.real;
      distinct = c.distinct;
      next = λ i q. ground (arith, c.next i, h i);
      prev = c.prev;
    }

    pub other_prev-IsChain : IsChain (record l { prev = upd l.prev p v }) s
    other_prev-IsChain = record {
      real = c.real;
      distinct = c.distinct;
      next = c.next;
      prev = λ i q. ground (arith, c.prev i, h i);
    }

-- No node is a chain, whatever the links are.
pub nothing-IsChain : (l : Links) (s : Seq) → s.len ≡ 0 → IsChain l s
nothing-IsChain l s e = record {
  real = λ i p. absurd (omega arith);
  distinct = λ i j p q r. absurd (omega arith);
  next = λ i p. absurd (omega arith);
  prev = λ i p. absurd (omega arith);
}

-- Nothing is cut off.
pub drop_zero-IsChain : (l : Links) (s : Seq) → IsChain l s → IsChain l (drop 0 s)
drop_zero-IsChain l s c = record {
  real = λ i p. c.real (i + 0) (omega arith);
  distinct = λ i j p q r. c.distinct (i + 0) (j + 0) (omega arith) (omega arith) (omega arith);
  next = λ i p. ground (arith, c.next (i + 0));
  prev = λ i p. ground (arith, c.prev (i + 0));
}
