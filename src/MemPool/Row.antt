-- ===== src/MemPool/Row.antt =====
-- ndk/mem_pool.cpp: the list of the slabs, and ajust_slab_order.
use cute_ndk.Base.{
  ℕ, ◌+◌, ◌-◌, ◌<◌, ◌≡◌, ◌≢◌, ◌⊎◌, inl, inr, ◌∙◌, ap, fun_ext, not, ◌&&◌, Bool-cases, ltb, ◌==◌,
  if◌then◌else◌, arith,
}
use cute_ndk.MemPool.{MemPool, SlabHeader}
use cute_ndk.MemPool.Slabs.{rolled_ahead, rolled_back}

-- The slabs at the addresses `at` are linked both ways, in this order.
pub record Row (m : MemPool) (n : ℕ) (at : ℕ → ℕ) : Type 0 where
  pub head : 0 < n → m.slabs_head ≡ at 0
  pub empty : n ≡ 0 → m.slabs_head ≡ 0
  pub tail : (k : ℕ) → k + 1 ≡ n → m.slabs_tail ≡ at k
  pub real : (k : ℕ) → k < n → at k ≢ 0
  pub apart : (j k : ℕ) → j < k → k < n → at j ≢ at k
  pub next : (k : ℕ) → k + 1 < n → (m.slabs (at k)).next ≡ at (k + 1)
  pub last : (k : ℕ) → k + 1 ≡ n → (m.slabs (at k)).next ≡ 0
  pub prev : (k : ℕ) → k + 1 < n → (m.slabs (at (k + 1))).prev ≡ at k
  pub front : 0 < n → (m.slabs (at 0)).prev ≡ 0

-- Only the pointers between the slabs differ.
pub record Relinked (m m' : MemPool) : Type 0 where
  pub same :
      (x : ℕ)
      → record (m'.slabs x) { prev = 0; next = 0 } ≡ record (m.slabs x) { prev = 0; next = 0 }
  pub rest :
      m' ≡ record m { slabs = m'.slabs; slabs_head = m'.slabs_head; slabs_tail = m'.slabs_tail }

-- The headers once the neighbours `b` and `c` have changed places.
abbrev pub exchanged_slabs : (ℕ → SlabHeader) → ℕ → ℕ → ℕ → SlabHeader
exchanged_slabs slabs b c x =
    let a = (slabs b).prev in
    let d = (slabs c).next in
    if b == x
    then record (slabs b) { prev = c; next = d }
    else if c == x
    then record (slabs c) { prev = a; next = b }
    else if not (a == 0) && a == x
    then record (slabs x) { next = c }
    else if not (d == 0) && d == x
    then record (slabs x) { prev = b }
    else slabs x

abbrev pub exchanged : MemPool → ℕ → ℕ → MemPool
exchanged m b c = record m {
  slabs = exchanged_slabs m.slabs b c;
  slabs_tail = if (m.slabs c).next == 0 then b else m.slabs_tail;
  slabs_head = if (m.slabs b).prev == 0 then c else m.slabs_head;
}

module _ (m : MemPool) (b c : ℕ) (real_b : b ≢ 0) (real_c : c ≢ 0) (bc : b ≢ c)
    (ab : (m.slabs b).prev ≢ b) (ac : (m.slabs b).prev ≢ c) (db : (m.slabs c).next ≢ b)
    (dc : (m.slabs c).next ≢ c) (back : (m.slabs c).prev ≡ b) (forth : (m.slabs b).next ≡ c)
    (ad : (m.slabs b).prev ≢ 0 → (m.slabs b).prev ≢ (m.slabs c).next) where
  back-slabs : (x : ℕ) → (rolled_back m b c).slabs x ≡ exchanged_slabs m.slabs b c x
  unfolding rolled_back
  back-slabs x = ground (arith, real_b, real_c, bc, ab, ac, db, dc, ad)

  ahead-slabs : (x : ℕ) → (rolled_ahead m c b).slabs x ≡ exchanged_slabs m.slabs b c x
  unfolding rolled_ahead
  ahead-slabs x = ground (arith, real_b, real_c, bc, ab, ac, db, dc, ad)

  abbrev arranged : (ℕ → SlabHeader) → ℕ → ℕ → MemPool
  arranged slabs head tail = record m { slabs = slabs; slabs_head = head; slabs_tail = tail }

  back-exchanged : rolled_back m b c ≡ exchanged m b c
  unfolding rolled_back
  back-exchanged =
      ap (λ s. arranged s (rolled_back m b c).slabs_head (rolled_back m b c).slabs_tail)
        (fun_ext back-slabs)
      ∙ ap (λ h. arranged (exchanged_slabs m.slabs b c) h (rolled_back m b c).slabs_tail)
          (ground (arith, real_b, bc, db))

  ahead-exchanged : rolled_ahead m c b ≡ exchanged m b c
  unfolding rolled_ahead
  ahead-exchanged =
      ap (λ s. arranged s (rolled_ahead m c b).slabs_head (rolled_ahead m c b).slabs_tail)
        (fun_ext ahead-slabs)
      ∙ ap (λ t. arranged (exchanged_slabs m.slabs b c) (rolled_ahead m c b).slabs_head t)
          (ground (arith, real_c, bc, ac))

-- Two neighbours of the order change places.
abbrev pub swapped : (ℕ → ℕ) → ℕ → ℕ → ℕ
swapped at i k = if k == i then at (i + 1) else if k == i + 1 then at i else at k

module _ (m : MemPool) (n : ℕ) (at : ℕ → ℕ) (r : Row m n at) (i : ℕ) (h : i + 1 < n) where
  different : (j k : ℕ) → j < n → k < n → j ≢ k → at j ≢ at k
  different j k g l e x = ground (arith, r.apart j k, r.apart k j)

  -- What stands before and behind the two.
  ahead_of :
      (((m.slabs (at i)).prev ≡ 0) × (i ≡ 0)) ⊎ ((0 < i) × ((m.slabs (at i)).prev ≡ at (i - 1)))
  ahead_of = elim (Bool-cases (i == 0)) [
    | inl e ↦ inl (ground (arith, r.front, e), ground (arith, e))
    | inr e ↦ inr (ground (arith, e), ground (arith, r.prev (i - 1), e))
  ]

  behind_them :
      (((m.slabs (at (i + 1))).next ≡ 0) × (i + 2 ≡ n))
      ⊎ ((i + 2 < n) × ((m.slabs (at (i + 1))).next ≡ at (i + 2)))
  behind_them = elim (Bool-cases (ltb (i + 2) n)) [
    | inl e ↦ inr (ground (arith, e), ground (arith, r.next (i + 1), e))
    | inr e ↦ inl (ground (arith, r.last (i + 1), e), ground (arith, e))
  ]

  pub back-exchange : rolled_back m (at i) (at (i + 1)) ≡ exchanged m (at i) (at (i + 1))
  back-exchange =
      back-exchanged m (at i) (at (i + 1)) (r.real i (omega arith)) (r.real (i + 1) h)
        (different i (i + 1) (omega arith) h (omega arith))
        (ground (arith, ahead_of, r.real i, different (i - 1) i))
        (ground (arith, ahead_of, r.real (i + 1), different (i - 1) (i + 1)))
        (ground (arith, behind_them, r.real i, different (i + 2) i))
        (ground (arith, behind_them, r.real (i + 1), different (i + 2) (i + 1))) (r.prev i h)
        (r.next i h) (ground (arith, ahead_of, behind_them, different (i - 1) (i + 2)))

  pub ahead-exchange : rolled_ahead m (at (i + 1)) (at i) ≡ exchanged m (at i) (at (i + 1))
  ahead-exchange =
      ahead-exchanged m (at i) (at (i + 1)) (r.real i (omega arith)) (r.real (i + 1) h)
        (different i (i + 1) (omega arith) h (omega arith))
        (ground (arith, ahead_of, r.real i, different (i - 1) i))
        (ground (arith, ahead_of, r.real (i + 1), different (i - 1) (i + 1)))
        (ground (arith, behind_them, r.real i, different (i + 2) i))
        (ground (arith, behind_them, r.real (i + 1), different (i + 2) (i + 1))) (r.prev i h)
        (r.next i h) (ground (arith, ahead_of, behind_them, different (i - 1) (i + 2)))

  pub exchanged-Row : Row (exchanged m (at i) (at (i + 1))) n (swapped at i)
  exchanged-Row = record {
    head = λ l. ground (arith, r.head, ahead_of, r.real (i - 1));
    empty = λ l. absurd (omega arith);
    tail = λ k l. ground (arith, r.tail k, behind_them, r.real (i + 2));
    real = λ k l. ground (arith, r.real k, r.real i, r.real (i + 1));
    apart = λ j k g l. ground (
      arith,
      r.apart j k,
      different j i,
      different j (i + 1),
      different k i,
      different k (i + 1),
      different i (i + 1),
    );
    next = λ k l. ground (
      arith,
      r.next k,
      r.next (i - 1),
      ahead_of,
      behind_them,
      different k i,
      different k (i + 1),
      different k (i - 1),
      different i (i + 1),
      different i (i + 2),
      different (i + 1) (i + 2),
      r.real (i - 1),
    );
    last = λ k l. ground (
      arith,
      r.last k,
      ahead_of,
      behind_them,
      different k i,
      different k (i + 1),
      different k (i - 1),
      different i (i + 1),
    );
    prev = λ k l. ground (
      arith,
      r.prev k,
      ahead_of,
      behind_them,
      different (k + 1) i,
      different (k + 1) (i + 1),
      different (k + 1) (i - 1),
      different (k + 1) (i + 2),
      different i (i + 1),
      r.real (i + 2),
      r.real (i - 1),
    );
    front = λ l. ground (
      arith,
      r.front,
      ahead_of,
      behind_them,
      different 0 i,
      different 0 (i + 1),
      different 0 (i - 1),
      different 0 (i + 2),
      different i (i + 1),
    );
  }
