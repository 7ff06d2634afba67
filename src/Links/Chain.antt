-- ===== src/Links/Chain.antt =====
-- What a chain of nodes holds: a sequence of `n` distinct nodes, the first at `head` and the last
-- at `tail`, linked both ways.
use cute_ndk.Base.{ℕ, ◌+◌, ◌-◌, ◌<◌, ◌≡◌, ◌≢◌, ◌∙◌, ltb, ◌==◌, if◌then◌else◌, arith}
use cute_ndk.Base.Array.{upd}
use cute_ndk.Links.{Links}

-- A sequence, which reads `at i` for `i` below its length.
pub record Seq : Type 0 where
  pub len : ℕ
  pub at : ℕ → ℕ

-- The first node, or null, and the last.
abbrev pub first : Seq → ℕ
first s = if s.len == 0 then 0 else s.at 0

abbrev pub final : Seq → ℕ
final s = if s.len == 0 then 0 else s.at (s.len - 1)

pub record IsChain (l : Links) (s : Seq) : Type 0 where
  pub real : (i : ℕ) → i < s.len → s.at i ≢ 0
  pub distinct : (i j : ℕ) → i < s.len → j < s.len → i ≢ j → s.at i ≢ s.at j
  pub next : (i : ℕ) → i < s.len → l.next (s.at i) ≡ (if i + 1 == s.len then 0 else s.at (i + 1))
  pub prev : (i : ℕ) → i < s.len → l.prev (s.at i) ≡ (if i == 0 then 0 else s.at (i - 1))

-- A chain whose `prev` pointers are not set yet.
pub record IsForward (l : Links) (s : Seq) : Type 0 where
  pub real : (i : ℕ) → i < s.len → s.at i ≢ 0
  pub distinct : (i j : ℕ) → i < s.len → j < s.len → i ≢ j → s.at i ≢ s.at j
  pub next : (i : ℕ) → i < s.len → l.next (s.at i) ≡ (if i + 1 == s.len then 0 else s.at (i + 1))

-- No node of `s` is one of `t`.
abbrev pub Apart : Seq → Seq → Type 0
Apart s t = (i j : ℕ) → i < s.len → j < t.len → s.at i ≢ t.at j

abbrev pub append : Seq → Seq → Seq
append s t = record {
  len = s.len + t.len;
  at = λ i. if ltb i s.len then s.at i else t.at (i - s.len);
}

abbrev pub take : ℕ → Seq → Seq
take n s = record { len = n; at = s.at }

abbrev pub drop : ℕ → Seq → Seq
drop n s = record { len = s.len - n; at = λ i. s.at (i + n) }

-- Only the pointers count.
pub IsChain-ext :
    (l m : Links) (s : Seq)
    → ((p : ℕ) → m.next p ≡ l.next p)
    → ((p : ℕ) → m.prev p ≡ l.prev p)
    → IsChain l s
    → IsChain m s
IsChain-ext l m s next prev c = record {
  real = c.real;
  distinct = c.distinct;
  next = λ i p. next (s.at i) ∙ c.next i p;
  prev = λ i p. prev (s.at i) ∙ c.prev i p;
}

-- A short queue, whose first block need not point back to null.
pub record IsShort (l : Links) (s : Seq) : Type 0 where
  pub forward : IsForward l s
  pub prev : (i : ℕ) → 0 < i → i < s.len → l.prev (s.at i) ≡ s.at (i - 1)

pub IsChain-IsShort : (l : Links) (s : Seq) → IsChain l s → IsShort l s
IsChain-IsShort l s c = record {
  forward = record { real = c.real; distinct = c.distinct; next = c.next };
  prev = λ i p q. ground (arith, c.prev i);
}

module _ (l : Links) (s t : Seq) where
  -- Nothing before a chain, and nothing behind it.
  pub nothing_before : s.len ≡ 0 → IsChain l t → IsChain l (append s t)
  nothing_before e c = record {
    real = λ i p. ground (arith, c.real i);
    distinct = λ i j p q r. ground (arith, c.distinct i j);
    next = λ i p. ground (arith, c.next i);
    prev = λ i p. ground (arith, c.prev i);
  }

  pub nothing_behind : t.len ≡ 0 → IsChain l s → IsChain l (append s t)
  nothing_behind e c = record {
    real = λ i p. ground (arith, c.real i);
    distinct = λ i j p q r. ground (arith, c.distinct i j);
    next = λ i p. ground (arith, c.next i);
    prev = λ i p. ground (arith, c.prev i);
  }

module _ (l : Links) (s t : Seq) (cs : IsChain l s) (short : IsShort l t) (apart : Apart s t) where
  open short use {forward as ct, prev as back}

  append-real : (i : ℕ) → i < s.len + t.len → (append s t).at i ≢ 0
  append-real i p = ground (arith, cs.real i, ct.real (i - s.len))

  append-distinct :
      (i j : ℕ)
      → i < s.len + t.len
      → j < s.len + t.len
      → i ≢ j
      → (append s t).at i ≢ (append s t).at j
  append-distinct i j p q r = ground (
    arith,
    cs.distinct i j,
    ct.distinct (i - s.len) (j - s.len),
    apart i (j - s.len),
    apart j (i - s.len),
  )

  -- Two chains become one when the last node of the first and the first node of the second point to
  -- each other.
  pub append-IsChain :
      0 < s.len
      → 0 < t.len
      → IsChain
          (record {
            next = upd l.next (s.at (s.len - 1)) (t.at 0);
            prev = upd l.prev (t.at 0) (s.at (s.len - 1));
          })
          (append s t)
  append-IsChain p q = record {
    real = append-real;
    distinct = append-distinct;
    next = λ i r. ground (
      arith,
      cs.next i,
      cs.distinct i (s.len - 1),
      ct.next (i - s.len),
      apart (s.len - 1) (i - s.len),
    );
    prev = λ i r. ground (arith, cs.prev i, back (i - s.len), ct.distinct (i - s.len) 0, apart i 0);
  }
