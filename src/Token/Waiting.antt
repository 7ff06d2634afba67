-- ===== src/Token/Waiting.antt =====
-- ndk/token.cpp: what a queue of waiting threads is.
use cute_ndk.Base.{ℕ, ◌+◌, ◌-◌, ◌<◌, ◌≡◌, ◌≢◌, ok, arith, ltb, ◌==◌, if◌then◌else◌}
use cute_ndk.Token.{Entry, TokenQueue, Strategy, fifo, lifo, deref}

-- The `n` entries `at 0`, `at 1`, ... are linked from the head to the tail.
pub record IsWaiting (es : ℕ → Entry) (q : TokenQueue) (n : ℕ) (at : ℕ → ℕ) : Type 0 where
  pub start : 0 < n → q.head ≡ at 0
  pub empty : n ≡ 0 → q.head ≡ 0
  pub real : (k : ℕ) → k < n → at k ≢ 0
  pub step : (k : ℕ) → k + 1 < n → (es (at k)).next ≡ at (k + 1)
  pub last : (k : ℕ) → k + 1 ≡ n → (es (at k)).next ≡ 0
  pub tail : (k : ℕ) → k + 1 ≡ n → q.tail ≡ at k
  pub apart : (j k : ℕ) → j < k → k < n → at j ≢ at k

-- The sequence with an entry more, at the end or at the front.
abbrev pub inserted : Strategy → ℕ → (ℕ → ℕ) → ℕ → ℕ → ℕ
inserted fifo n at entry k = if k == n then entry else at k
inserted lifo n at entry k = if k == 0 then entry else at (k - 1)

-- The sequence without the entry at `i`.
abbrev pub without : ℕ → (ℕ → ℕ) → ℕ → ℕ
without i at k = if ltb k i then at k else at (k + 1)

-- The threads and the marks of the entries.
abbrev pub SameThreads : (ℕ → Entry) → (ℕ → Entry) → Type 0
SameThreads es es' =
    (p : ℕ) → ((es' p).thread_id ≡ (es p).thread_id) × ((es' p).runable ≡ (es p).runable)

pub deref-ok : (es : ℕ → Entry) (p : ℕ) → p ≢ 0 → deref es p ≡ ok (es p)
unfolding deref
deref-ok es p h = ground arith
