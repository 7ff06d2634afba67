-- ===== src/CacheManager/Queue.antt =====
-- ndk/cache_deque.h: what the manager relies on of the queue, and that the deque keeps it.
use cute_ndk.Base.{ℕ, ◌+◌, ◌-◌, ◌<◌, ◌≡◌, ◌≢◌, ◌⊎◌, Run, Returns, none, some}
use cute_ndk.Base.Int.{pos}
use cute_ndk.CacheDeque.{CacheDeque, insert, remove, adjust}
use cute_ndk.CacheDeque.Order.{with_last, without}
use cute_ndk.CacheDeque.Queue.{Holds, insert_correct, remove_correct, adjust_correct}
use cute_ndk.CacheManager.{QueueCalls}

-- The queue is a sequence of keys and objects, which every call changes as it says.
pub record QueueLaws {Q : Type 0} (calls : QueueCalls Q) : Type 1 where
  pub IsQueue : Q → ℕ → (ℕ → ℕ × ℕ) → Type 0
  pub length_law : (q : Q) (n : ℕ) (es : ℕ → ℕ × ℕ) → IsQueue q n es → calls.length q ≡ n
  pub insert_law :
      (q : Q) (n : ℕ) (es : ℕ → ℕ × ℕ)
      → IsQueue q n es
      → (e : ℕ × ℕ) → e.1 ≢ 0
      → ((k : ℕ) → k < n → (es k).1 ≢ e.1)
      → Returns
          (λ (q', r). (r ≡ pos 0) × IsQueue q' (n + 1) (with_last n es e))
          (calls.insert q e.0 e.1)
  pub remove_law :
      (q : Q) (n : ℕ) (es : ℕ → ℕ × ℕ)
      → IsQueue q n es
      → Returns
          (λ (q', r).
            ((n ≡ 0) × (q' ≡ q) × (r ≡ none))
            ⊎ ((0 < n) × (r ≡ some (es 0)) × IsQueue q' (n - 1) (without 0 es)))
          (calls.remove q)
  pub adjust_law :
      (q : Q) (n : ℕ) (es : ℕ → ℕ × ℕ)
      → IsQueue q n es
      → (i : ℕ) → i < n
      → {S : Type 0} {P : S → Type 0} (acquire : ℕ → S → Run S) (state : S)
      → Returns P (acquire (es i).1 state)
      → Returns
          (λ (q', state', r).
            (r ≡ pos 0) × P state' × IsQueue q' n (with_last (n - 1) (without i es) (es i)))
          (calls.adjust q (calls.proxy q (es i).1) acquire state)

abbrev pub deque_calls : QueueCalls CacheDeque
deque_calls = record {
  length = λ q. q.size;
  proxy = λ q. q.proxy;
  insert = insert;
  remove = remove;
  adjust = adjust;
}

-- The deque is such a queue.
abbrev pub deque_laws : QueueLaws deque_calls
deque_laws = record {
  IsQueue = Holds;
  length_law = λ q n es v. v.count;
  insert_law = insert_correct;
  remove_law = remove_correct;
  adjust_law = λ q n es v i h. adjust_correct q n es v i h;
}
