-- ===== src/Token/Timeout.antt =====
-- ndk/token.cpp: a thread that gives up its wait.
use cute_ndk.Base.{
  ℕ, suc, ◌-◌, ◌≡◌, ◌≢◌, refl, ap, ◌∙◌, true, ok, arith, none, some, List, ◌∷◌, Returns, returns,
  Returns-bind,
}
use cute_ndk.Base.Int.{negsuc}
use cute_ndk.Token.{
  Token, write_token, WaitResult, timed_out, finish_acquire, wait_acquire, start_acquire, is_used,
}
use cute_ndk.Token.Waiting.{IsWaiting, deref-ok}
use cute_ndk.Token.Entries.{remove_entry_removes}
use cute_ndk.Token.Handing.{handed, wakeup_next_waiter_cases}

handed-IsWaiting :
    (t : Token) (e : ℕ)
    → IsWaiting t.entries t.writers 1 (λ _. e)
    → IsWaiting (handed t t.writers write_token).entries t.writers 1 (λ _. e)
handed-IsWaiting t e w = record {
  start = w.start;
  empty = w.empty;
  real = w.real;
  step = λ k h. absurd (omega arith);
  last = λ k h. ground (arith, w.last k h);
  tail = w.tail;
  apart = w.apart;
}

-- The entry was marked when the token was handed to it, so the token is handed on, to nobody.
finish-frees :
    (t : Token) (fuel thr_id my_entry : ℕ)
    → IsWaiting t.entries t.writers 1 (λ _. my_entry)
    → t.readers.head ≡ 0
    → Returns
        (λ (t', r). (r ≡ negsuc 0) × (t'.owner ≡ none) × (t'.in_use ≡ none))
        (finish_acquire
          (suc fuel)
          (handed t t.writers write_token)
          thr_id
          write_token
          my_entry
          timed_out)
unfolding finish_acquire
finish-frees t fuel thr_id my_entry w none_reads =
    let head : t.writers.head ≡ my_entry = w.start (omega arith) in
    let real : my_entry ≢ 0 = w.real 0 (omega arith) in
    let given = handed t t.writers write_token in
    Returns-bind
      (remove_entry_removes (suc fuel) given.entries t.writers 1 (λ _. my_entry) 0
        (handed-IsWaiting t my_entry w) (omega arith) (omega arith))
      λ (es, q) (w', same).
        let marked : (es my_entry).runable ≡ true = (same my_entry).1 ∙ ground arith in
        let left = record given { entries = es; waiters = given.waiters - 1; writers = q } in
        rw
          (
            deref-ok es my_entry real,
            marked,
            (wakeup_next_waiter_cases left).2 (w'.empty refl) none_reads,
          )
          (returns (refl, refl, refl))

-- When the only waiting thread, a writer, gives up at its timeout, the token ends up in nobody's
-- hands, whoever holds it, and the next thread that asks for it gets it at once.
pub timeout-frees :
    (t : Token) (fuel thr_id my_entry : ℕ) (before : Token) (later : List (Token × WaitResult))
    (other other_entry : ℕ)
    → IsWaiting t.entries t.writers 1 (λ _. my_entry)
    → t.readers.head ≡ 0
    → Returns
        (λ (t', r).
          (r ≡ some (negsuc 0))
          × (t'.owner ≡ none)
          × (start_acquire t' other write_token other_entry
              ≡ ok (record t' { in_use = some write_token; owner = some other }, true)))
        (wait_acquire (suc fuel) ((t, timed_out) ∷ later) before thr_id write_token my_entry)
unfolding wait_acquire start_acquire
timeout-frees t fuel thr_id my_entry before later other other_entry w none_reads =
    let there : t.writers.head ≢ 0 =
      ground (arith, w.start (omega arith), w.real 0 (omega arith)) in
    rw ((wakeup_next_waiter_cases t).0 there) (
      Returns-bind (finish-frees t fuel thr_id my_entry w none_reads)
        λ (t', r) (p, o, u). returns (ap some p, o, rw (ap is_used u) refl))
