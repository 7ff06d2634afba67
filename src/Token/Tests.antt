-- ===== src/Token/Tests.antt =====
-- ndk/token.cpp: a token that is held while two threads wait, and the properties at it.
use cute_ndk.Base.{
  ℕ, ◌+◌, ◌≡◌, refl, true, false, ok, ◌==◌, if◌then◌else◌, arith, none, some, [], ◌∷◌, Returns,
}
use cute_ndk.Base.Int.{negsuc}
use cute_ndk.Token.{
  Token, Entry, TokenQueue, fifo, write_token, timed_out, insert_entry, remove_entry, start_acquire,
  wait_acquire,
}
use cute_ndk.Token.Waiting.{IsWaiting, SameThreads, inserted, without}
use cute_ndk.Token.Entries.{insert_entry_inserts, remove_entry_removes}
use cute_ndk.Token.Timeout.{timeout-frees}

-- Threads 11 and 12 wait with the entries 1 and 2.
abbrev entries : ℕ → Entry
entries = λ p. record { runable = false; next = if p == 1 then 2 else 0; thread_id = p + 10 }

abbrev two : TokenQueue
two = record { head = 1; tail = 2 }

two-IsWaiting : IsWaiting entries two 2 (λ k. k + 1)
two-IsWaiting = record {
  start = λ h. refl;
  empty = λ h. absurd (omega arith);
  real = λ k h. omega arith;
  step = λ k h. ground arith;
  last = λ k h. ground arith;
  tail = λ k h. omega arith;
  apart = λ j k h l. omega arith;
}

insert_entry_inserts_example :
    Returns
      (λ (es', q'). IsWaiting es' q' 3 (inserted fifo 2 (λ k. k + 1) 5) × SameThreads entries es')
      (insert_entry entries two 5 fifo)
insert_entry_inserts_example =
    insert_entry_inserts entries two 2 (λ k. k + 1) 5 fifo two-IsWaiting (omega arith)
      (λ k h. omega arith) refl

remove_entry_removes_example :
    Returns
      (λ (es', q'). IsWaiting es' q' 1 (without 1 (λ k. k + 1)) × SameThreads entries es')
      (remove_entry 2 entries two 2)
remove_entry_removes_example =
    remove_entry_removes 2 entries two 2 (λ k. k + 1) 1 two-IsWaiting (omega arith) (omega arith)

-- Thread 10 holds the token.
abbrev held : Token
held = record {
  waiters = 2;
  in_use = some write_token;
  nesting_level = 0;
  queueing_strategy = fifo;
  owner = some 10;
  writers = two;
  readers = record { head = 0; tail = 0 };
  entries = entries;
  signals = [];
}

abbrev one : Token
one = record held { waiters = 1; writers = record { head = 2; tail = 2 } }

one-IsWaiting : IsWaiting entries (record { head = 2; tail = 2 }) 1 (λ _. 2)
one-IsWaiting = record {
  start = λ h. refl;
  empty = λ h. absurd (omega arith);
  real = λ k h. omega arith;
  step = λ k h. absurd (omega arith);
  last = λ k h. refl;
  tail = λ k h. refl;
  apart = λ j k h l. absurd (omega arith);
}

timeout-frees_example :
    Returns
      (λ (t', r).
        (r ≡ some (negsuc 0))
        × (t'.owner ≡ none)
        × (start_acquire t' 13 write_token 9
            ≡ ok (record t' { in_use = some write_token; owner = some 13 }, true)))
      (wait_acquire 1 ((one, timed_out) ∷ []) one 12 write_token 2)
timeout-frees_example = timeout-frees one 0 12 2 one [] 13 9 one-IsWaiting refl
