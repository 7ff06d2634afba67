-- ===== src/Token/Handing.antt =====
-- ndk/token.cpp: who holds the token after a release.
use cute_ndk.Base.{◌≡◌, ◌≢◌, refl, true, false, ok, ◌==◌, arith, none, some, ◌∷◌}
use cute_ndk.Base.Array.{upd}
use cute_ndk.Token.{
  Token, TokenQueue, TokenOptType, read_token, write_token, hand_over, wakeup_next_waiter,
}
use cute_ndk.Token.Waiting.{deref-ok}

-- The token once the head of a queue has been made its owner.
abbrev pub handed : Token → TokenQueue → TokenOptType → Token
handed t q opt_type = record t {
  in_use = some opt_type;
  owner = some (t.entries q.head).thread_id;
  entries = upd t.entries q.head (record (t.entries q.head) { runable = true });
  signals = q.head ∷ t.signals;
}

-- The token in nobody's hands.
abbrev pub free_token : Token → Token
free_token t = record t { in_use = none; owner = none }

hand_over-ok :
    (t : Token) (q : TokenQueue) (opt_type : TokenOptType)
    → q.head ≢ 0
    → hand_over t q opt_type ≡ ok (handed t q opt_type)
unfolding hand_over
hand_over-ok t q opt_type h = rw (deref-ok t.entries q.head h) refl

-- wakeup_next_waiter hands the token to the first writer that waits; to the first reader if no
-- writer waits; and leaves it in nobody's hands if no thread waits.
pub wakeup_next_waiter_cases :
    (t : Token)
    → (t.writers.head ≢ 0 → wakeup_next_waiter t ≡ ok (handed t t.writers write_token))
      × (t.writers.head ≡ 0
          → t.readers.head ≢ 0
          → wakeup_next_waiter t ≡ ok (handed t t.readers read_token))
      × (t.writers.head ≡ 0 → t.readers.head ≡ 0 → wakeup_next_waiter t ≡ ok (free_token t))
unfolding wakeup_next_waiter
wakeup_next_waiter_cases t = (
  λ h.
      let w : (t.writers.head == 0) ≡ false = ground arith in
      rw (w, hand_over-ok (free_token t) t.writers write_token h) refl,
  λ e h.
      let w : (t.writers.head == 0) ≡ true = ground arith in
      let r : (t.readers.head == 0) ≡ false = ground arith in
      rw (w, r, hand_over-ok (free_token t) t.readers read_token h) refl,
  λ e h.
      let w : (t.writers.head == 0) ≡ true = ground arith in
      let r : (t.readers.head == 0) ≡ true = ground arith in rw (w, r) refl,
)
