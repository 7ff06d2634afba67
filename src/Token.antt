-- ===== src/Token.antt =====
-- ndk/token.h and ndk/token.cpp: the token, a recursive lock that is handed to the next waiter. Each
-- function runs while its thread holds the mutex of the token.
pub mod Waiting
pub mod Entries
pub mod Handing
pub mod Timeout
mod Tests
use cute_ndk.Base.{
  ℕ, zero, suc, ◌+◌, ◌-◌, Bool, true, false, not, ◌&&◌, Option, none, some, ltb, ◌==◌,
  if◌then◌else◌, List, [], ◌∷◌, Run, ok, out_of_fuel, ◌>>=◌, ◌>>◌, require,
}
use cute_ndk.Base.Array.{upd}
use cute_ndk.Base.Int.{ℤ, pos, negsuc}

pub data Strategy : Type 0 where
  fifo lifo : Strategy

pub data TokenOptType : Type 0 where
  read_token write_token : TokenOptType

-- An entry of a waiting thread, on the stack of that thread.
pub record Entry : Type 0 where
  pub runable : Bool
  pub next : ℕ
  pub thread_id : ℕ

pub record TokenQueue : Type 0 where
  pub head : ℕ
  pub tail : ℕ

-- The members of the token, with all entries by address. `in_use` is none for 0, `owner` is none
-- for NULL_thread, and `signals` lists the entries whose conditions were signalled.
pub record Token : Type 0 where
  pub waiters : ℕ
  pub in_use : Option TokenOptType
  pub nesting_level : ℕ
  pub queueing_strategy : Strategy
  pub owner : Option ℕ
  pub writers : TokenQueue
  pub readers : TokenQueue
  pub entries : ℕ → Entry
  pub signals : List ℕ

-- The entry behind a pointer.
unfoldable pub deref : (ℕ → Entry) → ℕ → Run Entry
deref es p = do require (not (p == 0)); ok (es p)

-- The constructor of an entry.
abbrev pub token_queue_entry : ℕ → Entry
token_queue_entry thr_id = record { runable = false; next = 0; thread_id = thr_id }

pub insert_entry : (ℕ → Entry) → TokenQueue → ℕ → Strategy → Run ((ℕ → Entry) × TokenQueue)
insert_entry es q entry queue_strategy =
    let front : Run ((ℕ → Entry) × TokenQueue) = do
      new ← deref es entry
      ok (upd es entry (record new { next = q.head }), record q { head = entry })
    in let back : Run ((ℕ → Entry) × TokenQueue) = do
      last ← deref es q.tail
      ok (upd es q.tail (record last { next = entry }), record q { tail = entry })
      in if q.head == 0
        then ok (es, record { head = entry; tail = entry })
        else elim queue_strategy [ fifo ↦ back | lifo ↦ front ]

-- The loop of remove_entry, on fuel: the entry, or null, and the one before it.
find_entry : ℕ → (ℕ → Entry) → ℕ → ℕ → ℕ → Run (ℕ × ℕ)
find_entry zero es curr prev entry = out_of_fuel
find_entry (suc k) es curr prev entry =
    let walk : Run (ℕ × ℕ) = do this ← deref es curr; find_entry k es this.next curr entry
    in if not (curr == 0) && not (curr == entry) then walk else ok (curr, prev)

pub remove_entry : ℕ → (ℕ → Entry) → TokenQueue → ℕ → Run ((ℕ → Entry) × TokenQueue)
unfolding find_entry
remove_entry fuel es q entry = if q.head == 0 then ok (es, q) else do
  (curr, prev) ← find_entry fuel es q.head 0 entry
  let found : Run ((ℕ → Entry) × TokenQueue) = do
    this ← deref es curr
    let behind : Run ((ℕ → Entry) × TokenQueue) = do
      before ← deref es prev
      ok (upd es prev (record before { next = this.next }), q)
    first ← deref es q.head
    (es', q') ← if prev == 0 then ok (es, record q { head = first.next }) else behind
    old ← deref es' curr
    ok (es', if old.next == 0 then record q' { tail = prev } else q')
  if curr == 0 then ok (es, q) else found

-- The head of a queue is made the owner.
hand_over : Token → TokenQueue → TokenOptType → Run Token
hand_over t queue opt_type = do
  first ← deref t.entries queue.head
  ok (record t {
    in_use = some opt_type;
    owner = some first.thread_id;
    entries = upd t.entries queue.head (record first { runable = true });
    signals = queue.head ∷ t.signals;
  })

pub wakeup_next_waiter : Token → Run Token
unfolding hand_over
wakeup_next_waiter t =
    let free = record t { in_use = none; owner = none } in
    let writer = hand_over free free.writers write_token in
    let reader = hand_over free free.readers read_token in
    if free.writers.head == 0 && free.readers.head == 0
    then ok free
    else if not (free.writers.head == 0)
    then writer
    else reader

pub release : Token → Run Token
release t =
    let next = wakeup_next_waiter t in
    if ltb 0 t.nesting_level then ok (record t { nesting_level = t.nesting_level - 1 }) else next

abbrev pub queue_of : Token → TokenOptType → TokenQueue
queue_of t read_token = t.readers
queue_of t write_token = t.writers

abbrev pub set_queue : Token → TokenOptType → TokenQueue → Token
set_queue t read_token q = record t { readers = q }
set_queue t write_token q = record t { writers = q }

abbrev pub owned_by : Option ℕ → ℕ → Bool
owned_by none thr_id = false
owned_by (some owner) thr_id = thr_id == owner

abbrev pub is_used : Option TokenOptType → Bool
is_used none = false
is_used (some opt_type) = true

-- `shared_acquire` before its wait: whether the thread has the token now. The address of its entry
-- is that of the variable `my_entry`.
pub start_acquire : Token → ℕ → TokenOptType → ℕ → Run (Token × Bool)
start_acquire t thr_id opt_type my_entry =
    let taken = record t { in_use = some opt_type; owner = some thr_id } in
    let nested = record t { nesting_level = t.nesting_level + 1 } in
    let queued : Run (Token × Bool) = do
      (es, q) ←
          insert_entry (upd t.entries my_entry (token_queue_entry thr_id)) (queue_of t opt_type)
            my_entry t.queueing_strategy
      ok (set_queue (record t { entries = es; waiters = t.waiters + 1 }) opt_type q, false)
    in if is_used t.in_use
      then if owned_by t.owner thr_id then ok (nested, true) else queued
      else ok (taken, true)

-- How a wait on the condition of an entry ends.
pub data WaitResult : Type 0 where
  signalled interrupted timed_out failed : WaitResult

-- The end of `shared_acquire`: 0 with the token held, or -1.
pub finish_acquire : ℕ → Token → ℕ → TokenOptType → ℕ → WaitResult → Run (Token × ℤ)
finish_acquire fuel t thr_id opt_type my_entry result = do
  (es, q) ← remove_entry fuel t.entries (queue_of t opt_type) my_entry
  mine ← deref es my_entry
  let left = set_queue (record t { entries = es; waiters = t.waiters - 1 }) opt_type q
  let next = wakeup_next_waiter left
  let gave_up : Run (Token × ℤ) = do t' ← if mine.runable then next else ok left; ok (t', negsuc 0)
  let held : Run (Token × ℤ) = do require mine.runable; ok (left, pos 0)
  elim result [
    | signalled ↦ held
    | interrupted ↦ held
    | timed_out ↦ gave_up
    | failed ↦ ok (left, negsuc 0)
  ]

-- The wait of `shared_acquire`: at each wake-up, the token as the thread finds it and how the wait
-- ended. No wake-ups left: the thread waits still.
pub wait_acquire :
    ℕ → List (Token × WaitResult) → Token → ℕ → TokenOptType → ℕ → Run (Token × Option ℤ)
wait_acquire fuel [] t thr_id opt_type my_entry = ok (t, none)
wait_acquire fuel ((t, result) ∷ later) before thr_id opt_type my_entry =
    let again = wait_acquire fuel later t thr_id opt_type my_entry in
    let woken : Run (Token × Option ℤ) = do
      (t', r) ← finish_acquire fuel t thr_id opt_type my_entry result
      ok (t', some r)
    in let broken : Run (Token × Option ℤ) = do
      t' ← wakeup_next_waiter t
      (t'', r) ← finish_acquire fuel t' thr_id opt_type my_entry result
      ok (t'', some r)
      in let check = if owned_by t.owner thr_id then woken else again in
        elim result [
          | signalled ↦ check
          | interrupted ↦ check
          | timed_out ↦ broken
          | failed ↦ broken
        ]
