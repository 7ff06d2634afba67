-- ===== src/MessageQueue/Wait/Loop.antt =====
-- ndk/message_queue.cpp: how the loops of wait_not_full_cond and wait_not_empty_cond end.
use cute_ndk.Base.{
  ◌≡◌, refl, Bool, true, false, [], ◌∷◌, if◌then◌else◌, arith, Run, ok, out_of_fuel,
}
use cute_ndk.Base.Int.{ℤ, pos, negsuc}
use cute_ndk.MessageQueue.{Queue}
use cute_ndk.MessageQueue.Wait.{Timeout, forever, no_wait, limited, Wakeups, wait_while}

-- Each queue that the thread finds satisfies `P`.
abbrev pub AllFound {ℓ} : (Queue → Type ℓ) → Wakeups → Type ℓ
AllFound P [] = Unit
AllFound P ((woken, q) ∷ wakeups) = P q × AllFound P wakeups

-- What a wait comes to: a queue that is not busy, a queue that it gives up on, or the thread waits
-- still.
pub data Ending : Type 0 where
  found gives_up : Queue → Ending
  still : Ending

-- The timeout is not zero.
abbrev pub IsPatient : Timeout → Type 0
IsPatient no_wait = ⊥
IsPatient forever = Unit
IsPatient limited = Unit

-- The course of a wait: it ends at the first queue that is not busy; on a busy one it gives up where the
-- timeout is zero or the wait times out, and goes on with the next queue where it is woken.
pub data Ends (busy : Queue → Bool) (timeout : Timeout) : Wakeups → Queue → Ending → Type 0 where
  at_once : {wakeups : Wakeups} {q : Queue} → busy q ≡ false → Ends busy timeout wakeups q (found q)
  zero :
      {wakeups : Wakeups} {q : Queue}
      → busy q ≡ true
      → timeout ≡ no_wait
      → Ends busy timeout wakeups q (gives_up q)
  late :
      {wakeups : Wakeups} {q q' : Queue}
      → busy q ≡ true
      → IsPatient timeout
      → Ends busy timeout ((false, q') ∷ wakeups) q (gives_up q')
  again :
      {wakeups : Wakeups} {q q' : Queue} {e : Ending}
      → busy q ≡ true
      → IsPatient timeout
      → Ends busy timeout wakeups q' e
      → Ends busy timeout ((true, q') ∷ wakeups) q e
  waits_on : {q : Queue} → busy q ≡ true → IsPatient timeout → Ends busy timeout [] q still

-- How a wait ends: not at all, with failure, or with a queue that is not busy.
pub data Waits {ℓ} (P : Queue → Type ℓ) (busy : Queue → Bool) (course : Ending → Type 0)
    : Run (Queue × ℤ) → Type ℓ where
  blocked : course still → Waits P busy course out_of_fuel
  failed : {q : Queue} → course (gives_up q) → P q → Waits P busy course (ok (q, negsuc 0))
  ready :
      {q : Queue} → course (found q) → P q → busy q ≡ false → Waits P busy course (ok (q, pos 0))

module _ {ℓ} (P : Queue → Type ℓ) (busy : Queue → Bool) (timeout : Timeout) where
  -- The two tests of the loop.
  Waits-if :
      {course : Ending → Type 0} {r s : Run (Queue × ℤ)} (b : Bool)
      → (b ≡ true → Waits P busy course r)
      → (b ≡ false → Waits P busy course s)
      → Waits P busy course (if b then r else s)
  Waits-if true h k = h refl
  Waits-if false h k = k refl

  Waits-timeout :
      {course : Ending → Type 0} {r s : Run (Queue × ℤ)} (t : Timeout)
      → (t ≡ no_wait → Waits P busy course r)
      → (IsPatient t → Waits P busy course s)
      → Waits P busy course (elim t [ no_wait ↦ r | _ ↦ s ])
  Waits-timeout forever h k = k tt
  Waits-timeout no_wait h k = h refl
  Waits-timeout limited h k = k tt

  Waits-map :
      {course course' : Ending → Type 0} {r : Run (Queue × ℤ)}
      → ((e : Ending) → course e → course' e)
      → Waits P busy course r
      → Waits P busy course' r
  Waits-map f (blocked c) = blocked (f _ c)
  Waits-map f (failed c p) = failed (f _ c) p
  Waits-map f (ready c p i) = ready (f _ c) p i

  pub wait_while-Waits :
      (wakeups : Wakeups) (q : Queue)
      → P q
      → AllFound P wakeups
      → Waits P busy (Ends busy timeout wakeups q) (wait_while busy wakeups timeout q)
  unfolding wait_while
  wait_while-Waits [] q p all =
      Waits-if (busy q)
        (λ b. Waits-timeout timeout (λ z. failed (zero b z) p) (λ t. blocked (waits_on b t)))
        (λ idle. ready (at_once idle) p idle)
  wait_while-Waits ((true, q') ∷ wakeups) q p all =
      Waits-if (busy q)
        (λ b.
          Waits-timeout timeout (λ z. failed (zero b z) p)
            (λ t. Waits-map (λ e. again b t) (wait_while-Waits wakeups q' all.0 all.1)))
        (λ idle. ready (at_once idle) p idle)
  wait_while-Waits ((false, q') ∷ wakeups) q p all =
      Waits-if (busy q)
        (λ b. Waits-timeout timeout (λ z. failed (zero b z) p) (λ t. failed (late b t) all.0))
        (λ idle. ready (at_once idle) p idle)

-- With a zero timeout the loop ends at once, and the queue is as it was.
pub wait_while-no_wait :
    (busy : Queue → Bool) (wakeups : Wakeups) (q : Queue)
    → wait_while busy wakeups no_wait q ≡ ok (q, if busy q then negsuc 0 else pos 0)
unfolding wait_while
wait_while-no_wait busy [] q = ground arith
wait_while-no_wait busy (w ∷ wakeups) q = ground arith
