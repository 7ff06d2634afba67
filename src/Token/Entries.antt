-- ===== src/Token/Entries.antt =====
-- ndk/token.cpp: insert_entry and remove_entry keep the waiting threads in their order.
use cute_ndk.Base.{
  ℕ, zero, suc, ◌+◌, ◌-◌, ◌≤◌, ◌<◌, ◌≡◌, ◌≢◌, refl, ap, ◌∙◌, Bool-cases, true, false, not, ◌&&◌,
  inl, inr, ok, ◌==◌, if◌then◌else◌, arith, Returns, returns, Returns-if,
}
use cute_ndk.Base.Array.{upd}
use cute_ndk.Token.{Entry, TokenQueue, Strategy, fifo, lifo, insert_entry, find_entry, remove_entry}
use cute_ndk.Token.Waiting.{IsWaiting, SameThreads, inserted, without, deref-ok}

-- A new entry goes to the end of the waiting threads, or to their front, as the strategy says; the
-- others keep their order.
pub insert_entry_inserts :
    (es : ℕ → Entry) (q : TokenQueue) (n : ℕ) (at : ℕ → ℕ) (entry : ℕ) (strategy : Strategy)
    → IsWaiting es q n at
    → entry ≢ 0
    → ((k : ℕ) → k < n → at k ≢ entry)
    → (es entry).next ≡ 0
    → Returns
        (λ (es', q'). IsWaiting es' q' (n + 1) (inserted strategy n at entry) × SameThreads es es')
        (insert_entry es q entry strategy)
unfolding insert_entry
insert_entry_inserts es q n at entry fifo w real out fresh =
    Returns-if (q.head == 0)
      (λ e.
        let none_yet : n ≡ 0 = ground (arith, w.start, w.real 0) in
        returns (
          record {
            start = λ h. ground arith;
            empty = λ h. absurd (omega arith);
            real = λ k h. ground (arith, w.real k);
            step = λ k h. absurd (omega arith);
            last = λ k h. ground arith;
            tail = λ k h. ground arith;
            apart = λ j k h l. absurd (omega arith);
          },
          λ p. (refl, refl),
        ))
      (λ e.
        let some_yet : 0 < n = ground (arith, w.empty) in
        let end : q.tail ≡ at (n - 1) = w.tail (n - 1) (omega arith) in
        let there : q.tail ≢ 0 = ground (arith, w.real (n - 1)) in
        rw (deref-ok es q.tail there) (
          returns (
            record {
              start = λ h. ground (arith, w.start);
              empty = λ h. absurd (omega arith);
              real = λ k h. ground (arith, w.real k);
              step = λ k h. ground (arith, w.step k, w.apart k (n - 1), out k);
              last = λ k h. ground (arith, out (n - 1));
              tail = λ k h. ground arith;
              apart = λ j k h l. ground (arith, w.apart j k, out j);
            },
            λ p. (ground arith, ground arith),
          )))
insert_entry_inserts es q n at entry lifo w real out fresh =
    Returns-if (q.head == 0)
      (λ e.
        let none_yet : n ≡ 0 = ground (arith, w.start, w.real 0) in
        returns (
          record {
            start = λ h. ground arith;
            empty = λ h. absurd (omega arith);
            real = λ k h. ground (arith, w.real k);
            step = λ k h. absurd (omega arith);
            last = λ k h. ground arith;
            tail = λ k h. ground arith;
            apart = λ j k h l. absurd (omega arith);
          },
          λ p. (refl, refl),
        ))
      (λ e.
        let some_yet : 0 < n = ground (arith, w.empty) in
        rw (deref-ok es entry real) (
          returns (
            record {
              start = λ h. ground (arith, w.start);
              empty = λ h. absurd (omega arith);
              real = λ k h. ground (arith, w.real (k - 1));
              step = λ k h. ground (arith, w.step (k - 1), w.start, out (k - 1));
              last = λ k h. ground (arith, w.last (k - 1), out (k - 1));
              tail = λ k h. ground (arith, w.tail (k - 1));
              apart = λ j k h l. ground (arith, w.apart (j - 1) (k - 1), out (k - 1));
            },
            λ p. (ground arith, ground arith),
          )))

find_entry-ok :
    (k : ℕ) (es : ℕ → Entry) (q : TokenQueue) (n : ℕ) (at : ℕ → ℕ) (i j prev : ℕ)
    → IsWaiting es q n at
    → i < n
    → j ≤ i
    → i < k + j
    → find_entry k es (at j) prev (at i) ≡ ok (at i, if j == i then prev else at (i - 1))
unfolding find_entry
find_entry-ok zero es q n at i j prev w h l f = absurd (omega arith)
find_entry-ok (suc k) es q n at i j prev w h l f = elim (Bool-cases (j == i)) [
  | inl e ↦
      let test : not (at j == 0) && not (at j == at i) ≡ false = ground arith in
      rw (test, e) (ap (λ x. ok (x, prev)) (ground arith))
  | inr e ↦
      let test : not (at j == 0) && not (at j == at i) ≡ true =
        ground (arith, w.real j, w.apart j i) in
      let rest = find_entry-ok k es q n at i (j + 1) (at j) w h (ground arith) (omega arith) in
      rw (test, e, deref-ok es (at j) (w.real j (omega arith)), w.step j (ground arith))
        (rest ∙ ap (λ x. ok (at i, x)) (ground arith))
]

-- remove_entry takes out exactly the entry, wherever it stands, and the others keep their order.
pub remove_entry_removes :
    (fuel : ℕ) (es : ℕ → Entry) (q : TokenQueue) (n : ℕ) (at : ℕ → ℕ) (i : ℕ)
    → IsWaiting es q n at
    → i < n
    → n ≤ fuel
    → Returns
        (λ (es', q'). IsWaiting es' q' (n - 1) (without i at) × SameThreads es es')
        (remove_entry fuel es q (at i))
unfolding remove_entry
remove_entry_removes fuel es q n at i w h f =
    let head : q.head ≡ at 0 = w.start (omega arith) in
    let full : (q.head == 0) ≡ false = ground (arith, w.real 0) in
    let there : (at i == 0) ≡ false = ground (arith, w.real i) in
    let first : q.head ≢ 0 = ground (arith, w.real 0) in
    rw
      (
        full,
        head,
        find_entry-ok fuel es q n at i 0 0 w h (omega arith) (omega arith),
        there,
        deref-ok es (at i) (w.real i h),
        deref-ok es (at 0) (w.real 0 (omega arith)),
      )
      (elim (Bool-cases (0 == i)) [
        | inl e ↦
            rw (e, deref-ok es (at i) (w.real i h))
              (returns (
                record {
                  start = λ l. ground (arith, w.step 0);
                  empty = λ l. ground (arith, w.last 0);
                  real = λ k l. ground (arith, w.real (k + 1));
                  step = λ k l. ground (arith, w.step (k + 1));
                  last = λ k l. ground (arith, w.last (k + 1));
                  tail = λ k l. ground (arith, w.tail (k + 1), w.step 0, w.real 1);
                  apart = λ j k l m. ground (arith, w.apart (j + 1) (k + 1));
                },
                λ p. (refl, refl),
              ))
        | inr e ↦
            let before : (at (i - 1) == 0) ≡ false = ground (arith, w.real (i - 1)) in
            let unlinked =
              upd es (at (i - 1)) (record (es (at (i - 1))) { next = (es (at i)).next }) in
            rw
              (
                e,
                before,
                deref-ok es (at (i - 1)) (ground (arith, w.real (i - 1))),
                deref-ok unlinked (at i) (w.real i h),
              )
              (returns (
                record {
                  start = λ l. ground arith;
                  empty = λ l. ground arith;
                  real = λ k l. ground (arith, w.real k, w.real (k + 1));
                  step = λ k l. ground (
                    arith,
                    w.step k,
                    w.step (k + 1),
                    w.step i,
                    w.apart k (i - 1),
                    w.apart (i - 1) (k + 1),
                  );
                  last = λ k l. ground (arith, w.last i, w.last (k + 1), w.apart (i - 1) (k + 1));
                  tail = λ k l. ground (
                    arith,
                    w.tail (k + 1),
                    w.last i,
                    w.step i,
                    w.real (i + 1),
                    w.apart (i - 1) i,
                  );
                  apart = λ j k l m.
                      ground (arith, w.apart j k, w.apart j (k + 1), w.apart (j + 1) (k + 1));
                },
                λ p. (ground arith, ground arith),
              ))
      ])
