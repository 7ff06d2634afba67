-- ===== src/CacheDeque/Order.antt =====
-- ndk/cache_deque.h: insert_i and remove_i keep the items in their order.
use cute_ndk.Base.{
  ℕ, Returns-if, ltb, ◌+◌, ◌-◌, ◌<◌, ◌≡◌, ◌≢◌, refl, false, not, ◌&&◌, ◌==◌, if◌then◌else◌, arith,
  Returns, returns, Bool-cases, inl, inr,
}
use cute_ndk.Base.Array.{upd}
use cute_ndk.Links.{get_next, get_prev, set_next, set_prev}
use cute_ndk.CacheDeque.{CacheDeque, insert_i, remove_i}

-- The items `at 0`, ..., `at (n - 1)` are linked both ways from the head to the tail.
pub record IsDeque (q : CacheDeque) (n : ℕ) (at : ℕ → ℕ) : Type 0 where
  pub start : 0 < n → q.deque_head ≡ at 0
  pub end : (k : ℕ) → k + 1 ≡ n → q.deque_tail ≡ at k
  pub empty : n ≡ 0 → (q.deque_head ≡ 0) × (q.deque_tail ≡ 0)
  pub real : (k : ℕ) → k < n → at k ≢ 0
  pub step : (k : ℕ) → k + 1 < n → q.links.next (at k) ≡ at (k + 1)
  pub back : (k : ℕ) → k + 1 < n → q.links.prev (at (k + 1)) ≡ at k
  pub last : (k : ℕ) → k + 1 ≡ n → q.links.next (at k) ≡ 0
  pub first : 0 < n → q.links.prev (at 0) ≡ 0
  pub apart : (j k : ℕ) → j < k → k < n → at j ≢ at k

-- Nothing but the two ends and the pointers of items in the deque differs.
pub record Relinked (q : CacheDeque) (n : ℕ) (at : ℕ → ℕ) (q' : CacheDeque) : Type 0 where
  pub rest :
      q' ≡ record q { links = q'.links; deque_head = q'.deque_head; deque_tail = q'.deque_tail }
  pub outside : (x : ℕ) → ((k : ℕ) → k < n → at k ≢ x) → q'.links.next x ≡ q.links.next x

abbrev pub with_last {ℓ} : {A : Type ℓ} → ℕ → (ℕ → A) → A → ℕ → A
with_last n at item k = if k == n then item else at k

abbrev pub without {ℓ} : {A : Type ℓ} → ℕ → (ℕ → A) → ℕ → A
without i at k = if ltb k i then at k else at (k + 1)

-- insert_i puts an item that is not in the deque, with a null next pointer, behind the others.
pub insert_i_appends :
    (q : CacheDeque) (n : ℕ) (at : ℕ → ℕ) (item : ℕ)
    → IsDeque q n at
    → item ≢ 0
    → ((k : ℕ) → k < n → at k ≢ item)
    → q.links.next item ≡ 0
    → Returns
        (λ q'. IsDeque q' (n + 1) (with_last n at item) × Relinked q n at q')
        (insert_i q item)
unfolding insert_i set_prev set_next
insert_i_appends q n at item d real out null =
    let item_real : (item == 0) ≡ false = ground arith in
    rw item_real (elim (Bool-cases (q.deque_tail == 0)) [
      | inl e ↦
          let none_yet : n ≡ 0 = ground (arith, d.end (n - 1), d.real (n - 1)) in
          rw e (
            returns (
              record {
                start = λ h. ground (arith, d.empty);
                end = λ k h. ground arith;
                empty = λ h. absurd (omega arith);
                real = λ k h. ground (arith, d.real k);
                step = λ k h. absurd (omega arith);
                back = λ k h. absurd (omega arith);
                last = λ k h. ground arith;
                first = λ h. ground (arith, d.empty);
                apart = λ j k h l. absurd (omega arith);
              },
              record { rest = refl; outside = λ x h. refl },
            ))
      | inr e ↦
          let some_yet : 0 < n = ground (arith, d.empty) in
          let tail : q.deque_tail ≡ at (n - 1) = d.end (n - 1) (omega arith) in
          let head : q.deque_head ≢ 0 = ground (arith, d.start, d.real 0) in
          rw e (
            returns (
              record {
                start = λ h. ground (arith, d.start);
                end = λ k h. ground arith;
                empty = λ h. absurd (omega arith);
                real = λ k h. ground (arith, d.real k);
                step = λ k h. ground (arith, d.step k, d.apart k (n - 1), out k);
                back = λ k h. ground (arith, d.back k, out (k + 1));
                last = λ k h. ground (arith, out (n - 1));
                first = λ h. ground (arith, d.first, out 0);
                apart = λ j k h l. ground (arith, d.apart j k, out j);
              },
              record { rest = refl; outside = λ x h. ground (arith, h (n - 1)) },
            ))
    ])

module _ (q : CacheDeque) (n : ℕ) (at : ℕ → ℕ) (i : ℕ) (d : IsDeque q n at) (h : i < n) where
  abbrev Removed : CacheDeque → Type 0
  Removed q' = IsDeque q' (n - 1) (without i at) × Relinked q n at q'

  inner-Removed :
      0 < i
      → i + 1 < n
      → Removed (record q {
        links = record {
          next = upd q.links.next (at (i - 1)) (at (i + 1));
          prev = upd q.links.prev (at (i + 1)) (at (i - 1));
        };
      })
  inner-Removed more less = (
    record {
      start = λ l. ground (arith, d.start);
      end = λ k l. ground (arith, d.end (k + 1));
      empty = λ l. absurd (omega (arith, more, less));
      real = λ k l. ground (arith, d.real k, d.real (k + 1));
      step = λ k l.
          ground (arith, d.step k, d.step (k + 1), d.apart k (i - 1), d.apart (i - 1) (k + 1));
      back = λ k l.
          ground
            (arith, d.back k, d.back (k + 1), d.apart (k + 1) (i + 1), d.apart (i + 1) (k + 2));
      last = λ k l. ground (arith, d.last (k + 1), d.apart (i - 1) (k + 1));
      first = λ l. ground (arith, d.first, d.apart 0 (i + 1));
      apart = λ j k l m. ground (arith, d.apart j k, d.apart j (k + 1), d.apart (j + 1) (k + 1));
    },
    record { rest = refl; outside = λ x g. ground (arith, g (i - 1)) },
  )

  head-Removed :
      i ≡ 0
      → i + 1 < n
      → Removed (record q {
        links = record q.links { prev = upd q.links.prev (at (i + 1)) 0 };
        deque_head = at (i + 1);
      })
  head-Removed front less = (
    record {
      start = λ l. ground arith;
      end = λ k l. ground (arith, d.end (k + 1));
      empty = λ l. absurd (omega (arith, less));
      real = λ k l. ground (arith, d.real (k + 1));
      step = λ k l. ground (arith, d.step (k + 1));
      back = λ k l. ground (arith, d.back (k + 1), d.apart 1 (k + 2));
      last = λ k l. ground (arith, d.last (k + 1));
      first = λ l. ground arith;
      apart = λ j k l m. ground (arith, d.apart (j + 1) (k + 1));
    },
    record { rest = refl; outside = λ x g. refl },
  )

  tail-Removed :
      0 < i
      → i + 1 ≡ n
      → Removed (record q {
        links = record q.links { next = upd q.links.next (at (i - 1)) 0 };
        deque_tail = at (i - 1);
      })
  tail-Removed more end = (
    record {
      start = λ l. ground (arith, d.start);
      end = λ k l. ground arith;
      empty = λ l. absurd (omega (arith, end, more));
      real = λ k l. ground (arith, d.real k);
      step = λ k l. ground (arith, d.step k, d.apart k (i - 1));
      back = λ k l. ground (arith, d.back k);
      last = λ k l. ground arith;
      first = λ l. ground (arith, d.first);
      apart = λ j k l m. ground (arith, d.apart j k);
    },
    record { rest = refl; outside = λ x g. ground (arith, g (i - 1)) },
  )

  alone-Removed : i ≡ 0 → i + 1 ≡ n → Removed (record q { deque_head = 0; deque_tail = 0 })
  alone-Removed front end = (
    record {
      start = λ l. absurd (omega (arith, end, front));
      end = λ k l. absurd (omega (arith, end, front));
      empty = λ l. (refl, refl);
      real = λ k l. absurd (omega (arith, end, front));
      step = λ k l. absurd (omega (arith, end, front));
      back = λ k l. absurd (omega (arith, end, front));
      last = λ k l. absurd (omega (arith, end, front));
      first = λ l. absurd (omega (arith, end, front));
      apart = λ j k l m. absurd (omega (arith, end, front));
    },
    record { rest = refl; outside = λ x g. refl },
  )

  -- remove_i takes out exactly the item, wherever it stands, and the others keep their order.
  pub remove_i_removes : Returns Removed (remove_i q (at i))
  unfolding remove_i get_next get_prev set_prev set_next
  remove_i_removes =
      let here : (at i == 0) ≡ false = ground (arith, d.real i) in
      rw here (
        Returns-if (not (q.links.next (at i) == 0) && not (q.links.prev (at i) == 0))
          (λ e.
            let after : q.links.next (at i) ≡ at (i + 1) = ground (arith, d.step i, d.last i) in
            let ahead : q.links.prev (at i) ≡ at (i - 1) =
              ground (arith, d.back (i - 1), d.first) in
            let more : 0 < i = ground (arith, d.first) in
            let less : i + 1 < n = ground (arith, d.last i) in
            let p : (at (i - 1) == 0) ≡ false = ground (arith, d.real (i - 1)) in
            let s : (at (i + 1) == 0) ≡ false = ground (arith, d.real (i + 1)) in
            rw (after, ahead, p, s) (returns (inner-Removed more less)))
          (λ e.
            Returns-if (not (q.links.next (at i) == 0))
              (λ f.
                let after : q.links.next (at i) ≡ at (i + 1) = ground (arith, d.step i, d.last i) in
                let less : i + 1 < n = ground (arith, d.last i) in
                let s : (at (i + 1) == 0) ≡ false = ground (arith, d.real (i + 1)) in
                let front : i ≡ 0 = ground (arith, d.back (i - 1), d.real (i - 1)) in
                rw (after, s) (returns (head-Removed front less)))
              (λ f.
                let end : i + 1 ≡ n = ground (arith, d.step i, d.real (i + 1)) in
                Returns-if (not (q.links.prev (at i) == 0))
                  (λ g.
                    let more : 0 < i = ground (arith, d.first) in
                    let ahead : q.links.prev (at i) ≡ at (i - 1) = ground (arith, d.back (i - 1)) in
                    let p : (at (i - 1) == 0) ≡ false = ground (arith, d.real (i - 1)) in
                    rw (ahead, p) (returns (tail-Removed more end)))
                  (λ g.
                    let front : i ≡ 0 = ground (arith, d.back (i - 1), d.real (i - 1)) in
                    returns (alone-Removed front end)))))
