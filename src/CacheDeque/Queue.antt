-- ===== src/CacheDeque/Queue.antt =====
-- ndk/cache_deque.h: the calls, on the sequence of the keys and objects.
use cute_ndk.Base.{
  ℕ, ◌+◌, ◌-◌, ◌<◌, ◌≡◌, ◌≢◌, ◌⊎◌, inl, inr, refl, sym, ap, ◌∙◌, not, ◌==◌, arith, Run, ◌>>=◌,
  Returns, returns, Returns-if, Returns-bind, Option, none, some, true, false,
}
use mathlib.Core.Path.{subst}
use cute_ndk.Base.Int.{pos}
use cute_ndk.CacheDeque.{CacheDeque, insert, remove, remove_front, adjust, remove_i, release_item}
use cute_ndk.CacheDeque.Order.{with_last, without}
use cute_ndk.CacheDeque.Entries.{Entries, Outside, append-Entries, take-Entries}
use cute_ndk.CacheDeque.Items.{release-Entries, cleared-Entries, alloc-Entries}

-- The deque is the sequence of the keys and objects `es`, and counts them.
pub record Holds (q : CacheDeque) (n : ℕ) (es : ℕ → ℕ × ℕ) : Type 0 where
  pub entries : Entries q n es
  pub count : q.size ≡ n

-- The count is no part of the items.
unfoldable counted :
    (q : CacheDeque) (n : ℕ) (es : ℕ → ℕ × ℕ)
    → Entries q n es
    → (s : ℕ) → s ≡ n
    → Holds (record q { size = s }) n es
counted q n es v s e = record {
  entries = record {
    at = v.at;
    deque = record {
      start = v.deque.start;
      end = v.deque.end;
      empty = v.deque.empty;
      real = v.deque.real;
      step = v.deque.step;
      back = v.deque.back;
      last = v.deque.last;
      first = v.deque.first;
      apart = v.deque.apart;
    };
    keys = v.keys;
    objects = v.objects;
    proxies = v.proxies;
    solid = v.solid;
    born = v.born;
    idle = v.idle;
    spare = v.spare;
    free_head = v.free_head;
    free_next = v.free_next;
    free_real = v.free_real;
    free_apart = v.free_apart;
    free_out = v.free_out;
    free_born = v.free_born;
    started = v.started;
  };
  count = e;
}

-- insert puts a key and an object that is not in the deque behind the others, and returns 0.
pub insert_correct :
    (q : CacheDeque) (n : ℕ) (es : ℕ → ℕ × ℕ) (v : Holds q n es) (e : ℕ × ℕ)
    → e.1 ≢ 0
    → ((k : ℕ) → k < n → (es k).1 ≢ e.1)
    → Returns (λ (q', r). (r ≡ pos 0) × Holds q' (n + 1) (with_last n es e)) (insert q e.0 e.1)
unfolding insert
insert_correct q n es v e real other =
    Returns-bind (alloc-Entries q n es v.entries e real other) λ (q1, item) (w, o, null, size).
      let test : not (item == 0) ≡ true = ground (arith, o.real) in
      rw test (
        Returns-bind (append-Entries q1 n es w e item o null) λ q2 (x, r).
          let size' : q2.size ≡ q.size = ap (λ y. y.size) r.rest ∙ size in
          returns (
            refl,
            counted q2 (n + 1) (with_last n es e) x (q2.size + 1) (omega (arith, size', v.count)),
          ))

module _ (q : CacheDeque) (n : ℕ) (es : ℕ → ℕ × ℕ) (v : Holds q n es) (i : ℕ) (h : i < n) where
  abbrev item : ℕ
  item = v.entries.at i

  solid : (item == 0) ≡ false
  solid = ground (arith, v.entries.deque.real i h)

  -- The item of the place `i` is taken out and is free again.
  taken_out :
      {T : Type 0} {Q : T → Type 0} (next : CacheDeque → Run T)
      → ((q' : CacheDeque) → Holds q' (n - 1) (without i es) → Returns Q (next q'))
      → Returns Q
          (remove_i q item >>= λ q'. release_item (record q' { size = q'.size - 1 }) item >>= next)
  unfolding counted
  taken_out next then_returns = Returns-bind (take-Entries q n es v.entries i h) λ q1 (w, o, r).
      let less : q1.size - 1 ≡ n - 1 = ap (λ s. s - 1) (ap (λ y. y.size) r.rest ∙ v.count) in
      let c = counted q1 (n - 1) (without i es) w (q1.size - 1) less in
      let out : Outside (record q1 { size = q1.size - 1 }) (n - 1) (without i es) c.entries (es i)
          item =
        record {
          real = o.real;
          out = o.out;
          used = o.used;
          known = o.known;
          key = o.key;
          object = o.object;
          proxy = o.proxy;
          other = o.other;
          some = o.some;
        } in
      Returns-bind (release-Entries _ (n - 1) (without i es) c.entries (es i) item out)
        λ q2 (x, s). then_returns q2 (record { entries = x; count = s ∙ less })

  -- adjust, for the item that the object of the place `i` knows, calls `acquire` for this object once,
  -- whatever that does to a state of its own, and moves its key and object behind the others, which
  -- keep their order. It returns 0.
  pub adjust_correct :
      {S : Type 0} {P : S → Type 0} (acquire : ℕ → S → Run S) (state : S)
      → Returns P (acquire (es i).1 state)
      → Returns
          (λ (q', state', r).
            (r ≡ pos 0) × P state' × Holds q' n (with_last (n - 1) (without i es) (es i)))
          (adjust q (q.proxy (es i).1) acquire state)
  unfolding adjust
  adjust_correct acquire state acquired =
      rw (v.entries.proxies i h, solid)
        (Returns-bind (take-Entries q n es v.entries i h) λ q1 (w, o, r). rw o.object (
          Returns-bind acquired λ state' p.
            Returns-bind (cleared-Entries q1 (n - 1) (without i es) w (es i) item o)
              λ l (x, y, null).
                Returns-bind
                  (append-Entries (record q1 { links = l }) (n - 1) (without i es) x (es i) item y
                    null)
                  λ q2 (z, t).
                    let back : n - 1 + 1 ≡ n = omega (arith, h) in
                    let count : q2.size ≡ n - 1 + 1 =
                      ap (λ y. y.size) t.rest ∙ ap (λ y. y.size) r.rest ∙ v.count ∙ sym back in
                    returns (
                      refl,
                      p,
                      subst (λ m. Holds q2 m (with_last (n - 1) (without i es) (es i))) back
                          (record { entries = z; count = count }),
                    )))

-- What remove gives, and leaves.
abbrev pub Removal :
    (q : CacheDeque) (n : ℕ) (es : ℕ → ℕ × ℕ) → CacheDeque × Option (ℕ × ℕ) → Type 0
Removal q n es (q', r) =
    ((n ≡ 0) × (q' ≡ q) × (r ≡ none))
    ⊎ ((0 < n) × (r ≡ some (es 0)) × Holds q' (n - 1) (without 0 es))

front-Removal :
    (q : CacheDeque) (n : ℕ) (es : ℕ → ℕ × ℕ) (v : Holds q n es)
    → 0 < n
    → Returns (Removal q n es) (remove_front q (v.entries.at 0))
unfolding remove_front
front-Removal q n es v more = taken_out q n es v 0 more _ λ q' w. returns (
    inr (
      more,
      ap (λ k. some (k, q.cobj (v.entries.at 0))) (v.entries.keys 0 more)
          ∙ ap (λ o. some ((es 0).0, o)) (v.entries.objects 0 more),
      w,
    ))

-- remove takes out the first key and object, and the others keep their order; an empty deque stays as
-- it is, and nothing is given.
pub remove_correct :
    (q : CacheDeque) (n : ℕ) (es : ℕ → ℕ × ℕ) → Holds q n es → Returns (Removal q n es) (remove q)
unfolding remove
remove_correct q n es v =
    Returns-if (q.deque_head == 0)
      (λ e.
        returns
          (inl (ground (arith, v.entries.deque.start, v.entries.deque.real 0, e), refl, refl)))
      (λ e.
        let more : 0 < n = ground (arith, v.entries.deque.empty, e) in
        subst (λ x. Returns (Removal q n es) (remove_front q x)) (sym (v.entries.deque.start more))
          (front-Removal q n es v more))
