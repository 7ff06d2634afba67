-- ===== src/CacheDeque/Items.antt =====
-- ndk/cache_deque.h: the items that are made, filled in and freed.
use cute_ndk.Base.{
  ℕ, ◌+◌, ◌-◌, ◌<◌, ◌≡◌, ◌≢◌, refl, not, ◌==◌, if◌then◌else◌, arith, Returns, returns, Returns-if,
  Returns-bind, true, false,
}
use cute_ndk.Base.Array.{upd, upd_self}
use cute_ndk.Links.{set_next, set_prev, get_next}
use cute_ndk.CacheDeque.{CacheDeque, alloc_item, fill, release_item}
use cute_ndk.CacheDeque.Order.{IsDeque}
use cute_ndk.CacheDeque.Entries.{Entries, Outside}

-- The free items and the pointer of an item outside are no part of the deque.
unfoldable renewed :
    (q : CacheDeque) (n : ℕ) (at : ℕ → ℕ)
    → IsDeque q n at
    → (f g : ℕ) → IsDeque (record q { free_queue = f; fresh = g }) n at
renewed q n at d f g = record {
  start = d.start;
  end = d.end;
  empty = d.empty;
  real = d.real;
  step = d.step;
  back = d.back;
  last = d.last;
  first = d.first;
  apart = d.apart;
}

unfoldable pointed :
    (q : CacheDeque) (n : ℕ) (at : ℕ → ℕ)
    → IsDeque q n at
    → (item x : ℕ) → ((k : ℕ) → k < n → at k ≢ item)
    → IsDeque (record q { links = record q.links { next = upd q.links.next item x } }) n at
pointed q n at d item x out = record {
  start = d.start;
  end = d.end;
  empty = d.empty;
  real = d.real;
  step = λ k h. ground (arith, d.step k, out k);
  back = d.back;
  last = λ k h. ground (arith, d.last k, out k);
  first = d.first;
  apart = d.apart;
}

module _ (q : CacheDeque) (n : ℕ) (es : ℕ → ℕ × ℕ) (v : Entries q n es) where
  module _ (e : ℕ × ℕ) (item : ℕ) (o : Outside q n es v e item) where
    -- The pointer of the item to the next one is cleared.
    pub cleared-Entries :
        Returns
          (λ l.
            (w : Entries (record q { links = l }) n es) × Outside
              (record q { links = l })
              n
              es
              w
              e
              item
            × (l.next item ≡ 0))
          (set_next q.links item 0)
    unfolding set_next pointed
    cleared-Entries =
        let test : (item == 0) ≡ false = ground (arith, o.real) in
        rw test (
          returns (
            record {
              at = v.at;
              deque = pointed q n v.at v.deque item 0 o.out;
              keys = v.keys;
              objects = v.objects;
              proxies = v.proxies;
              solid = v.solid;
              born = v.born;
              idle = v.idle;
              spare = v.spare;
              free_head = v.free_head;
              free_next = λ k h. ground (arith, v.free_next k, o.used k);
              free_real = v.free_real;
              free_apart = v.free_apart;
              free_out = v.free_out;
              free_born = v.free_born;
              started = v.started;
            },
            record {
              real = o.real;
              out = o.out;
              used = o.used;
              known = o.known;
              key = o.key;
              object = o.object;
              proxy = o.proxy;
              other = o.other;
              some = o.some;
            },
            upd_self q.links.next item 0,
          ))

    -- The item is free again.
    pub release-Entries : Returns (λ q'. Entries q' n es × (q'.size ≡ q.size)) (release_item q item)
    unfolding release_item set_next pointed renewed
    release-Entries =
        let test : (item == 0) ≡ false = ground (arith, o.real) in
        rw test (
          returns (
            record {
              at = v.at;
              deque =
                  renewed
                    (record q {
                      links = record q.links { next = upd q.links.next item q.free_queue };
                    })
                    n v.at (pointed q n v.at v.deque item q.free_queue o.out) item q.fresh;
              keys = v.keys;
              objects = v.objects;
              proxies = v.proxies;
              solid = v.solid;
              born = v.born;
              idle = v.idle + 1;
              spare = λ k. if k == 0 then item else v.spare (k - 1);
              free_head = ground arith;
              free_next =
                  λ k h. ground (arith, v.free_head, v.free_next (k - 1), o.used (k - 1), o.real);
              free_real = λ k h. ground (arith, v.free_real (k - 1), o.real);
              free_apart = λ j k h l. ground (arith, v.free_apart (j - 1) (k - 1), o.used (k - 1));
              free_out = λ j k h l. ground (arith, v.free_out (j - 1) k, o.out k);
              free_born = λ k h. ground (arith, v.free_born (k - 1), o.known);
              started = v.started;
            },
            refl,
          ))

  -- An item that is neither in the deque nor free is filled in.
  abbrev Filled : ℕ × ℕ → CacheDeque × ℕ → Type 0
  Filled e (q', item) =
      (w : Entries q' n es) × Outside q' n es w e item
      × (q'.links.next item ≡ 0)
      × (q'.size ≡ q.size)

  fill-Entries :
      (e : ℕ × ℕ) (item : ℕ)
      → e.1 ≢ 0
      → ((k : ℕ) → k < n → (es k).1 ≢ e.1)
      → item ≢ 0
      → ((k : ℕ) → k < n → v.at k ≢ item)
      → ((k : ℕ) → k < v.idle → v.spare k ≢ item)
      → item < q.fresh
      → Returns (λ q'. Filled e (q', item)) (fill q item e.0 e.1)
  unfolding fill set_next set_prev
  fill-Entries e item some other real out used known =
      let test : (item == 0) ≡ false = ground (arith, real) in
      let test' : not (e.1 == 0) ≡ true = ground (arith, some) in
      let d = v.deque in
      rw (test, test')
        (returns (
          record {
            at = v.at;
            deque = record {
              start = d.start;
              end = d.end;
              empty = d.empty;
              real = d.real;
              step = λ k h. ground (arith, d.step k, out k);
              back = λ k h. ground (arith, d.back k, out (k + 1));
              last = λ k h. ground (arith, d.last k, out k);
              first = λ h. ground (arith, d.first, out 0);
              apart = d.apart;
            };
            keys = λ k h. ground (arith, v.keys k, out k);
            objects = λ k h. ground (arith, v.objects k, out k);
            proxies = λ k h. ground (arith, v.proxies k, other k);
            solid = v.solid;
            born = v.born;
            idle = v.idle;
            spare = v.spare;
            free_head = v.free_head;
            free_next = λ k h. ground (arith, v.free_next k, used k);
            free_real = v.free_real;
            free_apart = v.free_apart;
            free_out = v.free_out;
            free_born = v.free_born;
            started = v.started;
          },
          record {
            real = real;
            out = out;
            used = used;
            known = known;
            key = upd_self q.obj_id item e.0;
            object = upd_self q.cobj item e.1;
            proxy = upd_self q.proxy e.1 item;
            other = other;
            some = some;
          },
          upd_self q.links.next item 0,
          refl,
        ))

-- A new item, or a free one, with the key and the object.
pub alloc-Entries :
    (q : CacheDeque) (n : ℕ) (es : ℕ → ℕ × ℕ) (v : Entries q n es) (e : ℕ × ℕ)
    → e.1 ≢ 0
    → ((k : ℕ) → k < n → (es k).1 ≢ e.1)
    → Returns (Filled q n es v e) (alloc_item q e.0 e.1)
unfolding alloc_item get_next renewed
alloc-Entries q n es v e some other =
    Returns-if (q.free_queue == 0)
      (λ t.
        Returns-bind
          (fill-Entries (record q { fresh = q.fresh + 1 }) n es
            (record {
              at = v.at;
              deque = renewed q n v.at v.deque q.free_queue (q.fresh + 1);
              keys = v.keys;
              objects = v.objects;
              proxies = v.proxies;
              solid = v.solid;
              born = λ k h. omega (arith, v.born k h);
              idle = v.idle;
              spare = v.spare;
              free_head = v.free_head;
              free_next = v.free_next;
              free_real = v.free_real;
              free_apart = v.free_apart;
              free_out = v.free_out;
              free_born = λ k h. omega (arith, v.free_born k h);
              started = omega arith;
            })
            e q.fresh some other (omega (arith, v.started)) (λ k h. omega (arith, v.born k h))
            (λ k h. omega (arith, v.free_born k h)) (omega arith))
          λ q' f. returns f)
      (λ t.
        let some_free : 0 < v.idle = ground (arith, v.free_head, t) in
        let head : q.free_queue ≡ v.spare 0 = ground (arith, v.free_head, some_free) in
        rw t (
          Returns-bind
            (fill-Entries (record q { free_queue = q.links.next q.free_queue }) n es
              (record {
                at = v.at;
                deque = renewed q n v.at v.deque (q.links.next q.free_queue) q.fresh;
                keys = v.keys;
                objects = v.objects;
                proxies = v.proxies;
                solid = v.solid;
                born = v.born;
                idle = v.idle - 1;
                spare = λ k. v.spare (k + 1);
                free_head = ground (arith, head, v.free_next 0, some_free);
                free_next = λ k h. ground (arith, v.free_next (k + 1));
                free_real = λ k h. v.free_real (k + 1) (omega (arith, h));
                free_apart =
                    λ j k h l. v.free_apart (j + 1) (k + 1) (omega (arith, h)) (omega (arith, l));
                free_out = λ j k h l. v.free_out (j + 1) k (omega (arith, h)) l;
                free_born = λ k h. v.free_born (k + 1) (omega (arith, h));
                started = v.started;
              })
              e q.free_queue some other (ground (arith, t))
              (λ k h. ground (arith, head, v.free_out 0 k, some_free))
              (λ k h. ground (arith, head, v.free_apart 0 (k + 1)))
              (ground (arith, head, v.free_born 0, some_free)))
            λ q' f. returns f))
