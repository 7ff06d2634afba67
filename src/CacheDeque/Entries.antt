-- ===== src/CacheDeque/Entries.antt =====
-- ndk/cache_deque.h: the items of the deque and those that are free.
use cute_ndk.Base.{
  ℕ, ◌+◌, ◌-◌, ◌<◌, ◌≡◌, ◌≢◌, sym, ap, ◌∙◌, ◌==◌, if◌then◌else◌, arith, Returns, Returns-map,
}
use cute_ndk.CacheDeque.{CacheDeque, insert_i, remove_i}
use cute_ndk.CacheDeque.Order.{
  IsDeque, Relinked, with_last, without, insert_i_appends, remove_i_removes,
}

-- The deque holds the keys and objects `es` in this order, in items that the objects know, and the
-- free items are linked.
pub record Entries (q : CacheDeque) (n : ℕ) (es : ℕ → ℕ × ℕ) : Type 0 where
  pub at : ℕ → ℕ
  pub deque : IsDeque q n at
  pub keys : (k : ℕ) → k < n → q.obj_id (at k) ≡ (es k).0
  pub objects : (k : ℕ) → k < n → q.cobj (at k) ≡ (es k).1
  pub proxies : (k : ℕ) → k < n → q.proxy (es k).1 ≡ at k
  pub solid : (k : ℕ) → k < n → (es k).1 ≢ 0
  pub born : (k : ℕ) → k < n → at k < q.fresh
  pub idle : ℕ
  pub spare : ℕ → ℕ
  pub free_head : q.free_queue ≡ (if idle == 0 then 0 else spare 0)
  pub free_next :
      (k : ℕ) → k < idle → q.links.next (spare k) ≡ (if k + 1 == idle then 0 else spare (k + 1))
  pub free_real : (k : ℕ) → k < idle → spare k ≢ 0
  pub free_apart : (j k : ℕ) → j < k → k < idle → spare j ≢ spare k
  pub free_out : (j k : ℕ) → j < idle → k < n → spare j ≢ at k
  pub free_born : (k : ℕ) → k < idle → spare k < q.fresh
  pub started : 0 < q.fresh

-- An item with a key and an object, which is neither in the deque nor free.
pub record Outside (q : CacheDeque) (n : ℕ) (es : ℕ → ℕ × ℕ) (v : Entries q n es) (e : ℕ × ℕ)
    (item : ℕ) : Type 0 where
  pub real : item ≢ 0
  pub out : (k : ℕ) → k < n → v.at k ≢ item
  pub used : (k : ℕ) → k < v.idle → v.spare k ≢ item
  pub known : item < q.fresh
  pub key : q.obj_id item ≡ e.0
  pub object : q.cobj item ≡ e.1
  pub proxy : q.proxy e.1 ≡ item
  pub other : (k : ℕ) → k < n → (es k).1 ≢ e.1
  pub some : e.1 ≢ 0

module _ (q : CacheDeque) (n : ℕ) (es : ℕ → ℕ × ℕ) (v : Entries q n es) where
  -- The pointers of the deque's items are changed.
  unfoldable relinked-Entries :
      (n' : ℕ) (at' : ℕ → ℕ) (es' : ℕ → ℕ × ℕ) (q' : CacheDeque)
      → IsDeque q' n' at'
      → Relinked q n v.at q'
      → ((k : ℕ) → k < n' → q.obj_id (at' k) ≡ (es' k).0)
      → ((k : ℕ) → k < n' → q.cobj (at' k) ≡ (es' k).1)
      → ((k : ℕ) → k < n' → q.proxy (es' k).1 ≡ at' k)
      → ((k : ℕ) → k < n' → (es' k).1 ≢ 0)
      → ((k : ℕ) → k < n' → at' k < q.fresh)
      → ((j k : ℕ) → j < v.idle → k < n' → v.spare j ≢ at' k)
      → Entries q' n' es'
  relinked-Entries n' at' es' q' d r keys objects proxies solid born out = record {
    at = at';
    deque = d;
    keys = λ k h. ap (λ y. y.obj_id (at' k)) r.rest ∙ keys k h;
    objects = λ k h. ap (λ y. y.cobj (at' k)) r.rest ∙ objects k h;
    proxies = λ k h. ap (λ y. y.proxy (es' k).1) r.rest ∙ proxies k h;
    solid = solid;
    born = λ k h. ground (arith, born k h, ap (λ y. y.fresh) r.rest);
    idle = v.idle;
    spare = v.spare;
    free_head = ap (λ y. y.free_queue) r.rest ∙ v.free_head;
    free_next =
        λ k h. r.outside (v.spare k) (λ j l e. v.free_out k j h l (sym e)) ∙ v.free_next k h;
    free_real = v.free_real;
    free_apart = v.free_apart;
    free_out = out;
    free_born = λ k h. ground (arith, v.free_born k h, ap (λ y. y.fresh) r.rest);
    started = ground (arith, v.started, ap (λ y. y.fresh) r.rest);
  }

  module _ (e : ℕ × ℕ) (item : ℕ) (o : Outside q n es v e item) where
    -- The item is put behind the others.
    pub append-Entries :
        q.links.next item ≡ 0
        → Returns
            (λ q'. Entries q' (n + 1) (with_last n es e) × Relinked q n v.at q')
            (insert_i q item)
    append-Entries null =
        Returns-map (insert_i_appends q n v.at item v.deque o.real o.out null) λ q' (d, r). (
          relinked-Entries (n + 1) (with_last n v.at item) (with_last n es e) q' d r
              (λ k h. ground (arith, v.keys k, o.key))
              (λ k h. ground (arith, v.objects k, o.object))
              (λ k h. ground (arith, v.proxies k, o.proxy))
              (λ k h. ground (arith, v.solid k, o.some)) (λ k h. ground (arith, v.born k, o.known))
              (λ j k h l. ground (arith, v.free_out j k, o.used j)),
          r,
        )

  -- No two items are of one object.
  objects_apart : (j k : ℕ) → j < k → k < n → (es j).1 ≢ (es k).1
  objects_apart j k h l e =
      v.deque.apart j k h l (sym (v.proxies j (omega (arith, h, l))) ∙ ap q.proxy e ∙ v.proxies k l)

  apart : (i : ℕ) → i < n → (k : ℕ) → k < n - 1 → without i v.at k ≢ v.at i
  apart i h k l = ground (arith, v.deque.apart k i, v.deque.apart i (k + 1))

  -- The item of the place `i` leaves the deque.
  pub take-Entries :
      (i : ℕ)
      → i < n
      → Returns
          (λ q'.
            (w : Entries q' (n - 1) (without i es)) × Outside q'
              (n - 1)
              (without i es)
              w
              (es i)
              (v.at i)
            × Relinked q n v.at q')
          (remove_i q (v.at i))
  unfolding relinked-Entries
  take-Entries i h = Returns-map (remove_i_removes q n v.at i v.deque h) λ q' (d, r).
      let w =
        relinked-Entries (n - 1) (without i v.at) (without i es) q' d r
          (λ k h. ground (arith, v.keys k, v.keys (k + 1)))
          (λ k h. ground (arith, v.objects k, v.objects (k + 1)))
          (λ k h. ground (arith, v.proxies k, v.proxies (k + 1)))
          (λ k h. ground (arith, v.solid k, v.solid (k + 1)))
          (λ k h. ground (arith, v.born k, v.born (k + 1)))
          (λ j k h l. ground (arith, v.free_out j k, v.free_out j (k + 1))) in
      (
        w,
        record {
          real = v.deque.real i h;
          out = apart i h;
          used = λ k l. v.free_out k i l h;
          known = ground (arith, v.born i h, ap (λ y. y.fresh) r.rest);
          key = ap (λ y. y.obj_id (v.at i)) r.rest ∙ v.keys i h;
          object = ap (λ y. y.cobj (v.at i)) r.rest ∙ v.objects i h;
          proxy = ap (λ y. y.proxy (es i).1) r.rest ∙ v.proxies i h;
          other = λ k l. ground (arith, objects_apart k i, objects_apart i (k + 1));
          some = v.solid i h;
        },
        r,
      )
