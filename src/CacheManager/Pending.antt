-- ===== src/CacheManager/Pending.antt =====
-- ndk/cache_manager.cpp: the objects that are still in use when they leave the queue.
use cute_ndk.Base.{
  ℕ, ◌-◌, ◌≤◌, ◌<◌, ◌^◌, ◌≡◌, ◌≢◌, inl, inr, refl, sym, ap, ◌∙◌, Bool, true, false, not, ◌&&◌, ◌==◌,
  Bool-cases, Option, none, some, List, [], ◌∷◌, ok, Returns, returns, Returns-if, Returns-bind,
  arith,
}
use cute_ndk.Base.Array.{upd, upd_ne}
use cute_ndk.Base.Int.{ℤ, pos, negsuc}
use cute_ndk.CacheManager.{
  CacheManager, CacheObject, equals_zero, sub_long, drop, destroy, sweep_one, sweep,
}
use cute_ndk.CacheManager.Sums.{sizes, Each, Each-both, Distinct}
use cute_ndk.CacheManager.Valid.{size_at, IsLive, Kept, sizes-destroyed}

pub equals_zero-yes : (r : ℤ) → equals_zero r ≡ true → r ≡ pos 0
equals_zero-yes (pos n) e = ground (arith, e)
equals_zero-yes (negsuc n) e = absurd (ground (arith, e))

pub equals_zero-no : (r : ℤ) → equals_zero r ≡ false → r ≢ pos 0
equals_zero-no r e x = absurd (ground (arith, e, ap equals_zero x))

pub sub_long-ok : (a b : ℕ) → b ≤ a → a < 2 ^ 64 → sub_long a b ≡ a - b
sub_long-ok a b h l = omega (arith, h, l)

abbrev pub refcount_of : Option CacheObject → ℤ
refcount_of none = pos 0
refcount_of (some o) = o.refcount

module _ {Q : Type 0} where
  -- Only the list of the objects whose observers are told grows.
  pub drop-ok :
      (m : CacheManager Q) (a : ℕ) (o : CacheObject)
      → m.objects a ≡ some o
      → (d : List ℕ) × (drop m a ≡ ok (record m { dropped = d }))
  unfolding drop
  drop-ok m a o e = elim (Bool-cases (not (o.observer == 0) && equals_zero o.refcount)) [
    | inl t ↦ (a ∷ m.dropped, rw (e, t) refl)
    | inr t ↦ (m.dropped, rw (e, t) refl)
  ]

  -- One pending object is destroyed, or stays since it is in use.
  data SweptOne (m : CacheManager Q) (a : ℕ) (r : CacheManager Q × Bool) : Type 0 where
    gone :
        (o : CacheObject) (d : List ℕ)
        → m.objects a ≡ some o
        → o.refcount ≡ pos 0
        → r ≡ (
          record m {
            water_mark = sub_long m.water_mark o.size;
            objects = upd m.objects a none;
            dropped = d;
          },
          true,
        )
        → SweptOne m a r
    stays :
        (o : CacheObject)
        → m.objects a ≡ some o
        → o.refcount ≢ pos 0
        → r ≡ (m, false)
        → SweptOne m a r

  sweep_one-SweptOne :
      (m : CacheManager Q) (a : ℕ) → IsLive m.objects a → Returns (SweptOne m a) (sweep_one m a)
  unfolding sweep_one destroy
  sweep_one-SweptOne m a (o, e) =
      let (d, f) = drop-ok (record m { water_mark = sub_long m.water_mark o.size }) a o e in
      rw e (
        Returns-if (equals_zero o.refcount)
          (λ t. rw (f, e) (returns (gone o d e (equals_zero-yes o.refcount t) refl)))
          (λ t. returns (stays o e (equals_zero-no o.refcount t) refl)))

  -- The walk over pending objects destroys those that are not in use, takes their sizes off the water
  -- mark, and keeps the others.
  pub record Swept (m : CacheManager Q) (l : List (ℕ × ℕ)) (r : CacheManager Q × List (ℕ × ℕ))
      : Type 1 where
    pub rest :
        r.0 ≡ record m { water_mark = r.0.water_mark; objects = r.0.objects; dropped = r.0.dropped }
    pub part : (P : ℕ → Type 0) → Each P l → Each P r.1
    pub distinct : Distinct l → Distinct r.1
    pub used : Each (λ a. (o : CacheObject) × (r.0.objects a ≡ some o) × (o.refcount ≢ pos 0)) r.1
    pub outside : (a : ℕ) → Each (λ x. x ≢ a) l → r.0.objects a ≡ m.objects a
    pub kept : Kept m.objects r.0.objects
    pub less : r.0.water_mark ≤ m.water_mark
    pub total : r.0.water_mark ≡ sizes (size_at r.0.objects) m.fresh

  abbrev swept : CacheManager Q → ℕ → CacheObject → List ℕ → CacheManager Q
  swept m a o d = record m {
    water_mark = sub_long m.water_mark o.size;
    objects = upd m.objects a none;
    dropped = d;
  }

  module _ (m : CacheManager Q) (e : ℕ × ℕ) (l : List (ℕ × ℕ)) (o : CacheObject)
      (here : m.objects e.1 ≡ some o) (out : Each (λ x. x ≢ e.1) l)
      (total : m.water_mark ≡ sizes (size_at m.objects) m.fresh) (young : e.1 < m.fresh)
      (small : m.water_mark < 2 ^ 64) where
    less_water : sub_long m.water_mark o.size ≡ m.water_mark - o.size
    less_water =
        sub_long-ok m.water_mark o.size
          (omega (arith, total, sizes-destroyed m.objects m.fresh e.1 o young here)) small

    rest_total : sub_long m.water_mark o.size ≡ sizes (size_at (upd m.objects e.1 none)) m.fresh
    rest_total =
        omega (arith, less_water, total, sizes-destroyed m.objects m.fresh e.1 o young here)

    -- What the walk over the rest finds.
    rest-IsLive : Each (IsLive m.objects) l → Each (IsLive (upd m.objects e.1 none)) l
    rest-IsLive lives =
        Each-both l (λ x (u, f) h. (u, upd_ne m.objects e.1 x none (λ y. h (sym y)) ∙ f)) lives out

    gone-Swept :
        (d : List ℕ)
        → o.refcount ≡ pos 0
        → (r : CacheManager Q × List (ℕ × ℕ)) → Swept (swept m e.1 o d) l r
        → Swept m (e ∷ l) r
    gone-Swept d z r s = record {
      rest = s.rest;
      part = λ P (p, ps). s.part P ps;
      distinct = λ (x, ds). s.distinct ds;
      used = s.used;
      outside = λ a (h, t). s.outside a t ∙ upd_ne m.objects e.1 a none h;
      kept = λ a u f g.
          s.kept a u
            (upd_ne m.objects e.1 a none
                (λ x. g (ap refcount_of (sym f ∙ ap m.objects (sym x) ∙ here) ∙ z))
              ∙ f)
            g;
      less = omega (arith, s.less, less_water);
      total = s.total;
    }

    stays-Swept :
        o.refcount ≢ pos 0
        → (r : CacheManager Q × List (ℕ × ℕ)) → Swept m l r
        → Swept m (e ∷ l) (r.0, e ∷ r.1)
    stays-Swept z r s =
        let same : r.0.objects e.1 ≡ m.objects e.1 = s.outside e.1 out in
        record {
          rest = s.rest;
          part = λ P (p, ps). (p, s.part P ps);
          distinct = λ (x, ds). (s.part (λ y. y ≢ e.1) x, s.distinct ds);
          used = ((o, same ∙ here, z), s.used);
          outside = λ a (h, t). s.outside a t;
          kept = s.kept;
          less = s.less;
          total = s.total;
        }

  pub sweep-Swept :
      (l : List (ℕ × ℕ)) (m : CacheManager Q)
      → Each (IsLive m.objects) l
      → Each (λ a. a < m.fresh) l
      → Distinct l
      → m.water_mark ≡ sizes (size_at m.objects) m.fresh
      → m.water_mark < 2 ^ 64
      → Returns (Swept m l) (sweep l m)
  unfolding sweep
  sweep-Swept [] m live young d total small = returns (record {
    rest = refl;
    part = λ P p. p;
    distinct = λ x. x;
    used = tt;
    outside = λ a h. refl;
    kept = λ a o f g. f;
    less = omega arith;
    total = total;
  })
  sweep-Swept (e ∷ l) m (live, lives) (y, ys) (out, d) total small =
      Returns-bind (sweep_one-SweptOne m e.1 live) λ r s. elim s [
        | gone o t here z q ↦ rw q (
            Returns-bind
              (sweep-Swept l (swept m e.1 o t) (rest-IsLive m e l o here out total y small lives) ys
                d (rest_total m e l o here out total y small)
                (omega (arith, less_water m e l o here out total y small, small)))
              λ x w. returns (gone-Swept m e l o here out total y small t z x w))
        | stays o here z q ↦ rw q (
            Returns-bind (sweep-Swept l m lives ys d total small)
              λ x w. returns (stays-Swept m e l o here out total y small z x w))
      ]
