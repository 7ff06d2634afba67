-- ===== src/CacheManager/Insert.antt =====
-- ndk/cache_manager.cpp: an object joins the pending ones.
use cute_ndk.Base.{ℕ, ◌≢◌, inl, inr, sym, ltb, ◌==◌, Bool-cases, List, [], ◌∷◌}
use cute_ndk.CacheManager.{insert_pending}
use cute_ndk.CacheManager.Sums.{Each, Distinct}

-- An object joins the pending ones, unless its key is there.
pub insert_pending-Each :
    (P : ℕ → Type 0) (key a : ℕ) (l : List (ℕ × ℕ))
    → P a
    → Each P l
    → Each P (insert_pending key a l)
unfolding insert_pending
insert_pending-Each P key a [] p h = (p, h)
insert_pending-Each P key a (e ∷ l) p (h, t) = elim (Bool-cases (ltb key e.0)) [
  | inl x ↦ rw x (p, (h, t))
  | inr x ↦ elim (Bool-cases (key == e.0)) [
    | inl y ↦ rw (x, y) (h, t)
    | inr y ↦ rw (x, y) (h, insert_pending-Each P key a l p t)
  ]
]

pub insert_pending-Distinct :
    (key a : ℕ) (l : List (ℕ × ℕ))
    → Each (λ x. x ≢ a) l
    → Distinct l
    → Distinct (insert_pending key a l)
unfolding insert_pending
insert_pending-Distinct key a [] p h = (tt, tt)
insert_pending-Distinct key a (e ∷ l) (p, ps) (h, t) = elim (Bool-cases (ltb key e.0)) [
  | inl x ↦ rw x ((p, ps), (h, t))
  | inr x ↦ elim (Bool-cases (key == e.0)) [
    | inl y ↦ rw (x, y) (h, t)
    | inr y ↦
        rw (x, y)
          (
            insert_pending-Each (λ z. z ≢ e.1) key a l (λ z. p (sym z)) h,
            insert_pending-Distinct key a l ps t,
          )
  ]
]
