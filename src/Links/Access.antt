-- ===== src/Links/Access.antt =====
-- Reading and writing through a pointer that is not null.
use cute_ndk.Base.{ℕ, ◌≡◌, ◌≢◌, ok, arith}
use cute_ndk.Base.Array.{upd}
use cute_ndk.Links.{Links, get_next, get_prev, set_next, set_prev}

module _ (l : Links) (p : ℕ) (real : p ≢ 0) where
  pub get_next-ok : get_next l p ≡ ok (l.next p)
  unfolding get_next
  get_next-ok = ground arith

  pub get_prev-ok : get_prev l p ≡ ok (l.prev p)
  unfolding get_prev
  get_prev-ok = ground arith

  pub set_next-ok : (v : ℕ) → set_next l p v ≡ ok (record l { next = upd l.next p v })
  unfolding set_next
  set_next-ok v = ground arith

  pub set_prev-ok : (v : ℕ) → set_prev l p v ≡ ok (record l { prev = upd l.prev p v })
  unfolding set_prev
  set_prev-ok v = ground arith
