-- ===== src/Links.antt =====
-- Nodes with a `next` and a `prev` pointer, as in ndk/message_block.h and ndk/cache_deque.h. A
-- pointer is a number, and 0 is the null pointer, through which nothing can be read or written.
pub mod Access
pub mod Chain
pub mod Cut
use cute_ndk.Base.{ℕ, Run, ok, fault, ◌==◌, if◌then◌else◌}
use cute_ndk.Base.Array.{upd}

pub record Links : Type 0 where
  pub next : ℕ → ℕ
  pub prev : ℕ → ℕ

unfoldable pub get_next : Links → ℕ → Run ℕ
get_next l p = if p == 0 then fault else ok (l.next p)

unfoldable pub get_prev : Links → ℕ → Run ℕ
get_prev l p = if p == 0 then fault else ok (l.prev p)

unfoldable pub set_next : Links → ℕ → ℕ → Run Links
set_next l p v = if p == 0 then fault else ok (record l { next = upd l.next p v })

unfoldable pub set_prev : Links → ℕ → ℕ → Run Links
set_prev l p v = if p == 0 then fault else ok (record l { prev = upd l.prev p v })
