-- ===== src/MessageQueue/Request.antt =====
-- ndk/message_queue.cpp: how many blocks a call of dequeue_head_n or dequeue_tail_n asks for, and
-- what it returns.
use cute_ndk.Base.{refl, arith, ℕ, zero, suc, ◌<◌, ◌≡◌, ltb, if◌then◌else◌}
use cute_ndk.Base.Int.{ℤ, pos, negsuc}
use cute_ndk.Links.Chain.{Seq, IsChain, first, take, drop}
use cute_ndk.Links.Cut.{nothing-IsChain}
use cute_ndk.MessageQueue.{Queue}
use cute_ndk.MessageQueue.Model.{IsQueue}

-- A number of blocks above zero, or -1 for all.
abbrev pub IsRequest : ℤ → Type 0
IsRequest (pos n) = 0 < n
IsRequest (negsuc zero) = Unit {0}
IsRequest (negsuc (suc n)) = ⊥

abbrev pub at_most : ℕ → ℕ → ℕ
at_most n len = if ltb n len then n else len

-- The number of blocks that leave a queue of `len` blocks.
abbrev pub asked : ℤ → ℕ → ℕ
asked (pos n) len = at_most n len
asked (negsuc n) len = len

-- The blocks of `out` leave as a chain, and those of `rest` stay in the queue.
pub record Parted (q : Queue) (out rest : Seq) (r : Queue × ℕ × ℕ) : Type 0 where
  pub items : r.1 ≡ first out
  pub chain : IsChain r.0.links out
  pub count : r.2 ≡ out.len
  pub queue : IsQueue r.0 rest
  pub mark : r.0.high_water_mark ≡ q.high_water_mark

module _ (q : Queue) (s : Seq) (v : IsQueue q s) where
  open v use {chain as c}

  -- All blocks leave.
  pub whole :
      (q' : Queue) (num : ℕ)
      → q'.links ≡ q.links
      → q'.head ≡ 0
      → q'.tail ≡ 0
      → q'.mb_count ≡ 0
      → q'.high_water_mark ≡ q.high_water_mark
      → num ≡ s.len
      → Parted q (take s.len s) (drop s.len s) (q', q.head, num)
  whole q' num same head tail count mark size = record {
    items = v.head;
    chain = rw same c;
    count = size;
    queue = record {
      head = ground arith;
      tail = ground arith;
      count = omega arith;
      chain = nothing-IsChain q'.links (drop s.len s) (omega arith);
    };
    mark = mark;
  }

  pub nothing : s.len ≡ 0 → Parted q (take s.len s) (drop s.len s) (q, 0, 0)
  nothing e = record {
    items = ground arith;
    chain = c;
    count = omega arith;
    queue = record {
      head = ground (arith, v.head);
      tail = ground (arith, v.tail);
      count = omega (arith, v.count);
      chain = nothing-IsChain q.links (drop s.len s) (omega arith);
    };
    mark = refl;
  }
