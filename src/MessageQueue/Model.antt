-- ===== src/MessageQueue/Model.antt =====
-- ndk/message_queue.cpp: the sequence of blocks that a queue holds.
use cute_ndk.Base.{◌≡◌}
use cute_ndk.Links.Chain.{Seq, IsChain, first, final}
use cute_ndk.MessageQueue.{Queue}

-- The queue holds the blocks of the sequence, linked both ways, and counts them.
pub record IsQueue (q : Queue) (s : Seq) : Type 0 where
  pub head : q.head ≡ first s
  pub tail : q.tail ≡ final s
  pub count : q.mb_count ≡ s.len
  pub chain : IsChain q.links s
