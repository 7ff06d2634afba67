-- ===== src/MessageBlock.antt =====
-- ndk/message_block.h: the buffer of a message block, with its read and write positions. Bytes are
-- numbers, and what is copied in is a function from an index to a byte.
pub mod Buffer
mod Tests
use cute_ndk.Base.{
  ℕ, ◌+◌, ◌-◌, ◌%◌, ◌^◌, Bool, true, false, ◌&&◌, Option, none, some, leb, ltb, if◌then◌else◌, Run,
  ok, fault, ◌>>=◌, ◌>>◌, require,
}
use cute_ndk.Base.Array.{Array, make, store}

-- `mb_data` is none for the null pointer. The links of a block are in Links.
pub record Block : Type 0 where
  pub release_data : Bool
  pub mb_data : Option (Array ℕ)
  pub mb_size : ℕ
  pub mb_type : ℕ
  pub rd_ptr : ℕ
  pub wr_ptr : ℕ

-- The constructor that allocates the memory.
pub allocate : ℕ → Block
allocate size = record {
  release_data = true;
  mb_data = some (make size 0);
  mb_size = size;
  mb_type = 0;
  rd_ptr = 0;
  wr_ptr = 0;
}

-- The constructor around memory that is somebody else's.
pub wrap : Array ℕ → Block
wrap held = record {
  release_data = false;
  mb_data = some held;
  mb_size = held.cap;
  mb_type = 0;
  rd_ptr = 0;
  wr_ptr = 0;
}

-- A difference of two `size_t`.
abbrev pub sub_size : ℕ → ℕ → ℕ
sub_size a b = (a + 2 ^ 64 - b) % 2 ^ 64

pub length : Block → ℕ
length b = sub_size b.wr_ptr b.rd_ptr

pub space : Block → ℕ
space b = if ltb 0 b.mb_size then sub_size b.mb_size b.wr_ptr else 0

pub memory : Block → Run (Array ℕ)
memory b = elim b.mb_data [ none ↦ fault | some a ↦ ok a ]

-- `memcpy` into an array, at an index.
abbrev pub memcpy : Array ℕ → ℕ → (ℕ → ℕ) → ℕ → Array ℕ
memcpy a start bytes len = record a {
  at = λ i. if leb start i && ltb i (start + len) then bytes (i - start) else a.at i;
}

-- `memcpy(wr_ptr(), bytes, len)` and the step of the write position.
pub append : Block → (ℕ → ℕ) → ℕ → Run Block
append b bytes len = do
  a ← memory b
  require (leb (b.wr_ptr + len) a.cap)
  ok (record b { mb_data = some (memcpy a b.wr_ptr bytes len); wr_ptr = b.wr_ptr + len })

-- `copy`: true for 0, false for -1.
pub copy : Block → (ℕ → ℕ) → ℕ → Run (Block × Bool)
copy b bytes len =
    let copied : Run (Block × Bool) = do b' ← append b bytes len; ok (b', true)
    in if ltb (space b) len then ok (b, false) else copied

-- `operator <<` for a type of `size` bytes.
pub write : ℕ → Block → (ℕ → ℕ) → Run Block
write size b v = let written = append b v size in if leb size (space b) then written else ok b

-- `operator >>` for a type of `size` bytes: the bytes that were read, if there were enough.
pub read : ℕ → Block → Run (Block × Option (ℕ → ℕ))
read size b =
    let taken : Run (Block × Option (ℕ → ℕ)) = do
      a ← memory b
      require (leb (b.rd_ptr + size) a.cap)
      ok (record b { rd_ptr = b.rd_ptr + size }, some (λ i. a.at (b.rd_ptr + i)))
    in if leb size (length b) then taken else ok (b, none)

pub reset : Block → Block
reset b = record b { rd_ptr = 0; wr_ptr = 0 }

pub clean : Block → Block
clean b = elim b.mb_data [
  | none ↦ b
  | some _ ↦ if b.release_data then record b { mb_data = none; mb_size = 0 } else b
]

-- `set_eof(pos)`, with none for -1.
pub set_eof : Block → Option ℕ → Run Block
set_eof b pos = do
  a ← memory b
  a' ← store a (elim pos [ none ↦ b.wr_ptr | some p ↦ p ]) 0
  ok (record b { mb_data = some a' })
