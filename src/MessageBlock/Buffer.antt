-- ===== src/MessageBlock/Buffer.antt =====
-- ndk/message_block.h: the bytes between the read and the write position are a queue.
use cute_ndk.Base.{
  ℕ, ◌+◌, ◌-◌, ◌^◌, ◌≤◌, ◌<◌, ◌≡◌, refl, true, false, Option, none, some, leb, le→leb, ltb, ok,
  fault, arith, Returns, returns,
}
use cute_ndk.Base.Array.{Array, store-fault}
use cute_ndk.MessageBlock.{
  Block, sub_size, length, space, memory, memcpy, write, read, copy, set_eof, append,
}

-- A block with its memory `a`.
pub record IsValid (a : Array ℕ) (b : Block) : Type 0 where
  pub held : b.mb_data ≡ some a
  pub cap : a.cap ≡ b.mb_size
  pub ordered : b.rd_ptr ≤ b.wr_ptr
  pub inside : b.wr_ptr ≤ b.mb_size
  pub bounded : b.mb_size < 2 ^ 64

sub_size-ok : (a b : ℕ) → b ≤ a → a < 2 ^ 64 → sub_size a b ≡ a - b
sub_size-ok a b h k = omega arith

pub length-ok : (a : Array ℕ) (b : Block) → IsValid a b → length b ≡ b.wr_ptr - b.rd_ptr
unfolding length
length-ok a b v = sub_size-ok b.wr_ptr b.rd_ptr v.ordered (omega (arith, v.inside, v.bounded))

pub space-ok : (a : Array ℕ) (b : Block) → IsValid a b → space b ≡ b.mb_size - b.wr_ptr
unfolding space
space-ok a b v = ground (arith, sub_size-ok b.mb_size b.wr_ptr v.inside v.bounded, v.inside)

memory-ok : (a : Array ℕ) (b : Block) → b.mb_data ≡ some a → memory b ≡ ok a
unfolding memory
memory-ok a b h = rw h refl

append-ok :
    (a : Array ℕ) (b : Block) (v : ℕ → ℕ) (size : ℕ)
    → b.mb_data ≡ some a
    → b.wr_ptr + size ≤ a.cap
    → append b v size
      ≡ ok (record b { mb_data = some (memcpy a b.wr_ptr v size); wr_ptr = b.wr_ptr + size })
unfolding append
append-ok a b v size h k = rw (memory-ok a b h, le→leb (b.wr_ptr + size) a.cap k) refl

-- What a write of `size` bytes leaves: the same bytes to be read, and the new ones behind them.
pub record Written (a : Array ℕ) (b : Block) (v : ℕ → ℕ) (size : ℕ) (b' : Block) : Type 0 where
  pub memory' : Array ℕ
  pub valid : IsValid memory' b'
  pub longer : length b' ≡ length b + size
  pub old : (i : ℕ) → i < length b → memory'.at (b'.rd_ptr + i) ≡ a.at (b.rd_ptr + i)
  pub new : (i : ℕ) → i < size → memory'.at (b'.rd_ptr + length b + i) ≡ v i

module _ (a : Array ℕ) (b : Block) (v : IsValid a b) (bytes : ℕ → ℕ) (size : ℕ) where
  abbrev after : Block
  after = record b { mb_data = some (memcpy a b.wr_ptr bytes size); wr_ptr = b.wr_ptr + size }

  after-Written : b.wr_ptr + size ≤ b.mb_size → Written a b bytes size after
  after-Written h =
      let valid : IsValid (memcpy a b.wr_ptr bytes size) after = record {
        held = refl;
        cap = v.cap;
        ordered = omega (arith, v.ordered);
        inside = h;
        bounded = v.bounded;
      } in
      let l = length-ok a b v in
      let l' = length-ok (memcpy a b.wr_ptr bytes size) after valid in
      record {
        memory' = memcpy a b.wr_ptr bytes size;
        valid = valid;
        longer = omega (arith, l, l', v.ordered);
        old = λ i k. ground (arith, l, v.ordered);
        new = λ i k. ground (arith, l, v.ordered);
      }

  -- `operator <<` on a valid block with room puts the bytes behind those that wait to be read, and
  -- without room it changes nothing; `copy` does the same and reports which it was.
  pub write_correct :
      (b.wr_ptr + size ≤ b.mb_size
        → Returns (Written a b bytes size) (write size b bytes)
          × Returns (λ (b', r). (r ≡ true) × Written a b bytes size b') (copy b bytes size))
      × (b.mb_size < b.wr_ptr + size
          → (write size b bytes ≡ ok b) × (copy b bytes size ≡ ok (b, false)))
  unfolding write copy
  write_correct =
      let room = space-ok a b v in
      (
        λ h.
            let fits : leb size (space b) ≡ true = ground (arith, room) in
            let fits' : ltb (space b) size ≡ false = ground (arith, room) in
            let done = append-ok a b bytes size v.held (omega (arith, v.cap, h)) in
            (
              rw (fits, done) (returns (after-Written h)),
              rw (fits', done) (returns (refl, after-Written h)),
            ),
        λ h.
            let tight : leb size (space b) ≡ false = ground (arith, room, v.inside) in
            let tight' : ltb (space b) size ≡ true = ground (arith, room, v.inside) in
            (rw tight refl, rw tight' refl),
      )

-- What a read of `size` bytes returns: the first bytes that waited, and a block in which the others
-- wait.
pub record Taken (a : Array ℕ) (b : Block) (size : ℕ) (r : Block × Option (ℕ → ℕ)) : Type 0 where
  pub bytes : ℕ → ℕ
  pub result : r.1 ≡ some bytes
  pub first : (i : ℕ) → i < size → bytes i ≡ a.at (b.rd_ptr + i)
  pub valid : IsValid a r.0
  pub shorter : length r.0 + size ≡ length b
  pub rest : (i : ℕ) → i < length r.0 → a.at (r.0.rd_ptr + i) ≡ a.at (b.rd_ptr + (size + i))

-- `operator >>` on a valid block with enough bytes takes exactly the first of those that wait, in
-- their order, and with too few it changes nothing.
pub read_correct :
    (a : Array ℕ) (b : Block) (size : ℕ)
    → IsValid a b
    → (b.rd_ptr + size ≤ b.wr_ptr → Returns (Taken a b size) (read size b))
      × (b.wr_ptr < b.rd_ptr + size → read size b ≡ ok (b, none))
unfolding read
read_correct a b size v =
    let l = length-ok a b v in
    (
      λ h.
          let enough : leb size (length b) ≡ true = ground (arith, l) in
          let left : Block = record b { rd_ptr = b.rd_ptr + size } in
          let valid : IsValid a left = record {
            held = v.held;
            cap = v.cap;
            ordered = h;
            inside = v.inside;
            bounded = v.bounded;
          } in
          rw
            (
              enough,
              memory-ok a b v.held,
              le→leb (b.rd_ptr + size) a.cap (omega (arith, h, v.inside, v.cap)),
            )
            (returns (record {
              bytes = λ i. a.at (b.rd_ptr + i);
              result = refl;
              first = λ i k. refl;
              valid = valid;
              shorter = omega (arith, l, length-ok a left valid, h);
              rest = λ i k. ground arith;
            })),
      λ h. let few : leb size (length b) ≡ false = ground (arith, l, v.ordered) in rw few refl,
    )

-- On a valid block that is written full, set_eof at the write position writes behind the memory.
pub set_eof-fault :
    (a : Array ℕ) (b : Block) → IsValid a b → b.wr_ptr ≡ b.mb_size → set_eof b none ≡ fault
unfolding set_eof
set_eof-fault a b v h =
    rw (memory-ok a b v.held, store-fault a b.wr_ptr 0 (omega (arith, v.cap))) refl
