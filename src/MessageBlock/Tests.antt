-- ===== src/MessageBlock/Tests.antt =====
-- ndk/message_block.h: a block of eight bytes with three to read, and the properties at it.
use cute_ndk.Base.{ℕ, ◌+◌, ◌≤◌, ◌<◌, ◌≡◌, refl, true, false, none, some, ok, arith, Returns}
use cute_ndk.Base.Array.{Array}
use cute_ndk.MessageBlock.{Block, write, read, copy}
use cute_ndk.MessageBlock.Buffer.{IsValid, Written, Taken, write_correct, read_correct}

abbrev bytes : Array ℕ
bytes = record { cap = 8; at = λ i. i + 40 }

abbrev block : Block
block = record {
  release_data = true;
  mb_data = some bytes;
  mb_size = 8;
  mb_type = 0;
  rd_ptr = 1;
  wr_ptr = 4;
}

block-IsValid : IsValid bytes block
block-IsValid = record {
  held = refl;
  cap = refl;
  ordered = omega arith;
  inside = omega arith;
  bounded = omega arith;
}

write_correct_example :
    (4 + 4 ≤ 8
      → Returns (Written bytes block (λ i. i) 4) (write 4 block (λ i. i))
        × Returns
            (λ (b', r). (r ≡ true) × Written bytes block (λ i. i) 4 b')
            (copy block (λ i. i) 4))
    × (8 < 4 + 4
        → (write 4 block (λ i. i) ≡ ok block) × (copy block (λ i. i) 4 ≡ ok (block, false)))
write_correct_example = write_correct bytes block block-IsValid (λ i. i) 4

read_correct_example :
    (1 + 2 ≤ 4 → Returns (Taken bytes block 2) (read 2 block))
    × (4 < 1 + 2 → read 2 block ≡ ok (block, none))
read_correct_example = read_correct bytes block 2 block-IsValid

abbrev full_block : Block
full_block = record block { wr_ptr = 8 }

full-IsValid : IsValid bytes full_block
full-IsValid = record {
  held = refl;
  cap = refl;
  ordered = omega arith;
  inside = omega arith;
  bounded = omega arith;
}
