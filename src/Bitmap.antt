-- ===== src/Bitmap.antt =====
-- kernel/fs.c: the free map of the disk. A block is its bytes as the buffer cache gives them
-- (`bread` hides which blocks it caches); `logged` is the list of the blocks given
-- to `log_write`. There is one device.
pub mod Bits
pub mod Alloc
pub mod Outcome
mod Tests
use g14_os_project.Prelude.{
  ℕ, zero, suc, ◌+◌, ◌-◌, ◌*◌, ◌/◌, ◌%◌, Bool, true, false, not, Option, none, some, List, [], ◌∷◌,
  ◌==◌, if◌then◌else◌, ltb,
}
use g14_os_project.Prelude.Bits.{test_bit, set_bit, clear_bit}
use g14_os_project.Prelude.Table.{update}

-- BSIZE*8
abbrev pub bpb : ℕ
bpb = 8192

pub record Superblock : Type 0 where
  pub magic : ℕ
  pub size : ℕ
  pub nblocks : ℕ
  pub ninodes : ℕ
  pub nlog : ℕ
  pub logstart : ℕ
  pub inodestart : ℕ
  pub bmapstart : ℕ

pub record Disk : Type 0 where
  pub block : ℕ → ℕ → ℕ
  pub logged : List ℕ

abbrev pub log_block : ℕ → Disk → Disk
log_block bno d = record d { logged = bno ∷ d.logged }

unfoldable pub bzero : ℕ → Disk → Disk
bzero bno d = log_block bno (record d { block = update d.block bno (λ i. 0) })

module _ (sb : Superblock) where
  -- BBLOCK
  abbrev pub bblock : ℕ → ℕ
  bblock b = b / bpb + sb.bmapstart

  abbrev pub put_byte : ℕ → ℕ → ℕ → Disk → Disk
  put_byte bno i v d = record d { block = update d.block bno (update (d.block bno) i v) }

  -- The inner loop of `balloc` from bit bi on, over `left` bits at most.
  unfoldable pub find_bit : (data_of : ℕ → ℕ) → (b left bi : ℕ) → Option ℕ
  find_bit data_of b zero bi = none
  find_bit data_of b (suc left) bi =
      let rest = find_bit data_of b left (suc bi) in
      if ltb (b + bi) sb.size
      then if not (test_bit (data_of (bi / 8)) (bi % 8)) then some bi else rest
      else none

  -- The block is marked and zeroed.
  unfoldable pub take_block : (b bi : ℕ) → Disk → ℕ × Disk
  unfolding bzero
  take_block b bi d =
      let at = bblock b in
      let marked = put_byte at (bi / 8) (set_bit (d.block at (bi / 8)) (bi % 8)) d in
      (b + bi, bzero (b + bi) (log_block at marked))

  abbrev pub or_next : (b : ℕ) → Disk → Option (ℕ × Disk) → Option ℕ → Option (ℕ × Disk)
  or_next b d rest none = rest
  or_next b d rest (some bi) = some (take_block b bi d)

  -- The outer loop from block b on; `none` when it ends without a free block.
  unfoldable pub balloc_from : ℕ → (b : ℕ) → Disk → Option (ℕ × Disk)
  balloc_from zero b d = none
  balloc_from (suc fuel) b d =
      let rest = balloc_from fuel (b + bpb) d in
      if ltb b sb.size then or_next b d rest (find_bit (d.block (bblock b)) b bpb 0) else none

  abbrev pub or_zero : Disk → Option (ℕ × Disk) → ℕ × Disk
  or_zero d none = (0, d)
  or_zero d (some taken) = taken

  -- The block's number, 0 without a free one.
  unfoldable pub balloc : Disk → ℕ × Disk
  balloc d = or_zero d (balloc_from (suc (sb.size / bpb)) 0 d)

  -- `none` is the panic.
  unfoldable pub bfree : ℕ → Disk → Option Disk
  bfree b d =
      let at = bblock b in
      let bi = b % bpb in
      if not (test_bit (d.block at (bi / 8)) (bi % 8))
      then none
      else some (log_block at (put_byte at (bi / 8) (clear_bit (d.block at (bi / 8)) (bi % 8)) d))
