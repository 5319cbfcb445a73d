-- ===== src/Inode.antt =====
-- kernel/fs.c: the blocks and the contents of an inode, with its lock held. The disk and the free map are
-- those of Bitmap. `either_copyout` and `either_copyin` are operations on a state `W`; `none` is a panic.
pub mod Blocks
pub mod Reading
pub mod Writing
pub mod Directory
pub mod Lookup
pub mod Bytes
pub mod Update
mod Tests
use g14_os_project.Prelude.{
  ℕ, zero, suc, ◌+◌, ◌-◌, ◌*◌, ◌/◌, ◌%◌, ◌^◌, Bool, true, false, ◌||◌, not, Option, none, some,
  List, [], ◌∷◌, ◌==◌, if◌then◌else◌, ltb, leb, min, length,
}
use g14_os_project.Prelude.Int.{ℤ, pos, negsuc}
use g14_os_project.Prelude.Table.{update}
use g14_os_project.Bitmap.{Superblock, Disk, log_block, balloc, bfree}

-- BSIZE
abbrev pub block_size : ℕ
block_size = 1024

-- NDIRECT
abbrev pub n_direct : ℕ
n_direct = 12

-- NINDIRECT
abbrev pub n_indirect : ℕ
n_indirect = 256

-- MAXFILE
abbrev pub max_file : ℕ
max_file = 268

-- The fields of `struct inode` that the disk holds, and its number.
pub record Inode : Type 0 where
  pub inum : ℕ
  pub type : ℕ
  pub major : ℕ
  pub minor : ℕ
  pub nlink : ℕ
  pub size : ℕ
  pub addrs : ℕ → ℕ

-- A little-endian number of `count` bytes.
unfoldable pub get_le : (count : ℕ) → (ℕ → ℕ) → ℕ → ℕ
get_le zero bytes at = 0
get_le (suc count) bytes at = bytes at + 256 * get_le count bytes (suc at)

unfoldable pub put_le : (count : ℕ) → (ℕ → ℕ) → (at value : ℕ) → ℕ → ℕ
put_le zero bytes at value = bytes
put_le (suc count) bytes at value =
    put_le count (update bytes at (value % 256)) (suc at) (value / 256)

abbrev pub set_block : (bno : ℕ) → (ℕ → ℕ) → Disk → Disk
set_block bno bytes d = record d { block = update d.block bno bytes }

-- `n` bytes from `at` on.
unfoldable pub take_bytes : (ℕ → ℕ) → (at n : ℕ) → List ℕ
take_bytes bytes at zero = []
take_bytes bytes at (suc n) = bytes at ∷ take_bytes bytes (suc at) n

unfoldable pub put_bytes : (ℕ → ℕ) → (at : ℕ) → List ℕ → ℕ → ℕ
put_bytes bytes at [] = bytes
put_bytes bytes at (x ∷ xs) = put_bytes (update bytes at x) (suc at) xs

-- either_copyout and either_copyin for a fixed first argument: whether they succeed, with the state
-- after a copy out, and the bytes copied in, fewer than n on a failure.
pub record Copies (W : Type 0) : Type 0 where
  pub copy_out : (dst : ℕ) → List ℕ → W → Bool × W
  pub copy_in : (src n : ℕ) → W → Bool × List ℕ

pub record Stat : Type 0 where
  pub ino : ℕ
  pub type : ℕ
  pub nlink : ℕ
  pub size : ℕ

pub stati : Inode → Stat
stati ip = record { ino = ip.inum; type = ip.type; nlink = ip.nlink; size = ip.size }

-- The addresses of a `dinode`, from the one with number i on.
unfoldable pub put_addrs : (left i at : ℕ) → (ℕ → ℕ) → (ℕ → ℕ) → ℕ → ℕ
unfolding put_le
put_addrs zero i at addrs bytes = bytes
put_addrs (suc left) i at addrs bytes =
    put_addrs left (suc i) (at + 4) addrs (put_le 4 bytes at (addrs i))

-- The fields of a `dinode` at a place of a block.
unfoldable pub put_dinode : Inode → (ℕ → ℕ) → (at : ℕ) → ℕ → ℕ
unfolding put_le put_addrs
put_dinode ip bytes at =
    let head =
      put_le 2 (put_le 2 (put_le 2 (put_le 2 bytes at ip.type) (at + 2) ip.major) (at + 4) ip.minor)
        (at + 6) ip.nlink in
    put_addrs 13 0 (at + 12) ip.addrs (put_le 4 head (at + 8) ip.size)

module _ (sb : Superblock) where
  unfoldable pub iupdate : Inode → Disk → Disk
  unfolding put_dinode
  iupdate ip d =
      let bno = ip.inum / 16 + sb.inodestart in
      log_block bno (set_block bno (put_dinode ip (d.block bno) (ip.inum % 16 * 64)) d)

  -- The fields that `ilock` reads.
  unfoldable pub read_inode : (inum : ℕ) → Disk → Inode
  unfolding get_le
  read_inode inum d =
      let bytes = d.block (inum / 16 + sb.inodestart) in
      let at = inum % 16 * 64 in
      record {
        inum = inum;
        type = get_le 2 bytes at;
        major = get_le 2 bytes (at + 2);
        minor = get_le 2 bytes (at + 4);
        nlink = get_le 2 bytes (at + 6);
        size = get_le 4 bytes (at + 8);
        addrs = λ i. get_le 4 bytes (at + 12 + 4 * i);
      }

  -- An address that balloc gave goes into addrs[i].
  abbrev pub new_addr : (i : ℕ) → Inode → ℕ × Disk → ℕ × Inode × Disk
  new_addr i ip (addr, d) =
      if addr == 0 then (0, ip, d) else (addr, record ip { addrs = update ip.addrs i addr }, d)

  -- ip->addrs[i], allocated if necessary.
  unfoldable pub direct : (i : ℕ) → Inode → Disk → ℕ × Inode × Disk
  direct i ip d = if ip.addrs i == 0 then new_addr i ip (balloc sb d) else (ip.addrs i, ip, d)

  -- An address that balloc gave goes into entry bn of the indirect block.
  abbrev pub new_entry : (at bn : ℕ) → Inode → ℕ × Disk → ℕ × Inode × Disk
  new_entry at bn ip (addr, d) =
      if addr == 0
      then (0, ip, d)
      else (addr, ip, log_block at (set_block at (put_le 4 (d.block at) (4 * bn) addr) d))

  unfoldable pub indirect : (bn : ℕ) → ℕ × Inode × Disk → ℕ × Inode × Disk
  unfolding get_le put_le
  indirect bn (at, ip, d) =
      let addr = get_le 4 (d.block at) (4 * bn) in
      if at == 0
      then (0, ip, d)
      else if addr == 0
      then new_entry at bn ip (balloc sb d)
      else (addr, ip, d)

  unfoldable pub bmap : (bn : ℕ) → Inode → Disk → Option (ℕ × Inode × Disk)
  unfolding direct indirect
  bmap bn ip d =
      if ltb bn n_direct
      then some (direct bn ip d)
      else if ltb (bn - n_direct) n_indirect
      then some (indirect (bn - n_direct) (direct n_direct ip d))
      else none

  -- bfree of a block, unless its address is 0.
  unfoldable pub free_addr : (addr : ℕ) → Disk → Option Disk
  free_addr addr d = if addr == 0 then some d else bfree sb addr d

  abbrev pub then_disk : (Disk → Option Disk) → Option Disk → Option Disk
  then_disk later none = none
  then_disk later (some d) = later d

  -- The two loops of `itrunc` over addresses.
  unfoldable pub free_addrs : (left i : ℕ) → (ℕ → ℕ) → Disk → Option Disk
  unfolding free_addr
  free_addrs zero i addr_of d = some d
  free_addrs (suc left) i addr_of d =
      then_disk (free_addrs left (suc i) addr_of) (free_addr (addr_of i) d)

  -- The indirect block of `itrunc`.
  unfoldable pub free_indirect : (at : ℕ) → Disk → Option Disk
  unfolding free_addrs
  free_indirect at d =
      if at == 0
      then some d
      else then_disk (bfree sb at) (free_addrs n_indirect 0 (λ j. get_le 4 (d.block at) (4 * j)) d)

  abbrev pub empty_inode : Inode → Inode
  empty_inode ip = record ip { addrs = λ i. 0; size = 0 }

  abbrev pub then_update : Inode → Option Disk → Option (Inode × Disk)
  then_update ip none = none
  then_update ip (some d) = some (ip, iupdate ip d)

  unfoldable pub itrunc : Inode → Disk → Option (Inode × Disk)
  unfolding free_addrs free_indirect
  itrunc ip d =
      then_update (empty_inode ip)
        (then_disk (free_indirect (ip.addrs n_direct)) (free_addrs n_direct 0 ip.addrs d))

module _ {W : Type 0} (sb : Superblock) (copies : Copies W) where
  abbrev pub Outcome : Type 0
  Outcome = Option (ℤ × Inode × Disk × W)

  -- The bytes of one round: min(n - tot, BSIZE - off%BSIZE)
  abbrev pub round_size : (off left : ℕ) → ℕ
  round_size off left = min left (block_size - off % block_size)

  abbrev pub unless_failed : (W → Outcome) → Inode → Disk → Bool × W → Outcome
  unless_failed later ip d (false, w) = some (negsuc 0, ip, d, w)
  unless_failed later ip d (true, w) = later w

  -- A round of `readi` after `bmap`.
  abbrev pub read_round :
      (Inode → Disk → W → Outcome)
      → (tot dst off left : ℕ) → W
      → Option (ℕ × Inode × Disk)
      → Outcome
  read_round later tot dst off left w none = none
  read_round later tot dst off left w (some (addr, ip, d)) =
      if addr == 0
      then some (pos tot, ip, d, w)
      else unless_failed (later ip d) ip d (
          copies.copy_out dst (take_bytes (d.block addr) (off % block_size) (round_size off left))
            w)

  -- The loop of `readi` with `left` of the n bytes to go; a round copies a byte at least.
  unfoldable pub read_loop : (fuel tot dst off left : ℕ) → Inode → Disk → W → Outcome
  unfolding bmap take_bytes
  read_loop zero tot dst off left ip d w = some (pos tot, ip, d, w)
  read_loop (suc fuel) tot dst off left ip d w =
      let m = round_size off left in
      if left == 0
      then some (pos tot, ip, d, w)
      else read_round (read_loop fuel (tot + m) (dst + m) (off + m) (left - m)) tot dst off left w
          (bmap sb (off / block_size) ip d)

  -- off + n on 32 bits
  abbrev pub add_off : (off n : ℕ) → ℕ
  add_off off n = (off + n) % 2 ^ 32

  unfoldable pub readi : (dst off n : ℕ) → Inode → Disk → W → Outcome
  unfolding read_loop
  readi dst off n ip d w =
      let m = if ltb ip.size (add_off off n) then ip.size - off else n in
      if ltb ip.size off || ltb (add_off off n) off
      then some (pos 0, ip, d, w)
      else read_loop m 0 dst off m ip d w

  -- What `writei` does after its loop, with off past the bytes written.
  abbrev pub write_end : (tot off : ℕ) → Inode → Disk → W → Outcome
  write_end tot off ip d w =
      let ip' = record ip { size = if ltb ip.size off then off else ip.size } in
      some (pos tot, ip', iupdate sb ip' d, w)

  -- The bytes that either_copyin gave are in the block; on a failure the loop ends, and the block is
  -- not logged.
  abbrev pub store_round :
      (Inode → Disk → W → Outcome) → (tot off addr : ℕ) → Inode → Disk → W → Bool × List ℕ → Outcome
  store_round later tot off addr ip d w (false, xs) =
      write_end tot off ip (set_block addr (put_bytes (d.block addr) (off % block_size) xs) d) w
  store_round later tot off addr ip d w (true, xs) =
      later ip (log_block addr (set_block addr (put_bytes (d.block addr) (off % block_size) xs) d))
        w

  abbrev pub write_round :
      (Inode → Disk → W → Outcome)
      → (tot src off left : ℕ) → W
      → Option (ℕ × Inode × Disk)
      → Outcome
  write_round later tot src off left w none = none
  write_round later tot src off left w (some (addr, ip, d)) =
      if addr == 0
      then write_end tot off ip d w
      else store_round later tot off addr ip d w (copies.copy_in src (round_size off left) w)

  unfoldable pub write_loop : (fuel tot src off left : ℕ) → Inode → Disk → W → Outcome
  unfolding bmap iupdate put_bytes
  write_loop zero tot src off left ip d w = write_end tot off ip d w
  write_loop (suc fuel) tot src off left ip d w =
      let m = round_size off left in
      if left == 0
      then write_end tot off ip d w
      else write_round (write_loop fuel (tot + m) (src + m) (off + m) (left - m)) tot src off left w
          (bmap sb (off / block_size) ip d)

  unfoldable pub writei : (src off n : ℕ) → Inode → Disk → W → Outcome
  unfolding write_loop
  writei src off n ip d w =
      if ltb ip.size off || ltb (add_off off n) off
      then some (negsuc 0, ip, d, w)
      else if ltb (max_file * block_size) (add_off off n)
      then some (negsuc 0, ip, d, w)
      else write_loop n 0 src off n ip d w
