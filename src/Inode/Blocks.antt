-- ===== src/Inode/Blocks.antt =====
-- kernel/fs.c: the blocks of an inode, and its content as one sequence of bytes.
use g14_os_project.Prelude.{
  ℕ, ◌-◌, ◌*◌, ◌/◌, ◌%◌, ◌≤◌, ◌<◌, ◌≡◌, ◌≢◌, refl, subst, Bool, true, false, some, ◌==◌,
  if◌then◌else◌, ltb, arith, inl, inr, Bool-cases,
}
use g14_os_project.Bitmap.{Superblock, Disk}
use g14_os_project.Inode.{
  Inode, block_size, n_direct, n_indirect, max_file, get_le, direct, indirect, bmap,
}

-- The address of block bn.
unfoldable pub addr_of : Inode → Disk → (bn : ℕ) → ℕ
addr_of ip d bn =
    if ltb bn n_direct
    then ip.addrs bn
    else get_le 4 (d.block (ip.addrs n_direct)) (4 * (bn - n_direct))

-- The byte of the content at an offset.
unfoldable pub content : Inode → Disk → (off : ℕ) → ℕ
content ip d off = d.block (addr_of ip d (off / block_size)) (off % block_size)

-- Every block up to the size has been allocated.
pub record HasBlocks (ip : Inode) (d : Disk) : Type 0 where
  pub fits : ip.size ≤ max_file * block_size
  pub allocated : (off : ℕ) → off < ip.size → addr_of ip d (off / block_size) ≢ 0
  pub has_indirect : n_direct * block_size < ip.size → ip.addrs n_direct ≢ 0

pub bmap-HasBlocks :
    (sb : Superblock) (ip : Inode) (d : Disk) (off : ℕ)
    → HasBlocks ip d
    → off < ip.size
    → bmap sb (off / block_size) ip d ≡ some (addr_of ip d (off / block_size), ip, d)
unfolding bmap direct indirect addr_of
bmap-HasBlocks sb ip d off has lt =
    let bn = off / block_size in
    let ne = has.allocated off lt in
    elim (Bool-cases (ltb bn n_direct)) [
      | inl low ↦
          let addr_ne : ip.addrs bn ≢ 0 =
            subst
              (λ (b : Bool).
                (if b
                  then ip.addrs bn
                  else get_le 4 (d.block (ip.addrs n_direct)) (4 * (bn - n_direct)))
                ≢ 0)
              low ne in
          let there : ip.addrs bn == 0 ≡ false = ground arith in rw (bmap, low, there) refl
      | inr high ↦
          let addr_ne : get_le 4 (d.block (ip.addrs n_direct)) (4 * (bn - n_direct)) ≢ 0 =
            subst
              (λ (b : Bool).
                (if b
                  then ip.addrs bn
                  else get_le 4 (d.block (ip.addrs n_direct)) (4 * (bn - n_direct)))
                ≢ 0)
              high ne in
          let there : get_le 4 (d.block (ip.addrs n_direct)) (4 * (bn - n_direct)) == 0 ≡ false =
            ground arith in
          let fits = has.fits in
          let low_bn : n_direct ≤ bn = ground arith in
          let in_range : ltb (bn - n_direct) n_indirect ≡ true =
            (let small : bn - n_direct < n_indirect = omega arith in ground arith) in
          let at_ne = has.has_indirect (omega arith) in
          let at_there : ip.addrs n_direct == 0 ≡ false = ground arith in
          rw (bmap, high, in_range, at_there, at_there, there) refl
    ]
