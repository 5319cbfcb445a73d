-- ===== src/Inode/Writing.antt =====
-- kernel/fs.c: writei over blocks that the file has.
use g14_os_project.Prelude.{
  ℕ, zero, suc, ◌+◌, ◌-◌, ◌*◌, ◌/◌, ◌%◌, ◌≤◌, ◌<◌, ◌≡◌, ◌≢◌, refl, sym, ap, ◌∙◌, Bool, true, false,
  ◌&&◌, Option, some, ◌==◌, ==_iff, if◌then◌else◌, ltb, leb, arith, inl, inr, Bool-cases,
}
use g14_os_project.Prelude.Int.{ℤ, pos}
use g14_os_project.Prelude.Table.{update, update_self, update_ne}
use g14_os_project.Bitmap.{Superblock, Disk, log_block}
use g14_os_project.Inode.{
  Inode, block_size, n_direct, get_le, take_bytes, put_bytes, put_dinode, set_block, iupdate,
  Copies, round_size, write_end, write_loop, add_off, writei, max_file,
}
use g14_os_project.Inode.Blocks.{addr_of, content, HasBlocks, bmap-HasBlocks}

-- The blocks of the file are different ones, and neither the indirect block nor the block that holds
-- the inode, which are different too.
pub record HasOwnBlocks (sb : Superblock) (ip : Inode) (d : Disk) : Type 0 where
  pub blocks : HasBlocks ip d
  pub apart :
      (o p : ℕ)
      → o < ip.size
      → p < ip.size
      → addr_of ip d (o / block_size) ≡ addr_of ip d (p / block_size)
      → o / block_size ≡ p / block_size
  pub not_indirect : (o : ℕ) → o < ip.size → addr_of ip d (o / block_size) ≢ ip.addrs n_direct
  pub not_inode :
      (o : ℕ) → o < ip.size → addr_of ip d (o / block_size) ≢ ip.inum / 16 + sb.inodestart
  pub indirect_not_inode : ip.addrs n_direct ≢ ip.inum / 16 + sb.inodestart

abbrev pub within : (at m j : ℕ) → Bool
within at m j = leb at j && ltb j (at + m)

put_bytes-take_bytes :
    (m : ℕ) (b : ℕ → ℕ) (at : ℕ) (f : ℕ → ℕ) (s j : ℕ)
    → put_bytes b at (take_bytes f s m) j ≡ (if within at m j then f (s + (j - at)) else b j)
unfolding put_bytes take_bytes
put_bytes-take_bytes zero b at f s j =
    let out : within at 0 j ≡ false = ground arith in rw (out) refl
put_bytes-take_bytes (suc m) b at f s j =
    put_bytes-take_bytes m (update b at (f s)) (suc at) f (suc s) j ∙ (elim (Bool-cases (at == j)) [
      | inl here ↦
          let e : j ≡ at = ground arith in
          let out : within (suc at) m j ≡ false = ground arith in
          let hit : within at (suc m) j ≡ true = ground arith in
          let zero_off : s + (j - at) ≡ s = omega arith in rw (out, hit, here, zero_off) refl
      | inr other ↦ elim (Bool-cases (within (suc at) m j)) [
        | inl later ↦
            let hit : within at (suc m) j ≡ true = ground arith in
            let off : suc s + (j - suc at) ≡ s + (j - at) = ground arith in
            rw (later, hit, off) refl
        | inr out ↦
            let miss : within at (suc m) j ≡ false = ground arith in rw (out, miss, other) refl
      ]
    ])

-- A store to one data block of the file changes no address.
addr_of-set_block :
    (ip : Inode) (d : Disk) (a : ℕ) (bytes : ℕ → ℕ) (bn : ℕ)
    → a ≢ ip.addrs n_direct
    → addr_of ip (log_block a (set_block a bytes d)) bn ≡ addr_of ip d bn
unfolding addr_of
addr_of-set_block ip d a bytes bn ne =
    let same = update_ne d.block a (ip.addrs n_direct) bytes (λ e. ne (sym e)) in
    ap (λ (b : ℕ → ℕ). if ltb bn n_direct then ip.addrs bn else get_le 4 b (4 * (bn - n_direct)))
      same

within_shift :
    (p q off o base m : ℕ) → off ≡ base + p → o ≡ base + q → within p m q ≡ within off m o
within_shift p q off o base m e f = ground arith

-- Offsets in one block, and offsets in the file.
same_place :
    (off m o src : ℕ) (source : ℕ → ℕ) (old : ℕ)
    → o / block_size ≡ off / block_size
    → (if within (off % block_size) m (o % block_size)
        then source (src + (o % block_size - off % block_size))
        else old)
      ≡ (if within off m o then source (src + (o - off)) else old)
same_place off m o src source old e =
    let place : within (off % block_size) m (o % block_size) ≡ within off m o =
      within_shift (off % block_size) (o % block_size) off o (o / block_size * block_size) m
        (omega arith) (omega arith) in
    let gap : o % block_size - off % block_size ≡ o - off = omega arith in rw (place, gap) refl

other_place :
    (off m o : ℕ)
    → o / block_size ≢ off / block_size
    → off % block_size + m ≤ block_size
    → within off m o ≡ false
other_place off m o ne fit = elim (Bool-cases (within off m o)) [
  | inl hit ↦
      let lo : off ≤ o = ground arith in
      let hi : o < off + m = ground arith in absurd (ne (omega arith))
  | inr miss ↦ miss
]

module _ (sb : Superblock) (ip : Inode) where
  HasOwnBlocks-set_block :
      (d : Disk) (a : ℕ) (bytes : ℕ → ℕ)
      → HasOwnBlocks sb ip d
      → a ≢ ip.addrs n_direct
      → HasOwnBlocks sb ip (log_block a (set_block a bytes d))
  HasOwnBlocks-set_block d a bytes has ne =
      let same = λ (bn : ℕ). addr_of-set_block ip d a bytes bn ne in
      record {
        blocks = record {
          fits = has.blocks.fits;
          allocated = λ o lt e. has.blocks.allocated o lt (sym (same (o / block_size)) ∙ e);
          has_indirect = has.blocks.has_indirect;
        };
        apart = λ o p lt_o lt_p e.
            has.apart o p lt_o lt_p (sym (same (o / block_size)) ∙ e ∙ same (p / block_size));
        not_indirect = λ o lt e. has.not_indirect o lt (sym (same (o / block_size)) ∙ e);
        not_inode = λ o lt e. has.not_inode o lt (sym (same (o / block_size)) ∙ e);
        indirect_not_inode = has.indirect_not_inode;
      }

  -- The write of the inode to its block keeps the content and the blocks that the file has.
  iupdate-content :
      (d : Disk)
      → HasOwnBlocks sb ip d
      → HasOwnBlocks sb ip (iupdate sb ip d)
        × ((o : ℕ) → o < ip.size → content ip (iupdate sb ip d) o ≡ content ip d o)
  unfolding iupdate content
  iupdate-content d has =
      let a = ip.inum / 16 + sb.inodestart in
      let bytes = put_dinode ip (d.block a) (ip.inum % 16 * 64) in
      let apart : a ≢ ip.addrs n_direct = λ e. has.indirect_not_inode (sym e) in
      (
        HasOwnBlocks-set_block d a bytes has apart,
        λ o lt.
            ap (λ k. update d.block a bytes k (o % block_size))
              (addr_of-set_block ip d a bytes (o / block_size) apart)
            ∙ ap (λ (f : ℕ → ℕ). f (o % block_size))
                (update_ne d.block a (addr_of ip d (o / block_size)) bytes (has.not_inode o lt)),
      )

  -- The bytes of one round, in the content.
  content-set_block :
      (d : Disk) (off m o : ℕ) (source : ℕ → ℕ) (src : ℕ)
      → HasOwnBlocks sb ip d
      → off < ip.size
      → o < ip.size
      → off % block_size + m ≤ block_size
      → content ip
          (log_block (addr_of ip d (off / block_size)) (
            set_block
              (addr_of ip d (off / block_size))
              (put_bytes
                (d.block (addr_of ip d (off / block_size)))
                (off % block_size)
                (take_bytes source src m))
              d))
          o
        ≡ (if within off m o then source (src + (o - off)) else content ip d o)
  unfolding content
  content-set_block d off m o source src has lt lt_o fit =
      let a = addr_of ip d (off / block_size) in
      let bytes = put_bytes (d.block a) (off % block_size) (take_bytes source src m) in
      let same_addr = addr_of-set_block ip d a bytes (o / block_size) (has.not_indirect off lt) in
      ap (λ k. update d.block a bytes k (o % block_size)) same_addr
      ∙ (elim (Bool-cases (o / block_size == off / block_size)) [
        | inl hit ↦
            let e = (==_iff (o / block_size) (off / block_size)).0 hit in
            ap (λ bn. update d.block a bytes (addr_of ip d bn) (o % block_size)) e
            ∙ ap (λ (f : ℕ → ℕ). f (o % block_size)) (update_self d.block a bytes)
            ∙ put_bytes-take_bytes m (d.block a) (off % block_size) source src (o % block_size)
            ∙ same_place off m o src source (d.block a (o % block_size)) e
            ∙ ap
                (λ bn.
                  if within off m o
                  then source (src + (o - off))
                  else d.block (addr_of ip d bn) (o % block_size))
                (sym e)
        | inr miss ↦
            let ne : o / block_size ≢ off / block_size = ground arith in
            ap (λ (f : ℕ → ℕ). f (o % block_size))
              (update_ne d.block a (addr_of ip d (o / block_size)) bytes
                (λ e. ne (has.apart o off lt_o lt e)))
            ∙ ap
                (λ (b : Bool).
                  if b
                  then source (src + (o - off))
                  else d.block (addr_of ip d (o / block_size)) (o % block_size))
                (sym (other_place off m o ne fit))
      ])

-- A source of bytes that can all be read.
unfoldable pub Supplies : {W : Type 0} → Copies W → (source : ℕ → ℕ) → W → Type 0
Supplies copies source w = (src n : ℕ) → copies.copy_in src n w ≡ (true, take_bytes source src n)

-- The content, and the blocks it has, after n bytes at src are written at off.
pub record Overwritten (sb : Superblock) (ip : Inode) (d d₁ : Disk) (source : ℕ → ℕ) (src off n : ℕ)
    : Type 0 where
  pub own : HasOwnBlocks sb ip d₁
  pub bytes :
      (o : ℕ)
      → o < ip.size
      → content ip d₁ o ≡ (if within off n o then source (src + (o - off)) else content ip d o)

-- Two ranges one after the other.
joined :
    (source : ℕ → ℕ) (src off m left o old now last : ℕ)
    → m ≤ left
    → now ≡ (if within off m o then source (src + (o - off)) else old)
    → last ≡ (if within (off + m) (left - m) o then source (src + m + (o - (off + m))) else now)
    → last ≡ (if within off left o then source (src + (o - off)) else old)
joined source src off m left o old now last le first rest =
    elim (Bool-cases (within (off + m) (left - m) o)) [
      | inl later ↦
          let hit : within off left o ≡ true = ground arith in
          let place : src + m + (o - (off + m)) ≡ src + (o - off) = ground arith in
          rw (hit) ((rw later at rest) ∙ ap source place)
      | inr not_later ↦ elim (Bool-cases (within off m o)) [
        | inl early ↦
            let hit : within off left o ≡ true = ground arith in
            rw (hit) ((rw not_later at rest) ∙ (rw early at first))
        | inr neither ↦
            let miss : within off left o ≡ false = ground arith in
            rw (miss) ((rw not_later at rest) ∙ (rw neither at first))
      ]
    ]

module _ {W : Type 0} (sb : Superblock) (copies : Copies W) (source : ℕ → ℕ) (w : W)
    (supplies : Supplies copies source w) (ip : Inode) where
  -- The loop's result, with the disk before the inode is written back.
  record Looped (d : Disk) (tot src off left : ℕ) (result : Option (ℤ × Inode × Disk × W))
      : Type 0 where
    pub disk : Disk
    pub returns : result ≡ some (pos (tot + left), ip, iupdate sb ip disk, w)
    pub overwritten : Overwritten sb ip d disk source src off left

  written_nothing :
      (tot src off left : ℕ) (d : Disk)
      → left ≡ 0
      → off ≤ ip.size
      → HasOwnBlocks sb ip d
      → Looped d tot src off left (write_end sb copies tot off ip d w)
  written_nothing tot src off left d e le has =
      let same_size : (if ltb ip.size off then off else ip.size) ≡ ip.size = ground arith in
      let sum : tot ≡ tot + left = omega arith in
      record {
        disk = d;
        returns =
            ap
              (λ size.
                some
                  (pos tot, record ip { size = size }, iupdate sb (record ip { size = size }) d, w))
              same_size
            ∙ ap (λ k. some (pos k, ip, iupdate sb ip d, w)) sum;
        overwritten = record {
          own = has;
          bytes = λ o lt. let out : within off left o ≡ false = ground arith in rw (out) refl;
        };
      }

  written_more :
      (d d₁ : Disk) (tot src off m left : ℕ) (result : Option (ℤ × Inode × Disk × W))
      → m ≤ left
      → ((o : ℕ)
          → o < ip.size
          → content ip d₁ o ≡ (if within off m o then source (src + (o - off)) else content ip d o))
      → Looped d₁ (tot + m) (src + m) (off + m) (left - m) result
      → Looped d tot src off left result
  written_more d d₁ tot src off m left result le first rest =
      let sum : tot + m + (left - m) ≡ tot + left = omega arith in
      record {
        disk = rest.disk;
        returns = rest.returns ∙ ap (λ k. some (pos k, ip, iupdate sb ip rest.disk, w)) sum;
        overwritten = record {
          own = rest.overwritten.own;
          bytes = λ o lt.
              joined source src off m left o (content ip d o) (content ip d₁ o)
                (content ip rest.disk o) le (first o lt) (rest.overwritten.bytes o lt);
        };
      }

  write_loop-Looped :
      (fuel tot src off left : ℕ) (d : Disk)
      → left ≤ fuel
      → off + left ≤ ip.size
      → HasOwnBlocks sb ip d
      → Looped d tot src off left (write_loop sb copies fuel tot src off left ip d w)
  unfolding write_loop Supplies
  write_loop-Looped zero tot src off left d enough le has =
      written_nothing tot src off left d (omega arith) (omega arith) has
  write_loop-Looped (suc fuel) tot src off left d enough le has = elim (Bool-cases (left == 0)) [
    | inl over ↦
        rw (write_loop, over) (written_nothing tot src off left d (ground arith) (omega arith) has)
    | inr more ↦
        let m = round_size sb copies off left in
        let some_left : 0 < left = ground arith in
        let m_le : m ≤ left = ground arith in
        let m_pos : 0 < m =
          (let lt : off % block_size < block_size = omega arith in ground arith) in
        let fit : off % block_size + m ≤ block_size =
          (let lt : off % block_size < block_size = omega arith in ground arith) in
        let lt : off < ip.size = omega arith in
        let a = addr_of ip d (off / block_size) in
        let ne = has.blocks.allocated off lt in
        let there : a == 0 ≡ false = ground arith in
        let stored = put_bytes (d.block a) (off % block_size) (take_bytes source src m) in
        let d₁ = log_block a (set_block a stored d) in
        let own = HasOwnBlocks-set_block sb ip d a stored has (has.not_indirect off lt) in
        rw (write_loop, more, bmap-HasBlocks sb ip d off has.blocks lt, there, supplies src m)
          (written_more d d₁ tot src off m left
            (write_loop sb copies fuel (tot + m) (src + m) (off + m) (left - m) ip d₁ w) m_le
            (λ o lt_o. content-set_block sb ip d off m o source src has lt lt_o fit)
            (write_loop-Looped fuel (tot + m) (src + m) (off + m) (left - m) d₁ (omega arith)
              (omega arith) own))
  ]

  -- The result: the count, the inode as it was, and a disk with the bytes in the content.
  pub record Written (d : Disk) (src off n : ℕ) (result : Option (ℤ × Inode × Disk × W))
      : Type 0 where
    pub disk : Disk
    pub returns : result ≡ some (pos n, ip, disk, w)
    pub overwritten : Overwritten sb ip d disk source src off n

  looped-Written :
      (src off n : ℕ) (d : Disk) (result : Option (ℤ × Inode × Disk × W))
      → Looped d 0 src off n result
      → Written d src off n result
  looped-Written src off n d result l =
      let updated = iupdate-content sb ip l.disk l.overwritten.own in
      record {
        disk = iupdate sb ip l.disk;
        returns = l.returns ∙ ap (λ k. some (pos k, ip, iupdate sb ip l.disk, w)) (omega arith);
        overwritten = record {
          own = updated.0;
          bytes = λ o lt. updated.1 o lt ∙ l.overwritten.bytes o lt;
        };
      }

  -- Let the bytes off to off + n lie in the file, whose blocks are allocated, different and not the one
  -- of the inode, and let every copy from src succeed. Then writei does not panic and returns n, the
  -- inode stays as it is, and the content of the file on the disk that it returns has the bytes of src
  -- at off and every other byte as it was.
  pub writei-Written :
      (src off n : ℕ) (d : Disk)
      → off + n ≤ ip.size
      → HasOwnBlocks sb ip d
      → Written d src off n (writei sb copies src off n ip d w)
  unfolding writei
  writei-Written src off n d le has =
      let fits = has.blocks.fits in
      let no_wrap : add_off sb copies off n ≡ off + n = omega arith in
      let inside : ltb ip.size off ≡ false = ground arith in
      let grows : ltb (off + n) off ≡ false = ground arith in
      let bounded : ltb (max_file * block_size) (off + n) ≡ false = ground arith in
      rw (writei, inside, no_wrap, grows, bounded)
        (looped-Written src off n d (write_loop sb copies n 0 src off n ip d w)
          (write_loop-Looped n 0 src off n d (omega arith) le has))
