-- ===== src/Inode/Update.antt =====
-- kernel/fs.c: iupdate stores the fields that ilock reads.
use g14_os_project.Prelude.{
  ℕ, ◌+◌, ◌*◌, ◌/◌, ◌%◌, ◌^◌, ◌≤◌, ◌<◌, ◌≡◌, ◌≢◌, sym, ap, subst, ◌∙◌, inl, inr, arith, ◌==◌,
  ==_iff, if◌then◌else◌, Bool-cases,
}
use g14_os_project.Prelude.Table.{update_self, update_ne}
use g14_os_project.Bitmap.{Superblock, Disk}
use g14_os_project.Inode.{Inode, get_le, put_le, put_dinode, iupdate, read_inode}
use g14_os_project.Inode.Bytes.{
  Fits, Fits-half, Fits-word, AreApart, get_le-put_le, get_le_apart, get_le-put_addrs_apart,
  get_le-put_addrs,
}

-- The fields fit what the disk has for them.
pub record IsStorable (ip : Inode) : Type 0 where
  pub type : ip.type < 2 ^ 16
  pub major : ip.major < 2 ^ 16
  pub minor : ip.minor < 2 ^ 16
  pub nlink : ip.nlink < 2 ^ 16
  pub size : ip.size < 2 ^ 32
  pub addrs : (i : ℕ) → i < 13 → ip.addrs i < 2 ^ 32

pub record SameFields (ip jp : Inode) : Type 0 where
  pub type : ip.type ≡ jp.type
  pub major : ip.major ≡ jp.major
  pub minor : ip.minor ≡ jp.minor
  pub nlink : ip.nlink ≡ jp.nlink
  pub size : ip.size ≡ jp.size
  pub addrs : (i : ℕ) → i < 13 → ip.addrs i ≡ jp.addrs i

module _ (ip : Inode) (bytes : ℕ → ℕ) (at : ℕ) where
  abbrev with_type : ℕ → ℕ
  with_type = put_le 2 bytes at ip.type

  abbrev with_major : ℕ → ℕ
  with_major = put_le 2 with_type (at + 2) ip.major

  abbrev with_minor : ℕ → ℕ
  with_minor = put_le 2 with_major (at + 4) ip.minor

  abbrev with_nlink : ℕ → ℕ
  with_nlink = put_le 2 with_minor (at + 6) ip.nlink

  abbrev with_size : ℕ → ℕ
  with_size = put_le 4 with_nlink (at + 8) ip.size

  -- A number before the addresses, from what is stored before them.
  before_addrs :
      (count x : ℕ)
      → x + count ≤ at + 12
      → get_le count (put_dinode ip bytes at) x ≡ get_le count with_size x
  unfolding put_dinode
  before_addrs count x le =
      get_le-put_addrs_apart count 13 0 x (at + 12) ip.addrs with_size (inl le)

  -- No other place of the block changes.
  elsewhere :
      (count x : ℕ)
      → AreApart x count at 64
      → get_le count (put_dinode ip bytes at) x ≡ get_le count bytes x
  unfolding put_dinode
  elsewhere count x apart =
      get_le-put_addrs_apart count 13 0 x (at + 12) ip.addrs with_size (grind arith)
      ∙ get_le_apart count 4 with_nlink x (at + 8) ip.size (grind arith)
      ∙ get_le_apart count 2 with_minor x (at + 6) ip.nlink (grind arith)
      ∙ get_le_apart count 2 with_major x (at + 4) ip.minor (grind arith)
      ∙ get_le_apart count 2 with_type x (at + 2) ip.major (grind arith)
      ∙ get_le_apart count 2 bytes x at ip.type (grind arith)

  module _ (s : IsStorable ip) where
    own_type : get_le 2 (put_dinode ip bytes at) at ≡ ip.type
    own_type =
        before_addrs 2 at (omega arith)
        ∙ get_le_apart 2 4 with_nlink at (at + 8) ip.size (inl (omega arith))
        ∙ get_le_apart 2 2 with_minor at (at + 6) ip.nlink (inl (omega arith))
        ∙ get_le_apart 2 2 with_major at (at + 4) ip.minor (inl (omega arith))
        ∙ get_le_apart 2 2 with_type at (at + 2) ip.major (inl (omega arith))
        ∙ get_le-put_le 2 bytes at ip.type (Fits-half ip.type s.type)

    own_major : get_le 2 (put_dinode ip bytes at) (at + 2) ≡ ip.major
    own_major =
        before_addrs 2 (at + 2) (omega arith)
        ∙ get_le_apart 2 4 with_nlink (at + 2) (at + 8) ip.size (inl (omega arith))
        ∙ get_le_apart 2 2 with_minor (at + 2) (at + 6) ip.nlink (inl (omega arith))
        ∙ get_le_apart 2 2 with_major (at + 2) (at + 4) ip.minor (inl (omega arith))
        ∙ get_le-put_le 2 with_type (at + 2) ip.major (Fits-half ip.major s.major)

    own_minor : get_le 2 (put_dinode ip bytes at) (at + 4) ≡ ip.minor
    own_minor =
        before_addrs 2 (at + 4) (omega arith)
        ∙ get_le_apart 2 4 with_nlink (at + 4) (at + 8) ip.size (inl (omega arith))
        ∙ get_le_apart 2 2 with_minor (at + 4) (at + 6) ip.nlink (inl (omega arith))
        ∙ get_le-put_le 2 with_major (at + 4) ip.minor (Fits-half ip.minor s.minor)

    own_nlink : get_le 2 (put_dinode ip bytes at) (at + 6) ≡ ip.nlink
    own_nlink =
        before_addrs 2 (at + 6) (omega arith)
        ∙ get_le_apart 2 4 with_nlink (at + 6) (at + 8) ip.size (inl (omega arith))
        ∙ get_le-put_le 2 with_minor (at + 6) ip.nlink (Fits-half ip.nlink s.nlink)

    own_size : get_le 4 (put_dinode ip bytes at) (at + 8) ≡ ip.size
    own_size =
        before_addrs 4 (at + 8) (omega arith)
        ∙ get_le-put_le 4 with_nlink (at + 8) ip.size (Fits-word ip.size s.size)

    own_addrs : (i : ℕ) → i < 13 → get_le 4 (put_dinode ip bytes at) (at + 12 + 4 * i) ≡ ip.addrs i
    unfolding put_dinode
    own_addrs i lt =
        get_le-put_addrs 13 0 (at + 12) ip.addrs with_size i lt
          (subst (λ j. Fits 4 (ip.addrs j)) (omega arith) (Fits-word (ip.addrs i) (s.addrs i lt)))
        ∙ ap ip.addrs (omega arith)

module _ (sb : Superblock) (ip : Inode) (d : Disk) where
  same_slot : IsStorable ip → SameFields (read_inode sb ip.inum (iupdate sb ip d)) ip
  unfolding read_inode iupdate
  same_slot s =
      let bno = ip.inum / 16 + sb.inodestart in
      let at = ip.inum % 16 * 64 in
      let here = update_self d.block bno (put_dinode ip (d.block bno) at) in
      record {
        type = ap (λ (b : ℕ → ℕ). get_le 2 b at) here ∙ own_type ip (d.block bno) at s;
        major = ap (λ (b : ℕ → ℕ). get_le 2 b (at + 2)) here ∙ own_major ip (d.block bno) at s;
        minor = ap (λ (b : ℕ → ℕ). get_le 2 b (at + 4)) here ∙ own_minor ip (d.block bno) at s;
        nlink = ap (λ (b : ℕ → ℕ). get_le 2 b (at + 6)) here ∙ own_nlink ip (d.block bno) at s;
        size = ap (λ (b : ℕ → ℕ). get_le 4 b (at + 8)) here ∙ own_size ip (d.block bno) at s;
        addrs = λ i lt.
            ap (λ (b : ℕ → ℕ). get_le 4 b (at + 12 + 4 * i)) here
            ∙ own_addrs ip (d.block bno) at s i lt;
      }

  -- A number in the slot of another inode.
  other_number :
      (n count x : ℕ)
      → n ≢ ip.inum
      → n % 16 * 64 ≤ x
      → x + count ≤ n % 16 * 64 + 64
      → get_le count ((iupdate sb ip d).block (n / 16 + sb.inodestart)) x
        ≡ get_le count (d.block (n / 16 + sb.inodestart)) x
  unfolding iupdate
  other_number n count x ne lo hi =
      let bno = ip.inum / 16 + sb.inodestart in
      let at = ip.inum % 16 * 64 in
      elim (Bool-cases (n / 16 == ip.inum / 16)) [
        | inl same ↦
            let block = (==_iff (n / 16) (ip.inum / 16)).0 same in
            let slots : n % 16 ≢ ip.inum % 16 = λ e. ne (omega arith) in
            let apart : AreApart x count at 64 = grind arith in
            rw (block) (
              ap (λ (b : ℕ → ℕ). get_le count b x)
                (update_self d.block bno (put_dinode ip (d.block bno) at))
              ∙ elsewhere ip (d.block bno) at count x apart)
        | inr other ↦
            let blocks : n / 16 ≢ ip.inum / 16 = ground arith in
            ap (λ (b : ℕ → ℕ). get_le count b x)
              (update_ne d.block bno (n / 16 + sb.inodestart) (put_dinode ip (d.block bno) at)
                (λ e. blocks (omega arith)))
      ]

  other_slot :
      (n : ℕ) → n ≢ ip.inum → SameFields (read_inode sb n (iupdate sb ip d)) (read_inode sb n d)
  unfolding read_inode
  other_slot n ne =
      let at = n % 16 * 64 in
      record {
        type = other_number n 2 at ne (omega arith) (omega arith);
        major = other_number n 2 (at + 2) ne (omega arith) (omega arith);
        minor = other_number n 2 (at + 4) ne (omega arith) (omega arith);
        nlink = other_number n 2 (at + 6) ne (omega arith) (omega arith);
        size = other_number n 4 (at + 8) ne (omega arith) (omega arith);
        addrs = λ i lt. other_number n 4 (at + 12 + 4 * i) ne (omega arith) (omega arith);
      }

  -- After iupdate of an inode whose fields fit the disk's, what ilock reads from the disk has the
  -- inode's fields for the inode's number, and the fields it had before for every other number.
  pub iupdate-read_inode :
      (n : ℕ)
      → IsStorable ip
      → SameFields
          (read_inode sb n (iupdate sb ip d))
          (if n == ip.inum then ip else read_inode sb n d)
  iupdate-read_inode n s = elim (Bool-cases (n == ip.inum)) [
    | inl own ↦
        let e = (==_iff n ip.inum).0 own in
        rw (own)
          (subst (λ k. SameFields (read_inode sb k (iupdate sb ip d)) ip) (sym e) (same_slot s))
    | inr other ↦ rw (other) (other_slot n (ground arith))
  ]
