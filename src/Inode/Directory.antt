-- ===== src/Inode/Directory.antt =====
-- kernel/fs.c: directories. A read or write here is of a kernel buffer, so the copy always succeeds.
use g14_os_project.Prelude.{
  ℕ, zero, suc, ◌+◌, ◌-◌, ◌*◌, ◌/◌, ◌%◌, Bool, true, false, ◌&&◌, not, Option, none, some, List, [],
  ◌∷◌, ◌++◌, ◌==◌, if◌then◌else◌, ltb, take, drop,
}
use g14_os_project.Prelude.Int.{ℤ, pos, negsuc}
use g14_os_project.Cstring.{strncmp, memset}
use g14_os_project.Bitmap.{Superblock, Disk, log_block}
use g14_os_project.Inode.{Inode, get_le, Copies, put_le, set_block, readi, writei, Outcome}

-- DIRSIZ
abbrev pub dir_size : ℕ
dir_size = 14

abbrev pub is_zero : ℤ → Bool
is_zero (pos n) = n == 0
is_zero (negsuc n) = false

-- namecmp(s, t) == 0
unfoldable pub same_name : List ℕ → List ℕ → Bool
same_name s t = is_zero (strncmp s t dir_size)

-- either_copyout(0, ...): memmove to the buffer, of which the state is what is written so far.
abbrev pub to_buffer : Copies (List ℕ)
to_buffer = record { copy_out = λ dst xs w. (true, w ++ xs); copy_in = λ src n w. (true, []) }

pub record Dirent : Type 0 where
  pub inum : ℕ
  pub name : List ℕ

unfoldable pub dirent_of : List ℕ → Dirent
dirent_of [] = record { inum = 0; name = [] }
dirent_of (a ∷ []) = record { inum = a; name = [] }
dirent_of (a ∷ b ∷ name) = record { inum = a + 256 * b; name = name }

unfoldable pub matches : List ℕ → Dirent → Bool
matches name de = not (de.inum == 0) && same_name name de.name

module _ (sb : Superblock) (name : List ℕ) where
  -- The inode that the entry found names, and the entry's offset; 0 is `none`.
  abbrev pub Lookup : Type 0
  Lookup = Option (Option (ℕ × ℕ) × Inode × Disk)

  -- What a round does after `readi`: a short read is a panic.
  abbrev pub look_at : (Inode → Disk → Lookup) → (off : ℕ) → Outcome sb to_buffer → Lookup
  look_at later off none = none
  look_at later off (some (negsuc n, ip, d, de)) = none
  look_at later off (some (pos n, ip, d, de)) =
      let rest = later ip d in
      if not (n == 16)
      then none
      else if (dirent_of de).inum == 0
      then rest
      else if same_name name (dirent_of de).name
      then some (some ((dirent_of de).inum, off), ip, d)
      else rest

  -- The loop of `dirlookup` from off on, with fuel.
  unfoldable pub look_from : (fuel off : ℕ) → Inode → Disk → Lookup
  unfolding readi
  look_from zero off ip d = none
  look_from (suc fuel) off ip d =
      let round = look_at (look_from fuel (off + 16)) off (readi sb to_buffer 0 off 16 ip d []) in
      if ltb off ip.size then round else some (none, ip, d)

  -- T_DIR is 1.
  unfoldable pub dirlookup : Inode → Disk → Lookup
  unfolding look_from
  dirlookup ip d = if not (ip.type == 1) then none else look_from (ip.size / 16 + 1) 0 ip d

-- What a round of that loop does after `readi`.
abbrev pub free_at :
    (Inode → Disk → Option (ℕ × Inode × Disk))
    → (off : ℕ) → Option (ℤ × Inode × Disk × List ℕ)
    → Option (ℕ × Inode × Disk)
free_at later off none = none
free_at later off (some (negsuc n, ip, d, de)) = none
free_at later off (some (pos n, ip, d, de)) =
    let rest = later ip d in
    if not (n == 16) then none else if (dirent_of de).inum == 0 then some (off, ip, d) else rest

-- The loop of `dirlink` from off on: the offset of the first free entry, or the size.
unfoldable pub free_from :
    (sb : Superblock) → (fuel off : ℕ) → Inode → Disk → Option (ℕ × Inode × Disk)
unfolding readi
free_from sb zero off ip d = none
free_from sb (suc fuel) off ip d =
    let round = free_at (free_from sb fuel (off + 16)) off (readi sb to_buffer 0 off 16 ip d []) in
    if ltb off ip.size then round else some (off, ip, d)

-- strncpy of a name without a NUL, to n bytes.
unfoldable pub strncpy : List ℕ → (n : ℕ) → List ℕ
strncpy s zero = []
strncpy [] (suc n) = 0 ∷ strncpy [] n
strncpy (a ∷ s) (suc n) = a ∷ strncpy s n

-- either_copyin(0, ...) from the buffer of the new entry, at an offset.
abbrev pub from_buffer : List ℕ → Copies (List ℕ)
from_buffer de = record {
  copy_out = λ dst xs w. (true, w);
  copy_in = λ src n w. (true, take n (drop src de));
}

abbrev pub Link : Type 0
Link = Option (ℤ × Inode × Disk)

abbrev pub write_result : Option (ℤ × Inode × Disk × List ℕ) → Link
write_result none = none
write_result (some (negsuc n, ip, d, w)) = some (negsuc 0, ip, d)
write_result (some (pos n, ip, d, w)) = some (if n == 16 then pos 0 else negsuc 0, ip, d)

-- The new entry goes where the loop ended.
abbrev pub write_entry : (sb : Superblock) → List ℕ → (inum : ℕ) → Option (ℕ × Inode × Disk) → Link
write_entry sb name inum none = none
write_entry sb name inum (some (off, ip, d)) =
    let de = inum % 256 ∷ inum / 256 % 256 ∷ strncpy name dir_size in
    write_result (writei sb (from_buffer de) 0 off 16 ip d [])

-- A name that is present gives -1; the reference that its look-up took is dropped again.
abbrev pub unless_present :
    (sb : Superblock) → List ℕ → (inum : ℕ) → Option (Option (ℕ × ℕ) × Inode × Disk) → Link
unless_present sb name inum none = none
unless_present sb name inum (some (some found, ip, d)) = some (negsuc 0, ip, d)
unless_present sb name inum (some (none, ip, d)) =
    write_entry sb name inum (free_from sb (ip.size / 16 + 1) 0 ip d)

unfoldable pub dirlink : (sb : Superblock) → List ℕ → (inum : ℕ) → Inode → Disk → Link
unfolding dirlookup free_from strncpy writei
dirlink sb name inum ip d = unless_present sb name inum (dirlookup sb name ip d)

-- The loop of `ialloc` over the inodes from inum on: the number of the one taken, or 0.
unfoldable pub ialloc_from : (sb : Superblock) → (left inum type : ℕ) → Disk → ℕ × Disk
unfolding get_le put_le
ialloc_from sb zero inum type d = (0, d)
ialloc_from sb (suc left) inum type d =
    let bno = inum / 16 + sb.inodestart in
    let at = inum % 16 * 64 in
    let rest = ialloc_from sb left (suc inum) type d in
    if get_le 2 (d.block bno) at == 0
    then (inum, log_block bno (set_block bno (put_le 2 (memset (d.block bno) at 0 64) at type) d))
    else rest

-- `iget` of the number follows.
unfoldable pub ialloc : (sb : Superblock) → (type : ℕ) → Disk → ℕ × Disk
unfolding ialloc_from
ialloc sb type d = ialloc_from sb (sb.ninodes - 1) 1 type d
