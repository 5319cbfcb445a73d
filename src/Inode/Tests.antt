-- ===== src/Inode/Tests.antt =====
-- kernel/fs.c: tests and examples for the contents of inodes.
use g14_os_project.Prelude.{
  ℕ, ◌+◌, ◌/◌, ◌%◌, ◌≡◌, refl, sym, ap, true, Option, none, some, List, [], ◌∷◌, ◌++◌, ◌==◌,
  if◌then◌else◌, arith, append-nil, append_assoc,
}
use g14_os_project.Prelude.Int.{ℤ, pos}
use g14_os_project.Prelude.Table.{find_from}
use g14_os_project.Cstring.{strncmp}
use g14_os_project.Bitmap.{Superblock, Disk}
use g14_os_project.Inode.{
  Inode, Copies, get_le, put_le, take_bytes, put_bytes, direct, bmap, read_loop, readi, write_loop,
  writei, iupdate, read_inode,
}
use g14_os_project.Inode.Blocks.{addr_of, content, HasBlocks}
use g14_os_project.Inode.Reading.{IsSequential, result_of, available, readi-content}
use g14_os_project.Inode.Directory.{
  matches, same_name, dirent_of, look_from, free_from, strncpy, dirlookup, dirlink, ialloc,
  ialloc_from,
}
use g14_os_project.Inode.Lookup.{entry, found_at, dirlookup-find}
use g14_os_project.Inode.Writing.{HasOwnBlocks, Supplies, Written, writei-Written}
use g14_os_project.Inode.Update.{IsStorable, SameFields, iupdate-read_inode}

abbrev super : Superblock
super = record {
  magic = 0;
  size = 100;
  nblocks = 60;
  ninodes = 32;
  nlog = 10;
  logstart = 2;
  inodestart = 32;
  bmapstart = 45;
}

-- Copies out go to the end of a list; copies in give sevens.
abbrev appended : Copies (List ℕ)
appended = record {
  copy_out = λ dst xs w. (true, w ++ xs);
  copy_in = λ src n w. (true, take_bytes (λ i. 7) 0 n);
}

appended-IsSequential : IsSequential appended
appended-IsSequential = record {
  empty = λ dst w. ap (λ l. (true, l)) (append-nil w);
  append = λ dst xs ys w. ap (λ l. (true, l)) (sym (append_assoc w xs ys));
}

-- A file of 3 bytes in block 50.
abbrev small : Inode
small = record {
  inum = 17;
  type = 2;
  major = 0;
  minor = 0;
  nlink = 1;
  size = 3;
  addrs = λ i. if i == 0 then 50 else 0;
}

abbrev counting : Disk
counting = record { block = λ b i. (b + i) % 256; logged = [] }

small-HasBlocks : HasBlocks small counting
unfolding addr_of
small-HasBlocks = record {
  fits = omega arith;
  allocated = λ off lt. let z : off / 1024 ≡ 0 = omega arith in rw (z) (λ e. ground arith);
  has_indirect = λ lt. absurd (omega arith);
}

readi-test :
    readi super appended 0 1 9 small counting [] ≡ some (pos 2, small, counting, 51 ∷ 52 ∷ [])
unfolding readi read_loop bmap direct take_bytes
readi-test = refl

readi-content_example :
    readi super appended 0 1 9 small counting []
    ≡ result_of super appended
        (available super appended appended-IsSequential small counting small-HasBlocks 1 9)
        small
        counting
        (appended.copy_out 0 (take_bytes (content small counting) 1 2) [])
readi-content_example =
    readi-content super appended appended-IsSequential small counting small-HasBlocks 0 1 9 []
      (omega arith)

small-IsStorable : IsStorable small
small-IsStorable = record {
  type = omega arith;
  major = omega arith;
  minor = omega arith;
  nlink = omega arith;
  size = omega arith;
  addrs = λ i lt. ground arith;
}

iupdate-read_inode_example : SameFields (read_inode super 17 (iupdate super small counting)) small
iupdate-read_inode_example = iupdate-read_inode super small counting 17 small-IsStorable

-- A directory with an entry that is free and one for inode 9, with the name "a".
abbrev folder : Inode
folder = record {
  inum = 1;
  type = 1;
  major = 0;
  minor = 0;
  nlink = 1;
  size = 32;
  addrs = λ i. if i == 0 then 50 else 0;
}

abbrev folder_disk : Disk
folder_disk = record {
  block = λ b i. if i == 16 then 9 else if i == 18 then 97 else 0;
  logged = [];
}

folder-HasBlocks : HasBlocks folder folder_disk
unfolding addr_of
folder-HasBlocks = record {
  fits = omega arith;
  allocated = λ off lt. let z : off / 1024 ≡ 0 = omega arith in rw (z) (λ e. ground arith);
  has_indirect = λ lt. absurd (omega arith);
}

dirlookup-find_example :
    dirlookup super (97 ∷ []) folder folder_disk
    ≡ some (
      found_at folder folder_disk (find_from (matches (97 ∷ [])) (entry folder folder_disk) 2 0),
      folder,
      folder_disk,
    )
dirlookup-find_example =
    dirlookup-find super (97 ∷ []) folder folder_disk folder-HasBlocks refl refl

dirlookup-test :
    dirlookup super (97 ∷ []) folder folder_disk ≡ some (some (9, 16), folder, folder_disk)
unfolding dirlookup look_from readi read_loop bmap direct take_bytes same_name dirent_of strncmp
dirlookup-test = refl

-- The free entry is taken.
abbrev linked_bytes : Option (ℤ × Inode × Disk) → List ℕ
linked_bytes none = []
linked_bytes (some (result, ip, d)) = take_bytes (d.block 50) 0 4

dirlink-test : linked_bytes (dirlink super (98 ∷ []) 5 folder folder_disk) ≡ 5 ∷ 0 ∷ 98 ∷ 0 ∷ []
unfolding dirlink dirlookup look_from free_from readi read_loop writei write_loop bmap direct
    take_bytes put_bytes same_name dirent_of strncmp strncpy
dirlink-test = refl

ialloc-test :
    (ialloc super 2 (record { block = λ b i. if i == 64 then 1 else 0; logged = [] })).0 ≡ 2
unfolding ialloc ialloc_from get_le put_le
ialloc-test = refl

-- Bytes that count up, all readable.
abbrev supplying : Copies (List ℕ)
supplying = record {
  copy_out = λ dst xs w. (true, w);
  copy_in = λ src n w. (true, take_bytes (λ i. i % 256) src n);
}

supplying-Supplies : Supplies supplying (λ i. i % 256) []
unfolding Supplies
supplying-Supplies src n = refl

small-HasOwnBlocks : HasOwnBlocks super small counting
unfolding addr_of
small-HasOwnBlocks = record {
  blocks = small-HasBlocks;
  apart = λ o p lt_o lt_p e. omega arith;
  not_indirect = λ o lt. let z : o / 1024 ≡ 0 = omega arith in rw (z) (λ e. ground arith);
  not_inode = λ o lt. let z : o / 1024 ≡ 0 = omega arith in rw (z) (λ e. ground arith);
  indirect_not_inode = λ e. ground arith;
}

writei-Written_example :
    Written super supplying
      (λ i. i % 256)
      []
      supplying-Supplies
      small
      counting
      7
      1
      2
      (writei super supplying 7 1 2 small counting [])
writei-Written_example =
    writei-Written super supplying (λ i. i % 256) [] supplying-Supplies small 7 1 2 counting
      (omega arith) small-HasOwnBlocks
