-- ===== src/Inode/Lookup.antt =====
-- kernel/fs.c: dirlookup is a search of the directory's entries.
use g14_os_project.Prelude.{
  ℕ, zero, suc, ◌+◌, ◌-◌, ◌*◌, ◌/◌, ◌%◌, ◌≤◌, ◌<◌, ◌≡◌, refl, sym, ap, ◌∙◌, true, false, Option,
  none, some, List, [], ◌==◌, if◌then◌else◌, ltb, min, arith, inl, inr, Bool-cases, append_assoc,
  append-nil,
}
use g14_os_project.Prelude.Int.{pos}
use g14_os_project.Prelude.Table.{find_from}
use g14_os_project.Bitmap.{Superblock, Disk}
use g14_os_project.Inode.{Inode, take_bytes, readi}
use g14_os_project.Inode.Blocks.{content, HasBlocks}
use g14_os_project.Inode.Reading.{IsSequential, readi-content}
use g14_os_project.Inode.Directory.{
  to_buffer, Dirent, dirent_of, same_name, matches, look_at, look_from, dirlookup,
}

to_buffer-IsSequential : IsSequential to_buffer
to_buffer-IsSequential = record {
  empty = λ dst w. ap (λ l. (true, l)) (append-nil w);
  append = λ dst xs ys w. ap (λ l. (true, l)) (sym (append_assoc w xs ys));
}

-- Entry k of the directory.
pub entry : Inode → Disk → (k : ℕ) → Dirent
entry ip d k = dirent_of (take_bytes (content ip d) (16 * k) 16)

-- The inode and the offset for the number of the entry.
pub found_at : Inode → Disk → Option ℕ → Option (ℕ × ℕ)
unfolding entry
found_at ip d none = none
found_at ip d (some k) = some ((entry ip d k).inum, 16 * k)

module _ (sb : Superblock) (name : List ℕ) (ip : Inode) (d : Disk) (has : HasBlocks ip d) where
  read_entry :
      (k : ℕ)
      → 16 * k + 16 ≤ ip.size
      → readi sb to_buffer 0 (16 * k) 16 ip d []
        ≡ some (pos 16, ip, d, take_bytes (content ip d) (16 * k) 16)
  read_entry k le =
      let fits = has.fits in
      let all : min 16 (ip.size - 16 * k) ≡ 16 = ground arith in
      readi-content sb to_buffer to_buffer-IsSequential ip d has 0 (16 * k) 16 [] (omega arith)
      ∙ rw (all) refl

  entry_lem : (k : ℕ) → entry ip d k ≡ dirent_of (take_bytes (content ip d) (16 * k) 16)
  unfolding entry
  entry_lem k = refl

  -- A round reads an entry and either returns it or goes on.
  round_find :
      (later : Inode → Disk → Option (Option (ℕ × ℕ) × Inode × Disk)) (k : ℕ) (de : List ℕ)
      (rest : Option ℕ)
      → later ip d ≡ some (found_at ip d rest, ip, d)
      → entry ip d k ≡ dirent_of de
      → look_at sb name later (16 * k) (some (pos 16, ip, d, de))
        ≡ some (found_at ip d (if matches name (entry ip d k) then some k else rest), ip, d)
  unfolding matches found_at
  round_find later k de rest e same = elim (Bool-cases ((dirent_of de).inum == 0)) [
    | inl free ↦ rw (same, free) e
    | inr used ↦ elim (Bool-cases (same_name name (dirent_of de).name)) [
      | inl hit ↦ rw (same, used, hit, same) refl
      | inr miss ↦ rw (same, used, miss) e
    ]
  ]

  look_from-find :
      (fuel left k : ℕ)
      → left < fuel
      → ip.size ≡ 16 * (k + left)
      → look_from sb name fuel (16 * k) ip d
        ≡ some (found_at ip d (find_from (matches name) (entry ip d) left k), ip, d)
  unfolding look_from find_from found_at
  look_from-find zero left k lt e = absurd (omega arith)
  look_from-find (suc fuel) zero k lt e =
      let out : ltb (16 * k) ip.size ≡ false =
        (let same : ip.size ≡ 16 * k = omega arith in ground arith) in
      rw (look_from, out) refl
  look_from-find (suc fuel) (suc left) k lt e =
      let inside : ltb (16 * k) ip.size ≡ true =
        (let more : 16 * k < ip.size = omega arith in ground arith) in
      let bytes = take_bytes (content ip d) (16 * k) 16 in
      let next : 16 * k + 16 ≡ 16 * suc k = omega arith in
      rw (look_from, inside, read_entry k (omega arith))
        (round_find (look_from sb name fuel (16 * k + 16)) k bytes
          (find_from (matches name) (entry ip d) left (suc k))
          (ap (λ off. look_from sb name fuel off ip d) next
            ∙ look_from-find fuel left (suc k) (omega arith) (omega arith))
          (entry_lem k))

  -- Let the blocks of the directory be allocated and its size be a multiple of 16. Then dirlookup does
  -- not panic and changes nothing. It gives the inode number and the offset of the first entry that is
  -- in use and has the name, and nothing if there is none.
  pub dirlookup-find :
      ip.type ≡ 1
      → ip.size % 16 ≡ 0
      → dirlookup sb name ip d
        ≡ some (found_at ip d (find_from (matches name) (entry ip d) (ip.size / 16) 0), ip, d)
  unfolding dirlookup
  dirlookup-find is_dir whole =
      let dir : ip.type == 1 ≡ true = ground arith in
      rw (dirlookup, dir)
        (look_from-find (ip.size / 16 + 1) (ip.size / 16) 0 (omega arith) (omega arith))
