-- ===== src/Itable.antt =====
-- kernel/fs.c and file.h: the table of inodes in memory. A call on it is the sections under
-- `itable.lock`. What fs.c does on the disk for an inode is the record `InodeDisk W`, with `W` the
-- state of the disk and its cache.
pub mod Get
pub mod Unique
pub mod Calls
mod Tests
use g14_os_project.Prelude.{
  ℕ, zero, suc, ◌+◌, ◌-◌, Bool, true, false, ◌&&◌, ◌||◌, not, Option, none, some, List, [], ◌∷◌,
  ◌==◌, if◌then◌else◌,
}
use g14_os_project.Prelude.Int.{ℤ, pos, negsuc, pos_part, neg_part, inc_ℤ, dec_ℤ, ltb_ℤ}
use g14_os_project.Prelude.Table.{update}
use g14_os_project.Sleeplock.{Sleeplock, initsleeplock, acquiresleep, holdingsleep, releasesleep}

-- NINODE
abbrev pub ninode : ℕ
ninode = 50

abbrev pub eqb_ℤ : ℤ → ℤ → Bool
eqb_ℤ a b = pos_part a == pos_part b && neg_part a == neg_part b

-- The fields of `struct dinode`, which an inode in memory copies.
pub record Dinode : Type 0 where
  pub type : ℕ
  pub major : ℕ
  pub minor : ℕ
  pub nlink : ℕ
  pub size : ℕ
  pub addrs : List ℕ

pub record Inode : Type 0 where
  pub dev : ℕ
  pub inum : ℕ
  pub ref : ℤ
  pub lock : Sleeplock
  pub valid : Bool
  pub body : Dinode

abbrev pub Itable : Type 0
Itable = ℕ → Inode

pub record InodeDisk (W : Type 0) : Type 0 where
  pub read_inode : (dev inum : ℕ) → W → Dinode
  pub itrunc : Inode → W → Dinode × W
  pub iupdate : Inode → W → W

unfoldable pub iinit : Itable → Itable
iinit zeroed i = record (zeroed i) { lock = initsleeplock }

abbrev pub in_use : Inode → Bool
in_use ip = ltb_ℤ (pos 0) ip.ref

abbrev pub is_unused : Inode → Bool
is_unused ip = eqb_ℤ ip.ref (pos 0)

abbrev pub is_inode : ℕ → ℕ → Inode → Bool
is_inode dev inum ip = in_use ip && ip.dev == dev && ip.inum == inum

pub data Scan : Type 0 where
  found : ℕ → Scan
  vacant : Option ℕ → Scan

abbrev pub is_some : Option ℕ → Bool
is_some none = false
is_some (some i) = true

-- The loop of `iget` over `left` entries from i on, with the first unused entry so far.
unfoldable pub iget_scan : ℕ → ℕ → Itable → (left i : ℕ) → Option ℕ → Scan
iget_scan dev inum t zero i empty = vacant empty
iget_scan dev inum t (suc left) i empty =
    let rest =
      iget_scan dev inum t left (suc i)
        (if not (is_some empty) && is_unused (t i) then some i else empty) in
    if is_inode dev inum (t i) then found i else rest

-- After the loop: the entry and the table; `none` is the panic.
unfoldable pub taken : ℕ → ℕ → Itable → Scan → Option (ℕ × Itable)
taken dev inum t (found i) = some (i, update t i (record (t i) { ref = inc_ℤ (t i).ref }))
taken dev inum t (vacant none) = none
taken dev inum t (vacant (some i)) =
    some (i, update t i (record (t i) { dev = dev; inum = inum; ref = pos 1; valid = false }))

unfoldable pub iget : ℕ → ℕ → Itable → Option (ℕ × Itable)
unfolding iget_scan taken
iget dev inum t = taken dev inum t (iget_scan dev inum t ninode 0 none)

unfoldable pub idup : ℕ → Itable → Itable
idup i t = update t i (record (t i) { ref = inc_ℤ (t i).ref })

module _ {W : Type 0} (disk : InodeDisk W) where
  -- A panic, a sleep on the inode's lock, or the result.
  pub data LockRound : Type 0 where
    panics : LockRound
    sleeps : LockRound
    locked : Itable → LockRound

  -- `ilock` with a null pointer panics as well: i stands for a pointer to an entry.
  unfoldable pub ilock : (me : ℕ) → ℕ → Itable → W → LockRound
  ilock me i t w =
      let loaded = disk.read_inode (t i).dev (t i).inum w in
      if not (in_use (t i)) then panics else elim (acquiresleep me (t i).lock) [
        | none ↦ sleeps
        | some held ↦
            if (t i).valid
            then locked (update t i (record (t i) { lock = held }))
            else if loaded.type == 0
            then panics
            else locked (update t i (record (t i) { lock = held; body = loaded; valid = true }))
      ]

  unfoldable pub iunlock : (me : ℕ) → ℕ → Itable → Option Itable
  iunlock me i t =
      if not (holdingsleep me (t i).lock) || not (in_use (t i))
      then none
      else some (update t i (record (t i) { lock = releasesleep (t i).lock }))

  abbrev pub typeless : Sleeplock → Dinode → Inode → Inode
  typeless held truncated ip = record ip { lock = held; body = record truncated { type = 0 } }

  -- An inode without links and other references: its content and then its type are removed.
  unfoldable pub free_inode : Sleeplock → ℕ → Itable → W → Itable × W
  free_inode held i t w =
      let (truncated, w₁) = disk.itrunc (record (t i) { lock = held }) w in
      let freed = typeless held truncated (t i) in
      (update t i (record freed { valid = false; lock = releasesleep held }), disk.iupdate freed w₁)

  abbrev pub drop_ref : ℕ → Itable → Itable
  drop_ref i t = update t i (record (t i) { ref = dec_ℤ (t i).ref })

  -- `none`: the call sleeps on the inode's lock. The two sections under `itable.lock`, with the inode
  -- freed under its own lock in between, are one step here: the only reference is the caller's and no
  -- directory names the inode, so that no other call is after the entry meanwhile.
  unfoldable pub iput : (me : ℕ) → ℕ → Itable → W → Option (Itable × W)
  unfolding free_inode
  iput me i t w =
      if eqb_ℤ (t i).ref (pos 1) && (t i).valid && (t i).body.nlink == 0
      then elim (acquiresleep me (t i).lock) [
        | none ↦ none
        | some held ↦ (let (t₁, w₁) = free_inode held i t w in some (drop_ref i t₁, w₁))
      ]
      else some (drop_ref i t, w)

  unfoldable pub iunlockput : (me : ℕ) → ℕ → Itable → W → Option (Itable × W)
  unfolding iunlock iput
  iunlockput me i t w = elim (iunlock me i t) [ none ↦ none | some t₁ ↦ iput me i t₁ w ]
