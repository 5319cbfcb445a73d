-- ===== src/Itable/Calls.antt =====
-- kernel/fs.c: what `iget` and `iput` do, and that they keep one entry for each inode.
use g14_os_project.Prelude.{
  ℕ, ◌<◌, ◌≡◌, ◌≢◌, refl, true, false, Option, none, some, arith, inl, inr,
}
use g14_os_project.Prelude.Int.{pos, inc_ℤ, dec_ℤ}
use g14_os_project.Prelude.Table.{update, update_self, update_ne}
use g14_os_project.Sleeplock.{Sleeplock}
use g14_os_project.Itable.{
  ninode, Inode, Itable, InodeDisk, in_use, is_unused, is_inode, Scan, iget_scan, iget, taken, idup,
  eqb_ℤ,
}
use g14_os_project.Itable.Get.{Scanned, hit, free, full, iget_scan-Scanned}
use g14_os_project.Itable.Unique.{Apart, OneEntry, OneEntry-update, OneEntry-keep, is_inode-parts}

-- What `iget` does: one reference more to the entry in use for the inode, an unused entry that is now
-- the inode's, or a panic when every entry is used by other inodes.
pub data IgetOutcome (dev inum : ℕ) (t : Itable) : Option (ℕ × Itable) → Type 0 where
  again :
      (k : ℕ) (t₁ : Itable)
      → k < ninode
      → is_inode dev inum (t k) ≡ true
      → t₁ k ≡ record (t k) { ref = inc_ℤ (t k).ref }
      → ((j : ℕ) → j ≢ k → t₁ j ≡ t j)
      → OneEntry t₁
      → IgetOutcome dev inum t (some (k, t₁))
  fresh :
      (k : ℕ) (t₁ : Itable)
      → k < ninode
      → is_unused (t k) ≡ true
      → ((j : ℕ) → j < ninode → is_inode dev inum (t j) ≡ false)
      → t₁ k ≡ record (t k) { dev = dev; inum = inum; ref = pos 1; valid = false }
      → ((j : ℕ) → j ≢ k → t₁ j ≡ t j)
      → OneEntry t₁
      → IgetOutcome dev inum t (some (k, t₁))
  no_inodes :
      ((j : ℕ) → j < ninode → is_unused (t j) ≡ false)
      → ((j : ℕ) → j < ninode → is_inode dev inum (t j) ≡ false)
      → IgetOutcome dev inum t none

Apart-is_inode :
    (dev inum : ℕ) (v u : Inode)
    → v.dev ≡ dev
    → v.inum ≡ inum
    → is_inode dev inum u ≡ false
    → Apart v u
unfolding Apart
Apart-is_inode dev inum v u d n other used_v used_u same_dev same_inum = absurd (ground arith)

module _ (dev inum : ℕ) (t : Itable) (inv : OneEntry t) where
  again_lem :
      (k : ℕ)
      → k < ninode
      → is_inode dev inum (t k) ≡ true
      → IgetOutcome dev inum t (some (k, update t k (record (t k) { ref = inc_ℤ (t k).ref })))
  again_lem k lt it_is =
      let v : Inode = record (t k) { ref = inc_ℤ (t k).ref } in
      again k (update t k v) lt it_is (update_self t k v) (λ j ne. update_ne t k j v ne)
        (OneEntry-keep t k v lt inv refl refl (λ used. (is_inode-parts dev inum (t k) it_is).0))

  fresh_lem :
      (k : ℕ)
      → k < ninode
      → is_unused (t k) ≡ true
      → ((j : ℕ) → j < ninode → is_inode dev inum (t j) ≡ false)
      → IgetOutcome dev inum t (
          some
            (k, update t k (record (t k) { dev = dev; inum = inum; ref = pos 1; valid = false })))
  fresh_lem k lt unused others =
      let v : Inode = record (t k) { dev = dev; inum = inum; ref = pos 1; valid = false } in
      fresh k (update t k v) lt unused others (update_self t k v) (λ j ne. update_ne t k j v ne)
        (OneEntry-update t k v inv
          (λ j lt_j ne. Apart-is_inode dev inum v (t j) refl refl (others j lt_j)))

  taken-IgetOutcome :
      (r : Scan) → Scanned dev inum t 0 ninode none r → IgetOutcome dev inum t (taken dev inum t r)
  unfolding taken
  taken-IgetOutcome r (hit k lt it_is) = again_lem k lt it_is
  taken-IgetOutcome r (free k why others) = elim why [
    | inl e ↦ absurd (ground arith)
    | inr (lt, unused) ↦ fresh_lem k lt unused (λ j lt_j. others j (omega arith) lt_j)
  ]
  taken-IgetOutcome r (full e used others) =
      no_inodes (λ j lt. used j (omega arith) lt) (λ j lt. others j (omega arith) lt)

  -- In a table where no inode has two entries in use, `iget` adds a reference to the inode's entry,
  -- which an unused entry becomes if there is none, or panics when all are used for others; every
  -- other entry stays, and again no inode has two entries in use.
  pub iget-IgetOutcome : IgetOutcome dev inum t (iget dev inum t)
  unfolding iget
  iget-IgetOutcome =
      taken-IgetOutcome (iget_scan dev inum t ninode 0 none)
        (iget_scan-Scanned dev inum t ninode 0 ninode none (omega arith))

-- A null reference count apart, the calls keep the inode of an entry.
pub idup-OneEntry :
    (t : Itable) (i : ℕ) → i < ninode → in_use (t i) ≡ true → OneEntry t → OneEntry (idup i t)
unfolding idup
idup-OneEntry t i lt used inv =
    OneEntry-keep t i (record (t i) { ref = inc_ℤ (t i).ref }) lt inv refl refl (λ u. used)

-- The last reference to an inode that no directory names.
pub record IsLast (ip : Inode) : Type 0 where
  one_reference : eqb_ℤ ip.ref (pos 1) ≡ true
  is_read : ip.valid ≡ true
  no_links : ip.body.nlink ≡ 0

-- What `iput` does. The last reference to an inode without links frees the inode, or sleeps on its
-- lock; any other reference is only dropped.
pub data IputOutcome {W : Type 0} (disk : InodeDisk W) (me i : ℕ) (t : Itable) (w : W)
    : Option (Itable × W) → Type 0 where
  sleeps : IsLast (t i) → (t i).lock.locked ≡ true → IputOutcome disk me i t w none
  kept :
      (t₁ : Itable)
      → ¬ IsLast (t i)
      → t₁ i ≡ record (t i) { ref = dec_ℤ (t i).ref }
      → ((j : ℕ) → j ≢ i → t₁ j ≡ t j)
      → OneEntry t₁
      → IputOutcome disk me i t w (some (t₁, w))
  -- With the inode locked, its content is removed, then its type; the entry is again unread.
  freed :
      (held : Sleeplock) (t₁ : Itable)
      → IsLast (t i)
      → (t i).lock.locked ≡ false
      → held ≡ record { locked = true; pid = me }
      → t₁ i ≡ (record (t i) {
        ref = dec_ℤ (t i).ref;
        valid = false;
        body = record (disk.itrunc (record (t i) { lock = held }) w).0 { type = 0 };
        lock = record { locked = false; pid = 0 };
      })
      → ((j : ℕ) → j ≢ i → t₁ j ≡ t j)
      → OneEntry t₁
      → IputOutcome disk me i t w (
          some (
            t₁,
            disk.iupdate
                (record (t i) {
                  lock = held;
                  body = record (disk.itrunc (record (t i) { lock = held }) w).0 { type = 0 };
                })
                (disk.itrunc (record (t i) { lock = held }) w).1,
          ))
