-- ===== src/Bcache/Locked.antt =====
-- kernel/bio.c: `bread` up to the return of a locked buffer.
use g14_os_project.Prelude.{
  ℕ, ◌+◌, ◌^◌, ◌<◌, ◌≡◌, refl, sym, ap, ◌∙◌, ◌≢◌, inl, inr, true, false, none, some, Option, ==_iff,
  arith, Bool-cases,
}
use g14_os_project.Prelude.Table.{update_self, update_ne}
use g14_os_project.Sleeplock.{acquiresleep, holdingsleep}
use g14_os_project.Bcache.{
  Buf, Bcache, nbuf, holds_block, bget, fill, Bread, panics, waits, locked, locking, bread, put_buf,
}
use g14_os_project.Bcache.Inv.{IsValid}
use g14_os_project.Bcache.Read.{latest, latest_at, Transparent, same_block}
use g14_os_project.Bcache.Calls.{
  References, Got, BgetOutcome, bget-BgetOutcome, Transparent-trans, fill-Transparent, fill_has,
}

module _ {B : Type 0} (disk : ℕ → ℕ → B) (me : ℕ) where
  -- The buffer with its lock taken.
  abbrev lock_buf : ℕ → Bcache B → Bcache B
  lock_buf i c = put_buf c i (record (c.buf i) { lock = record { locked = true; pid = me } })

  -- How `bread` ends: in the panic, asleep on the lock of the block's buffer, or with the lock of a
  -- buffer that has the block's latest content.
  abbrev pub BreadOutcome : Bcache B → (dev blockno : ℕ) → Bread B → Type 0
  BreadOutcome c dev blockno panics =
      (j : ℕ) → j < nbuf → (holds_block dev blockno (c.buf j) ≡ false) × (0 < (c.buf j).refcnt)
  BreadOutcome c dev blockno (waits c' i) =
      ((c'.buf i).lock.locked ≡ true) × Got disk c c' dev blockno i
  BreadOutcome c dev blockno (locked c' i) =
      (holdingsleep me (c'.buf i).lock ≡ true)
      × ((c'.buf i).content ≡ latest disk dev blockno c)
      × Transparent disk c c'
      × References disk c c' dev blockno i

  -- Only the buffer's lock and content have changed.
  References-same :
      (c d e : Bcache B) (dev blockno i : ℕ)
      → References disk c d dev blockno i
      → (e.buf i).refcnt ≡ (d.buf i).refcnt
      → ((j : ℕ) → j ≢ i → e.buf j ≡ d.buf j)
      → e.lru ≡ d.lru
      → References disk c e dev blockno i
  References-same c d e dev blockno i r count others order = record {
    counted = count ∙ r.counted;
    unused = r.unused;
    others = λ j ne. others j ne ∙ r.others j ne;
    order = order ∙ r.order;
  }

  -- `fill` keeps the references, the lock and the other buffers.
  filled_same :
      (c : Bcache B) (i : ℕ)
      → (((fill disk i c).buf i).refcnt ≡ (c.buf i).refcnt)
        × (((fill disk i c).buf i).lock ≡ (c.buf i).lock)
        × ((j : ℕ) → j ≢ i → (fill disk i c).buf j ≡ c.buf j)
        × ((fill disk i c).lru ≡ c.lru)
  unfolding fill
  filled_same c i = elim (Bool-cases (c.buf i).valid) [
    | inl valid ↦ rw valid (refl, refl, λ j ne. refl, refl)
    | inr not ↦
        let b : Buf B = record (c.buf i) {
          content = disk (c.buf i).dev (c.buf i).blockno;
          valid = true;
        } in
        let here = update_self c.buf i b in
        rw not (
          ap (λ (x : Buf B). x.refcnt) here,
          ap (λ (x : Buf B). x.lock) here,
          λ j ne. update_ne c.buf i j b ne,
          refl,
        )
  ]

  locked_lem :
      (c c' : Bcache B) (dev blockno i : ℕ)
      → dev ≢ 0
      → 0 < (c'.buf i).refcnt
      → Got disk c c' dev blockno i
      → BreadOutcome c dev blockno (locked (fill disk i (lock_buf i c')) i)
  unfolding holdingsleep
  locked_lem c c' dev blockno i ne counted g =
      let b : Buf B = record (c'.buf i) { lock = record { locked = true; pid = me } } in
      let d = lock_buf i c' in
      let here : d.buf i ≡ b = update_self c'.buf i b in
      let holds : holds_block dev blockno (d.buf i) ≡ true =
        ap (holds_block dev blockno) here ∙ g.holds in
      let locks : Transparent disk c' d =
        same_block disk c' i b c'.lru g.same.valid g.within (λ j. refl) refl refl refl refl
          (λ none_left. absurd (omega arith)) in
      let filled = Transparent-trans disk locks (fill-Transparent disk d i locks.valid g.within) in
      let whole = Transparent-trans disk g.same filled in
      let same = filled_same d i in
      (
        ap (holdingsleep me) (same.1 ∙ ap (λ (x : Buf B). x.lock) here) ∙ (==_iff me me).1 refl,
        sym (
              latest_at disk dev blockno (fill disk i d) i whole.valid ne g.within
                (fill_has disk d i dev blockno holds))
            ∙ whole.blocks dev blockno ne,
        whole,
        References-same c c' (fill disk i d) dev blockno i g.references
            (same.0 ∙ ap (λ (x : Buf B). x.refcnt) here)
            (λ j other. same.2 j other ∙ update_ne c'.buf i j b other) same.3,
      )

  -- In a valid cache whose counters are not at their limit, `bread` of a block of a device other than
  -- 0 panics only when the block is not cached and every buffer is in use. Otherwise it takes one
  -- reference more to the buffer that caches the block, or the first to an unused buffer, and leaves
  -- every other buffer and the order of the list; it sleeps if the buffer's lock is held, and else
  -- returns the buffer locked by the caller with the block's latest content (a cached one before the
  -- disk's). The cache stays valid, and no block's latest content changes, also not that of the block
  -- whose buffer was recycled.
  pub bread-BreadOutcome :
      (c : Bcache B) (dev blockno : ℕ)
      → IsValid disk c
      → dev ≢ 0
      → ((j : ℕ) → (c.buf j).refcnt + 1 < 2 ^ 32)
      → BreadOutcome c dev blockno (bread disk me dev blockno c)
  unfolding bread acquiresleep
  bread-BreadOutcome c dev blockno v ne few =
      go (bget dev blockno c) (bget-BgetOutcome disk c dev blockno v few)
    where
      go :
          (o : Option (Bcache B × ℕ))
          → BgetOutcome disk c dev blockno o
          → BreadOutcome c dev blockno (locking disk me o)
      go none h = h
      go (some (c', i)) g = elim (Bool-cases (c'.buf i).lock.locked) [
        | inl taken ↦ rw (locking, acquiresleep, taken) (taken, g)
        | inr free ↦
            rw (locking, acquiresleep, free)
              (locked_lem c c' dev blockno i ne (ground (arith, g.references.counted)) g)
      ]
