-- ===== src/Bcache/Calls.antt =====
-- The calls of the buffer cache keep it valid and transparent.
use g14_os_project.Prelude.{
  ℕ, ◌+◌, ◌^◌, ◌<◌, ◌≡◌, refl, ◌∙◌, ◌≢◌, inl, inr, Bool, true, false, none, some, Option, ◌∷◌, ◌==◌,
  arith, Bool-cases, Option-cases, if◌then◌else◌,
}
use g14_os_project.Prelude.Table.{update_self, update_ne}
use g14_os_project.Sleeplock.{holdingsleep}
use g14_os_project.Bcache.{
  Buf, Bcache, nbuf, holds_block, is_unused, unlink, backward, scan, put_buf, more_refs, fewer_refs,
  recycled, bget, fill, released, brelse, bpin, bunpin,
}
use g14_os_project.Bcache.Inv.{
  occurs, occurs-unlink, occurs-backward, scan-some, scan-none, IsValid, put_buf-IsValid,
}
use g14_os_project.Bcache.Read.{
  has_block, in_range, listed, Transparent, Transparent-put_buf, same_block, recycle,
}

module _ {B : Type 0} (disk : ℕ → ℕ → B) where
  Transparent-refl : (c : Bcache B) → IsValid disk c → Transparent disk c c
  Transparent-refl c v = record { valid = v; blocks = λ dev blockno ne. refl }

  pub Transparent-trans :
      {c d e : Bcache B} → Transparent disk c d → Transparent disk d e → Transparent disk c e
  Transparent-trans s t = record {
    valid = t.valid;
    blocks = λ dev blockno ne. t.blocks dev blockno ne ∙ s.blocks dev blockno ne;
  }

  -- A buffer that is not valid takes the block's content from the disk.
  pub fill-Transparent :
      (c : Bcache B) (i : ℕ) → IsValid disk c → i < nbuf → Transparent disk c (fill disk i c)
  unfolding fill
  fill-Transparent c i v lt = elim (Bool-cases (c.buf i).valid) [
    | inl valid ↦ rw valid (Transparent-refl c v)
    | inr not ↦
        let b : Buf B = record (c.buf i) {
          content = disk (c.buf i).dev (c.buf i).blockno;
          valid = true;
        } in
        rw not (
          Transparent-put_buf disk c i b c.lru v lt
            (put_buf-IsValid disk c i b c.lru v (λ j. refl)
              (λ j lj apart ne dev block. v.unique i j lt lj ne dev block) (λ unused valid. refl))
            (λ d n. rw not (elim (Bool-cases (holds_block d n (c.buf i))) [
              | inl holds ↦
                  (let at_dev : (c.buf i).dev ≡ d = ground (arith, holds) in
                    let at_block : (c.buf i).blockno ≡ n = ground (arith, holds) in
                    rw (holds, at_dev, at_block) refl)
              | inr other ↦ rw other refl
            ])))
  ]

  pub fill_has :
      (c : Bcache B) (i dev blockno : ℕ)
      → holds_block dev blockno (c.buf i) ≡ true
      → has_block disk dev blockno ((fill disk i c).buf i) ≡ true
  unfolding fill
  fill_has c i dev blockno holds = elim (Bool-cases (c.buf i).valid) [
    | inl valid ↦ rw (valid, holds, valid) refl
    | inr not ↦ (let here : (i == i) ≡ true = ground arith in rw (not, here, holds) refl)
  ]

  -- One reference more to a buffer that had the block, or the first to an unused one; every other
  -- buffer and the order of the list stay.
  pub record References (c c' : Bcache B) (dev blockno i : ℕ) : Type 0 where
    pub counted :
        (c'.buf i).refcnt ≡ (if holds_block dev blockno (c.buf i) then (c.buf i).refcnt + 1 else 1)
    pub unused : holds_block dev blockno (c.buf i) ≡ false → (c.buf i).refcnt ≡ 0
    pub others : (j : ℕ) → j ≢ i → c'.buf j ≡ c.buf j
    pub order : c'.lru ≡ c.lru

  -- A buffer for the block, and nothing changed but the references.
  pub record Got (c c' : Bcache B) (dev blockno i : ℕ) : Type 0 where
    pub within : i < nbuf
    pub holds : holds_block dev blockno (c'.buf i) ≡ true
    pub same : Transparent disk c c'
    pub references : References c c' dev blockno i

  -- `none` stands for the panic.
  abbrev pub BgetOutcome : Bcache B → (dev blockno : ℕ) → Option (Bcache B × ℕ) → Type 0
  BgetOutcome c dev blockno none =
      (j : ℕ) → j < nbuf → (holds_block dev blockno (c.buf j) ≡ false) × (0 < (c.buf j).refcnt)
  BgetOutcome c dev blockno (some (c', i)) = Got c c' dev blockno i

  Got-cached :
      (c : Bcache B) (dev blockno i : ℕ)
      → IsValid disk c
      → (c.buf i).refcnt + 1 < 2 ^ 32
      → scan (holds_block dev blockno) c.buf c.lru ≡ some i
      → Got c (put_buf c i (more_refs (c.buf i))) dev blockno i
  Got-cached c dev blockno i v few e =
      let found = scan-some (holds_block dev blockno) c.buf c.lru i e in
      let lt = in_range disk dev blockno c i v found.1 in
      record {
        within = lt;
        holds = rw (update_self c.buf i (more_refs (c.buf i))) found.0;
        same =
            same_block disk c i (more_refs (c.buf i)) c.lru v lt (λ j. refl) refl refl refl refl
              (λ none_left valid. absurd (omega arith));
        references = record {
          counted = rw (update_self c.buf i (more_refs (c.buf i)), found.0) (omega arith);
          unused = λ other. cc (found.0, other);
          others = λ j ne. update_ne c.buf i j (more_refs (c.buf i)) ne;
          order = refl;
        };
      }

  Got-recycled :
      (c : Bcache B) (dev blockno i : ℕ)
      → IsValid disk c
      → scan (holds_block dev blockno) c.buf c.lru ≡ none
      → scan is_unused c.buf (backward c.lru) ≡ some i
      → Got c (put_buf c i (recycled dev blockno (c.buf i))) dev blockno i
  Got-recycled c dev blockno i v absent e =
      let found = scan-some is_unused c.buf (backward c.lru) i e in
      let lt = in_range disk dev blockno c i v (omega (arith, found.1, occurs-backward i c.lru)) in
      let other : holds_block dev blockno (c.buf i) ≡ false =
        scan-none (holds_block dev blockno) c.buf c.lru i absent
          (listed disk dev blockno c i v lt) in
      record {
        within = lt;
        holds = rw (update_self c.buf i (recycled dev blockno (c.buf i))) (ground arith);
        same = recycle disk c i dev blockno v lt (ground (arith, found.0)) (λ j lj.
            scan-none (holds_block dev blockno) c.buf c.lru j absent
              (listed disk dev blockno c j v lj));
        references = record {
          counted = rw (update_self c.buf i (recycled dev blockno (c.buf i)), other) refl;
          unused = λ e. ground (arith, found.0);
          others = λ j ne. update_ne c.buf i j (recycled dev blockno (c.buf i)) ne;
          order = refl;
        };
      }

  pub bget-BgetOutcome :
      (c : Bcache B) (dev blockno : ℕ)
      → IsValid disk c
      → ((j : ℕ) → (c.buf j).refcnt + 1 < 2 ^ 32)
      → BgetOutcome c dev blockno (bget dev blockno c)
  unfolding bget
  bget-BgetOutcome c dev blockno v few =
      elim (Option-cases (scan (holds_block dev blockno) c.buf c.lru)) [
        | inr (i, e) ↦ rw (e, bget) (Got-cached c dev blockno i v (few i) e)
        | inl absent ↦ elim (Option-cases (scan is_unused c.buf (backward c.lru))) [
          | inr (i, e) ↦ rw (absent, e, bget) (Got-recycled c dev blockno i v absent e)
          | inl busy ↦
              rw (absent, busy, bget)
                (λ j lj. (
                  scan-none (holds_block dev blockno) c.buf c.lru j absent
                      (listed disk dev blockno c j v lj),
                  ground (
                    arith,
                    scan-none is_unused c.buf (backward c.lru) j busy
                        (omega (arith, listed disk dev blockno c j v lj, occurs-backward j c.lru)),
                  ),
                ))
        ]
      ]

  -- A buffer at the head of the list, taken from where it was.
  to_front :
      (c : Bcache B) (i j : ℕ) (front : Bool)
      → IsValid disk c
      → i < nbuf
      → occurs j (if front then i ∷ unlink i c.lru else c.lru) ≡ occurs j c.lru
  to_front c i j front v lt = ground (arith, occurs-unlink j i c.lru, v.once i)

  -- `brelse` by the holder of the lock of a buffer with references, which is on the disk if this was
  -- the last one, `bpin`, and `bunpin` under the same condition keep the cache valid and change no
  -- block's latest content.
  pub brelse-Transparent :
      (c : Bcache B) (me i : ℕ)
      → IsValid disk c
      → i < nbuf
      → holdingsleep me (c.buf i).lock ≡ true
      → 0 < (c.buf i).refcnt
      → (c.buf i).refcnt + 1 < 2 ^ 32
      → ((c.buf i).refcnt ≡ 1
          → (c.buf i).valid ≡ true
          → (c.buf i).content ≡ disk (c.buf i).dev (c.buf i).blockno)
      → ((c' : Bcache B) × (brelse me i c ≡ some c') × Transparent disk c c')
        × Transparent disk c (bpin i c)
        × Transparent disk c (bunpin i c)
  unfolding brelse bpin bunpin
  brelse-Transparent c me i v lt holds pos few clean =
      let last : (released (c.buf i)).refcnt ≡ 0 → (c.buf i).refcnt ≡ 1 = λ e. omega arith in
      let order = if is_unused (released (c.buf i)) then i ∷ unlink i c.lru else c.lru in
      (
        (
          record (put_buf c i (released (c.buf i))) { lru = order },
          (rw holds refl),
          same_block disk c i (released (c.buf i)) order v lt
              (λ j. to_front c i j (is_unused (released (c.buf i))) v lt) refl refl refl refl
              (λ none_left valid. clean (last none_left) valid),
        ),
        same_block disk c i (more_refs (c.buf i)) c.lru v lt (λ j. refl) refl refl refl refl
            (λ none_left valid. absurd (omega arith)),
        same_block disk c i (fewer_refs (c.buf i)) c.lru v lt (λ j. refl) refl refl refl refl
            (λ none_left valid. clean (last none_left) valid),
      )
