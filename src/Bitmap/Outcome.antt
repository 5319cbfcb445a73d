-- ===== src/Bitmap/Outcome.antt =====
-- kernel/fs.c: what `balloc` and `bfree` do to the free map, to the blocks and to the transaction.
use g14_os_project.Prelude.{
  ℕ, suc, ◌/◌, ◌%◌, ◌<◌, ◌≡◌, ◌≢◌, refl, sym, ap, ◌∙◌, true, false, Option, none, some, ◌∷◌, ◌==◌,
  if◌then◌else◌, arith,
}
use g14_os_project.Prelude.Bits.{test_bit, set_bit, clear_bit, test_bit-set_bit, test_bit-clear_bit}
use g14_os_project.Prelude.Table.{update, update_self, update_ne}
use g14_os_project.Bitmap.{
  bpb, Superblock, Disk, bblock, put_byte, balloc_from, or_zero, balloc, bfree, bzero, log_block,
}
use g14_os_project.Bitmap.Bits.{in_use, in_use-put_byte}
use g14_os_project.Bitmap.Alloc.{taken_disk, FirstFree, first, none_free, balloc_from-FirstFree}

module _ (sb : Superblock) where
  -- The blocks of the map are in use.
  pub record MapInUse (d : Disk) : Type 0 where
    pub apart : (n c : ℕ) → n < sb.size → c < sb.size → in_use sb d n ≡ false → n ≢ bblock sb c

  -- What `balloc` does: 0 when every block is in use, or the first free block, which is then in use
  -- and all 0; no other bit and no other block changes, and what changes is logged.
  pub data BallocOutcome (d : Disk) : ℕ × Disk → Type 0 where
    disk_full : ((c : ℕ) → c < sb.size → in_use sb d c ≡ true) → BallocOutcome d (0, d)
    allocated :
        (n : ℕ) (d₁ : Disk)
        → n < sb.size
        → in_use sb d n ≡ false
        → ((c : ℕ) → c < n → in_use sb d c ≡ true)
        → ((c : ℕ) → c < sb.size → in_use sb d₁ c ≡ (if n == c then true else in_use sb d c))
        → ((i : ℕ) → d₁.block n i ≡ 0)
        → ((k : ℕ) → k ≢ n → k ≢ bblock sb n → d₁.block k ≡ d.block k)
        → d₁.logged ≡ n ∷ bblock sb n ∷ d.logged
        → BallocOutcome d (n, d₁)

  in_use-bzero : (d : Disk) (n c : ℕ) → n ≢ bblock sb c → in_use sb (bzero n d) c ≡ in_use sb d c
  unfolding in_use bzero
  in_use-bzero d n c ne =
      ap (λ (data_of : ℕ → ℕ). test_bit (data_of (c % bpb / 8)) (c % bpb % 8))
        (update_ne d.block n (bblock sb c) (λ i. 0) (λ e. ne (sym e)))

  allocated_lem :
      (d : Disk) (n : ℕ)
      → MapInUse d
      → n < sb.size
      → in_use sb d n ≡ false
      → ((c : ℕ) → c < n → in_use sb d c ≡ true)
      → BallocOutcome d (n, taken_disk sb d n)
  unfolding bzero in_use
  allocated_lem d n inv lt free before =
      let at = bblock sb n in
      let old = d.block at (n % bpb / 8) in
      let marked = put_byte sb at (n % bpb / 8) (set_bit old (n % bpb % 8)) d in
      allocated n (taken_disk sb d n) lt free before
        (λ c lt_c.
          in_use-bzero (log_block at marked) n c (inv.apart n c lt lt_c free)
          ∙ in_use-put_byte sb d n c (set_bit old (n % bpb % 8)) true
              (test_bit-set_bit old (n % bpb % 8)))
        (λ i. ap (λ (data_of : ℕ → ℕ). data_of i) (update_self marked.block n (λ i. 0)))
        (λ k ne ne_map.
          update_ne marked.block n k (λ i. 0) ne
          ∙ update_ne d.block at k (update (d.block at) (n % bpb / 8) (set_bit old (n % bpb % 8)))
              ne_map)
        refl

  or_zero-BallocOutcome :
      (d : Disk) (r : Option (ℕ × Disk))
      → MapInUse d
      → FirstFree sb d 0 r
      → BallocOutcome d (or_zero sb d r)
  or_zero-BallocOutcome d r inv (first n le lt free before) =
      allocated_lem d n inv lt free (λ c lt_c. before c (omega arith) lt_c)
  or_zero-BallocOutcome d r inv (none_free used) = disk_full (λ c lt. used c (omega arith) lt)

  -- When the map's own blocks are in use, `balloc` gives the first free block, marked, zeroed and
  -- logged with its block of the map, and changes nothing else; or 0 when every block is in use.
  pub balloc-BallocOutcome : (d : Disk) → MapInUse d → BallocOutcome d (balloc sb d)
  unfolding balloc
  balloc-BallocOutcome d inv =
      or_zero-BallocOutcome d (balloc_from sb (suc (sb.size / bpb)) 0 d) inv
        (balloc_from-FirstFree sb d (suc (sb.size / bpb)) 0 (omega arith))

  -- `bfree` of a block in use frees it and no other block, and logs the block of the map; of a free
  -- block it panics.
  pub bfree-in_use :
      (d : Disk) (b : ℕ)
      → (in_use sb d b ≡ false → bfree sb b d ≡ none)
        × (in_use sb d b ≡ true
            → (d₁ : Disk) × (bfree sb b d ≡ some d₁)
              × ((c : ℕ) → in_use sb d₁ c ≡ (if b == c then false else in_use sb d c))
              × (d₁.logged ≡ bblock sb b ∷ d.logged))
  unfolding bfree in_use
  bfree-in_use d b =
      let at = bblock sb b in
      let old = d.block at (b % bpb / 8) in
      (
        λ free. rw free refl,
        λ used. (
          log_block at (put_byte sb at (b % bpb / 8) (clear_bit old (b % bpb % 8)) d),
          rw used refl,
          λ c.
              in_use-put_byte sb d b c (clear_bit old (b % bpb % 8)) false
                (test_bit-clear_bit old (b % bpb % 8)),
          refl,
        ),
      )
