-- ===== src/Bitmap/Alloc.antt =====
-- kernel/fs.c: `balloc` takes the first free block, zeroes it and logs what it changes; `bfree` gives
-- one back.
use g14_os_project.Prelude.{
  ℕ, zero, suc, ◌+◌, ◌-◌, ◌*◌, ◌/◌, ◌%◌, ◌≤◌, ◌<◌, ◌≡◌, refl, subst, true, false, Option, none,
  some, ◌==◌, ==_iff, arith, inl, inr, Bool-cases, ltb, ltb→lt,
}
use g14_os_project.Prelude.Bits.{test_bit, set_bit}
use g14_os_project.Bitmap.{
  bpb, Superblock, Disk, bblock, put_byte, find_bit, take_block, or_next, balloc_from, bzero,
  log_block,
}
use g14_os_project.Bitmap.Bits.{in_use}

module _ (sb : Superblock) (d : Disk) where
  in_use_offset :
      (q bi : ℕ)
      → bi < bpb
      → test_bit (d.block (bblock sb (q * bpb)) (bi / 8)) (bi % 8) ≡ in_use sb d (q * bpb + bi)
  unfolding in_use
  in_use_offset q bi lt =
      let same_block : q * bpb / bpb ≡ (q * bpb + bi) / bpb = omega arith in
      let same_bit : (q * bpb + bi) % bpb ≡ bi = omega arith in rw (same_block, same_bit) refl

  -- The first free block of those from bit bi on.
  data Found (b bi n : ℕ) : Option ℕ → Type 0 where
    spot :
        (k : ℕ)
        → bi ≤ k
        → k < n
        → b + k < sb.size
        → in_use sb d (b + k) ≡ false
        → ((j : ℕ) → bi ≤ j → j < k → in_use sb d (b + j) ≡ true)
        → Found b bi n (some k)
    all_used :
        ((j : ℕ) → bi ≤ j → j < n → b + j < sb.size → in_use sb d (b + j) ≡ true)
        → Found b bi n none

  find_bit-next :
      (b bi n : ℕ) (r : Option ℕ)
      → in_use sb d (b + bi) ≡ true
      → Found b (suc bi) n r
      → Found b bi n r
  find_bit-next b bi n r used (spot k le lt small free others) =
      spot k (omega arith) lt small free (λ j le_j lt_j. elim (Bool-cases (bi == j)) [
        | inl same ↦ rw (← (==_iff bi j).0 same) used
        | inr other ↦ others j (ground arith) lt_j
      ])
  find_bit-next b bi n r used (all_used others) = all_used (λ j le_j lt_j small.
      elim (Bool-cases (bi == j)) [
        | inl same ↦ rw (← (==_iff bi j).0 same) used
        | inr other ↦ others j (ground arith) lt_j small
      ])

  find_bit-Found :
      (q left bi : ℕ)
      → bi + left ≡ bpb
      → Found (q * bpb) bi bpb (find_bit sb (d.block (bblock sb (q * bpb))) (q * bpb) left bi)
  unfolding find_bit
  find_bit-Found q zero bi e = all_used (λ j le lt small. absurd (omega arith))
  find_bit-Found q (suc left) bi e = elim (Bool-cases (ltb (q * bpb + bi) sb.size)) [
    | inr outside ↦ rw (find_bit, outside) (all_used (λ j le lt small. absurd (ground arith)))
    | inl inside ↦ elim (Bool-cases (in_use sb d (q * bpb + bi))) [
      | inl used ↦
          rw (find_bit, inside, in_use_offset q bi (omega arith), used)
            (find_bit-next (q * bpb) bi bpb
              (find_bit sb (d.block (bblock sb (q * bpb))) (q * bpb) left (suc bi)) used
              (find_bit-Found q left (suc bi) (omega arith)))
      | inr free ↦
          rw (find_bit, inside, in_use_offset q bi (omega arith), free)
            (spot bi (omega arith) (omega arith) (ltb→lt (q * bpb + bi) sb.size inside) free
              (λ j le lt. absurd (omega arith)))
    ]
  ]

  -- The disk with block n marked and zeroed.
  abbrev pub taken_disk : ℕ → Disk
  taken_disk n =
      let at = bblock sb n in
      bzero n (
        log_block at
          (put_byte sb at (n % bpb / 8) (set_bit (d.block at (n % bpb / 8)) (n % bpb % 8)) d))

  take_block-taken_disk :
      (q bi : ℕ)
      → bi < bpb
      → take_block sb (q * bpb) bi d ≡ (q * bpb + bi, taken_disk (q * bpb + bi))
  unfolding take_block
  take_block-taken_disk q bi lt =
      let same_block : q * bpb / bpb ≡ (q * bpb + bi) / bpb = omega arith in
      let same_bit : (q * bpb + bi) % bpb ≡ bi = omega arith in rw (same_block, same_bit) refl

  pub data FirstFree (lo : ℕ) : Option (ℕ × Disk) → Type 0 where
    first :
        (n : ℕ)
        → lo ≤ n
        → n < sb.size
        → in_use sb d n ≡ false
        → ((j : ℕ) → lo ≤ j → j < n → in_use sb d j ≡ true)
        → FirstFree lo (some (n, taken_disk n))
    none_free : ((j : ℕ) → lo ≤ j → j < sb.size → in_use sb d j ≡ true) → FirstFree lo none

  in_use-at : (lo j : ℕ) → lo ≤ j → in_use sb d (lo + (j - lo)) ≡ true → in_use sb d j ≡ true
  in_use-at lo j le used =
      let back : lo + (j - lo) ≡ j = omega arith in subst (λ k. in_use sb d k ≡ true) back used

  FirstFree-later :
      (q : ℕ) (r : Option (ℕ × Disk))
      → ((j : ℕ) → 0 ≤ j → j < bpb → q * bpb + j < sb.size → in_use sb d (q * bpb + j) ≡ true)
      → FirstFree (suc q * bpb) r
      → FirstFree (q * bpb) r
  FirstFree-later q r used (first n le lt free others) =
      first n (omega arith) lt free (λ j le_j lt_j. elim (Bool-cases (ltb j (q * bpb + bpb))) [
        | inl near ↦
            in_use-at (q * bpb) j le_j
              (used (j - q * bpb) (omega arith) (ground arith) (omega arith))
        | inr far ↦ others j (ground arith) lt_j
      ])
  FirstFree-later q r used (none_free others) = none_free (λ j le_j lt_j.
      elim (Bool-cases (ltb j (q * bpb + bpb))) [
        | inl near ↦
            in_use-at (q * bpb) j le_j
              (used (j - q * bpb) (omega arith) (ground arith) (omega arith))
        | inr far ↦ others j (ground arith) lt_j
      ])

  or_next-FirstFree :
      (q : ℕ) (rest : Option (ℕ × Disk)) (r : Option ℕ)
      → FirstFree (suc q * bpb) rest
      → Found (q * bpb) 0 bpb r
      → FirstFree (q * bpb) (or_next sb (q * bpb) d rest r)
  or_next-FirstFree q rest r later (all_used used) = FirstFree-later q rest used later
  or_next-FirstFree q rest r later (spot k le lt small free used) =
      rw (take_block-taken_disk q k lt) (
        first (q * bpb + k) (omega arith) small free (λ j le_j lt_j.
          in_use-at (q * bpb) j le_j (used (j - q * bpb) (omega arith) (omega arith))))

  pub balloc_from-FirstFree :
      (fuel q : ℕ)
      → sb.size < (q + fuel) * bpb
      → FirstFree (q * bpb) (balloc_from sb fuel (q * bpb) d)
  unfolding balloc_from
  balloc_from-FirstFree zero q enough = none_free (λ j le lt. absurd (omega arith))
  balloc_from-FirstFree (suc fuel) q enough =
      let next : q * bpb + bpb ≡ suc q * bpb = omega arith in
      elim (Bool-cases (ltb (q * bpb) sb.size)) [
        | inr outside ↦ rw (balloc_from, outside) (none_free (λ j le lt. absurd (ground arith)))
        | inl inside ↦
            rw (balloc_from, inside, next)
              (or_next-FirstFree q (balloc_from sb fuel (suc q * bpb) d)
                (find_bit sb (d.block (bblock sb (q * bpb))) (q * bpb) bpb 0)
                (balloc_from-FirstFree fuel (suc q) (omega arith))
                (find_bit-Found q bpb 0 (omega arith)))
      ]
