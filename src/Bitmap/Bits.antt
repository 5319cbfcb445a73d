-- ===== src/Bitmap/Bits.antt =====
-- kernel/fs.c: one bit of the free map changes, and no other.
use g14_os_project.Prelude.{
  ℕ, ◌+◌, ◌/◌, ◌%◌, ◌≡◌, refl, ap, ◌∙◌, Bool, true, false, ◌==◌, ==_iff, if◌then◌else◌, arith, inl,
  inr, Bool-cases,
}
use g14_os_project.Prelude.Bits.{test_bit}
use g14_os_project.Bitmap.{bpb, Superblock, Disk, bblock, put_byte}

differ : (f : ℕ → ℕ) (b c : ℕ) → (f b == f c) ≡ false → (b == c) ≡ false
differ f b c h = elim (Bool-cases (b == c)) [
  | inl same ↦ let moved : f b ≡ f c = ap f ((==_iff b c).0 same) in absurd (ground arith)
  | inr other ↦ other
]

same_place :
    (b c s : ℕ)
    → b / bpb + s ≡ c / bpb + s
    → b % bpb / 8 ≡ c % bpb / 8
    → b % bpb % 8 ≡ c % bpb % 8
    → b ≡ c
same_place b c s e f g = omega arith

module _ (sb : Superblock) where
  -- The bit of block b.
  unfoldable pub in_use : Disk → ℕ → Bool
  in_use d b = test_bit (d.block (bblock sb b) (b % bpb / 8)) (b % bpb % 8)

  -- A byte of the map is replaced by one that differs in the bit of block b.
  pub in_use-put_byte :
      (d : Disk) (b c v : ℕ) (on : Bool)
      → ((j : ℕ)
          → test_bit v j
            ≡ (if b % bpb % 8 == j then on else test_bit (d.block (bblock sb b) (b % bpb / 8)) j))
      → in_use (put_byte sb (bblock sb b) (b % bpb / 8) v d) c ≡ (if b == c then on else in_use d c)
  unfolding in_use
  in_use-put_byte d b c v on bits =
      let at_block : (bblock sb b == bblock sb c) ≡ true → bblock sb b ≡ bblock sb c =
        (==_iff (bblock sb b) (bblock sb c)).0 in
      let at_byte : (b % bpb / 8 == c % bpb / 8) ≡ true → b % bpb / 8 ≡ c % bpb / 8 =
        (==_iff (b % bpb / 8) (c % bpb / 8)).0 in
      elim (Bool-cases (bblock sb b == bblock sb c)) [
        | inr other_block ↦
            let other : (b == c) ≡ false = differ (bblock sb) b c other_block in
            rw (other_block, other) refl
        | inl same_block ↦ elim (Bool-cases (b % bpb / 8 == c % bpb / 8)) [
          | inr other_byte ↦
              let other : (b == c) ≡ false = differ (λ x. x % bpb / 8) b c other_byte in
              rw (same_block, other_byte, other)
                (ap (λ k. test_bit (d.block k (c % bpb / 8)) (c % bpb % 8)) (at_block same_block))
          | inl same_byte ↦
              rw (same_block, same_byte, bits (c % bpb % 8))
                (elim (Bool-cases (b % bpb % 8 == c % bpb % 8)) [
                  | inl same_bit ↦
                      let same : b ≡ c =
                        same_place b c sb.bmapstart (at_block same_block) (at_byte same_byte)
                          ((==_iff (b % bpb % 8) (c % bpb % 8)).0 same_bit) in
                      let hit : (b == c) ≡ true = ground arith in rw (same_bit, hit) refl
                  | inr other_bit ↦
                      let other = differ (λ x. x % bpb % 8) b c other_bit in
                      rw (other_bit, other)
                        (ap (λ k. test_bit (d.block k (b % bpb / 8)) (c % bpb % 8))
                            (at_block same_block)
                          ∙ ap (λ k. test_bit (d.block (bblock sb c) k) (c % bpb % 8))
                              (at_byte same_byte))
                ])
        ]
      ]
