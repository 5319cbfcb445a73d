-- ===== src/Bitmap/Tests.antt =====
-- The free map on a small disk.
use g14_os_project.Prelude.{◌≡◌, refl, sym, subst, true, [], arith}
use g14_os_project.Prelude.Bits.{test_bit}
use g14_os_project.Prelude.Table.{update}
use g14_os_project.Bitmap.{Superblock, Disk, balloc, balloc_from, find_bit, take_block}
use g14_os_project.Bitmap.Bits.{in_use}
use g14_os_project.Bitmap.Outcome.{MapInUse, BallocOutcome, balloc-BallocOutcome}

-- 20 blocks; block 3 is the map, and blocks 0 to 3 are in use.
abbrev small : Superblock
small = record {
  magic = 270544960;
  size = 20;
  nblocks = 16;
  ninodes = 8;
  nlog = 1;
  logstart = 1;
  inodestart = 2;
  bmapstart = 3;
}

abbrev four_used : Disk
four_used = record { block = update (λ k i. 9) 3 (update (λ i. 0) 0 15); logged = [] }

balloc_four : (balloc small four_used).0 ≡ 4
unfolding balloc balloc_from find_bit take_block test_bit
balloc_four = refl

map_used : in_use small four_used 3 ≡ true
unfolding in_use test_bit
map_used = refl

four_used-MapInUse : MapInUse small four_used
four_used-MapInUse = record {
  apart = λ n c lt lt_c free e.
      let three : n ≡ 3 = omega arith in
      let used : in_use small four_used n ≡ true =
        subst (λ k. in_use small four_used k ≡ true) (sym three) map_used in
      absurd (ground arith);
}

balloc-BallocOutcome_example : BallocOutcome small four_used (balloc small four_used)
balloc-BallocOutcome_example = balloc-BallocOutcome small four_used four_used-MapInUse
