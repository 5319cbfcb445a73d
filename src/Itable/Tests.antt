-- ===== src/Itable/Tests.antt =====
-- The inode table on concrete tables.
use g14_os_project.Prelude.{ℕ, true, false, [], arith, suc}
use g14_os_project.Prelude.Int.{pos}
use g14_os_project.Prelude.Table.{update}
use g14_os_project.Sleeplock.{initsleeplock}
use g14_os_project.Itable.{Dinode, Itable, InodeDisk, iget}
use g14_os_project.Itable.Unique.{OneEntry, Apart}
use g14_os_project.Itable.Calls.{IgetOutcome, iget-IgetOutcome}

abbrev no_body : Dinode
no_body = record { type = 1; major = 0; minor = 0; nlink = 0; size = 0; addrs = [] }

abbrev empty_table : Itable
empty_table i = record {
  dev = 0;
  inum = 0;
  ref = pos 0;
  lock = initsleeplock;
  valid = false;
  body = no_body;
}

abbrev one_used : Itable
one_used =
    update empty_table 3 (record (empty_table 3) { dev = 1; inum = 7; ref = pos 1; valid = true })

empty_table-OneEntry : OneEntry empty_table
unfolding OneEntry Apart
empty_table-OneEntry i j lt_i lt_j ne used = absurd (ground arith)

-- The disk as the number of inodes written to it.
abbrev counting_disk : InodeDisk ℕ
counting_disk = record {
  read_inode = λ dev inum w. no_body;
  itrunc = λ ip w. (record ip.body { size = 0 }, w);
  iupdate = λ ip w. suc w;
}

iget-IgetOutcome_example : IgetOutcome 1 7 empty_table (iget 1 7 empty_table)
iget-IgetOutcome_example = iget-IgetOutcome 1 7 empty_table empty_table-OneEntry
