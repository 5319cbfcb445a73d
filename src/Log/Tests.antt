-- ===== src/Log/Tests.antt =====
-- Commits of the log, and the theorems at concrete disks.
use g14_os_project.Prelude.{ℕ, ◌+◌, ◌≡◌, refl, List, [], ◌∷◌}
use g14_os_project.Log.{
  Disk, write_slot, write_head, write_home, apply, run_writes, write_log, install_trans, commit,
  recover_from_log, recovered,
}
use g14_os_project.Log.Writes.{Crashed, stopped, wrote, with_blocks}
use g14_os_project.Log.Crash.{Atomic, commit_crash, commit-with_blocks, recovery_crash}

abbrev clean : Disk ℕ
clean = record { header = []; slots = λ i. 0; home = λ n. n }

abbrev cached : ℕ → ℕ
cached n = n + 100

abbrev blocks : List ℕ
blocks = 3 ∷ 5 ∷ []

-- After the header and the first home block.
abbrev torn : Disk ℕ
torn =
    apply (write_home 3 103)
      (apply (write_head blocks) (apply (write_slot 1 105) (apply (write_slot 0 103) clean)))

torn-Crashed : Crashed (commit cached blocks clean) clean torn
unfolding commit write_log install_trans run_writes apply
torn-Crashed = wrote (wrote (wrote (wrote stopped)))

torn-recovered : (recovered torn).home 5 ≡ 105
unfolding recovered recover_from_log install_trans run_writes apply
torn-recovered = refl

commit_crash_example : ((recovered torn).header ≡ []) × Atomic cached blocks clean torn
commit_crash_example = commit_crash cached blocks clean torn refl torn-Crashed

commit-with_blocks_example :
    ((run_writes (commit cached blocks clean) clean).header ≡ [])
    × ((n : ℕ)
        → (run_writes (commit cached blocks clean) clean).home n
          ≡ with_blocks cached blocks clean.home n)
commit-with_blocks_example = commit-with_blocks cached blocks clean refl

-- A committed transaction that waits for recovery, and the disk after its first write.
abbrev waiting : Disk ℕ
waiting = record { header = blocks; slots = λ i. 103 + i + i; home = λ n. n }

abbrev started : Disk ℕ
started = apply (write_home 3 103) waiting

started-Crashed : Crashed (recover_from_log waiting) waiting started
unfolding recover_from_log install_trans apply
started-Crashed = wrote stopped

recovery_crash_example : (recovered started).home 5 ≡ (recovered waiting).home 5
recovery_crash_example =
    recovery_crash cached waiting started (refl, (refl, refl)) started-Crashed 5
