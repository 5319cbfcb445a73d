-- ===== src/Process/Children.antt =====
-- What `kgetchildren` replies, by the children that the table holds.
use g14_os_project.Prelude.{ℕ, some, ◌<◌, ◌≡◌, ◌≢◌, true, false, List, length, get_elem?, min}
use g14_os_project.Prelude.Int.{ℤ, pos, minus_one}
use g14_os_project.Prelude.Table.{count_below}
use g14_os_project.Process.{Kernel, Services, nproc}
use g14_os_project.Process.Table.{live_child_of}
use g14_os_project.Process.Query.{words_bytes}
use g14_os_project.Process.Inv.{children}

module _ {W : Type 0} (sv : Services W) (self addr : ℕ) (k : Kernel W) where
  -- The reply to a request for `maxn` pids: how many living children there are, and -1 only when the
  -- copy of the bytes to the buffer fails.
  pub data Answer (bytes : List ℕ) : Kernel W × ℤ → Type 0 where
    no_buffer : addr ≡ 0 → Answer bytes (k, pos (children self k.procs))
    copied :
        (w : W)
        → addr ≢ 0
        → sv.copyout k.world (k.procs self).pagetable addr bytes ≡ (w, true)
        → Answer bytes (record k { world = w }, pos (children self k.procs))
    refused :
        (w : W)
        → addr ≢ 0
        → sv.copyout k.world (k.procs self).pagetable addr bytes ≡ (w, false)
        → Answer bytes (record k { world = w }, minus_one)

  -- The pids that are copied: as many as there are living children, `maxn` at most; the pid of each
  -- stands behind those of the living children before it in the table.
  pub record Listed (maxn : ℕ) (result : Kernel W × ℤ) : Type 0 where
    pub pids : List ℕ
    pub number : length pids ≡ min maxn (children self k.procs)
    pub in_order :
        (i : ℕ)
        → i < nproc
        → live_child_of self (k.procs i) ≡ true
        → count_below (live_child_of self) k.procs i < maxn
        → get_elem? pids (count_below (live_child_of self) k.procs i) ≡ some (k.procs i).pid
    pub answer : Answer (words_bytes pids) result
