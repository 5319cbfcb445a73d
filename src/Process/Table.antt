-- ===== src/Process/Table.antt =====
-- Access to the table: one entry, and searches as the `for` loops of proc.c make them.
use g14_os_project.Prelude.{ℕ, Bool, false, ◌&&◌, not, Option, none, some, ◌==◌}
use g14_os_project.Prelude.Table.{update, find_from}
use g14_os_project.Process.{Proc, Kernel, nproc, is_unused, is_zombie}

abbrev pub has_parent : ℕ → Proc → Bool
has_parent i p = elim p.parent [ none ↦ false | some q ↦ q == i ]

-- A process that has not exited.
abbrev pub is_live : Proc → Bool
is_live p = not (is_unused p.state) && not (is_zombie p.state)

abbrev pub live_child_of : ℕ → Proc → Bool
live_child_of i p = has_parent i p && is_live p

module _ {W : Type 0} where
  abbrev pub put_proc : Kernel W → ℕ → Proc → Kernel W
  put_proc k i p = record k { procs = update k.procs i p }

  -- The first entry that passes the test.
  abbrev pub find_proc : Kernel W → (Proc → Bool) → Option ℕ
  find_proc k test = find_from test k.procs nproc 0
