-- ===== src/Spinlock/Tests.antt =====
-- Locks at a concrete CPU.
use g14_os_project.Prelude.{◌≡◌, refl, true, false, some, arith}
use g14_os_project.Spinlock.{
  Cpu, Spinlock, initlock, holding, spins, got, acquire, release, push_off,
}
use g14_os_project.Spinlock.Nesting.{IsNested, SameDepth, acquire-release}

-- Outside all sections, with interrupts on.
abbrev idle : Cpu
idle = record { noff = 0; intena = false; intr = true }

idle-IsNested : IsNested idle
idle-IsNested = record { off = λ pos. absurd (omega arith) }

-- A lock that CPU 1 holds makes CPU 2 spin.
acquire_held : acquire 2 idle (record { locked = true; cpu = some 1 }) ≡ spins (push_off idle)
unfolding acquire holding
acquire_held = refl

acquire-release_example :
    (held : Cpu) × (taken : Spinlock) × (c' : Cpu) × (free : Spinlock) × (acquire 2 idle initlock
      ≡ got held taken)
    × (holding 2 taken ≡ true)
    × (held.intr ≡ false)
    × (release 2 held taken ≡ some (c', free))
    × (free.locked ≡ false)
    × SameDepth idle c'
acquire-release_example = acquire-release 2 idle initlock idle-IsNested refl
