-- ===== src/Pipe/Tests.antt =====
-- Runs of the pipe, and the theorems at concrete pipes.
use g14_os_project.Prelude.{
  ℕ, ◌+◌, ◌≡◌, refl, Bool, true, false, Option, none, some, List, [], ◌∷◌, ◌++◌, replicate,
  length-replicate, ltb, if◌then◌else◌,
}
use g14_os_project.Prelude.Int.{pos}
use g14_os_project.Pipe.{
  Pipe, returned, fresh, put, pipewrite, piperead, write_loop, read_loop, is_full, is_empty,
  advance, oldest,
}
use g14_os_project.Pipe.Inv.{IsValid, fresh-IsValid}
use g14_os_project.Pipe.Ring.{contents}
use g14_os_project.Pipe.Write.{Outcome, pipewrite-Wrote}
use g14_os_project.Pipe.Read.{ReadOutcome, piperead-Took}
use g14_os_project.Pipe.Fifo.{Section, writes, reads, closes, run, sent, got, run_fifo}

abbrev empty : Pipe
empty = fresh (replicate 512 0)

empty-IsValid : IsValid empty
empty-IsValid = fresh-IsValid (replicate 512 0) (length-replicate {A = ℕ} 512 0)

-- A buffer of three bytes, with nothing mapped behind it.
abbrev three : ℕ → Option ℕ
three i = if ltb i 3 then some (i + 7) else none

abbrev alive : ℕ → Bool
alive i = false

abbrev mapped : ℕ → Bool
mapped i = true

abbrev script : List Section
script = writes 3 0 three alive ∷ reads mapped false (pos 2) ∷ closes true ∷ []

pipewrite_three : (pipewrite empty three alive (pos 5)).2 ≡ returned (pos 3)
unfolding pipewrite put fresh is_full
pipewrite_three = refl

script-got : got empty script ≡ 7 ∷ 8 ∷ []
unfolding got piperead write_loop read_loop put fresh is_full is_empty advance oldest
script-got = refl

pipewrite-Wrote_example : Outcome empty 5 0 three alive (pipewrite empty three alive (pos 5))
pipewrite-Wrote_example = pipewrite-Wrote three alive (pos 5) empty-IsValid

-- Three bytes are in the pipe; two are read.
abbrev filled : Pipe
filled = run empty (writes 3 0 three alive ∷ [])

filled-IsValid : IsValid filled
filled-IsValid = (run_fifo empty (writes 3 0 three alive ∷ []) empty-IsValid).0

piperead-Took_example :
    ReadOutcome mapped filled false (pos 2) (piperead filled mapped false (pos 2))
piperead-Took_example = piperead-Took mapped false (pos 2) filled-IsValid

run_fifo_example :
    IsValid (run empty script)
    × (contents empty ++ sent empty script ≡ got empty script ++ contents (run empty script))
run_fifo_example = run_fifo empty script empty-IsValid
