-- ===== src/Pipe/Fifo.antt =====
-- Any interleaving of the sections of writers and readers is a queue of bytes.
use g14_os_project.Prelude.{
  ℕ, zero, suc, ◌≡◌, refl, sym, ap, ◌∙◌, inl, inr, Bool, true, false, Option, none, some, List, [],
  ◌∷◌, ◌++◌, append-nil, append_assoc, arith, length, sub32,
}
use g14_os_project.Prelude.Int.{ℤ}
use g14_os_project.Pipe.{Pipe, Stop, returned, asleep, pipeclose, write_loop, piperead}
use g14_os_project.Pipe.Inv.{IsValid}
use g14_os_project.Pipe.Ring.{contents}
use g14_os_project.Pipe.Write.{Sourced, write_loop-Wrote}
use g14_os_project.Pipe.Read.{ReadOutcome, piperead-Took}

-- What one thread does while it holds `pi->lock`.
pub data Section : Type 0 where
  -- `pipewrite` from index `i` with `k` bytes left: the start of a call, or its wakeup
  writes : (k i : ℕ) (src : ℕ → Option ℕ) (killed : ℕ → Bool) → Section
  -- `piperead`: the start of a call, or its wakeup
  reads : (dst : ℕ → Bool) (killed : Bool) (n : ℤ) → Section
  closes : (writable : Bool) → Section

-- The caller's bytes from index `i` on, `n` of them.
abbrev pub slice : (ℕ → Option ℕ) → ℕ → ℕ → List ℕ
slice src i zero = []
slice src i (suc n) = elim (src i) [ none ↦ 0 | some b ↦ b ] ∷ slice src (suc i) n

-- The bytes that the counter `nwrite` has passed.
abbrev pub sent_by : Pipe → Section → List ℕ
sent_by p (writes k i src killed) =
    let (q, woken, stop) = write_loop k i src killed p in slice src i (sub32 q.nwrite p.nwrite)
sent_by p (reads dst killed n) = []
sent_by p (closes writable) = []

abbrev pub got_by : Pipe → Section → List ℕ
got_by p (writes k i src killed) = []
got_by p (reads dst killed n) = (piperead p dst killed n).1
got_by p (closes writable) = []

abbrev pub after : Pipe → Section → Pipe
after p (writes k i src killed) = (write_loop k i src killed p).0
after p (reads dst killed n) = (piperead p dst killed n).0
after p (closes writable) = (pipeclose p writable).0

unfoldable pub run : Pipe → List Section → Pipe
run p [] = p
run p (s ∷ ss) = run (after p s) ss

unfoldable pub sent : Pipe → List Section → List ℕ
sent p [] = []
sent p (s ∷ ss) = sent_by p s ++ sent (after p s) ss

unfoldable pub got : Pipe → List Section → List ℕ
got p [] = []
got p (s ∷ ss) = got_by p s ++ got (after p s) ss

-- What one section does: it moves bytes in order.
record Moved (p : Pipe) (s : Section) : Type 0 where
  valid : IsValid (after p s)
  moved : contents p ++ sent_by p s ≡ got_by p s ++ contents (after p s)

Sourced-slice :
    (src : ℕ → Option ℕ) (i : ℕ) (bs : List ℕ) → Sourced src i bs → slice src i (length bs) ≡ bs
Sourced-slice src i [] h = refl
Sourced-slice src i (b ∷ bs) (e, h) = rw (e, Sourced-slice src (suc i) bs h)

writes-Moved :
    {p : Pipe} (k i : ℕ) (src : ℕ → Option ℕ) (killed : ℕ → Bool)
    → IsValid p
    → Moved p (writes k i src killed)
writes-Moved {p} k i src killed v =
    let w = write_loop-Wrote src killed k i v in
    let q = (write_loop k i src killed p).0 in
    let count : sub32 q.nwrite p.nwrite ≡ length w.bytes =
      ground (arith, w.grown, w.kept, w.valid) in
    record {
      valid = w.valid;
      moved =
          ap (λ c. contents p ++ slice src i c) count
          ∙ ap (λ c. contents p ++ c) (Sourced-slice src i w.bytes w.sourced)
          ∙ sym w.appended;
    }

module _ (dst : ℕ → Bool) (killed : Bool) (n : ℤ) {p : Pipe} (v : IsValid p) where
  unmoved :
      (q : Pipe) (bytes : List ℕ)
      → q ≡ p
      → bytes ≡ []
      → IsValid q × (contents p ++ [] ≡ bytes ++ contents q)
  unmoved q bytes e f = rw (e, f) (v, append-nil (contents p))

  taken_in_order :
      (o : Pipe × List ℕ × Bool × Stop)
      → ReadOutcome dst p killed n o
      → IsValid o.0 × (contents p ++ [] ≡ o.1 ++ contents o.0)
  taken_in_order (q, bytes, woken, asleep m) h = unmoved q bytes h.0 h.1
  taken_in_order (q, bytes, woken, returned r) (inl h) = unmoved q bytes h.0 h.1
  taken_in_order (q, bytes, woken, returned r) (inr (ready, woke, t)) =
      (t.valid, append-nil (contents p) ∙ t.taken)

  reads-Moved : Moved p (reads dst killed n)
  reads-Moved =
      let both = taken_in_order (piperead p dst killed n) (piperead-Took dst killed n v) in
      record { valid = both.0; moved = both.1 }

closes-Moved : {p : Pipe} (writable : Bool) → IsValid p → Moved p (closes writable)
unfolding pipeclose
closes-Moved {p} true v = record { valid = omega arith; moved = append-nil (contents p) }
closes-Moved {p} false v = record { valid = omega arith; moved = append-nil (contents p) }

section-Moved : {p : Pipe} (s : Section) → IsValid p → Moved p s
section-Moved (writes k i src killed) v = writes-Moved k i src killed v
section-Moved (reads dst killed n) v = reads-Moved dst killed n v
section-Moved (closes writable) v = closes-Moved writable v

-- Whatever the order in which writers, readers and closers hold the lock: the pipe stays valid, and
-- the bytes that waited at first followed by all that were written, in order, are the bytes that
-- were read, in order, followed by those that still wait. None is lost, doubled or overtaken.
pub run_fifo :
    (p : Pipe) (ss : List Section)
    → IsValid p
    → IsValid (run p ss) × (contents p ++ sent p ss ≡ got p ss ++ contents (run p ss))
unfolding run sent got
run_fifo p [] v = (v, append-nil (contents p))
run_fifo p (s ∷ ss) v =
    let m = section-Moved s v in
    let (valid, rest) = run_fifo (after p s) ss m.valid in
    (
      valid,
      sym (append_assoc (contents p) (sent_by p s) (sent (after p s) ss))
          ∙ ap (λ c. c ++ sent (after p s) ss) m.moved
          ∙ append_assoc (got_by p s) (contents (after p s)) (sent (after p s) ss)
          ∙ ap (λ c. got_by p s ++ c) rest
          ∙ sym (append_assoc (got_by p s) (got (after p s) ss) (contents (run (after p s) ss))),
    )
