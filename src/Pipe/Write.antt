-- ===== src/Pipe/Write.antt =====
-- `pipewrite`: what one section of it puts into the pipe, and why it ends.
use g14_os_project.Prelude.{
  ℕ, zero, suc, ◌+◌, ◌≤◌, ◌<◌, ◌≡◌, refl, sym, ap, ◌∙◌, ◌⊎◌, inl, inr, Bool, true, false, ◌||◌, not,
  Option, none, some, List, [], ◌∷◌, ◌++◌, append-nil, append_assoc, arith, Bool-cases,
  Option-cases, length,
}
use g14_os_project.Prelude.Int.{ℤ, pos, negsuc, pos_part}
use g14_os_project.Pipe.{
  Pipe, pipe_size, Stop, returned, asleep, is_full, put, write_loop, pipewrite,
}
use g14_os_project.Pipe.Inv.{IsValid, fill, is_full_iff, fill-put, put-IsValid}
use g14_os_project.Pipe.Ring.{contents, contents-put}

-- The bytes of the caller from index `i` on, none of them missing.
abbrev pub Sourced : (ℕ → Option ℕ) → ℕ → List ℕ → Type 0
Sourced src i [] = Unit {0}
Sourced src i (b ∷ bs) = (src i ≡ some b) × Sourced src (suc i) bs

-- Why the section ends, at index `j` of the end index `n`.
abbrev pub Reason : (ℕ → Option ℕ) → (ℕ → Bool) → ℕ → ℕ → Pipe → Bool → Stop → Type 0
Reason src killed j n q woken (returned (pos m)) =
    (m ≡ j) × ((j ≡ n) ⊎ (src j ≡ none)) × (woken ≡ true)
Reason src killed j n q woken (returned (negsuc m)) =
    (m ≡ 0) × ((q.readopen ≡ false) ⊎ (killed j ≡ true)) × (woken ≡ false)
Reason src killed j n q woken (asleep m) =
    (m ≡ j) × (fill q ≡ pipe_size) × (q.readopen ≡ true) × (j < n) × (woken ≡ true)

-- A section that starts at `i` with `k` bytes left appends exactly `bytes`.
pub record Wrote (p : Pipe) (k i : ℕ) (src : ℕ → Option ℕ) (killed : ℕ → Bool) (q : Pipe)
    (woken : Bool) (stop : Stop) : Type 0 where
  pub bytes : List ℕ
  pub sourced : Sourced src i bytes
  pub valid : IsValid q
  pub appended : contents q ≡ contents p ++ bytes
  pub grown : fill q ≡ fill p + length bytes
  pub within : length bytes ≤ k
  pub kept : (q.nread ≡ p.nread) × (q.readopen ≡ p.readopen) × (q.writeopen ≡ p.writeopen)
  pub index : ℕ
  pub index_eq : index ≡ i + length bytes
  pub last : ℕ
  pub last_eq : last ≡ i + k
  pub reason : Reason src killed index last q woken stop

has_room : {p : Pipe} → IsValid p → is_full p ≡ false → fill p < pipe_size
has_room {p} v free = ground (arith, is_full_iff v)

abbrev pub Outcome :
    (p : Pipe) (k i : ℕ) (src : ℕ → Option ℕ) (killed : ℕ → Bool) → Pipe × Bool × Stop → Type 0
Outcome p k i src killed (q, woken, stop) = Wrote p k i src killed q woken stop

module _ {src : ℕ → Option ℕ} {killed : ℕ → Bool} {p : Pipe} where
  nothing_written :
      (k i n : ℕ) (woken : Bool) (stop : Stop)
      → IsValid p
      → n ≡ i + k
      → Reason src killed i n p woken stop
      → Wrote p k i src killed p woken stop
  nothing_written k i n woken stop v e r = record {
    bytes = [];
    sourced = tt;
    valid = v;
    appended = sym (append-nil (contents p));
    grown = omega arith;
    within = omega arith;
    kept = (refl, refl, refl);
    index = i;
    index_eq = omega arith;
    last = n;
    last_eq = e;
    reason = r;
  }

  one_more :
      {k i ch : ℕ} {q : Pipe} {woken : Bool} {stop : Stop}
      → IsValid p
      → fill p < pipe_size
      → src i ≡ some ch
      → Wrote (put p ch) k (suc i) src killed q woken stop
      → Wrote p (suc k) i src killed q woken stop
  unfolding put
  one_more {ch} v room got w = record {
    bytes = ch ∷ w.bytes;
    sourced = (got, w.sourced);
    valid = w.valid;
    appended =
        w.appended
        ∙ ap (λ c. c ++ w.bytes) (contents-put ch v room)
        ∙ append_assoc (contents p) (ch ∷ []) w.bytes;
    grown = omega (arith, w.grown, fill-put v ch room);
    within = omega (arith, w.within);
    kept = w.kept;
    index = w.index;
    index_eq = omega (arith, w.index_eq);
    last = w.last;
    last_eq = omega (arith, w.last_eq);
    reason = w.reason;
  }

module _ (src : ℕ → Option ℕ) (killed : ℕ → Bool) where
  pub write_loop-Wrote :
      (k i : ℕ) {p : Pipe} → IsValid p → Outcome p k i src killed (write_loop k i src killed p)
  unfolding write_loop
  write_loop-Wrote zero i v = nothing_written zero i i _ _ v (omega arith) (refl, inl refl, refl)
  write_loop-Wrote (suc k) i {p} v = elim (Bool-cases (not p.readopen || killed i)) [
    | inl stop ↦
        rw stop (nothing_written (suc k) i (i + suc k) _ _ v refl (refl, ground arith, refl))
    | inr go ↦ rw go (elim (Bool-cases (is_full p)) [
      | inl full ↦ rw full (
          nothing_written (suc k) i (i + suc k) _ _ v refl
            (refl, (is_full_iff v).0 full, ground arith, omega arith, refl))
      | inr free ↦
          let room : fill p < pipe_size = has_room v free in
          rw free (elim (Option-cases (src i)) [
            | inl fault ↦
                rw fault (nothing_written (suc k) i (i + suc k) _ _ v refl (refl, inr fault, refl))
            | inr (ch, got) ↦
                rw got (one_more v room got (write_loop-Wrote k (suc i) (put-IsValid v ch room)))
          ])
    ])
  ]

  -- One section of `pipewrite` on a valid pipe leaves it valid, appends to the waiting bytes the
  -- bytes of the caller's buffer from its start, in order, and stops for one of the four reasons
  -- of the code: all `n` bytes are in, `copyin` fails at the next byte, the read end is closed or
  -- the caller is killed (-1, no wakeup), or the ring is full and the caller sleeps.
  pub pipewrite-Wrote :
      {p : Pipe} (n : ℤ)
      → IsValid p
      → Outcome p (pos_part n) 0 src killed (pipewrite p src killed n)
  unfolding pipewrite
  pipewrite-Wrote n v = write_loop-Wrote (pos_part n) 0 v
