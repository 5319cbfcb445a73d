-- ===== src/Pipe/Read.antt =====
-- `piperead`: what one section of it takes out of the pipe, and why it ends.
use g14_os_project.Prelude.{
  ℕ, zero, suc, ◌+◌, ◌≤◌, ◌<◌, ◌≡◌, refl, ap, ◌∙◌, ◌⊎◌, inl, inr, Bool, true, false, ◌&&◌, List, [],
  ◌∷◌, ◌++◌, arith, Bool-cases, length, ◌==◌, if◌then◌else◌,
}
use g14_os_project.Prelude.Int.{ℤ, pos, minus_one, pos_part}
use g14_os_project.Pipe.{
  Pipe, Stop, returned, asleep, is_empty, oldest, advance, read_loop, piperead,
}
use g14_os_project.Pipe.Inv.{IsValid, fill, is_empty_iff, fill-advance, advance-IsValid}
use g14_os_project.Pipe.Ring.{contents, contents-advance}

-- Why the copying loop ends at index `j` of `n`, with the result `r`.
abbrev pub Reason : (ℕ → Bool) → ℕ → ℕ → Pipe → ℤ → Type 0
Reason dst j n q r =
    ((r ≡ pos j) × ((j ≡ n) ⊎ (fill q ≡ 0) ⊎ ((dst j ≡ false) × (0 < j))))
    ⊎ ((r ≡ minus_one) × (j ≡ 0) × (dst j ≡ false))

-- The loop from index `i` with `k` rounds left stores exactly `bytes`.
pub record Took (p : Pipe) (k i : ℕ) (dst : ℕ → Bool) (q : Pipe) (bytes : List ℕ) (r : ℤ)
    : Type 0 where
  pub valid : IsValid q
  pub taken : contents p ≡ bytes ++ contents q
  pub shrunk : fill p ≡ fill q + length bytes
  pub within : length bytes ≤ k
  pub kept : (q.nwrite ≡ p.nwrite) × (q.readopen ≡ p.readopen) × (q.writeopen ≡ p.writeopen)
  pub index : ℕ
  pub index_eq : index ≡ i + length bytes
  pub last : ℕ
  pub last_eq : last ≡ i + k
  pub reason : Reason dst index last q r

abbrev Outcome : (p : Pipe) (k i : ℕ) (dst : ℕ → Bool) → Pipe × List ℕ × ℤ → Type 0
Outcome p k i dst (q, bytes, r) = Took p k i dst q bytes r

module _ {dst : ℕ → Bool} {p : Pipe} where
  nothing_taken :
      (k i n : ℕ) (r : ℤ) → IsValid p → n ≡ i + k → Reason dst i n p r → Took p k i dst p [] r
  nothing_taken k i n r v e why = record {
    valid = v;
    taken = refl;
    shrunk = omega arith;
    within = omega arith;
    kept = (refl, refl, refl);
    index = i;
    index_eq = omega arith;
    last = n;
    last_eq = e;
    reason = why;
  }

  one_more :
      {k i : ℕ} {q : Pipe} {bytes : List ℕ} {r : ℤ}
      → IsValid p
      → 0 < fill p
      → Took (advance p) k (suc i) dst q bytes r
      → Took p (suc k) i dst q (oldest p ∷ bytes) r
  unfolding advance
  one_more v some_left t = record {
    valid = t.valid;
    taken = contents-advance v some_left ∙ ap (λ c. oldest p ∷ c) t.taken;
    shrunk = omega (arith, t.shrunk, fill-advance v some_left);
    within = omega (arith, t.within);
    kept = t.kept;
    index = t.index;
    index_eq = omega (arith, t.index_eq);
    last = t.last;
    last_eq = omega (arith, t.last_eq);
    reason = t.reason;
  }

module _ (dst : ℕ → Bool) where
  fault-Reason :
      (i n : ℕ) (p : Pipe) → dst i ≡ false → Reason dst i n p (if i == 0 then minus_one else pos i)
  fault-Reason zero n p e = inr (refl, refl, e)
  fault-Reason (suc i) n p e = inl (ground arith, inr (inr (e, omega arith)))

  read_loop-Took : (k i : ℕ) {p : Pipe} → IsValid p → Outcome p k i dst (read_loop k i dst p)
  unfolding read_loop
  read_loop-Took zero i v = nothing_taken zero i i _ v (omega arith) (inl (refl, inl refl))
  read_loop-Took (suc k) i {p} v = elim (Bool-cases (is_empty p)) [
    | inl none_left ↦ rw none_left (
        nothing_taken (suc k) i (i + suc k) _ v refl
          (inl (refl, inr (inl ((is_empty_iff v).0 none_left)))))
    | inr left ↦
        let some_left : 0 < fill p = ground (arith, is_empty_iff v) in
        rw left (elim (Bool-cases (dst i)) [
          | inl stored ↦
              rw stored
                (one_more v some_left (read_loop-Took k (suc i) (advance-IsValid v some_left)))
          | inr fault ↦
              rw fault
                (nothing_taken (suc k) i (i + suc k) _ v refl (fault-Reason i (i + suc k) p fault))
        ])
  ]

  -- What a section of `piperead` may do.
  abbrev pub ReadOutcome : Pipe → Bool → ℤ → Pipe × List ℕ × Bool × Stop → Type 0
  ReadOutcome p killed n (q, bytes, woken, asleep m) =
      (q ≡ p) × (bytes ≡ []) × (fill p ≡ 0) × (p.writeopen ≡ true) × (killed ≡ false)
  ReadOutcome p killed n (q, bytes, woken, returned r) =
      ((q ≡ p)
        × (bytes ≡ [])
        × (r ≡ minus_one)
        × (fill p ≡ 0)
        × (p.writeopen ≡ true)
        × (killed ≡ true))
      ⊎ (((0 < fill p) ⊎ (p.writeopen ≡ false))
          × (woken ≡ true)
          × Took p (pos_part n) 0 dst q bytes r)

  -- One section of `piperead` on a valid pipe sleeps only on an empty pipe whose write end is open
  -- for a caller that is not killed, and returns -1 at once for one that is; otherwise it takes the
  -- oldest bytes in order, leaves the rest, and stops when `n` bytes are copied, nothing waits or
  -- `copyout` fails (-1 if that is at the first byte).
  pub piperead-Took :
      {p : Pipe} (killed : Bool) (n : ℤ)
      → IsValid p
      → ReadOutcome p killed n (piperead p dst killed n)
  unfolding piperead
  piperead-Took {p} killed n v = elim (Bool-cases (is_empty p && p.writeopen)) [
    | inl idle ↦ rw idle (go_idle killed idle)
    | inr busy ↦
        rw busy (inr (ground (arith, is_empty_iff v), refl, read_loop-Took (pos_part n) 0 v))
  ]
    where
      go_idle :
          (b : Bool)
          → is_empty p && p.writeopen ≡ true
          → ReadOutcome p b n
              (if b then (p, [], false, returned minus_one) else (p, [], false, asleep 0))
      go_idle true e = inl (refl, refl, refl, ground (arith, is_empty_iff v), ground arith, refl)
      go_idle false e = (refl, refl, ground (arith, is_empty_iff v), ground arith, refl)
