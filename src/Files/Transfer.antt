-- ===== src/Files/Transfer.antt =====
-- kernel/file.c: `filewrite` writes in transactions of bounded size.
use g14_os_project.Prelude.{
  ℕ, zero, suc, ◌+◌, ◌-◌, ◌≤◌, ◌<◌, ◌≡◌, refl, subst, true, false, some, ◌==◌, if◌then◌else◌, arith,
  ltb, ltb→lt, min, inl, inr, Bool-cases,
}
use g14_os_project.Prelude.Int.{pos, minus_one}
use g14_os_project.Files.{
  max_write, Files, fd_inode, Targets, write_once, write_loop, filewrite, is_whole,
}

module _ {W : Type 0} (to : Targets W) (f addr n : ℕ) where
  -- The transactions from byte i and a state on, to the byte j where they end: each writes at most
  -- `max_write` bytes, the next ones of the n, and only the last may fall short.
  pub data Written : ℕ → Files W → ℕ → Files W → Type 0 where
    all_written : (s : Files W) → Written n s n s
    short :
        (i n1 : ℕ) (s : Files W)
        → 1 ≤ n1
        → n1 ≤ max_write
        → i + n1 ≤ n
        → is_whole to ((write_once to f (addr + i) n1 s).0) n1 ≡ false
        → Written i s i ((write_once to f (addr + i) n1 s).1)
    chunk :
        (i n1 j : ℕ) (s s₁ : Files W)
        → 1 ≤ n1
        → n1 ≤ max_write
        → i + n1 ≤ n
        → is_whole to ((write_once to f (addr + i) n1 s).0) n1 ≡ true
        → Written (i + n1) ((write_once to f (addr + i) n1 s).1) j s₁
        → Written i s j s₁

  chunk_size :
      (i : ℕ)
      → i < n
      → (1 ≤ min (n - i) max_write)
        × (min (n - i) max_write ≤ max_write)
        × (i + min (n - i) max_write ≤ n)
  chunk_size i lt = (omega arith, omega arith, omega arith)

  write_loop-Written :
      (fuel i : ℕ) (s : Files W)
      → i ≤ n
      → n ≤ i + fuel
      → (j : ℕ) × (s₁ : Files W) × (write_loop to fuel f addr n i s ≡ some (j, s₁))
        × Written i s j s₁
  unfolding write_loop
  write_loop-Written zero i s le enough =
      let same : n ≡ i = omega arith in
      let stop : ltb i n ≡ false = ground arith in
      (i, s, rw stop refl, subst (λ k. Written k s k s) same (all_written s))
  write_loop-Written (suc fuel) i s le enough = elim (Bool-cases (ltb i n)) [
    | inl more ↦
        let n1 = min (n - i) max_write in
        let size = chunk_size i (ltb→lt i n more) in
        let done = write_once to f (addr + i) n1 s in
        elim (Bool-cases (is_whole to done.0 n1)) [
          | inl whole ↦
              let (j, s₁, e, rest) = write_loop-Written fuel (i + n1) done.1 size.2 (omega arith) in
              (j, s₁, rw (more, whole) e, chunk i n1 j s s₁ size.0 size.1 size.2 whole rest)
          | inr cut ↦ (i, done.1, rw (more, cut) refl, short i n1 s size.0 size.1 size.2 cut)
        ]
    | inr done ↦
        let same : n ≡ i = ground arith in
        (i, s, rw done refl, subst (λ k. Written k s k s) same (all_written s))
  ]

  whole_pos : (j : ℕ) → is_whole to (pos n) j ≡ (j == n)
  whole_pos j = elim (Bool-cases (j == n)) [
    | inl same ↦ let flipped : (n == j) ≡ true = ground arith in rw (same, flipped) refl
    | inr other ↦ let flipped : (n == j) ≡ false = ground arith in rw (other, flipped) refl
  ]

  -- A write to an inode's file ends: it makes transactions of at most `max_write` bytes each, one
  -- after the other from the first byte on, until one falls short or all n bytes are written, and
  -- returns n exactly in the latter case, else -1.
  pub filewrite-Written :
      (s : Files W)
      → (s.file f).writable ≡ true
      → (s.file f).type ≡ fd_inode
      → (j : ℕ) × (s₁ : Files W) × (filewrite to f addr (pos n) s
          ≡ some (if j == n then pos n else minus_one, s₁))
        × Written 0 s j s₁
  unfolding filewrite
  filewrite-Written s writable inode =
      let (j, s₁, e, steps) = write_loop-Written n 0 s (omega arith) (omega arith) in
      (j, s₁, rw (writable, inode, e, whole_pos j) refl, steps)
