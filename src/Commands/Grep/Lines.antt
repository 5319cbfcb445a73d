-- ===== src/Commands/Grep/Lines.antt =====
-- custom_grep.c: `read_line` stays within its allocation and gives the first line.
use g14_os_project.Prelude.{
  ℕ, ◌+◌, ◌*◌, ◌≤◌, ◌<◌, ◌≡◌, ◌≢◌, refl, sym, Bool, true, false, none, some, List, [], ◌∷◌, ◌++◌,
  ◌⊎◌, lt→ltb, ◌==◌, if◌then◌else◌, length, length-append, append_assoc, append-nil, arith, leb,
  inl, inr, Bool-cases,
}
use g14_os_project.Commands.{newline}
use g14_os_project.Commands.Grep.{
  LineBuffer, line, failed, grow, append, finish, read_loop, read_line,
}

-- The first line, with its newline if it has one, and the rest.
unfoldable pub cut_line : List ℕ → List ℕ × List ℕ
cut_line [] = ([], [])
cut_line (c ∷ s) = let (l, rest) = cut_line s in if c == newline then (c ∷ [], s) else (c ∷ l, rest)

pub cut_line-newline : (c : ℕ) (s : List ℕ) → (c == newline) ≡ true → cut_line (c ∷ s) ≡ (c ∷ [], s)
unfolding cut_line
cut_line-newline c s e = rw e refl

pub cut_line-other :
    (c : ℕ) (s : List ℕ)
    → (c == newline) ≡ false
    → cut_line (c ∷ s) ≡ (c ∷ (cut_line s).0, (cut_line s).1)
unfolding cut_line
cut_line-other c s e = rw e refl

Fits : LineBuffer → Type 0
Fits b = length b.bytes ≤ b.capacity

module _ (realloc : ℕ → Bool) where
  grow-outcome :
      (b : LineBuffer)
      → Fits b
      → (grow realloc b ≡ none)
        ⊎ ((n : ℕ) × (grow realloc b ≡ some (record b { capacity = n })) × (length b.bytes < n))
  unfolding grow Fits
  grow-outcome b fits = elim (Bool-cases (leb b.capacity (length b.bytes + 1))) [
    | inl e ↦ elim (Bool-cases (realloc (if b.capacity == 0 then 128 else b.capacity * 2))) [
      | inl got ↦
          inr (if b.capacity == 0 then 128 else b.capacity * 2, rw (e, got) refl, ground arith)
      | inr other ↦ inl (rw (e, other) refl)
    ]
    | inr e ↦ inr (b.capacity, rw e refl, ground arith)
  ]

  Fits-append :
      (b : LineBuffer) (ch n : ℕ)
      → length b.bytes < n
      → Fits (append realloc ch (record b { capacity = n }))
  unfolding Fits
  Fits-append b ch n lt = omega (arith, length-append b.bytes (ch ∷ []))

  finish-outcome :
      (at_end : Bool) (b : LineBuffer) (rest : List ℕ)
      → (finish realloc at_end b rest ≡ failed) ⊎ (finish realloc at_end b rest ≡ line b.bytes rest)
  unfolding finish
  finish-outcome at_end b rest = ground arith

  read_loop-outcome :
      (s : List ℕ) (b : LineBuffer)
      → Fits b
      → (read_loop realloc s b ≡ failed)
        ⊎ (read_loop realloc s b ≡ line (b.bytes ++ (cut_line s).0) (cut_line s).1)
  unfolding read_loop cut_line
  read_loop-outcome [] b fits = rw (append-nil b.bytes) (finish-outcome true b [])
  read_loop-outcome (ch ∷ s) b fits = elim (grow-outcome b fits) [
    | inl e ↦ inl (rw (read_loop, e) refl)
    | inr (n, e, lt) ↦ elim (Bool-cases (ch == newline)) [
      | inl stop ↦
          rw (read_loop, e, lt→ltb (length b.bytes) n lt, stop)
            (finish-outcome false (append realloc ch (record b { capacity = n })) s)
      | inr more ↦
          rw
            (
              read_loop,
              e,
              lt→ltb (length b.bytes) n lt,
              more,
              sym (append_assoc b.bytes (ch ∷ []) ((cut_line s).0)),
            )
            (read_loop-outcome s (append realloc ch (record b { capacity = n }))
              (Fits-append b ch n lt))
    ]
  ]

  -- `read_line` never writes beyond its allocation, whichever allocations succeed: it gives the
  -- first line, or -1.
  pub read_line-outcome :
      (s : List ℕ)
      → (read_line realloc s ≡ failed) ⊎ (read_line realloc s ≡ line (cut_line s).0 (cut_line s).1)
  unfolding read_line Fits
  read_line-outcome s = read_loop-outcome s (record { bytes = []; capacity = 0 }) (omega arith)

  module _ (memory : (n : ℕ) → realloc n ≡ true) where
    finish-memory :
        (at_end : Bool) (b : LineBuffer) (rest : List ℕ)
        → 1 ≤ length b.bytes
        → finish realloc at_end b rest ≢ failed
    unfolding finish
    finish-memory at_end b rest some_byte e =
        let enough = memory (length b.bytes + 1) in ground arith

    grow-memory : (b : LineBuffer) → grow realloc b ≢ none
    unfolding grow
    grow-memory b e =
        let enough = memory (if b.capacity == 0 then 128 else b.capacity * 2) in ground arith

    read_loop-memory :
        (s : List ℕ) (b : LineBuffer)
        → Fits b
        → 1 ≤ length b.bytes + length s
        → read_loop realloc s b ≢ failed
    unfolding read_loop
    read_loop-memory [] b fits le = finish-memory true b [] (omega arith)
    read_loop-memory (ch ∷ s) b fits le = elim (grow-outcome b fits) [
      | inl e ↦ absurd (grow-memory b e)
      | inr (n, e, lt) ↦ elim (Bool-cases (ch == newline)) [
        | inl stop ↦
            rw (read_loop, e, lt→ltb (length b.bytes) n lt, stop)
              (finish-memory false (append realloc ch (record b { capacity = n })) s
                (omega (arith, length-append b.bytes (ch ∷ []))))
        | inr more ↦
            rw (read_loop, e, lt→ltb (length b.bytes) n lt, more)
              (read_loop-memory s (append realloc ch (record b { capacity = n }))
                (Fits-append b ch n lt) (omega (arith, length-append b.bytes (ch ∷ []))))
      ]
    ]

    -- When allocations succeed, `read_line` gives the first line of a stream that is not empty.
    pub read_line-memory :
        (c : ℕ) (s : List ℕ)
        → read_line realloc (c ∷ s) ≡ line (cut_line (c ∷ s)).0 (cut_line (c ∷ s)).1
    unfolding read_line Fits
    read_line-memory c s = elim (read_line-outcome (c ∷ s)) [
      | inl e ↦ absurd (
          read_loop-memory (c ∷ s) (record { bytes = []; capacity = 0 }) (omega arith) (omega arith)
            e)
      | inr e ↦ e
    ]
