-- ===== src/Log/Writes.antt =====
-- The disk after some of the writes of `write_log` and `install_trans`.
use g14_os_project.Prelude.{
  ℕ, suc, ◌<◌, ◌≡◌, refl, ap, ◌∙◌, ◌⊎◌, inl, inr, true, false, List, [], ◌∷◌, ◌++◌, ◌==◌,
  if◌then◌else◌, arith, Bool-cases,
}
use g14_os_project.Prelude.Table.{update, update_self, update_ne}
use g14_os_project.Log.{
  Disk, Write, write_slot, write_home, apply, run_writes, write_log, install_trans, mem,
}

-- Every block of `bs` is one of `all`.
abbrev Among : List ℕ → List ℕ → Type 0
Among bs all = (n : ℕ) → mem n bs ≡ true → mem n all ≡ true

module _ {B : Type 0} where
  -- The disk after some of the writes, from the first on.
  pub data Crashed : List (Write B) → Disk B → Disk B → Type 0 where
    stopped : {ws : List (Write B)} {d : Disk B} → Crashed ws d d
    wrote :
        {w : Write B} {ws : List (Write B)} {d d' : Disk B}
        → Crashed ws (apply w d) d'
        → Crashed (w ∷ ws) d d'

  -- The home blocks with the transaction in place.
  abbrev pub with_blocks : (cache : ℕ → B) → List ℕ → (ℕ → B) → ℕ → B
  with_blocks cache bs home n = if mem n bs then cache n else home n

  -- The log blocks from `tail` on hold the blocks `bs`.
  abbrev pub Holds : (cache slots : ℕ → B) → List ℕ → ℕ → Type 0
  Holds cache slots [] tail = tail ≡ tail
  Holds cache slots (b ∷ bs) tail = (slots tail ≡ cache b) × Holds cache slots bs (suc tail)

  pub Crashed-append :
      (xs ys : List (Write B)) {d d' : Disk B}
      → Crashed (xs ++ ys) d d'
      → Crashed xs d d' ⊎ Crashed ys (run_writes xs d) d'
  unfolding run_writes
  Crashed-append [] ys c = inr c
  Crashed-append (x ∷ xs) ys stopped = inl stopped
  Crashed-append (x ∷ xs) ys (wrote c) = elim (Crashed-append xs ys c) [
    | inl early ↦ inl (wrote early)
    | inr late ↦ inr late
  ]

  pub run_writes-append :
      (xs ys : List (Write B)) (d : Disk B)
      → run_writes (xs ++ ys) d ≡ run_writes ys (run_writes xs d)
  unfolding run_writes
  run_writes-append [] ys d = refl
  run_writes-append (x ∷ xs) ys d = run_writes-append xs ys (apply x d)

  -- The writes to log blocks touch neither the header nor a home block.
  pub record SameBut (d d' : Disk B) : Type 0 where
    pub header : d'.header ≡ d.header
    pub home : d'.home ≡ d.home

  pub write_log-SameBut :
      (cache : ℕ → B) (bs : List ℕ) (tail : ℕ) {d d' : Disk B}
      → Crashed (write_log cache bs tail) d d'
      → SameBut d d'
  unfolding write_log apply
  write_log-SameBut cache [] tail stopped = record { header = refl; home = refl }
  write_log-SameBut cache (b ∷ bs) tail stopped = record { header = refl; home = refl }
  write_log-SameBut cache (b ∷ bs) tail (wrote c) =
      let rest = write_log-SameBut cache bs (suc tail) c in
      record { header = rest.header; home = rest.home }

  pub run-Crashed : (ws : List (Write B)) (d : Disk B) → Crashed ws d (run_writes ws d)
  unfolding run_writes
  run-Crashed [] d = stopped
  run-Crashed (w ∷ ws) d = wrote (run-Crashed ws (apply w d))

  -- Below `tail` the log blocks stay.
  write_log-slots :
      (cache : ℕ → B) (bs : List ℕ) (tail i : ℕ) (d : Disk B)
      → i < tail
      → (run_writes (write_log cache bs tail) d).slots i ≡ d.slots i
  unfolding write_log run_writes apply
  write_log-slots cache [] tail i d lt = refl
  write_log-slots cache (b ∷ bs) tail i d lt =
      write_log-slots cache bs (suc tail) i (apply (write_slot tail (cache b)) d) (omega arith)
      ∙ update_ne d.slots tail i (cache b) (λ e. absurd (omega arith))

  pub write_log-Holds :
      (cache : ℕ → B) (bs : List ℕ) (tail : ℕ) (d : Disk B)
      → Holds cache (run_writes (write_log cache bs tail) d).slots bs tail
  unfolding write_log run_writes apply
  write_log-Holds cache [] tail d = refl
  write_log-Holds cache (b ∷ bs) tail d =
      let d₁ = apply (write_slot tail (cache b)) d in
      (
        write_log-slots cache bs (suc tail) tail d₁ (omega arith)
            ∙ update_self d.slots tail (cache b),
        write_log-Holds cache bs (suc tail) d₁,
      )

  -- What writes to home blocks that hold the transaction's data leave alone.
  pub record Installing (cache : ℕ → B) (all : List ℕ) (d d' : Disk B) : Type 0 where
    pub header : d'.header ≡ d.header
    pub slots : d'.slots ≡ d.slots
    pub home : (n : ℕ) → with_blocks cache all d'.home n ≡ with_blocks cache all d.home n

  step-home :
      (cache home : ℕ → B) (all : List ℕ) (b : ℕ) (v : B) (n : ℕ)
      → v ≡ cache b
      → mem b all ≡ true
      → with_blocks cache all (update home b v) n ≡ with_blocks cache all home n
  step-home cache home all b v n e inside = elim (Bool-cases (b == n)) [
    | inl hit ↦ (let same : b ≡ n = ground arith in rw (← same, inside) refl)
    | inr miss ↦ rw miss refl
  ]

  pub install_trans-Installing :
      (cache slots : ℕ → B) (all bs : List ℕ) (tail : ℕ) {d d' : Disk B}
      → Holds cache slots bs tail
      → Among bs all
      → Crashed (install_trans slots bs tail) d d'
      → Installing cache all d d'
  unfolding install_trans apply
  install_trans-Installing cache slots all [] tail h among stopped = record {
    header = refl;
    slots = refl;
    home = λ n. refl;
  }
  install_trans-Installing cache slots all (b ∷ bs) tail h among stopped = record {
    header = refl;
    slots = refl;
    home = λ n. refl;
  }
  install_trans-Installing cache slots all (b ∷ bs) tail {d} h among (wrote c) =
      let rest =
        install_trans-Installing cache slots all bs (suc tail) h.1 (λ n e. among n (ground arith))
          c in
      record {
        header = rest.header;
        slots = rest.slots;
        home = λ n.
            rest.home n ∙ step-home cache d.home all b (slots tail) n h.0 (among b (ground arith));
      }

  -- All the blocks installed.
  pub install_trans-with_blocks :
      (cache slots : ℕ → B) (bs : List ℕ) (tail n : ℕ) (d : Disk B)
      → Holds cache slots bs tail
      → (run_writes (install_trans slots bs tail) d).home n ≡ with_blocks cache bs d.home n
  unfolding install_trans run_writes apply
  install_trans-with_blocks cache slots [] tail n d h = refl
  install_trans-with_blocks cache slots (b ∷ bs) tail n d h =
      install_trans-with_blocks cache slots bs (suc tail) n (apply (write_home b (slots tail)) d)
        h.1
      ∙ first_block (Bool-cases (mem n bs)) (Bool-cases (b == n))
    where
      first_block :
          ((mem n bs ≡ true) ⊎ (mem n bs ≡ false))
          → (((b == n) ≡ true) ⊎ ((b == n) ≡ false))
          → with_blocks cache bs (update d.home b (slots tail)) n
            ≡ with_blocks cache (b ∷ bs) d.home n
      first_block (inl later) c = rw later (ground arith)
      first_block (inr absent) (inl hit) =
          let same : b ≡ n = ground arith in
          let here : (n == b) ≡ true = ground arith in rw (absent, hit, here) (h.0 ∙ ap cache same)
      first_block (inr absent) (inr miss) =
          let other : (n == b) ≡ false = ground arith in rw (absent, miss, other) refl
