-- ===== src/Bcache/Inv.antt =====
-- The invariant of the buffer cache.
use g14_os_project.Prelude.{
  ℕ, ◌+◌, ◌<◌, ◌≡◌, refl, sym, ◌∙◌, ◌≢◌, inl, inr, Bool, true, false, none, some, List, [], ◌∷◌,
  ◌++◌, ◌==◌, ltb, arith, Bool-cases, if◌then◌else◌,
}
use g14_os_project.Prelude.Table.{one_if}
use g14_os_project.Bcache.{Buf, Bcache, nbuf, unlink, backward, scan, put_buf}

-- How often `i` stands in the list.
abbrev pub occurs : ℕ → List ℕ → ℕ
occurs i [] = 0
occurs i (j ∷ js) = one_if (j == i) + occurs i js

pub occurs-unlink :
    (i j : ℕ) (js : List ℕ) → occurs i (unlink j js) ≡ (if j == i then 0 else occurs i js)
unfolding unlink
occurs-unlink i j [] = ground arith
occurs-unlink i j (k ∷ ks) = ground (arith, occurs-unlink i j ks)

occurs-append : (i : ℕ) (xs ys : List ℕ) → occurs i (xs ++ ys) ≡ occurs i xs + occurs i ys
occurs-append i [] ys = omega arith
occurs-append i (x ∷ xs) ys = omega (arith, occurs-append i xs ys)

pub occurs-backward : (i : ℕ) (xs : List ℕ) → occurs i (backward xs) ≡ occurs i xs
unfolding backward
occurs-backward i [] = refl
occurs-backward i (x ∷ xs) =
    omega (arith, occurs-append i (backward xs) (x ∷ []), occurs-backward i xs)

module _ {B : Type 0} where
  pub scan-some :
      (test : Buf B → Bool) (buf : ℕ → Buf B) (is : List ℕ) (i : ℕ)
      → scan test buf is ≡ some i
      → (test (buf i) ≡ true) × (0 < occurs i is)
  unfolding scan
  scan-some test buf [] i e = cc e
  scan-some test buf (j ∷ js) i e = elim (Bool-cases (test (buf j))) [
    | inl hit ↦ (let same : j ≡ i = ground arith in rw (← same) (hit, (ground arith)))
    | inr miss ↦
        let rest = scan-some test buf js i (rw miss at e) in (rest.0, omega (arith, rest.1))
  ]

  pub scan-none :
      (test : Buf B → Bool) (buf : ℕ → Buf B) (is : List ℕ) (i : ℕ)
      → scan test buf is ≡ none
      → 0 < occurs i is
      → test (buf i) ≡ false
  unfolding scan
  scan-none test buf [] i e h = absurd (omega arith)
  scan-none test buf (j ∷ js) i e h = elim (Bool-cases (test (buf j))) [
    | inl hit ↦ cc (rw hit at e)
    | inr miss ↦ elim (Bool-cases (j == i)) [
      | inl same ↦ (let eq : j ≡ i = ground arith in rw (← eq) miss)
      | inr other ↦ scan-none test buf js i (rw miss at e) (ground (arith, other))
    ]
  ]

  -- The list holds each buffer once; no block (device 0 stands for none) is cached twice; and the
  -- content of a buffer without references is on the disk.
  pub record IsValid (disk : ℕ → ℕ → B) (c : Bcache B) : Type 0 where
    pub once : (i : ℕ) → occurs i c.lru ≡ one_if (ltb i nbuf)
    pub unique :
        (i j : ℕ)
        → i < nbuf
        → j < nbuf
        → (c.buf i).dev ≢ 0
        → (c.buf i).dev ≡ (c.buf j).dev
        → (c.buf i).blockno ≡ (c.buf j).blockno
        → i ≡ j
    pub clean :
        (i : ℕ)
        → i < nbuf
        → (c.buf i).refcnt ≡ 0
        → (c.buf i).valid ≡ true
        → (c.buf i).content ≡ disk (c.buf i).dev (c.buf i).blockno

  pub put_buf-IsValid :
      (disk : ℕ → ℕ → B) (c : Bcache B) (i : ℕ) (b : Buf B) (lru : List ℕ)
      → IsValid disk c
      → ((j : ℕ) → occurs j lru ≡ occurs j c.lru)
      → ((j : ℕ)
          → j < nbuf
          → j ≢ i
          → b.dev ≢ 0
          → b.dev ≡ (c.buf j).dev
          → b.blockno ≡ (c.buf j).blockno
          → i ≡ j)
      → (b.refcnt ≡ 0 → b.valid ≡ true → b.content ≡ disk b.dev b.blockno)
      → IsValid disk (record (put_buf c i b) { lru = lru })
  put_buf-IsValid disk c i b lru v perm fresh clean = record {
    once = λ j. perm j ∙ v.once j;
    unique = λ x y lx ly ne dev block. elim (Bool-cases (i == x)) [
      | inl ix ↦ elim (Bool-cases (i == y)) [
        | inl iy ↦ ground arith
        | inr ny ↦
            (let same : i ≡ x = ground arith in
              sym same
              ∙ fresh y ly (ground arith) (rw ix at ne) (rw (ix, ny) at dev) (rw (ix, ny) at block))
      ]
      | inr nx ↦ elim (Bool-cases (i == y)) [
        | inl iy ↦
            (let at_y : i ≡ y = ground arith in
              let same_dev : (c.buf x).dev ≡ b.dev = rw (nx, iy) at dev in
              let same_block : (c.buf x).blockno ≡ b.blockno = rw (nx, iy) at block in
              let named : (c.buf x).dev ≢ 0 = rw nx at ne in
              sym (
                fresh x lx (ground arith) (λ e. named (same_dev ∙ e)) (sym same_dev)
                  (sym same_block))
              ∙ at_y)
        | inr ny ↦ v.unique x y lx ly (rw nx at ne) (rw (nx, ny) at dev) (rw (nx, ny) at block)
      ]
    ];
    clean = λ x lx unused valid. elim (Bool-cases (i == x)) [
      | inl ix ↦ rw ix (clean (rw ix at unused) (rw ix at valid))
      | inr nx ↦ rw nx (v.clean x lx (rw nx at unused) (rw nx at valid))
    ];
  }
