-- ===== src/Bcache/Read.antt =====
-- The cache hides the disk: what a block holds is the same whatever buffers come and go.
use native.Mathlib.Decide.{ℕ_discrete}
use g14_os_project.Prelude.{
  ℕ, ◌<◌, ◌≡◌, refl, sym, ap, ◌∙◌, ◌≢◌, ◌⊎◌, inl, inr, Bool, true, false, ◌&&◌, none, some, List,
  arith, Bool-cases, Option-cases, if◌then◌else◌,
}
use g14_os_project.Prelude.Table.{update_self, update_ne}
use g14_os_project.Bcache.{Buf, Bcache, nbuf, holds_block, scan, put_buf, recycled}
use g14_os_project.Bcache.Inv.{occurs, scan-some, scan-none, IsValid, put_buf-IsValid}

module _ {B : Type 0} (disk : ℕ → ℕ → B) (dev blockno : ℕ) where
  -- A buffer that has the block's content.
  abbrev pub has_block : Buf B → Bool
  has_block b = b.valid && holds_block dev blockno b

  -- The content of the block: the cached one, and the disk's where there is none.
  pub latest : Bcache B → B
  latest c = elim (scan has_block c.buf c.lru) [
    | some i ↦ (c.buf i).content
    | none ↦ disk dev blockno
  ]

  -- What one buffer says of the block.
  abbrev pub says : Buf B → B
  says b = if has_block b then b.content else disk dev blockno

  pub listed : (c : Bcache B) (i : ℕ) → IsValid disk c → i < nbuf → 0 < occurs i c.lru
  listed c i v lt = ground (arith, v.once i)

  pub in_range : (c : Bcache B) (i : ℕ) → IsValid disk c → 0 < occurs i c.lru → i < nbuf
  in_range c i v h = ground (arith, v.once i)

  pub latest_at :
      (c : Bcache B) (i : ℕ)
      → IsValid disk c
      → dev ≢ 0
      → i < nbuf
      → has_block (c.buf i) ≡ true
      → latest c ≡ (c.buf i).content
  unfolding latest
  latest_at c i v ne lt has = elim (Option-cases (scan has_block c.buf c.lru)) [
    | inl e ↦ cc (scan-none has_block c.buf c.lru i e (listed c i v lt))
    | inr (j, e) ↦
        let found = scan-some has_block c.buf c.lru j e in
        let same : j ≡ i =
          v.unique j i (in_range c j v found.1) lt (ground (arith, found.0))
            (ground (arith, found.0)) (ground (arith, found.0)) in
        rw (e, latest) (ap (λ x. (c.buf x).content) same)
  ]

  latest_absent :
      (c : Bcache B)
      → IsValid disk c
      → ((i : ℕ) → i < nbuf → has_block (c.buf i) ≡ false)
      → latest c ≡ disk dev blockno
  unfolding latest
  latest_absent c v none_has = elim (Option-cases (scan has_block c.buf c.lru)) [
    | inl e ↦ rw (e, latest) refl
    | inr (j, e) ↦
        let found = scan-some has_block c.buf c.lru j e in
        cc (none_has j (in_range c j v found.1), found.0)
  ]

  alone :
      (c : Bcache B) (i j : ℕ)
      → IsValid disk c
      → dev ≢ 0
      → i < nbuf
      → j < nbuf
      → i ≢ j
      → has_block (c.buf i) ≡ true
      → has_block (c.buf j) ≡ false
  alone c i j v ne li lj apart has = elim (Bool-cases (has_block (c.buf j))) [
    | inr none_there ↦ none_there
    | inl too ↦ absurd (
        apart (
          v.unique i j li lj (ground (arith, has)) (ground (arith, has, too))
            (ground (arith, has, too))))
  ]

  module _ (c : Bcache B) (i : ℕ) (b : Buf B) (lru : List ℕ) (v : IsValid disk c)
      (v' : IsValid disk (record (put_buf c i b) { lru = lru })) (ne : dev ≢ 0) (lt : i < nbuf)
      (same : says b ≡ says (c.buf i)) where
    abbrev changed : Bcache B
    changed = record (put_buf c i b) { lru = lru }

    at_i : changed.buf i ≡ b
    at_i = update_self c.buf i b

    at_other : (j : ℕ) → j ≢ i → changed.buf j ≡ c.buf j
    at_other j apart = update_ne c.buf i j b apart

    -- No buffer but `i` has the block, and `i` has not.
    absent_c :
        ((j : ℕ) → j < nbuf → j ≢ i → has_block (c.buf j) ≡ false)
        → has_block (c.buf i) ≡ false
        → latest c ≡ disk dev blockno
    absent_c others here =
        latest_absent c v
          (λ j lj. elim (ℕ_discrete j i) [ yes ji ↦ (rw ji here) | no apart ↦ others j lj apart ])

    absent_d :
        ((j : ℕ) → j < nbuf → j ≢ i → has_block (c.buf j) ≡ false)
        → has_block b ≡ false
        → latest changed ≡ disk dev blockno
    absent_d others here = latest_absent changed v' (λ j lj. elim (ℕ_discrete j i) [
      | yes ji ↦ (rw (ji, at_i) here)
      | no apart ↦ (rw (at_other j apart) (others j lj apart))
    ])

    elsewhere : has_block b ≡ true → (j : ℕ) → j < nbuf → j ≢ i → has_block (c.buf j) ≡ false
    elsewhere new j lj apart =
        ap has_block (sym (at_other j apart))
        ∙ alone changed i j v' ne lt lj (λ e. apart (sym e)) (ap has_block at_i ∙ new)

    apart_from_i :
        has_block b ≡ false
        → has_block (c.buf i) ≡ false
        → (scan has_block c.buf c.lru ≡ none) ⊎ ((j : ℕ) × (scan has_block c.buf c.lru ≡ some j))
        → latest changed ≡ latest c
    apart_from_i not_new not_old (inl e) =
        let none_has : (j : ℕ) → j < nbuf → j ≢ i → has_block (c.buf j) ≡ false =
          λ j lj apart. scan-none has_block c.buf c.lru j e (listed c j v lj) in
        absent_d none_has not_new ∙ sym (absent_c none_has not_old)
    apart_from_i not_new not_old (inr (j, e)) =
        let found = scan-some has_block c.buf c.lru j e in
        let apart : j ≢ i = λ ji. cc (not_old, found.0, ap (λ x. has_block (c.buf x)) ji) in
        let lj = in_range c j v found.1 in
        latest_at changed j v' ne lj (ap has_block (at_other j apart) ∙ found.0)
        ∙ ap (λ (x : Buf B). x.content) (at_other j apart)
        ∙ sym (latest_at c j v ne lj found.0)

    -- A change of one buffer that says the same of the block keeps the block's content.
    latest-put_buf : latest changed ≡ latest c
    latest-put_buf = elim (Bool-cases (has_block b)) [
      | inl new ↦
          (let of_b : latest changed ≡ b.content =
              latest_at changed i v' ne lt (ap has_block at_i ∙ new)
              ∙ ap (λ (x : Buf B). x.content) at_i in
            elim (Bool-cases (has_block (c.buf i))) [
              | inl old ↦ of_b ∙ (rw (new, old) at same) ∙ sym (latest_at c i v ne lt old)
              | inr not_old ↦
                  of_b ∙ (rw (new, not_old) at same) ∙ sym (absent_c (elsewhere new) not_old)
            ])
      | inr not_new ↦ elim (Bool-cases (has_block (c.buf i))) [
        | inl old ↦
            absent_d (λ j lj apart. alone c i j v ne lt lj (λ e. apart (sym e)) old) not_new
            ∙ (rw (not_new, old) at same)
            ∙ sym (latest_at c i v ne lt old)
        | inr not_old ↦ apart_from_i not_new not_old (Option-cases (scan has_block c.buf c.lru))
      ]
    ]

module _ {B : Type 0} (disk : ℕ → ℕ → B) where
  -- Every block keeps its content.
  abbrev pub SameBlocks : Bcache B → Bcache B → Type 0
  SameBlocks c d =
      (dev blockno : ℕ) → dev ≢ 0 → latest disk dev blockno d ≡ latest disk dev blockno c

  -- The cache is valid, and no block has changed.
  pub record Transparent (c d : Bcache B) : Type 0 where
    pub valid : IsValid disk d
    pub blocks : SameBlocks c d

  pub Transparent-put_buf :
      (c : Bcache B) (i : ℕ) (b : Buf B) (lru : List ℕ)
      → IsValid disk c
      → i < nbuf
      → IsValid disk (record (put_buf c i b) { lru = lru })
      → ((dev blockno : ℕ) → says disk dev blockno b ≡ says disk dev blockno (c.buf i))
      → Transparent c (record (put_buf c i b) { lru = lru })
  Transparent-put_buf c i b lru v lt v' same = record {
    valid = v';
    blocks =
        λ dev blockno ne. latest-put_buf disk dev blockno c i b lru v v' ne lt (same dev blockno);
  }

  -- Another number of references, or another state of the lock.
  pub same_block :
      (c : Bcache B) (i : ℕ) (b : Buf B) (lru : List ℕ)
      → IsValid disk c
      → i < nbuf
      → ((j : ℕ) → occurs j lru ≡ occurs j c.lru)
      → b.valid ≡ (c.buf i).valid
      → b.dev ≡ (c.buf i).dev
      → b.blockno ≡ (c.buf i).blockno
      → b.content ≡ (c.buf i).content
      → (b.refcnt ≡ 0 → b.valid ≡ true → b.content ≡ disk b.dev b.blockno)
      → Transparent c (record (put_buf c i b) { lru = lru })
  same_block c i b lru v lt perm valid dev block content clean =
      Transparent-put_buf c i b lru v lt
        (put_buf-IsValid disk c i b lru v perm
          (λ j lj apart ne same_dev same_blockno.
            v.unique i j lt lj (rw (← dev) ne) (sym dev ∙ same_dev) (sym block ∙ same_blockno))
          clean)
        (λ d n. rw (valid, dev, block, content) refl)

  -- A block that no buffer has, in an unused buffer.
  pub recycle :
      (c : Bcache B) (i dev blockno : ℕ)
      → IsValid disk c
      → i < nbuf
      → (c.buf i).refcnt ≡ 0
      → ((j : ℕ) → j < nbuf → holds_block dev blockno (c.buf j) ≡ false)
      → Transparent c (put_buf c i (recycled dev blockno (c.buf i)))
  recycle c i dev blockno v lt unused absent =
      Transparent-put_buf c i (recycled dev blockno (c.buf i)) c.lru v lt
        (put_buf-IsValid disk c i (recycled dev blockno (c.buf i)) c.lru v (λ j. refl)
          (λ j lj apart ne same_dev same_block. absurd (ground (arith, absent j lj))) (λ e. cc e))
        (λ d n. elim (Bool-cases (has_block disk d n (c.buf i))) [
          | inl has ↦
              (let at_dev : (c.buf i).dev ≡ d = ground (arith, has) in
                let at_block : (c.buf i).blockno ≡ n = ground (arith, has) in
                rw (has, ← at_dev, ← at_block) (sym (v.clean i lt unused (ground (arith, has)))))
          | inr not ↦ rw not refl
        ])
