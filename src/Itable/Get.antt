-- ===== src/Itable/Get.antt =====
-- kernel/fs.c: an inode of the disk has at most one entry in use, whichever calls are made.
use g14_os_project.Prelude.{
  ℕ, zero, suc, ◌+◌, ◌≤◌, ◌<◌, ◌≡◌, refl, ◌⊎◌, Bool, true, false, ◌&&◌, not, Option, none, some,
  ◌==◌, if◌then◌else◌, arith, inl, inr, ==_iff, Bool-cases,
}
use g14_os_project.Itable.{
  Inode, Itable, is_unused, is_inode, Scan, found, vacant, is_some, iget_scan,
}

-- Where the scan of `left` entries from i on ends.
pub data Scanned (dev inum : ℕ) (t : Itable) (i n : ℕ) (empty : Option ℕ) : Scan → Type 0 where
  hit : (k : ℕ) → k < n → is_inode dev inum (t k) ≡ true → Scanned dev inum t i n empty (found k)
  free :
      (k : ℕ)
      → (empty ≡ some k) ⊎ ((k < n) × (is_unused (t k) ≡ true))
      → ((j : ℕ) → i ≤ j → j < n → is_inode dev inum (t j) ≡ false)
      → Scanned dev inum t i n empty (vacant (some k))
  full :
      (empty ≡ none)
      → ((j : ℕ) → i ≤ j → j < n → is_unused (t j) ≡ false)
      → ((j : ℕ) → i ≤ j → j < n → is_inode dev inum (t j) ≡ false)
      → Scanned dev inum t i n empty (vacant none)

extend :
    (test : Inode → Bool) (t : Itable) (i n : ℕ)
    → test (t i) ≡ false
    → ((j : ℕ) → suc i ≤ j → j < n → test (t j) ≡ false)
    → (j : ℕ) → i ≤ j
    → j < n
    → test (t j) ≡ false
extend test t i n miss rest j le lt = elim (Bool-cases (i == j)) [
  | inl same ↦ rw (← (==_iff i j).0 same) miss
  | inr other ↦ rest j (ground arith) lt
]

module _ (dev inum : ℕ) (t : Itable) where
  widen :
      (i n : ℕ) (empty empty₁ : Option ℕ) (r : Scan)
      → is_inode dev inum (t i) ≡ false
      → ((k : ℕ) → empty₁ ≡ some k → (empty ≡ some k) ⊎ ((k < n) × (is_unused (t k) ≡ true)))
      → (empty₁ ≡ none → (empty ≡ none) × (is_unused (t i) ≡ false))
      → Scanned dev inum t (suc i) n empty₁ r
      → Scanned dev inum t i n empty r
  widen i n empty empty₁ r miss back no_back (hit k lt m) = hit k lt m
  widen i n empty empty₁ r miss back no_back (free k why others) =
      free k (elim why [ inl e ↦ back k e | inr u ↦ inr u ])
        (extend (is_inode dev inum) t i n miss others)
  widen i n empty empty₁ r miss back no_back (full e used others) =
      full ((no_back e).0) (extend is_unused t i n ((no_back e).1) used)
        (extend (is_inode dev inum) t i n miss others)

  -- The empty entry remembered after entry i.
  abbrev remembered : ℕ → Option ℕ → Option ℕ
  remembered i empty = if not (is_some empty) && is_unused (t i) then some i else empty

  remembered-some :
      (i n k : ℕ) (empty : Option ℕ)
      → i < n
      → remembered i empty ≡ some k
      → (empty ≡ some k) ⊎ ((k < n) × (is_unused (t k) ≡ true))
  remembered-some i n k (some j) lt e = inl e
  remembered-some i n k none lt e = elim (Bool-cases (is_unused (t i))) [
    | inl unused ↦ let same : i ≡ k = ground arith in inr (omega arith, rw (← same) unused)
    | inr used ↦ absurd (ground arith)
  ]

  remembered-none :
      (i : ℕ) (empty : Option ℕ)
      → remembered i empty ≡ none
      → (empty ≡ none) × (is_unused (t i) ≡ false)
  remembered-none i (some j) e = absurd (ground arith)
  remembered-none i none e = elim (Bool-cases (is_unused (t i))) [
    | inl unused ↦ absurd (ground arith)
    | inr used ↦ (refl, used)
  ]

  pub iget_scan-Scanned :
      (left i n : ℕ) (empty : Option ℕ)
      → i + left ≡ n
      → Scanned dev inum t i n empty (iget_scan dev inum t left i empty)
  unfolding iget_scan
  iget_scan-Scanned zero i n none e =
      full refl (λ j le lt. absurd (omega arith)) (λ j le lt. absurd (omega arith))
  iget_scan-Scanned zero i n (some k) e = free k (inl refl) (λ j le lt. absurd (omega arith))
  iget_scan-Scanned (suc left) i n empty e = elim (Bool-cases (is_inode dev inum (t i))) [
    | inl it_is ↦ rw (iget_scan, it_is) (hit i (omega arith) it_is)
    | inr other ↦
        rw (iget_scan, other)
          (widen i n empty (remembered i empty)
            (iget_scan dev inum t left (suc i) (remembered i empty)) other
            (λ k. remembered-some i n k empty (omega arith)) (remembered-none i empty)
            (iget_scan-Scanned left (suc i) n (remembered i empty) (omega arith)))
  ]
