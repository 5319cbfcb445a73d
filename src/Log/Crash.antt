-- ===== src/Log/Crash.antt =====
-- A crash between any two disk writes of a commit or of a recovery.
use g14_os_project.Prelude.{ℕ, ◌≡◌, refl, sym, ap, subst, ◌∙◌, ◌⊎◌, inl, inr, List, [], ◌∷◌, ◌++◌}
use g14_os_project.Log.{
  Disk, Write, write_head, apply, run_writes, write_log, install_trans, commit, recover_from_log,
  recovered,
}
use g14_os_project.Log.Writes.{
  Crashed, stopped, wrote, with_blocks, Holds, Crashed-append, run_writes-append, write_log-SameBut,
  run-Crashed, write_log-Holds, install_trans-Installing, install_trans-with_blocks,
}

module _ {B : Type 0} where
  recovered-header : (d : Disk B) → (recovered d).header ≡ []
  unfolding recovered recover_from_log run_writes apply
  recovered-header d =
      ap (λ (e : Disk B). e.header)
        (run_writes-append (install_trans d.slots d.header 0) (write_head [] ∷ []) d)

  recovered-home :
      (cache : ℕ → B) (hs : List ℕ) (n : ℕ) (d : Disk B)
      → d.header ≡ hs
      → Holds cache d.slots hs 0
      → (recovered d).home n ≡ with_blocks cache hs d.home n
  unfolding recovered recover_from_log run_writes apply
  recovered-home cache hs n d e h =
      ap (λ (x : Disk B). x.home n)
        (run_writes-append (install_trans d.slots d.header 0) (write_head [] ∷ []) d)
      ∙ install_trans-with_blocks cache d.slots d.header 0 n d
          (subst (λ (x : List ℕ). Holds cache d.slots x 0) (sym e) h)
      ∙ ap (λ (x : List ℕ). with_blocks cache x d.home n) e

  recovered_idle : (n : ℕ) (d : Disk B) → d.header ≡ [] → (recovered d).home n ≡ d.home n
  recovered_idle n d e = recovered-home d.home [] n d e refl

  -- In the middle of the installation, recovery ends it.
  recovered-Installing :
      (cache : ℕ → B) (bs : List ℕ) (n : ℕ) (d d' : Disk B)
      → d.header ≡ bs
      → Holds cache d.slots bs 0
      → Crashed (install_trans d.slots bs 0) d d'
      → (recovered d').home n ≡ with_blocks cache bs d.home n
  recovered-Installing cache bs n d d' e h c =
      let i = install_trans-Installing cache d.slots bs bs 0 h (λ n e. e) c in
      recovered-home cache bs n d' (i.header ∙ e)
        (subst (λ (x : ℕ → B). Holds cache x bs 0) (sym i.slots) h)
      ∙ i.home n

  last_write :
      (d d' : Disk B)
      → Crashed (write_head [] ∷ []) d d'
      → (d' ≡ d) ⊎ (d' ≡ apply (write_head []) d)
  last_write d d' stopped = inl refl
  last_write d d' (wrote stopped) = inr refl

  recovered-erased :
      (n : ℕ) (d' d : Disk B) → d' ≡ apply (write_head []) d → (recovered d').home n ≡ d.home n
  unfolding apply
  recovered-erased n d' d e =
      recovered_idle n d' (ap (λ (x : Disk B). x.header) e) ∙ ap (λ (x : Disk B). x.home n) e

  -- At any point of the installation and the erasure of the header.
  recovered_from :
      (cache : ℕ → B) (bs : List ℕ) (n : ℕ) (d d' : Disk B)
      → d.header ≡ bs
      → Holds cache d.slots bs 0
      → Crashed (install_trans d.slots bs 0 ++ (write_head [] ∷ [])) d d'
      → (recovered d').home n ≡ with_blocks cache bs d.home n
  recovered_from cache bs n d d' e h c =
      go (Crashed-append (install_trans d.slots bs 0) (write_head [] ∷ []) c)
    where
      all : Disk B
      all = run_writes (install_trans d.slots bs 0) d

      go :
          Crashed (install_trans d.slots bs 0) d d'
            ⊎ Crashed (write_head [] ∷ []) (run_writes (install_trans d.slots bs 0) d) d'
          → (recovered d').home n ≡ with_blocks cache bs d.home n
      go (inl partly) = recovered-Installing cache bs n d d' e h partly
      go (inr last) = elim (last_write all d' last) [
        | inl same ↦ recovered-Installing cache bs n d d' e h (
            subst (Crashed (install_trans d.slots bs 0) d) (sym same)
              (run-Crashed (install_trans d.slots bs 0) d))
        | inr same ↦
            recovered-erased n d' all same ∙ install_trans-with_blocks cache d.slots bs 0 n d h
      ]

  logged : (ℕ → B) → List ℕ → Disk B → Disk B
  logged cache bs d = run_writes (write_log cache bs 0) d

  -- The header is on the disk: from here on the transaction is committed.
  after_head :
      (cache : ℕ → B) (bs : List ℕ) (n : ℕ) (d d₂ d' : Disk B)
      → d₂ ≡ apply (write_head bs) (logged cache bs d)
      → Crashed (install_trans (logged cache bs d).slots bs 0 ++ (write_head [] ∷ [])) d₂ d'
      → (recovered d').home n ≡ with_blocks cache bs d.home n
  unfolding logged apply
  after_head cache bs n d d₂ d' e c =
      let sl : d₂.slots ≡ (logged cache bs d).slots = ap (λ (x : Disk B). x.slots) e in
      let untouched : d₂.home ≡ d.home =
        ap (λ (x : Disk B). x.home) e
        ∙ (write_log-SameBut cache bs 0 (run-Crashed (write_log cache bs 0) d)).home in
      recovered_from cache bs n d₂ d' (ap (λ (x : Disk B). x.header) e)
        (subst (λ (x : ℕ → B). Holds cache x bs 0) (sym sl) (write_log-Holds cache bs 0 d))
        (subst (λ (x : ℕ → B). Crashed (install_trans x bs 0 ++ (write_head [] ∷ [])) d₂ d')
          (sym sl) c)
      ∙ ap (λ (f : ℕ → B). with_blocks cache bs f n) untouched

  -- Before the header is written, the transaction has no effect.
  before_head :
      (cache : ℕ → B) (bs : List ℕ) (n : ℕ) (d d' : Disk B)
      → d.header ≡ []
      → Crashed (write_log cache bs 0) d d'
      → (recovered d').home n ≡ d.home n
  before_head cache bs n d d' e c =
      let same = write_log-SameBut cache bs 0 c in
      recovered_idle n d' (same.header ∙ e) ∙ ap (λ (f : ℕ → B). f n) same.home

  -- The home blocks after recovery are the old ones, or the new ones.
  abbrev pub Atomic : (ℕ → B) → List ℕ → Disk B → Disk B → Type 0
  Atomic cache bs d d' =
      ((n : ℕ) → (recovered d').home n ≡ d.home n)
      ⊎ ((n : ℕ) → (recovered d').home n ≡ with_blocks cache bs d.home n)

  around_head :
      (cache : ℕ → B) (bs : List ℕ) (d d' : Disk B) (ws : List (Write B))
      → ws ≡ install_trans (logged cache bs d).slots bs 0 ++ (write_head [] ∷ [])
      → d.header ≡ []
      → Crashed (write_head bs ∷ ws) (logged cache bs d) d'
      → Atomic cache bs d d'
  unfolding logged
  around_head cache bs d d' ws same e stopped =
      inl (λ n. before_head cache bs n d _ e (run-Crashed (write_log cache bs 0) d))
  around_head cache bs d d' ws same e (wrote c) = inr (λ n.
      after_head cache bs n d (apply (write_head bs) (logged cache bs d)) d' refl (
        subst (λ (x : List (Write B)). Crashed x (apply (write_head bs) (logged cache bs d)) d')
          same c))

  commit-Atomic :
      (cache : ℕ → B) (bs : List ℕ) (d d' : Disk B)
      → d.header ≡ []
      → Crashed (commit cache bs d) d d'
      → Atomic cache bs d d'
  unfolding commit logged
  commit-Atomic cache [] d d' e stopped = inl (λ n. recovered_idle n d e)
  commit-Atomic cache (b ∷ bs) d d' e c =
      elim (Crashed-append (write_log cache (b ∷ bs) 0)
        (write_head (b ∷ bs)
          ∷ (install_trans (logged cache (b ∷ bs) d).slots (b ∷ bs) 0 ++ (write_head [] ∷ [])))
        c) [
          | inl early ↦ inl (λ n. before_head cache (b ∷ bs) n d d' e early)
          | inr late ↦ around_head cache (b ∷ bs) d d' _ refl e late
        ]

  -- A crash between any two disk writes of a commit, to a disk whose header is empty, and then
  -- recovery: the header is empty again, and the home blocks are all as they were before the
  -- transaction, or all as the transaction leaves them.
  pub commit_crash :
      (cache : ℕ → B) (bs : List ℕ) (d d' : Disk B)
      → d.header ≡ []
      → Crashed (commit cache bs d) d d'
      → ((recovered d').header ≡ []) × Atomic cache bs d d'
  commit_crash cache bs d d' e c = (recovered-header d', commit-Atomic cache bs d d' e c)

  -- The disk with the header written, and with the transaction installed and erased.
  abbrev headed : (ℕ → B) → List ℕ → Disk B → Disk B
  headed cache bs d = apply (write_head bs) (logged cache bs d)

  abbrev erased : (ℕ → B) → List ℕ → Disk B → Disk B
  erased cache bs d =
      apply (write_head [])
        (run_writes (install_trans (logged cache bs d).slots bs 0) (headed cache bs d))

  commit_end :
      (cache : ℕ → B) (bs : List ℕ) (d : Disk B)
      → run_writes
          (write_log cache bs 0
            ++ (write_head bs
                ∷ (install_trans (logged cache bs d).slots bs 0 ++ (write_head [] ∷ []))))
          d
        ≡ erased cache bs d
  unfolding run_writes logged
  commit_end cache bs d =
      run_writes-append (write_log cache bs 0)
        (write_head bs ∷ (install_trans (logged cache bs d).slots bs 0 ++ (write_head [] ∷ []))) d
      ∙ run_writes-append (install_trans (logged cache bs d).slots bs 0) (write_head [] ∷ [])
          (headed cache bs d)

  erased_header : (cache : ℕ → B) (bs : List ℕ) (d : Disk B) → (erased cache bs d).header ≡ []
  unfolding apply
  erased_header cache bs d = refl

  erased_home :
      (cache : ℕ → B) (bs : List ℕ) (n : ℕ) (d : Disk B)
      → (erased cache bs d).home n ≡ with_blocks cache bs d.home n
  unfolding apply logged
  erased_home cache bs n d =
      install_trans-with_blocks cache (logged cache bs d).slots bs 0 n (headed cache bs d)
        (write_log-Holds cache bs 0 d)
      ∙ ap (λ (f : ℕ → B). with_blocks cache bs f n)
          (write_log-SameBut cache bs 0 (run-Crashed (write_log cache bs 0) d)).home

  -- A commit without crash, to a disk whose header is empty, leaves the home blocks of the
  -- transaction with their content in the cache, all other home blocks as they were, and the header
  -- empty.
  pub commit-with_blocks :
      (cache : ℕ → B) (bs : List ℕ) (d : Disk B)
      → d.header ≡ []
      → ((run_writes (commit cache bs d) d).header ≡ [])
        × ((n : ℕ) → (run_writes (commit cache bs d) d).home n ≡ with_blocks cache bs d.home n)
  unfolding commit run_writes logged
  commit-with_blocks cache [] d e = (e, λ n. refl)
  commit-with_blocks cache (b ∷ bs) d e =
      let all = commit_end cache (b ∷ bs) d in
      (
        ap (λ (x : Disk B). x.header) all ∙ erased_header cache (b ∷ bs) d,
        λ n. ap (λ (x : Disk B). x.home n) all ∙ erased_home cache (b ∷ bs) n d,
      )

  -- A crash between any two disk writes of a recovery, from a disk whose log blocks hold the blocks
  -- that its header names, and then recovery again, gives the home blocks of a recovery without
  -- crash.
  pub recovery_crash :
      (cache : ℕ → B) (d d' : Disk B)
      → Holds cache d.slots d.header 0
      → Crashed (recover_from_log d) d d'
      → (n : ℕ) → (recovered d').home n ≡ (recovered d).home n
  unfolding recover_from_log
  recovery_crash cache d d' h c n =
      recovered_from cache d.header n d d' refl h c ∙ sym (recovered-home cache d.header n d refl h)
