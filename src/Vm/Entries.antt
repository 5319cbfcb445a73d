-- ===== src/Vm/Entries.antt =====
-- kernel/vm.c: a page table as a map from virtual addresses to entries, and what makes it a tree.
use g14_os_project.Prelude.{
  ℕ, zero, suc, ◌+◌, ◌<◌, ◌≡◌, ◌≢◌, sym, ap, subst, ◌∙◌, true, Option, none, some, List, [], ◌∷◌,
  if◌then◌else◌, arith, length, inl, inr, Bool-cases,
}
use mathlib.Core.Option.{some-injective}
use g14_os_project.Vm.{Vm, is_valid, pte2pa, px}
use g14_os_project.Vm.Flags.{IsPage}

-- The page of level 0 for va below a page of `level`.
unfoldable pub reach : (level page va : ℕ) → Vm → Option ℕ
reach zero page va s = some page
reach (suc level) page va s =
    let below = reach level (pte2pa (s.pte page (px (suc level) va))) va s in
    if is_valid (s.pte page (px (suc level) va)) then below else none

abbrev pub entry_at : Vm → ℕ → Option ℕ → ℕ
entry_at s va none = 0
entry_at s va (some page) = s.pte page (px 0 va)

-- The entry for va, 0 where there is no page for it.
unfoldable pub entry : (pagetable va : ℕ) → Vm → ℕ
unfolding reach
entry pagetable va s = entry_at s va (reach 2 pagetable va s)

-- Where a page stands in the tree: the indices that lead to it, the last first.
abbrev pub Home : Type 0
Home = ℕ → Option (List ℕ)

abbrev pub NotIn : ℕ → List ℕ → Type 0
NotIn q [] = Unit
NotIn q (r ∷ rs) = (q ≢ r) × NotIn q rs

abbrev pub FreePages : Home → List ℕ → Type 0
FreePages home [] = Unit
FreePages home (q ∷ qs) = (home q ≡ none) × IsPage q × NotIn q qs × FreePages home qs

-- Each page of the tree has one place, and no free page has one.
pub record IsTree (root : ℕ) (home : Home) (s : Vm) : Type 0 where
  pub at_root : home root ≡ some []
  pub below :
      (page i : ℕ) (path : List ℕ)
      → home page ≡ some path
      → length path < 2
      → is_valid (s.pte page i) ≡ true
      → home (pte2pa (s.pte page i)) ≡ some (i ∷ path)
  pub unused : FreePages home s.free

-- The indices for va that follow a path down to level 0.
abbrev pub extend : (level va : ℕ) → List ℕ → List ℕ
extend zero va path = path
extend (suc level) va path = extend level va (px (suc level) va ∷ path)

pub no_value : {A : Type 0} {q : A} → none ≡ some q → ⊥
no_value e = cc e

module _ (root : ℕ) (home : Home) (s : Vm) (tree : IsTree root home s) where
  pub reach-home :
      (level page va q : ℕ) (path : List ℕ)
      → home page ≡ some path
      → length path + level ≡ 2
      → reach level page va s ≡ some q
      → home q ≡ some (extend level va path)
  unfolding reach
  reach-home zero page va q path h e r =
      let same : page ≡ q = ground arith in subst (λ k. home k ≡ some path) same h
  reach-home (suc level) page va q path h e r =
      elim (Bool-cases (is_valid (s.pte page (px (suc level) va)))) [
        | inl valid ↦
            reach-home level (pte2pa (s.pte page (px (suc level) va))) va q
              (px (suc level) va ∷ path)
              (tree.below page (px (suc level) va) path h (omega arith) valid) (omega arith)
              (rw valid at r)
        | inr other ↦ absurd (no_value (rw other at r))
      ]

-- Two pages at places of different depth differ.
pub other_depth :
    (home : Home) (p q : ℕ) (path path₁ : List ℕ)
    → home p ≡ some path
    → home q ≡ some path₁
    → length path ≢ length path₁
    → p ≢ q
other_depth home p q path path₁ hp hq ne e =
    ne (ap length (some-injective path path₁ (sym hp ∙ ap home e ∙ hq)))
