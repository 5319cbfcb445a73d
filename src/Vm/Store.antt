-- ===== src/Vm/Store.antt =====
-- kernel/vm.c: a store to an entry of level 0 changes the entry of one page.
use mathlib.Core.Option.{some-injective}
use g14_os_project.Prelude.{
  ℕ, zero, suc, ◌+◌, ◌/◌, ◌^◌, ◌<◌, ◌≡◌, ◌≢◌, refl, sym, ap, subst, ◌∙◌, true, some, List, [], ◌∷◌,
  ◌==◌, ==_iff, if◌then◌else◌, arith, length, get_or, inl, inr, Bool-cases, Option-cases,
}
use g14_os_project.Prelude.Table.{update, update_self, update_ne}
use g14_os_project.Vm.{Vm, is_valid, pte2pa, px, set_pte, page_size}
use g14_os_project.Vm.Flags.{px_injective, px-page}
use g14_os_project.Vm.Entries.{reach, entry, Home, IsTree, reach-home, other_depth}

-- Addresses of one page reach one page of level 0.
pub reach-page :
    (root va vb : ℕ) (s : Vm)
    → va / page_size ≡ vb / page_size
    → reach 2 root va s ≡ reach 2 root vb s
unfolding reach
reach-page root va vb s e = let (e2, e1, e0) = px-page va vb e in rw (e2, e1) refl

same_path : (a b c d : ℕ) → a ∷ b ∷ [] ≡ c ∷ d ∷ [] → (a ≡ c) × (b ≡ d)
same_path a b c d e = (ap (λ (l : List ℕ). get_or l 0 0) e, ap (λ (l : List ℕ). get_or l 1 0) e)

-- The entry that was stored, and the others.
pub set_pte_self : (s : Vm) (p i v j : ℕ) → i ≡ j → (set_pte p i v s).pte p j ≡ v
set_pte_self s p i v j e =
    ap (λ (f : ℕ → ℕ). f j) (update_self s.pte p (update (s.pte p) i v))
    ∙ subst (λ k. update (s.pte p) i v k ≡ v) e (update_self (s.pte p) i v)

pub set_pte_ne : (s : Vm) (p i v q j : ℕ) → (p ≡ q → i ≢ j) → (set_pte p i v s).pte q j ≡ s.pte q j
set_pte_ne s p i v q j ne = elim (Bool-cases (p == q)) [
  | inr other ↦ ap (λ (f : ℕ → ℕ). f j) (update_ne s.pte p q (update (s.pte p) i v) (ground arith))
  | inl same ↦
      let at_p = (==_iff p q).0 same in
      subst (λ k. (set_pte p i v s).pte k j ≡ s.pte k j) at_p
        (ap (λ (f : ℕ → ℕ). f j) (update_self s.pte p (update (s.pte p) i v))
          ∙ update_ne (s.pte p) i j v (λ e. ne at_p (sym e)))
]

module _ (root : ℕ) (home : Home) (s : Vm) (tree : IsTree root home s) (p i v : ℕ) (at : List ℕ)
    (home_p : home p ≡ some at) (low : length at ≡ 2) where
  other_page :
      (r j : ℕ) (path : List ℕ)
      → home r ≡ some path
      → length path < 2
      → (set_pte p i v s).pte r j ≡ s.pte r j
  other_page r j path h lt =
      ap (λ (f : ℕ → ℕ). f j)
        (update_ne s.pte p r (update (s.pte p) i v)
          (other_depth home r p path at h home_p (omega arith)))

  reach-set_pte :
      (level r va : ℕ) (path : List ℕ)
      → home r ≡ some path
      → length path + level ≡ 2
      → reach level r va (set_pte p i v s) ≡ reach level r va s
  unfolding reach
  reach-set_pte zero r va path h e = refl
  reach-set_pte (suc level) r va path h e =
      let j = px (suc level) va in
      let same = other_page r j path h (omega arith) in
      elim (Bool-cases (is_valid (s.pte r j))) [
        | inl valid ↦
            rw (reach, same, valid)
              (reach-set_pte level (pte2pa (s.pte r j)) va (j ∷ path)
                (tree.below r j path h (omega arith) valid) (omega arith))
        | inr other ↦ rw (reach, same, other) refl
      ]

  pub IsTree-set_pte : IsTree root home (set_pte p i v s)
  IsTree-set_pte = record {
    at_root = tree.at_root;
    below = λ r j path h lt valid.
        let same = other_page r j path h lt in
        subst (λ x. home (pte2pa x) ≡ some (j ∷ path)) (sym same)
          (tree.below r j path h lt (subst (λ x. is_valid x ≡ true) same valid));
    unused = tree.unused;
  }

  -- Another page has another path or index.
  apart :
      (va0 va q : ℕ)
      → va0 < 2 ^ 38
      → va < 2 ^ 38
      → reach 2 root va0 s ≡ some p
      → i ≡ px 0 va0
      → reach 2 root va s ≡ some q
      → va0 / page_size ≢ va / page_size
      → p ≡ q
      → i ≢ px 0 va
  apart va0 va q lt0 lt r ei rq ne same e0 =
      let at_va0 = reach-home root home s tree 2 root va0 p [] tree.at_root refl r in
      let at_va = reach-home root home s tree 2 root va q [] tree.at_root refl rq in
      let (e1, e2) =
        same_path (px 1 va0) (px 2 va0) (px 1 va) (px 2 va)
          (some-injective _ _ (sym at_va0 ∙ ap home same ∙ at_va)) in
      ne (px_injective va0 va lt0 lt e2 e1 (sym ei ∙ e0))

  -- The entry changes for the page that the store is for, and no other.
  pub entry-set_pte :
      (va0 va : ℕ)
      → va0 < 2 ^ 38
      → va < 2 ^ 38
      → reach 2 root va0 s ≡ some p
      → i ≡ px 0 va0
      → entry root va (set_pte p i v s)
        ≡ (if va0 / page_size == va / page_size then v else entry root va s)
  unfolding entry
  entry-set_pte va0 va lt0 lt r ei = elim (Bool-cases (va0 / page_size == va / page_size)) [
    | inl same ↦
        let page = (==_iff (va0 / page_size) (va / page_size)).0 same in
        let here = reach-page root va va0 s (sym page) ∙ r in
        rw (reach-set_pte 2 root va [] tree.at_root refl, same, here)
          (set_pte_self s p i v (px 0 va) (ei ∙ (px-page va0 va page).2))
    | inr other ↦ elim (Option-cases (reach 2 root va s)) [
      | inl absent ↦ rw (reach-set_pte 2 root va [] tree.at_root refl, other, absent) refl
      | inr (q, e) ↦
          rw (reach-set_pte 2 root va [] tree.at_root refl, other, e)
            (set_pte_ne s p i v q (px 0 va) (apart va0 va q lt0 lt r ei e (ground arith)))
    ]
  ]
