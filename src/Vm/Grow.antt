-- ===== src/Vm/Grow.antt =====
-- kernel/vm.c: a page taken for the tree leaves every entry as it was.
use g14_os_project.Prelude.{
  ℕ, zero, suc, ◌+◌, ◌<◌, ◌≡◌, ◌≢◌, refl, sym, ap, subst, ◌∙◌, true, false, ◌&&◌, Option, some,
  List, [], ◌∷◌, ◌==◌, ==_iff, arith, length, inl, inr, Bool-cases,
}
use mathlib.Core.Option.{some-injective}
use g14_os_project.Prelude.Table.{update, update_self, update_ne}
use g14_os_project.Vm.{Vm, is_valid, pa2pte, pte2pa, px, set_pte, zero_page}
use g14_os_project.Vm.Flags.{is_valid-pa2pte, pte2pa-pa2pte, is_valid-zero}
use g14_os_project.Vm.Entries.{
  reach, entry, entry_at, Home, NotIn, FreePages, IsTree, other_depth, no_value,
}
use g14_os_project.Vm.Store.{set_pte_self, set_pte_ne}

-- What a step that only adds pages to the tree keeps.
pub record Grows (root : ℕ) (home : Home) (s : Vm) (home₁ : Home) (s₁ : Vm) : Type 0 where
  pub tree : IsTree root home₁ s₁
  pub homes : (r : ℕ) (path : List ℕ) → home r ≡ some path → home₁ r ≡ some path
  pub kept :
      (r j : ℕ) (path : List ℕ)
      → home r ≡ some path
      → is_valid (s.pte r j) ≡ true
      → s₁.pte r j ≡ s.pte r j
  pub entries : (va : ℕ) → entry root va s₁ ≡ entry root va s

FreePages-update :
    (home : Home) (q : ℕ) (place : Option (List ℕ)) (qs : List ℕ)
    → NotIn q qs
    → FreePages home qs
    → FreePages (update home q place) qs
FreePages-update home q place [] out free = tt
FreePages-update home q place (r ∷ rs) out free = (
  update_ne home q r place (λ e. out.0 (sym e)) ∙ free.0,
  free.1,
  free.2,
  FreePages-update home q place rs out.1 free.3,
)

both_equal : (p r i j : ℕ) → (p == r && i == j) ≡ true → (p ≡ r) × (i ≡ j)
both_equal p r i j h = (ground arith, ground arith)

one_differs : (p r i j : ℕ) → (p == r && i == j) ≡ false → p ≡ r → i ≢ j
one_differs p r i j h e f = ground arith

not_zero : (x : ℕ) → x ≡ 0 → is_valid x ≡ true → ⊥
not_zero x e valid = cc (e, valid, is_valid-zero)

-- What holds of an entry holds of it by another name.
move : (P : ℕ → Type 0) (s : Vm) (p i r j : ℕ) → p ≡ r → i ≡ j → P (s.pte p i) → P (s.pte r j)
move P s p i r j ep ei x = subst (λ k. P (s.pte r k)) ei (subst (λ k. P (s.pte k i)) ep x)

module _ (root : ℕ) (home : Home) (s : Vm) (tree : IsTree root home s) (p i : ℕ) (at : List ℕ)
    (home_p : home p ≡ some at) (inner : length at < 2) (invalid : is_valid (s.pte p i) ≡ false)
    (q : ℕ) (qs : List ℕ) (first : s.free ≡ q ∷ qs) where
  abbrev pub grown : Vm
  grown = set_pte p i (pa2pte q 0) (zero_page q (record s { free = qs }))

  abbrev pub grown_home : Home
  grown_home = update home q (some (i ∷ at))

  free_q : FreePages home (q ∷ qs)
  free_q = subst (λ l. FreePages home l) first tree.unused

  not_q : (r : ℕ) (path : List ℕ) → home r ≡ some path → r ≢ q
  not_q r path h e = no_value (sym free_q.0 ∙ subst (λ k. home k ≡ some path) e h)

  fresh : (j : ℕ) → grown.pte q j ≡ 0
  unfolding zero_page
  fresh j =
      set_pte_ne (zero_page q (record s { free = qs })) p i (pa2pte q 0) q j
        (λ same. absurd (not_q p at home_p same))
      ∙ ap (λ (f : ℕ → ℕ). f j) (update_self s.pte q (λ k. 0))

  pub child : pte2pa (grown.pte p i) ≡ q
  child =
      ap pte2pa (set_pte_self (zero_page q (record s { free = qs })) p i (pa2pte q 0) i refl)
      ∙ pte2pa-pa2pte q 0 free_q.1

  pub valid_child : is_valid (grown.pte p i) ≡ true
  valid_child =
      ap is_valid (set_pte_self (zero_page q (record s { free = qs })) p i (pa2pte q 0) i refl)
      ∙ is_valid-pa2pte q 0

  grown_ne : (r j : ℕ) → r ≢ q → (p ≡ r → i ≢ j) → grown.pte r j ≡ s.pte r j
  unfolding zero_page
  grown_ne r j other ne =
      set_pte_ne (zero_page q (record s { free = qs })) p i (pa2pte q 0) r j ne
      ∙ ap (λ (f : ℕ → ℕ). f j) (update_ne s.pte q r (λ k. 0) other)

  entry_fresh : (level va : ℕ) → entry_at grown va (reach level q va grown) ≡ 0
  unfolding reach
  entry_fresh zero va = fresh (px 0 va)
  entry_fresh (suc level) va = rw (reach, fresh (px (suc level) va), is_valid-zero) refl

  entry_grown :
      (level r va : ℕ) (path : List ℕ)
      → home r ≡ some path
      → length path + level ≡ 2
      → entry_at grown va (reach level r va grown) ≡ entry_at s va (reach level r va s)
  unfolding reach
  entry_grown zero r va path h e =
      grown_ne r (px 0 va) (not_q r path h)
        (λ same. absurd (other_depth home p r at path home_p h (omega arith) same))
  entry_grown (suc level) r va path h e =
      let j = px (suc level) va in
      elim (Bool-cases (p == r && i == j)) [
        | inl hit ↦
            let (same_p, same_i) = both_equal p r i j hit in
            let valid : is_valid (grown.pte r j) ≡ true =
              move (λ x. is_valid x ≡ true) grown p i r j same_p same_i valid_child in
            let to_q : pte2pa (grown.pte r j) ≡ q =
              move (λ x. pte2pa x ≡ q) grown p i r j same_p same_i child in
            let before : is_valid (s.pte r j) ≡ false =
              move (λ x. is_valid x ≡ false) s p i r j same_p same_i invalid in
            rw (reach, valid, to_q, before) (entry_fresh level va)
        | inr miss ↦
            let same = grown_ne r j (not_q r path h) (one_differs p r i j miss) in
            elim (Bool-cases (is_valid (s.pte r j))) [
              | inl valid ↦
                  rw (reach, same, valid)
                    (entry_grown level (pte2pa (s.pte r j)) va (j ∷ path)
                      (tree.below r j path h (omega arith) valid) (omega arith))
              | inr other ↦ rw (reach, same, other) refl
            ]
      ]

  old_home : (r : ℕ) (path : List ℕ) → home r ≡ some path → grown_home r ≡ some path
  old_home r path h = update_ne home q r (some (i ∷ at)) (not_q r path h) ∙ h

  grown_below :
      (r j : ℕ) (path : List ℕ)
      → grown_home r ≡ some path
      → length path < 2
      → is_valid (grown.pte r j) ≡ true
      → grown_home (pte2pa (grown.pte r j)) ≡ some (j ∷ path)
  grown_below r j path h lt valid = elim (Bool-cases (r == q)) [
    | inl new ↦
        let zero_pte = subst (λ k. grown.pte k j ≡ 0) (sym ((==_iff r q).0 new)) (fresh j) in
        absurd (not_zero (grown.pte r j) zero_pte valid)
    | inr other ↦
        let ne : r ≢ q = ground arith in
        let h₀ : home r ≡ some path = sym (update_ne home q r (some (i ∷ at)) ne) ∙ h in
        elim (Bool-cases (p == r && i == j)) [
          | inl hit ↦
              let (same_p, same_i) = both_equal p r i j hit in
              let at_path = some-injective at path (sym home_p ∙ ap home same_p ∙ h₀) in
              ap grown_home (move (λ x. pte2pa x ≡ q) grown p i r j same_p same_i child)
              ∙ update_self home q (some (i ∷ at))
              ∙ ap (λ l. some (i ∷ l)) at_path
              ∙ ap (λ k. some (k ∷ path)) same_i
          | inr miss ↦
              let same = grown_ne r j ne (one_differs p r i j miss) in
              let valid₀ = subst (λ x. is_valid x ≡ true) same valid in
              subst (λ x. grown_home (pte2pa x) ≡ some (j ∷ path)) (sym same)
                (old_home (pte2pa (s.pte r j)) (j ∷ path) (tree.below r j path h₀ lt valid₀))
        ]
  ]

  IsTree-grown : IsTree root grown_home grown
  unfolding zero_page
  IsTree-grown = record {
    at_root = old_home root [] tree.at_root;
    below = grown_below;
    unused = FreePages-update home q (some (i ∷ at)) qs free_q.2 free_q.3;
  }

  pub Grows-grown : Grows root home s grown_home grown
  unfolding entry
  Grows-grown = record {
    tree = IsTree-grown;
    homes = old_home;
    kept = λ r j path h valid. grown_ne r j (not_q r path h) (λ ep ei.
        let before = move (λ x. is_valid x ≡ false) s p i r j ep ei invalid in cc (valid, before));
    entries = λ va. entry_grown 2 root va [] tree.at_root refl;
  }
