-- ===== src/Vm/Walk.antt =====
-- kernel/vm.c: walk with alloc. It takes what pages it needs and changes no entry.
use g14_os_project.Prelude.{
  ℕ, zero, suc, ◌+◌, ◌<◌, ◌≡◌, refl, sym, ap, subst, ◌∙◌, true, Option, none, some, List, [], ◌∷◌,
  arith, length, inl, inr, Bool-cases, List-cases,
}
use g14_os_project.Prelude.Table.{update_self}
use g14_os_project.Vm.{Vm, is_valid, pte2pa, px, kalloc, descend, walk_from}
use g14_os_project.Vm.Entries.{reach, Home, IsTree}
use g14_os_project.Vm.Grow.{Grows, Grows-grown, grown, grown_home, child, valid_child}

pub Grows-refl : (root : ℕ) (home : Home) (s : Vm) → IsTree root home s → Grows root home s home s
Grows-refl root home s tree = record {
  tree = tree;
  homes = λ r path h. h;
  kept = λ r j path h valid. refl;
  entries = λ va. refl;
}

pub Grows-trans :
    (root : ℕ) (home home₁ home₂ : Home) (s s₁ s₂ : Vm)
    → Grows root home s home₁ s₁
    → Grows root home₁ s₁ home₂ s₂
    → Grows root home s home₂ s₂
Grows-trans root home home₁ home₂ s s₁ s₂ g h = record {
  tree = h.tree;
  homes = λ r path e. h.homes r path (g.homes r path e);
  kept = λ r j path e valid.
      let same = g.kept r j path e valid in
      h.kept r j path (g.homes r path e) (subst (λ x. is_valid x ≡ true) (sym same) valid) ∙ same;
  entries = λ va. h.entries va ∙ g.entries va;
}

-- Where walk's result is, or that no page was left for it.
unfoldable pub Place : (level page va : ℕ) → Option (ℕ × ℕ) × Vm → Type 0
Place level page va (none, s) = s.free ≡ []
Place level page va (some (p, i), s) = (reach level page va s ≡ some p) × (i ≡ px 0 va)

pub record Found (root level page va : ℕ) (home : Home) (s : Vm) (out : Option (ℕ × ℕ) × Vm)
    : Type 0 where
  pub home₁ : Home
  pub grows : Grows root home s home₁ out.1
  pub place : Place level page va out

Found-from :
    (root level page va : ℕ) (home home₁ : Home) (s s₁ : Vm) (out : Option (ℕ × ℕ) × Vm)
    → Grows root home s home₁ s₁
    → Found root level page va home₁ s₁ out
    → Found root level page va home s out
Found-from root level page va home home₁ s s₁ out g f = record {
  home₁ = f.home₁;
  grows = Grows-trans root home home₁ f.home₁ s s₁ out.1 g f.grows;
  place = f.place;
}

Place-above :
    (level page next va : ℕ) (out : Option (ℕ × ℕ) × Vm)
    → is_valid (out.1.pte page (px (suc level) va)) ≡ true
    → pte2pa (out.1.pte page (px (suc level) va)) ≡ next
    → Place level next va out
    → Place (suc level) page va out
unfolding Place reach
Place-above level page next va (none, s) valid to_next place = place
Place-above level page next va (some (p, i), s) valid to_next place =
    (rw (reach, valid, to_next) place.0, place.1)

-- What is found below a page that an entry points to is found below that entry.
Found-above :
    (root level page next va : ℕ) (path : List ℕ) (home : Home) (s : Vm) (out : Option (ℕ × ℕ) × Vm)
    → home page ≡ some path
    → is_valid (s.pte page (px (suc level) va)) ≡ true
    → pte2pa (s.pte page (px (suc level) va)) ≡ next
    → Found root level next va home s out
    → Found root (suc level) page va home s out
Found-above root level page next va path home s out h valid to_next f =
    let same = f.grows.kept page (px (suc level) va) path h valid in
    record {
      home₁ = f.home₁;
      grows = f.grows;
      place =
          Place-above level page next va out (subst (λ x. is_valid x ≡ true) (sym same) valid)
            (ap pte2pa same ∙ to_next) f.place;
    }

kalloc-empty : (s : Vm) → s.free ≡ [] → kalloc s ≡ none
unfolding kalloc
kalloc-empty s e = rw (kalloc, e) refl

kalloc-first :
    (s : Vm) (q : ℕ) (qs : List ℕ) → s.free ≡ q ∷ qs → kalloc s ≡ some (q, record s { free = qs })
unfolding kalloc
kalloc-first s q qs e = rw (kalloc, e) refl

pub walk_from-Found :
    (root level page va : ℕ) (path : List ℕ) (home : Home) (s : Vm)
    → IsTree root home s
    → home page ≡ some path
    → length path + level ≡ 2
    → Found root level page va home s (walk_from true level page va s)
unfolding walk_from descend Place reach
walk_from-Found root zero page va path home s tree h e = record {
  home₁ = home;
  grows = Grows-refl root home s tree;
  place = (refl, refl);
}
walk_from-Found root (suc level) page va path home s tree h e =
    let i = px (suc level) va in
    elim (Bool-cases (is_valid (s.pte page i))) [
      | inl valid ↦
          rw (walk_from, descend, valid)
            (Found-above root level page (pte2pa (s.pte page i)) va path home s
              (walk_from true level (pte2pa (s.pte page i)) va s) h valid refl
              (walk_from-Found root level (pte2pa (s.pte page i)) va (i ∷ path) home s tree
                (tree.below page i path h (omega arith) valid) (omega arith)))
      | inr invalid ↦ elim (List-cases s.free) [
        | inl empty ↦
            rw (walk_from, descend, invalid, kalloc-empty s empty)
              (record { home₁ = home; grows = Grows-refl root home s tree; place = empty })
        | inr (q, qs, first) ↦
            let inner : length path < 2 = omega arith in
            let s₁ = grown root home s tree page i path h inner invalid q qs first in
            let h₁ = grown_home root home s tree page i path h inner invalid q qs first in
            let g = Grows-grown root home s tree page i path h inner invalid q qs first in
            let valid = valid_child root home s tree page i path h inner invalid q qs first in
            let to_q = child root home s tree page i path h inner invalid q qs first in
            rw (walk_from, descend, invalid, kalloc-first s q qs first)
              (Found-from root (suc level) page va home h₁ s s₁ (walk_from true level q va s₁) g (
                Found-above root level page q va path h₁ s₁ (walk_from true level q va s₁)
                  (g.homes page path h) valid to_q
                  (walk_from-Found root level q va (i ∷ path) h₁ s₁ g.tree
                    (update_self home q (some (i ∷ path))) (omega arith))))
      ]
    ]
