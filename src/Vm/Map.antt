-- ===== src/Vm/Map.antt =====
-- kernel/vm.c: mappages, as an update of the map from page numbers to entries.
use g14_os_project.Prelude.{
  ℕ, zero, suc, ◌+◌, ◌-◌, ◌*◌, ◌/◌, ◌%◌, ◌≤◌, ◌<◌, ◌≡◌, refl, sym, ap, subst, ◌∙◌, Bool, true,
  false, Option, none, some, List, [], ◌==◌, ==_iff, if◌then◌else◌, arith, inl, inr, Bool-cases,
  leb,
}
use g14_os_project.Vm.{
  Vm, is_valid, pa2pte, px, set_pte, page_size, max_va, walk_from, walk, store_pte, map_loop,
  mappages,
}
use g14_os_project.Vm.Entries.{reach, entry, Home, IsTree, extend, reach-home}
use g14_os_project.Vm.Store.{IsTree-set_pte, entry-set_pte}
use g14_os_project.Vm.Walk.{Found, Place, walk_from-Found}
use g14_os_project.Vm.Range.{in_range, first_in_range, later_in_range, own_page, not_first}

-- The entry for va once n pages from a on are mapped to the pages from pa on.
unfoldable pub mapped : (n a pa perm va old : ℕ) → ℕ
mapped n a pa perm va old =
    if in_range n a va then pa2pte (pa + (va / page_size - a / page_size) * page_size) perm else old

-- The return value says whether all the n pages are mapped; it is -1 only when no page is free.
unfoldable pub Outcome : (ok : Bool) → (count n : ℕ) → (free : List ℕ) → Type 0
Outcome true count n free = count ≡ n
Outcome false count n free = (count < n) × (free ≡ [])

-- What mapping n pages leaves: it may stop early, after `count` of them.
pub record Mapping (root n a pa perm : ℕ) (s : Vm) (result : Option (Bool × Vm)) : Type 0 where
  pub ok : Bool
  pub home : Home
  pub after : Vm
  pub count : ℕ
  pub returns : result ≡ some (ok, after)
  pub tree : IsTree root home after
  pub outcome : Outcome ok count n after.free
  pub entries :
      (va : ℕ) → va < max_va → entry root va after ≡ mapped count a pa perm va (entry root va s)

mapped-zero : (a pa perm va old : ℕ) → old ≡ mapped 0 a pa perm va old
unfolding mapped in_range
mapped-zero a pa perm va old = ground arith

same_page :
    (a pa va : ℕ)
    → a / page_size ≡ va / page_size
    → pa + (va / page_size - a / page_size) * page_size ≡ pa
same_page a pa va e = omega arith

shift_page :
    (n a pa va : ℕ)
    → in_range n (a + page_size) va ≡ true
    → pa + page_size + (va / page_size - (a + page_size) / page_size) * page_size
      ≡ pa + (va / page_size - a / page_size) * page_size
unfolding in_range
shift_page n a pa va h =
    let le : (a + page_size) / page_size ≤ va / page_size = ground arith in omega (arith, le)

mapped-suc :
    (n a pa perm va old : ℕ)
    → mapped n
        (a + page_size)
        (pa + page_size)
        perm
        va
        (if a / page_size == va / page_size then pa2pte pa perm else old)
      ≡ mapped (suc n) a pa perm va old
unfolding mapped in_range
mapped-suc n a pa perm va old = elim (Bool-cases (a / page_size == va / page_size)) [
  | inl same ↦
      let e = (==_iff (a / page_size) (va / page_size)).0 same in
      let (out, here) = first_in_range n a va e in
      rw (mapped, out, here, same, same_page a pa va e) refl
  | inr other ↦ elim (Bool-cases (in_range n (a + page_size) va)) [
    | inl later ↦
        let here = sym (later_in_range n a va (ground arith)) ∙ later in
        rw (mapped, later, here, shift_page n a pa va later) refl
    | inr out ↦
        let here = sym (later_in_range n a va (ground arith)) ∙ out in
        rw (mapped, out, here, other) refl
  ]
]

unfoldable pub Unmapped : (root n a : ℕ) → Vm → Type 0
Unmapped root n a s =
    (va : ℕ) → va < max_va → in_range n a va ≡ true → is_valid (entry root va s) ≡ false

Mapping-nothing :
    (root n a pa perm : ℕ) (home : Home) (s s₁ : Vm) (ok : Bool)
    → IsTree root home s₁
    → ((va : ℕ) → entry root va s₁ ≡ entry root va s)
    → Outcome ok 0 n s₁.free
    → Mapping root n a pa perm s (some (ok, s₁))
Mapping-nothing root n a pa perm home s s₁ ok tree same outcome = record {
  ok = ok;
  home = home;
  after = s₁;
  count = 0;
  returns = refl;
  tree = tree;
  outcome = outcome;
  entries = λ va lt. same va ∙ mapped-zero a pa perm va (entry root va s);
}

Outcome-suc :
    (ok : Bool) (count n : ℕ) (free : List ℕ)
    → Outcome ok count n free
    → Outcome ok (suc count) (suc n) free
unfolding Outcome
Outcome-suc true count n free e = ap suc e
Outcome-suc false count n free o = (let lt = o.0 in omega (arith, lt), o.1)

-- What maps the rest after the first page's entry is stored maps all.
Mapping-first :
    (root n a pa perm : ℕ) (s s₁ : Vm) (result : Option (Bool × Vm))
    → ((va : ℕ)
        → va < max_va
        → entry root va s₁
          ≡ (if a / page_size == va / page_size then pa2pte pa perm else entry root va s))
    → Mapping root n (a + page_size) (pa + page_size) perm s₁ result
    → Mapping root (suc n) a pa perm s result
Mapping-first root n a pa perm s s₁ result first m = record {
  ok = m.ok;
  home = m.home;
  after = m.after;
  count = suc m.count;
  returns = m.returns;
  tree = m.tree;
  outcome = Outcome-suc m.ok m.count n m.after.free m.outcome;
  entries = λ va lt.
      m.entries va lt
      ∙ ap (mapped m.count (a + page_size) (pa + page_size) perm va) (first va lt)
      ∙ mapped-suc m.count a pa perm va (entry root va s);
}

-- The rest of the loop is right on every tree that has no entry for its pages.
abbrev RestIsRight : (root n a pa perm : ℕ) → Type 0
RestIsRight root n a pa perm =
    (home : Home) (s : Vm)
    → IsTree root home s
    → Unmapped root n a s
    → Mapping root n a pa perm s (map_loop n root a pa perm s)

pub entry-reach :
    (root va p : ℕ) (s : Vm) → reach 2 root va s ≡ some p → entry root va s ≡ s.pte p (px 0 va)
unfolding entry
entry-reach root va p s r = rw (entry, r) refl

Unmapped-rest :
    (root n a value : ℕ) (s s₁ : Vm)
    → Unmapped root (suc n) a s
    → ((va : ℕ)
        → va < max_va
        → entry root va s₁ ≡ (if a / page_size == va / page_size then value else entry root va s))
    → Unmapped root n (a + page_size) s₁
unfolding Unmapped
Unmapped-rest root n a value s s₁ clear first va lt h =
    let ne = not_first n a va h in
    let other : a / page_size == va / page_size ≡ false = ground arith in
    let same : entry root va s₁ ≡ entry root va s =
      first va lt ∙ ap (λ (b : Bool). if b then value else entry root va s) other in
    subst (λ x. is_valid x ≡ false) (sym same) (clear va lt (sym (later_in_range n a va ne) ∙ h))

store_pte-Mapping :
    (root n a pa perm : ℕ) (home : Home) (s : Vm) (out : Option (ℕ × ℕ) × Vm)
    → a < max_va
    → Unmapped root (suc n) a s
    → Found root 2 root a home s out
    → RestIsRight root n (a + page_size) (pa + page_size) perm
    → Mapping root
        (suc n)
        a
        pa
        perm
        s
        (store_pte (map_loop n root (a + page_size) (pa + page_size) perm) pa perm out)
unfolding Place Unmapped Outcome
store_pte-Mapping root n a pa perm home s (none, s₁) lt clear f rest =
    Mapping-nothing root (suc n) a pa perm f.home₁ s s₁ false f.grows.tree f.grows.entries
      (omega arith, f.place)
store_pte-Mapping root n a pa perm home s (some (p, i), s₁) lt clear f rest =
    let (reached, at_a) = f.place in
    let home_p =
      reach-home root f.home₁ s₁ f.grows.tree 2 root a p [] f.grows.tree.at_root refl reached in
    let s₂ = set_pte p i (pa2pte pa perm) s₁ in
    let tree =
      IsTree-set_pte root f.home₁ s₁ f.grows.tree p i (pa2pte pa perm) (extend 2 a []) home_p
        refl in
    let first : (va : ℕ)
        → va < max_va
        → entry root va s₂
          ≡ (if a / page_size == va / page_size then pa2pte pa perm else entry root va s) =
      λ va lt_va.
        entry-set_pte root f.home₁ s₁ f.grows.tree p i (pa2pte pa perm) (extend 2 a []) home_p refl
          a va lt lt_va reached at_a
        ∙ ap (λ x. if a / page_size == va / page_size then pa2pte pa perm else x)
            (f.grows.entries va) in
    let unused =
      subst (λ x. is_valid x ≡ false)
        (sym (f.grows.entries a) ∙ entry-reach root a p s₁ reached ∙ ap (s₁.pte p) (sym at_a))
        (clear a lt (own_page n a)) in
    rw (unused) (
      Mapping-first root n a pa perm s s₂ (map_loop n root (a + page_size) (pa + page_size) perm s₂)
        first (rest f.home₁ s₂ tree (Unmapped-rest root n a (pa2pte pa perm) s s₂ clear first)))

map_loop-Mapping :
    (root n a pa perm : ℕ) (home : Home) (s : Vm)
    → IsTree root home s
    → a + n * page_size ≤ max_va
    → Unmapped root n a s
    → Mapping root n a pa perm s (map_loop n root a pa perm s)
unfolding map_loop walk Outcome
map_loop-Mapping root zero a pa perm home s tree le clear =
    Mapping-nothing root 0 a pa perm home s s true tree (λ va. refl) refl
map_loop-Mapping root (suc n) a pa perm home s tree le clear =
    let lt : a < max_va = omega arith in
    let in_space : leb max_va a ≡ false = ground arith in
    rw (map_loop, walk, in_space)
      (store_pte-Mapping root n a pa perm home s (walk_from true 2 root a s) lt clear
        (walk_from-Found root 2 root a [] home s tree tree.at_root refl)
        (λ home₁ s₁ tree₁ clear₁.
          map_loop-Mapping root n (a + page_size) (pa + page_size) perm home₁ s₁ tree₁ (omega arith)
            clear₁))

-- Let the pages below root be a tree, va and the size a multiple of 4096 with size not 0, the range
-- below MAXVA and none of its pages mapped. Then mappages does not panic. It maps the first `count`
-- pages of the range to the pages from pa on, with perm, leaves the entry of every other page as it
-- was, and leaves a tree. It returns 0 only with the whole range mapped, and -1 only when no page is free.
pub mappages-Mapping :
    (root va size pa perm : ℕ) (home : Home) (s : Vm)
    → IsTree root home s
    → va % page_size ≡ 0
    → size % page_size ≡ 0
    → 0 < size
    → va + size ≤ max_va
    → Unmapped root (size / page_size) va s
    → Mapping root (size / page_size) va pa perm s (mappages root va size pa perm s)
unfolding mappages
mappages-Mapping root va size pa perm home s tree va_page size_page positive le clear =
    let some_size : size == 0 ≡ false = ground arith in
    rw (mappages, va_page, size_page, some_size)
      (map_loop-Mapping root (size / page_size) va pa perm home s tree (omega arith) clear)
