-- ===== src/Vm/Unmap.antt =====
-- kernel/vm.c: uvmunmap, as an update of the map from page numbers to entries.
use g14_os_project.Prelude.{
  ℕ, zero, suc, ◌+◌, ◌*◌, ◌/◌, ◌%◌, ◌≤◌, ◌<◌, ◌≡◌, refl, sym, ap, subst, ◌∙◌, Bool, true, false,
  ◌&&◌, Option, none, some, List, [], ◌∷◌, ◌==◌, ==_iff, if◌then◌else◌, arith, inl, inr, Bool-cases,
  Option-cases, ltb, leb,
}
use g14_os_project.Kalloc.{phystop}
use g14_os_project.Vm.{Vm, is_valid, pte2pa, px, set_pte, page_size, max_va, walk_from, walk}
use g14_os_project.Vm.Entries.{reach, entry, entry_at, Home, IsTree, extend, reach-home}
use g14_os_project.Vm.Flags.{is_valid-zero, px-page}
use g14_os_project.Vm.Store.{IsTree-set_pte, entry-set_pte, reach-page}
use g14_os_project.Vm.Lookup.{walk_from-reach}
use g14_os_project.Vm.Range.{in_range, own_page, not_first, later_in_range, first_in_range}
use g14_os_project.Vm.Map.{entry-reach}
use g14_os_project.Vm.Space.{kfree, unmap_at, unmap_loop, uvmunmap}

-- A tree, whatever pages are free.
abbrev pub IsTable : (root : ℕ) → Home → Vm → Type 0
IsTable root home s = IsTree root home (record s { free = [] })

-- An entry that is not valid stays as it is.
abbrev pub cleared : ℕ → ℕ
cleared pte = if is_valid pte then 0 else pte

-- A page that kfree takes.
abbrev pub is_managed : (end_addr pa : ℕ) → Bool
is_managed end_addr pa = pa % page_size == 0 && leb end_addr pa && ltb pa phystop

abbrev pub free_with : (do_free : Bool) → (pte : ℕ) → List ℕ → List ℕ
free_with do_free pte free = if do_free && is_valid pte then pte2pa pte ∷ free else free

-- The free pages once the pages that the n entries from a on point to are freed.
pub freed : (do_free : Bool) → (n root a : ℕ) → Vm → List ℕ → List ℕ
freed do_free zero root a s free = free
freed do_free (suc n) root a s free =
    freed do_free n root (a + page_size) s (free_with do_free (entry root a s) free)

unfoldable pub Freeable : (end_addr : ℕ) → (do_free : Bool) → (n root a : ℕ) → Vm → Type 0
Freeable end_addr do_free n root a s =
    (va : ℕ)
    → va < max_va
    → in_range n a va ≡ true
    → do_free && is_valid (entry root va s) ≡ true
    → is_managed end_addr (pte2pa (entry root va s)) ≡ true

entry-page :
    (root va vb : ℕ) (s : Vm) → va / page_size ≡ vb / page_size → entry root va s ≡ entry root vb s
unfolding entry
entry-page root va vb s e =
    rw (entry, reach-page root va vb s e)
      (same_index va vb (reach 2 root vb s) s (px-page va vb e).2)
  where
    same_index :
        (va vb : ℕ) (found : Option ℕ) (s : Vm)
        → px 0 va ≡ px 0 vb
        → entry_at s va found ≡ entry_at s vb found
    same_index va vb none s e = refl
    same_index va vb (some p) s e = ap (s.pte p) e

kfree_lem :
    (end_addr pa : ℕ) (s : Vm)
    → is_managed end_addr pa ≡ true
    → kfree end_addr pa s ≡ some (record s { free = pa ∷ s.free })
unfolding kfree
kfree_lem end_addr pa s m = ground arith

kfree_if :
    (end_addr : ℕ) (do_free : Bool) (pte : ℕ) (s : Vm)
    → is_valid pte ≡ true
    → (do_free && is_valid pte ≡ true → is_managed end_addr (pte2pa pte) ≡ true)
    → (if do_free then kfree end_addr (pte2pa pte) s else some s)
      ≡ some (record s { free = free_with do_free pte s.free })
kfree_if end_addr false pte s valid managed = refl
kfree_if end_addr true pte s valid managed =
    kfree_lem end_addr (pte2pa pte) s (managed valid)
    ∙ ap (λ (b : Bool). some (record s { free = if b then pte2pa pte ∷ s.free else s.free }))
        (sym valid)

entry-absent : (root a : ℕ) (s : Vm) → reach 2 root a s ≡ none → entry root a s ≡ 0
unfolding entry
entry-absent root a s e = rw (entry, e) refl

-- One round of the loop.
record First (end_addr : ℕ) (do_free : Bool) (root a : ℕ) (home : Home) (s : Vm)
    (result : Option Vm) : Type 0 where
  after : Vm
  returns : result ≡ some after
  table : IsTable root home after
  entries :
      (va : ℕ)
      → va < max_va
      → entry root va after
        ≡ (if a / page_size == va / page_size then cleared (entry root va s) else entry root va s)
  frees : after.free ≡ free_with do_free (entry root a s) s.free

module _ (end_addr : ℕ) (do_free : Bool) (root a : ℕ) (home : Home) where
  First-same :
      (s : Vm)
      → IsTable root home s
      → is_valid (entry root a s) ≡ false
      → First end_addr do_free root a home s (some s)
  First-same s table invalid = record {
    after = s;
    returns = refl;
    table = table;
    entries = λ va lt. elim (Bool-cases (a / page_size == va / page_size)) [
      | inl same ↦
          let e = entry-page root a va s ((==_iff (a / page_size) (va / page_size)).0 same) in
          rw (same, ← e, invalid) refl
      | inr other ↦ rw other refl
    ];
    frees = ground arith;
  }

  First-store :
      (s : Vm) (p : ℕ) (free : List ℕ)
      → IsTable root home s
      → a < max_va
      → reach 2 root a s ≡ some p
      → is_valid (entry root a s) ≡ true
      → free ≡ free_with do_free (entry root a s) s.free
      → First end_addr do_free root a home s
          (some (set_pte p (px 0 a) 0 (record s { free = free })))
  unfolding entry reach
  First-store s p free table lt reached valid frees =
      let home_p =
        reach-home root home (record s { free = [] }) table 2 root a p [] table.at_root refl
          reached in
      record {
        after = set_pte p (px 0 a) 0 (record s { free = free });
        returns = refl;
        table =
            IsTree-set_pte root home (record s { free = [] }) table p (px 0 a) 0 (extend 2 a [])
              home_p refl;
        entries = λ va lt_va.
            entry-set_pte root home (record s { free = [] }) table p (px 0 a) 0 (extend 2 a [])
              home_p refl a va lt lt_va reached refl
            ∙ (elim (Bool-cases (a / page_size == va / page_size)) [
              | inl same ↦
                  let e =
                    entry-page root a va s ((==_iff (a / page_size) (va / page_size)).0 same) in
                  rw (same, ← e, valid) refl
              | inr other ↦ rw (other) refl
            ]);
        frees = frees;
      }

  unmap_at-First :
      (s : Vm)
      → IsTable root home s
      → a < max_va
      → (do_free && is_valid (entry root a s) ≡ true
          → is_managed end_addr (pte2pa (entry root a s)) ≡ true)
      → First end_addr do_free root a home s
          (unmap_at end_addr do_free (walk_from false 2 root a s))
  unfolding unmap_at
  unmap_at-First s table lt managed = elim (Option-cases (reach 2 root a s)) [
    | inl absent ↦
        rw (walk_from-reach 2 root a s, absent)
          (First-same s table (ap is_valid (entry-absent root a s absent) ∙ is_valid-zero))
    | inr (p, reached) ↦
        let here = entry-reach root a p s reached in
        elim (Bool-cases (is_valid (s.pte p (px 0 a)))) [
          | inl valid ↦
              rw
                (
                  walk_from-reach 2 root a s,
                  reached,
                  unmap_at,
                  valid,
                  kfree_if end_addr do_free (s.pte p (px 0 a)) s valid (λ e.
                      subst (λ x. is_managed end_addr (pte2pa x) ≡ true) here
                        (managed (rw here e))),
                )
                (First-store s p (free_with do_free (s.pte p (px 0 a)) s.free) table lt reached
                  (ap is_valid here ∙ valid) (ap (λ x. free_with do_free x s.free) (sym here)))
          | inr invalid ↦
              rw (walk_from-reach 2 root a s, reached, unmap_at, invalid)
                (First-same s table (ap is_valid here ∙ invalid))
        ]
  ]

pub record Unmapping (do_free : Bool) (n root a : ℕ) (home : Home) (s : Vm) (result : Option Vm)
    : Type 0 where
  pub after : Vm
  pub returns : result ≡ some after
  pub table : IsTable root home after
  pub entries :
      (va : ℕ)
      → va < max_va
      → entry root va after
        ≡ (if in_range n a va then cleared (entry root va s) else entry root va s)
  pub frees : after.free ≡ freed do_free n root a s s.free

later_than_first :
    (n a va : ℕ) → in_range n (a + page_size) va ≡ true → in_range (suc n) a va ≡ true
later_than_first n a va h = sym (later_in_range n a va (not_first n a va h)) ∙ h

in_range-zero : (a va : ℕ) → in_range 0 a va ≡ false
unfolding in_range
in_range-zero a va = ground arith

freed-congr :
    (do_free : Bool) (n root a : ℕ) (s s₁ : Vm) (free : List ℕ)
    → a + n * page_size ≤ max_va
    → ((va : ℕ) → va < max_va → in_range n a va ≡ true → entry root va s₁ ≡ entry root va s)
    → freed do_free n root a s₁ free ≡ freed do_free n root a s free
unfolding freed
freed-congr do_free zero root a s s₁ free le same = refl
freed-congr do_free (suc n) root a s s₁ free le same =
    rw (freed, same a (omega arith) (own_page n a))
      (freed-congr do_free n root (a + page_size) s s₁ (free_with do_free (entry root a s) free)
        (omega arith) (λ va lt h. same va lt (later_than_first n a va h)))

-- One round, then the others.
first_then_rest :
    (n a va : ℕ) (old now last : ℕ)
    → now ≡ (if a / page_size == va / page_size then cleared old else old)
    → last ≡ (if in_range n (a + page_size) va then cleared now else now)
    → last ≡ (if in_range (suc n) a va then cleared old else old)
first_then_rest n a va old now last first rest =
    elim (Bool-cases (a / page_size == va / page_size)) [
      | inl same ↦
          let (out, here) =
            first_in_range n a va ((==_iff (a / page_size) (va / page_size)).0 same) in
          rw (here) (rw (out) at rest ∙ rw same at first)
      | inr other ↦
          let there = later_in_range n a va (ground arith) in
          rw (← there, ← (rw other at first)) rest
    ]

module _ (end_addr : ℕ) (do_free : Bool) (root : ℕ) (home : Home) where
  unmap_loop-Unmapping :
      (n a : ℕ) (s : Vm)
      → IsTable root home s
      → a + n * page_size ≤ max_va
      → Freeable end_addr do_free n root a s
      → Unmapping do_free n root a home s (unmap_loop end_addr n root a do_free s)
  unfolding unmap_loop walk freed Freeable
  unmap_loop-Unmapping zero a s table le free = record {
    after = s;
    returns = refl;
    table = table;
    entries = λ va lt. rw (in_range-zero a va) refl;
    frees = refl;
  }
  unmap_loop-Unmapping (suc n) a s table le free =
      let lt : a < max_va = omega arith in
      let f = unmap_at-First end_addr do_free root a home s table lt (free a lt (own_page n a)) in
      let in_space : leb max_va a ≡ false = ground arith in
      let unchanged : (va : ℕ)
          → va < max_va
          → in_range n (a + page_size) va ≡ true
          → entry root va f.after ≡ entry root va s =
        λ va lt_va h.
          let ne = not_first n a va h in
          let other : a / page_size == va / page_size ≡ false = ground arith in
          f.entries va lt_va
          ∙ ap (λ (b : Bool). if b then cleared (entry root va s) else entry root va s) other in
      let rest =
        unmap_loop-Unmapping n (a + page_size) f.after f.table (omega arith) (λ va lt_va h valid.
          let same = unchanged va lt_va h in
          subst (λ x. is_managed end_addr (pte2pa x) ≡ true) (sym same)
            (free va lt_va (later_than_first n a va h)
              (subst (λ x. do_free && is_valid x ≡ true) same valid))) in
      record {
        after = rest.after;
        returns = rw (unmap_loop, walk, in_space, f.returns) rest.returns;
        table = rest.table;
        entries = λ va lt_va.
            first_then_rest n a va (entry root va s) (entry root va f.after)
              (entry root va rest.after) (f.entries va lt_va) (rest.entries va lt_va);
        frees =
            rest.frees
            ∙ ap (freed do_free n root (a + page_size) f.after) f.frees
            ∙ freed-congr do_free n root (a + page_size) s f.after
                (free_with do_free (entry root a s) s.free) (omega arith) unchanged;
      }

-- Let the pages below root be a tree, va a multiple of 4096, the npages pages from va on below MAXVA,
-- and, with do_free, each page that an entry there points to one that kfree takes. Then uvmunmap does
-- not panic. It makes the valid entries of the range 0, leaves every other entry as it was, and leaves
-- a tree. With do_free it puts the pages that the entries pointed to on the free list, in order.
pub uvmunmap-Unmapping :
    (end_addr : ℕ) (do_free : Bool) (root : ℕ) (home : Home) (npages va : ℕ) (s : Vm)
    → IsTable root home s
    → va % page_size ≡ 0
    → va + npages * page_size ≤ max_va
    → Freeable end_addr do_free npages root va s
    → Unmapping do_free npages root va home s (uvmunmap end_addr root va npages do_free s)
unfolding uvmunmap
uvmunmap-Unmapping end_addr do_free root home npages va s table aligned le free =
    rw (uvmunmap, aligned)
      (unmap_loop-Unmapping end_addr do_free root home npages va s table le free)
