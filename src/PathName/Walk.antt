-- ===== src/PathName/Walk.antt =====
-- kernel/fs.c: `namex` visits an inode for each element of the path.
use g14_os_project.Prelude.{
  ℕ, zero, suc, ◌<◌, ◌≡◌, refl, ◌∙◌, Bool, Option, none, some, List, [], ◌∷◌, length, arith,
  if◌then◌else◌,
}
use g14_os_project.PathName.{
  Tree, Visit, panics, returns, enters, visit, leave, Result, continue, start, copy_name, skipelem,
  is_end, namex_loop, namex, starts_at_root,
}
use g14_os_project.PathName.Elements.{
  elements, none_left, SkipOutcome, no_element, element, skipelem-SkipOutcome,
}

module _ {S : Type 0} (tree : Tree S) (parent : Bool) where
  -- The visits for a list of elements.
  abbrev pub walk : List (List ℕ) → List ℕ → ℕ → S → Result tree parent
  walk [] name ip s = leave tree parent name ip s
  walk (e ∷ es) name ip s =
      continue tree parent (copy_name name e) (walk es (copy_name name e))
        (visit tree parent (none_left es) (copy_name name e) ip s)

  continue_congr :
      (name : List ℕ) (f g : ℕ → S → Result tree parent) (v : Visit S)
      → ((ip : ℕ) (s : S) → f ip s ≡ g ip s)
      → continue tree parent name f v ≡ continue tree parent name g v
  continue_congr name f g panics h = refl
  continue_congr name f g (returns r s) h = refl
  continue_congr name f g (enters ip s) h = h ip s

  start_congr :
      (f g : ℕ → S → Result tree parent) (o : Option (ℕ × S))
      → ((ip : ℕ) (s : S) → f ip s ≡ g ip s)
      → start tree parent f o ≡ start tree parent g o
  start_congr f g none h = refl
  start_congr f g (some (ip, s)) h = h ip s

  namex_loop-round :
      (fuel : ℕ) (path name rest name₁ : List ℕ) (ip : ℕ) (s : S)
      → skipelem path name ≡ some (rest, name₁)
      → namex_loop tree parent (suc fuel) path name ip s
        ≡ continue tree parent name₁
            (namex_loop tree parent fuel rest name₁)
            (visit tree parent (is_end rest) name₁ ip s)
  unfolding namex_loop
  namex_loop-round fuel path name rest name₁ ip s e = rw (namex_loop, e) refl

  module _ (fuel : ℕ)
      (later : (path name : List ℕ) (ip : ℕ) (s : S)
        → length path < fuel
        → namex_loop tree parent fuel path name ip s ≡ walk (elements path) name ip s) where
    namex_loop_step :
        (path name : List ℕ) (es : List (List ℕ)) (r : Option (List ℕ × List ℕ)) (ip : ℕ) (s : S)
        → skipelem path name ≡ r
        → SkipOutcome path name es r
        → length path < suc fuel
        → namex_loop tree parent (suc fuel) path name ip s ≡ walk es name ip s
    unfolding namex_loop
    namex_loop_step path name es r ip s e no_element lt = rw (namex_loop, e) refl
    namex_loop_step path name es r ip s e (element x xs rest split last shorter) lt =
        let name₁ = copy_name name x in
        namex_loop-round fuel path name rest name₁ ip s e
        ∙ rw last (
            continue_congr name₁ (namex_loop tree parent fuel rest name₁) (walk xs name₁)
              (visit tree parent (none_left xs) name₁ ip s)
              (λ ip₁ s₁. rw (← split) (later rest name₁ ip₁ s₁ (omega arith))))

  namex_loop-walk :
      (fuel : ℕ) (path name : List ℕ) (ip : ℕ) (s : S)
      → length path < fuel
      → namex_loop tree parent fuel path name ip s ≡ walk (elements path) name ip s
  namex_loop-walk zero path name ip s lt = absurd (omega arith)
  namex_loop-walk (suc fuel) path name ip s lt =
      namex_loop_step fuel (namex_loop-walk fuel) path name (elements path) (skipelem path name) ip
        s refl (skipelem-SkipOutcome path name) lt

  -- From the root for a path that starts with a slash, else from the working directory, `namex`
  -- visits an inode for each element between slashes, an element being cut to DIRSIZ bytes, and
  -- asks whether one is the last where no element is left; the loop ends on every path.
  pub namex-walk :
      (path name : List ℕ) (s : S)
      → namex tree parent path name s
        ≡ start tree parent
            (walk (elements path) name)
            (if starts_at_root path then tree.root s else tree.cwd s)
  unfolding namex
  namex-walk path name s =
      start_congr (namex_loop tree parent (suc (length path)) path name) (walk (elements path) name)
        (if starts_at_root path then tree.root s else tree.cwd s)
        (λ ip s₁. namex_loop-walk (suc (length path)) path name ip s₁ (omega arith))
