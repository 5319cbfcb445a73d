-- ===== src/PathName/Elements.antt =====
-- kernel/fs.c: what `skipelem` takes off a path is its first piece between slashes that is not empty.
use g14_os_project.Prelude.{
  ℕ, ◌≤◌, ◌<◌, ◌≡◌, refl, sym, ap, ◌∙◌, Bool, true, false, Option, none, some, List, [], ◌∷◌,
  length, arith, inl, inr, Bool-cases,
}
use g14_os_project.Prelude.Split.{pieces, words}
use g14_os_project.PathName.{
  is_slash, skip_slashes, take_elem, copy_name, elem_of, skipelem, is_end,
}

-- The elements of a path.
abbrev pub elements : List ℕ → List (List ℕ)
elements path = words (pieces is_slash path)

tail_pieces : List ℕ → List (List ℕ)
tail_pieces [] = []
tail_pieces (c ∷ s) = pieces is_slash s

pieces-take_elem : (s : List ℕ) → pieces is_slash s ≡ (take_elem s).0 ∷ tail_pieces (take_elem s).1
unfolding pieces take_elem tail_pieces
pieces-take_elem [] = refl
pieces-take_elem (c ∷ s) = elim (Bool-cases (is_slash c)) [
  | inl e ↦ rw e refl
  | inr e ↦ rw (e, pieces-take_elem s) refl
]

words-tail : (s : List ℕ) → words (tail_pieces (take_elem s).1) ≡ elements (take_elem s).1
unfolding pieces take_elem tail_pieces
words-tail [] = refl
words-tail (c ∷ s) = elim (Bool-cases (is_slash c)) [
  | inl e ↦ rw (e, pieces, e) refl
  | inr e ↦ rw e (words-tail s)
]

elements-skip_slashes : (s : List ℕ) → elements (skip_slashes s) ≡ elements s
unfolding pieces skip_slashes
elements-skip_slashes [] = refl
elements-skip_slashes (c ∷ s) = elim (Bool-cases (is_slash c)) [
  | inl e ↦ rw e (elements-skip_slashes s)
  | inr e ↦ rw (e, pieces, e) refl
]

-- What the loop over slashes leaves is empty or starts with another byte.
data Skipped : List ℕ → Type 0 where
  at_end : Skipped []
  at_elem : (c : ℕ) (s : List ℕ) → is_slash c ≡ false → Skipped (c ∷ s)

skip_slashes-Skipped : (s : List ℕ) → Skipped (skip_slashes s)
unfolding skip_slashes
skip_slashes-Skipped [] = at_end
skip_slashes-Skipped (c ∷ s) = elim (Bool-cases (is_slash c)) [
  | inl e ↦ rw e (skip_slashes-Skipped s)
  | inr e ↦ rw e (at_elem c s e)
]

length-skip_slashes : (s : List ℕ) → length (skip_slashes s) ≤ length s
unfolding skip_slashes
length-skip_slashes [] = omega arith
length-skip_slashes (c ∷ s) = let rest = length-skip_slashes s in ground arith

length-take_elem : (s : List ℕ) → length (take_elem s).1 ≤ length s
unfolding take_elem
length-take_elem [] = omega arith
length-take_elem (c ∷ s) = let rest = length-take_elem s in ground arith

abbrev pub none_left : List (List ℕ) → Bool
none_left [] = true
none_left (e ∷ es) = false

elements-at_elem :
    (c : ℕ) (s : List ℕ)
    → is_slash c ≡ false
    → elements (c ∷ s) ≡ (c ∷ (take_elem s).0) ∷ elements (take_elem s).1
unfolding pieces
elements-at_elem c s h = rw (h, pieces-take_elem s, words-tail s) refl

is_end-Skipped : (s : List ℕ) → Skipped s → none_left (elements s) ≡ is_end s
unfolding pieces
is_end-Skipped s at_end = refl
is_end-Skipped s (at_elem c r h) = rw (elements-at_elem c r h) refl

-- What `skipelem` gives for a path with the elements `es`.
pub data SkipOutcome (path name : List ℕ) : List (List ℕ) → Option (List ℕ × List ℕ) → Type 0 where
  no_element : SkipOutcome path name [] none
  element :
      (e : List ℕ) (es : List (List ℕ)) (rest : List ℕ)
      → elements rest ≡ es
      → is_end rest ≡ none_left es
      → length rest < length path
      → SkipOutcome path name (e ∷ es) (some (rest, copy_name name e))

elem_of-SkipOutcome :
    (path s name : List ℕ)
    → length s ≤ length path
    → Skipped s
    → SkipOutcome path name (elements s) (elem_of s name)
unfolding elem_of pieces
elem_of-SkipOutcome path s name le at_end = no_element
elem_of-SkipOutcome path s name le (at_elem c r h) =
    let rest = (take_elem r).1 in
    rw (elements-at_elem c r h, h)
      (element (c ∷ (take_elem r).0) (elements rest) (skip_slashes rest)
        (elements-skip_slashes rest)
        (sym (is_end-Skipped (skip_slashes rest) (skip_slashes-Skipped rest))
          ∙ ap none_left (elements-skip_slashes rest))
        (omega (arith, length-skip_slashes rest, length-take_elem r)))

-- `skipelem` takes the first element off the path: it copies it to `name`, and leaves a path with
-- the other elements, which is empty exactly when there are none; at no element it gives 0.
pub skipelem-SkipOutcome :
    (path name : List ℕ) → SkipOutcome path name (elements path) (skipelem path name)
unfolding skipelem
skipelem-SkipOutcome path name = rw (← elements-skip_slashes path) (
    elem_of-SkipOutcome path (skip_slashes path) name (length-skip_slashes path)
      (skip_slashes-Skipped path))
