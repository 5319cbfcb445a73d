-- ===== src/Prelude/Split.antt =====
-- A text cut at separators.
use mathlib.Core.Bool.{Bool, true, false}
use mathlib.Core.List.{List, [], ◌∷◌}
use g14_os_project.Prelude.Tests.{if◌then◌else◌}

module _ {ℓ} {A : Type ℓ} where
  abbrev pub add_letter : A → List (List A) → List (List A)
  add_letter c [] = (c ∷ []) ∷ []
  add_letter c (w ∷ ws) = (c ∷ w) ∷ ws

  -- Between two separators is a piece, which may be empty.
  unfoldable pub pieces : (A → Bool) → List A → List (List A)
  pieces is_sep [] = [] ∷ []
  pieces is_sep (c ∷ s) =
      let rest = pieces is_sep s in if is_sep c then [] ∷ rest else add_letter c rest

  abbrev pub is_word : List A → Bool
  is_word [] = false
  is_word (c ∷ w) = true

  -- The pieces that are not empty.
  abbrev pub words : List (List A) → List (List A)
  words [] = []
  words ([] ∷ ws) = words ws
  words ((c ∷ w) ∷ ws) = (c ∷ w) ∷ words ws
