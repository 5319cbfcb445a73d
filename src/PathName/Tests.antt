-- ===== src/PathName/Tests.antt =====
-- Paths on concrete inputs.
use g14_os_project.Prelude.{ℕ, suc, ◌≡◌, refl, true, some, List, [], ◌∷◌, replicate}
use g14_os_project.Prelude.Split.{pieces}
use g14_os_project.PathName.{
  Tree, skipelem, elem_of, skip_slashes, take_elem, copy_name, namex, visit, leave,
}
use g14_os_project.PathName.Walk.{namex-walk}

-- Every name is a directory below its parent, with the next number; the state counts the look-ups.
abbrev deep_tree : Tree ℕ
deep_tree = record {
  root = λ s. some (1, s);
  cwd = λ s. some (20, s);
  ilock = λ ip s. some s;
  is_dir = λ ip s. true;
  dirlookup = λ ip name s. some (some (suc ip), suc s);
  iunlock = λ ip s. some s;
  iput = λ ip s. some s;
}

abbrev a_and_bb : List ℕ
a_and_bb = b'/' ∷ b'/' ∷ b'a' ∷ b'/' ∷ b'/' ∷ b'b' ∷ b'b' ∷ []

skipelem_slashes :
    skipelem a_and_bb (replicate 14 1) ≡ some (b'b' ∷ b'b' ∷ [], b'a' ∷ 0 ∷ replicate 12 1)
unfolding skipelem elem_of skip_slashes take_elem copy_name
skipelem_slashes = refl

namex-walk_example :
    namex deep_tree true a_and_bb (replicate 14 1) 0
    ≡ some (some 2, b'b' ∷ b'b' ∷ 0 ∷ replicate 11 1, 1)
unfolding pieces visit leave copy_name
namex-walk_example = namex-walk deep_tree true a_and_bb (replicate 14 1) 0
