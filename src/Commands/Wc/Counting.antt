-- ===== src/Commands/Wc/Counting.antt =====
-- custom_wc.c: `count_stream` against a count of the pieces between spaces.
use g14_os_project.Prelude.{
  ℕ, ◌+◌, ◌≡◌, refl, ◌∙◌, Bool, true, false, ◌&&◌, not, List, [], ◌∷◌, ◌==◌, length, arith, inl,
  inr, Bool-cases,
}
use g14_os_project.Prelude.Split.{pieces, add_letter, is_word}
use g14_os_project.Prelude.Table.{one_if}
use g14_os_project.Commands.{newline}
use g14_os_project.Commands.Wc.{Counts, no_counts, count_from, count_stream}

-- The reference: the text cut at each space, and its pieces that are not empty.
module _ (isspace : ℕ → Bool) where
  abbrev pub count_words : List (List ℕ) → ℕ
  count_words [] = 0
  count_words (w ∷ ws) = one_if (is_word w) + count_words ws

  abbrev pub count_newlines : List ℕ → ℕ
  count_newlines [] = 0
  count_newlines (c ∷ s) = one_if (c == newline) + count_newlines s

  -- The words that begin in the text, when a word is being read or not.
  abbrev pub new_words : Bool → List (List ℕ) → ℕ
  new_words in_word [] = 0
  new_words in_word (w ∷ ws) = one_if (not in_word && is_word w) + count_words ws

  new_words-space :
      (in_word : Bool) (ps : List (List ℕ)) → new_words in_word ([] ∷ ps) ≡ new_words false ps
  new_words-space true [] = refl
  new_words-space false [] = refl
  new_words-space true (w ∷ ws) = omega arith
  new_words-space false (w ∷ ws) = omega arith

  new_words-add_letter :
      (c : ℕ) (in_word : Bool) (ps : List (List ℕ))
      → new_words in_word (add_letter c ps) ≡ one_if (not in_word) + new_words true ps
  new_words-add_letter c true [] = refl
  new_words-add_letter c false [] = refl
  new_words-add_letter c true (w ∷ ws) = omega arith
  new_words-add_letter c false (w ∷ ws) = omega arith

  same_counts :
      {l l₁ w w₁ c c₁ : ℕ}
      → l ≡ l₁
      → w ≡ w₁
      → c ≡ c₁
      → ◌≡◌ {A = Counts}
          (record { lines = l; words = w; chars = c })
          (record { lines = l₁; words = w₁; chars = c₁ })
  same_counts p q r i = record { lines = p i; words = q i; chars = r i }

  new_words-false : (ps : List (List ℕ)) → new_words false ps ≡ count_words ps
  new_words-false [] = refl
  new_words-false (w ∷ ws) = refl

  count_from_lem :
      (s : List ℕ) (c : Counts) (in_word : Bool)
      → count_from isspace s c in_word ≡ record {
        lines = c.lines + count_newlines s;
        words = c.words + new_words in_word (pieces isspace s);
        chars = c.chars + length s;
      }
  unfolding count_from pieces
  count_from_lem [] c true = same_counts (omega arith) (omega arith) (omega arith)
  count_from_lem [] c false = same_counts (omega arith) (omega arith) (omega arith)
  count_from_lem (ch ∷ s) c in_word = elim (Bool-cases (isspace ch)) [
    | inl e ↦
        rw
          (
            e,
            count_from_lem s
                (record c { chars = c.chars + 1; lines = c.lines + one_if (ch == newline) }) false,
            new_words-space in_word (pieces isspace s),
          )
          (same_counts (omega arith) (omega arith) (omega arith))
    | inr e ↦
        rw
          (
            e,
            count_from_lem s
                (record c {
                  chars = c.chars + 1;
                  lines = c.lines + one_if (ch == newline);
                  words = c.words + one_if (not in_word);
                })
                true,
            new_words-add_letter ch in_word (pieces isspace s),
          )
          (same_counts (omega arith) (omega arith) (omega arith))
  ]

  -- `count_stream`, in one pass with the flag `in_word`, counts the newlines, the pieces between
  -- spaces that are not empty, and the bytes.
  pub count_stream_lem :
      (s : List ℕ)
      → count_stream isspace s ≡ record {
        lines = count_newlines s;
        words = count_words (pieces isspace s);
        chars = length s;
      }
  unfolding count_stream
  count_stream_lem s =
      count_from_lem s no_counts false
      ∙ same_counts (omega arith) (rw (new_words-false (pieces isspace s)) (omega arith))
          (omega arith)
