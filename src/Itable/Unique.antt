-- ===== src/Itable/Unique.antt =====
-- kernel/fs.c: an inode of the disk has at most one entry in use, whichever calls are made.
use g14_os_project.Prelude.{
  ℕ, zero, suc, ◌<◌, ◌≡◌, ◌≢◌, sym, ◌∙◌, true, ◌==◌, arith, inl, inr, Bool-cases,
}
use g14_os_project.Prelude.Int.{ℤ, pos, negsuc, dec_ℤ, ltb_ℤ}
use g14_os_project.Prelude.Table.{update}
use g14_os_project.Itable.{ninode, Inode, Itable, in_use, is_inode}

-- The entries are not both in use for one inode.
unfoldable pub Apart : Inode → Inode → Type 0
Apart a b = in_use a ≡ true → in_use b ≡ true → a.dev ≡ b.dev → a.inum ≢ b.inum

unfoldable pub OneEntry : Itable → Type 0
OneEntry t = (i j : ℕ) → i < ninode → j < ninode → i ≢ j → Apart (t i) (t j)

Apart-comm : (a b : Inode) → Apart a b → Apart b a
unfolding Apart
Apart-comm a b h used_b used_a d n = h used_a used_b (sym d) (sym n)

-- Entry k may become v when no other entry is in use for its inode.
pub OneEntry-update :
    (t : Itable) (k : ℕ) (v : Inode)
    → OneEntry t
    → ((j : ℕ) → j < ninode → k ≢ j → Apart v (t j))
    → OneEntry (update t k v)
unfolding OneEntry
OneEntry-update t k v inv alone i j lt_i lt_j ne = elim (Bool-cases (k == i)) [
  | inl at_i ↦ elim (Bool-cases (k == j)) [
    | inl at_j ↦ absurd (ne (ground arith))
    | inr not_j ↦ rw (at_i, not_j) (alone j lt_j (ground arith))
  ]
  | inr not_i ↦ elim (Bool-cases (k == j)) [
    | inl at_j ↦ rw (not_i, at_j) (Apart-comm v (t i) (alone i lt_i (ground arith)))
    | inr not_j ↦ rw (not_i, not_j) (inv i j lt_i lt_j ne)
  ]
]

-- An entry keeps its inode, and is in use only if it was.
pub OneEntry-keep :
    (t : Itable) (k : ℕ) (v : Inode)
    → k < ninode
    → OneEntry t
    → v.dev ≡ (t k).dev
    → v.inum ≡ (t k).inum
    → (in_use v ≡ true → in_use (t k) ≡ true)
    → OneEntry (update t k v)
unfolding OneEntry Apart
OneEntry-keep t k v lt inv d n used =
    OneEntry-update t k v inv (λ j lt_j ne used_v used_j same_dev same_inum.
      inv k j lt lt_j ne (used used_v) used_j (sym d ∙ same_dev) (sym n ∙ same_inum))

pub in_use-dec_ℤ : (r : ℤ) → ltb_ℤ (pos 0) (dec_ℤ r) ≡ true → ltb_ℤ (pos 0) r ≡ true
in_use-dec_ℤ (pos zero) h = absurd (ground arith)
in_use-dec_ℤ (pos (suc n)) h = ground arith
in_use-dec_ℤ (negsuc n) h = ground arith

pub is_inode-parts :
    (dev inum : ℕ) (v : Inode)
    → is_inode dev inum v ≡ true
    → (in_use v ≡ true) × (v.dev ≡ dev) × (v.inum ≡ inum)
is_inode-parts dev inum v h = ground arith
