-- ===== src/Cstring/Copy.antt =====
-- `memmove` and `memset`: what each byte of memory holds afterwards.
use g14_os_project.Prelude.{
  ℕ, zero, suc, ◌+◌, ◌-◌, ◌%◌, ◌≤◌, ◌≡◌, ◌⊎◌, inl, inr, Bool, false, ◌&&◌, arith, ltb, leb, ◌==◌,
  Bool-cases, if◌then◌else◌,
}
use g14_os_project.Prelude.Table.{update}
use g14_os_project.Cstring.{Bytes, memset, copy_down, copy_up, memmove}

-- An address of the `n` bytes from `d` on.
abbrev pub inside : ℕ → ℕ → ℕ → Bool
inside d n a = leb d a && ltb a (d + n)

copy_up_lem :
    (m : Bytes) (d s n a : ℕ)
    → (d ≤ s) ⊎ (s + n ≤ d)
    → copy_up m d s n a ≡ (if inside d n a then m (a - d + s) else m a)
unfolding copy_up
copy_up_lem m d s zero a h = ground arith
copy_up_lem m d s (suc n) a h =
    ground (arith, copy_up_lem (update m d (m s)) (suc d) (suc s) n a (apart h))
  where
    apart : (d ≤ s) ⊎ (s + suc n ≤ d) → (suc d ≤ suc s) ⊎ (suc s + n ≤ suc d)
    apart (inl le) = inl (omega arith)
    apart (inr far) = inr (omega arith)

copy_down_lem :
    (m : Bytes) (d s n a : ℕ)
    → s ≤ d
    → copy_down m d s n a ≡ (if inside d n a then m (a - d + s) else m a)
unfolding copy_down
copy_down_lem m d s zero a h = ground arith
copy_down_lem m d s (suc n) a h =
    ground (arith, copy_down_lem (update m (d + n) (m (s + n))) d s n a h)

-- `memset` sets the `n` bytes from `d` on to the low byte of `c`, and changes nothing else.
pub memset_lem :
    (m : Bytes) (d c n a : ℕ) → memset m d c n a ≡ (if inside d n a then c % 256 else m a)
unfolding memset
memset_lem m d c zero a = ground arith
memset_lem m d c (suc n) a = ground (arith, memset_lem (update m d (c % 256)) (suc d) c n a)

-- `memmove` copies the `n` bytes at `src`, as they were before the call, to `dst`, and changes
-- nothing else, also where the two ranges overlap.
pub memmove_lem :
    (m : Bytes) (dst src n a : ℕ)
    → memmove m dst src n a ≡ (if inside dst n a then m (a - dst + src) else m a)
unfolding memmove
memmove_lem m dst src zero a = ground arith
memmove_lem m dst src (suc n) a =
    let some : (suc n == 0) ≡ false = ground arith in
    elim (Bool-cases (ltb src dst && ltb dst (src + suc n))) [
      | inl overlap ↦ rw (some, overlap) (copy_down_lem m dst src (suc n) a (ground arith))
      | inr apart ↦ rw (some, apart) (copy_up_lem m dst src (suc n) a (ground arith))
    ]
