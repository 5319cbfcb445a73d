-- ===== src/Inode/Bytes.antt =====
-- kernel/fs.c: little-endian numbers in the bytes of a block.
use g14_os_project.Prelude.{
  ℕ, zero, suc, ◌+◌, ◌*◌, ◌/◌, ◌%◌, ◌^◌, ◌≤◌, ◌<◌, ◌≡◌, ◌⊎◌, refl, sym, subst, ◌∙◌, inl, inr, arith,
}
use g14_os_project.Prelude.Table.{update, update_self, update_ne}
use g14_os_project.Inode.{get_le, put_le, put_addrs}

-- value < 256 ^ count
pub Fits : (count value : ℕ) → Type 0
Fits zero value = value ≡ 0
Fits (suc count) value = Fits count (value / 256)

pub Fits-half : (v : ℕ) → v < 2 ^ 16 → Fits 2 v
unfolding Fits
Fits-half v lt = omega arith

pub Fits-word : (v : ℕ) → v < 2 ^ 32 → Fits 4 v
unfolding Fits
Fits-word v lt = omega arith

-- Two ranges of bytes that do not meet.
abbrev pub AreApart : (at count at₁ count₁ : ℕ) → Type 0
AreApart at count at₁ count₁ = (at + count ≤ at₁) ⊎ (at₁ + count₁ ≤ at)

put_le-out :
    (count : ℕ) (bytes : ℕ → ℕ) (at value j : ℕ)
    → AreApart at count j 1
    → put_le count bytes at value j ≡ bytes j
unfolding put_le
put_le-out zero bytes at value j out = refl
put_le-out (suc count) bytes at value j out =
    put_le-out count (update bytes at (value % 256)) (suc at) (value / 256) j (grind arith)
    ∙ update_ne bytes at j (value % 256) (λ e. grind arith)

pub get_le-congr :
    (count : ℕ) (f g : ℕ → ℕ) (at : ℕ)
    → ((j : ℕ) → at ≤ j → j < at + count → f j ≡ g j)
    → get_le count f at ≡ get_le count g at
unfolding get_le
get_le-congr zero f g at same = refl
get_le-congr (suc count) f g at same =
    let first = same at (omega arith) (omega arith) in
    let rest = get_le-congr count f g (suc at) (λ j le lt. same j (omega arith) (omega arith)) in
    omega (arith, first, rest)

pub get_le-put_le :
    (count : ℕ) (bytes : ℕ → ℕ) (at value : ℕ)
    → Fits count value
    → get_le count (put_le count bytes at value) at ≡ value
unfolding get_le put_le Fits
get_le-put_le zero bytes at value fits = sym fits
get_le-put_le (suc count) bytes at value fits =
    let inner = update bytes at (value % 256) in
    let first : put_le count inner (suc at) (value / 256) at ≡ value % 256 =
      put_le-out count inner (suc at) (value / 256) at (inr (omega arith))
      ∙ update_self bytes at (value % 256) in
    let rest = get_le-put_le count inner (suc at) (value / 256) fits in omega (arith, first, rest)

pub get_le_apart :
    (count count₁ : ℕ) (bytes : ℕ → ℕ) (at at₁ value : ℕ)
    → AreApart at count at₁ count₁
    → get_le count (put_le count₁ bytes at₁ value) at ≡ get_le count bytes at
get_le_apart count count₁ bytes at at₁ value apart =
    get_le-congr count (put_le count₁ bytes at₁ value) bytes at
      (λ j le lt. put_le-out count₁ bytes at₁ value j (grind arith))

pub get_le-put_addrs_apart :
    (count left i at at₁ : ℕ) (addrs bytes : ℕ → ℕ)
    → AreApart at count at₁ (4 * left)
    → get_le count (put_addrs left i at₁ addrs bytes) at ≡ get_le count bytes at
unfolding put_addrs
get_le-put_addrs_apart count zero i at at₁ addrs bytes apart = refl
get_le-put_addrs_apart count (suc left) i at at₁ addrs bytes apart =
    get_le-put_addrs_apart count left (suc i) at (at₁ + 4) addrs (put_le 4 bytes at₁ (addrs i))
      (grind arith)
    ∙ get_le_apart count 4 bytes at at₁ (addrs i) (grind arith)

pub get_le-put_addrs :
    (left i at : ℕ) (addrs bytes : ℕ → ℕ) (k : ℕ)
    → k < left
    → Fits 4 (addrs (i + k))
    → get_le 4 (put_addrs left i at addrs bytes) (at + 4 * k) ≡ addrs (i + k)
unfolding put_addrs
get_le-put_addrs zero i at addrs bytes k lt fits = absurd (omega arith)
get_le-put_addrs (suc left) i at addrs bytes zero lt fits =
    let e : i + zero ≡ i = omega arith in
    let e₁ : at + 4 * zero ≡ at = omega arith in
    rw (e, e₁)
      (get_le-put_addrs_apart 4 left (suc i) at (at + 4) addrs (put_le 4 bytes at (addrs i))
          (inl (omega arith))
        ∙ get_le-put_le 4 bytes at (addrs i) (subst (λ j. Fits 4 (addrs j)) e fits))
get_le-put_addrs (suc left) i at addrs bytes (suc k) lt fits =
    let e : i + suc k ≡ suc i + k = omega arith in
    let e₁ : at + 4 * suc k ≡ at + 4 + 4 * k = omega arith in
    rw (e, e₁)
      (get_le-put_addrs left (suc i) (at + 4) addrs (put_le 4 bytes at (addrs i)) k (omega arith)
        (subst (λ j. Fits 4 (addrs j)) e fits))
