-- ===== src/Commands/Echo/Escapes.antt =====
-- custom_echo.c: the loop of `process_escapes` ends within its buffer, and undoes quoting.
use g14_os_project.Prelude.{
  ℕ, zero, suc, ◌+◌, ◌-◌, ◌*◌, ◌≤◌, ◌<◌, ==_iff, ◌≡◌, refl, false, some, List, [], ◌∷◌, ◌++◌, ◌==◌,
  if◌then◌else◌, length, length-append, arith, inl, inr, Bool-cases,
}
use g14_os_project.Commands.Echo.{
  backslash, octal, escape, process_one, process_loop, process_escapes,
}

octal-length : (k v : ℕ) (s : List ℕ) → length ((octal k v s).1) ≤ length s
unfolding octal
octal-length zero v s = omega arith
octal-length (suc k) v [] = omega arith
octal-length (suc k) v (d ∷ s) = let more = octal-length k (v * 8 + (d - b'0')) s in ground arith

escape-length :
    (e : ℕ) (s : List ℕ)
    → (length ((escape e s).1) ≤ length s)
      × (length ((escape e s).0) + length ((escape e s).1) ≤ 2 + length s)
unfolding escape
escape-length e s = let rest = octal-length 3 0 s in ground arith

process_one-length :
    (c : ℕ) (s : List ℕ)
    → (length ((process_one c s).1) ≤ length s)
      × (length ((process_one c s).0) + length ((process_one c s).1) ≤ 1 + length s)
unfolding process_one
process_one-length c [] = (omega arith, omega arith)
process_one-length c (e ∷ s) = let after = escape-length e s in ground arith

-- With fuel for each byte the loop ends, and has written no more bytes than it has read.
process_loop-bounds :
    (fuel : ℕ) (s : List ℕ)
    → length s ≤ fuel
    → (out : List ℕ) × (process_loop fuel s ≡ some out) × (length out ≤ length s)
unfolding process_loop
process_loop-bounds fuel [] le = ([], refl, omega arith)
process_loop-bounds zero (c ∷ s) le = absurd (omega arith)
process_loop-bounds (suc fuel) (c ∷ s) le =
    let one = process_one-length c s in
    let (out, e, short) = process_loop-bounds fuel ((process_one c s).1) (omega arith) in
    (
      (process_one c s).0 ++ out,
      rw e refl,
      rw (length-append ((process_one c s).0) out) (omega arith),
    )

-- The loop of `process_escapes` ends within one round for each byte of the argument, and what it
-- writes fits the buffer, which holds one byte more than the argument.
pub process_escapes-bounds :
    (src : List ℕ)
    → (buf : List ℕ) × (process_escapes src ≡ some buf) × (length buf + 1 ≤ length src + 1)
unfolding process_escapes
process_escapes-bounds src =
    let (buf, e, short) = process_loop-bounds (length src) src (omega arith) in
    (buf, e, omega arith)

-- How a user writes a text for `-e`: each backslash twice.
unfoldable pub quote : List ℕ → List ℕ
quote [] = []
quote (c ∷ s) =
    let rest = quote s in if c == backslash then backslash ∷ backslash ∷ rest else c ∷ rest

process_one-plain : (c : ℕ) (s : List ℕ) → (c == backslash) ≡ false → process_one c s ≡ (c ∷ [], s)
unfolding process_one
process_one-plain c [] h = refl
process_one-plain c (e ∷ s) h = rw h refl

process_one-backslash : (s : List ℕ) → process_one backslash (backslash ∷ s) ≡ (backslash ∷ [], s)
unfolding process_one escape
process_one-backslash s = refl

length-quote : (c : ℕ) (s : List ℕ) → length (quote s) < length (quote (c ∷ s))
unfolding quote
length-quote c s = ground arith

process_loop-quote :
    (s : List ℕ) (fuel : ℕ) → length (quote s) ≤ fuel → process_loop fuel (quote s) ≡ some s
unfolding process_loop quote
process_loop-quote [] fuel le = refl
process_loop-quote (c ∷ s) zero le = absurd (omega (arith, length-quote c s))
process_loop-quote (c ∷ s) (suc fuel) le =
    let rest = process_loop-quote s fuel (omega (arith, length-quote c s)) in
    elim (Bool-cases (c == backslash)) [
      | inl e ↦ rw ((==_iff c backslash).0 e, process_one-backslash (quote s), rest) refl
      | inr e ↦ rw (e, process_one-plain c (quote s) e, rest) refl
    ]

-- `process_escapes` gives back a text whose backslashes were doubled.
pub process_escapes-quote : (s : List ℕ) → process_escapes (quote s) ≡ some s
unfolding process_escapes
process_escapes-quote s = process_loop-quote s (length (quote s)) (omega arith)
