-- ===== src/UserLib/Numbers.antt =====
-- user/printf.c and user/ulib.c: `printint` stays in its buffer, and `atoi` reads what it prints.
use g14_os_project.Prelude.{
  ℕ, zero, suc, ◌+◌, ◌-◌, ◌*◌, ◌/◌, ◌%◌, ◌^◌, ◌≤◌, ◌<◌, ◌≡◌, refl, ap, ◌∙◌, Bool, true, false, ◌&&◌,
  Option, some, List, [], ◌∷◌, ◌==◌, ==_iff, leb, arith, inl, inr, Bool-cases, leb→le,
}
use native.Mathlib.Nat.{pow-suc}
use g14_os_project.Prelude.Table.{one_if}
use g14_os_project.UserLib.{digit, digit_loop, signed_with, printint, is_digit, atoi_from, atoi}

digit_small : (d : ℕ) → d < 10 → digit d ≡ b'0' + d
digit_small d lt = ground arith

atoi_from-digit :
    (n d : ℕ) (s : List ℕ)
    → d < 10
    → n * 10 + d < 2 ^ 32
    → atoi_from n (digit d ∷ s) ≡ atoi_from (n * 10 + d) s
unfolding atoi_from
atoi_from-digit n d s lt fits =
    let value : (n * 10 + (b'0' + d - b'0')) % 2 ^ 32 ≡ n * 10 + d = omega arith in
    let test : is_digit (b'0' + d) ≡ true = ground arith in
    rw (digit_small d lt, atoi_from, test, value) refl

-- The loop leaves the room that is to spare, and what it stores reads back as the number.
data Stored (x spare : ℕ) (buf : List ℕ) : Option (ℕ × List ℕ) → Type 0 where
  stored :
      (left : ℕ) (out : List ℕ)
      → spare ≤ left
      → (x < 2 ^ 31 → atoi_from 0 out ≡ atoi_from x buf)
      → Stored x spare buf (some (left, out))

Stored-next :
    (x spare : ℕ) (buf : List ℕ) (r : Option (ℕ × List ℕ))
    → Stored (x / 10) spare (digit (x % 10) ∷ buf) r
    → Stored x spare buf r
Stored-next x spare buf r (stored left out le reads) = stored left out le (λ small.
    let value : x / 10 * 10 + x % 10 ≡ x = omega arith in
    reads (omega arith)
    ∙ atoi_from-digit (x / 10) (x % 10) buf (omega arith) (omega arith)
    ∙ ap (λ n. atoi_from n buf) value)

Stored-last :
    (x spare room : ℕ) (buf : List ℕ)
    → spare ≤ room
    → x / 10 ≡ 0
    → Stored x spare buf (some (room, digit (x % 10) ∷ buf))
Stored-last x spare room buf le last = stored room (digit (x % 10) ∷ buf) le (λ small.
    let value : 0 * 10 + x % 10 ≡ x = omega arith in
    atoi_from-digit 0 (x % 10) buf (omega arith) (omega arith) ∙ ap (λ n. atoi_from n buf) value)

-- Room for e digits is enough below 10 ^ e.
digit_loop-Stored :
    (room e spare x : ℕ) (buf : List ℕ)
    → room ≡ suc e + spare
    → x < 10 ^ suc e
    → Stored x spare buf (digit_loop 10 room x buf)
unfolding digit_loop
digit_loop-Stored zero e spare x buf same fits = absurd (omega arith)
digit_loop-Stored (suc room) zero spare x buf same fits =
    let last : (x / 10 == 0) ≡ true = (==_iff (x / 10) 0).1 (omega (arith, pow-suc 10 0)) in
    rw (digit_loop, last) (Stored-last x spare room buf (omega arith) (omega (arith, pow-suc 10 0)))
digit_loop-Stored (suc room) (suc e) spare x buf same fits = elim (Bool-cases (x / 10 == 0)) [
  | inl last ↦
      rw (digit_loop, last)
        (Stored-last x spare room buf (omega arith) ((==_iff (x / 10) 0).0 last))
  | inr more ↦
      rw (digit_loop, more)
        (Stored-next x spare buf (digit_loop 10 room (x / 10) (digit (x % 10) ∷ buf)) (
          digit_loop-Stored room e spare (x / 10) (digit (x % 10) ∷ buf) (omega arith)
            (omega (arith, pow-suc 10 (suc e)))))
]

signed_with-Stored :
    (neg : Bool) (x : ℕ) (r : Option (ℕ × List ℕ))
    → Stored x (one_if neg) [] r
    → (out : List ℕ) × (signed_with neg r ≡ some out)
      × (neg ≡ false → x < 2 ^ 31 → atoi_from 0 out ≡ x)
unfolding atoi_from
signed_with-Stored false x r (stored left out le reads) = (out, refl, λ e small. reads small)
signed_with-Stored true x r (stored zero out le reads) = absurd (omega arith)
signed_with-Stored true x r (stored (suc left) out le reads) =
    (b'-' ∷ out, refl, λ e. absurd (ground arith))

negative-le : (sgn : Bool) (xx : ℕ) → (sgn && leb (2 ^ 63) xx) ≡ true → 2 ^ 63 ≤ xx
negative-le true xx neg = leb→le (2 ^ 63) xx neg
negative-le false xx neg = absurd (ground arith)

-- `printint` of a 64-bit number in base 10, signed or not, never stores beyond its 20 bytes, and
-- `atoi` reads back what it prints of a number that is an `int` and not negative.
pub atoi-printint :
    (xx : ℕ) (sgn : Bool)
    → xx < 2 ^ 64
    → (out : List ℕ) × (printint xx 10 sgn ≡ some out) × (xx < 2 ^ 31 → atoi out ≡ xx)
unfolding printint atoi
atoi-printint xx sgn lt = elim (Bool-cases (sgn && leb (2 ^ 63) xx)) [
  | inl neg ↦
      let large = negative-le sgn xx neg in
      let (out, e, reads) =
        signed_with-Stored true (2 ^ 64 - xx) (digit_loop 10 20 (2 ^ 64 - xx) [])
          (digit_loop-Stored 20 18 1 (2 ^ 64 - xx) [] (omega arith) (omega arith)) in
      (out, rw (printint, neg) e, λ small. absurd (omega arith))
  | inr plain ↦
      let (out, e, reads) =
        signed_with-Stored false xx (digit_loop 10 20 xx [])
          (digit_loop-Stored 20 19 0 xx [] (omega arith) (omega arith)) in
      (out, rw (printint, plain) e, λ small. reads refl small)
]
