-- ===== src/UserLib.antt =====
-- user/printf.c and user/ulib.c: numbers printed and read by user programs. What `putc` writes is the
-- list of its bytes, in order.
pub mod Numbers
mod Tests
use g14_os_project.Prelude.{
  ℕ, zero, suc, ◌+◌, ◌-◌, ◌*◌, ◌/◌, ◌%◌, ◌^◌, Bool, true, false, ◌&&◌, Option, none, some, List, [],
  ◌∷◌, ◌==◌, if◌then◌else◌, leb, ltb,
}

-- digits[d] of "0123456789ABCDEF"
abbrev pub digit : ℕ → ℕ
digit d = if ltb d 10 then b'0' + d else b'A' + (d - 10)

-- The do-while loop of `printint`: the bytes of `buf`, the last one stored first, and the room left
-- in it; `none` is a store beyond `buf`.
unfoldable pub digit_loop : (base room : ℕ) → ℕ → List ℕ → Option (ℕ × List ℕ)
digit_loop base zero x buf = none
digit_loop base (suc room) x buf =
    let stored = digit (x % base) ∷ buf in
    let rest = digit_loop base room (x / base) stored in
    if x / base == 0 then some (room, stored) else rest

-- buf[i++] = '-'
abbrev pub put_sign : Bool → ℕ × List ℕ → Option (List ℕ)
put_sign false (room, buf) = some buf
put_sign true (zero, buf) = none
put_sign true (suc room, buf) = some (b'-' ∷ buf)

abbrev pub signed_with : Bool → Option (ℕ × List ℕ) → Option (List ℕ)
signed_with neg none = none
signed_with neg (some stored) = put_sign neg stored

-- `xx` is a 64-bit pattern, and `buf` has 20 bytes.
unfoldable pub printint : (xx base : ℕ) → (sgn : Bool) → Option (List ℕ)
unfolding digit_loop
printint xx base sgn =
    let neg = sgn && leb (2 ^ 63) xx in
    let x = if neg then 2 ^ 64 - xx else xx in signed_with neg (digit_loop base 20 x [])

abbrev pub is_digit : ℕ → Bool
is_digit c = leb b'0' c && leb c b'9'

-- The loop of `atoi`, on a 32-bit pattern.
unfoldable pub atoi_from : ℕ → List ℕ → ℕ
atoi_from n [] = n
atoi_from n (c ∷ s) =
    let rest = atoi_from ((n * 10 + (c - b'0')) % 2 ^ 32) s in if is_digit c then rest else n

unfoldable pub atoi : List ℕ → ℕ
unfolding atoi_from
atoi s = atoi_from 0 s
