-- ===== src/Pipe/Ring.antt =====
-- The bytes that wait in a pipe, oldest first, and what one write and one read do to them.
use g14_os_project.Prelude.{
  ℕ, zero, suc, ◌%◌, ◌<◌, ◌≡◌, refl, ap, ◌∙◌, ◌≢◌, List, [], ◌∷◌, ◌++◌, arith, length, get_or, set,
  get_or-set_self, get_or-set_ne, u32, add32,
}
use g14_os_project.Pipe.{Pipe, pipe_size, put, oldest, advance}
use g14_os_project.Pipe.Inv.{fill, IsValid, fill-put, fill-advance}

-- The `n` bytes of the ring from counter `r` on.
abbrev pub window : List ℕ → ℕ → ℕ → List ℕ
window buffer r zero = []
window buffer r (suc n) = get_or buffer (r % pipe_size) 0 ∷ window buffer (add32 r 1) n

abbrev pub contents : Pipe → List ℕ
contents p = window p.buffer p.nread (fill p)

pub length-window : (buffer : List ℕ) (r n : ℕ) → length (window buffer r n) ≡ n
length-window buffer r zero = refl
length-window buffer r (suc n) = ap suc (length-window buffer (add32 r 1) n)

-- A byte stored behind the window extends it, and changes nothing in it.
window-set :
    (buffer : List ℕ) (r n w ch : ℕ)
    → length buffer ≡ pipe_size
    → r < u32
    → n < pipe_size
    → w ≡ add32 r n
    → window (set buffer (w % pipe_size) ch) r (suc n) ≡ window buffer r n ++ (ch ∷ [])
window-set buffer r zero w ch len hr hn e =
    let same : w % pipe_size ≡ r % pipe_size = omega arith in
    rw (same, get_or-set_self buffer (r % pipe_size) ch 0 (omega arith))
window-set buffer r (suc n) w ch len hr hn e =
    let apart : w % pipe_size ≢ r % pipe_size = omega arith in
    rw (
      get_or-set_ne buffer (w % pipe_size) (r % pipe_size) ch 0 apart,
      window-set buffer (add32 r 1) n w ch len (omega arith) (omega arith) (omega arith),
    )

pub contents-put :
    {p : Pipe} (ch : ℕ)
    → IsValid p
    → fill p < pipe_size
    → contents (put p ch) ≡ contents p ++ (ch ∷ [])
unfolding put
contents-put {p} ch v h =
    let grown : fill (put p ch) ≡ suc (fill p) = omega (arith, fill-put v ch h) in
    ap (window (put p ch).buffer p.nread) grown
    ∙ window-set p.buffer p.nread (fill p) p.nwrite ch v.storage v.nread_in h (omega arith)

pub contents-advance :
    {p : Pipe} → IsValid p → 0 < fill p → contents p ≡ oldest p ∷ contents (advance p)
unfolding oldest advance
contents-advance {p} v h =
    let shrunk : fill p ≡ suc (fill (advance p)) = omega (arith, fill-advance v h) in
    ap (window p.buffer p.nread) shrunk
