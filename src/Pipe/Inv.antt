-- ===== src/Pipe/Inv.antt =====
-- The invariant of a pipe's counters.
use g14_os_project.Prelude.{
  ℕ, ◌+◌, ◌≤◌, ◌<◌, ◌≡◌, ◌↔◌, true, List, arith, length, length-set, u32, sub32, ◌%◌,
}
use g14_os_project.Pipe.{Pipe, pipe_size, fresh, put, advance, is_full, is_empty}

-- How many bytes wait in the pipe: the distance of the counters, which wrap.
abbrev pub fill : Pipe → ℕ
fill p = sub32 p.nwrite p.nread

pub record IsValid (p : Pipe) : Type 0 where
  pub storage : length p.buffer ≡ pipe_size
  pub nread_in : p.nread < u32
  pub nwrite_in : p.nwrite < u32
  pub fits : fill p ≤ pipe_size

pub fresh-IsValid : (junk : List ℕ) → length junk ≡ pipe_size → IsValid (fresh junk)
unfolding fresh
fresh-IsValid junk h = record {
  storage = h;
  nread_in = omega arith;
  nwrite_in = omega arith;
  fits = omega arith;
}

module _ {p : Pipe} (v : IsValid p) where
  pub is_full_iff : (is_full p ≡ true) ↔ (fill p ≡ pipe_size)
  unfolding is_full
  is_full_iff = (λ h. ground arith, λ h. ground arith)

  pub is_empty_iff : (is_empty p ≡ true) ↔ (fill p ≡ 0)
  unfolding is_empty
  is_empty_iff = (λ h. ground arith, λ h. ground arith)

  pub fill-put : (ch : ℕ) → fill p < pipe_size → fill (put p ch) ≡ fill p + 1
  unfolding put
  fill-put ch h = omega arith

  pub put-IsValid : (ch : ℕ) → fill p < pipe_size → IsValid (put p ch)
  unfolding put
  put-IsValid ch h = record {
    storage = omega (arith, length-set p.buffer (p.nwrite % pipe_size) ch);
    nread_in = omega arith;
    nwrite_in = omega arith;
    fits = omega arith;
  }

  pub fill-advance : 0 < fill p → fill (advance p) + 1 ≡ fill p
  unfolding advance
  fill-advance h = omega arith

  pub advance-IsValid : 0 < fill p → IsValid (advance p)
  unfolding advance
  advance-IsValid h = omega arith
