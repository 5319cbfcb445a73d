-- ===== src/Inode/Reading.antt =====
-- kernel/fs.c: readi copies out one part of the content.
use g14_os_project.Prelude.{
  ℕ, zero, suc, ◌+◌, ◌-◌, ◌*◌, ◌/◌, ◌%◌, ◌^◌, ◌≤◌, ◌<◌, ◌≡◌, refl, sym, ap, ◌∙◌, Bool, true, false,
  Option, some, List, [], ◌∷◌, ◌++◌, ◌==◌, if◌then◌else◌, ltb, min, length, arith, inl, inr,
  Bool-cases,
}
use g14_os_project.Prelude.Int.{ℤ, pos, negsuc}
use g14_os_project.Bitmap.{Superblock, Disk}
use g14_os_project.Inode.{
  Inode, block_size, take_bytes, Copies, round_size, unless_failed, read_loop, add_off, readi,
}
use g14_os_project.Inode.Blocks.{addr_of, content, HasBlocks, bmap-HasBlocks}

length-take_bytes : (bytes : ℕ → ℕ) (at n : ℕ) → length (take_bytes bytes at n) ≡ n
unfolding take_bytes
length-take_bytes bytes at zero = refl
length-take_bytes bytes at (suc n) = ap suc (length-take_bytes bytes (suc at) n)

take_bytes-append :
    (bytes : ℕ → ℕ) (at m n : ℕ)
    → take_bytes bytes at (m + n) ≡ take_bytes bytes at m ++ take_bytes bytes (at + m) n
unfolding take_bytes
take_bytes-append bytes at zero n =
    let e : at + 0 ≡ at = omega arith in let z : 0 + n ≡ n = omega arith in rw (e, z) refl
take_bytes-append bytes at (suc m) n =
    let e : at + suc m ≡ suc at + m = omega arith in
    let z : suc m + n ≡ suc (m + n) = omega arith in
    rw (e, z) (ap (λ l. bytes at ∷ l) (take_bytes-append bytes (suc at) m n))

content-at :
    (ip : Inode) (d : Disk) (bn at off : ℕ)
    → at < block_size
    → off ≡ bn * block_size + at
    → content ip d off ≡ d.block (addr_of ip d bn) at
unfolding content
content-at ip d bn at off lt e =
    let block : off / block_size ≡ bn = omega arith in
    let inside : off % block_size ≡ at = omega arith in rw (content, block, inside) refl

-- The bytes of one block.
take_bytes-block :
    (ip : Inode) (d : Disk) (bn at m off : ℕ)
    → at + m ≤ block_size
    → off ≡ bn * block_size + at
    → take_bytes (d.block (addr_of ip d bn)) at m ≡ take_bytes (content ip d) off m
unfolding take_bytes content
take_bytes-block ip d bn at zero off le e = refl
take_bytes-block ip d bn at (suc m) off le e =
    ap (λ x. x ∷ take_bytes (d.block (addr_of ip d bn)) (suc at) m)
      (sym (content-at ip d bn at off (omega arith) e))
    ∙ ap (λ l. content ip d off ∷ l)
        (take_bytes-block ip d bn (suc at) m (suc off) (omega arith) (omega arith))

-- What is copied in two parts is copied at once: the second part only if the first succeeds.
abbrev pub continue : {W : Type 0} → Copies W → (dst : ℕ) → List ℕ → Bool × W → Bool × W
continue copies dst ys (false, w) = (false, w)
continue copies dst ys (true, w) = copies.copy_out dst ys w

pub record IsSequential {W : Type 0} (copies : Copies W) : Type 0 where
  pub empty : (dst : ℕ) (w : W) → copies.copy_out dst [] w ≡ (true, w)
  pub append :
      (dst : ℕ) (xs ys : List ℕ) (w : W)
      → copies.copy_out dst (xs ++ ys) w
        ≡ continue copies (dst + length xs) ys (copies.copy_out dst xs w)

module _ {W : Type 0} (sb : Superblock) (copies : Copies W) where
  -- -1 for a copy that fails.
  abbrev pub result_of : (count : ℕ) → Inode → Disk → Bool × W → Option (ℤ × Inode × Disk × W)
  result_of count ip d (false, w) = some (negsuc 0, ip, d, w)
  result_of count ip d (true, w) = some (pos count, ip, d, w)

module _ {W : Type 0} (sb : Superblock) (copies : Copies W) (seq : IsSequential copies) (ip : Inode)
    (d : Disk) (has : HasBlocks ip d) where
  round_step :
      (later : W → Option (ℤ × Inode × Disk × W)) (count dst : ℕ) (ys : List ℕ) (r : Bool × W)
      → ((w : W) → later w ≡ result_of sb copies count ip d (copies.copy_out dst ys w))
      → unless_failed sb copies later ip d r
        ≡ result_of sb copies count ip d (continue copies dst ys r)
  round_step later count dst ys (false, w) e = refl
  round_step later count dst ys (true, w) e = e w

  nothing_left :
      (tot dst off left : ℕ) (w : W)
      → left ≡ 0
      → some (pos tot, ip, d, w)
        ≡ result_of sb copies
            (tot + left)
            ip
            d
            (copies.copy_out dst (take_bytes (content ip d) off left) w)
  unfolding take_bytes
  nothing_left tot dst off left w e =
      let t : tot + 0 ≡ tot = omega arith in rw (e, t, seq.empty dst w) refl

  -- A copy of `left` bytes is one of the round's bytes, then one of the others.
  two_parts :
      (dst off m left : ℕ) (w : W)
      → m ≤ left
      → copies.copy_out dst (take_bytes (content ip d) off left) w
        ≡ continue copies
            (dst + m)
            (take_bytes (content ip d) (off + m) (left - m))
            (copies.copy_out dst (take_bytes (content ip d) off m) w)
  two_parts dst off m left w le =
      let xs = take_bytes (content ip d) off m in
      let ys = take_bytes (content ip d) (off + m) (left - m) in
      let whole : left ≡ m + (left - m) = omega arith in
      ap (λ k. copies.copy_out dst (take_bytes (content ip d) off k) w) whole
      ∙ ap (λ l. copies.copy_out dst l w) (take_bytes-append (content ip d) off m (left - m))
      ∙ seq.append dst xs ys w
      ∙ ap (λ k. continue copies (dst + k) ys (copies.copy_out dst xs w))
          (length-take_bytes (content ip d) off m)

  read_loop-content :
      (fuel tot dst off left : ℕ) (w : W)
      → left ≤ fuel
      → off + left ≤ ip.size
      → read_loop sb copies fuel tot dst off left ip d w
        ≡ result_of sb copies
            (tot + left)
            ip
            d
            (copies.copy_out dst (take_bytes (content ip d) off left) w)
  unfolding read_loop
  read_loop-content zero tot dst off left w enough le =
      nothing_left tot dst off left w (omega arith)
  read_loop-content (suc fuel) tot dst off left w enough le = elim (Bool-cases (left == 0)) [
    | inl over ↦ rw (over) (nothing_left tot dst off left w (ground arith))
    | inr more ↦
        let m = round_size sb copies off left in
        let some_left : 0 < left = ground arith in
        let m_le : m ≤ left = ground arith in
        let m_pos : 0 < m =
          (let lt : off % block_size < block_size = omega arith in ground arith) in
        let fit : off % block_size + m ≤ block_size =
          (let lt : off % block_size < block_size = omega arith in ground arith) in
        let ne = has.allocated off (omega arith) in
        let there : addr_of ip d (off / block_size) == 0 ≡ false = ground arith in
        let chunk =
          take_bytes-block ip d (off / block_size) (off % block_size) m off fit (omega arith) in
        let sum : tot + m + (left - m) ≡ tot + left = omega arith in
        rw (read_loop, more, bmap-HasBlocks sb ip d off has (omega arith), there, chunk)
          (round_step (read_loop sb copies fuel (tot + m) (dst + m) (off + m) (left - m) ip d)
              (tot + left) (dst + m) (take_bytes (content ip d) (off + m) (left - m))
              (copies.copy_out dst (take_bytes (content ip d) off m) w)
              (λ w₁.
                read_loop-content fuel (tot + m) (dst + m) (off + m) (left - m) w₁ (omega arith)
                  (omega arith)
                ∙ ap
                    (λ k. result_of sb copies k ip d (
                      copies.copy_out (dst + m) (take_bytes (content ip d) (off + m) (left - m))
                        w₁))
                    sum)
            ∙ ap (result_of sb copies (tot + left) ip d) (sym (two_parts dst off m left w m_le)))
  ]

  -- The bytes that a read of n bytes at off gives: none from beyond the end.
  abbrev pub available : (off n : ℕ) → ℕ
  available off n = min n (ip.size - off)

  -- Let every block of the file be allocated, and let off + n fit 32 bits. Then readi does not panic
  -- and changes neither the inode nor the disk. It copies the bytes of the content from off on to dst,
  -- n of them or those up to the end of the file, and returns their number, or -1 when that copy fails.
  pub readi-content :
      (dst off n : ℕ) (w : W)
      → off + n < 2 ^ 32
      → readi sb copies dst off n ip d w
        ≡ result_of sb copies
            (available off n)
            ip
            d
            (copies.copy_out dst (take_bytes (content ip d) off (available off n)) w)
  unfolding readi
  readi-content dst off n w fits =
      let m = available off n in
      let no_wrap : add_off sb copies off n ≡ off + n = omega arith in
      let grows : ltb (off + n) off ≡ false = ground arith in
      let sum : 0 + m ≡ m = omega arith in
      let whole = λ (k : ℕ).
        result_of sb copies k ip d (copies.copy_out dst (take_bytes (content ip d) off m) w) in
      elim (Bool-cases (ltb ip.size off)) [
        | inl beyond ↦
            let empty : m ≡ 0 = ground arith in
            rw (readi, beyond) (nothing_left 0 dst off m w empty ∙ ap whole sum)
        | inr inside ↦
            let left : (if ltb ip.size (off + n) then ip.size - off else n) ≡ m = ground arith in
            rw (readi, no_wrap, inside, grows, left)
              (read_loop-content m 0 dst off m w (omega arith) (ground arith) ∙ ap whole sum)
      ]
