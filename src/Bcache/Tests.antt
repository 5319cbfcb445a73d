-- ===== src/Bcache/Tests.antt =====
-- A cache after `binit`, and the theorems there.
use g14_os_project.Prelude.{ℕ, ◌+◌, ◌^◌, ◌<◌, ◌≡◌, refl, true, false, ltb, arith, zero, suc}
use g14_os_project.Prelude.Table.{one_if}
use g14_os_project.Sleeplock.{initsleeplock, holdingsleep}
use g14_os_project.Bcache.{Buf, Bcache, nbuf, binit, link_all, bread, put_buf}
use g14_os_project.Bcache.Inv.{IsValid, occurs, put_buf-IsValid}
use g14_os_project.Bcache.Locked.{BreadOutcome, bread-BreadOutcome}

-- Every block of the disk holds its own number.
abbrev disk : ℕ → ℕ → ℕ
disk dev blockno = blockno

abbrev zeroed : ℕ → Buf ℕ
zeroed i = record {
  valid = false;
  dev = 0;
  blockno = 0;
  lock = initsleeplock;
  refcnt = 0;
  content = 0;
}

occurs-link_all : (n i : ℕ) → occurs i (link_all n) ≡ one_if (ltb i n)
unfolding link_all
occurs-link_all zero i = ground arith
occurs-link_all (suc n) i = ground (arith, occurs-link_all n i)

abbrev empty : Bcache ℕ
empty = binit zeroed

empty-IsValid : IsValid disk empty
unfolding binit
empty-IsValid = record {
  once = occurs-link_all nbuf;
  unique = λ i j li lj ne dev block. absurd (ne refl);
  clean = λ i li unused valid. cc;
}

empty_refs : (j : ℕ) → (empty.buf j).refcnt + 1 < 2 ^ 32
unfolding binit
empty_refs j = omega arith

bread-BreadOutcome_example : BreadOutcome disk 7 empty 1 5 (bread disk 7 1 5 empty)
bread-BreadOutcome_example =
    bread-BreadOutcome disk 7 empty 1 5 empty-IsValid (omega arith) empty_refs

-- Buffer 3 holds block 5 of device 1, and process 4 its lock.
abbrev held : Buf ℕ
held = record {
  valid = true;
  dev = 1;
  blockno = 5;
  lock = record { locked = true; pid = 4 };
  refcnt = 1;
  content = 5;
}

abbrev one_held : Bcache ℕ
one_held = put_buf empty 3 held

one_held-IsValid : IsValid disk one_held
unfolding binit
one_held-IsValid =
    put_buf-IsValid disk empty 3 held empty.lru empty-IsValid (λ j. refl)
      (λ j lj apart ne dev block. absurd (omega (arith, dev))) (λ unused valid. refl)

held_by_4 : holdingsleep 4 (one_held.buf 3).lock ≡ true
unfolding holdingsleep
held_by_4 = refl
