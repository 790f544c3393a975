-- ===== src/Pages.antt =====
-- The allocator of pages of xv6-public/kalloc.c. A page is its address; the first word of a free page is
-- the address of the next one. Both functions run under `kmem.lock`.
pub mod Chain
pub mod Owners
mod Tests
use hyeonseung_os.Base.{
  ℕ, zero, suc, ◌+◌, ◌-◌, ◌*◌, ◌/◌, ◌%◌, ◌^◌, Bool, true, false, not, ◌||◌, Option, none, some,
  ◌==◌, ltb, leb, if◌then◌else◌, update, ◌>>=◌,
}

abbrev pub pgsize : ℕ
pgsize = 4096

-- `kmem` with the words `next` of the pages; `end` and `top` are `end` and `P2V(PHYSTOP)`.
pub record Kmem : Type 0 where
  pub next : ℕ → ℕ
  pub freelist : ℕ
  pub end : ℕ
  pub top : ℕ

-- `kfree`; `none` is its panic.
unfoldable pub kfree : ℕ → Kmem → Option Kmem
kfree v s =
    if not (v % pgsize == 0) || ltb v s.end || leb s.top v
    then none
    else some (record s { next = update s.next v s.freelist; freelist = v })

-- `kalloc`: the page, or 0.
unfoldable pub kalloc : Kmem → ℕ × Kmem
kalloc s = (s.freelist, if s.freelist == 0 then s else record s { freelist = s.next s.freelist })

-- The loop of `freerange` from `p` on, for `n` pages.
unfoldable pub free_pages : ℕ → ℕ → Kmem → Option Kmem
unfolding kfree
free_pages zero p s = some s
free_pages (suc n) p s = kfree p s >>= free_pages n (p + pgsize)

abbrev pub pground_up : ℕ → ℕ
pground_up a = (a + (pgsize - 1)) / pgsize * pgsize

-- `freerange`, with the number of rounds of its loop.
unfoldable pub freerange : ℕ → ℕ → Kmem → Option Kmem
unfolding free_pages
freerange vstart vend s = free_pages ((vend - pground_up vstart) / pgsize) (pground_up vstart) s
