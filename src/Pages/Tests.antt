-- ===== src/Pages/Tests.antt =====
-- The allocator's theorems at concrete inputs.
use hyeonseung_os.Base.{ℕ, ◌≡◌, refl, Option, some, ◌>>=◌, List, [], ◌∷◌, arith, update}
use hyeonseung_os.Pages.{Kmem, kalloc, freerange}
use hyeonseung_os.Pages.Chain.{Holds}

-- The kernel ends at 4000, and the memory at 20480; the pages at 8192 and 12288 are free.
abbrev two_free : Kmem
two_free = record { next = update (λ i. 0) 8192 12288; freelist = 8192; end = 4000; top = 20480 }

abbrev both : List ℕ
both = 8192 ∷ 12288 ∷ []

two_free-Holds : Holds two_free both
two_free-Holds = (refl, ground arith, (ground arith, tt), (refl, ground arith, tt, refl))

abbrev first : Option Kmem → Option ℕ
first s = do s' ← s; some (kalloc s').0

-- The range is cut to whole pages, and the last one is the first to be given out.
fills : first (freerange 4000 17000 (record two_free { freelist = 0 })) ≡ some 12288
unfolding freerange kalloc
fills = refl
