-- ===== src/Pages/Owners.antt =====
-- Who has which page: the free list, or a client of `kalloc`.
use hyeonseung_os.Base.{
  ℕ, ◌%◌, ◌≤◌, ◌<◌, ◌≡◌, ◌≢◌, ◌⊎◌, inl, inr, refl, false, not, ◌||◌, List, [], ◌∷◌, none, some,
  ◌==◌, arith, ltb, leb, update, update_self, Bool-cases,
}
use hyeonseung_os.Pages.{Kmem, kfree, kalloc, pgsize}
use hyeonseung_os.Pages.Chain.{NotIn, Holds, IsChain-frame}

-- With free pages, `kalloc` returns the first, which is not null and is not free any more; with none, it
-- returns null and changes nothing.
pub kalloc-Holds :
    (s : Kmem) (ps : List ℕ)
    → Holds s ps
    → let (p, s') = kalloc s in
      ((ps ≡ []) × (p ≡ 0) × (s' ≡ s))
      ⊎ ((qs : List ℕ) × (ps ≡ p ∷ qs) × (p ≢ 0) × NotIn p qs × Holds s' qs)
unfolding kalloc
kalloc-Holds s [] h = inl (refl, h, rw h refl)
kalloc-Holds s (q ∷ qs) (e, z, n, c) = rw e (inr (qs, refl, z, n, ground (arith, c)))

-- `kfree` puts a page back that is not free, whole and in range; it panics on every other address.
pub kfree-Holds :
    (v : ℕ) (s : Kmem) (ps : List ℕ)
    → 0 < s.end
    → NotIn v ps
    → Holds s ps
    → ((s' : Kmem) × (kfree v s ≡ some s')
        × Holds s' (v ∷ ps)
        × (v % pgsize ≡ 0)
        × (s.end ≤ v)
        × (v < s.top))
      ⊎ ((kfree v s ≡ none) × ((v % pgsize ≢ 0) ⊎ (v < s.end) ⊎ (s.top ≤ v)))
unfolding kfree
kfree-Holds v s ps e o h = elim (Bool-cases (not (v % pgsize == 0) || ltb v s.end || leb s.top v)) [
  | inl b ↦ inr (rw b refl, ground arith)
  | inr b ↦ inl (
    record s { next = update s.next v s.freelist; freelist = v },
    rw b refl,
    (
      refl,
      omega (arith, in_range b),
      o,
      rw (update_self s.next v s.freelist) (IsChain-frame s.next v s.freelist s.freelist ps o h),
    ),
    aligned b,
    (in_range b).0,
    (in_range b).1,
  )
]
  where
    in_range :
        (not (v % pgsize == 0) || ltb v s.end || leb s.top v) ≡ false → (s.end ≤ v) × (v < s.top)
    in_range b = ground arith

    aligned : (not (v % pgsize == 0) || ltb v s.end || leb s.top v) ≡ false → v % pgsize ≡ 0
    aligned b = ground arith
