-- ===== src/Volume/Ensure.antt =====
-- What `bmap` keeps: the blocks stay apart, and no byte of any file changes.
use hyeonseung_os.Base.{
  ℕ, ◌+◌, ◌≤◌, ◌<◌, ◌≡◌, ◌≢◌, ◌⊎◌, inl, inr, refl, sym, ap, ◌∙◌, true, Option, none, some, ◌>>=◌,
  arith, ℕ_discrete, ltb, subst, some-injective,
}
use hyeonseung_os.Volume.{
  Volume, word, taken, root_block, entry_block, set_addr, set_entry, bmap, maxfile,
}
use hyeonseung_os.Volume.Blocks.{AllUsed, Allocation, got, full, balloc-Allocation}
use hyeonseung_os.Volume.Pointers.{
  Pointer, root, child, at, IsPointer, ensure, locate, locate-IsPointer, bmap-locate,
  locate_injective,
}
use hyeonseung_os.Volume.Partition.{IsPartitioned, at-child, at-child_none}
use hyeonseung_os.Volume.Placing.{root-Placed, entry-Placed}
use hyeonseung_os.Volume.Reached.{
  Reached-missing, content, Reached, Reached-refl, Reached-trans, Placed-Reached, Placed-Spends,
  Spends-trans, ==-ne,
}
use hyeonseung_os.Volume.Count.{free_blocks, Spends, free_in_full, levels}

-- What an attempt to find or make the block at a pointer leaves, if it may take `c` blocks: the block, or a
-- panic, for want of blocks.
pub data Ensured (v : Volume) (p : Pointer) (c : ℕ) : Option (ℕ × Volume) → Type 0 where
  reached : {a : ℕ} {v' : Volume} → Reached v v' p a → Spends c v v' → Ensured v p c (some (a, v'))
  ran_full : free_blocks v < c → at v p ≡ 0 → Ensured v p c none

full-none : (v : Volume) → AllUsed 0 v.limit v.used → free_blocks v < 1
full-none v m = omega (arith, free_in_full v.limit v.used m)

-- The two kinds of pointer: at the inode, and in an indirect block that is there.
root-Ensured :
    (n i : ℕ) (v : Volume) → IsPartitioned v → i < 13 → Ensured v (root n i) 1 (root_block n i v)
unfolding root_block at
root-Ensured n i v s h = elim (ℕ_discrete ((v.inodes n).addrs i) 0) [
  | yes z ↦ rw (z, root_block) (go z (balloc-Allocation v))
  | no nz ↦
      rw (==-ne ((v.inodes n).addrs i) nz, root_block)
        (reached (Reached-refl v (root n i) s nz) (omega arith))
]
  where
    go :
        {r : Option (ℕ × Volume)}
        → (v.inodes n).addrs i ≡ 0
        → Allocation v r
        → Ensured v (root n i) 1 (r >>= λ x. some (x.0, set_addr n i x.0 x.1))
    go z (got {a} f) =
        let v' = set_addr n i a (taken a v) in
        let placed = root-Placed n i a v s f z in
        reached (Placed-Reached v v' (root n i) a h s placed)
          (Placed-Spends v v' (root n i) a placed)
    go z (full m) = ran_full (full-none v m) z

entry-Ensured :
    (p : Pointer) (i b : ℕ) (v : Volume)
    → IsPartitioned v
    → IsPointer (child p i)
    → at v p ≡ b
    → b ≢ 0
    → Ensured v (child p i) 1 (entry_block b i v)
unfolding entry_block
entry-Ensured p i b v s h here nonzero =
    rw (← here) (elim (ℕ_discrete (word (v.bytes (at v p)) i) 0) [
      | yes z ↦ rw (z, entry_block) (go z (balloc-Allocation v))
      | no nz ↦
          rw (==-ne (word (v.bytes (at v p)) i) nz, entry_block, ← at-child v p i parent)
            (reached (Reached-refl v (child p i) s (λ z. nz (sym (at-child v p i parent) ∙ z)))
              (omega arith))
    ])
  where
    parent : at v p ≢ 0
    parent z = nonzero (sym here ∙ z)

    go :
        {r : Option (ℕ × Volume)}
        → word (v.bytes (at v p)) i ≡ 0
        → Allocation v r
        → Ensured v (child p i) 1 (r >>= λ x. some (x.0, set_entry (at v p) i x.0 x.1))
    go z (got {a} f) =
        let v' = set_entry (at v p) i a (taken a v) in
        let placed = entry-Placed p i a v s f h parent z in
        reached (Placed-Reached v v' (child p i) a h s placed)
          (Placed-Spends v v' (child p i) a placed)
    go z (full m) = ran_full (full-none v m) (at-child v p i parent ∙ z)

pub ensure-Ensured :
    (p : Pointer) (v : Volume) → IsPartitioned v → IsPointer p → Ensured v p (levels p) (ensure p v)
unfolding ensure
ensure-Ensured (root n i) v s h = root-Ensured n i v s h
ensure-Ensured (child p i) v s h = go (ensure-Ensured p v s h.0)
  where
    next :
        {b : ℕ} {v₁ : Volume} {r : Option (ℕ × Volume)}
        → Reached v v₁ p b
        → Spends (levels p) v v₁
        → Ensured v₁ (child p i) 1 r
        → Ensured v (child p i) (levels p + 1) r
    next {b} {v₁} g c (reached {a} {v'} g' c') =
        reached (Reached-trans v v₁ v' p (child p i) b a g g')
          (Spends-trans (levels p) 1 v v₁ v' c c')
    next {b} {v₁} g c (ran_full few z) =
        ran_full (omega (arith, c, few)) (Reached-missing v v₁ p b g (child p i) h z)

    go :
        {r : Option (ℕ × Volume)}
        → Ensured v p (levels p) r
        → Ensured v (child p i) (levels p + 1) (r >>= λ x. entry_block x.0 i x.1)
    go (reached {a = b} {v' = v₁} g c) = next g c (entry-Ensured p i b v₁ g.part h g.here g.nonzero)
    go (ran_full few z) = ran_full (omega (arith, few)) (at-child_none v p i z)

-- `bmap` within the largest file.
pub bmap-Ensured :
    (n bn : ℕ) (v : Volume)
    → IsPartitioned v
    → bn < maxfile
    → Ensured v (locate n bn) (levels (locate n bn)) (bmap n bn v)
bmap-Ensured n bn v s h =
    rw (bmap-locate n bn v, in_file) (ensure-Ensured (locate n bn) v s (locate-IsPointer n bn h).0)
  where
    in_file : ltb bn maxfile ≡ true
    in_file = ground arith

-- `ensure` of a pointer whose block is there returns the block and changes nothing.
ensure_there : (p : Pointer) (v : Volume) → at v p ≢ 0 → ensure p v ≡ some (at v p, v)
unfolding ensure root_block entry_block at
ensure_there (root n i) v nz = rw (==-ne ((v.inodes n).addrs i) nz) refl
ensure_there (child p i) v nz = elim (ℕ_discrete (at v p) 0) [
  | yes z ↦ absurd (nz (at-child_none v p i z))
  | no parent ↦
      let e : at v (child p i) ≡ word (v.bytes (at v p)) i = at-child v p i parent in
      rw (ensure_there p v parent) (entry_there (at v p) i v e nz)
]
  where
    entry_there :
        (b i : ℕ) (v : Volume) {a : ℕ}
        → a ≡ word (v.bytes b) i
        → a ≢ 0
        → entry_block b i v ≡ some (a, v)
    entry_there b i v e n = ground (arith, e)

pub bmap_there :
    (n bn : ℕ) (v : Volume)
    → bn < maxfile
    → at v (locate n bn) ≢ 0
    → bmap n bn v ≡ some (at v (locate n bn), v)
bmap_there n bn v h there = rw (bmap-locate n bn v, in_file) (ensure_there (locate n bn) v there)
  where
    in_file : ltb bn maxfile ≡ true
    in_file = ground arith

pub Ensured-Reached :
    {v v' : Volume} {p : Pointer} {a c : ℕ} {r : Option (ℕ × Volume)}
    → Ensured v p c r
    → r ≡ some (a, v')
    → Reached v v' p a
Ensured-Reached {v} {p} (reached g c) e = subst (λ x. Reached v x.1 p x.0) (some-injective _ _ e) g
Ensured-Reached (ran_full few z) e = cc

-- `bmap` of an index in the largest file: it puts a block at the pointer of the index, with those above
-- it, and takes at most the one to four blocks on the way, and every pointer that held a block holds it
-- still; or it panics, and then the pointer held no block, and fewer blocks than those on the way were free.
pub bmap_outcome :
    (n bn : ℕ) (v : Volume)
    → IsPartitioned v
    → bn < maxfile
    → ((bmap n bn v ≡ none) × (at v (locate n bn) ≡ 0) × (free_blocks v < levels (locate n bn)))
      ⊎ ((a : ℕ) × (v' : Volume) × (bmap n bn v ≡ some (a, v'))
          × (at v' (locate n bn) ≡ a)
          × (a ≢ 0)
          × ((q : Pointer) → IsPointer q → at v q ≢ 0 → at v' q ≡ at v q)
          × (free_blocks v ≤ free_blocks v' + levels (locate n bn)))
bmap_outcome n bn v s h = go refl (bmap-Ensured n bn v s h)
  where
    go :
        {r : Option (ℕ × Volume)}
        → bmap n bn v ≡ r
        → Ensured v (locate n bn) (levels (locate n bn)) r
        → ((bmap n bn v ≡ none) × (at v (locate n bn) ≡ 0) × (free_blocks v < levels (locate n bn)))
          ⊎ ((a : ℕ) × (v' : Volume) × (bmap n bn v ≡ some (a, v'))
              × (at v' (locate n bn) ≡ a)
              × (a ≢ 0)
              × ((q : Pointer) → IsPointer q → at v q ≢ 0 → at v' q ≡ at v q)
              × (free_blocks v ≤ free_blocks v' + levels (locate n bn)))
    go e (reached {a} {v'} g c) = inr (a, v', e, g.here, g.nonzero, g.kept, c)
    go e (ran_full few z) = inl (e, z, few)

-- `bmap` returns a marked block that no other index of any file has; a second call finds it and changes
-- nothing; and no byte of any file has changed, nor the size of one.
pub bmap_lem :
    (n bn a : ℕ) (v v' : Volume)
    → IsPartitioned v
    → bn < maxfile
    → bmap n bn v ≡ some (a, v')
    → IsPartitioned v'
      × (a ≢ 0)
      × (v'.used a ≡ true)
      × (bmap n bn v' ≡ some (a, v'))
      × ((m k : ℕ) → k < maxfile → at v' (locate m k) ≡ a → (m ≡ n) × (k ≡ bn))
      × ((m k : ℕ) → k < maxfile → (j : ℕ) → content v' (locate m k) j ≡ content v (locate m k) j)
      × ((m : ℕ) → (v'.inodes m).size ≡ (v.inodes m).size)
bmap_lem n bn a v v' s h e = (
  g.part,
  g.nonzero,
  ap v'.used (sym g.here) ∙ g.part.marked (locate n bn) valid there,
  again,
  (λ m k k_lt same. locate_injective m n k bn (
      g.part.apart (locate m k) (locate n bn) (locate-IsPointer m k k_lt).0 valid
        (λ z. g.nonzero (sym same ∙ z)) (same ∙ sym g.here))),
  (λ m k k_lt j. g.same (locate m k) (locate-IsPointer m k k_lt).0 (locate-IsPointer m k k_lt).1 j),
  (λ m. (g.sizes m).0),
)
  where
    g : Reached v v' (locate n bn) a
    g = Ensured-Reached (bmap-Ensured n bn v s h) e

    valid : IsPointer (locate n bn)
    valid = (locate-IsPointer n bn h).0

    there : at v' (locate n bn) ≢ 0
    there z = g.nonzero (sym g.here ∙ z)

    again : bmap n bn v' ≡ some (a, v')
    again = bmap_there n bn v' h there ∙ ap (λ x. some (x, v')) g.here
