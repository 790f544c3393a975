-- ===== src/Inodes/Cache.antt =====
-- Which entry of the inode cache `iget` returns.
use hyeonseung_os.Base.{
  ℕ, zero, suc, ◌+◌, ◌≤◌, ◌<◌, ◌≡◌, ◌≢◌, refl, sym, ◌∙◌, ◌⊎◌, inl, inr, true, false, Option, none,
  some, ◌>>=◌, arith, ◌==◌, update, update_self, update_ne, Bool-cases, ℕ_discrete, some-injective,
  subst,
}
use hyeonseung_os.Inodes.{
  Entries, Store, ninode, is_entry, note_empty, scan_entries, get_entry, iget,
}

-- No two entries in use are for the same inode.
abbrev pub IsUnique : Entries → Type 0
IsUnique t =
    (i j : ℕ)
    → 0 < (t i).ref
    → 0 < (t j).ref
    → (t i).dev ≡ (t j).dev
    → (t i).inum ≡ (t j).inum
    → i ≡ j

-- No entry from `i` on is for the inode.
abbrev pub NoneFor : ℕ → ℕ → ℕ → ℕ → Entries → Type 0
NoneFor n i dev inum t = (j : ℕ) → i ≤ j → j < i + n → is_entry dev inum (t j) ≡ false

-- What the scan of `n` entries from `i` on finds, with what `empty` holds at its start.
pub data Scanned (n i dev inum : ℕ) (empty : Option ℕ) (t : Entries)
    : Option ℕ × Option ℕ → Type 0 where
  hit :
      {e : Option ℕ} (k : ℕ)
      → k < i + n
      → is_entry dev inum (t k) ≡ true
      → Scanned n i dev inum empty t (some k, e)
  room :
      (k : ℕ)
      → NoneFor n i dev inum t
      → (empty ≡ some k) ⊎ ((k < i + n) × ((t k).ref ≡ 0))
      → Scanned n i dev inum empty t (none, some k)
  full :
      empty ≡ none
      → NoneFor n i dev inum t
      → ((j : ℕ) → i ≤ j → j < i + n → 0 < (t j).ref)
      → Scanned n i dev inum empty t (none, none)

pub scan-Scanned :
    (n i dev inum : ℕ) (empty : Option ℕ) (t : Entries)
    → Scanned n i dev inum empty t (scan_entries n i dev inum empty t)
unfolding scan_entries
scan-Scanned zero i dev inum none t =
    full refl (λ j l u. absurd (omega arith)) (λ j l u. absurd (omega arith))
scan-Scanned zero i dev inum (some k) t = room k (λ j l u. absurd (omega arith)) (inl refl)
scan-Scanned (suc n) i dev inum empty t = elim (Bool-cases (is_entry dev inum (t i))) [
  | inl h ↦ rw h (hit i (omega arith) h)
  | inr h ↦ rw h (later empty h (scan-Scanned n (i + 1) dev inum (note_empty empty i (t i)) t))
]
  where
    below :
        is_entry dev inum (t i) ≡ false
        → NoneFor n (i + 1) dev inum t
        → NoneFor (suc n) i dev inum t
    below h m j l u = elim (ℕ_discrete j i) [
      | yes e ↦ rw e h
      | no ne ↦ m j (omega arith) (omega arith)
    ]

    noted :
        (empty : Option ℕ) (k : ℕ)
        → (note_empty empty i (t i) ≡ some k) ⊎ ((k < i + 1 + n) × ((t k).ref ≡ 0))
        → (empty ≡ some k) ⊎ ((k < i + suc n) × ((t k).ref ≡ 0))
    noted empty k (inr (l, z)) = inr (omega arith, z)
    noted (some k') k (inl e) = inl e
    noted none k (inl e) = elim (Bool-cases ((t i).ref == 0)) [
      | inl z ↦
          let same : some i ≡ some k = rw z at e in
          let at : i ≡ k = some-injective i k same in
          inr (omega (arith, at), subst (λ x. (t x).ref ≡ 0) at (ground arith))
      | inr z ↦ let g = rw z at e in cc
    ]

    was_none :
        (empty : Option ℕ) → note_empty empty i (t i) ≡ none → (empty ≡ none) × (0 < (t i).ref)
    was_none (some k) e = cc
    was_none none e = elim (Bool-cases ((t i).ref == 0)) [
      | inl z ↦ let g = rw z at e in cc
      | inr z ↦ (refl, ground arith)
    ]

    later :
        (empty : Option ℕ) {r : Option ℕ × Option ℕ}
        → is_entry dev inum (t i) ≡ false
        → Scanned n (i + 1) dev inum (note_empty empty i (t i)) t r
        → Scanned (suc n) i dev inum empty t r
    later empty h (hit k l e) = hit k (omega arith) e
    later empty h (room k m e) = room k (below h m) (noted empty k e)
    later empty h (full e m a) =
        let (x, y) = was_none empty e in
        full x (below h m) (λ j l u. elim (ℕ_discrete j i) [
          | yes z ↦ rw z y
          | no ne ↦ a j (omega arith) (omega arith)
        ])

-- What `iget` leaves: entry `k` is for the inode, with one reference more, and all else is as it was.
pub record Gotten (dev inum : ℕ) (s : Store) (k : ℕ) (s' : Store) : Type 0 where
  pub slot : k < ninode
  pub dev_is : (s'.entries k).dev ≡ dev
  pub inum_is : (s'.entries k).inum ≡ inum
  pub others : (j : ℕ) → j ≢ k → s'.entries j ≡ s.entries j
  pub volume : s'.volume ≡ s.volume
  pub disk : s'.disk ≡ s.disk
  pub unique : IsUnique s'.entries

-- Either an entry was for the inode, or none was and one that nobody used is now.
abbrev pub WasCached : ℕ → ℕ → Store → ℕ → Store → Type 0
WasCached dev inum s k s' =
    (is_entry dev inum (s.entries k) ≡ true)
    × (s'.entries k ≡ record (s.entries k) { ref = (s.entries k).ref + 1 })

abbrev pub WasAway : ℕ → ℕ → Store → ℕ → Store → Type 0
WasAway dev inum s k s' =
    ((j : ℕ) → j < ninode → is_entry dev inum (s.entries j) ≡ false)
    × ((s.entries k).ref ≡ 0)
    × ((s'.entries k).ref ≡ 1)
    × ((s'.entries k).valid ≡ false)

-- `iget` of an inode, in a cache with one entry for an inode at most: it returns the entry for the inode,
-- with one reference more, or, if there is none, one that nobody used, with one reference and not valid;
-- all other entries stay, and it is still one entry for an inode at most. It panics exactly if all 50
-- entries are in use, none of them for the inode.
pub iget_lem :
    (dev inum : ℕ) (s : Store)
    → IsUnique s.entries
    → ((j : ℕ) → ninode ≤ j → (s.entries j).ref ≡ 0)
    → ((iget dev inum s ≡ none)
        × ((j : ℕ)
            → j < ninode
            → (0 < (s.entries j).ref) × (is_entry dev inum (s.entries j) ≡ false)))
      ⊎ ((k : ℕ) × (s' : Store) × (iget dev inum s ≡ some (k, s'))
          × Gotten dev inum s k s'
          × (WasCached dev inum s k s' ⊎ WasAway dev inum s k s'))
unfolding iget
iget_lem dev inum s u beyond = go _ (scan-Scanned 50 0 dev inum none s.entries)
  where
    finish : Option (ℕ × Entries) → Option (ℕ × Store)
    finish r = do (i, t) ← r; some (i, record s { entries = t })

    go :
        (r : Option ℕ × Option ℕ)
        → Scanned 50 0 dev inum none s.entries r
        → ((finish (get_entry dev inum r s.entries) ≡ none)
            × ((j : ℕ)
                → j < ninode
                → (0 < (s.entries j).ref) × (is_entry dev inum (s.entries j) ≡ false)))
          ⊎ ((k : ℕ) × (s' : Store) × (finish (get_entry dev inum r s.entries) ≡ some (k, s'))
              × Gotten dev inum s k s'
              × (WasCached dev inum s k s' ⊎ WasAway dev inum s k s'))
    go _ (hit k l h) = inr (
      k,
      record s {
        entries = update s.entries k (record (s.entries k) { ref = (s.entries k).ref + 1 });
      },
      refl,
      record {
        slot = l;
        dev_is = ground (arith, h);
        inum_is = ground (arith, h);
        others = λ j ne.
            update_ne s.entries k (record (s.entries k) { ref = (s.entries k).ref + 1 }) j ne;
        volume = refl;
        disk = refl;
        unique = λ i j p q d n. ground (arith, u i j, h);
      },
      inl (h, update_self s.entries k (record (s.entries k) { ref = (s.entries k).ref + 1 })),
    )
    go _ (room k m (inl e)) = absurd (cc)
    go _ (room k m (inr (l, z))) = inr (
      k,
      record s {
        entries =
            update s.entries k
              (record (s.entries k) { dev = dev; inum = inum; ref = 1; valid = false });
      },
      refl,
      record {
        slot = l;
        dev_is = ground arith;
        inum_is = ground arith;
        others = λ j ne. ground arith;
        volume = refl;
        disk = refl;
        unique = λ i j p q d n. ground (arith, u i j, m i, m j, beyond i, beyond j, z);
      },
      inr ((λ j b. m j (omega arith) (omega arith)), z, ground arith, ground arith),
    )
    go _ (full _ m a) = inl (refl, λ j l. (a j (omega arith) l, m j (omega arith) l))

-- A step that makes no entry used, and leaves the inodes of those that are.
pub kept-IsUnique :
    (t t' : Entries)
    → IsUnique t
    → ((j : ℕ)
        → 0 < (t' j).ref
        → (0 < (t j).ref) × ((t' j).dev ≡ (t j).dev) × ((t' j).inum ≡ (t j).inum))
    → IsUnique t'
kept-IsUnique t t' u old i j p q d n =
    let (pi, di, ni) = old i p in
    let (pj, dj, nj) = old j q in u i j pi pj (sym di ∙ d ∙ dj) (sym ni ∙ n ∙ nj)
