-- ===== src/Directory/Linking.antt =====
-- An entry that `dirlink` has made is the one that `dirlookup` finds.
use hyeonseung_os.Base.{
  ℕ, ◌+◌, ◌*◌, ◌/◌, ◌≤◌, ◌<◌, ◌≡◌, ◌≢◌, refl, sym, ap, ap₂, ◌∙◌, ◌⊎◌, inl, inr, Bool, true, false,
  Option, none, some, ◌>>=◌, List, arith, ◌==◌, Option-cases, some-injective, none≢some, true≢false,
}
use hyeonseung_os.Volume.{Volume, maxfile}
use hyeonseung_os.Volume.Partition.{IsPartitioned}
use hyeonseung_os.Volume.Count.{free_blocks, HasHole}
use hyeonseung_os.Volume.Reading.{Unread, Unread-trans}
use hyeonseung_os.Inodes.{Store, iget, iput}
use hyeonseung_os.Directory.{
  Name, find_dirent, dirent_rounds, is_named, number, t_dir, get_dirent, dirlookup, add_dirent,
  dirlink, inum_of,
}
use hyeonseung_os.Directory.Scan.{
  dirent, IsDirectory, Unread-IsDirectory, Scan, stops, passes, no_block, find_dirent-Scan,
  dirent-Unread,
}
use hyeonseung_os.Directory.Entries.{new_inum}
use hyeonseung_os.Directory.Adding.{add_dirent-Added, finds}

-- `dirlookup` of a directory is its scan, and `iget`.
lookup_of :
    (dp n : ℕ) (name : Name) (s : Store)
    → number dp s ≡ n
    → (s.volume.inodes n).kind ≡ t_dir
    → dirlookup dp name s ≡ (
        find_dirent (dirent_rounds n s.volume) (is_named name) n 0 s.volume >>= λ x.
        get_dirent (s.entries dp).dev x.0 (record s { volume = x.1 }))
unfolding dirlookup
lookup_of dp n name s e kind =
    let is_dir : ((s.volume.inodes (number dp s)).kind == t_dir) ≡ true =
      ground (arith, ap (λ m. (s.volume.inodes m).kind) e, kind) in
    rw is_dir (
      ap
        (λ m. find_dirent (dirent_rounds m s.volume) (is_named name) m 0 s.volume >>= λ x.
          get_dirent (s.entries dp).dev x.0 (record s { volume = x.1 }))
        e)

-- A name that `dirlookup` does not find is in no entry.
not_found :
    (dp : ℕ) (name : Name) (s s₁ : Store)
    → IsPartitioned s.volume
    → IsDirectory s.volume (number dp s)
    → (s.volume.inodes (number dp s)).kind ≡ t_dir
    → dirlookup dp name s ≡ some (none, s₁)
    → (w : Volume) × Unread s.volume w
      × (record s { volume = w } ≡ s₁)
      × ((k : ℕ)
          → 16 * k < (s.volume.inodes (number dp s)).size
          → is_named name (dirent s.volume (number dp s) k) ≡ false)
not_found dp name s s₁ part d kind e =
    let n = number dp s in
    go _
      (find_dirent-Scan (dirent_rounds n s.volume) (is_named name) n 0 s.volume part d
        (omega arith))
      (sym (lookup_of dp n name s refl kind) ∙ e)
  where
    go :
        (r : Option (Option (ℕ × List ℕ) × Volume))
        → Scan (is_named name) s.volume (number dp s) 0 r
        → (r >>= λ x. get_dirent (s.entries dp).dev x.0 (record s { volume = x.1 }))
          ≡ some (none, s₁)
        → (w : Volume) × Unread s.volume w
          × (record s { volume = w } ≡ s₁)
          × ((k : ℕ)
              → 16 * k < (s.volume.inodes (number dp s)).size
              → is_named name (dirent s.volume (number dp s) k) ≡ false)
    go _ (stops {v' = w} j a b p q u) e =
        elim (Option-cases (
          iget (s.entries dp).dev (inum_of (dirent s.volume (number dp s) j))
            (record s { volume = w }))) [
              | inl z ↦ absurd (
                  none≢some (none, s₁)
                    (ap (λ o. o >>= λ x. some (some (x.0, 16 * j), x.1)) (sym z) ∙ e))
              | inr (x, z) ↦
                  let g = ap (λ o. o >>= λ x. some (some (x.0, 16 * j), x.1)) (sym z) ∙ e in
                  absurd (none≢some (x.0, 16 * j) (sym (ap (λ y. y.0) (some-injective _ _ g))))
            ]
    go _ (passes {v' = w} q u) e =
        (w, u, ap (λ x. x.1) (some-injective _ _ e), λ k l. q k (omega arith) l)
    go _ (no_block few hole) e = absurd (none≢some (none, s₁) e)

-- A `dirlink` that returns 0 has found nothing, and has added the entry.
linked :
    (dp : ℕ) (name : Name) (inum : ℕ) (s s' : Store)
    → dirlink dp name inum s ≡ some (true, s')
    → (s₁ : Store) × (dirlookup dp name s ≡ some (none, s₁))
      × (add_dirent (number dp s₁) name inum s₁ ≡ some s')
unfolding dirlink
linked dp name inum s s' e = go _ refl e
  where
    rest : Option (ℕ × ℕ) × Store → Option (Bool × Store)
    rest (r, s₁) = elim r [
      | some (i, off) ↦ (do s'' ← iput i s₁; some (false, s''))
      | none ↦ (do s'' ← add_dirent (number dp s₁) name inum s₁; some (true, s''))
    ]

    go :
        (r : Option (Option (ℕ × ℕ) × Store))
        → dirlookup dp name s ≡ r
        → (r >>= rest) ≡ some (true, s')
        → (s₁ : Store) × (dirlookup dp name s ≡ some (none, s₁))
          × (add_dirent (number dp s₁) name inum s₁ ≡ some s')
    go none x e = absurd (none≢some (true, s') e)
    go (some (some (i, off), s₁)) x e = elim (Option-cases (iput i s₁)) [
      | inl z ↦ absurd (none≢some (true, s') (rw z at e))
      | inr (s₂, z) ↦ absurd (true≢false (sym (ap (λ y. y.0) (some-injective _ _ (rw z at e)))))
    ]
    go (some (none, s₁)) x e = elim (Option-cases (add_dirent (number dp s₁) name inum s₁)) [
      | inl z ↦ absurd (none≢some (true, s') (rw z at e))
      | inr (s₂, z) ↦ (s₁, x, z ∙ ap (λ y. some y) (ap (λ y. y.1) (some-injective _ _ (rw z at e))))
    ]

-- After a `dirlink` that returns 0, `dirlookup` finds the name at the entry that was made, and gets its
-- inode; every other entry is as it was. The calls of `log_write` aside, which the model leaves out, the
-- lookup panics otherwise only where a byte of the directory has no block and fewer blocks are free than
-- four for each of its entries, or where `iget` of the inode panics. The directory is whole, its blocks are its own, and it has room for an entry more.
pub dirlookup-dirlink :
    (dp : ℕ) (name : Name) (inum : ℕ) (s s' : Store)
    → IsPartitioned s.volume
    → IsDirectory s.volume (number dp s)
    → (s.volume.inodes (number dp s)).kind ≡ t_dir
    → (s.volume.inodes (number dp s)).size + 16 ≤ maxfile * 512
    → 0 < inum
    → inum < 65_536
    → dirlink dp name inum s ≡ some (true, s')
    → (off : ℕ) × ((k : ℕ)
        → 16 * k ≢ off
        → 16 * k < (s.volume.inodes (number dp s)).size
        → dirent s'.volume (number dp s) k ≡ dirent s.volume (number dp s) k)
      × (((dirlookup dp name s' ≡ none)
            × (free_blocks s'.volume < 4 * ((s'.volume.inodes (number dp s)).size / 16))
            × HasHole s'.volume (number dp s) 0 (s'.volume.inodes (number dp s)).size)
          ⊎ ((w : Volume) × Unread s'.volume w
              × (dirlookup dp name s' ≡ (do
                (i, t) ← iget (s.entries dp).dev inum (record s' { volume = w })
                some (some (i, off), t)))))
dirlookup-dirlink dp name inum s s' part d kind fits nz small e =
    let n = number dp s in
    let (s₁, missed, add) = linked dp name inum s s' e in
    let (w, u, same, missing) = not_found dp name s s₁ part d kind missed in
    let s₂ : Store = record s { volume = w } in
    let add' : add_dirent n name inum s₂ ≡ some s' =
      ap (λ x. add_dirent (number dp x) name inum x) same ∙ add in
    let dw = Unread-IsDirectory s.volume w n u d in
    let (off, v, u', g, es) =
      add_dirent-Added name inum n s₂ s' u.part dw (omega (arith, fits, u.sizes n)) add' in
    let both = Unread-trans s.volume w v u u' in
    let dv = Unread-IsDirectory w v n u' dw in
    let entry = λ (k : ℕ) (l : 16 * k < (s.volume.inodes n).size).
      dirent-Unread s.volume v n k both (omega (arith, d.fits, d.whole)) in
    let found =
      finds name inum n off v s'.volume nz small dv (omega (arith, fits, both.sizes n))
        (λ k l.
          let l' : 16 * k < (s.volume.inodes n).size = omega (arith, both.sizes n) in
          ap (is_named name) (entry k l') ∙ missing k l')
        g in
    let num : number dp s' ≡ n = ap (λ t. (t dp).inum) es in
    let dir : (s'.volume.inodes n).kind ≡ t_dir = g.kinds ∙ both.kinds n ∙ kind in
    (
      off,
      (λ k ne l. g.rest k ne (omega (arith, d.fits, d.whole)) ∙ entry k l),
      elim found [
        | inl (z, few, hole) ↦
            inl (lookup_of dp n name s' num dir ∙ ap (λ r. r >>= after) z, few, hole)
        | inr (w', uw, z) ↦ inr (
          w',
          uw,
          lookup_of dp n name s' num dir
              ∙ ap (λ r. r >>= after) z
              ∙ ap₂
                  (λ m k. iget m k (record s' { volume = w' }) >>= λ x. some (some (x.0, off), x.1))
                  (ap (λ t. (t dp).dev) es) (new_inum name inum nz small),
        )
      ],
    )
  where
    after : Option (ℕ × List ℕ) × Volume → Option (Option (ℕ × ℕ) × Store)
    after x = get_dirent (s'.entries dp).dev x.0 (record s' { volume = x.1 })
