-- ===== src/Directory/Adding.antt =====
-- A new entry of a directory, and the scan that finds it.
use hyeonseung_os.Base.{
  ℕ, zero, suc, ◌+◌, ◌-◌, ◌*◌, ◌/◌, ◌%◌, ◌≤◌, ◌<◌, ◌≡◌, ◌≢◌, refl, sym, ap, ap₂, ◌∙◌, ◌⊎◌, inl, inr,
  Bool, true, false, ◌&&◌, leb, Option, none, some, ◌>>=◌, List, ◌∷◌, arith, ◌==◌, ltb,
  if◌then◌else◌, dec_lt, ℕ_discrete, subst, some-injective, none≢some, true≢false,
}
use hyeonseung_os.Volume.{Volume, maxfile}
use hyeonseung_os.Volume.Partition.{IsPartitioned}
use hyeonseung_os.Volume.Count.{free_blocks, HasHole}
use hyeonseung_os.Volume.Store.{file_byte}
use hyeonseung_os.Volume.Transfer.{t_dev, wrote, refused, to_device}
use hyeonseung_os.Volume.Reading.{file_bytes, Unread}
use hyeonseung_os.Volume.RoundTrip.{buffer, buffer-file_bytes}
use hyeonseung_os.Volume.WriteLoop.{Stores, writei_lem}
use hyeonseung_os.Inodes.{Store, iupdate, write_inode}
use hyeonseung_os.Directory.{
  Name, find_dirent, dirent_rounds, is_named, is_free, new_dirent, slot_of, add_dirent,
}
use hyeonseung_os.Directory.Scan.{
  dirent, IsDirectory, Unread-IsDirectory, Scan, stops, passes, no_block, find_dirent-Scan,
}
use hyeonseung_os.Directory.Entries.{new_named}

-- `v'` has the new entry at `off`, in a directory that is else as in `v`.
pub record Added (name : Name) (inum n off : ℕ) (v v' : Volume) : Type 0 where
  pub part : IsPartitioned v'
  pub aligned : off % 16 ≡ 0
  pub within : off ≤ (v.inodes n).size
  pub size :
      (v'.inodes n).size
      ≡ (if ltb (v.inodes n).size (off + 16) then off + 16 else (v.inodes n).size)
  pub kind : (v'.inodes n).kind ≢ t_dev
  pub kinds : (v'.inodes n).kind ≡ (v.inodes n).kind
  pub here : dirent v' n (off / 16) ≡ buffer (new_dirent name inum) 16
  pub rest : (k : ℕ) → 16 * k ≢ off → 16 * k + 16 ≤ maxfile * 512 → dirent v' n k ≡ dirent v n k

module _ (name : Name) (inum n : ℕ) where
  file_bytes-same :
      (v v' : Volume) (off len : ℕ)
      → ((k : ℕ) → off ≤ k → k < off + len → file_byte v' n k ≡ file_byte v n k)
      → file_bytes v' n off len ≡ file_bytes v n off len
  file_bytes-same v v' off zero h = refl
  file_bytes-same v v' off (suc len) h =
      ap₂ ◌∷◌ (h off (omega arith) (omega arith))
        (file_bytes-same v v' (off + 1) len (λ k l u. h k (omega arith) (omega arith)))

  Stores-Added :
      (off : ℕ) (v v' : Volume)
      → IsDirectory v n
      → off % 16 ≡ 0
      → off ≤ (v.inodes n).size
      → off + 16 ≤ maxfile * 512
      → Stores v v' n (new_dirent name inum) off 16
      → Added name inum n off v v'
  Stores-Added off v v' d al wi fits g = record {
    part = g.part;
    aligned = al;
    within = wi;
    size = ground (arith, g.size);
    kind = λ e. d.kind (sym (g.kinds n) ∙ e);
    kinds = g.kinds n;
    here =
        let at : 16 * (off / 16) ≡ off = omega arith in
        ap (λ o. file_bytes v' n o 16) at
        ∙ buffer-file_bytes 16 n off (new_dirent name inum) v' (λ k l.
          let e : off + k - off ≡ k = omega arith in
          ground (arith, g.bytes_of n (off + k) (omega arith), e));
    rest = λ k ne le. file_bytes-same v v' (16 * k) 16 (λ j a b.
        let out : (leb off j && ltb j (off + 16)) ≡ false = ground (arith, apart k ne j a b al) in
        ground (arith, g.bytes_of n j (omega arith), out));
  }
    where
      apart :
          (k : ℕ)
          → 16 * k ≢ off
          → (j : ℕ) → 16 * k ≤ j
          → j < 16 * k + 16
          → off % 16 ≡ 0
          → (j < off) ⊎ (off + 16 ≤ j)
      apart k ne j a b al = elim (dec_lt k (off / 16)) [
        | yes l ↦ inl (omega arith)
        | no l ↦ inr (omega arith)
      ]

  saved :
      (b : Bool) (x : Store)
      → ((if b then iupdate n x else x).volume ≡ x.volume)
        × ((if b then iupdate n x else x).entries ≡ x.entries)
  unfolding iupdate
  saved true x = (refl, refl)
  saved false x = (refl, refl)

  -- The write of the entry, for the offset that the loop has stopped at.
  abbrev write_at : Store → ℕ → Volume → Option Store
  write_at s off v = do
    (w, s') ← write_inode n (new_dirent name inum) off 16 (record s { volume = v })
    elim w [ wrote k ↦ if k == 16 then some s' else none | refused ↦ none | to_device ↦ none ]

  write_at-Added :
      (off : ℕ) (v : Volume) (s s' : Store)
      → IsPartitioned v
      → IsDirectory v n
      → off % 16 ≡ 0
      → off ≤ (v.inodes n).size
      → off + 16 ≤ maxfile * 512
      → write_at s off v ≡ some s'
      → Added name inum n off v s'.volume × (s'.entries ≡ s.entries)
  unfolding write_inode
  write_at-Added off v s s' part d al wi fits e =
      elim (writei_lem n (new_dirent name inum) off 16 v part d.kind wi fits) [
        | inl (z, _, _) ↦ absurd (none≢some s' (rw z at e))
        | inr (v', z, g) ↦
            let grown : Bool = ltb (v.inodes n).size (v'.inodes n).size in
            let same = some-injective _ _ (rw z at e) in
            let (vol, ents) = saved grown (record s { volume = v' }) in
            (
              subst (Added name inum n off v) (sym vol ∙ ap (λ x. x.volume) same)
                  (Stores-Added off v v' d al wi fits g),
              sym (ap (λ x. x.entries) same) ∙ ents,
            )
      ]

  pub add_dirent-Added :
      (s s' : Store)
      → IsPartitioned s.volume
      → IsDirectory s.volume n
      → (s.volume.inodes n).size + 16 ≤ maxfile * 512
      → add_dirent n name inum s ≡ some s'
      → (off : ℕ) × (v : Volume) × Unread s.volume v
        × Added name inum n off v s'.volume
        × (s'.entries ≡ s.entries)
  unfolding add_dirent
  add_dirent-Added s s' part d fits e =
      go _ (find_dirent-Scan (dirent_rounds n s.volume) is_free n 0 s.volume part d (omega arith)) e
    where
      go :
          (r : Option (Option (ℕ × List ℕ) × Volume))
          → Scan is_free s.volume n 0 r
          → (r >>= λ x. write_at s (slot_of x.0 (x.1.inodes n).size) x.1) ≡ some s'
          → (off : ℕ) × (v : Volume) × Unread s.volume v
            × Added name inum n off v s'.volume
            × (s'.entries ≡ s.entries)
      go _ (stops {v' = w} j a b p q u) e =
          let (g, es) =
            write_at-Added (16 * j) w s s' u.part (Unread-IsDirectory s.volume w n u d)
              (omega arith) (omega (arith, u.sizes n)) (omega arith) e in
          (16 * j, w, u, g, es)
      go _ (passes {v' = w} q u) e =
          let (g, es) =
            write_at-Added (w.inodes n).size w s s' u.part (Unread-IsDirectory s.volume w n u d)
              (omega (arith, u.sizes n, d.whole)) (omega arith) (omega (arith, u.sizes n)) e in
          ((w.inodes n).size, w, u, g, es)
      go _ (no_block few hole) e = cc

  -- The scan for the name, after the entry has been added.
  pub finds :
      (off : ℕ) (v v' : Volume)
      → 0 < inum
      → inum < 65_536
      → IsDirectory v n
      → (v.inodes n).size + 16 ≤ maxfile * 512
      → ((k : ℕ) → 16 * k < (v.inodes n).size → is_named name (dirent v n k) ≡ false)
      → Added name inum n off v v'
      → ((find_dirent (dirent_rounds n v') (is_named name) n 0 v' ≡ none)
          × (free_blocks v' < 4 * ((v'.inodes n).size / 16))
          × HasHole v' n 0 (v'.inodes n).size)
        ⊎ ((w : Volume) × Unread v' w
            × (find_dirent (dirent_rounds n v') (is_named name) n 0 v'
                ≡ some (some (off, buffer (new_dirent name inum) 16), w)))
  finds off v v' nz small d fits missing g =
      go _ (find_dirent-Scan (dirent_rounds n v') (is_named name) n 0 v' g.part d' (omega arith))
    where
      d' : IsDirectory v' n
      d' = record {
        kind = g.kind;
        whole = ground (arith, g.size, d.whole, g.aligned);
        fits = ground (arith, g.size, d.fits, g.within);
      }

      inside : off < (v'.inodes n).size
      inside = ground (arith, g.size)

      named : is_named name (dirent v' n (off / 16)) ≡ true
      named = ap (is_named name) g.here ∙ new_named name inum nz small

      at : 16 * (off / 16) ≡ off
      at = omega (arith, g.aligned)

      go :
          (r : Option (Option (ℕ × List ℕ) × Volume))
          → Scan (is_named name) v' n 0 r
          → ((r ≡ none)
              × (free_blocks v' < 4 * ((v'.inodes n).size / 16))
              × HasHole v' n 0 (v'.inodes n).size)
            ⊎ ((w : Volume) × Unread v' w
                × (r ≡ some (some (off, buffer (new_dirent name inum) 16), w)))
      go _ (stops {v' = w} j a b p q u) = elim (ℕ_discrete (16 * j) off) [
        | yes e ↦
            let same : j ≡ off / 16 = omega (arith, at) in
            inr (w, u, ap₂ (λ o bs. some (some (o, bs), w)) e (ap (dirent v' n) same ∙ g.here))
        | no ne ↦
            let old : 16 * j < (v.inodes n).size =
              ground (arith, g.size, g.within, d.whole, g.aligned) in
            let eq = g.rest j ne (omega (arith, d'.fits, d'.whole)) in
            absurd (true≢false (sym p ∙ ap (is_named name) eq ∙ missing j old))
      ]
      go _ (passes q u) =
          absurd (true≢false (sym named ∙ q (off / 16) (omega arith) (omega (arith, at, inside))))
      go _ (no_block few (i, lo, hi, z)) =
          inl (refl, omega (arith, few), (i, omega arith, omega (arith, hi), z))
