-- ===== src/Inodes/Last.antt =====
-- The last `iput` of a file without links, and the number that it frees.
use hyeonseung_os.Base.{ℕ, ◌≡◌, ◌≢◌, sym, true, false, some, arith, ◌==◌, update, update_self}
use hyeonseung_os.Volume.{Volume, Inode, set_inode}
use hyeonseung_os.Volume.Pointers.{Pointer, at, IsPointer, inode_of}
use hyeonseung_os.Volume.Partition.{IsPartitioned}
use hyeonseung_os.Volume.Truncated.{itrunc_lem}
use hyeonseung_os.Inodes.{Store, iupdate, free_inode, drop_ref, iput}

-- `iput` by the one holder of a file that has no links does not panic: the entry is in use no longer, the
-- blocks of the file are free and no others, the inode is free on the disk and in the cache, and every
-- other entry and inode is as it was.
pub iput_frees :
    (i : ℕ) (s : Store)
    → IsPartitioned s.volume
    → (s.entries i).valid ≡ true
    → (s.volume.inodes (s.entries i).inum).nlink ≡ 0
    → (s.entries i).ref ≡ 1
    → (s' : Store) × (iput i s ≡ some s')
      × ((s'.entries i).ref ≡ 0)
      × ((s'.entries i).valid ≡ false)
      × ((s'.disk (s.entries i).inum).kind ≡ 0)
      × (s'.volume.inodes (s.entries i).inum ≡ s'.disk (s.entries i).inum)
      × ((q : Pointer)
          → IsPointer q
          → inode_of q ≡ (s.entries i).inum
          → at s.volume q ≢ 0
          → s'.volume.used (at s.volume q) ≡ false)
      × ((b : ℕ)
          → ((q : Pointer)
              → IsPointer q
              → inode_of q ≡ (s.entries i).inum
              → at s.volume q ≢ 0
              → at s.volume q ≢ b)
          → s'.volume.used b ≡ s.volume.used b)
      × ((j : ℕ) → j ≢ i → s'.entries j ≡ s.entries j)
      × ((m : ℕ)
          → m ≢ (s.entries i).inum
          → (s'.volume.inodes m ≡ s.volume.inodes m) × (s'.disk m ≡ s.disk m))
unfolding iput free_inode iupdate
iput_frees i s part valid links one =
    let n : ℕ = (s.entries i).inum in
    let (v, e, freed, rest, _, _, others, _) = itrunc_lem s.volume n part in
    let gone : Inode = record (v.inodes n) { kind = 0 } in
    let v' : Volume = set_inode n gone v in
    let s₁ : Store = iupdate n (record s { volume = v' }) in
    let s₂ : Store = record s₁ {
      entries = update s.entries i (record (s.entries i) { valid = false });
    } in
    let no_links : ((s.volume.inodes n).nlink == 0) ≡ true = ground arith in
    let last : ((s.entries i).ref == 1) ≡ true = ground arith in
    (
      drop_ref i s₂,
      simp (valid, no_links, last, e),
      ground arith,
      ground arith,
      ground arith,
      sym (update_self s.disk n (v'.inodes n)),
      (λ q h m nz. freed q h m nz),
      (λ b out. rest b out),
      (λ j ne. ground arith),
      (λ m ne. (ground (arith, others m ne), ground arith)),
    )
