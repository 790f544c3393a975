-- ===== src/Inodes/Tests.antt =====
-- Runs of the inode cache, and its theorems at a small cache.
use hyeonseung_os.Base.{
  ℕ, ◌<◌, ◌≡◌, ◌≢◌, ◌⊎◌, refl, true, false, Option, none, some, ◌>>=◌, arith, ◌==◌, if◌then◌else◌,
}
use hyeonseung_os.Volume.Pointers.{Pointer, at, IsPointer, inode_of}
use hyeonseung_os.Volume.Blank.{blank, blank-IsPartitioned}
use hyeonseung_os.Inodes.{Entry, Store, ninode, is_entry, iget, iput, ialloc}
use hyeonseung_os.Inodes.Cache.{Gotten, WasCached, WasAway, iget_lem}
use hyeonseung_os.Inodes.Last.{iput_frees}

-- Entry 3 is for inode 8 of device 1, and no other is in use. No file has a link.
abbrev one_open : Store
one_open = record {
  volume = blank 2 0;
  entries = λ i. record {
    dev = 1;
    inum = 8;
    ref = if i == 3 then 1 else 0;
    valid = true;
    locked = false;
  };
  disk = (blank 2 0).inodes;
  ninodes = 20;
}

abbrev got_entry : Option (ℕ × Store) → Option (ℕ × Entry)
got_entry r = do (i, s) ← r; some (i, s.entries i)

gets_open :
    got_entry (iget 1 8 one_open)
    ≡ some (3, record { dev = 1; inum = 8; ref = 2; valid = true; locked = false })
unfolding iget
gets_open = refl

gets_idle :
    got_entry (iget 1 9 one_open)
    ≡ some (0, record { dev = 1; inum = 9; ref = 1; valid = false; locked = false })
unfolding iget
gets_idle = refl

nothing_free : ialloc 1 2 one_open ≡ none
unfolding ialloc
nothing_free = refl

iget_lem_example :
    ((iget 1 8 one_open ≡ none)
      × ((j : ℕ)
          → j < ninode
          → (0 < (one_open.entries j).ref) × (is_entry 1 8 (one_open.entries j) ≡ false)))
    ⊎ ((k : ℕ) × (s' : Store) × (iget 1 8 one_open ≡ some (k, s'))
        × Gotten 1 8 one_open k s'
        × (WasCached 1 8 one_open k s' ⊎ WasAway 1 8 one_open k s'))
iget_lem_example = iget_lem 1 8 one_open (λ i j p q d n. ground arith) (λ j l. ground arith)

iput_frees_example :
    (s' : Store) × (iput 3 one_open ≡ some s')
    × ((s'.entries 3).ref ≡ 0)
    × ((s'.entries 3).valid ≡ false)
    × ((s'.disk 8).kind ≡ 0)
    × (s'.volume.inodes 8 ≡ s'.disk 8)
    × ((q : Pointer)
        → IsPointer q
        → inode_of q ≡ 8
        → at one_open.volume q ≢ 0
        → s'.volume.used (at one_open.volume q) ≡ false)
    × ((b : ℕ)
        → ((q : Pointer)
            → IsPointer q
            → inode_of q ≡ 8
            → at one_open.volume q ≢ 0
            → at one_open.volume q ≢ b)
        → s'.volume.used b ≡ one_open.volume.used b)
    × ((j : ℕ) → j ≢ 3 → s'.entries j ≡ one_open.entries j)
    × ((m : ℕ)
        → m ≢ 8
        → (s'.volume.inodes m ≡ one_open.volume.inodes m) × (s'.disk m ≡ one_open.disk m))
iput_frees_example = iput_frees 3 one_open (blank-IsPartitioned 2 0) refl refl refl
