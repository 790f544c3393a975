-- ===== src/Volume/Tests.antt =====
-- Runs of the file system's blocks, and their theorems at a small volume.
use hyeonseung_os.Base.{
  ℕ, ◌+◌, ◌*◌, ◌≤◌, ◌<◌, ◌≡◌, ◌≢◌, ◌⊎◌, refl, Bool, true, false, Option, none, some, ◌>>=◌, arith,
  [], ◌∷◌, min,
}
use hyeonseung_os.Volume.{Volume, maxfile, bmap, taken, set_addr}
use hyeonseung_os.Volume.Blank.{blank, blank-IsPartitioned}
use hyeonseung_os.Volume.Count.{free_blocks, levels, touched, HasHole}
use hyeonseung_os.Volume.Truncate.{itrunc, free_direct}
use hyeonseung_os.Volume.Truncated.{itrunc_lem}
use hyeonseung_os.Volume.Pointers.{Pointer, at, IsPointer, inode_of, locate}
use hyeonseung_os.Volume.Partition.{IsPartitioned}
use hyeonseung_os.Volume.Ensure.{bmap_lem, bmap_outcome}
use hyeonseung_os.Volume.Reached.{content}
use hyeonseung_os.Volume.Transfer.{writei, readi, Written, wrote, Fetched, fetched}
use hyeonseung_os.Volume.WriteLoop.{Stores, writei_lem}
use hyeonseung_os.Volume.Reading.{file_bytes, Unread}
use hyeonseung_os.Volume.RoundTrip.{buffer, readi_lem, readi-writei}

abbrev empty : Volume
empty = blank 2 1

empty-IsPartitioned : IsPartitioned empty
empty-IsPartitioned = blank-IsPartitioned 2 1

abbrev block_of : Option (ℕ × Volume) → Option ℕ
block_of r = do (a, v) ← r; some a

-- The triply indirect block takes three blocks of pointers first.
triple_indirect : block_of (bmap 1 20_000 empty) ≡ some 35
unfolding bmap
triple_indirect = refl

past_the_end : block_of (bmap 1 2_113_674 empty) ≡ none
unfolding bmap
past_the_end = refl

-- The bytes that cross from one block into the next.
abbrev read_of : Option (Fetched × Volume) → Option Fetched
read_of r = do (f, v) ← r; some f

abbrev write_read : ℕ → ℕ → ℕ → ℕ → Option Fetched
write_read off len from count = do
  (w, v) ← writei 1 (λ k. k + 7) 0 510 empty
  (w', v') ← writei 1 (λ k. k + 1) off len v
  read_of (readi 1 from count v')

crosses : write_read 510 4 509 9 ≡ some (fetched (516 ∷ 1 ∷ 2 ∷ 3 ∷ 4 ∷ []))
unfolding writei readi bmap
crosses = refl

bmap_outcome_example :
    ((bmap 1 20_000 empty ≡ none)
      × (at empty (locate 1 20_000) ≡ 0)
      × (free_blocks empty < levels (locate 1 20_000)))
    ⊎ ((a : ℕ) × (v' : Volume) × (bmap 1 20_000 empty ≡ some (a, v'))
        × (at v' (locate 1 20_000) ≡ a)
        × (a ≢ 0)
        × ((q : Pointer) → IsPointer q → at empty q ≢ 0 → at v' q ≡ at empty q)
        × (free_blocks empty ≤ free_blocks v' + levels (locate 1 20_000)))
bmap_outcome_example = bmap_outcome 1 20_000 empty empty-IsPartitioned (omega arith)

-- Block 32 becomes the first one of file 1.
abbrev first_block : Volume
first_block = set_addr 1 0 32 (taken 32 empty)

bmap_lem_example :
    IsPartitioned first_block
    × (◌≢◌ {A = ℕ} 32 0)
    × (first_block.used 32 ≡ true)
    × (bmap 1 0 first_block ≡ some (32, first_block))
    × ((m k : ℕ) → k < maxfile → at first_block (locate m k) ≡ 32 → (m ≡ 1) × (k ≡ 0))
    × ((m k : ℕ)
        → k < maxfile
        → (j : ℕ) → content first_block (locate m k) j ≡ content empty (locate m k) j)
    × ((m : ℕ) → (first_block.inodes m).size ≡ (empty.inodes m).size)
unfolding bmap set_addr
bmap_lem_example = bmap_lem 1 0 32 empty first_block empty-IsPartitioned (omega arith) refl

writei_lem_example :
    ((writei 1 (λ k. k) 0 3 empty ≡ none)
      × (free_blocks empty < 4 * touched 0 3)
      × HasHole empty 1 0 3)
    ⊎ ((v : Volume) × (writei 1 (λ k. k) 0 3 empty ≡ some (wrote 3, v))
        × Stores empty v 1 (λ k. k) 0 3)
writei_lem_example =
    writei_lem 1 (λ k. k) 0 3 empty empty-IsPartitioned (ground arith) (omega arith) (omega arith)

readi_lem_example :
    ((readi 1 0 3 empty ≡ none)
      × (free_blocks empty < 4 * touched 0 (min 3 0))
      × HasHole empty 1 0 (min 3 0))
    ⊎ ((v : Volume) × (readi 1 0 3 empty ≡ some (fetched (file_bytes empty 1 0 (min 3 0)), v))
        × Unread empty v
        × (free_blocks empty ≤ free_blocks v + 4 * touched 0 (min 3 0)))
readi_lem_example =
    readi_lem 1 0 3 empty empty-IsPartitioned (ground arith) (omega arith) (omega arith)
      (omega arith)

abbrev written : Option (Written × Volume) → Volume
written none = empty
written (some (w, v)) = v

readi-writei_example :
    readi 1 0 3 (written (writei 1 (λ k. k) 0 3 empty))
    ≡ some (fetched (buffer (λ k. k) 3), written (writei 1 (λ k. k) 0 3 empty))
unfolding writei bmap
readi-writei_example =
    readi-writei 1 (λ k. k) 0 3 empty (written (writei 1 (λ k. k) 0 3 empty)) empty-IsPartitioned
      (ground arith) (omega arith) (omega arith) (omega arith) refl

first_block-IsPartitioned : IsPartitioned first_block
unfolding bmap set_addr
first_block-IsPartitioned =
    (bmap_lem 1 0 32 empty first_block empty-IsPartitioned (omega arith) refl).0

itrunc_lem_example :
    (v' : Volume) × (itrunc 1 first_block ≡ some v')
    × ((q : Pointer)
        → IsPointer q
        → inode_of q ≡ 1
        → at first_block q ≢ 0
        → v'.used (at first_block q) ≡ false)
    × ((b : ℕ)
        → ((q : Pointer)
            → IsPointer q
            → inode_of q ≡ 1
            → at first_block q ≢ 0
            → at first_block q ≢ b)
        → v'.used b ≡ first_block.used b)
    × ((i : ℕ) → i < 13 → (v'.inodes 1).addrs i ≡ 0)
    × ((v'.inodes 1).size ≡ 0)
    × ((m : ℕ) → m ≢ 1 → v'.inodes m ≡ first_block.inodes m)
    × (v'.bytes ≡ first_block.bytes)
itrunc_lem_example = itrunc_lem first_block 1 first_block-IsPartitioned

-- The map after the blocks of the file have gone.
abbrev used_of : ℕ → Option Volume → Option Bool
used_of b r = do v ← r; some (v.used b)

truncated_free : used_of 32 (itrunc 1 first_block) ≡ some false
unfolding itrunc set_addr free_direct
truncated_free = refl
