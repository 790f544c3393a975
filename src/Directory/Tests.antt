-- ===== src/Directory/Tests.antt =====
-- Runs of the directories, and their theorem at an empty directory.
use hyeonseung_os.Base.{
  ℕ, ◌*◌, ◌/◌, ◌<◌, ◌≡◌, ◌≢◌, ◌⊎◌, refl, Bool, true, Option, none, some, ◌>>=◌, arith, ◌==◌,
  if◌then◌else◌,
}
use hyeonseung_os.Volume.{Volume, bmap}
use hyeonseung_os.Volume.Transfer.{writei, readi}
use hyeonseung_os.Volume.Blank.{blank, blank-IsPartitioned}
use hyeonseung_os.Volume.Count.{free_blocks, HasHole}
use hyeonseung_os.Volume.Reading.{Unread}
use hyeonseung_os.Inodes.{Store, iget, write_inode}
use hyeonseung_os.Directory.{Name, namecmp_at, namecmp, dirlookup, dirlink, isdirempty}
use hyeonseung_os.Directory.Scan.{dirent}
use hyeonseung_os.Directory.Linking.{dirlookup-dirlink}

-- Entry 0 is for the empty directory 1 of device 1.
abbrev root_dir : Store
root_dir = record {
  volume = blank 1 1;
  entries =
      λ i. record { dev = 1; inum = 1; ref = if i == 0 then 1 else 0; valid = true; locked = true };
  disk = (blank 1 1).inodes;
  ninodes = 20;
}

-- `sh`
abbrev sh_name : Name
sh_name k = if k == 0 then 115 else if k == 1 then 104 else 0

-- `s`
abbrev short_name : Name
short_name k = if k == 0 then 115 else 0

namecmp_same : namecmp sh_name sh_name ≡ 0
unfolding namecmp_at
namecmp_same = refl

namecmp_longer : namecmp sh_name short_name ≡ 104
unfolding namecmp_at
namecmp_longer = refl

abbrev linked_store : Option (Bool × Store) → Store
linked_store none = root_dir
linked_store (some (ok, s)) = s

abbrev found_at : Option (Option (ℕ × ℕ) × Store) → Option (Option (ℕ × ℕ))
found_at r = do (x, s) ← r; some x

abbrev is_empty : Option (Bool × Volume) → Option Bool
is_empty r = do (x, v) ← r; some x

-- The second entry is found after the first, in the next entry of the cache.
two_names :
    (do
      (ok, s) ← dirlink 0 short_name 300 root_dir
      (ok', s') ← dirlink 0 sh_name 7 s
      found_at (dirlookup 0 sh_name s'))
    ≡ some (some (1, 16))
unfolding dirlink dirlookup write_inode writei bmap readi namecmp_at iget
two_names = refl

no_name : found_at (dirlookup 0 sh_name root_dir) ≡ some none
unfolding dirlookup
no_name = refl

is_empty_dir : is_empty (isdirempty 1 root_dir.volume) ≡ some true
unfolding isdirempty
is_empty_dir = refl

dirlookup-dirlink_example :
    (off : ℕ) × ((k : ℕ)
      → 16 * k ≢ off
      → 16 * k < 0
      → dirent (linked_store (dirlink 0 sh_name 7 root_dir)).volume 1 k
        ≡ dirent root_dir.volume 1 k)
    × (((dirlookup 0 sh_name (linked_store (dirlink 0 sh_name 7 root_dir)) ≡ none)
          × (free_blocks (linked_store (dirlink 0 sh_name 7 root_dir)).volume
              < 4 * (((linked_store (dirlink 0 sh_name 7 root_dir)).volume.inodes 1).size / 16))
          × HasHole
              (linked_store (dirlink 0 sh_name 7 root_dir)).volume
              1
              0
              ((linked_store (dirlink 0 sh_name 7 root_dir)).volume.inodes 1).size)
        ⊎ ((w : Volume) × Unread (linked_store (dirlink 0 sh_name 7 root_dir)).volume w
            × (dirlookup 0 sh_name (linked_store (dirlink 0 sh_name 7 root_dir)) ≡ (do
              (i, t) ←
                  iget 1 7 (record (linked_store (dirlink 0 sh_name 7 root_dir)) { volume = w })
              some (some (i, off), t)))))
unfolding dirlink dirlookup write_inode writei bmap
dirlookup-dirlink_example =
    dirlookup-dirlink 0 sh_name 7 root_dir (linked_store (dirlink 0 sh_name 7 root_dir))
      (blank-IsPartitioned 1 1)
      (record { kind = λ e. absurd (omega (arith, e)); whole = refl; fits = omega arith }) refl
      (omega arith) (omega arith) (omega arith) refl
