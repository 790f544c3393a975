-- ===== src/Paths/Tests.antt =====
-- Runs of `skipelem` and `namex`, and the walk of a path.
use hyeonseung_os.Base.{
  ℕ, ◌≡◌, refl, true, false, Option, none, some, ◌>>=◌, arith, List, [], ◌∷◌, ◌==◌, if◌then◌else◌,
}
use hyeonseung_os.Volume.{bmap}
use hyeonseung_os.Volume.Blank.{blank}
use hyeonseung_os.Volume.Transfer.{writei, readi}
use hyeonseung_os.Inodes.{Store, iget, write_inode, ilock, iunlock, iunlockput}
use hyeonseung_os.Directory.{namecmp_at, dirlookup, dirlink}
use hyeonseung_os.Paths.{visit_dir, skipelem, as_name, namex_loop, nameiparent}
use hyeonseung_os.Paths.Components.{components, words, walk, namex_loop-walk}

-- `///a//bb`
abbrev a_bb : List ℕ
a_bb = 47 ∷ 47 ∷ 47 ∷ 97 ∷ 47 ∷ 47 ∷ 98 ∷ 98 ∷ []

skips_slashes : skipelem a_bb ≡ some (97 ∷ [], 98 ∷ 98 ∷ [])
unfolding skipelem
skips_slashes = refl

only_slashes : skipelem (47 ∷ 47 ∷ []) ≡ none
unfolding skipelem
only_slashes = refl

two_components : components a_bb ≡ (97 ∷ []) ∷ (98 ∷ 98 ∷ []) ∷ []
unfolding words
two_components = refl

-- Every file of this cache is an empty directory of device 1.
abbrev root_dir : Store
root_dir = record {
  volume = blank 1 1;
  entries = λ i. record {
    dev = 1;
    inum = 1;
    ref = if i == 0 then 1 else 0;
    valid = true;
    locked = false;
  };
  disk = (blank 1 1).inodes;
  ninodes = 20;
}

abbrev parent_of : Option (Option (ℕ × List ℕ) × Store) → Option (Option (ℕ × List ℕ))
parent_of r = do (x, s) ← r; some x

-- `/a` names the inode 9, and `/a/bb` stands in it.
parent_a_bb :
    (do (ok, s) ← dirlink 0 (as_name (97 ∷ [])) 9 root_dir; parent_of (nameiparent a_bb 0 s))
    ≡ some (some (1, 98 ∷ 98 ∷ []))
unfolding nameiparent ilock iunlock iunlockput dirlink dirlookup write_inode writei bmap readi
    namecmp_at iget skipelem visit_dir
parent_a_bb = refl

namex_loop-walk_example : namex_loop 8 a_bb true 0 root_dir ≡ walk (components a_bb) true 0 root_dir
namex_loop-walk_example = namex_loop-walk 8 a_bb true 0 root_dir (omega arith)
