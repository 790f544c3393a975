-- ===== src/Directory.antt =====
-- The directories of xv6-public/fs.c: `namecmp`, `dirlookup` and `dirlink`, and `isdirempty` of
-- xv6-public/sysfile.c. A name is its bytes up to a NUL, or 14 of them, by their index. A directory is
-- far smaller than 2^32 bytes, so that no offset goes round.
pub mod Scan
pub mod Entries
pub mod Adding
pub mod Linking
pub mod Held
mod Tests
use hyeonseung_os.Base.{
  ℕ, zero, suc, ◌+◌, ◌-◌, ◌*◌, ◌/◌, ◌%◌, Bool, true, false, not, ◌&&◌, ◌||◌, Option, none, some,
  ◌>>=◌, List, get_or, length, ◌==◌, ltb, if◌then◌else◌, sub32,
}
use hyeonseung_os.Volume.{Volume, Inode}
use hyeonseung_os.Volume.Transfer.{
  Fetched, fetched, fetch_refused, from_device, readi, Written, wrote, refused, to_device,
}
use hyeonseung_os.Inodes.{Entry, Store, iget, iput, write_inode}

abbrev pub Name : Type 0
Name = ℕ → ℕ

abbrev pub dirsiz : ℕ
dirsiz = 14

-- `T_DIR`
abbrev pub t_dir : ℕ
t_dir = 1

-- `strncmp` of two names.
unfoldable pub namecmp_at : ℕ → Name → Name → ℕ
namecmp_at zero s t = 0
namecmp_at (suc n) s t =
    let rest = namecmp_at n (λ k. s (k + 1)) (λ k. t (k + 1)) in
    if s 0 == 0 then sub32 (s 0) (t 0) else if s 0 == t 0 then rest else sub32 (s 0) (t 0)

abbrev pub namecmp : Name → Name → ℕ
namecmp = namecmp_at dirsiz

-- `de.inum` and `de.name` of the 16 bytes of an entry.
abbrev pub inum_of : List ℕ → ℕ
inum_of bs = get_or bs 0 0 + 256 * get_or bs 1 0

abbrev pub name_of : List ℕ → Name
name_of bs k = get_or bs (k + 2) 0

-- A loop over the entries of the directory from the offset `off` on, up to the first that passes: its
-- offset and bytes. Each round takes 16 bytes, and `none` is the panic where there are fewer.
unfoldable pub find_dirent :
    ℕ → (List ℕ → Bool) → ℕ → ℕ → Volume → Option (Option (ℕ × List ℕ) × Volume)
find_dirent zero test n off v = some (none, v)
find_dirent (suc rounds) test n off v =
    let round : Option (Option (ℕ × List ℕ) × Volume) = (do
      (r, v') ← readi n off 16 v
      elim r [
        | fetched bs ↦
            if not (length bs == 16)
            then none
            else if test bs
            then some (some (off, bs), v')
            else find_dirent rounds test n (off + 16) v'
        | fetch_refused ↦ none
        | from_device ↦ none
      ]) in
    if ltb off (v.inodes n).size then round else some (none, v)

-- The rounds that reach the end of the directory.
abbrev pub dirent_rounds : ℕ → Volume → ℕ
dirent_rounds n v = ((v.inodes n).size + 15) / 16

abbrev pub is_named : Name → List ℕ → Bool
is_named name bs = not (inum_of bs == 0) && namecmp name (name_of bs) == 0

abbrev pub is_free : List ℕ → Bool
is_free bs = inum_of bs == 0

abbrev pub number : ℕ → Store → ℕ
number dp s = (s.entries dp).inum

-- The end of `dirlookup`: `iget` of the inode that the entry names.
abbrev pub get_dirent : ℕ → Option (ℕ × List ℕ) → Store → Option (Option (ℕ × ℕ) × Store)
get_dirent dev none s = some (none, s)
get_dirent dev (some (off, bs)) s = do (i, s') ← iget dev (inum_of bs) s; some (some (i, off), s')

-- `dirlookup` of the directory that entry `dp` of the cache holds: the entry of the inode found, and the
-- offset. The outer `none` is a panic.
unfoldable pub dirlookup : ℕ → Name → Store → Option (Option (ℕ × ℕ) × Store)
unfolding find_dirent
dirlookup dp name s =
    let n = number dp s in
    let scan : Option (Option (ℕ × ℕ) × Store) = (do
      (r, v) ← find_dirent (dirent_rounds n s.volume) (is_named name) n 0 s.volume
      get_dirent (s.entries dp).dev r (record s { volume = v })) in
    if (s.volume.inodes n).kind == t_dir then scan else none

-- Whether one of the first `k` bytes is a NUL.
unfoldable pub has_ended : Name → ℕ → Bool
has_ended name zero = false
has_ended name (suc k) = has_ended name k || name k == 0

-- The bytes of a new entry: its number, and the name as `strncpy` copies it, with NULs after it.
unfoldable pub new_dirent : Name → ℕ → ℕ → ℕ
unfolding has_ended
new_dirent name inum k =
    if k == 0
    then inum % 256
    else if k == 1
    then inum / 256 % 256
    else if has_ended name (k - 2)
    then 0
    else name (k - 2)

-- The offset that the loop of `dirlink` stops at.
abbrev pub slot_of : Option (ℕ × List ℕ) → ℕ → ℕ
slot_of (some (off, bs)) size = off
slot_of none size = size

-- The part of `dirlink` for a name that is not there: the entry goes to the first free place.
unfoldable pub add_dirent : ℕ → Name → ℕ → Store → Option Store
unfolding find_dirent new_dirent
add_dirent n name inum s = do
  (r, v) ← find_dirent (dirent_rounds n s.volume) is_free n 0 s.volume
  (w, s') ←
      write_inode n (new_dirent name inum) (slot_of r (v.inodes n).size) 16
        (record s { volume = v })
  elim w [ wrote k ↦ if k == 16 then some s' else none | refused ↦ none | to_device ↦ none ]

-- `dirlink`, and whether it returns 0. `none` is a panic.
unfoldable pub dirlink : ℕ → Name → ℕ → Store → Option (Bool × Store)
unfolding dirlookup add_dirent
dirlink dp name inum s = do
  (r, s') ← dirlookup dp name s
  elim r [
    | some (i, off) ↦ (do s'' ← iput i s'; some (false, s''))
    | none ↦ (do s'' ← add_dirent (number dp s') name inum s'; some (true, s''))
  ]

-- `isdirempty`: no entry after the first two is in use.
unfoldable pub isdirempty : ℕ → Volume → Option (Bool × Volume)
unfolding find_dirent
isdirempty n v = do
  (r, v') ← find_dirent (dirent_rounds n v) (λ bs. not (is_free bs)) n 32 v
  elim r [ some x ↦ some (false, v') | none ↦ some (true, v') ]
