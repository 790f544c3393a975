-- ===== src/Paths.antt =====
-- The paths of xv6-public/fs.c: `skipelem`, `namex`, `namei` and `nameiparent`. A path is the list of its
-- bytes up to the NUL. The buffer `name` holds the first 14 bytes of an element, and a NUL if there are
-- fewer; what stands after that NUL nothing reads, and it is 0 here.
pub mod Components
pub mod Held
mod Tests
use hyeonseung_os.Base.{
  ℕ, zero, suc, ◌+◌, Bool, true, false, not, ◌&&◌, Option, none, some, ◌>>=◌, List, [], ◌∷◌, take,
  length, get_or, ◌==◌, if◌then◌else◌,
}
use hyeonseung_os.Inodes.{Store, iget, idup, ilock, iunlock, iput, iunlockput}
use hyeonseung_os.Directory.{Name, dirsiz, t_dir, number, dirlookup}

-- `'/'`
abbrev pub slash : ℕ
slash = 47

abbrev pub rootdev : ℕ
rootdev = 1

abbrev pub rootino : ℕ
rootino = 1

-- `while(*path == '/') path++;`
unfoldable pub skip_slashes : List ℕ → List ℕ
skip_slashes [] = []
skip_slashes (c ∷ cs) = if c == slash then skip_slashes cs else c ∷ cs

-- `while(*path != '/' && *path != 0) path++;`: the bytes passed, and the rest.
unfoldable pub span_elem : List ℕ → List ℕ × List ℕ
span_elem [] = ([], [])
span_elem (c ∷ cs) =
    let (elem, rest) = span_elem cs in if c == slash then ([], c ∷ cs) else (c ∷ elem, rest)

-- The element at the front of a path with no slash there.
unfoldable pub first_elem : List ℕ → Option (List ℕ × List ℕ)
unfolding span_elem skip_slashes
first_elem [] = none
first_elem (c ∷ cs) =
    let (elem, rest) = span_elem (c ∷ cs) in some (take dirsiz elem, skip_slashes rest)

-- `skipelem`: what goes to `name`, and the rest of the path.
unfoldable pub skipelem : List ℕ → Option (List ℕ × List ℕ)
unfolding skip_slashes first_elem
skipelem path = first_elem (skip_slashes path)

-- The buffer `name` as the functions on directories read it.
abbrev pub as_name : List ℕ → Name
as_name elem k = get_or elem k 0

-- What a round of `namex` comes to.
pub data Visit : Type 0 where
  lost : Visit
  stopped : Visit
  goes : ℕ → Visit

abbrev pub went : Option (ℕ × ℕ) → Visit
went none = lost
went (some (next, off)) = goes next

-- A round of the loop of `namex` at the inode `ip`; `last` is its test to stop one level early.
unfoldable pub visit_dir : ℕ → Name → Bool → Store → Option (Visit × Store)
visit_dir ip name last s = do
  s₁ ← ilock ip s
  let no_dir : Option (Visit × Store) = (do s₂ ← iunlockput ip s₁; some (lost, s₂))
  let early : Option (Visit × Store) = (do s₂ ← iunlock ip s₁; some (stopped, s₂))
  let look : Option (Visit × Store) = (do
    (r, s₂) ← dirlookup ip name s₁
    s₃ ← iunlockput ip s₂
    some (went r, s₃))
  if not ((s₁.volume.inodes (number ip s₁)).kind == t_dir)
      then no_dir
      else if last
      then early
      else look

-- The end of `namex`, when no element is left.
unfoldable pub namex_end : Bool → ℕ → Store → Option (Option (ℕ × List ℕ) × Store)
namex_end nameiparent ip s =
    let put : Option (Option (ℕ × List ℕ) × Store) = (do s' ← iput ip s; some (none, s')) in
    if nameiparent then put else some (some (ip, []), s)

abbrev pub is_nil : List ℕ → Bool
is_nil [] = true
is_nil (c ∷ cs) = false

-- The loop of `namex`: the inode, and `name` for `nameiparent`. Each round takes a byte of the path at
-- least, so that its length in rounds is enough. The outer `none` is a panic.
unfoldable pub namex_loop : ℕ → List ℕ → Bool → ℕ → Store → Option (Option (ℕ × List ℕ) × Store)
namex_loop zero path nameiparent ip s = namex_end nameiparent ip s
namex_loop (suc rounds) path nameiparent ip s = elim (skipelem path) [
  | none ↦ namex_end nameiparent ip s
  | some (elem, rest) ↦ do
    (x, s') ← visit_dir ip (as_name elem) (nameiparent && is_nil rest) s
    elim x [
      | lost ↦ some (none, s')
      | stopped ↦ some (some (ip, elem), s')
      | goes next ↦ namex_loop rounds rest nameiparent next s'
    ]
]

-- Where `namex` starts: at the root, or at the current directory, whose entry is `cwd`.
unfoldable pub namex_start : List ℕ → ℕ → Store → Option (ℕ × Store)
namex_start [] cwd s = some (cwd, idup cwd s)
namex_start (c ∷ cs) cwd s = if c == slash then iget rootdev rootino s else some (cwd, idup cwd s)

unfoldable pub namex : List ℕ → Bool → ℕ → Store → Option (Option (ℕ × List ℕ) × Store)
unfolding namex_start namex_loop
namex path nameiparent cwd s = do
  (ip, s') ← namex_start path cwd s
  namex_loop (length path) path nameiparent ip s'

unfoldable pub namei : List ℕ → ℕ → Store → Option (Option ℕ × Store)
unfolding namex
namei path cwd s = do (r, s') ← namex path false cwd s; some ((do (ip, _) ← r; some ip), s')

unfoldable pub nameiparent : List ℕ → ℕ → Store → Option (Option (ℕ × List ℕ) × Store)
unfolding namex
nameiparent path cwd s = namex path true cwd s
