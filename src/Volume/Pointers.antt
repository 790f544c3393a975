-- ===== src/Volume/Pointers.antt =====
-- The tree of block pointers of an inode: what `bmap` walks.
use hyeonseung_os.Base.{
  ℕ, ◌+◌, ◌-◌, ◌*◌, ◌/◌, ◌%◌, ◌<◌, ◌≡◌, none, Option, ◌>>=◌, arith, ◌==◌, ltb, if◌then◌else◌,
  ℕ_discrete, sym, ap, ◌∙◌,
}
use hyeonseung_os.Volume.{Volume, word, root_block, entry_block, bmap, maxfile}

-- A pointer: one of `addrs` of inode `n`, or an entry of the block that another points to.
pub data Pointer : Type 0 where
  root : ℕ → ℕ → Pointer
  child : Pointer → ℕ → Pointer

pub Pointer-discrete : Discrete Pointer
Pointer-discrete = hlevel (ℕ_discrete)

-- The block that the pointer holds, 0 for none.
unfoldable pub at : Volume → Pointer → ℕ
at v (root n i) = (v.inodes n).addrs i
at v (child p i) = if at v p == 0 then 0 else word (v.bytes (at v p)) i

-- The levels of blocks below the pointer.
abbrev pub height : Pointer → ℕ
height (root n i) = i - 9
height (child p i) = height p - 1

abbrev pub IsPointer : Pointer → Type 0
IsPointer (root n i) = i < 13
IsPointer (child p i) = IsPointer p × (0 < height p) × (i < 128)

-- Where the block with index `bn` of inode `n` hangs.
unfoldable pub locate : ℕ → ℕ → Pointer
locate n bn =
    if ltb bn 10
    then root n bn
    else if ltb bn 138
    then child (root n 10) (bn - 10)
    else if ltb bn 16_522
    then child (child (root n 11) ((bn - 138) / 128)) ((bn - 138) % 128)
    else child (child (child (root n 12) ((bn - 16_522) / 16_384)) ((bn - 16_522) / 128 % 128))
        ((bn - 16_522) % 128)

-- The index that leads to a pointer, and its inode.
abbrev pub index_in : Pointer → ℕ
index_in (root n i) = i
index_in (child (root n a) i) = 10 + i
index_in (child (child (root n a) i) j) = 138 + 128 * i + j
index_in (child (child (child p i) j) k) = 16_522 + 16_384 * i + 128 * j + k

abbrev pub inode_of : Pointer → ℕ
inode_of (root n i) = n
inode_of (child p i) = inode_of p

pub index_in-locate : (n bn : ℕ) → (index_in (locate n bn) ≡ bn) × (inode_of (locate n bn) ≡ n)
unfolding locate
index_in-locate n bn = ground arith

pub locate_injective : (n m j k : ℕ) → locate n j ≡ locate m k → (n ≡ m) × (j ≡ k)
locate_injective n m j k e =
    let (i, o) = index_in-locate n j in
    let (i', o') = index_in-locate m k in (sym o ∙ ap inode_of e ∙ o', sym i ∙ ap index_in e ∙ i')

pub locate-IsPointer :
    (n bn : ℕ) → bn < maxfile → IsPointer (locate n bn) × (height (locate n bn) ≡ 0)
unfolding locate
locate-IsPointer n bn h = ground arith

-- The block at a pointer, allocated with those above it where it is missing.
unfoldable pub ensure : Pointer → Volume → Option (ℕ × Volume)
ensure (root n i) v = root_block n i v
ensure (child p i) v = do (b, v₁) ← ensure p v; entry_block b i v₁

-- `bmap` goes the way to the pointer of the index as `ensure` does, and panics past the largest file.
pub bmap-locate :
    (n bn : ℕ) (v : Volume)
    → bmap n bn v ≡ (if ltb bn maxfile then ensure (locate n bn) v else none)
unfolding bmap locate ensure
bmap-locate n bn v =
    let b₃ = bn - 10 - 128 - 16_384 in
    let e₃ : b₃ ≡ bn - 16_522 = omega arith in
    let c : (b₃ - 16_384 * (b₃ / 16_384)) / 128 ≡ (bn - 16_522) / 128 % 128 = omega arith in
    let d : (b₃ - 16_384 * (b₃ / 16_384)) % 128 ≡ (bn - 16_522) % 128 = omega arith in
    let e₂ : bn - 10 - 128 ≡ bn - 138 = omega arith in ground (arith, e₂, e₃, c, d)
