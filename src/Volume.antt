-- ===== src/Volume.antt =====
-- The blocks and inodes of xv6-public/fs.c: `balloc`, `bfree` and `bmap`, with the doubly and triply
-- indirect blocks. A block is its 512 bytes, and a `uint` in it four of them. The free map is its bits, a
-- Boolean for each block number. An inode is its cached copy. Each call runs with the inode locked.
-- The calls of `log_write`, which hand each changed block to the log, are left out, and with them its two
-- panics, for a full log and outside a transaction: Log/Space has `log_write`.
pub mod Words
pub mod Blocks
pub mod Count
pub mod Pointers
pub mod Partition
pub mod Blank
pub mod Placing
pub mod Reached
pub mod Ensure
pub mod Transfer
pub mod Store
pub mod Writing
pub mod WriteLoop
pub mod Reading
pub mod RoundTrip
pub mod Truncate
pub mod Descent
pub mod Freed
pub mod Freeing
pub mod Truncated
mod Tests
use hyeonseung_os.Base.{
  ℕ, zero, suc, ◌+◌, ◌-◌, ◌*◌, ◌/◌, ◌%◌, ◌^◌, min, Bool, true, false, Option, none, some, ◌>>=◌,
  ◌==◌, ltb, if◌then◌else◌, update,
}

abbrev pub bsize : ℕ
bsize = 512

abbrev pub ndirect : ℕ
ndirect = 10

abbrev pub nindirect : ℕ
nindirect = 128

abbrev pub maxfile : ℕ
maxfile = 10 + 128 + 128 * 128 + 128 * 128 * 128

-- Bits in a block of the free map.
abbrev pub bpb : ℕ
bpb = 4096

abbrev pub Block : Type 0
Block = ℕ → ℕ

-- The fields of `struct inode` that `struct dinode` has too; `kind` is `type`.
pub record Inode : Type 0 where
  pub kind : ℕ
  pub major : ℕ
  pub minor : ℕ
  pub nlink : ℕ
  pub size : ℕ
  pub addrs : ℕ → ℕ

-- `limit` is `sb.size`, `used` the free map, `bytes` the blocks, and `inodes` the inodes by number.
pub record Volume : Type 0 where
  pub limit : ℕ
  pub used : ℕ → Bool
  pub bytes : ℕ → Block
  pub inodes : ℕ → Inode

-- The `uint` with index `i` of a block, least byte first.
unfoldable pub word : Block → ℕ → ℕ
word b i = b (4 * i) + 256 * b (4 * i + 1) + 65_536 * b (4 * i + 2) + 16_777_216 * b (4 * i + 3)

unfoldable pub byte_of : ℕ → ℕ → ℕ
byte_of w r =
    if r == 0
    then w % 256
    else if r == 1
    then w / 256 % 256
    else if r == 2
    then w / 65_536 % 256
    else w / 16_777_216 % 256

unfoldable pub set_word : Block → ℕ → ℕ → Block
unfolding byte_of
set_word b i w k = if k / 4 == i then byte_of w (k % 4) else b k

-- `bzero`
abbrev pub bzero : ℕ → Volume → Volume
bzero a v = record v { bytes = update v.bytes a (λ k. 0) }

-- The loop over the bits of one block of the free map, from block `b` on: the first free one.
unfoldable pub free_bit : ℕ → ℕ → (ℕ → Bool) → Option ℕ
free_bit zero b used = none
free_bit (suc n) b used = let rest = free_bit n (b + 1) used in if used b then rest else some b

-- The loop over the blocks of the free map.
unfoldable pub scan_map : ℕ → ℕ → Volume → Option ℕ
unfolding free_bit
scan_map zero b v = none
scan_map (suc rounds) b v =
    let rest = scan_map rounds (b + bpb) v in
    elim (free_bit (min bpb (v.limit - b)) b v.used) [ some a ↦ some a | none ↦ rest ]

-- The volume with block `a` marked and zeroed.
abbrev pub taken : ℕ → Volume → Volume
taken a v = bzero a (record v { used = update v.used a true })

-- `balloc`, without the `log_write` of the block and of its bit; `none` is its own panic.
unfoldable pub balloc : Volume → Option (ℕ × Volume)
unfolding scan_map
balloc v = do a ← scan_map ((v.limit + (bpb - 1)) / bpb) 0 v; some (a, taken a v)

-- `bfree`, without the `log_write` of the bit; `none` is its own panic.
unfoldable pub bfree : ℕ → Volume → Option Volume
bfree b v = if v.used b then some (record v { used = update v.used b false }) else none

abbrev pub set_inode : ℕ → Inode → Volume → Volume
set_inode n ip v = record v { inodes = update v.inodes n ip }

-- `ip->addrs[i] = a`
unfoldable pub set_addr : ℕ → ℕ → ℕ → Volume → Volume
set_addr n i a v = set_inode n (record (v.inodes n) { addrs = update (v.inodes n).addrs i a }) v

-- `a[i] = addr` in the block `b`
unfoldable pub set_entry : ℕ → ℕ → ℕ → Volume → Volume
unfolding set_word
set_entry b i a v = record v { bytes = update v.bytes b (set_word (v.bytes b) i a) }

-- `if((addr = ip->addrs[i]) == 0) ip->addrs[i] = addr = balloc(ip->dev);`
unfoldable pub root_block : ℕ → ℕ → Volume → Option (ℕ × Volume)
unfolding balloc set_addr
root_block n i v =
    let fresh : Option (ℕ × Volume) = (do (a, v') ← balloc v; some (a, set_addr n i a v')) in
    if (v.inodes n).addrs i == 0 then fresh else some ((v.inodes n).addrs i, v)

-- The same for the entry `i` of an indirect block `b`, without its `log_write`.
unfoldable pub entry_block : ℕ → ℕ → Volume → Option (ℕ × Volume)
unfolding balloc set_entry word
entry_block b i v =
    let fresh : Option (ℕ × Volume) = (do (a, v') ← balloc v; some (a, set_entry b i a v')) in
    if word (v.bytes b) i == 0 then fresh else some (word (v.bytes b) i, v)

-- `bmap` of the inode with number `n`; `none` is a panic.
unfoldable pub bmap : ℕ → ℕ → Volume → Option (ℕ × Volume)
unfolding root_block entry_block
bmap n bn v =
    let bn₁ = bn - ndirect in
    let bn₂ = bn₁ - nindirect in
    let bn₃ = bn₂ - nindirect * nindirect in
    let single : Option (ℕ × Volume) = (do
      (a, v₁) ← root_block n ndirect v
      entry_block a bn₁ v₁) in
    let double : Option (ℕ × Volume) = (do
      (a, v₁) ← root_block n (ndirect + 1) v
      (b, v₂) ← entry_block a (bn₂ / nindirect) v₁
      entry_block b (bn₂ % nindirect) v₂) in
    let cn = bn₃ - nindirect * nindirect * (bn₃ / (nindirect * nindirect)) in
    let triple : Option (ℕ × Volume) = (do
      (a, v₁) ← root_block n (ndirect + 2) v
      (b, v₂) ← entry_block a (bn₃ / (nindirect * nindirect)) v₁
      (c, v₃) ← entry_block b (cn / nindirect) v₂
      entry_block c (cn % nindirect) v₃) in
    if ltb bn ndirect
    then root_block n bn v
    else if ltb bn₁ nindirect
    then single
    else if ltb bn₂ (nindirect * nindirect)
    then double
    else if ltb bn₃ (nindirect * nindirect * nindirect)
    then triple
    else none
