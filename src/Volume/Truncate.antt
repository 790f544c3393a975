-- ===== src/Volume/Truncate.antt =====
-- `itrunc` of xv6-public/fs.c: it frees the blocks of an inode from the leaves up. As in `bfree`, the calls
-- of `log_write` are left out.
use hyeonseung_os.Base.{ℕ, zero, suc, ◌+◌, Option, some, ◌>>=◌, ◌==◌, if◌then◌else◌}
use hyeonseung_os.Volume.{Volume, Block, word, bfree, set_addr, set_inode, ndirect, nindirect}

-- `for(j = ...) if(a[j]) ...`
unfoldable pub each_entry : ℕ → ℕ → Block → (ℕ → Volume → Option Volume) → Volume → Option Volume
unfolding word
each_entry zero j a f v = some v
each_entry (suc rounds) j a f v =
    (if word a j == 0 then some v else f (word a j) v) >>= each_entry rounds (j + 1) a f

-- A block of pointers, and the blocks that it points to.
unfoldable pub free_single : ℕ → Volume → Option Volume
unfolding each_entry bfree
free_single a v = each_entry nindirect 0 (v.bytes a) bfree v >>= bfree a

unfoldable pub free_double : ℕ → Volume → Option Volume
unfolding each_entry free_single bfree
free_double a v = each_entry nindirect 0 (v.bytes a) free_single v >>= bfree a

unfoldable pub free_triple : ℕ → Volume → Option Volume
unfolding each_entry free_double bfree
free_triple a v = each_entry nindirect 0 (v.bytes a) free_double v >>= bfree a

-- `if(ip->addrs[i]){ ... ip->addrs[i] = 0; }`
unfoldable pub free_addr : ℕ → (ℕ → Volume → Option Volume) → ℕ → Volume → Option Volume
unfolding set_addr
free_addr n f i v =
    let gone : Option Volume = (do v' ← f ((v.inodes n).addrs i) v; some (set_addr n i 0 v')) in
    if (v.inodes n).addrs i == 0 then some v else gone

-- The loop over the direct blocks.
unfoldable pub free_direct : ℕ → ℕ → ℕ → Volume → Option Volume
unfolding free_addr bfree
free_direct zero i n v = some v
free_direct (suc rounds) i n v = free_addr n bfree i v >>= free_direct rounds (i + 1) n

-- `none` is a panic of `bfree`.
unfoldable pub itrunc : ℕ → Volume → Option Volume
itrunc n v = do
  v₁ ← free_direct ndirect 0 n v
  v₂ ← free_addr n free_single ndirect v₁
  v₃ ← free_addr n free_double (ndirect + 1) v₂
  v₄ ← free_addr n free_triple (ndirect + 2) v₃
  some (set_inode n (record (v₄.inodes n) { size = 0 }) v₄)
