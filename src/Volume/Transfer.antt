-- ===== src/Volume/Transfer.antt =====
-- `readi` and `writei` of xv6-public/fs.c. The buffer of the caller is a function of the index, and what
-- `readi` puts into it a list. `iupdate` is left out: an inode here is its cached copy. So is the
-- `log_write` of each block that `writei` changes, with its panics.
use hyeonseung_os.Base.{
  ℕ, zero, suc, ◌+◌, ◌-◌, ◌*◌, ◌/◌, ◌%◌, min, ◌&&◌, ◌||◌, Option, some, ◌>>=◌, List, [], ◌∷◌, ◌++◌,
  ◌==◌, ltb, leb, if◌then◌else◌, update, add32,
}
use hyeonseung_os.Volume.{Volume, Block, bsize, maxfile, bmap, set_inode}

-- `T_DEV`
abbrev pub t_dev : ℕ
t_dev = 3

-- The return of `writei`: the count, -1, or what the function of the device returns.
pub data Written : Type 0 where
  wrote : ℕ → Written
  refused : Written
  to_device : Written

-- The same for `readi`, with the bytes.
pub data Fetched : Type 0 where
  fetched : List ℕ → Fetched
  fetch_refused : Fetched
  from_device : Fetched

-- `memmove(bp->data + from, src, m)`
abbrev pub overwrite : Block → ℕ → ℕ → (ℕ → ℕ) → Block
overwrite b from m src k = if leb from k && ltb k (from + m) then src (k - from) else b k

-- `memmove(dst, bp->data + from, m)`
unfoldable pub span : Block → ℕ → ℕ → List ℕ
span b from zero = []
span b from (suc m) = b from ∷ span b (from + 1) m

-- The bytes of the next round: up to the end of the block.
abbrev pub chunk : ℕ → ℕ → ℕ
chunk left off = min left (bsize - off % bsize)

-- The loop of `writei` for the `left` bytes from `off` on, without `log_write`. A round takes one byte at least, so that
-- `left` rounds are enough.
unfoldable pub write_loop : ℕ → ℕ → (ℕ → ℕ) → ℕ → ℕ → Volume → Option Volume
write_loop zero n src off left v = some v
write_loop (suc rounds) n src off left v =
    let m = chunk left off in
    let round : Option Volume = (do
      (a, v₁) ← bmap n (off / bsize) v
      let b : Block = overwrite (v₁.bytes a) (off % bsize) m src
      write_loop rounds n (λ k. src (m + k)) (off + m) (left - m)
          (record v₁ { bytes = update v₁.bytes a b })) in
    if left == 0 then some v else round

-- `if(n > 0 && off > ip->size) ip->size = off;`
unfoldable pub extend : ℕ → ℕ → ℕ → Volume → Volume
extend n len off v =
    if ltb 0 len && ltb (v.inodes n).size off
    then set_inode n (record (v.inodes n) { size = off }) v
    else v

-- `writei`; `none` is a panic of `bmap` or `balloc`.
unfoldable pub writei : ℕ → (ℕ → ℕ) → ℕ → ℕ → Volume → Option (Written × Volume)
unfolding write_loop extend
writei n src off len v =
    let store : Option (Written × Volume) = (do
      v' ← write_loop len n src off len v
      some (wrote len, extend n len (off + len) v')) in
    if (v.inodes n).kind == t_dev
    then some (to_device, v)
    else if ltb (v.inodes n).size off || ltb (add32 off len) off
    then some (refused, v)
    else if ltb (maxfile * bsize) (add32 off len)
    then some (refused, v)
    else store

unfoldable pub read_loop : ℕ → ℕ → ℕ → ℕ → Volume → Option (List ℕ × Volume)
unfolding span
read_loop zero n off left v = some ([], v)
read_loop (suc rounds) n off left v =
    let m = chunk left off in
    let round : Option (List ℕ × Volume) = (do
      (a, v₁) ← bmap n (off / bsize) v
      (bs, v₂) ← read_loop rounds n (off + m) (left - m) v₁
      some (span (v₁.bytes a) (off % bsize) m ++ bs, v₂)) in
    if left == 0 then some ([], v) else round

unfoldable pub readi : ℕ → ℕ → ℕ → Volume → Option (Fetched × Volume)
unfolding read_loop
readi n off len v =
    let size = (v.inodes n).size in
    let m = if ltb size (add32 off len) then size - off else len in
    let load : Option (Fetched × Volume) = (do
      (bs, v') ← read_loop m n off m v
      some (fetched bs, v')) in
    if (v.inodes n).kind == t_dev
    then some (from_device, v)
    else if ltb size off || ltb (add32 off len) off
    then some (fetch_refused, v)
    else load
