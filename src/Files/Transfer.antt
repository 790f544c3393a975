-- ===== src/Files/Transfer.antt =====
-- `fileread` and `filewrite` of xv6-public/file.c, and the new calls `pread_os` and `pwrite_os` there,
-- for a file that stands for an inode. The calls of a pipe's file go to `piperead` and `pipewrite` of
-- Pipe. A count `n` is an `int`, given as its word. `ip` of a file is the number of its inode here.
use hyeonseung_os.Base.{
  ℕ, zero, suc, ◌+◌, ◌-◌, ◌*◌, ◌/◌, ◌%◌, ◌^◌, min, not, Option, none, some, ◌>>=◌, ◌==◌, ltb, leb,
  if◌then◌else◌, add32, length,
}
use hyeonseung_os.Log.{maxopblocks}
use hyeonseung_os.Volume.{Volume, bsize, set_inode}
use hyeonseung_os.Volume.Transfer.{
  wrote, refused, to_device, Fetched, fetched, fetch_refused, from_device, readi, writei,
}
use hyeonseung_os.Files.{File, fd_none, fd_pipe, fd_inode}

-- The bytes that one call of the log takes: the most blocks of an operation, less the inode, an indirect
-- block and the two of the free map, and halved.
abbrev pub max_write : ℕ
max_write = (maxopblocks - 1 - 1 - 2) / 2 * 512

-- What a read returns.
pub data FileRead : Type 0 where
  got : Fetched → FileRead
  not_readable : FileRead
  from_pipe : FileRead

-- `f->off += r` for the bytes read.
abbrev pub forward : Fetched → File → File
forward (fetched bs) f = record f { off = add32 f.off (length bs) }
forward fetch_refused f = f
forward from_device f = f

-- `fileread`; `none` is a panic. What a device returns, and the offset then, are left open.
unfoldable pub fileread : File → ℕ → Volume → Option (FileRead × File × Volume)
fileread f n v =
    let inode : Option (FileRead × File × Volume) = (do
      (r, v') ← readi f.ip f.off n v
      some (got r, forward r f, v')) in
    if not f.readable
    then some (not_readable, f, v)
    else elim f.kind [ fd_pipe ↦ some (from_pipe, f, v) | fd_inode ↦ inode | fd_none ↦ none ]

-- What a write comes to: the count, -1, the call of `pipewrite`, or what a device makes of it.
pub data FileWritten : Type 0 where
  all_written : FileWritten
  write_refused : FileWritten
  to_pipe : FileWritten
  device_takes : FileWritten

-- The loop of `filewrite` with `left` bytes to write. A round that is not the last writes at least one
-- byte, so that `left` rounds are enough. The offset comes back with the result.
unfoldable pub write_rounds : ℕ → ℕ → (ℕ → ℕ) → ℕ → ℕ → Volume → Option (FileWritten × ℕ × Volume)
write_rounds zero ip src off left v = some (all_written, off, v)
write_rounds (suc rounds) ip src off left v =
    let n₁ = min left max_write in
    let round : Option (FileWritten × ℕ × Volume) = (do
      (w, v') ← writei ip src off n₁ v
      elim w [
        | wrote r ↦
            if r == n₁
            then write_rounds rounds ip (λ k. src (n₁ + k)) (add32 off r) (left - n₁) v'
            else none
        | refused ↦ some (write_refused, off, v')
        | to_device ↦ some (device_takes, off, v')
      ]) in
    if left == 0 then some (all_written, off, v) else round

-- `filewrite`; `none` is a panic.
unfoldable pub filewrite : File → (ℕ → ℕ) → ℕ → Volume → Option (FileWritten × File × Volume)
unfolding write_rounds
filewrite f src n v =
    let inode : Option (FileWritten × File × Volume) = (do
      (w, off, v') ← write_rounds n f.ip src f.off n v
      some (w, record f { off = off }, v')) in
    if not f.writable then some (write_refused, f, v) else elim f.kind [
      | fd_pipe ↦ some (to_pipe, f, v)
      | fd_inode ↦ if leb (2 ^ 31) n then some (write_refused, f, v) else inode
      | fd_none ↦ none
    ]

-- The loop of `pwrite_os` that counts `off_x` up, with `n₁` rounds at most: each adds one at least.
unfoldable pub hole_end : ℕ → ℕ → ℕ → ℕ → ℕ → ℕ → ℕ
hole_end zero n n₁ off tot off_x = off_x
hole_end (suc rounds) n n₁ off tot off_x =
    let m = min (n - tot) (bsize - off % bsize) in
    let rest = hole_end rounds n n₁ off (tot + m) (off_x + m) in if ltb tot n₁ then rest else off_x

-- `if(off > f->ip->size) ... f->ip->size = off_x;`
unfoldable pub fill_hole : ℕ → ℕ → ℕ → ℕ → Volume → Volume
unfolding hole_end
fill_hole ip n n₁ off v =
    if ltb (v.inodes ip).size off
    then set_inode ip (record (v.inodes ip) { size = hole_end n₁ n n₁ off 0 off }) v
    else v

-- `if(f->off < off) f->off = off;`
abbrev pub reach : ℕ → File → File
reach off f = if ltb f.off off then record f { off = off } else f

-- The loop of `pwrite_os` with `left` of the `n` bytes to write; the offset is no negative `int`. As in
-- `filewrite`, `left` rounds are enough.
unfoldable pub pwrite_rounds :
    ℕ → ℕ → (ℕ → ℕ) → ℕ → ℕ → File → Volume → Option (FileWritten × File × Volume)
unfolding fill_hole
pwrite_rounds zero n src off left f v = some (all_written, f, v)
pwrite_rounds (suc rounds) n src off left f v =
    let n₁ = min left max_write in
    let round : Option (FileWritten × File × Volume) = (do
      (w, v') ← writei f.ip src off n₁ (fill_hole f.ip n n₁ off v)
      elim w [
        | wrote r ↦
            if r == n₁
            then pwrite_rounds rounds n (λ k. src (n₁ + k)) (off + r) (left - n₁)
                (reach (off + r) f) v'
            else none
        | refused ↦ some (write_refused, reach off f, v')
        | to_device ↦ some (device_takes, f, v')
      ]) in
    if left == 0 then some (all_written, f, v) else round

-- `pwrite_os` for the file that the descriptor stands for, if any.
unfoldable pub pwrite_os :
    Option File → (ℕ → ℕ) → ℕ → ℕ → Volume → Option (FileWritten × Option File × Volume)
unfolding pwrite_rounds
pwrite_os none src n off v = some (write_refused, none, v)
pwrite_os (some f) src n off v =
    let inode : Option (FileWritten × Option File × Volume) = (do
      (w, f', v') ← pwrite_rounds n n src off n f v
      some (w, some f', v')) in
    elim f.kind [
      | fd_inode ↦ if leb (2 ^ 31) n then some (write_refused, some f, v) else inode
      | fd_pipe ↦ none
      | fd_none ↦ none
    ]

-- `pread_os` likewise.
unfoldable pub pread_os : Option File → ℕ → ℕ → Volume → Option (Fetched × Volume)
pread_os none n off v = some (fetch_refused, v)
pread_os (some f) n off v = elim f.kind [
  | fd_inode ↦ readi f.ip off n v
  | fd_pipe ↦ none
  | fd_none ↦ none
]
