-- ===== src/Inodes.antt =====
-- The inode cache of xv6-public/fs.c. A `struct inode *` is the index of its entry in `icache.inode`. The
-- fields that `struct dinode` has too stand in the volume, by the number of the inode: the cached copies;
-- `disk` holds the copies on the disk, as the log will leave them. A call waits in `acquiresleep` until the
-- entry is free, and runs then. A call for an entry that the caller itself holds, which waits for ever, is
-- not modelled.
pub mod Cache
pub mod Last
pub mod Held
mod Tests
use hyeonseung_os.Base.{
  ℕ, zero, suc, ◌+◌, ◌-◌, Bool, true, false, not, ◌&&◌, ◌||◌, Option, none, some, ◌>>=◌, ◌==◌, ltb,
  if◌then◌else◌, update,
}
use hyeonseung_os.Volume.{Volume, Inode, set_inode}
use hyeonseung_os.Volume.Transfer.{Written, writei}
use hyeonseung_os.Volume.Truncate.{itrunc}

-- The fields of `struct inode` that are not on the disk; `locked` is that of its sleep lock.
pub record Entry : Type 0 where
  pub dev : ℕ
  pub inum : ℕ
  pub ref : ℕ
  pub valid : Bool
  pub locked : Bool

abbrev pub ninode : ℕ
ninode = 50

abbrev pub Entries : Type 0
Entries = ℕ → Entry

-- `ninodes` is `sb.ninodes`.
pub record Store : Type 0 where
  pub volume : Volume
  pub entries : Entries
  pub disk : ℕ → Inode
  pub ninodes : ℕ

abbrev pub is_entry : ℕ → ℕ → Entry → Bool
is_entry dev inum e = ltb 0 e.ref && e.dev == dev && e.inum == inum

-- `if(empty == 0 && ip->ref == 0) empty = ip;`
abbrev pub note_empty : Option ℕ → ℕ → Entry → Option ℕ
note_empty (some k) i e = some k
note_empty none i e = if e.ref == 0 then some i else none

-- The loop of `iget`: the entry that it finds, and `empty`.
unfoldable pub scan_entries : ℕ → ℕ → ℕ → ℕ → Option ℕ → Entries → Option ℕ × Option ℕ
scan_entries zero i dev inum empty t = (none, empty)
scan_entries (suc n) i dev inum empty t =
    let rest = scan_entries n (i + 1) dev inum (note_empty empty i (t i)) t in
    if is_entry dev inum (t i) then (some i, empty) else rest

-- What `iget` returns for what its loop has found; `none` is the panic.
abbrev pub get_entry : ℕ → ℕ → Option ℕ × Option ℕ → Entries → Option (ℕ × Entries)
get_entry dev inum (some i, empty) t = some (i, update t i (record (t i) { ref = (t i).ref + 1 }))
get_entry dev inum (none, some i) t =
    some (i, update t i (record (t i) { dev = dev; inum = inum; ref = 1; valid = false }))
get_entry dev inum (none, none) t = none

unfoldable pub iget : ℕ → ℕ → Store → Option (ℕ × Store)
unfolding scan_entries
iget dev inum s = do
  (i, t) ← get_entry dev inum (scan_entries ninode 0 dev inum none s.entries) s.entries
  some (i, record s { entries = t })

unfoldable pub idup : ℕ → Store → Store
idup i s = record s {
  entries = update s.entries i (record (s.entries i) { ref = (s.entries i).ref + 1 });
}

-- `iupdate`, by the number of the inode.
unfoldable pub iupdate : ℕ → Store → Store
iupdate n s = record s { disk = update s.disk n (s.volume.inodes n) }

-- `ilock`, once no other process holds the entry; `none` is a panic.
unfoldable pub ilock : ℕ → Store → Option Store
ilock i s =
    let e : Entry = s.entries i in
    let t : Entries = update s.entries i (record e { locked = true; valid = true }) in
    let loaded : Store = record s {
      entries = t;
      volume = set_inode e.inum (s.disk e.inum) s.volume;
    } in
    if e.ref == 0
    then none
    else if e.valid
    then some (record s { entries = t })
    else if (s.disk e.inum).kind == 0
    then none
    else some loaded

unfoldable pub iunlock : ℕ → Store → Option Store
iunlock i s =
    let e : Entry = s.entries i in
    if not e.locked || e.ref == 0
    then none
    else some (record s { entries = update s.entries i (record e { locked = false }) })

-- The part of `iput` that frees the inode: it is truncated, marked free, on the disk too, and no longer
-- valid in the cache.
unfoldable pub free_inode : ℕ → Store → Option Store
unfolding iupdate
free_inode i s = do
  let n : ℕ = (s.entries i).inum
  v ← itrunc n s.volume
  let v' : Volume = set_inode n (record (v.inodes n) { kind = 0 }) v
  some (record (iupdate n (record s { volume = v' })) {
    entries = update s.entries i (record (s.entries i) { valid = false });
  })

-- The end of `iput`; `ref` is not 0 before it.
abbrev pub drop_ref : ℕ → Store → Store
drop_ref i s = record s {
  entries =
      update s.entries i (record (s.entries i) { ref = (s.entries i).ref - 1; locked = false });
}

-- `iput`, for an entry that the caller does not hold locked; `none` is a panic of `bfree`.
unfoldable pub iput : ℕ → Store → Option Store
unfolding free_inode
iput i s =
    let e : Entry = s.entries i in
    let freed : Option Store = (do s' ← free_inode i s; some (drop_ref i s')) in
    if e.valid && (s.volume.inodes e.inum).nlink == 0 && e.ref == 1
    then freed
    else some (drop_ref i s)

unfoldable pub iunlockput : ℕ → Store → Option Store
unfolding iunlock iput
iunlockput i s = iunlock i s >>= iput i

-- A new inode on the disk.
abbrev pub new_inode : ℕ → Inode
new_inode kind = record { kind = kind; major = 0; minor = 0; nlink = 0; size = 0; addrs = λ i. 0 }

-- The loop of `ialloc`: the first free inode of `n` from `i` on.
unfoldable pub free_number : ℕ → ℕ → (ℕ → Inode) → Option ℕ
free_number zero i d = none
free_number (suc n) i d =
    let rest = free_number n (i + 1) d in if (d i).kind == 0 then some i else rest

-- `ialloc`; `none` is a panic.
unfoldable pub ialloc : ℕ → ℕ → Store → Option (ℕ × Store)
unfolding free_number iget
ialloc dev kind s = do
  n ← free_number (s.ninodes - 1) 1 s.disk
  iget dev n (record s { disk = update s.disk n (new_inode kind) })

-- `writei`, with its `iupdate` of a file that has grown.
unfoldable pub write_inode : ℕ → (ℕ → ℕ) → ℕ → ℕ → Store → Option (Written × Store)
unfolding iupdate
write_inode n src off len s = do
  (w, v) ← writei n src off len s.volume
  let s' : Store = record s { volume = v }
  let grown : Bool = ltb (s.volume.inodes n).size (v.inodes n).size
  some (w, if grown then iupdate n s' else s')
