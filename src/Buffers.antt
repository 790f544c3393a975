-- ===== src/Buffers.antt =====
-- The buffer cache of xv6-public/bio.c. A `struct buf *` is the index in `bcache.buf`, and `head` one more
-- than the last. The bytes are those of the blocks in Log and Volume; here are the tags of the buffers and
-- the ring of them. A call waits in `acquiresleep` until the buffer is free, and runs then.
pub mod Ring
pub mod Search
pub mod Cache
pub mod Start
mod Tests
use hyeonseung_os.Base.{
  ℕ, zero, suc, ◌+◌, ◌-◌, ◌*◌, Bool, true, false, not, ◌&&◌, ◌||◌, Option, none, some, ◌>>=◌, ◌==◌,
  if◌then◌else◌, update, for_range,
}

-- `valid` and `dirty` are the bits B_VALID and B_DIRTY of `flags`, and `locked` is that of the sleep lock.
pub record Buf : Type 0 where
  pub valid : Bool
  pub dirty : Bool
  pub dev : ℕ
  pub blockno : ℕ
  pub locked : Bool
  pub refcnt : ℕ

abbrev pub nbuf : ℕ
nbuf = 30

-- `&bcache.head`
abbrev pub head : ℕ
head = nbuf

abbrev pub Links : Type 0
Links = ℕ → ℕ

-- `next` and `prev` are the links of the buffers and of the head.
pub record Bcache : Type 0 where
  pub buf : ℕ → Buf
  pub next : Links
  pub prev : Links

-- The four stores that put a buffer at the front of the ring.
unfoldable pub push_front : ℕ → Bcache → Bcache
push_front b s =
    let next₁ : Links = update s.next b (s.next head) in
    let prev₁ : Links = update s.prev b head in
    let prev₂ : Links = update prev₁ (next₁ head) b in
    record s { next = update next₁ head b; prev = prev₂ }

-- `binit`, from the buffers as they are at the start.
unfoldable pub binit : Bcache → Bcache
unfolding push_front for_range
binit s =
    let empty : Bcache = record s {
      next = update s.next head head;
      prev = update s.prev head head;
    } in
    for_range nbuf 0 push_front empty

-- A scan of the ring along `links` from `b` on, up to the first buffer that passes.
unfoldable pub scan_ring : ℕ → (Buf → Bool) → Links → (ℕ → Buf) → ℕ → Option ℕ
scan_ring zero test links buf b = none
scan_ring (suc rounds) test links buf b =
    let rest = scan_ring rounds test links buf (links b) in
    if b == head then none else if test (buf b) then some b else rest

abbrev pub is_block : ℕ → ℕ → Buf → Bool
is_block dev blockno b = b.dev == dev && b.blockno == blockno

-- A buffer that `bget` may take for another block.
abbrev pub is_idle : Buf → Bool
is_idle b = b.refcnt == 0 && not b.dirty

-- What the two branches of `bget` do to a buffer.
abbrev pub keep : Buf → Buf
keep b = record b { refcnt = b.refcnt + 1; locked = true }

abbrev pub recycle : ℕ → ℕ → Buf → Buf
recycle dev blockno b = record b {
  dev = dev;
  blockno = blockno;
  valid = false;
  dirty = false;
  refcnt = 1;
  locked = true;
}

abbrev pub set_buf : ℕ → Buf → Bcache → Bcache
set_buf i b s = record s { buf = update s.buf i b }

-- `bget`; `none` is the panic. Both loops meet the 30 buffers and the head.
unfoldable pub bget : ℕ → ℕ → Bcache → Option (ℕ × Bcache)
bget dev blockno s = elim (scan_ring (nbuf + 1) (is_block dev blockno) s.next s.buf (s.next head)) [
  | some b ↦ some (b, set_buf b (keep (s.buf b)) s)
  | none ↦ elim (scan_ring (nbuf + 1) is_idle s.prev s.buf (s.prev head)) [
    | some b ↦ some (b, set_buf b (recycle dev blockno (s.buf b)) s)
    | none ↦ none
  ]
]

-- `bread`, and whether it reads the disk.
unfoldable pub bread : ℕ → ℕ → Bcache → Option (ℕ × Bool × Bcache)
unfolding bget
bread dev blockno s = do
  (b, s') ← bget dev blockno s
  some (b, not (s'.buf b).valid, set_buf b (record (s'.buf b) { valid = true }) s')

-- `bwrite`, which leaves the buffer clean again; `none` is the panic.
unfoldable pub bwrite : ℕ → Bcache → Option Bcache
bwrite b s =
    if (s.buf b).locked
    then some (set_buf b (record (s.buf b) { valid = true; dirty = false }) s)
    else none

-- The two stores that take a buffer out of the ring.
unfoldable pub unlink : ℕ → Bcache → Bcache
unlink b s =
    let prev₁ : Links = update s.prev (s.next b) (s.prev b) in
    record s { prev = prev₁; next = update s.next (prev₁ b) (s.next b) }

-- `brelse`; `none` is the panic. `refcnt` is not 0 before it.
unfoldable pub brelse : ℕ → Bcache → Option Bcache
brelse b s =
    let s' : Bcache =
      set_buf b (record (s.buf b) { locked = false; refcnt = (s.buf b).refcnt - 1 }) s in
    if not (s.buf b).locked
    then none
    else if (s'.buf b).refcnt == 0
    then some (push_front b (unlink b s'))
    else some s'
