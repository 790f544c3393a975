-- ===== src/Buffers/Tests.antt =====
-- Runs of the buffer cache, and its theorems at the cache as it starts.
use hyeonseung_os.Base.{
  ℕ, ◌≡◌, ◌≢◌, ◌⊎◌, refl, true, false, Option, none, some, ◌>>=◌, [], ◌∷◌, ◌++◌, take,
}
use hyeonseung_os.Buffers.{Bcache, nbuf, binit, bget, brelse, set_buf, scan_ring, push_front}
use hyeonseung_os.Buffers.Ring.{IsRing}
use hyeonseung_os.Buffers.Search.{HasBlock, IsReusable, First, reversed}
use hyeonseung_os.Buffers.Cache.{Held, Retagged, bget_lem, brelse_lem}
use hyeonseung_os.Buffers.Start.{below, binit-IsRing}

abbrev raw : Bcache
raw = record {
  buf = λ i. record {
    valid = false;
    dirty = false;
    dev = 0;
    blockno = 0;
    locked = false;
    refcnt = 0;
  };
  next = λ i. 0;
  prev = λ i. 0;
}

abbrev start : Bcache
start = binit raw

bget_lem_example :
    ((b : ℕ) × (s' : Bcache) × First (HasBlock 1 5) start.buf (below nbuf) (some b)
      × (bget 1 5 start ≡ some (b, s'))
      × Held b start s'
      × IsRing s' (below nbuf))
    ⊎ (First (HasBlock 1 5) start.buf (below nbuf) none
        × (((b : ℕ) × (s' : Bcache) × First IsReusable start.buf (reversed (below nbuf)) (some b)
              × (bget 1 5 start ≡ some (b, s'))
              × Retagged 1 5 b start s'
              × IsRing s' (below nbuf))
            ⊎ (First IsReusable start.buf (reversed (below nbuf)) none × (bget 1 5 start ≡ none))))
bget_lem_example = bget_lem 1 5 start (below nbuf) (binit-IsRing raw)

-- The first block goes to buffer 0, at the end of the ring.
abbrev got : Option (ℕ × Bcache) → Option ℕ
got r = do (b, s) ← r; some b

first_buffer : got (bget 1 5 start) ≡ some 0
unfolding bget binit push_front scan_ring
first_buffer = refl

-- Buffer 0 held, in a ring of its own making.
abbrev held : Bcache
held = set_buf 0 (record (raw.buf 0) { refcnt = 1; locked = true }) raw

brelse_lem_example :
    (s' : Bcache) × (brelse 0 (binit held) ≡ some s')
    × IsRing s' (0 ∷ (take 29 (below nbuf) ++ []))
    × (s'.buf 0 ≡ record ((binit held).buf 0) { locked = false; refcnt = 0 })
    × ((j : ℕ) → j ≢ 0 → s'.buf j ≡ (binit held).buf j)
unfolding binit push_front
brelse_lem_example =
    brelse_lem 0 (binit held) (take 29 (below nbuf)) [] (binit-IsRing held) refl refl
