-- ===== src/Log.antt =====
-- The redo log of xv6-public/log.c. A disk block is its words, a function of the index. The machine holds
-- the disk and what `bread` returns of each block (the buffer cache: `log_write` leaves a block there that
-- the disk does not have yet). `budget` counts the disk writes that still reach the disk before the
-- power fails: from then on the code runs on, and the disk stays as it is.
pub mod Disk
pub mod Install
pub mod Commit
pub mod Recovery
pub mod Atomic
pub mod Space
pub mod Room
pub mod Ending
mod Tests
use hyeonseung_os.Base.{
  ℕ, zero, suc, ◌+◌, ◌-◌, ◌*◌, Bool, true, false, Option, none, some, ◌==◌, ltb, leb, ◌||◌,
  if◌then◌else◌, update, for_range,
}

abbrev pub logsize : ℕ
logsize = 30

abbrev pub maxopblocks : ℕ
maxopblocks = 10

abbrev pub Block : Type 0
Block = ℕ → ℕ

-- `struct logheader`.
pub record LogHeader : Type 0 where
  pub n : ℕ
  pub block : ℕ → ℕ

-- What the log code reads and writes of the machine; `start` is `log.start`.
pub record Machine : Type 0 where
  pub start : ℕ
  pub lh : LogHeader
  pub cache : ℕ → Block
  pub disk : ℕ → Block
  pub budget : ℕ

-- A change of a buffer and `bwrite` of it.
abbrev pub bwrite : ℕ → Block → Machine → Machine
bwrite b v m = record m {
  cache = update m.cache b v;
  disk = if m.budget == 0 then m.disk else update m.disk b v;
  budget = m.budget - 1;
}

-- The body of `install_trans`: copy a block from the log to its home.
abbrev pub install_one : ℕ → Machine → Machine
install_one tail m = bwrite (m.lh.block tail) (m.cache (m.start + tail + 1)) m

pub install_trans : Machine → Machine
install_trans m = for_range m.lh.n 0 install_one m

-- `read_head`, which reads the header block word by word.
pub read_head : Machine → Machine
read_head m = record m {
  lh = record { n = m.cache m.start 0; block = λ i. m.cache m.start (i + 1) };
}

-- The loop of `write_head` over the words of the buffer.
pub head_block : LogHeader → Block → Block
head_block lh old = for_range lh.n 0 (λ i b. update b (i + 1) (lh.block i)) (update old 0 lh.n)

pub write_head : Machine → Machine
write_head m = bwrite m.start (head_block m.lh (m.cache m.start)) m

abbrev pub clear : Machine → Machine
clear m = record m { lh = record (m.lh) { n = 0 } }

pub recover_from_log : Machine → Machine
recover_from_log m = write_head (clear (install_trans (read_head m)))

-- The body of `write_log`: copy a block from the cache to the log.
abbrev pub log_one : ℕ → Machine → Machine
log_one tail m = bwrite (m.start + tail + 1) (m.cache (m.lh.block tail)) m

pub write_log : Machine → Machine
write_log m = for_range m.lh.n 0 log_one m

pub commit : Machine → Machine
commit m = if ltb 0 m.lh.n then write_head (clear (install_trans (write_head (write_log m)))) else m

-- The machine after a restart: the cache is what the disk holds.
pub restart : ℕ → (ℕ → Block) → ℕ → Machine
restart start disk budget = record {
  start = start;
  lh = record { n = 0; block = λ i. 0 };
  cache = disk;
  disk = disk;
  budget = budget;
}
