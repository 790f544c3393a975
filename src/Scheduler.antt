-- ===== src/Scheduler.antt =====
-- The scheduler's tables in xv6-public/proc.c and proc.h: the stride table and the multi-level
-- feedback queue. An `int` is the 32 bits that hold it. `stride_table` and `mlfq` have 20000 entries and
-- are indexed by process numbers, which `allocproc` keeps at 10000 or below.
pub mod Stride
pub mod Mlfq
pub mod Turn
use hyeonseung_os.Base.{ℕ}

-- An entry of `stride_table`; `proc` is null or the address of the process.
pub record StrideEntry : Type 0 where
  pub pid : ℕ
  pub share : ℕ
  pub full : ℕ
  pub path : ℕ
  pub is_stride : ℕ
  pub proc : ℕ

-- `stride_table`, `table_size`, `max_pid` and `max_sum`.
pub record StrideTable : Type 0 where
  pub entries : ℕ → StrideEntry
  pub table_size : ℕ
  pub max_pid : ℕ
  pub max_sum : ℕ
