-- ===== src/Scheduler/Stride.antt =====
-- Stride scheduling: `path_cal`, `stride`, `set_table`, `set_cpu_share` and what becomes of the entry
-- of a process that ends.
pub mod Pick
pub mod Fairness
pub mod Shares
pub mod Booking
pub mod Retiring
mod Tests
use hyeonseung_os.Base.{
  ℕ, zero, suc, ◌+◌, ◌-◌, ◌/◌, ◌^◌, Bool, true, false, ◌&&◌, ◌||◌, Option, none, some, ◌==◌, ltb,
  if◌then◌else◌, update, for_range, add32, sub32, lt_int,
}
use hyeonseung_os.Scheduler.{StrideEntry, StrideTable}

abbrev pub nstride : ℕ
nstride = 20_000

-- `int minimum = 2147483647`
abbrev pub int_max : ℕ
int_max = 2 ^ 31 - 1

-- The variables `minimum` and `destination` of `path_cal`.
pub record Best : Type 0 where
  pub minimum : ℕ
  pub destination : ℕ

-- The body of the loop of `path_cal`.
pub consider : StrideTable → ℕ → Best → Best
consider s i b =
    if i == 1 || i == 2
    then b
    else (if (s.entries i).full == 1 && lt_int (s.entries i).path b.minimum
        then record { minimum = (s.entries i).path; destination = i }
        else b)

unfoldable pub path_cal : StrideTable → ℕ
unfolding consider for_range
path_cal s =
    let best =
      for_range (s.max_pid + 1) 0 (consider s) (record { minimum = int_max; destination = 0 }) in
    best.destination

-- `stride`: the process of the entry, and the table with the entry's path advanced. `none` is the panic
-- on a negative share, or the fault of a division by zero.
pub stride : ℕ → StrideTable → Option (ℕ × StrideTable)
stride d s =
    let e : StrideEntry = s.entries d in
    let e' : StrideEntry = record e { path = add32 e.path (10000 / e.share) } in
    if lt_int e.share 0
    then none
    else (if e.share == 0
        then none
        else some (e.proc, record s { entries = update s.entries d e' }))

-- The loop of `set_table` that resets paths.
pub reset_paths : ℕ → (ℕ → StrideEntry) → ℕ → StrideEntry
reset_paths max_pid = for_range max_pid 0 (λ i t. update t i (record (t i) { path = 0 }))

-- `set_table` by the process with number `pid` at address `proc`.
pub set_table : ℕ → ℕ → ℕ → StrideTable → StrideTable
unfolding reset_paths
set_table input pid proc s =
    let max_pid : ℕ = if lt_int s.max_pid pid then pid else s.max_pid in
    let max_sum : ℕ = add32 s.max_sum input in
    let base : StrideEntry = record (s.entries 0) { share = sub32 100 max_sum } in
    let t : ℕ → StrideEntry = update s.entries 0 base in
    let mine : StrideEntry = record (t pid) {
      share = input;
      pid = pid;
      full = 1;
      path = 0;
      proc = proc;
      is_stride = 1;
    } in
    if lt_int (nstride - 1) s.max_pid
    then s
    else (if lt_int 80 max_sum then s else record {
      entries = reset_paths max_pid (update t pid mine);
      table_size = add32 s.table_size 1;
      max_pid = max_pid;
      max_sum = max_sum;
    })

-- The system call: the share, or -1 (`none`).
pub set_cpu_share : ℕ → ℕ → ℕ → StrideTable → Option ℕ × StrideTable
set_cpu_share a pid proc s =
    let s' = set_table a pid proc s in ((if (s'.entries pid).share == a then some a else none), s')

-- What the scheduler and `thread_exit_os` do to the entry of a process that ends.
pub retire : ℕ → StrideTable → StrideTable
retire pid s =
    let mine : StrideEntry = record (s.entries pid) { full = 0; is_stride = 0 } in
    let t : ℕ → StrideEntry = update s.entries pid mine in
    let max_sum : ℕ = sub32 s.max_sum (t pid).share in
    let base : StrideEntry = record (t 0) { share = sub32 100 max_sum } in
    if (s.entries pid).is_stride == 1
    then record s {
      entries = update t 0 base;
      table_size = sub32 s.table_size 1;
      max_sum = max_sum;
    }
    else s

-- `stride_table[0]` as `scheduler` sets it up, all else zero.
pub boot_table : StrideTable
boot_table = record {
  entries = update (λ i. blank) 0 idle;
  table_size = 0;
  max_pid = 0;
  max_sum = 0;
}
  where
    blank : StrideEntry
    blank = record { pid = 0; share = 0; full = 0; path = 0; is_stride = 0; proc = 0 }

    idle : StrideEntry
    idle = record blank { pid = 2; share = 100; full = 1 }
