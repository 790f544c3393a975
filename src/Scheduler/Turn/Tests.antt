-- ===== src/Scheduler/Turn/Tests.antt =====
-- A visit of the scheduler's loop, with a sleeper of least path.
use hyeonseung_os.Base.{
  ℕ, suc, ◌≤◌, ◌≡◌, ◌≢◌, ◌⊎◌, refl, true, false, some, [], arith, ◌==◌, if◌then◌else◌,
}
use hyeonseung_os.Process.{Table, sleeping, runnable, is_runnable}
use hyeonseung_os.Scheduler.{StrideTable}
use hyeonseung_os.Scheduler.Stride.{path_cal}
use hyeonseung_os.Scheduler.Stride.Pick.{Cand, path_key}
use hyeonseung_os.Scheduler.Stride.Fairness.{Advanced}
use hyeonseung_os.Scheduler.Mlfq.{boot_mlfq}
use hyeonseung_os.Scheduler.Mlfq.Dormant.{IsDormant, boot_mlfq-IsDormant}
use hyeonseung_os.Scheduler.Turn.{Kernel, start, visit}
use hyeonseung_os.Scheduler.Turn.Choice.{IsStaffed, visit_lem}

-- Slot 3 has the runnable process 7, and slot 5 the process 4, which sleeps.
abbrev procs : Table
procs i = record {
  sz = 0;
  pgdir = 0;
  kstack = 0;
  state = if i == 3 then runnable else sleeping;
  pid = if i == 3 then 7 else if i == 5 then 4 else 0;
  parent = 0;
  chan = 0;
  killed = false;
  ofile = [];
  cwd = 0;
  name = [];
}

-- Process 4 has a share of 20 and the least path.
abbrev strides : StrideTable
strides = record {
  entries = λ i. record {
    pid = i;
    share = if i == 0 then 80 else 20;
    full = if i == 0 then 1 else if i == 4 then 1 else 0;
    path = if i == 0 then 200 else 0;
    is_stride = if i == 4 then 1 else 0;
    proc = if i == 4 then 6 else 0;
  };
  table_size = 1;
  max_pid = 4;
  max_sum = 20;
}

abbrev one_ready : Kernel
one_ready = record { procs = procs; strides = strides; queues = boot_mlfq }

strides-IsStaffed : IsStaffed strides
strides-IsStaffed = record {
  share = λ j l c. ground arith;
  positive = λ j l c. ground arith;
  proc = λ j l c nz. ground (arith, c, nz);
  base = refl;
  low = omega arith;
}

visit_lem_example :
    (k : ℕ) × (s' : Kernel) × (s₂ : Kernel) × (visit 3 (λ t. t) 50 51 one_ready ≡ some (k, s'))
    × IsDormant s'.queues
    × ((j : ℕ) → j ≤ 4 → Cand strides j → path_key strides (path_cal strides) ≤ path_key strides j)
    × Advanced (path_cal strides) strides s₂.strides
    × (s₂.procs ≡ procs)
    × (((path_cal strides ≡ 0) × (k ≡ 3))
        ⊎ ((path_cal strides ≢ 0) × ((strides.entries (path_cal strides)).proc ≡ suc k)))
    × (((is_runnable (procs k).state ≡ true) × (s'.procs ≡ (start k 50 s₂).procs))
        ⊎ ((is_runnable (procs k).state ≡ false) × (s' ≡ s₂)))
visit_lem_example =
    visit_lem 3 50 51 (λ t. t) one_ready boot_mlfq-IsDormant strides-IsStaffed (λ t d. d) refl
      (omega arith)
