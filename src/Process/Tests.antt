-- ===== src/Process/Tests.antt =====
-- Runs of the process table, and its theorems at a small table.
use hyeonseung_os.Base.{
  ℕ, zero, suc, ◌<◌, ◌≡◌, ◌≢◌, ◌⊎◌, refl, inl, inr, true, false, [], arith, replicate, some, update,
  ◌==◌,
}
use hyeonseung_os.Process.{
  Proc, unused, sleeping, runnable, running, Table, Ptable, is_zombie, is_unused, allocproc, fork,
  exit, exit_table, wait, kill, find_proc, doom, reaped, reap,
}
use hyeonseung_os.Process.Exit.{is_live}
use hyeonseung_os.Process.Rooted.{IsRooted}
use hyeonseung_os.Process.Orphans.{exits, step, step-IsRooted}
use hyeonseung_os.Process.Reaping.{exit_then_wait}
use hyeonseung_os.Process.Pids.{Below, fork_fresh}

abbrev free_slot : Proc
free_slot = record {
  sz = 0;
  pgdir = 0;
  kstack = 0;
  state = unused;
  pid = 0;
  parent = 0;
  chan = 0;
  killed = false;
  ofile = replicate 16 0;
  cwd = 0;
  name = [];
}

abbrev init_proc : Proc
init_proc = record free_slot { state = runnable; pid = 1; kstack = 1; pgdir = 1 }

-- The shell waits for its child.
abbrev shell : Proc
shell = record free_slot { state = sleeping; pid = 2; parent = 1; chan = 2; kstack = 2; pgdir = 2 }

abbrev job : Proc
job = record free_slot { state = running; pid = 3; parent = 2; kstack = 3; pgdir = 3 }

abbrev table : Table
table zero = init_proc
table (suc zero) = shell
table (suc (suc zero)) = job
table (suc (suc (suc n))) = free_slot

abbrev boot : Ptable
boot = record { procs = table; nextpid = 4; initproc = 1 }

abbrev worn : Ptable
worn = record { procs = table; nextpid = 10_001; initproc = 1 }

table-parents :
    (j : ℕ)
    → j < 64
    → is_unused (table j).state ≡ false
    → ((table j).parent ≡ 0)
      ⊎ ((q : ℕ) × ((table j).parent ≡ suc q) × (q < 64) × (is_live (table q).state ≡ true))
table-parents zero h u = inl refl
table-parents (suc zero) h u = inr (0, refl, omega arith, refl)
table-parents (suc (suc zero)) h u = inr (1, refl, omega arith, refl)
table-parents (suc (suc (suc n))) h u = cc

boot-IsRooted : IsRooted boot
boot-IsRooted = record {
  init = 0;
  init_ptr = refl;
  init_slot = omega arith;
  init_live = refl;
  parents = table-parents;
}

table-pids : (j : ℕ) → j < 64 → is_unused (table j).state ≡ false → (table j).pid < 4
table-pids zero h u = omega arith
table-pids (suc zero) h u = omega arith
table-pids (suc (suc zero)) h u = omega arith
table-pids (suc (suc (suc n))) h u = cc

table-zero : (j : ℕ) → j < 64 → is_unused (table j).state ≡ ((table j).pid == 0)
table-zero zero h = refl
table-zero (suc zero) h = refl
table-zero (suc (suc zero)) h = refl
table-zero (suc (suc (suc n))) h = refl

fork_returns : (fork 9 9 2 boot).0 ≡ some 4
unfolding fork allocproc find_proc
fork_returns = refl

step-IsRooted_example : IsRooted (record boot { procs = exit_table 2 1 table })
unfolding step exit
step-IsRooted_example =
    step-IsRooted (exits 2) boot {s' = record boot { procs = exit_table 2 1 table }}
      (omega arith, refl) boot-IsRooted refl

exit_then_wait_example :
    let s' : Ptable = record boot { procs = exit_table 2 1 table } in
    ((table 1).state ≡ sleeping → (table 1).chan ≡ 2 → (s'.procs 1).state ≡ runnable)
    × ((i : ℕ) × ((s'.procs i).parent ≡ 2)
        × (is_zombie (s'.procs i).state ≡ true)
        × (wait 1 s' ≡ (
          reaped (s'.procs i).pid,
          record s' { procs = update s'.procs i (reap (s'.procs i)) },
        )))
unfolding exit
exit_then_wait_example =
    exit_then_wait boot {s' = record boot { procs = exit_table 2 1 table }} 2 1 (omega arith)
      (omega arith) (omega arith) refl refl

fork_fresh_example :
    let s' = (fork 9 9 2 boot).1 in
    (i : ℕ) × ((s'.procs i).pid ≡ 4)
    × ((s'.procs i).parent ≡ 3)
    × ((j : ℕ) → j < 64 → j ≢ i → is_unused (s'.procs j).state ≡ false → (s'.procs j).pid ≢ 4)
    × Below s'
fork_fresh_example = fork_fresh 9 9 2 boot refl (omega arith) table-pids fork_returns

worn_returns : (fork 9 9 2 worn).0 ≡ some 3
unfolding fork allocproc find_proc
worn_returns = refl

doomed_returns : (fork 9 9 2 (kill 0 boot).1).0 ≡ some 4
unfolding fork allocproc find_proc kill doom
doomed_returns = refl
