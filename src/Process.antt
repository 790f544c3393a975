-- ===== src/Process.antt =====
-- The process table of xv6-public/proc.c and the process states of proc.h. A `struct proc *` is
-- a number: 0 is the null pointer and `suc i` points to `ptable.proc[i]`. Each function is one step, up
-- to the call of `sched` where there is one; `fork` and `exit` take `ptable.lock` in part of it only, and
-- are a step each here.
pub mod Table
pub mod Exit
pub mod Alloc
pub mod Rooted
pub mod RootedSteps
pub mod Orphans
pub mod Reaping
pub mod Pids
pub mod Kill
mod Tests
use hyeonseung_os.Base.{
  ℕ, zero, suc, ◌+◌, ◌≡◌, Bool, true, false, not, ◌&&◌, ◌||◌, List, [], ◌∷◌, map, Option, none,
  some, ◌==◌, ltb, if◌then◌else◌, update, for_range, replicate,
}

pub data ProcState : Type 0 where
  unused embryo sleeping runnable running zombie : ProcState

abbrev pub is_unused : ProcState → Bool
is_unused unused = true
is_unused _ = false

abbrev pub is_sleeping : ProcState → Bool
is_sleeping sleeping = true
is_sleeping _ = false

abbrev pub is_runnable : ProcState → Bool
is_runnable runnable = true
is_runnable _ = false

abbrev pub is_zombie : ProcState → Bool
is_zombie zombie = true
is_zombie _ = false

-- `struct proc`, less the saved registers `tf` and `context` and the fields of the threads; `name` is the
-- string up to its NUL.
pub record Proc : Type 0 where
  pub sz : ℕ
  pub pgdir : ℕ
  pub kstack : ℕ
  pub state : ProcState
  pub pid : ℕ
  pub parent : ℕ
  pub chan : ℕ
  pub killed : Bool
  pub ofile : List ℕ
  pub cwd : ℕ
  pub name : List ℕ

abbrev pub nproc : ℕ
nproc = 64

abbrev pub Table : Type 0
Table = ℕ → Proc

-- `ptable`, `nextpid` and `initproc`.
pub record Ptable : Type 0 where
  pub procs : Table
  pub nextpid : ℕ
  pub initproc : ℕ

-- The scan `for(p = ptable.proc; p < &ptable.proc[NPROC]; p++)` up to the first entry that passes.
unfoldable pub find_proc : (Proc → Bool) → Table → ℕ → ℕ → Option ℕ
find_proc test t zero i = none
find_proc test t (suc n) i =
    let rest = find_proc test t n (i + 1) in if test (t i) then some i else rest

-- The number that `allocproc` gives out: `nextpid`, reset to 3 above 10000.
abbrev pub next_pid : Ptable → ℕ
next_pid s = if ltb 10000 s.nextpid then 3 else s.nextpid

abbrev pub claim : ℕ → ℕ → Proc → Proc
claim kstack pid p = record p { state = embryo; pid = pid; kstack = kstack }

-- `allocproc`; `kstack` is what its call of `kalloc` returns.
unfoldable pub allocproc : ℕ → Ptable → Option ℕ × Ptable
allocproc kstack s = elim (find_proc (λ p. is_unused p.state) s.procs nproc 0) [
  | none ↦ (none, s)
  | some i ↦
      let p : Proc = claim kstack (next_pid s) (s.procs i) in
      let p' : Proc = record p { state = unused } in
      if kstack == 0
      then (none, record s { procs = update s.procs i p'; nextpid = next_pid s + 1 })
      else (some i, record s { procs = update s.procs i p; nextpid = next_pid s + 1 })
]

-- `np->ofile[i] = filedup(curproc->ofile[i])` at the files that are open.
unfoldable pub copy_files : List ℕ → List ℕ → List ℕ
copy_files [] to = to
copy_files (f ∷ fs) [] = []
copy_files (f ∷ fs) (g ∷ gs) = (if f == 0 then g else f) ∷ copy_files fs gs

-- The entry of the new process once it is runnable.
abbrev pub child_of : ℕ → ℕ → Proc → Proc → Proc
child_of pgdir cur parent np = record np {
  pgdir = pgdir;
  sz = parent.sz;
  parent = suc cur;
  ofile = copy_files parent.ofile np.ofile;
  cwd = parent.cwd;
  name = parent.name;
  state = runnable;
}

-- The part of `fork` that follows `allocproc`.
pub fork_into : ℕ → ℕ → Option ℕ × Ptable → Option ℕ × Ptable
unfolding copy_files
fork_into pgdir cur (none, s) = (none, s)
fork_into pgdir cur (some i, s) =
    let np : Proc = s.procs i in
    let failed : Proc = record np { pgdir = 0; kstack = 0; state = unused } in
    let child : Proc = child_of pgdir cur (s.procs cur) np in
    if pgdir == 0
    then (none, record s { procs = update s.procs i failed })
    else (some np.pid, record s { procs = update s.procs i child })

-- `fork` by the process in slot `cur`; `kstack` and `pgdir` are what `kalloc` and `copyuvm` return.
-- `none` stands for -1.
pub fork : ℕ → ℕ → ℕ → Ptable → Option ℕ × Ptable
unfolding fork_into
fork kstack pgdir cur s = fork_into pgdir cur (allocproc kstack s)

-- The loop of `wakeup1`.
unfoldable pub wake : ℕ → Proc → Proc
wake chan p = if is_sleeping p.state && p.chan == chan then record p { state = runnable } else p

pub wakeup1 : ℕ → Table → Table
unfolding wake for_range
wakeup1 chan = for_range nproc 0 (λ i t. update t i (wake chan (t i)))

unfoldable pub wakeup : ℕ → Ptable → Ptable
wakeup chan s = record s { procs = wakeup1 chan s.procs }

-- The body of the loop of `exit` that passes children to init.
pub abandon : ℕ → ℕ → ℕ → Table → Table
abandon cur initproc i t =
    if (t i).parent == suc cur
    then (let t' = update t i (record (t i) { parent = initproc }) in
        if is_zombie (t i).state then wakeup1 initproc t' else t')
    else t

-- What `exit` does to the table, from the closed files to the call of `sched`.
pub exit_table : ℕ → ℕ → Table → Table
exit_table cur initproc t =
    let me : Proc = record (t cur) { ofile = map (λ f. 0) (t cur).ofile; cwd = 0 } in
    let woken : Table = wakeup1 (t cur).parent (update t cur me) in
    let left : Table = for_range nproc 0 (abandon cur initproc) woken in
    update left cur (record (left cur) { state = zombie })

-- `exit` by the process in slot `cur`. `none` is the panic "init exiting".
pub exit : ℕ → Ptable → Option Ptable
exit cur s =
    if s.initproc == suc cur
    then none
    else some (record s { procs = exit_table cur s.initproc s.procs })

-- The return of one scan of `wait`.
pub data WaitOutcome : Type 0 where
  reaped : ℕ → WaitOutcome
  no_children : WaitOutcome
  wait_sleeps : WaitOutcome

-- `sleep(chan, lk)` by the process in slot `cur`, up to `sched`.
unfoldable pub sleep : ℕ → ℕ → Ptable → Ptable
sleep chan cur s = record s {
  procs = update s.procs cur (record (s.procs cur) { chan = chan; state = sleeping });
}

-- The rest of `sleep`, when `sched` has returned.
pub wake_up : ℕ → Ptable → Ptable
wake_up cur s = record s { procs = update s.procs cur (record (s.procs cur) { chan = 0 }) }

abbrev pub is_child : ℕ → Proc → Bool
is_child cur p = p.parent == suc cur

abbrev pub reap : Proc → Proc
reap p = record p { kstack = 0; pid = 0; parent = 0; name = []; killed = false; state = unused }

-- One round of the loop of `wait`, by the process in slot `cur`. The first `ZOMBIE` child is reaped;
-- a child of any kind is what `havekids` records.
pub wait : ℕ → Ptable → WaitOutcome × Ptable
wait cur s = elim (find_proc (λ p. is_child cur p && is_zombie p.state) s.procs nproc 0) [
  | some i ↦ (reaped (s.procs i).pid, record s { procs = update s.procs i (reap (s.procs i)) })
  | none ↦ elim (find_proc (is_child cur) s.procs nproc 0) [
    | none ↦ (no_children, s)
    | some i ↦
        if (s.procs cur).killed then (no_children, s) else (wait_sleeps, sleep (suc cur) cur s)
  ]
]

-- What `kill` does to the process that it finds.
pub doom : Proc → Proc
doom p =
    let p' : Proc = record p { killed = true } in
    if is_sleeping p.state then record p' { state = runnable } else p'

-- `kill`; the result is whether it returns 0.
pub kill : ℕ → Ptable → Bool × Ptable
kill pid s = elim (find_proc (λ p. p.pid == pid) s.procs nproc 0) [
  | none ↦ (false, s)
  | some i ↦ (true, record s { procs = update s.procs i (doom (s.procs i)) })
]

-- `yield` up to `sched`, and the scheduler's `p->state = RUNNING`.
pub yield : ℕ → Ptable → Ptable
yield cur s = record s { procs = update s.procs cur (record (s.procs cur) { state = runnable }) }

pub dispatch : ℕ → Ptable → Ptable
dispatch cur s = record s { procs = update s.procs cur (record (s.procs cur) { state = running }) }
