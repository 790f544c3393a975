-- ===== src/Scheduler/Turn.antt =====
-- The loop of `scheduler` of xv6-public/proc.c: what it does for one slot of the process table. The loop
-- goes on after the slot that `visit` returns, which is not always the one that it was given.
pub mod Idle
pub mod Choice
mod Tests
use hyeonseung_os.Base.{
  ℕ, zero, suc, ◌+◌, Bool, true, false, not, ◌&&◌, Option, none, some, ◌>>=◌, deref, ◌==◌, ltb,
  if◌then◌else◌, update, add32, sub32, lt_int,
}
use hyeonseung_os.Process.{Proc, Table, running, is_runnable, is_zombie}
use hyeonseung_os.Scheduler.{StrideEntry, StrideTable}
use hyeonseung_os.Scheduler.Stride.{path_cal, stride, retire}
use hyeonseung_os.Scheduler.Mlfq.{Node, Mlfq, set_node, mlfq_in, mlfq_out, mlfq_pick}

-- What the loop reads and writes, less `c->proc`.
pub record Kernel : Type 0 where
  pub procs : Table
  pub strides : StrideTable
  pub queues : Mlfq

abbrev pub pid_of : ℕ → Kernel → ℕ
pid_of i s = (s.procs i).pid

abbrev pub node_of : ℕ → Kernel → Node
node_of i s = s.queues.nodes (pid_of i s)

-- A process that is in neither table goes to the queues.
unfoldable pub admit : ℕ → Kernel → Option Kernel
admit i s =
    let enters : Option Kernel = (do
      m ← mlfq_in (suc i) (pid_of i s) 0 0 s.queues
      some (record s { queues = m })) in
    let is_new : Bool =
      (node_of i s).is_mlfq == 0
      && (s.strides.entries (pid_of i s)).is_stride == 0
      && ltb 2 (pid_of i s) in
    if is_new then enters else some s

-- `if(q != 0) p = q;`
abbrev pub or_self : ℕ → ℕ → ℕ
or_self i zero = i
or_self i (suc k) = k

-- The slot to run at slot `i`: by the stride table, or by the queues if entry 0 is chosen.
unfoldable pub choose : ℕ → Kernel → Option (ℕ × Kernel)
choose i s =
    let result : ℕ = path_cal s.strides in
    let by_share : Option (ℕ × Kernel) = (do
      (p, t) ← stride result s.strides
      k ← deref p
      some (k, record s { strides = t })) in
    let by_queue : Option (ℕ × Kernel) = (do
      (p, t) ← stride result s.strides
      (q, m) ← mlfq_pick s.procs s.queues
      some (or_self i q, record s { strides = t; queues = m })) in
    if not (ltb 2 (pid_of i s)) then some (i, s) else if result == 0 then by_queue else by_share

-- What is stored before `swtch`.
unfoldable pub start : ℕ → ℕ → Kernel → Kernel
start k ticks s = record s {
  procs = update s.procs k (record (s.procs k) { state = running });
  queues = set_node s.queues (pid_of k s) (record (node_of k s) { my_tick = ticks });
}

-- The accounting of the ticks after `swtch`.
abbrev pub charged : ℕ → ℕ → Kernel → Kernel
charged k ticks s =
    let n : Node = node_of k s in
    record s {
      queues =
          set_node s.queues (pid_of k s)
            (record n { sum_tick = add32 n.sum_tick (sub32 ticks n.my_tick) });
    }

-- `MLFQ_out(p, mlfq[p->pid].lev, 0)`
abbrev pub leave_queue : ℕ → Kernel → Option Kernel
leave_queue k s = do
  m ← mlfq_out (suc k) (pid_of k s) (node_of k s).lev 0 s.queues
  some (record s { queues = m })

-- A process whose time in its level is over goes to the next one.
abbrev pub demote : ℕ → Kernel → Option Kernel
demote k s =
    let x : ℕ = (node_of k s).lev in
    let lower : Option Kernel = (do
      m ← mlfq_out (suc k) (pid_of k s) x 0 s.queues
      m' ← mlfq_in (suc k) (pid_of k s) (x + 1) 0 m
      some (record s { queues = m' })) in
    if x == 2 then some s else lower

-- What follows `swtch`, once the ticks are counted.
unfoldable pub sort_out : ℕ → Kernel → Option Kernel
sort_out k s =
    let n : Node = node_of k s in
    let gone : Kernel = record s { strides = retire (pid_of k s) s.strides } in
    let over : Bool = not (lt_int n.sum_tick (s.queues.levels n.lev).able_tick) in
    if is_zombie (s.procs k).state
    then (if n.is_mlfq == 1 then leave_queue k gone else some gone)
    else if n.is_mlfq == 1 && (s.strides.entries (pid_of k s)).is_stride == 1
    then leave_queue k s
    else if n.is_mlfq == 1 && over
    then demote k s
    else some s

-- A process runs: `ran` is all that happens until it comes back through `sched`.
unfoldable pub run_slot : ℕ → (Kernel → Kernel) → ℕ → ℕ → Kernel → Option (ℕ × Kernel)
unfolding sort_out start
run_slot k ran before after s = do
  s' ← sort_out k (charged k after (ran (start k before s)))
  some (k, s')

-- The body of the loop for slot `i`, with `ticks` before and after the run.
unfoldable pub visit : ℕ → (Kernel → Kernel) → ℕ → ℕ → Kernel → Option (ℕ × Kernel)
unfolding admit choose run_slot
visit i ran before after s =
    let turn : Option (ℕ × Kernel) = (do
      s₁ ← admit i s
      (k, s₂) ← choose i s₁
      if is_runnable (s₂.procs k).state then run_slot k ran before after s₂ else some (k, s₂)) in
    if is_runnable (s.procs i).state then turn else some (i, s)
