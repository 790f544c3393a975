-- ===== src/Threads.antt =====
-- The threads of xv6-public/proc.c: `mapper`, `thread_create_os`, `thread_join_os` and
-- `thread_exit_os`, up to their calls of `sched`. A thread is a process that shares the page table of its
-- parent. `Thread` has the fields of `struct proc` that only these functions use; no other code
-- sets them, and allocproc and wait leave what is in them.
pub mod Mapper
pub mod Stacks
pub mod Create
pub mod Join
pub mod Disjoint
pub mod Joined
mod Tests
use hyeonseung_os.Base.{
  ℕ, zero, suc, ◌+◌, ◌-◌, ◌*◌, ◌/◌, ◌%◌, Bool, true, false, ◌&&◌, ◌||◌, not, Option, none, some,
  ◌>>=◌, ◌==◌, ltb, leb, if◌then◌else◌, update, add32,
}
use hyeonseung_os.Pages.{pgsize}
use hyeonseung_os.Process.{
  Proc, Table, Ptable, runnable, nproc, find_proc, allocproc, copy_files, is_child, is_zombie, reap,
  sleep, exit_table,
}
use hyeonseung_os.Scheduler.{StrideTable}
use hyeonseung_os.Scheduler.Stride.{retire}

pub record Thread : Type 0 where
  pub thread : ℕ → ℕ
  pub thread_p : ℕ → ℕ
  pub tid : ℕ
  pub osz : ℕ
  pub mtid : ℕ
  pub retval : ℕ

-- `ptable` with the threads' part of each slot, and `stride_table`.
pub record Threads : Type 0 where
  pub table : Ptable
  pub slots : ℕ → Thread
  pub stride : StrideTable

-- The scan of `mapper`: the first of `n` slots from `i` on that is 0.
unfoldable pub free_slot : ℕ → ℕ → (ℕ → ℕ) → Option ℕ
free_slot zero i th = none
free_slot (suc n) i th = let rest = free_slot n (i + 1) th in if th i == 0 then some i else rest

-- What `mapper` stores for the slot `i` that it takes.
abbrev pub take_slot : ℕ → ℕ → Thread → Thread
take_slot i pid p = record p {
  thread = update p.thread i 1;
  thread_p = update p.thread_p i pid;
  mtid = if leb p.mtid i then i else p.mtid;
}

-- `mapper(p, np)`, with the pid of `np`.
unfoldable pub mapper : ℕ → Thread → ℕ × Thread
unfolding free_slot
mapper pid p = elim (free_slot 99 1 p.thread) [ none ↦ (100, p) | some i ↦ (i, take_slot i pid p) ]

-- `PGROUNDUP` of a `uint`
abbrev pub round_up : ℕ → ℕ
round_up a = add32 a (pgsize - 1) / pgsize * pgsize

abbrev pub kernbase : ℕ
kernbase = 2_147_483_648

-- `allocuvm`; `enough` is whether its loop finds all pages.
abbrev pub allocuvm : Bool → ℕ → ℕ → ℕ
allocuvm enough oldsz newsz =
    if leb kernbase newsz then 0 else if ltb newsz oldsz then oldsz else if enough then newsz else 0

-- The address from which the stack of thread `tid` is allocated.
abbrev pub stack_base : ℕ → ℕ → ℕ
stack_base osz tid = round_up (add32 osz (2 * (tid - 1) * pgsize))

-- What `thread_create_os` copies into the new process first.
abbrev pub thread_of : ℕ → Proc → Proc → Proc
thread_of cur p np = record np {
  sz = p.sz;
  parent = suc cur;
  ofile = copy_files p.ofile np.ofile;
  cwd = p.cwd;
  name = p.name;
}

-- The parent once `osz` is set and `mapper` has run, with the slot.
abbrev pub mapped : ℕ → ℕ → Thread → ℕ × Thread
mapped pid sz me = mapper pid (record me { osz = if me.osz == 0 then round_up sz else me.osz })

-- The rest of `thread_create_os`, for the new process in slot `i`, with what `mapper` has left.
unfoldable pub create_with :
    Bool → Bool → ℕ → ℕ → Ptable → Threads → ℕ × Thread → Option ℕ × Threads
create_with enough copied cur i t s (tid, me) =
    let np : Proc = thread_of cur (t.procs cur) (t.procs i) in
    let slots : ℕ → Thread = update s.slots cur me in
    let slots' : ℕ → Thread = update slots i (record (slots i) { tid = tid }) in
    let base : ℕ = stack_base me.osz tid in
    let sz : ℕ = allocuvm enough base (add32 base (2 * pgsize)) in
    let failed : Table = update t.procs i np in
    let child : Table =
      update t.procs i (record np { pgdir = (t.procs cur).pgdir; sz = sz; state = runnable }) in
    let done : Table =
      update child cur (record (child cur) { sz = add32 me.osz (2 * me.mtid * pgsize) }) in
    if sz == 0 || not copied
    then (none, record s { table = record t { procs = failed }; slots = slots' })
    else (some np.pid, record s { table = record t { procs = done }; slots = slots' })

-- The part of `thread_create_os` that follows `allocproc`; `none` is -1, `some` the number in `*thread`.
unfoldable pub create_into : Bool → Bool → ℕ → Option ℕ × Ptable → Threads → Option ℕ × Threads
unfolding create_with
create_into enough copied cur (none, t) s = (none, record s { table = t })
create_into enough copied cur (some i, t) s =
    create_with enough copied cur i t s (mapped (t.procs i).pid (t.procs cur).sz (s.slots cur))

-- `thread_create_os` by the process in slot `cur`; `kstack` is what `kalloc` returns, `enough` as in
-- `allocuvm`, and `copied` whether both calls of `copyout` succeed.
unfoldable pub thread_create_os : ℕ → Bool → Bool → ℕ → Threads → Option ℕ × Threads
unfolding create_into
thread_create_os kstack enough copied cur s =
    create_into enough copied cur (allocproc kstack s.table) s

-- What a round of `thread_join_os` comes to. A join with `select` other than 0 never sleeps: it scans
-- again with the lock held.
pub data JoinOutcome : Type 0 where
  joined : ℕ → JoinOutcome
  no_thread : JoinOutcome
  join_sleeps : JoinOutcome
  join_spins : JoinOutcome

-- The processes that the scan does not skip.
abbrev pub is_joined : ℕ → ℕ → ℕ → Proc → Bool
is_joined thread select cur p =
    if select == 0
    then is_child cur p && p.pid == thread
    else if select == 1
    then p.pid == thread
    else true

-- The loop over `i` down from the slot that is given back, for the new `mtid`.
unfoldable pub last_taken : ℕ → (ℕ → ℕ) → ℕ → ℕ
last_taken zero th mtid = mtid
last_taken (suc i) th mtid =
    let rest = last_taken i th mtid in if th (suc i) == 1 then suc i else if i == 0 then 1 else rest

-- What happens to the parent of the thread with slot `tid`.
abbrev pub give_back : ℕ → Thread → Thread
give_back tid q =
    let th : ℕ → ℕ = update q.thread tid 0 in
    record q { thread = th; mtid = if q.mtid == tid then last_taken tid th q.mtid else q.mtid }

-- The thread in slot `i` goes, a child of the process in slot `q`. The store to `p->parent->sz` before
-- `deallocuvm` is left out, since the one below overwrites it.
unfoldable pub without_thread : ℕ → ℕ → Threads → Threads
unfolding last_taken
without_thread i q s =
    let slots : ℕ → Thread = update s.slots q (give_back (s.slots i).tid (s.slots q)) in
    let sz : ℕ = add32 (slots q).osz (2 * (slots i).mtid * pgsize) in
    let t : Table = update s.table.procs q (record (s.table.procs q) { sz = sz }) in
    record s {
      table = record s.table { procs = update t i (reap (t i)) };
      slots = update slots i (record (slots i) { tid = 0 });
    }

-- The same with the parent pointer of the thread. `none` is a null dereference, or the panic of a missing
-- page table.
unfoldable pub join_reap : ℕ → ℕ → Threads → Option (JoinOutcome × Threads)
unfolding without_thread
join_reap i zero s = none
join_reap i (suc q) s =
    if (s.table.procs i).pgdir == 0
    then none
    else some (joined (s.slots i).retval, without_thread i q s)

-- One round of the loop of `thread_join_os`, by the process in slot `cur`.
unfoldable pub thread_join_os : ℕ → ℕ → ℕ → Threads → Option (JoinOutcome × Threads)
unfolding join_reap
thread_join_os thread select cur s =
    let test : Proc → Bool = is_joined thread select cur in
    elim (find_proc (λ p. test p && is_zombie p.state) s.table.procs nproc 0) [
      | some i ↦ join_reap i (s.table.procs i).parent s
      | none ↦
          if select == 0
          then elim (find_proc test s.table.procs nproc 0) [
            | none ↦ some (no_thread, s)
            | some i ↦
                if (s.table.procs cur).killed
                then some (no_thread, s)
                else some (join_sleeps, record s { table = sleep (suc cur) cur s.table })
          ]
          else some (join_spins, s)
    ]

-- The process that `thread_exit_os` ends; `none` is a null dereference.
abbrev pub exiting : ℕ → ℕ → Table → Option ℕ
exiting thread cur t = if thread == 0 then some cur else find_proc (λ p. p.pid == thread) t nproc 0

-- The end of the process in slot `i`; `none` is the panic "init exiting".
unfoldable pub exit_slot : ℕ → ℕ → Threads → Option Threads
exit_slot retval i s =
    if s.table.initproc == suc i
    then none
    else some (record s {
      table = record s.table { procs = exit_table i s.table.initproc s.table.procs };
      slots = update s.slots i (record (s.slots i) { retval = retval });
      stride = retire (s.table.procs i).pid s.stride;
    })

-- `thread_exit_os` by the process in slot `cur`.
unfoldable pub thread_exit_os : ℕ → ℕ → ℕ → Threads → Option Threads
unfolding exit_slot
thread_exit_os retval thread cur s = do i ← exiting thread cur s.table.procs; exit_slot retval i s
