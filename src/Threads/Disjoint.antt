-- ===== src/Threads/Disjoint.antt =====
-- The threads of a process over its calls: their stacks never meet.
use hyeonseung_os.Base.{
  ℕ, suc, ◌>>=◌, ◌+◌, ◌*◌, ◌≤◌, ◌<◌, ◌≡◌, ◌≢◌, sym, ◌∙◌, ap, ◌⊎◌, Bool, false, some, arith,
}
use hyeonseung_os.Process.{is_unused}
use hyeonseung_os.Process.Exit.{is_embryo}
use hyeonseung_os.Threads.{
  Threads, JoinOutcome, thread_create_os, thread_join_os, exiting, exit_slot, thread_exit_os,
}
use hyeonseung_os.Threads.Stacks.{IsThread, IsStacked, stacks_disjoint}
use hyeonseung_os.Threads.Create.{create-IsStacked}
use hyeonseung_os.Threads.Join.{join-IsStacked, exit_slot-IsStacked}

-- The calls of the process in slot `q`, and the ends of others.
pub data Step (q : ℕ) : Threads → Threads → Type 0 where
  creates :
      {s : Threads}
      → (kstack : ℕ) (enough copied : Bool) (free : ℕ) → 1 ≤ free
      → free < 100
      → (s.slots q).thread free ≡ 0
      → Step q s (thread_create_os kstack enough copied q s).1
  joins :
      {s s' : Threads}
      → (thread : ℕ) (r : JoinOutcome) → (s.slots q).osz ≢ 0
      → thread_join_os thread 0 q s ≡ some (r, s')
      → Step q s s'
  ends :
      {s s' : Threads}
      → (retval thread cur i : ℕ) → exiting thread cur s.table.procs ≡ some i
      → i < 64
      → i ≢ q
      → is_unused (s.table.procs i).state ≡ false
      → is_embryo (s.table.procs i).state ≡ false
      → s.table.initproc ≢ suc q
      → thread_exit_os retval thread cur s ≡ some s'
      → Step q s s'

pub data Steps (q : ℕ) : Threads → Threads → Type 0 where
  done : {s : Threads} → Steps q s s
  next : {s s' s'' : Threads} → Step q s s' → Steps q s' s'' → Steps q s s''

Step-IsStacked : (q : ℕ) {s s' : Threads} → Step q s s' → IsStacked q s → IsStacked q s'
unfolding thread_exit_os
Step-IsStacked q (creates k e c free l u z) h = create-IsStacked k e c q _ h free l u z
Step-IsStacked q (joins thread r has e) h = join-IsStacked thread q _ r _ h has e
Step-IsStacked q (ends {s = s} {s' = s'} retval thread cur i x l ne us em ni e) h =
    exit_slot-IsStacked retval i q s s' h l ne us em ni
      (ap (λ o. o >>= λ j. exit_slot retval j s) (sym x) ∙ e)

Steps-IsStacked : (q : ℕ) {s s' : Threads} → Steps q s s' → IsStacked q s → IsStacked q s'
Steps-IsStacked q done h = h
Steps-IsStacked q (next x xs) h = Steps-IsStacked q xs (Step-IsStacked q x h)

-- In every state that a process reaches by creating and joining threads, while threads and other
-- processes end, no two of its threads have stacks that meet, and no stack ends above the slots' 99 pairs
-- of pages. Each creation finds one of the slots 1 to 99 free, each join follows a creation, and the
-- first thread is created by a process that has no thread and is not too large.
pub history_disjoint :
    (q : ℕ) (s s' : Threads)
    → IsStacked q s
    → Steps q s s'
    → (j k : ℕ) → IsThread q s' j
    → IsThread q s' k
    → j ≢ k
    → ((s'.slots q).osz + 8192 ≤ (s'.table.procs j).sz)
      × ((s'.table.procs j).sz ≤ (s'.slots q).osz + 99 * 8192)
      × (((s'.table.procs j).sz + 8192 ≤ (s'.table.procs k).sz)
          ⊎ ((s'.table.procs k).sz + 8192 ≤ (s'.table.procs j).sz))
history_disjoint q s s' h xs j k tj tk ne =
    let h' = Steps-IsStacked q xs h in
    (
      ground (arith, h'.placed j tj, tj.slot),
      ground (arith, h'.placed j tj, h'.few j tj),
      stacks_disjoint q s' j k h' tj tk ne,
    )
