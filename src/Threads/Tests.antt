-- ===== src/Threads/Tests.antt =====
-- Runs of the threads' calls, and their theorems at a small table.
use hyeonseung_os.Base.{
  ℕ, zero, suc, ◌+◌, ◌*◌, ◌≤◌, ◌<◌, ◌≡◌, ◌≢◌, ◌⊎◌, sym, ◌∙◌, refl, inl, inr, true, false, [], arith,
  replicate, some, update, if◌then◌else◌, ◌==◌,
}
use hyeonseung_os.Process.{
  Proc, unused, runnable, running, zombie, Table, allocproc, find_proc, exit_table,
}
use hyeonseung_os.Scheduler.Stride.{boot_table, retire}
use hyeonseung_os.Threads.{
  Thread, Threads, mapper, thread_create_os, thread_join_os, thread_exit_os, join_reap,
  without_thread, joined, join_spins,
}
use hyeonseung_os.Threads.Stacks.{IsThread, bare, based, IsStacked}
use hyeonseung_os.Threads.Disjoint.{Steps, creates, done, next, history_disjoint}
use hyeonseung_os.Threads.Joined.{exit_then_join, join_shrinks}

abbrev free_proc : Proc
free_proc = record {
  sz = 0;
  pgdir = 0;
  kstack = 0;
  state = unused;
  pid = 0;
  parent = 0;
  chan = 0;
  killed = false;
  ofile = replicate 16 0;
  cwd = 0;
  name = [];
}

abbrev init_proc : Proc
init_proc = record free_proc { state = runnable; pid = 1; kstack = 1; pgdir = 1 }

abbrev maker : Proc
maker = record free_proc {
  state = running;
  pid = 2;
  parent = 1;
  kstack = 2;
  pgdir = 2;
  sz = 12_288;
}

abbrev no_threads : Thread
no_threads = record { thread = λ i. 0; thread_p = λ i. 0; tid = 0; osz = 0; mtid = 0; retval = 0 }

abbrev first_table : Table
first_table zero = init_proc
first_table (suc zero) = maker
first_table (suc (suc n)) = free_proc

-- Before the process in slot 1 makes a thread.
abbrev fresh : Threads
fresh = record {
  table = record { procs = first_table; nextpid = 3; initproc = 1 };
  slots = λ i. no_threads;
  stride = boot_table;
}

fresh-IsStacked : IsStacked 1 fresh
fresh-IsStacked = record {
  lower = omega arith;
  alive = refl;
  own = omega arith;
  base = bare refl (omega arith) (omega arith) (λ k t. t.slot refl);
  few = λ k t. absurd (t.slot refl);
  taken = λ k t. absurd (t.slot refl);
  placed = λ k t. absurd (t.slot refl);
  apart = λ j k t u e. absurd (t.slot refl);
}

abbrev one_made : Threads
one_made = (thread_create_os 5 true true 1 fresh).1

abbrev two_made : Threads
two_made = (thread_create_os 6 true true 1 one_made).1

one_free : (one_made.slots 1).thread 2 ≡ 0
unfolding thread_create_os allocproc find_proc mapper
one_free = refl

two_calls : Steps 1 fresh two_made
two_calls =
    next (creates 5 true true 1 (omega arith) (omega arith) refl)
      (next (creates 6 true true 2 (omega arith) (omega arith) one_free) done)

first_made : IsThread 1 two_made 2
unfolding thread_create_os allocproc find_proc mapper
first_made = record {
  lower = omega arith;
  child = refl;
  slot = omega arith;
  used = refl;
  formed = refl;
}

second_made : IsThread 1 two_made 3
unfolding thread_create_os allocproc find_proc mapper
second_made = record {
  lower = omega arith;
  child = refl;
  slot = omega arith;
  used = refl;
  formed = refl;
}

history_disjoint_example :
    ((two_made.slots 1).osz + 8192 ≤ (two_made.table.procs 2).sz)
    × ((two_made.table.procs 2).sz ≤ (two_made.slots 1).osz + 99 * 8192)
    × (((two_made.table.procs 2).sz + 8192 ≤ (two_made.table.procs 3).sz)
        ⊎ ((two_made.table.procs 3).sz + 8192 ≤ (two_made.table.procs 2).sz))
history_disjoint_example =
    history_disjoint 1 fresh two_made fresh-IsStacked two_calls 2 3 first_made second_made
      (omega arith)

-- The stacks end at 5 and 7 pages.
sizes : ((two_made.table.procs 2).sz ≡ 20_480) × ((two_made.table.procs 3).sz ≡ 28_672)
unfolding thread_create_os allocproc find_proc mapper
sizes = (refl, refl)

-- Two threads of the process in slot 1, the first one a zombie.
abbrev pair_table : Table
pair_table zero = init_proc
pair_table (suc zero) = record maker { sz = 28_672 }
pair_table (suc (suc zero)) = record free_proc {
  state = zombie;
  pid = 3;
  parent = 2;
  pgdir = 2;
  sz = 20_480;
}
pair_table (suc (suc (suc zero))) = record free_proc {
  state = running;
  pid = 4;
  parent = 2;
  pgdir = 2;
  sz = 28_672;
}
pair_table (suc (suc (suc (suc n)))) = free_proc

abbrev pair_slots : ℕ → Thread
pair_slots zero = no_threads
pair_slots (suc zero) = record no_threads {
  thread = λ i. if i == 1 then 1 else if i == 2 then 1 else 0;
  osz = 12_288;
  mtid = 2;
}
pair_slots (suc (suc zero)) = record no_threads { tid = 1 }
pair_slots (suc (suc (suc zero))) = record no_threads { tid = 2 }
pair_slots (suc (suc (suc (suc n)))) = no_threads

abbrev two_there : Threads
two_there = record {
  table = record { procs = pair_table; nextpid = 5; initproc = 1 };
  slots = pair_slots;
  stride = boot_table;
}

pair_threads : (k : ℕ) → IsThread 1 two_there k → (k ≡ 2) ⊎ (k ≡ 3)
pair_threads zero t = absurd (t.slot refl)
pair_threads (suc zero) t = absurd (t.slot refl)
pair_threads (suc (suc zero)) t = inl refl
pair_threads (suc (suc (suc zero))) t = inr refl
pair_threads (suc (suc (suc (suc n)))) t = absurd (t.slot refl)

two_there-IsStacked : IsStacked 1 two_there
two_there-IsStacked = record {
  lower = omega arith;
  alive = refl;
  own = omega arith;
  base = based 3 (omega arith) (omega arith) refl;
  few = λ k t. elim (pair_threads k t) [ inl e ↦ rw e (omega arith) | inr e ↦ rw e (omega arith) ];
  taken =
      λ k t. elim (pair_threads k t) [ inl e ↦ rw e (omega arith) | inr e ↦ rw e (omega arith) ];
  placed = λ k t. elim (pair_threads k t) [ inl e ↦ rw e refl | inr e ↦ rw e refl ];
  apart = λ j k t u. elim (pair_threads j t) [
    | inl e ↦ elim (pair_threads k u) [
      | inl e' ↦ λ _. e ∙ sym e'
      | inr e' ↦ rw (e, e') (λ x. omega arith)
    ]
    | inr e ↦ elim (pair_threads k u) [
      | inl e' ↦ rw (e, e') (λ x. omega arith)
      | inr e' ↦ λ _. e ∙ sym e'
    ]
  ];
}

no_grandchildren : (j : ℕ) → (pair_table j).parent ≡ 2 → (pair_slots j).mtid ≡ 0
no_grandchildren zero e = refl
no_grandchildren (suc zero) e = omega arith
no_grandchildren (suc (suc zero)) e = refl
no_grandchildren (suc (suc (suc zero))) e = refl
no_grandchildren (suc (suc (suc (suc n)))) e = refl

first_joined : thread_join_os 3 0 1 two_there ≡ some (joined 0, without_thread 2 1 two_there)
unfolding thread_join_os join_reap find_proc
first_joined = refl

join_shrinks_example :
    (((without_thread 2 1 two_there).table.procs 1).sz ≡ 12_288)
    × ((k : ℕ)
        → IsThread 1 (without_thread 2 1 two_there) k
        → ((without_thread 2 1 two_there).table.procs 1).sz + 8192
          ≤ ((without_thread 2 1 two_there).table.procs k).sz)
join_shrinks_example =
    join_shrinks 3 1 0 two_there (without_thread 2 1 two_there) two_there-IsStacked (omega arith)
      no_grandchildren first_joined

pair_pids : (j : ℕ) → j < 64 → (pair_table j).pid ≡ 4 → j ≡ 3
pair_pids zero l e = omega arith
pair_pids (suc zero) l e = omega arith
pair_pids (suc (suc zero)) l e = omega arith
pair_pids (suc (suc (suc zero))) l e = refl
pair_pids (suc (suc (suc (suc n)))) l e = omega arith

-- The second thread ends.
abbrev second_ended : Threads
second_ended = record two_there {
  table = record two_there.table { procs = exit_table 3 1 pair_table };
  slots = update pair_slots 3 (record (pair_slots 3) { retval = 7 });
  stride = retire 4 boot_table;
}

exit_then_join_example :
    (s'' : Threads) × (thread_join_os 4 0 1 second_ended ≡ some (joined 7, s''))
    × ((s''.table.procs 3).state ≡ unused)
    × ((s''.slots 1).thread 2 ≡ 0)
    × ((j : ℕ) → j ≢ 2 → (s''.slots 1).thread j ≡ (two_there.slots 1).thread j)
unfolding thread_exit_os
exit_then_join_example =
    exit_then_join 7 3 1 two_there second_ended (omega arith) (omega arith) refl (omega arith)
      pair_pids (omega arith) refl

-- A join for emergencies scans for ever where there is no zombie with the number.
spins : thread_join_os 9 1 1 two_there ≡ some (join_spins, two_there)
unfolding thread_join_os find_proc
spins = refl
