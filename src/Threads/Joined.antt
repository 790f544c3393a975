-- ===== src/Threads/Joined.antt =====
-- What a join hands over, and what it does to the size of the process.
use hyeonseung_os.Base.{
  ℕ, suc, ◌+◌, ◌≤◌, ◌<◌, ◌≡◌, ◌≢◌, refl, sym, ◌∙◌, ap, inl, inr, Bool, false, some, arith, ◌==◌,
  ◌&&◌, Bool-cases, subst, some-injective, none≢some, Option-cases,
}
use hyeonseung_os.Process.{Proc, unused, find_proc, is_zombie, exit_table}
use hyeonseung_os.Process.Table.{find_proc-Found, find_proc-some}
use hyeonseung_os.Process.Exit.{Exited, exit_table-Exited}
use hyeonseung_os.Threads.{
  Threads, joined, is_joined, without_thread, join_reap, thread_join_os, exit_slot, thread_exit_os,
}
use hyeonseung_os.Threads.Stacks.{IsThread, Based, bare, based, IsStacked}
use hyeonseung_os.Threads.Join.{IsDone, slots_differ, zombie_child, join-IsStacked}

-- The slots of the parent once a thread is gone.
gone :
    (i q : ℕ) (s : Threads)
    → q ≢ i
    → ((without_thread i q s).table.procs i).state ≡ unused
      × (((without_thread i q s).slots q).thread (s.slots i).tid ≡ 0)
      × ((j : ℕ)
          → j ≢ (s.slots i).tid
          → ((without_thread i q s).slots q).thread j ≡ (s.slots q).thread j)
unfolding without_thread
gone i q s ne = (ground arith, ground arith, λ j n. ground arith)

-- A join that finds the zombie of the one process with the number.
join_finds :
    (thread q i : ℕ) (s : Threads)
    → IsDone q s i
    → (s.table.procs i).pid ≡ thread
    → ((j : ℕ) → j < 64 → (s.table.procs j).pid ≡ thread → j ≡ i)
    → (s.table.procs i).pgdir ≢ 0
    → thread_join_os thread 0 q s ≡ some (joined (s.slots i).retval, without_thread i q s)
unfolding thread_join_os join_reap
join_finds thread q i s d p only pg =
    let test : Proc → Bool = λ x. is_joined thread 0 q x && is_zombie x.state in
    let (k, e, f) =
      find_proc-some test s.table.procs 64 i d.lower (ground (arith, d.child, d.dead, p)) in
    let same : k ≡ i = only k f.upper (ground (arith, f.passes)) in
    let e' : find_proc test s.table.procs 64 0 ≡ some i = e ∙ ap (λ x. some x) same in
    let there : ((s.table.procs i).pgdir == 0) ≡ false = ground arith in
    rw (e', thread_join_os) (ap (λ x. join_reap i x s) d.child ∙ (rw there refl))

-- What the end of the process in slot `cur`, a child of the one in slot `q`, leaves for a join.
record IsEnded (value cur q : ℕ) (s s' : Threads) : Type 0 where
  done : IsDone q s' cur
  pid : (j : ℕ) → j < 64 → (s'.table.procs j).pid ≡ (s.table.procs j).pid
  pages : (s'.table.procs cur).pgdir ≡ (s.table.procs cur).pgdir
  retval : (s'.slots cur).retval ≡ value
  tid : (s'.slots cur).tid ≡ (s.slots cur).tid
  thread : (s'.slots q).thread ≡ (s.slots q).thread

ended :
    (retval cur q : ℕ) (s s' : Threads)
    → cur < 64
    → q ≢ cur
    → (s.table.procs cur).parent ≡ suc q
    → s.table.initproc ≢ suc cur
    → exit_slot retval cur s ≡ some s'
    → IsEnded retval cur q s s'
unfolding exit_slot
ended retval cur q s s' hc ne p ni e =
    let z : (s.table.initproc == suc cur) ≡ false = ground arith in
    let x : (j : ℕ)
        → j < 64
        → Exited cur s.table.initproc j (s.table.procs j)
            (exit_table cur s.table.initproc s.table.procs j) =
      λ j l. exit_table-Exited cur s.table.initproc s.table.procs j l hc in
    let xc = x cur hc in
    subst (IsEnded retval cur q s) (some-injective _ _ (rw z at e)) (record {
      done = record { lower = hc; child = ground (arith, xc); dead = ground (arith, xc) };
      pid = λ j l. (x j l).pid;
      pages = xc.pages;
      retval = ground arith;
      tid = ground arith;
      thread = ground arith;
    })

-- A thread of the process in slot `q` that ends with a value, and is then joined by its number, which no
-- other process has: the join returns 0 with the value, the process that was the thread is free, its slot
-- is given back and the other slots are as they were.
pub exit_then_join :
    (retval cur q : ℕ) (s s' : Threads)
    → cur < 64
    → q ≢ cur
    → (s.table.procs cur).parent ≡ suc q
    → s.table.initproc ≢ suc cur
    → ((j : ℕ) → j < 64 → (s.table.procs j).pid ≡ (s.table.procs cur).pid → j ≡ cur)
    → (s.table.procs cur).pgdir ≢ 0
    → thread_exit_os retval 0 cur s ≡ some s'
    → (s'' : Threads) × (thread_join_os (s.table.procs cur).pid 0 q s' ≡ some (joined retval, s''))
      × ((s''.table.procs cur).state ≡ unused)
      × ((s''.slots q).thread (s.slots cur).tid ≡ 0)
      × ((j : ℕ) → j ≢ (s.slots cur).tid → (s''.slots q).thread j ≡ (s.slots q).thread j)
unfolding thread_exit_os exit_slot
exit_then_join retval cur q s s' hc ne p ni only pg e =
    let x = ended retval cur q s s' hc ne p ni e in
    let (u, z, r) = gone cur q s' ne in
    (
      without_thread cur q s',
      join_finds (s.table.procs cur).pid q cur s' x.done (x.pid cur hc)
            (λ j l h. only j l (sym (x.pid j l) ∙ h)) (λ h. pg (sym x.pages ∙ h))
          ∙ ap (λ v. some (joined v, without_thread cur q s')) x.retval,
      u,
      ap ((without_thread cur q s').slots q).thread (sym x.tid) ∙ z,
      λ j n. r j (λ h. n (h ∙ x.tid)) ∙ ap (λ g. g j) x.thread,
    )

-- What a join that succeeds has found.
join_found :
    (thread q v : ℕ) (s s' : Threads)
    → thread_join_os thread 0 q s ≡ some (joined v, s')
    → (i : ℕ) × IsDone q s i × (without_thread i q s ≡ s')
unfolding thread_join_os join_reap
join_found thread q v s s' e =
    let test : Proc → Bool = is_joined thread 0 q in
    elim (Option-cases (find_proc (λ p. test p && is_zombie p.state) s.table.procs 64 0)) [
      | inr (i, x) ↦
          let d =
            zombie_child thread q i s
              (find_proc-Found (λ p. test p && is_zombie p.state) s.table.procs 64 0 x) in
          let r = ap (λ p. join_reap i p s) (sym d.child) ∙ (rw (x, thread_join_os) at e) in
          elim (Bool-cases ((s.table.procs i).pgdir == 0)) [
            | inl z ↦ absurd (none≢some (joined v, s') (rw z at r))
            | inr z ↦ (i, d, ap (λ w. w.1) (some-injective _ _ (rw z at r)))
          ]
      | inl x ↦ elim (Option-cases (find_proc test s.table.procs 64 0)) [
        | inl y ↦ let g = rw (x, thread_join_os, y) at e in cc
        | inr (i, y) ↦ elim (Bool-cases (s.table.procs q).killed) [
          | inl k ↦ let g = rw (x, thread_join_os, y, k) at e in cc
          | inr k ↦ let g = rw (x, thread_join_os, y, k) at e in cc
        ]
      ]
    ]

size_after :
    (i q : ℕ) (s : Threads)
    → q ≢ i
    → (s.slots i).mtid ≡ 0
    → (s.slots q).osz < 2_147_483_648
    → (((without_thread i q s).table.procs q).sz ≡ (s.slots q).osz)
      × (((without_thread i q s).slots q).osz ≡ (s.slots q).osz)
unfolding without_thread
size_after i q s ne z l = (ground arith, ground arith)

-- A join by a process that has made a thread, and whose children have made none themselves, sets its size
-- back to `osz`: the stacks of all the threads that it still has lie above it.
pub join_shrinks :
    (thread q v : ℕ) (s s' : Threads)
    → IsStacked q s
    → (s.slots q).osz ≢ 0
    → ((j : ℕ) → (s.table.procs j).parent ≡ suc q → (s.slots j).mtid ≡ 0)
    → thread_join_os thread 0 q s ≡ some (joined v, s')
    → ((s'.table.procs q).sz ≡ (s.slots q).osz)
      × ((k : ℕ) → IsThread q s' k → (s'.table.procs q).sz + 8192 ≤ (s'.table.procs k).sz)
join_shrinks thread q v s s' h has none_made e =
    let (i, d, same) = join_found thread q v s s' e in
    let h' = join-IsStacked thread q s (joined v) s' h has e in
    let ne : q ≢ i = slots_differ q i s h d has in
    let (size, base) = size_after i q s ne (none_made i d.child) (bound h.base) in
    let size' : (s'.table.procs q).sz ≡ (s.slots q).osz =
      ap (λ w. (w.table.procs q).sz) (sym same) ∙ size in
    let base' : (s'.slots q).osz ≡ (s.slots q).osz = ap (λ w. (w.slots q).osz) (sym same) ∙ base in
    (size', λ k t. ground (arith, h'.placed k t, t.slot, size', base'))
  where
    bound : Based q s → (s.slots q).osz < 2_147_483_648
    bound (bare z p l n) = omega arith
    bound (based a p l z) = omega arith
