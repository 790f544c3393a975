-- ===== src/Threads/Join.antt =====
-- `thread_join_os` and `thread_exit_os` keep the stacks of the threads apart.
use hyeonseung_os.Base.{
  ℕ, suc, ◌<◌, ◌≡◌, ◌≢◌, refl, sym, ◌∙◌, ap, inl, inr, Bool, true, false, some, arith, ◌==◌, ◌&&◌,
  Bool-cases, ℕ_discrete, subst, some-injective, none≢some, Option-cases,
}
use hyeonseung_os.Process.{Proc, find_proc, is_unused, is_zombie, exit_table, sleep}
use hyeonseung_os.Process.Table.{Found, find_proc-Found}
use hyeonseung_os.Process.Exit.{is_embryo, Exited, exit_table-Exited}
use hyeonseung_os.Threads.{
  Threads, JoinOutcome, is_joined, join_reap, without_thread, thread_join_os, exit_slot,
}
use hyeonseung_os.Threads.Stacks.{IsThread, IsStacked, kept-IsStacked}

-- The process in slot `i` is a zombie child of the one in slot `q`.
pub record IsDone (q : ℕ) (s : Threads) (i : ℕ) : Type 0 where
  pub lower : i < 64
  pub child : (s.table.procs i).parent ≡ suc q
  pub dead : is_zombie (s.table.procs i).state ≡ true

module _ (q i : ℕ) (s : Threads) (h : IsStacked q s) (d : IsDone q s i)
    (has : (s.slots q).osz ≢ 0) where
  pub slots_differ : q ≢ i
  slots_differ e = ground (arith, h.alive, d.dead, e)

  -- No thread has the slot that is given back.
  others_slot : (k : ℕ) → IsThread q s k → k ≢ i → (s.slots k).tid ≢ (s.slots i).tid
  others_slot k t ne e = elim (ℕ_discrete (s.slots i).tid 0) [
    | yes z ↦ t.slot (e ∙ z)
    | no n ↦
        let ti : IsThread q s i = record {
          lower = d.lower;
          child = d.child;
          slot = n;
          used = ground (arith, d.dead);
          formed = ground (arith, d.dead);
        } in
        ne (h.apart k i t ti e)
  ]

  join_reap-IsStacked :
      (r : JoinOutcome) (s' : Threads) → join_reap i (suc q) s ≡ some (r, s') → IsStacked q s'
  unfolding join_reap without_thread
  join_reap-IsStacked r s' e = elim (Bool-cases ((s.table.procs i).pgdir == 0)) [
    | inl z ↦ absurd (none≢some (r, s') (rw z at e))
    | inr z ↦
        let same = ap (λ x. x.1) (some-injective _ _ (rw z at e)) in
        let ne = slots_differ in
        subst (IsStacked q) same (
          kept-IsStacked q s _ h (ground (arith, h.alive)) (ground (arith, h.own)) (ground arith)
            (λ y. absurd (has y))
            (λ k t.
              let nk : k ≢ i = λ x. ground (arith, t.used, x) in
              let nq : k ≢ q = λ x. ground (arith, h.own, t.child, x) in
              let told : IsThread q s k = record {
                lower = t.lower;
                child = ground (arith, t.child);
                slot = ground (arith, t.slot);
                used = ground (arith, t.used);
                formed = ground (arith, t.formed);
              } in
              (told, ground arith, ground arith, ground (arith, others_slot k told nk))))
  ]

-- A zombie that the scan of a join finds, with the `select` of the system call.
pub zombie_child :
    (thread q i : ℕ) (s : Threads)
    → Found (λ p. is_joined thread 0 q p && is_zombie p.state) s.table.procs 0 64 i
    → IsDone q s i
zombie_child thread q i s f = record {
  lower = f.upper;
  child = ground (arith, f.passes);
  dead = ground (arith, f.passes);
}

asleep :
    (q : ℕ) (s : Threads)
    → IsStacked q s
    → IsStacked q (record s { table = sleep (suc q) q s.table })
unfolding sleep
asleep q s h =
    kept-IsStacked q s (record s { table = sleep (suc q) q s.table }) h (ground arith)
      (ground (arith, h.own)) refl (λ z. ground arith)
      (λ k t.
        let nq : k ≢ q = λ x. ground (arith, h.own, t.child, x) in
        (
          record {
            lower = t.lower;
            child = ground (arith, t.child);
            slot = t.slot;
            used = ground (arith, t.used);
            formed = ground (arith, t.formed);
          },
          refl,
          ground arith,
          refl,
        ))

-- A join by a process that has made a thread before.
pub join-IsStacked :
    (thread q : ℕ) (s : Threads) (r : JoinOutcome) (s' : Threads)
    → IsStacked q s
    → (s.slots q).osz ≢ 0
    → thread_join_os thread 0 q s ≡ some (r, s')
    → IsStacked q s'
unfolding thread_join_os
join-IsStacked thread q s r s' h has e =
    let test : Proc → Bool = is_joined thread 0 q in
    elim (Option-cases (find_proc (λ p. test p && is_zombie p.state) s.table.procs 64 0)) [
      | inr (i, x) ↦
          let d =
            zombie_child thread q i s
              (find_proc-Found (λ p. test p && is_zombie p.state) s.table.procs 64 0 x) in
          join_reap-IsStacked q i s h d has r s'
            (ap (λ p. join_reap i p s) (sym d.child) ∙ (rw (x, thread_join_os) at e))
      | inl x ↦ elim (Option-cases (find_proc test s.table.procs 64 0)) [
        | inl y ↦
            let g = rw (x, thread_join_os, y) at e in
            subst (IsStacked q) (ap (λ w. w.1) (some-injective _ _ g)) h
        | inr (i, y) ↦ elim (Bool-cases (s.table.procs q).killed) [
          | inl k ↦
              let g = rw (x, thread_join_os, y, k) at e in
              subst (IsStacked q) (ap (λ w. w.1) (some-injective _ _ g)) h
          | inr k ↦
              let g = rw (x, thread_join_os, y, k) at e in
              subst (IsStacked q) (ap (λ w. w.1) (some-injective _ _ g)) (asleep q s h)
        ]
      ]
    ]

-- The end of a process other than the one in slot `q`, which is not init.
pub exit_slot-IsStacked :
    (retval i q : ℕ) (s s' : Threads)
    → IsStacked q s
    → i < 64
    → i ≢ q
    → is_unused (s.table.procs i).state ≡ false
    → is_embryo (s.table.procs i).state ≡ false
    → s.table.initproc ≢ suc q
    → exit_slot retval i s ≡ some s'
    → IsStacked q s'
unfolding exit_slot
exit_slot-IsStacked retval i q s s' h hi ne us em ni e =
    elim (Bool-cases (s.table.initproc == suc i)) [
      | inl z ↦ absurd (none≢some s' (rw z at e))
      | inr z ↦
          let same = some-injective _ _ (rw z at e) in
          let x : (j : ℕ)
              → j < 64
              → Exited i s.table.initproc j (s.table.procs j)
                  (exit_table i s.table.initproc s.table.procs j) =
            λ j l. exit_table-Exited i s.table.initproc s.table.procs j l hi in
          let xq = x q h.lower in
          subst (IsStacked q) same (
            kept-IsStacked q s _ h (ground (arith, h.alive, xq)) (ground (arith, xq, h.own))
              (ground arith) (λ y. xq.size)
              (λ k t.
                let xk = x k t.lower in
                (
                  record {
                    lower = t.lower;
                    child = ground (arith, t.child, xk);
                    slot = ground (arith, t.slot);
                    used = ground (arith, t.used, xk, us);
                    formed = ground (arith, t.formed, xk, em);
                  },
                  ground arith,
                  xk.size,
                  ground arith,
                )))
    ]
