-- ===== src/Process/Reaping.antt =====
-- `exit` and `wait` meet: the parent is woken, and finds the zombie.
use hyeonseung_os.Base.{
  ℕ, suc, ◌<◌, ◌≡◌, ◌≢◌, ◌∙◌, inl, inr, Bool, true, ◌&&◌, arith, ◌==◌, update, some, some-injective,
  none≢some, Bool-cases, ==_iff, and-right, and-left,
}
use hyeonseung_os.Process.{
  Proc, ProcState, sleeping, runnable, Ptable, is_zombie, is_runnable, exit, exit_table, wait,
  reaped, is_child, reap,
}
use hyeonseung_os.Process.Table.{find_proc-some}
use hyeonseung_os.Process.Exit.{exit_table-Exited, exit_table-wakes}

-- A table with a zombie child of slot `q` lets `wait` reap one.
pub wait_reaps :
    (s : Ptable) (q c : ℕ)
    → c < 64
    → (s.procs c).parent ≡ suc q
    → is_zombie (s.procs c).state ≡ true
    → (i : ℕ) × (i < 64)
      × ((s.procs i).parent ≡ suc q)
      × (is_zombie (s.procs i).state ≡ true)
      × (wait q s
          ≡ (reaped (s.procs i).pid, record s { procs = update s.procs i (reap (s.procs i)) }))
unfolding wait
wait_reaps s q c hc p z =
    let test : Proc → Bool = λ x. is_child q x && is_zombie x.state in
    let (i, e, f) = find_proc-some test s.procs 64 c hc (ground arith) in
    (i, f.upper, (==_iff _ _).0 (and-left _ _ f.passes), and-right _ _ f.passes, rw (e, wait))

runnable-is : (x : ProcState) → is_runnable x ≡ true → x ≡ runnable
runnable-is x h = ground arith

-- After a child of slot `q` has exited, one round of `wait` in slot `q` reaps a zombie child of it,
-- returns its pid and frees its slot; and if `q` was asleep in `wait`, it is runnable.
pub exit_then_wait :
    (s : Ptable) {s' : Ptable} (cur q : ℕ)
    → cur < 64
    → q < 64
    → q ≢ cur
    → (s.procs cur).parent ≡ suc q
    → exit cur s ≡ some s'
    → ((s.procs q).state ≡ sleeping → (s.procs q).chan ≡ suc q → (s'.procs q).state ≡ runnable)
      × ((i : ℕ) × ((s'.procs i).parent ≡ suc q)
          × (is_zombie (s'.procs i).state ≡ true)
          × (wait q s' ≡ (
            reaped (s'.procs i).pid,
            record s' { procs = update s'.procs i (reap (s'.procs i)) },
          )))
unfolding exit
exit_then_wait s {s'} cur q hc hq ne p e = elim (Bool-cases (s.initproc == suc cur)) [
  | inl z ↦ absurd (none≢some s' (rw z at e))
  | inr z ↦
      let done : record s { procs = exit_table cur s.initproc s.procs } ≡ s' =
        some-injective _ _ (rw z at e) in
      let x = exit_table-Exited cur s.initproc s.procs cur hc hc in
      let (i, _, p', z', w) =
        wait_reaps (record s { procs = exit_table cur s.initproc s.procs }) q cur hc
          (x.parent ∙ ground arith) (ground (arith, x)) in
      rw (← done) (
        (λ st ch. runnable-is _ (exit_table-wakes cur s.initproc s.procs q hq hc ne p st ch)),
        (i, p', z', w),
      )
]
