-- ===== src/Process/RootedSteps.antt =====
-- The functions of proc.c that change parents or end processes, one by one.
use hyeonseung_os.Base.{
  ℕ, suc, ◌<◌, ◌≡◌, ◌≢◌, refl, sym, ap, ◌∙◌, inl, inr, none≢some, some-injective, true, ◌&&◌, arith,
  ◌==◌, update-update, some, Option-cases, Bool-cases, ℕ_discrete, and-right,
}
use hyeonseung_os.Process.{
  Proc, Table, Ptable, is_zombie, wakeup1, wakeup, exit, fork, wait, kill, sleep, find_proc,
  is_child, doom, reap, exit_table,
}
use hyeonseung_os.Process.Table.{find_proc-Found}
use hyeonseung_os.Process.Exit.{
  is_live, heir, exit_table-Exited, SameButAwake, wakeup1-SameButAwake,
}
use hyeonseung_os.Process.Alloc.{full, no_stack, given, allocproc-Allocated}
use hyeonseung_os.Process.Rooted.{
  HasParent, IsRooted, update-IsRooted, restate-IsRooted, HasParent-mono, free-not_live,
  zombie-not_live,
}

pub wakeup-IsRooted : (chan : ℕ) (s : Ptable) → IsRooted s → IsRooted (wakeup chan s)
unfolding wakeup
wakeup-IsRooted chan s v = record {
  init = v.init;
  init_ptr = v.init_ptr;
  init_slot = v.init_slot;
  init_live = (same v.init).live ∙ v.init_live;
  parents = λ j hj u.
      HasParent-mono s.procs (wakeup1 chan s.procs) (wakeup1 chan s.procs j)
        (λ q l. (same q).live ∙ l) (rw ((same j).parent) (v.parents j hj (sym (same j).free ∙ u)));
}
  where
    same : (j : ℕ) → SameButAwake (s.procs j) (wakeup1 chan s.procs j)
    same j = wakeup1-SameButAwake chan s.procs j

doom-SameButAwake : (p : Proc) → SameButAwake p (doom p)
unfolding doom
doom-SameButAwake p = ground arith

pub kill-IsRooted : (pid : ℕ) (s : Ptable) → IsRooted s → IsRooted (kill pid s).1
unfolding kill
kill-IsRooted pid s v = elim (Option-cases (find_proc (λ p. p.pid == pid) s.procs 64 0)) [
  | inl e ↦ rw (e, kill) v
  | inr (i, e) ↦
      let f = find_proc-Found (λ p. p.pid == pid) s.procs 64 0 e in
      let same = doom-SameButAwake (s.procs i) in
      rw (e, kill)
        (update-IsRooted s i s.nextpid (doom (s.procs i)) (λ l. same.live ∙ l)
          (λ u. rw (same.parent) (v.parents i f.upper (sym same.free ∙ u))) v)
]

pub fork-IsRooted :
    (kstack pgdir cur : ℕ) (s : Ptable)
    → cur < 64
    → is_live (s.procs cur).state ≡ true
    → IsRooted s
    → IsRooted (fork kstack pgdir cur s).1
unfolding fork
fork-IsRooted kstack pgdir cur s hc l v = elim (allocproc-Allocated kstack s) [
  | full _ e ↦ rw (e, fork) v
  | no_stack i f h e ↦
      rw (e, fork)
        (update-IsRooted s i _ _ (λ h. absurd (free-not_live (s.procs i).state f.passes h))
          (λ u. cc) v)
  | given i f h e ↦ elim (Bool-cases (pgdir == 0)) [
    | inl z ↦
        rw (e, fork, z, update-update)
          (update-IsRooted s i _ _ (λ h. absurd (free-not_live (s.procs i).state f.passes h))
            (λ u. cc) v)
    | inr z ↦
        rw (e, fork, z, update-update)
          (update-IsRooted s i _ _ (λ h. refl) (λ u. inr (cur, refl, hc, l)) v)
  ]
]

pub wait-IsRooted :
    (cur : ℕ) (s : Ptable)
    → cur < 64
    → is_live (s.procs cur).state ≡ true
    → IsRooted s
    → IsRooted (wait cur s).1
unfolding wait sleep
wait-IsRooted cur s hc l v =
    elim (Option-cases (find_proc (λ p. is_child cur p && is_zombie p.state) s.procs 64 0)) [
      | inr (i, e) ↦
          let f = find_proc-Found (λ p. is_child cur p && is_zombie p.state) s.procs 64 0 e in
          rw (e, wait)
            (update-IsRooted s i s.nextpid (reap (s.procs i))
              (λ h. absurd (zombie-not_live (s.procs i).state (and-right _ _ f.passes) h)) (λ u. cc)
              v)
      | inl e ↦ elim (Option-cases (find_proc (is_child cur) s.procs 64 0)) [
        | inl e' ↦ rw (e, e', wait) v
        | inr (i, e') ↦ elim (Bool-cases (s.procs cur).killed) [
          | inl k ↦ rw (e, e', k, wait) v
          | inr k ↦ rw (e, e', k, wait) (restate-IsRooted s cur _ hc l refl refl v)
        ]
      ]
    ]

heir-HasParent :
    (cur init : ℕ) (t t' : Table) (p q : Proc)
    → q.parent ≡ heir cur (suc init) p.parent
    → init < 64
    → is_live (t' init).state ≡ true
    → ((k : ℕ) → k < 64 → k ≢ cur → is_live (t k).state ≡ true → is_live (t' k).state ≡ true)
    → HasParent t p
    → HasParent t' q
heir-HasParent cur init t t' p q e hi li h (inl z) = inl (ground arith)
heir-HasParent cur init t t' p q e hi li h (inr (k, ek, hk, lk)) = elim (ℕ_discrete k cur) [
  | yes same ↦ inr (init, ground arith, hi, li)
  | no other ↦ inr (k, ground arith, hk, h k hk other lk)
]

pub exit-IsRooted :
    (cur : ℕ) (s s' : Ptable)
    → cur < 64
    → is_live (s.procs cur).state ≡ true
    → IsRooted s
    → exit cur s ≡ some s'
    → IsRooted s'
unfolding exit
exit-IsRooted cur s s' hc l v e = elim (Bool-cases (s.initproc == suc cur)) [
  | inl z ↦ absurd (none≢some s' (rw z at e))
  | inr z ↦
      let done : record s { procs = exit_table cur s.initproc s.procs } ≡ s' =
        some-injective _ _ (rw z at e) in
      rw (← done) (record {
        init = v.init;
        init_ptr = v.init_ptr;
        init_slot = v.init_slot;
        init_live = ground (
          arith,
          exit_table-Exited cur s.initproc s.procs v.init,
          v.init_live,
          v.init_slot,
          v.init_ptr,
        );
        parents = λ j hj u.
            heir-HasParent cur v.init s.procs (exit_table cur s.initproc s.procs) (s.procs j)
              (exit_table cur s.initproc s.procs j)
              (entry-parent j hj ∙ ap (λ x. heir cur x (s.procs j).parent) v.init_ptr) v.init_slot
              (ground (
                arith,
                exit_table-Exited cur s.initproc s.procs v.init,
                v.init_live,
                v.init_slot,
                v.init_ptr,
              ))
              (λ k hk ne lk. ground (arith, exit_table-Exited cur s.initproc s.procs k))
              (v.parents j hj (ground (arith, exit_table-Exited cur s.initproc s.procs j, l)));
      })
]
  where
    entry-parent :
        (j : ℕ)
        → j < 64
        → (exit_table cur s.initproc s.procs j).parent ≡ heir cur s.initproc (s.procs j).parent
    entry-parent j hj = (exit_table-Exited cur s.initproc s.procs j hj hc).parent
