-- ===== src/Process/Kill.antt =====
-- `kill`, and what it does to a slot that is free.
use hyeonseung_os.Base.{
  ℕ, ◌<◌, ◌≡◌, refl, sym, ap, ◌∙◌, inl, inr, Bool, true, false, arith, ◌==◌, update, dec_lt,
  update_self, some, none, true≢false, Option-cases, ℕ_discrete,
}
use hyeonseung_os.Process.{Proc, Ptable, is_unused, nproc, fork, kill, doom, find_proc}
use hyeonseung_os.Process.Table.{Found, find_proc-Found, find_proc-none}
use hyeonseung_os.Process.Pids.{fork-Forked}

-- What `kill` returns and does, case by case.
pub data Killed (pid : ℕ) (s : Ptable) (r : Bool × Ptable) : Type 0 where
  missing : find_proc (λ p. p.pid == pid) s.procs nproc 0 ≡ none → r ≡ (false, s) → Killed pid s r
  found :
      (i : ℕ)
      → Found (λ p. p.pid == pid) s.procs 0 64 i
      → r ≡ (true, record s { procs = update s.procs i (doom (s.procs i)) })
      → Killed pid s r

pub kill-Killed : (pid : ℕ) (s : Ptable) → Killed pid s (kill pid s)
unfolding kill
kill-Killed pid s = elim (Option-cases (find_proc (λ p. p.pid == pid) s.procs 64 0)) [
  | inl e ↦ rw (e, kill) (missing e refl)
  | inr (i, e) ↦ rw (e, kill) (found i (find_proc-Found (λ p. p.pid == pid) s.procs 64 0 e) refl)
]

zero-free :
    (s : Ptable) (i : ℕ)
    → ((j : ℕ) → j < 64 → is_unused (s.procs j).state ≡ ((s.procs j).pid == 0))
    → Found (λ p. p.pid == 0) s.procs 0 64 i
    → Found (λ p. is_unused p.state) s.procs 0 64 i
zero-free s i z f = record {
  lower = f.lower;
  upper = f.upper;
  passes = z i f.upper ∙ f.passes;
  first = λ j a b. z j (omega (arith, f.upper)) ∙ f.first j a b;
}

doom-killed : (p : Proc) → (doom p).killed ≡ true
unfolding doom
doom-killed p = ground arith

doomed-used :
    (s : Ptable) (i cur : ℕ)
    → is_unused (s.procs cur).state ≡ false
    → is_unused (update s.procs i (doom (s.procs i)) cur).state ≡ false
unfolding doom
doomed-used s i cur u = ground arith

doomed_slot :
    (s : Ptable) (i j : ℕ)
    → Found (λ p. is_unused p.state) s.procs 0 64 i
    → Found (λ p. is_unused p.state) (update s.procs i (doom (s.procs i))) 0 64 j
    → j ≡ i
unfolding doom
doomed_slot s i j f g = elim (ℕ_discrete j i) [
  | yes e ↦ e
  | no ne ↦ elim (dec_lt j i) [
    | yes lt ↦ ground (arith, f.first j (omega arith) lt, g.passes)
    | no ge ↦ ground (arith, g.first i (omega arith) (omega arith), f.passes)
  ]
]

-- While the free slots are those with number 0, `kill(0)` finds a free slot, returns 0 and marks it:
-- the process that the next successful `fork` puts there is born killed.
pub kill_zero_dooms :
    (kstack pgdir cur : ℕ) (s : Ptable) {pid : ℕ}
    → is_unused (s.procs cur).state ≡ false
    → ((j : ℕ) → j < 64 → is_unused (s.procs j).state ≡ ((s.procs j).pid == 0))
    → let s₁ = (kill 0 s).1 in
      (fork kstack pgdir cur s₁).0 ≡ some pid
      → ((kill 0 s).0 ≡ true)
        × ((i : ℕ) × (((fork kstack pgdir cur s₁).1.procs i).pid ≡ pid)
            × (((fork kstack pgdir cur s₁).1.procs i).killed ≡ true))
kill_zero_dooms kstack pgdir cur s {pid} u z e = elim (kill-Killed 0 s) [
  | missing n r ↦
      let (i, f) = fork-Forked kstack pgdir cur s u (rw r at e) in
      absurd (
        true≢false (
          sym f.slot.passes
          ∙ z i f.slot.upper
          ∙ find_proc-none (λ p. p.pid == 0) s.procs 64 0 i n (omega arith) f.slot.upper))
  | found i f r ↦
      let s₁ : Ptable = record s { procs = update s.procs i (doom (s.procs i)) } in
      let (k, g) = fork-Forked kstack pgdir cur s₁ (doomed-used s i cur u) (rw r at e) in
      rw r (
        refl,
        (
          k,
          ap (λ (p : Proc). p.pid) g.entry,
          ap (λ (p : Proc). p.killed) g.entry
              ∙ ap (λ j. (update s.procs i (doom (s.procs i)) j).killed)
                  (doomed_slot s i k (zero-free s i z f) g.slot)
              ∙ ap (λ (p : Proc). p.killed) (update_self s.procs i (doom (s.procs i)))
              ∙ doom-killed (s.procs i),
        ),
      )
]
