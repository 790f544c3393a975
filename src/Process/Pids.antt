-- ===== src/Process/Pids.antt =====
-- Process numbers: what `allocproc` gives out, and what `kill` finds by them.
use hyeonseung_os.Base.{
  ℕ, suc, ◌+◌, ◌≤◌, ◌<◌, ◌≡◌, ◌≢◌, sym, ap, ap₂, ◌∙◌, inl, inr, false, arith, ◌==◌, update,
  update_self, update_ne, some, some-injective, none≢some, Bool-cases, ℕ_discrete,
}
use hyeonseung_os.Process.{
  Proc, runnable, Ptable, is_unused, fork, fork_into, claim, child_of, next_pid,
}
use hyeonseung_os.Process.Table.{Found}
use hyeonseung_os.Process.Alloc.{full, no_stack, given, allocproc-Allocated}

-- What a `fork` that returns a number has done.
pub record Forked (kstack pgdir cur : ℕ) (s s' : Ptable) (pid i : ℕ) : Type 0 where
  pub slot : Found (λ p. is_unused p.state) s.procs 0 64 i
  pub number : pid ≡ next_pid s
  pub entry : s'.procs i ≡ child_of pgdir cur (s.procs cur) (claim kstack pid (s.procs i))
  pub others : (j : ℕ) → j ≢ i → s'.procs j ≡ s.procs j
  pub next : s'.nextpid ≡ pid + 1

pub fork-Forked :
    (kstack pgdir cur : ℕ) (s : Ptable) {pid : ℕ}
    → is_unused (s.procs cur).state ≡ false
    → (fork kstack pgdir cur s).0 ≡ some pid
    → (i : ℕ) × Forked kstack pgdir cur s (fork kstack pgdir cur s).1 pid i
unfolding fork fork_into
fork-Forked kstack pgdir cur s {pid} u e = elim (allocproc-Allocated kstack s) [
  | full _ a ↦ absurd (none≢some pid (rw a at e))
  | no_stack _ _ _ a ↦ absurd (none≢some pid (rw a at e))
  | given i f k a ↦ elim (Bool-cases (pgdir == 0)) [
    | inl z ↦ absurd (none≢some pid (rw (a, z) at e))
    | inr z ↦
        let stored = some-injective _ _ (rw (a, z, fork_into) at e) in
        let number : pid ≡ next_pid s =
          sym stored
          ∙ ap (λ (p : Proc). p.pid)
              (update_self s.procs i (claim kstack (next_pid s) (s.procs i))) in
        let other : cur ≢ i = λ c. ground arith in
        (
          i,
          rw (a, z)
              (record {
                slot = f;
                number = number;
                entry =
                    update_self (update s.procs i (claim kstack (next_pid s) (s.procs i))) i (
                      child_of pgdir cur
                        (update s.procs i (claim kstack (next_pid s) (s.procs i)) cur)
                        (update s.procs i (claim kstack (next_pid s) (s.procs i)) i))
                    ∙ ap₂ (child_of pgdir cur)
                        (update_ne s.procs i (claim kstack (next_pid s) (s.procs i)) cur other)
                        (update_self s.procs i (claim kstack (next_pid s) (s.procs i)))
                    ∙ ap (λ n. child_of pgdir cur (s.procs cur) (claim kstack n (s.procs i)))
                        (sym number);
                others = λ j ne. ground arith;
                next = rw number;
              }),
        )
  ]
]

-- Every number in use is below `nextpid`.
abbrev pub Below : Ptable → Type 0
Below s = (j : ℕ) → j < 64 → is_unused (s.procs j).state ≡ false → (s.procs j).pid < s.nextpid

-- Until the counter passes 10000, a `fork` that succeeds returns a number that no other process in
-- use has, and the numbers in use stay below `nextpid`.
pub fork_fresh :
    (kstack pgdir cur : ℕ) (s : Ptable) {pid : ℕ}
    → is_unused (s.procs cur).state ≡ false
    → s.nextpid ≤ 10000
    → Below s
    → (fork kstack pgdir cur s).0 ≡ some pid
    → let s' = (fork kstack pgdir cur s).1 in
      (i : ℕ) × ((s'.procs i).pid ≡ pid)
      × ((s'.procs i).parent ≡ suc cur)
      × ((j : ℕ) → j < 64 → j ≢ i → is_unused (s'.procs j).state ≡ false → (s'.procs j).pid ≢ pid)
      × Below s'
fork_fresh kstack pgdir cur s {pid} u h b e =
    let (i, f) = fork-Forked kstack pgdir cur s u e in
    (
      i,
      ap (λ (p : Proc). p.pid) f.entry,
      ap (λ (p : Proc). p.parent) f.entry,
      (λ j hj ne used. ground (arith, f.number, f.others j ne, b j hj)),
      (λ j hj used. elim (ℕ_discrete j i) [
        | yes same ↦ ground (arith, f.entry, f.next)
        | no ne ↦ ground (arith, f.number, f.next, f.others j ne, b j hj)
      ]),
    )

-- Once the counter has passed 10000, a `fork` that succeeds returns 3, though a process in use may
-- have that number: then two do.
pub fork_duplicates :
    (kstack pgdir cur j : ℕ) (s : Ptable) {pid : ℕ}
    → is_unused (s.procs cur).state ≡ false
    → 10000 < s.nextpid
    → is_unused (s.procs j).state ≡ false
    → (s.procs j).pid ≡ 3
    → (fork kstack pgdir cur s).0 ≡ some pid
    → let s' = (fork kstack pgdir cur s).1 in
      (i : ℕ) × (i ≢ j)
      × ((s'.procs i).pid ≡ 3)
      × ((s'.procs j).pid ≡ 3)
      × ((s'.procs i).state ≡ runnable)
      × ((s'.procs j).state ≡ (s.procs j).state)
fork_duplicates kstack pgdir cur j s {pid} u h used three e =
    let (i, f) = fork-Forked kstack pgdir cur s u e in
    let ne : j ≢ i = λ c. ground (arith, f.slot.passes) in
    (
      i,
      (λ c. ne (sym c)),
      ground (arith, f.entry, f.number),
      ground (arith, f.others j ne),
      ap (λ (p : Proc). p.state) f.entry,
      ground (arith, f.others j ne),
    )
