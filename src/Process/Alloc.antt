-- ===== src/Process/Alloc.antt =====
-- What `allocproc` returns, case by case.
use hyeonseung_os.Base.{
  ℕ, ◌+◌, ◌≡◌, ◌≢◌, refl, inl, inr, arith, ◌==◌, update, Option, some, none, Option-cases,
  Bool-cases,
}
use hyeonseung_os.Process.{unused, Ptable, is_unused, nproc, allocproc, find_proc, claim, next_pid}
use hyeonseung_os.Process.Table.{Found, find_proc-Found}

pub data Allocated (kstack : ℕ) (s : Ptable) (r : Option ℕ × Ptable) : Type 0 where
  full :
      find_proc (λ p. is_unused p.state) s.procs nproc 0 ≡ none
      → r ≡ (none, s)
      → Allocated kstack s r
  no_stack :
      (i : ℕ)
      → Found (λ p. is_unused p.state) s.procs 0 64 i
      → kstack ≡ 0
      → r ≡ (
        none,
        record s {
          procs =
              update s.procs i (record (claim kstack (next_pid s) (s.procs i)) { state = unused });
          nextpid = next_pid s + 1;
        },
      )
      → Allocated kstack s r
  given :
      (i : ℕ)
      → Found (λ p. is_unused p.state) s.procs 0 64 i
      → kstack ≢ 0
      → r ≡ (
        some i,
        record s {
          procs = update s.procs i (claim kstack (next_pid s) (s.procs i));
          nextpid = next_pid s + 1;
        },
      )
      → Allocated kstack s r

pub allocproc-Allocated : (kstack : ℕ) (s : Ptable) → Allocated kstack s (allocproc kstack s)
unfolding allocproc
allocproc-Allocated kstack s =
    elim (Option-cases (find_proc (λ p. is_unused p.state) s.procs 64 0)) [
      | inl e ↦ rw (e, allocproc) (full e refl)
      | inr (i, e) ↦
          let f = find_proc-Found (λ p. is_unused p.state) s.procs 64 0 e in
          elim (Bool-cases (kstack == 0)) [
            | inl z ↦ rw (e, allocproc, z) (no_stack i f (ground arith) refl)
            | inr z ↦ rw (e, allocproc, z) (given i f (ground arith) refl)
          ]
    ]
