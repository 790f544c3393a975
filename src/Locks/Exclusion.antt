-- ===== src/Locks/Exclusion.antt =====
-- No two CPUs hold the lock, whatever the order of their steps.
use hyeonseung_os.Base.{ℕ, ◌≡◌, refl, Bool, false, List, [], ◌∷◌, some, arith}
use hyeonseung_os.Locks.{outside, inside, Spinlocks, run}
use hyeonseung_os.Locks.Steps.{Settled, IsExclusive, advance-IsExclusive}

-- The lock is free, every CPU is outside, and has its interrupts as `on` says.
pub record IsIdle (on : ℕ → Bool) (s : Spinlocks) : Type 0 where
  pub unlocked : s.locked ≡ false
  pub nobody : s.holder ≡ 0
  pub away : (i : ℕ) → s.phase i ≡ outside
  pub cpus : (i : ℕ) → Settled (on i) outside (s.cpus i)

idle-IsExclusive : (on : ℕ → Bool) (s : Spinlocks) → IsIdle on s → IsExclusive on s
idle-IsExclusive on s v = record {
  free = λ l j. ground (arith, v.away j);
  one = λ i j a b. ground (arith, v.away i);
  held = λ i a. ground (arith, v.away i);
  mine = λ i a. ground (arith, v.nobody);
  settled = λ i. rw (v.away i) (v.cpus i);
}

run-IsExclusive :
    (on : ℕ → Bool) (is : List ℕ) (s : Spinlocks)
    → IsExclusive on s
    → (s' : Spinlocks) × (run is s ≡ some s') × IsExclusive on s'
unfolding run
run-IsExclusive on [] s v = (s, refl, v)
run-IsExclusive on (i ∷ is) s v =
    let (s₁, e, v₁) = advance-IsExclusive on s i (s.phase i) refl v in
    let (s₂, e', v₂) = run-IsExclusive on is s₁ v₁ in (s₂, rw (e, e') refl, v₂)

-- From a free lock, in whatever order the CPUs take their steps: none panics, no two are between
-- `acquire` and `release`, and a CPU outside both has its interrupts as it had them at the start.
pub run_excludes :
    (on : ℕ → Bool) (is : List ℕ) (s : Spinlocks)
    → IsIdle on s
    → (s' : Spinlocks) × (run is s ≡ some s')
      × ((i j : ℕ) → s'.phase i ≡ inside → s'.phase j ≡ inside → i ≡ j)
      × ((i : ℕ) → s'.phase i ≡ outside → (s'.cpus i).interrupts ≡ on i)
run_excludes on is s v =
    let (s', e, x) = run-IsExclusive on is s (idle-IsExclusive on s v) in
    (s', e, (λ i j a b. x.one i j (rw a refl) (rw b refl)), (λ i a. (rw a at (x.settled i)).1))
