-- ===== src/Locks.antt =====
-- The spin lock of xv6-public/spinlock.c, and the nesting of disabled interrupts. The CPUs run `acquire`
-- and `release` on one lock, each of their instructions on shared memory as a step of its own, but for the test of
-- `holding`.
pub mod Steps
pub mod Exclusion
mod Tests
use hyeonseung_os.Base.{
  ℕ, zero, suc, ◌+◌, ◌-◌, Bool, true, false, ◌&&◌, List, [], ◌∷◌, Option, none, some, ◌==◌,
  if◌then◌else◌, update, ◌>>=◌,
}

-- Of `struct cpu` the fields `ncli` and `intena`, and FL_IF of the flags register.
pub record Cpu : Type 0 where
  pub ncli : ℕ
  pub intena : Bool
  pub interrupts : Bool

unfoldable pub pushcli : Cpu → Cpu
pushcli c = record {
  ncli = c.ncli + 1;
  intena = if c.ncli == 0 then c.interrupts else c.intena;
  interrupts = false;
}

-- `none` is one of its two panics.
unfoldable pub popcli : Cpu → Option Cpu
popcli c =
    if c.interrupts
    then none
    else (if c.ncli == 0
        then none
        else some (record c { ncli = c.ncli - 1; interrupts = c.ncli - 1 == 0 && c.intena }))

-- Where a CPU is in `acquire` and `release`: outside both, at the `xchg`, at `lk->cpu = mycpu()`,
-- between the two functions, at the store that frees the lock, and at `popcli`.
pub data Phase : Type 0 where
  outside spinning taken inside leaving restoring : Phase

-- The fields `locked` and `cpu` of the lock (`cpu` is 0 or `suc i`), and the CPUs.
pub record Spinlocks : Type 0 where
  pub locked : Bool
  pub holder : ℕ
  pub phase : ℕ → Phase
  pub cpus : ℕ → Cpu

unfoldable pub holding : ℕ → Spinlocks → Bool
holding i s = s.locked && s.holder == suc i

abbrev pub go : ℕ → Phase → Spinlocks → Spinlocks
go i p s = record s { phase = update s.phase i p }

-- `pushcli` and the test at the start of `acquire`; `none` is the panic. The two loads of `holding` are one
-- step with `pushcli`: that this CPU holds the lock is changed by no other.
unfoldable pub acquire_start : ℕ → Spinlocks → Option Spinlocks
unfolding holding pushcli
acquire_start i s =
    if holding i s
    then none
    else some (record (go i spinning s) { cpus = update s.cpus i (pushcli (s.cpus i)) })

-- One round of the loop on `xchg`.
unfoldable pub acquire_try : ℕ → Spinlocks → Spinlocks
acquire_try i s = if s.locked then s else record (go i taken s) { locked = true }

-- The start of `release`; `none` is the panic.
unfoldable pub release_start : ℕ → Spinlocks → Option Spinlocks
unfolding holding
release_start i s = if holding i s then some (record (go i leaving s) { holder = 0 }) else none

unfoldable pub release_end : ℕ → Spinlocks → Option Spinlocks
unfolding popcli
release_end i s = do
  c ← popcli (s.cpus i)
  some (record (go i outside s) { cpus = update s.cpus i c })

-- The next step of CPU `i`, from where it is.
unfoldable pub advance : Phase → ℕ → Spinlocks → Option Spinlocks
unfolding acquire_start acquire_try release_start release_end
advance outside i s = acquire_start i s
advance spinning i s = some (acquire_try i s)
advance taken i s = some (record (go i inside s) { holder = suc i })
advance inside i s = release_start i s
advance leaving i s = some (record (go i restoring s) { locked = false })
advance restoring i s = release_end i s

-- The steps of the CPUs in the order of the list.
unfoldable pub run : List ℕ → Spinlocks → Option Spinlocks
unfolding advance
run [] s = some s
run (i ∷ is) s = advance (s.phase i) i s >>= run is
