-- ===== src/Process/Orphans.antt =====
-- No process is left with a dead parent.
use hyeonseung_os.Base.{ℕ, ◌<◌, ◌≡◌, refl, some-injective, true, Option, some}
use hyeonseung_os.Process.{Ptable, wakeup, exit, fork, wait, kill, sleep, wake_up, yield, dispatch}
use hyeonseung_os.Process.Exit.{is_live}
use hyeonseung_os.Process.Rooted.{IsRooted, restate-IsRooted}
use hyeonseung_os.Process.RootedSteps.{
  wakeup-IsRooted, kill-IsRooted, fork-IsRooted, wait-IsRooted, exit-IsRooted,
}

-- What the kernel does to the table: the constructors carry the arguments of the function, the slot
-- of the process that runs it last.
pub data Op : Type 0 where
  forks : ℕ → ℕ → ℕ → Op
  exits : ℕ → Op
  waits : ℕ → Op
  kills : ℕ → Op
  sleeps : ℕ → ℕ → Op
  resumes : ℕ → Op
  wakes : ℕ → Op
  yields : ℕ → Op
  dispatches : ℕ → Op

-- `none` is a panic.
unfoldable pub step : Ptable → Op → Option Ptable
step s (forks kstack pgdir cur) = some (fork kstack pgdir cur s).1
step s (exits cur) = exit cur s
step s (waits cur) = some (wait cur s).1
step s (kills pid) = some (kill pid s).1
step s (sleeps chan cur) = some (sleep chan cur s)
step s (resumes cur) = some (wake_up cur s)
step s (wakes chan) = some (wakeup chan s)
step s (yields cur) = some (yield cur s)
step s (dispatches cur) = some (dispatch cur s)

-- The process that acts is in the table and alive.
abbrev pub ActsIn : Ptable → ℕ → Type 0
ActsIn s cur = (cur < 64) × (is_live (s.procs cur).state ≡ true)

abbrev pub Acts : Ptable → Op → Type 0
Acts s (forks kstack pgdir cur) = ActsIn s cur
Acts s (exits cur) = ActsIn s cur
Acts s (waits cur) = ActsIn s cur
Acts s (kills pid) = Unit
Acts s (sleeps chan cur) = ActsIn s cur
Acts s (resumes cur) = ActsIn s cur
Acts s (wakes chan) = Unit
Acts s (yields cur) = ActsIn s cur
Acts s (dispatches cur) = ActsIn s cur

-- Every operation of a live process that does not panic leaves init alive, and every process that
-- is in use, a zombie too, with no parent or with one that is neither free nor a zombie: `exit` hands
-- the children of the dying process, its zombies included, to init.
pub step-IsRooted :
    (op : Op) (s : Ptable) {s' : Ptable}
    → Acts s op
    → IsRooted s
    → step s op ≡ some s'
    → IsRooted s'
unfolding step sleep wake_up yield dispatch
step-IsRooted (forks kstack pgdir cur) s a v e =
    rw (← some-injective _ _ e) (fork-IsRooted kstack pgdir cur s a.0 a.1 v)
step-IsRooted (exits cur) s a v e = exit-IsRooted cur s _ a.0 a.1 v e
step-IsRooted (waits cur) s a v e = rw (← some-injective _ _ e) (wait-IsRooted cur s a.0 a.1 v)
step-IsRooted (kills pid) s a v e = rw (← some-injective _ _ e) (kill-IsRooted pid s v)
step-IsRooted (sleeps chan cur) s a v e =
    rw (← some-injective _ _ e) (restate-IsRooted s cur _ a.0 a.1 refl refl v)
step-IsRooted (resumes cur) s a v e =
    rw (← some-injective _ _ e) (restate-IsRooted s cur _ a.0 a.1 a.1 refl v)
step-IsRooted (wakes chan) s a v e = rw (← some-injective _ _ e) (wakeup-IsRooted chan s v)
step-IsRooted (yields cur) s a v e =
    rw (← some-injective _ _ e) (restate-IsRooted s cur _ a.0 a.1 refl refl v)
step-IsRooted (dispatches cur) s a v e =
    rw (← some-injective _ _ e) (restate-IsRooted s cur _ a.0 a.1 refl refl v)
