-- ===== src/Sleeplocks.antt =====
-- The sleep locks of xv6-public/sleeplock.c, on the process table. `chan` is the address of the lock. What
-- the spin lock in it and `ptable.lock` guard is one step; `acquiresleep` is one step for each time that
-- its loop looks at the lock, and the next one comes when the process has been woken.
pub mod Waiting
mod Tests
use hyeonseung_os.Base.{ℕ, suc, Bool, true, false, ◌==◌, if◌then◌else◌}
use hyeonseung_os.Process.{Ptable, sleep, wakeup}

-- `struct sleeplock`, less its name, and the process table.
pub record SleepLock : Type 0 where
  pub locked : Bool
  pub pid : ℕ
  pub table : Ptable

-- `initsleeplock`
unfoldable pub initsleeplock : Ptable → SleepLock
initsleeplock t = record { locked = false; pid = 0; table = t }

-- A look of `acquiresleep` at the lock by the process in slot `cur`: it takes the lock or goes to sleep.
unfoldable pub acquiresleep : ℕ → ℕ → SleepLock → SleepLock
acquiresleep chan cur s =
    let taken : SleepLock = record s { locked = true; pid = (s.table.procs cur).pid } in
    if s.locked then record s { table = sleep chan cur s.table } else taken

unfoldable pub releasesleep : ℕ → SleepLock → SleepLock
releasesleep chan s = record { locked = false; pid = 0; table = wakeup chan s.table }

abbrev pub holdingsleep : SleepLock → Bool
holdingsleep s = s.locked
