-- ===== src/Sleeplocks/Tests.antt =====
-- A sleep lock that two processes look at, and its theorem.
use hyeonseung_os.Base.{ℕ, suc, ◌<◌, ◌≡◌, refl, true, false, [], ◌∷◌}
use hyeonseung_os.Process.{Ptable, running, nproc, sleep}
use hyeonseung_os.Sleeplocks.{SleepLock, initsleeplock, acquiresleep, releasesleep}
use hyeonseung_os.Sleeplocks.Waiting.{looks, releases, run, waits, IsAwaited, run_awaits}

-- Every process runs.
abbrev all_run : Ptable
all_run = record {
  procs = λ i. record {
    sz = 0;
    pgdir = 0;
    kstack = 0;
    state = running;
    pid = suc i;
    parent = 0;
    chan = 0;
    killed = false;
    ofile = [];
    cwd = 0;
    name = [];
  };
  nextpid = 70;
  initproc = 1;
}

abbrev two_look : SleepLock
two_look = run 9 (looks 2 ∷ looks 5 ∷ []) (initsleeplock all_run)

second_waits : waits 9 5 two_look ≡ true
unfolding run acquiresleep sleep initsleeplock
second_waits = refl

first_holds : two_look.pid ≡ 3
unfolding run acquiresleep sleep initsleeplock
first_holds = refl

run_awaits_example :
    IsAwaited 9 (run 9 (looks 2 ∷ looks 5 ∷ releases ∷ looks 5 ∷ []) (initsleeplock all_run))
    × ((releasesleep 9
          (run 9 (looks 2 ∷ looks 5 ∷ releases ∷ looks 5 ∷ []) (initsleeplock all_run))).locked
        ≡ false)
    × ((i : ℕ)
        → i < nproc
        → waits 9 i (
            releasesleep 9
              (run 9 (looks 2 ∷ looks 5 ∷ releases ∷ looks 5 ∷ []) (initsleeplock all_run)))
          ≡ false)
unfolding initsleeplock
run_awaits_example =
    run_awaits 9 (looks 2 ∷ looks 5 ∷ releases ∷ looks 5 ∷ []) all_run (λ i l. refl)
