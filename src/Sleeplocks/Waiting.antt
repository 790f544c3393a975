-- ===== src/Sleeplocks/Waiting.antt =====
-- No process waits for a sleep lock that is free.
use hyeonseung_os.Base.{
  ℕ, ◌<◌, ◌≡◌, refl, sym, ◌∙◌, inl, inr, Bool, true, false, true≢false, List, [], ◌∷◌, arith, ◌&&◌,
  ◌==◌, ltb, Bool-cases,
}
use hyeonseung_os.Process.{Proc, Ptable, nproc, is_sleeping, wake, wakeup}
use hyeonseung_os.Process.Table.{wakeup1-wake}
use hyeonseung_os.Sleeplocks.{SleepLock, initsleeplock, acquiresleep, releasesleep}

-- The looks of processes at the lock, and its releases, in the order in which they happen.
pub data Event : Type 0 where
  looks : ℕ → Event
  releases : Event

abbrev happen : ℕ → Event → SleepLock → SleepLock
happen chan (looks cur) s = acquiresleep chan cur s
happen chan releases s = releasesleep chan s

unfoldable pub run : ℕ → List Event → SleepLock → SleepLock
run chan [] s = s
run chan (e ∷ es) s = run chan es (happen chan e s)

-- Process `i` sleeps on the lock.
abbrev pub waits : ℕ → ℕ → SleepLock → Bool
waits chan i s = is_sleeping (s.table.procs i).state && (s.table.procs i).chan == chan

-- A process that waits for the lock waits while it is held.
abbrev pub IsAwaited : ℕ → SleepLock → Type 0
IsAwaited chan s = (i : ℕ) → i < nproc → waits chan i s ≡ true → s.locked ≡ true

-- A wakeup on the lock's address leaves nobody asleep on it.
woken :
    (chan : ℕ) (p : Proc) → (is_sleeping (wake chan p).state && (wake chan p).chan == chan) ≡ false
unfolding wake
woken chan p = elim (Bool-cases (is_sleeping p.state && p.chan == chan)) [
  | inl e ↦ rw e refl
  | inr e ↦ rw e e
]

release_none :
    (chan : ℕ) (s : SleepLock) (i : ℕ) → i < nproc → waits chan i (releasesleep chan s) ≡ false
unfolding releasesleep wakeup
release_none chan s i l =
    let below : ltb i nproc ≡ true = ground arith in
    rw (wakeup1-wake chan s.table.procs i, below) (woken chan (s.table.procs i))

happen-IsAwaited :
    (chan : ℕ) (e : Event) (s : SleepLock) → IsAwaited chan s → IsAwaited chan (happen chan e s)
unfolding acquiresleep
happen-IsAwaited chan releases s a i l w = absurd (true≢false (sym w ∙ release_none chan s i l))
happen-IsAwaited chan (looks cur) s a i l w = elim (Bool-cases s.locked) [
  | inl h ↦ rw h refl
  | inr h ↦ rw h refl
]

run-IsAwaited :
    (chan : ℕ) (es : List Event) (s : SleepLock) → IsAwaited chan s → IsAwaited chan (run chan es s)
unfolding run
run-IsAwaited chan [] s a = a
run-IsAwaited chan (e ∷ es) s a =
    run-IsAwaited chan es (happen chan e s) (happen-IsAwaited chan e s a)

-- From a lock that has just been made, which nobody waits for: in whatever order processes look at it and
-- release it, a process that waits for it waits only while it is held; a release leaves it free, and no
-- process waiting.
pub run_awaits :
    (chan : ℕ) (es : List Event) (t : Ptable)
    → ((i : ℕ) → i < nproc → waits chan i (initsleeplock t) ≡ false)
    → IsAwaited chan (run chan es (initsleeplock t))
      × ((releasesleep chan (run chan es (initsleeplock t))).locked ≡ false)
      × ((i : ℕ)
          → i < nproc
          → waits chan i (releasesleep chan (run chan es (initsleeplock t))) ≡ false)
unfolding releasesleep
run_awaits chan es t none_waits = (
  run-IsAwaited chan es (initsleeplock t) (λ i l w. absurd (true≢false (sym w ∙ none_waits i l))),
  refl,
  λ i l. release_none chan (run chan es (initsleeplock t)) i l,
)
