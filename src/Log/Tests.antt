-- ===== src/Log/Tests.antt =====
-- Runs of the log, and its theorems at a transaction of one block.
use hyeonseung_os.Log.Ending.{end_op-HasRoom}
use hyeonseung_os.Base.{
  ℕ, ◌≡◌, ◌⊎◌, inl, inr, refl, Bool, true, false, ◌≤◌, ◌<◌, length, List, [], ◌∷◌, none, some,
  arith, update, update_ne, for_range,
}
use hyeonseung_os.Log.{
  Block, Machine, commit, recover_from_log, restart, write_log, write_head, install_trans,
  read_head, head_block,
}
use hyeonseung_os.Log.Disk.{Outside, Transaction, IsSound}
use hyeonseung_os.Log.Commit.{IsReady}
use hyeonseung_os.Log.Atomic.{restarts, crash_atomic, commit_installs}
use hyeonseung_os.Log.Space.{LogState, Running, HasRoom, end_op, end_commit, log_write, reserved}
use hyeonseung_os.Log.Room.{Logged, log_write_lem}

abbrev zeros : ℕ → Block
zeros x i = 0

abbrev sevens : Block
sevens i = 7

-- Block 40 is to hold sevens; the log begins at block 2.
abbrev store : Transaction
store = record {
  start = 2;
  size = 30;
  lh = record { n = 1; block = λ i. 40 };
  before = zeros;
  after = update zeros 40 sevens;
}

abbrev running : ℕ → Machine
running budget = record {
  start = 2;
  lh = store.lh;
  cache = store.after;
  disk = zeros;
  budget = budget;
}

store-IsSound : IsSound store
store-IsSound = record {
  fits = omega arith;
  homes = λ j h. inr (omega arith);
  others = λ x o h. update_ne zeros 40 sevens x (λ e. h 0 (omega arith) (omega arith));
}

running-IsReady : (budget : ℕ) → IsReady store (running budget)
running-IsReady budget = record {
  start = refl;
  lh = refl;
  cached = λ x o. refl;
  disk = record { head = refl; homes = λ x o. refl };
  work = omega arith;
}

-- The power fails before the header is written, and after it.
fails_early : (recover_from_log (restart 2 (commit (running 1)).disk 5)).disk 40 0 ≡ 0
unfolding recover_from_log restart commit write_log write_head install_trans read_head head_block
    for_range
fails_early = refl

fails_late : (recover_from_log (restart 2 (commit (running 2)).disk 5)).disk 40 0 ≡ 7
unfolding recover_from_log restart commit write_log write_head install_trans read_head head_block
    for_range
fails_late = refl

crash_atomic_example :
    let d' =
      (recover_from_log (restart 2 (restarts 2 (1 ∷ []) (commit (running 2)).disk) 2)).disk in
    (d' 2 0 ≡ 0)
    × (((x : ℕ) → Outside 2 30 x → d' x ≡ store.before x)
        ⊎ ((x : ℕ) → Outside 2 30 x → d' x ≡ store.after x))
crash_atomic_example =
    crash_atomic store (running 2) (1 ∷ []) 2 store-IsSound (running-IsReady 2) (omega arith)

commit_installs_example :
    ((commit (running 4)).disk 2 0 ≡ 0)
    × ((x : ℕ) → Outside 2 30 x → (commit (running 4)).disk x ≡ store.after x)
commit_installs_example =
    commit_installs store (running 4) store-IsSound (running-IsReady 4) (omega arith)

-- Two calls run; the first has written one block.
abbrev busy : Running
busy = record {
  log = record {
    lh = record { n = 1; block = λ i. 40 };
    size = 30;
    outstanding = 2;
    committing = false;
  };
  used = 1 ∷ 0 ∷ [];
}

busy-HasRoom : HasRoom busy
unfolding reserved
busy-HasRoom = record { counted = refl; room = omega arith; quiet = inl refl }

log_write_lem_example :
    ((30 ≤ 2) × (log_write 41 busy.log ≡ none))
    ⊎ ((2 < 30)
        × (s : LogState) × (log_write 41 busy.log ≡ some s)
        × Logged 41 busy.log.lh s.lh
        × HasRoom (record { log = s; used = 1 ∷ 1 ∷ [] }))
log_write_lem_example = log_write_lem busy 1 0 41 busy-HasRoom refl (omega arith)

abbrev left : List ℕ
left = 1 ∷ []

end_op-HasRoom_example :
    (last : Bool) × (s : LogState) × (end_op busy.log ≡ some (last, s))
    × (last ≡ true → (length left ≡ 0) × HasRoom (record { log = end_commit s; used = [] }))
    × (last ≡ false → (0 < length left) × HasRoom (record { log = s; used = left }))
end_op-HasRoom_example = end_op-HasRoom busy left [] 0 busy-HasRoom refl

-- Two calls run, and nothing is written yet.
abbrev fresh : Running
fresh = record {
  log = record (busy.log) { lh = record { n = 0; block = λ i. 0 } };
  used = 0 ∷ 0 ∷ [];
}

fresh-HasRoom : HasRoom fresh
unfolding reserved
fresh-HasRoom = record { counted = refl; room = omega arith; quiet = inl refl }

-- With the 30 blocks that mkfs gives the log, the thirtieth block of three calls does not fit.
abbrev mkfs_log : LogState
mkfs_log = record {
  lh = record { n = 29; block = λ i. i };
  size = 30;
  outstanding = 3;
  committing = false;
}

thirtieth_block_panics : log_write 50 mkfs_log ≡ none
unfolding log_write
thirtieth_block_panics = refl
