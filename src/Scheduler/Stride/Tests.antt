-- ===== src/Scheduler/Stride/Tests.antt =====
-- Runs of the stride table, and its theorems at a small one.
use hyeonseung_os.Base.{
  ℕ, zero, suc, ◌+◌, ◌^◌, ◌≤◌, ◌<◌, ◌≡◌, ◌≢◌, refl, arith, some, for_range, update,
}
use hyeonseung_os.Scheduler.{StrideEntry, StrideTable}
use hyeonseung_os.Scheduler.Stride.{path_cal, stride, set_table, set_cpu_share, boot_table}
use hyeonseung_os.Scheduler.Stride.Pick.{Cand, path_key, path_cal_least}
use hyeonseung_os.Scheduler.Stride.Fairness.{IsSpread, pass, step, round, round-IsSpread}
use hyeonseung_os.Scheduler.Stride.Shares.{total, IsBooked}
use hyeonseung_os.Scheduler.Stride.Booking.{set_table-IsBooked}

abbrev blank : StrideEntry
blank = record { pid = 0; share = 0; full = 0; path = 0; is_stride = 0; proc = 0 }

-- Process 3 has a share of 20 and has run once.
abbrev entries : ℕ → StrideEntry
entries zero = record blank { pid = 2; share = 80; full = 1; path = 250 }
entries (suc zero) = blank
entries (suc (suc zero)) = blank
entries (suc (suc (suc zero))) = record {
  pid = 3;
  share = 20;
  full = 1;
  path = 500;
  is_stride = 1;
  proc = 9;
}
entries (suc (suc (suc (suc n)))) = blank

abbrev shared : StrideTable
shared = record { entries = entries; table_size = 1; max_pid = 3; max_sum = 20 }

-- As if process 3 had asked for its share with nothing else running.
asks_from_boot : (set_cpu_share 20 3 9 boot_table).0 ≡ some 20
unfolding set_cpu_share set_table boot_table for_range
asks_from_boot = refl

shared-IsBooked : IsBooked 5 shared
unfolding total
shared-IsBooked = record {
  booked = refl;
  limit = omega arith;
  rest = refl;
  base = refl;
  pids = omega arith;
}

picks_entry_zero : path_cal shared ≡ 0
unfolding path_cal
picks_entry_zero = refl

path_cal_least_example :
    let d = path_cal shared in
    (d ≤ 3)
    × Cand shared d
    × ((j : ℕ) → j ≤ 3 → Cand shared j → path_key shared d ≤ path_key shared j)
    × ((j : ℕ) → j < d → Cand shared j → path_key shared d < path_key shared j)
path_cal_least_example =
    path_cal_least shared 3 (omega arith) (refl, omega arith, omega arith) (omega arith)

shared-small : (i : ℕ) → i ≤ 3 → Cand shared i → pass shared i < 2 ^ 30
shared-small zero h c = omega arith
shared-small (suc zero) h c = omega arith
shared-small (suc (suc zero)) h c = omega arith
shared-small (suc (suc (suc zero))) h c = omega arith
shared-small (suc (suc (suc (suc n)))) h c = omega arith

pass-250 : (j : ℕ) → Cand shared j → 250 ≤ pass shared j
pass-250 zero c = omega arith
pass-250 (suc zero) c = omega arith
pass-250 (suc (suc zero)) c = omega arith
pass-250 (suc (suc (suc zero))) c = omega arith
pass-250 (suc (suc (suc (suc n)))) c = omega arith

shared-ahead :
    (i j : ℕ)
    → i ≤ 3
    → j ≤ 3
    → Cand shared i
    → Cand shared j
    → pass shared i ≤ pass shared j + step shared i
shared-ahead zero j hi hj ci cj = omega (arith, pass-250 j cj)
shared-ahead (suc zero) j hi hj ci cj = omega arith
shared-ahead (suc (suc zero)) j hi hj ci cj = omega arith
shared-ahead (suc (suc (suc zero))) j hi hj ci cj = omega arith
shared-ahead (suc (suc (suc (suc n)))) j hi hj ci cj = omega arith

bounded : IsSpread shared
bounded = record { small = shared-small; ahead = shared-ahead }

round-IsSpread_example :
    let s' : StrideTable = record shared {
      entries = update entries 0 (record (entries 0) { path = 375 });
    } in
    ((j : ℕ) → j ≤ 3 → Cand shared j → pass shared (path_cal shared) ≤ pass shared j)
    × ((j : ℕ) → j ≢ path_cal shared → s'.entries j ≡ shared.entries j)
    × (pass s' (path_cal shared) ≡ pass shared (path_cal shared) + step shared (path_cal shared))
    × ((j k : ℕ) → j ≤ 3 → k ≤ 3 → Cand s' j → Cand s' k → pass s' j ≤ pass s' k + step s' j)
unfolding round path_cal stride
round-IsSpread_example =
    round-IsSpread shared
      (record shared { entries = update entries 0 (record (entries 0) { path = 375 }) }) 0 0
      (omega arith) (refl, omega arith, omega arith) bounded refl

set_table-IsBooked_example :
    let s' = set_table 50 4 8 shared in
    IsBooked 5 s'
    × (20 + 50 ≤ 80
        → ((s'.entries 4).share ≡ 50) × ((s'.entries 4).is_stride ≡ 1) × (s'.max_sum ≡ 20 + 50))
    × (80 < 20 + 50 → s' ≡ shared)
set_table-IsBooked_example =
    set_table-IsBooked 50 4 8 5 shared (omega arith) (omega arith) (omega arith) refl (omega arith)
      shared-IsBooked
