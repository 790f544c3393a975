-- ===== src/Scheduler/Stride/Booking.antt =====
-- `set_table` and the end of a process keep the books of Scheduler/Stride/Shares.antt.
use hyeonseung_os.Base.{
  ℕ, ◌+◌, ◌-◌, ◌^◌, ◌≤◌, ◌<◌, ◌≡◌, inl, inr, refl, ap, arith, lt_int, add32, sub32, Bool-cases,
}
use hyeonseung_os.Scheduler.{StrideEntry, StrideTable}
use hyeonseung_os.Scheduler.Stride.{set_table, nstride}
use hyeonseung_os.Scheduler.Stride.Shares.{
  held, IsBooked, Granted, set_table-Granted, set_table-refused, total-Granted, reset_paths-share,
  granted_entries,
}

-- The two entries that a granted share writes.
pub Granted-mine :
    (input pid proc : ℕ) (s s' : StrideTable)
    → 0 < pid
    → Granted input pid proc s s'
    → ((s'.entries pid).share ≡ input)
      × ((s'.entries pid).is_stride ≡ 1)
      × ((s'.entries 0).share ≡ sub32 100 (add32 s.max_sum input))
      × ((s'.entries 0).is_stride ≡ (s.entries 0).is_stride)
      × ((s'.entries pid).full ≡ 1)
      × ((s'.entries pid).path ≡ 0)
Granted-mine input pid proc s s' hp g =
    let t : ℕ → StrideEntry = granted_entries input pid proc s in
    ground (
      arith,
      ap (λ (f : ℕ → StrideEntry). f pid) g.entries,
      ap (λ (f : ℕ → StrideEntry). f 0) g.entries,
      reset_paths-share s'.max_pid t pid,
      reset_paths-share s'.max_pid t 0,
    )

Granted-IsBooked :
    (input pid proc n : ℕ) (s s' : StrideTable)
    → 0 < pid
    → pid < n
    → n ≤ nstride
    → (s.entries pid).is_stride ≡ 0
    → s.max_sum + input ≤ 80
    → IsBooked n s
    → Granted input pid proc s s'
    → IsBooked n s'
Granted-IsBooked input pid proc n s s' hp hn hb fresh room v g =
    let m = Granted-mine input pid proc s s' hp g in
    let sum = total-Granted input pid proc n s s' hp hn v.base g in
    let free : held (s.entries pid) ≡ 0 = ground arith in
    record {
      booked = omega (arith, g.sum, v.booked, sum, free);
      limit = omega (arith, g.sum, v.limit);
      rest = ground (arith, g.sum, m);
      base = ground (arith, m, v.base);
      pids = ground (arith, g.size, v.pids);
    }

-- A process without a share that asks for one which is no negative `int` near the largest gets it
-- exactly when the shares then sum up to 80 at most; else nothing changes. Either way the books stay
-- right: `max_sum` is the sum of the shares held, and entry 0 has what is left of 100.
pub set_table-IsBooked :
    (input pid proc n : ℕ) (s : StrideTable)
    → 0 < pid
    → pid < n
    → n ≤ nstride
    → (s.entries pid).is_stride ≡ 0
    → input < 2 ^ 31 - 80
    → IsBooked n s
    → let s' = set_table input pid proc s in
      IsBooked n s'
      × (s.max_sum + input ≤ 80
          → ((s'.entries pid).share ≡ input)
            × ((s'.entries pid).is_stride ≡ 1)
            × (s'.max_sum ≡ s.max_sum + input))
      × (80 < s.max_sum + input → s' ≡ s)
set_table-IsBooked input pid proc n s hp hn hb fresh hi v =
    elim (Bool-cases (lt_int 80 (add32 s.max_sum input))) [
      | inl over ↦
          let same = set_table-refused input pid proc s over in
          rw same (v, (λ room. absurd (ground (arith, v.limit))), (λ _. refl))
      | inr under ↦
          let g = set_table-Granted input pid proc s (ground (arith, v.pids)) under in
          let room : s.max_sum + input ≤ 80 = ground (arith, v.limit) in
          let (a, b, _, _, _, _) =
            Granted-mine input pid proc s (set_table input pid proc s) hp g in
          (
            Granted-IsBooked input pid proc n s (set_table input pid proc s) hp hn hb fresh room v
                g,
            (λ _. (a, b, omega (arith, g.sum))),
            (λ over. absurd (omega arith)),
          )
    ]
