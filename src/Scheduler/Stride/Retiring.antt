-- ===== src/Scheduler/Stride/Retiring.antt =====
-- Shares that come back, and shares that do not.
use hyeonseung_os.Base.{
  ℕ, ◌+◌, ◌-◌, ◌^◌, ◌≤◌, ◌<◌, ◌≡◌, ◌≢◌, ◌⊎◌, inl, inr, refl, ◌∙◌, false, arith, ◌==◌, sub32, update,
  some, none, Bool-cases,
}
use hyeonseung_os.Scheduler.{StrideEntry, StrideTable}
use hyeonseung_os.Scheduler.Stride.{stride, set_table, set_cpu_share, retire}
use hyeonseung_os.Scheduler.Stride.Shares.{
  held, total, total-update, IsBooked, set_table-Granted, total-Granted,
}
use hyeonseung_os.Scheduler.Stride.Booking.{Granted-mine}

-- What `retire` does to the books of a process with a share.
total-retire :
    (pid n : ℕ) (s : StrideTable)
    → 0 < pid
    → pid < n
    → (s.entries pid).is_stride ≡ 1
    → (s.entries 0).is_stride ≡ 0
    → let s' = retire pid s in
      (total n s'.entries + (s.entries pid).share ≡ total n s.entries)
      × (s'.max_sum ≡ sub32 s.max_sum (s.entries pid).share)
      × ((s'.entries 0).share ≡ sub32 100 s'.max_sum)
      × ((s'.entries 0).is_stride ≡ 0)
      × ((s'.entries pid).full ≡ 0)
      × (s'.max_pid ≡ s.max_pid)
unfolding retire
total-retire pid n s hp hn on base =
    let mine : StrideEntry = record (s.entries pid) { full = 0; is_stride = 0 } in
    let t : ℕ → StrideEntry = update s.entries pid mine in
    let base' : StrideEntry = record (t 0) { share = sub32 100 (sub32 s.max_sum (t pid).share) } in
    ground (arith, total-update n pid s.entries mine, total-update n 0 t base')

-- The end of a process gives its share back, and keeps the books right; a process without a share
-- changes nothing.
pub retire-IsBooked :
    (pid n : ℕ) (s : StrideTable)
    → 0 < pid
    → pid < n
    → IsBooked n s
    → let s' = retire pid s in
      IsBooked n s'
      × ((s.entries pid).is_stride ≡ 1
          → (s'.max_sum + (s.entries pid).share ≡ s.max_sum) × ((s'.entries pid).full ≡ 0))
      × ((s.entries pid).is_stride ≢ 1 → s' ≡ s)
retire-IsBooked pid n s hp hn v = elim (Bool-cases ((s.entries pid).is_stride == 1)) [
  | inl on ↦
      let on' : (s.entries pid).is_stride ≡ 1 = ground arith in
      let (t, m, r, b, f, z) = total-retire pid n s hp hn on' v.base in
      let back : (retire pid s).max_sum + (s.entries pid).share ≡ s.max_sum =
        omega (arith, t, m, v.booked, v.limit) in
      (
        record {
          booked = omega (arith, t, m, v.booked, v.limit);
          limit = omega (arith, back, v.limit);
          rest = omega (arith, back, r, v.limit);
          base = b;
          pids = omega (arith, z, v.pids);
        },
        (λ _. (back, f)),
        (λ off. absurd (off on')),
      )
  | inr off ↦
      let same = retire_off pid s off in rw same (v, (λ on. absurd (ground arith)), (λ _. refl))
]
  where
    retire_off :
        (pid : ℕ) (s : StrideTable) → ((s.entries pid).is_stride == 1) ≡ false → retire pid s ≡ s
    retire_off pid s h = unfold retire in rw h

-- A process with the share `a` that asks again, for `b`, and ends: its old share stays booked in
-- `max_sum`, though no entry holds it any more.
pub set_table_twice_leaks :
    (a b pid proc n : ℕ) (s : StrideTable)
    → 0 < pid
    → pid < n
    → (s.entries pid).is_stride ≡ 1
    → (s.entries pid).share ≡ a
    → b < 2 ^ 31 - 80
    → s.max_sum + b ≤ 80
    → IsBooked n s
    → let s' = retire pid (set_table b pid proc s) in
      (s'.max_sum ≡ s.max_sum) × (s'.max_sum ≡ total n s'.entries + a)
set_table_twice_leaks a b pid proc n s hp hn on share hb room v =
    let s₁ : StrideTable = set_table b pid proc s in
    let g = set_table-Granted b pid proc s (ground (arith, v.pids)) (ground arith) in
    let (m, o, _, z, _, _) = Granted-mine b pid proc s s₁ hp g in
    let (t, k, _, _, _, _) = total-retire pid n s₁ hp hn o (z ∙ v.base) in
    let held_now : held (s.entries pid) ≡ a = ground arith in
    let sum = total-Granted b pid proc n s s₁ hp hn v.base g in
    (omega (arith, k, m, g.sum), omega (arith, k, m, t, g.sum, sum, held_now, v.booked))

stride_bad :
    (d : ℕ) (s : StrideTable)
    → ((s.entries d).share ≡ 0) ⊎ ((2 ^ 31 ≤ (s.entries d).share) × ((s.entries d).share < 2 ^ 32))
    → stride d s ≡ none
unfolding stride
stride_bad d s h = ground arith

-- A share of 0 and every negative one is granted while the books are right, and the call returns it;
-- then the scheduler's next `stride` on the entry divides by zero or panics.
pub bad_share_faults :
    (input pid proc n : ℕ) (s : StrideTable)
    → 0 < pid
    → (input ≡ 0) ⊎ ((2 ^ 31 ≤ input) × (input < 2 ^ 32))
    → IsBooked n s
    → let (r, s') = set_cpu_share input pid proc s in
      (r ≡ some input)
      × ((s'.entries pid).full ≡ 1)
      × ((s'.entries pid).path ≡ 0)
      × (stride pid s' ≡ none)
unfolding set_cpu_share
bad_share_faults input pid proc n s hp hi v =
    let g = set_table-Granted input pid proc s (ground (arith, v.pids)) (ground (arith, v.limit)) in
    let (m, _, _, _, f, p) = Granted-mine input pid proc s (set_table input pid proc s) hp g in
    (returned m, f, p, stride_bad pid (set_table input pid proc s) (rw m hi))
  where
    returned :
        ((set_table input pid proc s).entries pid).share ≡ input
        → (set_cpu_share input pid proc s).0 ≡ some input
    returned m = unfold set_cpu_share in rw m (ground arith)
