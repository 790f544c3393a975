-- ===== src/Scheduler/Stride/Shares.antt =====
-- The CPU shares that `set_table` hands out.
use hyeonseung_os.Base.{
  ℕ, zero, suc, ◌+◌, ◌-◌, ◌≤◌, ◌<◌, ◌≡◌, inl, inr, refl, sym, ap, true, false, arith, ◌==◌, lt_int,
  if◌then◌else◌, add32, sub32, update, update_self, update_ne, ℕ_discrete, Bool-cases,
  for_range-update,
}
use hyeonseung_os.Scheduler.{StrideEntry, StrideTable}
use hyeonseung_os.Scheduler.Stride.{set_table, reset_paths, nstride}

-- The share that an entry holds.
abbrev pub held : StrideEntry → ℕ
held e = if e.is_stride == 1 then e.share else 0

unfoldable pub total : ℕ → (ℕ → StrideEntry) → ℕ
total zero t = 0
total (suc n) t = held (t n) + total n t

total-ext :
    (n : ℕ) (t t' : ℕ → StrideEntry) → ((i : ℕ) → held (t i) ≡ held (t' i)) → total n t ≡ total n t'
unfolding total
total-ext zero t t' h = refl
total-ext (suc n) t t' h = omega (arith, h n, total-ext n t t' h)

total-update_out :
    (n i : ℕ) (t : ℕ → StrideEntry) (e : StrideEntry) → n ≤ i → total n (update t i e) ≡ total n t
unfolding total
total-update_out zero i t e h = refl
total-update_out (suc n) i t e h =
    ground (arith, total-update_out n i t e (omega arith), update_ne t i e n (omega arith))

pub total-update :
    (n i : ℕ) (t : ℕ → StrideEntry) (e : StrideEntry)
    → i < n
    → total n (update t i e) + held (t i) ≡ total n t + held e
unfolding total
total-update zero i t e h = elim h [ ]
total-update (suc n) i t e h = elim (ℕ_discrete i n) [
  | yes same ↦ omega (
    arith,
    total-update_out n i t e (omega arith),
    ap (λ k. held (update t i e k)) (sym same),
    ap held (update_self t i e),
    ap (λ k. held (t k)) same,
  )
  | no other ↦
      omega (arith, total-update n i t e (omega arith), ap held (update_ne t i e n (omega arith)))
]

reset_paths-held : (m : ℕ) (t : ℕ → StrideEntry) (j : ℕ) → held (reset_paths m t j) ≡ held (t j)
unfolding reset_paths
reset_paths-held m t j =
    rw (for_range-update (λ (e : StrideEntry). record e { path = 0 }) m 0 t j) (ground arith)

pub reset_paths-share :
    (m : ℕ) (t : ℕ → StrideEntry) (j : ℕ)
    → ((reset_paths m t j).share ≡ (t j).share)
      × ((reset_paths m t j).is_stride ≡ (t j).is_stride)
      × ((reset_paths m t j).full ≡ (t j).full)
      × ((t j).path ≡ 0 → (reset_paths m t j).path ≡ 0)
unfolding reset_paths
reset_paths-share m t j =
    rw (for_range-update (λ (e : StrideEntry). record e { path = 0 }) m 0 t j) (ground arith)

-- What `set_table` books: the sum of the shares held by the entries below `n`, at most 80, and the
-- rest of 100 for the processes without a share.
pub record IsBooked (n : ℕ) (s : StrideTable) : Type 0 where
  pub booked : s.max_sum ≡ total n s.entries
  pub limit : s.max_sum ≤ 80
  pub rest : (s.entries 0).share ≡ 100 - s.max_sum
  pub base : (s.entries 0).is_stride ≡ 0
  pub pids : s.max_pid < nstride

-- The entries once `set_table` has written the two of them, before it resets paths.
abbrev pub granted_entries : ℕ → ℕ → ℕ → StrideTable → ℕ → StrideEntry
granted_entries input pid proc s =
    let base : StrideEntry = record (s.entries 0) { share = sub32 100 (add32 s.max_sum input) } in
    let t : ℕ → StrideEntry = update s.entries 0 base in
    update t pid
      (record (t pid) { share = input; pid = pid; full = 1; path = 0; proc = proc; is_stride = 1 })

-- What `set_table` returns: the same table, or one with the entries above.
pub record Granted (input pid proc : ℕ) (s s' : StrideTable) : Type 0 where
  pub sum : s'.max_sum ≡ add32 s.max_sum input
  pub size : s'.max_pid ≡ (if lt_int s.max_pid pid then pid else s.max_pid)
  pub entries : s'.entries ≡ reset_paths s'.max_pid (granted_entries input pid proc s)

pub set_table-Granted :
    (input pid proc : ℕ) (s : StrideTable)
    → lt_int (nstride - 1) s.max_pid ≡ false
    → lt_int 80 (add32 s.max_sum input) ≡ false
    → Granted input pid proc s (set_table input pid proc s)
unfolding set_table
set_table-Granted input pid proc s h k =
    rw (h, k) (record { sum = refl; size = refl; entries = refl })

pub set_table-refused :
    (input pid proc : ℕ) (s : StrideTable)
    → lt_int 80 (add32 s.max_sum input) ≡ true
    → set_table input pid proc s ≡ s
unfolding set_table
set_table-refused input pid proc s h = elim (Bool-cases (lt_int (nstride - 1) s.max_pid)) [
  | inl k ↦ rw k
  | inr k ↦ rw (k, h)
]

pub total-Granted :
    (input pid proc n : ℕ) (s s' : StrideTable)
    → 0 < pid
    → pid < n
    → (s.entries 0).is_stride ≡ 0
    → Granted input pid proc s s'
    → total n s'.entries + held (s.entries pid) ≡ total n s.entries + input
total-Granted input pid proc n s s' hp hn base g =
    let base' : StrideEntry = record (s.entries 0) { share = sub32 100 (add32 s.max_sum input) } in
    let t : ℕ → StrideEntry = update s.entries 0 base' in
    let mine : StrideEntry = record (t pid) {
      share = input;
      pid = pid;
      full = 1;
      path = 0;
      proc = proc;
      is_stride = 1;
    } in
    ground (
      arith,
      ap (total n) g.entries,
      total-ext n (reset_paths s'.max_pid (update t pid mine)) (update t pid mine)
          (reset_paths-held s'.max_pid (update t pid mine)),
      total-update n pid t mine,
      total-update n 0 s.entries base',
      ap held (update_ne s.entries 0 base' pid (omega arith)),
    )
