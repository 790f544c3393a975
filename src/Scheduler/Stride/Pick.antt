-- ===== src/Scheduler/Stride/Pick.antt =====
-- Whom `path_cal` picks.
use hyeonseung_os.Base.{
  ℕ, ◌+◌, ◌%◌, ◌^◌, ◌≤◌, ◌<◌, ◌≡◌, ◌≢◌, ◌⊎◌, inl, inr, refl, Bool, not, ◌&&◌, ◌||◌, arith, ◌==◌,
  lt_int, for_range, for_range_inv, ℕ_discrete, Bool-cases,
}
use hyeonseung_os.Scheduler.{StrideTable}
use hyeonseung_os.Scheduler.Stride.{Best, consider, path_cal, int_max}

-- The entries that the loop looks at: full, and not those of init and the shell.
abbrev pub Cand : StrideTable → ℕ → Type 0
Cand s i = ((s.entries i).full ≡ 1) × (i ≢ 1) × (i ≢ 2)

-- `int` values in their order.
abbrev pub key : ℕ → ℕ
key x = (x + 2 ^ 31) % 2 ^ 32

abbrev pub path_key : StrideTable → ℕ → ℕ
path_key s i = key (s.entries i).path

record Chosen (s : StrideTable) (i : ℕ) (b : Best) : Type 0 where
  minimum : b.minimum ≡ (s.entries b.destination).path
  cand : Cand s b.destination
  seen : b.destination < i
  first : (j : ℕ) → j < b.destination → Cand s j → key b.minimum < path_key s j

record Scan (s : StrideTable) (i : ℕ) (b : Best) : Type 0 where
  least : (j : ℕ) → j < i → Cand s j → key b.minimum ≤ path_key s j
  origin : ((b.minimum ≡ int_max) × (b.destination ≡ 0)) ⊎ Chosen s i b

consider_skips :
    (s : StrideTable) (i : ℕ) (b : Best)
    → (Cand s i → key b.minimum ≤ path_key s i)
    → consider s i b ≡ b
unfolding consider
consider_skips s i b h = ground arith

consider_takes :
    (s : StrideTable) (i : ℕ) (b : Best)
    → Cand s i
    → path_key s i < key b.minimum
    → consider s i b ≡ record { minimum = (s.entries i).path; destination = i }
unfolding consider
consider_takes s i b c h = ground arith

consider-Scan : (s : StrideTable) (i : ℕ) (b : Best) → Scan s i b → Scan s (i + 1) (consider s i b)
consider-Scan s i b v =
    let test : Bool = (s.entries i).full == 1 && lt_int (s.entries i).path b.minimum in
    elim (Bool-cases (test && not (i == 1 || i == 2))) [
      | inl t ↦
          let c : Cand s i = ground arith in
          let below : path_key s i < key b.minimum = ground arith in
          rw (consider_takes s i b c below) (record {
            least = λ j hj cj. elim (ℕ_discrete j i) [
              | yes e ↦ ground arith
              | no ne ↦ omega (arith, v.least j (omega arith) cj)
            ];
            origin = inr (record {
              minimum = refl;
              cand = c;
              seen = omega arith;
              first = λ j hj cj. omega (arith, v.least j hj cj);
            });
          })
      | inr t ↦
          let above : Cand s i → key b.minimum ≤ path_key s i = λ c. ground arith in
          rw (consider_skips s i b above) (record {
            least = λ j hj cj. elim (ℕ_discrete j i) [
              | yes e ↦ rw e (above (rw e at cj))
              | no ne ↦ v.least j (omega arith) cj
            ];
            origin = elim v.origin [
              | inl o ↦ inl o
              | inr c ↦ inr (record {
                minimum = c.minimum;
                cand = c.cand;
                seen = omega (arith, c.seen);
                first = c.first;
              })
            ];
          })
    ]

-- If some entry up to `max_pid` may be picked and its path is below INT_MAX, `path_cal` returns such an
-- entry: one of least path among those up to `max_pid`, and of these the one of least number.
pub path_cal_least :
    (s : StrideTable) (i : ℕ)
    → i ≤ s.max_pid
    → Cand s i
    → path_key s i < key int_max
    → let d = path_cal s in
      (d ≤ s.max_pid)
      × Cand s d
      × ((j : ℕ) → j ≤ s.max_pid → Cand s j → path_key s d ≤ path_key s j)
      × ((j : ℕ) → j < d → Cand s j → path_key s d < path_key s j)
unfolding path_cal
path_cal_least s i hi c h = go done.origin
  where
    start : Best
    start = record { minimum = int_max; destination = 0 }

    best : Best
    best = for_range (s.max_pid + 1) 0 (consider s) start

    done : Scan s (s.max_pid + 1) best
    done =
        for_range_inv (Scan s) (consider s) (consider-Scan s) (s.max_pid + 1) 0 (s.max_pid + 1)
          start (omega arith)
          (record { least = λ j hj cj. absurd (omega arith); origin = inl (refl, refl) })

    go :
        ((best.minimum ≡ int_max) × (best.destination ≡ 0)) ⊎ Chosen s (s.max_pid + 1) best
        → (best.destination ≤ s.max_pid)
          × Cand s best.destination
          × ((j : ℕ) → j ≤ s.max_pid → Cand s j → path_key s best.destination ≤ path_key s j)
          × ((j : ℕ) → j < best.destination → Cand s j → path_key s best.destination < path_key s j)
    go (inl o) = absurd (ground (arith, done.least i (omega arith) c))
    go (inr b) = (
      omega (arith, b.seen),
      b.cand,
      (λ j hj cj. rw (← b.minimum) (done.least j (omega arith) cj)),
      (λ j hj cj. rw (← b.minimum) (b.first j hj cj)),
    )
