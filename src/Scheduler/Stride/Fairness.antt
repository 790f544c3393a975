-- ===== src/Scheduler/Stride/Fairness.antt =====
-- How far the paths of the stride table drift apart.
use hyeonseung_os.Base.{
  ℕ, false, ◌==◌, update, add32, lt_int, ◌+◌, ◌/◌, ◌%◌, ◌^◌, ◌≤◌, ◌<◌, ◌≡◌, ◌≢◌, arith, ◌∙◌, sym,
  Option, some, ℕ_discrete,
}
use hyeonseung_os.Scheduler.{StrideTable}
use hyeonseung_os.Scheduler.Stride.{path_cal, stride}
use hyeonseung_os.Scheduler.Stride.Pick.{Cand, path_cal_least}

-- One choice of the scheduler: `result = path_cal(); p = stride(result)`.
unfoldable pub round : StrideTable → Option (ℕ × StrideTable)
round s = stride (path_cal s) s

abbrev pub pass : StrideTable → ℕ → ℕ
pass s i = (s.entries i).path

abbrev pub step : StrideTable → ℕ → ℕ
step s i = 10000 / (s.entries i).share

-- No entry is ahead of another by more than its own step.
pub record IsSpread (s : StrideTable) : Type 0 where
  pub small : (i : ℕ) → i ≤ s.max_pid → Cand s i → pass s i < 2 ^ 30
  pub ahead :
      (i j : ℕ)
      → i ≤ s.max_pid
      → j ≤ s.max_pid
      → Cand s i
      → Cand s j
      → pass s i ≤ pass s j + step s i

step-le : (s : StrideTable) (i : ℕ) → step s i ≤ 10000
step-le s i = grind arith

-- What `stride` does to an entry, if it returns.
pub record Advanced (d : ℕ) (s s' : StrideTable) : Type 0 where
  pub mine : pass s' d ≡ (pass s d + step s d) % 2 ^ 32
  pub others : (j : ℕ) → j ≢ d → s'.entries j ≡ s.entries j
  pub shares : (j : ℕ) → step s' j ≡ step s j
  pub full : (j : ℕ) → (s'.entries j).full ≡ (s.entries j).full
  pub size : s'.max_pid ≡ s.max_pid

pub stride-Advanced :
    (d : ℕ) (s s' : StrideTable) (p : ℕ) → stride d s ≡ some (p, s') → Advanced d s s'
unfolding stride
stride-Advanced d s s' p e = record {
  mine = ground arith;
  others = λ j ne. ground arith;
  shares = λ j. ground arith;
  full = λ j. ground arith;
  size = ground arith;
}

-- A share that is positive as an `int` lets `stride` return.
pub stride_runs :
    (d : ℕ) (s : StrideTable)
    → 0 < (s.entries d).share
    → (s.entries d).share < 2 ^ 31
    → (t : StrideTable) × (stride d s ≡ some ((s.entries d).proc, t))
unfolding stride
stride_runs d s nz pos =
    let e = s.entries d in
    let plus : lt_int e.share 0 ≡ false = ground arith in
    let some_share : (e.share == 0) ≡ false = ground arith in
    (
      record s {
        entries = update s.entries d (record e { path = add32 e.path (10000 / e.share) });
      },
      simp (plus, some_share),
    )

-- Advancing an entry of least path by its own step keeps the paths together.
advance_ahead :
    (s s' : StrideTable) (d : ℕ)
    → IsSpread s
    → d ≤ s.max_pid
    → Cand s d
    → ((j : ℕ) → j ≤ s.max_pid → Cand s j → pass s d ≤ pass s j)
    → Advanced d s s'
    → (i j : ℕ) → i ≤ s.max_pid
    → j ≤ s.max_pid
    → Cand s i
    → Cand s j
    → pass s' i ≤ pass s' j + step s' i
advance_ahead s s' d v hd cd least a i j hi hj ci cj = elim (ℕ_discrete i d) [
  | yes ei ↦ elim (ℕ_discrete j d) [
    | yes ej ↦ ground (arith, a.mine)
    | no nj ↦
        ground
          (arith, a.mine, a.others j nj, a.shares i, least j hj cj, v.small d hd cd, step-le s d)
  ]
  | no ni ↦ elim (ℕ_discrete j d) [
    | yes ej ↦ ground (
      arith,
      a.mine,
      a.others i ni,
      a.shares i,
      v.ahead i d hi hd ci cd,
      v.small d hd cd,
      step-le s d,
    )
    | no nj ↦ ground (arith, a.others i ni, a.others j nj, a.shares i, v.ahead i j hi hj ci cj)
  ]
]

Cand-Advanced : (d : ℕ) (s s' : StrideTable) (i : ℕ) → Advanced d s s' → Cand s' i → Cand s i
Cand-Advanced d s s' i a (f, n, m) = (sym (a.full i) ∙ f, n, m)

-- While every path is below 2^30 and some entry may be picked, a round of the scheduler that returns
-- advances an entry of least path and no other, and keeps the table spread: none gets ahead of
-- another by more than its own step, 10000 divided by its share.
pub round-IsSpread :
    (s s' : StrideTable) (i p : ℕ)
    → i ≤ s.max_pid
    → Cand s i
    → IsSpread s
    → round s ≡ some (p, s')
    → ((j : ℕ) → j ≤ s.max_pid → Cand s j → pass s (path_cal s) ≤ pass s j)
      × ((j : ℕ) → j ≢ path_cal s → s'.entries j ≡ s.entries j)
      × (pass s' (path_cal s) ≡ pass s (path_cal s) + step s (path_cal s))
      × ((j k : ℕ)
          → j ≤ s'.max_pid
          → k ≤ s'.max_pid
          → Cand s' j
          → Cand s' k
          → pass s' j ≤ pass s' k + step s' j)
unfolding round
round-IsSpread s s' i p hi ci v e =
    let d : ℕ = path_cal s in
    let (hd, cd, least, _) = path_cal_least s i hi ci (omega (arith, v.small i hi ci)) in
    let a = stride-Advanced d s s' p e in
    let lowest : (j : ℕ) → j ≤ s.max_pid → Cand s j → pass s d ≤ pass s j =
      λ j hj cj. omega (arith, least j hj cj, v.small j hj cj, v.small d hd cd) in
    (
      lowest,
      a.others,
      omega (arith, a.mine, v.small d hd cd, step-le s d),
      λ j k hj hk cj ck.
          advance_ahead s s' d v hd cd lowest a j k (rw a.size at hj) (rw a.size at hk)
            (Cand-Advanced d s s' j a cj) (Cand-Advanced d s s' k a ck),
    )
