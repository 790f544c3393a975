-- ===== src/Scheduler/Turn/Choice.antt =====
-- Whom the scheduler runs.
use hyeonseung_os.Base.{
  ℕ, zero, suc, ◌^◌, ◌≤◌, ◌<◌, ◌≡◌, ◌≢◌, refl, sym, ap, ◌∙◌, ◌⊎◌, inl, inr, true, false, not, some,
  arith, ◌==◌, ltb, Bool-cases, ℕ_discrete,
}
use hyeonseung_os.Process.{Table, is_runnable}
use hyeonseung_os.Scheduler.{StrideTable}
use hyeonseung_os.Scheduler.Stride.{path_cal, int_max}
use hyeonseung_os.Scheduler.Stride.Pick.{Cand, key, path_key, path_cal_least}
use hyeonseung_os.Scheduler.Stride.Fairness.{stride_runs, Advanced, stride-Advanced}
use hyeonseung_os.Scheduler.Mlfq.Dormant.{IsDormant, pick-dormant, ticked}
use hyeonseung_os.Scheduler.Turn.{Kernel, pid_of, choose, start, charged, run_slot, visit}
use hyeonseung_os.Scheduler.Turn.Idle.{admit-dormant, sort_out-Sorted}

-- Every entry that may be picked has a share, and a process but for entry 0, which may be picked.
pub record IsStaffed (s : StrideTable) : Type 0 where
  pub share : (j : ℕ) → j ≤ s.max_pid → Cand s j → 0 < (s.entries j).share
  pub positive : (j : ℕ) → j ≤ s.max_pid → Cand s j → (s.entries j).share < 2 ^ 31
  pub proc : (j : ℕ) → j ≤ s.max_pid → Cand s j → j ≢ 0 → (s.entries j).proc ≢ 0
  pub base : (s.entries 0).full ≡ 1
  pub low : path_key s 0 < key int_max

-- The choice at slot `i`.
record Choice (i : ℕ) (s : Kernel) (k : ℕ) (s' : Kernel) : Type 0 where
  advanced : Advanced (path_cal s.strides) s.strides s'.strides
  dormant : IsDormant s'.queues
  procs : s'.procs ≡ s.procs
  whose :
      ((path_cal s.strides ≡ 0) × (k ≡ i))
      ⊎ ((path_cal s.strides ≢ 0) × ((s.strides.entries (path_cal s.strides)).proc ≡ suc k))

choose-Choice :
    (i : ℕ) (s : Kernel)
    → IsDormant s.queues
    → IsStaffed s.strides
    → 2 < pid_of i s
    → (k : ℕ) × (s' : Kernel) × (choose i s ≡ some (k, s')) × Choice i s k s'
unfolding choose
choose-Choice i s d st h =
    let r = path_cal s.strides in
    let (low, cand, _, _) =
      path_cal_least s.strides 0 (omega arith)
        (st.base, (λ e. omega (arith, e)), (λ e. omega (arith, e))) st.low in
    let (t, e) = stride_runs r s.strides (st.share r low cand) (st.positive r low cand) in
    let adv = stride-Advanced r s.strides t _ e in
    let later : not (ltb 2 (pid_of i s)) ≡ false = ground arith in
    elim (ℕ_discrete r 0) [
      | yes z ↦
          let zero_is : (r == 0) ≡ true = ground arith in
          (
            i,
            record s { strides = t; queues = ticked s.queues },
            simp (later, zero_is, e, pick-dormant s.procs s.queues d),
            record { advanced = adv; dormant = d; procs = refl; whose = inl (z, refl) },
          )
      | no nz ↦
          let other : (r == 0) ≡ false = ground arith in
          let (k, p) = pointer (s.strides.entries r).proc (st.proc r low cand nz) in
          (
            k,
            record s { strides = t },
            simp (later, other, e, p),
            record { advanced = adv; dormant = d; procs = refl; whose = inr (nz, p) },
          )
    ]
  where
    pointer : (p : ℕ) → p ≢ 0 → (k : ℕ) × (p ≡ suc k)
    pointer zero nz = absurd (nz refl)
    pointer (suc k) nz = (k, refl)

-- A visit of a runnable process with a number above 2 does not fault, while the queues are as they are
-- from the start, an entry that may be picked has a positive share and its process, and what runs leaves
-- the queues so: it advances the entry of least path; the loop goes on after the slot itself if this is
-- entry 0, and else after the slot of the entry's process; and the process there runs if it is runnable,
-- and else none does, whichever process it was that the visit was for.
pub visit_lem :
    (i before after : ℕ) (ran : Kernel → Kernel) (s : Kernel)
    → IsDormant s.queues
    → IsStaffed s.strides
    → ((t : Kernel) → IsDormant t.queues → IsDormant (ran t).queues)
    → is_runnable (s.procs i).state ≡ true
    → 2 < pid_of i s
    → (k : ℕ) × (s' : Kernel) × (s₂ : Kernel) × (visit i ran before after s ≡ some (k, s'))
      × IsDormant s'.queues
      × ((j : ℕ)
          → j ≤ s.strides.max_pid
          → Cand s.strides j
          → path_key s.strides (path_cal s.strides) ≤ path_key s.strides j)
      × Advanced (path_cal s.strides) s.strides s₂.strides
      × (s₂.procs ≡ s.procs)
      × (((path_cal s.strides ≡ 0) × (k ≡ i))
          ⊎ ((path_cal s.strides ≢ 0) × ((s.strides.entries (path_cal s.strides)).proc ≡ suc k)))
      × (((is_runnable (s.procs k).state ≡ true) × (s'.procs ≡ (ran (start k before s₂)).procs))
          ⊎ ((is_runnable (s.procs k).state ≡ false) × (s' ≡ s₂)))
unfolding visit run_slot start
visit_lem i before after ran s d st keeps run h =
    let a = admit-dormant i s d in
    let (k, s₂, e, c) = choose-Choice i s d st h in
    let (_, _, least, _) =
      path_cal_least s.strides 0 (omega arith)
        (st.base, (λ e. omega (arith, e)), (λ e. omega (arith, e))) st.low in
    let same : is_runnable (s₂.procs k).state ≡ is_runnable (s.procs k).state =
      ap (λ (t : Table). is_runnable (t k).state) c.procs in
    elim (Bool-cases (is_runnable (s₂.procs k).state)) [
      | inl y ↦
          let (s', es, ds, ps) =
            sort_out-Sorted k (charged k after (ran (start k before s₂)))
              (keeps (start k before s₂) c.dormant) in
          (
            k,
            s',
            s₂,
            simp (run, a, e, y, es),
            ds,
            least,
            c.advanced,
            c.procs,
            c.whose,
            inl (sym same ∙ y, ps),
          )
      | inr n ↦ (
        k,
        s₂,
        s₂,
        simp (run, a, e, n),
        c.dormant,
        least,
        c.advanced,
        c.procs,
        c.whose,
        inr (sym same ∙ n, refl),
      )
    ]
