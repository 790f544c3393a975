-- ===== src/Scheduler/Mlfq/Dormant.antt =====
-- What the feedback queue does from the state in which the kernel starts.
use hyeonseung_os.Base.{
  ℕ, ◌%◌, ◌≡◌, inl, inr, refl, List, [], ◌∷◌, Option, none, some, ◌>>=◌, arith, ◌==◌, add32,
  Bool-cases,
}
use hyeonseung_os.Process.{Table}
use hyeonseung_os.Scheduler.Mlfq.{
  Mlfq, mlfq_in, mlfq_out, mlfq_pick, boost, boost_all, try_level, or_next, chosen, boot_mlfq,
}

-- Every level is empty, with a null head.
abbrev pub IsDormant : Mlfq → Type 0
IsDormant m = (i : ℕ) → ((m.levels i).size ≡ 0) × ((m.levels i).head ≡ 0)

pub in-dormant :
    (p pid level code : ℕ) (m : Mlfq) → IsDormant m → mlfq_in p pid level code m ≡ some m
unfolding mlfq_in
in-dormant p pid level code m d = ground (arith, d level)

pub out-dormant :
    (p pid level code : ℕ) (m : Mlfq) → IsDormant m → mlfq_out p pid level code m ≡ some m
unfolding mlfq_out
out-dormant p pid level code m d = ground (arith, d level)

boost_all-dormant : (pt : Table) (m : Mlfq) → IsDormant m → boost_all pt m ≡ some m
unfolding boost_all boost
boost_all-dormant pt m d = rw ((d 1).0, boost, (d 2).0, boost)

try_level-dormant :
    (pt : Table) (i : ℕ) (m : Mlfq) → IsDormant m → try_level pt i m ≡ some (none, m)
unfolding try_level
try_level-dormant pt i m d = rw ((d i).0)

-- One tick of the clock of `MLFQ`, and nothing else.
abbrev pub ticked : Mlfq → Mlfq
ticked m = record m { tick = add32 m.tick 1 }

no_turn :
    (pt : Table) (m : Mlfq)
    → IsDormant m
    → (do
      r₀ ← try_level pt 0 m
      r₁ ← or_next r₀ (try_level pt 1)
      r₂ ← or_next r₁ (try_level pt 2)
      some (chosen r₂))
      ≡ some (0, m)
unfolding or_next chosen
no_turn pt m d =
    rw (try_level-dormant pt 0 m d, try_level-dormant pt 1 m d, try_level-dormant pt 2 m d)

pub pick-dormant : (pt : Table) (m : Mlfq) → IsDormant m → mlfq_pick pt m ≡ some (0, ticked m)
unfolding mlfq_pick or_next chosen
pick-dormant pt m d = elim (Bool-cases ((ticked m).tick % 100 == 0)) [
  | inl e ↦ rw (e, boost_all-dormant pt (ticked m) d) (no_turn pt (ticked m) d)
  | inr e ↦ rw e (no_turn pt (ticked m) d)
]

-- The calls that the scheduler and `MLFQ` itself make, with their arguments.
pub data Call : Type 0 where
  ins : ℕ → ℕ → ℕ → ℕ → Call
  outs : ℕ → ℕ → ℕ → ℕ → Call
  picks : Table → Call

-- The processes that the calls of `MLFQ` return, 0 for none, and the queues at the end.
pub run : List Call → Mlfq → Option (List ℕ × Mlfq)
run [] m = some ([], m)
run (ins p pid level code ∷ cs) m = mlfq_in p pid level code m >>= run cs
run (outs p pid level code ∷ cs) m = mlfq_out p pid level code m >>= run cs
run (picks pt ∷ cs) m = do (q, m') ← mlfq_pick pt m; (qs, m'') ← run cs m'; some (q ∷ qs, m'')

abbrev pub AllZero : List ℕ → Type 0
AllZero [] = Unit {0}
AllZero (q ∷ qs) = (q ≡ 0) × AllZero qs

pub boot_mlfq-IsDormant : IsDormant boot_mlfq
unfolding boot_mlfq
boot_mlfq-IsDormant i = ground arith

dormant_run :
    (cs : List Call) (m : Mlfq)
    → IsDormant m
    → (qs : List ℕ) × (m' : Mlfq) × (run cs m ≡ some (qs, m'))
      × AllZero qs
      × (m'.levels ≡ m.levels)
      × (m'.nodes ≡ m.nodes)
unfolding run
dormant_run [] m d = ([], m, refl, tt, refl, refl)
dormant_run (ins p pid level code ∷ cs) m d =
    rw (in-dormant p pid level code m d) (dormant_run cs m d)
dormant_run (outs p pid level code ∷ cs) m d =
    rw (out-dormant p pid level code m d) (dormant_run cs m d)
dormant_run (picks pt ∷ cs) m d =
    let (qs, m', e, z, l, n) = dormant_run cs (ticked m) d in
    (0 ∷ qs, m', rw (pick-dormant pt m d, e), (refl, z), l, n)

-- From the state in which the kernel starts no sequence of calls ever puts a process into a queue:
-- `MLFQ_in` returns at once, since the head of an empty level is null. No call faults, every call of
-- `MLFQ` returns 0, and the levels and the nodes stay as they were.
pub mlfq_never_fills :
    (cs : List Call)
    → (qs : List ℕ) × (m : Mlfq) × (run cs boot_mlfq ≡ some (qs, m))
      × AllZero qs
      × (m.levels ≡ boot_mlfq.levels)
      × (m.nodes ≡ boot_mlfq.nodes)
mlfq_never_fills cs = dormant_run cs boot_mlfq boot_mlfq-IsDormant
