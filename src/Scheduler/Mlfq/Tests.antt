-- ===== src/Scheduler/Mlfq/Tests.antt =====
-- Runs of the feedback queue, and the theorem about its start at a concrete history.
use hyeonseung_os.Base.{ℕ, ◌≡◌, refl, List, [], ◌∷◌, Option, none, some, ◌>>=◌, update}
use hyeonseung_os.Scheduler.Mlfq.Dormant.{Call, ins, outs, run, AllZero, mlfq_never_fills}
use hyeonseung_os.Scheduler.Mlfq.{Node, Level, Mlfq, mlfq_in, mlfq_out, boot_mlfq}

-- Level 0 as it would be with process 3, in slot 2, alone in it.
abbrev one : Mlfq
one = record {
  nodes = update (λ i. blank) 3 (record blank { prev = 4; next = 4; proc = 3; is_mlfq = 1 });
  levels = update (λ i. empty) 0 (record empty { size = 1; head = 4; end = 4; able_tick = 5 });
  tick = 0;
}
  where
    blank : Node
    blank = record {
      my_tick = 0;
      sum_tick = 0;
      is_mlfq = 0;
      lev = 0;
      run = 0;
      prev = 0;
      next = 0;
      proc = 0;
    }

    empty : Level
    empty = record { able_tick = 0; rr_tick_limit = 0; rr_tick = 0; size = 0; head = 0; end = 0 }

abbrev size_of : Option Mlfq → Option ℕ
size_of none = none
size_of (some m) = some (m.levels 0).size

-- A ring that is not empty takes another node, and gives its head up.
joins_a_ring : size_of (mlfq_in 4 5 0 0 one) ≡ some 2
unfolding mlfq_in
joins_a_ring = refl

rotates : size_of (mlfq_in 4 5 0 0 one >>= mlfq_out 3 3 0 1) ≡ some 2
unfolding mlfq_in mlfq_out
rotates = refl

-- The last node of a level leaves it empty, and is not taken back.
drops_the_last : size_of (mlfq_out 3 3 0 1 one) ≡ some 0
unfolding mlfq_out
drops_the_last = refl

does_not_enter : size_of (mlfq_in 4 5 0 0 boot_mlfq) ≡ some 0
unfolding mlfq_in boot_mlfq
does_not_enter = refl

-- The scheduler puts processes 3 and 4 into level 0, and takes 3 out again.
abbrev history : List Call
history = ins 3 4 0 0 ∷ ins 4 5 0 0 ∷ outs 3 4 0 0 ∷ []

mlfq_never_fills_example :
    (qs : List ℕ) × (m : Mlfq) × (run history boot_mlfq ≡ some (qs, m))
    × AllZero qs
    × (m.levels ≡ boot_mlfq.levels)
    × (m.nodes ≡ boot_mlfq.nodes)
mlfq_never_fills_example = mlfq_never_fills history
