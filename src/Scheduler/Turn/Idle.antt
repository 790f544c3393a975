-- ===== src/Scheduler/Turn/Idle.antt =====
-- What the loop of `scheduler` does to queues that are empty.
use hyeonseung_os.Base.{
  ℕ, suc, ◌+◌, ◌≡◌, refl, Bool, true, false, not, ◌&&◌, Option, some, ◌==◌, ltb, if◌then◌else◌,
  lt_int,
}
use hyeonseung_os.Process.{is_zombie}
use hyeonseung_os.Scheduler.Stride.{retire}
use hyeonseung_os.Scheduler.Mlfq.{Node}
use hyeonseung_os.Scheduler.Mlfq.Dormant.{IsDormant, in-dormant, out-dormant}
use hyeonseung_os.Scheduler.Turn.{Kernel, pid_of, node_of, admit, leave_queue, demote, sort_out}

if-same : {A : Type 0} {x y z : A} (b : Bool) → x ≡ z → y ≡ z → (if b then x else y) ≡ z
if-same true p q = p
if-same false p q = q

pub admit-dormant : (i : ℕ) (s : Kernel) → IsDormant s.queues → admit i s ≡ some s
unfolding admit
admit-dormant i s d =
    if-same
      ((node_of i s).is_mlfq == 0
        && (s.strides.entries (pid_of i s)).is_stride == 0
        && ltb 2 (pid_of i s))
      (rw (in-dormant (suc i) (pid_of i s) 0 0 s.queues d) refl) refl

leave-dormant : (k : ℕ) (s : Kernel) → IsDormant s.queues → leave_queue k s ≡ some s
leave-dormant k s d = rw (out-dormant (suc k) (pid_of k s) (node_of k s).lev 0 s.queues d) refl

demote-dormant : (k : ℕ) (s : Kernel) → IsDormant s.queues → demote k s ≡ some s
demote-dormant k s d =
    let x = (node_of k s).lev in
    if-same (x == 2) refl (
      rw
        (
          out-dormant (suc k) (pid_of k s) x 0 s.queues d,
          in-dormant (suc k) (pid_of k s) (x + 1) 0 s.queues d,
        )
        refl)

-- What follows the run changes no queue, and of the processes nothing.
abbrev pub Sorted : Kernel → Option Kernel → Type 0
Sorted s r = (s' : Kernel) × (r ≡ some s') × IsDormant s'.queues × (s'.procs ≡ s.procs)

Sorted-if :
    (s : Kernel) {x y : Option Kernel} (b : Bool)
    → Sorted s x
    → Sorted s y
    → Sorted s (if b then x else y)
Sorted-if s true p q = p
Sorted-if s false p q = q

pub sort_out-Sorted : (k : ℕ) (s : Kernel) → IsDormant s.queues → Sorted s (sort_out k s)
unfolding sort_out
sort_out-Sorted k s d =
    let n : Node = node_of k s in
    let gone : Kernel = record s { strides = retire (pid_of k s) s.strides } in
    let over : Bool = not (lt_int n.sum_tick (s.queues.levels n.lev).able_tick) in
    Sorted-if s (is_zombie (s.procs k).state)
      (Sorted-if s (n.is_mlfq == 1) (gone, leave-dormant k gone d, d, refl) (gone, refl, d, refl))
      (Sorted-if s (n.is_mlfq == 1 && (s.strides.entries (pid_of k s)).is_stride == 1)
        (s, leave-dormant k s d, d, refl)
        (Sorted-if s (n.is_mlfq == 1 && over) (s, demote-dormant k s d, d, refl)
          (s, refl, d, refl)))
