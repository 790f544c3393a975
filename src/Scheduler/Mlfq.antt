-- ===== src/Scheduler/Mlfq.antt =====
-- The multi-level feedback queue: `MLFQ_in`, `MLFQ_out` and `MLFQ` of proc.c. A `struct mlfq *` is 0 or
-- `suc pid` for `&mlfq[pid]`, a `struct proc *` 0 or `suc i` for slot `i` of the process table. A queue is
-- a ring of nodes from `head` to `end`.
pub mod Dormant
mod Tests
use hyeonseung_os.Base.{
  ℕ, zero, suc, ◌+◌, ◌-◌, ◌%◌, ◌^◌, Bool, true, false, not, ◌&&◌, ◌||◌, Option, none, some, ◌>>=◌,
  deref, ◌==◌, ltb, leb, if◌then◌else◌, update, add32, sub32, lt_int,
}
use hyeonseung_os.Process.{Proc, Table, is_runnable}

-- `struct mlfq`, less `spare_tick`, which nothing uses.
pub record Node : Type 0 where
  pub my_tick : ℕ
  pub sum_tick : ℕ
  pub is_mlfq : ℕ
  pub lev : ℕ
  pub run : ℕ
  pub prev : ℕ
  pub next : ℕ
  pub proc : ℕ

-- An element of `mlfq_lev`, less `next`, which nothing uses; `size` counts the nodes, so it is no word.
pub record Level : Type 0 where
  pub able_tick : ℕ
  pub rr_tick_limit : ℕ
  pub rr_tick : ℕ
  pub size : ℕ
  pub head : ℕ
  pub end : ℕ

-- `mlfq`, `mlfq_lev` and `tick_mlfq`.
pub record Mlfq : Type 0 where
  pub nodes : ℕ → Node
  pub levels : ℕ → Level
  pub tick : ℕ

-- The word that holds -1.
abbrev pub minus_one : ℕ
minus_one = 2 ^ 32 - 1

abbrev pub set_node : Mlfq → ℕ → Node → Mlfq
set_node m pid n = record m { nodes = update m.nodes pid n }

abbrev pub set_level : Mlfq → ℕ → Level → Mlfq
set_level m level l = record m { levels = update m.levels level l }

-- Stores through a node pointer.
abbrev pub set_prev : Mlfq → ℕ → ℕ → Option Mlfq
set_prev m p v = do i ← deref p; some (set_node m i (record (m.nodes i) { prev = v }))

abbrev pub set_next : Mlfq → ℕ → ℕ → Option Mlfq
set_next m p v = do i ← deref p; some (set_node m i (record (m.nodes i) { next = v }))

abbrev pub set_run : Mlfq → ℕ → ℕ → Option Mlfq
set_run m p v = do i ← deref p; some (set_node m i (record (m.nodes i) { run = v }))

-- `mlfq_lev[level].head->proc`
abbrev pub head_proc : Mlfq → ℕ → Option ℕ
head_proc m level = do i ← deref (m.levels level).head; some (m.nodes i).proc

-- The end of `MLFQ_in`: the node goes to the end of the ring.
link_in : ℕ → ℕ → Mlfq → Option Mlfq
link_in pid level m =
    let l : Level = m.levels level in
    let self : ℕ = suc pid in
    let alone : Mlfq =
      set_level (set_node m pid (record (m.nodes pid) { prev = self; next = self })) level
        (record l { head = self; end = self; size = l.size + 1 }) in
    let more : Option Mlfq = (do
      m₁ ← set_prev m self l.end
      m₂ ← set_next m₁ self l.head
      m₃ ← set_prev m₂ l.head self
      m₄ ← set_next m₃ l.end self
      some (set_level m₄ level (record l { end = self; size = l.size + 1 }))) in
    if l.size == 0 then some alone else more

-- `MLFQ_in(p, level, code)`, with the address and the number of `p`.
pub mlfq_in : ℕ → ℕ → ℕ → ℕ → Mlfq → Option Mlfq
unfolding link_in
mlfq_in p pid level code m =
    let l : Level = m.levels level in
    let n : Node = record (m.nodes pid) {
      my_tick = 0;
      sum_tick = 0;
      is_mlfq = 1;
      lev = level;
      proc = p;
    } in
    if l.head == 0 || l.end == 0
    then some m
    else link_in pid level (if code == 0 then set_node m pid n else m)

-- The middle of `MLFQ_out`: the head leaves a ring of two nodes or more.
unlink_head : ℕ → Mlfq → Option Mlfq
unlink_head level m = do
  let l = m.levels level
  i ← deref l.head
  let l' = record l { size = l.size - 1; head = (m.nodes i).next }
  m₁ ← set_next (set_level m level l') l.end l'.head
  set_prev m₁ l'.head l.end

-- The end of `MLFQ_out`.
retire_node : ℕ → ℕ → ℕ → ℕ → Mlfq → Option Mlfq
unfolding mlfq_in
retire_node p pid level code m =
    let gone : Node = record (m.nodes pid) {
      my_tick = 0;
      sum_tick = 0;
      next = 0;
      prev = 0;
      is_mlfq = minus_one;
      lev = minus_one;
      run = 0;
    } in
    let back : Node = record (m.nodes pid) { next = 0; prev = 0 } in
    if code == 0 then some (set_node m pid gone) else mlfq_in p pid level 1 (set_node m pid back)

-- `MLFQ_out(p, level, code)`.
pub mlfq_out : ℕ → ℕ → ℕ → ℕ → Mlfq → Option Mlfq
unfolding unlink_head retire_node
mlfq_out p pid level code m =
    let l : Level = m.levels level in
    let last : Level = record l { size = 0; end = 0; head = 0 } in
    let rest : Option Mlfq = unlink_head level m >>= retire_node p pid level code in
    if l.size == 0
    then some m
    else (if l.size == 1
        then retire_node p pid level code (set_level m level last)
        else (if l.head == 0 then some m else rest))

-- The process at the head of a level: its slot, if it is not null.
abbrev pub head_slot : Mlfq → ℕ → Option ℕ
head_slot m level = head_proc m level >>= deref

-- One round of the loop that moves a level to the top one; `pt` is the process table.
pub boost_one : Table → ℕ → Mlfq → Option Mlfq
unfolding mlfq_in mlfq_out
boost_one pt level m = do
  m₁ ← set_run m (m.levels level).head 0
  p ← head_proc m₁ level
  i ← deref p
  m₂ ← mlfq_out p (pt i).pid level 0 m₁
  mlfq_in p (pt i).pid 0 0 m₂

-- The loop itself, for `p` from 0 while it is below the size, which is read again in each round. The
-- fuel is the size at the start: no round makes the level larger.
pub boost : Table → ℕ → ℕ → ℕ → Mlfq → Option Mlfq
unfolding boost_one
boost pt level zero p m = some m
boost pt level (suc fuel) p m =
    let go : Option Mlfq = (do
      m' ← (if (m.levels level).head == 0 then some m else boost_one pt level m)
      boost pt level fuel (p + 1) m') in
    if ltb p (m.levels level).size then go else some m

-- The boost of every hundredth call.
pub boost_all : Table → Mlfq → Option Mlfq
unfolding boost
boost_all pt m = do m₁ ← boost pt 1 (m.levels 1).size 0 m; boost pt 2 (m₁.levels 2).size 0 m₁

-- One round of the loop that sends processes that cannot run to the end of their level.
pub rotate_one : Table → ℕ → Mlfq → Option Mlfq
unfolding mlfq_out
rotate_one pt level m = do
  p ← head_proc m level
  i ← deref p
  let later : Option Mlfq = (do
    m₁ ← set_run m (m.levels level).head 0
    mlfq_out p (pt i).pid level 1 m₁)
  if is_runnable (pt i).state then some m else later

pub rotate : Table → ℕ → ℕ → ℕ → Mlfq → Option Mlfq
unfolding rotate_one
rotate pt level zero p m = some m
rotate pt level (suc fuel) p m =
    let go : Option Mlfq = (do
      m' ← (if (m.levels level).head == 0 then some m else rotate_one pt level m)
      rotate pt level fuel (p + 1) m') in
    if ltb p (m.levels level).size then go else some m

-- The turn within a level: the head gives way if it has run and its quantum is over.
pub take_turn : Table → ℕ → Mlfq → Option (ℕ × Mlfq)
unfolding mlfq_out
take_turn pt level m = do
  h ← deref (m.levels level).head
  p ← head_proc m level
  i ← deref p
  m₁ ← set_run m (m.levels level).head 0
  let l = m.levels level
  let over : Bool = ltb 1 l.size && (m.nodes h).run == 1 && not (lt_int l.rr_tick l.rr_tick_limit)
  let m₂ : Mlfq = set_level m₁ level (record l { rr_tick = 0 })
  let next : Option Mlfq = mlfq_out p (pt i).pid level 1 m₂
  m₃ ← (if over then next else some m₁)
  m₄ ← set_run m₃ (m₃.levels level).head 1
  let l₄ = m₄.levels level
  let m₅ : Mlfq = set_level m₄ level (record l₄ { rr_tick = add32 l₄.rr_tick 1 })
  q ← head_proc m₅ level
  some (q, m₅)

-- The body of the loop over the levels of `MLFQ`: no result stands for `continue`.
pub try_level : Table → ℕ → Mlfq → Option (Option ℕ × Mlfq)
unfolding rotate take_turn
try_level pt level m =
    let busy : Option (Option ℕ × Mlfq) = (do
      m₁ ← rotate pt level (m.levels level).size 0 m
      i ← head_slot m₁ level
      let turn : Option (Option ℕ × Mlfq) = (do (q, m₂) ← take_turn pt level m₁; some (some q, m₂))
      if is_runnable (pt i).state then turn else some (none, m₁)) in
    if (m.levels level).size == 0 then some (none, m) else busy

-- The next level, unless one has returned.
pub or_next : Option ℕ × Mlfq → (Mlfq → Option (Option ℕ × Mlfq)) → Option (Option ℕ × Mlfq)
or_next (none, m) f = f m
or_next (some p, m) f = some (some p, m)

-- The result of `MLFQ`: 0 when no level has returned.
pub chosen : Option ℕ × Mlfq → ℕ × Mlfq
chosen (none, m) = (0, m)
chosen (some p, m) = (p, m)

-- `MLFQ()`: the address of the process to run, or 0.
pub mlfq_pick : Table → Mlfq → Option (ℕ × Mlfq)
unfolding boost_all try_level or_next chosen
mlfq_pick pt m = do
  let ticked : Mlfq = record m { tick = add32 m.tick 1 }
  let boosted : Option Mlfq = boost_all pt ticked
  m₁ ← (if ticked.tick % 100 == 0 then boosted else some ticked)
  r₀ ← try_level pt 0 m₁
  r₁ ← or_next r₀ (try_level pt 1)
  r₂ ← or_next r₁ (try_level pt 2)
  some (chosen r₂)

-- The queues as the kernel starts: `scheduler` sets the ticks (the limit of level 0 three times), all
-- else is zero.
pub boot_mlfq : Mlfq
boot_mlfq = record { nodes = λ i. node; levels = levels; tick = 0 }
  where
    node : Node
    node = record {
      my_tick = 0;
      sum_tick = 0;
      is_mlfq = 0;
      lev = 0;
      run = 0;
      prev = 0;
      next = 0;
      proc = 0;
    }

    level : Level
    level = record { able_tick = 0; rr_tick_limit = 0; rr_tick = 0; size = 0; head = 0; end = 0 }

    levels : ℕ → Level
    levels =
        update (update (λ i. level) 0 (record level { able_tick = 5; rr_tick_limit = 4 })) 1
          (record level { able_tick = 10 })
