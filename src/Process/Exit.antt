-- ===== src/Process/Exit.antt =====
-- The loop of `exit` that passes the children of the dying process to init, entry by entry.
use hyeonseung_os.Base.{
  ℕ, suc, ◌+◌, ◌<◌, ◌≡◌, ◌≢◌, refl, Bool, true, false, not, ◌&&◌, arith, ◌==◌, ltb, if◌then◌else◌,
  update, for_range, for_range_inv, map,
}
use hyeonseung_os.Process.{
  Proc, ProcState, unused, embryo, sleeping, zombie, Table, is_unused, is_zombie, is_runnable,
  nproc, wake, wakeup1, abandon, exit_table,
}
use hyeonseung_os.Process.Table.{wakeup1-wake}

abbrev pub is_live : ProcState → Bool
is_live unused = false
is_live zombie = false
is_live _ = true

abbrev pub is_embryo : ProcState → Bool
is_embryo embryo = true
is_embryo _ = false

-- The parent pointer after the exit of slot `cur`.
abbrev pub heir : ℕ → ℕ → ℕ → ℕ
heir cur initproc parent = if parent == suc cur then initproc else parent

-- What a wakeup leaves as it was.
pub record SameButAwake (p q : Proc) : Type 0 where
  pub live : is_live q.state ≡ is_live p.state
  pub free : is_unused q.state ≡ is_unused p.state
  pub dead : is_zombie q.state ≡ is_zombie p.state
  pub parent : q.parent ≡ p.parent
  pub pid : q.pid ≡ p.pid
  pub size : q.sz ≡ p.sz
  pub pages : q.pgdir ≡ p.pgdir
  pub forming : is_embryo q.state ≡ is_embryo p.state
  pub awake : (is_runnable p.state && not (is_runnable q.state)) ≡ false

pub wake-SameButAwake : (chan : ℕ) (p : Proc) → SameButAwake p (wake chan p)
unfolding wake
wake-SameButAwake chan p = ground arith

pub wakeup1-SameButAwake : (chan : ℕ) (t : Table) (j : ℕ) → SameButAwake (t j) (wakeup1 chan t j)
wakeup1-SameButAwake chan t j = ground (arith, wakeup1-wake chan t j, wake-SameButAwake chan (t j))

-- Entry `q` is `p` once the loop has passed it, if it has.
pub record Passed (cur initproc : ℕ) (passed : Bool) (p q : Proc) : Type 0 where
  pub live : is_live q.state ≡ is_live p.state
  pub free : is_unused q.state ≡ is_unused p.state
  pub dead : is_zombie q.state ≡ is_zombie p.state
  pub parent : q.parent ≡ (if passed then heir cur initproc p.parent else p.parent)
  pub pid : q.pid ≡ p.pid
  pub size : q.sz ≡ p.sz
  pub pages : q.pgdir ≡ p.pgdir
  pub forming : is_embryo q.state ≡ is_embryo p.state
  pub awake : (is_runnable p.state && not (is_runnable q.state)) ≡ false

abandon-Passed :
    (cur initproc : ℕ) (t₀ : Table) (i : ℕ) (t : Table)
    → ((j : ℕ) → Passed cur initproc (ltb j i) (t₀ j) (t j))
    → (j : ℕ) → Passed cur initproc (ltb j (i + 1)) (t₀ j) (abandon cur initproc i t j)
unfolding abandon
abandon-Passed cur initproc t₀ i t h j = ground (
  arith,
  h i,
  h j,
  wakeup1-SameButAwake initproc (update t i (record (t i) { parent = initproc })) j,
)

pub children-Passed :
    (cur initproc : ℕ) (t : Table) (j : ℕ)
    → Passed cur initproc (ltb j 64) (t j) (for_range nproc 0 (abandon cur initproc) t j)
children-Passed cur initproc t j =
    for_range_inv (λ i t'. (j : ℕ) → Passed cur initproc (ltb j i) (t j) (t' j))
      (abandon cur initproc) (abandon-Passed cur initproc t) 64 0 64 t refl (λ k. ground arith) j

-- Entry `j` of the table, `p` before and `q` after the exit of slot `cur`.
pub record Exited (cur initproc j : ℕ) (p q : Proc) : Type 0 where
  pub live : is_live q.state ≡ (if j == cur then false else is_live p.state)
  pub free : is_unused q.state ≡ (if j == cur then false else is_unused p.state)
  pub dead : is_zombie q.state ≡ (if j == cur then true else is_zombie p.state)
  pub parent : q.parent ≡ heir cur initproc p.parent
  pub pid : q.pid ≡ p.pid
  pub size : q.sz ≡ p.sz
  pub pages : q.pgdir ≡ p.pgdir
  pub forming : is_embryo q.state ≡ (if j == cur then false else is_embryo p.state)
  pub awake : (is_runnable p.state && not (j == cur) && not (is_runnable q.state)) ≡ false

pub exit_table-Exited :
    (cur initproc : ℕ) (t : Table) (j : ℕ)
    → j < 64
    → cur < 64
    → Exited cur initproc j (t j) (exit_table cur initproc t j)
unfolding exit_table
exit_table-Exited cur initproc t j hj hc =
    let me : Proc = record (t cur) { ofile = map (λ f. 0) (t cur).ofile; cwd = 0 } in
    let t' : Table = update t cur me in
    let woken : Table = wakeup1 (t cur).parent t' in
    ground (
      arith,
      wakeup1-SameButAwake (t cur).parent t' j,
      wakeup1-SameButAwake (t cur).parent t' cur,
      children-Passed cur initproc woken j,
      children-Passed cur initproc woken cur,
    )

-- The process that sleeps on its own address is runnable once a child of it has exited.
pub exit_table-wakes :
    (cur initproc : ℕ) (t : Table) (q : ℕ)
    → q < 64
    → cur < 64
    → q ≢ cur
    → (t cur).parent ≡ suc q
    → (t q).state ≡ sleeping
    → (t q).chan ≡ suc q
    → is_runnable (exit_table cur initproc t q).state ≡ true
unfolding exit_table wake
exit_table-wakes cur initproc t q hq hc ne p st ch =
    let me : Proc = record (t cur) { ofile = map (λ f. 0) (t cur).ofile; cwd = 0 } in
    let t' : Table = update t cur me in
    let woken : Table = wakeup1 (t cur).parent t' in
    ground (arith, wakeup1-wake (t cur).parent t' q, children-Passed cur initproc woken q)
