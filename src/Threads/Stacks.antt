-- ===== src/Threads/Stacks.antt =====
-- The stacks of the threads of one process: which slots they have, and where they lie.
use hyeonseung_os.Base.{
  ℕ, suc, ◌+◌, ◌-◌, ◌*◌, ◌/◌, ◌≤◌, ◌<◌, ◌≡◌, ◌≢◌, refl, sym, ap, ◌∙◌, ◌⊎◌, Bool, true, false, arith,
  ◌==◌, update, update_ne, ℕ_discrete,
}
use hyeonseung_os.Process.{Proc, is_unused}
use hyeonseung_os.Process.Exit.{is_live, is_embryo}
use hyeonseung_os.Threads.{Threads, stack_base, round_up, allocuvm}

-- Slot `k` holds a thread of the process in slot `q`, a zombie perhaps, that has its stack.
pub record IsThread (q : ℕ) (s : Threads) (k : ℕ) : Type 0 where
  pub lower : k < 64
  pub child : (s.table.procs k).parent ≡ suc q
  pub slot : (s.slots k).tid ≢ 0
  pub used : is_unused (s.table.procs k).state ≡ false
  pub formed : is_embryo (s.table.procs k).state ≡ false

-- `osz` before the first thread, when it is 0, and from then on.
pub data Based (q : ℕ) (s : Threads) : Type 0 where
  bare :
      (s.slots q).osz ≡ 0
      → 0 < (s.table.procs q).sz
      → (s.table.procs q).sz + 201 * 4096 ≤ 2_147_483_648
      → ((k : ℕ) → ¬ (IsThread q s k))
      → Based q s
  based : (a : ℕ) → 0 < a → a + 200 ≤ 524_288 → (s.slots q).osz ≡ a * 4096 → Based q s

-- Each thread has a slot of its own, which is taken, and its stack is the pair of pages that goes with
-- the slot: they end at its `sz`.
pub record IsStacked (q : ℕ) (s : Threads) : Type 0 where
  pub lower : q < 64
  pub alive : is_live (s.table.procs q).state ≡ true
  pub own : (s.table.procs q).parent ≢ suc q
  pub base : Based q s
  pub few : (k : ℕ) → IsThread q s k → (s.slots k).tid < 100
  pub taken : (k : ℕ) → IsThread q s k → (s.slots q).thread (s.slots k).tid ≢ 0
  pub placed :
      (k : ℕ) → IsThread q s k → (s.table.procs k).sz ≡ (s.slots q).osz + 2 * (s.slots k).tid * 4096
  pub apart :
      (j k : ℕ) → IsThread q s j → IsThread q s k → (s.slots j).tid ≡ (s.slots k).tid → j ≡ k

-- The stack of a thread: two pages that end at `sz`.
pub stacks_disjoint :
    (q : ℕ) (s : Threads) (j k : ℕ)
    → IsStacked q s
    → IsThread q s j
    → IsThread q s k
    → j ≢ k
    → ((s.table.procs j).sz + 8192 ≤ (s.table.procs k).sz)
      ⊎ ((s.table.procs k).sz + 8192 ≤ (s.table.procs j).sz)
stacks_disjoint q s j k i hj hk ne = elim (ℕ_discrete (s.slots j).tid (s.slots k).tid) [
  | yes e ↦ absurd (ne (i.apart j k hj hk e))
  | no n ↦ ground (arith, i.placed j hj, i.placed k hk)
]

pub round_up-page : (a : ℕ) → a < 1_000_000 → round_up (a * 4096) ≡ a * 4096
round_up-page a h = omega arith

pub stack_base-page :
    (a t : ℕ)
    → a + 200 ≤ 524_288
    → 1 ≤ t
    → t < 100
    → stack_base (a * 4096) t ≡ (a + 2 * (t - 1)) * 4096
stack_base-page a t h l u = omega arith

-- The first size after the text and the data, rounded up.
pub round_up-first :
    (sz : ℕ)
    → 0 < sz
    → sz + 201 * 4096 ≤ 2_147_483_648
    → (a : ℕ) × (0 < a) × (a + 200 ≤ 524_288) × (round_up sz ≡ a * 4096)
round_up-first sz p h = ((sz + 4095) / 4096, omega arith, omega arith, omega arith)

-- An allocation that succeeds gives the size that was asked for.
pub allocuvm-some :
    (enough : Bool) (base : ℕ) (nz : (allocuvm enough base (base + 8192) == 0) ≡ false)
    → allocuvm enough base (base + 8192) ≡ base + 8192
allocuvm-some enough base nz = ground arith

-- A step that makes no thread, moves no stack and gives no slot of a thread back.
pub kept-IsStacked :
    (q : ℕ) (s s' : Threads)
    → IsStacked q s
    → is_live (s'.table.procs q).state ≡ true
    → (s'.table.procs q).parent ≢ suc q
    → (s'.slots q).osz ≡ (s.slots q).osz
    → ((s.slots q).osz ≡ 0 → (s'.table.procs q).sz ≡ (s.table.procs q).sz)
    → ((k : ℕ)
        → IsThread q s' k
        → IsThread q s k
          × ((s'.slots k).tid ≡ (s.slots k).tid)
          × ((s'.table.procs k).sz ≡ (s.table.procs k).sz)
          × ((s'.slots q).thread (s.slots k).tid ≡ (s.slots q).thread (s.slots k).tid))
    → IsStacked q s'
kept-IsStacked q s s' h live own osz size old = record {
  lower = h.lower;
  alive = live;
  own = own;
  base = carried h.base;
  few = λ k t. let (o, e, _, _) = old k t in ground (arith, h.few k o);
  taken = λ k t.
      let (o, e, _, w) = old k t in λ x. h.taken k o (sym w ∙ ap (s'.slots q).thread (sym e) ∙ x);
  placed = λ k t. let (o, e, z, _) = old k t in z ∙ h.placed k o ∙ ground arith;
  apart = λ j k tj tk e.
      let (oj, ej, _, _) = old j tj in
      let (ok, ek, _, _) = old k tk in h.apart j k oj ok (sym ej ∙ e ∙ ek);
}
  where
    carried : Based q s → Based q s'
    carried (bare z p l n) =
        let e = size z in bare (osz ∙ z) (ground arith) (ground arith) (λ k t. n k (old k t).0)
    carried (based a p l z) = based a p l (osz ∙ z)

-- A slot that was free, and still is.
pub free-IsStacked :
    (q i n : ℕ) (p : Proc) (s : Threads)
    → IsStacked q s
    → is_unused (s.table.procs i).state ≡ true
    → is_unused p.state ≡ true
    → IsStacked q
        (record s { table = record s.table { procs = update s.table.procs i p; nextpid = n } })
free-IsStacked q i n p s h u u' =
    let ne : q ≢ i = λ e. ground (arith, h.alive) in
    kept-IsStacked q s
      (record s { table = record s.table { procs = update s.table.procs i p; nextpid = n } }) h
      (ground (arith, h.alive)) (ground (arith, h.own)) refl (λ z. ground arith)
      (λ k t.
        let nk : k ≢ i = λ e. ground (arith, t.used) in
        let same : update s.table.procs i p k ≡ s.table.procs k =
          update_ne s.table.procs i p k nk in
        (
          record {
            lower = t.lower;
            child = ap (λ p. p.parent) (sym same) ∙ t.child;
            slot = t.slot;
            used = ap (λ p. is_unused p.state) (sym same) ∙ t.used;
            formed = ap (λ p. is_embryo p.state) (sym same) ∙ t.formed;
          },
          refl,
          ap (λ p. p.sz) same,
          refl,
        ))
