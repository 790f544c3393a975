-- ===== src/Threads/Create.antt =====
-- `thread_create_os` keeps the stacks of the threads apart.
use hyeonseung_os.Base.{
  ℕ, suc, ◌+◌, ◌-◌, ◌*◌, ◌≤◌, ◌<◌, ◌≡◌, ◌≢◌, refl, sym, ◌∙◌, ap, ◌⊎◌, inl, inr, Bool, true, false,
  some, arith, ◌==◌, if◌then◌else◌, update, update_ne, add32, not, ◌||◌, Bool-cases, ℕ_discrete,
  subst,
}
use hyeonseung_os.Process.{Ptable, is_unused, claim, next_pid}
use hyeonseung_os.Process.Table.{Found}
use hyeonseung_os.Process.Exit.{is_live, is_embryo}
use hyeonseung_os.Process.Alloc.{full, no_stack, given, allocproc-Allocated}
use hyeonseung_os.Threads.{
  Thread, Threads, stack_base, round_up, allocuvm, take_slot, create_into, create_with,
  thread_create_os,
}
use hyeonseung_os.Threads.Mapper.{Mapped, slot, full, mapper-Mapped}
use hyeonseung_os.Threads.Stacks.{
  IsThread, Based, bare, based, IsStacked, free-IsStacked, round_up-first, stack_base-page,
  allocuvm-some,
}

-- The process in slot `q` has taken the slot `tid` for the process in slot `i`, which is still EMBRYO or
-- has its stack. The pages of the stacks start at page `a`.
pub record Grown (q i tid a : ℕ) (s s' : Threads) : Type 0 where
  pub was_free : is_unused (s.table.procs i).state ≡ true
  pub others :
      (k : ℕ) → k ≢ i → k ≢ q → (s'.table.procs k ≡ s.table.procs k) × (s'.slots k ≡ s.slots k)
  pub state : (s'.table.procs q).state ≡ (s.table.procs q).state
  pub parent : (s'.table.procs q).parent ≡ (s.table.procs q).parent
  pub some_pages : 0 < a
  pub room : a + 200 ≤ 524_288
  pub osz : (s'.slots q).osz ≡ a * 4096
  pub old : (k : ℕ) → IsThread q s k → (s.slots q).osz ≡ a * 4096
  pub few : tid < 100
  pub free : (s.slots q).thread tid ≡ 0
  pub taken : (s'.slots q).thread tid ≢ 0
  pub rest : (j : ℕ) → j ≢ tid → (s'.slots q).thread j ≡ (s.slots q).thread j
  pub tid_new : (s'.slots i).tid ≡ tid
  pub stack :
      (is_embryo (s'.table.procs i).state ≡ true)
      ⊎ ((s'.table.procs i).sz ≡ a * 4096 + 2 * tid * 4096)

module _ (q i tid a : ℕ) (s s' : Threads) (h : IsStacked q s) (g : Grown q i tid a s s') where
  -- A thread is an old one, or the new one with its stack.
  grown_cases :
      (k : ℕ)
      → IsThread q s' k
      → (IsThread q s k
          × ((s'.slots k).tid ≡ (s.slots k).tid)
          × ((s'.table.procs k).sz ≡ (s.table.procs k).sz))
        ⊎ ((k ≡ i) × ((s'.table.procs i).sz ≡ a * 4096 + 2 * tid * 4096))
  grown_cases k t = elim (ℕ_discrete k i) [
    | yes e ↦ inr (e, fresh e g.stack)
    | no n ↦
        let nq : k ≢ q =
          λ e. h.own (sym g.parent ∙ subst (λ x. (s'.table.procs x).parent ≡ suc q) e t.child) in
        let (ep, es) = g.others k n nq in
        inl (
          record {
            lower = t.lower;
            child = ap (λ p. p.parent) (sym ep) ∙ t.child;
            slot = λ z. t.slot (ap (λ x. x.tid) es ∙ z);
            used = ap (λ p. is_unused p.state) (sym ep) ∙ t.used;
            formed = ap (λ p. is_embryo p.state) (sym ep) ∙ t.formed;
          },
          ap (λ x. x.tid) es,
          ap (λ p. p.sz) ep,
        )
  ]
    where
      fresh :
          k ≡ i
          → (is_embryo (s'.table.procs i).state ≡ true)
            ⊎ ((s'.table.procs i).sz ≡ a * 4096 + 2 * tid * 4096)
          → (s'.table.procs i).sz ≡ a * 4096 + 2 * tid * 4096
      fresh e (inl z) = let f = subst (λ x. IsThread q s' x) e t in ground (arith, z, f.formed)
      fresh e (inr z) = z

  grown-IsStacked : IsStacked q s'
  grown-IsStacked = record {
    lower = h.lower;
    alive = ap is_live g.state ∙ h.alive;
    own = λ e. h.own (sym g.parent ∙ e);
    base = based a g.some_pages g.room g.osz;
    few = λ k t. elim (grown_cases k t) [
      | inl (o, e, _) ↦ ground (arith, h.few k o)
      | inr (e, _) ↦ ground (arith, g.few, g.tid_new)
    ];
    taken = λ k t. elim (grown_cases k t) [
      | inl (o, e, _) ↦ ground (arith, h.taken k o, g.rest (s.slots k).tid, g.free)
      | inr (e, _) ↦ ground (arith, g.taken, g.tid_new)
    ];
    placed = λ k t. elim (grown_cases k t) [
      | inl (o, e, z) ↦ ground (arith, h.placed k o, g.old k o, g.osz)
      | inr (e, z) ↦ ground (arith, z, g.osz, g.tid_new)
    ];
    apart = λ j k tj tk e. elim (grown_cases j tj) [
      | inl (oj, ej, _) ↦ elim (grown_cases k tk) [
        | inl (ok, ek, _) ↦ h.apart j k oj ok (sym ej ∙ e ∙ ek)
        | inr (ek, _) ↦ ground (arith, h.taken j oj, g.free, g.tid_new)
      ]
      | inr (ej, _) ↦ elim (grown_cases k tk) [
        | inl (ok, ek, _) ↦ ground (arith, h.taken k ok, g.free, g.tid_new)
        | inr (ek, _) ↦ ej ∙ sym ek
      ]
    ];
  }

-- The page from which the stacks go, before and after `osz` is set.
first_page :
    (q : ℕ) (s : Threads)
    → Based q s
    → (a : ℕ) × (0 < a)
      × (a + 200 ≤ 524_288)
      × ((if (s.slots q).osz == 0 then round_up (s.table.procs q).sz else (s.slots q).osz)
          ≡ a * 4096)
      × ((k : ℕ) → IsThread q s k → (s.slots q).osz ≡ a * 4096)
first_page q s (bare z p l n) =
    let (a, pa, la, e) = round_up-first (s.table.procs q).sz p l in
    (a, pa, la, rw z e, λ k t. absurd (n k t))
first_page q s (based a p l e) = (a, p, l, ground (arith, e), λ k t. e)

module _ (enough copied : Bool) (q i kstack : ℕ) (s : Threads) (h : IsStacked q s)
    (f : Found (λ p. is_unused p.state) s.table.procs 0 64 i) where
  abbrev after : Ptable
  after = record s.table {
    procs = update s.table.procs i (claim kstack (next_pid s.table) (s.table.procs i));
    nextpid = next_pid s.table + 1;
  }

  apart_slots : q ≢ i
  apart_slots e = ground (arith, h.alive, f.passes, e)

  create_with-Grown :
      (a tid : ℕ) (me : Thread)
      → 0 < a
      → a + 200 ≤ 524_288
      → me.osz ≡ a * 4096
      → ((k : ℕ) → IsThread q s k → (s.slots q).osz ≡ a * 4096)
      → 1 ≤ tid
      → tid < 100
      → (s.slots q).thread tid ≡ 0
      → me.thread tid ≢ 0
      → ((j : ℕ) → j ≢ tid → me.thread j ≡ (s.slots q).thread j)
      → Grown q i tid a s (create_with enough copied q i after s (tid, me)).1
  unfolding create_with
  create_with-Grown a tid me pa la e old l u free tk rest =
      let ne = apart_slots in
      let base : ℕ = stack_base me.osz tid in
      let sz : ℕ = allocuvm enough base (add32 base (2 * 4096)) in
      let page : base ≡ (a + 2 * (tid - 1)) * 4096 = rw e (stack_base-page a tid la l u) in
      elim (Bool-cases (sz == 0 || not copied)) [
        | inl z ↦ rw z (record {
          was_free = f.passes;
          others = λ k n n'. (ground arith, ground arith);
          state = ground arith;
          parent = ground arith;
          some_pages = pa;
          room = la;
          osz = ground arith;
          old = old;
          few = u;
          free = free;
          taken = ground arith;
          rest = λ j n. ground (arith, rest j n);
          tid_new = ground arith;
          stack = inl (ground arith);
        })
        | inr z ↦ rw z (record {
          was_free = f.passes;
          others = λ k n n'. (ground arith, ground arith);
          state = ground arith;
          parent = ground arith;
          some_pages = pa;
          room = la;
          osz = ground arith;
          old = old;
          few = u;
          free = free;
          taken = ground arith;
          rest = λ j n. ground (arith, rest j n);
          tid_new = ground arith;
          stack = inr (ground (arith, sized page z));
        })
      ]
    where
      sized :
          {b : ℕ}
          → b ≡ (a + 2 * (tid - 1)) * 4096
          → (allocuvm enough b (add32 b 8192) == 0 || not copied) ≡ false
          → allocuvm enough b (add32 b 8192) ≡ a * 4096 + 2 * tid * 4096
      sized {b} p z =
          let wide : add32 b 8192 ≡ b + 8192 = omega arith in
          let got : (allocuvm enough b (b + 8192) == 0) ≡ false = ground arith in
          rw wide (allocuvm-some enough b got ∙ omega arith)

  create_into-IsStacked :
      (free : ℕ)
      → 1 ≤ free
      → free < 100
      → (s.slots q).thread free ≡ 0
      → IsStacked q (create_into enough copied q (some i, after) s).1
  unfolding create_into
  create_into-IsStacked free l u z =
      let (a, pa, la, e, old) = first_page q s h.base in
      let other =
        update_ne s.table.procs i (claim kstack (next_pid s.table) (s.table.procs i)) q
          apart_slots in
      go a pa la old _ (rw other e) refl _ (mapper-Mapped _ _)
    where
      go :
          (a : ℕ)
          → 0 < a
          → a + 200 ≤ 524_288
          → ((k : ℕ) → IsThread q s k → (s.slots q).osz ≡ a * 4096)
          → (me : Thread) → me.osz ≡ a * 4096
          → me.thread ≡ (s.slots q).thread
          → {pid : ℕ} → (r : ℕ × Thread) → Mapped pid me r
          → IsStacked q (create_with enough copied q i after s r).1
      go a pa la old me e same {pid} _ (slot tid l' u' f' _) =
          let th : (j : ℕ) → me.thread j ≡ (s.slots q).thread j = λ j. ap (λ g. g j) same in
          grown-IsStacked q i tid a s
            (create_with enough copied q i after s (tid, take_slot tid pid me)).1 h
            (create_with-Grown a tid (take_slot tid pid me) pa la e old l' u' (sym (th tid) ∙ f')
              (ground arith) (λ j n. update_ne me.thread tid 1 j n ∙ th j))
      go a pa la old me e same _ (full m) = absurd (m free l u (ap (λ g. g free) same ∙ z))

-- `thread_create_os` keeps the stacks of the threads of a process apart, whether it succeeds or not, as
-- long as one of the slots 1 to 99 is free.
pub create-IsStacked :
    (kstack : ℕ) (enough copied : Bool) (q : ℕ) (s : Threads)
    → IsStacked q s
    → (free : ℕ) → 1 ≤ free
    → free < 100
    → (s.slots q).thread free ≡ 0
    → IsStacked q (thread_create_os kstack enough copied q s).1
unfolding thread_create_os
create-IsStacked kstack enough copied q s h free l u z = elim (allocproc-Allocated kstack s.table) [
  | full e r ↦ rw (r, create_into) h
  | no_stack i f k r ↦ rw (r, create_into) (free-IsStacked q i _ _ s h f.passes refl)
  | given i f k r ↦ rw r (create_into-IsStacked enough copied q i kstack s h f free l u z)
]
