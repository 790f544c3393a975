-- ===== src/Locks/Steps.antt =====
-- What each step of a CPU keeps: at most one CPU has the lock, and interrupts are off where they must be.
use hyeonseung_os.Base.{
  ℕ, suc, ◌≡◌, inl, inr, refl, Bool, true, false, some, update, arith, ℕ_discrete, Bool-cases,
  true≢false, sym, ap, ◌∙◌,
}
use hyeonseung_os.Locks.{
  Cpu, pushcli, popcli, Phase, outside, spinning, taken, inside, leaving, restoring, Spinlocks,
  holding, go, acquire_start, acquire_try, release_start, release_end, advance,
}

-- The CPU has set `locked` and not cleared it yet.
abbrev pub critical : Phase → Bool
critical outside = false
critical spinning = false
critical taken = true
critical inside = true
critical leaving = true
critical restoring = false

-- A CPU outside has its interrupts as `on` says, every other has them disabled once.
abbrev pub Settled : Bool → Phase → Cpu → Type 0
Settled on outside c = (c.ncli ≡ 0) × (c.interrupts ≡ on)
Settled on _ c = (c.ncli ≡ 1) × (c.interrupts ≡ false) × (c.intena ≡ on)

pub record IsExclusive (on : ℕ → Bool) (s : Spinlocks) : Type 0 where
  pub free : s.locked ≡ false → (j : ℕ) → critical (s.phase j) ≡ false
  pub one : (i j : ℕ) → critical (s.phase i) ≡ true → critical (s.phase j) ≡ true → i ≡ j
  pub held : (i : ℕ) → s.phase i ≡ inside → s.holder ≡ suc i
  pub mine : (i : ℕ) → s.holder ≡ suc i → s.phase i ≡ inside
  pub settled : (i : ℕ) → Settled (on i) (s.phase i) (s.cpus i)

locked_by :
    (i : ℕ) (s : Spinlocks) (p : Phase)
    → s.phase i ≡ p
    → critical p ≡ true
    → (s.locked ≡ false → (j : ℕ) → critical (s.phase j) ≡ false)
    → s.locked ≡ true
locked_by i s p e c free = elim (Bool-cases s.locked) [
  | inl l ↦ l
  | inr l ↦ absurd (true≢false (sym c ∙ sym (ap critical e) ∙ free l i))
]

popcli_last :
    (c : Cpu) (b : Bool)
    → c.ncli ≡ 1
    → c.interrupts ≡ false
    → c.intena ≡ b
    → popcli c ≡ some (record c { ncli = 0; interrupts = b })
unfolding popcli
popcli_last c b n f t = rw (f, n, t) refl

outside-IsExclusive :
    (on : ℕ → Bool) (s : Spinlocks) (i : ℕ)
    → s.phase i ≡ outside
    → IsExclusive on s
    → (s' : Spinlocks) × (advance outside i s ≡ some s') × IsExclusive on s'
unfolding advance
outside-IsExclusive on s i e v =
    let h : holding i s ≡ false = ground (arith, v.mine i, e) in
    (
      record (go i spinning s) { cpus = update s.cpus i (pushcli (s.cpus i)) },
      rw (acquire_start, h) refl,
      record {
        free = λ l j. ground (arith, v.free l j);
        one = λ j k a b. ground (arith, v.one j k);
        held = λ j a. ground (arith, v.held j);
        mine = λ j a. ground (arith, v.mine j, e);
        settled = λ j. elim (ℕ_discrete j i) [
          | yes z ↦ ground (arith, v.settled i, e)
          | no n ↦ ground (arith, v.settled j)
        ];
      },
    )

spinning-IsExclusive :
    (on : ℕ → Bool) (s : Spinlocks) (i : ℕ)
    → s.phase i ≡ spinning
    → IsExclusive on s
    → (s' : Spinlocks) × (advance spinning i s ≡ some s') × IsExclusive on s'
unfolding advance
spinning-IsExclusive on s i e v = elim (Bool-cases s.locked) [
  | inl l ↦ (s, rw (acquire_try, l) refl, v)
  | inr l ↦ (
    record (go i taken s) { locked = true },
    rw (acquire_try, l) refl,
    record {
      free = λ f j. ground arith;
      one = λ j k a b. ground (arith, v.free l j, v.free l k);
      held = λ j a. ground (arith, v.held j);
      mine = λ j a. ground (arith, v.mine j, e);
      settled = λ j. elim (ℕ_discrete j i) [
        | yes z ↦ ground (arith, v.settled i, e)
        | no n ↦ ground (arith, v.settled j)
      ];
    },
  )
]

taken-IsExclusive :
    (on : ℕ → Bool) (s : Spinlocks) (i : ℕ)
    → s.phase i ≡ taken
    → IsExclusive on s
    → (s' : Spinlocks) × (advance taken i s ≡ some s') × IsExclusive on s'
unfolding advance
taken-IsExclusive on s i e v = (
  record (go i inside s) { holder = suc i },
  refl,
  record {
    free = λ l j. ground (arith, v.free l i, e);
    one = λ j k a b. ground (arith, v.one j k, v.one i k, v.one j i, e);
    held = λ j a. ground (arith, v.one i j, e);
    mine = λ j a. ground arith;
    settled = λ j. elim (ℕ_discrete j i) [
      | yes z ↦ ground (arith, v.settled i, e)
      | no n ↦ ground (arith, v.settled j)
    ];
  },
)

inside-IsExclusive :
    (on : ℕ → Bool) (s : Spinlocks) (i : ℕ)
    → s.phase i ≡ inside
    → IsExclusive on s
    → (s' : Spinlocks) × (advance inside i s ≡ some s') × IsExclusive on s'
unfolding advance
inside-IsExclusive on s i e v =
    let l : s.locked ≡ true = locked_by i s inside e refl v.free in
    let h : holding i s ≡ true = ground (arith, v.held i e, l) in
    (
      record (go i leaving s) { holder = 0 },
      rw (release_start, h) refl,
      record {
        free = λ l j. ground (arith, v.free l i, e);
        one = λ j k a b. ground (arith, v.one j k, v.one i k, v.one j i, e);
        held = λ j a. ground (arith, v.one i j, e);
        mine = λ j a. ground arith;
        settled = λ j. elim (ℕ_discrete j i) [
          | yes z ↦ ground (arith, v.settled i, e)
          | no n ↦ ground (arith, v.settled j)
        ];
      },
    )

leaving-IsExclusive :
    (on : ℕ → Bool) (s : Spinlocks) (i : ℕ)
    → s.phase i ≡ leaving
    → IsExclusive on s
    → (s' : Spinlocks) × (advance leaving i s ≡ some s') × IsExclusive on s'
unfolding advance
leaving-IsExclusive on s i e v = (
  record (go i restoring s) { locked = false },
  refl,
  record {
    free = λ l j. ground (arith, v.one i j, e);
    one = λ j k a b. ground (arith, v.one j k, e);
    held = λ j a. ground (arith, v.held j);
    mine = λ j a. ground (arith, v.mine j, e);
    settled = λ j. elim (ℕ_discrete j i) [
      | yes z ↦ ground (arith, v.settled i, e)
      | no n ↦ ground (arith, v.settled j)
    ];
  },
)

restoring-IsExclusive :
    (on : ℕ → Bool) (s : Spinlocks) (i : ℕ)
    → s.phase i ≡ restoring
    → IsExclusive on s
    → (s' : Spinlocks) × (advance restoring i s ≡ some s') × IsExclusive on s'
unfolding advance
restoring-IsExclusive on s i e v =
    let (n, f, t) : Settled (on i) restoring (s.cpus i) = rw e at (v.settled i) in
    let c : Cpu = record (s.cpus i) { ncli = 0; interrupts = on i } in
    (
      record (go i outside s) { cpus = update s.cpus i c },
      rw (release_end, popcli_last (s.cpus i) (on i) n f t) refl,
      record {
        free = λ l j. ground (arith, v.free l j);
        one = λ j k a b. ground (arith, v.one j k);
        held = λ j a. ground (arith, v.held j);
        mine = λ j a. ground (arith, v.mine j, e);
        settled = λ j. elim (ℕ_discrete j i) [
          | yes z ↦ ground (arith, v.settled i, e)
          | no n ↦ ground (arith, v.settled j)
        ];
      },
    )

pub advance-IsExclusive :
    (on : ℕ → Bool) (s : Spinlocks) (i : ℕ) (p : Phase)
    → s.phase i ≡ p
    → IsExclusive on s
    → (s' : Spinlocks) × (advance p i s ≡ some s') × IsExclusive on s'
advance-IsExclusive on s i outside e v = outside-IsExclusive on s i e v
advance-IsExclusive on s i spinning e v = spinning-IsExclusive on s i e v
advance-IsExclusive on s i taken e v = taken-IsExclusive on s i e v
advance-IsExclusive on s i inside e v = inside-IsExclusive on s i e v
advance-IsExclusive on s i leaving e v = leaving-IsExclusive on s i e v
advance-IsExclusive on s i restoring e v = restoring-IsExclusive on s i e v
