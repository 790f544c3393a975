-- ===== src/Log/Install.antt =====
-- `install_trans` and the `write_head` that erases the transaction, whenever the power fails.
use hyeonseung_os.Base.{
  ℕ, ◌+◌, ◌-◌, ◌≤◌, ◌<◌, ◌≡◌, ◌≢◌, ◌⊎◌, inl, inr, sym, ap, ap₂, subst, ◌∙◌, true, false, arith,
  ◌==◌, update, update_self, update_ne, for_range_inv, ℕ_discrete, Bool-cases,
}
use hyeonseung_os.Log.{
  Block, LogHeader, Machine, head_block, bwrite, install_one, install_trans, write_head, clear,
}
use hyeonseung_os.Log.Disk.{
  Outside, Transaction, IsSound, IsOld, IsLogged, IsDone, IsRecoverable, old, logged, finished,
  head_block-count,
}

-- A machine whose memory holds the transaction.
pub record Holds (t : Transaction) (m : Machine) : Type 0 where
  pub start : m.start ≡ t.start
  pub count : m.lh.n ≡ t.lh.n
  pub blocks : (j : ℕ) → j < t.lh.n → m.lh.block j ≡ t.lh.block j
  pub slots : (j : ℕ) → j < t.lh.n → m.cache (t.start + j + 1) ≡ t.after (t.lh.block j)

-- A disk after `i` rounds of `install_trans`, with `budget` writes left: it is as before the
-- transaction if the power had failed by then, or else it holds the log, and the first `i` homes are
-- installed unless the power has failed since.
abbrev pub InstalledTo : Transaction → ℕ → (ℕ → Block) → ℕ → Type 0
InstalledTo t i d budget =
    (IsOld t d × (budget ≡ 0))
    ⊎ (IsLogged t d
        × ((budget ≡ 0) ⊎ ((j : ℕ) → j < i → d (t.lh.block j) ≡ t.after (t.lh.block j))))

-- The machine after `i` rounds that began with `budget` writes left.
pub record Installing (t : Transaction) (budget i : ℕ) (m : Machine) : Type 0 where
  pub holds : Holds t m
  pub left : m.budget ≡ budget - i
  pub disk : InstalledTo t i m.disk m.budget

pub Outside-ne : (start size x k : ℕ) → Outside start size x → k < size → x ≢ start + k
Outside-ne start size x k o h = omega arith

install-IsLogged :
    (t : Transaction) (d : ℕ → Block) (i : ℕ)
    → IsSound t
    → i < t.lh.n
    → IsLogged t d
    → IsLogged t (update d (t.lh.block i) (t.after (t.lh.block i)))
install-IsLogged t d i s hi l =
    let b : ℕ = t.lh.block i in
    let ne : (k : ℕ) → k < t.size → t.start + k ≢ b =
      λ k hk e. Outside-ne t.start t.size b k (s.homes i hi) hk (sym e) in
    let at_start : t.start ≢ b = λ e. ne 0 (omega (arith, s.fits)) (omega (arith, e)) in
    record {
      head = ap (λ (f : Block). f 0) (update_ne d b (t.after b) t.start at_start) ∙ l.head;
      blocks = λ j hj.
          ap (λ (f : Block). f (j + 1)) (update_ne d b (t.after b) t.start at_start)
          ∙ l.blocks j hj;
      slots = λ j hj.
          update_ne d b (t.after b) (t.start + j + 1)
            (λ e. ne (j + 1) (omega (arith, s.fits)) (omega (arith, e)))
          ∙ l.slots j hj;
      homes = λ x o. elim (ℕ_discrete x b) [
        | yes e ↦ inl (rw e (update_self d b (t.after b)))
        | no other ↦ rw (update_ne d b (t.after b) x other) (l.homes x o)
      ];
    }

bwrite-Installing :
    (t : Transaction) (budget i : ℕ) (m : Machine)
    → IsSound t
    → i < t.lh.n
    → Installing t budget i m
    → Installing t budget (i + 1) (bwrite (t.lh.block i) (t.after (t.lh.block i)) m)
bwrite-Installing t budget i m s hi v = record {
  holds = record {
    start = v.holds.start;
    count = v.holds.count;
    blocks = v.holds.blocks;
    slots = λ j hj.
        update_ne m.cache b (t.after b) (t.start + j + 1) (λ e.
          Outside-ne t.start t.size b (j + 1) (s.homes i hi) (omega (arith, s.fits))
            (omega (arith, e)))
        ∙ v.holds.slots j hj;
  };
  left = omega (arith, v.left);
  disk = elim (Bool-cases (m.budget == 0)) [
    | inl z ↦ rw z (frozen z v.disk)
    | inr z ↦ rw z (written z v.disk)
  ];
}
  where
    b : ℕ
    b = t.lh.block i

    frozen :
        (m.budget == 0) ≡ true
        → InstalledTo t i m.disk m.budget
        → InstalledTo t (i + 1) m.disk (m.budget - 1)
    frozen z (inl (o, _)) = inl (o, ground arith)
    frozen z (inr (l, _)) = inr (l, inl (ground arith))

    written :
        (m.budget == 0) ≡ false
        → InstalledTo t i m.disk m.budget
        → InstalledTo t (i + 1) (update m.disk b (t.after b)) (m.budget - 1)
    written z (inl (_, e)) = absurd (ground arith)
    written z (inr (_, inl e)) = absurd (ground arith)
    written z (inr (l, inr done)) = inr (
      install-IsLogged t m.disk i s hi l,
      inr (λ j hj. elim (ℕ_discrete (t.lh.block j) b) [
        | yes e ↦ rw e (update_self m.disk b (t.after b))
        | no ne ↦
            update_ne m.disk b (t.after b) (t.lh.block j) ne
            ∙ done j (elim (ℕ_discrete j i) [
              | yes same ↦ absurd (ne (ap t.lh.block same))
              | no other ↦ omega arith
            ])
      ]),
    )

install_one-Installing :
    (t : Transaction) (budget i : ℕ) (m : Machine)
    → IsSound t
    → i < t.lh.n
    → Installing t budget i m
    → Installing t budget (i + 1) (install_one i m)
install_one-Installing t budget i m s hi v =
    let home : m.lh.block i ≡ t.lh.block i = v.holds.blocks i hi in
    let copy : m.cache (m.start + i + 1) ≡ t.after (t.lh.block i) =
      ap (λ k. m.cache (k + i + 1)) v.holds.start ∙ v.holds.slots i hi in
    subst (Installing t budget (i + 1)) (ap₂ (λ x c. bwrite x c m) (sym home) (sym copy))
      (bwrite-Installing t budget i m s hi v)

pub install_trans-Installing :
    (t : Transaction) (budget : ℕ) (m : Machine)
    → IsSound t
    → Installing t budget 0 m
    → Installing t budget t.lh.n (install_trans m)
unfolding install_trans
install_trans-Installing t budget m s v =
    for_range_inv (λ i m'. i ≤ t.lh.n → Installing t budget i m') install_one
      (λ i m' h hi. install_one-Installing t budget i m' s (omega arith) (h (omega arith))) m.lh.n 0
      t.lh.n m (omega (arith, v.holds.count)) (λ _. v) (omega arith)

-- Erasing the log once the homes are installed leaves a disk that can be recovered, and the one that
-- is wanted if the power has not failed by then.
pub erase-IsRecoverable :
    (t : Transaction) (budget : ℕ) (m : Machine)
    → IsSound t
    → Installing t budget t.lh.n m
    → let m' = write_head (clear m) in
      IsRecoverable t m'.disk × (t.lh.n < budget → IsDone t m'.disk)
unfolding write_head
erase-IsRecoverable t budget m s v = elim (Bool-cases (m.budget == 0)) [
  | inl z ↦ rw z (frozen v.disk, λ h. absurd (ground (arith, v.left)))
  | inr z ↦ rw z (let d = done z v.disk in (finished d, λ _. d))
]
  where
    frozen : InstalledTo t t.lh.n m.disk m.budget → IsRecoverable t m.disk
    frozen (inl (o, _)) = old o
    frozen (inr (l, _)) = logged l

    empty : LogHeader
    empty = record (m.lh) { n = 0 }

    done :
        (m.budget == 0) ≡ false
        → InstalledTo t t.lh.n m.disk m.budget
        → IsDone t (update m.disk m.start (head_block empty (m.cache m.start)))
    done z (inl (_, e)) = absurd (ground arith)
    done z (inr (_, inl e)) = absurd (ground arith)
    done z (inr (l, inr all)) = rw v.holds.start (record {
      head =
          ap (λ (f : Block). f 0) (update_self m.disk t.start (head_block empty (m.cache t.start)))
          ∙ head_block-count empty (m.cache t.start);
      homes = λ x o.
          update_ne m.disk t.start (head_block empty (m.cache t.start)) x (omega (arith, s.fits))
          ∙ elim (l.homes x o) [
            | inl e ↦ e
            | inr (j, hj, e) ↦ subst (λ k. m.disk k ≡ t.after k) e (all j hj)
          ];
    })
