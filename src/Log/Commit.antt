-- ===== src/Log/Commit.antt =====
-- `commit`, whenever the power fails.
use hyeonseung_os.Base.{
  ℕ, zero, suc, ◌+◌, ◌-◌, ◌*◌, ◌≤◌, ◌<◌, ◌≡◌, ◌≢◌, ◌⊎◌, inl, inr, refl, sym, ap, ap₂, subst, ◌∙◌,
  true, arith, ◌==◌, ltb, update, update_self, update_ne, for_range_inv, ℕ_discrete, Bool-cases,
}
use hyeonseung_os.Log.{
  Block, LogHeader, Machine, head_block, bwrite, log_one, write_log, write_head, commit,
}
use hyeonseung_os.Log.Disk.{
  Outside, Transaction, IsSound, IsOld, IsLogged, IsDone, IsRecoverable, head_block-count,
  head_block-entry,
}
use hyeonseung_os.Log.Install.{
  Installing, Outside-ne, install_trans-Installing, erase-IsRecoverable,
}

-- The machine after `i` rounds of `write_log` that began with `budget` writes left: the homes are as
-- before, and the first `i` blocks are in the log unless the power has failed.
pub record Logging (t : Transaction) (budget i : ℕ) (m : Machine) : Type 0 where
  pub start : m.start ≡ t.start
  pub lh : m.lh ≡ t.lh
  pub wanted : (x : ℕ) → Outside t.start t.size x → m.cache x ≡ t.after x
  pub slots : (j : ℕ) → j < i → m.cache (t.start + j + 1) ≡ t.after (t.lh.block j)
  pub left : m.budget ≡ budget - i
  pub untouched : IsOld t m.disk
  pub disk : (m.budget ≡ 0) ⊎ ((j : ℕ) → j < i → m.disk (t.start + j + 1) ≡ t.after (t.lh.block j))

log-IsOld :
    (t : Transaction) (d : ℕ → Block) (i : ℕ) (v : Block)
    → IsSound t
    → i < t.lh.n
    → IsOld t d
    → IsOld t (update d (t.start + i + 1) v)
log-IsOld t d i v s hi o = record {
  head = ap (λ (f : Block). f 0) (update_ne d (t.start + i + 1) v t.start (omega arith)) ∙ o.head;
  homes = λ x out.
      update_ne d (t.start + i + 1) v x
        (λ e. Outside-ne t.start t.size x (i + 1) out (omega (arith, s.fits)) (omega (arith, e)))
      ∙ o.homes x out;
}

slot-update :
    (t : Transaction) (d : ℕ → Block) (i : ℕ)
    → ((j : ℕ) → j < i → d (t.start + j + 1) ≡ t.after (t.lh.block j))
    → (j : ℕ) → j < i + 1
    → update d (t.start + i + 1) (t.after (t.lh.block i)) (t.start + j + 1) ≡ t.after (t.lh.block j)
slot-update t d i h j hj = elim (ℕ_discrete j i) [
  | yes e ↦ rw e (update_self d (t.start + i + 1) (t.after (t.lh.block i)))
  | no ne ↦
      update_ne d (t.start + i + 1) (t.after (t.lh.block i)) (t.start + j + 1) (omega arith)
      ∙ h j (omega arith)
]

bwrite-Logging :
    (t : Transaction) (budget i : ℕ) (m : Machine)
    → IsSound t
    → i < t.lh.n
    → Logging t budget i m
    → Logging t budget (i + 1) (bwrite (t.start + i + 1) (t.after (t.lh.block i)) m)
bwrite-Logging t budget i m s hi v = record {
  start = v.start;
  lh = v.lh;
  wanted = λ x o.
      update_ne m.cache (t.start + i + 1) (t.after (t.lh.block i)) x
        (λ e. Outside-ne t.start t.size x (i + 1) o (omega (arith, s.fits)) (omega (arith, e)))
      ∙ v.wanted x o;
  slots = slot-update t m.cache i v.slots;
  left = omega (arith, v.left);
  untouched = elim (Bool-cases (m.budget == 0)) [
    | inl z ↦ rw z v.untouched
    | inr z ↦ rw z (log-IsOld t m.disk i (t.after (t.lh.block i)) s hi v.untouched)
  ];
  disk = elim (Bool-cases (m.budget == 0)) [
    | inl z ↦ rw z (inl (ground arith))
    | inr z ↦
        rw z
          (elim v.disk [ inl e ↦ absurd (ground arith) | inr h ↦ inr (slot-update t m.disk i h) ])
  ];
}

log_one-Logging :
    (t : Transaction) (budget i : ℕ) (m : Machine)
    → IsSound t
    → i < t.lh.n
    → Logging t budget i m
    → Logging t budget (i + 1) (log_one i m)
log_one-Logging t budget i m s hi v =
    let slot : m.start + i + 1 ≡ t.start + i + 1 = ap (λ k. k + i + 1) v.start in
    let copy : m.cache (m.lh.block i) ≡ t.after (t.lh.block i) =
      ap (λ (h : LogHeader). m.cache (h.block i)) v.lh ∙ v.wanted (t.lh.block i) (s.homes i hi) in
    subst (Logging t budget (i + 1)) (ap₂ (λ x c. bwrite x c m) (sym slot) (sym copy))
      (bwrite-Logging t budget i m s hi v)

write_log-Logging :
    (t : Transaction) (budget : ℕ) (m : Machine)
    → IsSound t
    → Logging t budget 0 m
    → Logging t budget t.lh.n (write_log m)
unfolding write_log
write_log-Logging t budget m s v =
    for_range_inv (λ i m'. i ≤ t.lh.n → Logging t budget i m') log_one
      (λ i m' h hi. log_one-Logging t budget i m' s (omega arith) (h (omega arith))) m.lh.n 0 t.lh.n
      m (omega (arith, ap (λ (h : LogHeader). h.n) v.lh)) (λ _. v) (omega arith)

-- A block number is one of the first `n` in the log, or is none of them.
find_home :
    (block : ℕ → ℕ) (n x : ℕ)
    → ((j : ℕ) × (j < n) × (block j ≡ x)) ⊎ ((j : ℕ) → j < n → block j ≢ x)
find_home block zero x = inr (λ j h. absurd (omega arith))
find_home block (suc n) x = elim (ℕ_discrete (block n) x) [
  | yes e ↦ inl (n, omega arith, e)
  | no ne ↦ elim (find_home block n x) [
    | inl (j, h, e) ↦ inl (j, omega arith, e)
    | inr none ↦
        inr (λ j h. elim (ℕ_discrete j n) [ yes e ↦ rw e ne | no other ↦ none j (omega arith) ])
  ]
]

-- The write of the header is the point at which the disk turns from old to logged.
head-IsLogged :
    (t : Transaction) (d : ℕ → Block) (stored : Block)
    → IsSound t
    → IsOld t d
    → ((j : ℕ) → j < t.lh.n → d (t.start + j + 1) ≡ t.after (t.lh.block j))
    → IsLogged t (update d t.start (head_block t.lh stored))
head-IsLogged t d stored s o slots =
    let h : Block = head_block t.lh stored in
    record {
      head = ap (λ (f : Block). f 0) (update_self d t.start h) ∙ head_block-count t.lh stored;
      blocks = λ j hj.
          ap (λ (f : Block). f (j + 1)) (update_self d t.start h)
          ∙ head_block-entry t.lh stored j hj;
      slots = λ j hj. update_ne d t.start h (t.start + j + 1) (omega arith) ∙ slots j hj;
      homes = λ x out. elim (find_home t.lh.block t.lh.n x) [
        | inl found ↦ inr found
        | inr none ↦ inl (
            update_ne d t.start h x (omega (arith, s.fits))
            ∙ o.homes x out
            ∙ sym (s.others x out none))
      ];
    }

write_head-Installing :
    (t : Transaction) (budget : ℕ) (m : Machine)
    → IsSound t
    → Logging t budget t.lh.n m
    → Installing t (budget - t.lh.n - 1) 0 (write_head m)
unfolding write_head
write_head-Installing t budget m s v =
    rw (v.start, v.lh)
      (record {
        holds = record {
          start = refl;
          count = refl;
          blocks = λ j hj. refl;
          slots =
              λ j hj. update_ne m.cache t.start _ (t.start + j + 1) (omega arith) ∙ v.slots j hj;
        };
        left = omega (arith, v.left);
        disk = elim (Bool-cases (m.budget == 0)) [
          | inl z ↦ rw z (inl (v.untouched, ground arith))
          | inr z ↦ rw z (elim v.disk [
            | inl e ↦ absurd (ground arith)
            | inr h ↦ inr (
              head-IsLogged t m.disk (m.cache t.start) s v.untouched h,
              inr (λ j hj. absurd (omega arith)),
            )
          ])
        ];
      })

-- What `commit` starts from: the blocks of the transaction are in the cache, the disk is old.
pub record IsReady (t : Transaction) (m : Machine) : Type 0 where
  pub start : m.start ≡ t.start
  pub lh : m.lh ≡ t.lh
  pub cached : (x : ℕ) → Outside t.start t.size x → m.cache x ≡ t.after x
  pub disk : IsOld t m.disk
  pub work : 0 < t.lh.n

-- Whenever the power fails, `commit` leaves a disk that the log can be recovered from; and if it does
-- not fail within the 2n + 2 writes that n blocks take, the disk is as wanted and the log is empty.
pub commit-IsRecoverable :
    (t : Transaction) (m : Machine)
    → IsSound t
    → IsReady t m
    → IsRecoverable t (commit m).disk × (2 * t.lh.n + 1 < m.budget → IsDone t (commit m).disk)
unfolding commit
commit-IsRecoverable t m s r =
    let busy : ltb 0 m.lh.n ≡ true = ground (arith, ap (λ (h : LogHeader). h.n) r.lh, r.work) in
    let logged_all = write_log-Logging t m.budget m s (record {
      start = r.start;
      lh = r.lh;
      wanted = r.cached;
      slots = λ j hj. absurd (omega arith);
      left = omega arith;
      untouched = r.disk;
      disk = inr (λ j hj. absurd (omega arith));
    }) in
    let began = write_head-Installing t m.budget (write_log m) s logged_all in
    let through =
      install_trans-Installing t (m.budget - t.lh.n - 1) (write_head (write_log m)) s began in
    let (a, b) = erase-IsRecoverable t (m.budget - t.lh.n - 1) _ s through in
    rw busy (a, (λ h. b (omega arith)))
