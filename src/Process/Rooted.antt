-- ===== src/Process/Rooted.antt =====
-- Whose parent is alive: the relation that `exit` keeps by handing children to init.
use hyeonseung_os.Base.{
  ℕ, suc, ◌<◌, ◌≡◌, ◌⊎◌, inl, inr, true, false, arith, ◌==◌, update, Bool-cases,
}
use hyeonseung_os.Process.{Proc, ProcState, Table, Ptable, is_unused, is_zombie}
use hyeonseung_os.Process.Exit.{is_live}

-- Entry `p` has no parent, or one that is neither free nor a zombie.
abbrev pub HasParent : Table → Proc → Type 0
HasParent t p =
    (p.parent ≡ 0) ⊎ ((q : ℕ) × (p.parent ≡ suc q) × (q < 64) × (is_live (t q).state ≡ true))

pub record IsRooted (s : Ptable) : Type 0 where
  pub init : ℕ
  pub init_ptr : s.initproc ≡ suc init
  pub init_slot : init < 64
  pub init_live : is_live (s.procs init).state ≡ true
  pub parents :
      (j : ℕ) → j < 64 → is_unused (s.procs j).state ≡ false → HasParent s.procs (s.procs j)

lives-update :
    (t : Table) (i : ℕ) (p : Proc)
    → (is_live (t i).state ≡ true → is_live p.state ≡ true)
    → (q : ℕ) → is_live (t q).state ≡ true
    → is_live (update t i p q).state ≡ true
lives-update t i p h q l = elim (Bool-cases (q == i)) [
  | inl e ↦ rw e (h (let e' : q ≡ i = ground arith in rw e' at l))
  | inr e ↦ rw e l
]

pub HasParent-mono :
    (t t' : Table) (p : Proc)
    → ((q : ℕ) → is_live (t q).state ≡ true → is_live (t' q).state ≡ true)
    → HasParent t p
    → HasParent t' p
HasParent-mono t t' p h (inl z) = inl z
HasParent-mono t t' p h (inr (q, e, b, l)) = inr (q, e, b, h q l)

-- A change of one entry is harmless if a live one stays live, and a used one has a parent.
pub update-IsRooted :
    (s : Ptable) (i n : ℕ) (p : Proc)
    → (is_live (s.procs i).state ≡ true → is_live p.state ≡ true)
    → (is_unused p.state ≡ false → HasParent s.procs p)
    → IsRooted s
    → IsRooted (record s { procs = update s.procs i p; nextpid = n })
update-IsRooted s i n p hl hp v = record {
  init = v.init;
  init_ptr = v.init_ptr;
  init_slot = v.init_slot;
  init_live = lives-update s.procs i p hl v.init v.init_live;
  parents = λ j hj u.
      HasParent-mono s.procs (update s.procs i p) (update s.procs i p j)
        (lives-update s.procs i p hl) (parents_at j hj u);
}
  where
    parents_at :
        (j : ℕ)
        → j < 64
        → is_unused (update s.procs i p j).state ≡ false
        → HasParent s.procs (update s.procs i p j)
    parents_at j hj u = elim (Bool-cases (j == i)) [
      | inl e ↦ rw e (hp (rw e at u))
      | inr e ↦ rw e (v.parents j hj (rw e at u))
    ]

-- The same, where the entry only changes from one used state to another.
pub restate-IsRooted :
    (s : Ptable) (i : ℕ) (p : Proc)
    → i < 64
    → is_live (s.procs i).state ≡ true
    → is_live p.state ≡ true
    → p.parent ≡ (s.procs i).parent
    → IsRooted s
    → IsRooted (record s { procs = update s.procs i p })
restate-IsRooted s i p hi h h' e v =
    update-IsRooted s i s.nextpid p (λ _. h')
      (λ _. rw e (v.parents i hi (live-used (s.procs i).state h))) v
  where
    live-used : (x : ProcState) → is_live x ≡ true → is_unused x ≡ false
    live-used x l = ground arith

pub free-not_live : (x : ProcState) → is_unused x ≡ true → ¬ (is_live x ≡ true)
free-not_live x u l = ground arith

pub zombie-not_live : (x : ProcState) → is_zombie x ≡ true → ¬ (is_live x ≡ true)
zombie-not_live x u l = ground arith
