-- ===== src/Process/Table.antt =====
-- What the scans and the wakeups of proc.c do to the table, entry by entry.
use hyeonseung_os.Base.{
  ℕ, zero, suc, ◌+◌, ◌≤◌, ◌<◌, ◌≡◌, inl, inr, Bool, true, false, ◌&&◌, none, some, arith, ltb, leb,
  if◌then◌else◌, for_range-update, Bool-cases, Option-cases, some-injective, none≢some, true≢false,
  ℕ_discrete, sym, ◌∙◌,
}
use hyeonseung_os.Process.{Proc, Table, nproc, find_proc, wake, wakeup1}

-- The entry that a scan finds is in range and passes, and none before it does.
pub record Found (test : Proc → Bool) (t : Table) (from n i : ℕ) : Type 0 where
  pub lower : from ≤ i
  pub upper : i < from + n
  pub passes : test (t i) ≡ true
  pub first : (j : ℕ) → from ≤ j → j < i → test (t j) ≡ false

pub find_proc-Found :
    (test : Proc → Bool) (t : Table) (n from : ℕ) {i : ℕ}
    → find_proc test t n from ≡ some i
    → Found test t from n i
unfolding find_proc
find_proc-Found test t zero from e = cc
find_proc-Found test t (suc n) from {i} e = elim (Bool-cases (test (t from))) [
  | inl h ↦
      let at : from ≡ i = some-injective _ _ (rw h at e) in
      rw (← at) (record {
        lower = omega arith;
        upper = omega arith;
        passes = h;
        first = λ j a b. absurd (omega arith);
      })
  | inr h ↦
      let ih : Found test t (from + 1) n i = find_proc-Found test t n (from + 1) (rw h at e) in
      record {
        lower = omega (arith, ih.lower);
        upper = omega (arith, ih.upper);
        passes = ih.passes;
        first = λ j a b. elim (ℕ_discrete j from) [
          | yes e' ↦ rw e' h
          | no ne ↦ ih.first j (omega arith) b
        ];
      }
]

-- A scan that finds nothing has seen every entry fail.
pub find_proc-none :
    (test : Proc → Bool) (t : Table) (n from j : ℕ)
    → find_proc test t n from ≡ none
    → from ≤ j
    → j < from + n
    → test (t j) ≡ false
unfolding find_proc
find_proc-none test t zero from j e h k = absurd (omega arith)
find_proc-none test t (suc n) from j e h k = elim (Bool-cases (test (t from))) [
  | inl p ↦ absurd (none≢some from (sym (rw p at e)))
  | inr p ↦ elim (ℕ_discrete j from) [
    | yes e' ↦ rw e' p
    | no ne ↦ find_proc-none test t n (from + 1) j (rw p at e) (omega arith) (omega arith)
  ]
]

-- If an entry passes, the scan finds one.
pub find_proc-some :
    (test : Proc → Bool) (t : Table) (n j : ℕ)
    → j < n
    → test (t j) ≡ true
    → (i : ℕ) × (find_proc test t n 0 ≡ some i) × Found test t 0 n i
find_proc-some test t n j h p = elim (Option-cases (find_proc test t n 0)) [
  | inl e ↦ absurd (true≢false (sym p ∙ find_proc-none test t n 0 j e (omega arith) (omega arith)))
  | inr (i, e) ↦ (i, e, find_proc-Found test t n 0 e)
]

in_range {ℓ} :
    {A : Type ℓ} (j : ℕ) (a b : A)
    → (if leb 0 j && ltb j (0 + 64) then a else b) ≡ (if ltb j 64 then a else b)
in_range j a b = ground arith

-- `wakeup1` does `wake` to every entry of the table.
pub wakeup1-wake :
    (chan : ℕ) (t : Table) (j : ℕ)
    → wakeup1 chan t j ≡ (if ltb j nproc then wake chan (t j) else t j)
unfolding wakeup1
wakeup1-wake chan t j = for_range-update (wake chan) 64 0 t j ∙ in_range j (wake chan (t j)) (t j)
