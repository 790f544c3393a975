-- ===== src/Log/Space.antt =====
-- Who may write to the log, and whether it has room: `begin_op`, `log_write` and `end_op`.
use hyeonseung_os.Base.{
  ℕ, zero, suc, ◌+◌, ◌-◌, ◌*◌, ◌≤◌, ◌<◌, ◌≡◌, ◌⊎◌, Bool, true, false, arith, ◌==◌, ltb, leb, ◌||◌,
  List, [], ◌∷◌, Option, none, some, if◌then◌else◌, length, get_elem?, set, update,
}
use hyeonseung_os.Log.{LogHeader, logsize, maxopblocks}

-- `struct log`, less the lock, the device and `start`.
pub record LogState : Type 0 where
  pub lh : LogHeader
  pub size : ℕ
  pub outstanding : ℕ
  pub committing : Bool

-- One round of the loop of `begin_op`: `none` is a sleep.
unfoldable pub begin_op : LogState → Option LogState
begin_op s =
    if s.committing
    then none
    else (if ltb logsize (s.lh.n + (s.outstanding + 1) * maxopblocks)
        then none
        else some (record s { outstanding = s.outstanding + 1 }))

-- The loop of `log_write`: the index of the block in the log, or `n`.
unfoldable pub absorb : ℕ → ℕ → ℕ → (ℕ → ℕ) → ℕ
absorb zero i b block = i
absorb (suc k) i b block = let rest = absorb k (i + 1) b block in if block i == b then i else rest

-- `log_write` of block `b`; `none` is one of its two panics.
unfoldable pub log_write : ℕ → LogState → Option LogState
unfolding absorb
log_write b s =
    let i : ℕ = absorb s.lh.n 0 b s.lh.block in
    let h : LogHeader = record {
      n = if i == s.lh.n then s.lh.n + 1 else s.lh.n;
      block = update s.lh.block i b;
    } in
    if leb logsize s.lh.n || leb (s.size - 1) s.lh.n
    then none
    else (if ltb s.outstanding 1 then none else some (record s { lh = h }))

-- The first half of `end_op`, up to the release of the lock: `none` is the panic, and the Boolean says
-- whether the caller commits. The second half clears `committing` after `commit`, which leaves `n` at 0.
-- It is for a call that runs: with no call running the int `outstanding` would go to -1, and here stays 0.
unfoldable pub end_op : LogState → Option (Bool × LogState)
end_op s =
    let s' : LogState = record s { outstanding = s.outstanding - 1 } in
    if s.committing
    then none
    else (if s'.outstanding == 0
        then some (true, record s' { committing = true })
        else some (false, s'))

unfoldable pub end_commit : LogState → LogState
end_commit s = record s { lh = record (s.lh) { n = 0 }; committing = false }

-- The log with the number of blocks that each running call has written so far.
pub record Running : Type 0 where
  pub log : LogState
  pub used : List ℕ

-- What the running calls may still write.
unfoldable pub reserved : List ℕ → ℕ
reserved [] = 0
reserved (u ∷ us) = (10 - u) + reserved us

pub record HasRoom (r : Running) : Type 0 where
  pub counted : r.log.outstanding ≡ length r.used
  pub room : r.log.lh.n + reserved r.used ≤ 30
  pub quiet : (r.log.committing ≡ false) ⊎ (length r.used ≡ 0)

pub reserved-le : (us : List ℕ) → reserved us ≤ 10 * length us
unfolding reserved
reserved-le [] = omega arith
reserved-le (u ∷ us) = omega (arith, reserved-le us)

pub reserved-set :
    (us : List ℕ) (k u : ℕ)
    → get_elem? us k ≡ some u
    → u < 10
    → reserved (set us k (u + 1)) + 1 ≡ reserved us
unfolding reserved
reserved-set [] k u e h = cc
reserved-set (x ∷ us) zero u e h = ground arith
reserved-set (x ∷ us) (suc k) u e h = omega (arith, reserved-set us k u e h)
