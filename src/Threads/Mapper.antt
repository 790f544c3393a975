-- ===== src/Threads/Mapper.antt =====
-- The slots that `mapper` gives out.
use hyeonseung_os.Base.{
  ℕ, zero, suc, ◌+◌, ◌≤◌, ◌<◌, ◌≡◌, ◌≢◌, inl, inr, false, Option, none, some, arith, ◌==◌,
  Bool-cases, ℕ_discrete,
}
use hyeonseung_os.Threads.{Thread, free_slot, take_slot, mapper}

pub data Slot (n from : ℕ) (th : ℕ → ℕ) : Option ℕ → Type 0 where
  hit :
      {i : ℕ}
      → from ≤ i
      → i < from + n
      → th i ≡ 0
      → ((j : ℕ) → from ≤ j → j < i → th j ≢ 0)
      → Slot n from th (some i)
  miss : ((j : ℕ) → from ≤ j → j < from + n → th j ≢ 0) → Slot n from th none

free_slot-Slot : (n from : ℕ) (th : ℕ → ℕ) → Slot n from th (free_slot n from th)
unfolding free_slot
free_slot-Slot zero from th = miss (λ j l u. absurd (omega arith))
free_slot-Slot (suc n) from th = elim (Bool-cases (th from == 0)) [
  | inl z ↦ rw z (hit (omega arith) (omega arith) (ground arith) (λ j l u. absurd (omega arith)))
  | inr z ↦ rw z (later z (free_slot-Slot n (from + 1) th))
]
  where
    step : (th from == 0) ≡ false → (j : ℕ) → from ≤ j → (from + 1 ≤ j → th j ≢ 0) → th j ≢ 0
    step z j l h = elim (ℕ_discrete j from) [
      | yes e ↦ λ y. ground (arith, e)
      | no ne ↦ h (omega arith)
    ]

    later :
        {r : Option ℕ} → (th from == 0) ≡ false → Slot n (from + 1) th r → Slot (suc n) from th r
    later z (hit l u e f) = hit (omega arith) (omega arith) e (λ j a b. step z j a (λ a'. f j a' b))
    later z (miss m) = miss (λ j a b. step z j a (λ a'. m j a' (omega arith)))

-- The least free slot from 1 to 99, or 100 if there is none.
pub data Mapped (pid : ℕ) (p : Thread) : ℕ × Thread → Type 0 where
  slot :
      (i : ℕ)
      → 1 ≤ i
      → i < 100
      → p.thread i ≡ 0
      → ((j : ℕ) → 1 ≤ j → j < i → p.thread j ≢ 0)
      → Mapped pid p (i, take_slot i pid p)
  full : ((j : ℕ) → 1 ≤ j → j < 100 → p.thread j ≢ 0) → Mapped pid p (100, p)

pub mapper-Mapped : (pid : ℕ) (p : Thread) → Mapped pid p (mapper pid p)
unfolding mapper
mapper-Mapped pid p = found _ (free_slot-Slot 99 1 p.thread)
  where
    found :
        (r : Option ℕ)
        → Slot 99 1 p.thread r
        → Mapped pid p (elim r [ none ↦ (100, p) | some i ↦ (i, take_slot i pid p) ])
    found (some i) (hit l u e f) = slot i l u e f
    found none (miss m) = full m
