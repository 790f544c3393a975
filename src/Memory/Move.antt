-- ===== src/Memory/Move.antt =====
-- `memmove` of xv6-public/string.c, for ranges that may overlap.
use hyeonseung_os.Base.{
  ℕ, zero, suc, ◌+◌, ◌-◌, ◌≤◌, ◌<◌, ◌≡◌, ◌⊎◌, inl, inr, ◌&&◌, arith, ltb, leb, if◌then◌else◌,
  update, Bool-cases,
}
use hyeonseung_os.Memory.{Bytes, copy_down, copy_up, memmove}

-- What a copy of `n` bytes is to leave at address `i`.
abbrev pub moved : ℕ → ℕ → ℕ → Bytes → ℕ → ℕ
moved dst src n m i = if leb dst i && ltb i (dst + n) then m (src + (i - dst)) else m i

copy_down-moved :
    (n dst src : ℕ) (m : Bytes) (i : ℕ)
    → src < dst
    → copy_down n (dst + n) (src + n) m i ≡ moved dst src n m i
unfolding copy_down
copy_down-moved zero dst src m i h = ground arith
copy_down-moved (suc n) dst src m i h =
    let d : dst + suc n - 1 ≡ dst + n = omega arith in
    let s : src + suc n - 1 ≡ src + n = omega arith in
    rw (d, s) (ground (arith, copy_down-moved n dst src (update m (dst + n) (m (src + n))) i h))

copy_up-moved :
    (n dst src : ℕ) (m : Bytes) (i : ℕ)
    → (dst ≤ src) ⊎ (src + n ≤ dst)
    → copy_up n dst src m i ≡ moved dst src n m i
unfolding copy_up
copy_up-moved zero dst src m i h = ground arith
copy_up-moved (suc n) dst src m i h =
    ground (arith, copy_up-moved n (dst + 1) (src + 1) (update m dst (m src)) i (ground arith))

-- However the two ranges overlap, `memmove` leaves at the destination the bytes that the source had
-- before the call, and every other byte as it was.
pub memmove-moved :
    (dst src n : ℕ) (m : Bytes) (i : ℕ) → memmove dst src n m i ≡ moved dst src n m i
unfolding memmove
memmove-moved dst src n m i = elim (Bool-cases (ltb src dst && ltb dst (src + n))) [
  | inl e ↦ rw e (copy_down-moved n dst src m i (ground arith))
  | inr e ↦ rw e (copy_up-moved n dst src m i (ground arith))
]
