-- ===== src/Volume/Count.antt =====
-- How many blocks are free, and how many a call of `bmap`, `readi` or `writei` may take.
use hyeonseung_os.Base.{
  ℕ, zero, suc, ◌+◌, ◌-◌, ◌*◌, ◌/◌, ◌%◌, ◌≤◌, ◌<◌, ◌≡◌, ◌≢◌, refl, Bool, true, arith, ◌==◌,
  if◌then◌else◌, update, update_ne, ℕ_discrete,
}
use hyeonseung_os.Volume.{Volume, maxfile}
use hyeonseung_os.Volume.Blocks.{AllUsed}
use hyeonseung_os.Volume.Pointers.{Pointer, root, child, at, locate}
use hyeonseung_os.Volume.Transfer.{chunk}

-- The free blocks below `n`.
unfoldable pub free_in : ℕ → (ℕ → Bool) → ℕ
free_in zero used = 0
free_in (suc n) used = (if used n then 0 else 1) + free_in n used

abbrev pub free_blocks : Volume → ℕ
free_blocks v = free_in v.limit v.used

-- At most `c` blocks have been taken.
abbrev pub Spends : ℕ → Volume → Volume → Type 0
Spends c v v' = free_blocks v ≤ free_blocks v' + c

pub free_in_full : (n : ℕ) (used : ℕ → Bool) → AllUsed 0 n used → free_in n used ≡ 0
unfolding free_in
free_in_full zero used all = refl
free_in_full (suc n) used all =
    let ih = free_in_full n used (λ j l h. all j l (omega arith)) in
    rw (all n (omega arith) (omega arith)) (omega (arith, ih))

free_in_above :
    (n a : ℕ) (used : ℕ → Bool) → n ≤ a → free_in n (update used a true) ≡ free_in n used
unfolding free_in
free_in_above zero a used h = refl
free_in_above (suc n) a used h =
    rw (update_ne used a true n (omega arith), free_in_above n a used (omega arith)) refl

-- To mark a block takes one at most.
pub free_in-update :
    (n a : ℕ) (used : ℕ → Bool) → free_in n used ≤ free_in n (update used a true) + 1
unfolding free_in
free_in-update zero a used = omega arith
free_in-update (suc n) a used = elim (ℕ_discrete n a) [
  | yes e ↦ let same = free_in_above n a used (omega arith) in rw same (ground arith)
  | no ne ↦ let ih = free_in-update n a used in rw (update_ne used a true n ne) (omega (arith, ih))
]

-- The blocks on the way from the inode to the one at a pointer, that one included.
abbrev pub levels : Pointer → ℕ
levels (root n i) = 1
levels (child p i) = levels p + 1

pub levels-locate : (n bn : ℕ) → levels (locate n bn) ≤ 4
unfolding locate
levels-locate n bn = ground arith

-- The blocks that `len` bytes from `off` on lie in.
abbrev pub touched : ℕ → ℕ → ℕ
touched off len = if len == 0 then 0 else (off % 512 + len + 511) / 512

-- One of the `len` bytes from `off` on of file `n` has no block.
abbrev pub HasHole : Volume → ℕ → ℕ → ℕ → Type 0
HasHole v n off len = (k : ℕ) × (off ≤ k) × (k < off + len) × (at v (locate n (k / 512)) ≡ 0)

-- There is a hole, if there was none that has been filled, and the later bytes have one.
pub HasHole-later :
    (v v' : Volume) (n off m left : ℕ)
    → m ≤ left
    → off + left ≤ maxfile * 512
    → ((i b : ℕ) → b < maxfile → at v (locate i b) ≢ 0 → at v' (locate i b) ≢ 0)
    → HasHole v' n (off + m) (left - m)
    → HasHole v n off left
HasHole-later v v' n off m left le fits kept (k, lo, hi, z) = (
  k,
  omega arith,
  omega arith,
  elim (ℕ_discrete (at v (locate n (k / 512))) 0) [
    | yes e ↦ e
    | no ne ↦ absurd (kept n (k / 512) (omega arith) ne z)
  ],
)

pub touched-chunk :
    (off left : ℕ)
    → left ≢ 0
    → touched off left ≡ 1 + touched (off + chunk left off) (left - chunk left off)
touched-chunk off left nz = elim (ℕ_discrete (left - chunk left off) 0) [
  | yes z ↦ ground arith
  | no more ↦
      let e : chunk left off ≡ 512 - off % 512 = omega arith in
      let al : (off + (512 - off % 512)) % 512 ≡ 0 = omega arith in rw e (ground (arith, al))
]
