-- ===== src/Volume/Blocks.antt =====
-- What `balloc` and `bfree` do to the free map.
use hyeonseung_os.Base.{
  ℕ, zero, suc, ◌+◌, ◌-◌, ◌/◌, ◌≤◌, ◌<◌, ◌≡◌, ◌≢◌, update_self, update_ne, fun_ext, ◌⊎◌, inl, inr,
  refl, min, Bool, true, false, Option, none, some, ◌>>=◌, arith, update, Bool-cases, ℕ_discrete,
  dec_lt, ◌*◌,
}
use hyeonseung_os.Volume.{Volume, bpb, free_bit, scan_map, taken, balloc, bfree}

-- Block `a` is the first free one from `from` on.
pub record IsFirst (from to a : ℕ) (used : ℕ → Bool) : Type 0 where
  pub lower : from ≤ a
  pub upper : a < to
  pub free : used a ≡ false
  pub first : (j : ℕ) → from ≤ j → j < a → used j ≡ true

abbrev pub AllUsed : ℕ → ℕ → (ℕ → Bool) → Type 0
AllUsed from to used = (j : ℕ) → from ≤ j → j < to → used j ≡ true

pub data Search (from to : ℕ) (used : ℕ → Bool) : Option ℕ → Type 0 where
  hit : {a : ℕ} → IsFirst from to a used → Search from to used (some a)
  miss : AllUsed from to used → Search from to used none

free_bit-Search : (n b to : ℕ) (used : ℕ → Bool) → b + n ≡ to → Search b to used (free_bit n b used)
unfolding free_bit
free_bit-Search zero b to used e = miss (λ j l u. absurd (omega arith))
free_bit-Search (suc n) b to used e = elim (Bool-cases (used b)) [
  | inl u ↦ rw u (later b to used u (free_bit-Search n (b + 1) to used (omega arith)))
  | inr f ↦ rw f (
      hit (record {
        lower = omega arith;
        upper = omega arith;
        free = f;
        first = λ j l h. absurd (omega arith);
      }))
]
  where
    later :
        (b to : ℕ) (used : ℕ → Bool) {r : Option ℕ}
        → used b ≡ true
        → Search (b + 1) to used r
        → Search b to used r
    later b to used u (hit f) = hit (record {
      lower = omega (arith, f.lower);
      upper = f.upper;
      free = f.free;
      first = λ j l h. elim (ℕ_discrete j b) [ yes z ↦ rw z u | no n ↦ f.first j (omega arith) h ];
    })
    later b to used u (miss m) =
        miss (λ j l h. elim (ℕ_discrete j b) [ yes z ↦ rw z u | no n ↦ m j (omega arith) h ])

-- A search of two stretches, one after the other.
joined :
    (from mid to : ℕ) (used : ℕ → Bool) {r r' : Option ℕ}
    → from ≤ mid
    → mid ≤ to
    → Search from mid used r
    → Search mid to used r'
    → Search from to used (elim r [ some a ↦ some a | none ↦ r' ])
joined from mid to used l l' (hit f) s =
    hit (record { lower = f.lower; upper = omega (arith, f.upper); free = f.free; first = f.first })
joined from mid to used l l' (miss m) (hit f) = hit (record {
  lower = omega (arith, f.lower);
  upper = f.upper;
  free = f.free;
  first = λ j h k. elim (dec_lt j mid) [
    | yes below ↦ m j h below
    | no above ↦ f.first j (omega arith) k
  ];
})
joined from mid to used l l' (miss m) (miss m') =
    miss
      (λ j h k. elim (dec_lt j mid) [ yes below ↦ m j h below | no above ↦ m' j (omega arith) k ])

scan_past : (rounds b : ℕ) (v : Volume) → v.limit ≤ b → scan_map rounds b v ≡ none
unfolding scan_map free_bit
scan_past zero b v h = refl
scan_past (suc rounds) b v h =
    let width : min bpb (v.limit - b) ≡ 0 = omega arith in
    rw (width, scan_map) (scan_past rounds (b + bpb) v (omega arith))

scan_map-Search :
    (rounds b : ℕ) (v : Volume)
    → b ≤ v.limit
    → v.limit ≤ b + rounds * bpb
    → Search b v.limit v.used (scan_map rounds b v)
unfolding scan_map
scan_map-Search zero b v l h = miss (λ j a c. absurd (omega arith))
scan_map-Search (suc rounds) b v l h = elim (dec_lt (b + bpb) v.limit) [
  | yes more ↦
      let width : min bpb (v.limit - b) ≡ bpb = omega arith in
      joined b (b + bpb) v.limit v.used {r = free_bit (min bpb (v.limit - b)) b v.used}
        {r' = scan_map rounds (b + bpb) v} (omega arith) (omega arith)
        (rw width (free_bit-Search bpb b (b + bpb) v.used refl))
        (scan_map-Search rounds (b + bpb) v (omega arith) (omega arith))
  | no last ↦
      let width : min bpb (v.limit - b) ≡ v.limit - b = omega arith in
      joined b v.limit v.limit v.used {r = free_bit (min bpb (v.limit - b)) b v.used}
        {r' = scan_map rounds (b + bpb) v} l (omega arith)
        (rw width (free_bit-Search (v.limit - b) b v.limit v.used (omega arith)))
        (rw (scan_past rounds (b + bpb) v (omega arith)) (miss (λ j a c. absurd (omega arith))))
]

-- What a call of `balloc` does: the first free block is marked and zeroed, or there is none.
pub data Allocation (v : Volume) : Option (ℕ × Volume) → Type 0 where
  got : {a : ℕ} → IsFirst 0 v.limit a v.used → Allocation v (some (a, taken a v))
  full : AllUsed 0 v.limit v.used → Allocation v none

pub balloc-Allocation : (v : Volume) → Allocation v (balloc v)
unfolding balloc
balloc-Allocation v =
    go (scan_map-Search ((v.limit + (bpb - 1)) / bpb) 0 v (omega arith) (omega arith))
  where
    go : {r : Option ℕ} → Search 0 v.limit v.used r → Allocation v (r >>= λ a. some (a, taken a v))
    go (hit f) = got f
    go (miss m) = full m

-- To free the block that has just been marked gives the free map back.
unmarked :
    (a : ℕ) (v : Volume)
    → v.used a ≡ false
    → (v'' : Volume) × (bfree a (taken a v) ≡ some v'') × (v''.used ≡ v.used)
unfolding bfree
unmarked a v f = (
  record (taken a v) { used = update (update v.used a true) a false },
  ground arith,
  fun_ext λ b. ground (arith, f),
)

-- `balloc` gives out the free block of least number, marked and zeroed, changes no other block, and to
-- free the block again gives the free map back as it was; if no block is free, it panics.
pub balloc_least :
    (v : Volume)
    → ((balloc v ≡ none) × AllUsed 0 v.limit v.used)
      ⊎ ((a : ℕ) × (v' : Volume) × (v'' : Volume) × (balloc v ≡ some (a, v'))
          × (bfree a v' ≡ some v'')
          × IsFirst 0 v.limit a v.used
          × (v'.used a ≡ true)
          × ((k : ℕ) → v'.bytes a k ≡ 0)
          × ((b : ℕ) → b ≢ a → (v'.used b ≡ v.used b) × (v'.bytes b ≡ v.bytes b))
          × (v''.used ≡ v.used))
balloc_least v = go refl (balloc-Allocation v)
  where
    go :
        {r : Option (ℕ × Volume)}
        → balloc v ≡ r
        → Allocation v r
        → ((balloc v ≡ none) × AllUsed 0 v.limit v.used)
          ⊎ ((a : ℕ) × (v' : Volume) × (v'' : Volume) × (balloc v ≡ some (a, v'))
              × (bfree a v' ≡ some v'')
              × IsFirst 0 v.limit a v.used
              × (v'.used a ≡ true)
              × ((k : ℕ) → v'.bytes a k ≡ 0)
              × ((b : ℕ) → b ≢ a → (v'.used b ≡ v.used b) × (v'.bytes b ≡ v.bytes b))
              × (v''.used ≡ v.used))
    go e (got {a} f) =
        let (v'', e', u) = unmarked a v f.free in
        inr (
          a,
          taken a v,
          v'',
          e,
          e',
          f,
          update_self v.used a true,
          (λ k. ground arith),
          (λ b n. (update_ne v.used a true b n, update_ne v.bytes a (λ k. 0) b n)),
          u,
        )
    go e (full m) = inl (e, m)
