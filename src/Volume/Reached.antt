-- ===== src/Volume/Reached.antt =====
-- What an allocation by `bmap` leaves as it was: the bytes of every file.
use hyeonseung_os.Base.{
  ℕ, ◌+◌, ◌≡◌, ◌≢◌, inl, inr, refl, sym, ap, ◌∙◌, Bool, true, false, arith, ◌==◌, if◌then◌else◌,
  ℕ_discrete,
}
use hyeonseung_os.Volume.{Volume}
use hyeonseung_os.Volume.Count.{Spends, free_in-update}
use hyeonseung_os.Volume.Pointers.{Pointer, at, height, IsPointer}
use hyeonseung_os.Volume.Partition.{IsPartitioned, Placed, Placed-IsPartitioned}

-- The bytes of the block at a pointer; a missing block reads as zeros.
abbrev pub content : Volume → Pointer → ℕ → ℕ
content v p k = if at v p == 0 then 0 else v.bytes (at v p) k

-- `v'` comes from `v` by allocations for pointers that held nothing, and has block `a` at `p`.
pub record Reached (v v' : Volume) (p : Pointer) (a : ℕ) : Type 0 where
  pub part : IsPartitioned v'
  pub here : at v' p ≡ a
  pub nonzero : a ≢ 0
  pub kept : (q : Pointer) → IsPointer q → at v q ≢ 0 → at v' q ≡ at v q
  pub same : (q : Pointer) → IsPointer q → height q ≡ 0 → (k : ℕ) → content v' q k ≡ content v q k
  pub sizes :
      (n : ℕ) → ((v'.inodes n).size ≡ (v.inodes n).size) × ((v'.inodes n).kind ≡ (v.inodes n).kind)
  pub limit : v'.limit ≡ v.limit
  pub grows : (b : ℕ) → v.used b ≡ true → v'.used b ≡ true

pub Reached-refl :
    (v : Volume) (p : Pointer) → IsPartitioned v → at v p ≢ 0 → Reached v v p (at v p)
Reached-refl v p s nz = record {
  part = s;
  here = refl;
  nonzero = nz;
  kept = λ q h n. refl;
  same = λ q h l k. refl;
  sizes = λ n. (refl, refl);
  limit = refl;
  grows = λ b u. u;
}

pub Reached-trans :
    (v v₁ v₂ : Volume) (p q : Pointer) (b a : ℕ)
    → Reached v v₁ p b
    → Reached v₁ v₂ q a
    → Reached v v₂ q a
Reached-trans v v₁ v₂ p q b a r s = record {
  part = s.part;
  here = s.here;
  nonzero = s.nonzero;
  kept = λ x h n. s.kept x h (λ z. n (sym (r.kept x h n) ∙ z)) ∙ r.kept x h n;
  same = λ x h l k. s.same x h l k ∙ r.same x h l k;
  sizes = λ n. ((s.sizes n).0 ∙ (r.sizes n).0, (s.sizes n).1 ∙ (r.sizes n).1);
  limit = s.limit ∙ r.limit;
  grows = λ x u. s.grows x (r.grows x u);
}

pub content_none : (v : Volume) (p : Pointer) (k : ℕ) → at v p ≡ 0 → content v p k ≡ 0
content_none v p k e = ground (arith, e)

pub content_some :
    (v : Volume) (p : Pointer) (k : ℕ) → at v p ≢ 0 → content v p k ≡ v.bytes (at v p) k
content_some v p k n = ground arith

pub Placed-content :
    (v v' : Volume) (p : Pointer) (a : ℕ)
    → Placed v v' p a
    → (q : Pointer) → IsPointer q
    → height q ≡ 0
    → (k : ℕ) → content v' q k ≡ content v q k
Placed-content v v' p a g q h l k = elim (g.holds q h) [
  | inl (e, e') ↦
      content_some v' q k (λ z. g.nonzero (sym e' ∙ z))
      ∙ ap (λ b. v'.bytes b k) e'
      ∙ g.blank k
      ∙ sym (content_none v q k (ap (at v) e ∙ g.missing))
  | inr (ne, e) ↦ elim (ℕ_discrete (at v q) 0) [
    | yes z ↦ content_none v' q k (e ∙ z) ∙ sym (content_none v q k z)
    | no nz ↦
        content_some v' q k (λ z. nz (sym e ∙ z))
        ∙ ap (λ b. v'.bytes b k) e
        ∙ ap (λ (f : ℕ → ℕ). f k) (g.leaves q h l nz)
        ∙ sym (content_some v q k nz)
  ]
]

pub Placed-Reached :
    (v v' : Volume) (p : Pointer) (a : ℕ)
    → IsPointer p
    → IsPartitioned v
    → Placed v v' p a
    → Reached v v' p a
Placed-Reached v v' p a hp s g = record {
  part = Placed-IsPartitioned v v' p a s g;
  here = elim (g.holds p hp) [ inl (e, e') ↦ e' | inr (ne, e) ↦ absurd (ne refl) ];
  nonzero = g.nonzero;
  kept = λ q h n. elim (g.holds q h) [
    | inl (e, e') ↦ absurd (n (ap (at v) e ∙ g.missing))
    | inr (ne, e) ↦ e
  ];
  same = Placed-content v v' p a g;
  sizes = g.sizes;
  limit = g.limit;
  grows = λ b u. ap (λ (f : ℕ → Bool). f b) g.used ∙ ground (arith, u);
}

-- A pointer that holds nothing held nothing before.
pub Reached-missing :
    (v v' : Volume) (p : Pointer) (a : ℕ)
    → Reached v v' p a
    → (q : Pointer) → IsPointer q
    → at v' q ≡ 0
    → at v q ≡ 0
Reached-missing v v' p a g q h z = elim (ℕ_discrete (at v q) 0) [
  | yes e ↦ e
  | no ne ↦ absurd (ne (sym (g.kept q h ne) ∙ z))
]

pub Placed-Spends : (v v' : Volume) (p : Pointer) (a : ℕ) → Placed v v' p a → Spends 1 v v'
Placed-Spends v v' p a g = rw (g.used, g.limit) (free_in-update v.limit a v.used)

pub Spends-trans :
    (c d : ℕ) (v v₁ v₂ : Volume) → Spends c v v₁ → Spends d v₁ v₂ → Spends (c + d) v v₂
Spends-trans c d v v₁ v₂ h k = omega (arith, h, k)

pub ==-ne : (x : ℕ) → x ≢ 0 → (x == 0) ≡ false
==-ne x n = ground arith
