-- ===== src/Volume/Partition.antt =====
-- No block is in two files: what holds of the pointers of all inodes, and the step that adds one.
use hyeonseung_os.Base.{
  ℕ, suc, ◌^◌, ◌≤◌, ◌≡◌, ◌≢◌, ◌⊎◌, inl, inr, refl, sym, ap, ◌∙◌, true, false, arith, update,
  update_self, ℕ_discrete, true≢false, fun_ext,
}
use hyeonseung_os.Volume.{Volume, word}
use hyeonseung_os.Volume.Words.{word-zeros}
use hyeonseung_os.Volume.Pointers.{Pointer, root, child, at, height, IsPointer}

-- Every block that a pointer holds is marked, and no two pointers hold the same block. Block 0, the boot
-- block, is marked.
pub record IsPartitioned (v : Volume) : Type 0 where
  pub boot : v.used 0 ≡ true
  pub small : v.limit ≤ 2 ^ 32
  pub marked : (p : Pointer) → IsPointer p → at v p ≢ 0 → v.used (at v p) ≡ true
  pub apart : (p q : Pointer) → IsPointer p → IsPointer q → at v p ≢ 0 → at v p ≡ at v q → p ≡ q

-- The new block `a` is at `p`, and every other pointer holds what it held.
abbrev pub Holds : Volume → Volume → Pointer → ℕ → Pointer → Type 0
Holds v v' p a q = ((q ≡ p) × (at v' q ≡ a)) ⊎ ((q ≢ p) × (at v' q ≡ at v q))

-- `v'` is `v` with the free block `a` zeroed, marked, and stored at the pointer `p`, which held none.
pub record Placed (v v' : Volume) (p : Pointer) (a : ℕ) : Type 0 where
  pub nonzero : a ≢ 0
  pub fresh : v.used a ≡ false
  pub used : v'.used ≡ update v.used a true
  pub limit : v'.limit ≡ v.limit
  pub missing : at v p ≡ 0
  pub holds : (q : Pointer) → IsPointer q → Holds v v' p a q
  pub blank : (k : ℕ) → v'.bytes a k ≡ 0
  pub leaves :
      (q : Pointer) → IsPointer q → height q ≡ 0 → at v q ≢ 0 → v'.bytes (at v q) ≡ v.bytes (at v q)
  pub sizes :
      (n : ℕ) → ((v'.inodes n).size ≡ (v.inodes n).size) × ((v'.inodes n).kind ≡ (v.inodes n).kind)

unfoldable pub depth : Pointer → ℕ
depth (root n i) = 0
depth (child p i) = suc (depth p)

pub child-ne : (p : Pointer) (i : ℕ) → p ≢ child p i
unfolding depth
child-ne p i e = let d = ap depth e in absurd (omega arith)

unfoldable pub last_of : Pointer → ℕ
last_of (root n i) = i
last_of (child p i) = i

unfoldable pub parent_of : Pointer → Pointer
parent_of (root n i) = root n i
parent_of (child p i) = p

pub child-injective : (q p : Pointer) (j i : ℕ) → child q j ≡ child p i → (q ≡ p) × (j ≡ i)
unfolding last_of parent_of
child-injective q p j i e = (ap parent_of e, ap last_of e)

pub fresh-ne :
    (v : Volume) (p : Pointer) (a : ℕ)
    → IsPartitioned v
    → IsPointer p
    → v.used a ≡ false
    → at v p ≢ 0
    → at v p ≢ a
fresh-ne v p a s h f nz e = true≢false (sym (s.marked p h nz) ∙ ap v.used e ∙ f)

pub fresh_nonzero : (v : Volume) (a : ℕ) → IsPartitioned v → v.used a ≡ false → a ≢ 0
fresh_nonzero v a s f e = true≢false (sym s.boot ∙ sym (ap v.used e) ∙ f)

pub at-child_none : (v : Volume) (p : Pointer) (i : ℕ) → at v p ≡ 0 → at v (child p i) ≡ 0
unfolding at
at-child_none v p i e = rw e refl

pub at-child :
    (v : Volume) (p : Pointer) (i : ℕ) → at v p ≢ 0 → at v (child p i) ≡ word (v.bytes (at v p)) i
unfolding at
at-child v p i n = ground arith

-- A pointer below one that has just been filled holds nothing, before and after.
pub below_new :
    (v v' : Volume) (q : Pointer) (j a : ℕ)
    → a ≢ 0
    → at v q ≡ 0
    → at v' q ≡ a
    → ((k : ℕ) → v'.bytes a k ≡ 0)
    → at v' (child q j) ≡ at v (child q j)
below_new v v' q j a nz e e' z =
    let zeros : v'.bytes (at v' q) ≡ (λ k. 0) = ap v'.bytes e' ∙ fun_ext z in
    at-child v' q j (λ h. nz (sym e' ∙ h))
    ∙ ap (λ b. word b j) zeros
    ∙ word-zeros j
    ∙ sym (at-child_none v q j e)

-- A pointer below one that holds the same block, which has not changed.
pub below_same :
    (v v' : Volume) (q : Pointer) (j : ℕ)
    → at v' q ≡ at v q
    → (at v q ≢ 0 → v'.bytes (at v q) ≡ v.bytes (at v q))
    → at v' (child q j) ≡ at v (child q j)
below_same v v' q j e same = elim (ℕ_discrete (at v q) 0) [
  | yes z ↦ at-child_none v' q j (e ∙ z) ∙ sym (at-child_none v q j z)
  | no nz ↦
      at-child v' q j (λ h. nz (sym e ∙ h))
      ∙ ap (λ x. word (v'.bytes x) j) e
      ∙ ap (λ b. word b j) (same nz)
      ∙ sym (at-child v q j nz)
]

-- The step keeps every block to one pointer.
pub Placed-IsPartitioned :
    (v v' : Volume) (p : Pointer) (a : ℕ) → IsPartitioned v → Placed v v' p a → IsPartitioned v'
Placed-IsPartitioned v v' p a s g = record {
  boot = rw g.used (keeps 0 s.boot);
  small = rw g.limit s.small;
  marked = λ q h nz. elim (g.holds q h) [
    | inl (e, e') ↦
        ap (λ u. u (at v' q)) g.used ∙ ap (update v.used a true) e' ∙ update_self v.used a true
    | inr (ne, e) ↦
        ap (λ u. u (at v' q)) g.used
        ∙ ap (update v.used a true) e
        ∙ keeps (at v q) (s.marked q h (λ z. nz (e ∙ z)))
  ];
  apart = λ q r hq hr nz same. elim (g.holds q hq) [
    | inl (e, e') ↦ elim (g.holds r hr) [
      | inl (k, k') ↦ e ∙ sym k
      | inr (nk, k) ↦
          absurd (old r hr (λ z. g.nonzero (sym e' ∙ same ∙ k ∙ z)) (sym k ∙ sym same ∙ e'))
    ]
    | inr (ne, e) ↦ elim (g.holds r hr) [
      | inl (k, k') ↦ absurd (old q hq (λ z. nz (e ∙ z)) (sym e ∙ same ∙ k'))
      | inr (nk, k) ↦ s.apart q r hq hr (λ z. nz (e ∙ z)) (sym e ∙ same ∙ k)
    ]
  ];
}
  where
    keeps : (b : ℕ) → v.used b ≡ true → update v.used a true b ≡ true
    keeps b u = ground (arith, u)

    old : (q : Pointer) → IsPointer q → at v q ≢ 0 → at v q ≢ a
    old q h nz = fresh-ne v q a s h g.fresh nz
