-- ===== src/Volume/Placing.antt =====
-- The step of `ensure` that adds a block, at an inode and in an indirect block.
use hyeonseung_os.Base.{ℕ, ◌≡◌, ◌≢◌, inl, inr, refl, sym, ap, ◌∙◌, arith, update_ne, ℕ_discrete}
use hyeonseung_os.Volume.{Volume, word, taken, set_addr, set_entry, set_word}
use hyeonseung_os.Volume.Words.{word-set_word_self, word-set_word_ne}
use hyeonseung_os.Volume.Blocks.{IsFirst}
use hyeonseung_os.Volume.Pointers.{Pointer, root, child, Pointer-discrete, at, height, IsPointer}
use hyeonseung_os.Volume.Partition.{
  child-ne, child-injective, fresh-ne, fresh_nonzero, below_new, below_same, IsPartitioned, Holds,
  Placed, at-child,
}

-- A free block in one of the `addrs` of an inode.
module _ (n i a : ℕ) (v : Volume) (s : IsPartitioned v) (f : IsFirst 0 v.limit a v.used)
    (none_yet : (v.inodes n).addrs i ≡ 0) where
  abbrev rooted : Volume
  rooted = set_addr n i a (taken a v)

  root_bytes_new : (k : ℕ) → rooted.bytes a k ≡ 0
  unfolding set_addr
  root_bytes_new k = ground arith

  root_bytes_other : (b : ℕ) → b ≢ a → rooted.bytes b ≡ v.bytes b
  unfolding set_addr
  root_bytes_other b m = update_ne v.bytes a (λ k. 0) b m

  root-Holds_root : (m j : ℕ) → Holds v rooted (root n i) a (root m j)
  unfolding at set_addr
  root-Holds_root m j = elim (Pointer-discrete (root m j) (root n i)) [
    | yes e ↦ inl (e, ground (arith, e))
    | no ne ↦ inr (
      ne,
      elim (ℕ_discrete m n) [
        | yes e ↦ elim (ℕ_discrete j i) [
          | yes e' ↦ absurd (ne (rw (e, e') refl))
          | no ne' ↦ ground arith
        ]
        | no ne' ↦ ground arith
      ],
    )
  ]

  root-Holds : (q : Pointer) → IsPointer q → Holds v rooted (root n i) a q
  root-Holds (root m j) h = root-Holds_root m j
  root-Holds (child q j) (hq, hi, hj) = elim (root-Holds q hq) [
    | inl (e, e') ↦
        let gone : at v q ≡ 0 = rw e (unfold at in none_yet) in
        inr (cc, below_new v rooted q j a (fresh_nonzero v a s f.free) gone e' root_bytes_new)
    | inr (ne, e) ↦ inr (
      cc,
      below_same v rooted q j e (λ nz. root_bytes_other (at v q) (fresh-ne v q a s hq f.free nz)),
    )
  ]

-- A free block in an indirect block.
module _ (p : Pointer) (i a : ℕ) (v : Volume) (s : IsPartitioned v) (f : IsFirst 0 v.limit a v.used)
    (valid : IsPointer (child p i)) (parent : at v p ≢ 0)
    (none_yet : word (v.bytes (at v p)) i ≡ 0) where
  abbrev after : Volume
  after = set_entry (at v p) i a (taken a v)

  parent-ne : at v p ≢ a
  parent-ne = fresh-ne v p a s valid.0 f.free parent

  bytes_new : (k : ℕ) → after.bytes a k ≡ 0
  unfolding set_entry
  bytes_new k = ground (arith, parent-ne)

  bytes_parent : after.bytes (at v p) ≡ set_word (v.bytes (at v p)) i a
  unfolding set_entry
  bytes_parent = ground (arith, parent-ne)

  bytes_other : (b : ℕ) → b ≢ a → b ≢ at v p → after.bytes b ≡ v.bytes b
  unfolding set_entry
  bytes_other b m n = ground arith

  entry-Holds_below :
      (q : Pointer) (j : ℕ)
      → IsPointer q
      → at after q ≡ at v q
      → Holds v after (child p i) a (child q j)
  entry-Holds_below q j hq e = elim (Pointer-discrete q p) [
    | yes z ↦
        let nz : at after q ≢ 0 = (λ h. parent (sym (ap (at v) z) ∙ sym e ∙ h)) in
        let b : at after (child q j) ≡ word (set_word (v.bytes (at v p)) i a) j =
          at-child after q j nz
          ∙ ap (λ x. word (after.bytes x) j) (e ∙ ap (at v) z)
          ∙ ap (λ x. word x j) bytes_parent in
        elim (ℕ_discrete j i) [
          | yes y ↦ inl (
            rw (z, y) refl,
            b ∙ rw y (word-set_word_self (v.bytes (at v p)) i a (omega (arith, s.small, f.upper))),
          )
          | no y ↦ inr (
            (λ same. y (child-injective q p j i same).1),
            b
                ∙ word-set_word_ne (v.bytes (at v p)) i j a y
                ∙ sym (at-child v q j (λ h. nz (e ∙ h)) ∙ ap (λ x. word (v.bytes (at v x)) j) z),
          )
        ]
    | no nz ↦ inr (
      (λ same. nz (child-injective q p j i same).0),
      below_same v after q j e (λ here.
          bytes_other (at v q) (fresh-ne v q a s hq f.free here)
            (λ same. nz (s.apart q p hq valid.0 here same))),
    )
  ]

  entry-Holds : (q : Pointer) → IsPointer q → Holds v after (child p i) a q
  entry-Holds (root m j) h = inr (cc, unfold at set_entry in refl)
  entry-Holds (child q j) (hq, hi, hj) = elim (entry-Holds q hq) [
    | inl (e, e') ↦
        let gone : at v q ≡ 0 = ap (at v) e ∙ at-child v p i parent ∙ none_yet in
        inr (
          (λ same. child-ne p i (sym (child-injective q p j i same).0 ∙ e)),
          below_new v after q j a (fresh_nonzero v a s f.free) gone e' bytes_new,
        )
    | inr (ne, e) ↦ entry-Holds_below q j hq e
  ]

-- The step of `ensure` that adds a block, at either place.
pub root-Placed :
    (n i a : ℕ) (v : Volume)
    → IsPartitioned v
    → IsFirst 0 v.limit a v.used
    → (v.inodes n).addrs i ≡ 0
    → Placed v (set_addr n i a (taken a v)) (root n i) a
unfolding set_addr at
root-Placed n i a v s f z = record {
  nonzero = fresh_nonzero v a s f.free;
  fresh = f.free;
  used = refl;
  limit = refl;
  missing = z;
  holds = root-Holds n i a v s f z;
  blank = root_bytes_new n i a v s f z;
  leaves = λ q h l nz. root_bytes_other n i a v s f z (at v q) (fresh-ne v q a s h f.free nz);
  sizes = λ m. ground arith;
}

pub entry-Placed :
    (p : Pointer) (i a : ℕ) (v : Volume)
    → IsPartitioned v
    → IsFirst 0 v.limit a v.used
    → IsPointer (child p i)
    → at v p ≢ 0
    → word (v.bytes (at v p)) i ≡ 0
    → Placed v (set_entry (at v p) i a (taken a v)) (child p i) a
unfolding set_entry
entry-Placed p i a v s f valid parent z = record {
  nonzero = fresh_nonzero v a s f.free;
  fresh = f.free;
  used = refl;
  limit = refl;
  missing = at-child v p i parent ∙ z;
  holds = entry-Holds p i a v s f valid parent z;
  blank = bytes_new p i a v s f valid parent z;
  leaves = λ q h l nz.
      bytes_other p i a v s f valid parent z (at v q) (fresh-ne v q a s h f.free nz)
        (λ same. inner q h l nz same);
  sizes = λ m. (refl, refl);
}
  where
    inner : (q : Pointer) → IsPointer q → height q ≡ 0 → at v q ≢ 0 → at v q ≢ at v p
    inner q h l nz same =
        let e = ap height (s.apart q p h valid.0 nz same) in absurd (omega (arith, valid.1))
