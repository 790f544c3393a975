-- ===== src/Volume/Store.antt =====
-- A store into a block that holds bytes of a file: the pointers stay, and no other file changes.
use hyeonseung_os.Base.{
  ℕ, ◌/◌, ◌%◌, ◌≡◌, ◌≢◌, refl, sym, ap, ◌∙◌, arith, update, update_ne, ℕ_discrete,
}
use hyeonseung_os.Volume.{Volume, Block, word, set_inode}
use hyeonseung_os.Volume.Pointers.{Pointer, root, child, at, height, IsPointer, locate}
use hyeonseung_os.Volume.Partition.{IsPartitioned, at-child, at-child_none}
use hyeonseung_os.Volume.Reached.{content}

-- The byte of file `n` at offset `k`.
abbrev pub file_byte : Volume → ℕ → ℕ → ℕ
file_byte v n k = content v (locate n (k / 512)) (k % 512)

-- The block at the leaf `p` gets the bytes `b`.
abbrev pub stored : Volume → Pointer → Block → Volume
stored v p b = record v { bytes = update v.bytes (at v p) b }

module _ (v : Volume) (p : Pointer) (b : Block) (s : IsPartitioned v) (valid : IsPointer p)
    (leaf : height p ≡ 0) (there : at v p ≢ 0) where
  abbrev after : Volume
  after = stored v p b

  stored_ne :
      (q : Pointer) → IsPointer q → q ≢ p → at v q ≢ 0 → after.bytes (at v q) ≡ v.bytes (at v q)
  stored_ne q h ne nz =
      update_ne v.bytes (at v p) b (at v q) (λ same. ne (s.apart q p h valid nz same))

  pub at-stored : (q : Pointer) → IsPointer q → at after q ≡ at v q
  at-stored (root n i) h = unfold at in refl
  at-stored (child q i) (hq, hi, hj) = elim (ℕ_discrete (at v q) 0) [
    | yes z ↦ at-child_none after q i (at-stored q hq ∙ z) ∙ sym (at-child_none v q i z)
    | no nz ↦
        at-child after q i (λ z. nz (sym (at-stored q hq) ∙ z))
        ∙ ap (λ x. word (after.bytes x) i) (at-stored q hq)
        ∙ ap (λ x. word x i) (stored_ne q hq (λ e. absurd (omega (arith, ap height e))) nz)
        ∙ sym (at-child v q i nz)
  ]

  pub stored-IsPartitioned : IsPartitioned after
  stored-IsPartitioned = record {
    boot = s.boot;
    small = s.small;
    marked = λ q h nz. ap v.used (at-stored q h) ∙ s.marked q h (λ z. nz (at-stored q h ∙ z));
    apart = λ q r hq hr nz same.
        s.apart q r hq hr (λ z. nz (at-stored q hq ∙ z))
          (sym (at-stored q hq) ∙ same ∙ at-stored r hr);
  }

  pub content-stored_self : (k : ℕ) → content after p k ≡ b k
  content-stored_self k = ground (arith, at-stored p valid)

  pub content-stored_ne :
      (q : Pointer) → IsPointer q → q ≢ p → (k : ℕ) → content after q k ≡ content v q k
  content-stored_ne q h ne k = ground (arith, at-stored q h, s.apart q p h valid)

-- A new size of an inode.
abbrev pub resized : ℕ → ℕ → Volume → Volume
resized n x v = set_inode n (record (v.inodes n) { size = x }) v

pub at-resized : (n x : ℕ) (v : Volume) (q : Pointer) → at (resized n x v) q ≡ at v q
at-resized n x v (root m i) = unfold at in ground arith
at-resized n x v (child q i) = elim (ℕ_discrete (at v q) 0) [
  | yes z ↦ at-child_none (resized n x v) q i (at-resized n x v q ∙ z) ∙ sym (at-child_none v q i z)
  | no nz ↦
      at-child (resized n x v) q i (λ z. nz (sym (at-resized n x v q) ∙ z))
      ∙ ap (λ b. word (v.bytes b) i) (at-resized n x v q)
      ∙ sym (at-child v q i nz)
]

pub resized-IsPartitioned : (n x : ℕ) (v : Volume) → IsPartitioned v → IsPartitioned (resized n x v)
resized-IsPartitioned n x v s = record {
  boot = s.boot;
  small = s.small;
  marked =
      λ q h nz. ap v.used (at-resized n x v q) ∙ s.marked q h (λ z. nz (at-resized n x v q ∙ z));
  apart = λ q r hq hr nz same.
      s.apart q r hq hr (λ z. nz (at-resized n x v q ∙ z))
        (sym (at-resized n x v q) ∙ same ∙ at-resized n x v r);
}

pub content-resized :
    (n x : ℕ) (v : Volume) (q : Pointer) (k : ℕ) → content (resized n x v) q k ≡ content v q k
content-resized n x v q k = ground (arith, at-resized n x v q)
