-- ===== src/Volume/Descent.antt =====
-- Which pointers stand below which.
use hyeonseung_os.Base.{
  ℕ, zero, suc, ◌+◌, ◌≤◌, ◌<◌, ◌≡◌, ◌≢◌, ◌⊎◌, inl, inr, refl, sym, ap, ◌∙◌, arith,
}
use hyeonseung_os.Volume.Pointers.{Pointer, root, child, height, IsPointer, inode_of}
use hyeonseung_os.Volume.Partition.{depth, parent_of, last_of}

-- The pointer `k` levels up.
unfoldable pub up : ℕ → Pointer → Pointer
unfolding parent_of
up zero q = q
up (suc k) q = parent_of (up k q)

-- `q` is `p` or stands below it.
pub record Under (p q : Pointer) : Type 0 where
  pub levels : ℕ
  pub deeper : depth q ≡ levels + depth p
  pub above : up levels q ≡ p

pub Under-refl : (p : Pointer) → Under p p
unfolding up
Under-refl p = record { levels = 0; deeper = omega arith; above = refl }

pub Under-parent : (p q : Pointer) (i : ℕ) → Under (child p i) q → Under p q
unfolding up depth parent_of
Under-parent p q i u = record {
  levels = suc u.levels;
  deeper = omega (arith, u.deeper);
  above = ap parent_of u.above;
}

-- The way up from `q` meets each depth once.
pub Under-unique : (p r q : Pointer) → depth p ≡ depth r → Under p q → Under r q → p ≡ r
unfolding up
Under-unique p r q e u u' =
    let same : u.levels ≡ u'.levels = omega (arith, u.deeper, u'.deeper) in
    sym u.above ∙ ap (λ k. up k q) same ∙ u'.above

pub Under-child_ne :
    (p q : Pointer) (i j : ℕ) → i ≢ j → Under (child p i) q → Under (child p j) q → ⊥
unfolding depth last_of
Under-child_ne p q i j ne u u' = ne (ap last_of (Under-unique (child p i) (child p j) q refl u u'))

pub Under-child_self : (p : Pointer) (i : ℕ) → Under (child p i) p → ⊥
unfolding depth
Under-child_self p i u = absurd (omega (arith, u.deeper))

up-IsPointer : (k : ℕ) (q : Pointer) → IsPointer q → IsPointer (up k q)
unfolding up parent_of
up-IsPointer zero q h = h
up-IsPointer (suc k) q h = parent-IsPointer (up k q) (up-IsPointer k q h)
  where
    parent-IsPointer : (x : Pointer) → IsPointer x → IsPointer (parent_of x)
    parent-IsPointer (root n i) h = h
    parent-IsPointer (child p i) h = h.0

depth-parent : (x : Pointer) → 0 < depth x → depth (parent_of x) + 1 ≡ depth x
unfolding depth parent_of
depth-parent (root n i) h = absurd (omega arith)
depth-parent (child p i) h = omega arith

pub depth-up : (k : ℕ) (q : Pointer) → k ≤ depth q → depth (up k q) + k ≡ depth q
unfolding up
depth-up zero q h = omega arith
depth-up (suc k) q h =
    let ih = depth-up k q (omega arith) in
    omega (arith, ih, depth-parent (up k q) (omega (arith, ih)))

-- What stands below a pointer is the pointer itself, or stands below one of its entries.
pub Under-cases :
    (p q : Pointer)
    → IsPointer q
    → Under p q
    → (q ≡ p) ⊎ ((i : ℕ) × (i < 128) × (0 < height p) × Under (child p i) q)
unfolding up depth parent_of
Under-cases p q h u = go u.levels u.deeper u.above
  where
    split :
        (x : Pointer)
        → IsPointer x
        → depth x ≡ suc (depth p)
        → parent_of x ≡ p
        → (i : ℕ) × (i < 128) × (0 < height p) × (x ≡ child p i)
    split (root n i) h d e = absurd (omega arith)
    split (child y i) h d e = (i, h.2, rw (← e) h.1, ap (λ z. child z i) e)

    go :
        (k : ℕ)
        → depth q ≡ k + depth p
        → up k q ≡ p
        → (q ≡ p) ⊎ ((i : ℕ) × (i < 128) × (0 < height p) × Under (child p i) q)
    go zero d e = inl e
    go (suc k) d e =
        let (i, lt, tall, z) =
          split (up k q) (up-IsPointer k q h) (omega (arith, depth-up k q (omega arith))) e in
        inr
          (i, lt, tall, record { levels = k; deeper = unfold depth in omega (arith, d); above = z })

up-child : (k : ℕ) (p : Pointer) (i : ℕ) → up (suc k) (child p i) ≡ up k p
unfolding up parent_of
up-child zero p i = refl
up-child (suc k) p i = ap parent_of (up-child k p i)

-- Every pointer of an inode stands below one of its `addrs`.
pub Under-root : (q : Pointer) → IsPointer q → (i : ℕ) × (i < 13) × Under (root (inode_of q) i) q
unfolding depth
Under-root (root n i) h = (i, h, Under-refl (root n i))
Under-root (child p j) h =
    let (i, lt, u) = Under-root p h.0 in
    (
      i,
      lt,
      record {
        levels = suc u.levels;
        deeper = omega (arith, u.deeper);
        above = up-child u.levels p j ∙ u.above;
      },
    )

inode_of-up : (k : ℕ) (q : Pointer) → inode_of (up k q) ≡ inode_of q
unfolding up parent_of
inode_of-up zero q = refl
inode_of-up (suc k) q = same (up k q) ∙ inode_of-up k q
  where
    same : (x : Pointer) → inode_of (parent_of x) ≡ inode_of x
    same (root n i) = refl
    same (child p i) = refl

pub Under-inode_of : (p q : Pointer) → Under p q → inode_of q ≡ inode_of p
Under-inode_of p q u = sym (inode_of-up u.levels q) ∙ ap inode_of u.above
