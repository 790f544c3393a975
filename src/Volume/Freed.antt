-- ===== src/Volume/Freed.antt =====
-- The blocks that a set of pointers holds, free.
use hyeonseung_os.Base.{ℕ, zero, suc, ◌≤◌, ◌<◌, ◌≡◌, ◌≢◌, ap, ◌∙◌, arith, false}
use hyeonseung_os.Volume.{Volume}
use hyeonseung_os.Volume.Pointers.{Pointer, root, child, at, IsPointer}
use hyeonseung_os.Volume.Partition.{at-child_none, depth, parent_of}
use hyeonseung_os.Volume.Descent.{Under, up, depth-up}

-- In `w` the blocks that the pointers of `S` held in `v` are free, and every other block is as in `v`.
pub record Freed (v w : Volume) (S : Pointer → Type 0) : Type 0 where
  pub gone : (q : Pointer) → IsPointer q → S q → at v q ≢ 0 → w.used (at v q) ≡ false
  pub rest :
      (b : ℕ) → ((q : Pointer) → IsPointer q → S q → at v q ≢ 0 → at v q ≢ b) → w.used b ≡ v.used b
  pub bytes : w.bytes ≡ v.bytes
  pub limit : w.limit ≡ v.limit

pub Freed-same :
    (v w : Volume) (S T : Pointer → Type 0)
    → ((q : Pointer) → IsPointer q → at v q ≢ 0 → S q → T q)
    → ((q : Pointer) → IsPointer q → at v q ≢ 0 → T q → S q)
    → Freed v w S
    → Freed v w T
Freed-same v w S T to from f = record {
  gone = λ q h t nz. f.gone q h (from q h nz t) nz;
  rest = λ b out. f.rest b (λ q h s nz. out q h (to q h nz s) nz);
  bytes = f.bytes;
  limit = f.limit;
}

-- Below a pointer that holds nothing there is nothing.
pub Under-none : (v : Volume) (p q : Pointer) → at v p ≡ 0 → Under p q → at v q ≡ 0
unfolding up
Under-none v p q e u = go u.levels (omega (arith, u.deeper)) (ap (at v) u.above ∙ e)
  where
    below : (x : Pointer) → 0 < depth x → at v (parent_of x) ≡ 0 → at v x ≡ 0
    below (root n i) d z = unfold depth in absurd (omega arith)
    below (child y i) d z = at-child_none v y i z

    go : (k : ℕ) → k ≤ depth q → at v (up k q) ≡ 0 → at v q ≡ 0
    go zero d z = z
    go (suc k) d z =
        go k (omega arith) (below (up k q) (omega (arith, depth-up k q (omega arith))) z)
