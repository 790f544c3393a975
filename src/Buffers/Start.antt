-- ===== src/Buffers/Start.antt =====
-- The ring that `binit` makes.
use hyeonseung_os.Base.{
  ℕ, zero, suc, ◌+◌, ◌≤◌, ◌≡◌, refl, List, [], ◌∷◌, length, arith, update, subst, for_range_inv,
}
use hyeonseung_os.Buffers.{Bcache, nbuf, head, push_front, binit}
use hyeonseung_os.Buffers.Ring.{Absent, Distinct, IsRing, push_front-Linked}

-- The buffers below `k`, the last first.
abbrev pub below : ℕ → List ℕ
below zero = []
below (suc k) = k ∷ below k

Absent-below : (x k : ℕ) → k ≤ x → Absent x (below k)
Absent-below x zero h = tt
Absent-below x (suc k) h = (omega arith, Absent-below x k (omega arith))

Distinct-below : (k : ℕ) → Distinct (below k)
Distinct-below zero = tt
Distinct-below (suc k) = (Absent-below k k (omega arith), Distinct-below k)

length-below : (k : ℕ) → length (below k) ≡ k
length-below zero = refl
length-below (suc k) = omega (arith, length-below k)

pushed :
    (k : ℕ) (s : Bcache)
    → (k ≤ nbuf → IsRing s (below k))
    → k + 1 ≤ nbuf
    → IsRing (push_front k s) (below (k + 1))
pushed k s r h =
    let e : suc k ≡ k + 1 = omega arith in
    let ring = r (omega arith) in
    subst (λ j. IsRing (push_front k s) (below j)) e
      (record {
        linked =
            push_front-Linked k s (below k) ring.linked ring.apart ring.no_head (omega arith)
              (Absent-below k k (omega arith));
        apart = Distinct-below (suc k);
        no_head = Absent-below head (suc k) (omega arith);
        few = omega (arith, length-below k);
      })

-- `binit` links all 30 buffers into the ring, the last one first, whatever the links were.
pub binit-IsRing : (s : Bcache) → IsRing (binit s) (below nbuf)
unfolding binit
binit-IsRing s =
    for_range_inv (λ k x. k ≤ nbuf → IsRing x (below k)) push_front pushed nbuf 0 nbuf
      (record s { next = update s.next head head; prev = update s.prev head head }) refl
      (λ _. record {
        linked = (ground arith, ground arith);
        apart = tt;
        no_head = tt;
        few = omega arith;
      })
      (omega arith)
