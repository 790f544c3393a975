-- ===== src/Volume/Reading.antt =====
-- What `readi` returns, and that it reads what `writei` has written.
use hyeonseung_os.Base.{
  ℕ, zero, suc, ◌+◌, ◌-◌, ◌*◌, ◌/◌, ◌%◌, ◌≤◌, ◌<◌, ◌≡◌, ◌≢◌, refl, sym, ap, ap₂, ◌∙◌, true, Option,
  none, some, ◌>>=◌, arith, List, [], ◌∷◌, ◌++◌, ℕ_discrete,
}
use hyeonseung_os.Volume.{Volume, maxfile}
use hyeonseung_os.Volume.Pointers.{at, locate, locate-IsPointer}
use hyeonseung_os.Volume.Partition.{IsPartitioned}
use hyeonseung_os.Volume.Ensure.{Ensured, reached, ran_full, bmap-Ensured}
use hyeonseung_os.Volume.Reached.{content, content_some, Reached, Reached-missing, ==-ne}
use hyeonseung_os.Volume.Count.{
  free_blocks, Spends, levels, levels-locate, touched, touched-chunk, HasHole, HasHole-later,
}
use hyeonseung_os.Volume.Store.{file_byte}
use hyeonseung_os.Volume.Transfer.{span, chunk, read_loop}

-- The bytes of file `n` at `len` offsets from `off` on.
abbrev pub file_bytes : Volume → ℕ → ℕ → ℕ → List ℕ
file_bytes v n off zero = []
file_bytes v n off (suc len) = file_byte v n off ∷ file_bytes v n (off + 1) len

pub file_bytes-add :
    (v : Volume) (n off m len : ℕ)
    → file_bytes v n off (m + len) ≡ file_bytes v n off m ++ file_bytes v n (off + m) len
file_bytes-add v n off zero len =
    let e : zero + len ≡ len = omega arith in
    let e' : off + zero ≡ off = omega arith in rw (e, e') refl
file_bytes-add v n off (suc m) len =
    let e : suc m + len ≡ suc (m + len) = omega arith in
    let e' : off + suc m ≡ off + 1 + m = omega arith in
    rw (e, e', file_bytes-add v n (off + 1) m len) refl

-- The bytes of all files are as they were.
pub record Unread (v v' : Volume) : Type 0 where
  pub part : IsPartitioned v'
  pub same : (m k : ℕ) → k < maxfile * 512 → file_byte v' m k ≡ file_byte v m k
  pub sizes : (m : ℕ) → (v'.inodes m).size ≡ (v.inodes m).size
  pub kinds : (m : ℕ) → (v'.inodes m).kind ≡ (v.inodes m).kind
  pub kept : (m b : ℕ) → b < maxfile → at v (locate m b) ≢ 0 → at v' (locate m b) ≢ 0
  pub limit : v'.limit ≡ v.limit
  pub grows : (b : ℕ) → v.used b ≡ true → v'.used b ≡ true

pub file_bytes-Unread :
    (v v' : Volume) (n off len : ℕ)
    → Unread v v'
    → off + len ≤ maxfile * 512
    → file_bytes v' n off len ≡ file_bytes v n off len
file_bytes-Unread v v' n off zero u h = refl
file_bytes-Unread v v' n off (suc len) u h =
    ap₂ ◌∷◌ (u.same n off (omega arith)) (file_bytes-Unread v v' n (off + 1) len u (omega arith))

Reached-Unread : (v v₁ : Volume) (n bn a : ℕ) → Reached v v₁ (locate n bn) a → Unread v v₁
Reached-Unread v v₁ n bn a g = record {
  part = g.part;
  same = λ m k h.
      let (p, leaf) = locate-IsPointer m (k / 512) (omega arith) in
      g.same (locate m (k / 512)) p leaf (k % 512);
  sizes = λ m. (g.sizes m).0;
  kinds = λ m. (g.sizes m).1;
  kept = λ m b h nz z.
      nz (Reached-missing v v₁ (locate n bn) a g (locate m b) (locate-IsPointer m b h).0 z);
  limit = g.limit;
  grows = g.grows;
}

pub span-file_bytes :
    (v v₁ : Volume) (n b a m r k : ℕ)
    → k ≡ 512 * b + r
    → k + m ≤ maxfile * 512
    → r + m ≤ 512
    → Reached v v₁ (locate n b) a
    → span (v₁.bytes a) r m ≡ file_bytes v n k m
unfolding span
span-file_bytes v v₁ n b a zero r k e h le g = refl
span-file_bytes v v₁ n b a (suc m) r k e h le g =
    let q : k / 512 ≡ b = omega arith in
    let t : k % 512 ≡ r = omega arith in
    let (p, leaf) = locate-IsPointer n b (omega arith) in
    let there : at v₁ (locate n b) ≢ 0 = (λ z. g.nonzero (sym g.here ∙ z)) in
    let first : v₁.bytes a r ≡ file_byte v n k =
      ap (λ x. v₁.bytes x r) (sym g.here)
      ∙ sym (content_some v₁ (locate n b) r there)
      ∙ g.same (locate n b) p leaf r
      ∙ ap₂ (λ x y. content v (locate n x) y) (sym q) (sym t) in
    ap₂ ◌∷◌ first
      (span-file_bytes v v₁ n b a m (r + 1) (k + 1) (omega arith) (omega arith) (omega arith) g)

-- What the loop of `readi` leaves: the bytes, or a panic, for want of blocks.
pub data Loaded (v : Volume) (n off len : ℕ) : Option (List ℕ × Volume) → Type 0 where
  all_loaded :
      {bs : List ℕ} {v' : Volume}
      → bs ≡ file_bytes v n off len
      → Unread v v'
      → Spends (4 * touched off len) v v'
      → Loaded v n off len (some (bs, v'))
  no_room : free_blocks v < 4 * touched off len → HasHole v n off len → Loaded v n off len none

pub Unread-refl : (v : Volume) → IsPartitioned v → Unread v v
Unread-refl v s = record {
  part = s;
  same = λ m k h. refl;
  sizes = λ m. refl;
  kinds = λ m. refl;
  kept = λ m b h nz. nz;
  limit = refl;
  grows = λ b u. u;
}

pub Unread-trans : (v v₁ v₂ : Volume) → Unread v v₁ → Unread v₁ v₂ → Unread v v₂
Unread-trans v v₁ v₂ r s = record {
  part = s.part;
  same = λ m k h. s.same m k h ∙ r.same m k h;
  sizes = λ m. s.sizes m ∙ r.sizes m;
  kinds = λ m. s.kinds m ∙ r.kinds m;
  kept = λ m b h nz. s.kept m b h (r.kept m b h nz);
  limit = s.limit ∙ r.limit;
  grows = λ b u. s.grows b (r.grows b u);
}

pub read_loop-Loaded :
    (rounds n off left : ℕ) (v : Volume)
    → IsPartitioned v
    → left ≤ rounds
    → off + left ≤ maxfile * 512
    → Loaded v n off left (read_loop rounds n off left v)
unfolding read_loop
read_loop-Loaded zero n off left v s h le =
    let z : left ≡ 0 = omega arith in rw z (all_loaded refl (Unread-refl v s) (omega arith))
read_loop-Loaded (suc rounds) n off left v s h le = elim (ℕ_discrete left 0) [
  | yes z ↦ rw z (all_loaded refl (Unread-refl v s) (omega arith))
  | no nz ↦ rw (==-ne left nz) (
      go nz (omega arith)
        (λ w p.
          read_loop-Loaded rounds n (off + chunk left off) (left - chunk left off) w p (omega arith)
            (omega arith))
        (bmap-Ensured n (off / 512) v s (omega arith)))
]
  where
    m : ℕ
    m = chunk left off

    both : m + (left - m) ≡ left
    both = omega arith

    joined :
        {v₁ : Volume} {a : ℕ} {r : Option (List ℕ × Volume)}
        → left ≢ 0
        → Reached v v₁ (locate n (off / 512)) a
        → Spends 4 v v₁
        → Loaded v₁ n (off + m) (left - m) r
        → Loaded v n off left (r >>= λ x. some (span (v₁.bytes a) (off % 512) m ++ x.0, x.1))
    joined {v₁} {a} nz g c (all_loaded {bs} {v'} e u c') =
        let u₁ = Reached-Unread v v₁ n (off / 512) a g in
        let first =
          span-file_bytes v v₁ n (off / 512) a m (off % 512) off (omega arith) (omega arith)
            (omega arith) g in
        let second = e ∙ file_bytes-Unread v v₁ n (off + m) (left - m) u₁ (omega arith) in
        all_loaded
          (ap₂ ◌++◌ first second
            ∙ sym (file_bytes-add v n off m (left - m))
            ∙ ap (file_bytes v n off) both)
          (Unread-trans v v₁ v' u₁ u) (omega (arith, c, c', touched-chunk off left nz))
    joined {v₁} {a} nz g c (no_room few hole) =
        let blocks = touched-chunk off left nz in
        let u = Reached-Unread v v₁ n (off / 512) a g in
        no_room (omega (arith, few, c, blocks))
          (HasHole-later v v₁ n off m left (omega arith) le u.kept hole)

    go :
        {r : Option (ℕ × Volume)}
        → left ≢ 0
        → off < maxfile * 512
        → ((w : Volume)
            → IsPartitioned w
            → Loaded w n (off + m) (left - m) (read_loop rounds n (off + m) (left - m) w))
        → Ensured v (locate n (off / 512)) (levels (locate n (off / 512))) r
        → Loaded v n off left (do
          (a, v₁) ← r
          (bs, v₂) ← read_loop rounds n (off + m) (left - m) v₁
          some (span (v₁.bytes a) (off % 512) m ++ bs, v₂))
    go nz lt rec (reached {a} {v'} g c) =
        joined nz g (omega (arith, c, levels-locate n (off / 512))) (rec v' g.part)
    go nz lt rec (ran_full few z) =
        let blocks = touched-chunk off left nz in
        no_room (omega (arith, few, blocks, levels-locate n (off / 512)))
          (off, omega arith, omega arith, z)
