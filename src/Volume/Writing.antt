-- ===== src/Volume/Writing.antt =====
-- What `writei` does to the bytes of the files.
use hyeonseung_os.Base.{
  ℕ, ◌+◌, ◌-◌, ◌*◌, ◌/◌, ◌%◌, ◌≤◌, ◌<◌, ◌≡◌, ◌≢◌, refl, sym, ap, ◌∙◌, true, ◌&&◌, arith, ◌==◌, ltb,
  leb, if◌then◌else◌, ℕ_discrete, Bool-cases, inl, inr, dec_lt,
}
use hyeonseung_os.Volume.{Volume, Block, maxfile}
use hyeonseung_os.Volume.Pointers.{
  Pointer, at, height, IsPointer, locate, locate-IsPointer, locate_injective,
}
use hyeonseung_os.Volume.Partition.{IsPartitioned}
use hyeonseung_os.Volume.Reached.{content, content_some, Reached}
use hyeonseung_os.Volume.Store.{
  file_byte, stored, at-stored, stored-IsPartitioned, content-stored_self, content-stored_ne,
}
use hyeonseung_os.Volume.Transfer.{overwrite}

-- The `len` bytes from `off` on of file `n` are those of `src`, and all else is as it was.
pub record Stored (v v' : Volume) (n : ℕ) (src : ℕ → ℕ) (off len : ℕ) : Type 0 where
  pub part : IsPartitioned v'
  pub bytes_of :
      (m k : ℕ)
      → k < maxfile * 512
      → file_byte v' m k
        ≡ (if m == n && leb off k && ltb k (off + len) then src (k - off) else file_byte v m k)
  pub sizes :
      (m : ℕ) → ((v'.inodes m).size ≡ (v.inodes m).size) × ((v'.inodes m).kind ≡ (v.inodes m).kind)
  pub kept : (m b : ℕ) → b < maxfile → at v (locate m b) ≢ 0 → at v' (locate m b) ≢ 0
  pub backed : (k : ℕ) → off ≤ k → k < off + len → at v' (locate n (k / 512)) ≢ 0
  pub limit : v'.limit ≡ v.limit
  pub grows : (b : ℕ) → v.used b ≡ true → v'.used b ≡ true

pub Stored-refl :
    (v : Volume) (n : ℕ) (src : ℕ → ℕ) (off : ℕ) → IsPartitioned v → Stored v v n src off 0
Stored-refl v n src off s = record {
  part = s;
  bytes_of = λ m k h. ground arith;
  kept = λ m b h nz. nz;
  backed = λ k lo hi. absurd (omega arith);
  sizes = λ m. (refl, refl);
  limit = refl;
  grows = λ b u. u;
}

-- Two stretches, one after the other.
pub Stored-trans :
    (v v₁ v₂ : Volume) (n : ℕ) (src : ℕ → ℕ) (off m left : ℕ)
    → m ≤ left
    → off + left ≤ maxfile * 512
    → Stored v v₁ n src off m
    → Stored v₁ v₂ n (λ k. src (m + k)) (off + m) (left - m)
    → Stored v v₂ n src off left
Stored-trans v v₁ v₂ n src off m left le in_file r s = record {
  part = s.part;
  bytes_of = λ q k h. let x = r.bytes_of q k h in let y = s.bytes_of q k h in joined q k x y;
  kept = λ q b h nz. s.kept q b h (r.kept q b h nz);
  backed = λ k lo hi. elim (dec_lt k (off + m)) [
    | yes below ↦ s.kept n (k / 512) (omega arith) (r.backed k lo below)
    | no above ↦ s.backed k (omega arith) (omega arith)
  ];
  sizes = λ q. ((s.sizes q).0 ∙ (r.sizes q).0, (s.sizes q).1 ∙ (r.sizes q).1);
  limit = s.limit ∙ r.limit;
  grows = λ b u. s.grows b (r.grows b u);
}
  where
    joined :
        (q k : ℕ)
        → file_byte v₁ q k
          ≡ (if q == n && leb off k && ltb k (off + m) then src (k - off) else file_byte v q k)
        → file_byte v₂ q k ≡ (
            if q == n && leb (off + m) k && ltb k (off + m + (left - m))
            then src (m + (k - (off + m)))
            else file_byte v₁ q k)
        → file_byte v₂ q k
          ≡ (if q == n && leb off k && ltb k (off + left) then src (k - off) else file_byte v q k)
    joined q k x y = elim (Bool-cases (leb (off + m) k)) [
      | inl a ↦ let e : m + (k - (off + m)) ≡ k - off = ground arith in ground (arith, e)
      | inr a ↦ ground arith
    ]

-- One round of the loop.
module _ (v v₁ : Volume) (n off m a : ℕ) (src : ℕ → ℕ) (off_lt : off < maxfile * 512)
    (m_le : m ≤ 512 - off % 512) (g : Reached v v₁ (locate n (off / 512)) a) where
  abbrev pub here : Pointer
  here = locate n (off / 512)

  abbrev pub new : Block
  new = overwrite (v₁.bytes (at v₁ here)) (off % 512) m src

  there : at v₁ here ≢ 0
  there z = g.nonzero (sym g.here ∙ z)

  valid : IsPointer here × (height here ≡ 0)
  valid = locate-IsPointer n (off / 512) (omega arith)

  inside :
      (k : ℕ)
      → k / 512 ≡ off / 512
      → new (k % 512) ≡ (if leb off k && ltb k (off + m) then src (k - off) else file_byte v n k)
  inside k e =
      let old : v₁.bytes (at v₁ here) (k % 512) ≡ file_byte v n k =
        sym (content_some v₁ here (k % 512) there)
        ∙ g.same here valid.0 valid.1 (k % 512)
        ∙ ap (λ x. content v (locate n x) (k % 512)) (sym e) in
      let shift : k % 512 + off ≡ off % 512 + k = omega arith in ground (arith, old, shift)

  abbrev pub after : Volume
  after = stored v₁ here new

  elsewhere :
      (q k : ℕ)
      → k < maxfile * 512
      → locate q (k / 512) ≢ here
      → file_byte after q k ≡ file_byte v q k
  elsewhere q k h ne =
      let (p, leaf) = locate-IsPointer q (k / 512) (omega arith) in
      content-stored_ne v₁ here new g.part valid.0 valid.1 there (locate q (k / 512)) p ne (k % 512)
      ∙ g.same (locate q (k / 512)) p leaf (k % 512)

  round_bytes :
      (q k : ℕ)
      → k < maxfile * 512
      → file_byte after q k
        ≡ (if q == n && leb off k && ltb k (off + m) then src (k - off) else file_byte v q k)
  round_bytes q k h = elim (ℕ_discrete q n) [
    | yes e ↦ elim (ℕ_discrete (k / 512) (off / 512)) [
      | yes e' ↦
          let same : locate q (k / 512) ≡ here = rw (e, e') refl in
          let self : file_byte after q k ≡ new (k % 512) =
            ap (λ p. content after p (k % 512)) same
            ∙ content-stored_self v₁ here new g.part valid.0 valid.1 there (k % 512) in
          ground (arith, self, inside k e', e)
      | no ne ↦
          let other = elsewhere q k h (λ x. ne (locate_injective q n (k / 512) (off / 512) x).1) in
          ground (arith, other)
    ]
    | no ne ↦
        let other = elsewhere q k h (λ x. ne (locate_injective q n (k / 512) (off / 512) x).0) in
        ground (arith, other)
  ]

  pub round-Stored : Stored v after n src off m
  round-Stored = record {
    part = stored-IsPartitioned v₁ here new g.part valid.0 valid.1 there;
    bytes_of = round_bytes;
    sizes = g.sizes;
    kept = λ q b b_lt nz z.
        let p = (locate-IsPointer q b b_lt).0 in
        nz (
          sym (g.kept (locate q b) p nz)
          ∙ sym (at-stored v₁ here new g.part valid.0 valid.1 there (locate q b) p)
          ∙ z);
    backed = λ k lo hi z.
        let e : k / 512 ≡ off / 512 = omega arith in
        there (
          sym (at-stored v₁ here new g.part valid.0 valid.1 there here valid.0)
          ∙ ap (λ b. at after (locate n b)) (sym e)
          ∙ z);
    limit = g.limit;
    grows = g.grows;
  }
