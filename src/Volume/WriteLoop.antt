-- ===== src/Volume/WriteLoop.antt =====
-- The loop of `writei`, and `writei` itself.
use Prim.Native.Nat.{max}
use hyeonseung_os.Base.{
  ℕ, zero, suc, ◌+◌, ◌-◌, ◌*◌, ◌/◌, ◌%◌, ◌≤◌, ◌<◌, ◌≡◌, ◌≢◌, ◌⊎◌, inl, inr, refl, sym, ◌∙◌, false,
  ◌&&◌, ◌||◌, Option, none, some, ◌>>=◌, arith, ◌==◌, ltb, leb, if◌then◌else◌, update, add32,
  ℕ_discrete, Bool-cases, subst,
}
use hyeonseung_os.Volume.{Volume, maxfile, bsize}
use hyeonseung_os.Volume.Pointers.{at, locate}
use hyeonseung_os.Volume.Partition.{IsPartitioned}
use hyeonseung_os.Volume.Ensure.{Ensured, reached, ran_full, bmap-Ensured}
use hyeonseung_os.Volume.Count.{
  free_blocks, Spends, levels, levels-locate, touched, touched-chunk, HasHole, HasHole-later,
}
use hyeonseung_os.Volume.Reached.{==-ne}
use hyeonseung_os.Volume.Store.{file_byte, at-resized, resized-IsPartitioned, content-resized}
use hyeonseung_os.Volume.Writing.{Stored, Stored-refl, Stored-trans, round-Stored}
use hyeonseung_os.Volume.Transfer.{
  overwrite, chunk, write_loop, extend, writei, Written, wrote, t_dev,
}

-- The same, where the file may have grown.
pub record Stores (v v' : Volume) (n : ℕ) (src : ℕ → ℕ) (off len : ℕ) : Type 0 where
  pub part : IsPartitioned v'
  pub bytes_of :
      (m k : ℕ)
      → k < maxfile * 512
      → file_byte v' m k
        ≡ (if m == n && leb off k && ltb k (off + len) then src (k - off) else file_byte v m k)
  pub backed : (k : ℕ) → off ≤ k → k < off + len → at v' (locate n (k / 512)) ≢ 0
  pub size : (v'.inodes n).size ≡ max (v.inodes n).size (off + len)
  pub kinds : (m : ℕ) → (v'.inodes m).kind ≡ (v.inodes m).kind
  pub others : (m : ℕ) → m ≢ n → (v'.inodes m).size ≡ (v.inodes m).size

-- What the loop leaves: all bytes stored, or a panic, for want of blocks.
pub data Outcome (v : Volume) (n : ℕ) (src : ℕ → ℕ) (off len : ℕ) : Option Volume → Type 0 where
  all_stored : {v' : Volume} → Stored v v' n src off len → Outcome v n src off len (some v')
  no_room : free_blocks v < 4 * touched off len → HasHole v n off len → Outcome v n src off len none

pub write_loop-Outcome :
    (rounds n : ℕ) (src : ℕ → ℕ) (off left : ℕ) (v : Volume)
    → IsPartitioned v
    → left ≤ rounds
    → off + left ≤ maxfile * 512
    → Outcome v n src off left (write_loop rounds n src off left v)
unfolding write_loop
write_loop-Outcome zero n src off left v s h le =
    let z : left ≡ 0 = omega arith in rw z (all_stored (Stored-refl v n src off s))
write_loop-Outcome (suc rounds) n src off left v s h le = elim (ℕ_discrete left 0) [
  | yes z ↦ rw z (all_stored (Stored-refl v n src off s))
  | no nz ↦ rw (==-ne left nz) (
      go nz (omega arith)
        (λ w p.
          write_loop-Outcome rounds n (λ k. src (chunk left off + k)) (off + chunk left off)
            (left - chunk left off) w p (omega arith) (omega arith))
        (bmap-Ensured n (off / 512) v s (omega arith)))
]
  where
    m : ℕ
    m = chunk left off

    later :
        {v₁ : Volume} {r : Option Volume}
        → left ≢ 0
        → Stored v v₁ n src off m
        → Spends 4 v v₁
        → Outcome v₁ n (λ k. src (m + k)) (off + m) (left - m) r
        → Outcome v n src off left r
    later {v₁} nz g c (all_stored {v'} s') =
        all_stored (Stored-trans v v₁ v' n src off m left (omega arith) le g s')
    later {v₁} nz g c (no_room few hole) =
        let blocks = touched-chunk off left nz in
        no_room (omega (arith, few, c, blocks))
          (HasHole-later v v₁ n off m left (omega arith) le g.kept hole)

    go :
        {r : Option (ℕ × Volume)}
        → left ≢ 0
        → off < maxfile * 512
        → ((w : Volume)
            → IsPartitioned w
            → Outcome w n
                (λ k. src (m + k))
                (off + m)
                (left - m)
                (write_loop rounds n (λ k. src (m + k)) (off + m) (left - m) w))
        → Ensured v (locate n (off / 512)) (levels (locate n (off / 512))) r
        → Outcome v n src off left (
            r >>= λ x.
            write_loop rounds n
              (λ k. src (m + k))
              (off + m)
              (left - m)
              (record (x.1) {
                bytes = update (x.1).bytes x.0 (overwrite ((x.1).bytes x.0) (off % 512) m src);
              }))
    go nz lt rec (reached {a} {v'} g c) =
        let first =
          subst
            (λ b.
              Stored v
                (record v' { bytes = update v'.bytes b (overwrite (v'.bytes b) (off % 512) m src) })
                n src off m)
            g.here (round-Stored v v' n off m a src lt (omega arith) g) in
        later nz first (omega (arith, c, levels-locate n (off / 512))) (rec _ first.part)
    go nz lt rec (ran_full few z) =
        let blocks = touched-chunk off left nz in
        no_room (omega (arith, few, blocks, levels-locate n (off / 512)))
          (off, omega arith, omega arith, z)

extend-Stores :
    (v v' : Volume) (n : ℕ) (src : ℕ → ℕ) (off len : ℕ)
    → off ≤ (v.inodes n).size
    → Stored v v' n src off len
    → Stores v (extend n len (off + len) v') n src off len
unfolding extend
extend-Stores v v' n src off len h g =
    elim (Bool-cases (ltb 0 len && ltb (v'.inodes n).size (off + len))) [
      | inl e ↦
          rw (e, extend)
            (record {
              part = resized-IsPartitioned n (off + len) v' g.part;
              bytes_of = λ m k lt.
                  content-resized n (off + len) v' (locate m (k / 512)) (k % 512)
                  ∙ g.bytes_of m k lt;
              backed = λ k lo hi z.
                  g.backed k lo hi (sym (at-resized n (off + len) v' (locate n (k / 512))) ∙ z);
              size = ground (arith, g.sizes n);
              kinds = λ m. ground (arith, g.sizes m);
              others = λ m ne. ground (arith, g.sizes m);
            })
      | inr e ↦
          rw (e, extend)
            (record {
              part = g.part;
              bytes_of = g.bytes_of;
              backed = g.backed;
              size = ground (arith, g.sizes n);
              kinds = λ m. (g.sizes m).1;
              others = λ m ne. (g.sizes m).0;
            })
    ]

-- `writei` to a file that is no device, from an offset within it and not past the largest file: the bytes
-- of the buffer stand in the file from the offset on, every other byte of this and of every other file
-- is as it was, the file grows to the end of what was written if it was shorter, and no two files share a
-- block. The calls of `log_write` aside, which the model leaves out, the one other outcome is a panic, and
-- only where one of these bytes had no block yet, and fewer blocks are free than four for each block that
-- the bytes lie in.
pub writei_lem :
    (n : ℕ) (src : ℕ → ℕ) (off len : ℕ) (v : Volume)
    → IsPartitioned v
    → (v.inodes n).kind ≢ t_dev
    → off ≤ (v.inodes n).size
    → off + len ≤ maxfile * 512
    → ((writei n src off len v ≡ none)
        × (free_blocks v < 4 * touched off len)
        × HasHole v n off len)
      ⊎ ((v' : Volume) × (writei n src off len v ≡ some (wrote len, v'))
          × Stores v v' n src off len)
unfolding writei
writei_lem n src off len v s k h le =
    rw (==-ne' (v.inodes n).kind k, in_file, in_range)
      (go (write_loop-Outcome len n src off len v s (omega arith) le))
  where
    in_file : (ltb (v.inodes n).size off || ltb (add32 off len) off) ≡ false
    in_file = ground arith

    in_range : ltb (maxfile * bsize) (add32 off len) ≡ false
    in_range = ground arith

    ==-ne' : (x : ℕ) → x ≢ t_dev → (x == t_dev) ≡ false
    ==-ne' x n = ground arith

    finish : Option Volume → Option (Written × Volume)
    finish r = do v' ← r; some (wrote len, extend n len (off + len) v')

    go :
        {r : Option Volume}
        → Outcome v n src off len r
        → ((finish r ≡ none) × (free_blocks v < 4 * touched off len) × HasHole v n off len)
          ⊎ ((v' : Volume) × (finish r ≡ some (wrote len, v')) × Stores v v' n src off len)
    go (all_stored {v'} g) =
        inr (extend n len (off + len) v', refl, extend-Stores v v' n src off len h g)
    go (no_room few hole) = inl (refl, few, hole)
