-- ===== src/Volume/RoundTrip.antt =====
-- `readi`, and that it reads what `writei` has written.
use hyeonseung_os.Base.{
  ℕ, zero, suc, ◌+◌, ◌-◌, ◌*◌, ◌/◌, ◌%◌, ◌^◌, ◌≤◌, ◌<◌, ◌≡◌, ◌≢◌, ◌⊎◌, inl, inr, refl, sym, ap, ap₂,
  ◌∙◌, min, false, ◌||◌, Option, none, some, ◌>>=◌, arith, ◌==◌, ltb, if◌then◌else◌, add32, List,
  [], ◌∷◌, ℕ_discrete, subst, none≢some, some-injective,
}
use hyeonseung_os.Volume.{Volume, maxfile}
use hyeonseung_os.Volume.Pointers.{at, locate}
use hyeonseung_os.Volume.Partition.{IsPartitioned}
use hyeonseung_os.Volume.Count.{free_blocks, touched, HasHole}
use hyeonseung_os.Volume.Ensure.{bmap_there}
use hyeonseung_os.Volume.Reached.{Reached-refl, ==-ne}
use hyeonseung_os.Volume.Store.{file_byte}
use hyeonseung_os.Volume.WriteLoop.{Stores, writei_lem}
use hyeonseung_os.Volume.Reading.{
  file_bytes, file_bytes-add, span-file_bytes, Unread, Loaded, all_loaded, no_room,
  read_loop-Loaded,
}
use hyeonseung_os.Volume.Transfer.{
  chunk, read_loop, readi, writei, Written, wrote, Fetched, fetched, t_dev,
}

-- Reading blocks that are all there returns their bytes and changes nothing.
read_loop_there :
    (rounds n off left : ℕ) (v : Volume)
    → IsPartitioned v
    → left ≤ rounds
    → off + left ≤ maxfile * 512
    → ((k : ℕ) → off ≤ k → k < off + left → at v (locate n (k / 512)) ≢ 0)
    → read_loop rounds n off left v ≡ some (file_bytes v n off left, v)
unfolding read_loop
read_loop_there zero n off left v s h le there = let z : left ≡ 0 = omega arith in rw z refl
read_loop_there (suc rounds) n off left v s h le there = elim (ℕ_discrete left 0) [
  | yes z ↦ rw z refl
  | no nz ↦
      let m = chunk left off in
      let here : at v (locate n (off / 512)) ≢ 0 = there off (omega arith) (omega arith) in
      let rest =
        read_loop_there rounds n (off + m) (left - m) v s (omega arith) (omega arith)
          (λ k lo hi. there k (omega arith) (omega arith)) in
      let first =
        span-file_bytes v v n (off / 512) (at v (locate n (off / 512))) m (off % 512) off
          (omega arith) (omega arith) (omega arith)
          (Reached-refl v (locate n (off / 512)) s here) in
      let both : m + (left - m) ≡ left = omega arith in
      rw (==-ne left nz, bmap_there n (off / 512) v (omega arith) here, rest, first)
        (ap (λ x. some (x, v))
          (sym (file_bytes-add v n off m (left - m)) ∙ ap (file_bytes v n off) both))
]

-- The list of the first bytes of a buffer.
abbrev pub buffer : (ℕ → ℕ) → ℕ → List ℕ
buffer src zero = []
buffer src (suc len) = src 0 ∷ buffer (λ k. src (k + 1)) len

-- The count that `readi` settles on, and the loop for it.
abbrev load : ℕ → ℕ → ℕ → Volume → Option (Fetched × Volume)
load n off m v = do (bs, v') ← read_loop m n off m v; some (fetched bs, v')

readi-load :
    (n off len : ℕ) (v : Volume)
    → (v.inodes n).kind ≢ t_dev
    → off ≤ (v.inodes n).size
    → off + len < 2 ^ 32
    → readi n off len v ≡ load n off (min len ((v.inodes n).size - off)) v
unfolding readi
readi-load n off len v k h fits = rw (no_device, in_range, count) refl
  where
    no_device : ((v.inodes n).kind == t_dev) ≡ false
    no_device = ground arith

    in_range : (ltb (v.inodes n).size off || ltb (add32 off len) off) ≡ false
    in_range = ground arith

    count :
        (if ltb (v.inodes n).size (add32 off len) then (v.inodes n).size - off else len)
        ≡ min len ((v.inodes n).size - off)
    count = ground arith

-- `readi` of a file that is no device, from an offset within it: it returns the bytes of the file from
-- there to the end of what was asked for, or to the end of the file, and no byte and no size of a
-- file changes, and it takes no more than four blocks for each block that the bytes lie in, for holes of the
-- file. The calls of `log_write` aside, which the model leaves out, the one other outcome is a panic, and
-- only where there is such a hole, and fewer blocks than that are free.
pub readi_lem :
    (n off len : ℕ) (v : Volume)
    → IsPartitioned v
    → (v.inodes n).kind ≢ t_dev
    → off ≤ (v.inodes n).size
    → (v.inodes n).size ≤ maxfile * 512
    → off + len < 2 ^ 32
    → ((readi n off len v ≡ none)
        × (free_blocks v < 4 * touched off (min len ((v.inodes n).size - off)))
        × HasHole v n off (min len ((v.inodes n).size - off)))
      ⊎ ((v' : Volume) × (readi n off len v
            ≡ some (fetched (file_bytes v n off (min len ((v.inodes n).size - off))), v'))
          × Unread v v'
          × (free_blocks v ≤ free_blocks v' + 4 * touched off (min len ((v.inodes n).size - off))))
readi_lem n off len v s k h le fits = rw (readi-load n off len v k h fits) (
    go (
      read_loop-Loaded (min len ((v.inodes n).size - off)) n off (min len ((v.inodes n).size - off))
        v s (omega arith) (omega arith)))
  where
    finish : Option (List ℕ × Volume) → Option (Fetched × Volume)
    finish r = do (bs, v') ← r; some (fetched bs, v')

    go :
        {m : ℕ} {r : Option (List ℕ × Volume)}
        → Loaded v n off m r
        → ((finish r ≡ none) × (free_blocks v < 4 * touched off m) × HasHole v n off m)
          ⊎ ((v' : Volume) × (finish r ≡ some (fetched (file_bytes v n off m), v'))
              × Unread v v'
              × (free_blocks v ≤ free_blocks v' + 4 * touched off m))
    go (all_loaded {bs} {v'} e u c) = inr (v', rw e refl, u, c)
    go (no_room few hole) = inl (refl, few, hole)

pub buffer-file_bytes :
    (len n off : ℕ) (src : ℕ → ℕ) (v : Volume)
    → ((k : ℕ) → k < len → file_byte v n (off + k) ≡ src k)
    → file_bytes v n off len ≡ buffer src len
buffer-file_bytes zero n off src v h = refl
buffer-file_bytes (suc len) n off src v h =
    let z : off + 0 ≡ off = omega arith in
    ap₂ ◌∷◌ (sym (ap (file_byte v n) z) ∙ h 0 (omega arith)) (
      buffer-file_bytes len n (off + 1) (λ k. src (k + 1)) v
        (λ k lt.
          let e : off + 1 + k ≡ off + (k + 1) = omega arith in rw e (h (k + 1) (omega arith))))

read_back :
    (n : ℕ) (src : ℕ → ℕ) (off len : ℕ) (v v' : Volume)
    → (v.inodes n).kind ≢ t_dev
    → off ≤ (v.inodes n).size
    → (v.inodes n).size ≤ maxfile * 512
    → off + len ≤ maxfile * 512
    → Stores v v' n src off len
    → readi n off len v' ≡ some (fetched (buffer src len), v')
read_back n src off len v v' k h small le g =
    let all : min len ((v'.inodes n).size - off) ≡ len = omega (arith, g.size) in
    let bytes = buffer-file_bytes len n off src v' (λ j lt.
      let e : off + j - off ≡ j = omega arith in
      ground (arith, g.bytes_of n (off + j) (omega arith), e)) in
    readi-load n off len v' (λ z. k (sym (g.kinds n) ∙ z)) (omega (arith, g.size)) (omega arith)
    ∙ ap (λ m. load n off m v') all
    ∙ (rw (read_loop_there len n off len v' g.part (omega arith) le g.backed, bytes) refl)

-- What `writei` has stored, `readi` reads back, byte for byte: it does not panic, and changes nothing.
pub readi-writei :
    (n : ℕ) (src : ℕ → ℕ) (off len : ℕ) (v v' : Volume)
    → IsPartitioned v
    → (v.inodes n).kind ≢ t_dev
    → off ≤ (v.inodes n).size
    → (v.inodes n).size ≤ maxfile * 512
    → off + len ≤ maxfile * 512
    → writei n src off len v ≡ some (wrote len, v')
    → readi n off len v' ≡ some (fetched (buffer src len), v')
readi-writei n src off len v v' s k h small le e = elim (writei_lem n src off len v s k h le) [
  | inl (z, _, _) ↦ absurd (none≢some _ (sym z ∙ e))
  | inr (w, e', g) ↦
      let same : w ≡ v' = ap (λ (x : Written × Volume). x.1) (some-injective _ _ (sym e' ∙ e)) in
      subst (λ x. readi n off len x ≡ some (fetched (buffer src len), x)) same
        (read_back n src off len v w k h small le g)
]
