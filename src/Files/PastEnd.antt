-- ===== src/Files/PastEnd.antt =====
-- `pwrite_os` past the largest file.
use hyeonseung_os.Base.{
  ℕ, zero, suc, ◌+◌, ◌-◌, ◌*◌, ◌/◌, ◌%◌, ◌^◌, min, ◌||◌, true, false, none, some, ◌>>=◌, ◌==◌, ltb,
  leb, if◌then◌else◌, add32, ◌≡◌, ◌≢◌, ◌<◌, ◌≤◌, arith, refl, ◌∙◌, ap,
}
use hyeonseung_os.Volume.{Volume, maxfile, bmap, set_inode}
use hyeonseung_os.Volume.Transfer.{refused, t_dev, readi, writei, read_loop}
use hyeonseung_os.Volume.Pointers.{bmap-locate}
use hyeonseung_os.Files.Transfer.{
  max_write, write_refused, hole_end, fill_hole, reach, pwrite_rounds, pwrite_os, pread_os,
}
use hyeonseung_os.Files.{File, fd_inode}

one_block : (n off : ℕ) → 0 < n → n ≤ 512 - off % 512 → hole_end n n n off 0 off ≡ off + n
unfolding hole_end
one_block zero off p l = absurd (omega arith)
one_block (suc k) off p l =
    let e : min (suc k - 0) (512 - off % 512) ≡ suc k = omega arith in rw e (stop k)
  where
    stop :
        (r : ℕ)
        → (if ltb 0 (suc k) then hole_end r (suc k) (suc k) off (0 + suc k) (off + suc k) else off)
          ≡ off + suc k
    stop zero = ground arith
    stop (suc r) = ground arith

past_refused :
    (ip : ℕ) (src : ℕ → ℕ) (off n : ℕ) (v : Volume)
    → (v.inodes ip).kind ≢ t_dev
    → off ≤ (v.inodes ip).size
    → 0 < n
    → maxfile * 512 ≤ off
    → off + n < 2 ^ 31
    → writei ip src off n v ≡ some (refused, v)
unfolding writei
past_refused ip src off n v d h p far small =
    let e : ((v.inodes ip).kind == t_dev) ≡ false = ground arith in
    let e' : (ltb (v.inodes ip).size off || ltb (add32 off n) off) ≡ false = ground arith in
    let e'' : ltb (maxfile * 512) (add32 off n) ≡ true = ground arith in rw (e, e', e'') refl

past_panics :
    (ip off : ℕ) (v : Volume)
    → (v.inodes ip).kind ≢ t_dev
    → off < (v.inodes ip).size
    → maxfile * 512 ≤ off
    → off < 2 ^ 31
    → readi ip off 1 v ≡ none
unfolding readi read_loop
past_panics ip off v d h far small =
    let e : ((v.inodes ip).kind == t_dev) ≡ false = ground arith in
    let e' : (ltb (v.inodes ip).size off || ltb (add32 off 1) off) ≡ false = ground arith in
    let e'' : ltb (v.inodes ip).size (add32 off 1) ≡ false = ground arith in
    let over : ltb (off / 512) maxfile ≡ false = ground arith in
    let out : bmap ip (off / 512) v ≡ none = bmap-locate ip (off / 512) v ∙ (rw over refl) in
    rw (e, e', e'', out) refl

filled_to :
    (ip n off : ℕ) (v : Volume)
    → (v.inodes ip).size < off
    → 0 < n
    → n ≤ 512 - off % 512
    → fill_hole ip n n off v ≡ set_inode ip (record (v.inodes ip) { size = off + n }) v
unfolding fill_hole
filled_to ip n off v gap p l =
    let e : ltb (v.inodes ip).size off ≡ true = ground arith in rw (e, one_block n off p l) refl

round_refused :
    (r n : ℕ) (src : ℕ → ℕ) (off : ℕ) (f : File) (v v' : Volume)
    → 0 < r
    → 0 < n
    → min n max_write ≡ n
    → fill_hole f.ip n n off v ≡ v'
    → writei f.ip src off n v' ≡ some (refused, v')
    → pwrite_rounds r n src off n f v ≡ some (write_refused, reach off f, v')
unfolding pwrite_rounds
round_refused zero n src off f v v' pr p all filled fails = absurd (omega arith)
round_refused (suc r) n src off f v v' pr p all filled fails =
    let e : (n == 0) ≡ false = ground arith in rw (e, all, filled, fails) refl

os_rounds :
    (f : File) (src : ℕ → ℕ) (n off : ℕ) (v : Volume)
    → f.kind ≡ fd_inode
    → leb (2 ^ 31) n ≡ false
    → pwrite_os (some f) src n off v
      ≡ (pwrite_rounds n n src off n f v >>= λ x. some (x.0, some x.1, x.2))
unfolding pwrite_os
os_rounds f src n off v k short = simp (k, short)

-- A `pwrite_os` past the largest file, of bytes within one block, fails, and leaves the size past it: the
-- next read there panics.
pub pwrite_past_end_panics :
    (f : File) (src : ℕ → ℕ) (n off : ℕ) (v : Volume)
    → f.kind ≡ fd_inode
    → (v.inodes f.ip).kind ≢ t_dev
    → 0 < n
    → n ≤ 512 - off % 512
    → maxfile * 512 ≤ off
    → off + n < 2 ^ 31
    → (v.inodes f.ip).size < off
    → (v' : Volume) × (pwrite_os (some f) src n off v
        ≡ some (write_refused, some (reach off f), v'))
      × ((v'.inodes f.ip).size ≡ off + n)
      × (pread_os (some f) 1 off v' ≡ none)
unfolding pread_os
pwrite_past_end_panics f src n off v k d p l far small gap =
    let v' : Volume = set_inode f.ip (record (v.inodes f.ip) { size = off + n }) v in
    let all : min n max_write ≡ n = omega arith in
    let filled : fill_hole f.ip n n off v ≡ v' = filled_to f.ip n off v gap p l in
    let size : (v'.inodes f.ip).size ≡ off + n = ground arith in
    let dev : (v'.inodes f.ip).kind ≢ t_dev = ground arith in
    let fails : writei f.ip src off n v' ≡ some (refused, v') =
      past_refused f.ip src off n v' dev (omega (arith, size)) p far small in
    let short : leb (2 ^ 31) n ≡ false = ground arith in
    let done = round_refused n n src off f v v' p p all filled fails in
    (
      v',
      os_rounds f src n off v k short ∙ ap (λ o. o >>= λ x. some (x.0, some x.1, x.2)) done,
      size,
      rw k (past_panics f.ip off v' dev (omega (arith, size)) far (omega arith)),
    )
