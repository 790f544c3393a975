-- ===== src/Directory/Scan.antt =====
-- The loop over the entries of a directory: it stops at the first that passes.
use hyeonseung_os.Base.{
  ℕ, zero, suc, ◌+◌, ◌-◌, ◌*◌, ◌/◌, ◌%◌, ◌≤◌, ◌<◌, ◌≡◌, ◌≢◌, refl, sym, ap, ◌∙◌, inl, inr, min,
  Bool, true, false, Option, none, some, List, length, arith, ltb, Bool-cases, ℕ_discrete, subst,
}
use hyeonseung_os.Volume.{Volume, maxfile}
use hyeonseung_os.Volume.Partition.{IsPartitioned}
use hyeonseung_os.Volume.Count.{free_blocks, Spends, touched, HasHole, HasHole-later}
use hyeonseung_os.Volume.Transfer.{t_dev, fetched}
use hyeonseung_os.Volume.Reading.{file_bytes, Unread, Unread-refl, Unread-trans, file_bytes-Unread}
use hyeonseung_os.Volume.RoundTrip.{readi_lem}
use hyeonseung_os.Directory.{find_dirent}

-- The 16 bytes of entry `k` of a directory.
abbrev pub dirent : Volume → ℕ → ℕ → List ℕ
dirent v n k = file_bytes v n (16 * k) 16

-- A directory: no device, whole entries, and no larger than a file can be.
pub record IsDirectory (v : Volume) (n : ℕ) : Type 0 where
  pub kind : (v.inodes n).kind ≢ t_dev
  pub whole : (v.inodes n).size % 16 ≡ 0
  pub fits : (v.inodes n).size ≤ maxfile * 512

pub Unread-IsDirectory : (v v' : Volume) (n : ℕ) → Unread v v' → IsDirectory v n → IsDirectory v' n
Unread-IsDirectory v v' n u d = record {
  kind = λ e. d.kind (sym (u.kinds n) ∙ e);
  whole = ap (λ x. x % 16) (u.sizes n) ∙ d.whole;
  fits = ground (arith, u.sizes n, d.fits);
}

-- What the loop comes to from entry `k` on: the first entry that passes, none, or a panic, where
-- a byte from there on has no block, and fewer blocks are free than four for each entry from there on.
pub data Scan (test : List ℕ → Bool) (v : Volume) (n k : ℕ)
    : Option (Option (ℕ × List ℕ) × Volume) → Type 0 where
  stops :
      {v' : Volume} (j : ℕ)
      → k ≤ j
      → 16 * j < (v.inodes n).size
      → test (dirent v n j) ≡ true
      → ((i : ℕ) → k ≤ i → i < j → test (dirent v n i) ≡ false)
      → Unread v v'
      → Scan test v n k (some (some (16 * j, dirent v n j), v'))
  passes :
      {v' : Volume}
      → ((i : ℕ) → k ≤ i → 16 * i < (v.inodes n).size → test (dirent v n i) ≡ false)
      → Unread v v'
      → Scan test v n k (some (none, v'))
  no_block :
      free_blocks v < 4 * ((v.inodes n).size / 16 - k)
      → HasHole v n (16 * k) ((v.inodes n).size - 16 * k)
      → Scan test v n k none

one_block : (k : ℕ) → touched (16 * k) 16 ≡ 1
one_block k = omega arith

file_bytes-length : (v : Volume) (n off len : ℕ) → length (file_bytes v n off len) ≡ len
file_bytes-length v n off zero = refl
file_bytes-length v n off (suc len) = ap suc (file_bytes-length v n (off + 1) len)

-- The entries are as they were, where the bytes are.
pub dirent-Unread :
    (v v' : Volume) (n k : ℕ)
    → Unread v v'
    → 16 * k + 16 ≤ maxfile * 512
    → dirent v' n k ≡ dirent v n k
dirent-Unread v v' n k u h = file_bytes-Unread v v' n (16 * k) 16 u h

pub find_dirent-Scan :
    (rounds : ℕ) (test : List ℕ → Bool) (n k : ℕ) (v : Volume)
    → IsPartitioned v
    → IsDirectory v n
    → (v.inodes n).size ≤ 16 * (k + rounds)
    → Scan test v n k (find_dirent rounds test n (16 * k) v)
unfolding find_dirent
find_dirent-Scan zero test n k v s d h = passes (λ i l u. absurd (omega arith)) (Unread-refl v s)
find_dirent-Scan (suc rounds) test n k v s d h =
    elim (Bool-cases (ltb (16 * k) (v.inodes n).size)) [
      | inr past ↦ rw past (passes (λ i l u. absurd (ground arith)) (Unread-refl v s))
      | inl inside ↦
          let lt : 16 * k < (v.inodes n).size = ground arith in
          let whole : min 16 ((v.inodes n).size - 16 * k) ≡ 16 = omega (arith, d.whole) in
          elim (readi_lem n (16 * k) 16 v s d.kind (omega arith) d.fits (omega (arith, d.fits))) [
            | inl (e, few, (i, lo, hi, z)) ↦
                let less = ap (λ m. 4 * touched (16 * k) m) whole ∙ ap (λ x. 4 * x) (one_block k) in
                rw (inside, e)
                  (no_block (omega (arith, few, less, d.whole)) (i, lo, omega (arith, hi), z))
            | inr (v', e, u, c) ↦
                let less = ap (λ m. 4 * touched (16 * k) m) whole ∙ ap (λ x. 4 * x) (one_block k) in
                let spent : Spends 4 v v' = omega (arith, c, less) in
                let got = e ∙ ap (λ m. some (fetched (file_bytes v n (16 * k) m), v')) whole in
                let next : 16 * (k + 1) ≡ 16 * k + 16 = omega arith in
                let rest =
                  find_dirent-Scan rounds test n (k + 1) v' u.part (Unread-IsDirectory v v' n u d)
                    (omega (arith, u.sizes n)) in
                elim (Bool-cases (test (dirent v n k))) [
                  | inl p ↦
                      rw (inside, got, p)
                        (stops k (omega arith) lt p (λ i a b. absurd (omega arith)) u)
                  | inr f ↦
                      rw (inside, got, f)
                        (later lt f u spent (
                          subst (λ o. Scan test v' n (k + 1) (find_dirent rounds test n o v')) next
                            rest))
                ]
          ]
    ]
  where
    fits : (i : ℕ) → 16 * i < (v.inodes n).size → 16 * i + 16 ≤ maxfile * 512
    fits i l = omega (arith, d.fits, d.whole)

    below :
        {v' : Volume} (j : ℕ)
        → Unread v v'
        → test (dirent v n k) ≡ false
        → ((i : ℕ) → k + 1 ≤ i → i < j → 16 * i < (v.inodes n).size → test (dirent v' n i) ≡ false)
        → (i : ℕ) → k ≤ i
        → i < j
        → 16 * i < (v.inodes n).size
        → test (dirent v n i) ≡ false
    below {v'} j u f old i a b l = elim (ℕ_discrete i k) [
      | yes e ↦ rw e f
      | no ne ↦ ap test (sym (dirent-Unread v v' n i u (fits i l))) ∙ old i (omega arith) b l
    ]

    later :
        {v' : Volume} {r : Option (Option (ℕ × List ℕ) × Volume)}
        → 16 * k < (v.inodes n).size
        → test (dirent v n k) ≡ false
        → Unread v v'
        → Spends 4 v v'
        → Scan test v' n (k + 1) r
        → Scan test v n k r
    later {v'} lt f u c (stops {v' = w} j a b p q u') =
        let l : 16 * j < (v.inodes n).size = omega (arith, u.sizes n) in
        let same = dirent-Unread v v' n j u (fits j l) in
        subst (λ bs. Scan test v n k (some (some (16 * j, bs), w))) (sym same)
          (stops j (omega arith) l (ap test (sym same) ∙ p)
            (λ i x y. below j u f (λ i x y _. q i x y) i x y (omega arith))
            (Unread-trans v v' w u u'))
    later {v'} lt f u c (passes {v' = w} q u') =
        passes
          (λ i x l.
            below (suc i) u f (λ i x y l. q i x (omega (arith, u.sizes n))) i x (omega arith) l)
          (Unread-trans v v' w u u')
    later {v'} lt f u c (no_block few (i, lo, hi, z)) =
        no_block (omega (arith, few, c, lt, u.sizes n)) (
          HasHole-later v v' n (16 * k) 16 ((v.inodes n).size - 16 * k) (omega arith) (omega arith)
            u.kept (i, omega arith, omega (arith, hi, u.sizes n), z))
