-- ===== src/Directory/Entries.antt =====
-- The bytes of a new entry: its number and its name.
use hyeonseung_os.Base.{
  ℕ, zero, suc, ◌+◌, ◌-◌, ◌<◌, ◌≡◌, refl, ap, ◌∙◌, inl, inr, true, false, get_or, arith, ◌==◌,
  if◌then◌else◌, Bool-cases,
}
use hyeonseung_os.Volume.RoundTrip.{buffer}
use hyeonseung_os.Directory.{
  Name, namecmp_at, namecmp, has_ended, new_dirent, inum_of, name_of, is_named,
}

get_or-buffer : (len k : ℕ) (src : ℕ → ℕ) → k < len → get_or (buffer src len) k 0 ≡ src k
get_or-buffer zero k src h = absurd (omega arith)
get_or-buffer (suc len) zero src h = refl
get_or-buffer (suc len) (suc k) src h =
    let e : k + 1 ≡ suc k = omega arith in
    get_or-buffer len k (λ j. src (j + 1)) (omega arith) ∙ ap src e

-- A name is equal to itself with NULs after its end.
namecmp_padded :
    (n i : ℕ) (name s t : Name)
    → ((k : ℕ) → s k ≡ name (i + k))
    → ((k : ℕ) → k < n → t k ≡ (if has_ended name (i + k) then 0 else name (i + k)))
    → has_ended name i ≡ false
    → namecmp_at n s t ≡ 0
unfolding namecmp_at has_ended
namecmp_padded zero i name s t hs ht e = refl
namecmp_padded (suc n) i name s t hs ht e =
    let z : i + 0 ≡ i = omega arith in
    let s0 : s 0 ≡ name i = hs 0 ∙ ap name z in
    let t0 : t 0 ≡ name i = ht 0 (omega arith) ∙ (rw (z, e) refl) in
    elim (Bool-cases (name i == 0)) [
      | inl nul ↦ ground (arith, s0, t0, nul)
      | inr more ↦
          let rest =
            namecmp_padded n (suc i) name (λ k. s (k + 1)) (λ k. t (k + 1))
              (λ k. let a : i + (k + 1) ≡ suc i + k = omega arith in hs (k + 1) ∙ ap name a)
              (λ k l.
                let a : i + (k + 1) ≡ suc i + k = omega arith in
                ht (k + 1) (omega arith) ∙ ap (λ j. if has_ended name j then 0 else name j) a)
              (ground (arith, e, more)) in
          ground (arith, s0, t0, more, rest)
    ]

module _ (name : Name) (inum : ℕ) (nz : 0 < inum) (small : inum < 65_536) where
  pub new_inum : inum_of (buffer (new_dirent name inum) 16) ≡ inum
  unfolding new_dirent
  new_inum = omega arith

  pub new_named : is_named name (buffer (new_dirent name inum) 16) ≡ true
  unfolding new_dirent
  new_named =
      let same : namecmp name (name_of (buffer (new_dirent name inum) 16)) ≡ 0 =
        namecmp_padded 14 0 name name (name_of (buffer (new_dirent name inum) 16))
          (λ k. let z : k ≡ 0 + k = omega arith in ap name z)
          (λ k l.
            let a : k + 2 - 2 ≡ 0 + k = omega arith in
            get_or-buffer 16 (k + 2) (new_dirent name inum) (omega arith) ∙ ground (arith, a))
          ended in
      rw same (ground (arith, new_inum))
    where
      ended : has_ended name 0 ≡ false
      ended = refl
