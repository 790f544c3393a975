-- ===== src/Files/Counts.antt =====
-- The reference counts of the file table.
use hyeonseung_os.Base.{
  ℕ, zero, suc, count, ◌+◌, ◌-◌, ◌≤◌, ◌≡◌, ◌≢◌, refl, sym, ap, ap₂, fun_ext, ◌∙◌, ◌⊎◌, inl, inr,
  false, Option, none, some, List, [], ◌∷◌, set, arith, ◌==◌, if◌then◌else◌, update, update_self,
  update_ne, Bool-cases, ℕ_discrete, some-injective, Option-cases, none≢some,
}
use hyeonseung_os.Files.{
  File, Ftable, free_file, Release, still_open, release_of, fd_none, filedup, fileclose, argfd,
  fdalloc, Descriptors, dup_into, sys_dup, close_at, sys_close,
}

-- Each file has as many references as descriptors of the process that runs point to it, and
-- `outside`, those of other processes and of calls.
pub record IsCounted (outside : ℕ → ℕ) (s : Descriptors) : Type 0 where
  pub counted : (i : ℕ) → (s.files i).ref ≡ count (suc i) s.ofile + outside i

argfd-count : (fd i : ℕ) (fs : List ℕ) → argfd fd fs ≡ some (suc i) → 1 ≤ count (suc i) fs
unfolding argfd count
argfd-count fd i [] e = cc
argfd-count zero i (f ∷ fs) e = ground (arith, e)
argfd-count (suc fd) i (f ∷ fs) e = ground (arith, argfd-count fd i fs e)

argfd-nonzero : (fd : ℕ) (fs : List ℕ) → ¬ (argfd fd fs ≡ some 0)
unfolding argfd
argfd-nonzero fd [] e = cc
argfd-nonzero zero (f ∷ fs) e = ground (arith, e)
argfd-nonzero (suc fd) (f ∷ fs) e = argfd-nonzero fd fs e

-- A pointer that a free descriptor takes.
pub record Taken (f fd : ℕ) (fs gs : List ℕ) : Type 0 where
  pub fewer : (g : ℕ) → g ≢ 0 → count g gs ≡ (if f == g then count g fs + 1 else count g fs)
  pub there : f ≢ 0 → argfd fd gs ≡ some f
  pub back : set gs fd 0 ≡ fs

pub fdalloc-Taken :
    (f : ℕ) (fs : List ℕ)
    → (fdalloc f fs ≡ none)
      ⊎ ((fd : ℕ) × (gs : List ℕ) × (fdalloc f fs ≡ some (fd, gs)) × Taken f fd fs gs)
unfolding fdalloc count argfd
fdalloc-Taken f [] = inl refl
fdalloc-Taken f (x ∷ fs) = elim (Bool-cases (x == 0)) [
  | inl z ↦ inr (
    0,
    f ∷ fs,
    rw z refl,
    record {
      fewer = λ g nz. ground arith;
      there = λ nz. ground arith;
      back = ap (λ y. y ∷ fs) (ground arith);
    },
  )
  | inr z ↦ elim (fdalloc-Taken f fs) [
    | inl e ↦ inl (rw (z, e) refl)
    | inr (fd, gs, e, t) ↦ inr (
      suc fd,
      x ∷ gs,
      rw (z, e) refl,
      record {
        fewer = λ g nz. ground (arith, t.fewer g nz);
        there = t.there;
        back = ap (λ ys. x ∷ ys) t.back;
      },
    )
  ]
]

cleared :
    (fd f : ℕ) (fs : List ℕ)
    → argfd fd fs ≡ some f
    → (g : ℕ) → g ≢ 0
    → count g (set fs fd 0) + (if f == g then 1 else 0) ≡ count g fs
unfolding argfd count
cleared fd f [] e g nz = cc
cleared zero f (x ∷ fs) e g nz = ground (arith, e)
cleared (suc fd) f (x ∷ fs) e g nz = ground (arith, cleared fd f fs e g nz)

-- `sys_dup` does not panic, and keeps the counts.
sys_dup-IsCounted :
    (outside : ℕ → ℕ) (fd : ℕ) (s : Descriptors)
    → IsCounted outside s
    → (r : Option ℕ) × (s' : Descriptors) × (sys_dup fd s ≡ some (r, s')) × IsCounted outside s'
unfolding sys_dup dup_into filedup
sys_dup-IsCounted outside fd s h = elim (Option-cases (argfd fd s.ofile)) [
  | inl e ↦ (none, s, rw (e, sys_dup) refl, h)
  | inr (zero, e) ↦ absurd (argfd-nonzero fd s.ofile e)
  | inr (suc i, e) ↦
      let c = argfd-count fd i s.ofile e in
      elim (fdalloc-Taken (suc i) s.ofile) [
        | inl n ↦ (none, s, rw (e, sys_dup, n) refl, h)
        | inr (d, gs, g, t) ↦
            let some_ref : ((s.files i).ref == 0) ≡ false = ground (arith, h.counted i) in
            (
              some d,
              record {
                files = update s.files i (record (s.files i) { ref = (s.files i).ref + 1 });
                ofile = gs;
              },
              rw (e, sys_dup, g, some_ref) refl,
              record { counted = λ j. ground (arith, h.counted j, t.fewer (suc j) (omega arith)) },
            )
      ]
]

-- The scan of `filealloc` finds a file without references.
pub free_file-ref : (n i k : ℕ) (t : Ftable) → free_file n i t ≡ some k → (t k).ref ≡ 0
unfolding free_file
free_file-ref zero i k t e = absurd (none≢some k e)
free_file-ref (suc n) i k t e = elim (Bool-cases ((t i).ref == 0)) [
  | inl z ↦
      let same : i ≡ k = some-injective i k (rw z at e) in
      ap (λ x. (t x).ref) (sym same) ∙ ground arith
  | inr z ↦ free_file-ref n (i + 1) k t (rw z at e)
]

pub fileclose-ref :
    (i : ℕ) (t : Ftable)
    → (t i).ref ≢ 0
    → (r : Release) × (t' : Ftable) × (fileclose i t ≡ some (r, t'))
      × ((j : ℕ) → (t' j).ref ≡ (if j == i then (t i).ref - 1 else (t j).ref))
unfolding fileclose
fileclose-ref i t nz =
    let some_ref : ((t i).ref == 0) ≡ false = ground arith in
    let left : File = record (t i) { ref = (t i).ref - 1 } in
    elim (Bool-cases ((t i).ref == 1)) [
      | inl o ↦ (
        release_of left,
        update t i (record left { ref = 0; kind = fd_none }),
        rw (some_ref, o) refl,
        λ j. ground arith,
      )
      | inr o ↦ (still_open, update t i left, rw (some_ref, o) refl, λ j. ground arith)
    ]

-- `sys_close` does not panic, and keeps the counts.
sys_close-IsCounted :
    (outside : ℕ → ℕ) (fd : ℕ) (s : Descriptors)
    → IsCounted outside s
    → (r : Option Release) × (s' : Descriptors) × (sys_close fd s ≡ some (r, s'))
      × IsCounted outside s'
unfolding sys_close close_at
sys_close-IsCounted outside fd s h = elim (Option-cases (argfd fd s.ofile)) [
  | inl e ↦ (none, s, rw (e, sys_close) refl, h)
  | inr (zero, e) ↦ absurd (argfd-nonzero fd s.ofile e)
  | inr (suc i, e) ↦
      let c = argfd-count fd i s.ofile e in
      let (r, t, f, refs) = fileclose-ref i s.files (ground (arith, h.counted i)) in
      (
        some r,
        record { files = t; ofile = set s.ofile fd 0 },
        rw (e, sys_close, f) refl,
        record {
          counted = λ j.
              ground
                (arith, refs j, h.counted j, cleared fd (suc i) s.ofile e (suc j) (omega arith));
        },
      )
]

-- While each file has as many references as pointers to it, `sys_dup` and `sys_close` do not panic, and
-- keep it so, whatever the number that they are called with.
pub calls-IsCounted :
    (outside : ℕ → ℕ) (fd : ℕ) (s : Descriptors)
    → IsCounted outside s
    → ((r : Option ℕ) × (s' : Descriptors) × (sys_dup fd s ≡ some (r, s')) × IsCounted outside s')
      × ((r : Option Release) × (s' : Descriptors) × (sys_close fd s ≡ some (r, s'))
          × IsCounted outside s')
calls-IsCounted outside fd s h =
    (sys_dup-IsCounted outside fd s h, sys_close-IsCounted outside fd s h)

undone :
    (i d : ℕ) (gs : List ℕ) (s : Descriptors)
    → (s.files i).ref ≢ 0
    → argfd d gs ≡ some (suc i)
    → set gs d 0 ≡ s.ofile
    → sys_close d (record {
      files = update s.files i (record (s.files i) { ref = (s.files i).ref + 1 });
      ofile = gs;
    })
      ≡ some (some still_open, s)
unfolding sys_close close_at fileclose
undone i d gs s nz there back =
    let t : Ftable = update s.files i (record (s.files i) { ref = (s.files i).ref + 1 }) in
    let up : File = record (s.files i) { ref = (s.files i).ref + 1 } in
    let down : File → File = λ f. record f { ref = f.ref - 1 } in
    let taken_back : (s.files i).ref + 1 - 1 ≡ (s.files i).ref = omega arith in
    let e : ((t i).ref == 0) ≡ false = ground arith in
    let e' : ((t i).ref == 1) ≡ false = ground arith in
    let same : (j : ℕ) → update t i (record (t i) { ref = (t i).ref - 1 }) j ≡ s.files j = λ j.
      elim (ℕ_discrete j i) [
        | yes x ↦
            ap (update t i (down (t i))) x
            ∙ update_self t i (down (t i))
            ∙ ap down (update_self s.files i up)
            ∙ ap (λ (r : ℕ). record (s.files i) { ref = r }) taken_back
            ∙ ap s.files (sym x)
        | no n ↦ update_ne t i (down (t i)) j n ∙ update_ne s.files i up j n
      ] in
    rw (there, sys_close, e, e')
      (ap₂ (λ (a : Ftable) (b : List ℕ). some (some still_open, record { files = a; ofile = b }))
        (fun_ext same) back)

-- While the counts are right, closing the number that `sys_dup` has returned releases nothing, and brings
-- the descriptors and the file table back as they were.
pub close_after_dup :
    (outside : ℕ → ℕ) (fd new : ℕ) (s s' : Descriptors)
    → IsCounted outside s
    → sys_dup fd s ≡ some (some new, s')
    → sys_close new s' ≡ some (some still_open, s)
unfolding sys_dup dup_into filedup sys_close close_at fileclose
close_after_dup outside fd new s s' h e = elim (Option-cases (argfd fd s.ofile)) [
  | inl n ↦ let g = rw (n, sys_dup) at e in cc
  | inr (zero, a) ↦ absurd (argfd-nonzero fd s.ofile a)
  | inr (suc i, a) ↦
      let c = argfd-count fd i s.ofile a in
      elim (fdalloc-Taken (suc i) s.ofile) [
        | inl n ↦ let g = rw (a, sys_dup, n) at e in cc
        | inr (d, gs, f, t) ↦
            let some_ref : ((s.files i).ref == 0) ≡ false = ground (arith, h.counted i) in
            let g = some-injective _ _ (rw (a, sys_dup, f, some_ref) at e) in
            let d' = some-injective d new (ap (λ x. x.0) g) in
            ap₂ sys_close (sym d') (sym (ap (λ x. x.1) g))
            ∙ undone i d gs s (ground (arith, h.counted i)) (t.there (omega arith)) t.back
      ]
]
