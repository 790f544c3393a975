-- ===== src/Files/Pipes.antt =====
-- `sys_pipe` of xv6-public/sysfile.c, from the address that it has fetched on.
use hyeonseung_os.Base.{
  ℕ, suc, ◌+◌, ◌≡◌, refl, ◌⊎◌, inl, inr, Option, none, some, ◌>>=◌, List, set, arith, ◌==◌,
  if◌then◌else◌, update, Bool-cases, Option-cases,
}
use hyeonseung_os.Files.{
  Ftable, Release, free_file, filealloc, fileclose, fdalloc, pipe_ends, pipealloc, Descriptors,
  sys_dup, sys_close,
}
use hyeonseung_os.Files.Counts.{
  IsCounted, Taken, fdalloc-Taken, fileclose-ref, free_file-ref, calls-IsCounted,
}

-- Both files are closed again, and -1 returned.
unfoldable pub close_both : ℕ → ℕ → Descriptors → Option (Option (ℕ × ℕ) × Descriptors)
close_both i j d = do
  (r, t) ← fileclose i d.files
  (r', t') ← fileclose j t
  some (none, record d { files = t' })

-- The two calls of `fdalloc`.
unfoldable pub pipe_into : ℕ → ℕ → Descriptors → Option (Option (ℕ × ℕ) × Descriptors)
unfolding close_both
pipe_into i j d = elim (fdalloc (suc i) d.ofile) [
  | none ↦ close_both i j d
  | some (fd₀, ofile) ↦ elim (fdalloc (suc j) ofile) [
    | none ↦ close_both i j (record d { ofile = set ofile fd₀ 0 })
    | some (fd₁, ofile') ↦ some (some (fd₀, fd₁), record d { ofile = ofile' })
  ]
]

-- `sys_pipe`, with what `kalloc` returns: the two descriptors, or -1 as the inner `none`.
unfoldable pub sys_pipe : ℕ → Descriptors → Option (Option (ℕ × ℕ) × Descriptors)
unfolding pipe_into
sys_pipe p d = do
  (r, files) ← pipealloc p d.files
  elim r [
    | none ↦ some (none, record d { files = files })
    | some (i, j) ↦ pipe_into i j (record d { files = files })
  ]

-- The call that runs has a reference to file `i`.
abbrev plus : ℕ → (ℕ → ℕ) → ℕ → ℕ
plus i outside k = if k == i then outside k + 1 else outside k

filealloc-IsCounted :
    (outside : ℕ → ℕ) (d : Descriptors)
    → IsCounted outside d
    → (filealloc d.files ≡ none)
      ⊎ ((i : ℕ) × (t : Ftable) × (filealloc d.files ≡ some (i, t))
          × IsCounted (plus i outside) (record d { files = t }))
unfolding filealloc
filealloc-IsCounted outside d c = elim (Option-cases (free_file 100 0 d.files)) [
  | inl e ↦ inl (rw e refl)
  | inr (i, e) ↦
      let t : Ftable = update d.files i (record (d.files i) { ref = 1 }) in
      inr (
        i,
        t,
        rw e refl,
        record { counted = λ k. ground (arith, c.counted k, free_file-ref 100 0 i d.files e) },
      )
]

fileclose-IsCounted :
    (outside : ℕ → ℕ) (i : ℕ) (d : Descriptors)
    → IsCounted (plus i outside) d
    → (r : Release) × (t : Ftable) × (fileclose i d.files ≡ some (r, t))
      × IsCounted outside (record d { files = t })
fileclose-IsCounted outside i d c =
    let (r, t, e, refs) = fileclose-ref i d.files (ground (arith, c.counted i)) in
    (r, t, e, record { counted = λ k. ground (arith, refs k, c.counted k) })

fdalloc-IsCounted :
    (outside : ℕ → ℕ) (i fd : ℕ) (gs : List ℕ) (d : Descriptors)
    → IsCounted (plus i outside) d
    → Taken (suc i) fd d.ofile gs
    → IsCounted outside (record d { ofile = gs })
fdalloc-IsCounted outside i fd gs d c t = record {
  counted = λ k. ground (arith, c.counted k, t.fewer (suc k) (omega arith));
}

-- The file table and the descriptors after both files are closed.
closed :
    (outside : ℕ → ℕ) (i j : ℕ) (d : Descriptors)
    → IsCounted (plus i (plus j outside)) d
    → (d' : Descriptors) × (close_both i j d ≡ some (none, d'))
      × (d'.ofile ≡ d.ofile)
      × IsCounted outside d'
unfolding close_both
closed outside i j d c =
    let (r, t, e, c') = fileclose-IsCounted (plus j outside) i d c in
    let (r', t', e', c'') = fileclose-IsCounted outside j (record d { files = t }) c' in
    (record d { files = t' }, rw (e, e') refl, refl, c'')

-- Two new files, of which the call has the references, or a failure with all as before.
abbrev Made : (ℕ → ℕ) → Descriptors → Option (Option (ℕ × ℕ) × Ftable) → Type 0
Made outside d r =
    ((t : Ftable) × (r ≡ some (none, t)) × IsCounted outside (record d { files = t }))
    ⊎ ((i : ℕ) × (j : ℕ) × (t : Ftable) × (r ≡ some (some (i, j), t))
        × IsCounted (plus i (plus j outside)) (record d { files = t }))

swapped :
    (outside : ℕ → ℕ) (i j : ℕ) (d : Descriptors)
    → IsCounted (plus j (plus i outside)) d
    → IsCounted (plus i (plus j outside)) d
swapped outside i j d c = record { counted = λ k. ground (arith, c.counted k) }

ends-IsCounted :
    (outside : ℕ → ℕ) (p i j : ℕ) (d : Descriptors)
    → IsCounted outside d
    → IsCounted outside (record d { files = pipe_ends p i j d.files })
ends-IsCounted outside p i j d c = record { counted = λ k. ground (arith, c.counted k) }

pipealloc-Made :
    (outside : ℕ → ℕ) (p : ℕ) (d : Descriptors)
    → IsCounted outside d
    → Made outside d (pipealloc p d.files)
unfolding pipealloc
pipealloc-Made outside p d c = elim (filealloc-IsCounted outside d c) [
  | inl e ↦ rw (e, pipealloc) (inl (d.files, refl, c))
  | inr (i, t₁, e, c₁) ↦ elim (filealloc-IsCounted (plus i outside) (record d { files = t₁ }) c₁) [
    | inl e' ↦
        let (r, t₂, f, c₂) = fileclose-IsCounted outside i (record d { files = t₁ }) c₁ in
        rw (e, pipealloc, e', f) (inl (t₂, refl, c₂))
    | inr (j, t₂, e', c₂) ↦
        let (r, t₃, f, c₃) =
          fileclose-IsCounted (plus j outside) i (record d { files = t₂ })
            (swapped outside i j (record d { files = t₂ }) c₂) in
        let (r', t₄, f', c₄) = fileclose-IsCounted outside j (record d { files = t₃ }) c₃ in
        elim (Bool-cases (p == 0)) [
          | inl z ↦ rw (e, pipealloc, e', z, f, f') (inl (t₄, refl, c₄))
          | inr z ↦
              rw (e, pipealloc, e', z)
                (inr (
                  i,
                  j,
                  pipe_ends p i j t₂,
                  refl,
                  ends-IsCounted (plus i (plus j outside)) p i j (record d { files = t₂ })
                      (swapped outside i j (record d { files = t₂ }) c₂),
                ))
        ]
  ]
]

-- What `sys_pipe` comes to.
abbrev Piped : (ℕ → ℕ) → Descriptors → Option (Option (ℕ × ℕ) × Descriptors) → Type 0
Piped outside d r =
    ((d' : Descriptors) × (r ≡ some (none, d')) × (d'.ofile ≡ d.ofile) × IsCounted outside d')
    ⊎ ((fd₀ : ℕ) × (fd₁ : ℕ) × (d' : Descriptors) × (r ≡ some (some (fd₀, fd₁), d'))
        × IsCounted outside d')

pipe_into-Piped :
    (outside : ℕ → ℕ) (i j : ℕ) (d : Descriptors)
    → IsCounted (plus i (plus j outside)) d
    → Piped outside d (pipe_into i j d)
unfolding pipe_into
pipe_into-Piped outside i j d c = elim (fdalloc-Taken (suc i) d.ofile) [
  | inl e ↦ rw (e, pipe_into) (inl (closed outside i j d c))
  | inr (fd₀, gs, e, t) ↦
      let c₁ = fdalloc-IsCounted (plus j outside) i fd₀ gs d c t in
      elim (fdalloc-Taken (suc j) gs) [
        | inl e' ↦ rw (e, pipe_into, e', t.back) (inl (closed outside i j d c))
        | inr (fd₁, hs, e', t') ↦
            rw (e, pipe_into, e')
              (inr (
                fd₀,
                fd₁,
                record d { ofile = hs },
                refl,
                fdalloc-IsCounted outside j fd₁ hs (record d { ofile = gs }) c₁ t',
              ))
      ]
]

-- `sys_pipe` does not panic; if it fails, the descriptors are as before.
sys_pipe-Piped :
    (outside : ℕ → ℕ) (p : ℕ) (d : Descriptors)
    → IsCounted outside d
    → Piped outside d (sys_pipe p d)
unfolding sys_pipe
sys_pipe-Piped outside p d c = elim (pipealloc-Made outside p d c) [
  | inl (t, e, c') ↦ rw e (inl (record d { files = t }, refl, refl, c'))
  | inr (i, j, t, e, c') ↦ rw e (pipe_into-Piped outside i j (record d { files = t }) c')
]

-- While each file has as many references as pointers to it, `sys_dup`, `sys_close` and `sys_pipe` do not
-- panic, and keep it so, whatever the number that they are called with and whether there is a page for
-- the pipe; a `sys_pipe` that fails leaves the descriptors as they were.
pub calls_kept :
    (outside : ℕ → ℕ) (fd p : ℕ) (d : Descriptors)
    → IsCounted outside d
    → ((r : Option ℕ) × (d' : Descriptors) × (sys_dup fd d ≡ some (r, d')) × IsCounted outside d')
      × ((r : Option Release) × (d' : Descriptors) × (sys_close fd d ≡ some (r, d'))
          × IsCounted outside d')
      × (((d' : Descriptors) × (sys_pipe p d ≡ some (none, d'))
            × (d'.ofile ≡ d.ofile)
            × IsCounted outside d')
          ⊎ ((fd₀ : ℕ) × (fd₁ : ℕ) × (d' : Descriptors) × (sys_pipe p d
                ≡ some (some (fd₀, fd₁), d'))
              × IsCounted outside d'))
calls_kept outside fd p d c =
    let (dups, closes) = calls-IsCounted outside fd d c in
    (dups, closes, sys_pipe-Piped outside p d c)
