-- ===== src/Calls/HeldOpen.antt =====
-- The references and the locks that `sys_open` and `sys_chdir` leave.
use hyeonseung_os.Base.{
  ℕ, suc, ◌≡◌, ◌⊎◌, inl, inr, Bool, true, false, not, ◌&&◌, Option, none, some, ◌>>=◌, List, ◌∷◌,
  ◌==◌, if◌then◌else◌, update, subst, arith, Option-cases, Ends, ends, Ends-bind, Ends-if,
}
use hyeonseung_os.Inodes.{Store, ilock, iunlock, iput, iunlockput}
use hyeonseung_os.Inodes.Held.{
  Held, Held-swap, iput-Held, ilock-Held, iunlock-Held, iunlockput-Held,
}
use hyeonseung_os.Files.{
  File, fd_none, fd_inode, Ftable, free_file, filealloc, fileclose, argfd, fdalloc, Descriptors,
  no_more, nfile,
}
use hyeonseung_os.Files.Counts.{free_file-ref, Taken, fdalloc-Taken}
use hyeonseung_os.Paths.Held.{Found, namei-Found}
use hyeonseung_os.Calls.{is_dir, put_back}
use hyeonseung_os.Calls.Create.{t_file}
use hyeonseung_os.Calls.Open.{has_create, open_inode, opened_file, open_file, sys_open, sys_chdir}
use hyeonseung_os.Calls.HeldCreate.{Made, put_none-Made, create-Made}

-- The table keeps nothing of a file that is free.
abbrev pub IsCleared : Ftable → Type 0
IsCleared t = (i : ℕ) → (t i).ref ≡ 0 → (t i).kind ≡ fd_none

-- A file that has just been made is closed again.
close_new :
    (i : ℕ) (t : Ftable)
    → (t i).kind ≡ fd_none
    → (t' : Ftable) × (fileclose i (update t i (record (t i) { ref = 1 })) ≡ some (no_more, t'))
unfolding fileclose
close_new i t e =
    let t₁ : Ftable = update t i (record (t i) { ref = 1 }) in
    let left : File = record (t₁ i) { ref = 0 } in
    (update t₁ i (record left { kind = fd_none }), ground (arith, e))

module _ (base : ℕ → ℕ) (was : ℕ → Bool) (refs locks : List ℕ) where
  open_inode-Made :
      (path : List ℕ) (omode cwd : ℕ) (s : Store)
      → Held base was refs locks s.entries
      → Ends (Made base was refs locks) (open_inode path omode cwd s)
  unfolding open_inode
  open_inode-Made path omode cwd s h =
      Ends-if (has_create omode) (λ e. create-Made base was path t_file 0 0 cwd refs locks s h)
        (λ e. Ends-bind _ (namei-Found base was refs locks path cwd s h) found)
    where
      rest : Option ℕ × Store → Option (Option ℕ × Store)
      rest (r, s₁) = elim r [
        | none ↦ some (none, s₁)
        | some ip ↦ do
          s₂ ← ilock ip s₁
          if is_dir ip s₂ && not (omode == 0) then put_back none ip s₂ else some (some ip, s₂)
      ]

      found :
          (x : Option ℕ × Store)
          → Found base was refs locks x
          → Ends (Made base was refs locks) (rest x)
      found (none, s₁) h₁ = ends _ h₁
      found (some ip, s₁) h₁ =
          Ends-bind _ (ilock-Held base was ip (ip ∷ refs) locks s₁ h₁) (λ s₂ h₂.
            Ends-if (is_dir ip s₂ && not (omode == 0))
              (λ e. put_none-Made base was ip refs locks s₂ h₂) (λ e. ends _ h₂))

  -- The file behind the descriptor is new, and holds the inode.
  abbrev pub Opened : Option ℕ × Descriptors × Store → Type 0
  Opened (none, d, s) = Held base was refs locks s.entries
  Opened (some fd, d, s) =
      (i : ℕ) × (argfd fd d.ofile ≡ some (suc i))
      × ((d.files i).kind ≡ fd_inode)
      × ((d.files i).ref ≡ 1)
      × Held base was ((d.files i).ip ∷ refs) locks s.entries

  open_file-Opened :
      (ip omode : ℕ) (d : Descriptors) (s : Store)
      → IsCleared d.files
      → Held base was (ip ∷ refs) (ip ∷ locks) s.entries
      → Ends (Opened) (open_file ip omode (filealloc d.files) d s)
  unfolding open_file filealloc
  open_file-Opened ip omode d s clear h = elim (Option-cases (free_file nfile 0 d.files)) [
    | inl e ↦ rw e (Ends-bind _ (iunlockput-Held base was ip refs locks s h) (λ s' h'. ends _ h'))
    | inr (i, e) ↦
        simp e (new i (clear i (free_file-ref nfile 0 i d.files e)) (fdalloc-Taken (suc i) d.ofile))
  ]
    where
      filled : ℕ → Ftable
      filled i =
          let t : Ftable = update d.files i (record (d.files i) { ref = 1 }) in
          update t i (opened_file ip omode (t i))

      of_ip :
          (i : ℕ) (s' : Store)
          → Held base was (ip ∷ refs) locks s'.entries
          → Held base was ((filled i i).ip ∷ refs) locks s'.entries
      of_ip i s' h' =
          let same : ip ≡ (filled i i).ip = ground arith in
          subst (λ k. Held base was (k ∷ refs) locks s'.entries) same h'

      new :
          (i : ℕ)
          → (d.files i).kind ≡ fd_none
          → (fdalloc (suc i) d.ofile ≡ none)
            ⊎ ((fd : ℕ) × (gs : List ℕ) × (fdalloc (suc i) d.ofile ≡ some (fd, gs))
                × Taken (suc i) fd d.ofile gs)
          → Ends Opened
              (open_file ip omode (some (i, update d.files i (record (d.files i) { ref = 1 }))) d s)
      new i k (inl e) =
          let (t', c) = close_new i d.files k in
          let put : Ends Opened
              (iunlockput ip s >>= λ s'. some (none, record d { files = t' }, s')) =
            Ends-bind _ (iunlockput-Held base was ip refs locks s h) (λ s' h'. ends _ h') in
          rw (e, open_file) (rw c put)
      new i k (inr (fd, gs, e, t)) =
          rw (e, open_file)
            (Ends-bind _ (iunlock-Held base was ip (ip ∷ refs) locks s h)
              (λ s' h'. ends _ (i, t.there (λ z. cc), ground arith, ground arith, of_ip i s' h')))

  pub sys_open-Opened :
      (path : Option (List ℕ)) (omode cwd : ℕ) (d : Descriptors) (s : Store)
      → IsCleared d.files
      → Held base was refs locks s.entries
      → Ends (Opened) (sys_open path omode cwd d s)
  unfolding sys_open
  sys_open-Opened none omode cwd d s clear h = ends _ h
  sys_open-Opened (some path) omode cwd d s clear h =
      Ends-bind _ (open_inode-Made path omode cwd s h) found
    where
      rest : Option ℕ × Store → Option (Option ℕ × Descriptors × Store)
      rest (r, s₁) = elim r [
        | none ↦ some (none, d, s₁)
        | some ip ↦ open_file ip omode (filealloc d.files) d s₁
      ]

      found : (x : Option ℕ × Store) → Made base was refs locks x → Ends (Opened) (rest x)
      found (none, s₁) h₁ = ends _ h₁
      found (some ip, s₁) h₁ = open_file-Opened ip omode d s₁ clear h₁

  -- The current directory is held before and after.
  pub sys_chdir-Held :
      (path : Option (List ℕ)) (cwd : ℕ) (s : Store)
      → Held base was (cwd ∷ refs) locks s.entries
      → Ends (λ x. Held base was (x.1 ∷ refs) locks x.2.entries) (sys_chdir path cwd s)
  unfolding sys_chdir
  sys_chdir-Held none cwd s h = ends _ h
  sys_chdir-Held (some path) cwd s h =
      Ends-bind _ (namei-Found base was (cwd ∷ refs) locks path cwd s h) found
    where
      rest : Option ℕ × Store → Option (Bool × ℕ × Store)
      rest (r, s₁) = elim r [
        | none ↦ some (false, cwd, s₁)
        | some ip ↦ do
          s₂ ← ilock ip s₁
          let no_dir : Option (Bool × ℕ × Store) = (do s₃ ← iunlockput ip s₂; some (false, cwd, s₃))
          let dir : Option (Bool × ℕ × Store) = (do
            s₃ ← iunlock ip s₂
            s₄ ← iput cwd s₃
            some (true, ip, s₄))
          if is_dir ip s₂ then dir else no_dir
      ]

      found :
          (x : Option ℕ × Store)
          → Found base was (cwd ∷ refs) locks x
          → Ends (λ x. Held base was (x.1 ∷ refs) locks x.2.entries) (rest x)
      found (none, s₁) h₁ = ends _ h₁
      found (some ip, s₁) h₁ =
          Ends-bind _ (ilock-Held base was ip (ip ∷ cwd ∷ refs) locks s₁ h₁) (λ s₂ h₂.
            Ends-if (is_dir ip s₂)
              (λ e. Ends-bind _ (iunlock-Held base was ip (ip ∷ cwd ∷ refs) locks s₂ h₂) (λ s₃ h₃.
                Ends-bind _ (iput-Held base was cwd (ip ∷ refs) locks s₃ (Held-swap base was h₃))
                  (λ s₄ h₄. ends _ h₄)))
              (λ e.
                Ends-bind _ (iunlockput-Held base was ip (cwd ∷ refs) locks s₂ h₂)
                  (λ s₃ h₃. ends _ h₃)))
