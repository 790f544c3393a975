-- ===== src/Paths/Held.antt =====
-- The references and the locks that a walk of `namex` holds.
use hyeonseung_os.Base.{
  ℕ, zero, suc, inl, inr, Bool, true, false, not, ◌&&◌, Option, none, some, ◌>>=◌, List, [], ◌∷◌,
  length, ◌==◌, Ends, ends, Ends-bind, Ends-if, Option-cases,
}
use hyeonseung_os.Inodes.{Store, iunlockput}
use hyeonseung_os.Inodes.Held.{
  Held, Held-swap, iget-Held, idup-Held, iput-Held, ilock-Held, iunlock-Held, iunlockput-Held,
}
use hyeonseung_os.Directory.{Name, number, t_dir}
use hyeonseung_os.Directory.Held.{Looked, dirlookup-Looked}
use hyeonseung_os.Paths.{
  slash, rootdev, rootino, as_name, Visit, lost, stopped, goes, went, visit_dir, namex_end,
  namex_loop, namex_start, namex, namei, nameiparent, is_nil, skipelem,
}

module _ (base : ℕ → ℕ) (was : ℕ → Bool) (refs locks : List ℕ) where
  -- After a round at `ip`, and after the walk.
  abbrev Visited : ℕ → Visit × Store → Type 0
  Visited ip (lost, s) = Held base was refs locks s.entries
  Visited ip (stopped, s) = Held base was (ip ∷ refs) locks s.entries
  Visited ip (goes next, s) = Held base was (next ∷ refs) locks s.entries

  abbrev pub Walked : Option (ℕ × List ℕ) × Store → Type 0
  Walked (none, s) = Held base was refs locks s.entries
  Walked (some (ip, elem), s) = Held base was (ip ∷ refs) locks s.entries

  visit_dir-Visited :
      (ip : ℕ) (name : Name) (last : Bool) (s : Store)
      → Held base was (ip ∷ refs) locks s.entries
      → Ends (Visited ip) (visit_dir ip name last s)
  unfolding visit_dir
  visit_dir-Visited ip name last s h =
      Ends-bind _ (ilock-Held base was ip (ip ∷ refs) locks s h) (λ s₁ h₁.
        Ends-if (not ((s₁.volume.inodes (number ip s₁)).kind == t_dir))
          (λ e. Ends-bind _ (iunlockput-Held base was ip refs locks s₁ h₁) (λ s₂ h₂. ends _ h₂))
          (λ e.
            Ends-if last
              (λ e.
                Ends-bind _ (iunlock-Held base was ip (ip ∷ refs) locks s₁ h₁) (λ s₂ h₂. ends _ h₂))
              (λ e.
                Ends-bind _ (dirlookup-Looked base was (ip ∷ refs) (ip ∷ locks) ip name s₁ h₁)
                  look)))
    where
      leave : Option (ℕ × ℕ) × Store → Option (Visit × Store)
      leave (r, s₂) = do s₃ ← iunlockput ip s₂; some (went r, s₃)

      look :
          (x : Option (ℕ × ℕ) × Store)
          → Looked base was (ip ∷ refs) (ip ∷ locks) x
          → Ends (Visited ip) (leave x)
      look (none, s₂) h₂ =
          Ends-bind _ (iunlockput-Held base was ip refs locks s₂ h₂) (λ s₃ h₃. ends _ h₃)
      look (some (next, off), s₂) h₂ =
          Ends-bind _ (iunlockput-Held base was ip (next ∷ refs) locks s₂ (Held-swap base was h₂))
            (λ s₃ h₃. ends _ h₃)

  namex_end-Walked :
      (parent : Bool) (ip : ℕ) (s : Store)
      → Held base was (ip ∷ refs) locks s.entries
      → Ends Walked (namex_end parent ip s)
  unfolding namex_end
  namex_end-Walked true ip s h =
      Ends-bind _ (iput-Held base was ip refs locks s h) (λ s' h'. ends _ h')
  namex_end-Walked false ip s h = ends _ h

  namex_loop-Walked :
      (rounds : ℕ) (path : List ℕ) (parent : Bool) (ip : ℕ) (s : Store)
      → Held base was (ip ∷ refs) locks s.entries
      → Ends Walked (namex_loop rounds path parent ip s)
  unfolding namex_loop
  namex_loop-Walked zero path parent ip s h = namex_end-Walked parent ip s h
  namex_loop-Walked (suc rounds) path parent ip s h = elim (Option-cases (skipelem path)) [
    | inl e ↦ rw (e, namex_loop) (namex_end-Walked parent ip s h)
    | inr ((elem, rest), e) ↦
        rw (e, namex_loop)
          (Ends-bind _ (visit_dir-Visited ip (as_name elem) (parent && is_nil rest) s h)
            (next elem rest (λ to s'. namex_loop-Walked rounds rest parent to s')))
  ]
    where
      after : List ℕ → List ℕ → Visit × Store → Option (Option (ℕ × List ℕ) × Store)
      after elem rest (x, s') = elim x [
        | lost ↦ some (none, s')
        | stopped ↦ some (some (ip, elem), s')
        | goes to ↦ namex_loop rounds rest parent to s'
      ]

      next :
          (elem rest : List ℕ)
          → ((to : ℕ) (s' : Store)
              → Held base was (to ∷ refs) locks s'.entries
              → Ends Walked (namex_loop rounds rest parent to s'))
          → (x : Visit × Store) → Visited ip x
          → Ends Walked (after elem rest x)
      next elem rest later (lost, s') h' = ends _ h'
      next elem rest later (stopped, s') h' = ends _ h'
      next elem rest later (goes to, s') h' = later to s' h'

  namex_start-Held :
      (path : List ℕ) (cwd : ℕ) (s : Store)
      → Held base was refs locks s.entries
      → Ends (λ x. Held base was (x.0 ∷ refs) locks x.1.entries) (namex_start path cwd s)
  unfolding namex_start
  namex_start-Held [] cwd s h = ends _ (idup-Held base was cwd refs locks s h)
  namex_start-Held (c ∷ cs) cwd s h =
      Ends-if (c == slash) (λ e. iget-Held base was rootdev rootino refs locks s h)
        (λ e. ends _ (idup-Held base was cwd refs locks s h))

  namex-Walked :
      (path : List ℕ) (parent : Bool) (cwd : ℕ) (s : Store)
      → Held base was refs locks s.entries
      → Ends Walked (namex path parent cwd s)
  unfolding namex
  namex-Walked path parent cwd s h =
      Ends-bind _ (namex_start-Held path cwd s h)
        (λ x p. namex_loop-Walked (length path) path parent x.0 x.1 p)

  pub nameiparent-Walked :
      (path : List ℕ) (cwd : ℕ) (s : Store)
      → Held base was refs locks s.entries
      → Ends Walked (nameiparent path cwd s)
  unfolding nameiparent
  nameiparent-Walked path cwd s h = namex-Walked path true cwd s h

  abbrev pub Found : Option ℕ × Store → Type 0
  Found (none, s) = Held base was refs locks s.entries
  Found (some ip, s) = Held base was (ip ∷ refs) locks s.entries

  pub namei-Found :
      (path : List ℕ) (cwd : ℕ) (s : Store)
      → Held base was refs locks s.entries
      → Ends Found (namei path cwd s)
  unfolding namei
  namei-Found path cwd s h = Ends-bind _ (namex-Walked path false cwd s h) found
    where
      drop_name : Option (ℕ × List ℕ) × Store → Option (Option ℕ × Store)
      drop_name (r, s') = some ((do (ip, _) ← r; some ip), s')

      found : (x : Option (ℕ × List ℕ) × Store) → Walked x → Ends Found (drop_name x)
      found (none, s') h' = ends _ h'
      found (some (ip, elem), s') h' = ends _ h'
