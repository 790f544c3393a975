-- ===== src/Calls/HeldCreate.antt =====
-- The references and the locks that `create` and `sys_open` leave.
use hyeonseung_os.Base.{
  ℕ, Bool, true, ◌&&◌, Option, none, some, List, ◌∷◌, ◌==◌, Ends, panics, ends, Ends-bind, Ends-if,
}
use hyeonseung_os.Inodes.{Store}
use hyeonseung_os.Inodes.Held.{
  Held, Held-swap, Locks-swap, ilock-Held, iunlockput-Held, ialloc-Held,
}
use hyeonseung_os.Directory.{Name, t_dir, number}
use hyeonseung_os.Directory.Held.{Looked, dirlookup-Looked, dirlink-Held}
use hyeonseung_os.Paths.{as_name}
use hyeonseung_os.Paths.Held.{Walked, nameiparent-Walked}
use hyeonseung_os.Calls.{inode_at, change_inode, more_links, put_back, dot, dotdot}
use hyeonseung_os.Calls.Create.{
  t_file, create_there, add_dots, create_new, create_in, create, put_created, sys_mkdir, sys_mknod,
}
use hyeonseung_os.Calls.Held.{Kept, change_inode-Held, put_back-Kept}

module _ (base : ℕ → ℕ) (was : ℕ → Bool) where
  -- What is held after `create`: the inode, locked, if there is one.
  abbrev pub Made : List ℕ → List ℕ → Option ℕ × Store → Type 0
  Made refs locks (none, s) = Held base was refs locks s.entries
  Made refs locks (some ip, s) = Held base was (ip ∷ refs) (ip ∷ locks) s.entries

  pub put_none-Made :
      (i : ℕ) (refs locks : List ℕ) (s : Store)
      → Held base was (i ∷ refs) (i ∷ locks) s.entries
      → Ends (Made refs locks) (put_back none i s)
  put_none-Made i refs locks s h =
      Ends-bind _ (iunlockput-Held base was i refs locks s h) (λ s' h'. ends _ h')

  create_there-Made :
      (dp ip kind : ℕ) (refs locks : List ℕ) (s : Store)
      → Held base was (dp ∷ ip ∷ refs) (dp ∷ locks) s.entries
      → Ends (Made refs locks) (create_there dp ip kind s)
  unfolding create_there
  create_there-Made dp ip kind refs locks s h =
      Ends-bind _ (iunlockput-Held base was dp (ip ∷ refs) locks s h) (λ s₁ h₁.
        Ends-bind _ (ilock-Held base was ip (ip ∷ refs) locks s₁ h₁) (λ s₂ h₂.
          Ends-if (kind == t_file && (inode_at ip s₂).kind == t_file) (λ e. ends _ h₂)
            (λ e. put_none-Made ip refs locks s₂ h₂)))

  add_dots-Held :
      (dp ip : ℕ) (refs locks : List ℕ) (s : Store)
      → Held base was refs locks s.entries
      → Ends (λ s'. Held base was refs locks s'.entries) (add_dots dp ip s)
  unfolding add_dots
  add_dots-Held dp ip refs locks s h =
      Ends-bind _
        (dirlink-Held base was refs locks ip dot (number ip s) (change_inode dp more_links s)
          (change_inode-Held base was dp more_links refs locks s h))
        (λ x h₁.
          Ends-bind _ (dirlink-Held base was refs locks ip dotdot (number dp x.1) x.1 h₁)
            (λ y h₂. Ends-if (x.0 && y.0) (λ e. ends _ h₂) (λ e. panics)))

  create_new-Made :
      (dp : ℕ) (name : Name) (kind major minor : ℕ) (refs locks : List ℕ) (s : Store)
      → Held base was (dp ∷ refs) (dp ∷ locks) s.entries
      → Ends (Made refs locks) (create_new dp name kind major minor s)
  unfolding create_new
  create_new-Made dp name kind major minor refs locks s h =
      Ends-bind _ (ialloc-Held base was (s.entries dp).dev kind (dp ∷ refs) (dp ∷ locks) s h)
        (λ x h₁.
          Ends-bind _ (ilock-Held base was x.0 (x.0 ∷ dp ∷ refs) (dp ∷ locks) x.1 h₁) (λ s₂ h₂.
            Ends-bind {P = λ s₄. Held base was (x.0 ∷ dp ∷ refs) (x.0 ∷ dp ∷ locks) s₄.entries} _
              (Ends-if (kind == t_dir)
                (λ e. add_dots-Held dp x.0 (x.0 ∷ dp ∷ refs) (x.0 ∷ dp ∷ locks) _ (init x.0 s₂ h₂))
                (λ e. ends _ (init x.0 s₂ h₂)))
              (λ s₄ h₄.
                Ends-bind _
                  (dirlink-Held base was (x.0 ∷ dp ∷ refs) (x.0 ∷ dp ∷ locks) dp name
                    (number x.0 s₄) s₄ h₄)
                  (λ y h₅. Ends-if y.0 (λ e. last x.0 y.1 h₅) (λ e. panics)))))
    where
      init :
          (ip : ℕ) (s₂ : Store)
          → Held base was (ip ∷ dp ∷ refs) (ip ∷ dp ∷ locks) s₂.entries
          → Held base was
              (ip ∷ dp ∷ refs)
              (ip ∷ dp ∷ locks)
              (change_inode ip
                (λ p. record p { major = major; minor = minor; nlink = 1 })
                s₂).entries
      init ip s₂ h₂ = change_inode-Held base was ip _ (ip ∷ dp ∷ refs) (ip ∷ dp ∷ locks) s₂ h₂

      last :
          (ip : ℕ) (s₅ : Store)
          → Held base was (ip ∷ dp ∷ refs) (ip ∷ dp ∷ locks) s₅.entries
          → Ends (Made refs locks) (put_back (some ip) dp s₅)
      last ip s₅ h₅ =
          Ends-bind _
            (iunlockput-Held base was dp (ip ∷ refs) (ip ∷ locks) s₅
              (Held-swap base was (Locks-swap base was h₅)))
            (λ s₆ h₆. ends _ h₆)

  pub create-Made :
      (path : List ℕ) (kind major minor cwd : ℕ) (refs locks : List ℕ) (s : Store)
      → Held base was refs locks s.entries
      → Ends (Made refs locks) (create path kind major minor cwd s)
  unfolding create create_in
  create-Made path kind major minor cwd refs locks s h =
      Ends-bind _ (nameiparent-Walked base was refs locks path cwd s h) parent
    where
      at_name : ℕ → Name → Option (ℕ × ℕ) × Store → Option (Option ℕ × Store)
      at_name dp name (r, s₂) = elim r [
        | some (ip, off) ↦ create_there dp ip kind s₂
        | none ↦ create_new dp name kind major minor s₂
      ]

      looked :
          (dp : ℕ) (name : Name) (x : Option (ℕ × ℕ) × Store)
          → Looked base was (dp ∷ refs) (dp ∷ locks) x
          → Ends (Made refs locks) (at_name dp name x)
      looked dp name (none, s₂) h₂ = create_new-Made dp name kind major minor refs locks s₂ h₂
      looked dp name (some (ip, off), s₂) h₂ =
          create_there-Made dp ip kind refs locks s₂ (Held-swap base was h₂)

      in_parent : Option (ℕ × List ℕ) × Store → Option (Option ℕ × Store)
      in_parent (p, s₁) = elim p [
        | none ↦ some (none, s₁)
        | some (dp, name) ↦ create_in dp (as_name name) kind major minor s₁
      ]

      parent :
          (x : Option (ℕ × List ℕ) × Store)
          → Walked base was refs locks x
          → Ends (Made refs locks) (in_parent x)
      parent (none, s₁) h₁ = ends _ h₁
      parent (some (dp, name), s₁) h₁ =
          Ends-bind _ (ilock-Held base was dp (dp ∷ refs) locks s₁ h₁) (λ s₂ h₂.
            Ends-bind _ (dirlookup-Looked base was (dp ∷ refs) (dp ∷ locks) dp (as_name name) s₂ h₂)
              (looked dp (as_name name)))

  put_created-Kept :
      (r : Option ℕ) (refs locks : List ℕ) (s : Store)
      → Made refs locks (r, s)
      → Ends (Kept base was refs locks) (put_created r s)
  put_created-Kept none refs locks s h = ends _ h
  put_created-Kept (some ip) refs locks s h = put_back-Kept base was true ip refs locks s h

  pub sys_mkdir-Kept :
      (path : Option (List ℕ)) (cwd : ℕ) (refs locks : List ℕ) (s : Store)
      → Held base was refs locks s.entries
      → Ends (Kept base was refs locks) (sys_mkdir path cwd s)
  unfolding sys_mkdir
  sys_mkdir-Kept none cwd refs locks s h = ends _ h
  sys_mkdir-Kept (some path) cwd refs locks s h =
      Ends-bind _ (create-Made path t_dir 0 0 cwd refs locks s h)
        (λ x p. put_created-Kept x.0 refs locks x.1 p)

  pub sys_mknod-Kept :
      (path : Option (List ℕ)) (major minor cwd : ℕ) (refs locks : List ℕ) (s : Store)
      → Held base was refs locks s.entries
      → Ends (Kept base was refs locks) (sys_mknod path major minor cwd s)
  unfolding sys_mknod
  sys_mknod-Kept none major minor cwd refs locks s h = ends _ h
  sys_mknod-Kept (some path) major minor cwd refs locks s h =
      Ends-bind _ (create-Made path _ _ _ cwd refs locks s h)
        (λ x p. put_created-Kept x.0 refs locks x.1 p)
