-- ===== src/Calls/Held.antt =====
-- The references and the locks that `sys_link` and `sys_unlink` leave.
use hyeonseung_os.Base.{
  ℕ, Bool, true, false, not, ◌||◌, Option, none, some, List, ◌∷◌, ◌==◌, leb, if◌then◌else◌, Ends,
  panics, ends, Ends-bind, Ends-if, Ends-any,
}
use hyeonseung_os.Volume.{Inode}
use hyeonseung_os.Inodes.{Store}
use hyeonseung_os.Inodes.Held.{
  Held, Held-swap, Locks-swap, iput-Held, ilock-Held, iunlock-Held, iunlockput-Held,
  write_inode-Held,
}
use hyeonseung_os.Directory.{Name, number, namecmp, isdirempty}
use hyeonseung_os.Directory.Held.{Looked, whole-Held, dirlookup-Looked, dirlink-Held}
use hyeonseung_os.Paths.{as_name}
use hyeonseung_os.Paths.Held.{Walked, Found, nameiparent-Walked, namei-Found}
use hyeonseung_os.Calls.{
  inode_at, is_dir, change_inode, more_links, fewer_links, put_back, link_entry, link_end,
  link_file, sys_link, dot, dotdot, clear_dirent, unlink_entry, may_unlink, unlink_inode,
  unlink_name, sys_unlink,
}

module _ (base : ℕ → ℕ) (was : ℕ → Bool) where
  abbrev pub Kept : {A : Type 0} → List ℕ → List ℕ → A × Store → Type 0
  Kept refs locks x = Held base was refs locks x.1.entries

  pub change_inode-Held :
      (i : ℕ) (f : Inode → Inode) (refs locks : List ℕ) (s : Store)
      → Held base was refs locks s.entries
      → Held base was refs locks (change_inode i f s).entries
  unfolding change_inode
  change_inode-Held i f refs locks s h = h

  pub put_back-Kept :
      {A : Type 0} (r : A) (i : ℕ) (refs locks : List ℕ) (s : Store)
      → Held base was (i ∷ refs) (i ∷ locks) s.entries
      → Ends (Kept refs locks) (put_back r i s)
  put_back-Kept r i refs locks s h =
      Ends-bind _ (iunlockput-Held base was i refs locks s h) (λ s' h'. ends _ h')

  link_entry-Kept :
      (ip : ℕ) (p : Option (ℕ × List ℕ)) (refs locks : List ℕ) (s : Store)
      → Walked base was refs locks (p, s)
      → Ends (Kept refs locks) (link_entry ip p s)
  unfolding link_entry
  link_entry-Kept ip none refs locks s h = ends _ h
  link_entry-Kept ip (some (dp, name)) refs locks s h =
      Ends-bind _ (ilock-Held base was dp (dp ∷ refs) locks s h) (λ s₁ h₁.
        Ends-bind {P = Kept (dp ∷ refs) (dp ∷ locks)} _
          (Ends-if ((s₁.entries dp).dev == (s₁.entries ip).dev)
            (λ e.
              dirlink-Held base was (dp ∷ refs) (dp ∷ locks) dp (as_name name) (number ip s₁) s₁ h₁)
            (λ e. ends _ h₁))
          (λ x h₂. put_back-Kept x.0 dp refs locks x.1 h₂))

  link_end-Kept :
      (ip : ℕ) (ok : Bool) (refs locks : List ℕ) (s : Store)
      → Held base was (ip ∷ refs) locks s.entries
      → Ends (Kept refs locks) (link_end ip ok s)
  unfolding link_end
  link_end-Kept ip true refs locks s h =
      Ends-bind _ (iput-Held base was ip refs locks s h) (λ s' h'. ends _ h')
  link_end-Kept ip false refs locks s h =
      Ends-bind _ (ilock-Held base was ip (ip ∷ refs) locks s h) (λ s₁ h₁.
        put_back-Kept false ip refs locks (change_inode ip fewer_links s₁)
          (change_inode-Held ip fewer_links (ip ∷ refs) (ip ∷ locks) s₁ h₁))

  link_file-Kept :
      (ip : ℕ) (new : List ℕ) (cwd : ℕ) (refs locks : List ℕ) (s : Store)
      → Held base was (ip ∷ refs) locks s.entries
      → Ends (Kept refs locks) (link_file ip new cwd s)
  unfolding link_file
  link_file-Kept ip new cwd refs locks s h =
      Ends-bind _ (ilock-Held base was ip (ip ∷ refs) locks s h) (λ s₁ h₁.
        Ends-if (is_dir ip s₁) (λ e. put_back-Kept false ip refs locks s₁ h₁)
          (λ e.
            Ends-bind _
              (iunlock-Held base was ip (ip ∷ refs) locks (change_inode ip more_links s₁)
                (change_inode-Held ip more_links (ip ∷ refs) (ip ∷ locks) s₁ h₁))
              (λ s₂ h₂.
                Ends-bind _ (nameiparent-Walked base was (ip ∷ refs) locks new cwd s₂ h₂) (λ x h₃.
                  Ends-bind _ (link_entry-Kept ip x.0 (ip ∷ refs) locks x.1 h₃)
                    (λ y h₄. link_end-Kept ip y.0 refs locks y.1 h₄)))))

  pub sys_link-Kept :
      (old new : Option (List ℕ)) (cwd : ℕ) (refs locks : List ℕ) (s : Store)
      → Held base was refs locks s.entries
      → Ends (Kept refs locks) (sys_link old new cwd s)
  unfolding sys_link
  sys_link-Kept none new cwd refs locks s h = ends _ h
  sys_link-Kept (some old) none cwd refs locks s h = ends _ h
  sys_link-Kept (some old) (some new) cwd refs locks s h =
      Ends-bind _ (namei-Found base was refs locks old cwd s h) found
    where
      rest : Option ℕ × Store → Option (Bool × Store)
      rest (r, s₁) = elim r [ none ↦ some (false, s₁) | some ip ↦ link_file ip new cwd s₁ ]

      found : (x : Option ℕ × Store) → Found base was refs locks x → Ends (Kept refs locks) (rest x)
      found (none, s₁) h₁ = ends _ h₁
      found (some ip, s₁) h₁ = link_file-Kept ip new cwd refs locks s₁ h₁

  clear_dirent-Held :
      (dp off : ℕ) (refs locks : List ℕ) (s : Store)
      → Held base was refs locks s.entries
      → Ends (λ s'. Held base was refs locks s'.entries) (clear_dirent dp off s)
  unfolding clear_dirent
  clear_dirent-Held dp off refs locks s h =
      Ends-bind _ (write_inode-Held base was (number dp s) (λ k. 0) off 16 refs locks s h)
        (λ x q. whole-Held base was refs locks x.0 x.1 q)

  -- Both directories are held, and locked: that of the entry, and the inode that it names.
  unlink_entry-Kept :
      (dp ip off : ℕ) (refs locks : List ℕ) (s : Store)
      → Held base was (dp ∷ ip ∷ refs) (dp ∷ ip ∷ locks) s.entries
      → Ends (Kept refs locks) (unlink_entry dp ip off s)
  unfolding unlink_entry
  unlink_entry-Kept dp ip off refs locks s h =
      Ends-bind _ (clear_dirent-Held dp off (dp ∷ ip ∷ refs) (dp ∷ ip ∷ locks) s h) (λ s₁ h₁.
        Ends-bind _
          (iunlockput-Held base was dp (ip ∷ refs) (ip ∷ locks)
            (if is_dir ip s₁ then change_inode dp fewer_links s₁ else s₁)
            (changed (is_dir ip s₁) s₁ h₁))
          (λ s₂ h₂.
            put_back-Kept true ip refs locks (change_inode ip fewer_links s₂)
              (change_inode-Held ip fewer_links (ip ∷ refs) (ip ∷ locks) s₂ h₂)))
    where
      changed :
          (b : Bool) (s₁ : Store)
          → Held base was (dp ∷ ip ∷ refs) (dp ∷ ip ∷ locks) s₁.entries
          → Held base was
              (dp ∷ ip ∷ refs)
              (dp ∷ ip ∷ locks)
              (if b then change_inode dp fewer_links s₁ else s₁).entries
      changed true s₁ h₁ = change_inode-Held dp fewer_links (dp ∷ ip ∷ refs) (dp ∷ ip ∷ locks) s₁ h₁
      changed false s₁ h₁ = h₁

  may_unlink-Kept :
      (ip : ℕ) (refs locks : List ℕ) (s : Store)
      → Held base was refs locks s.entries
      → Ends (Kept refs locks) (may_unlink ip s)
  unfolding may_unlink
  may_unlink-Kept ip refs locks s h =
      Ends-if (is_dir ip s)
        (λ e. Ends-bind _ (Ends-any (isdirempty (number ip s) s.volume)) (λ x p. ends _ h))
        (λ e. ends _ h)

  unlink_inode-Kept :
      (dp ip off : ℕ) (refs locks : List ℕ) (s : Store)
      → Held base was (ip ∷ dp ∷ refs) (dp ∷ locks) s.entries
      → Ends (Kept refs locks) (unlink_inode dp ip off s)
  unfolding unlink_inode
  unlink_inode-Kept dp ip off refs locks s h =
      Ends-bind _ (ilock-Held base was ip (ip ∷ dp ∷ refs) (dp ∷ locks) s h) (λ s₁ h₁.
        Ends-bind _ (may_unlink-Kept ip (ip ∷ dp ∷ refs) (ip ∷ dp ∷ locks) s₁ h₁) (λ x h₂.
          Ends-if (not (not ((inode_at ip s₁).nlink == 0 || leb 32_768 (inode_at ip s₁).nlink)))
            (λ e. panics)
            (λ e.
              Ends-if x.0
                (λ e.
                  unlink_entry-Kept dp ip off refs locks x.1
                    (Held-swap base was (Locks-swap base was h₂)))
                (λ e.
                  Ends-bind _ (iunlockput-Held base was ip (dp ∷ refs) (dp ∷ locks) x.1 h₂)
                    (λ s₃ h₃. put_back-Kept false dp refs locks s₃ h₃)))))

  unlink_name-Kept :
      (dp : ℕ) (name : Name) (refs locks : List ℕ) (s : Store)
      → Held base was (dp ∷ refs) locks s.entries
      → Ends (Kept refs locks) (unlink_name dp name s)
  unfolding unlink_name
  unlink_name-Kept dp name refs locks s h =
      Ends-bind _ (ilock-Held base was dp (dp ∷ refs) locks s h) (λ s₁ h₁.
        Ends-if (namecmp name dot == 0 || namecmp name dotdot == 0)
          (λ e. put_back-Kept false dp refs locks s₁ h₁)
          (λ e.
            Ends-bind _ (dirlookup-Looked base was (dp ∷ refs) (dp ∷ locks) dp name s₁ h₁) found))
    where
      rest : Option (ℕ × ℕ) × Store → Option (Bool × Store)
      rest (r, s₂) = elim r [
        | none ↦ put_back false dp s₂
        | some (ip, off) ↦ unlink_inode dp ip off s₂
      ]

      found :
          (x : Option (ℕ × ℕ) × Store)
          → Looked base was (dp ∷ refs) (dp ∷ locks) x
          → Ends (Kept refs locks) (rest x)
      found (none, s₂) h₂ = put_back-Kept false dp refs locks s₂ h₂
      found (some (ip, off), s₂) h₂ = unlink_inode-Kept dp ip off refs locks s₂ h₂

  pub sys_unlink-Kept :
      (path : Option (List ℕ)) (cwd : ℕ) (refs locks : List ℕ) (s : Store)
      → Held base was refs locks s.entries
      → Ends (Kept refs locks) (sys_unlink path cwd s)
  unfolding sys_unlink
  sys_unlink-Kept none cwd refs locks s h = ends _ h
  sys_unlink-Kept (some path) cwd refs locks s h =
      Ends-bind _ (nameiparent-Walked base was refs locks path cwd s h) found
    where
      rest : Option (ℕ × List ℕ) × Store → Option (Bool × Store)
      rest (p, s₁) = elim p [
        | none ↦ some (false, s₁)
        | some (dp, name) ↦ unlink_name dp (as_name name) s₁
      ]

      found :
          (x : Option (ℕ × List ℕ) × Store)
          → Walked base was refs locks x
          → Ends (Kept refs locks) (rest x)
      found (none, s₁) h₁ = ends _ h₁
      found (some (dp, name), s₁) h₁ = unlink_name-Kept dp (as_name name) refs locks s₁ h₁
