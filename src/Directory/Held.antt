-- ===== src/Directory/Held.antt =====
-- What the calls on directories do to the references and the locks of the inode cache.
use hyeonseung_os.Base.{
  ℕ, Bool, true, false, Option, none, some, ◌>>=◌, List, ◌∷◌, ◌==◌, if◌then◌else◌, Ends, panics,
  ends, Ends-bind, Ends-if, Ends-any,
}
use hyeonseung_os.Volume.Transfer.{Written, wrote, refused, to_device}
use hyeonseung_os.Inodes.{Store, iput}
use hyeonseung_os.Inodes.Held.{Held, iget-Held, iput-Held, write_inode-Held}
use hyeonseung_os.Directory.{
  Name, number, t_dir, is_free, is_named, dirent_rounds, inum_of, get_dirent, find_dirent,
  dirlookup, slot_of, new_dirent, add_dirent, dirlink,
}

module _ (base : ℕ → ℕ) (was : ℕ → Bool) (refs locks : List ℕ) where
  -- What is held after `dirlookup`: the entry that it has found too.
  abbrev pub Looked : Option (ℕ × ℕ) × Store → Type 0
  Looked (none, s) = Held base was refs locks s.entries
  Looked (some (i, off), s) = Held base was (i ∷ refs) locks s.entries

  get_dirent-Looked :
      (dev : ℕ) (r : Option (ℕ × List ℕ)) (s : Store)
      → Held base was refs locks s.entries
      → Ends Looked (get_dirent dev r s)
  get_dirent-Looked dev none s h = ends _ h
  get_dirent-Looked dev (some (off, bs)) s h =
      Ends-bind _ (iget-Held base was dev (inum_of bs) refs locks s h) (λ x p. ends _ p)

  pub dirlookup-Looked :
      (dp : ℕ) (name : Name) (s : Store)
      → Held base was refs locks s.entries
      → Ends Looked (dirlookup dp name s)
  unfolding dirlookup
  dirlookup-Looked dp name s h =
      Ends-if ((s.volume.inodes (number dp s)).kind == t_dir)
        (λ e.
          Ends-bind _
            (Ends-any (
              find_dirent (dirent_rounds (number dp s) s.volume) (is_named name) (number dp s) 0
                s.volume))
            (λ x p. get_dirent-Looked (s.entries dp).dev x.0 (record s { volume = x.1 }) h))
        (λ e. panics)

  -- A write of an entry, whose count is looked at.
  pub whole-Held :
      (w : Written) (s : Store)
      → Held base was refs locks s.entries
      → Ends
          (λ s'. Held base was refs locks s'.entries)
          (elim w [
            | wrote k ↦ if k == 16 then some s else none
            | refused ↦ none
            | to_device ↦ none
          ])
  whole-Held (wrote k) s h = Ends-if (k == 16) (λ e. ends _ h) (λ e. panics)
  whole-Held refused s h = panics
  whole-Held to_device s h = panics

  add_dirent-Held :
      (n : ℕ) (name : Name) (inum : ℕ) (s : Store)
      → Held base was refs locks s.entries
      → Ends (λ s'. Held base was refs locks s'.entries) (add_dirent n name inum s)
  unfolding add_dirent
  add_dirent-Held n name inum s h =
      Ends-bind _ (Ends-any (find_dirent (dirent_rounds n s.volume) is_free n 0 s.volume)) (λ x p.
        Ends-bind _
          (write_inode-Held base was n (new_dirent name inum) (slot_of x.0 (x.1.inodes n).size) 16
            refs locks (record s { volume = x.1 }) h)
          (λ y q. whole-Held y.0 y.1 q))

  pub dirlink-Held :
      (dp : ℕ) (name : Name) (inum : ℕ) (s : Store)
      → Held base was refs locks s.entries
      → Ends (λ x. Held base was refs locks x.1.entries) (dirlink dp name inum s)
  unfolding dirlink
  dirlink-Held dp name inum s h = Ends-bind _ (dirlookup-Looked dp name s h) found
    where
      rest : Option (ℕ × ℕ) × Store → Option (Bool × Store)
      rest (r, s') = elim r [
        | some (i, off) ↦ (do s'' ← iput i s'; some (false, s''))
        | none ↦ (do s'' ← add_dirent (number dp s') name inum s'; some (true, s''))
      ]

      found :
          (x : Option (ℕ × ℕ) × Store)
          → Looked x
          → Ends (λ x. Held base was refs locks x.1.entries) (rest x)
      found (some (i, off), s') p =
          Ends-bind _ (iput-Held base was i refs locks s' p) (λ s'' q. ends _ q)
      found (none, s') p =
          Ends-bind _ (add_dirent-Held (number dp s') name inum s' p) (λ s'' q. ends _ q)
