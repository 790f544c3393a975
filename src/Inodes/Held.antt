-- ===== src/Inodes/Held.antt =====
-- What the calls on the inode cache do to the references and the locks of its entries.
use hyeonseung_os.Base.{
  ℕ, ◌+◌, ◌-◌, ◌≤◌, ◌<◌, ◌≡◌, refl, ap, ◌∙◌, inl, inr, Bool, true, false, not, ◌&&◌, ◌||◌, Option,
  none, some, ◌>>=◌, List, ◌∷◌, count, arith, ◌==◌, ltb, if◌then◌else◌, update, Bool-cases,
  Option-cases, Ends, panics, ends, Ends-bind, Ends-if, Ends-any,
}
use hyeonseung_os.Volume.{Volume}
use hyeonseung_os.Volume.Transfer.{Written, writei}
use hyeonseung_os.Volume.Truncate.{itrunc}
use hyeonseung_os.Inodes.{
  Entries, Store, get_entry, iget, idup, iupdate, ilock, iunlock, free_inode, drop_ref, iput,
  iunlockput, free_number, ialloc, write_inode,
}
use hyeonseung_os.Inodes.Cache.{Scanned, hit, room, full, scan-Scanned}

-- A call that has the references `refs` beside those of `base`, and that holds no lock but those of
-- `locks` and the ones that were held, `was`, before.
pub record Held (base : ℕ → ℕ) (was : ℕ → Bool) (refs locks : List ℕ) (t : Entries) : Type 0 where
  pub refs_are : (i : ℕ) → (t i).ref ≡ base i + count i refs
  pub locks_are : (i : ℕ) → (t i).locked ≡ true → was i ≡ false → 0 < count i locks

module _ (base : ℕ → ℕ) (was : ℕ → Bool) where
  -- The order of the lists does not matter.
  pub Held-same :
      {refs refs' locks locks' : List ℕ} {t : Entries}
      → ((i : ℕ) → count i refs ≡ count i refs')
      → ((i : ℕ) → count i locks ≤ count i locks')
      → Held base was refs locks t
      → Held base was refs' locks' t
  Held-same r l h = record {
    refs_are = λ i. h.refs_are i ∙ ap (λ n. base i + n) (r i);
    locks_are = λ i e n. omega (arith, h.locks_are i e n, l i);
  }

  pub Held-swap :
      {i j : ℕ} {refs locks : List ℕ} {t : Entries}
      → Held base was (i ∷ j ∷ refs) locks t
      → Held base was (j ∷ i ∷ refs) locks t
  unfolding count
  Held-swap h = Held-same (λ k. ground arith) (λ k. omega arith) h

  pub Locks-swap :
      {i j : ℕ} {refs locks : List ℕ} {t : Entries}
      → Held base was refs (i ∷ j ∷ locks) t
      → Held base was refs (j ∷ i ∷ locks) t
  unfolding count
  Locks-swap h = Held-same (λ k. refl) (λ k. ground arith) h

  get_entry-Held :
      (dev inum : ℕ) (refs locks : List ℕ) (t : Entries) (r : Option ℕ × Option ℕ)
      → Scanned 50 0 dev inum none t r
      → Held base was refs locks t
      → Ends (λ x. Held base was (x.0 ∷ refs) locks x.1) (get_entry dev inum r t)
  unfolding count
  get_entry-Held dev inum refs locks t _ (hit k l e) h = ends _ (record {
    refs_are = λ i. ground (arith, h.refs_are i);
    locks_are = λ i e n. ground (arith, h.locks_are i);
  })
  get_entry-Held dev inum refs locks t _ (room k m (inl e)) h = absurd (cc)
  get_entry-Held dev inum refs locks t _ (room k m (inr (l, z))) h = ends _ (record {
    refs_are = λ i. ground (arith, h.refs_are i, z);
    locks_are = λ i e n. ground (arith, h.locks_are i);
  })
  get_entry-Held dev inum refs locks t _ (full _ m a) h = panics

  pub iget-Held :
      (dev inum : ℕ) (refs locks : List ℕ) (s : Store)
      → Held base was refs locks s.entries
      → Ends (λ x. Held base was (x.0 ∷ refs) locks x.1.entries) (iget dev inum s)
  unfolding iget
  iget-Held dev inum refs locks s h =
      Ends-bind _
        (get_entry-Held dev inum refs locks s.entries _ (scan-Scanned 50 0 dev inum none s.entries)
          h)
        (λ x p. ends _ p)

  pub idup-Held :
      (i : ℕ) (refs locks : List ℕ) (s : Store)
      → Held base was refs locks s.entries
      → Held base was (i ∷ refs) locks (idup i s).entries
  unfolding idup count
  idup-Held i refs locks s h = record {
    refs_are = λ j. ground (arith, h.refs_are j);
    locks_are = λ j e n. ground (arith, h.locks_are j);
  }

  pub ilock-Held :
      (i : ℕ) (refs locks : List ℕ) (s : Store)
      → Held base was refs locks s.entries
      → Ends (λ s'. Held base was refs (i ∷ locks) s'.entries) (ilock i s)
  unfolding ilock count
  ilock-Held i refs locks s h =
      Ends-if ((s.entries i).ref == 0) (λ e. panics)
        (λ e.
          Ends-if (s.entries i).valid (λ e. ends _ after)
            (λ e.
              Ends-if ((s.disk (s.entries i).inum).kind == 0) (λ e. panics) (λ e. ends _ after)))
    where
      after :
          Held base was refs
            (i ∷ locks)
            (update s.entries i (record (s.entries i) { locked = true; valid = true }))
      after = record {
        refs_are = λ j. ground (arith, h.refs_are j);
        locks_are = λ j e n. ground (arith, h.locks_are j);
      }

  pub iunlock-Held :
      (i : ℕ) (refs locks : List ℕ) (s : Store)
      → Held base was refs (i ∷ locks) s.entries
      → Ends (λ s'. Held base was refs locks s'.entries) (iunlock i s)
  unfolding iunlock count
  iunlock-Held i refs locks s h =
      Ends-if (not (s.entries i).locked || (s.entries i).ref == 0) (λ e. panics)
        (λ e. ends _ (record {
          refs_are = λ j. ground (arith, h.refs_are j);
          locks_are = λ j e n. ground (arith, h.locks_are j);
        }))

  drop_ref-Held :
      (i : ℕ) (refs locks : List ℕ) (s : Store)
      → Held base was (i ∷ refs) locks s.entries
      → Held base was refs locks (drop_ref i s).entries
  unfolding count
  drop_ref-Held i refs locks s h = record {
    refs_are = λ j. ground (arith, h.refs_are j, h.refs_are i);
    locks_are = λ j e n. ground (arith, h.locks_are j);
  }

  free_inode-Held :
      (i : ℕ) (refs locks : List ℕ) (s : Store)
      → Held base was refs locks s.entries
      → Ends (λ s'. Held base was refs locks s'.entries) (free_inode i s)
  unfolding free_inode
  free_inode-Held i refs locks s h =
      Ends-bind _ (Ends-any (itrunc (s.entries i).inum s.volume)) (λ v p. ends _ (record {
        refs_are = λ j. ground (arith, h.refs_are j);
        locks_are = λ j e n. ground (arith, h.locks_are j);
      }))

  -- `iput` gives one reference back.
  pub iput-Held :
      (i : ℕ) (refs locks : List ℕ) (s : Store)
      → Held base was (i ∷ refs) locks s.entries
      → Ends (λ s'. Held base was refs locks s'.entries) (iput i s)
  unfolding iput
  iput-Held i refs locks s h =
      Ends-if
        ((s.entries i).valid
          && (s.volume.inodes (s.entries i).inum).nlink == 0
          && (s.entries i).ref == 1)
        (λ e.
          Ends-bind _ (free_inode-Held i (i ∷ refs) locks s h)
            (λ s' p. ends _ (drop_ref-Held i refs locks s' p)))
        (λ e. ends _ (drop_ref-Held i refs locks s h))

  pub iunlockput-Held :
      (i : ℕ) (refs locks : List ℕ) (s : Store)
      → Held base was (i ∷ refs) (i ∷ locks) s.entries
      → Ends (λ s'. Held base was refs locks s'.entries) (iunlockput i s)
  unfolding iunlockput
  iunlockput-Held i refs locks s h =
      Ends-bind _ (iunlock-Held i (i ∷ refs) locks s h) (λ s' p. iput-Held i refs locks s' p)

  pub ialloc-Held :
      (dev kind : ℕ) (refs locks : List ℕ) (s : Store)
      → Held base was refs locks s.entries
      → Ends (λ x. Held base was (x.0 ∷ refs) locks x.1.entries) (ialloc dev kind s)
  unfolding ialloc
  ialloc-Held dev kind refs locks s h = elim (Option-cases (free_number (s.ninodes - 1) 1 s.disk)) [
    | inl e ↦ rw e panics
    | inr (n, e) ↦ rw e (iget-Held dev n refs locks _ h)
  ]

  pub write_inode-Held :
      (n : ℕ) (src : ℕ → ℕ) (off len : ℕ) (refs locks : List ℕ) (s : Store)
      → Held base was refs locks s.entries
      → Ends (λ x. Held base was refs locks x.1.entries) (write_inode n src off len s)
  unfolding write_inode iupdate
  write_inode-Held n src off len refs locks s h = go (writei n src off len s.volume)
    where
      after : Written × Volume → Option (Written × Store)
      after (w, v) =
          let s' : Store = record s { volume = v } in
          let grown : Bool = ltb (s.volume.inodes n).size (v.inodes n).size in
          some (w, if grown then iupdate n s' else s')

      go :
          (r : Option (Written × Volume))
          → Ends (λ x. Held base was refs locks x.1.entries) (r >>= after)
      go none = panics
      go (some (w, v)) = elim (Bool-cases (ltb (s.volume.inodes n).size (v.inodes n).size)) [
        | inl e ↦ rw e (ends _ h)
        | inr e ↦ rw e (ends _ h)
      ]
