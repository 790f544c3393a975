-- ===== src/Calls/Balance.antt =====
-- No call on a path leaks a reference of the inode cache, or a lock.
use hyeonseung_os.Base.{
  ℕ, suc, ◌+◌, ◌-◌, ◌<◌, ◌≡◌, inl, inr, Bool, true, Option, none, some, List, [], ◌∷◌, ◌==◌,
  if◌then◌else◌, arith, Bool-cases, count, Ends, Ends-some,
}
use hyeonseung_os.Inodes.{Store, Entries}
use hyeonseung_os.Inodes.Held.{Held}
use hyeonseung_os.Files.{fd_inode, Descriptors, argfd}
use hyeonseung_os.Calls.{sys_link, sys_unlink}
use hyeonseung_os.Calls.Create.{sys_mkdir, sys_mknod}
use hyeonseung_os.Calls.Open.{sys_open, sys_chdir}
use hyeonseung_os.Calls.Held.{Kept, sys_link-Kept, sys_unlink-Kept}
use hyeonseung_os.Calls.HeldCreate.{sys_mkdir-Kept, sys_mknod-Kept}
use hyeonseung_os.Calls.HeldOpen.{IsCleared, Opened, sys_open-Opened, sys_chdir-Held}

-- The calls that keep nothing.
pub data PathCall : Type 0 where
  links : Option (List ℕ) → Option (List ℕ) → PathCall
  unlinks : Option (List ℕ) → PathCall
  makes_dir : Option (List ℕ) → PathCall
  makes_node : Option (List ℕ) → ℕ → ℕ → PathCall

unfoldable pub run : PathCall → ℕ → Store → Option (Bool × Store)
unfolding sys_link sys_unlink sys_mkdir sys_mknod
run (links old new) cwd s = sys_link old new cwd s
run (unlinks path) cwd s = sys_unlink path cwd s
run (makes_dir path) cwd s = sys_mkdir path cwd s
run (makes_node path major minor) cwd s = sys_mknod path major minor cwd s

-- Every entry that is locked was locked before.
abbrev pub NoLock : Entries → Entries → Type 0
NoLock t t' = (i : ℕ) → (t' i).locked ≡ true → (t i).locked ≡ true

abbrev refs_of : Entries → ℕ → ℕ
refs_of t i = (t i).ref

abbrev locks_of : Entries → ℕ → Bool
locks_of t i = (t i).locked

Held-before : (t : Entries) → Held (refs_of t) (locks_of t) [] [] t
unfolding count
Held-before t = record { refs_are = λ i. omega arith; locks_are = λ i e n. absurd (cc) }

Held-NoLock :
    (base : ℕ → ℕ) (refs : List ℕ) (t t' : Entries)
    → Held base (locks_of t) refs [] t'
    → NoLock t t'
unfolding count
Held-NoLock base refs t t' h i e = elim (Bool-cases (t i).locked) [
  | inl y ↦ y
  | inr n ↦ absurd (omega (arith, h.locks_are i e n))
]

run-Kept :
    (c : PathCall) (cwd : ℕ) (base : ℕ → ℕ) (was : ℕ → Bool) (s : Store)
    → Held base was [] [] s.entries
    → Ends (Kept base was [] []) (run c cwd s)
unfolding run
run-Kept (links old new) cwd base was s h = sys_link-Kept base was old new cwd [] [] s h
run-Kept (unlinks path) cwd base was s h = sys_unlink-Kept base was path cwd [] [] s h
run-Kept (makes_dir path) cwd base was s h = sys_mkdir-Kept base was path cwd [] [] s h
run-Kept (makes_node path major minor) cwd base was s h =
    sys_mknod-Kept base was path major minor cwd [] [] s h

-- However `sys_link`, `sys_unlink`, `sys_mkdir` or `sys_mknod` returns, with 0 or with -1 from any of its
-- branches: every entry of the inode cache has as many references as before the call, and an entry that
-- is locked was locked before.
pub calls_balance :
    (c : PathCall) (cwd : ℕ) (ok : Bool) (s s' : Store)
    → run c cwd s ≡ some (ok, s')
    → ((i : ℕ) → (s'.entries i).ref ≡ (s.entries i).ref) × NoLock s.entries s'.entries
unfolding count
calls_balance c cwd ok s s' e =
    let h : Held (refs_of s.entries) (locks_of s.entries) [] [] s'.entries =
      Ends-some (ok, s') (run-Kept c cwd _ _ s (Held-before s.entries)) e in
    ((λ i. omega (arith, h.refs_are i)), Held-NoLock (refs_of s.entries) [] s.entries s'.entries h)

-- A reference more for one entry.
abbrev pub OneMore : ℕ → Entries → Entries → Type 0
OneMore k t t' = (i : ℕ) → (t' i).ref ≡ (if i == k then (t i).ref + 1 else (t i).ref)

-- What `sys_open` leaves: with -1, as many references as before; with a descriptor, a new file there,
-- which has one reference and stands for an inode whose entry has one more.
abbrev pub OpenLeaves : Option ℕ → Descriptors → Entries → Entries → Type 0
OpenLeaves none d t t' = (i : ℕ) → (t' i).ref ≡ (t i).ref
OpenLeaves (some fd) d t t' =
    (i : ℕ) × (argfd fd d.ofile ≡ some (suc i))
    × ((d.files i).kind ≡ fd_inode)
    × ((d.files i).ref ≡ 1)
    × OneMore (d.files i).ip t t'

-- However `sys_open` returns, it leaves no entry of the inode cache locked that was not; with -1, every
-- entry has as many references as before; with a descriptor, this has a file with one reference that
-- stands for an inode, the entry of this inode has one reference more than before, and every other entry
-- has as many. The files that are free are of no kind.
pub open_balance :
    (path : Option (List ℕ)) (omode cwd : ℕ) (d d' : Descriptors) (r : Option ℕ) (s s' : Store)
    → IsCleared d.files
    → sys_open path omode cwd d s ≡ some (r, d', s')
    → NoLock s.entries s'.entries × OpenLeaves r d' s.entries s'.entries
unfolding count
open_balance path omode cwd d d' r s s' clear e = go r (
    Ends-some (r, d', s')
      (sys_open-Opened (refs_of s.entries) (locks_of s.entries) [] [] path omode cwd d s clear
        (Held-before s.entries))
      e)
  where
    go :
        (r : Option ℕ)
        → Opened (refs_of s.entries) (locks_of s.entries) [] [] (r, d', s')
        → NoLock s.entries s'.entries × OpenLeaves r d' s.entries s'.entries
    go none h = (
      Held-NoLock (refs_of s.entries) [] s.entries s'.entries h,
      λ i. omega (arith, h.refs_are i),
    )
    go (some fd) (i, there, kind, one, h) = (
      Held-NoLock (refs_of s.entries) ((d'.files i).ip ∷ []) s.entries s'.entries h,
      (i, there, kind, one, λ j. ground (arith, h.refs_are j)),
    )

-- However `sys_chdir` returns, the reference that the process holds goes from the entry that was its current
-- directory, and had one, to the one that is after the call; all other references are as before, and no
-- entry is locked that was not.
pub chdir_balance :
    (path : Option (List ℕ)) (cwd cwd' : ℕ) (ok : Bool) (s s' : Store)
    → 0 < (s.entries cwd).ref
    → sys_chdir path cwd s ≡ some (ok, cwd', s')
    → ((i : ℕ)
        → (s'.entries i).ref + (if i == cwd then 1 else 0)
          ≡ (s.entries i).ref + (if i == cwd' then 1 else 0))
      × NoLock s.entries s'.entries
unfolding count
chdir_balance path cwd cwd' ok s s' some_ref e =
    let base : ℕ → ℕ = λ i. (s.entries i).ref - count i (cwd ∷ []) in
    let before : Held base (locks_of s.entries) (cwd ∷ []) [] s.entries = record {
      refs_are = λ i. ground (arith, some_ref);
      locks_are = λ i e n. absurd (cc);
    } in
    let h : Held base (locks_of s.entries) (cwd' ∷ []) [] s'.entries =
      Ends-some (ok, cwd', s') (sys_chdir-Held base (locks_of s.entries) [] [] path cwd s before)
        e in
    (
      (λ i. ground (arith, h.refs_are i, some_ref)),
      Held-NoLock base (cwd' ∷ []) s.entries s'.entries h,
    )
