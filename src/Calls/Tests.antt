-- ===== src/Calls/Tests.antt =====
-- Runs of the calls on paths on a new file system, and the theorems at them.
use hyeonseung_os.Base.{
  ℕ, ◌+◌, ◌≡◌, refl, Bool, true, false, Option, none, some, ◌>>=◌, List, [], ◌∷◌, ◌==◌,
  if◌then◌else◌, arith,
}
use hyeonseung_os.Volume.{Inode, bmap}
use hyeonseung_os.Volume.Blank.{blank}
use hyeonseung_os.Volume.Transfer.{writei, readi}
use hyeonseung_os.Inodes.{Store, iget, write_inode, ilock, iunlock, iput, iunlockput, ialloc, idup}
use hyeonseung_os.Directory.{namecmp_at, dirlookup, dirlink}
use hyeonseung_os.Paths.{skipelem, visit_dir, namex_end, namei, nameiparent}
use hyeonseung_os.Files.{File, fd_none, filealloc, fdalloc, Descriptors}
use hyeonseung_os.Calls.{change_inode, sys_unlink}
use hyeonseung_os.Calls.Create.{create, sys_mkdir}
use hyeonseung_os.Calls.Open.{sys_open, sys_chdir}
use hyeonseung_os.Calls.Balance.{
  makes_dir, run, NoLock, OpenLeaves, calls_balance, open_balance, chdir_balance,
}

-- Inode 1 is the empty root, whose entry is the current directory's, and every other inode is free.
abbrev disk : ℕ → Inode
disk n = record {
  kind = if n == 1 then 1 else 0;
  major = 0;
  minor = 0;
  nlink = 1;
  size = 0;
  addrs = λ i. 0;
}

abbrev made_disk : Store
made_disk = record {
  volume = record (blank 0 1) { inodes = disk };
  entries = λ i. record {
    dev = 1;
    inum = 1;
    ref = if i == 0 then 1 else 0;
    valid = true;
    locked = false;
  };
  disk = disk;
  ninodes = 20;
}

abbrev state_of : Option (Bool × Store) → Store
state_of none = made_disk
state_of (some (ok, s)) = s

abbrev ok_of : Option (Bool × Store) → Option Bool
ok_of r = do (ok, s) ← r; some ok

-- `/a`, `b`
abbrev slash_a : List ℕ
slash_a = 47 ∷ 97 ∷ []

abbrev just_b : List ℕ
just_b = 98 ∷ []

abbrev free_file : File
free_file = record {
  kind = fd_none;
  ref = 0;
  readable = false;
  writable = false;
  pipe = 0;
  ip = 0;
  off = 0;
}

abbrev nothing_open : Descriptors
nothing_open = record { files = λ i. free_file; ofile = 0 ∷ 0 ∷ [] }

abbrev opened_at : Option (Option ℕ × Descriptors × Store) → Option (Option ℕ)
opened_at r = do (fd, d, s) ← r; some fd

makes_a : ok_of (sys_mkdir (some slash_a) 0 made_disk) ≡ some true
unfolding sys_mkdir nameiparent iget skipelem visit_dir ilock iunlock dirlookup ialloc dirlink
    change_inode write_inode writei bmap readi namecmp_at iunlockput
makes_a = refl

no_file_b : ok_of (sys_unlink (some just_b) 0 made_disk) ≡ some false
unfolding sys_unlink nameiparent skipelem visit_dir ilock idup iunlock namecmp_at dirlookup
    iunlockput
no_file_b = refl

creates_b : opened_at (sys_open (some just_b) 514 0 nothing_open made_disk) ≡ some (some 0)
unfolding sys_open idup filealloc nameiparent iget skipelem visit_dir ilock iunlock dirlookup ialloc
    dirlink change_inode write_inode writei bmap readi namecmp_at iunlockput create fdalloc
creates_b = refl

calls_balance_example :
    ((i : ℕ)
      → ((state_of (run (makes_dir (some slash_a)) 0 made_disk)).entries i).ref
        ≡ (made_disk.entries i).ref)
    × NoLock made_disk.entries (state_of (run (makes_dir (some slash_a)) 0 made_disk)).entries
unfolding run sys_mkdir nameiparent iget skipelem visit_dir ilock iunlock dirlookup ialloc dirlink
    change_inode write_inode writei bmap readi namecmp_at iunlockput
calls_balance_example =
    calls_balance (makes_dir (some slash_a)) 0 true made_disk
      (state_of (run (makes_dir (some slash_a)) 0 made_disk)) refl

abbrev after_open : Option (Option ℕ × Descriptors × Store) → Descriptors × Store
after_open none = (nothing_open, made_disk)
after_open (some (r, d, s)) = (d, s)

open_balance_example :
    NoLock made_disk.entries
      (after_open (sys_open (some just_b) 514 0 nothing_open made_disk)).1.entries
    × OpenLeaves
        (some 0)
        (after_open (sys_open (some just_b) 514 0 nothing_open made_disk)).0
        made_disk.entries
        (after_open (sys_open (some just_b) 514 0 nothing_open made_disk)).1.entries
unfolding sys_open idup filealloc nameiparent iget skipelem visit_dir ilock iunlock dirlookup ialloc
    dirlink change_inode write_inode writei bmap readi namecmp_at iunlockput create fdalloc
open_balance_example =
    open_balance (some just_b) 514 0 nothing_open
      (after_open (sys_open (some just_b) 514 0 nothing_open made_disk)).0 (some 0) made_disk
      (after_open (sys_open (some just_b) 514 0 nothing_open made_disk)).1 (λ i z. refl) refl

abbrev after_chdir : Option (Bool × ℕ × Store) → Store
after_chdir none = made_disk
after_chdir (some (ok, cwd, s)) = s

chdir_balance_example :
    ((i : ℕ)
      → ((after_chdir (sys_chdir (some (47 ∷ [])) 0 made_disk)).entries i).ref
          + (if i == 0 then 1 else 0)
        ≡ (made_disk.entries i).ref + (if i == 0 then 1 else 0))
    × NoLock made_disk.entries (after_chdir (sys_chdir (some (47 ∷ [])) 0 made_disk)).entries
unfolding sys_chdir namei iget skipelem ilock iunlock iput namex_end
chdir_balance_example =
    chdir_balance (some (47 ∷ [])) 0 0 true made_disk
      (after_chdir (sys_chdir (some (47 ∷ [])) 0 made_disk)) (omega arith) refl
