-- ===== src/Calls/Open.antt =====
-- `sys_open` and `sys_chdir` of xv6-public/sysfile.c. In the files that `sys_open` makes, `ip` is the entry
-- of the inode cache; Files/Transfer takes the number of the inode there.
use hyeonseung_os.Base.{
  ℕ, suc, ◌/◌, ◌%◌, Bool, true, false, not, ◌&&◌, ◌||◌, Option, none, some, ◌>>=◌, List, ◌==◌,
  if◌then◌else◌, update,
}
use hyeonseung_os.Inodes.{Store, ilock, iunlock, iput, iunlockput}
use hyeonseung_os.Files.{
  File, fd_inode, Ftable, filealloc, fileclose, fdalloc, Descriptors, Release, still_open, pipe_end,
  inode_put, no_more,
}
use hyeonseung_os.Paths.{namei}
use hyeonseung_os.Calls.{is_dir, put_back}
use hyeonseung_os.Calls.Create.{t_file, create}

-- `O_CREATE`, `O_WRONLY` and `O_RDWR` are the bits 9, 0 and 1.
abbrev pub has_create : ℕ → Bool
has_create omode = omode / 512 % 2 == 1

abbrev pub has_wronly : ℕ → Bool
has_wronly omode = omode % 2 == 1

abbrev pub has_rdwr : ℕ → Bool
has_rdwr omode = omode / 2 % 2 == 1

-- The inode of `sys_open`, locked, or -1 as the inner `none`.
unfoldable pub open_inode : List ℕ → ℕ → ℕ → Store → Option (Option ℕ × Store)
open_inode path omode cwd s =
    let found : Option (Option ℕ × Store) = (do
      (r, s₁) ← namei path cwd s
      elim r [
        | none ↦ some (none, s₁)
        | some ip ↦ do
          s₂ ← ilock ip s₁
          if is_dir ip s₂ && not (omode == 0) then put_back none ip s₂ else some (some ip, s₂)
      ]) in
    if has_create omode then create path t_file 0 0 cwd s else found

-- What `fileclose` releases of the inodes; the end of a pipe holds none.
abbrev pub release : Release → Store → Option Store
release still_open s = some s
release (pipe_end p writable) s = some s
release (inode_put ip) s = iput ip s
release no_more s = some s

-- The file that `sys_open` fills in.
abbrev pub opened_file : ℕ → ℕ → File → File
opened_file ip omode f = record f {
  kind = fd_inode;
  ip = ip;
  off = 0;
  readable = not (has_wronly omode);
  writable = has_wronly omode || has_rdwr omode;
}

-- `fdalloc` of the file that `filealloc` has given, and what follows.
unfoldable pub open_file :
    ℕ → ℕ → Option (ℕ × Ftable) → Descriptors → Store → Option (Option ℕ × Descriptors × Store)
open_file ip omode none d s = do s' ← iunlockput ip s; some (none, d, s')
open_file ip omode (some (i, files)) d s = elim (fdalloc (suc i) d.ofile) [
  | none ↦ do
    (r, files') ← fileclose i files
    s₁ ← release r s
    s₂ ← iunlockput ip s₁
    some (none, record d { files = files' }, s₂)
  | some (fd, ofile) ↦ do
    s' ← iunlock ip s
    let files' = update files i (opened_file ip omode (files i))
    some (some fd, record { files = files'; ofile = ofile }, s')
]

-- `sys_open`: the descriptor, or -1 as the inner `none`.
unfoldable pub sys_open :
    Option (List ℕ) → ℕ → ℕ → Descriptors → Store → Option (Option ℕ × Descriptors × Store)
unfolding open_inode open_file
sys_open none omode cwd d s = some (none, d, s)
sys_open (some path) omode cwd d s = do
  (r, s₁) ← open_inode path omode cwd s
  elim r [ none ↦ some (none, d, s₁) | some ip ↦ open_file ip omode (filealloc d.files) d s₁ ]

-- `sys_chdir`, with the entry of the current directory after it.
unfoldable pub sys_chdir : Option (List ℕ) → ℕ → Store → Option (Bool × ℕ × Store)
sys_chdir none cwd s = some (false, cwd, s)
sys_chdir (some path) cwd s = do
  (r, s₁) ← namei path cwd s
  elim r [
    | none ↦ some (false, cwd, s₁)
    | some ip ↦ do
      s₂ ← ilock ip s₁
      let no_dir : Option (Bool × ℕ × Store) = (do s₃ ← iunlockput ip s₂; some (false, cwd, s₃))
      let dir : Option (Bool × ℕ × Store) = (do
        s₃ ← iunlock ip s₂
        s₄ ← iput cwd s₃
        some (true, ip, s₄))
      if is_dir ip s₂ then dir else no_dir
  ]
