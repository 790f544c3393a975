-- ===== src/Files.antt =====
-- The open files: the file table of xv6-public/file.c, the descriptors of xv6-public/sysfile.c and `pipealloc` of
-- xv6-public/pipe.c. A `struct file *` is a number: 0 is null, and `suc i` points to `ftable.file[i]`.
pub mod Counts
pub mod Transfer
pub mod PastEnd
pub mod Pipes
mod Tests
use hyeonseung_os.Base.{
  ℕ, zero, suc, ◌+◌, ◌-◌, Bool, true, false, Option, none, some, ◌>>=◌, List, [], ◌∷◌, set, ◌==◌,
  if◌then◌else◌, update,
}

pub data FileKind : Type 0 where
  fd_none fd_pipe fd_inode : FileKind

-- `struct file`; `kind` is `type`.
pub record File : Type 0 where
  pub kind : FileKind
  pub ref : ℕ
  pub readable : Bool
  pub writable : Bool
  pub pipe : ℕ
  pub ip : ℕ
  pub off : ℕ

abbrev pub nfile : ℕ
nfile = 100

abbrev pub Ftable : Type 0
Ftable = ℕ → File

-- The scan of `filealloc`.
unfoldable pub free_file : ℕ → ℕ → Ftable → Option ℕ
free_file zero i t = none
free_file (suc n) i t = let rest = free_file n (i + 1) t in if (t i).ref == 0 then some i else rest

unfoldable pub filealloc : Ftable → Option (ℕ × Ftable)
unfolding free_file
filealloc t = do i ← free_file nfile 0 t; some (i, update t i (record (t i) { ref = 1 }))

-- `none` is the panic.
unfoldable pub filedup : ℕ → Ftable → Option Ftable
filedup i t =
    if (t i).ref == 0 then none else some (update t i (record (t i) { ref = (t i).ref + 1 }))

-- What `fileclose` does once the table is unlocked: nothing, `pipeclose` of a pipe's end, or `iput`.
pub data Release : Type 0 where
  still_open : Release
  pipe_end : ℕ → Bool → Release
  inode_put : ℕ → Release
  no_more : Release

abbrev pub release_of : File → Release
release_of f = elim f.kind [
  | fd_pipe ↦ pipe_end f.pipe f.writable
  | fd_inode ↦ inode_put f.ip
  | fd_none ↦ no_more
]

unfoldable pub fileclose : ℕ → Ftable → Option (Release × Ftable)
fileclose i t =
    let left : File = record (t i) { ref = (t i).ref - 1 } in
    let gone : File = record left { ref = 0; kind = fd_none } in
    if (t i).ref == 0
    then none
    else if (t i).ref == 1
    then some (release_of left, update t i gone)
    else some (still_open, update t i left)

-- `argfd`, when the number has been fetched: a pointer that is not null, or -1.
unfoldable pub argfd : ℕ → List ℕ → Option ℕ
argfd fd [] = none
argfd zero (f ∷ fs) = if f == 0 then none else some f
argfd (suc fd) (f ∷ fs) = argfd fd fs

unfoldable pub fdalloc : ℕ → List ℕ → Option (ℕ × List ℕ)
fdalloc f [] = none
fdalloc f (g ∷ gs) =
    let rest : Option (ℕ × List ℕ) = (do (fd, gs') ← fdalloc f gs; some (suc fd, g ∷ gs')) in
    if g == 0 then some (0, f ∷ gs) else rest

-- `ftable`, and `ofile` of the process that runs.
pub record Descriptors : Type 0 where
  pub files : Ftable
  pub ofile : List ℕ

-- The end of `sys_dup`, with the pointer and what `fdalloc` returns.
unfoldable pub dup_into : ℕ → Option (ℕ × List ℕ) → Descriptors → Option (Option ℕ × Descriptors)
unfolding filedup
dup_into f none s = some (none, s)
dup_into zero (some (fd, ofile)) s = none
dup_into (suc i) (some (fd, ofile)) s = do
  files ← filedup i s.files
  some (some fd, record { files = files; ofile = ofile })

-- `sys_dup`: the new number, or -1 as `none`. The outer `none` is a panic.
unfoldable pub sys_dup : ℕ → Descriptors → Option (Option ℕ × Descriptors)
unfolding argfd fdalloc dup_into
sys_dup fd s = elim (argfd fd s.ofile) [
  | none ↦ some (none, s)
  | some f ↦ dup_into f (fdalloc f s.ofile) s
]

-- `sys_close` for the pointer at `fd`.
unfoldable pub close_at : ℕ → ℕ → Descriptors → Option (Option Release × Descriptors)
unfolding fileclose
close_at fd zero s = none
close_at fd (suc i) s = do
  (r, files) ← fileclose i s.files
  some (some r, record { files = files; ofile = set s.ofile fd 0 })

-- `sys_close`: what is released, or -1 as `none`. The outer `none` is a panic.
unfoldable pub sys_close : ℕ → Descriptors → Option (Option Release × Descriptors)
unfolding argfd close_at
sys_close fd s = elim (argfd fd s.ofile) [ none ↦ some (none, s) | some f ↦ close_at fd f s ]

-- The ends of a new pipe.
abbrev pub pipe_ends : ℕ → ℕ → ℕ → Ftable → Ftable
pipe_ends p i j t =
    let t' : Ftable =
      update t i (record (t i) { kind = fd_pipe; readable = true; writable = false; pipe = p }) in
    update t' j (record (t' j) { kind = fd_pipe; readable = false; writable = true; pipe = p })

-- `pipealloc`, with what `kalloc` returns: the two files, or -1 as `none`. The page's contents are
-- `pipe_init` of Pipe. The outer `none` is a panic.
unfoldable pub pipealloc : ℕ → Ftable → Option (Option (ℕ × ℕ) × Ftable)
pipealloc p t = elim (filealloc t) [
  | none ↦ some (none, t)
  | some (i, t₁) ↦ elim (filealloc t₁) [
    | none ↦ (do (r, t₂) ← fileclose i t₁; some (none, t₂))
    | some (j, t₂) ↦
        let bad : Option (Option (ℕ × ℕ) × Ftable) = (do
          (r, t₃) ← fileclose i t₂
          (r', t₄) ← fileclose j t₃
          some (none, t₄)) in
        if p == 0 then bad else some (some (i, j), pipe_ends p i j t₂)
  ]
]
