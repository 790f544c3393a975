-- ===== src/Calls/Create.antt =====
-- `create`, `sys_mkdir` and `sys_mknod` of xv6-public/sysfile.c.
use hyeonseung_os.Base.{
  ℕ, ◌%◌, Bool, true, false, ◌&&◌, Option, none, some, ◌>>=◌, List, ◌==◌, if◌then◌else◌,
}
use hyeonseung_os.Volume.Transfer.{t_dev}
use hyeonseung_os.Inodes.{Store, ilock, iunlockput, ialloc}
use hyeonseung_os.Directory.{Name, t_dir, number, dirlookup, dirlink}
use hyeonseung_os.Paths.{as_name, nameiparent}
use hyeonseung_os.Calls.{inode_at, change_inode, more_links, put_back, dot, dotdot}

-- `T_FILE`
abbrev pub t_file : ℕ
t_file = 2

-- The name is there: `create` takes a file that is there for a file, and nothing else.
unfoldable pub create_there : ℕ → ℕ → ℕ → Store → Option (Option ℕ × Store)
create_there dp ip kind s = do
  s₁ ← iunlockput dp s
  s₂ ← ilock ip s₁
  if kind == t_file && (inode_at ip s₂).kind == t_file
      then some (some ip, s₂)
      else put_back none ip s₂

-- The entries `.` and `..` of a new directory; `none` is the panic.
unfoldable pub add_dots : ℕ → ℕ → Store → Option Store
add_dots dp ip s = do
  (ok, s₁) ← dirlink ip dot (number ip s) (change_inode dp more_links s)
  (ok', s₂) ← dirlink ip dotdot (number dp s₁) s₁
  if ok && ok' then some s₂ else none

-- The name is not there.
unfoldable pub create_new : ℕ → Name → ℕ → ℕ → ℕ → Store → Option (Option ℕ × Store)
unfolding add_dots
create_new dp name kind major minor s = do
  (ip, s₁) ← ialloc (s.entries dp).dev kind s
  s₂ ← ilock ip s₁
  let s₃ = change_inode ip (λ p. record p { major = major; minor = minor; nlink = 1 }) s₂
  s₄ ← (if kind == t_dir then add_dots dp ip s₃ else some s₃)
  (ok, s₅) ← dirlink dp name (number ip s₄) s₄
  if ok then put_back (some ip) dp s₅ else none

unfoldable pub create_in : ℕ → Name → ℕ → ℕ → ℕ → Store → Option (Option ℕ × Store)
unfolding create_there create_new
create_in dp name kind major minor s = do
  s₁ ← ilock dp s
  (r, s₂) ← dirlookup dp name s₁
  elim r [
    | some (ip, off) ↦ create_there dp ip kind s₂
    | none ↦ create_new dp name kind major minor s₂
  ]

-- `create`: the entry of the inode, locked, or 0 as the inner `none`.
unfoldable pub create : List ℕ → ℕ → ℕ → ℕ → ℕ → Store → Option (Option ℕ × Store)
unfolding create_in
create path kind major minor cwd s = do
  (p, s₁) ← nameiparent path cwd s
  elim p [
    | none ↦ some (none, s₁)
    | some (dp, name) ↦ create_in dp (as_name name) kind major minor s₁
  ]

-- What `sys_mkdir` and `sys_mknod` do with what `create` returns.
abbrev pub put_created : Option ℕ → Store → Option (Bool × Store)
put_created none s = some (false, s)
put_created (some ip) s = put_back true ip s

unfoldable pub sys_mkdir : Option (List ℕ) → ℕ → Store → Option (Bool × Store)
unfolding create
sys_mkdir none cwd s = some (false, s)
sys_mkdir (some path) cwd s = do (r, s') ← create path t_dir 0 0 cwd s; put_created r s'

-- `sys_mknod`, with the two numbers that `argint` has fetched.
unfoldable pub sys_mknod : Option (List ℕ) → ℕ → ℕ → ℕ → Store → Option (Bool × Store)
unfolding create
sys_mknod none major minor cwd s = some (false, s)
sys_mknod (some path) major minor cwd s = do
  (r, s') ← create path t_dev (major % 65_536) (minor % 65_536) cwd s
  put_created r s'
