-- ===== src/Calls.antt =====
-- The calls on paths of xv6-public/sysfile.c: here `sys_link` and `sys_unlink`, in Calls/Create `create`,
-- `sys_mkdir` and `sys_mknod`, in Calls/Open `sys_open` and `sys_chdir`. A path is what `argstr` has
-- fetched: its bytes, or nothing for an address that is not the process's. Each call runs between
-- `begin_op` and `end_op` of Log, which touch nothing here. `false` is -1, and `none` a panic.
pub mod Create
pub mod Open
pub mod Held
pub mod HeldCreate
pub mod HeldOpen
pub mod Balance
mod Tests
use hyeonseung_os.Base.{
  ℕ, zero, suc, ◌+◌, ◌/◌, ◌%◌, Bool, true, false, not, ◌&&◌, ◌||◌, Option, none, some, ◌>>=◌, List,
  ◌==◌, leb, if◌then◌else◌,
}
use hyeonseung_os.Volume.{Volume, Inode, set_inode}
use hyeonseung_os.Volume.Transfer.{Written, wrote, refused, to_device}
use hyeonseung_os.Inodes.{Store, ilock, iunlock, iput, iunlockput, iupdate, write_inode}
use hyeonseung_os.Directory.{Name, t_dir, number, namecmp, dirlookup, dirlink, isdirempty}
use hyeonseung_os.Paths.{as_name, namei, nameiparent}

abbrev pub inode_at : ℕ → Store → Inode
inode_at i s = s.volume.inodes (number i s)

abbrev pub is_dir : ℕ → Store → Bool
is_dir i s = (inode_at i s).kind == t_dir

-- A change of the inode's fields, with its `iupdate`.
unfoldable pub change_inode : ℕ → (Inode → Inode) → Store → Store
unfolding iupdate
change_inode i f s =
    iupdate (number i s) (record s { volume = set_inode (number i s) (f (inode_at i s)) s.volume })

-- `ip->nlink++` and `ip->nlink--` of a `short`, given as its word.
abbrev pub more_links : Inode → Inode
more_links p = record p { nlink = (p.nlink + 1) % 65_536 }

abbrev pub fewer_links : Inode → Inode
fewer_links p = record p { nlink = (p.nlink + 65_535) % 65_536 }

-- `iunlockput`, and what the call returns.
abbrev pub put_back {ℓ} : {A : Type ℓ} → A → ℕ → Store → Option (A × Store)
put_back r i s = do s' ← iunlockput i s; some (r, s')

-- The entry for the new name in the parent, if there is a parent on the same device.
unfoldable pub link_entry : ℕ → Option (ℕ × List ℕ) → Store → Option (Bool × Store)
link_entry ip none s = some (false, s)
link_entry ip (some (dp, name)) s = do
  s₁ ← ilock dp s
  let made : Option (Bool × Store) = dirlink dp (as_name name) (number ip s₁) s₁
  (ok, s₂) ← (if (s₁.entries dp).dev == (s₁.entries ip).dev then made else some (false, s₁))
  put_back ok dp s₂

-- The end of `sys_link`: at `bad` the link that was counted is taken back.
unfoldable pub link_end : ℕ → Bool → Store → Option (Bool × Store)
link_end ip true s = do s' ← iput ip s; some (true, s')
link_end ip false s = do s₁ ← ilock ip s; put_back false ip (change_inode ip fewer_links s₁)

unfoldable pub link_file : ℕ → List ℕ → ℕ → Store → Option (Bool × Store)
unfolding link_entry link_end
link_file ip new cwd s = do
  s₁ ← ilock ip s
  let file : Option (Bool × Store) = (do
    s₂ ← iunlock ip (change_inode ip more_links s₁)
    (p, s₃) ← nameiparent new cwd s₂
    (ok, s₄) ← link_entry ip p s₃
    link_end ip ok s₄)
  if is_dir ip s₁ then put_back false ip s₁ else file

-- `sys_link` of the paths `old` and `new`.
unfoldable pub sys_link : Option (List ℕ) → Option (List ℕ) → ℕ → Store → Option (Bool × Store)
unfolding link_file
sys_link none new cwd s = some (false, s)
sys_link (some old) none cwd s = some (false, s)
sys_link (some old) (some new) cwd s = do
  (r, s₁) ← namei old cwd s
  elim r [ none ↦ some (false, s₁) | some ip ↦ link_file ip new cwd s₁ ]

-- `.` and `..`
abbrev pub dot : Name
dot k = if k == 0 then 46 else 0

abbrev pub dotdot : Name
dotdot k = if k == 0 then 46 else if k == 1 then 46 else 0

-- `memset` and `writei` of the entry at `off`; less than 16 bytes are the panic.
unfoldable pub clear_dirent : ℕ → ℕ → Store → Option Store
clear_dirent dp off s = do
  (w, s') ← write_inode (number dp s) (λ k. 0) off 16 s
  elim w [ wrote k ↦ if k == 16 then some s' else none | refused ↦ none | to_device ↦ none ]

-- The end of `sys_unlink`, for the entry at `off` of `dp`, which names `ip`.
unfoldable pub unlink_entry : ℕ → ℕ → ℕ → Store → Option (Bool × Store)
unfolding clear_dirent
unlink_entry dp ip off s = do
  s₁ ← clear_dirent dp off s
  s₂ ← iunlockput dp (if is_dir ip s₁ then change_inode dp fewer_links s₁ else s₁)
  put_back true ip (change_inode ip fewer_links s₂)

-- `ip->type == T_DIR && !isdirempty(ip)`, turned round.
unfoldable pub may_unlink : ℕ → Store → Option (Bool × Store)
unfolding isdirempty
may_unlink ip s =
    let scan : Option (Bool × Store) = (do
      (empty, v) ← isdirempty (number ip s) s.volume
      some (empty, record s { volume = v })) in
    if is_dir ip s then scan else some (true, s)

unfoldable pub unlink_inode : ℕ → ℕ → ℕ → Store → Option (Bool × Store)
unfolding may_unlink unlink_entry
unlink_inode dp ip off s = do
  s₁ ← ilock ip s
  (may, s₂) ← may_unlink ip s₁
  let full : Option (Bool × Store) = (do s₃ ← iunlockput ip s₂; put_back false dp s₃)
  let linked : Bool = not ((inode_at ip s₁).nlink == 0 || leb 32_768 (inode_at ip s₁).nlink)
  if not linked then none else if may then unlink_entry dp ip off s₂ else full

unfoldable pub unlink_name : ℕ → Name → Store → Option (Bool × Store)
unfolding unlink_inode
unlink_name dp name s = do
  s₁ ← ilock dp s
  let look : Option (Bool × Store) = (do
    (r, s₂) ← dirlookup dp name s₁
    elim r [ none ↦ put_back false dp s₂ | some (ip, off) ↦ unlink_inode dp ip off s₂ ])
  if namecmp name dot == 0 || namecmp name dotdot == 0 then put_back false dp s₁ else look

-- `sys_unlink`
unfoldable pub sys_unlink : Option (List ℕ) → ℕ → Store → Option (Bool × Store)
unfolding unlink_name
sys_unlink none cwd s = some (false, s)
sys_unlink (some path) cwd s = do
  (p, s₁) ← nameiparent path cwd s
  elim p [ none ↦ some (false, s₁) | some (dp, name) ↦ unlink_name dp (as_name name) s₁ ]
