-- ===== src/Sysfile/Creation.antt =====
-- kernel/sysfile.c: `open`, `mkdir`, `mknod` and `chdir`, with `create`. Conventions as in Links; a
-- file's `ip` is the inode's slot. The messages that `open` and `mknod` print are left out.
use os_study.Prelude.{
  ℕ, ◌/◌, ◌%◌, ◌^◌, Bool, true, false, not, ◌&&◌, ◌||◌, List, Option, none, some, Outcome, ok,
  ◌>>=◌, leb, ◌==◌, if◌then◌else◌, ℤ, pos, negsuc,
}
use os_study.File.{File, fd_device, fd_inode, ndev}
use os_study.Fs.{Fs, Dinode, set_info, iupdate, itrunc}
use os_study.Fs.Inodes.{ialloc, ilock, iunlock, iput, iunlockput}
use os_study.Fs.Names.{t_dir, dirlookup, dirlink, namex, char_at}
use os_study.Sysfile.{State, open_slot, set_file}
use os_study.Sysfile.Links.{relink, nlink_of, more, is_dir, dot, dot_dot}

-- `T_FILE` and `T_DEVICE`
abbrev pub t_file : ℕ
t_file = 2

abbrev pub t_device : ℕ
t_device = 3

-- The end of `create` at `fail`
unfoldable pub drop_new : Fs → ℕ → ℕ → Outcome (Option ℕ × Fs)
unfolding iunlockput iupdate
drop_new f dp ip = iunlockput (relink f ip 0) ip >>= λ f1. iunlockput f1 dp >>= λ f2. ok (none, f2)

-- "." and ".." of a new directory
unfoldable pub link_dots : Fs → ℕ → ℕ → Outcome (Bool × Fs)
unfolding dirlink
link_dots f dp ip = do
  (done, f1) ← dirlink f ip dot (f.inode ip).inum
  if done then dirlink f1 ip dot_dot (f1.inode dp).inum else ok (false, f1)

-- `create` with the new inode `ip`, which is locked
unfoldable pub fill_new : Fs → ℕ → ℕ → List ℕ → ℕ → ℕ → ℕ → Outcome (Option ℕ × Fs)
unfolding drop_new link_dots
fill_new f dp ip name kind major minor = do
  let info = record ((f.inode ip).info) { major = major; minor = minor; nlink = 1 }
  let f1 = iupdate (set_info f ip info) ip
  (dots, f2) ← (if kind == t_dir then link_dots f1 dp ip else ok (true, f1))
  (done, f3) ←
      (if dots then dirlink f2 dp (λ k. char_at name k) (f2.inode ip).inum else ok (false, f2))
  let f4 = if kind == t_dir then relink f3 dp (more (nlink_of f3 dp)) else f3
  let linked = iunlockput f4 dp >>= λ f5. ok (some ip, f5)
  if done then linked else drop_new f3 dp ip

-- `create` where the name is taken, by `ip`
unfoldable pub reuse : Fs → ℕ → ℕ → ℕ → Outcome (Option ℕ × Fs)
unfolding iunlockput ilock
reuse f dp ip kind = do
  f1 ← iunlockput f dp
  f2 ← ilock f1 ip
  let k = (f2.inode ip).info.kind
  let other = iunlockput f2 ip >>= λ f3. ok (none, f3)
  if (kind == t_file) && ((k == t_file) || (k == t_device)) then ok (some ip, f2) else other

unfoldable pub add_new : Fs → ℕ → List ℕ → ℕ → ℕ → ℕ → Outcome (Option ℕ × Fs)
unfolding fill_new ialloc
add_new f dp name kind major minor = do
  (new, f1) ← ialloc f (f.inode dp).dev kind
  elim new [
    | none ↦ iunlockput f1 dp >>= λ f2. ok (none, f2)
    | some ip ↦ ilock f1 ip >>= λ f2. fill_new f2 dp ip name kind major minor
  ]

-- The inode, locked; `none` for 0.
unfoldable pub create : Fs → ℕ → List ℕ → ℕ → ℕ → ℕ → Outcome (Option ℕ × Fs)
unfolding add_new reuse namex dirlookup
create f cwd path kind major minor = do
  (parent, f1) ← namex f cwd true path
  elim parent [
    | none ↦ ok (none, f1)
    | some (dp, name) ↦ (do
      f2 ← ilock f1 dp
      (entry, f3) ← dirlookup f2 dp (λ k. char_at name k)
      elim entry [
        | none ↦ add_new f3 dp name kind major minor
        | some (off, ip) ↦ reuse f3 dp ip kind
      ])
  ]

-- `O_RDONLY`, and the bits `O_WRONLY`, `O_RDWR`, `O_CREATE` and `O_TRUNC` of the mode
abbrev pub o_rdonly : ℕ
o_rdonly = 0

abbrev pub o_wronly : ℕ → Bool
o_wronly mode = mode % 2 == 1

abbrev pub o_rdwr : ℕ → Bool
o_rdwr mode = mode / 2 % 2 == 1

abbrev pub o_create : ℕ → Bool
o_create mode = mode / 512 % 2 == 1

abbrev pub o_trunc : ℕ → Bool
o_trunc mode = mode / 1024 % 2 == 1

-- `iunlockput(ip)` and no inode
unfoldable pub refuse : Fs → ℕ → Outcome (Option ℕ × Fs)
unfolding iunlockput
refuse f ip = iunlockput f ip >>= λ f1. ok (none, f1)

-- The inode that `sys_open` opens, locked. A negative `major` has its top bit set.
unfoldable pub open_inode : Fs → ℕ → List ℕ → ℕ → Outcome (Option ℕ × Fs)
unfolding create namex refuse
open_inode f cwd path mode = do
  let existing = (do
    (found, f1) ← namex f cwd false path
    elim found [
      | none ↦ ok (none, f1)
      | some (ip, name) ↦ (do
        f2 ← ilock f1 ip
        if is_dir f2 ip && not (mode == o_rdonly) then refuse f2 ip else ok (some ip, f2))
    ])
  (o, f3) ← (if o_create mode then create f cwd path t_file 0 0 else existing)
  elim o [
    | none ↦ ok (none, f3)
    | some ip ↦
        let d = (f3.inode ip).info in
        if (d.kind == t_device) && leb ndev d.major then refuse f3 ip else ok (some ip, f3)
  ]

-- The fields that `sys_open` sets.
abbrev pub opened : Dinode → ℕ → ℕ → File → File
opened d ip mode f =
    let g =
      if d.kind == t_device
      then record f { type = fd_device; major = pos d.major }
      else record f { type = fd_inode; off = 0 } in
    record g { ip = ip; readable = not (o_wronly mode); writable = o_wronly mode || o_rdwr mode }

-- `sys_open` once it has the file in slot `i` and the descriptor `fd`, or neither
unfoldable pub open_with : ℕ → ℕ → Fs → Option (ℕ × ℕ) × State → Outcome (ℤ × State × Fs)
unfolding set_file
open_with mode ip f (none, s) = iunlockput f ip >>= λ f1. ok (negsuc 0, s, f1)
open_with mode ip f (some (i, fd), s) = do
  let d = (f.inode ip).info
  f1 ← (if o_trunc mode && (d.kind == t_file) then itrunc f ip else ok f)
  f2 ← iunlock f1 ip
  ok (pos fd, record s { files = set_file i (opened d ip mode) s.files }, f2)

-- `sys_open` once it has looked for the inode, which is locked
unfoldable pub open_found : ℕ → State → Option ℕ × Fs → Outcome (ℤ × State × Fs)
unfolding open_slot open_with
open_found mode s (none, f) = ok (negsuc 0, s, f)
open_found mode s (some ip, f) = open_slot s >>= open_with mode ip f

unfoldable pub sys_open : Fs → ℕ → Option (List ℕ) → ℕ → State → Outcome (ℤ × State × Fs)
unfolding open_inode open_found
sys_open f cwd none mode s = ok (negsuc 0, s, f)
sys_open f cwd (some path) mode s = open_inode f cwd path mode >>= open_found mode s

-- `create` for `mkdir` and `mknod`
unfoldable pub make : Fs → ℕ → Option (List ℕ) → ℕ → ℕ → ℕ → Outcome (ℤ × Fs)
unfolding create
make f cwd none kind major minor = ok (negsuc 0, f)
make f cwd (some path) kind major minor = do
  (o, f1) ← create f cwd path kind major minor
  elim o [ none ↦ ok (negsuc 0, f1) | some ip ↦ iunlockput f1 ip >>= λ f2. ok (pos 0, f2) ]

unfoldable pub sys_mkdir : Fs → ℕ → Option (List ℕ) → Outcome (ℤ × Fs)
unfolding make
sys_mkdir f cwd path = make f cwd path t_dir 0 0

-- `major` and `minor` are passed on as `short`.
unfoldable pub sys_mknod : Fs → ℕ → Option (List ℕ) → ℕ → ℕ → Outcome (ℤ × Fs)
unfolding make
sys_mknod f cwd path major minor = make f cwd path t_device (major % 2 ^ 16) (minor % 2 ^ 16)

-- The result, the working directory and the file system
unfoldable pub sys_chdir : Fs → ℕ → Option (List ℕ) → Outcome (ℤ × ℕ × Fs)
unfolding namex ilock iunlockput
sys_chdir f cwd none = ok (negsuc 0, cwd, f)
sys_chdir f cwd (some path) = do
  (found, f1) ← namex f cwd false path
  elim found [
    | none ↦ ok (negsuc 0, cwd, f1)
    | some (ip, name) ↦ (do
      f2 ← ilock f1 ip
      let stays = iunlockput f2 ip >>= λ f3. ok (negsuc 0, cwd, f3)
      let moves = iunlock f2 ip >>= λ f3. iput f3 cwd >>= λ f4. ok (pos 0, ip, f4)
      if not (is_dir f2 ip) then stays else moves)
  ]
