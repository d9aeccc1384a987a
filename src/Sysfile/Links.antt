-- ===== src/Sysfile/Links.antt =====
-- kernel/sysfile.c: `link` and `unlink` on the file system. `begin_op` and `end_op` around each call
-- are the transaction that Fs stands in. A path is what `argstr` gives, `none` for its error; `cwd` is
-- the slot of the working directory. A link count is the 16 bits of a `short`.
use os_study.Prelude.{
  ℕ, zero, suc, ◌+◌, ◌-◌, ◌*◌, ◌%◌, ◌^◌, Bool, true, false, not, ◌||◌, List, [], ◌∷◌, Option, none,
  some, Outcome, ok, panic, blocked, ◌>>=◌, ltb, leb, ◌==◌, if◌then◌else◌, ℤ, pos, negsuc,
}
use os_study.Fs.{Fs, set_info, iupdate}
use os_study.Fs.Inodes.{ilock, iunlock, iput, iunlockput}
use os_study.Fs.Content.{writei}
use os_study.Fs.Names.{
  t_dir, dirent_size, namecmp, read_dirent, dirlookup, dirlink, from_entry, written_all, namex,
  char_at,
}

-- `ip->nlink` changed, and `iupdate(ip)`
abbrev pub relink : Fs → ℕ → ℕ → Fs
relink f i nlink = iupdate (set_info f i (record ((f.inode i).info) { nlink = nlink })) i

abbrev pub nlink_of : Fs → ℕ → ℕ
nlink_of f i = (f.inode i).info.nlink

abbrev pub more : ℕ → ℕ
more nlink = (nlink + 1) % 2 ^ 16

abbrev pub less : ℕ → ℕ
less nlink = (nlink + 2 ^ 16 - 1) % 2 ^ 16

abbrev pub is_dir : Fs → ℕ → Bool
is_dir f i = (f.inode i).info.kind == t_dir

-- -1, after one more step
abbrev pub fails : Outcome Fs → Outcome (ℤ × Fs)
fails m = m >>= λ f. ok (negsuc 0, f)

-- The end of `sys_link` at `bad`
unfoldable pub take_back : Fs → ℕ → Outcome (ℤ × Fs)
unfolding iupdate ilock iunlockput
take_back f ip = fails (ilock f ip >>= λ f1. iunlockput (relink f1 ip (less (nlink_of f1 ip))) ip)

-- `sys_link` from the parent of the new path on
unfoldable pub link_into : Fs → ℕ → Option (ℕ × List ℕ) → Outcome (ℤ × Fs)
unfolding take_back dirlink
link_into f ip none = take_back f ip
link_into f ip (some (dp, name)) = do
  f1 ← ilock f dp
  let one_disk = (f1.inode dp).dev == (f1.inode ip).dev
  (done, f2) ←
      (if one_disk then dirlink f1 dp (λ k. char_at name k) (f1.inode ip).inum else ok (false, f1))
  f3 ← iunlockput f2 dp
  let linked = iput f3 ip >>= λ f4. ok (pos 0, f4)
  if done then linked else take_back f3 ip

unfoldable pub link_inode : Fs → ℕ → ℕ → List ℕ → Outcome (ℤ × Fs)
unfolding link_into namex
link_inode f cwd ip new = do
  f1 ← ilock f ip
  let counted = (do
    f2 ← iunlock (relink f1 ip (more (nlink_of f1 ip))) ip
    (parent, f3) ← namex f2 cwd true new
    link_into f3 ip parent)
  if is_dir f1 ip then fails (iunlockput f1 ip) else counted

unfoldable pub sys_link : Fs → ℕ → Option (List ℕ) → Option (List ℕ) → Outcome (ℤ × Fs)
unfolding link_inode
sys_link f cwd none new = ok (negsuc 0, f)
sys_link f cwd (some old) none = ok (negsuc 0, f)
sys_link f cwd (some old) (some new) = do
  (found, f1) ← namex f cwd false old
  elim found [ none ↦ ok (negsuc 0, f1) | some (ip, name) ↦ link_inode f1 cwd ip new ]

-- The loop of `isdirempty` from `off` on
unfoldable pub empty_from : ℕ → Fs → ℕ → ℕ → Outcome (Bool × Fs)
unfolding read_dirent
empty_from zero f dp off = if ltb off (f.inode dp).info.size then blocked else ok (true, f)
empty_from (suc fuel) f dp off =
    let read = (do
      (de, f1) ← read_dirent f dp off
      let rest = empty_from fuel f1 dp (off + dirent_size)
      elim de [
        | none ↦ panic "isdirempty: readi"
        | some (inum, name) ↦ if not (inum == 0) then ok (false, f1) else rest
      ]) in
    if ltb off (f.inode dp).info.size then read else ok (true, f)

unfoldable pub isdirempty : Fs → ℕ → Outcome (Bool × Fs)
unfolding empty_from
isdirempty f dp = empty_from (f.inode dp).info.size f dp (2 * dirent_size)

-- "." and ".."
abbrev pub dot : ℕ → ℕ
dot k = char_at (46 ∷ []) k

abbrev pub dot_dot : ℕ → ℕ
dot_dot k = char_at (46 ∷ 46 ∷ []) k

-- `sys_unlink` once `ip`, the entry at `off` of `dp`, may go
unfoldable pub erase : Fs → ℕ → ℕ → ℕ → Outcome (ℤ × Fs)
unfolding writei iupdate iunlockput
erase f dp ip off = do
  (done, f1) ← writei (from_entry (λ q. 0)) f dp 0 off dirent_size >>= written_all
  let erased = (do
    let f2 = if is_dir f1 ip then relink f1 dp (less (nlink_of f1 dp)) else f1
    f3 ← iunlockput f2 dp
    f4 ← iunlockput (relink f3 ip (less (nlink_of f3 ip))) ip
    ok (pos 0, f4))
  if done then erased else panic "unlink: writei"

-- `ip->nlink < 1` on a `short`
abbrev pub no_links : ℕ → Bool
no_links nlink = (nlink == 0) || leb (2 ^ 15) nlink

unfoldable pub unlink_entry : Fs → ℕ → Option (ℕ × ℕ) → Outcome (ℤ × Fs)
unfolding erase isdirempty
unlink_entry f dp none = fails (iunlockput f dp)
unlink_entry f dp (some (off, ip)) = do
  f1 ← ilock f ip
  let checked = (do
    (empty, f2) ← (if is_dir f1 ip then isdirempty f1 ip else ok (true, f1))
    let full = fails (iunlockput f2 ip >>= λ f3. iunlockput f3 dp)
    if empty then erase f2 dp ip off else full)
  if no_links (nlink_of f1 ip) then panic "unlink: nlink < 1" else checked

unfoldable pub sys_unlink : Fs → ℕ → Option (List ℕ) → Outcome (ℤ × Fs)
unfolding unlink_entry namecmp dirlookup
sys_unlink f cwd none = ok (negsuc 0, f)
sys_unlink f cwd (some path) = do
  (parent, f1) ← namex f cwd true path
  elim parent [
    | none ↦ ok (negsuc 0, f1)
    | some (dp, name) ↦ (do
      f2 ← ilock f1 dp
      let entry = dirlookup f2 dp (λ k. char_at name k) >>= λ (o, f3). unlink_entry f3 dp o
      if namecmp (λ k. char_at name k) dot || namecmp (λ k. char_at name k) dot_dot
          then fails (iunlockput f2 dp)
          else entry)
  ]
