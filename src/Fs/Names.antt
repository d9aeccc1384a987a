-- ===== src/Fs/Names.antt =====
-- kernel/fs.c: directories and paths. A name is its 14 bytes by index, a path the list of its
-- characters before the NUL. A directory entry is two bytes of inode number and the name.
use os_study.Prelude.{
  ℕ, zero, suc, ◌+◌, ◌-◌, ◌*◌, ◌/◌, ◌%◌, Bool, true, false, not, ◌&&◌, List, [], ◌∷◌, Option, none,
  some, Outcome, ok, panic, blocked, ◌>>=◌, ltb, ◌==◌, if◌then◌else◌, ℤ, pos, negsuc, length,
}
use os_study.StringOps.Move.{within}
use os_study.Fs.{Fs}
use os_study.Fs.Inodes.{iget, idup, ilock, iunlock, iunlockput, iput}
use os_study.Fs.Content.{readi, writei}

-- `DIRSIZ`, `sizeof(struct dirent)` and `T_DIR`
abbrev pub dirsiz : ℕ
dirsiz = 14

abbrev pub dirent_size : ℕ
dirent_size = 16

abbrev pub t_dir : ℕ
t_dir = 1

-- `memmove` between kernel memory and a block
abbrev pub to_kernel : (ℕ → ℕ) → ℕ → (ℕ → ℕ) → ℕ → ℕ → Option (ℕ → ℕ)
to_kernel t dst b off m = some (λ q. if within dst m q then b (off + (q - dst)) else t q)

-- `strncmp(s, t, DIRSIZ) == 0`, from index `i` on
unfoldable pub namecmp_from : ℕ → (ℕ → ℕ) → (ℕ → ℕ) → ℕ → Bool
namecmp_from zero s t i = true
namecmp_from (suc k) s t i =
    let rest = namecmp_from k s t (i + 1) in
    if not (s i == 0) && (s i == t i) then rest else s i == t i

unfoldable pub namecmp : (ℕ → ℕ) → (ℕ → ℕ) → Bool
unfolding namecmp_from
namecmp s t = namecmp_from dirsiz s t 0

-- Directory entry `off` of inode `i`: its inode number and its name
unfoldable pub read_dirent : Fs → ℕ → ℕ → Outcome (Option (ℕ × (ℕ → ℕ)) × Fs)
unfolding readi
read_dirent f i off = do
  (n, de, f1) ← readi to_kernel f i (λ q. 0) 0 off dirent_size
  let entry : ℕ × (ℕ → ℕ) = (de 0 + de 1 * 256, λ k. de (k + 2))
  ok (elim n [ pos k ↦ (if k == dirent_size then some entry else none) | negsuc k ↦ none ], f1)

-- The loop of `dirlookup` from `off` on: the offset and the inode number of the entry
unfoldable pub lookup_from : ℕ → Fs → ℕ → (ℕ → ℕ) → ℕ → Outcome (Option (ℕ × ℕ) × Fs)
unfolding read_dirent namecmp
lookup_from zero f dp name off = if ltb off (f.inode dp).info.size then blocked else ok (none, f)
lookup_from (suc fuel) f dp name off =
    let read = (do
      (de, f1) ← read_dirent f dp off
      let rest = lookup_from fuel f1 dp name (off + dirent_size)
      elim de [
        | none ↦ panic "dirlookup read"
        | some (inum, entry_name) ↦
            if inum == 0
            then rest
            else if namecmp name entry_name
            then ok (some (off, inum), f1)
            else rest
      ]) in
    if ltb off (f.inode dp).info.size then read else ok (none, f)

abbrev pub get_entry : ℕ → Option (ℕ × ℕ) × Fs → Outcome (Option (ℕ × ℕ) × Fs)
get_entry dev (none, f) = ok (none, f)
get_entry dev (some (off, inum), f) = do (ip, f1) ← iget f dev inum; ok (some (off, ip), f1)

-- `dirlookup`: `*poff` and the inode
unfoldable pub dirlookup : Fs → ℕ → (ℕ → ℕ) → Outcome (Option (ℕ × ℕ) × Fs)
unfolding lookup_from iget
dirlookup f dp name =
    let d = (f.inode dp).info in
    if not (d.kind == t_dir)
    then panic "dirlookup not DIR"
    else lookup_from d.size f dp name 0 >>= get_entry (f.inode dp).dev

-- The offset of an empty entry, or of the end
unfoldable pub empty_from : ℕ → Fs → ℕ → ℕ → Outcome (ℕ × Fs)
unfolding read_dirent
empty_from zero f dp off = if ltb off (f.inode dp).info.size then blocked else ok (off, f)
empty_from (suc fuel) f dp off =
    let read = (do
      (de, f1) ← read_dirent f dp off
      let rest = empty_from fuel f1 dp (off + dirent_size)
      elim de [
        | none ↦ panic "dirlink read"
        | some (inum, entry_name) ↦ if inum == 0 then ok (off, f1) else rest
      ]) in
    if ltb off (f.inode dp).info.size then read else ok (off, f)

-- `strncpy(de.name, name, DIRSIZ)`: zeroes from the first NUL on
unfoldable pub padded : ℕ → (ℕ → ℕ) → ℕ → ℕ → ℕ
padded zero name i k = 0
padded (suc n) name i k =
    let rest = padded n name (i + 1) k in if name i == 0 then 0 else if k == i then name i else rest

-- The bytes of an entry, and their copy into a block
abbrev pub dirent_byte : ℕ → (ℕ → ℕ) → ℕ → ℕ
dirent_byte inum name q =
    if q == 0 then inum % 256 else if q == 1 then inum / 256 % 256 else padded dirsiz name 0 (q - 2)

abbrev pub from_entry : (ℕ → ℕ) → (ℕ → ℕ) → ℕ → ℕ → ℕ → Option (ℕ → ℕ)
from_entry de b off src m = some (λ q. if within off m q then de (src + (q - off)) else b q)

abbrev pub written_all : ℤ × Fs → Outcome (Bool × Fs)
written_all (pos n, f) = ok (n == dirent_size, f)
written_all (negsuc n, f) = ok (false, f)

-- `dirlink`: `true` for 0, `false` for -1
abbrev pub link_at : (ℕ → ℕ) → ℕ → ℕ → Option (ℕ × ℕ) × Fs → Outcome (Bool × Fs)
link_at name dp inum (some (off, ip), f) = do f1 ← iput f ip; ok (false, f1)
link_at name dp inum (none, f) = do
  (off, f1) ← empty_from (f.inode dp).info.size f dp 0
  writei (from_entry (dirent_byte inum name)) f1 dp 0 off dirent_size >>= written_all

unfoldable pub dirlink : Fs → ℕ → (ℕ → ℕ) → ℕ → Outcome (Bool × Fs)
unfolding dirlookup iput empty_from writei padded
dirlink f dp name inum = dirlookup f dp name >>= link_at name dp inum

-- `while(*path == '/') path++`
unfoldable pub skip_slashes : List ℕ → List ℕ
skip_slashes [] = []
skip_slashes (c ∷ cs) = let rest = skip_slashes cs in if c == 47 then rest else c ∷ cs

-- `while(*path != '/' && *path != 0) path++`: what it passes, and what is left
abbrev pub before : ℕ → List ℕ × List ℕ → List ℕ × List ℕ
before c (xs, ys) = (c ∷ xs, ys)

unfoldable pub split_elem : List ℕ → List ℕ × List ℕ
split_elem [] = ([], [])
split_elem (c ∷ cs) = let rest = split_elem cs in if c == 47 then ([], c ∷ cs) else before c rest

unfoldable pub take : ℕ → List ℕ → List ℕ
take zero xs = []
take (suc n) [] = []
take (suc n) (x ∷ xs) = x ∷ take n xs

-- `skipelem`: the first `DIRSIZ` characters of the name, and the rest of the path
abbrev pub elem_of : List ℕ → Option (List ℕ × List ℕ)
elem_of [] = none
elem_of (c ∷ cs) = let (s, rest) = split_elem (c ∷ cs) in some (take dirsiz s, skip_slashes rest)

unfoldable pub skipelem : List ℕ → Option (List ℕ × List ℕ)
unfolding skip_slashes split_elem take
skipelem path = elem_of (skip_slashes path)

-- The name in memory
unfoldable pub char_at : List ℕ → ℕ → ℕ
char_at [] i = 0
char_at (c ∷ cs) zero = c
char_at (c ∷ cs) (suc i) = char_at cs i

-- `namex` stops at `ip`, or goes on from the inode of the next element.
abbrev pub is_last : Bool → List ℕ → Bool
is_last nameiparent [] = nameiparent
is_last nameiparent (c ∷ cs) = false

-- `iunlockput(ip)` and 0
abbrev pub give_up : ℕ → Fs → Outcome (Option ℕ × Fs)
give_up ip f = do f1 ← iunlockput f ip; ok (none, f1)

abbrev pub next_inode : ℕ → Option (ℕ × ℕ) × Fs → Outcome (Option ℕ × Fs)
next_inode ip (none, f) = give_up ip f
next_inode ip (some (off, next), f) = do f1 ← iunlockput f ip; ok (some next, f1)

unfoldable pub namex_from : ℕ → Fs → ℕ → Bool → List ℕ → List ℕ → Outcome (Option (ℕ × List ℕ) × Fs)
unfolding skipelem ilock iunlock iput iunlockput dirlookup char_at
namex_from zero f ip nameiparent path name = blocked
namex_from (suc fuel) f ip nameiparent path name = elim (skipelem path) [
  | none ↦ if nameiparent then (do f1 ← iput f ip; ok (none, f1)) else ok (some (ip, name), f)
  | some (elem, rest) ↦ (do
    f1 ← ilock f ip
    let lost = (do (o, f2) ← give_up ip f1; ok (none, f2))
    let parent = (do f2 ← iunlock f1 ip; ok (some (ip, elem), f2))
    let deeper = (do
      (o, f2) ← dirlookup f1 ip (λ k. char_at elem k) >>= next_inode ip
      elim o [ none ↦ ok (none, f2) | some next ↦ namex_from fuel f2 next nameiparent rest elem ])
    if not ((f1.inode ip).info.kind == t_dir)
        then lost
        else if is_last nameiparent rest
        then parent
        else deeper)
]

-- `namex`: the inode and the last name; `ROOTDEV` and `ROOTINO` are 1.
abbrev pub starts_at_root : List ℕ → Bool
starts_at_root [] = false
starts_at_root (c ∷ cs) = c == 47

unfoldable pub namex : Fs → ℕ → Bool → List ℕ → Outcome (Option (ℕ × List ℕ) × Fs)
unfolding namex_from
namex f cwd nameiparent path = do
  (ip, f1) ← (if starts_at_root path then iget f 1 1 else ok (cwd, idup f cwd))
  namex_from (length path + 1) f1 ip nameiparent path []
