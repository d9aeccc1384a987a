-- ===== src/Fs/Content.antt =====
-- kernel/fs.c: reading and writing the content of an inode. `either_copyout` and `either_copyin`
-- (kernel/proc.c) are arguments: of the destination, its address and the `m` bytes that `data` has
-- from `off` on they make the new destination, or fail; the other one goes the other way.
use os_study.Prelude.{
  ℕ, zero, suc, ◌+◌, ◌-◌, ◌*◌, ◌/◌, ◌%◌, ◌^◌, min, Bool, ◌||◌, Option, none, some, Outcome, ok,
  blocked, ◌>>=◌, ltb, ◌==◌, if◌then◌else◌, update, ℤ, pos, negsuc,
}
use os_study.Fs.{Inode, Fs, block_size, log_write, set_info, iupdate, bmap}

-- `stati`
pub record Stat : Type 0 where
  pub dev : ℕ
  pub ino : ℕ
  pub kind : ℕ
  pub nlink : ℕ
  pub size : ℕ

abbrev pub stati : Inode → Stat
stati ip = record {
  dev = ip.dev;
  ino = ip.inum;
  kind = ip.info.kind;
  nlink = ip.info.nlink;
  size = ip.info.size;
}

-- `off + n < off` on `uint`
abbrev pub wraps : ℕ → ℕ → Bool
wraps off n = ltb ((off + n) % 2 ^ 32) off

abbrev pub piece : ℕ → ℕ → ℕ
piece off left = min left (block_size - off % block_size)

-- `MAXFILE*BSIZE`
abbrev pub max_size : ℕ
max_size = (12 + 256) * 1024

module _ {T : Type 0} (copyout : T → ℕ → (ℕ → ℕ) → ℕ → ℕ → Option T) where
  -- The loop of `readi` with `left` bytes to go; it gives `tot`, or -1.
  unfoldable pub read_from : ℕ → Fs → ℕ → T → ℕ → ℕ → ℕ → ℕ → Outcome (ℤ × T × Fs)
  unfolding bmap
  read_from zero f i t dst off tot left = if left == 0 then ok (pos tot, t, f) else blocked
  read_from (suc fuel) f i t dst off tot left =
      let m = piece off left in
      let copied : Fs → ℕ → Outcome (ℤ × T × Fs) = λ f1 addr.
        elim (copyout t dst (f1.bytes addr) (off % block_size) m) [
          | none ↦ ok (negsuc 0, t, f1)
          | some t1 ↦ read_from fuel f1 i t1 (dst + m) (off + m) (tot + m) (left - m)
        ] in
      let going = (do
        (addr, f1) ← bmap f i (off / block_size)
        if addr == 0 then ok (pos tot, t, f1) else copied f1 addr) in
      if left == 0 then ok (pos tot, t, f) else going

  unfoldable pub readi : Fs → ℕ → T → ℕ → ℕ → ℕ → Outcome (ℤ × T × Fs)
  unfolding read_from
  readi f i t dst off n =
      let size = (f.inode i).info.size in
      let n1 = if ltb size (off + n) then size - off else n in
      if ltb size off || wraps off n then ok (pos 0, t, f) else read_from n1 f i t dst off 0 n1

module _ (copyin : (ℕ → ℕ) → ℕ → ℕ → ℕ → Option (ℕ → ℕ)) where
  -- The loop of `writei` with `left` bytes to go: the bytes written, and the offset reached
  unfoldable pub write_from : ℕ → Fs → ℕ → ℕ → ℕ → ℕ → ℕ → Outcome (ℕ × ℕ × Fs)
  unfolding bmap
  write_from zero f i src off tot left = if left == 0 then ok (tot, off, f) else blocked
  write_from (suc fuel) f i src off tot left =
      let m = piece off left in
      let copied : Fs → ℕ → Outcome (ℕ × ℕ × Fs) = λ f1 addr.
        elim (copyin (f1.bytes addr) (off % block_size) src m) [
          | none ↦ ok (tot, off, f1)
          | some b ↦
              write_from fuel (log_write (record f1 { bytes = update f1.bytes addr b }) addr) i
                (src + m) (off + m) (tot + m) (left - m)
        ] in
      let going = (do
        (addr, f1) ← bmap f i (off / block_size)
        if addr == 0 then ok (tot, off, f1) else copied f1 addr) in
      if left == 0 then ok (tot, off, f) else going

  abbrev pub finish_write : ℕ → ℕ × ℕ × Fs → ℤ × Fs
  finish_write i (tot, off, f) =
      let d = (f.inode i).info in
      (pos tot, iupdate (if ltb d.size off then set_info f i (record d { size = off }) else f) i)

  unfoldable pub writei : Fs → ℕ → ℕ → ℕ → ℕ → Outcome (ℤ × Fs)
  unfolding write_from iupdate
  writei f i src off n =
      if ltb (f.inode i).info.size off || wraps off n
      then ok (negsuc 0, f)
      else if ltb max_size (off + n)
      then ok (negsuc 0, f)
      else (do w ← write_from n f i src off 0 n; ok (finish_write i w))
