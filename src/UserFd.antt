-- ===== src/UserFd.antt =====
-- kernel/user_fd.c: the descriptors of the user program. User memory is a function from addresses
-- to bytes; the range checks of kernel/vmm.c are arguments, `readable` and `writable`. An `int fd` is its bit pattern, so a
-- negative one lies above all descriptors.
pub mod Bytes
pub mod Open
pub mod Read
pub mod Served
mod Tests
use cnos.Prelude.{
  ℕ, zero, suc, ◌+◌, ◌-◌, ◌*◌, ◌/◌, ◌%◌, ◌^◌, ◌≤◌, ◌<◌, ◌≡◌, refl, sym, ap, ◌∙◌, subst, fun_ext,
  ◌≢◌, ◌↔◌, ◌⊎◌, inl, inr, Bool, true, false, not, ◌&&◌, ◌||◌, Option, none, some, List, [], ◌∷◌,
  ◌++◌, arith, ltb, leb, ◌==◌, if◌then◌else◌, ltb→lt, lt→ltb, ==_iff, Bool-cases, Option-cases,
  length, get_or, set, length-set, get_or-set_self, get_or-set_ne, set-get_or, set-set, set_bit,
  clear_bit, test_bit, test_bit-set_bit, test_bit-clear_bit, set_bit-lt, clear_bit-lt,
  clear_bit-set_bit,
}
use cnos.Pmm.{u64}
use cnos.Path.{path_normalize, resolve_path, take, slash}
use cnos.Process.{update, first_from}
use cnos.Vfs.{
  err, ok, notmounted, noent, nosys, io, Vfs, Ext2, Result, VfsError, Stat, umount_root, is_mounted,
  vfs_stat, read_file_range,
}

pub data Errno : Type 0 where
  eperm enoent eio ebadf emfile einval efault enosys eagain : Errno

pub data Sys {ℓ} (A : Type ℓ) : Type ℓ where
  ret : A → Sys A
  fail : Errno → Sys A

pub record FdSlot : Type 0 where
  pub valid : Bool
  pub path : List ℕ
  pub offset : ℕ
  pub size : ℕ

-- `g_ufd`, the working directory of kernel/user.c, and user memory.
pub record User {ℓ} (V : Type ℓ) : Type ℓ where
  pub vfs : Vfs V
  pub fds : ℕ → FdSlot
  pub cwd : List ℕ
  pub mem : ℕ → ℕ

abbrev pub fd_min : ℕ
fd_min = 3

abbrev pub fd_num : ℕ
fd_num = 8

abbrev pub max_io_bytes : ℕ
max_io_bytes = 1024 * 1024

unfoldable pub reset_fds : (ℕ → FdSlot) → ℕ → FdSlot
reset_fds fds i = if ltb i fd_num then record (fds i) { valid = false } else fds i

unfoldable pub cons_path : ℕ → Sys (List ℕ) → Sys (List ℕ)
cons_path c (ret p) = ret (c ∷ p)
cons_path c (fail e) = fail e

-- The loop of `copy_user_path`, over `dst_sz - 1` characters at most.
unfoldable pub copy_user_path : ℕ → (ℕ → Bool) → (ℕ → ℕ) → ℕ → Sys (List ℕ)
copy_user_path zero readable mem ua = fail einval
copy_user_path (suc n) readable mem ua =
    let rest = copy_user_path n readable mem ((ua + 1) % u64) in
    if not (readable ua)
    then fail efault
    else (if mem ua == 0 then ret [] else cons_path (mem ua) rest)

-- The bytes at `ua` on.
unfoldable pub write_bytes : (ℕ → ℕ) → ℕ → List ℕ → ℕ → ℕ
write_bytes mem ua [] = mem
write_bytes mem ua (b ∷ bytes) = write_bytes (update mem ua b) ((ua + 1) % u64) bytes

abbrev pub bad_fd : ℕ → Bool
bad_fd fd = ltb fd fd_min || leb (fd_min + fd_num) fd

abbrev pub fresh_slot : List ℕ → Stat → FdSlot
fresh_slot path st = record {
  valid = true;
  path = take 127 path;
  offset = 0;
  size = if ltb 0xFFFFFFFF st.size then 0xFFFFFFFF else st.size;
}

abbrev pub chunk_of : ℕ → ℕ
chunk_of left = if ltb 2048 left then 2048 else left

-- A round of the loop of `user_fd_sys_read` after its read: the bytes are stored at `ua + total`,
-- and a short read ends the loop.
unfoldable pub store :
    (ℕ → (ℕ → ℕ) → Sys ℕ × (ℕ → ℕ)) → ℕ → ℕ → ℕ → (ℕ → ℕ) → Result (List ℕ) → Sys ℕ × (ℕ → ℕ)
store next ua chunk total mem (err e) = (fail eio, mem)
store next ua chunk total mem (ok bytes) =
    let got = length bytes in
    let mem' = write_bytes mem ((ua + total) % u64) bytes in
    if got == 0
    then (ret total, mem)
    else (if ltb got chunk then (ret (total + got), mem') else next (total + got) mem')

-- The loop, with the rounds left, the bytes stored so far and user memory. `read` is
-- `vfs_read_file_range` on the path of the slot.
unfoldable pub read_loop : ℕ → (ℕ → ℕ → Result (List ℕ)) → ℕ → ℕ → ℕ → ℕ → (ℕ → ℕ) → Sys ℕ × (ℕ → ℕ)
read_loop zero read ua off len total mem = (ret total, mem)
read_loop (suc fuel) read ua off len total mem =
    let next = read_loop fuel read ua off len in
    let chunk = chunk_of (len - total) in
    if ltb total len
    then store next ua chunk total mem (read ((off + total) % 2 ^ 32) chunk)
    else (ret total, mem)

module _ {ℓ} {V : Type ℓ} where
  pub user_fd_reset : User V → User V
  user_fd_reset s = record s { fds = reset_fds s.fds }

  pub umount_close_all : User V → User V
  umount_close_all s = record s { fds = reset_fds s.fds; cwd = slash ∷ [] }

  pub vfs_umount_root : User V → User V
  unfolding umount_root
  vfs_umount_root s = let s1 = umount_close_all s in record s1 { vfs = umount_root s1.vfs }

  unfoldable pub open_slot : User V → List ℕ → Stat → Option ℕ → Sys ℕ × User V
  open_slot s path st none = (fail emfile, s)
  open_slot s path st (some idx) =
      (ret (fd_min + idx), record s { fds = update s.fds idx (fresh_slot path st) })

  unfoldable pub open_stat : User V → List ℕ → Result Stat → Sys ℕ × User V
  open_stat s path (err notmounted) = (fail einval, s)
  open_stat s path (err noent) = (fail enoent, s)
  open_stat s path (err nosys) = (fail enoent, s)
  open_stat s path (err io) = (fail enoent, s)
  open_stat s path (ok st) = open_slot s path st (first_from fd_num 0 (λ i. not (s.fds i).valid))

  unfoldable pub open_kpath : Ext2 V → List ℕ → User V → Sys ℕ × User V
  open_kpath fs path s =
      if not (is_mounted s.vfs) then (fail einval, s) else open_stat s path (vfs_stat fs s.vfs path)

  -- `opener` is how the build opens a path: `open_kpath`, or a request to the file service over
  -- IPC.
  unfoldable pub open_resolved :
      (List ℕ → User V → Sys ℕ × User V) → User V → Option (List ℕ) → Sys ℕ × User V
  open_resolved opener s none = (fail einval, s)
  open_resolved opener s (some path) = opener path s

  unfoldable pub open_copied :
      (List ℕ → User V → Sys ℕ × User V) → User V → Sys (List ℕ) → Sys ℕ × User V
  open_copied opener s (fail e) = (fail e, s)
  open_copied opener s (ret path) = open_resolved opener s (resolve_path s.cwd path 256)

  unfoldable pub sys_open :
      (List ℕ → User V → Sys ℕ × User V) → (ℕ → Bool) → ℕ → User V → Sys ℕ × User V
  sys_open opener readable path_ptr s =
      if not (is_mounted s.vfs)
      then (fail einval, s)
      else open_copied opener s (copy_user_path 127 readable s.mem path_ptr)

  unfoldable pub sys_close : ℕ → User V → Sys ℕ × User V
  sys_close fd s =
      let idx = fd - fd_min in
      if bad_fd fd
      then (fail ebadf, s)
      else (if not (s.fds idx).valid
          then (fail ebadf, s)
          else (ret 0, record s { fds = update s.fds idx (record (s.fds idx) { valid = false }) }))

  unfoldable pub finish_read : User V → ℕ → Sys ℕ × (ℕ → ℕ) → Sys ℕ × User V
  finish_read s idx (fail e, mem) = (fail e, record s { mem = mem })
  finish_read s idx (ret total, mem) = (
    ret total,
    record s {
      fds =
          update s.fds idx
            (record (s.fds idx) { offset = ((s.fds idx).offset + total % 2 ^ 32) % 2 ^ 32 });
      mem = mem;
    },
  )

  -- Each round but the last stores a byte at least, so `len` rounds are enough.
  unfoldable pub sys_read : Ext2 V → (ℕ → ℕ → Bool) → ℕ → ℕ → ℕ → User V → Sys ℕ × User V
  sys_read fs writable fd ua len s =
      let idx = fd - fd_min in
      let f = s.fds idx in
      let remain = f.size - f.offset in
      let n = if ltb remain len then remain else len in
      if bad_fd fd
      then (fail ebadf, s)
      else (if not f.valid
          then (fail ebadf, s)
          else (if ltb max_io_bytes len
              then (fail einval, s)
              else (if len == 0
                  then (ret 0, s)
                  else (if not (writable ua len)
                      then (fail efault, s)
                      else (if leb f.size f.offset
                          then (ret 0, s)
                          else finish_read s idx (
                              read_loop n (read_file_range fs s.vfs f.path) ua f.offset n 0
                                s.mem))))))
