-- ===== src/Vfs.antt =====
-- kernel/fs/vfs.c and kernel/fs/vfs_devfs.c: the mounted root with the files of an ext2 volume and
-- the device files below /dev. The operations on the volume are an interface, `Ext2`; a listing
-- is only its result, without the text it prints.
use cnos.Prelude.{
  ℕ, zero, suc, Bool, true, false, not, ◌&&◌, ◌||◌, Option, none, some, List, [], ◌∷◌, ◌++◌, ◌==◌,
  if◌then◌else◌, length, get_or,
}
use cnos.Path.{eq_string, slash, path_normalize}

pub data VfsError : Type 0 where
  noent nosys notmounted io : VfsError

pub data Result {ℓ} (A : Type ℓ) : Type ℓ where
  ok : A → Result A
  err : VfsError → Result A

pub data FsType : Type 0 where
  none_fs ext2_fs dev_fs : FsType

pub record Stat : Type 0 where
  pub ino : ℕ
  pub size : ℕ

-- The functions of chaseros_ext2_vol.h on a volume `V`: `none` and `false` are a result other than
-- 0, and the volume after a write is what the write has left.
pub record Ext2 {ℓ} (V : Type ℓ) : Type ℓ where
  pub format : V → Bool × V
  pub ls_at : V → List ℕ → Bool
  pub stat_file : V → List ℕ → Option ℕ
  pub read_file_range : V → List ℕ → ℕ → ℕ → Option (List ℕ)
  pub write_file : V → List ℕ → List ℕ → Bool × V
  pub mkdir : V → List ℕ → Bool × V
  pub path_is_dir : V → List ℕ → Bool

-- `g_root`, and what `chaseros_vol_current` returns.
pub record Vfs {ℓ} (V : Type ℓ) : Type ℓ where
  pub mounted : Bool
  pub fstype : FsType
  pub vol : Option V

-- `/dev`, `/dev/null`, `/dev/zero`.
abbrev pub dev : List ℕ
dev = 47 ∷ 100 ∷ 101 ∷ 118 ∷ []

abbrev pub dev_null : List ℕ
dev_null = dev ++ (47 ∷ 110 ∷ 117 ∷ 108 ∷ 108 ∷ [])

abbrev pub dev_zero : List ℕ
dev_zero = dev ++ (47 ∷ 122 ∷ 101 ∷ 114 ∷ 111 ∷ [])

unfoldable pub is_under_dev : List ℕ → Bool
is_under_dev p =
    if not (get_or p 0 0 == 47)
      || (not (get_or p 1 0 == 100) || (not (get_or p 2 0 == 101) || not (get_or p 3 0 == 118)))
    then false
    else get_or p 4 0 == 0 || get_or p 4 0 == slash

unfoldable pub devfs_stat : List ℕ → Result Stat
devfs_stat p =
    if eq_string p dev
    then ok (record { ino = 1; size = 0 })
    else (if eq_string p dev_null
        then ok (record { ino = 2; size = 0 })
        else (if eq_string p dev_zero
            then ok (record { ino = 3; size = 0xFFFFFFFF })
            else err noent))

unfoldable pub devfs_ls : List ℕ → Result Bool
devfs_ls p = if eq_string p dev then ok true else err io

unfoldable pub zeros : ℕ → List ℕ
zeros zero = []
zeros (suc n) = 0 ∷ zeros n

unfoldable pub devfs_read_range : List ℕ → ℕ → ℕ → Result (List ℕ)
devfs_read_range p offset buf_sz =
    if eq_string p dev_null
    then ok []
    else (if eq_string p dev_zero then ok (zeros buf_sz) else err noent)

unfoldable pub devfs_write_file : List ℕ → List ℕ → Result Bool
devfs_write_file p bytes =
    if eq_string p dev_null then ok true else (if eq_string p dev_zero then err io else err noent)

unfoldable pub found : Option ℕ → Result Stat
found none = err noent
found (some size) = ok (record { ino = 0; size = size })

unfoldable pub data_read : Option (List ℕ) → Result (List ℕ)
data_read none = err io
data_read (some bytes) = ok bytes

module _ {ℓ} {V : Type ℓ} where
  unfoldable pub active_vol : Vfs V → Option V
  active_vol s = if s.mounted then s.vol else none

  pub vfs_init : Vfs V → Vfs V
  vfs_init s = record s { mounted = false; fstype = none_fs }

  unfoldable pub mounted_root : Vfs V → Option V → Result Bool × Vfs V
  mounted_root s none = (err noent, s)
  mounted_root s (some v) = (ok true, record s { mounted = true; fstype = ext2_fs })

  unfoldable pub mount_root : Vfs V → Result Bool × Vfs V
  mount_root s = mounted_root s s.vol

  -- `user_fd_umount_close_all` is the caller's part in UserFd.antt.
  unfoldable pub umount_root : Vfs V → Vfs V
  umount_root s = record s { mounted = false; fstype = none_fs }

  unfoldable pub has_vol : Option V → Bool
  has_vol none = false
  has_vol (some v) = true

  unfoldable pub is_mounted : Vfs V → Bool
  is_mounted s = s.mounted && has_vol s.vol

  unfoldable pub stat_at : Ext2 V → V → Option (List ℕ) → Result Stat
  stat_at fs v none = err io
  stat_at fs v (some norm) =
      if is_under_dev norm then devfs_stat norm else found (fs.stat_file v norm)

  unfoldable pub vfs_stat : Ext2 V → Vfs V → List ℕ → Result Stat
  vfs_stat fs s path = elim (active_vol s) [
    | none ↦ err notmounted
    | some v ↦ stat_at fs v (path_normalize path 256)
  ]

  unfoldable pub read_at : Ext2 V → V → Option (List ℕ) → ℕ → ℕ → Result (List ℕ)
  read_at fs v none offset buf_sz = err io
  read_at fs v (some norm) offset buf_sz =
      if is_under_dev norm
      then devfs_read_range norm offset buf_sz
      else data_read (fs.read_file_range v norm offset buf_sz)

  unfoldable pub read_file_range : Ext2 V → Vfs V → List ℕ → ℕ → ℕ → Result (List ℕ)
  read_file_range fs s path offset buf_sz = elim (active_vol s) [
    | none ↦ err notmounted
    | some v ↦ read_at fs v (path_normalize path 256) offset buf_sz
  ]

  -- The result of an operation that writes, and the volume it leaves.
  unfoldable pub done : Vfs V → Bool × V → Result Bool × Vfs V
  done s (good, v) = (if good then ok true else err io, record s { vol = some v })

  unfoldable pub write_at : Ext2 V → Vfs V → V → Option (List ℕ) → List ℕ → Result Bool × Vfs V
  write_at fs s v none bytes = (err io, s)
  write_at fs s v (some norm) bytes =
      if is_under_dev norm
      then (devfs_write_file norm bytes, s)
      else done s (fs.write_file v norm bytes)

  unfoldable pub write_file : Ext2 V → Vfs V → List ℕ → List ℕ → Result Bool × Vfs V
  write_file fs s path bytes = elim (active_vol s) [
    | none ↦ (err notmounted, s)
    | some v ↦ write_at fs s v (path_normalize path 256) bytes
  ]

  -- `vfs_devfs_mkdir` refuses all.
  unfoldable pub mkdir_at : Ext2 V → Vfs V → V → Option (List ℕ) → Result Bool × Vfs V
  mkdir_at fs s v none = (err io, s)
  mkdir_at fs s v (some norm) = if is_under_dev norm then (err io, s) else done s (fs.mkdir v norm)

  unfoldable pub vfs_mkdir : Ext2 V → Vfs V → List ℕ → Result Bool × Vfs V
  vfs_mkdir fs s path = elim (active_vol s) [
    | none ↦ (err notmounted, s)
    | some v ↦ mkdir_at fs s v (path_normalize path 256)
  ]

  pub dir_at : Ext2 V → V → Option (List ℕ) → Bool
  dir_at fs v none = false
  dir_at fs v (some norm) = if is_under_dev norm then eq_string norm dev else fs.path_is_dir v norm

  pub is_directory : Ext2 V → Vfs V → List ℕ → Bool
  is_directory fs s path = elim (active_vol s) [
    | none ↦ false
    | some v ↦ dir_at fs v (path_normalize path 256)
  ]

  pub ls_of : Ext2 V → V → Option (List ℕ) → Result Bool
  ls_of fs v none = err io
  ls_of fs v (some norm) =
      if is_under_dev norm then devfs_ls norm else (if fs.ls_at v norm then ok true else err io)

  pub vfs_ls : Ext2 V → Vfs V → List ℕ → Result Bool
  vfs_ls fs s path =
      let p = if length path == 0 then slash ∷ [] else path in
      elim (active_vol s) [ none ↦ err notmounted | some v ↦ ls_of fs v (path_normalize p 256) ]

  pub format_vol : Ext2 V → Vfs V → Option V → Result Bool × Vfs V
  format_vol fs s none = (err noent, s)
  format_vol fs s (some v) = done s (fs.format v)

  -- A volume is formatted whether it is mounted or not.
  pub vfs_format : Ext2 V → Vfs V → Result Bool × Vfs V
  vfs_format fs s = format_vol fs s s.vol
