-- ===== src/UserFd/Served.antt =====
-- What kernel/fs/vfs.c asks of the volume of kernel/fs/chaseros/chaseros_ext2_vol.c for a read from a
-- descriptor of kernel/user_fd.c.
use cnos.Prelude.{
  ℕ, ◌+◌, ◌-◌, ◌≤◌, ◌<◌, ◌≡◌, refl, true, false, some, List, arith, ltb, if◌then◌else◌, length,
}
use cnos.Ext2Vol.Files.{ext2_read_file_range}
use cnos.Ext2Vol.Format.{volume_ops}
use cnos.Ext2Vol.Volume.{Driver, Vol}
use cnos.Path.{path_normalize}
use cnos.UserFd.Bytes.{slice}
use cnos.UserFd.Read.{Serves}
use cnos.Vfs.{Vfs, is_under_dev, active_vol, read_at, data_read, read_file_range}

least_left :
    (f : List ℕ) (o n : ℕ)
    → o + n ≤ length f
    → (if ltb n (length f - o) then n else length f - o) ≡ n
least_left f o n h = ground arith

-- The mounted volume serves a file that its range reads return.
pub volume_ops-Serves {ℓ} :
    {D : Type ℓ} (hw : Driver D) (w : Vol D) (s : Vfs (Vol D)) (path norm f : List ℕ)
    → s.mounted ≡ true
    → s.vol ≡ some w
    → path_normalize path 256 ≡ some norm
    → is_under_dev norm ≡ false
    → ((o n : ℕ)
        → 0 < n
        → o ≤ length f
        → ext2_read_file_range hw w norm o n
          ≡ some (slice f o (if ltb n (length f - o) then n else length f - o)))
    → Serves (read_file_range (volume_ops hw) s path) f
unfolding Serves read_file_range read_at data_read active_vol volume_ops
volume_ops-Serves hw w s path norm f mounted vol normal on_disk reads o n some_bytes h =
    rw (mounted, vol, normal, on_disk, reads o n some_bytes (omega arith), least_left f o n h) refl
