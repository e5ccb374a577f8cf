-- ===== src/UserFd/Tests.antt =====
-- Runs of kernel/user_fd.c on a volume with one file, and the theorems at them.
use cnos.Prelude.{
  ℕ, ◌-◌, ◌<◌, ◌≡◌, refl, ◌⊎◌, true, false, none, some, List, [], ◌∷◌, ◌==◌, if◌then◌else◌, length,
}
use cnos.Path.{
  eq_string, slash, take, drop, take_seg, skip_slash, pop, push_seg, scan, emit_one, emit,
  write_path, path_normalize,
}
use cnos.Process.{update}
use cnos.Vfs.{
  Ext2, Stat, ext2_fs, is_mounted, vfs_stat, stat_at, found, has_vol, is_under_dev, active_vol,
}
use cnos.UserFd.{ret, fail, emfile, ebadf, User, FdSlot, fd_min, fd_num, open_kpath, sys_close}
use cnos.UserFd.Open.{Opens, open_kpath_lem, sys_close-sys_close}

-- `/a`, and its bytes.
abbrev name : List ℕ
name = 47 ∷ 97 ∷ []

abbrev contents : List ℕ
contents = 104 ∷ 101 ∷ 108 ∷ 108 ∷ 111 ∷ []

-- A volume that holds `/a` alone.
abbrev one_file : Ext2 (List ℕ)
one_file = record {
  format = λ v. (true, []);
  ls_at = λ v p. true;
  stat_file = λ v p. if eq_string p name then some (length v) else none;
  read_file_range = λ v p o n. if eq_string p name then some (take n (drop o v)) else none;
  write_file = λ v p bytes. if eq_string p name then (true, bytes) else (false, v);
  mkdir = λ v p. (false, v);
  path_is_dir = λ v p. eq_string p (slash ∷ []);
}

abbrev closed : FdSlot
closed = record { valid = false; path = []; offset = 0; size = 0 }

-- Descriptor 3 is open on `/a`, at offset 1.
abbrev user : User (List ℕ)
user = record {
  vfs = record { mounted = true; fstype = ext2_fs; vol = some contents };
  fds = update (λ i. closed) 0 (record { valid = true; path = name; offset = 1; size = 5 });
  cwd = slash ∷ [];
  mem = λ a. 0;
}

abbrev stat : Stat
stat = record { ino = 0; size = 5 }

open_kpath_example :
    (((j : ℕ) → j < fd_num → (user.fds j).valid ≡ true)
      × (open_kpath one_file name user ≡ (fail emfile, user)))
    ⊎ ((idx : ℕ) × Opens user name stat idx (open_kpath one_file name user))
unfolding is_mounted has_vol vfs_stat stat_at found is_under_dev active_vol path_normalize scan
    take_seg skip_slash push_seg pop eq_string write_path emit emit_one
open_kpath_example = open_kpath_lem one_file name stat user refl refl

sys_close_example :
    let (r, t) = sys_close 3 user in
    (r ≡ ret 0)
    × ((t.fds (3 - fd_min)).valid ≡ false)
    × ((j : ℕ) → ((3 - fd_min) == j) ≡ false → t.fds j ≡ user.fds j)
    × (sys_close 3 t ≡ (fail ebadf, t))
sys_close_example = sys_close-sys_close 3 user refl refl
