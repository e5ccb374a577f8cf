-- ===== src/HybridIpc/Tests.antt =====
-- A path opened over IPC, as kernel/hybrid_ipc.c does it.
use cnos.Prelude.{ℕ, ◌≡◌, refl, true, false, none, some, List, [], ◌∷◌, length}
use cnos.Path.{take, slash}
use cnos.Vfs.{Ext2, ext2_fs}
use cnos.UserFd.{User, open_kpath}
use cnos.HybridIpc.{open_request, to_long, serve, read_reply}
use cnos.HybridIpc.Open.{is_string, read_reply-serve}

-- A volume whose every file has the bytes of the volume.
abbrev same_file : Ext2 (List ℕ)
same_file = record {
  format = λ v. (true, []);
  ls_at = λ v p. true;
  stat_file = λ v p. some (length v);
  read_file_range = λ v p o n. none;
  write_file = λ v p bytes. (true, bytes);
  mkdir = λ v p. (false, v);
  path_is_dir = λ v p. false;
}

abbrev client : User (List ℕ)
client = record {
  vfs = record { mounted = true; fstype = ext2_fs; vol = some (104 ∷ 105 ∷ []) };
  fds = λ i. record { valid = false; path = []; offset = 0; size = 0 };
  cwd = slash ∷ [];
  mem = λ a. 0;
}

open_over_ipc_example :
    let (rep, u) = serve same_file (open_request (47 ∷ 97 ∷ [])) client in
    let r = open_kpath same_file (take 47 (47 ∷ 97 ∷ [])) client in
    (read_reply rep ≡ to_long r.0) × (u ≡ r.1)
unfolding is_string
open_over_ipc_example = read_reply-serve same_file (47 ∷ 97 ∷ []) client refl
