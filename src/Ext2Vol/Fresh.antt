-- ===== src/Ext2Vol/Fresh.antt =====
-- The directories that `mkdir` and `format` of kernel/fs/chaseros/chaseros_ext2_vol.c write.
use cnos.Prelude.{ℕ, suc, ◌^◌, ◌<◌, ◌≡◌, refl, List, [], ◌∷◌, arith}
use cnos.Ext2Vol.Append.{dirent_put-Holds}
use cnos.Ext2Vol.Dirent.{entry_size, dirent_put}
use cnos.Ext2Vol.Bytes.{zero_bytes}
use cnos.Ext2Vol.Format.{root_block, lost_found}
use cnos.Ext2Vol.Write.{dir_block}
use cnos.Path.{dot}
use cnos.Ext2Vol.Entries.{NoNul, Holds, end_of}

no_entries : Holds zero_bytes 0 []
unfolding Holds
no_entries k lo hi = refl

abbrev dots : ℕ → ℕ → List (ℕ × List ℕ)
dots ino parent = (ino, dot ∷ []) ∷ (parent, dot ∷ dot ∷ []) ∷ []

dots_put :
    (ino parent : ℕ)
    → ino < 2 ^ 32
    → parent < 2 ^ 32
    → let first = dirent_put zero_bytes 0 ino (dot ∷ []) in
      let r = dirent_put first.0 first.1 parent (dot ∷ dot ∷ []) in
      Holds r.0 0 (dots ino parent) × (r.1 ≡ 24)
unfolding NoNul end_of entry_size
dots_put ino parent a b =
    let some_char : 0 < dot = omega arith in
    let (h1, o1) =
      dirent_put-Holds zero_bytes [] ino (dot ∷ []) no_entries (omega arith) (some_char, tt) a
        (omega arith) in
    let (h2, o2) =
      dirent_put-Holds (dirent_put zero_bytes 0 ino (dot ∷ [])).0 ((ino, dot ∷ []) ∷ []) parent
        (dot ∷ dot ∷ []) h1 (omega arith) (some_char, (some_char, tt)) b (omega arith) in
    rw o1 (h2, o2)

-- A new directory's block holds the entries `.` and `..`, and the root's block that the formatting
-- writes holds `.`, `..` and `lost+found`, for inodes 2, 2 and 11.
pub dir_block-Holds :
    (ino parent : ℕ)
    → ino < 2 ^ 32
    → parent < 2 ^ 32
    → Holds (dir_block ino parent) 0 (dots ino parent)
      × Holds root_block 0 ((2, dot ∷ []) ∷ (2, dot ∷ dot ∷ []) ∷ (11, lost_found) ∷ [])
unfolding dir_block root_block NoNul end_of entry_size Holds dirent_put
dir_block-Holds ino parent a b =
    let (h, o) = dots_put 2 2 (omega arith) (omega arith) in
    let l : (c : ℕ) → 0 < suc c = λ c. omega arith in
    let (h3, o3) =
      dirent_put-Holds _ (dots 2 2) 11 lost_found h (omega arith)
        (l _, (l _, (l _, (l _, (l _, (l _, (l _, (l _, (l _, (l _, tt)))))))))) (omega arith)
        (omega arith) in
    ((dots_put ino parent a b).0, rw o h3)
