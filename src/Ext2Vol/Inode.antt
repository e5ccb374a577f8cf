-- ===== src/Ext2Vol/Inode.antt =====
-- The superblock, the group descriptor and the inodes, and the lookup of a path, in
-- kernel/fs/chaseros/chaseros_ext2_vol.c. A function that returns -1 is `none`.
use cnos.Prelude.{
  ℕ, zero, suc, ◌+◌, ◌*◌, ◌/◌, ◌%◌, ◌^◌, Bool, not, Option, none, some, List, [], ◌∷◌, ◌==◌,
  if◌then◌else◌, length,
}
use cnos.Ext2Vol.Dirent.{find_in_root}
use cnos.Ext2Vol.Volume.{Driver, Vol, vol_read_blk}
use cnos.Path.{slash, take_seg, eq_string, drop}
use cnos.Ext2Vol.Bytes.{
  block_size, Bytes, le16, i_mode, s_magic, at, le32, ext2_super_magic, i_block,
}

infixl 10 ◌>>=◌
unfoldable pub ◌>>=◌ {ℓ m} : {A : Type ℓ} → {B : Type m} → Option A → (A → Option B) → Option B
none >>= k = none
some a >>= k = k a

-- `none` where the test fails.
unfoldable pub ensure {ℓ} : {A : Type ℓ} → Bool → A → Option A
ensure b a = if b then some a else none

-- `i_mode & 0xF000`.
abbrev pub file_kind : Bytes → ℕ
file_kind inode = le16 inode i_mode / 4096

abbrev pub kind_dir : ℕ
kind_dir = 4

abbrev pub kind_file : ℕ
kind_file = 8

unfoldable pub is_dir : Bytes → Bool
is_dir inode = file_kind inode == kind_dir

unfoldable pub is_file : Bytes → Bool
is_file inode = file_kind inode == kind_file

unfoldable pub inode_block : ℕ → ℕ
inode_block idx = 5 + idx * 128 % 2 ^ 32 / block_size

unfoldable pub inode_off : ℕ → ℕ
inode_off idx = idx * 128 % 2 ^ 32 % block_size

-- The loop `while (*p == '/')`.
unfoldable pub skip_slashes : List ℕ → List ℕ
skip_slashes [] = []
skip_slashes (c ∷ p) = let rest = skip_slashes p in if c == slash then rest else c ∷ p

-- The superblock, the group descriptor and the two bitmaps, as an operation holds them on its stack.
pub record Meta : Type 0 where
  pub sb : Bytes
  pub gd : Bytes
  pub bb : Bytes
  pub ib : Bytes

module _ {ℓ} {D : Type ℓ} (hw : Driver D) (v : Vol D) where
  unfoldable pub read_super : Option Bytes
  read_super = do blk ← vol_read_blk hw v 1; ensure (le16 blk s_magic == ext2_super_magic) blk

  unfoldable pub read_gd : Option Bytes
  read_gd = vol_read_blk hw v 2

  unfoldable pub read_inode : ℕ → Option Bytes
  read_inode zero = none
  read_inode (suc idx) = do b ← vol_read_blk hw v (inode_block idx); some (at b (inode_off idx))

  -- The inode of the entry `comp` in the directory `cur`.
  unfoldable pub step_into : ℕ → List ℕ → Option ℕ
  step_into cur comp = do
    dir_in ← read_inode cur
    dir ← ensure (is_dir dir_in) dir_in
    dblk ← vol_read_blk hw v (le32 dir (i_block 0))
    next ← find_in_root dblk comp
    ensure (not (next == 0)) next

  -- The loop `while (*p)`; a round takes one character at least.
  unfoldable pub walk : ℕ → ℕ → List ℕ → Option ℕ
  walk zero cur p = some cur
  walk (suc fuel) cur [] = some cur
  walk (suc fuel) cur (c ∷ p) = do
    next ← step_into cur (take_seg 127 (c ∷ p)).0
    walk fuel next (skip_slashes (take_seg 127 (c ∷ p)).1)

  -- The inode number and the inode. The root directory is inode 2.
  unfoldable pub lookup_final : List ℕ → Option (ℕ × Bytes)
  lookup_final norm = do
    ino ← if eq_string norm (slash ∷ []) then some 2 else walk (length norm) 2 (drop 1 norm)
    inode ← read_inode ino
    some (ino, inode)

  -- What `write_file` and `mkdir` read first.
  unfoldable pub read_meta : Option Meta
  read_meta = do
    sb ← read_super
    gd ← read_gd
    bb ← vol_read_blk hw v 3
    ib ← vol_read_blk hw v 4
    some (record { sb = sb; gd = gd; bb = bb; ib = ib })

  -- The parent directory: its inode number, its inode and its block.
  unfoldable pub open_parent : List ℕ → Option (ℕ × Bytes × Bytes)
  open_parent parent = do
    found ← lookup_final parent
    dir ← ensure (is_dir found.1) found.1
    blk ← vol_read_blk hw v (le32 dir (i_block 0))
    some (found.0, dir, blk)
