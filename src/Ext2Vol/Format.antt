-- ===== src/Ext2Vol/Format.antt =====
-- `chaseros_ext2_format` of kernel/fs/chaseros/chaseros_ext2_vol.c, and the volume's operations as
-- Vfs.antt takes them.
use cnos.Prelude.{
  ℕ, zero, suc, ◌+◌, ◌-◌, Bool, true, false, not, ◌||◌, Option, none, some, List, [], ◌∷◌, ltb,
  if◌then◌else◌,
}
use cnos.Ext2Vol.Files.{ext2_ls_at, ext2_stat_file, ext2_read_file_range, ext2_path_is_dir}
use cnos.Path.{dot}
use cnos.Ext2Vol.Dirent.{dirent_put}
use cnos.Ext2Vol.Write.{
  ◌>>=◌, Io, give, ext2_write_file, ext2_mkdir, write_blk, write_super, write_gd, write_inode,
  dir_inode, dir_block,
}
use cnos.Vfs.{Ext2}
use cnos.Ext2Vol.Bytes.{
  Bytes, zero_bytes, put_le32, s_free_blocks_count, memcpy, bm_set, put_le16, s_free_inodes_count,
  bg_free_blocks_count, bg_free_inodes_count, s_magic, bg_used_dirs_count, ext2_super_magic,
}
use cnos.Ext2Vol.Volume.{Driver, Vol, is_ram, total_blocks_from_vol, vol_check}

-- The first `n` bits set.
unfoldable pub first_bits : ℕ → Bytes
first_bits zero = zero_bytes
first_bits (suc n) = bm_set (first_bits n) n

-- The superblock of `tb` blocks.
unfoldable pub new_super : ℕ → Bytes
new_super tb =
    let s1 = put_le32 (put_le32 (put_le32 zero_bytes 0 128) 4 tb) 8 8 in
    let s2 = put_le32 (put_le32 s1 s_free_blocks_count (tb - 23)) s_free_inodes_count 117 in
    let s3 = put_le32 (put_le32 (put_le32 s2 20 1) 24 0) 28 0 in
    let s4 = put_le32 (put_le32 (put_le32 s3 32 tb) 36 tb) 40 128 in
    let s5 = put_le16 (put_le16 (put_le16 s4 s_magic ext2_super_magic) 58 1) 60 1 in
    put_le32 (put_le32 s5 76 0) 72 0

unfoldable pub new_gd : ℕ → Bytes
new_gd tb =
    let free = if ltb 0xFFFF (tb - 23) then 0xFFFF else tb - 23 in
    let g1 = put_le32 (put_le32 (put_le32 zero_bytes 0 3) 4 4) 8 5 in
    let g2 = put_le16 (put_le16 g1 bg_free_blocks_count free) bg_free_inodes_count 117 in
    put_le16 g2 bg_used_dirs_count 2

-- `lost+found`.
abbrev pub lost_found : List ℕ
lost_found = 108 ∷ 111 ∷ 115 ∷ 116 ∷ 43 ∷ 102 ∷ 111 ∷ 117 ∷ 110 ∷ 100 ∷ []

unfoldable pub root_block : Bytes
root_block =
    let (b1, o1) = dirent_put zero_bytes 0 2 (dot ∷ []) in
    let (b2, o2) = dirent_put b1 o1 2 (dot ∷ dot ∷ []) in (dirent_put b2 o2 11 lost_found).0

-- A RAM disk is cleared first.
unfoldable pub cleared {ℓ} : {D : Type ℓ} → Vol D → Vol D
cleared v = if is_ram v.type then record v { ram = memcpy v.ram 0 zero_bytes v.size_bytes } else v

module _ {ℓ} {D : Type ℓ} (hw : Driver D) where
  -- The loop that clears `n` blocks of the inode table.
  unfoldable pub clear_table : ℕ → ℕ → Io D Bool
  clear_table zero iblk = give (some true)
  clear_table (suc n) iblk = do done ← write_blk hw iblk zero_bytes; clear_table n (iblk + 1)

  unfoldable pub lay_out : ℕ → Io D Bool
  lay_out tb = do
    a ← write_super hw (new_super tb)
    b ← write_gd hw (new_gd tb)
    c ← write_blk hw 3 (first_bits 23)
    d ← write_blk hw 4 (first_bits 11)
    e ← clear_table 16 5
    f ← write_inode hw 2 (dir_inode 3 21)
    g ← write_inode hw 11 (dir_inode 2 22)
    h ← write_blk hw 21 root_block
    write_blk hw 22 (dir_block 11 2)

  unfoldable pub ext2_format : Io D Bool
  ext2_format v =
      let tb = total_blocks_from_vol v in
      if not (vol_check v) || (ltb tb 256 || ltb 8192 tb) then (none, v) else lay_out tb (cleared v)

  abbrev done : {A : Type 0} → Option A × Vol D → Bool × Vol D
  done (none, v) = (false, v)
  done (some a, v) = (true, v)

  abbrev listed : Option (List (ℕ × List ℕ)) → Bool
  listed none = false
  listed (some lines) = true

  -- The functions of chaseros_ext2_vol.h that kernel/fs/vfs.c calls.
  unfoldable pub volume_ops : Ext2 (Vol D)
  volume_ops = record {
    format = λ v. done (ext2_format v);
    ls_at = λ v path. listed (ext2_ls_at hw v path);
    stat_file = λ v path. ext2_stat_file hw v path;
    read_file_range = λ v path offset buf_sz. ext2_read_file_range hw v path offset buf_sz;
    write_file = λ v path bytes. done (ext2_write_file hw path bytes v);
    mkdir = λ v path. done (ext2_mkdir hw path v);
    path_is_dir = λ v path. ext2_path_is_dir hw v path;
  }
