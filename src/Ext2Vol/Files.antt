-- ===== src/Ext2Vol/Files.antt =====
-- The read operations of kernel/fs/chaseros/chaseros_ext2_vol.c.
use cnos.Prelude.{
  ℕ, zero, suc, ◌+◌, ◌-◌, ◌/◌, ◌%◌, ◌^◌, Bool, false, ◌||◌, Option, none, some, List, [], ◌∷◌, ◌++◌,
  ltb, leb, ◌==◌, if◌then◌else◌, length,
}
use cnos.Ext2Vol.Dirent.{list_from, max_entries}
use cnos.Path.{slash, path_normalize}
use cnos.Ext2Vol.Inode.{◌>>=◌, is_dir, lookup_final, ensure, read_super, is_file}
use cnos.Ext2Vol.Volume.{Driver, Vol, vol_read_blk}
use cnos.Ext2Vol.Bytes.{Bytes, block_size, le32, i_size, i_block}

abbrev pub path_max : ℕ
path_max = 256

-- The rounds over `i_block`: `cursor` is `file_cursor`, `copied` the bytes copied so far, `maxcopy`
-- how many are wanted. A block's bytes from `j` on, `n` of them left in the file.
unfoldable pub copy_block : ℕ → Bytes → ℕ → ℕ → ℕ → ℕ → ℕ → List ℕ
copy_block zero tmp j cursor offset copied maxcopy = []
copy_block (suc n) tmp j cursor offset copied maxcopy =
    let skip = ltb (cursor + j) offset in
    let rest =
      copy_block n tmp (j + 1) cursor offset (if skip then copied else copied + 1) maxcopy in
    if leb maxcopy copied then [] else (if skip then rest else tmp j ∷ rest)

unfoldable pub blocks_of : ℕ → ℕ
blocks_of size = (size + block_size - 1) % 2 ^ 32 / block_size

module _ {ℓ} {D : Type ℓ} (hw : Driver D) (v : Vol D) where
  -- `left` is the number of blocks that the file has from `i` on.
  unfoldable pub copy_blocks : ℕ → Bytes → ℕ → ℕ → ℕ → ℕ → ℕ → Option (List ℕ)
  copy_blocks zero fi i cursor offset copied maxcopy = some []
  copy_blocks (suc left) fi i cursor offset copied maxcopy =
      let bn = le32 fi (i_block i) in
      let size = le32 fi i_size in
      let blk_len = if ltb size (cursor + block_size) then size - cursor else block_size in
      if leb size cursor || (leb maxcopy copied || bn == 0) then some [] else do
        tmp ← vol_read_blk hw v bn
        let part = copy_block blk_len tmp 0 cursor offset copied maxcopy
        rest ← copy_blocks left fi (i + 1) (cursor + blk_len) offset (copied + length part) maxcopy
        some (part ++ rest)

  -- The bytes of the inode `fi` from `offset` on, as many as fit the buffer.
  unfoldable pub read_range : Bytes → ℕ → ℕ → Option (List ℕ)
  read_range fi offset buf_sz =
      let size = le32 fi i_size in
      let maxcopy = if ltb buf_sz (size - offset) then buf_sz else size - offset in
      if leb size offset
      then some []
      else (if ltb 12 (blocks_of size)
          then none
          else copy_blocks (blocks_of size) fi 0 0 offset 0 maxcopy)

  -- The inode of a path, once the superblock is checked.
  unfoldable pub find_inode : List ℕ → Option Bytes
  find_inode name = do
    norm ← path_normalize name path_max
    sb ← read_super hw v
    found ← lookup_final hw v norm
    some found.1

  unfoldable pub ext2_stat_file : List ℕ → Option ℕ
  ext2_stat_file name = do fi ← find_inode name; ensure (is_file fi) (le32 fi i_size)

  unfoldable pub ext2_read_file_range : List ℕ → ℕ → ℕ → Option (List ℕ)
  ext2_read_file_range name offset buf_sz =
      if buf_sz == 0
      then none
      else do fi ← find_inode name; file ← ensure (is_file fi) fi; read_range file offset buf_sz

  unfoldable pub ext2_read_file : List ℕ → ℕ → Option (List ℕ)
  ext2_read_file name buf_sz = ext2_read_file_range name 0 buf_sz

  -- The lines that are printed.
  unfoldable pub ext2_ls_at : List ℕ → Option (List (ℕ × List ℕ))
  ext2_ls_at path_raw = do
    ir ← find_inode path_raw
    dir ← ensure (is_dir ir) ir
    blk ← vol_read_blk hw v (le32 dir (i_block 0))
    some (list_from max_entries blk 0)

  unfoldable pub ext2_ls : Option (List (ℕ × List ℕ))
  ext2_ls = ext2_ls_at (slash ∷ [])

  abbrev dir_found : Option (ℕ × Bytes) → Bool
  dir_found none = false
  dir_found (some (ino, inode)) = is_dir inode

  -- The path is in its normal form.
  unfoldable pub ext2_path_is_dir : List ℕ → Bool
  ext2_path_is_dir norm_path = dir_found (lookup_final hw v norm_path)
