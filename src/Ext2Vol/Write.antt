-- ===== src/Ext2Vol/Write.antt =====
-- The write operations of kernel/fs/chaseros/chaseros_ext2_vol.c. An operation that fails leaves
-- what it has written so far.
use cnos.Prelude.{
  ℕ, zero, suc, ◌+◌, ◌-◌, ◌*◌, ◌/◌, ◌%◌, ◌^◌, Bool, true, false, not, ◌&&◌, Option, none, some,
  List, [], ◌∷◌, ltb, leb, ◌==◌, if◌then◌else◌, length,
}
use cnos.Ext2Vol.Files.{blocks_of, path_max}
use cnos.Ext2Vol.Dirent.{add_entry, dirent_put, find_in_root}
use cnos.Ext2Vol.Inode.{ensure, read_inode, inode_block, inode_off, read_meta, Meta, open_parent}
use cnos.Path.{path_normalize, path_split_parent, dot}
use cnos.Ext2Vol.Volume.{Driver, Vol, vol_write_blk, vol_read_blk, total_blocks_from_vol}
use cnos.Ext2Vol.Bytes.{
  put_le32, Bytes, i_block, s_free_inodes_count, s_free_blocks_count, memcpy, bm_set, bm_get,
  put_le16, bm_clr, block_size, i_mode, i_links_count, zero_bytes, le32, i_size, le16,
  bg_free_inodes_count, bg_free_blocks_count, at, i_blocks, bg_used_dirs_count, bytes_of,
}

-- An operation that may fail, and the volume it leaves.
abbrev pub Io {ℓ} : Type ℓ → Type 0 → Type ℓ
Io D A = Vol D → Option A × Vol D

unfoldable pub run_then {ℓ} :
    {D : Type ℓ} → {A B : Type 0} → (A → Io D B) → Option A × Vol D → Option B × Vol D
run_then k (none, v) = (none, v)
run_then k (some a, v) = k a v

infixl 10 ◌>>=◌
abbrev pub ◌>>=◌ {ℓ} : {D : Type ℓ} → {A B : Type 0} → Io D A → (A → Io D B) → Io D B
(m >>= k) v = run_then k (m v)

-- A read, which leaves the volume as it is.
abbrev ask {ℓ} : {D : Type ℓ} → {A : Type 0} → (Vol D → Option A) → Io D A
ask f v = (f v, v)

-- A value that a test or a scan has given, `none` a return of -1.
abbrev pub give {ℓ} : {D : Type ℓ} → {A : Type 0} → Option A → Io D A
give o v = (o, v)

-- `sb.s_free_blocks_count` and `gd.bg_free_blocks_count`, both changed by `d` modulo their widths.
unfoldable pub count_blocks : ℕ → ℕ → Meta → Meta
count_blocks d32 d16 m = record m {
  sb = put_le32 m.sb s_free_blocks_count ((le32 m.sb s_free_blocks_count + d32) % 2 ^ 32);
  gd = put_le16 m.gd bg_free_blocks_count ((le16 m.gd bg_free_blocks_count + d16) % 2 ^ 16);
}

-- The two counts of free inodes.
unfoldable pub count_inodes : ℕ → ℕ → Meta → Meta
count_inodes d32 d16 m = record m {
  sb = put_le32 m.sb s_free_inodes_count ((le32 m.sb s_free_inodes_count + d32) % 2 ^ 32);
  gd = put_le16 m.gd bg_free_inodes_count ((le16 m.gd bg_free_inodes_count + d16) % 2 ^ 16);
}

-- What adding `-1` to an unsigned of 32 and of 16 bits adds.
abbrev pub minus32 : ℕ
minus32 = 0xFFFFFFFF

abbrev pub minus16 : ℕ
minus16 = 0xFFFF

abbrev pub first_free_block : ℕ
first_free_block = 23

-- The least free bit from `bit` on, of `n` bits.
unfoldable pub free_bit : ℕ → Bytes → ℕ → Option ℕ
free_bit zero bm bit = none
free_bit (suc n) bm bit =
    let rest = free_bit n bm (bit + 1) in if bm_get bm bit then rest else some bit

abbrev pub marked : Bytes → ℕ → Option ℕ → Option (ℕ × Bytes)
marked bm base none = none
marked bm base (some bit) = some (bit + base, bm_set bm bit)

-- `none` is the result 0.
unfoldable pub alloc_block : Bytes → ℕ → Option (ℕ × Bytes)
alloc_block bb tb = marked bb 0 (free_bit (tb - first_free_block) bb first_free_block)

-- Inode `ino` has bit `ino - 1`.
unfoldable pub alloc_inode : Bytes → Option (ℕ × Bytes)
alloc_inode ib = marked ib 1 (free_bit 117 ib 11)

unfoldable pub free_block : Bytes → ℕ → Meta → Meta
free_block fi bn m = if bn == 0 then m else count_blocks 1 1 (record m { bb = bm_clr m.bb bn })

-- The loop over the first blocks of the inode `fi`, of which `i` on are left.
unfoldable pub free_from : ℕ → ℕ → Bytes → Meta → Bytes × Meta
free_from zero i fi m = (fi, m)
free_from (suc n) i fi m =
    free_from n (i + 1) (put_le32 fi (i_block i) 0) (free_block fi (le32 fi (i_block i)) m)

unfoldable pub free_inode_blocks : Bytes → Meta → Bytes × Meta
free_inode_blocks fi m =
    let nblk = blocks_of (le32 fi i_size) in
    let (fi1, m1) = free_from (if ltb 12 nblk then 12 else nblk) 0 fi m in
    (put_le32 (put_le32 fi1 i_size 0) i_blocks 0, m1)

-- The block `bi` of the data.
unfoldable pub chunk : List ℕ → ℕ → Bytes
chunk bytes bi =
    let len = length bytes in
    let n = if ltb len (bi * block_size + block_size) then len - bi * block_size else block_size in
    memcpy zero_bytes 0 (at (bytes_of bytes) (bi * block_size)) n

-- The inode that `write_file` leaves for a file of `len` bytes, but for its blocks.
unfoldable pub file_inode : Bytes → ℕ → Bytes
file_inode fi len =
    let fi1 = put_le32 (put_le16 fi i_mode 0x81A4) i_size (len % 2 ^ 32) in
    let sectors = (len + 511) / 512 % 2 ^ 32 in
    put_le32 (put_le16 fi1 i_links_count 1) i_blocks
      (if (sectors == 0) && ltb 0 len then 1 else sectors)

-- A new directory's inode, whose one block is `blk`, and its block.
unfoldable pub dir_inode : ℕ → ℕ → Bytes
dir_inode links blk =
    let in1 = put_le32 (put_le16 zero_bytes i_mode 0x41ED) i_size block_size in
    put_le32 (put_le32 (put_le16 in1 i_links_count links) i_blocks 2) (i_block 0) blk

unfoldable pub dir_block : ℕ → ℕ → Bytes
dir_block ino parent =
    let (b1, off) = dirent_put zero_bytes 0 ino (dot ∷ []) in
    (dirent_put b1 off parent (dot ∷ dot ∷ [])).0

module _ {ℓ} {D : Type ℓ} (hw : Driver D) where
  abbrev put_result : Bool × Vol D → Option Bool × Vol D
  put_result (done, v) = (if done then some true else none, v)

  unfoldable pub write_blk : ℕ → Bytes → Io D Bool
  write_blk blk buf v = put_result (vol_write_blk hw v blk buf)

  unfoldable pub write_super : Bytes → Io D Bool
  write_super sb = write_blk 1 (memcpy zero_bytes 0 sb block_size)

  unfoldable pub write_gd : Bytes → Io D Bool
  write_gd gd = write_blk 2 (memcpy zero_bytes 0 gd 32)

  unfoldable pub write_inode : ℕ → Bytes → Io D Bool
  write_inode ino inode = do
    let idx = (ino + minus32) % 2 ^ 32
    b ← ask (λ v. vol_read_blk hw v (inode_block idx))
    write_blk (inode_block idx) (memcpy b (inode_off idx) inode 128)

  -- `write_super(v, &sb) != 0 || write_gd(v, &gd) != 0 || …`.
  unfoldable pub write_meta : Meta → Io D Bool
  write_meta m = do a ← write_super m.sb; b ← write_gd m.gd; c ← write_blk 3 m.bb; write_blk 4 m.ib

  -- The rounds of the loop that writes the data, from block `bi` on.
  unfoldable pub write_blocks : ℕ → List ℕ → ℕ → ℕ → Bytes → Meta → Io D (Bytes × Meta)
  write_blocks zero bytes tb bi fi m = give (some (fi, m))
  write_blocks (suc n) bytes tb bi fi m = do
    got ← give (alloc_block m.bb tb)
    done ← write_blk got.0 (chunk bytes bi)
    write_blocks n bytes tb (bi + 1) (put_le32 fi (i_block bi) got.0)
        (count_blocks minus32 minus16 (record m { bb = got.1 }))

  -- The file's inode number, its inode with no blocks, and the metadata. An entry that has an inode
  -- is reused, and the bitmap with its blocks freed is written at once.
  unfoldable pub reuse_entry : ℕ → Meta → Io D (ℕ × Bytes × Meta)
  reuse_entry ino m = do
    fi ← ask (λ v. read_inode hw v ino)
    let freed = free_inode_blocks fi m
    done ← write_blk 3 freed.1.bb
    give (some (ino, freed.0, freed.1))

  unfoldable pub new_entry : List ℕ → Bytes → Bytes → Meta → Io D (ℕ × Bytes × Meta)
  new_entry base dir droot m = do
    got ← give (alloc_inode m.ib)
    blk ← give (add_entry droot got.0 base)
    done ← write_blk (le32 dir (i_block 0)) blk
    give (some (got.0, zero_bytes, count_inodes minus32 minus16 (record m { ib = got.1 })))

  unfoldable pub choose_entry : Option ℕ → List ℕ → Bytes → Bytes → Meta → Io D (ℕ × Bytes × Meta)
  choose_entry none base dir droot m = new_entry base dir droot m
  choose_entry (some zero) base dir droot m = new_entry base dir droot m
  choose_entry (some (suc i)) base dir droot m = reuse_entry (suc i) m

  unfoldable pub ext2_write_file : List ℕ → List ℕ → Io D Bool
  ext2_write_file name bytes = do
    size ← give (ensure (leb (length bytes) (12 * block_size)) (length bytes))
    norm ← give (path_normalize name path_max)
    split ← give (path_split_parent norm path_max 128)
    m ← ask (read_meta hw)
    tb ← ask (λ v. some (total_blocks_from_vol v))
    opened ← ask (λ v. open_parent hw v split.0)
    entry ← choose_entry (find_in_root opened.2 split.1) split.1 opened.1 opened.2 m
    stored ← write_blocks (blocks_of size) bytes tb 0 (file_inode entry.1 size) entry.2
    done ← write_meta stored.1
    write_inode entry.0 stored.0

  abbrev is_taken : Option ℕ → Bool
  is_taken none = false
  is_taken (some ino) = not (ino == 0)

  -- `parent_ino.i_links_count++; gd.bg_used_dirs_count++;`
  unfoldable pub one_more_dir : Bytes → Meta → Bytes × Meta
  one_more_dir dir m = (
    put_le16 dir i_links_count ((le16 dir i_links_count + 1) % 2 ^ 16),
    record m {
      gd = put_le16 m.gd bg_used_dirs_count ((le16 m.gd bg_used_dirs_count + 1) % 2 ^ 16);
    },
  )

  -- The counts are given back where no block is left, on the stack alone.
  unfoldable pub ext2_mkdir : List ℕ → Io D Bool
  ext2_mkdir path_raw = do
    norm ← give (path_normalize path_raw path_max)
    split ← give (path_split_parent norm path_max 128)
    m ← ask (read_meta hw)
    tb ← ask (λ v. some (total_blocks_from_vol v))
    opened ← ask (λ v. open_parent hw v split.0)
    free ← give (ensure (not (is_taken (find_in_root opened.2 split.1))) true)
    got ← give (alloc_inode m.ib)
    let m1 = count_inodes minus32 minus16 (record m { ib = got.1 })
    new_blk ← give (alloc_block m1.bb tb)
    let m2 = count_blocks minus32 minus16 (record m1 { bb = new_blk.1 })
    a ← write_blk new_blk.0 (dir_block got.0 opened.0)
    dparent ← give (add_entry opened.2 got.0 split.1)
    b ← write_blk (le32 opened.1 (i_block 0)) dparent
    let more = one_more_dir opened.1 m2
    c ← write_meta more.1
    d ← write_inode opened.0 more.0
    write_inode got.0 (dir_inode 2 new_blk.0)
