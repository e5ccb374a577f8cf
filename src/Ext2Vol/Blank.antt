-- ===== src/Ext2Vol/Blank.antt =====
-- The parts of a freshly formatted volume of kernel/fs/chaseros/chaseros_ext2_vol.c.
use cnos.Prelude.{
  ℕ, zero, suc, ◌+◌, ◌-◌, ◌≤◌, ◌<◌, ◌≡◌, refl, sym, ◌∙◌, ◌⊎◌, inl, inr, Bool, true, false, some,
  arith, ltb, ◌==◌, Bool-cases, test_bit,
}
use cnos.Pmm.Count.{count, count_all}
use cnos.Ext2Vol.Ram.{
  IsRam, block_byte, put_block, put_block-IsRam, run_step, write_ram, put_block-other,
}
use cnos.Ext2Vol.Write.{dir_inode}
use cnos.Ext2Vol.Allocs.{IsBitmap, bm_get-bm_set, bm_set-IsBitmap}
use cnos.Ext2Vol.Bytes.{
  le16, le32, memcpy, bm_get, put_le16, block_size, put_le32, i_block, zero_bytes, s_magic,
  ext2_super_magic, s_free_blocks_count, s_free_inodes_count, bg_free_blocks_count,
  bg_free_inodes_count, bg_used_dirs_count,
}
use cnos.Ext2Vol.Format.{first_bits, clear_table, new_super, new_gd}
use cnos.Ext2Vol.Volume.{Driver, Vol}
use cnos.Ext2Vol.Inode.{is_dir}

no_bits : (j : ℕ) → bm_get zero_bytes j ≡ ltb j 0
unfolding bm_get test_bit
no_bits j = ground arith

-- As many bits are set.
pub count_below :
    (g : ℕ → Bool) (n m : ℕ) → n ≤ m → ((j : ℕ) → j < m → g j ≡ ltb j n) → count g m ≡ n
unfolding count
count_below g n zero le h = omega arith
count_below g n (suc m) le h = elim (Bool-cases (n == suc m)) [
  | inl all ↦
      let same : n ≡ suc m = ground arith in
      count_all g (suc m) (λ j lt. ground (arith, h j lt)) ∙ sym same
  | inr less ↦
      ground
        (arith, h m (omega arith), count_below g n m (ground arith) (λ j lt. h j (omega arith)))
]

-- The bits below `n` are set and no others.
pub bm_get-first_bits :
    (n j : ℕ) → n ≤ 8192 → IsBitmap (first_bits n) × (bm_get (first_bits n) j ≡ ltb j n)
unfolding first_bits
bm_get-first_bits zero j h = (record { byte = λ k lt. omega arith }, no_bits j)
bm_get-first_bits (suc n) j h =
    let (bitmap, below) = bm_get-first_bits n j (omega arith) in
    let bits = bm_get-bm_set (first_bits n) n j bitmap (omega arith) in
    (bm_set-IsBitmap (first_bits n) n bitmap (omega arith), ground (arith, bits, below))

pub new_super-magic :
    (tb : ℕ) → le16 (memcpy zero_bytes 0 (new_super tb) block_size) s_magic ≡ ext2_super_magic
unfolding le16 memcpy new_super put_le16 put_le32
new_super-magic tb = refl

pub root_inode_fields : (is_dir (dir_inode 3 21) ≡ true) × (le32 (dir_inode 3 21) (i_block 0) ≡ 21)
unfolding is_dir le16 le32 dir_inode put_le16 put_le32
root_inode_fields = (refl, refl)

module _ {ℓ} {D : Type ℓ} (hw : Driver D) (tb : ℕ) where
  -- The loop over the inode table clears its blocks and no others.
  pub clear_table-IsRam :
      (n iblk : ℕ) (v : Vol D)
      → IsRam v tb
      → iblk + n ≤ 256
      → (w : Vol D) × (clear_table hw n iblk v ≡ (some true, w))
        × IsRam w tb
        × ((b k : ℕ)
            → (b < iblk) ⊎ (iblk + n ≤ b)
            → k < block_size
            → block_byte w b k ≡ block_byte v b k)
  unfolding clear_table
  clear_table-IsRam zero iblk v ram h = (v, refl, ram, λ b k out lt. refl)
  clear_table-IsRam (suc n) iblk v ram h =
      let least = ram.least in
      let u = put_block v iblk zero_bytes in
      let (w, ran, is_ram, kept) =
        clear_table-IsRam n (iblk + 1) u (put_block-IsRam hw v tb ram iblk zero_bytes)
          (omega arith) in
      (
        w,
        run_step _ (write_ram hw v tb ram iblk zero_bytes (omega arith)) ran,
        is_ram,
        λ b k out lt.
            kept b k (ground arith) lt
            ∙ put_block-other v iblk b k zero_bytes lt (λ e. ground (arith, e)),
      )

-- The counts of the superblock and the group descriptor, for `tb` blocks.
pub new_counts :
    (tb : ℕ)
    → 23 ≤ tb
    → tb ≤ 8192
    → (le32 (new_super tb) s_free_blocks_count ≡ tb - 23)
      × (le32 (new_super tb) s_free_inodes_count ≡ 117)
      × (le16 (new_gd tb) bg_free_blocks_count ≡ tb - 23)
      × (le16 (new_gd tb) bg_free_inodes_count ≡ 117)
      × (le16 (new_gd tb) bg_used_dirs_count ≡ 2)
unfolding le32 le16 new_super new_gd put_le32 put_le16
new_counts tb least most =
    let few : ltb 0xFFFF (tb - 23) ≡ false = ground arith in
    rw few (omega arith, refl, omega arith, refl, refl)

pub lost_inode_fields : (is_dir (dir_inode 2 22) ≡ true) × (le32 (dir_inode 2 22) (i_block 0) ≡ 22)
unfolding is_dir le16 le32 dir_inode put_le16 put_le32
lost_inode_fields = (refl, refl)
