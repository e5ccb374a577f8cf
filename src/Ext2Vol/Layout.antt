-- ===== src/Ext2Vol/Layout.antt =====
-- What stands where on the volume that `chaseros_ext2_format` of
-- kernel/fs/chaseros/chaseros_ext2_vol.c lays out.
use cnos.Prelude.{ℕ, ◌+◌, ◌*◌, ◌≤◌, ◌<◌, ◌≡◌, ap, ◌∙◌, ◌⊎◌, inl, true, some, arith}
use cnos.Ext2Vol.FreshRoot.{LaidOut}
use cnos.Ext2Vol.Inode.{inode_block, inode_off}
use cnos.Ext2Vol.Write.{dir_inode, dir_block, write_super, write_gd}
use cnos.Ext2Vol.Fields.{memcpy-inside}
use cnos.Ext2Vol.Inodes.{
  put_inode, inode_byte, inode_block_bounds, put_inode-other, put_inode-here, write_inode_ram,
}
use cnos.Ext2Vol.Bytes.{block_size, memcpy, zero_bytes, at}
use cnos.Ext2Vol.Format.{clear_table, first_bits, new_super, lay_out, root_block, new_gd}
use cnos.Ext2Vol.Ram.{
  IsRam, put_block, block_byte, put_block-other, put_block-here, put_block-IsRam, run_step,
  write_ram,
}
use cnos.Ext2Vol.Volume.{Driver, Vol}

module _ {ℓ} {D : Type ℓ} (hw : Driver D) (tb : ℕ) where
  -- The blocks that stand behind the inode table's clearing, on the volume `u`.
  module _ (v : Vol D) (ram : IsRam v tb) where
    abbrev pub before_table : Vol D
    before_table =
        let w1 = put_block v 1 (memcpy zero_bytes 0 (new_super tb) block_size) in
        let w2 = put_block w1 2 (memcpy zero_bytes 0 (new_gd tb) 32) in
        put_block (put_block w2 3 (first_bits 23)) 4 (first_bits 11)

    pub before_table-IsRam : IsRam before_table tb
    before_table-IsRam = record {
      type = ram.type;
      size = ram.size;
      least = ram.least;
      most = ram.most;
    }

    module _ (u : Vol D) (cleared_table : clear_table hw 16 5 before_table ≡ (some true, u))
        (u_ram : IsRam u tb)
        (kept : (b k : ℕ)
          → (b < 5) ⊎ (21 ≤ b)
          → k < block_size
          → block_byte u b k ≡ block_byte before_table b k) where
      abbrev with_inodes : Vol D
      with_inodes = put_inode (put_inode u 1 (dir_inode 3 21)) 10 (dir_inode 2 22)

      abbrev pub formatted : Vol D
      formatted = put_block (put_block with_inodes 21 root_block) 22 (dir_block 11 2)

      with_inodes-IsRam : IsRam with_inodes tb
      with_inodes-IsRam = record {
        type = u_ram.type;
        size = u_ram.size;
        least = u_ram.least;
        most = u_ram.most;
      }

      formatted-IsRam : IsRam formatted tb
      formatted-IsRam = record {
        type = u_ram.type;
        size = u_ram.size;
        least = u_ram.least;
        most = u_ram.most;
      }

      pub lay_out_lem : lay_out hw tb v ≡ (some true, formatted)
      unfolding lay_out write_super write_gd
      lay_out_lem =
          let b1 = memcpy zero_bytes 0 (new_super tb) block_size in
          let b2 = memcpy zero_bytes 0 (new_gd tb) 32 in
          let w1 = put_block v 1 b1 in
          let w2 = put_block w1 2 b2 in
          let w3 = put_block w2 3 (first_bits 23) in
          let r1 = put_block-IsRam hw v tb ram 1 b1 in
          let r2 = put_block-IsRam hw w1 tb r1 2 b2 in
          let r3 = put_block-IsRam hw w2 tb r2 3 (first_bits 23) in
          let least = ram.least in
          let i1 = put_inode u 1 (dir_inode 3 21) in
          let i1_ram =
            put_block-IsRam hw u tb u_ram (inode_block 1)
              (memcpy (at u.ram (inode_block 1 * block_size)) (inode_off 1) (dir_inode 3 21) 128) in
          let d1 = put_block with_inodes 21 root_block in
          let d1_ram = put_block-IsRam hw with_inodes tb with_inodes-IsRam 21 root_block in
          run_step _ (write_ram hw v tb ram 1 b1 (omega arith)) (
            run_step _ (write_ram hw w1 tb r1 2 b2 (omega arith)) (
              run_step _ (write_ram hw w2 tb r2 3 (first_bits 23) (omega arith)) (
                run_step _ (write_ram hw w3 tb r3 4 (first_bits 11) (omega arith)) (
                  run_step _ cleared_table (
                    run_step _ (write_inode_ram hw u tb u_ram 1 (dir_inode 3 21) (omega arith)) (
                      run_step _ (write_inode_ram hw i1 tb i1_ram 10 (dir_inode 2 22) (omega arith))
                        (run_step _
                          (write_ram hw with_inodes tb with_inodes-IsRam 21 root_block
                            (omega arith))
                          (write_ram hw d1 tb d1_ram 22 (dir_block 11 2) (omega arith)))))))))

      -- The blocks of the bitmaps and the superblock, on the formatted volume.
      low_block :
          (b k : ℕ)
          → b < 5
          → k < block_size
          → block_byte formatted b k ≡ block_byte before_table b k
      low_block b k h lt =
          let (lo1, rest1) = inode_block_bounds 1 (omega arith) in
          let (lo2, rest2) = inode_block_bounds 10 (omega arith) in
          put_block-other (put_block with_inodes 21 root_block) 22 b k (dir_block 11 2) lt
            (λ e. omega arith)
          ∙ put_block-other with_inodes 21 b k root_block lt (λ e. omega arith)
          ∙ put_block-other (put_inode u 1 (dir_inode 3 21)) (inode_block 10) b k _ lt
              (λ e. omega arith)
          ∙ put_block-other u (inode_block 1) b k _ lt (λ e. omega arith)
          ∙ kept b k (inl h) lt

      super_block_lem :
          (k : ℕ)
          → k < block_size
          → block_byte formatted 1 k ≡ memcpy zero_bytes 0 (new_super tb) block_size k
      super_block_lem k lt =
          let b1 = memcpy zero_bytes 0 (new_super tb) block_size in
          let b2 = memcpy zero_bytes 0 (new_gd tb) 32 in
          let w2 = put_block (put_block v 1 b1) 2 b2 in
          low_block 1 k (omega arith) lt
          ∙ put_block-other (put_block w2 3 (first_bits 23)) 4 1 k (first_bits 11) lt
              (λ e. omega arith)
          ∙ put_block-other w2 3 1 k (first_bits 23) lt (λ e. omega arith)
          ∙ put_block-other (put_block v 1 b1) 2 1 k b2 lt (λ e. omega arith)
          ∙ put_block-here v 1 k b1 lt

      block_bits : (k : ℕ) → k < block_size → block_byte formatted 3 k ≡ first_bits 23 k
      block_bits k lt =
          let b1 = memcpy zero_bytes 0 (new_super tb) block_size in
          let w2 = put_block (put_block v 1 b1) 2 (memcpy zero_bytes 0 (new_gd tb) 32) in
          low_block 3 k (omega arith) lt
          ∙ put_block-other (put_block w2 3 (first_bits 23)) 4 3 k (first_bits 11) lt
              (λ e. omega arith)
          ∙ put_block-here w2 3 k (first_bits 23) lt

      inode_bits : (k : ℕ) → k < block_size → block_byte formatted 4 k ≡ first_bits 11 k
      inode_bits k lt =
          let b1 = memcpy zero_bytes 0 (new_super tb) block_size in
          let w2 = put_block (put_block v 1 b1) 2 (memcpy zero_bytes 0 (new_gd tb) 32) in
          low_block 4 k (omega arith) lt
          ∙ put_block-here (put_block w2 3 (first_bits 23)) 4 k (first_bits 11) lt

      root_inode_lem : (k : ℕ) → k < 128 → inode_byte formatted 1 k ≡ dir_inode 3 21 k
      root_inode_lem k lt =
          let (lo, (hi, fits)) = inode_block_bounds 1 (omega arith) in
          let i1 = put_inode u 1 (dir_inode 3 21) in
          put_block-other (put_block with_inodes 21 root_block) 22 (inode_block 1) (inode_off 1 + k)
            (dir_block 11 2) (omega arith) (λ e. omega arith)
          ∙ put_block-other with_inodes 21 (inode_block 1) (inode_off 1 + k) root_block
              (omega arith) (λ e. omega arith)
          ∙ put_inode-other i1 10 1 k (dir_inode 2 22) (omega arith) (omega arith) lt
              (λ e. omega arith)
          ∙ put_inode-here u 1 k (dir_inode 3 21) (omega arith) lt

      root_entries_lem : (k : ℕ) → k < block_size → block_byte formatted 21 k ≡ root_block k
      root_entries_lem k lt =
          put_block-other (put_block with_inodes 21 root_block) 22 21 k (dir_block 11 2) lt
            (λ e. omega arith)
          ∙ put_block-here with_inodes 21 k root_block lt

      group_block_lem : (k : ℕ) → k < 32 → block_byte formatted 2 k ≡ new_gd tb k
      group_block_lem k lt =
          let b1 = memcpy zero_bytes 0 (new_super tb) block_size in
          let b2 = memcpy zero_bytes 0 (new_gd tb) 32 in
          let w2 = put_block (put_block v 1 b1) 2 b2 in
          low_block 2 k (omega arith) (omega arith)
          ∙ put_block-other (put_block w2 3 (first_bits 23)) 4 2 k (first_bits 11) (omega arith)
              (λ e. omega arith)
          ∙ put_block-other w2 3 2 k (first_bits 23) (omega arith) (λ e. omega arith)
          ∙ put_block-here (put_block v 1 b1) 2 k b2 (omega arith)
          ∙ ap b2 {x = k} {y = 0 + k} (omega arith)
          ∙ memcpy-inside zero_bytes (new_gd tb) 0 32 k lt

      lost_inode_lem : (k : ℕ) → k < 128 → inode_byte formatted 10 k ≡ dir_inode 2 22 k
      lost_inode_lem k lt =
          let (lo, (hi, fits)) = inode_block_bounds 10 (omega arith) in
          put_block-other (put_block with_inodes 21 root_block) 22 (inode_block 10)
            (inode_off 10 + k) (dir_block 11 2) (omega arith) (λ e. omega arith)
          ∙ put_block-other with_inodes 21 (inode_block 10) (inode_off 10 + k) root_block
              (omega arith) (λ e. omega arith)
          ∙ put_inode-here (put_inode u 1 (dir_inode 3 21)) 10 k (dir_inode 2 22) (omega arith) lt

      lost_entries_lem : (k : ℕ) → k < block_size → block_byte formatted 22 k ≡ dir_block 11 2 k
      lost_entries_lem k lt =
          put_block-here (put_block with_inodes 21 root_block) 22 k (dir_block 11 2) lt

      pub formatted-LaidOut : LaidOut tb formatted
      formatted-LaidOut = record {
        ram = formatted-IsRam;
        super_block = super_block_lem;
        group = group_block_lem;
        block_bits = block_bits;
        inode_bits = inode_bits;
        root_inode = root_inode_lem;
        root_entries = root_entries_lem;
        lost_inode = lost_inode_lem;
        lost_entries = lost_entries_lem;
      }
