-- ===== src/Ext2Vol/NewFile.antt =====
-- `chaseros_ext2_write_file` of kernel/fs/chaseros/chaseros_ext2_vol.c for a new file in the root
-- directory of a RAM volume, and the read of the file afterwards.
use cnos.Prelude.{
  ℕ, suc, ◌+◌, ◌*◌, ◌≤◌, ◌<◌, ◌≡◌, refl, ap, ◌∙◌, ◌⊎◌, inl, inr, true, false, none, some, List, [],
  ◌∷◌, ◌++◌, arith, leb, ◌==◌, if◌then◌else◌, length,
}
use cnos.Ext2Vol.RootFile.{HasFile}
use cnos.Ext2Vol.Entries.{Holds}
use cnos.Ext2Vol.Allocs.{bm_get_agree, IsBitmap}
use cnos.Ext2Vol.Store.{LowUsed}
use cnos.Ext2Vol.Fields.{Agree, le32-Agree, le16-Agree, put_le32-outside}
use cnos.Path.Canonical.{path_of}
use cnos.Path.{path_normalize, path_split_parent, slash}
use cnos.Ext2Vol.Saved.{
  put_meta, write_meta_ram, put_meta-IsRam, put_meta-bb, put_meta-kept, put_meta-ib, put_meta-sb,
  put_meta-gd, file_inode-is_file, Written-FileOn,
}
use cnos.Pmm.Count.{count, count-eq}
use cnos.Ext2Vol.Counts.{Counted, Counted-agree, take_inode-Counted, AllUsed-kept, AllUsed-append}
use cnos.Ext2Vol.Stored.{Written}
use cnos.Ext2Vol.Files.{blocks_of, path_max}
use cnos.Ext2Vol.Inodes.{
  inode_byte, put_inode, write_inode_ram, inode_block_bounds, put_inode-other, put_inode-here,
  read_inode_ram,
}
use cnos.Ext2Vol.Inode.{Meta, ensure, inode_block, is_dir, inode_off, is_file}
use cnos.Ext2Vol.Ram.{
  put_block, IsRam, put_block-IsRam, write_ram, total_blocks_lem, block_byte, put_block-here,
  put_block-other, run_step,
}
use cnos.Ext2Vol.Dirent.{add_entry, find_in_root}
use cnos.Ext2Vol.Bytes.{
  Bytes, zero_bytes, block_size, bm_get, le16, le32, i_block, s_magic, ext2_super_magic, i_mode,
  s_free_inodes_count, at,
}
use cnos.Ext2Vol.Root.{IsRoot, meta_of, root_dir, root_at, read_meta_ram, root_opened, Holds-agree}
use cnos.Ext2Vol.Write.{
  alloc_inode, new_entry, count_inodes, write_blocks, minus32, minus16, file_inode, ext2_write_file,
  choose_entry,
}
use cnos.Ext2Vol.Volume.{Driver, Vol}

module _ {ℓ} {D : Type ℓ} (hw : Driver D) (tb : ℕ) (es : List (ℕ × List ℕ)) (v : Vol D)
    (root : IsRoot tb es v) (base : List ℕ) (f : List ℕ) (idx : ℕ) (ib blk : Bytes)
    (new_inode : alloc_inode (meta_of v).ib ≡ some (suc idx, ib))
    (inodes : (11 ≤ idx) × (idx < 128))
    (new_entry_fits : add_entry (root_dir v) (suc idx) base ≡ some blk) where
  abbrev pub with_entry : Vol D
  with_entry = put_block v (root_at v) blk

  abbrev pub with_inode : Meta
  with_inode = count_inodes minus32 minus16 (record (meta_of v) { ib = ib })

  with_entry-IsRam : IsRam with_entry tb
  with_entry-IsRam = put_block-IsRam hw v tb root.ram (root_at v) blk

  new_entry_lem :
      new_entry hw base (inode_byte v 1) (root_dir v) (meta_of v) v
      ≡ (some (suc idx, zero_bytes, with_inode), with_entry)
  unfolding new_entry
  new_entry_lem = run_step _ (ap (λ o. (o, v)) new_inode) (
      run_step _ (ap (λ o. (o, v)) new_entry_fits)
        (run_step _ (write_ram hw v tb root.ram (root_at v) blk root.place.1) refl))

  module _ (fi2 : Bytes) (m2 : Meta) (w1 : Vol D)
      (blocks : write_blocks hw
          (blocks_of (length f))
          f
          tb
          0
          (file_inode zero_bytes (length f))
          with_inode
          with_entry
        ≡ (some (fi2, m2), w1))
      (out : Written tb f
        (blocks_of (length f))
        0
        (file_inode zero_bytes (length f))
        with_inode
        with_entry
        fi2
        m2
        w1) where
    abbrev pub result : Vol D
    result = put_inode (put_meta m2 w1) idx fi2

    pub write_file_lem :
        (path : List ℕ)
        → length f ≤ 12 * block_size
        → path_normalize path path_max ≡ some (path_of (base ∷ []))
        → path_split_parent (path_of (base ∷ [])) path_max 128 ≡ some (slash ∷ [], base)
        → find_in_root (root_dir v) base ≡ none
        → ext2_write_file hw path f v ≡ (some true, result)
    unfolding ext2_write_file ensure choose_entry
    write_file_lem path small normal split absent =
        let fits : leb (length f) (12 * block_size) ≡ true = ground arith in
        let sized : ensure (leb (length f) (12 * block_size)) (length f) ≡ some (length f) =
          rw fits refl in
        let chosen =
          ap (λ o. choose_entry hw o base (inode_byte v 1) (root_dir v) (meta_of v) v) absent
          ∙ new_entry_lem in
        run_step _ (ap (λ o. (o, v)) sized) (
          run_step _ (ap (λ o. (o, v)) normal) (
            run_step _ (ap (λ o. (o, v)) split) (
              run_step _ (ap (λ o. (o, v)) (read_meta_ram hw v tb root.ram root.magic)) (
                run_step _ (ap (λ t. (some t, v)) (total_blocks_lem hw v tb root.ram)) (
                  run_step _ (ap (λ o. (o, v)) (root_opened hw v tb es root)) (
                    run_step _ chosen (
                      run_step _ blocks (
                        run_step _ (write_meta_ram hw tb m2 w1 out.ram) (
                          write_inode_ram hw (put_meta m2 w1) tb (put_meta-IsRam tb m2 w1 out.ram)
                            idx fi2 inodes.1)))))))))

    past_inode :
        (b k : ℕ)
        → (b < 5) ⊎ (21 ≤ b)
        → k < block_size
        → block_byte result b k ≡ block_byte (put_meta m2 w1) b k
    past_inode b k h lt =
        let (lo, (hi, fits)) = inode_block_bounds idx inodes.1 in
        put_block-other (put_meta m2 w1) (inode_block idx) b k _ lt (λ e. ground (arith, e))

    kept_high : (b k : ℕ) → 21 ≤ b → k < block_size → block_byte result b k ≡ block_byte w1 b k
    kept_high b k h lt = past_inode b k (inr h) lt ∙ put_meta-kept m2 w1 b k (omega arith) lt

    result-IsRam : IsRam result tb
    result-IsRam =
        put_block-IsRam hw (put_meta m2 w1) tb (put_meta-IsRam tb m2 w1 out.ram) (inode_block idx) _

    -- The root's inode is as it was.
    root_inode : (k : ℕ) → k < 128 → inode_byte result 1 k ≡ inode_byte v 1 k
    unfolding count_inodes LowUsed
    root_inode k lt =
        let (lo, (hi, fits)) = inode_block_bounds 1 (omega arith) in
        let used = root.low (inode_block 1) (omega arith) in
        let apart = root.place.0 in
        put_inode-other (put_meta m2 w1) idx 1 k fi2 inodes.1 (omega arith) lt
          (λ e. omega (arith, inodes.0))
        ∙ put_meta-kept m2 w1 (inode_block 1) (inode_off 1 + k) lo (omega arith)
        ∙ out.kept (inode_block 1) (inode_off 1 + k) used (omega arith)
        ∙ put_block-other v (root_at v) (inode_block 1) (inode_off 1 + k) blk (omega arith)
            (λ e. omega arith)

    root_at_kept : root_at result ≡ root_at v
    unfolding Agree
    root_at_kept =
        le32-Agree (inode_byte result 1) (inode_byte v 1) (i_block 0)
          (λ k a b. root_inode k (omega arith))

    -- The root's block is the one with the new entry.
    root_block_kept : (k : ℕ) → k < block_size → block_byte result (root_at v) k ≡ blk k
    unfolding count_inodes
    root_block_kept k lt =
        kept_high (root_at v) k root.place.0 lt
        ∙ out.kept (root_at v) k root.marked lt
        ∙ put_block-here v (root_at v) k blk lt

    magic_kept : le16 (meta_of result).sb s_magic ≡ ext2_super_magic
    unfolding count_inodes Agree
    magic_kept =
        le16-Agree (meta_of result).sb m2.sb s_magic (λ k a b.
          past_inode 1 k (inl (omega arith)) (omega arith) ∙ put_meta-sb m2 w1 k (omega arith))
        ∙ out.magic
        ∙ le16-Agree with_inode.sb (meta_of v).sb s_magic
            (λ k a b. put_le32-outside (meta_of v).sb s_free_inodes_count _ k (inr (omega arith)))
        ∙ root.magic

    bitmap_kept : (k : ℕ) → k < block_size → (meta_of result).bb k ≡ m2.bb k
    bitmap_kept k lt = past_inode 3 k (inl (omega arith)) lt ∙ put_meta-bb m2 w1 k lt

    pub stays_in_use :
        (b : ℕ) → b < 8192 → bm_get (meta_of v).bb b ≡ true → bm_get (meta_of result).bb b ≡ true
    unfolding count_inodes
    stays_in_use b lt used =
        bm_get_agree (meta_of result).bb m2.bb b bitmap_kept lt ∙ out.in_use b used

    inode_bits_kept : (k : ℕ) → k < block_size → (meta_of result).ib k ≡ ib k
    unfolding count_inodes
    inode_bits_kept k lt =
        past_inode 4 k (inl (omega arith)) lt ∙ put_meta-ib m2 w1 k lt ∙ ap (λ b. b k) out.inodes

    -- The bits of the inodes, where `ib` is the old bitmap with the new inode's bit set.
    pub inode_bits :
        ((j : ℕ) → bm_get ib j ≡ (if idx == j then true else bm_get (meta_of v).ib j))
        → (j : ℕ) → j < 8192
        → bm_get (meta_of result).ib j ≡ (if idx == j then true else bm_get (meta_of v).ib j)
    inode_bits set_only j lt = bm_get_agree (meta_of result).ib ib j inode_bits_kept lt ∙ set_only j

    counts_kept :
        bm_get (meta_of v).ib idx ≡ false
        → ((j : ℕ) → bm_get ib j ≡ (if idx == j then true else bm_get (meta_of v).ib j))
        → Counted tb (meta_of result)
    unfolding count_inodes
    counts_kept unused set_only =
        Counted-agree tb m2 (meta_of result) root.ram.most
          (λ k lt. past_inode 1 k (inl (omega arith)) lt ∙ put_meta-sb m2 w1 k lt)
          (λ k lt.
            past_inode 2 k (inl (omega arith)) (omega arith) ∙ put_meta-gd m2 w1 k (omega arith) lt)
          bitmap_kept (λ k lt. past_inode 4 k (inl (omega arith)) lt ∙ put_meta-ib m2 w1 k lt)
          (out.counts (
            take_inode-Counted tb (meta_of v) root.ram.most root.counts idx ib inodes.1 unused
              set_only))

    pub at_most_12 : (i : ℕ) → length f ≤ 12 * block_size → i < blocks_of (length f) → i < 12
    unfolding blocks_of
    at_most_12 i small lt = omega arith

    -- The blocks of the file were free and are marked, and just as many are in use now.
    pub blocks_marked :
        (i : ℕ)
        → i < blocks_of (length f)
        → (bm_get (meta_of v).bb (le32 fi2 (i_block i)) ≡ false)
          × (bm_get (meta_of result).bb (le32 fi2 (i_block i)) ≡ true)
    unfolding count_inodes
    blocks_marked i lt =
        let (lo, hi) = out.place i (omega arith) (omega arith) in
        let most = root.ram.most in
        (
          out.fresh i (omega arith) (omega arith),
          bm_get_agree (meta_of result).bb m2.bb _ bitmap_kept (omega arith)
              ∙ out.used i (omega arith) (omega arith),
        )

    pub blocks_counted :
        count (bm_get (meta_of result).bb) tb
        ≡ count (bm_get (meta_of v).bb) tb + blocks_of (length f)
    unfolding count_inodes
    blocks_counted =
        let most = root.ram.most in
        count-eq (bm_get (meta_of result).bb) (bm_get m2.bb) tb
          (λ j lt. bm_get_agree (meta_of result).bb m2.bb j bitmap_kept (omega arith))
        ∙ out.counted

    pub result-IsRoot :
        bm_get (meta_of v).ib idx ≡ false
        → ((j : ℕ) → bm_get ib j ≡ (if idx == j then true else bm_get (meta_of v).ib j))
        → IsBitmap ib
        → Holds blk 0 (es ++ ((suc idx, base) ∷ []))
        → IsRoot tb (es ++ ((suc idx, base) ∷ [])) result
    unfolding LowUsed is_dir Agree count_inodes
    result-IsRoot unused set_only inode_map entries = record {
      ram = result-IsRam;
      magic = magic_kept;
      bitmap = record { byte = λ k lt. rw (bitmap_kept k lt) (out.bitmap.byte k lt) };
      inode_map = record {
        byte = λ k lt.
            rw (past_inode 4 k (inl (omega arith)) lt, put_meta-ib m2 w1 k lt, out.inodes)
              (inode_map.byte k lt);
      };
      low = λ j lt. stays_in_use j (omega arith) (root.low j lt);
      dir =
          let kept : le16 (inode_byte result 1) i_mode ≡ le16 (inode_byte v 1) i_mode =
            le16-Agree (inode_byte result 1) (inode_byte v 1) i_mode
              (λ k a b. root_inode k (omega arith)) in
          rw kept root.dir;
      place = rw root_at_kept root.place;
      marked =
          rw root_at_kept
            (stays_in_use (root_at v) (omega (arith, root.place.1, root.ram.most)) root.marked);
      entries =
          rw root_at_kept
            (Holds-agree blk (at result.ram (root_at v * block_size)) _ 0 root_block_kept entries);
      reserved = λ j lt. ground (arith, inode_bits set_only j, root.reserved j lt);
      in_use =
          AllUsed-append (meta_of result).ib es idx base inodes.1
            (ground (arith, inode_bits set_only idx))
            (AllUsed-kept (meta_of v).ib (meta_of result).ib es
              (λ j lt used. ground (arith, inode_bits set_only j)) root.in_use);
      counts = counts_kept unused set_only;
    }

    -- The inode names the blocks that were written.
    pub inode_kept :
        (i : ℕ) → i < 12 → le32 (inode_byte result idx) (i_block i) ≡ le32 fi2 (i_block i)
    unfolding Agree
    inode_kept i lt =
        le32-Agree (inode_byte result idx) fi2 (i_block i)
          (λ k a b. put_inode-here (put_meta m2 w1) idx k fi2 inodes.1 (omega arith))

    pub result-HasFile :
        length f ≤ 12 * block_size
        → (h : HasFile hw result (suc idx) f) × (h.inode ≡ inode_byte result idx)
    unfolding is_file Agree
    result-HasFile small =
        let same =
          λ (k : ℕ) (lt : k < 128). put_inode-here (put_meta m2 w1) idx k fi2 inodes.1 lt in
        let mode : le16 (inode_byte result idx) i_mode ≡ 0x81A4 =
          le16-Agree (inode_byte result idx) fi2 i_mode (λ k a b. same k (omega arith))
          ∙ le16-Agree fi2 (file_inode zero_bytes (length f)) i_mode
              (λ k a b. out.outside k (inl (omega arith)))
          ∙ file_inode-is_file zero_bytes (length f) in
        (
          record {
            inode = inode_byte result idx;
            read = read_inode_ram hw result tb result-IsRam idx inodes.1;
            kind = rw mode refl;
            file =
                Written-FileOn hw tb f zero_bytes with_inode with_entry fi2 m2 w1 result
                  (inode_byte result idx) small out result-IsRam
                  (λ b k lo hi lt. kept_high b k (omega arith) lt) same;
          },
          refl,
        )
