-- ===== src/Ext2Vol/FreshRoot.antt =====
-- A volume with the blocks that `chaseros_ext2_format` of kernel/fs/chaseros/chaseros_ext2_vol.c lays
-- out is well formed.
use cnos.Prelude.{ℕ, ◌+◌, ◌*◌, ◌<◌, ◌≡◌, ap, ◌∙◌, true, List, [], ◌∷◌, arith, ltb}
use cnos.Ext2Vol.Allocs.{bm_get_agree}
use cnos.Ext2Vol.Blank.{
  bm_get-first_bits, count_below, root_inode_fields, lost_inode_fields, new_super-magic, new_counts,
}
use cnos.Ext2Vol.Bytes.{
  block_size, memcpy, zero_bytes, bm_get, i_block, at, s_magic, le16, le32, i_mode,
  bg_used_dirs_count,
}
use cnos.Ext2Vol.Counts.{Counted, Counted-agree, AllUsed}
use cnos.Ext2Vol.Entries.{Holds}
use cnos.Ext2Vol.Fields.{Agree, le32-Agree, le16-Agree, memcpy-inside}
use cnos.Ext2Vol.Format.{first_bits, new_super, new_gd, root_block, lost_found}
use cnos.Ext2Vol.Fresh.{dir_block-Holds}
use cnos.Ext2Vol.Inode.{Meta, is_dir}
use cnos.Ext2Vol.Inodes.{inode_byte}
use cnos.Ext2Vol.Ram.{IsRam, block_byte}
use cnos.Ext2Vol.Root.{meta_of, root_at, IsRoot, Holds-agree}
use cnos.Ext2Vol.Store.{LowUsed}
use cnos.Ext2Vol.Volume.{Vol}
use cnos.Ext2Vol.Write.{dir_inode, dir_block}
use cnos.Path.{dot}

-- `.`, `..` and `lost+found`.
abbrev pub first_entries : List (ℕ × List ℕ)
first_entries = (2, dot ∷ []) ∷ (2, dot ∷ dot ∷ []) ∷ (11, lost_found) ∷ []

module _ {ℓ} {D : Type ℓ} where
  -- The bytes of the blocks and of the two inodes.
  pub record LaidOut (tb : ℕ) (v : Vol D) : Type ℓ where
    pub ram : IsRam v tb
    pub super_block :
        (k : ℕ)
        → k < block_size
        → block_byte v 1 k ≡ memcpy zero_bytes 0 (new_super tb) block_size k
    pub group : (k : ℕ) → k < 32 → block_byte v 2 k ≡ new_gd tb k
    pub block_bits : (k : ℕ) → k < block_size → block_byte v 3 k ≡ first_bits 23 k
    pub inode_bits : (k : ℕ) → k < block_size → block_byte v 4 k ≡ first_bits 11 k
    pub root_inode : (k : ℕ) → k < 128 → inode_byte v 1 k ≡ dir_inode 3 21 k
    pub root_entries : (k : ℕ) → k < block_size → block_byte v 21 k ≡ root_block k
    pub lost_inode : (k : ℕ) → k < 128 → inode_byte v 10 k ≡ dir_inode 2 22 k
    pub lost_entries : (k : ℕ) → k < block_size → block_byte v 22 k ≡ dir_block 11 2 k

  -- A formatted volume with nothing on it: the root directory with `.`, `..` and `lost+found`, just
  -- the first 23 blocks and 11 inodes in use, and inode 11 of a directory in block 22 with the
  -- entries `.` for itself and `..` for the root.
  pub record IsFresh (tb : ℕ) (v : Vol D) : Type ℓ where
    pub root : IsRoot tb first_entries v
    pub blocks : (j : ℕ) → j < 8192 → bm_get (meta_of v).bb j ≡ ltb j 23
    pub inodes : (j : ℕ) → j < 8192 → bm_get (meta_of v).ib j ≡ ltb j 11
    pub dirs : le16 (meta_of v).gd bg_used_dirs_count ≡ 2
    pub lost_dir : is_dir (inode_byte v 10) ≡ true
    pub lost_place : le32 (inode_byte v 10) (i_block 0) ≡ 22
    pub lost_entries :
        Holds (at v.ram (22 * block_size)) 0 ((11, dot ∷ []) ∷ (2, dot ∷ dot ∷ []) ∷ [])

  module _ (tb : ℕ) (v : Vol D) (l : LaidOut tb v) where
    bits : (j : ℕ) → j < 8192 → bm_get (meta_of v).bb j ≡ ltb j 23
    bits j lt =
        bm_get_agree (meta_of v).bb (first_bits 23) j l.block_bits lt
        ∙ (bm_get-first_bits 23 j (omega arith)).1

    inode_bits_lem : (j : ℕ) → j < 8192 → bm_get (meta_of v).ib j ≡ ltb j 11
    inode_bits_lem j lt =
        bm_get_agree (meta_of v).ib (first_bits 11) j l.inode_bits lt
        ∙ (bm_get-first_bits 11 j (omega arith)).1

    abbrev laid_out : Meta
    laid_out = record { sb = new_super tb; gd = new_gd tb; bb = first_bits 23; ib = first_bits 11 }

    laid_out-Counted : Counted tb laid_out
    laid_out-Counted =
        let least = l.ram.least in
        let most = l.ram.most in
        let (b32, i32, b16, i16, dirs) = new_counts tb (omega arith) most in
        let blocks =
          count_below (bm_get (first_bits 23)) 23 tb (omega arith)
            (λ j lt. (bm_get-first_bits 23 j (omega arith)).1) in
        let inodes =
          count_below (bm_get (first_bits 11)) 11 128 (omega arith)
            (λ j lt. (bm_get-first_bits 11 j (omega arith)).1) in
        record {
          blocks32 = omega (arith, b32, blocks);
          blocks16 = omega (arith, b16, blocks);
          inodes32 = omega (arith, i32, inodes);
          inodes16 = omega (arith, i16, inodes);
        }

    super_lem : (k : ℕ) → k < block_size → (meta_of v).sb k ≡ new_super tb k
    super_lem k lt =
        l.super_block k lt
        ∙ ap (memcpy zero_bytes 0 (new_super tb) block_size) {x = k} {y = 0 + k} (omega arith)
        ∙ memcpy-inside zero_bytes (new_super tb) 0 block_size k lt

    counts_lem : Counted tb (meta_of v)
    counts_lem =
        Counted-agree tb laid_out (meta_of v) l.ram.most super_lem l.group l.block_bits l.inode_bits
          laid_out-Counted

    root_at_lem : root_at v ≡ 21
    unfolding Agree
    root_at_lem =
        le32-Agree (inode_byte v 1) (dir_inode 3 21) (i_block 0)
          (λ k a b. l.root_inode k (omega arith))
        ∙ root_inode_fields.1

    is_dir_lem :
        (i links blk : ℕ)
        → ((k : ℕ) → k < 128 → inode_byte v i k ≡ dir_inode links blk k)
        → is_dir (dir_inode links blk) ≡ true
        → is_dir (inode_byte v i) ≡ true
    unfolding is_dir Agree
    is_dir_lem i links blk same dir =
        let mode : le16 (inode_byte v i) i_mode ≡ le16 (dir_inode links blk) i_mode =
          le16-Agree (inode_byte v i) (dir_inode links blk) i_mode
            (λ k a b. same k (omega arith)) in
        rw mode dir

    LaidOut-IsRoot : IsRoot tb first_entries v
    unfolding Agree LowUsed AllUsed
    LaidOut-IsRoot =
        let least = l.ram.least in
        let used : (j : ℕ) → j < 11 → bm_get (meta_of v).ib j ≡ true =
          λ j lt. ground (arith, inode_bits_lem j) in
        record {
          ram = l.ram;
          magic =
              le16-Agree (meta_of v).sb (memcpy zero_bytes 0 (new_super tb) block_size) s_magic
                (λ k a b. l.super_block k (omega arith))
              ∙ new_super-magic tb;
          bitmap = record {
            byte =
                λ k lt. rw (l.block_bits k lt) ((bm_get-first_bits 23 0 (omega arith)).0.byte k lt);
          };
          inode_map = record {
            byte =
                λ k lt. rw (l.inode_bits k lt) ((bm_get-first_bits 11 0 (omega arith)).0.byte k lt);
          };
          low = λ j lt. ground (arith, bits j);
          dir = is_dir_lem 1 3 21 l.root_inode root_inode_fields.0;
          place = rw root_at_lem (omega arith, omega arith);
          marked = rw root_at_lem (ground (arith, bits 21));
          entries = rw root_at_lem (
              Holds-agree root_block (at v.ram (21 * block_size)) _ 0 l.root_entries
                (dir_block-Holds 0 0 (omega arith) (omega arith)).1);
          reserved = used;
          in_use = (
            omega arith,
            omega arith,
            used 1 (omega arith),
            (
              omega arith,
              omega arith,
              used 1 (omega arith),
              (omega arith, omega arith, used 10 (omega arith), tt),
            ),
          );
          counts = counts_lem;
        }

    pub LaidOut-IsFresh : IsFresh tb v
    unfolding Agree
    LaidOut-IsFresh =
        let least = l.ram.least in
        let (b32, i32, b16, i16, dirs) = new_counts tb (omega arith) l.ram.most in
        record {
          root = LaidOut-IsRoot;
          blocks = bits;
          inodes = inode_bits_lem;
          dirs =
              le16-Agree (meta_of v).gd (new_gd tb) bg_used_dirs_count
                (λ k a b. l.group k (omega arith))
              ∙ dirs;
          lost_dir = is_dir_lem 10 2 22 l.lost_inode lost_inode_fields.0;
          lost_place =
              le32-Agree (inode_byte v 10) (dir_inode 2 22) (i_block 0)
                (λ k a b. l.lost_inode k (omega arith))
              ∙ lost_inode_fields.1;
          lost_entries =
              Holds-agree (dir_block 11 2) (at v.ram (22 * block_size)) _ 0 l.lost_entries
                (dir_block-Holds 11 2 (omega arith) (omega arith)).0;
        }
