-- ===== src/Ext2Vol/Create.antt =====
-- `chaseros_ext2_write_file` of kernel/fs/chaseros/chaseros_ext2_vol.c creates a file in the root
-- directory of a RAM volume.
use cnos.Prelude.{
  ℕ, suc, ◌+◌, ◌-◌, ◌*◌, ◌≤◌, ◌<◌, ◌≡◌, refl, sym, ap, ◌∙◌, subst, inl, inr, Bool, true, false,
  Option, none, some, List, [], ◌∷◌, ◌++◌, arith, ltb, ◌==◌, if◌then◌else◌, length,
}
use cnos.Ext2Vol.Ram.{put_block-IsRam}
use cnos.Ext2Vol.Store.{write_blocks-Written}
use native.Mathlib.Numerals.{add-one}
use cnos.Ext2Vol.NewFile.{
  with_inode, with_entry, write_file_lem, result-IsRoot, result-HasFile, inode_bits, inode_kept,
  at_most_12, blocks_marked, stays_in_use, blocks_counted,
}
use cnos.Path.Parent.{path_split_parent-path_of}
use cnos.Ext2Vol.Append.{add_entry-Holds, lookup-append_self}
use cnos.UserFd.Bytes.{slice}
use cnos.Ext2Vol.Allocs.{Allocates, alloc_block-Allocates, IsBitmap, none_free, lowest_free}
use cnos.Ext2Vol.Write.{ext2_write_file, count_inodes, alloc_inode, first_free_block, file_inode}
use cnos.Pmm.Count.{count}
use cnos.Ext2Vol.Dirent.{entry_size, find_in_root, max_entries}
use cnos.Ext2Vol.Bytes.{block_size, bm_get, Bytes, zero_bytes, le32, i_block}
use cnos.Path.Canonical.{path_of, join_stack}
use cnos.Ext2Vol.Files.{path_max, blocks_of, ext2_read_file_range}
use cnos.Path.{path_normalize, path_split_parent, slash}
use cnos.Ext2Vol.Entries.{NoNul, lookup, end_of, find_from-lookup}
use cnos.Ext2Vol.RootFile.{HasFile, ext2_read_file_range_lem}
use cnos.Path.Segments.{IsSegment, AllSegments}
use cnos.Ext2Vol.Root.{IsRoot, meta_of, root_dir, root_at}
use cnos.Ext2Vol.Volume.{Driver, Vol}

module _ {ℓ} {D : Type ℓ} (hw : Driver D) (tb : ℕ) (es : List (ℕ × List ℕ)) (v : Vol D)
    (path base f : List ℕ) where
  -- The volume after a new file: the root directory has its entry and the inode has its bytes; of
  -- the inodes just the new one, which was free, is marked in addition; the blocks of the file, which
  -- were free, are marked, those in use still are, and the number in use has grown by theirs.
  pub record Created (r : Option Bool × Vol D) : Type ℓ where
    pub ino : ℕ
    pub succeeds : r.0 ≡ some true
    pub root : IsRoot tb (es ++ ((suc ino, base) ∷ [])) r.1
    pub file : HasFile hw r.1 (suc ino) f
    pub was_free : bm_get (meta_of v).ib ino ≡ false
    pub inode_marked :
        (j : ℕ)
        → j < 8192
        → bm_get (meta_of r.1).ib j ≡ (if ino == j then true else bm_get (meta_of v).ib j)
    pub blocks_marked :
        (i : ℕ)
        → i < blocks_of (length f)
        → (bm_get (meta_of v).bb (le32 file.inode (i_block i)) ≡ false)
          × (bm_get (meta_of r.1).bb (le32 file.inode (i_block i)) ≡ true)
    pub blocks_kept :
        (b : ℕ) → b < 8192 → bm_get (meta_of v).bb b ≡ true → bm_get (meta_of r.1).bb b ≡ true
    pub blocks_counted :
        count (bm_get (meta_of r.1).bb) tb ≡ count (bm_get (meta_of v).bb) tb + blocks_of (length f)

  module _ (root : IsRoot tb es v) (seg : IsSegment base) (chars : NoNul base)
      (short : length base < 127)
      (normal : path_normalize path path_max ≡ some (path_of (base ∷ [])))
      (absent : lookup base es ≡ none) (small : length f ≤ 12 * block_size)
      (room : end_of 0 es + entry_size (length base) ≤ block_size)
      (enough : count (bm_get (meta_of v).bb) tb + blocks_of (length f) ≤ tb)
      (free : (j : ℕ) × (11 ≤ j) × (j < 128) × (bm_get (meta_of v).ib j ≡ false)) where
    missing : find_in_root (root_dir v) base ≡ none
    unfolding find_in_root
    missing =
        find_from-lookup (root_dir v) es base 0 max_entries root.entries (omega arith) ∙ absent

    split : path_split_parent (path_of (base ∷ [])) path_max 128 ≡ some (slash ∷ [], base)
    unfolding AllSegments path_of join_stack
    split = path_split_parent-path_of base [] path_max 128 (seg, tt) (omega arith) (omega arith)

    created :
        (idx : ℕ) (ib : Bytes)
        → alloc_inode (meta_of v).ib ≡ some (suc idx, ib)
        → 11 ≤ idx
        → idx < 128
        → bm_get (meta_of v).ib idx ≡ false
        → ((j : ℕ) → bm_get ib j ≡ (if idx == j then true else bm_get (meta_of v).ib j))
        → IsBitmap ib
        → Created (ext2_write_file hw path f v)
    unfolding count_inodes
    created idx ib new lo hi unused set_only bitmap =
        elim (add_entry-Holds (root_dir v) es (suc idx) base root.entries (omega arith) chars
          (omega arith)) [
            | inr (full, failed) ↦ absurd (omega arith)
            | inl (fits, blk, added, entries) ↦
                let m = with_inode hw tb es v root base f idx ib blk new (lo, hi) added in
                let u = with_entry hw tb es v root base f idx ib blk new (lo, hi) added in
                let (fi2, m2, w, blocks, out) =
                  write_blocks-Written hw tb f root.ram.most (blocks_of (length f)) 0
                    (file_inode zero_bytes (length f)) m u
                    (put_block-IsRam hw v tb root.ram (root_at v) blk) root.bitmap root.low
                    enough in
                let ran =
                  write_file_lem hw tb es v root base f idx ib blk new (lo, hi) added fi2 m2 w
                    blocks out path small normal split missing in
                let (has, named) =
                  result-HasFile hw tb es v root base f idx ib blk new (lo, hi) added fi2 m2 w
                    blocks out small in
                subst Created (sym ran) (record {
                  ino = idx;
                  succeeds = refl;
                  root =
                      result-IsRoot hw tb es v root base f idx ib blk new (lo, hi) added fi2 m2 w
                        blocks out unused set_only bitmap entries;
                  file = has;
                  was_free = unused;
                  inode_marked =
                      inode_bits hw tb es v root base f idx ib blk new (lo, hi) added fi2 m2 w
                        blocks out set_only;
                  blocks_marked = λ i lt.
                      let twelve =
                        at_most_12 hw tb es v root base f idx ib blk new (lo, hi) added fi2 m2 w
                          blocks out i small lt in
                      let same =
                        ap (λ x. le32 x (i_block i)) named
                        ∙ inode_kept hw tb es v root base f idx ib blk new (lo, hi) added fi2 m2 w
                            blocks out i twelve in
                      rw same (
                        blocks_marked hw tb es v root base f idx ib blk new (lo, hi) added fi2 m2 w
                          blocks out i lt);
                  blocks_kept =
                      stays_in_use hw tb es v root base f idx ib blk new (lo, hi) added fi2 m2 w
                        blocks out;
                  blocks_counted =
                      blocks_counted hw tb es v root base f idx ib blk new (lo, hi) added fi2 m2 w
                        blocks out;
                })
          ]

    created_in :
        (o : Option (ℕ × Bytes))
        → alloc_inode (meta_of v).ib ≡ o
        → Allocates (meta_of v).ib 11 128 1 o
        → Created (ext2_write_file hw path f v)
    created_in none e (none_free all) =
        let (j, lo, hi, unused) = free in absurd (ground (arith, all j lo hi))
    created_in (some (got, after)) e (lowest_free k ib lo hi unused used set_only bitmap) =
        created k ib (rw e (ap (λ n. some (n, ib)) (add-one k))) lo hi unused set_only bitmap

    -- `ext2_write_file` of a new file in the root directory of a RAM volume succeeds for at most
    -- twelve blocks of data and a name of at most 126 characters, where the directory has room for
    -- the entry and an inode and blocks enough are free: the root directory then holds one entry
    -- more, whose inode has the data; the inode and the blocks of the file were free and are marked
    -- in the bitmaps, no other inode is marked in addition, and as many blocks more are in use as the
    -- file has; and the volume is still well formed: the magic number, the blocks of the metadata and
    -- of the root directory, the reserved inodes and those of all entries marked, the four counts of
    -- free blocks and inodes right.
    pub ext2_write_file-Created : Created (ext2_write_file hw path f v)
    ext2_write_file-Created =
        created_in (alloc_inode (meta_of v).ib) refl
          (alloc_block-Allocates (meta_of v).ib first_free_block root.inode_map (omega arith)
            (omega arith)).1

    -- Under the same conditions, a read of the file afterwards, from an offset up to its end: it returns the bytes written,
    -- as many as the buffer holds or the file has left.
    pub ext2_read_file_range-ext2_write_file :
        (offset buf_sz : ℕ)
        → 0 < buf_sz
        → offset ≤ length f
        → let r = ext2_write_file hw path f v in
          (r.0 ≡ some true)
          × (ext2_read_file_range hw r.1 path offset buf_sz
              ≡ some (
                  slice f offset
                    (if ltb buf_sz (length f - offset) then buf_sz else length f - offset)))
    ext2_read_file_range-ext2_write_file offset buf_sz some_room inside =
        let c = ext2_write_file-Created in
        (
          c.succeeds,
          ext2_read_file_range_lem hw (ext2_write_file hw path f v).1 tb
              (es ++ ((suc c.ino, base) ∷ [])) path base c.ino f offset buf_sz c.root seg normal
              (lookup-append_self es (suc c.ino) base absent) c.file some_room inside,
        )
