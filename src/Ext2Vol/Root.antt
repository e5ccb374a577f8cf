-- ===== src/Ext2Vol/Root.antt =====
-- A RAM volume with a root directory, as kernel/fs/chaseros/chaseros_ext2_vol.c formats and keeps
-- it.
use cnos.Prelude.{ℕ, ◌+◌, ◌*◌, ◌≤◌, ◌<◌, ◌≡◌, refl, ◌∙◌, true, some, List, [], ◌∷◌, arith, length}
use cnos.Path.{eq_string, slash}
use cnos.Ext2Vol.Counts.{Counted, AllUsed}
use cnos.Ext2Vol.Store.{LowUsed}
use cnos.Ext2Vol.Dirent.{entry_size}
use cnos.Ext2Vol.Append.{EntryAt-Agree}
use cnos.Ext2Vol.Allocs.{IsBitmap}
use cnos.Ext2Vol.Inodes.{inode_byte, read_inode_ram}
use cnos.Ext2Vol.Ram.{IsRam, read_ram}
use cnos.Ext2Vol.Bytes.{
  Bytes, le32, at, block_size, le16, i_block, s_magic, ext2_super_magic, bm_get,
}
use cnos.Ext2Vol.Inode.{
  Meta, ensure, read_meta, read_super, read_gd, is_dir, open_parent, lookup_final,
}
use cnos.Ext2Vol.Fields.{Agree}
use cnos.Ext2Vol.Entries.{Holds}
use cnos.Ext2Vol.Volume.{Driver, Vol}

pub Holds-agree :
    (b c : Bytes) (es : List (ℕ × List ℕ)) (pos : ℕ)
    → ((k : ℕ) → k < block_size → c k ≡ b k)
    → Holds b pos es
    → Holds c pos es
unfolding Holds Agree
Holds-agree b c [] pos same h = λ k lo hi. same k hi ∙ h k lo hi
Holds-agree b c ((ino, n) ∷ es) pos same (e, h) =
    let inside = e.inside in
    (
      EntryAt-Agree b c pos ino n (λ k lo hi. same k (omega arith)) e,
      Holds-agree b c es (pos + entry_size (length n)) same h,
    )

module _ {ℓ} {D : Type ℓ} where
  -- The address of the root directory's block.
  abbrev pub root_at : Vol D → ℕ
  root_at v = le32 (inode_byte v 1) (i_block 0)

  abbrev pub root_dir : Vol D → Bytes
  root_dir v = at v.ram (root_at v * block_size)

  -- The blocks 1 to 4, which `read_meta` returns.
  abbrev pub meta_of : Vol D → Meta
  meta_of v = record {
    sb = at v.ram (1 * block_size);
    gd = at v.ram (2 * block_size);
    bb = at v.ram (3 * block_size);
    ib = at v.ram (4 * block_size);
  }

  -- A formatted RAM volume of `tb` blocks whose root directory holds the entries `es`: the blocks of
  -- the metadata and of the root directory, the reserved inodes and those of the entries are marked
  -- in the bitmaps, and the counts of free ones are right.
  pub record IsRoot (tb : ℕ) (es : List (ℕ × List ℕ)) (v : Vol D) : Type ℓ where
    pub ram : IsRam v tb
    pub magic : le16 (meta_of v).sb s_magic ≡ ext2_super_magic
    pub bitmap : IsBitmap (meta_of v).bb
    pub inode_map : IsBitmap (meta_of v).ib
    pub low : LowUsed (meta_of v).bb
    pub dir : is_dir (inode_byte v 1) ≡ true
    pub place : (21 ≤ root_at v) × (root_at v < tb)
    pub marked : bm_get (meta_of v).bb (root_at v) ≡ true
    pub entries : Holds (root_dir v) 0 es
    pub reserved : (j : ℕ) → j < 11 → bm_get (meta_of v).ib j ≡ true
    pub in_use : AllUsed (meta_of v).ib es
    pub counts : Counted tb (meta_of v)

  module _ (hw : Driver D) (v : Vol D) (tb : ℕ) (ram : IsRam v tb) where
    pub read_super_ram :
        le16 (at v.ram (1 * block_size)) s_magic ≡ ext2_super_magic
        → read_super hw v ≡ some (at v.ram (1 * block_size))
    unfolding read_super cnos.Ext2Vol.Inode.◌>>=◌ ensure
    read_super_ram magic =
        let least = ram.least in rw (read_ram hw v tb ram 1 (omega arith), magic) refl

    pub read_meta_ram :
        le16 (at v.ram (1 * block_size)) s_magic ≡ ext2_super_magic
        → read_meta hw v ≡ some (meta_of v)
    unfolding read_meta read_gd cnos.Ext2Vol.Inode.◌>>=◌
    read_meta_ram magic =
        let least = ram.least in
        rw
          (
            read_super_ram magic,
            read_ram hw v tb ram 2 (omega arith),
            read_ram hw v tb ram 3 (omega arith),
            read_ram hw v tb ram 4 (omega arith),
          )
          refl

  -- The lookup of `/`.
  pub root_opened :
      (hw : Driver D) (v : Vol D) (tb : ℕ) (es : List (ℕ × List ℕ))
      → IsRoot tb es v
      → open_parent hw v (slash ∷ []) ≡ some (2, inode_byte v 1, root_dir v)
  unfolding open_parent lookup_final ensure eq_string cnos.Ext2Vol.Inode.◌>>=◌
  root_opened hw v tb es root =
      rw
        (
          read_inode_ram hw v tb root.ram 1 (omega arith),
          root.dir,
          read_ram hw v tb root.ram (root_at v) root.place.1,
        )
        refl
