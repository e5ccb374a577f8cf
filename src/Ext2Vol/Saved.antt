-- ===== src/Ext2Vol/Saved.antt =====
-- From the blocks that `chaseros_ext2_write_file` has written to the file on the volume, in
-- kernel/fs/chaseros/chaseros_ext2_vol.c: the metadata and the inode are written behind them.
use cnos.Prelude.{
  ℕ, ◌+◌, ◌-◌, ◌*◌, ◌/◌, ◌%◌, ◌^◌, ◌≤◌, ◌<◌, ◌≡◌, refl, sym, ap, ◌∙◌, subst, inl, true, some, List,
  arith, ltb, if◌then◌else◌, length, get_or,
}
use cnos.Ext2Vol.Range.{FileOn, BlockOf}
use cnos.Ext2Vol.Stored.{Written}
use cnos.Ext2Vol.Ram.{
  IsRam, put_block, block_byte, put_block-other, put_block-IsRam, write_ram, read_ram,
  put_block-here,
}
use cnos.Ext2Vol.Files.{blocks_of}
use cnos.Ext2Vol.Fields.{
  Agree, memcpy-inside, le32-Agree, put_le32-outside, put_le16-outside, le32-put_le32, le16-Agree,
  le16-put_le16,
}
use cnos.Ext2Vol.Inode.{Meta}
use cnos.Ext2Vol.Bytes.{
  block_size, Bytes, zero_bytes, le32, at, memcpy, i_size, put_le16, bytes_of, i_mode, put_le32,
  i_block, i_links_count, i_blocks, le16,
}
use cnos.Ext2Vol.Volume.{Driver, Vol}
use cnos.Ext2Vol.Write.{
  file_inode, chunk, write_meta, write_super, write_gd, first_free_block, run_then,
}

chunk_lem :
    (f : List ℕ) (i k : ℕ)
    → k < block_size
    → i * block_size + k < length f
    → chunk f i k ≡ get_or f (i * block_size + k) 0
unfolding chunk
chunk_lem f i k h inside =
    let n =
      if ltb (length f) (i * block_size + block_size)
      then length f - i * block_size
      else block_size in
    let fits : k < n = ground arith in
    ap (chunk f i) {x = k} {y = 0 + k} (omega arith)
    ∙ memcpy-inside zero_bytes (at (bytes_of f) (i * block_size)) 0 n k fits

file_inode-size : (fi : Bytes) (len : ℕ) → len < 2 ^ 32 → le32 (file_inode fi len) i_size ≡ len
unfolding file_inode Agree
file_inode-size fi len h =
    let fi0 = put_le16 fi i_mode 0x81A4 in
    let fi1 = put_le32 fi0 i_size (len % 2 ^ 32) in
    let whole : len % 2 ^ 32 ≡ len = omega arith in
    le32-Agree _ fi1 i_size (λ k a b.
      put_le32-outside (put_le16 fi1 i_links_count 1) i_blocks _ k (inl (omega arith))
      ∙ put_le16-outside fi1 i_links_count 1 k (inl (omega arith)))
    ∙ le32-put_le32 fi0 i_size (len % 2 ^ 32) (omega arith)
    ∙ whole

pub file_inode-is_file : (fi : Bytes) (len : ℕ) → le16 (file_inode fi len) i_mode ≡ 0x81A4
unfolding file_inode Agree
file_inode-is_file fi len =
    let fi0 = put_le16 fi i_mode 0x81A4 in
    let fi1 = put_le32 fi0 i_size (len % 2 ^ 32) in
    le16-Agree _ fi0 i_mode (λ k a b.
      put_le32-outside (put_le16 fi1 i_links_count 1) i_blocks _ k (inl (omega arith))
      ∙ put_le16-outside fi1 i_links_count 1 k (inl (omega arith))
      ∙ put_le32-outside fi0 i_size (len % 2 ^ 32) k (inl (omega arith)))
    ∙ le16-put_le16 fi i_mode 0x81A4 (omega arith)

module _ {ℓ} {D : Type ℓ} where
  -- The volume with the metadata written.
  abbrev pub put_meta : Meta → Vol D → Vol D
  put_meta m w =
      put_block
        (put_block
          (put_block (put_block w 1 (memcpy zero_bytes 0 m.sb block_size)) 2
            (memcpy zero_bytes 0 m.gd 32))
          3 m.bb)
        4 m.ib

  pub put_meta-IsRam : (tb : ℕ) (m : Meta) (w : Vol D) → IsRam w tb → IsRam (put_meta m w) tb
  put_meta-IsRam tb m w ram = record {
    type = ram.type;
    size = ram.size;
    least = ram.least;
    most = ram.most;
  }

  pub put_meta-kept :
      (m : Meta) (w : Vol D) (b k : ℕ)
      → 5 ≤ b
      → k < block_size
      → block_byte (put_meta m w) b k ≡ block_byte w b k
  put_meta-kept m w b k h lt =
      let b1 = memcpy zero_bytes 0 m.sb block_size in
      let b2 = memcpy zero_bytes 0 m.gd 32 in
      let w1 = put_block w 1 b1 in
      let w2 = put_block w1 2 b2 in
      put_block-other (put_block w2 3 m.bb) 4 b k m.ib lt (λ e. omega arith)
      ∙ put_block-other w2 3 b k m.bb lt (λ e. omega arith)
      ∙ put_block-other w1 2 b k b2 lt (λ e. omega arith)
      ∙ put_block-other w 1 b k b1 lt (λ e. omega arith)

  module _ (m : Meta) (w : Vol D) (k : ℕ) (inside : k < block_size) where
    abbrev with_sb : Vol D
    with_sb = put_block w 1 (memcpy zero_bytes 0 m.sb block_size)

    abbrev with_gd : Vol D
    with_gd = put_block with_sb 2 (memcpy zero_bytes 0 m.gd 32)

    abbrev with_bb : Vol D
    with_bb = put_block with_gd 3 m.bb

    pub put_meta-sb : block_byte (put_meta m w) 1 k ≡ m.sb k
    put_meta-sb =
        let b1 = memcpy zero_bytes 0 m.sb block_size in
        put_block-other with_bb 4 1 k m.ib inside (λ e. omega arith)
        ∙ put_block-other with_gd 3 1 k m.bb inside (λ e. omega arith)
        ∙ put_block-other with_sb 2 1 k (memcpy zero_bytes 0 m.gd 32) inside (λ e. omega arith)
        ∙ put_block-here w 1 k b1 inside
        ∙ ap b1 {x = k} {y = 0 + k} (omega arith)
        ∙ memcpy-inside zero_bytes m.sb 0 block_size k inside

    pub put_meta-gd : k < 32 → block_byte (put_meta m w) 2 k ≡ m.gd k
    put_meta-gd early =
        let b2 = memcpy zero_bytes 0 m.gd 32 in
        put_block-other with_bb 4 2 k m.ib inside (λ e. omega arith)
        ∙ put_block-other with_gd 3 2 k m.bb inside (λ e. omega arith)
        ∙ put_block-here with_sb 2 k b2 inside
        ∙ ap b2 {x = k} {y = 0 + k} (omega arith)
        ∙ memcpy-inside zero_bytes m.gd 0 32 k early

    pub put_meta-bb : block_byte (put_meta m w) 3 k ≡ m.bb k
    put_meta-bb =
        put_block-other with_bb 4 3 k m.ib inside (λ e. omega arith)
        ∙ put_block-here with_gd 3 k m.bb inside

    pub put_meta-ib : block_byte (put_meta m w) 4 k ≡ m.ib k
    put_meta-ib = put_block-here with_bb 4 k m.ib inside

module _ {ℓ} {D : Type ℓ} (hw : Driver D) (tb : ℕ) where
  -- The file's blocks as `write_blocks` has left them, on a volume that has kept them and under an
  -- inode that has kept its 128 bytes.
  pub Written-FileOn :
      (f : List ℕ) (fi : Bytes) (m : Meta) (v : Vol D) (fi2 : Bytes) (m2 : Meta) (w w2 : Vol D)
      (x : Bytes)
      → length f ≤ 12 * block_size
      → Written tb f (blocks_of (length f)) 0 (file_inode fi (length f)) m v fi2 m2 w
      → IsRam w2 tb
      → ((b k : ℕ)
          → first_free_block ≤ b
          → b < tb
          → k < block_size
          → block_byte w2 b k ≡ block_byte w b k)
      → ((k : ℕ) → k < 128 → x k ≡ fi2 k)
      → FileOn hw w2 x f
  unfolding Agree blocks_of
  Written-FileOn f fi m v fi2 m2 w w2 x small written ram same same_inode = record {
    size =
        le32-Agree x fi2 i_size (λ k a b. same_inode k (omega arith))
        ∙ le32-Agree fi2 (file_inode fi (length f)) i_size
            (λ k a b. written.outside k (inl (omega arith)))
        ∙ file_inode-size fi (length f) (omega arith);
    small = small;
    blocks = λ i inside.
        let in_file : i < 0 + (length f + block_size - 1) % 2 ^ 32 / block_size = omega arith in
        let bn = le32 fi2 (i_block i) in
        let named : le32 x (i_block i) ≡ bn =
          le32-Agree x fi2 (i_block i) (λ k a b. same_inode k (omega arith)) in
        let (lo, hi) = written.place i (omega arith) in_file in
        subst (BlockOf hw w2 f i) (sym named) (record {
          block = at w2.ram (bn * block_size);
          used = ground arith;
          read = read_ram hw w2 tb ram bn hi;
          bytes = λ k lt here.
              same bn k lo hi lt
              ∙ written.stored i k (omega arith) in_file lt
              ∙ chunk_lem f i k lt here;
        });
  }

  pub write_meta_ram :
      (m : Meta) (w : Vol D) → IsRam w tb → write_meta hw m w ≡ (some true, put_meta m w)
  unfolding write_meta write_super write_gd run_then
  write_meta_ram m w ram =
      let b1 = memcpy zero_bytes 0 m.sb block_size in
      let b2 = memcpy zero_bytes 0 m.gd 32 in
      let w1 = put_block w 1 b1 in
      let w2 = put_block w1 2 b2 in
      let w3 = put_block w2 3 m.bb in
      let r1 = put_block-IsRam hw w tb ram 1 b1 in
      let r2 = put_block-IsRam hw w1 tb r1 2 b2 in
      let r3 = put_block-IsRam hw w2 tb r2 3 m.bb in
      let least = ram.least in
      rw
        (
          write_ram hw w tb ram 1 b1 (omega arith),
          write_ram hw w1 tb r1 2 b2 (omega arith),
          write_ram hw w2 tb r2 3 m.bb (omega arith),
          write_ram hw w3 tb r3 4 m.ib (omega arith),
        )
        refl
