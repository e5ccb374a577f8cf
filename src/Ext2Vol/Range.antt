-- ===== src/Ext2Vol/Range.antt =====
-- `chaseros_ext2_read_file_range` of kernel/fs/chaseros/chaseros_ext2_vol.c copies a file's bytes.
use cnos.Prelude.{
  ℕ, zero, suc, ◌+◌, ◌-◌, ◌*◌, ◌/◌, ◌%◌, ◌^◌, ◌≤◌, ◌<◌, ◌≡◌, refl, sym, ap, ◌∙◌, ◌⊎◌, inl, inr,
  true, false, ◌&&◌, some, List, ◌∷◌, arith, ltb, leb, ◌==◌, if◌then◌else◌, Bool-cases, length,
  get_or,
}
use cnos.UserFd.Bytes.{slice}
use cnos.Path.{take}
use cnos.Ext2Vol.Volume.{Driver, Vol, vol_read_blk}
use cnos.Ext2Vol.Bytes.{Bytes, le32, block_size, i_size, bytes_of, i_block}
use cnos.Ext2Vol.Window.{window, before, window-nil, length-window, window-slice, window-append}
use cnos.Ext2Vol.Files.{copy_block, copy_blocks, read_range, blocks_of}

copy_block-window :
    (n : ℕ) (g tmp : Bytes) (j cursor offset copied most : ℕ)
    → ((k : ℕ) → j ≤ k → k < j + n → tmp k ≡ g (cursor + k))
    → copied ≡ before (cursor + j) offset most
    → copy_block n tmp j cursor offset copied most ≡ window n g (cursor + j) offset (offset + most)
unfolding copy_block window
copy_block-window zero g tmp j cursor offset copied most same count = refl
copy_block-window (suc n) g tmp j cursor offset copied most same count =
    let next : cursor + j + 1 ≡ cursor + (j + 1) = omega arith in
    let later = λ (k : ℕ) (a : j + 1 ≤ k) (b : k < j + 1 + n). same k (omega arith) (omega arith) in
    elim (Bool-cases (leb most copied)) [
      | inl done ↦
          let ended : (offset + most ≤ cursor + j)
              ⊎ ((offset + most ≤ offset) ⊎ (cursor + j + suc n ≤ offset)) =
            ground arith in
          let shut = window-nil (suc n) g (cursor + j) offset (offset + most) ended in
          rw done (sym shut)
      | inr more ↦ elim (Bool-cases (ltb (cursor + j) offset)) [
        | inl skip ↦
            let miss : (leb offset (cursor + j) && ltb (cursor + j) (offset + most)) ≡ false =
              ground arith in
            let ih =
              copy_block-window n g tmp (j + 1) cursor offset copied most later (ground arith) in
            rw (more, skip, miss, next) ih
        | inr take_it ↦
            let hit : (leb offset (cursor + j) && ltb (cursor + j) (offset + most)) ≡ true =
              ground arith in
            let ih =
              copy_block-window n g tmp (j + 1) cursor offset (copied + 1) most later
                (ground arith) in
            rw (more, take_it, hit, next, same j (omega arith) (omega arith))
              (ap (◌∷◌ (g (cursor + j))) ih)
      ]
    ]

module _ {ℓ} {D : Type ℓ} (hw : Driver D) (v : Vol D) where
  -- The volume's block `bn` holds the file's bytes from `1024 * i` on.
  pub record BlockOf (f : List ℕ) (i bn : ℕ) : Type ℓ where
    pub block : Bytes
    pub used : (bn == 0) ≡ false
    pub read : vol_read_blk hw v bn ≡ some block
    pub bytes :
        (k : ℕ)
        → k < block_size
        → i * block_size + k < length f
        → block k ≡ get_or f (i * block_size + k) 0

  -- The inode `fi` is that of a file with the bytes `f`, whose blocks are on the volume.
  pub record FileOn (fi : Bytes) (f : List ℕ) : Type ℓ where
    pub size : le32 fi i_size ≡ length f
    pub small : length f ≤ 12 * block_size
    pub blocks : (i : ℕ) → i * block_size < length f → BlockOf f i (le32 fi (i_block i))

  -- A round that reads the block `i` and the rounds after it.
  one_block :
      (left : ℕ) (fi : Bytes) (f : List ℕ) (i cursor blk_len offset copied most : ℕ)
      → FileOn fi f
      → cursor ≡ i * block_size
      → cursor < length f
      → copied ≡ before cursor offset most
      → leb most copied ≡ false
      → blk_len ≡ (if ltb (length f) (cursor + block_size) then length f - cursor else block_size)
      → ((count : ℕ)
          → count ≡ before (cursor + blk_len) offset most
          → copy_blocks hw v left fi (i + 1) (cursor + blk_len) offset count most
            ≡ some (
                window
                  (length f - (cursor + blk_len))
                  (bytes_of f)
                  (cursor + blk_len)
                  offset
                  (offset + most)))
      → copy_blocks hw v (suc left) fi i cursor offset copied most
        ≡ some (window (length f - cursor) (bytes_of f) cursor offset (offset + most))
  unfolding copy_blocks cnos.Ext2Vol.Inode.◌>>=◌
  one_block left fi f i cursor blk_len offset copied most file at_block more count open_end len ih =
      let b = file.blocks i (omega arith) in
      let inside : leb (length f) cursor ≡ false = ground arith in
      let fits : blk_len ≤ block_size = ground arith in
      let ends : cursor + blk_len ≤ length f = ground arith in
      let g = bytes_of f in
      let start : cursor + 0 ≡ cursor = omega arith in
      let part : copy_block blk_len b.block 0 cursor offset copied most
          ≡ window blk_len g cursor offset (offset + most) =
        copy_block-window blk_len g b.block 0 cursor offset copied most
          (λ k lo hi. b.bytes k (omega arith) (omega arith) ∙ ap (λ x. get_or f x 0) (omega arith))
          (rw start count)
        ∙ ap (λ p. window blk_len g p offset (offset + most)) start in
      let counted : copied + length (window blk_len g cursor offset (offset + most))
          ≡ before (cursor + blk_len) offset most =
        rw count (length-window blk_len g cursor offset most) in
      let split : blk_len + (length f - (cursor + blk_len)) ≡ length f - cursor = omega arith in
      rw (file.size, inside, open_end, b.used, b.read)
        (rw (sym len, part, ih _ counted)
          (ap some (
            window-append blk_len (length f - (cursor + blk_len)) g cursor offset (offset + most)
            ∙ ap (λ n. window n g cursor offset (offset + most)) split)))

  copy_blocks-window :
      (left : ℕ) (fi : Bytes) (f : List ℕ) (i cursor offset copied most : ℕ)
      → FileOn fi f
      → (cursor ≡ i * block_size) ⊎ (length f ≤ cursor)
      → length f ≤ i * block_size + left * block_size
      → copied ≡ before cursor offset most
      → copy_blocks hw v left fi i cursor offset copied most
        ≡ some (window (length f - cursor) (bytes_of f) cursor offset (offset + most))
  unfolding copy_blocks window
  copy_blocks-window zero fi f i cursor offset copied most file at_block enough count =
      let none_left : length f - cursor ≡ 0 = omega arith in rw none_left refl
  copy_blocks-window (suc left) fi f i cursor offset copied most file at_block enough count =
      let blk_len =
        if ltb (length f) (cursor + block_size) then length f - cursor else block_size in
      elim (Bool-cases (leb (length f) cursor)) [
        | inl ended ↦
            let none_left : length f - cursor ≡ 0 = ground arith in
            rw (file.size, ended, none_left) refl
        | inr inside ↦ elim (Bool-cases (leb most copied)) [
          | inl done ↦
              let shut =
                window-nil (length f - cursor) (bytes_of f) cursor offset (offset + most)
                  (ground arith) in
              rw (file.size, inside, done, shut) refl
          | inr more ↦
              let here : cursor ≡ i * block_size = ground arith in
              one_block left fi f i cursor blk_len offset copied most file here (ground arith) count
                more refl
                (λ c e.
                  copy_blocks-window left fi f (i + 1) (cursor + blk_len) offset c most file
                    (ground arith) (omega arith) e)
        ]
      ]

  -- A read of a file of at most 12 blocks, all of them on the volume, from an offset up to its end: it returns the
  -- file's bytes from there on, as many as the buffer holds or the file has left.
  pub read_range_lem :
      (fi : Bytes) (f : List ℕ) (offset buf_sz : ℕ)
      → FileOn fi f
      → offset ≤ length f
      → read_range hw v fi offset buf_sz
        ≡ some
            (slice f offset (if ltb buf_sz (length f - offset) then buf_sz else length f - offset))
  unfolding read_range blocks_of take
  read_range_lem fi f offset buf_sz file inside =
      let most = if ltb buf_sz (length f - offset) then buf_sz else length f - offset in
      let small = file.small in
      let n = (length f + block_size - 1) % 2 ^ 32 / block_size in
      let twelve : ltb 12 n ≡ false = ground arith in
      elim (Bool-cases (leb (length f) offset)) [
        | inl ended ↦ let empty : most ≡ 0 = ground arith in rw (file.size, ended) (rw empty refl)
        | inr more ↦
            let all : length f - 0 ≡ length f = omega arith in
            rw (file.size, more, twelve)
              (copy_blocks-window n fi f 0 0 offset 0 most file (inl (omega arith)) (omega arith)
                  (ground arith)
                ∙ ap some (rw all (window-slice f offset most (ground arith))))
      ]
