-- ===== src/Ext2Vol/Inodes.antt =====
-- `read_inode` and `write_inode` of kernel/fs/chaseros/chaseros_ext2_vol.c on a RAM volume.
use cnos.Prelude.{
  ℕ, suc, ◌+◌, ◌*◌, ◌%◌, ◌^◌, ◌≤◌, ◌<◌, ◌≡◌, refl, ◌∙◌, subst, ◌≢◌, ◌⊎◌, inl, inr, true, some,
  arith, ltb, ◌==◌, ltb→lt, ==_iff, Bool-cases,
}
use cnos.Ext2Vol.Fields.{memcpy-inside, memcpy-outside}
use cnos.Ext2Vol.Write.{write_inode, run_then, minus32}
use cnos.Ext2Vol.Bytes.{Bytes, block_size, memcpy, at}
use cnos.Ext2Vol.Ram.{
  IsRam, block_byte, put_block-other, put_block-here, put_block, read_ram, put_block-IsRam,
  write_ram,
}
use cnos.Ext2Vol.Inode.{inode_block, inode_off, read_inode}
use cnos.Ext2Vol.Volume.{Vol, Driver}

pub inode_block_bounds :
    (idx : ℕ)
    → idx < 128
    → (5 ≤ inode_block idx) × ((inode_block idx ≤ 20) × (inode_off idx + 128 ≤ block_size))
unfolding inode_block inode_off
inode_block_bounds idx h = (omega arith, (omega arith, omega arith))

-- Two inodes of one block are 128 bytes apart at least.
inodes_apart :
    (i j : ℕ)
    → i < 128
    → j < 128
    → i ≢ j
    → inode_block i ≡ inode_block j
    → (inode_off j + 128 ≤ inode_off i) ⊎ (inode_off i + 128 ≤ inode_off j)
unfolding inode_block inode_off
inodes_apart i j a b ne same = elim (Bool-cases (ltb i j)) [
  | inl below ↦ let lt : i < j = ltb→lt _ _ below in inr (omega arith)
  | inr above ↦ elim (Bool-cases (ltb j i)) [
    | inl lt ↦ let gt : j < i = ltb→lt _ _ lt in inl (omega arith)
    | inr ge ↦ absurd (ne (ground arith))
  ]
]

module _ {ℓ} {D : Type ℓ} where
  -- The byte `k` of the inode `idx + 1`.
  abbrev pub inode_byte : Vol D → ℕ → ℕ → ℕ
  inode_byte v idx k = block_byte v (inode_block idx) (inode_off idx + k)

  abbrev pub put_inode : Vol D → ℕ → Bytes → Vol D
  put_inode v idx inode =
      put_block v (inode_block idx)
        (memcpy (at v.ram (inode_block idx * block_size)) (inode_off idx) inode 128)

  pub put_inode-here :
      (v : Vol D) (idx k : ℕ) (inode : Bytes)
      → idx < 128
      → k < 128
      → inode_byte (put_inode v idx inode) idx k ≡ inode k
  put_inode-here v idx k inode h lt =
      let (lo, (hi, fits)) = inode_block_bounds idx h in
      put_block-here v (inode_block idx) (inode_off idx + k) _ (omega arith)
      ∙ memcpy-inside (at v.ram (inode_block idx * block_size)) inode (inode_off idx) 128 k lt

  pub put_inode-other :
      (v : Vol D) (i j k : ℕ) (inode : Bytes)
      → i < 128
      → j < 128
      → k < 128
      → i ≢ j
      → inode_byte (put_inode v i inode) j k ≡ inode_byte v j k
  put_inode-other v i j k inode a b lt ne =
      let (lo, (hi, fits)) = inode_block_bounds j b in
      elim (Bool-cases (inode_block i == inode_block j)) [
        | inr apart ↦
            put_block-other v (inode_block i) (inode_block j) (inode_off j + k) _ (omega arith)
              (λ e. ground (arith, e))
        | inl same ↦
            let e : inode_block i ≡ inode_block j = (==_iff _ _).0 same in
            let gap = inodes_apart i j a b ne e in
            let outside : (inode_off j + k < inode_off i) ⊎ (inode_off i + 128 ≤ inode_off j + k) =
              ground (arith, gap) in
            subst
              (λ blk.
                block_byte (put_inode v i inode) blk (inode_off j + k)
                ≡ block_byte v blk (inode_off j + k))
              e
              (put_block-here v (inode_block i) (inode_off j + k) _ (omega arith)
                ∙ memcpy-outside (at v.ram (inode_block i * block_size)) inode (inode_off i) 128
                    (inode_off j + k) outside)
      ]

  module _ (hw : Driver D) (v : Vol D) (tb : ℕ) (ram : IsRam v tb) where
    pub read_inode_ram : (idx : ℕ) → idx < 128 → read_inode hw v (suc idx) ≡ some (inode_byte v idx)
    unfolding read_inode cnos.Ext2Vol.Inode.◌>>=◌
    read_inode_ram idx h =
        let (lo, (hi, fits)) = inode_block_bounds idx h in
        let least = ram.least in rw (read_ram hw v tb ram (inode_block idx) (omega arith)) refl

    pub write_inode_ram :
        (idx : ℕ) (inode : Bytes)
        → idx < 128
        → write_inode hw (suc idx) inode v ≡ (some true, put_inode v idx inode)
    unfolding write_inode run_then
    write_inode_ram idx inode h =
        let (lo, (hi, fits)) = inode_block_bounds idx h in
        let least = ram.least in
        let back : (suc idx + minus32) % 2 ^ 32 ≡ idx = omega arith in
        rw (back, read_ram hw v tb ram (inode_block idx) (omega arith))
          (write_ram hw v tb ram (inode_block idx) _ (omega arith))

  -- `write_inode` on a RAM volume succeeds for each inode of the table; `read_inode` then returns
  -- the 128 bytes written, and the 128 bytes of every other inode are as they were.
  pub read_inode-write_inode :
      (hw : Driver D) (v : Vol D) (tb i j : ℕ) (inode : Bytes)
      → IsRam v tb
      → i < 128
      → j < 128
      → i ≢ j
      → let w = (write_inode hw (suc i) inode v).1 in
        ((write_inode hw (suc i) inode v).0 ≡ some true)
        × ((x : Bytes) × (y : Bytes) × (z : Bytes) × (read_inode hw w (suc i) ≡ some x)
            × (read_inode hw w (suc j) ≡ some y)
            × (read_inode hw v (suc j) ≡ some z)
            × ((k : ℕ) → k < 128 → (x k ≡ inode k) × (y k ≡ z k)))
  read_inode-write_inode hw v tb i j inode ram a b ne =
      let w = put_inode v i inode in
      let next =
        put_block-IsRam hw v tb ram (inode_block i)
          (memcpy (at v.ram (inode_block i * block_size)) (inode_off i) inode 128) in
      rw (write_inode_ram hw v tb ram i inode a) (
        refl,
        (
          inode_byte w i,
          inode_byte w j,
          inode_byte v j,
          read_inode_ram hw w tb next i a,
          read_inode_ram hw w tb next j b,
          read_inode_ram hw v tb ram j b,
          λ k lt. (put_inode-here v i k inode a lt, put_inode-other v i j k inode a b lt ne),
        ),
      )
