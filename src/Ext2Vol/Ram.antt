-- ===== src/Ext2Vol/Ram.antt =====
-- The blocks of a RAM volume of kernel/fs/chaseros/chaseros_ext2_vol.c.
use cnos.Prelude.{
  ℕ, ◌+◌, ◌*◌, ◌%◌, ◌^◌, ◌≤◌, ◌<◌, ◌≡◌, refl, ap, ◌∙◌, ◌≢◌, ◌⊎◌, inl, inr, true, Option, some,
  arith, ltb, leb, ◌==◌, ltb→lt, Bool-cases,
}
use cnos.Ext2Vol.Fields.{memcpy-outside, memcpy-inside}
use cnos.Ext2Vol.Write.{write_blk, run_then, Io}
use cnos.Ext2Vol.Volume.{
  Vol, Driver, vol_read_blk, total_blocks_from_vol, in_volume, ram_vol, vol_write_blk, transfer_in,
  vol_check, transfer_out, is_none, min_bytes,
}
use cnos.Ext2Vol.Bytes.{block_size, Bytes, memcpy, at}

-- The steps of a `do` block, one after the other.
pub run_step {ℓ} :
    {D : Type ℓ} {A B : Type 0} {p : Option A × Vol D} {a : A} {w : Vol D} {r : Option B × Vol D}
    (k : A → Io D B)
    → p ≡ (some a, w)
    → k a w ≡ r
    → run_then k p ≡ r
unfolding run_then
run_step k e h = ap (run_then k) e ∙ h

blocks_apart :
    (blk other k : ℕ)
    → k < block_size
    → blk ≢ other
    → (other * block_size + k < blk * block_size)
      ⊎ (blk * block_size + block_size ≤ other * block_size + k)
blocks_apart blk other k h ne = elim (Bool-cases (ltb blk other)) [
  | inl below ↦ let lt : blk < other = ltb→lt _ _ below in inr (omega arith)
  | inr above ↦
      let le : other < blk = elim (Bool-cases (ltb other blk)) [
        | inl lt ↦ ltb→lt _ _ lt
        | inr ge ↦ absurd (ne (ground arith))
      ] in
      inl (omega arith)
]

module _ {ℓ} {D : Type ℓ} where
  -- A RAM volume of `tb` blocks.
  pub record IsRam (v : Vol D) (tb : ℕ) : Type ℓ where
    pub type : v.type ≡ ram_vol
    pub size : v.size_bytes ≡ tb * block_size
    pub least : 256 ≤ tb
    pub most : tb ≤ 8192

  -- The byte `k` of block `blk`.
  abbrev pub block_byte : Vol D → ℕ → ℕ → ℕ
  block_byte v blk k = v.ram (blk * block_size + k)

  abbrev pub put_block : Vol D → ℕ → Bytes → Vol D
  put_block v blk buf = record v { ram = memcpy v.ram (blk * block_size) buf block_size }

  module _ (hw : Driver D) (v : Vol D) (tb : ℕ) (is_ram_vol : IsRam v tb) where
    pub total_blocks_lem : total_blocks_from_vol v ≡ tb
    unfolding total_blocks_from_vol
    total_blocks_lem =
        let size = is_ram_vol.size in let most = is_ram_vol.most in rw size (omega arith)

    pub put_block-IsRam : (blk : ℕ) (buf : Bytes) → IsRam (put_block v blk buf) tb
    put_block-IsRam blk buf = record {
      type = is_ram_vol.type;
      size = is_ram_vol.size;
      least = is_ram_vol.least;
      most = is_ram_vol.most;
    }

    in_volume_lem : (blk : ℕ) → blk < tb → in_volume v blk ≡ true
    unfolding in_volume vol_check is_none
    in_volume_lem blk h =
        let least = is_ram_vol.least in
        let most = is_ram_vol.most in
        let low : leb min_bytes (tb * block_size) ≡ true = ground arith in
        let whole : (tb * block_size % block_size == 0) ≡ true = ground arith in
        let high : leb ((blk + 1) % 2 ^ 32 * block_size) (tb * block_size) ≡ true = ground arith in
        rw (is_ram_vol.type, is_ram_vol.size, low, whole, high) refl

    pub read_ram : (blk : ℕ) → blk < tb → vol_read_blk hw v blk ≡ some (at v.ram (blk * block_size))
    unfolding vol_read_blk transfer_in
    read_ram blk h = rw (in_volume_lem blk h, is_ram_vol.type) refl

    pub write_ram :
        (blk : ℕ) (buf : Bytes)
        → blk < tb
        → write_blk hw blk buf v ≡ (some true, put_block v blk buf)
    unfolding write_blk vol_write_blk transfer_out
    write_ram blk buf h = rw (in_volume_lem blk h, is_ram_vol.type) refl

  pub put_block-here :
      (v : Vol D) (blk k : ℕ) (buf : Bytes)
      → k < block_size
      → block_byte (put_block v blk buf) blk k ≡ buf k
  put_block-here v blk k buf h = memcpy-inside v.ram buf (blk * block_size) block_size k h

  pub put_block-other :
      (v : Vol D) (blk other k : ℕ) (buf : Bytes)
      → k < block_size
      → blk ≢ other
      → block_byte (put_block v blk buf) other k ≡ block_byte v other k
  put_block-other v blk other k buf h ne =
      memcpy-outside v.ram buf (blk * block_size) block_size (other * block_size + k)
        (blocks_apart blk other k h ne)
