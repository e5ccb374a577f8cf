-- ===== src/Ext2Vol/Formatted.antt =====
-- `chaseros_ext2_format` of kernel/fs/chaseros/chaseros_ext2_vol.c leaves a volume with a root
-- directory.
use cnos.Prelude.{ℕ, ◌*◌, ◌%◌, ◌≡◌, refl, sym, ap, subst, true, false, some, arith, ltb, leb, ◌==◌}
use cnos.Ext2Vol.Layout.{before_table, before_table-IsRam, lay_out_lem, formatted-LaidOut}
use cnos.Ext2Vol.FreshRoot.{IsFresh, LaidOut-IsFresh}
use cnos.Ext2Vol.Blank.{clear_table-IsRam}
use cnos.Ext2Vol.Bytes.{block_size, memcpy, zero_bytes}
use cnos.Ext2Vol.Ram.{IsRam, total_blocks_lem}
use cnos.Ext2Vol.Format.{ext2_format, cleared, lay_out}
use cnos.Ext2Vol.Volume.{Driver, vol_check, Vol, is_ram, is_none, min_bytes}

module _ {ℓ} {D : Type ℓ} (hw : Driver D) (tb : ℕ) where
  ram-vol_check : (v : Vol D) → IsRam v tb → vol_check v ≡ true
  unfolding vol_check is_none
  ram-vol_check v ram =
      let least = ram.least in
      let size : leb min_bytes (tb * block_size) ≡ true = ground arith in
      let whole : (tb * block_size % block_size == 0) ≡ true = ground arith in
      rw (ram.type, ram.size, size, whole) refl

  format_ran :
      (v x : Vol D)
      → IsRam v tb
      → lay_out hw tb (record v { ram = memcpy v.ram 0 zero_bytes v.size_bytes }) ≡ (some true, x)
      → ext2_format hw v ≡ (some true, x)
  unfolding ext2_format is_ram cleared
  format_ran v x ram ran =
      let least = ram.least in
      let most = ram.most in
      let few : ltb tb 256 ≡ false = ground arith in
      let many : ltb 8192 tb ≡ false = ground arith in
      let u = record v { ram = memcpy v.ram 0 zero_bytes v.size_bytes } in
      let clear : is_ram v.type ≡ true = ap is_ram ram.type in
      rw (total_blocks_lem hw v tb ram, ram-vol_check v ram, few, many, clear) ran

  -- `ext2_format` on a RAM volume of 256 to 8192 blocks succeeds, whatever it held before, and
  -- leaves a well-formed one, as `ext2_write_file` keeps it, whose root directory has the entries
  -- `.`, `..` and `lost+found` with inodes 2, 2 and 11. Just the first 23 blocks and 11 inodes are
  -- marked, the counts of free ones and of directories are right, and inode 11 is a directory whose
  -- block 22 holds `.` for inode 11 and `..` for inode 2.
  pub ext2_format-IsRoot :
      (v : Vol D) → IsRam v tb → let r = ext2_format hw v in (r.0 ≡ some true) × IsFresh tb r.1
  ext2_format-IsRoot v ram =
      let u = record v { ram = memcpy v.ram 0 zero_bytes v.size_bytes } in
      let c_ram : IsRam u tb = record {
        type = ram.type;
        size = ram.size;
        least = ram.least;
        most = ram.most;
      } in
      let (w, ran, w_ram, kept) =
        clear_table-IsRam hw tb 16 5 (before_table hw tb u c_ram) (before_table-IsRam hw tb u c_ram)
          (omega arith) in
      let all = format_ran v _ ram (lay_out_lem hw tb u c_ram w ran w_ram kept) in
      let laid_out = formatted-LaidOut hw tb u c_ram w ran w_ram kept in
      (ap (λ r. r.0) all, subst (λ r. IsFresh tb r.1) (sym all) (LaidOut-IsFresh tb _ laid_out))
