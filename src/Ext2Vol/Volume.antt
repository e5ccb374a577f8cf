-- ===== src/Ext2Vol/Volume.antt =====
-- The attached volume of kernel/fs/chaseros/chaseros_ext2_vol.c and its blocks. The IDE and AHCI
-- drivers are an interface on the devices' state `D`.
use cnos.Prelude.{
  ℕ, ◌+◌, ◌-◌, ◌*◌, ◌/◌, ◌%◌, ◌^◌, Bool, true, false, not, ◌&&◌, ◌||◌, Option, none, some, ltb, leb,
  ◌==◌, if◌then◌else◌,
}
use cnos.Ext2Vol.Bytes.{block_size, Bytes, at, memcpy}
use cnos.Pmm.{Pmm, free_contiguous, page_size, u64}

pub data VolType : Type 0 where
  no_vol ram_vol ide_vol ahci_vol : VolType

-- kernel/drivers: `none` and `false` are a result other than 0. A transfer is of the two sectors
-- from the given one on.
pub record Driver {ℓ} (D : Type ℓ) : Type ℓ where
  pub ide_capacity_sectors : D → ℕ → Option ℕ
  pub ide_read_sectors : D → ℕ → ℕ → Option Bytes
  pub ide_write_sectors : D → ℕ → ℕ → Bytes → Bool × D
  pub ahci_get_abar : D → Bool
  pub ahci_capacity_sectors : D → ℕ → Option ℕ
  pub ahci_read_sectors : D → ℕ → ℕ → Option Bytes
  pub ahci_write_sectors : D → ℕ → ℕ → Bytes → Bool × D

-- `chaseros_vol_t`, with what stands at `ram_base` and the devices.
pub record Vol {ℓ} (D : Type ℓ) : Type ℓ where
  pub type : VolType
  pub ram : Bytes
  pub size_bytes : ℕ
  pub ide_drive : ℕ
  pub ahci_port : ℕ
  pub dev : D

-- `g_vol`, `g_ram_alloc`, `g_ram_npages`, and the page allocator.
pub record Volumes {ℓ} (D : Type ℓ) : Type ℓ where
  g_vol : Vol D
  g_ram_alloc : ℕ
  g_ram_npages : ℕ
  pub pmm : Pmm

abbrev pub min_bytes : ℕ
min_bytes = 256 * 1024

-- `max_toy`.
abbrev pub max_bytes : ℕ
max_bytes = 8192 * 1024

unfoldable pub is_ram : VolType → Bool
is_ram ram_vol = true
is_ram t = false

unfoldable pub is_none : VolType → Bool
is_none no_vol = true
is_none t = false

-- What a drive of `sec` sectors serves, `none` where it is too small.
unfoldable pub device_bytes : ℕ → Option ℕ
device_bytes sec =
    let bytes = (sec * 512) / 1024 * 1024 in
    if ltb sec 512
    then none
    else (if ltb bytes min_bytes
        then none
        else some (if ltb max_bytes bytes then max_bytes else bytes))

abbrev sized : Option ℕ → Option ℕ
sized none = none
sized (some sec) = device_bytes sec

module _ {ℓ} {D : Type ℓ} where
  -- `ram_base = NULL` makes what stands there unreachable: every access asks for the type first.
  unfoldable pub no_volume : Vol D → Vol D
  no_volume v = record v { type = no_vol; size_bytes = 0 }

  unfoldable pub vol_init : Volumes D → Volumes D
  vol_init s = record s {
    g_vol = record (no_volume s.g_vol) { ide_drive = 0; ahci_port = 0 };
    g_ram_alloc = 0;
    g_ram_npages = 0;
  }

  unfoldable pub vol_current : Volumes D → Option (Vol D)
  vol_current s = if is_none s.g_vol.type then none else some s.g_vol

  unfoldable pub vol_detach_ram : Volumes D → Volumes D
  vol_detach_ram s = record s {
    pmm =
        if not (s.g_ram_alloc == 0) && not (s.g_ram_npages == 0)
        then free_contiguous s.g_ram_alloc s.g_ram_npages s.pmm
        else s.pmm;
    g_ram_alloc = 0;
    g_ram_npages = 0;
    g_vol = if is_ram s.g_vol.type then no_volume s.g_vol else s.g_vol;
  }

  unfoldable pub vol_detach_all : Volumes D → Volumes D
  vol_detach_all s = let s1 = vol_detach_ram s in record s1 { g_vol = no_volume s1.g_vol }

  -- `memory` is what stands at `base`.
  unfoldable pub vol_attach_ram : ℕ → Bytes → ℕ → Volumes D → Bool × Volumes D
  vol_attach_ram base memory size_bytes s =
      let nblk = (size_bytes / block_size) % 2 ^ 32 in
      let s1 = vol_detach_all s in
      if (base == 0) || (ltb size_bytes min_bytes || not (size_bytes % block_size == 0))
      then (false, s)
      else (if ltb nblk 256 || ltb 8192 nblk then (false, s) else (
        true,
        record s1 {
          g_vol = record s1.g_vol { type = ram_vol; ram = memory; size_bytes = size_bytes };
          g_ram_alloc = base;
          g_ram_npages = ((size_bytes + page_size - 1) % u64) / page_size;
        },
      ))

  unfoldable pub attach_device : (ℕ → Vol D → Vol D) → Option ℕ → Volumes D → Bool × Volumes D
  attach_device select none s = (false, s)
  attach_device select (some bytes) s =
      let s1 = vol_detach_all s in (true, record s1 { g_vol = select bytes s1.g_vol })

  unfoldable pub vol_attach_ide : Driver D → ℕ → Volumes D → Bool × Volumes D
  vol_attach_ide hw drive s =
      attach_device (λ bytes v. record v { type = ide_vol; size_bytes = bytes; ide_drive = drive })
        (sized (hw.ide_capacity_sectors s.g_vol.dev drive)) s

  unfoldable pub vol_attach_ahci : Driver D → ℕ → Volumes D → Bool × Volumes D
  vol_attach_ahci hw port s =
      if not (hw.ahci_get_abar s.g_vol.dev)
      then (false, s)
      else attach_device
          (λ bytes v. record v { type = ahci_vol; size_bytes = bytes; ahci_port = port })
          (sized (hw.ahci_capacity_sectors s.g_vol.dev port)) s

  unfoldable pub vol_check : Vol D → Bool
  vol_check v =
      not (is_none v.type) && (leb min_bytes v.size_bytes && v.size_bytes % block_size == 0)

  -- The tests that a transfer of block `blk` starts with.
  unfoldable pub in_volume : Vol D → ℕ → Bool
  in_volume v blk = vol_check v && leb ((blk + 1) % 2 ^ 32 * block_size) v.size_bytes

  unfoldable pub transfer_in : VolType → Driver D → Vol D → ℕ → Option Bytes
  transfer_in no_vol hw v blk = none
  transfer_in ram_vol hw v blk = some (at v.ram (blk * block_size))
  transfer_in ide_vol hw v blk = hw.ide_read_sectors v.dev v.ide_drive (blk * 2 % 2 ^ 32)
  transfer_in ahci_vol hw v blk =
      if hw.ahci_get_abar v.dev
      then hw.ahci_read_sectors v.dev v.ahci_port (blk * 2 % 2 ^ 32)
      else none

  unfoldable pub vol_read_blk : Driver D → Vol D → ℕ → Option Bytes
  vol_read_blk hw v blk = if in_volume v blk then transfer_in v.type hw v blk else none

  abbrev after : Vol D → Bool × D → Bool × Vol D
  after v (done, dev) = (done, record v { dev = dev })

  unfoldable pub transfer_out : VolType → Driver D → Vol D → ℕ → Bytes → Bool × Vol D
  transfer_out no_vol hw v blk buf = (false, v)
  transfer_out ram_vol hw v blk buf =
      (true, record v { ram = memcpy v.ram (blk * block_size) buf block_size })
  transfer_out ide_vol hw v blk buf =
      after v (hw.ide_write_sectors v.dev v.ide_drive (blk * 2 % 2 ^ 32) buf)
  transfer_out ahci_vol hw v blk buf =
      if hw.ahci_get_abar v.dev
      then after v (hw.ahci_write_sectors v.dev v.ahci_port (blk * 2 % 2 ^ 32) buf)
      else (false, v)

  unfoldable pub vol_write_blk : Driver D → Vol D → ℕ → Bytes → Bool × Vol D
  vol_write_blk hw v blk buf =
      if in_volume v blk then transfer_out v.type hw v blk buf else (false, v)

  unfoldable pub total_blocks_from_vol : Vol D → ℕ
  total_blocks_from_vol v = (v.size_bytes / block_size) % 2 ^ 32
