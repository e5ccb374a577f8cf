-- ===== src/Loader/Cnim.antt =====
-- kernel/fs/cnaf/cnab_load.c: a CNIM image is loaded to the addresses of its segments, and its
-- relative relocations are applied. The image stands at the address `p` or behind a stream.
use cnos.Prelude.{
  ℕ, zero, suc, ◌+◌, ◌-◌, ◌*◌, ◌/◌, ◌%◌, ◌^◌, Bool, true, false, not, ◌&&◌, ◌||◌, Option, none,
  some, ltb, leb, ◌==◌, if◌then◌else◌,
}
use cnos.Loader.Package.{le64}
use cnos.Pmm.{u64}
use cnos.Loader.Elf.{Load, with_phdr, then_load}
use cnos.Loader.Memory.{Stream, mem_zero, mem_copy, stream_copy}
use cnos.Ext2Vol.Bytes.{Bytes, le32, at, put_le32, le16}

abbrev pub cnim_size : ℕ
cnim_size = 64

abbrev pub segment_size : ℕ
segment_size = 40

abbrev pub rela_size : ℕ
rela_size = 24

abbrev pub entry_rva : Bytes → ℕ
entry_rva h = le64 h 16

abbrev pub image_base : Bytes → ℕ
image_base h = le64 h 24

abbrev pub segment_count : Bytes → ℕ
segment_count h = le32 h 32

abbrev pub rela_count : Bytes → ℕ
rela_count h = le32 h 36

abbrev pub segment_table : Bytes → ℕ
segment_table h = le64 h 40

abbrev pub rela_table : Bytes → ℕ
rela_table h = le64 h 48

-- `CNIM_MAGIC_U32`, version 1.0.
unfoldable pub cnim_check : Bytes → ℕ → Bool
cnim_check h image_size =
    le32 h 0 == 0x4D494E43
    && ((le16 h 4 == 1 && leb (le16 h 6) 0)
        && (le32 h 8 == cnim_size
            && leb ((segment_table h + segment_count h * segment_size) % u64) image_size))

abbrev pub file_offset : Bytes → ℕ
file_offset seg = le64 seg 0

abbrev pub virt_addr : Bytes → ℕ
virt_addr seg = le64 seg 8

abbrev pub file_size : Bytes → ℕ
file_size seg = le64 seg 16

abbrev pub mem_size : Bytes → ℕ
mem_size seg = le64 seg 24

-- The test that a segment fails.
unfoldable pub bad_segment : Bytes → ℕ → Bool
bad_segment seg image_size =
    ltb image_size ((file_offset seg + file_size seg) % u64) || ltb (mem_size seg) (file_size seg)

-- The segment at `a`: its bytes, then zeros up to its size in memory.
unfoldable pub place_segment : Bytes → ℕ → ℕ → Bytes
place_segment mem p a =
    let seg = at mem a in
    let copied = mem_copy (file_size seg) mem (virt_addr seg) ((p + file_offset seg) % u64) in
    let now = at copied a in
    mem_zero (mem_size now - file_size now) copied ((virt_addr seg + file_size now) % u64)

-- The loop over the table at `table`; the count is read from memory as it is at the time.
unfoldable pub place_from : ℕ → ℕ → Bytes → ℕ → ℕ → ℕ → Bool × Bytes
place_from zero i mem p table image_size = (true, mem)
place_from (suc fuel) i mem p table image_size =
    let a = (table + i * segment_size) % u64 in
    let rest = place_from fuel (i + 1) (place_segment mem p a) p table image_size in
    if not (ltb i (segment_count (at mem p)))
    then (true, mem)
    else (if bad_segment (at mem a) image_size then (false, mem) else rest)

-- `*site = v`, a store of 64 bits.
unfoldable pub put_le64 : Bytes → ℕ → ℕ → Bytes
put_le64 mem a v = put_le32 (put_le32 mem a (v % 2 ^ 32)) ((a + 4) % u64) (v / 2 ^ 32 % 2 ^ 32)

abbrev pub reloc_relative64 : ℕ
reloc_relative64 = 1

-- The loop over the relocations at `table`.
unfoldable pub rela_from : ℕ → ℕ → Bytes → ℕ → ℕ → Bool × Bytes
rela_from zero i mem p table = (true, mem)
rela_from (suc fuel) i mem p table =
    let h = at mem p in
    let rela = at mem ((table + i * rela_size) % u64) in
    let fixed =
      put_le64 mem ((image_base h + le64 rela 0) % u64) ((image_base h + le64 rela 8) % u64) in
    let rest = rela_from fuel (i + 1) fixed p table in
    if not (ltb i (rela_count h))
    then (true, mem)
    else (if le32 rela 16 == reloc_relative64 then rest else (false, mem))

unfoldable pub apply_rela : Bytes → ℕ → ℕ → Bool × Bytes
apply_rela mem p image_size =
    let h = at mem p in
    if rela_count h == 0
    then (true, mem)
    else (if ltb image_size ((rela_table h + rela_count h * rela_size) % u64)
        then (false, mem)
        else rela_from (2 ^ 32) 0 mem p ((p + rela_table h) % u64))

unfoldable pub entry_of : ℕ → Bool × Bytes → Load
entry_of p (false, mem) = record { ok = false; entry = none; mem = mem }
entry_of p (true, mem) = record {
  ok = true;
  entry = some ((image_base (at mem p) + entry_rva (at mem p)) % u64);
  mem = mem;
}

unfoldable pub cnim_load_flat : Bytes → ℕ → ℕ → Load
cnim_load_flat mem p image_size =
    let h = at mem p in
    if ltb image_size cnim_size || not (cnim_check h image_size)
    then record { ok = false; entry = none; mem = mem }
    else entry_of p (
        then_load (λ m. apply_rela m p image_size)
          (place_from (2 ^ 32) 0 mem p ((p + segment_table h) % u64) image_size))

unfoldable pub stream_zero : Bytes → Bool × Bytes → Bool × Bytes
stream_zero seg (false, mem) = (false, mem)
stream_zero seg (true, mem) =
    (true, mem_zero (mem_size seg - file_size seg) mem ((virt_addr seg + file_size seg) % u64))

-- The loop over the table `segs`, which is a copy on the stack, as the header is.
unfoldable pub stream_place : ℕ → ℕ → Stream → Bytes → Bytes → ℕ → Bool × Bytes
stream_place zero i read segs mem image_size = (true, mem)
stream_place (suc n) i read segs mem image_size =
    let seg = at segs (i * segment_size) in
    let rest = λ (m : Bytes). stream_place n (i + 1) read segs m image_size in
    if bad_segment seg image_size
    then (false, mem)
    else then_load rest (
        stream_zero seg
          (stream_copy (file_size seg) read mem (virt_addr seg) (file_offset seg) (file_size seg)))

unfoldable pub stream_entry : Bytes → Bool × Bytes → Load
stream_entry h (false, mem) = record { ok = false; entry = none; mem = mem }
stream_entry h (true, mem) =
    if rela_count h == 0
    then record { ok = true; entry = some ((image_base h + entry_rva h) % u64); mem = mem }
    else record { ok = false; entry = none; mem = mem }

unfoldable pub stream_image : Stream → Bytes → ℕ → Option Bytes → Load
stream_image read mem image_size none = record { ok = false; entry = none; mem = mem }
stream_image read mem image_size (some h) =
    if not (cnim_check h image_size) || ltb 16 (segment_count h)
    then record { ok = false; entry = none; mem = mem }
    else stream_entry h (
        with_phdr (λ segs. stream_place (segment_count h) 0 read segs mem image_size) mem
          (read (segment_table h) (segment_count h * segment_size)))

unfoldable pub cnim_load_streaming : Stream → Bytes → ℕ → Load
cnim_load_streaming read mem image_size =
    if ltb image_size cnim_size
    then record { ok = false; entry = none; mem = mem }
    else stream_image read mem image_size (read 0 cnim_size)
