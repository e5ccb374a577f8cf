-- ===== src/Loader/Elf.antt =====
-- kernel/elf_load.c: an ELF64 executable, in memory at the address `p` or behind a stream, is
-- loaded to the addresses that its program headers name. The headers are their bytes, at the
-- offsets of elf.h.
use cnos.Prelude.{
  ℕ, zero, suc, ◌+◌, ◌-◌, ◌*◌, ◌%◌, Bool, true, false, not, ◌&&◌, ◌||◌, Option, none, some, ltb,
  leb, ◌==◌, if◌then◌else◌,
}
use cnos.Loader.Package.{le64}
use cnos.Pmm.{u64}
use cnos.Loader.Memory.{Stream, mem_zero, stream_copy, mem_copy}
use cnos.Ext2Vol.Bytes.{Bytes, le16, le32, at}

-- What a loader returns: does it return 0, what `*out_entry` is set to, and the memory.
pub record Load : Type 0 where
  pub ok : Bool
  pub entry : Option ℕ
  pub mem : Bytes

abbrev pub ehdr_size : ℕ
ehdr_size = 64

abbrev pub phdr_size : ℕ
phdr_size = 56

abbrev pub e_entry : Bytes → ℕ
e_entry eh = le64 eh 24

abbrev pub e_phoff : Bytes → ℕ
e_phoff eh = le64 eh 32

abbrev pub e_phentsize : Bytes → ℕ
e_phentsize eh = le16 eh 54

abbrev pub e_phnum : Bytes → ℕ
e_phnum eh = le16 eh 56

abbrev pub p_type : Bytes → ℕ
p_type ph = le32 ph 0

abbrev pub p_offset : Bytes → ℕ
p_offset ph = le64 ph 8

abbrev pub p_vaddr : Bytes → ℕ
p_vaddr ph = le64 ph 16

abbrev pub p_filesz : Bytes → ℕ
p_filesz ph = le64 ph 32

abbrev pub p_memsz : Bytes → ℕ
p_memsz ph = le64 ph 40

-- The tests on the file header.
unfoldable pub ehdr_check : Bytes → ℕ → Bool
ehdr_check eh elf_size =
    (eh 0 == 127 && (eh 1 == 69 && (eh 2 == 76 && eh 3 == 70)))
    && ((eh 4 == 2 && eh 5 == 1)
        && ((le16 eh 16 == 2 && le16 eh 18 == 62)
            && leb ((e_phoff eh + e_phnum eh * e_phentsize eh) % u64) elf_size))

-- The address of the program header `i`.
unfoldable pub phdr_at : Bytes → ℕ → ℕ → ℕ
phdr_at mem p i = (p + e_phoff (at mem p) + i * e_phentsize (at mem p)) % u64

-- The bytes of the segment that the program header at `a` names, then zeros. The header is read
-- again once the bytes are copied.
unfoldable pub load_segment : Bytes → ℕ → ℕ → Bytes
load_segment mem p a =
    let ph = at mem a in
    let copied = mem_copy (p_filesz ph) mem (p_vaddr ph) ((p + p_offset ph) % u64) in
    let now = at copied a in
    if ltb (p_filesz now) (p_memsz now)
    then mem_zero (p_memsz now - p_filesz now) copied ((p_vaddr ph + p_filesz now) % u64)
    else copied

unfoldable pub outside_file : Bytes → ℕ → Bool
outside_file ph elf_size = ltb elf_size ((p_offset ph + p_filesz ph) % u64)

-- The loop over the program headers, which are read from memory as it is at the time.
unfoldable pub load_from : ℕ → ℕ → Bytes → ℕ → ℕ → Bool × Bytes
load_from zero i mem p elf_size = (true, mem)
load_from (suc fuel) i mem p elf_size =
    let a = phdr_at mem p i in
    let ph = at mem a in
    let loadable = p_type ph == 1 in
    let rest = load_from fuel (i + 1) (if loadable then load_segment mem p a else mem) p elf_size in
    if not (ltb i (e_phnum (at mem p)))
    then (true, mem)
    else (if loadable && outside_file ph elf_size then (false, mem) else rest)

unfoldable pub elf_load_flat : Bytes → ℕ → ℕ → Load
elf_load_flat mem p elf_size =
    let eh = at mem p in
    let (ok, after) = load_from 65536 0 mem p elf_size in
    if ltb elf_size ehdr_size || not (ehdr_check eh elf_size)
    then record { ok = false; entry = none; mem = mem }
    else record { ok = ok; entry = some (e_entry eh); mem = after }

-- The zeros behind the bytes that were streamed to `d`.
unfoldable pub zero_tail : Bytes → Bool × Bytes → Bool × Bytes
zero_tail ph (false, mem) = (false, mem)
zero_tail ph (true, mem) = (
  true,
  if ltb (p_filesz ph) (p_memsz ph)
      then mem_zero (p_memsz ph - p_filesz ph) mem ((p_vaddr ph + p_filesz ph) % u64)
      else mem,
)

unfoldable pub stream_segment : Stream → Bytes → Bytes → ℕ → Bool × Bytes
stream_segment read ph mem elf_size =
    if not (p_type ph == 1)
    then (true, mem)
    else (if outside_file ph elf_size
        then (false, mem)
        else zero_tail ph
            (stream_copy (p_filesz ph) read mem (p_vaddr ph) (p_offset ph) (p_filesz ph)))

unfoldable pub then_load : (Bytes → Bool × Bytes) → Bool × Bytes → Bool × Bytes
then_load next (false, mem) = (false, mem)
then_load next (true, mem) = next mem

unfoldable pub with_phdr : (Bytes → Bool × Bytes) → Bytes → Option Bytes → Bool × Bytes
with_phdr next mem none = (false, mem)
with_phdr next mem (some ph) = next ph

-- The header `eh` and the program header under way are copies on the stack.
unfoldable pub stream_from : ℕ → ℕ → Stream → Bytes → Bytes → ℕ → Bool × Bytes
stream_from zero i read eh mem elf_size = (true, mem)
stream_from (suc n) i read eh mem elf_size =
    let po = (e_phoff eh + i * e_phentsize eh) % u64 in
    let rest = λ (m : Bytes). stream_from n (i + 1) read eh m elf_size in
    if ltb elf_size ((po + e_phentsize eh) % u64)
    then (false, mem)
    else with_phdr (λ ph. then_load rest (stream_segment read ph mem elf_size)) mem
        (read po (e_phentsize eh))

unfoldable pub stream_loaded : Bytes → Bool × Bytes → Load
stream_loaded eh (ok, mem) = record { ok = ok; entry = some (e_entry eh); mem = mem }

unfoldable pub stream_with : Stream → Bytes → ℕ → Option Bytes → Load
stream_with read mem elf_size none = record { ok = false; entry = none; mem = mem }
stream_with read mem elf_size (some eh) =
    if not (ehdr_check eh elf_size)
    then record { ok = false; entry = none; mem = mem }
    else (if ltb (e_phentsize eh) phdr_size || ltb 128 (e_phentsize eh)
        then record { ok = false; entry = some (e_entry eh); mem = mem }
        else stream_loaded eh (stream_from (e_phnum eh) 0 read eh mem elf_size))

unfoldable pub elf_load_flat_streaming : Stream → Bytes → ℕ → Load
elf_load_flat_streaming read mem elf_size =
    if ltb elf_size ehdr_size
    then record { ok = false; entry = none; mem = mem }
    else stream_with read mem elf_size (read 0 ehdr_size)
