-- ===== src/Loader/Memory.antt =====
-- Copies within memory, byte by byte, of kernel/elf_load.c and kernel/fs/cnaf/cnab_load.c. An
-- address is a 64-bit number.
use cnos.Prelude.{
  ℕ, zero, suc, ◌+◌, ◌-◌, ◌%◌, Bool, true, false, Option, none, some, ltb, ◌==◌, if◌then◌else◌,
}
use cnos.Process.{update}
use cnos.Pmm.{u64}
use cnos.Ext2Vol.Bytes.{Bytes, memcpy}

unfoldable pub mem_copy : ℕ → Bytes → ℕ → ℕ → Bytes
mem_copy zero mem d s = mem
mem_copy (suc n) mem d s = mem_copy n (update mem d (mem s)) ((d + 1) % u64) ((s + 1) % u64)

unfoldable pub mem_zero : ℕ → Bytes → ℕ → Bytes
mem_zero zero mem d = mem
mem_zero (suc n) mem d = mem_zero n (update mem d 0) ((d + 1) % u64)

-- What a stream serves at an offset, as many bytes as asked for, or a failure.
abbrev pub Stream : Type 0
Stream = ℕ → ℕ → Option Bytes

unfoldable pub put_read : Bytes → ℕ → ℕ → Option Bytes → Option Bytes
put_read mem d n none = none
put_read mem d n (some b) = some (memcpy mem d b n)

abbrev pub chunk_max : ℕ
chunk_max = 2048

-- A failed read ends the loop with the memory as it is.
unfoldable pub go_on : Bytes → (Bytes → Bool × Bytes) → Option Bytes → Bool × Bytes
go_on mem next none = (false, mem)
go_on mem next (some m) = next m

-- The loop `while (remain > 0u)`, with the memory it leaves; a round takes one byte at least.
unfoldable pub stream_copy : ℕ → Stream → Bytes → ℕ → ℕ → ℕ → Bool × Bytes
stream_copy zero read mem d off remain = (true, mem)
stream_copy (suc fuel) read mem d off remain =
    let n = if ltb chunk_max remain then chunk_max else remain in
    let rest =
      λ (m : Bytes). stream_copy fuel read m ((d + n) % u64) ((off + n) % u64) (remain - n) in
    if remain == 0 then (true, mem) else go_on mem rest (put_read mem d n (read off n))
