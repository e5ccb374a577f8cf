-- ===== src/Pmm/Boot/Tests.antt =====
-- `pmm_init` of kernel/pmm.c on a small memory map.
use cnos.Prelude.{ℕ, ◌<◌, ◌≡◌, refl, true, not, some, List, [], ◌∷◌, arith, ◌==◌, if◌then◌else◌}
use cnos.Pmm.Valid.{IsValid, pages}
use cnos.Pmm.Boot.{
  Entry, Framebuffer, max_addr, pmm_init, find_mmap, entries_from, mmap_at, entries_of,
}
use cnos.Pmm.Boot.Ready.{Apart, offered, reserved, pmm_init_lem}

-- Memory below 0x9f000, a reserved region, and 3 MiB from 1 MiB on.
abbrev memory_map : List Entry
memory_map =
    record { base = 0; length = 0x9f000; type = 1 }
    ∷ record { base = 0xf0000; length = 0x10000; type = 2 }
    ∷ record { base = 0x100000; length = 0x300000; type = 1 }
    ∷ []

abbrev screen : Framebuffer
screen = record { address = 0x3ff000; pitch = 64; height = 16 }

memory_map-Apart : Apart memory_map
unfolding Apart offered
memory_map-Apart = ((λ j h. ground arith), ((λ j h. ground arith), ((λ j h. ground arith), tt)))

pmm_init_example :
    let t = pmm_init memory_map 0x100000 0x120000 (some screen) in
    IsValid t
    × ((j : ℕ) → offered memory_map j ≡ true → j < t.total_pages)
    × ((j : ℕ)
        → j < t.total_pages
        → pages t j ≡ (
            if reserved t.total_pages 0x100000 0x120000 (some screen) j
            then true
            else not (offered memory_map j)))
unfolding max_addr
pmm_init_example =
    pmm_init_lem memory_map 0x100000 0x120000 (some screen) memory_map-Apart (omega arith)
      (omega arith) (omega arith)

-- A tag of another type, the memory map with one entry, and the last tag.
abbrev rd32 : ℕ → ℕ
rd32 a =
    if a == 8
    then 4
    else (if a == 12
        then 12
        else (if a == 24
            then 6
            else (if a == 28 then 40 else (if a == 32 then 24 else (if a == 56 then 1 else 0)))))

find_run : find_mmap 4 rd32 8 ≡ mmap_at 24
unfolding find_mmap
find_run = refl

entries_run :
    entries_of rd32 (λ a. if a == 40 then 4096 else 8192) 24
    ≡ record { base = 4096; length = 8192; type = 1 } ∷ []
unfolding entries_of entries_from
entries_run = refl
