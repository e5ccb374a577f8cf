-- ===== src/Vmm/Tests.antt =====
-- Runs of the page walk of kernel/vmm.c on a small page table, and the theorems at it.
use cnos.Prelude.{
  ℕ, ◌+◌, ◌*◌, ◌^◌, ◌≡◌, refl, inl, true, false, some, [], ◌∷◌, arith, ◌==◌, if◌then◌else◌,
  test_bit,
}
use cnos.Vmm.{user_range, check_pages, page_has_flags, user_range_readable, user_range_writable}
use cnos.Vmm.Map.{Vm, vmm_unmap, create_address_space}
use cnos.Vmm.Unmap.{at1, page_has_flags-vmm_unmap}
use cnos.Vmm.Space.{create_address_space_lem}
use cnos.Pmm.{alloc_page, alloc_from, bitmap_test}
use cnos.Vmm.Leaf.{Writable}
use cnos.Vmm.Range.{Judges, user_range_writable_lem, page_has_flags-alias}

-- PML4 at 0x1000, PDPT at 0x2000, PD at 0x3000 with a writable user page of 2 MiB at 0x400000 and
-- one that is read-only at 0x600000.
abbrev memory : ℕ → ℕ
memory a =
    if a == 0x1000
    then 0x2007
    else (if a == 0x2000
        then 0x3007
        else (if a == 0x3010 then 0x400087 else (if a == 0x3018 then 0x600085 else 0)))

readable_run : user_range_readable 5 memory 0x1000 0x5ff000 8192 ≡ some true
unfolding user_range_readable page_has_flags user_range check_pages
readable_run = refl

writable_run : user_range_writable 5 memory 0x1000 0x5ff000 8192 ≡ some false
unfolding user_range_writable page_has_flags user_range check_pages
writable_run = refl

user_range_writable_example :
    Judges
      (user_range_writable 5 memory 0x1000 0x5ff000 8192)
      0x5ff000
      (0x5ff000 + 8192)
      (Writable memory 0x1000)
user_range_writable_example =
    user_range_writable_lem 5 memory 0x1000 0x5ff000 8192 (omega arith) (omega arith)

alias_example :
    page_has_flags memory 0x1000 (0x400000 + 2 ^ 48 * 3) true
    ≡ page_has_flags memory 0x1000 0x400000 true
alias_example = page_has_flags-alias memory 0x1000 0x400000 3 true

-- A page of 4 KiB at 0x1000, through tables at 0x1000, 0x2000, 0x3000 and 0x4000.
abbrev small_pages : ℕ → ℕ
small_pages a =
    if a == 0x1000
    then 0x2007
    else (if a == 0x2000
        then 0x3007
        else (if a == 0x3000 then 0x4007 else (if a == 0x4008 then 0x5007 else 0)))

mapped_run : page_has_flags small_pages 0x1000 0x1000 true ≡ true
unfolding page_has_flags
mapped_run = refl

unmap_example :
    (page_has_flags (vmm_unmap 0x1000 0x1000 small_pages) 0x1000 0x1000 true ≡ false)
    × ((a : ℕ)
        → (at1 small_pages 0x1000 0x1000 == a) ≡ false
        → vmm_unmap 0x1000 0x1000 small_pages a ≡ small_pages a)
unmap_example = page_has_flags-vmm_unmap small_pages 0x1000 0x1000 true refl refl refl refl

-- The first eight pages are in use.
abbrev machine : Vm
machine = record {
  mem = small_pages;
  pmm = record { bitmap = 255 ∷ 0 ∷ []; total_pages = 16; used_pages = 8; bitmap_size = 2 };
}

create_address_space_example :
    let r = create_address_space 0x1000 machine in
    (r.0 ≡ (alloc_page machine.pmm).0)
    × (page_has_flags r.1.mem r.0 0x1000 true ≡ page_has_flags small_pages 0x1000 0x1000 true)
unfolding alloc_page alloc_from bitmap_test test_bit
create_address_space_example =
    create_address_space_lem 0x1000 0x1000 true machine refl (omega arith) (inl (omega arith))
      (inl (omega arith)) (inl (omega arith)) (inl (omega arith))
