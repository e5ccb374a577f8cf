-- ===== src/Loader/Tests.antt =====
-- A package with one section, a manifest, and an executable with one segment.
use cnos.Prelude.{ℕ, ◌+◌, ◌*◌, ◌≤◌, ◌<◌, ◌≡◌, refl, subst, inr, true, some, List, [], ◌∷◌, arith}
use cnos.Loader.Step.{Placed, phdr, IsSegmentOf}
use cnos.Loader.Memory.{mem_copy, mem_zero}
use cnos.Loader.Loads.{elf_load_flat-Placed}
use cnos.Ext2Vol.Bytes.{put_le32, Bytes, zero_bytes, at, le32, le16}
use cnos.Loader.Manifest.{manifest_get_value, is_ws, trim_end, skip_ws, keep_unless_empty}
use cnos.Loader.Package.{
  locate_section, probe_header, cnpkg_ok, section_image, le64, h_section_count, check_start,
  is_package, after_probe, locate_from, section_at, located,
}
use cnos.Loader.Sections.{AllBytes, FirstOf, locate_section_lem}
use cnos.Loader.Lines.{Entries, AllEntries, print, value_of, lacks, manifest_get_value-print}
use cnos.Loader.Elf.{
  elf_load_flat, e_phnum, e_entry, p_type, ehdr_check, e_phoff, load_from, load_segment,
  e_phentsize, p_offset, p_vaddr, phdr_at, p_filesz, p_memsz, outside_file, phdr_size,
}

put_le32-AllBytes : (b : Bytes) (p v : ℕ) → AllBytes b → AllBytes (put_le32 b p v)
unfolding AllBytes put_le32
put_le32-AllBytes b p v h k = ground (arith, h k)

-- 32-bit fields, at their offsets from `p`.
fields : Bytes → ℕ → List (ℕ × ℕ) → Bytes
fields b p [] = b
fields b p ((o, v) ∷ rest) = put_le32 (fields b p rest) (p + o) v

fields-AllBytes : (b : Bytes) (p : ℕ) (l : List (ℕ × ℕ)) → AllBytes b → AllBytes (fields b p l)
unfolding fields
fields-AllBytes b p [] h = h
fields-AllBytes b p ((o, v) ∷ rest) h =
    put_le32-AllBytes (fields b p rest) (p + o) v (fields-AllBytes b p rest h)

zeros-AllBytes : AllBytes zero_bytes
unfolding AllBytes
zeros-AllBytes k = omega arith

abbrev package_fields : List (ℕ × ℕ)
package_fields =
    (0, 0x4B504E43) ∷ (4, 1) ∷ (8, 1) ∷ (12, 64) ∷ (20, 1) ∷ (40, 2) ∷ (48, 64) ∷ (56, 10) ∷ []

abbrev small_package : Bytes
small_package = fields zero_bytes 0 package_fields

package_image : locate_section small_package 64 100 section_image ≡ located 64 10
unfolding locate_section fields put_le32 le32 le16 le64 probe_header check_start is_package
    after_probe locate_from section_at
package_image = refl

locate_section_lem_example :
    (probe_header small_package 64 ≡ cnpkg_ok)
    × FirstOf small_package 64 100 section_image 0 (h_section_count small_package) 64 10
locate_section_lem_example =
    locate_section_lem small_package 64 100 section_image
      (fields-AllBytes zero_bytes 0 package_fields zeros-AllBytes) (omega arith) 64 10 package_image

-- `na = x`.
abbrev entries : Entries
entries = (110, 97 ∷ [], 120 ∷ []) ∷ []

entries-AllEntries : AllEntries entries
unfolding AllEntries is_ws lacks trim_end skip_ws keep_unless_empty
entries-AllEntries = (
  record { start = refl; one_line = refl; no_equals = refl; trimmed = refl },
  (record { one_line = refl; start = refl; trimmed = refl }, tt),
)

manifest_get_value-print_example :
    manifest_get_value (print entries) (110 ∷ 97 ∷ []) 8 ≡ value_of (110 ∷ 97 ∷ []) 8 entries
manifest_get_value-print_example =
    manifest_get_value-print entries (110 ∷ 97 ∷ []) 8 entries-AllEntries (omega arith)

-- An executable of 124 bytes at 4096, with one segment of 4 bytes and 4 zeros for 8192.
abbrev elf_fields : List (ℕ × ℕ)
elf_fields =
    (0, 0x464C457F)
    ∷ (4, 0x0102)
    ∷ (16, 0x3E0002)
    ∷ (24, 8192)
    ∷ (32, 64)
    ∷ (52, 0x380040)
    ∷ (56, 1)
    ∷ (64, 1)
    ∷ (72, 120)
    ∷ (80, 8192)
    ∷ (96, 4)
    ∷ (104, 8)
    ∷ (120, 0x64636261)
    ∷ []

abbrev memory : Bytes
memory = fields zero_bytes 4096 elf_fields

elf_headers :
    (e_phnum (at memory 4096) ≡ 1)
    × ((e_phoff (at memory 4096) ≡ 64)
        × ((e_phentsize (at memory 4096) ≡ 56)
            × ((p_offset (phdr memory 4096 0) ≡ 120)
                × ((p_vaddr (phdr memory 4096 0) ≡ 8192)
                    × ((p_filesz (phdr memory 4096 0) ≡ 4)
                        × ((p_memsz (phdr memory 4096 0) ≡ 8)
                            × (ehdr_check (at memory 4096) 124 ≡ true)))))))
unfolding fields put_le32 le32 le16 le64 ehdr_check
elf_headers = (refl, (refl, (refl, (refl, (refl, (refl, (refl, refl)))))))

one_segment :
    (i : ℕ)
    → i < e_phnum (at memory 4096)
    → p_type (phdr memory 4096 i) ≡ 1
    → IsSegmentOf (phdr memory 4096 i) 4096 124
one_segment i lt t =
    let (num, (off, (size, (o, (va, (fs, (ms, ok))))))) = elf_headers in
    let first : 0 ≡ i = omega arith in
    subst (λ j. IsSegmentOf (phdr memory 4096 j) 4096 124) first
      (record {
        in_file = omega arith;
        ordered = omega arith;
        fits = omega arith;
        apart = inr (omega arith);
      })

elf_entry_size : phdr_size ≤ e_phentsize (at memory 4096)
elf_entry_size = omega (arith, elf_headers.1.1.0)

elf_table : e_phoff (at memory 4096) + e_phnum (at memory 4096) * e_phentsize (at memory 4096) ≤ 124
elf_table = rw (elf_headers.0, elf_headers.1.0, elf_headers.1.1.0) (omega arith)

elf_load_flat-Placed_example :
    let r = elf_load_flat memory 4096 124 in
    (r.ok ≡ true)
    × ((r.entry ≡ some (e_entry (at memory 4096)))
        × Placed memory 4096 124 0 (e_phnum (at memory 4096)) memory r.mem)
elf_load_flat-Placed_example =
    elf_load_flat-Placed memory 4096 124 (omega arith) (omega arith) elf_entry_size elf_table
      one_segment (λ i j a b t u. absurd (omega (arith, elf_headers.0)))
      (fields-AllBytes zero_bytes 4096 elf_fields zeros-AllBytes) elf_headers.1.1.1.1.1.1.1

elf_loaded : (elf_load_flat memory 4096 124).mem 8193 ≡ 98
unfolding fields put_le32 le32 le16 le64 ehdr_check elf_load_flat load_from load_segment mem_copy
    mem_zero phdr_at outside_file
elf_loaded = refl
