-- ===== src/Loader/Package.antt =====
-- The header and the sections of a package: kernel/fs/cnaf/cnaf_validate.c and
-- kernel/fs/cnaf/cnaf_image.c. A header is its bytes, at the offsets of cnaf_spec.h.
use cnos.Prelude.{ℕ, zero, suc, ◌+◌, ◌*◌, ◌%◌, ◌^◌, Bool, not, ◌||◌, ltb, ◌==◌, if◌then◌else◌}
use cnos.Ext2Vol.Bytes.{Bytes, le16, le32}
use cnos.Pmm.{u64}

pub data CnpkgErr : Type 0 where
  cnpkg_ok err_magic err_version err_truncated err_kind err_section : CnpkgErr

-- `sizeof(cnpkg_file_header_t)`, `sizeof(cnpkg_section_entry_t)`.
abbrev pub header_size : ℕ
header_size = 40

abbrev pub entry_bytes : ℕ
entry_bytes = 24

abbrev pub h_magic : Bytes → ℕ
h_magic h = le32 h 0

abbrev pub h_fmt_major : Bytes → ℕ
h_fmt_major h = le16 h 4

abbrev pub h_fmt_minor : Bytes → ℕ
h_fmt_minor h = le16 h 6

abbrev pub h_pkg_kind : Bytes → ℕ
h_pkg_kind h = le32 h 8

abbrev pub h_header_bytes : Bytes → ℕ
h_header_bytes h = le32 h 12

abbrev pub h_section_count : Bytes → ℕ
h_section_count h = le32 h 20

-- `rd_u64_le`.
unfoldable pub le64 : Bytes → ℕ → ℕ
le64 b p = le32 b p + 2 ^ 32 * le32 b (p + 4)

unfoldable pub is_package : ℕ → Bool
is_package magic = magic == 0x4B504E43 || magic == 0x4B4C4E43

-- The tests that both functions start with; the rest is the error where all of them pass.
unfoldable pub check_start : Bytes → ℕ → CnpkgErr → CnpkgErr
check_start h len rest =
    if ltb len header_size
    then err_truncated
    else (if not (is_package (h_magic h))
        then err_magic
        else (if not (h_fmt_major h == 1) || ltb 0 (h_fmt_minor h)
            then err_version
            else (if not (h_pkg_kind h == 1 || h_pkg_kind h == 2)
                then err_kind
                else (if ltb (h_header_bytes h) header_size then err_truncated else rest))))

unfoldable pub probe_header : Bytes → ℕ → CnpkgErr
probe_header h len = check_start h len (
    if ltb len (h_header_bytes h)
    then err_truncated
    else (if not (h_header_bytes h % 8 == 0)
        then err_section
        else (if ltb 256 (h_section_count h) then err_section else cnpkg_ok)))

unfoldable pub parse_header_prefix : Bytes → ℕ → CnpkgErr
parse_header_prefix h len = check_start h len cnpkg_ok

-- A section's offset and size, or the error.
pub data Located : Type 0 where
  located : ℕ → ℕ → Located
  not_located : CnpkgErr → Located

unfoldable pub section_at : Bytes → ℕ → ℕ → Located
section_at prefix eoff file_total_size =
    let off = le64 prefix (eoff + 8) in
    let sz = le64 prefix (eoff + 16) in
    if ltb file_total_size ((off + sz) % u64) || ltb ((off + sz) % u64) off
    then not_located err_section
    else located off sz

-- The loop over the section table, with `n` entries left from `i` on.
unfoldable pub locate_from : ℕ → ℕ → Bytes → ℕ → ℕ → ℕ → Located
locate_from zero i prefix prefix_len file_total_size type = not_located err_section
locate_from (suc n) i prefix prefix_len file_total_size type =
    let eoff = header_size + i * entry_bytes in
    let rest = locate_from n (i + 1) prefix prefix_len file_total_size type in
    if ltb prefix_len (eoff + entry_bytes)
    then not_located err_section
    else (if le32 prefix eoff == type then section_at prefix eoff file_total_size else rest)

unfoldable pub after_probe : CnpkgErr → Bytes → ℕ → ℕ → ℕ → Located
after_probe cnpkg_ok prefix prefix_len file_total_size type =
    if ltb prefix_len (h_header_bytes prefix) || ltb file_total_size (h_header_bytes prefix)
    then not_located err_truncated
    else locate_from (h_section_count prefix) 0 prefix prefix_len file_total_size type
after_probe e prefix prefix_len file_total_size type = not_located e

unfoldable pub locate_section : Bytes → ℕ → ℕ → ℕ → Located
locate_section prefix prefix_len file_total_size type =
    after_probe (probe_header prefix prefix_len) prefix prefix_len file_total_size type

-- The offset of the pointer in `data`, and the size.
unfoldable pub recheck : ℕ → Located → Located
recheck len (not_located e) = not_located e
recheck len (located off sz) =
    if ltb len ((off + sz) % u64) || ltb ((off + sz) % u64) off
    then not_located err_section
    else located off sz

unfoldable pub extract_section : Bytes → ℕ → ℕ → Located
extract_section h len type = recheck len (locate_section h len len type)

abbrev pub section_image : ℕ
section_image = 2

unfoldable pub locate_image : Bytes → ℕ → ℕ → Located
locate_image prefix prefix_len file_total_size =
    locate_section prefix prefix_len file_total_size section_image

unfoldable pub extract_image : Bytes → ℕ → Located
extract_image h len = extract_section h len section_image
