-- ===== src/Loader/Sections.antt =====
-- What kernel/fs/cnaf/cnaf_image.c finds: the first section of a type, inside the file.
use cnos.Prelude.{
  ℕ, zero, suc, ◌+◌, ◌*◌, ◌≤◌, ◌<◌, ◌≡◌, refl, ap, subst, ◌≢◌, inl, inr, ◌||◌, arith, ltb, ◌==◌,
  ==_iff, Bool-cases,
}
use cnos.Pmm.{u64}
use cnos.Loader.Package.{
  le64, header_size, locate_section, section_at, locate_from, entry_bytes, after_probe, located,
  probe_header, cnpkg_ok, h_section_count, CnpkgErr, h_header_bytes, err_magic, err_version,
  err_truncated, err_kind, err_section,
}
use cnos.Ext2Vol.Bytes.{Bytes, le32}

-- Every byte is one.
unfoldable pub AllBytes : Bytes → Type 0
AllBytes b = (k : ℕ) → b k < 256

le64-AllBytes : (b : Bytes) (p : ℕ) → AllBytes b → le64 b p < u64
unfolding le64 le32 AllBytes
le64-AllBytes b p h =
    let b0 = h p in
    let b1 = h (p + 1) in
    let b2 = h (p + 2) in
    let b3 = h (p + 3) in
    let b4 = h (p + 4) in
    let b5 = h (p + 4 + 1) in let b6 = h (p + 4 + 2) in let b7 = h (p + 4 + 3) in omega arith

-- The entry `i` of the section table is the first one of the type from `lo` on; its section is
-- `sz` bytes at `off`, inside the file.
pub record FirstOf (prefix : Bytes) (prefix_len file_total_size type lo hi off sz : ℕ)
    : Type 0 where
  pub i : ℕ
  pub from : lo ≤ i
  pub below : i < hi
  in_prefix : header_size + i * entry_bytes + entry_bytes ≤ prefix_len
  of_type : le32 prefix (header_size + i * entry_bytes) ≡ type
  pub offset : off ≡ le64 prefix (header_size + i * entry_bytes + 8)
  pub size : sz ≡ le64 prefix (header_size + i * entry_bytes + 16)
  pub earlier : (j : ℕ) → lo ≤ j → j < i → le32 prefix (header_size + j * entry_bytes) ≢ type
  pub inside : off + sz ≤ file_total_size

module _ (prefix : Bytes) (prefix_len file_total_size type : ℕ) (bytes : AllBytes prefix)
    (fits : file_total_size < u64) where
  section_at_lem :
      (eoff off sz : ℕ)
      → section_at prefix eoff file_total_size ≡ located off sz
      → (off ≡ le64 prefix (eoff + 8))
        × ((sz ≡ le64 prefix (eoff + 16)) × (off + sz ≤ file_total_size))
  unfolding section_at
  section_at_lem eoff off sz e =
      let a = le64-AllBytes prefix (eoff + 8) bytes in
      let b = le64-AllBytes prefix (eoff + 16) bytes in (ground arith, (ground arith, ground arith))

  locate_from_lem :
      (n i off sz : ℕ)
      → locate_from n i prefix prefix_len file_total_size type ≡ located off sz
      → FirstOf prefix prefix_len file_total_size type i (i + n) off sz
  unfolding locate_from
  locate_from_lem zero i off sz e = absurd (ground arith)
  locate_from_lem (suc n) i off sz e =
      elim (Bool-cases (ltb prefix_len (header_size + i * entry_bytes + entry_bytes))) [
        | inl short ↦ absurd (ground arith)
        | inr room ↦ elim (Bool-cases (le32 prefix (header_size + i * entry_bytes) == type)) [
          | inl hit ↦
              let found : section_at prefix (header_size + i * entry_bytes) file_total_size
                  ≡ located off sz =
                ground arith in
              let (o, (s, inside)) = section_at_lem (header_size + i * entry_bytes) off sz found in
              record {
                i = i;
                from = omega arith;
                below = omega arith;
                in_prefix = ground arith;
                of_type = (==_iff _ _).0 hit;
                offset = o;
                size = s;
                earlier = λ j a b. absurd (omega arith);
                inside = inside;
              }
          | inr miss ↦
              let next : locate_from n (i + 1) prefix prefix_len file_total_size type
                  ≡ located off sz =
                ground arith in
              let r = locate_from_lem n (i + 1) off sz next in
              record {
                i = r.i;
                from = omega (arith, r.from);
                below = omega (arith, r.below);
                in_prefix = r.in_prefix;
                of_type = r.of_type;
                offset = r.offset;
                size = r.size;
                earlier = λ j a b. elim (Bool-cases (i == j)) [
                  | inl same ↦ λ q.
                      ground (
                        arith,
                        ap (λ x. le32 prefix (header_size + x * entry_bytes)) {x = i} {y = j},
                      )
                  | inr ne ↦ r.earlier j (ground arith) b
                ];
                inside = r.inside;
              }
        ]
      ]

  -- A section that `cnpkg_locate_section` returns for a file that fits 64 bits: the header passes
  -- the probe, and the section is that of the first table entry of the type, which lies in the
  -- bytes at hand, and it ends inside the file, with no wrap-around.
  pub locate_section_lem :
      (off sz : ℕ)
      → locate_section prefix prefix_len file_total_size type ≡ located off sz
      → (probe_header prefix prefix_len ≡ cnpkg_ok)
        × FirstOf prefix prefix_len file_total_size type 0 (h_section_count prefix) off sz
  unfolding locate_section after_probe
  locate_section_lem off sz e = after (probe_header prefix prefix_len) e
    where
      after :
          (r : CnpkgErr)
          → after_probe r prefix prefix_len file_total_size type ≡ located off sz
          → (r ≡ cnpkg_ok)
            × FirstOf prefix prefix_len file_total_size type 0 (h_section_count prefix) off sz
      after cnpkg_ok h =
          elim (Bool-cases (
            ltb prefix_len (h_header_bytes prefix)
            || ltb file_total_size (h_header_bytes prefix))) [
              | inl short ↦ absurd (ground arith)
              | inr room ↦
                  let all : 0 + h_section_count prefix ≡ h_section_count prefix = omega arith in
                  (
                    refl,
                    subst (λ n. FirstOf prefix prefix_len file_total_size type 0 n off sz) all
                        (locate_from_lem (h_section_count prefix) 0 off sz (ground arith)),
                  )
            ]
      after err_magic h = absurd (ground arith)
      after err_version h = absurd (ground arith)
      after err_truncated h = absurd (ground arith)
      after err_kind h = absurd (ground arith)
      after err_section h = absurd (ground arith)
