-- ===== src/Loader/Step.antt =====
-- One round of the loop of `elf_load_flat` in kernel/elf_load.c.
use cnos.Prelude.{
  ℕ, zero, suc, ◌+◌, ◌*◌, ◌≤◌, ◌<◌, ◌≡◌, refl, sym, ap, ◌∙◌, subst, ◌⊎◌, inl, inr, arith, ◌==◌,
  ==_iff, Bool-cases,
}
use cnos.Loader.Package.{le64}
use cnos.Ext2Vol.Fields.{Agree, le32-Agree, le16-Agree}
use cnos.Loader.Place.{
  place-zeros, place-outside, place-copied, place, le64-Agree, load_segment-place,
}
use cnos.Pmm.{u64}
use cnos.Loader.Elf.{
  p_vaddr, p_offset, p_type, e_phoff, p_filesz, p_memsz, ehdr_size, e_phentsize, phdr_size, e_phnum,
  phdr_at, load_segment,
}
use cnos.Ext2Vol.Bytes.{Bytes, at, le32}

-- The program header `i` of the file at `p`.
abbrev pub phdr : Bytes → ℕ → ℕ → Bytes
phdr mem p i = at mem (p + e_phoff (at mem p) + i * e_phentsize (at mem p))

-- The segment of a program header lies in the file, its place in the address space and apart from
-- the file.
pub record IsSegmentOf (ph : Bytes) (p elf_size : ℕ) : Type 0 where
  pub in_file : p_offset ph + p_filesz ph ≤ elf_size
  pub ordered : p_filesz ph ≤ p_memsz ph
  pub fits : p_vaddr ph + p_memsz ph ≤ u64
  pub apart : (p_vaddr ph + p_memsz ph ≤ p) ⊎ (p + elf_size ≤ p_vaddr ph)

-- The address `x` is not in the segment's place.
abbrev Misses : Bytes → ℕ → Type 0
Misses ph x = (x < p_vaddr ph) ⊎ (p_vaddr ph + p_memsz ph ≤ x)

row_below : (n i e : ℕ) → i < n → i * e + e ≤ n * e
row_below zero i e h = absurd (omega arith)
row_below (suc n) i e h = elim (Bool-cases (i == n)) [
  | inl last ↦
      let same : i ≡ n = (==_iff i n).0 last in
      subst (λ k. k * e + e ≤ suc n * e) (sym same) (omega arith)
  | inr before ↦ let ih : i * e + e ≤ n * e = row_below n i e (ground arith) in omega arith
]

module _ (m : Bytes) (p elf_size : ℕ) where
  -- The loadable segments `i`, …, `hi - 1` of the file stand in memory `after`, and elsewhere it
  -- is as `before`.
  pub record Placed (i hi : ℕ) (before after : Bytes) : Type 0 where
    pub copied :
        (j k : ℕ)
        → i ≤ j
        → j < hi
        → p_type (phdr m p j) ≡ 1
        → k < p_filesz (phdr m p j)
        → after (p_vaddr (phdr m p j) + k) ≡ m (p + p_offset (phdr m p j) + k)
    pub zeros :
        (j k : ℕ)
        → i ≤ j
        → j < hi
        → p_type (phdr m p j) ≡ 1
        → p_filesz (phdr m p j) ≤ k
        → k < p_memsz (phdr m p j)
        → after (p_vaddr (phdr m p j) + k) ≡ 0
    pub kept :
        (x : ℕ)
        → ((j : ℕ) → i ≤ j → j < hi → p_type (phdr m p j) ≡ 1 → Misses (phdr m p j) x)
        → after x ≡ before x

  module _ (in_memory : p + elf_size < u64) (header : ehdr_size ≤ elf_size)
      (entry_size : phdr_size ≤ e_phentsize (at m p))
      (table : e_phoff (at m p) + e_phnum (at m p) * e_phentsize (at m p) ≤ elf_size)
      (segments : (i : ℕ)
        → i < e_phnum (at m p)
        → p_type (phdr m p i) ≡ 1
        → IsSegmentOf (phdr m p i) p elf_size)
      (disjoint : (i j : ℕ)
        → i < j
        → j < e_phnum (at m p)
        → p_type (phdr m p i) ≡ 1
        → p_type (phdr m p j) ≡ 1
        → (p_vaddr (phdr m p i) + p_memsz (phdr m p i) ≤ p_vaddr (phdr m p j))
          ⊎ (p_vaddr (phdr m p j) + p_memsz (phdr m p j) ≤ p_vaddr (phdr m p i))) where
    -- The file as it was.
    abbrev pub Untouched : Bytes → Type 0
    Untouched mem = (x : ℕ) → p ≤ x → x < p + elf_size → mem x ≡ m x

    addr_inside :
        (i : ℕ)
        → i < e_phnum (at m p)
        → p + e_phoff (at m p) + i * e_phentsize (at m p) + phdr_size ≤ p + elf_size
    addr_inside i lt =
        let below = row_below (e_phnum (at m p)) i (e_phentsize (at m p)) lt in omega arith

    pub phdr_at_lem :
        (mem : Bytes) (i : ℕ)
        → Untouched mem
        → i < e_phnum (at m p)
        → phdr_at mem p i ≡ p + e_phoff (at m p) + i * e_phentsize (at m p)
    unfolding phdr_at Agree
    phdr_at_lem mem i same lt =
        let off : e_phoff (at mem p) ≡ e_phoff (at m p) =
          le64-Agree (at mem p) (at m p) 32 (λ k lo hi. same (p + k) (omega arith) (omega arith)) in
        let size : e_phentsize (at mem p) ≡ e_phentsize (at m p) =
          le16-Agree (at mem p) (at m p) 54 (λ k lo hi. same (p + k) (omega arith) (omega arith)) in
        rw (off, size) (omega (arith, addr_inside i lt))

    -- Each field of a program header is as it was.
    pub phdr_field :
        (mem : Bytes) (i o : ℕ)
        → Untouched mem
        → i < e_phnum (at m p)
        → o + 8 ≤ phdr_size
        → le64 (at mem (p + e_phoff (at m p) + i * e_phentsize (at m p))) o ≡ le64 (phdr m p i) o
    unfolding Agree
    phdr_field mem i o same lt room =
        let inside = addr_inside i lt in
        le64-Agree _ (phdr m p i) o (λ k lo hi. same _ (omega arith) (omega arith))

    pub phdr_type :
        (mem : Bytes) (i : ℕ)
        → Untouched mem
        → i < e_phnum (at m p)
        → le32 (at mem (p + e_phoff (at m p) + i * e_phentsize (at m p))) 0 ≡ p_type (phdr m p i)
    unfolding Agree
    phdr_type mem i same lt =
        let inside = addr_inside i lt in
        le32-Agree _ (phdr m p i) 0 (λ k lo hi. same _ (omega arith) (omega arith))

    module _ (mem : Bytes) (i : ℕ) (same : Untouched mem) (lt : i < e_phnum (at m p))
        (loadable : p_type (phdr m p i) ≡ 1) where
      abbrev pub ph : Bytes
      ph = phdr m p i

      abbrev pub a : ℕ
      a = p + e_phoff (at m p) + i * e_phentsize (at m p)

      abbrev pub stepped : Bytes
      stepped = load_segment mem p a

      seg : IsSegmentOf ph p elf_size
      seg = segments i lt loadable

      stepped-place : stepped ≡ place mem (p + p_offset ph) (p_vaddr ph) (p_filesz ph) (p_memsz ph)
      stepped-place =
          let off = phdr_field mem i 8 same lt (omega arith) in
          let vaddr = phdr_field mem i 16 same lt (omega arith) in
          let filesz = phdr_field mem i 32 same lt (omega arith) in
          let memsz = phdr_field mem i 40 same lt (omega arith) in
          let inside = addr_inside i lt in
          let table_apart : (p_vaddr ph + p_memsz ph ≤ a) ⊎ (a + phdr_size ≤ p_vaddr ph) =
            ground (arith, seg.apart) in
          load_segment-place mem p a (rw (filesz, memsz) seg.ordered) (rw (vaddr, memsz) seg.fits)
            (rw off (omega (arith, seg.in_file))) (rw (vaddr, memsz) table_apart)
          ∙ rw (off, vaddr, filesz, memsz) refl

      stepped-kept : (x : ℕ) → Misses ph x → stepped x ≡ mem x
      stepped-kept x misses =
          ap (λ (f : Bytes). f x) stepped-place
          ∙ place-outside mem (p + p_offset ph) (p_vaddr ph) (p_filesz ph) (p_memsz ph) seg.ordered
              seg.fits x misses

      stepped-copied :
          (k : ℕ) → k < p_filesz ph → stepped (p_vaddr ph + k) ≡ m (p + p_offset ph + k)
      stepped-copied k h =
          let in_file = seg.in_file in
          let apart : (p + p_offset ph + p_filesz ph ≤ p_vaddr ph)
              ⊎ (p_vaddr ph + p_memsz ph ≤ p + p_offset ph) =
            ground (arith, seg.apart) in
          ap (λ (f : Bytes). f (p_vaddr ph + k)) stepped-place
          ∙ place-copied mem (p + p_offset ph) (p_vaddr ph) (p_filesz ph) (p_memsz ph) seg.ordered
              seg.fits k (omega arith) apart h
          ∙ same (p + p_offset ph + k) (omega arith) (omega arith)

      stepped-zeros : (k : ℕ) → p_filesz ph ≤ k → k < p_memsz ph → stepped (p_vaddr ph + k) ≡ 0
      stepped-zeros k lo hi =
          ap (λ (f : Bytes). f (p_vaddr ph + k)) stepped-place
          ∙ place-zeros mem (p + p_offset ph) (p_vaddr ph) (p_filesz ph) (p_memsz ph) seg.ordered
              seg.fits k lo hi

      pub stepped-Untouched : Untouched stepped
      stepped-Untouched x lo hi = stepped-kept x (ground (arith, seg.apart)) ∙ same x lo hi

      -- Where later segments leave this one alone.
      later-Misses :
          (k j : ℕ)
          → k < p_memsz ph
          → i + 1 ≤ j
          → j < e_phnum (at m p)
          → p_type (phdr m p j) ≡ 1
          → Misses (phdr m p j) (p_vaddr ph + k)
      later-Misses k j h lo hi t = ground (arith, disjoint i j (omega arith) hi loadable t)

      pub one-Placed :
          (after : Bytes)
          → Placed (i + 1) (e_phnum (at m p)) stepped after
          → Placed i (e_phnum (at m p)) mem after
      one-Placed after rest = record {
        copied = λ j k lo hi t h. elim (Bool-cases (i == j)) [
          | inr ne ↦ rest.copied j k (ground arith) hi t h
          | inl eq ↦
              subst
                (λ j.
                  k < p_filesz (phdr m p j)
                  → after (p_vaddr (phdr m p j) + k) ≡ m (p + p_offset (phdr m p j) + k))
                ((==_iff i j).0 eq)
                (λ l.
                  rest.kept (p_vaddr ph + k)
                    (λ j2 a2 b2 t2. later-Misses k j2 (omega (arith, seg.ordered)) a2 b2 t2)
                  ∙ stepped-copied k l)
                h
        ];
        zeros = λ j k lo hi t l h. elim (Bool-cases (i == j)) [
          | inr ne ↦ rest.zeros j k (ground arith) hi t l h
          | inl eq ↦
              subst
                (λ j.
                  p_filesz (phdr m p j) ≤ k
                  → k < p_memsz (phdr m p j)
                  → after (p_vaddr (phdr m p j) + k) ≡ 0)
                ((==_iff i j).0 eq)
                (λ l2 h2.
                  rest.kept (p_vaddr ph + k) (λ j2 a2 b2 t2. later-Misses k j2 h2 a2 b2 t2)
                  ∙ stepped-zeros k l2 h2)
                l h
        ];
        kept = λ x misses.
            rest.kept x (λ j lo hi t. misses j (omega arith) hi t)
            ∙ stepped-kept x (misses i (omega arith) lt loadable);
      }
