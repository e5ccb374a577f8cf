-- ===== src/Loader/Place.antt =====
-- One segment of kernel/elf_load.c: its bytes and the zeros behind them.
use cnos.Prelude.{
  ℕ, ◌+◌, ◌-◌, ◌%◌, ◌≤◌, ◌<◌, ◌≡◌, refl, ◌∙◌, ◌⊎◌, inl, inr, true, arith, ltb, if◌then◌else◌,
  Bool-cases,
}
use cnos.Loader.Copies.{mem_zero-inside, mem_copy-outside, mem_copy-inside, mem_zero-outside}
use cnos.Loader.Memory.{mem_zero, mem_copy}
use cnos.Pmm.{u64}
use cnos.Ext2Vol.Fields.{Agree, le32-Agree}
use cnos.Ext2Vol.Bytes.{Bytes, at}
use cnos.Loader.Elf.{load_segment, p_filesz, p_memsz, p_vaddr, p_offset, phdr_size}
use cnos.Loader.Package.{le64}

pub le64-Agree : (b c : Bytes) (p : ℕ) → Agree b c p 8 → le64 b p ≡ le64 c p
unfolding le64 Agree
le64-Agree b c p h =
    rw
      (
        le32-Agree b c p (λ k lo hi. h k lo (omega arith)),
        le32-Agree b c (p + 4) (λ k lo hi. h k (omega arith) (omega arith)),
      )
      refl

-- `fs` bytes from `src` and zeros up to `ms` bytes, at `d`.
unfoldable pub place : Bytes → ℕ → ℕ → ℕ → ℕ → Bytes
place mem src d fs ms =
    if ltb fs ms then mem_zero (ms - fs) (mem_copy fs mem d src) (d + fs) else mem_copy fs mem d src

module _ (mem : Bytes) (src d fs ms : ℕ) (ordered : fs ≤ ms) (fits : d + ms ≤ u64) where
  pub place-outside : (x : ℕ) → (x < d) ⊎ (d + ms ≤ x) → place mem src d fs ms x ≡ mem x
  unfolding place
  place-outside x h =
      let copied = mem_copy-outside fs mem d src x (omega arith) (ground arith) in
      elim (Bool-cases (ltb fs ms)) [
        | inr whole ↦ rw whole copied
        | inl more ↦
            let zeros =
              mem_zero-outside (ms - fs) (mem_copy fs mem d src) (d + fs) x (omega arith)
                (ground arith) in
            rw more (zeros ∙ copied)
      ]

  pub place-copied :
      (k : ℕ)
      → src + fs ≤ u64
      → (src + fs ≤ d) ⊎ (d + ms ≤ src)
      → k < fs
      → place mem src d fs ms (d + k) ≡ mem (src + k)
  unfolding place
  place-copied k inside apart h =
      let copied = mem_copy-inside fs mem d src k (omega arith) inside (ground arith) h in
      elim (Bool-cases (ltb fs ms)) [
        | inr whole ↦ rw whole copied
        | inl more ↦
            let zeros =
              mem_zero-outside (ms - fs) (mem_copy fs mem d src) (d + fs) (d + k) (omega arith)
                (inl (omega arith)) in
            rw more (zeros ∙ copied)
      ]

  pub place-zeros : (k : ℕ) → fs ≤ k → k < ms → place mem src d fs ms (d + k) ≡ 0
  unfolding place
  place-zeros k lo hi =
      let more : ltb fs ms ≡ true = ground arith in
      let at_k : d + k ≡ d + fs + (k - fs) = omega arith in
      rw (more, at_k)
        (mem_zero-inside (ms - fs) (mem_copy fs mem d src) (d + fs) (k - fs) (omega arith)
          (omega arith))

-- `load_segment` on a program header at `a` that it does not overwrite.
pub load_segment-place :
    (mem : Bytes) (p a : ℕ)
    → let ph = at mem a in
      p_filesz ph ≤ p_memsz ph
      → p_vaddr ph + p_memsz ph ≤ u64
      → p + p_offset ph < u64
      → (p_vaddr ph + p_memsz ph ≤ a) ⊎ (a + phdr_size ≤ p_vaddr ph)
      → load_segment mem p a ≡ place mem (p + p_offset ph) (p_vaddr ph) (p_filesz ph) (p_memsz ph)
unfolding load_segment place Agree
load_segment-place mem p a ordered fits inside apart =
    let ph = at mem a in
    let src : (p + p_offset ph) % u64 ≡ p + p_offset ph = omega arith in
    let copied = mem_copy (p_filesz ph) mem (p_vaddr ph) (p + p_offset ph) in
    let same : (k : ℕ) → k < phdr_size → at copied a k ≡ ph k = λ k lt.
      mem_copy-outside (p_filesz ph) mem (p_vaddr ph) (p + p_offset ph) (a + k) (omega arith)
        (ground arith) in
    let filesz : p_filesz (at copied a) ≡ p_filesz ph =
      le64-Agree (at copied a) ph 32 (λ k lo hi. same k (omega arith)) in
    let memsz : p_memsz (at copied a) ≡ p_memsz ph =
      le64-Agree (at copied a) ph 40 (λ k lo hi. same k (omega arith)) in
    rw (src, filesz, memsz)
      (elim (Bool-cases (ltb (p_filesz ph) (p_memsz ph))) [
        | inr whole ↦ rw whole refl
        | inl more ↦
            let tail : (p_vaddr ph + p_filesz ph) % u64 ≡ p_vaddr ph + p_filesz ph = ground arith in
            rw (more, tail) refl
      ])
