-- ===== src/Loader/Loads.antt =====
-- `elf_load_flat` of kernel/elf_load.c loads the segments of an executable.
use cnos.Prelude.{
  ℕ, zero, suc, ◌+◌, ◌*◌, ◌%◌, ◌≤◌, ◌<◌, ◌≡◌, refl, sym, subst, ◌⊎◌, inl, inr, true, false, some,
  arith, ltb, ◌==◌, ltb→lt, ==_iff, Bool-cases,
}
use cnos.Ext2Vol.Fields.{Agree, le16-Agree}
use cnos.Loader.Sections.{AllBytes}
use cnos.Loader.Step.{
  phdr, IsSegmentOf, Placed, Untouched, phdr_at_lem, phdr_type, phdr_field, stepped,
  stepped-Untouched, one-Placed,
}
use cnos.Loader.Elf.{
  ehdr_size, phdr_size, e_phentsize, e_phoff, e_phnum, p_type, p_vaddr, p_memsz, elf_load_flat,
  load_from, outside_file, ehdr_check, e_entry, p_offset, p_filesz,
}
use cnos.Pmm.{u64}
use cnos.Ext2Vol.Bytes.{Bytes, at, le16}

module _ (m : Bytes) (p elf_size : ℕ) where
  module _ (in_memory : p + elf_size < u64) (header : ehdr_size ≤ elf_size)
      (entry_size : phdr_size ≤ e_phentsize (at m p))
      (table : e_phoff (at m p) + e_phnum (at m p) * e_phentsize (at m p) ≤ elf_size)
      (segments : (i : ℕ)
        → i < e_phnum (at m p)
        → p_type (phdr m p i) ≡ 1
        → IsSegmentOf (phdr m p i) p elf_size)
      (disjoint : (i j : ℕ)
        → i < j
        → j < e_phnum (at m p)
        → p_type (phdr m p i) ≡ 1
        → p_type (phdr m p j) ≡ 1
        → (p_vaddr (phdr m p i) + p_memsz (phdr m p i) ≤ p_vaddr (phdr m p j))
          ⊎ (p_vaddr (phdr m p j) + p_memsz (phdr m p j) ≤ p_vaddr (phdr m p i))) where
    skipped :
        (mem after : Bytes) (i : ℕ)
        → (p_type (phdr m p i) == 1) ≡ false
        → Placed m p elf_size (i + 1) (e_phnum (at m p)) mem after
        → Placed m p elf_size i (e_phnum (at m p)) mem after
    skipped mem after i other rest =
        let later : (j : ℕ) → i ≤ j → p_type (phdr m p j) ≡ 1 → i + 1 ≤ j = λ j lo t.
          elim (Bool-cases (i == j)) [
            | inr ne ↦ ground arith
            | inl eq ↦
                let type : p_type (phdr m p i) ≡ 1 =
                  subst (λ k. p_type (phdr m p k) ≡ 1) (sym ((==_iff i j).0 eq)) t in
                absurd (ground arith)
          ] in
        record {
          copied = λ j k lo hi t h. rest.copied j k (later j lo t) hi t h;
          zeros = λ j k lo hi t l h. rest.zeros j k (later j lo t) hi t l h;
          kept = λ x misses. rest.kept x (λ j lo hi t. misses j (omega arith) hi t);
        }

    none_left :
        (mem : Bytes) (i : ℕ)
        → e_phnum (at m p) ≤ i
        → Placed m p elf_size i (e_phnum (at m p)) mem mem
    none_left mem i h = record {
      copied = λ j k lo hi t l. absurd (omega arith);
      zeros = λ j k lo hi t l n. absurd (omega arith);
      kept = λ x misses. refl;
    }

    load_from-Placed :
        (fuel i : ℕ) (mem : Bytes)
        → Untouched m p elf_size in_memory header entry_size table segments disjoint mem
        → e_phnum (at m p) ≤ i + fuel
        → (after : Bytes) × (load_from fuel i mem p elf_size ≡ (true, after))
          × Placed m p elf_size i (e_phnum (at m p)) mem after
    unfolding load_from outside_file Agree cnos.Ext2Vol.Bytes.le16
    load_from-Placed zero i mem same enough = (mem, refl, none_left mem i (omega arith))
    load_from-Placed (suc fuel) i mem same enough =
        let count : e_phnum (at mem p) ≡ e_phnum (at m p) =
          le16-Agree (at mem p) (at m p) 56 (λ k lo hi. same (p + k) (omega arith) (omega arith)) in
        elim (Bool-cases (ltb i (e_phnum (at m p)))) [
          | inr ended ↦ (mem, rw (count, ended) refl, none_left mem i (ground arith))
          | inl more ↦
              let lt : i < e_phnum (at m p) = ltb→lt _ _ more in
              let place_of =
                phdr_at_lem m p elf_size in_memory header entry_size table segments disjoint mem i
                  same lt in
              let type =
                phdr_type m p elf_size in_memory header entry_size table segments disjoint mem i
                  same lt in
              elim (Bool-cases (p_type (phdr m p i) == 1)) [
                | inr other ↦
                    let (after, ran, placed) =
                      load_from-Placed fuel (i + 1) mem same (omega arith) in
                    (
                      after,
                      rw (count, more, place_of, type, other) ran,
                      skipped mem after i other placed,
                    )
                | inl load ↦
                    let loadable : p_type (phdr m p i) ≡ 1 = (==_iff _ _).0 load in
                    let off =
                      phdr_field m p elf_size in_memory header entry_size table segments disjoint
                        mem i 8 same lt (omega arith) in
                    let filesz =
                      phdr_field m p elf_size in_memory header entry_size table segments disjoint
                        mem i 32 same lt (omega arith) in
                    let in_file : ltb elf_size
                          ((p_offset (phdr m p i) + p_filesz (phdr m p i)) % u64)
                        ≡ false =
                      ground (arith, (segments i lt loadable).in_file) in
                    let (after, ran, placed) =
                      load_from-Placed fuel (i + 1)
                        (stepped m p elf_size in_memory header entry_size table segments disjoint
                          mem i same lt loadable)
                        (stepped-Untouched m p elf_size in_memory header entry_size table segments
                          disjoint mem i same lt loadable)
                        (omega arith) in
                    (
                      after,
                      rw (count, more, place_of, type, load, off, filesz, in_file) ran,
                      one-Placed m p elf_size in_memory header entry_size table segments disjoint
                          mem i same lt loadable after placed,
                    )
              ]
        ]

    -- `elf_load_flat` of an executable in memory whose headers pass the tests, whose program headers
    -- lie in the file and have their full size at least, and whose loadable segments lie in the file,
    -- are no shorter in memory than in the file, and have places below 2 ^ 64 apart from the file and
    -- from each other: it succeeds with
    -- the file's entry, each loadable segment stands in memory, its bytes of the file and zeros
    -- behind them, and no other byte of memory has changed.
    pub elf_load_flat-Placed :
        AllBytes m
        → ehdr_check (at m p) elf_size ≡ true
        → let r = elf_load_flat m p elf_size in
          (r.ok ≡ true)
          × ((r.entry ≡ some (e_entry (at m p))) × Placed m p elf_size 0 (e_phnum (at m p)) m r.mem)
    unfolding elf_load_flat AllBytes le16
    elf_load_flat-Placed bytes checked =
        let low = bytes (p + 56) in
        let high = bytes (p + (56 + 1)) in
        let few : ltb elf_size ehdr_size ≡ false = ground arith in
        let (after, ran, placed) = load_from-Placed 65536 0 m (λ x lo hi. refl) (omega arith) in
        rw (few, checked, ran) (refl, (refl, placed))
