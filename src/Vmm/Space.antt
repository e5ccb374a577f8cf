-- ===== src/Vmm/Space.antt =====
-- `vmm_create_address_space` of kernel/vmm.c: the new tables translate as the current ones do.
use cnos.Prelude.{
  ℕ, zero, suc, ◌+◌, ◌≤◌, ◌<◌, ◌≡◌, refl, ◌∙◌, subst, ◌⊎◌, inl, inr, Bool, true, false, arith, ◌==◌,
  ==_iff, Bool-cases,
}
use cnos.Pmm.{page_size, u64, alloc_page}
use cnos.Process.{update}
use cnos.Vmm.{pml4_index, slot, page_has_flags}
use cnos.Vmm.Map.{Vm, copy_entries, create_address_space}
use cnos.Vmm.Unmap.{at4, at3, at2, at1}

-- An address in no entry of the table at `new`.
abbrev pub OffPage : ℕ → ℕ → Type 0
OffPage new a = (a < new) ⊎ (new + page_size ≤ a)

module _ (new cur : ℕ) (fits : new + page_size ≤ u64) where
  copy_outside :
      (n i : ℕ) (mem : ℕ → ℕ) (a : ℕ)
      → i + n ≤ 512
      → OffPage new a
      → copy_entries n i new cur mem a ≡ mem a
  unfolding copy_entries
  copy_outside zero i mem a h off = refl
  copy_outside (suc n) i mem a h off =
      let other : (slot new i == a) ≡ false = ground arith in
      copy_outside n (i + 1) (update mem (slot new i) (mem (slot cur i))) a (omega arith) off
      ∙ rw other refl

  copy_kept :
      (n i : ℕ) (mem : ℕ → ℕ) (k : ℕ)
      → i + n ≤ 512
      → k < i
      → copy_entries n i new cur mem (slot new k) ≡ mem (slot new k)
  unfolding copy_entries
  copy_kept zero i mem k h before = refl
  copy_kept (suc n) i mem k h before =
      let other : (slot new i == slot new k) ≡ false = ground arith in
      copy_kept n (i + 1) (update mem (slot new i) (mem (slot cur i))) k (omega arith) (omega arith)
      ∙ rw other refl

  copied :
      (n i : ℕ) (mem : ℕ → ℕ) (k : ℕ)
      → i + n ≤ 512
      → i ≤ k
      → k < i + n
      → OffPage new (slot cur k)
      → copy_entries n i new cur mem (slot new k) ≡ mem (slot cur k)
  unfolding copy_entries
  copied zero i mem k h lo hi off = absurd (omega arith)
  copied (suc n) i mem k h lo hi off = elim (Bool-cases (i == k)) [
    | inl here ↦
        let same : i ≡ k = (==_iff i k).0 here in
        let self : (slot new i == slot new i) ≡ true = (==_iff _ _).1 refl in
        subst
          (λ j.
            copy_entries n (i + 1) new cur (update mem (slot new i) (mem (slot cur i))) (slot new j)
            ≡ mem (slot cur j))
          same
          (copy_kept n (i + 1) (update mem (slot new i) (mem (slot cur i))) i (omega arith)
              (omega arith)
            ∙ rw self refl)
    | inr later ↦
        let other : (slot new i == slot cur k) ≡ false = ground arith in
        copied n (i + 1) (update mem (slot new i) (mem (slot cur i))) k (omega arith) (ground arith)
          (omega arith) off
        ∙ rw other refl
  ]

-- A walk in a memory `m2` that has the top table of `cur` at `new` and the words of the walk from
-- `cur` in their places.
walk_moved :
    (mem m2 : ℕ → ℕ) (cur new virt : ℕ) (need : Bool)
    → m2 (at4 new virt) ≡ mem (at4 cur virt)
    → m2 (at3 mem cur virt) ≡ mem (at3 mem cur virt)
    → m2 (at2 mem cur virt) ≡ mem (at2 mem cur virt)
    → m2 (at1 mem cur virt) ≡ mem (at1 mem cur virt)
    → page_has_flags m2 new virt need ≡ page_has_flags mem cur virt need
unfolding page_has_flags
walk_moved mem m2 cur new virt need h4 h3 h2 h1 = rw (h4, h3, h2, h1) refl

-- When `vmm_create_address_space` gets a page, a walk from the new top table gives what the walk
-- from the current one gave, if no table on its way lies in that page, which was free.
pub create_address_space_lem :
    (cr3 virt : ℕ) (need : Bool) (s : Vm)
    → let page = (alloc_page s.pmm).0 in
      let r = create_address_space cr3 s in
      (page == 0) ≡ false
      → page + page_size ≤ u64
      → OffPage page (at4 cr3 virt)
      → OffPage page (at3 s.mem cr3 virt)
      → OffPage page (at2 s.mem cr3 virt)
      → OffPage page (at1 s.mem cr3 virt)
      → (r.0 ≡ page) × (page_has_flags r.1.mem r.0 virt need ≡ page_has_flags s.mem cr3 virt need)
unfolding create_address_space
create_address_space_lem cr3 virt need s given fits o4 o3 o2 o1 =
    let page = (alloc_page s.pmm).0 in
    let index : pml4_index virt < 512 = omega arith in
    let kept : (a : ℕ) → OffPage page a → copy_entries 512 0 page cr3 s.mem a ≡ s.mem a =
      λ a off. copy_outside page cr3 fits 512 0 s.mem a (omega arith) off in
    let top =
      copied page cr3 fits 512 0 s.mem (pml4_index virt) (omega arith) (omega arith) (omega arith)
        o4 in
    rw given (
      refl,
      walk_moved s.mem (copy_entries 512 0 page cr3 s.mem) cr3 page virt need top
          (kept (at3 s.mem cr3 virt) o3) (kept (at2 s.mem cr3 virt) o2)
          (kept (at1 s.mem cr3 virt) o1),
    )
