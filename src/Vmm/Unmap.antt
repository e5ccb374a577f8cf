-- ===== src/Vmm/Unmap.antt =====
-- `vmm_unmap` and `vmm_create_address_space` of kernel/vmm.c, seen by the page walk.
use cnos.Prelude.{
  ℕ, ◌≡◌, refl, ◌∙◌, inl, inr, Bool, true, false, not, ◌&&◌, arith, ◌==◌, if◌then◌else◌, ==_iff,
  Bool-cases,
}
use cnos.Process.{update}
use cnos.Vmm.{
  is_present, is_large, has_flags, page_of, pml4_index, pdpt_index, pd_index, pt_index, slot,
  page_has_flags,
}
use cnos.Vmm.Map.{vmm_unmap}

-- The addresses that the walk to `virt` reads, from the top table down.
abbrev pub at4 : ℕ → ℕ → ℕ
at4 pml4 virt = slot pml4 (pml4_index virt)

abbrev pub at3 : (ℕ → ℕ) → ℕ → ℕ → ℕ
at3 mem pml4 virt = slot (page_of (mem (at4 pml4 virt))) (pdpt_index virt)

abbrev pub at2 : (ℕ → ℕ) → ℕ → ℕ → ℕ
at2 mem pml4 virt = slot (page_of (mem (at3 mem pml4 virt))) (pd_index virt)

abbrev pub at1 : (ℕ → ℕ) → ℕ → ℕ → ℕ
at1 mem pml4 virt = slot (page_of (mem (at2 mem pml4 virt))) (pt_index virt)

-- The verdict of the walk on the four words it reads.
abbrev walk_words : ℕ → ℕ → ℕ → ℕ → Bool → Bool
walk_words e4 e3 e2 e1 need =
    if not (is_present e4)
    then false
    else (if not (is_present e3)
        then false
        else (if not (is_present e2)
            then false
            else (if is_large e2 then has_flags need e2 else has_flags need e1)))

walk_words-leaf :
    (e4 e3 e2 : ℕ) (need : Bool) → is_large e2 ≡ false → walk_words e4 e3 e2 0 need ≡ false
walk_words-leaf e4 e3 e2 need small = ground arith

walk_words-absent :
    (e4 e3 e2 e1 : ℕ) (need : Bool)
    → (is_present e4 && (is_present e3 && is_present e2)) ≡ false
    → walk_words e4 e3 e2 e1 need ≡ false
walk_words-absent e4 e3 e2 e1 need h = ground arith

-- The walk over a memory that has the words `e4` to `e1` in its way.
walk_over :
    (mem : ℕ → ℕ) (pml4 virt e4 e3 e2 e1 : ℕ) (need : Bool)
    → mem (at4 pml4 virt) ≡ e4
    → mem (slot (page_of e4) (pdpt_index virt)) ≡ e3
    → mem (slot (page_of e3) (pd_index virt)) ≡ e2
    → mem (slot (page_of e2) (pt_index virt)) ≡ e1
    → page_has_flags mem pml4 virt need ≡ walk_words e4 e3 e2 e1 need
unfolding page_has_flags
walk_over mem pml4 virt e4 e3 e2 e1 need h4 h3 h2 h1 = rw (h4, h3, h2, h1) refl

all_present : (ℕ → ℕ) → ℕ → ℕ → Bool
all_present mem pml4 virt =
    is_present (mem (at4 pml4 virt))
    && (is_present (mem (at3 mem pml4 virt)) && is_present (mem (at2 mem pml4 virt)))

choose_first :
    (a b c : Bool) (x y : ℕ → ℕ)
    → (a && (b && c)) ≡ false
    → (if not a then x else (if not b then x else (if not c then x else y))) ≡ x
choose_first false b c x y h = refl
choose_first true false c x y h = refl
choose_first true true false x y h = refl
choose_first true true true x y h = absurd (ground arith)

choose_last :
    (a b c : Bool) (x y : ℕ → ℕ)
    → (a && (b && c)) ≡ true
    → (if not a then x else (if not b then x else (if not c then x else y))) ≡ y
choose_last false b c x y h = absurd (ground arith)
choose_last true false c x y h = absurd (ground arith)
choose_last true true false x y h = absurd (ground arith)
choose_last true true true x y h = refl

unmap_absent :
    (mem : ℕ → ℕ) (pml4 virt : ℕ)
    → all_present mem pml4 virt ≡ false
    → vmm_unmap pml4 virt mem ≡ mem
unfolding vmm_unmap all_present
unmap_absent mem pml4 virt h =
    choose_first (is_present (mem (at4 pml4 virt))) (is_present (mem (at3 mem pml4 virt)))
      (is_present (mem (at2 mem pml4 virt))) mem (update mem (at1 mem pml4 virt) 0) h

unmap_present :
    (mem : ℕ → ℕ) (pml4 virt : ℕ)
    → all_present mem pml4 virt ≡ true
    → vmm_unmap pml4 virt mem ≡ update mem (at1 mem pml4 virt) 0
unfolding vmm_unmap all_present
unmap_present mem pml4 virt h =
    choose_last (is_present (mem (at4 pml4 virt))) (is_present (mem (at3 mem pml4 virt)))
      (is_present (mem (at2 mem pml4 virt))) mem (update mem (at1 mem pml4 virt) 0) h

untouched :
    (mem : ℕ → ℕ) (pml4 virt : ℕ) (need : Bool)
    → all_present mem pml4 virt ≡ false
    → page_has_flags mem pml4 virt need ≡ false
unfolding all_present
untouched mem pml4 virt need h =
    walk_over mem pml4 virt (mem (at4 pml4 virt)) (mem (at3 mem pml4 virt))
      (mem (at2 mem pml4 virt)) (mem (at1 mem pml4 virt)) need refl refl refl refl
    ∙ walk_words-absent (mem (at4 pml4 virt)) (mem (at3 mem pml4 virt)) (mem (at2 mem pml4 virt))
        (mem (at1 mem pml4 virt)) need h

cleared :
    (mem : ℕ → ℕ) (pml4 virt : ℕ) (need : Bool)
    → is_large (mem (at2 mem pml4 virt)) ≡ false
    → (at1 mem pml4 virt == at4 pml4 virt) ≡ false
    → (at1 mem pml4 virt == at3 mem pml4 virt) ≡ false
    → (at1 mem pml4 virt == at2 mem pml4 virt) ≡ false
    → page_has_flags (update mem (at1 mem pml4 virt) 0) pml4 virt need ≡ false
cleared mem pml4 virt need small n4 n3 n2 =
    let self : (at1 mem pml4 virt == at1 mem pml4 virt) ≡ true = (==_iff _ _).1 refl in
    walk_over (update mem (at1 mem pml4 virt) 0) pml4 virt (mem (at4 pml4 virt))
      (mem (at3 mem pml4 virt)) (mem (at2 mem pml4 virt)) 0 need (rw n4 refl) (rw n3 refl)
      (rw n2 refl) (rw self refl)
    ∙ walk_words-leaf (mem (at4 pml4 virt)) (mem (at3 mem pml4 virt)) (mem (at2 mem pml4 virt)) need
        small

-- After `vmm_unmap` the range checks refuse the page, whether it was mapped or not, and only the
-- word of its leaf entry may have changed; if the page is no part of a page of 2 MiB and the leaf
-- entry is no entry of a higher table.
pub page_has_flags-vmm_unmap :
    (mem : ℕ → ℕ) (pml4 virt : ℕ) (need : Bool)
    → is_large (mem (at2 mem pml4 virt)) ≡ false
    → (at1 mem pml4 virt == at4 pml4 virt) ≡ false
    → (at1 mem pml4 virt == at3 mem pml4 virt) ≡ false
    → (at1 mem pml4 virt == at2 mem pml4 virt) ≡ false
    → (page_has_flags (vmm_unmap pml4 virt mem) pml4 virt need ≡ false)
      × ((a : ℕ) → (at1 mem pml4 virt == a) ≡ false → vmm_unmap pml4 virt mem a ≡ mem a)
page_has_flags-vmm_unmap mem pml4 virt need small n4 n3 n2 =
    elim (Bool-cases (all_present mem pml4 virt)) [
      | inr absent ↦
          rw (unmap_absent mem pml4 virt absent) (untouched mem pml4 virt need absent, λ a ne. refl)
      | inl there ↦
          rw (unmap_present mem pml4 virt there)
            (cleared mem pml4 virt need small n4 n3 n2, λ a ne. rw ne refl)
    ]
