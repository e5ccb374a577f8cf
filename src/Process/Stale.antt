-- ===== src/Process/Stale.antt =====
-- The stack page of a reaped task in kernel/process.c.
use cnos.Prelude.{
  ℕ, ◌≡◌, refl, ap, ◌∙◌, inl, inr, true, false, some, arith, ◌==◌, ==_iff, Option-cases,
}
use cnos.Pmm.{Pmm, free_page}
use cnos.Process.{System, is_free, first_slot, clear_runtime, set_state, alloc_user}
use cnos.Process.Exit.{release_slot}

release_slot-stack_base :
    (i : ℕ) (s : System) → ((release_slot i s).tasks i).stack_base ≡ (s.tasks i).stack_base
unfolding release_slot clear_runtime set_state
release_slot-stack_base i s = let self : (i == i) ≡ true = (==_iff i i).1 refl in rw self refl

release_slot-pmm :
    (i : ℕ) (s : System)
    → ((s.tasks i).stack_base == 0) ≡ false
    → (release_slot i s).pmm ≡ free_page (s.tasks i).stack_base s.pmm
unfolding release_slot
release_slot-pmm i s owned = rw owned refl

alloc_user-stack_base :
    (ppid i : ℕ) (u : System)
    → (alloc_user ppid u).0 ≡ some i
    → (((alloc_user ppid u).1.tasks i).stack_base ≡ (u.tasks i).stack_base)
      × ((alloc_user ppid u).1.pmm ≡ u.pmm)
unfolding alloc_user clear_runtime
alloc_user-stack_base ppid i u e =
    elim (Option-cases (first_slot (λ k. is_free (u.tasks k).state))) [
      | inl full ↦ absurd (ground (arith, rw (alloc_user, full) at e))
      | inr (k, q) ↦
          let same : k ≡ i = ground (arith, rw (alloc_user, q) at e) in
          let self : (k == i) ≡ true = (==_iff k i).1 same in
          rw (alloc_user, q, self) (ap (λ j. (u.tasks j).stack_base) same, refl)
    ]

-- A double free: slot `i` has a stack page and is reaped, which gives the page back. Then other
-- code runs, which may hand the page to a new owner and leaves `q` of the allocator. When
-- `process_alloc_user` gives the slot to a user task and that task is reaped, the page is given
-- back once more.
pub release_slot-alloc_user :
    (ppid i : ℕ) (s : System) (q : Pmm)
    → let r = alloc_user ppid (record (release_slot i s) { pmm = q }) in
      ((s.tasks i).stack_base == 0) ≡ false
      → r.0 ≡ some i
      → ((release_slot i s).pmm ≡ free_page (s.tasks i).stack_base s.pmm)
        × ((release_slot i r.1).pmm ≡ free_page (s.tasks i).stack_base q)
release_slot-alloc_user ppid i s q owned e =
    let u = record (release_slot i s) { pmm = q } in
    let (base, pmm) = alloc_user-stack_base ppid i u e in
    let kept = base ∙ release_slot-stack_base i s in
    let r = alloc_user ppid u in
    let again : ((r.1.tasks i).stack_base == 0) ≡ false = rw kept owned in
    (release_slot-pmm i s owned, release_slot-pmm i r.1 again ∙ λ j. free_page (kept j) (pmm j))
