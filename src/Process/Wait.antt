-- ===== src/Process/Wait.antt =====
-- A child's exit status reaches its parent.
use cnos.Prelude.{
  ℕ, ◌<◌, ◌≡◌, refl, ap, ◌∙◌, ◌≢◌, ◌⊎◌, true, false, Option, some, arith, ◌==◌, if◌then◌else◌,
  ==_iff,
}
use cnos.Pmm.{Pmm, free_page}
use cnos.Process.{
  Proc, System, max_tasks, is_free, first_slot, set_state, clear_runtime, find_by_pid, ready, free,
}
use cnos.Process.Exit.{
  mark_exit, reap_child, release_slot, wake_parent, reapable, exit_task, notify_parent, is_blocked,
}
use cnos.Process.Find.{IsTable, first_slot_only, find_by_pid_lem}
use cnos.Process.Life.{mark_exit-IsTable, after_exit, after_exit-IsTable}

reap_child_at :
    (t : System) (j i : ℕ)
    → first_slot (λ k. reapable (t.tasks k) (t.tasks j).pid i) ≡ some i
    → reap_child (some j) i t ≡ (some ((t.tasks i).pid, (t.tasks i).exit_code), release_slot i t)
unfolding reap_child
reap_child_at t j i e = rw (e, reap_child)

-- The slot of a task that has exited is given back.
reaped :
    (t : System) (p : Proc) (i status : ℕ) (m : Pmm)
    → t.tasks i ≡ exit_task p status
    → p.pid ≡ i
    → t.pmm ≡ m
    → (◌≡◌ {A = Option (ℕ × ℕ)} (some ((t.tasks i).pid, (t.tasks i).exit_code)) (some (i, status)))
      × (((release_slot i t).tasks i).state ≡ free)
      × ((release_slot i t).pmm ≡ (if p.stack_base == 0 then m else free_page p.stack_base m))
unfolding exit_task release_slot clear_runtime set_state
reaped t p i status m e own q = rw (e, (==_iff i i).1 refl, q, own) (refl, refl, refl)

module _ (s : System) (i j status : ℕ) (v : IsTable s) (hi : i < max_tasks) (hj : j < max_tasks)
    (ne : (j == i) ≡ false) (child : is_free (s.tasks i).state ≡ false)
    (parent : is_free (s.tasks j).state ≡ false) (family : (s.tasks i).ppid ≡ j) where
  found : find_by_pid (s.tasks i).ppid (after_exit s i status) ≡ some j
  found =
      let here : (after_exit s i status).tasks j ≡ s.tasks j = ground arith in
      let r =
        find_by_pid_lem j (after_exit s i status) (after_exit-IsTable i status s v hi child) in
      ap (λ k. find_by_pid k (after_exit s i status)) family ∙ r ∙ ground arith

  -- The parent's slot after the exit, and the child's.
  exit-parent :
      (mark_exit (some i) status s).tasks j ≡ notify_parent (s.tasks j) (s.tasks i).pid status
  unfolding mark_exit wake_parent
  exit-parent =
      let here : (after_exit s i status).tasks j ≡ s.tasks j = ground arith in
      rw (found, (==_iff j j).1 refl) (ap (λ p. notify_parent p (s.tasks i).pid status) here)

  exit-child : (mark_exit (some i) status s).tasks i ≡ exit_task (s.tasks i) status
  unfolding mark_exit wake_parent
  exit-child = rw (found, ne, (==_iff i i).1 refl)

  exit-pmm : (mark_exit (some i) status s).pmm ≡ s.pmm
  unfolding mark_exit wake_parent
  exit-pmm = rw found

  exited_valid : IsTable (mark_exit (some i) status s)
  exited_valid = mark_exit-IsTable i status s v hi child

  parent_pid : ((mark_exit (some i) status s).tasks j).pid ≡ j
  unfolding notify_parent
  parent_pid = rw exit-parent (ground (arith, v.own_pid j hj parent))

  passes : let t = mark_exit (some i) status s in reapable (t.tasks i) (t.tasks j).pid i ≡ true
  unfolding exit_task
  passes = rw (exit-child, parent_pid) (ground (arith, v.own_pid i hi child, family))

  -- The parent is woken with the child's PID and status, if it is BLOCKED for it or for any child.
  wakes :
      is_blocked (s.tasks j).state ≡ true
      → ((s.tasks j).wait_target ≡ 0) ⊎ ((s.tasks j).wait_target ≡ i)
      → let p = (mark_exit (some i) status s).tasks j in
        (p.state ≡ ready) × (p.wait_result_pid ≡ i) × (p.wait_result_status ≡ status)
  unfolding notify_parent
  wakes b w =
      rw exit-parent (let own = v.own_pid i hi child in (ground arith, ground arith, ground arith))

  -- The scan of `process_reap_child` for this child finds it, and no other.
  reaps :
      i ≢ 0
      → first_slot (λ k.
        reapable
          ((mark_exit (some i) status s).tasks k)
          ((mark_exit (some i) status s).tasks j).pid
          i)
        ≡ some i
  reaps nz =
      let t = mark_exit (some i) status s in
      first_slot_only (λ k. reapable (t.tasks k) (t.tasks j).pid i) i hi passes
        (λ m h r. ground (arith, exited_valid.own_pid m h))

-- When child `i` of `j` exits, a parent that is BLOCKED for it, or for any child, is made READY
-- with the child's PID and exit status.
pub mark_exit-wakes_parent :
    (s : System) (i j status : ℕ)
    → IsTable s
    → i < max_tasks
    → j < max_tasks
    → i ≢ j
    → is_free (s.tasks i).state ≡ false
    → is_blocked (s.tasks j).state ≡ true
    → (s.tasks i).ppid ≡ j
    → ((s.tasks j).wait_target ≡ 0) ⊎ ((s.tasks j).wait_target ≡ i)
    → let p = (mark_exit (some i) status s).tasks j in
      (p.state ≡ ready) × (p.wait_result_pid ≡ i) × (p.wait_result_status ≡ status)
mark_exit-wakes_parent s i j status v hi hj ne child b family w =
    wakes s i j status v hi hj (ground arith) child (ground arith) family b w

-- `waitpid` after `_exit`: when child `i` of `j` has exited, the parent's `process_reap_child` for
-- it returns the child's PID and exit status, frees the child's slot, and gives its stack page
-- back if it has one.
pub reap_child-mark_exit :
    (s : System) (i j status : ℕ)
    → IsTable s
    → i < max_tasks
    → j < max_tasks
    → i ≢ 0
    → i ≢ j
    → is_free (s.tasks i).state ≡ false
    → is_free (s.tasks j).state ≡ false
    → (s.tasks i).ppid ≡ j
    → let (r, u) = reap_child (some j) i (mark_exit (some i) status s) in
      (r ≡ some (i, status))
      × ((u.tasks i).state ≡ free)
      × (u.pmm
          ≡ (if (s.tasks i).stack_base == 0 then s.pmm else free_page (s.tasks i).stack_base s.pmm))
reap_child-mark_exit s i j status v hi hj nz ne child parent family =
    let t = mark_exit (some i) status s in
    let e =
      reap_child_at t j i (reaps s i j status v hi hj (ground arith) child parent family nz) in
    let c = exit-child s i j status v hi hj (ground arith) child parent family in
    rw e (
      reaped t (s.tasks i) i status s.pmm c (v.own_pid i hi child)
        (exit-pmm s i j status v hi hj (ground arith) child parent family))
