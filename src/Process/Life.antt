-- ===== src/Process/Life.antt =====
-- Exit, reaping and waking keep the table valid, and what a parent gets of its child.
use cnos.Prelude.{
  ℕ, ◌<◌, ◌≡◌, refl, sym, ◌∙◌, subst, inl, inr, true, false, Option, none, some, arith, ◌==◌,
  if◌then◌else◌, ==_iff, Bool-cases, Option-cases,
}
use cnos.Pmm.{Pmm}
use cnos.Process.{
  Proc, System, max_tasks, is_free, is_running, set_state, set_task, clear_runtime, find_by_pid,
  free,
}
use cnos.Process.Exit.{
  mark_exit, reap_child, release_slot, wake_parent, reapable, exit_task, notify_parent, woken,
  is_receiving, is_waiting_reply, ipc_wake_from_receive, ipc_wake_after_reply,
}
use cnos.Process.Find.{IsTable, first_slot-First, find_by_pid_lem}
use cnos.Process.Slots.{Puts-IsTable}

-- A live slot is written, its PID kept.
pub set_task-IsTable :
    (s : System) (i : ℕ) (p : Proc)
    → IsTable s
    → i < max_tasks
    → is_free (s.tasks i).state ≡ false
    → p.pid ≡ (s.tasks i).pid
    → (is_running p.state ≡ true → is_running (s.tasks i).state ≡ true)
    → IsTable (set_task s i p)
set_task-IsTable s i p v h live e r = Puts-IsTable s _ i v (record {
  current = refl;
  others = λ j q. rw q;
  pid = rw ((==_iff i i).1 refl) (e ∙ v.own_pid i h live);
  idle = rw ((==_iff i i).1 refl) r;
})

active-IsTable : (s : System) (a : ℕ) → IsTable s → IsTable (record s { active_user_pid = a })
active-IsTable s a v = record { own_pid = v.own_pid; current = v.current; solo = v.solo }

pmm-IsTable : (s : System) (p : Pmm) → IsTable s → IsTable (record s { pmm = p })
pmm-IsTable s p v = record { own_pid = v.own_pid; current = v.current; solo = v.solo }

notify-keeps :
    (p : Proc) (pid status : ℕ)
    → ((notify_parent p pid status).pid ≡ p.pid)
      × (is_running (notify_parent p pid status).state ≡ true → is_running p.state ≡ true)
unfolding notify_parent
notify-keeps p pid status = (ground arith, ground arith)

-- A PID that is found names a live slot.
pub find_by_pid-live :
    (pid j : ℕ) (s : System)
    → IsTable s
    → find_by_pid pid s ≡ some j
    → (j ≡ pid) × (j < max_tasks) × (is_free (s.tasks j).state ≡ false)
find_by_pid-live pid j s v e =
    let r = find_by_pid_lem pid s v in
    let q : j ≡ pid = ground arith in
    (q, ground arith, subst (λ k. is_free (s.tasks k).state ≡ false) (sym q) (ground arith))

wake_parent-IsTable :
    (ppid pid status : ℕ) (s : System)
    → IsTable s
    → IsTable (wake_parent (find_by_pid ppid s) pid status s)
unfolding wake_parent
wake_parent-IsTable ppid pid status s v = elim (Option-cases (find_by_pid ppid s)) [
  | inl e ↦ rw e v
  | inr (j, e) ↦
      let (_, h, live) = find_by_pid-live ppid j s v e in
      let (keeps, idle) = notify-keeps (s.tasks j) pid status in
      rw e (set_task-IsTable s j (notify_parent (s.tasks j) pid status) v h live keeps idle)
]

exit-keeps :
    (p : Proc) (status : ℕ)
    → ((exit_task p status).pid ≡ p.pid)
      × (is_running (exit_task p status).state ≡ true → is_running p.state ≡ true)
unfolding exit_task
exit-keeps p status = (refl, λ r. cc)

-- The state in which `process_mark_exit` looks for the parent.
abbrev pub after_exit : System → ℕ → ℕ → System
after_exit s i status = record (set_task s i (exit_task (s.tasks i) status)) {
  active_user_pid = if (s.tasks i).pid == s.active_user_pid then 0 else s.active_user_pid;
}

pub after_exit-IsTable :
    (i status : ℕ) (s : System)
    → IsTable s
    → i < max_tasks
    → is_free (s.tasks i).state ≡ false
    → IsTable (after_exit s i status)
after_exit-IsTable i status s v h live =
    let k = exit-keeps (s.tasks i) status in
    active-IsTable _ _ (set_task-IsTable s i (exit_task (s.tasks i) status) v h live k.0 k.1)

pub mark_exit-IsTable :
    (i status : ℕ) (s : System)
    → IsTable s
    → i < max_tasks
    → is_free (s.tasks i).state ≡ false
    → IsTable (mark_exit (some i) status s)
unfolding mark_exit
mark_exit-IsTable i status s v h live =
    wake_parent-IsTable (s.tasks i).ppid (s.tasks i).pid status (after_exit s i status)
      (after_exit-IsTable i status s v h live)

pub reap_child-IsTable :
    (parent : Option ℕ) (target : ℕ) (s : System)
    → IsTable s
    → IsTable (reap_child parent target s).1
unfolding reap_child release_slot clear_runtime set_state
reap_child-IsTable none target s v = v
reap_child-IsTable (some parent) target s v =
    elim (first_slot-First (λ i. reapable (s.tasks i) (s.tasks parent).pid target)) [
      | inl (e, _) ↦ rw (e, reap_child) v
      | inr (i, e, _, h, t, _) ↦
          rw (e, reap_child)
            (pmm-IsTable _ _ (
              set_task-IsTable s i (clear_runtime (set_state (s.tasks i) free)) v h (ground arith)
                refl (λ r. cc)))
    ]

woken-keeps :
    (s : System) (p : Proc)
    → ((woken s p).pid ≡ p.pid) × (is_running (woken s p).state ≡ true → is_running p.state ≡ true)
unfolding woken set_state
woken-keeps s p = (ground arith, ground arith)

pub ipc_wake_from_receive-IsTable :
    (i : ℕ) (s : System) → IsTable s → i < max_tasks → IsTable (ipc_wake_from_receive i s)
unfolding ipc_wake_from_receive
ipc_wake_from_receive-IsTable i s v h = elim (Bool-cases (is_receiving (s.tasks i).state)) [
  | inl r ↦
      let k = woken-keeps s (s.tasks i) in
      rw r (set_task-IsTable s i (woken s (s.tasks i)) v h (ground arith) k.0 k.1)
  | inr r ↦ rw r v
]

pub ipc_wake_after_reply-IsTable :
    (i : ℕ) (s : System) → IsTable s → i < max_tasks → IsTable (ipc_wake_after_reply i s)
unfolding ipc_wake_after_reply
ipc_wake_after_reply-IsTable i s v h = elim (Bool-cases (is_waiting_reply (s.tasks i).state)) [
  | inl r ↦
      let k = woken-keeps s (s.tasks i) in
      rw r (set_task-IsTable s i (woken s (s.tasks i)) v h (ground arith) k.0 k.1)
  | inr r ↦ rw r v
]
