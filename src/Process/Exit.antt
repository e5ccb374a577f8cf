-- ===== src/Process/Exit.antt =====
-- kernel/process.c: exit, reaping, and the tasks that IPC wakes.
use cnos.Prelude.{ℕ, Bool, true, false, not, ◌&&◌, ◌||◌, Option, none, some, ◌==◌, if◌then◌else◌}
use cnos.Pmm.{free_page}
use cnos.Process.{
  Proc, System, ProcState, free, ready, blocked, sending, receiving, exited, waiting_reply,
  user_slot, set_task, update, first_slot, is_free, find_by_pid, clear_runtime, set_state,
  get_current_process,
}

abbrev pub is_blocked : ProcState → Bool
is_blocked blocked = true
is_blocked _ = false

abbrev pub is_receiving : ProcState → Bool
is_receiving receiving = true
is_receiving _ = false

abbrev pub is_waiting_reply : ProcState → Bool
is_waiting_reply waiting_reply = true
is_waiting_reply _ = false

-- `p` is not NULL: the code returns at once otherwise.
unfoldable pub exit_task : Proc → ℕ → Proc
exit_task p status = record p { exit_code = status; exited = true; state = exited }

-- A parent that waits for any child or for this one is woken with the result.
unfoldable pub notify_parent : Proc → ℕ → ℕ → Proc
notify_parent parent pid status =
    if is_blocked parent.state && (parent.wait_target == 0 || parent.wait_target == pid)
    then record parent { wait_result_pid = pid; wait_result_status = status; state = ready }
    else parent

unfoldable pub wake_parent : Option ℕ → ℕ → ℕ → System → System
wake_parent none pid status s = s
wake_parent (some j) pid status s = set_task s j (notify_parent (s.tasks j) pid status)

unfoldable pub mark_exit : Option ℕ → ℕ → System → System
unfolding wake_parent
mark_exit none status s = s
mark_exit (some i) status s =
    let p = s.tasks i in
    let s1 = set_task s i (exit_task p status) in
    let s2 = record s1 {
      active_user_pid = if p.pid == s.active_user_pid then 0 else s.active_user_pid;
    } in
    wake_parent (find_by_pid p.ppid s2) p.pid status s2

-- The tests of the loop of `process_reap_child`, for the slot of one task.
abbrev pub reapable : Proc → ℕ → ℕ → Bool
reapable p parent_pid target_pid =
    not (is_free p.state)
    && (p.ppid == parent_pid && ((target_pid == 0 || p.pid == target_pid) && p.exited))

-- The stack page is given back and the slot is free.
unfoldable pub release_slot : ℕ → System → System
release_slot i s = record s {
  tasks = update s.tasks i (clear_runtime (set_state (s.tasks i) free));
  pmm = if (s.tasks i).stack_base == 0 then s.pmm else free_page (s.tasks i).stack_base s.pmm;
}

-- `none` is the result -1; `some (pid, status)` is 0 with what goes through the two pointers.
unfoldable pub reap_child : Option ℕ → ℕ → System → Option (ℕ × ℕ) × System
reap_child none target_pid s = (none, s)
reap_child (some parent) target_pid s =
    elim (first_slot (λ i. reapable (s.tasks i) (s.tasks parent).pid target_pid)) [
      | none ↦ (none, s)
      | some i ↦ (some ((s.tasks i).pid, (s.tasks i).exit_code), release_slot i s)
    ]

abbrev ipc_user_state : ProcState → Bool
ipc_user_state user_slot = true
ipc_user_state waiting_reply = true
ipc_user_state sending = true
ipc_user_state _ = false

unfoldable pub current_task_for_ipc : System → ℕ
current_task_for_ipc s = elim (find_by_pid s.active_user_pid s) [
  | none ↦ get_current_process s
  | some u ↦
      if not (s.active_user_pid == 0) && ipc_user_state (s.tasks u).state
      then u
      else get_current_process s
]

unfoldable pub woken : System → Proc → Proc
woken s p =
    if p.pid == s.active_user_pid && not (s.active_user_pid == 0)
    then set_state p user_slot
    else set_state p ready

unfoldable pub ipc_wake_from_receive : ℕ → System → System
ipc_wake_from_receive i s =
    if is_receiving (s.tasks i).state then set_task s i (woken s (s.tasks i)) else s

unfoldable pub ipc_wake_after_reply : ℕ → System → System
ipc_wake_after_reply i s =
    if is_waiting_reply (s.tasks i).state then set_task s i (woken s (s.tasks i)) else s
