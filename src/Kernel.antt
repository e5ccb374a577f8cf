-- ===== src/Kernel.antt =====
-- The operations on the task table that kernel/process.c, kernel/sched.c and kernel/ipc.c offer, and
-- the writes that their callers make to it themselves, as the steps of one transition system:
-- interrupts and tasks may make them in any order.

mod Tests
use cnos.Prelude.{ℕ, ◌^◌, ◌<◌, ◌≡◌, inl, inr, Bool, false, Option, some, Bool-cases}
use cnos.Process.{
  Message, System, is_free, max_tasks, process_init, alloc_user, process_create,
  spawn_kernel_at_pid, bind_user_slot_ex,
}
use cnos.Process.Exec.{
  wait_blocked, take_result, drop_child, enter_child, share_space, activate_user,
  drop_child-IsTable, wait_blocked-IsTable, take_result-IsTable, enter_child-IsTable,
  share_space-IsTable, activate_user-IsTable,
}
use cnos.Process.Exit.{mark_exit, reap_child}
use cnos.Process.Find.{IsTable}
use cnos.Process.Slots.{
  alloc_user-IsTable, process_create-IsTable, spawn_kernel_at_pid-IsTable,
  bind_user_slot_ex-IsTable,
}
use cnos.Process.Life.{mark_exit-IsTable, reap_child-IsTable}
use cnos.Sched.{on_timer_tick, sched_yield}
use cnos.Sched.RoundRobin.{schedule-IsTable}
use cnos.Ipc.{
  is_sending, ipc_send, ipc_send_poll, ipc_receive_round, ipc_reply, consume_pending_message,
}
use cnos.Ipc.Table.{ipc_send-IsTable, ipc_receive_round-IsTable, ipc_reply-IsTable, consume-IsTable}

-- IPC calls are made by a live task; an exit is of a live task; so are the writes of wait, spawn
-- and fork, but for the one that frees a slot; PIDs fit an `int`.
pub data Step : System → System → Type 0 where
  tick : (s : System) → Step s (on_timer_tick s)
  poll_send : (cur : ℕ) (s : System) → Step s (ipc_send_poll cur s).1
  user : (ppid : ℕ) (s : System) → Step s (alloc_user ppid s).1
  create : (entry : ℕ) (s : System) → Step s (process_create entry s).1
  spawn : (pid entry : ℕ) (s : System) → pid < 2 ^ 31 → Step s (spawn_kernel_at_pid pid entry s).1
  bind : (pid ppid : ℕ) (s : System) → pid < 2 ^ 31 → Step s (bind_user_slot_ex pid ppid s)
  exit :
      (i status : ℕ) (s : System)
      → i < max_tasks
      → is_free (s.tasks i).state ≡ false
      → Step s (mark_exit (some i) status s)
  reap : (parent : Option ℕ) (target : ℕ) (s : System) → Step s (reap_child parent target s).1
  send :
      (dest_pid : ℕ) (m : Option Message) (s : System)
      → is_free (s.tasks s.current_task_idx).state ≡ false
      → Step s (ipc_send dest_pid m s).1
  receive :
      (src : ℕ) (msg : Bool) (s : System)
      → is_free (s.tasks s.current_task_idx).state ≡ false
      → Step s (ipc_receive_round src msg s).1
  reply : (dest_pid : ℕ) (m : Option Message) (s : System) → Step s (ipc_reply dest_pid m s).1
  consume : (i : ℕ) (s : System) → Step s (consume_pending_message i s).1
  block :
      (i target : ℕ) (s : System)
      → i < max_tasks
      → is_free (s.tasks i).state ≡ false
      → Step s (wait_blocked i target s)
  wake :
      (i : ℕ) (s : System)
      → i < max_tasks
      → is_free (s.tasks i).state ≡ false
      → Step s (take_result i s)
  unload : (i : ℕ) (s : System) → i < max_tasks → Step s (drop_child i s)
  enter :
      (i entry stack_top : ℕ) (s : System)
      → i < max_tasks
      → is_free (s.tasks i).state ≡ false
      → Step s (enter_child i entry stack_top s)
  fork :
      (i cur rip rsp : ℕ) (s : System)
      → i < max_tasks
      → is_free (s.tasks i).state ≡ false
      → Step s (share_space i cur rip rsp s)
  activate : (s : System) → Step s (activate_user s)

-- From `process_init` on.
pub data Reach (boot : System) : System → Type 0 where
  start : Reach boot (process_init boot)
  next : {s t : System} → Reach boot s → Step s t → Reach boot t

poll-IsTable : (cur : ℕ) (s : System) → IsTable s → IsTable (ipc_send_poll cur s).1
unfolding ipc_send_poll sched_yield
poll-IsTable cur s v = elim (Bool-cases (is_sending (s.tasks cur).state)) [
  | inl w ↦ rw w (schedule-IsTable s v)
  | inr w ↦ rw w v
]

pub Step-IsTable : {s t : System} → Step s t → IsTable s → IsTable t
unfolding on_timer_tick
Step-IsTable (tick s) v = schedule-IsTable s v
Step-IsTable (poll_send cur s) v = poll-IsTable cur s v
Step-IsTable (user ppid s) v = alloc_user-IsTable ppid s v
Step-IsTable (create entry s) v = process_create-IsTable entry s v
Step-IsTable (spawn pid entry s h) v = spawn_kernel_at_pid-IsTable pid entry s h v
Step-IsTable (bind pid ppid s h) v = bind_user_slot_ex-IsTable pid ppid s h v
Step-IsTable (exit i status s h live) v = mark_exit-IsTable i status s v h live
Step-IsTable (reap parent target s) v = reap_child-IsTable parent target s v
Step-IsTable (send dest_pid m s live) v = ipc_send-IsTable dest_pid m s v live
Step-IsTable (receive src msg s live) v = ipc_receive_round-IsTable src msg s v live
Step-IsTable (reply dest_pid m s) v = ipc_reply-IsTable dest_pid m s v
Step-IsTable (consume i s) v = consume-IsTable i s v
Step-IsTable (block i target s h live) v = wait_blocked-IsTable i s v h live target
Step-IsTable (wake i s h live) v = take_result-IsTable i s v h live
Step-IsTable (unload i s h) v = drop_child-IsTable i s v h
Step-IsTable (enter i entry stack_top s h live) v = enter_child-IsTable i s v h live entry stack_top
Step-IsTable (fork i cur rip rsp s h live) v = share_space-IsTable i s v h live cur rip rsp
Step-IsTable (activate s) v = activate_user-IsTable s v
