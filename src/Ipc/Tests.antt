-- ===== src/Ipc/Tests.antt =====
-- Runs of kernel/process.c, kernel/sched.c and kernel/ipc.c on a small table, and the theorems at it.
use cnos.Prelude.{
  ℕ, ◌≤◌, ◌≡◌, refl, ◌⊎◌, inl, true, false, none, some, [], ◌∷◌, arith, ◌==◌, if◌then◌else◌,
}
use cnos.Ipc.Lost.{message_lost}
use cnos.Sched.RoundRobin.{Switches, schedule_lem}
use cnos.Process.Wait.{reap_child-mark_exit, mark_exit-wakes_parent}
use cnos.Sched.{schedule}
use cnos.Ipc.{
  ipc_receive_round, deliver, ipc_reply, sender_dequeue, ipc_send, sender_enqueue, ok, received,
  consume_pending_message, take_sender, send_to, msg_copy_to_buffer, dequeue_from, read_link,
  waiting,
}
use cnos.Ipc.Queue.{IsChain, sender_enqueue_lem}
use cnos.Sched.Search.{after}
use cnos.Process.Find.{find_by_pid_lem, IsTable}
use cnos.Process.Exit.{reap_child, mark_exit, current_task_for_ipc, ipc_wake_from_receive, woken}
use cnos.Sched.Fair.{ticks, tick_fair}
use cnos.Ipc.Links.{next, queue}
use cnos.Ipc.Rpc.{from, rpc_lem}
use cnos.Process.{
  Proc, ProcState, Message, System, is_ready, update, set_state, free, ready, running, blocked,
  receiving, sending, waiting_reply, first_from, find_by_pid,
}

abbrev blank_message : Message
blank_message = record { sender = 0; type = 0; payload = [] }

abbrev task : ℕ → ℕ → ProcState → Proc
task pid ppid st = record {
  pid = pid;
  ppid = ppid;
  state = st;
  rsp = 0;
  stack_base = 0;
  pml4_phys = 0;
  exit_code = 0;
  exited = false;
  wait_target = 0;
  wait_result_pid = 0;
  wait_result_status = 0;
  user_entry = 0;
  user_stack_top = 0;
  vm_flags = 0;
  open_files = 0;
  msg_buffer = blank_message;
  next_in_queue = none;
  sender_queue = none;
  msg_pending = false;
}

-- Slot 0 runs, slot 3 is RECEIVING, slot 5 is READY, slot 6 is BLOCKED; all others are free.
abbrev table : ℕ → Proc
table i =
    if i == 0
    then task 0 0 running
    else (if i == 3
        then task 3 0 receiving
        else (if i == 5
            then task 5 6 ready
            else (if i == 6 then task 6 0 blocked else task 0 0 free)))

abbrev system : System
system = record {
  tasks = table;
  current_task_idx = 0;
  task_count = 7;
  context_switches = 0;
  active_user_pid = 2;
  pmm = record { bitmap = 11 ∷ 0 ∷ []; total_pages = 12; used_pages = 3; bitmap_size = 2 };
  cr3 = 0;
  words = λ i. 0;
}

system-IsTable : IsTable system
system-IsTable = record {
  own_pid = λ i h f. ground arith;
  current = omega arith;
  solo = λ i h r. ground arith;
}

current_run : current_task_for_ipc system ≡ 0
unfolding current_task_for_ipc find_by_pid first_from
current_run = refl

abbrev request : Message
request = record { sender = 99; type = 10; payload = 47 ∷ [] }

abbrev response : Message
response = record { sender = 0; type = 11; payload = 3 ∷ [] }

-- The server's turn after the caller's send.
abbrev served : System
served = record system {
  tasks =
      update (update table 0 (task 0 0 waiting_reply)) 3
        (record (task 3 0 running) { msg_buffer = from request 0; msg_pending = true });
  current_task_idx = 3;
}

schedule_example :
    (((d : ℕ) → 1 ≤ d → d ≤ 16 → is_ready (table (after 0 d)).state ≡ false)
      × (schedule system ≡ system))
    ⊎ ((d : ℕ) × Switches system (schedule system) d)
schedule_example = schedule_lem system (omega arith)

tick_fair_example : (n : ℕ) × (1 ≤ n) × (n ≤ 5) × ((ticks n system).current_task_idx ≡ 5)
tick_fair_example = tick_fair system 5 (omega arith) (omega arith) refl

find_by_pid_example : find_by_pid 5 system ≡ some 5
find_by_pid_example = find_by_pid_lem 5 system system-IsTable

wakes_parent_example :
    let p = (mark_exit (some 5) 7 system).tasks 6 in
    (p.state ≡ ready) × (p.wait_result_pid ≡ 5) × (p.wait_result_status ≡ 7)
wakes_parent_example =
    mark_exit-wakes_parent system 5 6 7 system-IsTable (omega arith) (omega arith) (omega arith)
      refl refl refl (inl refl)

reap_child_example :
    let (r, u) = reap_child (some 6) 5 (mark_exit (some 5) 7 system) in
    (r ≡ some (5, 7)) × ((u.tasks 5).state ≡ free) × (u.pmm ≡ system.pmm)
reap_child_example =
    reap_child-mark_exit system 5 6 7 system-IsTable (omega arith) (omega arith) (omega arith)
      (omega arith) refl refl refl

-- Three senders wait for slot 3: 5, then 6, then 8.
abbrev waiting_table : ℕ → Proc
waiting_table i =
    if i == 3
    then record (task 3 0 running) { sender_queue = some 5 }
    else (if i == 5
        then record (task 5 0 sending) { next_in_queue = some 6 }
        else (if i == 6
            then record (task 6 0 sending) { next_in_queue = some 8 }
            else task i 0 sending))

abbrev waiting_system : System
waiting_system = record system { tasks = waiting_table; current_task_idx = 3 }

sender_enqueue_example :
    IsChain
      (next (sender_enqueue 3 9 waiting_system))
      (queue (sender_enqueue 3 9 waiting_system) 3)
      (9 ∷ 5 ∷ 6 ∷ 8 ∷ [])
    × ((i : ℕ)
        → queue (sender_enqueue 3 9 waiting_system) i
          ≡ (if 3 == i then some 9 else queue waiting_system i))
sender_enqueue_example =
    sender_enqueue_lem 3 9 waiting_system (5 ∷ 6 ∷ 8 ∷ []) (refl, (refl, (refl, refl)))
      (refl, (refl, (refl, tt)))

served-IsTable : IsTable served
served-IsTable = record {
  own_pid = λ i h f. ground arith;
  current = omega arith;
  solo = λ i h r. ground arith;
}

rpc_example :
    let (got, u) = ipc_receive_round 0 true served in
    let (done, w) = ipc_reply 0 (some response) u in
    ((ipc_send 3 (some request) system).0 ≡ ok)
    × (got ≡ received (from request 0))
    × (done ≡ true)
    × ((consume_pending_message 0 w).0 ≡ from response 3)
unfolding ipc_send send_to deliver msg_copy_to_buffer set_state find_by_pid first_from
    current_task_for_ipc ipc_wake_from_receive woken
rpc_example =
    rpc_lem system served 0 3 0 request response system-IsTable served-IsTable (omega arith)
      (omega arith) (omega arith) refl refl refl (inl refl) refl refl refl refl refl

-- Slot 3 waits for task 9 and holds an unread message of task 0; task 5 sends next.
abbrev stale : System
stale = served

abbrev later : System
later = record stale {
  tasks = update stale.tasks 3 (set_state (stale.tasks 3) receiving);
  current_task_idx = 5;
}

later-IsTable : IsTable later
unfolding set_state
later-IsTable = record {
  own_pid = λ i h f. ground arith;
  current = omega arith;
  solo = λ i h r. ground arith;
}

message_lost_example :
    ((ipc_receive_round 9 true stale).0 ≡ waiting)
    × ((later.tasks 3).msg_buffer ≡ from request 0)
    × ((later.tasks 3).msg_pending ≡ true)
    × ((ipc_send 3 (some response) later).0 ≡ ok)
    × (((ipc_send 3 (some response) later).1.tasks 3).msg_buffer ≡ from response 5)
unfolding ipc_receive_round take_sender sender_dequeue dequeue_from read_link set_state find_by_pid
    first_from current_task_for_ipc
message_lost_example =
    message_lost stale later 3 5 9 response later-IsTable (omega arith) refl refl refl (omega arith)
      (omega arith) refl refl (omega arith)
