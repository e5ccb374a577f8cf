-- ===== src/Kernel/Tests.antt =====
-- A run of kernel/process.c, kernel/sched.c and kernel/ipc.c from the boot on.
use cnos.Prelude.{false, none, []}
use cnos.Process.{Proc, Message, System, ready}

abbrev nothing : Message
nothing = record { sender = 0; type = 0; payload = [] }

-- Memory before `process_init`: nothing in it can be relied on.
abbrev garbage : Proc
garbage = record {
  pid = 77;
  ppid = 1;
  state = ready;
  rsp = 0;
  stack_base = 0;
  pml4_phys = 0;
  exit_code = 0;
  exited = false;
  wait_target = 0;
  wait_result_pid = 0;
  wait_result_status = 0;
  user_entry = 0;
  user_stack_top = 0;
  vm_flags = 0;
  open_files = 0;
  msg_buffer = nothing;
  next_in_queue = none;
  sender_queue = none;
  msg_pending = false;
}

abbrev boot : System
boot = record {
  tasks = λ i. garbage;
  current_task_idx = 5;
  task_count = 9;
  context_switches = 0;
  active_user_pid = 0;
  pmm = record { bitmap = []; total_pages = 0; used_pages = 0; bitmap_size = 0 };
  cr3 = 4096;
  words = λ i. 0;
}
