-- ===== src/Process/Tests.antt =====
-- A slot of kernel/process.c that is reaped, reused and reaped again.
use cnos.Prelude.{ℕ, ◌≡◌, refl, false, none, [], ◌∷◌, ◌==◌, if◌then◌else◌}
use cnos.Pmm.{free_page}
use cnos.Process.{
  Proc, ProcState, Message, System, free, running, exited, alloc_user, clear_runtime, set_state,
  first_from,
}
use cnos.Process.Exit.{release_slot}
use cnos.Process.Stale.{release_slot-alloc_user}

abbrev empty_message : Message
empty_message = record { sender = 0; type = 0; payload = [] }

abbrev task : ℕ → ProcState → ℕ → Proc
task pid st stack = record {
  pid = pid;
  ppid = 0;
  state = st;
  rsp = 0;
  stack_base = stack;
  pml4_phys = 0;
  exit_code = 0;
  exited = false;
  wait_target = 0;
  wait_result_pid = 0;
  wait_result_status = 0;
  user_entry = 0;
  user_stack_top = 0;
  vm_flags = 0;
  open_files = 0;
  msg_buffer = empty_message;
  next_in_queue = none;
  sender_queue = none;
  msg_pending = false;
}

-- Slot 0 runs, slot 1 has exited with a stack at page 2.
abbrev reaping : System
reaping = record {
  tasks = λ i.
      if i == 0 then task 0 running 0 else (if i == 1 then task 1 exited 8192 else task i free 0);
  current_task_idx = 0;
  task_count = 2;
  context_switches = 0;
  active_user_pid = 0;
  pmm = record { bitmap = 7 ∷ []; total_pages = 8; used_pages = 3; bitmap_size = 1 };
  cr3 = 4096;
  words = λ i. 0;
}

double_free_example :
    let r = alloc_user 0 (record (release_slot 1 reaping) { pmm = reaping.pmm }) in
    ((release_slot 1 reaping).pmm ≡ free_page 8192 reaping.pmm)
    × ((release_slot 1 r.1).pmm ≡ free_page 8192 reaping.pmm)
unfolding alloc_user release_slot clear_runtime set_state first_from
double_free_example = release_slot-alloc_user 0 1 reaping reaping.pmm refl refl
