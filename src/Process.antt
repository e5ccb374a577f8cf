-- ===== src/Process.antt =====
-- kernel/process.c and kernel/process.h: the task table of 16 slots and the round-robin scheduler.
-- A pointer into `sched.tasks` is a slot's index, and NULL is `none`; the table is a function of
-- the index. What the functions reach outside the table (the page allocator, CR3, the words of
-- memory, the active user's PID, the counter of switches) are fields of the state.
pub mod Exit
pub mod Exec
pub mod Find
pub mod Slots
pub mod Life
pub mod Wait
pub mod Stale
mod Tests
use cnos.Prelude.{
  ℕ, zero, suc, ◌+◌, ◌-◌, ◌*◌, ◌%◌, ◌^◌, ◌==◌, ltb, leb, if◌then◌else◌, Bool, true, false, not,
  ◌&&◌, ◌||◌, Option, none, some, List, [], ◌∷◌,
}
use cnos.Pmm.{Pmm, alloc_page, free_page}

pub data ProcState : Type 0 where
  free ready running blocked sending receiving sleeping exited waiting_reply user_slot : ProcState

-- `message_t` of kernel/ipc.h; the payload has 48 bytes.
pub record Message : Type 0 where
  pub sender : ℕ
  pub type : ℕ
  pub payload : List ℕ

-- `proc_t`. An `int` that is only stored (`exit_code`, `wait_result_status`) is its bit pattern.
pub record Proc : Type 0 where
  pub pid : ℕ
  pub ppid : ℕ
  pub state : ProcState
  pub rsp : ℕ
  pub stack_base : ℕ
  pub pml4_phys : ℕ
  pub exit_code : ℕ
  pub exited : Bool
  pub wait_target : ℕ
  pub wait_result_pid : ℕ
  pub wait_result_status : ℕ
  pub user_entry : ℕ
  pub user_stack_top : ℕ
  pub vm_flags : ℕ
  pub open_files : ℕ
  pub msg_buffer : Message
  pub next_in_queue : Option ℕ
  pub sender_queue : Option ℕ
  pub msg_pending : Bool

pub record System : Type 0 where
  pub tasks : ℕ → Proc
  pub current_task_idx : ℕ
  pub task_count : ℕ
  pub context_switches : ℕ
  pub active_user_pid : ℕ
  pub pmm : Pmm
  pub cr3 : ℕ
  pub words : ℕ → ℕ

abbrev pub max_tasks : ℕ
max_tasks = 16

abbrev pub is_free : ProcState → Bool
is_free free = true
is_free _ = false

abbrev pub is_ready : ProcState → Bool
is_ready ready = true
is_ready _ = false

abbrev pub is_running : ProcState → Bool
is_running running = true
is_running _ = false

abbrev pub update {ℓ} : {A : Type ℓ} → (ℕ → A) → ℕ → A → ℕ → A
update f i v j = if i == j then v else f j

abbrev pub set_task : System → ℕ → Proc → System
set_task s i p = record s { tasks = update s.tasks i p }

-- `p->state = st`.
unfoldable pub set_state : Proc → ProcState → Proc
set_state p st = record p { state = st }

-- `for (i = 0; i < n; i++) if (test(i)) …`: the first index that passes.
unfoldable pub first_from : ℕ → ℕ → (ℕ → Bool) → Option ℕ
first_from zero i test = none
first_from (suc n) i test = let rest = first_from n (i + 1) test in if test i then some i else rest

abbrev pub first_slot : (ℕ → Bool) → Option ℕ
first_slot test = first_from max_tasks 0 test

unfoldable pub clear_runtime : Proc → Proc
clear_runtime p = record p {
  ppid = 0;
  exit_code = 0;
  exited = false;
  wait_target = 0;
  wait_result_pid = 0;
  wait_result_status = 0;
  user_entry = 0;
  user_stack_top = 0;
  vm_flags = 0;
  open_files = 0;
  sender_queue = none;
  next_in_queue = none;
  msg_pending = false;
}

-- The loop of `process_sched_ready_count`.
count_ready : ℕ → ℕ → (ℕ → Proc) → ℕ
count_ready zero i tasks = 0
count_ready (suc n) i tasks =
    (if is_ready (tasks i).state then 1 else 0) + count_ready n (i + 1) tasks

pub sched_ready_count : System → ℕ
sched_ready_count s = count_ready max_tasks 0 s.tasks

abbrev pub get_current_process : System → ℕ
get_current_process s = s.current_task_idx

unfoldable pub process_init : System → System
unfolding clear_runtime set_state
process_init s = record s {
  tasks = update cleared 0 kernel_proc;
  current_task_idx = 0;
  task_count = 1;
}
  where
    cleared : ℕ → Proc
    cleared i = if ltb i max_tasks then clear_runtime (set_state (s.tasks i) free) else s.tasks i

    kernel_proc : Proc
    kernel_proc = clear_runtime (record (cleared 0) { pid = 0; state = running; pml4_phys = s.cr3 })

unfoldable pub find_by_pid : ℕ → System → Option ℕ
find_by_pid pid s = first_slot (λ i. not (is_free (s.tasks i).state) && (s.tasks i).pid == pid)

-- `*(--stack_top) = v` on 64-bit words.
push_word : (ℕ → ℕ) × ℕ → ℕ → (ℕ → ℕ) × ℕ
push_word (mem, top) v = (update mem (top - 8) v, top - 8)

push_zeros : ℕ → (ℕ → ℕ) × ℕ → (ℕ → ℕ) × ℕ
push_zeros zero m = m
push_zeros (suc n) m = push_zeros n (push_word m 0)

-- The interrupt frame (SS, RSP, RFLAGS, CS, RIP), two words and fifteen registers.
build_frame : (ℕ → ℕ) → ℕ → ℕ → (ℕ → ℕ) × ℕ
unfolding push_word push_zeros
build_frame mem stack_top entry =
    let m1 = push_word (mem, stack_top) 0x10 in
    let m2 = push_word m1 m1.1 in
    let m3 = push_word m2 0x202 in
    let m4 = push_word m3 0x08 in
    let m5 = push_word m4 entry in push_zeros 15 (push_word (push_word m5 0) 0)

-- `pmm_alloc_page` may return NULL, which the code does not test.
pub init_kernel_stack : ℕ → ℕ → System → System
init_kernel_stack i entry s =
    let (base, pmm') = alloc_page s.pmm in
    let (mem, top) = build_frame s.words (base + 4096) entry in
    record s {
      tasks =
          update s.tasks i (record (s.tasks i) { stack_base = base; rsp = top; pml4_phys = s.cr3 });
      pmm = pmm';
      words = mem;
    }

abbrev raise_count : ℕ → ℕ → ℕ
raise_count i n = if ltb n (i + 1) then i + 1 else n

pub alloc_user : ℕ → System → Option ℕ × System
unfolding clear_runtime
alloc_user ppid s = elim (first_slot (λ i. is_free (s.tasks i).state)) [
  | none ↦ (none, s)
  | some i ↦ (
    some i,
    record s {
      tasks =
          update s.tasks i
            (record (clear_runtime (record (s.tasks i) { state = ready; pml4_phys = s.cr3 })) {
              pid = i;
              ppid = ppid;
            });
      task_count = raise_count i s.task_count;
    },
  )
]

abbrev fresh_task : Proc → ℕ → Proc
fresh_task p pid = record (clear_runtime (set_state p ready)) { pid = pid }

pub process_create : ℕ → System → Option ℕ × System
unfolding clear_runtime set_state
process_create entry s = elim (first_slot (λ i. is_free (s.tasks i).state)) [
  | none ↦ (none, s)
  | some i ↦
      let s' = init_kernel_stack i entry (set_task s i (fresh_task (s.tasks i) i)) in
      (some i, record s' { task_count = s'.task_count + 1 })
]

-- `int idx = (int)pid; idx <= 0 || idx >= MAX_TASKS`.
abbrev pub slot_of : ℕ → ℕ
slot_of pid = pid % 2 ^ 32

abbrev pub bad_slot : ℕ → Bool
bad_slot pid = slot_of pid == 0 || (leb (2 ^ 31) (slot_of pid) || leb max_tasks (slot_of pid))

pub spawn_kernel_at_pid : ℕ → ℕ → System → Option ℕ × System
unfolding clear_runtime set_state
spawn_kernel_at_pid pid entry s =
    let idx = slot_of pid in
    if bad_slot pid || entry == 0
    then (none, s)
    else (if not (is_free (s.tasks idx).state)
        then (none, s)
        else (let s' =
              init_kernel_stack idx entry (set_task s idx (fresh_task (s.tasks idx) pid)) in
            (some idx, record s' { task_count = raise_count idx s'.task_count })))

pub bind_user_slot_ex : ℕ → ℕ → System → System
unfolding clear_runtime
bind_user_slot_ex pid ppid s =
    let idx = slot_of pid in
    if bad_slot pid
    then s
    else (if not (is_free (s.tasks idx).state) && not ((s.tasks idx).pid == pid)
        then s
        else record s {
          tasks = update s.tasks idx (record (clear_runtime (s.tasks idx)) {
            pid = pid;
            ppid = ppid;
            state = user_slot;
            pml4_phys = s.cr3;
            stack_base = 0;
            rsp = 0;
          });
          task_count = raise_count idx s.task_count;
        })

pub bind_user_slot : ℕ → System → System
unfolding bind_user_slot_ex
bind_user_slot pid s = bind_user_slot_ex pid 0 s
