-- ===== src/Ipc.antt =====
-- kernel/ipc.c: synchronous messages between tasks. A task is a slot of the table. A call that
-- waits is split at the wait: `queued` and `waiting` hand back the state in which the code lets
-- other code run (`sched_yield`, `sti; hlt; cli`), and the poll or the next round goes on from
-- whatever state that code has made.
pub mod Links
pub mod Queue
pub mod Keeps
pub mod Table
pub mod Rpc
pub mod Lost
mod Tests
use cnos.Prelude.{
  ℕ, zero, suc, ◌+◌, ◌-◌, ◌*◌, ◌/◌, ◌%◌, ◌^◌, ◌≤◌, ◌<◌, ◌≡◌, refl, sym, ap, ◌∙◌, subst, fun_ext,
  ◌≢◌, ◌↔◌, ◌⊎◌, inl, inr, Bool, true, false, not, ◌&&◌, ◌||◌, Option, none, some, List, [], ◌∷◌,
  ◌++◌, arith, ltb, leb, ◌==◌, if◌then◌else◌, ltb→lt, lt→ltb, ==_iff, Bool-cases, Option-cases,
  length, get_or, set, length-set, get_or-set_self, get_or-set_ne, set-get_or, set-set, set_bit,
  clear_bit, test_bit, test_bit-set_bit, test_bit-clear_bit, set_bit-lt, clear_bit-lt,
  clear_bit-set_bit,
}
use cnos.Process.{
  Proc, Message, System, ProcState, receiving, sending, waiting_reply, is_free, set_task, set_state,
  find_by_pid, get_current_process, max_tasks,
}
use cnos.Process.Exit.{
  is_receiving, is_waiting_reply, current_task_for_ipc, ipc_wake_from_receive, ipc_wake_after_reply,
}
use cnos.Sched.{sched_yield}

abbrev pub is_sending : ProcState → Bool
is_sending sending = true
is_sending _ = false

-- The sender is the PID of `src`, whatever the message says.
unfoldable pub msg_copy_to_buffer : Proc → Proc → Message → Proc
msg_copy_to_buffer dest src msg = record dest { msg_buffer = record msg { sender = src.pid } }

unfoldable pub msg_copy_out : Proc → Message
msg_copy_out p = p.msg_buffer

unfoldable pub stash_outgoing : Proc → Message → Proc
unfolding msg_copy_to_buffer
stash_outgoing p msg = msg_copy_to_buffer p p msg

abbrev pub set_next : Proc → Option ℕ → Proc
set_next p n = record p { next_in_queue = n }

abbrev pub set_queue : Proc → Option ℕ → Proc
set_queue p n = record p { sender_queue = n }

unfoldable pub sender_enqueue : ℕ → ℕ → System → System
sender_enqueue dest sender s =
    let s1 = set_task s sender (set_next (s.tasks sender) (s.tasks dest).sender_queue) in
    set_task s1 dest (set_queue (s1.tasks dest) (some sender))

-- What `pp` points at: the receiver's `sender_queue`, or some sender's `next_in_queue`.
pub data Link : Type 0 where
  head : Link
  next_of : ℕ → Link

unfoldable pub read_link : Link → ℕ → System → Option ℕ
read_link head recv s = (s.tasks recv).sender_queue
read_link (next_of i) recv s = (s.tasks i).next_in_queue

unfoldable pub write_link : Link → ℕ → Option ℕ → System → System
write_link head recv v s = set_task s recv (set_queue (s.tasks recv) v)
write_link (next_of i) recv v s = set_task s i (set_next (s.tasks i) v)

abbrev pub matches : ℕ → System → ℕ → Bool
matches src s c = src == 0 || (s.tasks c).pid == src

unfoldable pub unlink : Link → ℕ → ℕ → System → System
unlink l recv c s =
    let s1 = write_link l recv (s.tasks c).next_in_queue s in
    set_task s1 c (set_next (s1.tasks c) none)

unfoldable pub dequeue_from : ℕ → Link → ℕ → ℕ → System → Option ℕ × System
dequeue_from zero l recv src s = (none, s)
dequeue_from (suc fuel) l recv src s = elim (read_link l recv s) [
  | none ↦ (none, s)
  | some c ↦
      let rest = dequeue_from fuel (next_of c) recv src s in
      if matches src s c then (some c, unlink l recv c s) else rest
]

-- A queue holds each slot once at most, so seventeen rounds reach its end.
unfoldable pub sender_dequeue : ℕ → ℕ → System → Option ℕ × System
sender_dequeue recv src s = dequeue_from (max_tasks + 1) head recv src s

unfoldable pub wake_sender_after_deliver : ℕ → System → System
wake_sender_after_deliver c s =
    if is_sending (s.tasks c).state then set_task s c (set_state (s.tasks c) waiting_reply) else s

-- The test of the loop of `ipc_wait_until_pending`.
pub is_pending : ℕ → System → Bool
is_pending i s = (s.tasks i).msg_pending

unfoldable pub consume_pending_message : ℕ → System → Message × System
unfolding msg_copy_out
consume_pending_message i s =
    (msg_copy_out (s.tasks i), set_task s i (record (s.tasks i) { msg_pending = false }))

pub data SendResult : Type 0 where
  error ok : SendResult
  queued : ℕ → SendResult

-- The message for a task that is RECEIVING; its sender waits for the reply.
unfoldable pub deliver : ℕ → ℕ → Message → System → System
deliver dest cur msg s =
    let filled = msg_copy_to_buffer (s.tasks dest) (s.tasks cur) msg in
    let s1 = set_task s dest (record filled { msg_pending = true }) in
    let s2 = ipc_wake_from_receive dest s1 in
    set_task s2 cur (set_state (s2.tasks cur) waiting_reply)

unfoldable pub enqueue_message : ℕ → ℕ → Message → System → System
enqueue_message dest cur msg s =
    let s1 = set_task s cur (set_state (stash_outgoing (s.tasks cur) msg) sending) in
    sender_enqueue dest cur s1

unfoldable pub send_to : ℕ → ℕ → Message → System → SendResult × System
send_to dest cur msg s =
    if is_free (s.tasks dest).state
    then (error, s)
    else (if dest == cur
        then (error, s)
        else (if is_receiving (s.tasks dest).state
            then (ok, deliver dest cur msg s)
            else (queued cur, enqueue_message dest cur msg s)))

-- Up to the loop `while (current->state == PROC_STATE_SENDING)`.
unfoldable pub ipc_send : ℕ → Option Message → System → SendResult × System
ipc_send dest_pid none s = (error, s)
ipc_send dest_pid (some msg) s = elim (find_by_pid dest_pid s) [
  | none ↦ (error, s)
  | some dest ↦ send_to dest (current_task_for_ipc s) msg s
]

-- One test of that loop, and its body.
unfoldable pub ipc_send_poll : ℕ → System → SendResult × System
ipc_send_poll cur s =
    if is_sending (s.tasks cur).state then (queued cur, sched_yield s) else (ok, s)

pub data ReceiveResult : Type 0 where
  error : ReceiveResult
  received : Message → ReceiveResult
  waiting : ReceiveResult

unfoldable pub take_sender : ℕ → Option ℕ × System → ReceiveResult × System
take_sender cur (none, s) = (waiting, set_task s cur (set_state (s.tasks cur) receiving))
take_sender cur (some c, s) = (received (msg_copy_out (s.tasks c)), wake_sender_after_deliver c s)

-- One round of the loop of `ipc_receive`; the flag says that `msg` is not NULL. A task runs its
-- round while it is the current one, so `current`, read once before the loop, is that one.
unfoldable pub ipc_receive_round : ℕ → Bool → System → ReceiveResult × System
ipc_receive_round src false s = (error, s)
ipc_receive_round src true s =
    let cur = get_current_process s in
    let p = s.tasks cur in
    if p.msg_pending && (src == 0 || p.msg_buffer.sender == src)
    then (
      received (msg_copy_out p),
      ipc_wake_from_receive cur (set_task s cur (record p { msg_pending = false })),
    )
    else take_sender cur (sender_dequeue cur src s)

unfoldable pub answer : ℕ → ℕ → Message → System → System
answer peer cur msg s =
    let filled = msg_copy_to_buffer (s.tasks peer) (s.tasks cur) msg in
    ipc_wake_after_reply peer (set_task s peer (record filled { msg_pending = true }))

-- `true` is IPC_OK.
unfoldable pub ipc_reply : ℕ → Option Message → System → Bool × System
ipc_reply dest_pid none s = (false, s)
ipc_reply dest_pid (some msg) s = elim (find_by_pid dest_pid s) [
  | none ↦ (false, s)
  | some peer ↦
      if is_waiting_reply (s.tasks peer).state
      then (true, answer peer (get_current_process s) msg s)
      else (false, s)
]
