-- ===== src/Ipc/Table.antt =====
-- No call of kernel/ipc.c breaks the task table.
use cnos.Prelude.{
  ℕ, ◌≡◌, refl, ◌∙◌, inl, inr, Bool, true, false, ◌&&◌, ◌||◌, Option, none, some, ◌==◌,
  if◌then◌else◌, Bool-cases, Option-cases,
}
use cnos.Process.{Message, System, is_free, find_by_pid, receiving, get_current_process}
use cnos.Process.Exit.{current_task_for_ipc, is_receiving, is_waiting_reply}
use cnos.Process.Find.{IsTable}
use cnos.Process.Life.{find_by_pid-live}
use cnos.Ipc.{consume_pending_message, send_to, ipc_send, take_sender, ipc_receive_round, ipc_reply}
use cnos.Ipc.Keeps.{
  Keeps, Keeps-IsTable, Keeps-refl, Keeps-trans, set_task-Keeps, set_state-Fits,
  sender_dequeue-Keeps, wake_from_receive-Keeps, wake_sender-Keeps, deliver-Keeps,
  enqueue_message-Keeps, answer-Keeps,
}

if-live :
    (s : System) (b : Bool) (u w : ℕ)
    → is_free (s.tasks u).state ≡ false
    → is_free (s.tasks w).state ≡ false
    → is_free (s.tasks (if b then u else w)).state ≡ false
if-live s true u w hu hw = hu
if-live s false u w hu hw = hw

-- The task that sends is live: the current one, or the active user's.
pub current_task_for_ipc-live :
    (s : System)
    → IsTable s
    → is_free (s.tasks s.current_task_idx).state ≡ false
    → is_free (s.tasks (current_task_for_ipc s)).state ≡ false
unfolding current_task_for_ipc
current_task_for_ipc-live s v live = elim (Option-cases (find_by_pid s.active_user_pid s)) [
  | inl e ↦ rw (e, current_task_for_ipc) live
  | inr (u, e) ↦
      let found = (find_by_pid-live s.active_user_pid u s v e).2 in
      rw (e, current_task_for_ipc) (if-live s _ u s.current_task_idx found live)
]

send_to-Keeps :
    (dest cur : ℕ) (m : Message) (s : System)
    → is_free (s.tasks cur).state ≡ false
    → Keeps s (send_to dest cur m s).1
unfolding send_to
send_to-Keeps dest cur m s live = elim (Bool-cases (is_free (s.tasks dest).state)) [
  | inl e ↦ rw e (Keeps-refl s)
  | inr e ↦ elim (Bool-cases (dest == cur)) [
    | inl e' ↦ rw (e, e') (Keeps-refl s)
    | inr e' ↦ elim (Bool-cases (is_receiving (s.tasks dest).state)) [
      | inl r ↦ rw (e, e', r) (deliver-Keeps dest cur m s live)
      | inr r ↦ rw (e, e', r) (enqueue_message-Keeps dest cur m s live)
    ]
  ]
]

-- `ipc_send` keeps the table valid, whether it fails, delivers or queues.
pub ipc_send-IsTable :
    (dest_pid : ℕ) (m : Option Message) (s : System)
    → IsTable s
    → is_free (s.tasks s.current_task_idx).state ≡ false
    → IsTable (ipc_send dest_pid m s).1
unfolding ipc_send
ipc_send-IsTable dest_pid none s v live = v
ipc_send-IsTable dest_pid (some m) s v live = elim (Option-cases (find_by_pid dest_pid s)) [
  | inl e ↦ rw (e, ipc_send) v
  | inr (dest, e) ↦
      rw (e, ipc_send)
        (Keeps-IsTable
          (send_to-Keeps dest (current_task_for_ipc s) m s (current_task_for_ipc-live s v live)) v)
]

take_sender-Keeps :
    (cur : ℕ) (s : System) (r : Option ℕ × System)
    → is_free (s.tasks cur).state ≡ false
    → Keeps s r.1
    → Keeps s (take_sender cur r).1
unfolding take_sender
take_sender-Keeps cur s (none, t) live k =
    Keeps-trans k (
      set_task-Keeps t cur _ (set_state-Fits (t.tasks cur) receiving (k.free cur ∙ live) refl refl))
take_sender-Keeps cur s (some c, t) live k = Keeps-trans k (wake_sender-Keeps c t)

pub ipc_receive_round-Keeps :
    (src : ℕ) (msg : Bool) (s : System)
    → is_free (s.tasks s.current_task_idx).state ≡ false
    → Keeps s (ipc_receive_round src msg s).1
unfolding ipc_receive_round
ipc_receive_round-Keeps src false s live = Keeps-refl s
ipc_receive_round-Keeps src true s live =
    let cur = get_current_process s in
    let p = s.tasks cur in
    elim (Bool-cases (p.msg_pending && (src == 0 || p.msg_buffer.sender == src))) [
      | inl there ↦ rw there (
          Keeps-trans (set_task-Keeps s cur (record p { msg_pending = false }) (refl, refl, λ r. r))
            (wake_from_receive-Keeps cur _))
      | inr not_there ↦
          rw not_there (take_sender-Keeps cur s _ live (sender_dequeue-Keeps cur src s))
    ]

-- Each round of `ipc_receive` keeps the table valid, whether it takes a message or waits.
pub ipc_receive_round-IsTable :
    (src : ℕ) (msg : Bool) (s : System)
    → IsTable s
    → is_free (s.tasks s.current_task_idx).state ≡ false
    → IsTable (ipc_receive_round src msg s).1
ipc_receive_round-IsTable src msg s v live =
    Keeps-IsTable (ipc_receive_round-Keeps src msg s live) v

-- `ipc_reply` keeps the table valid.
pub ipc_reply-IsTable :
    (dest_pid : ℕ) (m : Option Message) (s : System)
    → IsTable s
    → IsTable (ipc_reply dest_pid m s).1
unfolding ipc_reply
ipc_reply-IsTable dest_pid none s v = v
ipc_reply-IsTable dest_pid (some m) s v = elim (Option-cases (find_by_pid dest_pid s)) [
  | inl e ↦ rw (e, ipc_reply) v
  | inr (peer, e) ↦ elim (Bool-cases (is_waiting_reply (s.tasks peer).state)) [
    | inl w ↦ rw (e, ipc_reply, w) (Keeps-IsTable (answer-Keeps peer s.current_task_idx m s) v)
    | inr w ↦ rw (e, ipc_reply, w) v
  ]
]

pub consume-IsTable : (i : ℕ) (s : System) → IsTable s → IsTable (consume_pending_message i s).1
unfolding consume_pending_message
consume-IsTable i s v =
    Keeps-IsTable
      (set_task-Keeps s i (record (s.tasks i) { msg_pending = false }) (refl, refl, λ r. r)) v
