-- ===== src/Ipc/Rpc.antt =====
-- A whole remote call: `ipc_send` to a task that is RECEIVING, its `ipc_receive`, its `ipc_reply`,
-- and the caller's `ipc_consume_pending_message`.
use cnos.Prelude.{
  ℕ, ◌<◌, ◌≡◌, refl, sym, ap, ◌∙◌, subst, ◌≢◌, ◌⊎◌, inl, inr, true, false, ◌&&◌, ◌||◌, some, arith,
  ◌==◌, ==_iff, Bool-cases,
}
use cnos.Ipc.Table.{ipc_receive_round-Keeps}
use cnos.Ipc.Keeps.{Keeps, Keeps-IsTable}
use cnos.Process.{
  Proc, Message, System, is_free, set_task, set_state, max_tasks, find_by_pid, waiting_reply,
}
use cnos.Process.Exit.{
  current_task_for_ipc, ipc_wake_from_receive, is_receiving, woken, ipc_wake_after_reply,
  is_waiting_reply,
}
use cnos.Process.Find.{IsTable, find_by_pid_lem}
use cnos.Ipc.{
  ok, msg_copy_to_buffer, deliver, send_to, ipc_send, ipc_reply, answer, ipc_receive_round,
  consume_pending_message, msg_copy_out, received,
}

abbrev pub from : Message → ℕ → Message
from m pid = record m { sender = pid }

pub find_live :
    (i : ℕ) (s : System)
    → IsTable s
    → i < max_tasks
    → is_free (s.tasks i).state ≡ false
    → find_by_pid i s ≡ some i
find_live i s v h live = find_by_pid_lem i s v ∙ ground arith

-- A task that is RECEIVING gets the message at once.
pub send_delivers :
    (b : ℕ) (m : Message) (s : System)
    → IsTable s
    → b < max_tasks
    → current_task_for_ipc s ≢ b
    → is_receiving (s.tasks b).state ≡ true
    → ipc_send b (some m) s ≡ (ok, deliver b (current_task_for_ipc s) m s)
unfolding ipc_send send_to
send_delivers b m s v h ne r =
    let live : is_free (s.tasks b).state ≡ false = ground arith in
    let other : (b == current_task_for_ipc s) ≡ false = ground arith in
    rw (find_live b s v h live, ipc_send, live, other, r) refl

-- What the delivery leaves in the two slots.
pub record Delivered (b a : ℕ) (m : Message) (s t : System) : Type 0 where
  pub message : (t.tasks b).msg_buffer ≡ from m (s.tasks a).pid
  pub pending : (t.tasks b).msg_pending ≡ true
  pub waits : (t.tasks a).state ≡ waiting_reply
  pub pid : (t.tasks a).pid ≡ (s.tasks a).pid

woken-message :
    (s : System) (p : Proc)
    → ((woken s p).msg_buffer ≡ p.msg_buffer) × ((woken s p).msg_pending ≡ p.msg_pending)
unfolding woken set_state
woken-message s p = (ground arith, ground arith)

wake_receive_lem :
    (i j : ℕ) (s : System)
    → ((i == j) ≡ false → (ipc_wake_from_receive i s).tasks j ≡ s.tasks j)
      × (((ipc_wake_from_receive i s).tasks i).msg_buffer ≡ (s.tasks i).msg_buffer)
      × (((ipc_wake_from_receive i s).tasks i).msg_pending ≡ (s.tasks i).msg_pending)
unfolding ipc_wake_from_receive
wake_receive_lem i j s =
    let k = woken-message s (s.tasks i) in
    elim (Bool-cases (is_receiving (s.tasks i).state)) [
      | inl r ↦ rw (r, (==_iff i i).1 refl) ((λ q. rw q), k.0, k.1)
      | inr r ↦ rw r ((λ q. refl), refl, refl)
    ]

pub deliver-Delivered :
    (b a : ℕ) (m : Message) (s : System) → (b == a) ≡ false → Delivered b a m s (deliver b a m s)
unfolding deliver msg_copy_to_buffer set_state
deliver-Delivered b a m s ne =
    let filled = record (msg_copy_to_buffer (s.tasks b) (s.tasks a) m) { msg_pending = true } in
    let s1 = set_task s b filled in
    let (_, buffer, pending) = wake_receive_lem b a s1 in
    let (other, _, _) = wake_receive_lem b a s1 in
    let rev : (a == b) ≡ false = ground arith in
    record {
      message = rw rev (buffer ∙ rw ((==_iff b b).1 refl));
      pending = rw rev (pending ∙ rw ((==_iff b b).1 refl));
      waits = rw ((==_iff a a).1 refl);
      pid = rw ((==_iff a a).1 refl) (ap (λ p. p.pid) (other ne) ∙ rw ne);
    }

-- What a round of `ipc_receive` in slot `c` does with a pending message that the filter lets
-- through: it is received, and no other slot changes.
abbrev Receives : System → ℕ → ℕ → ℕ → Type 0
Receives t a src c =
    (t.tasks c).msg_pending ≡ true
    → (src ≡ 0) ⊎ ((t.tasks c).msg_buffer.sender ≡ src)
    → (c == a) ≡ false
    → ((ipc_receive_round src true t).0 ≡ received (t.tasks c).msg_buffer)
      × ((ipc_receive_round src true t).1.tasks a ≡ t.tasks a)

takes_at : (a src : ℕ) (t : System) → Receives t a src t.current_task_idx
unfolding ipc_receive_round msg_copy_out
takes_at a src t p filter ne =
    let b = t.current_task_idx in
    let test : ((t.tasks b).msg_pending && (src == 0 || (t.tasks b).msg_buffer.sender == src))
        ≡ true =
      ground arith in
    let taken = set_task t b (record (t.tasks b) { msg_pending = false }) in
    let other : taken.tasks a ≡ t.tasks a = rw ne in
    rw test (refl, (wake_receive_lem b a taken).0 ne ∙ other)

takes_pending : (b a src : ℕ) (t : System) → t.current_task_idx ≡ b → Receives t a src b
takes_pending b a src t cur = subst (Receives t a src) cur (takes_at a src t)

wake_reply_lem :
    (i : ℕ) (s : System)
    → (((ipc_wake_after_reply i s).tasks i).msg_buffer ≡ (s.tasks i).msg_buffer)
      × (((ipc_wake_after_reply i s).tasks i).msg_pending ≡ (s.tasks i).msg_pending)
unfolding ipc_wake_after_reply
wake_reply_lem i s =
    let k = woken-message s (s.tasks i) in
    elim (Bool-cases (is_waiting_reply (s.tasks i).state)) [
      | inl r ↦ rw (r, (==_iff i i).1 refl) k
      | inr r ↦ rw r (refl, refl)
    ]

answer_lem :
    (a c : ℕ) (m : Message) (u : System)
    → ((consume_pending_message a (answer a c m u)).0 ≡ from m (u.tasks c).pid)
      × (((answer a c m u).tasks a).msg_pending ≡ true)
unfolding answer consume_pending_message msg_copy_to_buffer
answer_lem a c m u =
    let filled = record (msg_copy_to_buffer (u.tasks a) (u.tasks c) m) { msg_pending = true } in
    let (buffer, pending) = wake_reply_lem a (set_task u a filled) in
    (buffer ∙ rw ((==_iff a a).1 refl), pending ∙ rw ((==_iff a a).1 refl))

-- The reply reaches a peer that waits for it.
pub reply_lem :
    (a : ℕ) (m : Message) (u : System)
    → IsTable u
    → a < max_tasks
    → (u.tasks a).state ≡ waiting_reply
    → let (done, w) = ipc_reply a (some m) u in
      (done ≡ true)
      × ((consume_pending_message a w).0 ≡ from m (u.tasks u.current_task_idx).pid)
      × ((w.tasks a).msg_pending ≡ true)
unfolding ipc_reply
reply_lem a m u v h e =
    let live : is_free (u.tasks a).state ≡ false = ground arith in
    let waits : is_waiting_reply (u.tasks a).state ≡ true = ground arith in
    rw (find_live a u v h live, ipc_reply, waits)
      (let (x, y) = answer_lem a u.current_task_idx m u in (refl, x, y))

-- The whole exchange between the caller `a` and the server `b`, which is RECEIVING and asks for a
-- message of any task or of the caller. Between the
-- caller's send and the server's turn, in state `t`, other tasks may have run, if they left the
-- two slots' messages and the caller's wait alone. The send succeeds; the server receives the
-- message under the caller's PID; its reply to that PID succeeds; and the caller then consumes
-- the server's answer under the server's PID.
pub rpc_lem :
    (s t : System) (a b src : ℕ) (m rep : Message)
    → IsTable s
    → IsTable t
    → a < max_tasks
    → b < max_tasks
    → a ≢ b
    → current_task_for_ipc s ≡ a
    → is_free (s.tasks a).state ≡ false
    → is_receiving (s.tasks b).state ≡ true
    → (src ≡ 0) ⊎ (src ≡ a)
    → t.current_task_idx ≡ b
    → is_free (t.tasks b).state ≡ false
    → t.tasks a ≡ (ipc_send b (some m) s).1.tasks a
    → (t.tasks b).msg_buffer ≡ ((ipc_send b (some m) s).1.tasks b).msg_buffer
    → (t.tasks b).msg_pending ≡ ((ipc_send b (some m) s).1.tasks b).msg_pending
    → let (got, u) = ipc_receive_round src true t in
      let (done, w) = ipc_reply a (some rep) u in
      ((ipc_send b (some m) s).0 ≡ ok)
      × (got ≡ received (from m a))
      × (done ≡ true)
      × ((consume_pending_message a w).0 ≡ from rep b)
rpc_lem s t a b src m rep v vt ha hb ne cur live r filter tc tlive ta tm tp =
    let off : (b == a) ≡ false = ground arith in
    let sent : ipc_send b (some m) s ≡ (ok, deliver b a m s) =
      subst (λ k. ipc_send b (some m) s ≡ (ok, deliver b k m s)) cur
        (send_delivers b m s v hb (λ e. ne (sym cur ∙ e)) r) in
    let s1 : (ipc_send b (some m) s).1 ≡ deliver b a m s = ap (λ k. k.1) sent in
    let d = subst (Delivered b a m s) (sym s1) (deliver-Delivered b a m s off) in
    let own = v.own_pid a ha live in
    let buffer : (t.tasks b).msg_buffer ≡ from m a = tm ∙ d.message ∙ ap (from m) own in
    let pending : (t.tasks b).msg_pending ≡ true = tp ∙ d.pending in
    let g =
      takes_pending b a src t tc pending
        (elim filter [ inl e ↦ inl e | inr e ↦ inr (ap (λ k. k.sender) buffer ∙ sym e) ]) off in
    let u = (ipc_receive_round src true t).1 in
    let here = subst (λ k. is_free (t.tasks k).state ≡ false) (sym tc) tlive in
    let k = ipc_receive_round-Keeps src true t here in
    let vu : IsTable u = Keeps-IsTable k vt in
    let waits : (u.tasks a).state ≡ waiting_reply = ap (λ p. p.state) (g.1 ∙ ta) ∙ d.waits in
    let rl = reply_lem a rep u vu ha waits in
    (ap (λ k. k.0) sent, g.0 ∙ ap received buffer, rl.0, rl.1 ∙ ap (from rep) (who k))
  where
    who :
        Keeps t (ipc_receive_round src true t).1
        → let u = (ipc_receive_round src true t).1 in (u.tasks u.current_task_idx).pid ≡ b
    who k =
        ap (λ i. ((ipc_receive_round src true t).1.tasks i).pid) (k.current ∙ tc)
        ∙ k.pid b
        ∙ vt.own_pid b hb tlive
