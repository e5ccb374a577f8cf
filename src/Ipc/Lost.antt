-- ===== src/Ipc/Lost.antt =====
-- A receiver that waits for one sender: `ipc_send` does not look at whom it waits for, and does
-- not look at `msg_pending`.
use cnos.Prelude.{
  ℕ, suc, ◌<◌, ◌≡◌, refl, sym, ap, ◌∙◌, subst, ◌≢◌, true, false, ◌&&◌, ◌||◌, none, some, arith,
  ◌==◌, ==_iff,
}
use cnos.Process.{Message, System, max_tasks, set_task, set_state, receiving}
use cnos.Process.Exit.{current_task_for_ipc, is_receiving}
use cnos.Process.Find.{IsTable}
use cnos.Ipc.{
  head, read_link, dequeue_from, sender_dequeue, take_sender, ipc_send, ipc_receive_round, waiting,
  ok,
}
use cnos.Ipc.Links.{queue}
use cnos.Ipc.Rpc.{from, send_delivers, deliver-Delivered}

dequeue_none :
    (fuel b src : ℕ) (t : System)
    → queue t b ≡ none
    → dequeue_from (suc fuel) head b src t ≡ (none, t)
unfolding dequeue_from read_link
dequeue_none fuel b src t e = rw (e, dequeue_from)

empty_dequeue : (b src : ℕ) (t : System) → queue t b ≡ none → sender_dequeue b src t ≡ (none, t)
unfolding sender_dequeue
empty_dequeue b src t e = dequeue_none max_tasks b src t e

-- The round of a receiver in slot `c` that does not want the message it holds.
abbrev Refuses : System → ℕ → ℕ → Type 0
Refuses t src c =
    queue t c ≡ none
    → src ≢ 0
    → (t.tasks c).msg_buffer.sender ≢ src
    → ipc_receive_round src true t ≡ (waiting, set_task t c (set_state (t.tasks c) receiving))

leaves_at : (t : System) (src : ℕ) → Refuses t src t.current_task_idx
unfolding ipc_receive_round take_sender
leaves_at t src q nz ne =
    let c = t.current_task_idx in
    let test : ((t.tasks c).msg_pending && (src == 0 || (t.tasks c).msg_buffer.sender == src))
        ≡ false =
      ground arith in
    rw (test, empty_dequeue c src t q) refl

-- A message is lost: `b` waits for `src` and holds an unread message of another sender, and its
-- queue is empty. Its `ipc_receive` keeps the message and goes back to RECEIVING; the next
-- `ipc_send` to `b`, by any task `c` in any state `w` that has left the slot alone, succeeds and
-- puts its own message in the place of the unread one.
pub message_lost :
    (t w : System) (b c src : ℕ) (m : Message)
    → IsTable w
    → b < max_tasks
    → t.current_task_idx ≡ b
    → queue t b ≡ none
    → (t.tasks b).msg_pending ≡ true
    → src ≢ 0
    → (t.tasks b).msg_buffer.sender ≢ src
    → w.tasks b ≡ (ipc_receive_round src true t).1.tasks b
    → current_task_for_ipc w ≡ c
    → c ≢ b
    → ((ipc_receive_round src true t).0 ≡ waiting)
      × ((w.tasks b).msg_buffer ≡ (t.tasks b).msg_buffer)
      × ((w.tasks b).msg_pending ≡ true)
      × ((ipc_send b (some m) w).0 ≡ ok)
      × (((ipc_send b (some m) w).1.tasks b).msg_buffer ≡ from m (w.tasks c).pid)
unfolding set_state
message_lost t w b c src m vw hb cur q p nz ne same who other =
    let round = subst (Refuses t src) cur (leaves_at t src) q nz ne in
    let slot : w.tasks b ≡ set_state (t.tasks b) receiving =
      same ∙ ap (λ k. k.1.tasks b) round ∙ rw ((==_iff b b).1 refl) in
    let r : is_receiving (w.tasks b).state ≡ true = ap (λ k. is_receiving k.state) slot in
    let sent = send_delivers b m w vw hb (λ e. other (sym who ∙ e)) r in
    let d = deliver-Delivered b (current_task_for_ipc w) m w (ground arith) in
    (
      ap (λ k. k.0) round,
      ap (λ k. k.msg_buffer) slot,
      ap (λ k. k.msg_pending) slot ∙ p,
      ap (λ k. k.0) sent,
      ap (λ k. (k.1.tasks b).msg_buffer) sent ∙ d.message ∙ ap (λ k. from m (w.tasks k).pid) who,
    )
