-- ===== src/Ipc/Keeps.antt =====
-- IPC moves messages and states about: it keeps the PIDs, frees no slot, takes none, and makes no
-- task RUNNING. So it keeps the table valid.
use cnos.Prelude.{
  ℕ, zero, suc, ◌+◌, ◌≡◌, refl, sym, ◌∙◌, subst, inl, inr, true, false, Option, none, some, arith,
  ◌==◌, ==_iff, Bool-cases, Option-cases,
}
use cnos.Process.{
  Proc, Message, System, ProcState, is_free, is_running, set_task, set_state, update, max_tasks,
  sending, waiting_reply,
}
use cnos.Process.Exit.{
  is_receiving, is_waiting_reply, woken, ipc_wake_from_receive, ipc_wake_after_reply,
}
use cnos.Process.Find.{IsTable}
use cnos.Ipc.{
  Link, head, next_of, msg_copy_to_buffer, stash_outgoing, set_next, set_queue, sender_enqueue,
  write_link, unlink, read_link, dequeue_from, sender_dequeue, matches, is_sending,
  wake_sender_after_deliver, deliver, enqueue_message, answer,
}

pub record Keeps (s t : System) : Type 0 where
  pub current : t.current_task_idx ≡ s.current_task_idx
  pub pid : (i : ℕ) → (t.tasks i).pid ≡ (s.tasks i).pid
  pub free : (i : ℕ) → is_free (t.tasks i).state ≡ is_free (s.tasks i).state
  pub running : (i : ℕ) → is_running (t.tasks i).state ≡ true → is_running (s.tasks i).state ≡ true

pub Keeps-refl : (s : System) → Keeps s s
Keeps-refl s = record { current = refl; pid = λ i. refl; free = λ i. refl; running = λ i r. r }

pub Keeps-trans : {s t u : System} → Keeps s t → Keeps t u → Keeps s u
Keeps-trans a b = record {
  current = b.current ∙ a.current;
  pid = λ i. b.pid i ∙ a.pid i;
  free = λ i. b.free i ∙ a.free i;
  running = λ i r. a.running i (b.running i r);
}

pub Keeps-IsTable : {s t : System} → Keeps s t → IsTable s → IsTable t
Keeps-IsTable k v = record {
  own_pid = λ i h f. k.pid i ∙ v.own_pid i h (sym (k.free i) ∙ f);
  current = omega (arith, k.current, v.current);
  solo = λ i h r. v.solo i h (k.running i r) ∙ sym k.current;
}

-- A slot gets a value with its PID, free as before, and RUNNING only if it was.
abbrev pub Fits : Proc → Proc → Type 0
Fits p q =
    (q.pid ≡ p.pid)
    × (is_free q.state ≡ is_free p.state)
    × (is_running q.state ≡ true → is_running p.state ≡ true)

pub set_task-Keeps : (s : System) (i : ℕ) (p : Proc) → Fits (s.tasks i) p → Keeps s (set_task s i p)
set_task-Keeps s i p f = record {
  current = refl;
  pid = λ j. at (λ a b. a.pid ≡ b.pid) j f.0 refl;
  free = λ j. at (λ a b. is_free a.state ≡ is_free b.state) j f.1 refl;
  running = λ j. at (λ a b. is_running a.state ≡ true → is_running b.state ≡ true) j f.2 (λ r. r);
}
  where
    at :
        (P : Proc → Proc → Type 0) (j : ℕ)
        → P p (s.tasks i)
        → P (s.tasks j) (s.tasks j)
        → P (update s.tasks i p j) (s.tasks j)
    at P j hit miss = elim (Bool-cases (i == j)) [
      | inl e ↦ rw e (subst (λ k. P p (s.tasks k)) ((==_iff i j).0 e) hit)
      | inr e ↦ rw e miss
    ]

-- A task that is not free gets a state other than FREE and RUNNING.
pub set_state-Fits :
    (p : Proc) (st : ProcState)
    → is_free p.state ≡ false
    → is_free st ≡ false
    → is_running st ≡ false
    → Fits p (set_state p st)
unfolding set_state
set_state-Fits p st live a b = (refl, a ∙ sym live, λ r. cc)

woken-Fits : (s : System) (p : Proc) → is_free p.state ≡ false → Fits p (woken s p)
unfolding woken set_state
woken-Fits s p live = (ground arith, ground arith, ground arith)

next-Fits : (p : Proc) (n : Option ℕ) → Fits p (set_next p n)
next-Fits p n = (refl, refl, λ r. r)

queue-Fits : (p : Proc) (n : Option ℕ) → Fits p (set_queue p n)
queue-Fits p n = (refl, refl, λ r. r)

write_link-Keeps :
    (l : Link) (recv : ℕ) (n : Option ℕ) (s : System) → Keeps s (write_link l recv n s)
unfolding write_link
write_link-Keeps head recv n s = set_task-Keeps s recv _ (queue-Fits (s.tasks recv) n)
write_link-Keeps (next_of i) recv n s = set_task-Keeps s i _ (next-Fits (s.tasks i) n)

unlink-Keeps : (l : Link) (recv c : ℕ) (s : System) → Keeps s (unlink l recv c s)
unfolding unlink
unlink-Keeps l recv c s =
    let s1 = write_link l recv (s.tasks c).next_in_queue s in
    Keeps-trans (write_link-Keeps l recv (s.tasks c).next_in_queue s)
      (set_task-Keeps s1 c _ (next-Fits (s1.tasks c) none))

dequeue_from-Keeps :
    (fuel : ℕ) (l : Link) (recv src : ℕ) (s : System) → Keeps s (dequeue_from fuel l recv src s).1
unfolding dequeue_from
dequeue_from-Keeps zero l recv src s = Keeps-refl s
dequeue_from-Keeps (suc fuel) l recv src s = elim (Option-cases (read_link l recv s)) [
  | inl e ↦ rw (e, dequeue_from) (Keeps-refl s)
  | inr (c, e) ↦ elim (Bool-cases (matches src s c)) [
    | inl hit ↦ rw (e, dequeue_from, hit) (unlink-Keeps l recv c s)
    | inr miss ↦ rw (e, dequeue_from, miss) (dequeue_from-Keeps fuel (next_of c) recv src s)
  ]
]

pub sender_dequeue-Keeps : (recv src : ℕ) (s : System) → Keeps s (sender_dequeue recv src s).1
unfolding sender_dequeue
sender_dequeue-Keeps recv src s = dequeue_from-Keeps (max_tasks + 1) head recv src s

sender_enqueue-Keeps : (d c : ℕ) (s : System) → Keeps s (sender_enqueue d c s)
unfolding sender_enqueue
sender_enqueue-Keeps d c s =
    let s1 = set_task s c (set_next (s.tasks c) (s.tasks d).sender_queue) in
    Keeps-trans (set_task-Keeps s c _ (next-Fits (s.tasks c) (s.tasks d).sender_queue))
      (set_task-Keeps s1 d _ (queue-Fits (s1.tasks d) (some c)))

pub wake_from_receive-Keeps : (i : ℕ) (s : System) → Keeps s (ipc_wake_from_receive i s)
unfolding ipc_wake_from_receive
wake_from_receive-Keeps i s = elim (Bool-cases (is_receiving (s.tasks i).state)) [
  | inl r ↦ rw r (set_task-Keeps s i _ (woken-Fits s (s.tasks i) (ground arith)))
  | inr r ↦ rw r (Keeps-refl s)
]

pub wake_after_reply-Keeps : (i : ℕ) (s : System) → Keeps s (ipc_wake_after_reply i s)
unfolding ipc_wake_after_reply
wake_after_reply-Keeps i s = elim (Bool-cases (is_waiting_reply (s.tasks i).state)) [
  | inl r ↦ rw r (set_task-Keeps s i _ (woken-Fits s (s.tasks i) (ground arith)))
  | inr r ↦ rw r (Keeps-refl s)
]

pub wake_sender-Keeps : (c : ℕ) (s : System) → Keeps s (wake_sender_after_deliver c s)
unfolding wake_sender_after_deliver
wake_sender-Keeps c s = elim (Bool-cases (is_sending (s.tasks c).state)) [
  | inl r ↦
      rw r
        (set_task-Keeps s c _ (set_state-Fits (s.tasks c) waiting_reply (ground arith) refl refl))
  | inr r ↦ rw r (Keeps-refl s)
]

fill-Fits :
    (p q : Proc) (m : Message) → Fits p (record (msg_copy_to_buffer p q m) { msg_pending = true })
unfolding msg_copy_to_buffer
fill-Fits p q m = (refl, refl, λ r. r)

pub deliver-Keeps :
    (dest cur : ℕ) (m : Message) (s : System)
    → is_free (s.tasks cur).state ≡ false
    → Keeps s (deliver dest cur m s)
unfolding deliver
deliver-Keeps dest cur m s live =
    let s1 =
      set_task s dest
        (record (msg_copy_to_buffer (s.tasks dest) (s.tasks cur) m) { msg_pending = true }) in
    let s2 = ipc_wake_from_receive dest s1 in
    let k =
      Keeps-trans (set_task-Keeps s dest _ (fill-Fits (s.tasks dest) (s.tasks cur) m))
        (wake_from_receive-Keeps dest s1) in
    Keeps-trans k (
      set_task-Keeps s2 cur _
        (set_state-Fits (s2.tasks cur) waiting_reply (k.free cur ∙ live) refl refl))

stash-Fits :
    (p : Proc) (m : Message)
    → is_free p.state ≡ false
    → Fits p (set_state (stash_outgoing p m) sending)
unfolding stash_outgoing set_state
stash-Fits p m live = (refl, sym live, λ r. cc)

pub enqueue_message-Keeps :
    (dest cur : ℕ) (m : Message) (s : System)
    → is_free (s.tasks cur).state ≡ false
    → Keeps s (enqueue_message dest cur m s)
unfolding enqueue_message
enqueue_message-Keeps dest cur m s live =
    Keeps-trans (set_task-Keeps s cur _ (stash-Fits (s.tasks cur) m live))
      (sender_enqueue-Keeps dest cur _)

pub answer-Keeps : (peer cur : ℕ) (m : Message) (s : System) → Keeps s (answer peer cur m s)
unfolding answer
answer-Keeps peer cur m s =
    Keeps-trans (set_task-Keeps s peer _ (fill-Fits (s.tasks peer) (s.tasks cur) m))
      (wake_after_reply-Keeps peer _)
