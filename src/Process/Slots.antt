-- ===== src/Process/Slots.antt =====
-- Every operation of kernel/process.c keeps the table valid.
use cnos.Prelude.{
  ℕ, ◌^◌, ◌<◌, ◌≡◌, refl, sym, ap, ◌∙◌, subst, inl, inr, true, false, not, ◌&&◌, ◌||◌, arith, ◌==◌,
  ==_iff, Bool-cases,
}
use cnos.Process.{
  Proc, System, is_free, is_running, update, set_task, init_kernel_stack, process_init, alloc_user,
  process_create, slot_of, bad_slot, spawn_kernel_at_pid, bind_user_slot_ex, fresh_task,
}
use cnos.Process.Find.{IsTable, first_slot-First}

-- One slot is written: it gets its own index as PID, and is not made RUNNING.
pub record Puts (s t : System) (i : ℕ) : Type 0 where
  pub current : t.current_task_idx ≡ s.current_task_idx
  pub others : (j : ℕ) → (i == j) ≡ false → t.tasks j ≡ s.tasks j
  pub pid : (t.tasks i).pid ≡ i
  pub idle : is_running (t.tasks i).state ≡ true → is_running (s.tasks i).state ≡ true

pub Puts-IsTable : (s t : System) (i : ℕ) → IsTable s → Puts s t i → IsTable t
Puts-IsTable s t i v p = record {
  own_pid = λ j h f. elim (Bool-cases (i == j)) [
    | inl q ↦ subst (λ k. (t.tasks k).pid ≡ k) ((==_iff i j).0 q) p.pid
    | inr q ↦ ground (arith, p.others j q, v.own_pid j h)
  ];
  current = omega (arith, p.current, v.current);
  solo = λ j h r. elim (Bool-cases (i == j)) [
    | inl q ↦
        let e = (==_iff i j).0 q in
        subst (λ k. k ≡ t.current_task_idx) e
          (v.solo i (omega arith) (p.idle (ground (arith, ap (λ k. (t.tasks k).state) e)))
            ∙ sym p.current)
    | inr q ↦ ground (arith, p.others j q, v.solo j h, p.current)
  ];
}

-- `process_init` makes a valid table, whatever stood there.
pub process_init-IsTable : (s : System) → IsTable (process_init s)
unfolding process_init
process_init-IsTable s = record {
  own_pid = λ i h f. ground arith;
  current = omega arith;
  solo = λ i h r. ground arith;
}

pub alloc_user-IsTable : (ppid : ℕ) (s : System) → IsTable s → IsTable (alloc_user ppid s).1
unfolding alloc_user
alloc_user-IsTable ppid s v = elim (first_slot-First (λ i. is_free (s.tasks i).state)) [
  | inl (e, _) ↦ rw (e, alloc_user) v
  | inr (i, e, _, h, t, _) ↦
      rw (e, alloc_user)
        (Puts-IsTable s _ i v (record {
          current = refl;
          others = λ j q. rw q;
          pid = ground arith;
          idle = ground arith;
        }))
]

module _ (i entry : ℕ) (s : System) where
  stack-current : (init_kernel_stack i entry s).current_task_idx ≡ s.current_task_idx
  unfolding init_kernel_stack
  stack-current = refl

  stack-others : (j : ℕ) → (i == j) ≡ false → (init_kernel_stack i entry s).tasks j ≡ s.tasks j
  unfolding init_kernel_stack
  stack-others j q = rw q

  stack-pid : ((init_kernel_stack i entry s).tasks i).pid ≡ (s.tasks i).pid
  unfolding init_kernel_stack
  stack-pid = ground arith

  stack-state : ((init_kernel_stack i entry s).tasks i).state ≡ (s.tasks i).state
  unfolding init_kernel_stack
  stack-state = ground arith

-- A task made in slot `i`, then given a stack.
create-Puts :
    (i entry : ℕ) (s : System) (p : Proc)
    → p.pid ≡ i
    → is_running p.state ≡ false
    → Puts s (init_kernel_stack i entry (set_task s i p)) i
create-Puts i entry s p hp hs = record {
  current = stack-current i entry (set_task s i p);
  others = λ j q. stack-others i entry (set_task s i p) j q ∙ same j q;
  pid = stack-pid i entry (set_task s i p) ∙ ap (λ t. t.pid) own ∙ hp;
  idle =
      let e = ap is_running (stack-state i entry (set_task s i p) ∙ ap (λ t. t.state) own) ∙ hs in
      λ r. cc;
}
  where
    own : update s.tasks i p i ≡ p
    own = rw ((==_iff i i).1 refl)

    same : (j : ℕ) → (i == j) ≡ false → update s.tasks i p j ≡ s.tasks j
    same j q = rw q

counted-IsTable : (s : System) (n : ℕ) → IsTable s → IsTable (record s { task_count = n })
counted-IsTable s n v = record { own_pid = v.own_pid; current = v.current; solo = v.solo }

pub process_create-IsTable :
    (entry : ℕ) (s : System) → IsTable s → IsTable (process_create entry s).1
unfolding process_create
process_create-IsTable entry s v = elim (first_slot-First (λ i. is_free (s.tasks i).state)) [
  | inl (e, _) ↦ rw (e, process_create) v
  | inr (i, e, _, h, t, _) ↦
      rw (e, process_create)
        (counted-IsTable _ _
          (Puts-IsTable s _ i v (create-Puts i entry s (fresh_task (s.tasks i) i) refl refl)))
]

-- A PID that `int` holds is what the slot is chosen by.
small_pid : (pid : ℕ) → pid < 2 ^ 31 → slot_of pid ≡ pid
small_pid pid h = omega arith

pub spawn_kernel_at_pid-IsTable :
    (pid entry : ℕ) (s : System)
    → pid < 2 ^ 31
    → IsTable s
    → IsTable (spawn_kernel_at_pid pid entry s).1
unfolding spawn_kernel_at_pid
spawn_kernel_at_pid-IsTable pid entry s h v = elim (Bool-cases (bad_slot pid || entry == 0)) [
  | inl bad ↦ rw bad v
  | inr fine ↦ elim (Bool-cases (is_free (s.tasks (slot_of pid)).state)) [
    | inr taken ↦ rw (fine, taken) v
    | inl vacant ↦
        rw (fine, vacant)
          (counted-IsTable _ _ (
            Puts-IsTable s _ (slot_of pid) v (
              create-Puts (slot_of pid) entry s (fresh_task (s.tasks (slot_of pid)) pid)
                (sym (small_pid pid h)) refl)))
  ]
]

pub bind_user_slot_ex-IsTable :
    (pid ppid : ℕ) (s : System) → pid < 2 ^ 31 → IsTable s → IsTable (bind_user_slot_ex pid ppid s)
unfolding bind_user_slot_ex
bind_user_slot_ex-IsTable pid ppid s h v = elim (Bool-cases (bad_slot pid)) [
  | inl bad ↦ rw bad v
  | inr fine ↦
      elim (Bool-cases
        (not (is_free (s.tasks (slot_of pid)).state) && not ((s.tasks (slot_of pid)).pid == pid))) [
          | inl taken ↦ rw (fine, taken) v
          | inr vacant ↦
              rw (fine, vacant)
                (Puts-IsTable s _ (slot_of pid) v (record {
                  current = refl;
                  others = λ j q. rw q;
                  pid = rw ((==_iff (slot_of pid) (slot_of pid)).1 refl) (sym (small_pid pid h));
                  idle = rw ((==_iff (slot_of pid) (slot_of pid)).1 refl) (λ r. cc);
                }))
        ]
]
