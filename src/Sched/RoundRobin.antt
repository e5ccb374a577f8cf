-- ===== src/Sched/RoundRobin.antt =====
-- What one call of `schedule` does to the table.
use cnos.Prelude.{
  ℕ, ◌+◌, ◌%◌, ◌^◌, ◌≤◌, ◌<◌, ◌≡◌, refl, sym, ap, subst, ◌⊎◌, inl, inr, true, false, ◌&&◌, arith,
  ltb, ◌==◌, if◌then◌else◌, ==_iff, Bool-cases,
}
use cnos.Process.{
  Proc, System, running, ready, is_ready, is_free, is_running, max_tasks, set_state, update,
}
use cnos.Process.Find.{IsTable}
use cnos.Sched.{schedule, switch_to, preempt, next_ready}
use cnos.Sched.Search.{after, Nearest, next_ready-Nearest}

-- The state of a slot after the switch from the current slot to `next`.
abbrev pub switched : System → ℕ → ℕ → Proc
switched s next i =
    if next == i
    then set_state (s.tasks i) running
    else (if s.current_task_idx == i && is_running (s.tasks i).state
        then set_state (s.tasks i) ready
        else s.tasks i)

-- `schedule` passes to the slot `d` places on, the nearest that is READY.
pub record Switches (s t : System) (d : ℕ) : Type 0 where
  pub lower : 1 ≤ d
  pub upper : d ≤ max_tasks
  pub passed :
      (e : ℕ) → 1 ≤ e → e < d → is_ready (s.tasks (after s.current_task_idx e)).state ≡ false
  pub was_ready : is_ready (s.tasks (after s.current_task_idx d)).state ≡ true
  pub current : t.current_task_idx ≡ after s.current_task_idx d
  pub counted : t.context_switches ≡ (s.context_switches + 1) % 2 ^ 64
  pub table : (i : ℕ) → t.tasks i ≡ switched s (after s.current_task_idx d) i

preempt_idle : (p : Proc) → is_ready p.state ≡ true → preempt p ≡ p
unfolding preempt
preempt_idle p r = ground arith

-- The slot that the switch is to is left by the first of the two writes as it was.
untouched :
    (s : System) (n : ℕ)
    → is_ready (s.tasks n).state ≡ true
    → update s.tasks s.current_task_idx (preempt (s.tasks s.current_task_idx)) n ≡ s.tasks n
untouched s n r = elim (Bool-cases (s.current_task_idx == n)) [
  | inl e ↦ rw e (
      subst (λ k. preempt (s.tasks k) ≡ s.tasks n) (sym ((==_iff s.current_task_idx n).0 e))
        (preempt_idle (s.tasks n) r))
  | inr e ↦ rw e
]

table_lem :
    (s : System) (n i : ℕ)
    → is_ready (s.tasks n).state ≡ true
    → (switch_to s n).tasks i ≡ switched s n i
unfolding switch_to preempt
table_lem s n i r = elim (Bool-cases (n == i)) [
  | inl here ↦ rw here (
      subst
        (λ k.
          set_state (update s.tasks s.current_task_idx (preempt (s.tasks s.current_task_idx)) n)
            running
          ≡ set_state (s.tasks k) running)
        ((==_iff n i).0 here) (ap (λ p. set_state p running) (untouched s n r)))
  | inr there ↦ rw there (ground (arith, ap s.tasks {x = s.current_task_idx} {y = i}))
]

switch_lem :
    (s : System) (n d : ℕ)
    → Nearest s.tasks s.current_task_idx 1 n d
    → is_ready (s.tasks n).state ≡ true
    → Switches s (switch_to s n) d
unfolding switch_to
switch_lem s n d near r = record {
  lower = near.lower;
  upper = near.upper;
  passed = near.passed;
  was_ready = subst (λ k. is_ready (s.tasks k).state ≡ true) near.place r;
  current = near.place;
  counted = refl;
  table = λ i. subst (λ k. (switch_to s n).tasks i ≡ switched s k i) near.place (table_lem s n i r);
}

none_ready :
    (s : System) (n d : ℕ)
    → s.current_task_idx < max_tasks
    → Nearest s.tasks s.current_task_idx 1 n d
    → is_ready (s.tasks n).state ≡ false
    → (e : ℕ) → 1 ≤ e
    → e ≤ max_tasks
    → is_ready (s.tasks (after s.current_task_idx e)).state ≡ false
none_ready s n d h near r e lo hi =
    let idle : is_ready (s.tasks (after s.current_task_idx d)).state ≡ false =
      subst (λ k. is_ready (s.tasks k).state ≡ false) near.place r in
    let whole : d ≡ max_tasks = ground (arith, near.stops) in
    elim (Bool-cases (ltb e d)) [
      | inl below ↦ near.passed e lo (ground arith)
      | inr last ↦
          let q : d ≡ e = ground arith in
          subst (λ k. is_ready (s.tasks (after s.current_task_idx k)).state ≡ false) q idle
    ]

-- `schedule` either finds no READY slot and changes nothing, or it switches to the READY slot
-- nearest after the current one: that slot becomes RUNNING and current, the slot left goes back
-- to READY if it was RUNNING, no other slot changes, and the switch is counted.
pub schedule_lem :
    (s : System)
    → s.current_task_idx < max_tasks
    → (((d : ℕ)
          → 1 ≤ d
          → d ≤ max_tasks
          → is_ready (s.tasks (after s.current_task_idx d)).state ≡ false)
        × (schedule s ≡ s))
      ⊎ ((d : ℕ) × Switches s (schedule s) d)
unfolding schedule
schedule_lem s h =
    let old = s.current_task_idx in
    let n = next_ready max_tasks (after old 1) old s.tasks in
    let (d, near) =
      next_ready-Nearest s.tasks old max_tasks 1 h (omega arith) (omega arith) (omega arith) in
    elim (Bool-cases (is_ready (s.tasks n).state)) [
      | inl r ↦ rw r (inr (d, switch_lem s n d near r))
      | inr r ↦ rw r (inl (none_ready s n d h near r, refl))
    ]

-- A switch leaves PIDs alone and frees no slot.
switched-own_pid :
    (s : System) (n i : ℕ)
    → is_ready (s.tasks n).state ≡ true
    → ((switched s n i).pid ≡ (s.tasks i).pid)
      × (is_free (switched s n i).state ≡ is_free (s.tasks i).state)
unfolding set_state
switched-own_pid s n i r = elim (Bool-cases (n == i)) [
  | inl e ↦
      let q : is_ready (s.tasks i).state ≡ true =
        subst (λ k. is_ready (s.tasks k).state ≡ true) ((==_iff n i).0 e) r in
      rw e (refl, ground arith)
  | inr e ↦ rw e (ground arith, ground arith)
]

-- `schedule` keeps the table valid; in particular only the current slot is RUNNING.
pub schedule-IsTable : (s : System) → IsTable s → IsTable (schedule s)
unfolding set_state
schedule-IsTable s v = elim (schedule_lem s v.current) [
  | inl (_, e) ↦ rw e v
  | inr (d, w) ↦
      let keeps = λ (i : ℕ). switched-own_pid s (after s.current_task_idx d) i w.was_ready in
      record {
        own_pid = λ i h f. ground (arith, w.table i, (keeps i).0, (keeps i).1, v.own_pid i h);
        current = omega (arith, w.current);
        solo = λ i h r. ground (arith, w.table i, w.current, v.solo i h);
      }
]
