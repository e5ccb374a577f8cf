-- ===== src/Sched.antt =====
-- kernel/sched.c and `schedule` of kernel/process.c: round robin over the slots that are READY.
pub mod Search
pub mod RoundRobin
pub mod Fair
use cnos.Prelude.{
  ℕ, zero, suc, ◌+◌, ◌-◌, ◌*◌, ◌/◌, ◌%◌, ◌^◌, ◌≤◌, ◌<◌, ◌≡◌, refl, sym, ap, ◌∙◌, subst, fun_ext,
  ◌≢◌, ◌↔◌, ◌⊎◌, inl, inr, Bool, true, false, not, ◌&&◌, ◌||◌, Option, none, some, List, [], ◌∷◌,
  ◌++◌, arith, ltb, leb, ◌==◌, if◌then◌else◌, ltb→lt, lt→ltb, ==_iff, Bool-cases, Option-cases,
  length, get_or, set, length-set, get_or-set_self, get_or-set_ne, set-get_or, set-set, set_bit,
  clear_bit, test_bit, test_bit-set_bit, test_bit-clear_bit, set_bit-lt, clear_bit-lt,
  clear_bit-set_bit,
}
use cnos.Process.{
  Proc, System, ready, running, set_task, set_state, is_ready, is_running, max_tasks,
  sched_ready_count,
}

-- The `while` of `schedule`: the next slot that is READY, or `old` itself after a whole round.
unfoldable pub next_ready : ℕ → ℕ → ℕ → (ℕ → Proc) → ℕ
next_ready zero next old tasks = next
next_ready (suc fuel) next old tasks =
    let rest = next_ready fuel ((next + 1) % max_tasks) old tasks in
    if not (is_ready (tasks next).state) && not (next == old) then rest else next

-- READY again if it was RUNNING.
unfoldable pub preempt : Proc → Proc
preempt p = if is_running p.state then set_state p ready else p

unfoldable pub switch_to : System → ℕ → System
switch_to s next =
    let s1 = set_task s s.current_task_idx (preempt (s.tasks s.current_task_idx)) in
    let s2 = set_task s1 next (set_state (s1.tasks next) running) in
    record s2 { current_task_idx = next; context_switches = (s.context_switches + 1) % 2 ^ 64 }

-- Sixteen rounds are enough: the search comes back to `old` in the sixteenth.
unfoldable pub schedule : System → System
schedule s =
    let old = s.current_task_idx in
    let next = next_ready max_tasks ((old + 1) % max_tasks) old s.tasks in
    if is_ready (s.tasks next).state then switch_to s next else s

unfoldable pub sched_init : System → System
sched_init s = record s { context_switches = 0 }

unfoldable pub on_timer_tick : System → System
on_timer_tick s = schedule s

unfoldable pub sched_yield : System → System
sched_yield s = schedule s

pub ready_kernel_threads : System → ℕ
ready_kernel_threads s = sched_ready_count s
