-- ===== src/Sched/Fair.antt =====
-- The timer gives each READY slot its turn.
use cnos.Prelude.{
  ℕ, zero, suc, ◌+◌, ◌-◌, ◌%◌, ◌≤◌, ◌<◌, ◌≡◌, sym, ap, ◌∙◌, subst, ◌≢◌, inl, inr, true, false,
  arith, ltb, Bool-cases,
}
use cnos.Process.{System, set_state, is_ready, max_tasks}
use cnos.Sched.{on_timer_tick, schedule}
use cnos.Sched.Search.{after}
use cnos.Sched.RoundRobin.{switched, Switches, schedule_lem}

-- `n` timer interrupts in a row.
pub ticks : ℕ → System → System
ticks zero s = s
ticks (suc n) s = ticks n (on_timer_tick s)

-- A slot that is READY and is not the one switched to stays READY.
still_ready :
    (s : System) (n k : ℕ)
    → n ≢ k
    → is_ready (s.tasks k).state ≡ true
    → is_ready (switched s n k).state ≡ true
unfolding set_state
still_ready s n k ne r = ground arith

after-after : (c e d : ℕ) → e ≤ d → after (after c e) (d - e) ≡ after c d
after-after c e d h = omega arith

after_ne : (c e d : ℕ) → 1 ≤ e → e < d → d ≤ max_tasks → after c e ≢ after c d
after_ne c e d lo h hi = omega arith

-- The slot `d` places on gets its turn within `d` ticks.
abbrev Turn : System → ℕ → ℕ → Type 0
Turn s d k = (n : ℕ) × (1 ≤ n) × (n ≤ d) × ((ticks n s).current_task_idx ≡ k)

-- The switch went `e` of the `d` places.
one_tick_on :
    (s : System) (d e : ℕ)
    → e < d
    → Switches s (schedule s) e
    → Turn (schedule s) (d - e) (after (schedule s).current_task_idx (d - e))
    → Turn s d (after s.current_task_idx d)
unfolding ticks on_timer_tick
one_tick_on s d e h w (n, lo, hi, c) =
    (suc n, omega arith, omega (arith, w.lower), omega (arith, c, w.current))

-- The slot waited for is READY after the switch, too.
waits :
    (s : System) (d e : ℕ)
    → e < d
    → d ≤ max_tasks
    → is_ready (s.tasks (after s.current_task_idx d)).state ≡ true
    → Switches s (schedule s) e
    → is_ready ((schedule s).tasks (after (schedule s).current_task_idx (d - e))).state ≡ true
waits s d e h hi r w =
    let place : after (schedule s).current_task_idx (d - e) ≡ after s.current_task_idx d =
      omega (arith, w.current) in
    rw (place, w.table)
      (still_ready s (after s.current_task_idx e) (after s.current_task_idx d)
        (after_ne s.current_task_idx e d w.lower h hi) r)

turn :
    (b d : ℕ) (s : System)
    → d ≤ b
    → 1 ≤ d
    → d ≤ max_tasks
    → s.current_task_idx < max_tasks
    → is_ready (s.tasks (after s.current_task_idx d)).state ≡ true
    → Turn s d (after s.current_task_idx d)
unfolding ticks on_timer_tick
turn zero d s hb lo hi h r = absurd (omega arith)
turn (suc b) d s hb lo hi h r = elim (schedule_lem s h) [
  | inl (idle, _) ↦ let i = idle d lo hi in cc
  | inr (e, w) ↦ elim (Bool-cases (ltb e d)) [
    | inr now ↦
        let nearest : d < e → is_ready (s.tasks (after s.current_task_idx d)).state ≡ false =
          w.passed d lo in
        let q : e ≡ d = ground (arith, nearest, r) in
        (1, omega arith, lo, w.current ∙ ap (after s.current_task_idx) q)
    | inl later ↦ one_tick_on s d e (ground arith) w (
        turn b (d - e) (schedule s) (omega (arith, w.lower)) (ground arith) (omega arith)
          (omega (arith, w.current)) (waits s d e (ground arith) hi r w))
  ]
]

-- No starvation: under timer ticks alone a READY slot `k` becomes the current one within
-- sixteen ticks, and sooner by as many places as it lies nearer after the current slot.
pub tick_fair :
    (s : System) (k : ℕ)
    → s.current_task_idx < max_tasks
    → k < max_tasks
    → is_ready (s.tasks k).state ≡ true
    → (n : ℕ) × (1 ≤ n)
      × (n ≤ (k + 15 - s.current_task_idx) % 16 + 1)
      × ((ticks n s).current_task_idx ≡ k)
tick_fair s k h hk r =
    let d = (k + 15 - s.current_task_idx) % 16 + 1 in
    let q : k ≡ after s.current_task_idx d = omega arith in
    subst (Turn s d) (sym q) (
      turn d d s (omega arith) (omega arith) (omega arith) h
        (subst (λ j. is_ready (s.tasks j).state ≡ true) q r))
