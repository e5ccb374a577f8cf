-- ===== src/Sched/Search.antt =====
-- What the search of `schedule` finds.
use cnos.Prelude.{
  ℕ, zero, suc, ◌+◌, ◌%◌, ◌≤◌, ◌<◌, ◌≡◌, refl, subst, ◌≢◌, ◌⊎◌, inl, inr, true, false, arith, ◌==◌,
  ==_iff, Bool-cases,
}
use cnos.Process.{Proc, is_ready, max_tasks}
use cnos.Sched.{next_ready}

-- The slot `d` places after `old`, going round the table.
abbrev pub after : ℕ → ℕ → ℕ
after old d = (old + d) % max_tasks

-- The nearest READY slot is `d` places on, or a whole round brings the search back to `old`.
pub record Nearest (tasks : ℕ → Proc) (old from found : ℕ) (d : ℕ) : Type 0 where
  pub place : found ≡ after old d
  pub lower : from ≤ d
  pub upper : d ≤ max_tasks
  pub passed : (e : ℕ) → from ≤ e → e < d → is_ready (tasks (after old e)).state ≡ false
  pub stops : (is_ready (tasks (after old d)).state ≡ true) ⊎ (d ≡ max_tasks)

pub next_ready-Nearest :
    (tasks : ℕ → Proc) (old fuel d : ℕ)
    → old < max_tasks
    → 1 ≤ d
    → d + fuel ≡ max_tasks + 1
    → d ≤ max_tasks
    → (e : ℕ) × Nearest tasks old d (next_ready fuel (after old d) old tasks) e
unfolding next_ready
next_ready-Nearest tasks old zero d h lo e hi = absurd (omega arith)
next_ready-Nearest tasks old (suc fuel) d h lo e hi =
    elim (Bool-cases (is_ready (tasks (after old d)).state)) [
      | inl rdy ↦ rw rdy (
        d,
        record {
          place = refl;
          lower = omega arith;
          upper = hi;
          passed = λ k a b. absurd (omega arith);
          stops = inl rdy;
        },
      )
      | inr idle ↦ elim (Bool-cases (after old d == old)) [
        | inl round ↦
            rw (idle, round)
              (
                d,
                record {
                  place = refl;
                  lower = omega arith;
                  upper = hi;
                  passed = λ k a b. absurd (omega arith);
                  stops = inr (ground arith);
                },
              )
        | inr on ↦
            let q : after old (d + 1) ≡ (after old d + 1) % max_tasks = omega arith in
            let ih =
              next_ready-Nearest tasks old fuel (d + 1) h (omega arith) (omega arith)
                (ground arith) in
            rw (idle, on)
              (further idle (ground arith) (
                subst (λ k. (e : ℕ) × Nearest tasks old (d + 1) (next_ready fuel k old tasks) e) q
                  ih))
      ]
    ]
  where
    further :
        is_ready (tasks (after old d)).state ≡ false
        → d ≢ max_tasks
        → (e : ℕ) × Nearest tasks old
            (d + 1)
            (next_ready fuel ((after old d + 1) % max_tasks) old tasks)
            e
        → (e : ℕ) × Nearest tasks old d
            (next_ready fuel ((after old d + 1) % max_tasks) old tasks)
            e
    further idle ne (e, n) = (
      e,
      record {
        place = n.place;
        lower = omega (arith, n.lower);
        upper = n.upper;
        passed = λ k a b. elim (Bool-cases (d == k)) [
          | inl q ↦
              subst (λ k. is_ready (tasks (after old k)).state ≡ false) ((==_iff d k).0 q) idle
          | inr q ↦ n.passed k (ground arith) b
        ];
        stops = n.stops;
      },
    )
