-- ===== src/Process/Find.antt =====
-- The table's invariant, and the lookups of kernel/process.c.
use cnos.Prelude.{
  ℕ, zero, suc, ◌+◌, ◌≤◌, ◌<◌, ◌≡◌, refl, ap, ◌∙◌, subst, ◌⊎◌, inl, inr, Bool, true, false, not,
  ◌&&◌, Option, none, some, arith, ltb, ◌==◌, if◌then◌else◌, ==_iff, Bool-cases,
}
use cnos.Process.{System, is_free, is_running, max_tasks, first_from, first_slot, find_by_pid}

-- A slot that is not free carries its own index as its PID, the current slot lies in the table,
-- and no other slot is RUNNING.
pub record IsTable (s : System) : Type 0 where
  pub own_pid : (i : ℕ) → i < max_tasks → is_free (s.tasks i).state ≡ false → (s.tasks i).pid ≡ i
  pub current : s.current_task_idx < max_tasks
  pub solo : (i : ℕ) → i < max_tasks → is_running (s.tasks i).state ≡ true → i ≡ s.current_task_idx

-- What the first index that passes is.
abbrev pub First : ℕ → ℕ → (ℕ → Bool) → Option ℕ → Type 0
First i n test r =
    ((r ≡ none) × ((j : ℕ) → i ≤ j → j < i + n → test j ≡ false))
    ⊎ ((k : ℕ) × (r ≡ some k)
        × (i ≤ k)
        × (k < i + n)
        × (test k ≡ true)
        × ((j : ℕ) → i ≤ j → j < k → test j ≡ false))

extend_down :
    (i m : ℕ) (test : ℕ → Bool)
    → test i ≡ false
    → ((j : ℕ) → i + 1 ≤ j → j < m → test j ≡ false)
    → (j : ℕ) → i ≤ j
    → j < m
    → test j ≡ false
extend_down i m test miss h j a b = elim (Bool-cases (i == j)) [
  | inl q ↦ subst (λ k. test k ≡ false) ((==_iff i j).0 q) miss
  | inr q ↦ h j (ground arith) b
]

no_slot_passes :
    (i n : ℕ) (test : ℕ → Bool) (r : Option ℕ)
    → test i ≡ false
    → First (i + 1) n test r
    → First i (suc n) test r
no_slot_passes i n test r miss (inl (e, h)) =
    inl (e, extend_down i (i + suc n) test miss (λ j a b. h j a (omega arith)))
no_slot_passes i n test r miss (inr (k, e, a, b, t, h)) =
    inr (k, e, omega arith, omega arith, t, extend_down i k test miss h)

pub first_from-First : (n i : ℕ) (test : ℕ → Bool) → First i n test (first_from n i test)
unfolding first_from
first_from-First zero i test = inl (refl, λ j a b. absurd (omega arith))
first_from-First (suc n) i test = elim (Bool-cases (test i)) [
  | inl hit ↦ rw hit (inr (i, refl, omega arith, omega arith, hit, λ j a b. absurd (omega arith)))
  | inr miss ↦ rw miss (no_slot_passes i n test _ miss (first_from-First n (i + 1) test))
]

-- The first slot that passes, or none does.
pub first_slot-First : (test : ℕ → Bool) → First 0 max_tasks test (first_slot test)
first_slot-First test = first_from-First max_tasks 0 test

-- The only slot that passes is the one that is found.
pub first_slot_only :
    (test : ℕ → Bool) (k : ℕ)
    → k < max_tasks
    → test k ≡ true
    → ((m : ℕ) → m < max_tasks → test m ≡ true → m ≡ k)
    → first_slot test ≡ some k
first_slot_only test k h t only = elim (first_slot-First test) [
  | inl (e, all) ↦ let none_passes = all k (omega arith) h in cc
  | inr (m, e, _, hm, tm, _) ↦ e ∙ ap some (only m hm tm)
]

-- In a valid table `process_find_by_pid` is a look at one slot: PIDs name slots, uniquely.
pub find_by_pid_lem :
    (pid : ℕ) (s : System)
    → IsTable s
    → find_by_pid pid s
      ≡ (if ltb pid max_tasks && not (is_free (s.tasks pid).state) then some pid else none)
unfolding find_by_pid
find_by_pid_lem pid s v =
    elim (first_slot-First (λ i. not (is_free (s.tasks i).state) && (s.tasks i).pid == pid)) [
      | inl (e, all) ↦ rw e (ground (arith, all pid, v.own_pid pid))
      | inr (k, e, _, hk, t, _) ↦
          rw e
            (ground (arith, v.own_pid k hk, ap (λ j. is_free (s.tasks j).state) {x = k} {y = pid}))
    ]
