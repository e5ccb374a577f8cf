-- ===== src/Pmm/Boot/Runs.antt =====
-- What the loops of `pmm_init` in kernel/pmm.c do to the set of pages in use.
use cnos.Prelude.{
  ℕ, zero, suc, ◌+◌, ◌≤◌, ◌<◌, ◌≡◌, refl, ap, ◌∙◌, inl, inr, Bool, true, false, ◌&&◌, arith, ltb,
  ◌==◌, if◌then◌else◌, ltb→lt, Bool-cases, set,
}
use cnos.Pmm.{Pmm, drop_page}
use cnos.Pmm.Valid.{
  IsValid, pages, take_page-IsValid, drop_page-IsValid, pages-take_page, pages-drop_page,
}
use cnos.Pmm.Contiguous.{in_run}
use cnos.Pmm.Boot.{clear_run, mark_page, mark_run, mark_inside}

-- `t` is a valid allocator of the same memory whose pages in use are `used`.
pub record Turns (s t : Pmm) (used : ℕ → Bool) : Type 0 where
  pub valid : IsValid t
  pub total : t.total_pages ≡ s.total_pages
  pub holds : (j : ℕ) → pages t j ≡ used j

pub mark_page-Turns :
    (i : ℕ) (s : Pmm)
    → IsValid s
    → i < s.total_pages
    → Turns s (mark_page i s) (λ j. if i == j then true else pages s j)
unfolding mark_page
mark_page-Turns i s v h = elim (Bool-cases (pages s i)) [
  | inl used ↦ rw used (record {
    valid = v;
    total = refl;
    holds = λ j. ground (arith, ap (pages s) {x = i} {y = j});
  })
  | inr free ↦ rw free (record {
    valid = take_page-IsValid s i v h free;
    total = refl;
    holds = pages-take_page s i v h;
  })
]

pub mark_run-Turns :
    (n i : ℕ) (s : Pmm)
    → IsValid s
    → i + n ≤ s.total_pages
    → Turns s (mark_run n i s) (λ j. if in_run i n j then true else pages s j)
unfolding mark_run
mark_run-Turns zero i s v h = record { valid = v; total = refl; holds = λ j. ground arith }
mark_run-Turns (suc n) i s v h =
    let one = mark_page-Turns i s v (omega arith) in
    let rest = mark_run-Turns n (i + 1) (mark_page i s) one.valid (omega (arith, one.total)) in
    record {
      valid = rest.valid;
      total = rest.total ∙ one.total;
      holds = λ j. ground (arith, rest.holds j, one.holds j);
    }

pub mark_inside-Turns :
    (n i : ℕ) (s : Pmm)
    → IsValid s
    → Turns s
        (mark_inside n i s)
        (λ j. if in_run i n j && ltb j s.total_pages then true else pages s j)
unfolding mark_inside
mark_inside-Turns zero i s v = record { valid = v; total = refl; holds = λ j. ground arith }
mark_inside-Turns (suc n) i s v = elim (Bool-cases (ltb i s.total_pages)) [
  | inl here ↦
      let one = mark_page-Turns i s v (ltb→lt _ _ here) in
      let rest = mark_inside-Turns n (i + 1) (mark_page i s) one.valid in
      rw here (record {
        valid = rest.valid;
        total = rest.total ∙ one.total;
        holds = λ j. ground (arith, rest.holds j, one.holds j, one.total);
      })
  | inr past ↦
      let rest = mark_inside-Turns n (i + 1) s v in
      rw past (record {
        valid = rest.valid;
        total = rest.total;
        holds = λ j. ground (arith, rest.holds j);
      })
]

pub clear_run-Turns :
    (n i : ℕ) (s : Pmm)
    → IsValid s
    → ((j : ℕ) → in_run i n j ≡ true → (j < s.total_pages) × (pages s j ≡ true))
    → Turns s (clear_run n i s) (λ j. if in_run i n j then false else pages s j)
unfolding clear_run
clear_run-Turns zero i s v used = record { valid = v; total = refl; holds = λ j. ground arith }
clear_run-Turns (suc n) i s v used =
    let (fits, mine) = used i (ground arith) in
    let one = pages-drop_page s i v fits in
    let rest =
      clear_run-Turns n (i + 1) (drop_page s i) (drop_page-IsValid s i v fits mine)
        (λ j r. let (below, set) = used j (ground arith) in (below, ground (arith, one j))) in
    record {
      valid = rest.valid;
      total = rest.total;
      holds = λ j. ground (arith, rest.holds j, one j);
    }
