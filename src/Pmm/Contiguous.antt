-- ===== src/Pmm/Contiguous.antt =====
-- `pmm_alloc_contiguous_pages` and `pmm_free_contiguous`.
use cnos.Prelude.{
  ℕ, zero, suc, ◌+◌, ◌-◌, ◌*◌, ◌%◌, ◌^◌, ◌≤◌, ◌<◌, ◌≡◌, refl, ap, ◌∙◌, subst, ◌⊎◌, inl, inr, Bool,
  true, false, ◌&&◌, arith, ltb, leb, ◌==◌, if◌then◌else◌, ==_iff, Bool-cases, length,
}
use cnos.Pmm.{
  Pmm, page_size, u64, take_page, bitmap_set, run_free, set_run, fit_from, alloc_contiguous_pages,
}
use cnos.Pmm.Bitmap.{length-bitmap_set}
use cnos.Pmm.Valid.{IsValid, pages, take_page-IsValid, pages-take_page, used-le-total}
use native.Mathlib.Numerals.{add-one}

-- Does `j` lie in the `n` pages from `p` on?
abbrev pub in_run : ℕ → ℕ → ℕ → Bool
in_run p n j = leb p j && ltb j (p + n)

abbrev pub IsFreeRun : Pmm → ℕ → ℕ → Type 0
IsFreeRun s p n = (j : ℕ) → p ≤ j → j < p + n → pages s j ≡ false

run_free_sound : (s : Pmm) (n p : ℕ) → run_free s.bitmap n p ≡ true → IsFreeRun s p n
unfolding run_free
run_free_sound s zero p e j a b = absurd (omega arith)
run_free_sound s (suc n) p e j a b = elim (Bool-cases (p == j)) [
  | inl q ↦ ground (arith, ap (pages s) {x = p} {y = j})
  | inr q ↦ run_free_sound s n (p + 1) (ground arith) j (ground arith) (omega arith)
]

-- Of a run that the loop refuses, some page is in use.
run_free_complete :
    (s : Pmm) (n p : ℕ)
    → run_free s.bitmap n p ≡ false
    → (j : ℕ) × (p ≤ j) × (j < p + n) × (pages s j ≡ true)
unfolding run_free
run_free_complete s zero p e = cc
run_free_complete s (suc n) p e = elim (Bool-cases (pages s p)) [
  | inl used ↦ (p, omega arith, omega arith, used)
  | inr free ↦
      let (j, a, b, u) = run_free_complete s n (p + 1) (rw free at e) in
      (j, omega arith, omega arith, u)
]

abbrev pub take_run : Pmm → ℕ → ℕ → Pmm
take_run s n p = record s { bitmap = set_run s.bitmap n p; used_pages = (s.used_pages + n) % u64 }

-- What a run of pages taken from `s` leaves: the invariant, and exactly those pages marked.
pub record Takes (s : Pmm) (p n : ℕ) (t : Pmm) : Type 0 where
  pub valid : IsValid t
  pub size : length t.bitmap ≡ length s.bitmap
  pub marks : (j : ℕ) → pages t j ≡ (if in_run p n j then true else pages s j)

take_run_step : (s : Pmm) (n p : ℕ) → take_run s (suc n) p ≡ take_run (take_page s p) n (p + 1)
unfolding set_run
take_run_step s n p = λ i. record {
  bitmap = set_run (bitmap_set s.bitmap p) n (p + 1);
  total_pages = s.total_pages;
  used_pages = carry i;
  bitmap_size = s.bitmap_size;
}
  where
    carry : (s.used_pages + suc n) % u64 ≡ ((s.used_pages + 1) % u64 + n) % u64
    carry = omega arith

take_run-zero : (s : Pmm) (p : ℕ) → IsValid s → take_run s zero p ≡ s
unfolding set_run
take_run-zero s p v = λ i. record {
  bitmap = s.bitmap;
  total_pages = s.total_pages;
  used_pages = same i;
  bitmap_size = s.bitmap_size;
}
  where
    same : (s.used_pages + 0) % u64 ≡ s.used_pages
    same = omega (arith, used-le-total s v, v.small)

pub take_run-Takes :
    (s : Pmm) (n p : ℕ)
    → IsValid s
    → p + n ≤ s.total_pages
    → IsFreeRun s p n
    → Takes s p n (take_run s n p)
take_run-Takes s zero p v h free =
    rw (take_run-zero s p v) (record { valid = v; size = refl; marks = λ j. ground arith })
take_run-Takes s (suc n) p v h free =
    let now = take_page-IsValid s p v (omega arith) (free p (omega arith) (omega arith)) in
    let marked : (j : ℕ) → pages (take_page s p) j ≡ (if p == j then true else pages s j) =
      pages-take_page s p v (omega arith) in
    let rest =
      take_run-Takes (take_page s p) n (p + 1) now (omega arith)
        (λ j a b. ground (arith, marked j, free j (omega arith) (omega arith))) in
    rw (take_run_step s n p) (record {
      valid = rest.valid;
      size = rest.size ∙ length-bitmap_set s.bitmap p;
      marks = λ j. ground (arith, rest.marks j, marked j);
    })

-- The first run of `n` free pages from `i` on was taken, or there is none.
abbrev FitOutcome : Pmm → ℕ → ℕ → ℕ × Pmm → Type 0
FitOutcome s n i r =
    (((p : ℕ) → i ≤ p → p + n ≤ s.total_pages → ¬ IsFreeRun s p n) × (r ≡ (0, s)))
    ⊎ ((p : ℕ) × (p + n ≤ s.total_pages)
        × IsFreeRun s p n
        × ((q : ℕ) → i ≤ q → q < p → ¬ IsFreeRun s q n)
        × (r ≡ (p * page_size, take_run s n p)))

skip_start :
    (s : Pmm) (n i : ℕ) (r : ℕ × Pmm)
    → ¬ IsFreeRun s i n
    → FitOutcome s n (i + 1) r
    → FitOutcome s n i r
skip_start s n i r taken (inl (none_fit, e)) = inl (at, e)
  where
    at : (p : ℕ) → i ≤ p → p + n ≤ s.total_pages → ¬ IsFreeRun s p n
    at p a b = elim (Bool-cases (i == p)) [
      | inl q ↦ subst (λ k. ¬ IsFreeRun s k n) ((==_iff i p).0 q) taken
      | inr ne ↦ none_fit p (ground arith) b
    ]
skip_start s n i r taken (inr (p, fits, free, first, e)) = inr (p, fits, free, at, e)
  where
    at : (q : ℕ) → i ≤ q → q < p → ¬ IsFreeRun s q n
    at q a b = elim (Bool-cases (i == q)) [
      | inl k ↦ subst (λ k. ¬ IsFreeRun s k n) ((==_iff i q).0 k) taken
      | inr ne ↦ first q (ground arith) b
    ]

not_free : (s : Pmm) (n p : ℕ) → run_free s.bitmap n p ≡ false → ¬ IsFreeRun s p n
not_free s n p e free =
    let (j, a, b, u) = run_free_complete s n p e in let f : pages s j ≡ false = free j a b in cc

pub fit_from-FitOutcome :
    (f i n : ℕ) (s : Pmm)
    → f + i ≡ s.total_pages + 1
    → s.total_pages < 2 ^ 52
    → n < u64 - 2 ^ 53
    → FitOutcome s n i (fit_from f i n s)
unfolding fit_from
fit_from-FitOutcome zero i n s e h hn = inl ((λ p a b. absurd (omega arith)), refl)
fit_from-FitOutcome (suc f) i n s e h hn = elim (Bool-cases (leb ((i + n) % u64) s.total_pages)) [
  | inr past ↦ rw past (inl ((λ p a b. absurd (ground arith)), refl))
  | inl fits ↦ elim (Bool-cases (run_free s.bitmap n i)) [
    | inl free ↦
        rw (fits, free)
          (inr (
            i,
            ground arith,
            run_free_sound s n i free,
            (λ q a b. absurd (omega arith)),
            ap (λ a. (a, take_run s n i)) (ground arith),
          ))
    | inr taken ↦
        rw (fits, taken)
          (skip_start s n i _ (not_free s n i taken)
            (fit_from-FitOutcome f (i + 1) n s (omega arith) h hn))
  ]
]

-- What a grant of `n` contiguous pages from page `p` on promises: the first run that is free.
pub record GrantsRun (s : Pmm) (n : ℕ) (r : ℕ × Pmm) (p : ℕ) : Type 0 where
  pub in_range : p + n ≤ s.total_pages
  pub was_free : IsFreeRun s p n
  pub first : (q : ℕ) → q < p → ¬ IsFreeRun s q n
  pub address : r.0 ≡ p * page_size
  pub marks : (j : ℕ) → pages r.1 j ≡ (if in_run p n j then true else pages s j)
  pub valid : IsValid r.1

grant_run :
    (s : Pmm) (n p : ℕ) (r : ℕ × Pmm)
    → IsValid s
    → p + n ≤ s.total_pages
    → IsFreeRun s p n
    → ((q : ℕ) → 0 ≤ q → q < p → ¬ IsFreeRun s q n)
    → r ≡ (p * page_size, take_run s n p)
    → GrantsRun s n r p
grant_run s n p r v h free first e =
    let t = take_run-Takes s n p v h free in
    rw e (record {
      in_range = h;
      was_free = free;
      first = λ q. first q (omega arith);
      address = refl;
      marks = t.marks;
      valid = t.valid;
    })

fit_too_big : (f n : ℕ) (s : Pmm) → s.total_pages < n → n < u64 → fit_from (suc f) 0 n s ≡ (0, s)
unfolding fit_from
fit_too_big f n s h hn = let e : leb ((0 + n) % u64) s.total_pages ≡ false = ground arith in rw e

pub fit_from_start :
    (n : ℕ) (s : Pmm) → IsValid s → n < u64 → FitOutcome s n 0 (fit_from (s.total_pages + 1) 0 n s)
fit_from_start n s v h = elim (Bool-cases (leb n s.total_pages)) [
  | inl small ↦
      fit_from-FitOutcome (s.total_pages + 1) 0 n s (omega arith) v.small (ground (arith, v.small))
  | inr big ↦
      let over : s.total_pages < n = ground arith in
      inl ((λ p a b. absurd (omega arith)), rw add-one (fit_too_big s.total_pages n s over h))
]

-- `pmm_alloc_contiguous_pages(n)` for `n` above 0: either no run of `n` free pages exists, the
-- result is NULL and nothing changes; or it returns the address of the first such run, marks
-- exactly its pages, and keeps the invariant.
pub alloc_contiguous_pages_lem :
    (n : ℕ) (s : Pmm)
    → IsValid s
    → 0 < n
    → n < u64
    → (((p : ℕ) → p + n ≤ s.total_pages → ¬ IsFreeRun s p n)
        × (alloc_contiguous_pages n s ≡ (0, s)))
      ⊎ ((p : ℕ) × GrantsRun s n (alloc_contiguous_pages n s) p)
unfolding alloc_contiguous_pages
alloc_contiguous_pages_lem n s v pos h =
    let ne : (n == 0) ≡ false = ground arith in
    rw ne (elim (fit_from_start n s v h) [
      | inl (all, e) ↦ inl ((λ p. all p (omega arith)), e)
      | inr (p, fits, free, first, e) ↦ inr (p, grant_run s n p _ v fits free first e)
    ])
