-- ===== src/Pmm/Release.antt =====
-- `pmm_free_contiguous`, and that it undoes `pmm_alloc_contiguous_pages`.
use cnos.Prelude.{
  ℕ, zero, suc, ◌+◌, ◌*◌, ◌/◌, ◌≤◌, ◌<◌, ◌≡◌, refl, ap, ◌∙◌, ◌≢◌, inl, inr, false, not, ◌&&◌, ◌||◌,
  arith, ltb, leb, ◌==◌, if◌then◌else◌, Bool-cases, length,
}
use cnos.Pmm.{Pmm, page_size, u64, alloc_contiguous_pages, free_one, free_run, free_contiguous}
use cnos.Pmm.Bitmap.{length-bitmap_clear}
use cnos.Pmm.Valid.{IsValid, pages, drop_page-IsValid, pages-drop_page}
use cnos.Pmm.Contiguous.{in_run, IsFreeRun, take_run, take_run-Takes, fit_from_start}
use cnos.Pmm.Ext.{valid_ext}

-- What the release of `n` pages from `p` on leaves: those pages below the end of memory are free.
pub record Releases (s : Pmm) (p n : ℕ) (t : Pmm) : Type 0 where
  pub valid : IsValid t
  pub total : t.total_pages ≡ s.total_pages
  pub size : t.bitmap_size ≡ s.bitmap_size
  pub memory : length t.bitmap ≡ length s.bitmap
  pub clears : (j : ℕ) → j < s.total_pages → pages t j ≡ (if in_run p n j then false else pages s j)
  pub above : (j : ℕ) → s.total_pages ≤ j → pages t j ≡ pages s j

free_one-Releases :
    (p : ℕ) (s : Pmm) → IsValid s → p < s.total_pages → Releases s p 1 (free_one p s)
unfolding free_one
free_one-Releases p s v h = elim (Bool-cases (pages s p)) [
  | inl used ↦ rw used (record {
    valid = drop_page-IsValid s p v h used;
    total = refl;
    size = refl;
    memory = length-bitmap_clear s.bitmap p;
    clears = λ j q. ground (arith, pages-drop_page s p v h j);
    above = λ j q. ground (arith, pages-drop_page s p v h j);
  })
  | inr free ↦ rw free (record {
    valid = v;
    total = refl;
    size = refl;
    memory = refl;
    clears = λ j q. ground (arith, ap (pages s) {x = p} {y = j});
    above = λ j q. refl;
  })
]

pub free_run-Releases : (n p : ℕ) (s : Pmm) → IsValid s → Releases s p n (free_run n p s)
unfolding free_run
free_run-Releases zero p s v = record {
  valid = v;
  total = refl;
  size = refl;
  memory = refl;
  clears = λ j q. ground arith;
  above = λ j q. refl;
}
free_run-Releases (suc n) p s v = elim (Bool-cases (ltb p s.total_pages)) [
  | inr past ↦ rw past (record {
    valid = v;
    total = refl;
    size = refl;
    memory = refl;
    clears = λ j q. ground arith;
    above = λ j q. refl;
  })
  | inl here ↦
      let one = free_one-Releases p s v (ground arith) in
      let rest = free_run-Releases n (p + 1) (free_one p s) one.valid in
      rw here (record {
        valid = rest.valid;
        total = rest.total ∙ one.total;
        size = rest.size ∙ one.size;
        memory = rest.memory ∙ one.memory;
        clears = λ j q. ground (arith, rest.clears j, one.clears j, one.total);
        above = λ j q. ground (arith, rest.above j, one.above j, one.total);
      })
]

-- `pmm_free_contiguous` keeps the invariant and frees exactly the pages of the region that lie
-- below the end of memory; NULL, no pages, and a region past the end change nothing.
free_contiguous_lem :
    (ptr n : ℕ) (s : Pmm)
    → IsValid s
    → IsValid (free_contiguous ptr n s)
      × ((j : ℕ)
          → j < s.total_pages
          → pages (free_contiguous ptr n s) j
            ≡ (if not (ptr == 0) && in_run (ptr / page_size) n j then false else pages s j))
unfolding free_contiguous
free_contiguous_lem ptr n s v =
    let r = free_run-Releases n (ptr / page_size) s v in
    elim (Bool-cases ((ptr == 0) || (n == 0))) [
      | inl nothing ↦ rw nothing (v, λ j h. ground arith)
      | inr some_pages ↦ elim (Bool-cases (leb s.total_pages (ptr / page_size))) [
        | inl past ↦ rw (some_pages, past) (v, λ j h. ground arith)
        | inr inside ↦ rw (some_pages, inside) (r.valid, λ j h. ground (arith, r.clears j h))
      ]
    ]

-- The release of a run that was just taken restores the allocator.
free_run-take_run :
    (s : Pmm) (n p : ℕ)
    → IsValid s
    → p + n ≤ s.total_pages
    → IsFreeRun s p n
    → free_run n p (take_run s n p) ≡ s
free_run-take_run s n p v h free =
    let t = take_run-Takes s n p v h free in
    let r = free_run-Releases n p (take_run s n p) t.valid in
    valid_ext _ s r.valid v r.total r.size (r.memory ∙ t.size) λ j.
      elim (Bool-cases (ltb j s.total_pages)) [
        | inl below ↦ ground (arith, r.clears j, t.marks j, free j)
        | inr past ↦ ground (arith, r.above j, t.marks j)
      ]

free_granted :
    (s : Pmm) (n p : ℕ)
    → IsValid s
    → 0 < n
    → p + n ≤ s.total_pages
    → IsFreeRun s p n
    → p * page_size ≢ 0
    → free_contiguous (p * page_size) n (take_run s n p) ≡ s
unfolding free_contiguous
free_granted s n p v pos fits free ne =
    let page : p * page_size / page_size ≡ p = omega arith in
    let given : ((p * page_size == 0) || (n == 0)) ≡ false = ground arith in
    let inside : leb s.total_pages p ≡ false = ground arith in
    rw (given, page, inside) (free_run-take_run s n p v fits free)

-- To free the `n` pages that `pmm_alloc_contiguous_pages` has just granted restores the
-- allocator, byte for byte.
pub free_contiguous-alloc_contiguous_pages :
    (n : ℕ) (s : Pmm)
    → IsValid s
    → 0 < n
    → n < u64
    → (alloc_contiguous_pages n s).0 ≢ 0
    → free_contiguous (alloc_contiguous_pages n s).0 n (alloc_contiguous_pages n s).1 ≡ s
unfolding alloc_contiguous_pages
free_contiguous-alloc_contiguous_pages n s v pos h =
    let ne : (n == 0) ≡ false = ground arith in
    rw ne λ some_page. elim (fit_from_start n s v h) [
      | inl (all, e) ↦ absurd (some_page (ap (λ r. r.0) e))
      | inr (p, fits, free, first, e) ↦
          rw e (free_granted s n p v pos fits free (λ z. some_page (ap (λ r. r.0) e ∙ z)))
    ]
