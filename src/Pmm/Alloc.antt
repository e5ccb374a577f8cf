-- ===== src/Pmm/Alloc.antt =====
-- `pmm_alloc_page` and `pmm_free_page`.
use cnos.Prelude.{
  ℕ, zero, suc, ◌+◌, ◌*◌, ◌/◌, ◌^◌, ◌≤◌, ◌<◌, ◌≡◌, refl, ap, ◌≢◌, ◌⊎◌, inl, inr, true, false, arith,
  ltb, ◌==◌, if◌then◌else◌, lt→ltb, ==_iff, Bool-cases,
}
use cnos.Pmm.{Pmm, page_size, take_page, drop_page, alloc_from, alloc_page, free_page, incr, decr}
use cnos.Pmm.Valid.{
  IsValid, pages, take_page-IsValid, drop_page-IsValid, pages-take_page, used-take_page,
}
use cnos.Pmm.Count.{count-le}
use cnos.Pmm.Bitmap.{bitmap_clear-bitmap_set}

-- The lowest free page from `i` on below `i + n` was taken, or there is none.
pub record Lowest (s : Pmm) (i : ℕ) (r : ℕ × Pmm) (p : ℕ) : Type 0 where
  pub from : i ≤ p
  pub in_range : p < s.total_pages
  pub was_free : pages s p ≡ false
  pub below_used : (j : ℕ) → i ≤ j → j < p → pages s j ≡ true
  pub result : r ≡ (p * page_size, take_page s p)

abbrev Outcome : Pmm → ℕ → ℕ × Pmm → Type 0
Outcome s i r =
    (((j : ℕ) → i ≤ j → j < s.total_pages → pages s j ≡ true) × (r ≡ (0, s)))
    ⊎ ((p : ℕ) × Lowest s i r p)

-- A used page in front changes nothing of the outcome.
skip_used : (s : Pmm) (i : ℕ) (r : ℕ × Pmm) → pages s i ≡ true → Outcome s (i + 1) r → Outcome s i r
skip_used s i r used (inl (all, e)) = inl ((λ j p q. at j p q), e)
  where
    at : (j : ℕ) → i ≤ j → j < s.total_pages → pages s j ≡ true
    at j p q = elim (Bool-cases (i == j)) [
      | inl e ↦ ground (arith, ap (pages s) {x = i} {y = j})
      | inr ne ↦ all j (ground arith) q
    ]
skip_used s i r used (inr (p, l)) = inr (
  p,
  record {
    from = omega (arith, l.from);
    in_range = l.in_range;
    was_free = l.was_free;
    below_used = at;
    result = l.result;
  },
)
  where
    at : (j : ℕ) → i ≤ j → j < p → pages s j ≡ true
    at j a b = elim (Bool-cases (i == j)) [
      | inl e ↦ ground (arith, ap (pages s) {x = i} {y = j})
      | inr ne ↦ l.below_used j (ground arith) b
    ]

alloc_from-Outcome :
    (n i : ℕ) (s : Pmm)
    → n + i ≡ s.total_pages
    → s.total_pages < 2 ^ 52
    → Outcome s i (alloc_from n i s)
unfolding alloc_from
alloc_from-Outcome zero i s e h = inl ((λ j p q. absurd (omega arith)), refl)
alloc_from-Outcome (suc n) i s e h = elim (Bool-cases (pages s i)) [
  | inr free ↦ rw free (
      inr (
        i,
        record {
          from = omega arith;
          in_range = omega arith;
          was_free = free;
          below_used = λ j p q. absurd (omega arith);
          result = ap (λ a. (a, take_page s i)) (omega arith);
        },
      ))
  | inl used ↦ rw used (skip_used s i _ used (alloc_from-Outcome n (i + 1) s (omega arith) h))
]

-- What a grant of page `p` promises: the lowest free page, at its address, and that bit alone set.
pub record Grants (s : Pmm) (r : ℕ × Pmm) (p : ℕ) : Type 0 where
  pub in_range : p < s.total_pages
  pub was_free : pages s p ≡ false
  pub lowest : (j : ℕ) → j < p → pages s j ≡ true
  pub address : r.0 ≡ p * page_size
  pub marks : (j : ℕ) → pages r.1 j ≡ (if p == j then true else pages s j)
  pub counts : r.1.used_pages ≡ s.used_pages + 1
  pub valid : IsValid r.1

grant : (s : Pmm) (r : ℕ × Pmm) (p : ℕ) → IsValid s → Lowest s 0 r p → Grants s r p
grant s r p v l = rw l.result (record {
  in_range = l.in_range;
  was_free = l.was_free;
  lowest = λ j. l.below_used j (omega arith);
  address = refl;
  marks = pages-take_page s p v l.in_range;
  counts = used-take_page s p v l.in_range l.was_free;
  valid = take_page-IsValid s p v l.in_range l.was_free;
})

-- `pmm_alloc_page` on a valid allocator: either every page is in use, the result is NULL and
-- nothing changes; or it returns the address of the lowest free page, whose bit alone is set,
-- `used_pages` grows by one and the invariant holds again.
pub alloc_page_lem :
    (s : Pmm)
    → IsValid s
    → (((j : ℕ) → j < s.total_pages → pages s j ≡ true) × (alloc_page s ≡ (0, s)))
      ⊎ ((p : ℕ) × Grants s (alloc_page s) p)
unfolding alloc_page
alloc_page_lem s v = elim (alloc_from-Outcome s.total_pages 0 s (omega arith) v.small) [
  | inl (all, e) ↦ inl ((λ j q. all j (omega arith) q), e)
  | inr (p, l) ↦ inr (p, grant s _ p v l)
]

-- `pmm_free_page` keeps the invariant whatever it is given, a page out of range and a free page
-- included.
pub free_page-IsValid : (ptr : ℕ) (s : Pmm) → IsValid s → IsValid (free_page ptr s)
unfolding free_page
free_page-IsValid ptr s v = elim (Bool-cases (ltb (ptr / page_size) s.total_pages)) [
  | inl in_range ↦ elim (Bool-cases (pages s (ptr / page_size))) [
    | inl used ↦ rw (in_range, used) (drop_page-IsValid s (ptr / page_size) v (ground arith) used)
    | inr free ↦ rw (in_range, free) v
  ]
  | inr out ↦ rw out v
]

decr-incr : (n : ℕ) → n < 2 ^ 52 → decr (incr n) ≡ n
decr-incr n h = omega arith

drop-take :
    (s : Pmm) (p : ℕ)
    → IsValid s
    → p < s.total_pages
    → pages s p ≡ false
    → drop_page (take_page s p) p ≡ s
drop-take s p v h free = λ i. record {
  bitmap = bitmap_clear-bitmap_set s.bitmap p v.bytes (omega (arith, v.covers)) free i;
  total_pages = s.total_pages;
  used_pages =
      decr-incr s.used_pages (omega (arith, v.counted, v.small, count-le (pages s) s.total_pages))
        i;
  bitmap_size = s.bitmap_size;
}

-- To free the page that `pmm_alloc_page` has just granted restores the allocator, byte for byte.
pub free_page-alloc_page :
    (s : Pmm) → IsValid s → (alloc_page s).0 ≢ 0 → free_page (alloc_page s).0 (alloc_page s).1 ≡ s
unfolding alloc_page free_page
free_page-alloc_page s v ne = elim (alloc_from-Outcome s.total_pages 0 s (omega arith) v.small) [
  | inl (all, e) ↦ absurd (ne (ap (λ r. r.0) e))
  | inr (p, l) ↦ rw l.result (
      let page : p * page_size / page_size ≡ p = omega arith in
      rw (page, lt→ltb _ _ l.in_range, pages-take_page s p v l.in_range p, (==_iff p p).1 refl)
        (drop-take s p v l.in_range l.was_free))
]
