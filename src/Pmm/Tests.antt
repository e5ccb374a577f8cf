-- ===== src/Pmm/Tests.antt =====
-- Runs of kernel/pmm.c on a small memory, and the theorems at it.
use cnos.Prelude.{ℕ, zero, suc, ◌+◌, ◌*◌, ◌≤◌, ◌<◌, ◌≡◌, refl, ◌⊎◌, true, [], ◌∷◌, arith, test_bit}
use cnos.Pmm.{
  Pmm, page_size, alloc_page, alloc_from, alloc_contiguous_pages, fit_from, run_free, free_page,
  free_contiguous, bitmap_test, get_free_memory,
}
use cnos.Pmm.Count.{count}
use cnos.Pmm.Bitmap.{IsBytes}
use cnos.Pmm.Valid.{IsValid, pages}
use cnos.Pmm.Alloc.{Grants, alloc_page_lem, free_page-IsValid, free_page-alloc_page}
use cnos.Pmm.Contiguous.{IsFreeRun, GrantsRun, alloc_contiguous_pages_lem}
use cnos.Pmm.Release.{free_contiguous-alloc_contiguous_pages}

-- Twelve pages: 0, 1 and 3 are in use.
abbrev small : Pmm
small = record { bitmap = 11 ∷ 0 ∷ []; total_pages = 12; used_pages = 3; bitmap_size = 2 }

small-IsBytes : IsBytes (11 ∷ 0 ∷ [])
small-IsBytes zero = omega arith
small-IsBytes (suc zero) = omega arith
small-IsBytes (suc (suc k)) = omega arith

small-IsValid : IsValid small
unfolding count bitmap_test test_bit
small-IsValid = record {
  bytes = small-IsBytes;
  covers = omega arith;
  counted = refl;
  small = omega arith;
}

alloc_page_run : (alloc_page small).0 ≡ 8192
unfolding alloc_page alloc_from bitmap_test test_bit
alloc_page_run = refl

alloc_contiguous_pages_run : (alloc_contiguous_pages 2 small).0 ≡ 4 * page_size
unfolding alloc_contiguous_pages fit_from run_free bitmap_test test_bit
alloc_contiguous_pages_run = refl

free_memory_run : get_free_memory small ≡ 36864
unfolding get_free_memory
free_memory_run = refl

alloc_page_example :
    (((j : ℕ) → j < 12 → pages small j ≡ true) × (alloc_page small ≡ (0, small)))
    ⊎ ((p : ℕ) × Grants small (alloc_page small) p)
alloc_page_example = alloc_page_lem small small-IsValid

free_page_example : IsValid (free_page 12288 small)
free_page_example = free_page-IsValid 12288 small small-IsValid

free_page-alloc_page_example : free_page (alloc_page small).0 (alloc_page small).1 ≡ small
unfolding alloc_page alloc_from bitmap_test test_bit
free_page-alloc_page_example = free_page-alloc_page small small-IsValid (omega arith)

alloc_contiguous_pages_example :
    (((p : ℕ) → p + 2 ≤ 12 → ¬ IsFreeRun small p 2) × (alloc_contiguous_pages 2 small ≡ (0, small)))
    ⊎ ((p : ℕ) × GrantsRun small 2 (alloc_contiguous_pages 2 small) p)
alloc_contiguous_pages_example =
    alloc_contiguous_pages_lem 2 small small-IsValid (omega arith) (omega arith)

free_contiguous-alloc_example :
    free_contiguous (alloc_contiguous_pages 2 small).0 2 (alloc_contiguous_pages 2 small).1 ≡ small
unfolding alloc_contiguous_pages fit_from run_free bitmap_test test_bit
free_contiguous-alloc_example =
    free_contiguous-alloc_contiguous_pages 2 small small-IsValid (omega arith) (omega arith)
      (omega arith)
