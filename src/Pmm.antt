-- ===== src/Pmm.antt =====
-- kernel/pmm.c: the physical page allocator. `bitmap` is the memory from `_kernel_end` on, one
-- byte an entry; a pointer is a number with 0 for NULL, and the 64-bit wraps are written out.
pub mod Bitmap
pub mod Count
pub mod Valid
pub mod Ext
pub mod Alloc
pub mod Contiguous
pub mod Release
pub mod Boot
mod Tests
use cnos.Prelude.{
  ℕ, zero, suc, ◌+◌, ◌-◌, ◌*◌, ◌/◌, ◌%◌, ◌^◌, ◌≤◌, ◌<◌, ◌≡◌, refl, sym, ap, ◌∙◌, subst, fun_ext,
  ◌≢◌, ◌↔◌, ◌⊎◌, inl, inr, Bool, true, false, not, ◌&&◌, ◌||◌, Option, none, some, List, [], ◌∷◌,
  ◌++◌, arith, ltb, leb, ◌==◌, if◌then◌else◌, ltb→lt, lt→ltb, ==_iff, Bool-cases, Option-cases,
  length, get_or, set, length-set, get_or-set_self, get_or-set_ne, set-get_or, set-set, set_bit,
  clear_bit, test_bit, test_bit-set_bit, test_bit-clear_bit, set_bit-lt, clear_bit-lt,
  clear_bit-set_bit,
}

abbrev pub page_size : ℕ
page_size = 4096

abbrev pub u64 : ℕ
u64 = 2 ^ 64

pub record Pmm : Type 0 where
  pub bitmap : List ℕ
  pub total_pages : ℕ
  pub used_pages : ℕ
  pub bitmap_size : ℕ

unfoldable pub bitmap_set : List ℕ → ℕ → List ℕ
bitmap_set bm i = set bm (i / 8) (set_bit (get_or bm (i / 8) 0) (i % 8))

unfoldable pub bitmap_clear : List ℕ → ℕ → List ℕ
bitmap_clear bm i = set bm (i / 8) (clear_bit (get_or bm (i / 8) 0) (i % 8))

unfoldable pub bitmap_test : List ℕ → ℕ → Bool
bitmap_test bm i = test_bit (get_or bm (i / 8) 0) (i % 8)

abbrev pub incr : ℕ → ℕ
incr n = (n + 1) % u64

abbrev pub decr : ℕ → ℕ
decr n = (n + u64 - 1) % u64

-- `bitmap_set(i); used_pages++`.
abbrev pub take_page : Pmm → ℕ → Pmm
take_page s i = record s { bitmap = bitmap_set s.bitmap i; used_pages = incr s.used_pages }

-- `bitmap_clear(i); used_pages--`.
abbrev pub drop_page : Pmm → ℕ → Pmm
drop_page s i = record s { bitmap = bitmap_clear s.bitmap i; used_pages = decr s.used_pages }

-- The loop of `pmm_alloc_page`, with the rounds left and the page at hand.
unfoldable pub alloc_from : ℕ → ℕ → Pmm → ℕ × Pmm
alloc_from zero i s = (0, s)
alloc_from (suc n) i s =
    let rest = alloc_from n (i + 1) s in
    if not (bitmap_test s.bitmap i) then ((i * page_size) % u64, take_page s i) else rest

unfoldable pub alloc_page : Pmm → ℕ × Pmm
alloc_page s = alloc_from s.total_pages 0 s

-- The inner loop of `pmm_alloc_contiguous_pages`: are the `n` pages from `p` on all free?
pub run_free : List ℕ → ℕ → ℕ → Bool
run_free bm zero p = true
run_free bm (suc n) p = if bitmap_test bm p then false else run_free bm n (p + 1)

pub set_run : List ℕ → ℕ → ℕ → List ℕ
set_run bm zero p = bm
set_run bm (suc n) p = set_run (bitmap_set bm p) n (p + 1)

-- The outer loop. `start + n` cannot wrap: `n` is at most `total_pages` when it passes the test.
pub fit_from : ℕ → ℕ → ℕ → Pmm → ℕ × Pmm
fit_from zero start n s = (0, s)
fit_from (suc f) start n s =
    let rest = fit_from f (start + 1) n s in
    if leb ((start + n) % u64) s.total_pages
    then (if run_free s.bitmap n start
        then (
          (start * page_size) % u64,
          record s { bitmap = set_run s.bitmap n start; used_pages = (s.used_pages + n) % u64 },
        )
        else rest)
    else (0, s)

-- A round for each `start` from 0 to `total_pages`, the last of which fails the loop's test.
pub alloc_contiguous_pages : ℕ → Pmm → ℕ × Pmm
alloc_contiguous_pages n s = if n == 0 then (0, s) else fit_from (s.total_pages + 1) 0 n s

pub free_one : ℕ → Pmm → Pmm
free_one p s = if bitmap_test s.bitmap p then drop_page s p else s

pub free_run : ℕ → ℕ → Pmm → Pmm
free_run zero p s = s
free_run (suc n) p s =
    let rest = free_run n (p + 1) (free_one p s) in if ltb p s.total_pages then rest else s

pub free_contiguous : ℕ → ℕ → Pmm → Pmm
free_contiguous ptr n s =
    if (ptr == 0) || (n == 0)
    then s
    else (if leb s.total_pages (ptr / page_size) then s else free_run n (ptr / page_size) s)

pub free_page : ℕ → Pmm → Pmm
unfolding free_one
free_page ptr s =
    if ltb (ptr / page_size) s.total_pages && bitmap_test s.bitmap (ptr / page_size)
    then drop_page s (ptr / page_size)
    else s

pub get_total_memory : Pmm → ℕ
get_total_memory s = (s.total_pages * page_size) % u64

pub get_used_memory : Pmm → ℕ
get_used_memory s = (s.used_pages * page_size) % u64

pub get_free_memory : Pmm → ℕ
get_free_memory s = (((s.total_pages + u64 - s.used_pages) % u64) * page_size) % u64
