-- ===== src/Pmm/Bitmap.antt =====
-- The bit accessors of kernel/pmm.c against a set of pages.
use cnos.Prelude.{
  ℕ, ◌*◌, ◌/◌, ◌%◌, ◌<◌, ◌==◌, if◌then◌else◌, true, false, List, arith, ◌≡◌, ◌∙◌, ap, inl, inr,
  length, get_or, set, length-set, get_or-set_self, get_or-set_ne, set-get_or, set-set, set_bit,
  clear_bit, test_bit-set_bit, test_bit-clear_bit, set_bit-lt, clear_bit-lt, clear_bit-set_bit,
  Bool-cases, ==_iff,
}
use cnos.Pmm.{bitmap_set, bitmap_clear, bitmap_test}

-- Each entry is a byte.
abbrev pub IsBytes : List ℕ → Type 0
IsBytes bm = (k : ℕ) → get_or bm k 0 < 256

pub get_or-set :
    (bm : List ℕ) (i j v : ℕ)
    → i < length bm
    → get_or (set bm i v) j 0 ≡ (if i == j then v else get_or bm j 0)
get_or-set bm i j v h = elim (Bool-cases (i == j)) [
  | inl e ↦ let q : i ≡ j = (==_iff i j).0 e in rw (e, ← q) (get_or-set_self bm i v 0 h)
  | inr e ↦ rw e (get_or-set_ne bm i j v 0 (λ q. ground arith))
]

set-IsBytes : (bm : List ℕ) (i v : ℕ) → i < length bm → v < 256 → IsBytes bm → IsBytes (set bm i v)
set-IsBytes bm i v h hv b k = ground (arith, get_or-set bm i k v h, b k)

module _ (bm : List ℕ) (i : ℕ) (b : IsBytes bm) (h : i < 8 * length bm) where
  pub bitmap_set-IsBytes : IsBytes (bitmap_set bm i)
  unfolding bitmap_set
  bitmap_set-IsBytes =
      set-IsBytes bm (i / 8) _ (omega arith)
        (set_bit-lt (get_or bm (i / 8) 0) (i % 8) (b (i / 8)) (omega arith)) b

  pub bitmap_clear-IsBytes : IsBytes (bitmap_clear bm i)
  unfolding bitmap_clear
  bitmap_clear-IsBytes =
      set-IsBytes bm (i / 8) _ (omega arith)
        (clear_bit-lt (get_or bm (i / 8) 0) (i % 8) (b (i / 8)) (omega arith)) b

  -- A page is marked, and no other page changes.
  pub bitmap_test-bitmap_set :
      (j : ℕ) → bitmap_test (bitmap_set bm i) j ≡ (if i == j then true else bitmap_test bm j)
  unfolding bitmap_set bitmap_test
  bitmap_test-bitmap_set j = ground (
    arith,
    get_or-set bm (i / 8) (j / 8) (set_bit (get_or bm (i / 8) 0) (i % 8)) (omega arith),
    test_bit-set_bit (get_or bm (i / 8) 0) (i % 8) (b (i / 8)) (omega arith) (j % 8) (omega arith),
    ap (λ k. get_or bm k 0) {x = i / 8} {y = j / 8},
  )

  -- A page is released, and no other page changes.
  pub bitmap_test-bitmap_clear :
      (j : ℕ) → bitmap_test (bitmap_clear bm i) j ≡ (if i == j then false else bitmap_test bm j)
  unfolding bitmap_clear bitmap_test
  bitmap_test-bitmap_clear j = ground (
    arith,
    get_or-set bm (i / 8) (j / 8) (clear_bit (get_or bm (i / 8) 0) (i % 8)) (omega arith),
    test_bit-clear_bit (get_or bm (i / 8) 0) (i % 8) (b (i / 8)) (omega arith) (j % 8)
        (omega arith),
    ap (λ k. get_or bm k 0) {x = i / 8} {y = j / 8},
  )

  -- To mark a free page and to release it again leaves the very bytes that were there.
  pub bitmap_clear-bitmap_set : bitmap_test bm i ≡ false → bitmap_clear (bitmap_set bm i) i ≡ bm
  unfolding bitmap_clear bitmap_set bitmap_test
  bitmap_clear-bitmap_set free =
      let byte = get_or bm (i / 8) 0 in
      let back = clear_bit-set_bit byte (i % 8) (b (i / 8)) (omega arith) free in
      set-set bm (i / 8) _ _
      ∙ ap (set bm (i / 8)) (
          ap (λ v. clear_bit v (i % 8))
            (get_or-set_self bm (i / 8) (set_bit byte (i % 8)) 0 (omega arith))
          ∙ back)
      ∙ set-get_or bm (i / 8) 0

pub length-bitmap_set : (bm : List ℕ) (i : ℕ) → length (bitmap_set bm i) ≡ length bm
unfolding bitmap_set
length-bitmap_set bm i = length-set bm (i / 8) _

pub length-bitmap_clear : (bm : List ℕ) (i : ℕ) → length (bitmap_clear bm i) ≡ length bm
unfolding bitmap_clear
length-bitmap_clear bm i = length-set bm (i / 8) _
