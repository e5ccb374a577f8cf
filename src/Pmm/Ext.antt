-- ===== src/Pmm/Ext.antt =====
-- A valid allocator is determined by its set of pages in use and its sizes: the bitmap holds no
-- other information.
use cnos.Prelude.{
  ℕ, suc, ◌+◌, ◌*◌, ◌/◌, ◌%◌, ◌^◌, ◌<◌, ◌≡◌, refl, sym, ap, ◌∙◌, List, [], ◌∷◌, arith, ◌==◌, length,
  get_or, test_bit,
}
use cnos.Pmm.{Pmm, bitmap_test}
use cnos.Pmm.Bitmap.{IsBytes}
use cnos.Pmm.Count.{count, count-eq}
use cnos.Pmm.Valid.{IsValid, pages}

digit_eq : (x y : ℕ) → (x % 2 == 1) ≡ (y % 2 == 1) → x % 2 ≡ y % 2
digit_eq x y h = ground arith

byte_ext : (b c : ℕ) → b < 256 → c < 256 → ((k : ℕ) → k < 8 → test_bit b k ≡ test_bit c k) → b ≡ c
unfolding test_bit
byte_ext b c hb hc h = omega (
  arith,
  digit_eq (b / 2 ^ 0) (c / 2 ^ 0) (h 0 (omega arith)),
  digit_eq (b / 2 ^ 1) (c / 2 ^ 1) (h 1 (omega arith)),
  digit_eq (b / 2 ^ 2) (c / 2 ^ 2) (h 2 (omega arith)),
  digit_eq (b / 2 ^ 3) (c / 2 ^ 3) (h 3 (omega arith)),
  digit_eq (b / 2 ^ 4) (c / 2 ^ 4) (h 4 (omega arith)),
  digit_eq (b / 2 ^ 5) (c / 2 ^ 5) (h 5 (omega arith)),
  digit_eq (b / 2 ^ 6) (c / 2 ^ 6) (h 6 (omega arith)),
  digit_eq (b / 2 ^ 7) (c / 2 ^ 7) (h 7 (omega arith)),
)

list_ext :
    (xs ys : List ℕ) → length xs ≡ length ys → ((k : ℕ) → get_or xs k 0 ≡ get_or ys k 0) → xs ≡ ys
list_ext [] [] e h = refl
list_ext [] (y ∷ ys) e h = absurd (omega arith)
list_ext (x ∷ xs) [] e h = absurd (omega arith)
list_ext (x ∷ xs) (y ∷ ys) e h =
    let tails : xs ≡ ys = list_ext xs ys (omega arith) (λ k. h (suc k)) in
    let heads : x ≡ y = h 0 in λ i. heads i ∷ tails i

bitmap_ext :
    (xs ys : List ℕ)
    → IsBytes xs
    → IsBytes ys
    → length xs ≡ length ys
    → ((j : ℕ) → bitmap_test xs j ≡ bitmap_test ys j)
    → xs ≡ ys
unfolding bitmap_test
bitmap_ext xs ys bx by e h = list_ext xs ys e λ k.
    byte_ext (get_or xs k 0) (get_or ys k 0) (bx k) (by k) λ m hm.
      let q : (8 * k + m) / 8 ≡ k = omega arith in
      let r : (8 * k + m) % 8 ≡ m = omega arith in rw (q, r) at (h (8 * k + m))

pub valid_ext :
    (s t : Pmm)
    → IsValid s
    → IsValid t
    → s.total_pages ≡ t.total_pages
    → s.bitmap_size ≡ t.bitmap_size
    → length s.bitmap ≡ length t.bitmap
    → ((j : ℕ) → pages s j ≡ pages t j)
    → s ≡ t
valid_ext s t v w e z l h = λ i. record {
  bitmap = bitmap_ext s.bitmap t.bitmap v.bytes w.bytes l h i;
  total_pages = e i;
  used_pages = used i;
  bitmap_size = z i;
}
  where
    used : s.used_pages ≡ t.used_pages
    used =
        v.counted
        ∙ count-eq (pages s) (pages t) s.total_pages (λ j _. h j)
        ∙ ap (count (pages t)) e
        ∙ sym w.counted
