-- ===== src/Pmm/Valid.antt =====
-- The allocator's invariant, and the two updates that every operation of kernel/pmm.c is made of.
use cnos.Prelude.{
  ℕ, ◌+◌, ◌*◌, ◌^◌, ◌≤◌, ◌<◌, ◌≡◌, Bool, true, false, arith, ◌==◌, if◌then◌else◌, length,
}
use cnos.Pmm.{Pmm, take_page, drop_page, bitmap_test}
use cnos.Pmm.Bitmap.{
  IsBytes, bitmap_set-IsBytes, bitmap_clear-IsBytes, bitmap_test-bitmap_set,
  bitmap_test-bitmap_clear, length-bitmap_set, length-bitmap_clear,
}
use cnos.Pmm.Count.{count, count_add, count_drop, count-le}

-- `used_pages` is the number of set bits below `total_pages`, the bits lie in the memory at hand,
-- and page addresses fit 64 bits.
pub record IsValid (s : Pmm) : Type 0 where
  pub bytes : IsBytes s.bitmap
  pub covers : s.total_pages ≤ 8 * length s.bitmap
  pub counted : s.used_pages ≡ count (bitmap_test s.bitmap) s.total_pages
  pub small : s.total_pages < 2 ^ 52

-- The pages in use, as a set: what a client may know of the bitmap.
abbrev pub pages : Pmm → ℕ → Bool
pages s = bitmap_test s.bitmap

module _ (s : Pmm) (i : ℕ) (v : IsValid s) (h : i < s.total_pages) where
  pub take_page-IsValid : pages s i ≡ false → IsValid (take_page s i)
  take_page-IsValid free = record {
    bytes = bitmap_set-IsBytes s.bitmap i v.bytes (omega (arith, v.covers));
    covers = omega (arith, length-bitmap_set s.bitmap i, v.covers);
    counted = omega (arith, added, count-le (pages s) s.total_pages, v.counted, v.small);
    small = v.small;
  }
    where
      added : count (pages (take_page s i)) s.total_pages ≡ count (pages s) s.total_pages + 1
      added =
          count_add (pages s) _ i s.total_pages free
            (bitmap_test-bitmap_set s.bitmap i v.bytes (omega (arith, v.covers))) h

  pub drop_page-IsValid : pages s i ≡ true → IsValid (drop_page s i)
  drop_page-IsValid used = record {
    bytes = bitmap_clear-IsBytes s.bitmap i v.bytes (omega (arith, v.covers));
    covers = omega (arith, length-bitmap_clear s.bitmap i, v.covers);
    counted = omega (arith, removed, count-le (pages s) s.total_pages, v.counted, v.small);
    small = v.small;
  }
    where
      removed : count (pages (drop_page s i)) s.total_pages + 1 ≡ count (pages s) s.total_pages
      removed =
          count_drop (pages s) _ i s.total_pages used
            (bitmap_test-bitmap_clear s.bitmap i v.bytes (omega (arith, v.covers))) h

  pub pages-take_page : (j : ℕ) → pages (take_page s i) j ≡ (if i == j then true else pages s j)
  pages-take_page = bitmap_test-bitmap_set s.bitmap i v.bytes (omega (arith, v.covers))

  pub pages-drop_page : (j : ℕ) → pages (drop_page s i) j ≡ (if i == j then false else pages s j)
  pages-drop_page = bitmap_test-bitmap_clear s.bitmap i v.bytes (omega (arith, v.covers))

  pub used-take_page : pages s i ≡ false → (take_page s i).used_pages ≡ s.used_pages + 1
  used-take_page free = omega (arith, count-le (pages s) s.total_pages, v.counted, v.small)

pub used-le-total : (s : Pmm) → IsValid s → s.used_pages ≤ s.total_pages
used-le-total s v = omega (arith, count-le (pages s) s.total_pages, v.counted)
