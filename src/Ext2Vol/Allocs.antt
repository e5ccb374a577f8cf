-- ===== src/Ext2Vol/Allocs.antt =====
-- `alloc_block` and `alloc_inode` of kernel/fs/chaseros/chaseros_ext2_vol.c, and the bitmaps.
use cnos.Prelude.{
  ℕ, zero, suc, ◌+◌, ◌-◌, ◌/◌, ◌%◌, ◌≤◌, ◌<◌, ◌≡◌, refl, sym, ◌∙◌, subst, ◌≢◌, inl, inr, true,
  false, not, Option, none, some, arith, ◌==◌, if◌then◌else◌, ==_iff, Bool-cases, set_bit, test_bit,
  test_bit-set_bit, set_bit-lt,
}
use cnos.Process.{first_from}
use cnos.Process.Find.{First, first_from-First}
use cnos.Ext2Vol.Write.{free_bit, alloc_block, alloc_inode, first_free_block, marked}
use cnos.Ext2Vol.Bytes.{bm_set, Bytes, bm_get, block_size}

-- Every byte of the block is one.
pub record IsBitmap (bm : Bytes) : Type 0 where
  pub byte : (k : ℕ) → k < block_size → bm k < 256

bit_split : (i j : ℕ) → i ≢ j → i / 8 ≡ j / 8 → i % 8 ≢ j % 8
bit_split i j ne same q = ne (omega arith)

pub bm_set-IsBitmap : (bm : Bytes) (i : ℕ) → IsBitmap bm → i < 8192 → IsBitmap (bm_set bm i)
unfolding bm_set
bm_set-IsBitmap bm i h lt = record {
  byte = λ k inside. elim (Bool-cases (i / 8 == k)) [
    | inr other ↦ rw other (h.byte k inside)
    | inl here ↦ rw here (set_bit-lt (bm (i / 8)) (i % 8) (h.byte _ (omega arith)) (omega arith))
  ];
}

pub bm_get_agree :
    (bm bn : Bytes) (i : ℕ)
    → ((k : ℕ) → k < block_size → bm k ≡ bn k)
    → i < 8192
    → bm_get bm i ≡ bm_get bn i
unfolding bm_get
bm_get_agree bm bn i same lt = rw (same (i / 8) (omega arith)) refl

pub bm_get-bm_set :
    (bm : Bytes) (i j : ℕ)
    → IsBitmap bm
    → i < 8192
    → bm_get (bm_set bm i) j ≡ (if i == j then true else bm_get bm j)
unfolding bm_set bm_get
bm_get-bm_set bm i j h lt =
    let law =
      test_bit-set_bit (bm (i / 8)) (i % 8) (h.byte _ (omega arith)) (omega arith) (j % 8)
        (omega arith) in
    elim (Bool-cases (i / 8 == j / 8)) [
      | inr other ↦ let apart : (i == j) ≡ false = ground arith in rw (other, apart) refl
      | inl here ↦
          let q : i / 8 ≡ j / 8 = (==_iff (i / 8) (j / 8)).0 here in
          elim (Bool-cases (i == j)) [
            | inl same ↦
                let low : (i % 8 == j % 8) ≡ true = ground arith in
                rw (here, same) (law ∙ rw low refl)
            | inr ne ↦
                let low : (i % 8 == j % 8) ≡ false = ground (arith, bit_split i j) in
                rw (here, ne)
                  (subst
                    (λ t. test_bit (set_bit (bm (i / 8)) (i % 8)) (j % 8) ≡ test_bit (bm t) (j % 8))
                    q (law ∙ rw low refl))
          ]
    ]

free_bit-first_from :
    (n : ℕ) (bm : Bytes) (bit : ℕ) → free_bit n bm bit ≡ first_from n bit (λ k. not (bm_get bm k))
unfolding free_bit first_from
free_bit-first_from zero bm bit = refl
free_bit-first_from (suc n) bm bit = elim (Bool-cases (bm_get bm bit)) [
  | inl used ↦ rw (used, free_bit-first_from n bm (bit + 1)) refl
  | inr free ↦ rw free refl
]

-- The number `base + k` for the least clear bit `k` of `lo`, …, `hi - 1` is allocated and only its
-- bit is set, or there is no clear bit and nothing is allocated.
pub data Allocates (bm : Bytes) (lo hi base : ℕ) : Option (ℕ × Bytes) → Type 0 where
  none_free : ((j : ℕ) → lo ≤ j → j < hi → bm_get bm j ≡ true) → Allocates bm lo hi base none
  lowest_free :
      (k : ℕ) (after : Bytes)
      → lo ≤ k
      → k < hi
      → bm_get bm k ≡ false
      → ((j : ℕ) → lo ≤ j → j < k → bm_get bm j ≡ true)
      → ((j : ℕ) → bm_get after j ≡ (if k == j then true else bm_get bm j))
      → IsBitmap after
      → Allocates bm lo hi base (some (k + base, after))

marked-Allocates :
    (bm : Bytes) (lo n base : ℕ) (o : Option ℕ)
    → IsBitmap bm
    → lo + n ≤ 8192
    → First lo n (λ k. not (bm_get bm k)) o
    → Allocates bm lo (lo + n) base (marked bm base o)
marked-Allocates bm lo n base o h fits (inl (e, all)) =
    rw e (none_free (λ j a b. ground (arith, all j a b)))
marked-Allocates bm lo n base o h fits (inr (k, e, a, b, free, used)) = rw e (
    lowest_free k (bm_set bm k) a b (ground arith) (λ j x y. ground (arith, used j x y))
      (λ j. bm_get-bm_set bm k j h (omega arith)) (bm_set-IsBitmap bm k h (omega arith)))

-- `alloc_block` gives the least free block of 23, …, `tb - 1` and `alloc_inode` the least free
-- inode of 12, …, 128; each sets the bit of what it gives and no other, and fails only where all
-- are taken.
pub alloc_block-Allocates :
    (bm : Bytes) (tb : ℕ)
    → IsBitmap bm
    → first_free_block ≤ tb
    → tb ≤ 8192
    → Allocates bm first_free_block tb 0 (alloc_block bm tb)
      × Allocates bm 11 128 1 (alloc_inode bm)
unfolding alloc_block alloc_inode
alloc_block-Allocates bm tb h le most =
    let top : first_free_block + (tb - first_free_block) ≡ tb = omega arith in
    let blocks = marked-Allocates bm first_free_block (tb - first_free_block) 0 _ h (omega arith) (
      subst (First first_free_block (tb - first_free_block) (λ k. not (bm_get bm k)))
        (sym (free_bit-first_from _ bm first_free_block)) (first_from-First _ _ _)) in
    let inodes = marked-Allocates bm 11 117 1 _ h (omega arith) (
      subst (First 11 117 (λ k. not (bm_get bm k))) (sym (free_bit-first_from 117 bm 11))
        (first_from-First _ _ _)) in
    (subst (λ t. Allocates bm first_free_block t 0 (alloc_block bm tb)) top blocks, inodes)
