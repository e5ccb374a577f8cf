-- ===== src/Ext2Vol/Store.antt =====
-- When the loop that writes a file's blocks succeeds, and what a read of the file returns then; in
-- kernel/fs/chaseros/chaseros_ext2_vol.c.
use cnos.Prelude.{
  ℕ, zero, suc, ◌+◌, ◌≤◌, ◌<◌, ◌≡◌, refl, inl, inr, true, Option, none, some, List, arith, ltb,
  ◌==◌, if◌then◌else◌, ltb→lt, Bool-cases,
}
use cnos.Ext2Vol.Fields.{Agree, le16-Agree, put_le32-outside}
use cnos.Ext2Vol.Ram.{IsRam, put_block, put_block-IsRam, write_ram}
use cnos.Ext2Vol.Allocs.{Allocates, IsBitmap, alloc_block-Allocates, none_free, lowest_free}
use cnos.Ext2Vol.Counts.{take_block-Counted}
use cnos.Ext2Vol.Stored.{Written, nothing-Written, one_more}
use cnos.Pmm.Count.{count, count_all, count_add, count-le}
use cnos.Ext2Vol.Write.{
  first_free_block, write_blocks, count_blocks, run_then, minus32, minus16, alloc_block, chunk,
}
use cnos.Ext2Vol.Inode.{Meta}
use cnos.Ext2Vol.Bytes.{Bytes, bm_get, put_le32, i_block, le16, s_magic, s_free_blocks_count}
use cnos.Ext2Vol.Volume.{Driver, Vol}

-- The blocks of the metadata are marked as in use.
unfoldable pub LowUsed : Bytes → Type 0
LowUsed bm = (j : ℕ) → j < first_free_block → bm_get bm j ≡ true

all_used :
    (bm : Bytes) (tb : ℕ)
    → LowUsed bm
    → ((j : ℕ) → first_free_block ≤ j → j < tb → bm_get bm j ≡ true)
    → count (bm_get bm) tb ≡ tb
unfolding LowUsed
all_used bm tb low high = count_all (bm_get bm) tb (λ j h.
    elim (Bool-cases (ltb j first_free_block)) [
      | inl below ↦ low j (ltb→lt _ _ below)
      | inr above ↦ high j (ground arith) h
    ])

LowUsed-set :
    (bm after : Bytes) (k : ℕ)
    → LowUsed bm
    → ((j : ℕ) → bm_get after j ≡ (if k == j then true else bm_get bm j))
    → LowUsed after
unfolding LowUsed
LowUsed-set bm after k low h j lt = ground (arith, low j lt, h j)

module _ {ℓ} {D : Type ℓ} (hw : Driver D) (tb : ℕ) (f : List ℕ) where
  abbrev Succeeds : ℕ → ℕ → Bytes → Meta → Vol D → Option (Bytes × Meta) × Vol D → Type ℓ
  Succeeds n i fi m v r =
      (fi2 : Bytes) × (m2 : Meta) × (w : Vol D) × (r ≡ (some (fi2, m2), w))
      × Written tb f n i fi m v fi2 m2 w

  -- What a round leaves for the rounds after it.
  abbrev after_round : Meta → Bytes → Meta
  after_round m bb = count_blocks minus32 minus16 (record m { bb = bb })

  magic_kept : (m : Meta) (bb : Bytes) → le16 (after_round m bb).sb s_magic ≡ le16 m.sb s_magic
  unfolding count_blocks Agree
  magic_kept m bb =
      le16-Agree _ m.sb s_magic
        (λ k a b. put_le32-outside m.sb s_free_blocks_count _ k (inr (omega arith)))

  module _ (small : tb ≤ 8192) where
    round_taken :
        (n i : ℕ) (fi : Bytes) (m : Meta) (v : Vol D) (o : Option (ℕ × Bytes))
        → alloc_block m.bb tb ≡ o
        → Allocates m.bb first_free_block tb 0 o
        → IsRam v tb
        → LowUsed m.bb
        → count (bm_get m.bb) tb + suc n ≤ tb
        → ((k : ℕ) (bb : Bytes)
            → IsRam (put_block v k (chunk f i)) tb
            → LowUsed bb
            → count (bm_get bb) tb + n ≤ tb
            → IsBitmap bb
            → Succeeds n
                (i + 1)
                (put_le32 fi (i_block i) k)
                (after_round m bb)
                (put_block v k (chunk f i))
                (write_blocks hw n f tb
                  (i + 1)
                  (put_le32 fi (i_block i) k)
                  (after_round m bb)
                  (put_block v k (chunk f i))))
        → Succeeds (suc n) i fi m v (write_blocks hw (suc n) f tb i fi m v)
    unfolding write_blocks count_blocks run_then
    round_taken n i fi m v none e (none_free all) ram low room ih =
        let whole = all_used m.bb tb low all in absurd (omega arith)
    round_taken n i fi m v (some (got, after)) e (lowest_free k bb lo hi free used set_only bitmap)
          ram low room ih =
        let plain : k + 0 ≡ k = omega arith in
        let more = count_add (bm_get m.bb) (bm_get bb) k tb free set_only hi in
        let next = put_block-IsRam hw v tb ram k (chunk f i) in
        let got_k : alloc_block m.bb tb ≡ some (k, bb) = rw e (rw plain refl) in
        let (fi2, m2, w, r, written) =
          ih k bb next (LowUsed-set m.bb bb k low set_only) (omega arith) bitmap in
        (
          fi2,
          m2,
          w,
          rw (got_k, write_ram hw v tb ram k (chunk f i) hi) r,
          one_more tb f n i fi m v k bb lo hi free set_only small fi2 (after_round m bb) m2 w refl
              (λ c. take_block-Counted tb m small c k bb hi free set_only) refl (magic_kept m bb)
              written,
        )

    pub write_blocks-Written :
        (n i : ℕ) (fi : Bytes) (m : Meta) (v : Vol D)
        → IsRam v tb
        → IsBitmap m.bb
        → LowUsed m.bb
        → count (bm_get m.bb) tb + n ≤ tb
        → Succeeds n i fi m v (write_blocks hw n f tb i fi m v)
    unfolding write_blocks count_blocks alloc_block
    write_blocks-Written zero i fi m v ram bitmap low room =
        (fi, m, v, refl, nothing-Written tb f 0 i fi m v refl ram bitmap)
    write_blocks-Written (suc n) i fi m v ram bitmap low room =
        let bound = count-le (bm_get m.bb) tb in
        let lowest = ram.least in
        round_taken n i fi m v (alloc_block m.bb tb) refl
          (alloc_block-Allocates m.bb tb bitmap (omega arith) small).0 ram low room
          (λ k bb next l c e.
            write_blocks-Written n (i + 1) (put_le32 fi (i_block i) k) (after_round m bb)
              (put_block v k (chunk f i)) next e l c)
