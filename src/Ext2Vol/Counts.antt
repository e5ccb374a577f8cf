-- ===== src/Ext2Vol/Counts.antt =====
-- The counts of free blocks and free inodes in the superblock and the group descriptor, against the
-- bitmaps; kernel/fs/chaseros/chaseros_ext2_vol.c.
use cnos.Prelude.{
  ℕ, suc, ◌+◌, ◌-◌, ◌%◌, ◌^◌, ◌≤◌, ◌<◌, ◌≡◌, inl, inr, true, false, List, [], ◌∷◌, ◌++◌, arith,
  ◌==◌, if◌then◌else◌,
}
use cnos.Pmm.Count.{count, count-eq, count_add, count-le}
use cnos.Ext2Vol.Allocs.{bm_get_agree}
use cnos.Ext2Vol.Write.{count_blocks, count_inodes, minus32, minus16}
use cnos.Ext2Vol.Inode.{Meta}
use cnos.Ext2Vol.Fields.{
  Agree, le32-Agree, le16-Agree, put_le32-outside, put_le16-outside, le32-put_le32, le16-put_le16,
}
use cnos.Ext2Vol.Bytes.{
  Bytes, bm_get, block_size, le32, le16, s_free_blocks_count, s_free_inodes_count,
  bg_free_blocks_count, bg_free_inodes_count,
}

-- With the blocks and the inodes in use, each count makes the number of all.
pub record Counted (tb : ℕ) (m : Meta) : Type 0 where
  pub blocks32 : le32 m.sb s_free_blocks_count + count (bm_get m.bb) tb ≡ tb
  pub blocks16 : le16 m.gd bg_free_blocks_count + count (bm_get m.bb) tb ≡ tb
  pub inodes32 : le32 m.sb s_free_inodes_count + count (bm_get m.ib) 128 ≡ 128
  pub inodes16 : le16 m.gd bg_free_inodes_count + count (bm_get m.ib) 128 ≡ 128

-- The same of a copy of the four blocks.
pub Counted-agree :
    (tb : ℕ) (m n : Meta)
    → tb ≤ 8192
    → ((k : ℕ) → k < block_size → n.sb k ≡ m.sb k)
    → ((k : ℕ) → k < 32 → n.gd k ≡ m.gd k)
    → ((k : ℕ) → k < block_size → n.bb k ≡ m.bb k)
    → ((k : ℕ) → k < block_size → n.ib k ≡ m.ib k)
    → Counted tb m
    → Counted tb n
unfolding Agree
Counted-agree tb m n small sb gd bb ib c =
    let blocks =
      count-eq (bm_get n.bb) (bm_get m.bb) tb (λ j lt. bm_get_agree n.bb m.bb j bb (omega arith)) in
    let inodes =
      count-eq (bm_get n.ib) (bm_get m.ib) 128
        (λ j lt. bm_get_agree n.ib m.ib j ib (omega arith)) in
    let b32 = le32-Agree n.sb m.sb s_free_blocks_count (λ k a b. sb k (omega arith)) in
    let i32 = le32-Agree n.sb m.sb s_free_inodes_count (λ k a b. sb k (omega arith)) in
    let b16 = le16-Agree n.gd m.gd bg_free_blocks_count (λ k a b. gd k (omega arith)) in
    let i16 = le16-Agree n.gd m.gd bg_free_inodes_count (λ k a b. gd k (omega arith)) in
    record {
      blocks32 = rw (b32, blocks) c.blocks32;
      blocks16 = rw (b16, blocks) c.blocks16;
      inodes32 = rw (i32, inodes) c.inodes32;
      inodes16 = rw (i16, inodes) c.inodes16;
    }

-- A count of free ones goes down by one where one more is in use.
one_less32 :
    (x c d n : ℕ) → n < 2 ^ 16 → x + c ≡ n → d ≡ c + 1 → d ≤ n → (x + minus32) % 2 ^ 32 + d ≡ n
one_less32 x c d n small e more le = omega arith

one_less16 :
    (x c d n : ℕ) → n < 2 ^ 16 → x + c ≡ n → d ≡ c + 1 → d ≤ n → (x + minus16) % 2 ^ 16 + d ≡ n
one_less16 x c d n small e more le = omega arith

module _ (tb : ℕ) (m : Meta) (small : tb ≤ 8192) (c : Counted tb m) (k : ℕ) (bits : Bytes) where
  pub take_block-Counted :
      k < tb
      → bm_get m.bb k ≡ false
      → ((j : ℕ) → bm_get bits j ≡ (if k == j then true else bm_get m.bb j))
      → Counted tb (count_blocks minus32 minus16 (record m { bb = bits }))
  unfolding count_blocks Agree
  take_block-Counted high free set_only =
      let more = count_add (bm_get m.bb) (bm_get bits) k tb free set_only high in
      let le = count-le (bm_get bits) tb in
      let e32 =
        le32-put_le32 m.sb s_free_blocks_count ((le32 m.sb s_free_blocks_count + minus32) % 2 ^ 32)
          (omega arith) in
      let e16 =
        le16-put_le16 m.gd bg_free_blocks_count
          ((le16 m.gd bg_free_blocks_count + minus16) % 2 ^ 16) (omega arith) in
      let kept32 = le32-Agree _ m.sb s_free_inodes_count (λ p a b.
        put_le32-outside m.sb s_free_blocks_count
          ((le32 m.sb s_free_blocks_count + minus32) % 2 ^ 32) p (inr (omega arith))) in
      let kept16 = le16-Agree _ m.gd bg_free_inodes_count (λ p a b.
        put_le16-outside m.gd bg_free_blocks_count
          ((le16 m.gd bg_free_blocks_count + minus16) % 2 ^ 16) p (inr (omega arith))) in
      record {
        blocks32 = rw e32 (one_less32 _ _ _ tb (omega arith) c.blocks32 more le);
        blocks16 = rw e16 (one_less16 _ _ _ tb (omega arith) c.blocks16 more le);
        inodes32 = rw kept32 c.inodes32;
        inodes16 = rw kept16 c.inodes16;
      }

  pub take_inode-Counted :
      k < 128
      → bm_get m.ib k ≡ false
      → ((j : ℕ) → bm_get bits j ≡ (if k == j then true else bm_get m.ib j))
      → Counted tb (count_inodes minus32 minus16 (record m { ib = bits }))
  unfolding count_inodes Agree
  take_inode-Counted high free set_only =
      let more = count_add (bm_get m.ib) (bm_get bits) k 128 free set_only high in
      let le = count-le (bm_get bits) 128 in
      let e32 =
        le32-put_le32 m.sb s_free_inodes_count ((le32 m.sb s_free_inodes_count + minus32) % 2 ^ 32)
          (omega arith) in
      let e16 =
        le16-put_le16 m.gd bg_free_inodes_count
          ((le16 m.gd bg_free_inodes_count + minus16) % 2 ^ 16) (omega arith) in
      let kept32 = le32-Agree _ m.sb s_free_blocks_count (λ p a b.
        put_le32-outside m.sb s_free_inodes_count
          ((le32 m.sb s_free_inodes_count + minus32) % 2 ^ 32) p (inl (omega arith))) in
      let kept16 = le16-Agree _ m.gd bg_free_blocks_count (λ p a b.
        put_le16-outside m.gd bg_free_inodes_count
          ((le16 m.gd bg_free_inodes_count + minus16) % 2 ^ 16) p (inl (omega arith))) in
      record {
        blocks32 = rw kept32 c.blocks32;
        blocks16 = rw kept16 c.blocks16;
        inodes32 = rw e32 (one_less32 _ _ _ 128 (omega arith) c.inodes32 more le);
        inodes16 = rw e16 (one_less16 _ _ _ 128 (omega arith) c.inodes16 more le);
      }

-- The inode of every entry is one of 1, …, 128 and in use.
unfoldable pub AllUsed : Bytes → List (ℕ × List ℕ) → Type 0
AllUsed ib [] = Unit {0}
AllUsed ib ((ino, name) ∷ es) =
    (0 < ino) × (ino ≤ 128) × (bm_get ib (ino - 1) ≡ true) × AllUsed ib es

pub AllUsed-kept :
    (a b : Bytes) (es : List (ℕ × List ℕ))
    → ((j : ℕ) → j < 128 → bm_get a j ≡ true → bm_get b j ≡ true)
    → AllUsed a es
    → AllUsed b es
unfolding AllUsed
AllUsed-kept a b [] keep u = tt
AllUsed-kept a b ((ino, name) ∷ es) keep (pos, last, bit, rest) =
    (pos, last, keep (ino - 1) (omega arith) bit, AllUsed-kept a b es keep rest)

pub AllUsed-append :
    (b : Bytes) (es : List (ℕ × List ℕ)) (ino : ℕ) (name : List ℕ)
    → ino < 128
    → bm_get b ino ≡ true
    → AllUsed b es
    → AllUsed b (es ++ ((suc ino, name) ∷ []))
unfolding AllUsed
AllUsed-append b [] ino name lt bit u =
    let idx : suc ino - 1 ≡ ino = omega arith in (omega arith, omega arith, rw idx bit, tt)
AllUsed-append b ((i, n) ∷ es) ino name lt bit (p, last, used, rest) =
    (p, last, used, AllUsed-append b es ino name lt bit rest)
