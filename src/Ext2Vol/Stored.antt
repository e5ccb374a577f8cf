-- ===== src/Ext2Vol/Stored.antt =====
-- The loop of `chaseros_ext2_write_file` in kernel/fs/chaseros/chaseros_ext2_vol.c that allocates
-- and writes a file's blocks, on a RAM volume.
use cnos.Prelude.{
  ℕ, suc, ◌+◌, ◌≤◌, ◌<◌, ◌≡◌, refl, sym, ◌∙◌, subst, ◌≢◌, ◌⊎◌, inl, inr, true, false, List, arith,
  ◌==◌, if◌then◌else◌, ==_iff, Bool-cases,
}
use cnos.Ext2Vol.Fields.{Agree, put_le32-outside, le32-Agree, le32-put_le32}
use cnos.Pmm.Count.{count, count_add}
use cnos.Ext2Vol.Allocs.{IsBitmap}
use cnos.Ext2Vol.Counts.{Counted}
use cnos.Ext2Vol.Write.{first_free_block, chunk}
use cnos.Ext2Vol.Ram.{IsRam, put_block, block_byte, put_block-here, put_block-other}
use cnos.Ext2Vol.Volume.{Vol}
use cnos.Ext2Vol.Inode.{Meta}
use cnos.Ext2Vol.Bytes.{Bytes, bm_get, put_le32, le32, i_block, block_size, le16, s_magic}

module _ {ℓ} {D : Type ℓ} where
  -- The blocks `i`, …, `i + n - 1` of the file `f` are on the volume `w`, in blocks that were free
  -- and that the inode `fi2` names; blocks that were in use are as they were.
  pub record Written (tb : ℕ) (f : List ℕ) (n i : ℕ) (fi : Bytes) (m : Meta) (v : Vol D)
      (fi2 : Bytes) (m2 : Meta) (w : Vol D) : Type ℓ where
    pub ram : IsRam w tb
    pub bitmap : IsBitmap m2.bb
    pub place :
        (j : ℕ)
        → i ≤ j
        → j < i + n
        → (first_free_block ≤ le32 fi2 (i_block j)) × (le32 fi2 (i_block j) < tb)
    pub fresh : (j : ℕ) → i ≤ j → j < i + n → bm_get m.bb (le32 fi2 (i_block j)) ≡ false
    pub stored :
        (j k : ℕ)
        → i ≤ j
        → j < i + n
        → k < block_size
        → block_byte w (le32 fi2 (i_block j)) k ≡ chunk f j k
    pub outside : (p : ℕ) → (p < i_block i) ⊎ (i_block (i + n) ≤ p) → fi2 p ≡ fi p
    pub in_use : (b : ℕ) → bm_get m.bb b ≡ true → bm_get m2.bb b ≡ true
    pub kept :
        (b k : ℕ) → bm_get m.bb b ≡ true → k < block_size → block_byte w b k ≡ block_byte v b k
    pub counted : count (bm_get m2.bb) tb ≡ count (bm_get m.bb) tb + n
    pub used : (j : ℕ) → i ≤ j → j < i + n → bm_get m2.bb (le32 fi2 (i_block j)) ≡ true
    pub counts : Counted tb m → Counted tb m2
    pub inodes : m2.ib ≡ m.ib
    pub magic : le16 m2.sb s_magic ≡ le16 m.sb s_magic

  pub nothing-Written :
      (tb : ℕ) (f : List ℕ) (n i : ℕ) (fi : Bytes) (m : Meta) (v : Vol D)
      → n ≡ 0
      → IsRam v tb
      → IsBitmap m.bb
      → Written tb f n i fi m v fi m v
  nothing-Written tb f n i fi m v none_left ram bitmap = record {
    ram = ram;
    bitmap = bitmap;
    place = λ j a b. absurd (omega arith);
    fresh = λ j a b. absurd (omega arith);
    stored = λ j k a b h. absurd (omega arith);
    outside = λ p h. refl;
    in_use = λ b h. h;
    kept = λ b k h l. refl;
    counted = omega arith;
    used = λ j a b. absurd (omega arith);
    counts = λ c. c;
    inodes = refl;
    magic = refl;
  }

  -- One block written, and the blocks after it.
  module _ (tb : ℕ) (f : List ℕ) (n i : ℕ) (fi : Bytes) (m : Meta) (v : Vol D) (k : ℕ) (bb : Bytes)
      (low : first_free_block ≤ k) (high : k < tb) (free : bm_get m.bb k ≡ false)
      (set_only : (j : ℕ) → bm_get bb j ≡ (if k == j then true else bm_get m.bb j))
      (small : tb ≤ 8192) (fi2 : Bytes) (m1 m2 : Meta) (w : Vol D) (same_bb : m1.bb ≡ bb)
      (counts : Counted tb m → Counted tb m1) (same_ib : m1.ib ≡ m.ib)
      (same_magic : le16 m1.sb s_magic ≡ le16 m.sb s_magic)
      (rest : Written tb f n
        (i + 1)
        (put_le32 fi (i_block i) k)
        m1
        (put_block v k (chunk f i))
        fi2
        m2
        w) where
    set_bits : (j : ℕ) → bm_get m1.bb j ≡ (if k == j then true else bm_get m.bb j)
    set_bits j = rw same_bb (set_only j)

    here : le32 fi2 (i_block i) ≡ k
    unfolding Agree
    here =
        le32-Agree fi2 (put_le32 fi (i_block i) k) (i_block i)
          (λ p a b. rest.outside p (inl (omega arith)))
        ∙ le32-put_le32 fi (i_block i) k (omega arith)

    stays_used : (b : ℕ) → bm_get m.bb b ≡ true → bm_get m1.bb b ≡ true
    stays_used b used = ground (arith, set_bits b)

    other_block : (b : ℕ) → bm_get m.bb b ≡ true → k ≢ b
    other_block b used same =
        let taken : bm_get m.bb k ≡ true = subst (λ x. bm_get m.bb x ≡ true) (sym same) used in
        ground arith

    first_or_later :
        (P : ℕ → Type 0)
        → P i
        → ((j : ℕ) → i + 1 ≤ j → j < i + 1 + n → P j)
        → (j : ℕ) → i ≤ j
        → j < i + suc n
        → P j
    first_or_later P first later j a b = elim (Bool-cases (i == j)) [
      | inl same ↦ subst P ((==_iff i j).0 same) first
      | inr ne ↦ later j (ground arith) (ground arith)
    ]

    pub one_more : Written tb f (suc n) i fi m v fi2 m2 w
    one_more = record {
      ram = rest.ram;
      bitmap = rest.bitmap;
      place =
          first_or_later
            (λ j. (first_free_block ≤ le32 fi2 (i_block j)) × (le32 fi2 (i_block j) < tb))
            (rw here (low, high)) rest.place;
      fresh =
          first_or_later (λ j. bm_get m.bb (le32 fi2 (i_block j)) ≡ false) (rw here free)
            (λ j a b. ground (arith, rest.fresh j a b, set_bits (le32 fi2 (i_block j))));
      stored = λ j x a b h.
          first_or_later (λ j. block_byte w (le32 fi2 (i_block j)) x ≡ chunk f j x)
            (rw here
              (rest.kept k x (ground (arith, set_bits k)) h ∙ put_block-here v k x (chunk f i) h))
            (λ j c d. rest.stored j x c d h) j a b;
      outside =
          λ p h. rest.outside p (ground arith) ∙ put_le32-outside fi (i_block i) k p (ground arith);
      in_use = λ b used. rest.in_use b (stays_used b used);
      kept = λ b x used h.
          rest.kept b x (stays_used b used) h
          ∙ put_block-other v k b x (chunk f i) h (other_block b used);
      counted =
          let more = count_add (bm_get m.bb) (bm_get m1.bb) k tb free set_bits high in
          omega (arith, rest.counted, more);
      used =
          first_or_later (λ j. bm_get m2.bb (le32 fi2 (i_block j)) ≡ true)
            (rw here (rest.in_use k (ground (arith, set_bits k)))) rest.used;
      counts = λ c. rest.counts (counts c);
      inodes = rest.inodes ∙ same_ib;
      magic = rest.magic ∙ same_magic;
    }
