-- ===== src/Ext2Vol/Rounds.antt =====
-- The loops of kernel/fs/chaseros/chaseros_ext2_vol.c over a directory's block and over a path end.
use cnos.Prelude.{
  ℕ, zero, suc, ◌+◌, ◌*◌, ◌≤◌, ◌≡◌, refl, inl, inr, false, ◌&&◌, Option, none, some, List, [], ◌∷◌,
  arith, leb, Bool-cases, length,
}
use cnos.Ext2Vol.Bytes.{Bytes, block_size}
use cnos.Ext2Vol.Inode.{skip_slashes, walk, step_into}
use cnos.Ext2Vol.Volume.{Driver, Vol}
use cnos.Path.{take_seg}
use cnos.Ext2Vol.Dirent.{
  list_from, find_in_root, end_from, find_from, entry_at, max_entries, rec_len,
}

find_from_more :
    (fuel more : ℕ) (b : Bytes) (name : List ℕ) (pos : ℕ)
    → fuel ≤ more
    → block_size ≤ pos + 8 * fuel
    → find_from more b name pos ≡ find_from fuel b name pos
unfolding find_from entry_at
find_from_more zero zero b name pos le enough = refl
find_from_more zero (suc more) b name pos le enough =
    let out : leb (pos + 8) block_size ≡ false = ground arith in rw out refl
find_from_more (suc fuel) zero b name pos le enough = absurd (omega arith)
find_from_more (suc fuel) (suc more) b name pos le enough =
    elim (Bool-cases (leb (pos + 8) block_size && leb 8 (rec_len b pos))) [
      | inr last ↦ rw last refl
      | inl long ↦
          let next = pos + rec_len b pos in
          let ih = find_from_more fuel more b name next (omega arith) (ground arith) in rw ih refl
    ]

list_from_more :
    (fuel more : ℕ) (b : Bytes) (pos : ℕ)
    → fuel ≤ more
    → block_size ≤ pos + 8 * fuel
    → list_from more b pos ≡ list_from fuel b pos
unfolding list_from entry_at
list_from_more zero zero b pos le enough = refl
list_from_more zero (suc more) b pos le enough =
    let out : leb (pos + 8) block_size ≡ false = ground arith in rw out refl
list_from_more (suc fuel) zero b pos le enough = absurd (omega arith)
list_from_more (suc fuel) (suc more) b pos le enough =
    elim (Bool-cases (leb (pos + 8) block_size && leb 8 (rec_len b pos))) [
      | inr last ↦ rw last refl
      | inl long ↦
          let next = pos + rec_len b pos in
          let ih = list_from_more fuel more b next (omega arith) (ground arith) in rw ih refl
    ]

end_from_more :
    (fuel more : ℕ) (b : Bytes) (pos : ℕ)
    → fuel ≤ more
    → block_size ≤ pos + 8 * fuel
    → end_from more b pos ≡ end_from fuel b pos
unfolding end_from entry_at
end_from_more zero zero b pos le enough = refl
end_from_more zero (suc more) b pos le enough =
    let out : leb (pos + 8) block_size ≡ false = ground arith in rw out refl
end_from_more (suc fuel) zero b pos le enough = absurd (omega arith)
end_from_more (suc fuel) (suc more) b pos le enough =
    elim (Bool-cases (leb (pos + 8) block_size && leb 8 (rec_len b pos))) [
      | inr last ↦ rw last refl
      | inl long ↦
          let next = pos + rec_len b pos in
          let ih = end_from_more fuel more b next (omega arith) (ground arith) in rw ih refl
    ]

-- On a block of any bytes the three loops over a directory's entries end within 128 rounds: more
-- fuel does not change what they return.
pub loops_end :
    (more : ℕ) (b : Bytes) (name : List ℕ)
    → max_entries ≤ more
    → (find_from more b name 0 ≡ find_in_root b name)
      × ((list_from more b 0 ≡ list_from max_entries b 0)
          × (end_from more b 0 ≡ end_from max_entries b 0))
unfolding find_in_root
loops_end more b name le = (
  find_from_more max_entries more b name 0 le (omega arith),
  (
    list_from_more max_entries more b 0 le (omega arith),
    end_from_more max_entries more b 0 le (omega arith),
  ),
)

skip_slashes-short : (p : List ℕ) → length (skip_slashes p) ≤ length p
unfolding skip_slashes
skip_slashes-short [] = omega arith
skip_slashes-short (c ∷ p) = ground (arith, skip_slashes-short p)

rest-short : (n : ℕ) (p : List ℕ) → length (take_seg n p).1 ≤ length p
unfolding take_seg
rest-short zero p = omega arith
rest-short (suc n) [] = omega arith
rest-short (suc n) (c ∷ p) = ground (arith, rest-short n p)

-- A round takes a character at least.
round-short : (n c : ℕ) (p : List ℕ) → length (skip_slashes (take_seg (suc n) (c ∷ p)).1) ≤ length p
unfolding take_seg skip_slashes
round-short n c p =
    let inner = rest-short n p in
    let outer = skip_slashes-short (take_seg n p).1 in
    let same = skip_slashes-short p in ground arith

module _ {ℓ} {D : Type ℓ} (hw : Driver D) (v : Vol D) where
  step_on :
      (o : Option ℕ) (f g : ℕ → Option ℕ)
      → ((cur : ℕ) → f cur ≡ g cur)
      → cnos.Ext2Vol.Inode.◌>>=◌ o f ≡ cnos.Ext2Vol.Inode.◌>>=◌ o g
  unfolding cnos.Ext2Vol.Inode.◌>>=◌
  step_on none f g h = refl
  step_on (some cur) f g h = h cur

  -- The lookup's loop over the path has fuel enough: with more it returns the same.
  walk_ends :
      (fuel more : ℕ) (p : List ℕ) (cur : ℕ)
      → length p ≤ fuel
      → length p ≤ more
      → walk hw v fuel cur p ≡ walk hw v more cur p
  unfolding walk
  walk_ends zero zero p cur a b = refl
  walk_ends zero (suc more) [] cur a b = refl
  walk_ends zero (suc more) (c ∷ p) cur a b = absurd (omega arith)
  walk_ends (suc fuel) zero [] cur a b = refl
  walk_ends (suc fuel) zero (c ∷ p) cur a b = absurd (omega arith)
  walk_ends (suc fuel) (suc more) [] cur a b = refl
  walk_ends (suc fuel) (suc more) (c ∷ p) cur a b =
      let short = round-short 126 c p in
      step_on (step_into hw v cur (take_seg 127 (c ∷ p)).0) _ _ (λ next.
        walk_ends fuel more (skip_slashes (take_seg 127 (c ∷ p)).1) next (omega arith)
          (omega arith))
