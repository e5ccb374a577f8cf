-- ===== src/Ext2Vol/Entries.antt =====
-- A directory's block as a list of entries, and the loops of
-- kernel/fs/chaseros/chaseros_ext2_vol.c over it.
use cnos.Prelude.{
  ℕ, zero, suc, ◌+◌, ◌*◌, ◌≤◌, ◌<◌, ◌≡◌, refl, inl, inr, true, false, Option, none, some, List, [],
  ◌∷◌, arith, leb, if◌then◌else◌, Bool-cases, length,
}
use cnos.Path.{eq_string}
use cnos.Ext2Vol.Dirent.{
  entry_size, entry_at, end_from, find_from, list_from, rec_len, name_len, entry_name, find_in_root,
  max_entries,
}
use cnos.Ext2Vol.Bytes.{Bytes, le16, block_size, le32}

-- The characters of a C string.
unfoldable pub NoNul : List ℕ → Type 0
NoNul [] = Unit
NoNul (c ∷ name) = (0 < c) × NoNul name

pub record EntryAt (b : Bytes) (pos ino : ℕ) (name : List ℕ) : Type 0 where
  pub inode : le32 b pos ≡ ino
  pub size : rec_len b pos ≡ entry_size (length name)
  pub chars : name_len b pos ≡ length name
  pub text : entry_name b pos ≡ name
  pub inside : pos + entry_size (length name) ≤ block_size

-- The block holds the entries from `pos` on, one behind the other, and zeros after them.
unfoldable pub Holds : Bytes → ℕ → List (ℕ × List ℕ) → Type 0
Holds b pos [] = (k : ℕ) → pos ≤ k → k < block_size → b k ≡ 0
Holds b pos ((ino, name) ∷ es) =
    EntryAt b pos ino name × Holds b (pos + entry_size (length name)) es

unfoldable pub end_of : ℕ → List (ℕ × List ℕ) → ℕ
end_of pos [] = pos
end_of pos ((ino, name) ∷ es) = end_of (pos + entry_size (length name)) es

-- The first entry of the name.
unfoldable pub lookup : List ℕ → List (ℕ × List ℕ) → Option ℕ
lookup name [] = none
lookup name ((ino, n) ∷ es) = if eq_string n name then some ino else lookup name es

pub entry_size_bounds : (n : ℕ) → (8 + n ≤ entry_size n) × (entry_size n ≤ n + 11)
unfolding entry_size
entry_size_bounds n = (omega arith, omega arith)

entry_at-zeros :
    (b : Bytes) (pos : ℕ) → ((k : ℕ) → pos ≤ k → k < block_size → b k ≡ 0) → entry_at b pos ≡ false
unfolding entry_at le16
entry_at-zeros b pos h = elim (Bool-cases (leb (pos + 8) block_size)) [
  | inr out ↦ rw out refl
  | inl room ↦
      let low : b (pos + 4) ≡ 0 = h (pos + 4) (omega arith) (ground arith) in
      let high : b (pos + 4 + 1) ≡ 0 = h (pos + 4 + 1) (omega arith) (ground arith) in
      rw (room, low, high) refl
]

entry_at-EntryAt :
    (b : Bytes) (pos ino : ℕ) (name : List ℕ) → EntryAt b pos ino name → entry_at b pos ≡ true
unfolding entry_at
entry_at-EntryAt b pos ino name e =
    let wide = (entry_size_bounds (length name)).0 in
    let inside = e.inside in
    let room : leb (pos + 8) block_size ≡ true = ground arith in
    let long : leb 8 (entry_size (length name)) ≡ true = ground arith in
    rw (room, e.size, long) refl

module _ (b : Bytes) where
  header_fits : (pos ino : ℕ) (name : List ℕ) → EntryAt b pos ino name → pos + 8 ≤ block_size
  header_fits pos ino name e =
      let wide = (entry_size_bounds (length name)).0 in let inside = e.inside in omega arith

  pub find_from-lookup :
      (es : List (ℕ × List ℕ)) (name : List ℕ) (pos fuel : ℕ)
      → Holds b pos es
      → block_size ≤ pos + 8 * fuel
      → find_from fuel b name pos ≡ lookup name es
  unfolding find_from Holds lookup
  find_from-lookup [] name pos zero h enough = refl
  find_from-lookup [] name pos (suc fuel) h enough = rw (entry_at-zeros b pos h) refl
  find_from-lookup ((ino, n) ∷ es) name pos zero (e, h) enough =
      absurd (omega (arith, header_fits pos ino n e))
  find_from-lookup ((ino, n) ∷ es) name pos (suc fuel) (e, h) enough =
      let wide = (entry_size_bounds (length n)).0 in
      let ih = find_from-lookup es name (pos + entry_size (length n)) fuel h (omega arith) in
      let here = entry_at-EntryAt b pos ino n e in
      let fits : leb 256 (name_len b pos) ≡ false = ground arith in
      rw (here, fits, e.text, e.size, e.inode, ih) refl

  list_from_lem :
      (es : List (ℕ × List ℕ)) (pos fuel : ℕ)
      → Holds b pos es
      → block_size ≤ pos + 8 * fuel
      → list_from fuel b pos ≡ es
  unfolding list_from Holds
  list_from_lem [] pos zero h enough = refl
  list_from_lem [] pos (suc fuel) h enough = rw (entry_at-zeros b pos h) refl
  list_from_lem ((ino, n) ∷ es) pos zero (e, h) enough =
      absurd (omega (arith, header_fits pos ino n e))
  list_from_lem ((ino, n) ∷ es) pos (suc fuel) (e, h) enough =
      let wide = (entry_size_bounds (length n)).0 in
      let ih = list_from_lem es (pos + entry_size (length n)) fuel h (omega arith) in
      rw (entry_at-EntryAt b pos ino n e, e.text, e.size, e.inode, ih) refl

  pub end_from-end_of :
      (es : List (ℕ × List ℕ)) (pos fuel : ℕ)
      → Holds b pos es
      → block_size ≤ pos + 8 * fuel
      → end_from fuel b pos ≡ end_of pos es
  unfolding end_from Holds end_of
  end_from-end_of [] pos zero h enough = refl
  end_from-end_of [] pos (suc fuel) h enough = rw (entry_at-zeros b pos h) refl
  end_from-end_of ((ino, n) ∷ es) pos zero (e, h) enough =
      absurd (omega (arith, header_fits pos ino n e))
  end_from-end_of ((ino, n) ∷ es) pos (suc fuel) (e, h) enough =
      let wide = (entry_size_bounds (length n)).0 in
      let ih = end_from-end_of es (pos + entry_size (length n)) fuel h (omega arith) in
      rw (entry_at-EntryAt b pos ino n e, e.size, ih) refl

  -- On a directory's block that holds `es`, the lookup of a name finds its first entry, the listing
  -- prints `es`, and the scan for the place of a new entry stops behind the last.
  pub loops-Holds :
      (es : List (ℕ × List ℕ)) (name : List ℕ)
      → Holds b 0 es
      → (find_in_root b name ≡ lookup name es)
        × ((list_from max_entries b 0 ≡ es) × (end_from max_entries b 0 ≡ end_of 0 es))
  unfolding find_in_root
  loops-Holds es name h = (
    find_from-lookup es name 0 max_entries h (omega arith),
    (
      list_from_lem es 0 max_entries h (omega arith),
      end_from-end_of es 0 max_entries h (omega arith),
    ),
  )
