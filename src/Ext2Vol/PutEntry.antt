-- ===== src/Ext2Vol/PutEntry.antt =====
-- What `dirent_put` of kernel/fs/chaseros/chaseros_ext2_vol.c writes.
use cnos.Prelude.{
  ℕ, suc, ◌+◌, ◌%◌, ◌^◌, ◌≤◌, ◌<◌, ◌≡◌, refl, sym, ap, ◌∙◌, inl, inr, false, List, [], ◌∷◌, arith,
  ◌==◌, length, get_or,
}
use cnos.Ext2Vol.Fields.{
  memcpy-inside, Agree, memcpy-outside, le16-Agree, put_le16-outside, le32-Agree, le32-put_le32,
  put_le32-outside, le16-put_le16,
}
use cnos.Ext2Vol.Dirent.{entry_size, rec_len, name_len}
use cnos.Ext2Vol.Entries.{NoNul, entry_size_bounds, EntryAt}
use cnos.Ext2Vol.Bytes.{Bytes, c_string, block_size, memcpy, put_le16, put_le32, le32, bytes_of}

-- A memory that a string of characters was copied to holds the string.
c_string_copied :
    (name : List ℕ)
    → NoNul name
    → (b : Bytes) (p : ℕ) → ((k : ℕ) → k < length name → b (p + k) ≡ get_or name k 0)
    → c_string (length name) b p ≡ name
unfolding c_string NoNul
c_string_copied [] chars b p h = refl
c_string_copied (c ∷ name) (some_char, chars) b p h =
    let place : p + 0 ≡ p = omega arith in
    let here : b p ≡ c = ap b (sym place) ∙ h 0 (omega arith) in
    let rest =
      c_string_copied name chars b (p + 1) (λ k lt. ap b (omega arith) ∙ h (suc k) (omega arith)) in
    let nonzero : (c == 0) ≡ false = ground arith in rw (here, nonzero, rest) refl

-- `dirent_put` at `off` has written the three fields of the header and the name.
module _ (base : Bytes) (off ino : ℕ) (name : List ℕ) (short : length name < 128)
    (small : ino < 2 ^ 32) (chars : NoNul name)
    (inside : off + entry_size (length name) ≤ block_size) where
  abbrev size : ℕ
  size = entry_size (length name)

  abbrev with_ino : Bytes
  with_ino = put_le32 base off ino

  abbrev with_rec : Bytes
  with_rec = put_le16 with_ino (off + 4) (entry_size (length name % 2 ^ 16) % 2 ^ 16)

  abbrev with_len : Bytes
  with_len = put_le16 with_rec (off + 6) (length name % 2 ^ 16)

  abbrev with_name : Bytes
  with_name = memcpy with_len (off + 8) (bytes_of name) (length name)

  pub size_kept : entry_size (length name % 2 ^ 16) % 2 ^ 16 ≡ size
  size_kept =
      let bound = (entry_size_bounds (length name)).1 in
      let whole : length name % 2 ^ 16 ≡ length name = omega arith in rw whole (omega arith)

  pub put_entry-before : (k : ℕ) → k < off → with_name k ≡ base k
  put_entry-before k h =
      memcpy-outside with_len (bytes_of name) (off + 8) (length name) k (inl (omega arith))
      ∙ put_le16-outside with_rec (off + 6) _ k (inl (omega arith))
      ∙ put_le16-outside with_ino (off + 4) _ k (inl (omega arith))
      ∙ put_le32-outside base off ino k (inl h)

  pub put_entry-behind : (k : ℕ) → off + 8 + length name ≤ k → with_name k ≡ base k
  put_entry-behind k h =
      memcpy-outside with_len (bytes_of name) (off + 8) (length name) k (inr h)
      ∙ put_le16-outside with_rec (off + 6) _ k (inr (omega arith))
      ∙ put_le16-outside with_ino (off + 4) _ k (inr (omega arith))
      ∙ put_le32-outside base off ino k (inr (omega arith))

  named : (k : ℕ) → k < off + 8 → with_name k ≡ with_len k
  named k h = memcpy-outside with_len (bytes_of name) (off + 8) (length name) k (inl h)

  inode_field : le32 with_name off ≡ ino
  unfolding Agree
  inode_field =
      le32-Agree with_name with_ino off (λ k lo hi.
        named k (omega arith)
        ∙ put_le16-outside with_rec (off + 6) _ k (inl (omega arith))
        ∙ put_le16-outside with_ino (off + 4) _ k (inl (omega arith)))
      ∙ le32-put_le32 base off ino small

  size_field : rec_len with_name off ≡ size
  unfolding Agree
  size_field =
      le16-Agree with_name with_rec (off + 4) (λ k lo hi.
        named k (omega arith) ∙ put_le16-outside with_rec (off + 6) _ k (inl (omega arith)))
      ∙ le16-put_le16 with_ino (off + 4) _ (omega arith)
      ∙ size_kept

  chars_field : name_len with_name off ≡ length name
  unfolding Agree
  chars_field =
      let len =
        le16-Agree with_name with_len (off + 6) (λ k lo hi. named k (omega arith))
        ∙ le16-put_le16 with_rec (off + 6) _ (omega arith) in
      omega arith

  text_field : c_string (length name) with_name (off + 8) ≡ name
  text_field =
      c_string_copied name chars with_name (off + 8)
        (λ k h. memcpy-inside with_len (bytes_of name) (off + 8) (length name) k h)

  pub put_entry-EntryAt : EntryAt with_name off ino name
  put_entry-EntryAt = record {
    inode = inode_field;
    size = size_field;
    chars = chars_field;
    text = rw chars_field text_field;
    inside = inside;
  }
