-- ===== src/Ext2Vol/Dirent.antt =====
-- A directory's block: `dirent_put` and the loops over its entries in
-- kernel/fs/chaseros/chaseros_ext2_vol.c. The four loops read an entry's header alike.
use cnos.Prelude.{
  ℕ, zero, suc, ◌+◌, ◌*◌, ◌/◌, ◌%◌, ◌^◌, Bool, not, ◌&&◌, Option, none, some, List, [], ◌∷◌, ltb,
  leb, if◌then◌else◌, length,
}
use cnos.Path.{eq_string}
use cnos.Ext2Vol.Bytes.{
  Bytes, le16, c_string, block_size, put_le16, le32, put_le32, memcpy, bytes_of,
}

abbrev pub rec_len : Bytes → ℕ → ℕ
rec_len b pos = le16 b (pos + 4)

-- The low byte only.
abbrev pub name_len : Bytes → ℕ → ℕ
name_len b pos = le16 b (pos + 6) % 256

-- The bytes that an entry with a name of `nl` characters takes.
unfoldable pub entry_size : ℕ → ℕ
entry_size nl = (8 + nl + 3) / 4 * 4

-- The buffer and the offset afterwards. A name has fewer than 128 characters.
unfoldable pub dirent_put : Bytes → ℕ → ℕ → List ℕ → Bytes × ℕ
dirent_put base off ino name =
    let rec = entry_size (length name % 2 ^ 16) % 2 ^ 16 in
    let b1 = put_le16 (put_le32 base off ino) (off + 4) rec in
    let b2 = put_le16 b1 (off + 6) (length name % 2 ^ 16) in
    (memcpy b2 (off + 8) (bytes_of name) (length name), (off + rec) % 2 ^ 32)

-- Does the loop make a round at `pos`?
unfoldable pub entry_at : Bytes → ℕ → Bool
entry_at b pos = leb (pos + 8) block_size && leb 8 (rec_len b pos)

-- The name that an entry's `nm` holds.
abbrev pub entry_name : Bytes → ℕ → List ℕ
entry_name b pos = c_string (name_len b pos) b (pos + 8)

-- An entry takes eight bytes at least.
abbrev pub max_entries : ℕ
max_entries = 128

-- `nm` has 256 characters.
unfoldable pub find_from : ℕ → Bytes → List ℕ → ℕ → Option ℕ
find_from zero b name pos = none
find_from (suc fuel) b name pos =
    let rest = find_from fuel b name (pos + rec_len b pos) in
    if not (entry_at b pos)
    then none
    else (if leb 256 (name_len b pos)
        then none
        else (if eq_string (entry_name b pos) name then some (le32 b pos) else rest))

unfoldable pub find_in_root : Bytes → List ℕ → Option ℕ
find_in_root b name = find_from max_entries b name 0

-- The loop of `chaseros_ext2_ls_at`: the lines it prints, a name and an inode number each.
unfoldable pub list_from : ℕ → Bytes → ℕ → List (ℕ × List ℕ)
list_from zero b pos = []
list_from (suc fuel) b pos =
    let rest = list_from fuel b (pos + rec_len b pos) in
    if not (entry_at b pos) then [] else (le32 b pos, entry_name b pos) ∷ rest

-- The loop of `chaseros_ext2_write_file` and `chaseros_ext2_mkdir` that steps over the entries.
unfoldable pub end_from : ℕ → Bytes → ℕ → ℕ
end_from zero b pos = pos
end_from (suc fuel) b pos =
    let rest = end_from fuel b (pos + rec_len b pos) in if entry_at b pos then rest else pos

-- The block with one entry more, or `none` where it is full.
unfoldable pub add_entry : Bytes → ℕ → List ℕ → Option Bytes
add_entry b ino base =
    let pos = end_from max_entries b 0 in
    let need = entry_size (length base % 2 ^ 16) % 2 ^ 16 in
    if ltb block_size (pos + need) then none else some (dirent_put b pos ino base).0
