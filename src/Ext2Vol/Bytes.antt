-- ===== src/Ext2Vol/Bytes.antt =====
-- Memory as a function from byte indices, with the copies, the little-endian fields and the bitmaps
-- of kernel/fs/chaseros/chaseros_ext2_vol.c. A struct is its bytes; the offsets of its fields are
-- those of kernel/fs/lib/ext2fs/ext2_fs.h.
use cnos.Prelude.{
  ℕ, zero, suc, ◌+◌, ◌-◌, ◌*◌, ◌/◌, ◌%◌, Bool, ◌&&◌, List, [], ◌∷◌, ltb, leb, ◌==◌, if◌then◌else◌,
  get_or, set_bit, clear_bit, test_bit,
}
use cnos.Process.{update}

abbrev pub Bytes : Type 0
Bytes = ℕ → ℕ

-- `chaseros_memset(d, 0, n)` on a whole object.
abbrev pub zero_bytes : Bytes
zero_bytes i = 0

-- `chaseros_memcpy(d + off, s, n)`.
unfoldable pub memcpy : Bytes → ℕ → Bytes → ℕ → Bytes
memcpy d off s n i = if leb off i && ltb i (off + n) then s (i - off) else d i

-- The object at `b + off`.
abbrev pub at : Bytes → ℕ → Bytes
at b off i = b (off + i)

-- The bytes of a buffer that a list gives.
abbrev pub bytes_of : List ℕ → Bytes
bytes_of l i = get_or l i 0

unfoldable pub le16 : Bytes → ℕ → ℕ
le16 b p = b p + 256 * b (p + 1)

unfoldable pub le32 : Bytes → ℕ → ℕ
le32 b p = b p + 256 * b (p + 1) + 65536 * b (p + 2) + 16777216 * b (p + 3)

unfoldable pub put_le16 : Bytes → ℕ → ℕ → Bytes
put_le16 b p v = update (update b p (v % 256)) (p + 1) (v / 256 % 256)

unfoldable pub put_le32 : Bytes → ℕ → ℕ → Bytes
put_le32 b p v =
    let b1 = update (update b p (v % 256)) (p + 1) (v / 256 % 256) in
    update (update b1 (p + 2) (v / 65536 % 256)) (p + 3) (v / 16777216 % 256)

-- The string of at most `n` characters at `p`, which a NUL ends earlier.
unfoldable pub c_string : ℕ → Bytes → ℕ → List ℕ
c_string zero b p = []
c_string (suc n) b p = let rest = c_string n b (p + 1) in if b p == 0 then [] else b p ∷ rest

unfoldable pub bm_set : Bytes → ℕ → Bytes
bm_set bm bit = update bm (bit / 8) (set_bit (bm (bit / 8)) (bit % 8))

unfoldable pub bm_clr : Bytes → ℕ → Bytes
bm_clr bm bit = update bm (bit / 8) (clear_bit (bm (bit / 8)) (bit % 8))

unfoldable pub bm_get : Bytes → ℕ → Bool
bm_get bm bit = test_bit (bm (bit / 8)) (bit % 8)

abbrev pub block_size : ℕ
block_size = 1024

abbrev pub s_free_blocks_count : ℕ
s_free_blocks_count = 12

abbrev pub s_free_inodes_count : ℕ
s_free_inodes_count = 16

abbrev pub s_magic : ℕ
s_magic = 56

abbrev pub ext2_super_magic : ℕ
ext2_super_magic = 0xEF53

abbrev pub bg_free_blocks_count : ℕ
bg_free_blocks_count = 12

abbrev pub bg_free_inodes_count : ℕ
bg_free_inodes_count = 14

abbrev pub bg_used_dirs_count : ℕ
bg_used_dirs_count = 16

abbrev pub i_mode : ℕ
i_mode = 0

abbrev pub i_size : ℕ
i_size = 4

abbrev pub i_links_count : ℕ
i_links_count = 26

abbrev pub i_blocks : ℕ
i_blocks = 28

-- The offset of `i_block[i]`.
abbrev pub i_block : ℕ → ℕ
i_block i = 40 + 4 * i
