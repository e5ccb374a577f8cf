-- ===== src/Ext2Vol/RootFile.antt =====
-- `chaseros_ext2_read_file_range` of kernel/fs/chaseros/chaseros_ext2_vol.c on a file in the root
-- directory of a RAM volume.
use cnos.Prelude.{
  ℕ, zero, suc, ◌-◌, ◌≤◌, ◌<◌, ◌≡◌, refl, inl, inr, true, false, some, List, [], ◌∷◌, arith, ltb,
  ◌==◌, if◌then◌else◌, Bool-cases, length,
}
use cnos.Ext2Vol.Ram.{read_ram}
use cnos.Ext2Vol.Inodes.{read_inode_ram}
use cnos.UserFd.Bytes.{slice}
use cnos.Ext2Vol.Range.{FileOn, read_range_lem}
use cnos.Ext2Vol.Entries.{lookup, find_from-lookup}
use cnos.Path.Canonical.{path_of, join_stack}
use cnos.Ext2Vol.Root.{IsRoot, root_dir, read_super_ram, root_at}
use cnos.Ext2Vol.Dirent.{find_in_root, max_entries}
use cnos.Ext2Vol.Bytes.{Bytes}
use cnos.Path.Segments.{has_slash, IsSegment}
use cnos.Ext2Vol.Inode.{lookup_final, step_into, ensure, walk, read_inode, is_file, skip_slashes}
use cnos.Ext2Vol.Files.{ext2_read_file_range, find_inode, path_max}
use cnos.Ext2Vol.Volume.{Driver, Vol}
use cnos.Path.{take_seg, slash, path_normalize, eq_string, drop}

take_seg_whole : (n : ℕ) (s : List ℕ) → has_slash s ≡ false → length s ≤ n → take_seg n s ≡ (s, [])
unfolding take_seg has_slash
take_seg_whole zero [] clean h = refl
take_seg_whole zero (c ∷ s) clean h = absurd (omega arith)
take_seg_whole (suc n) [] clean h = refl
take_seg_whole (suc n) (c ∷ s) clean h = elim (Bool-cases (c == slash)) [
  | inl hit ↦ absurd (ground arith)
  | inr other ↦ let ih = take_seg_whole n s (ground arith) (omega arith) in rw (ih, other) refl
]

module _ {ℓ} {D : Type ℓ} (hw : Driver D) where
  -- The inode `ino` of the volume is that of a file with the bytes `f`.
  pub record HasFile (v : Vol D) (ino : ℕ) (f : List ℕ) : Type ℓ where
    pub inode : Bytes
    pub read : read_inode hw v ino ≡ some inode
    pub kind : is_file inode ≡ true
    pub file : FileOn hw v inode f

  -- A path of one component is looked up in the root directory.
  lookup_final_one :
      (v : Vol D) (base : List ℕ) (ino : ℕ) (inode : Bytes)
      → IsSegment base
      → step_into hw v 2 base ≡ some ino
      → read_inode hw v ino ≡ some inode
      → lookup_final hw v (path_of (base ∷ [])) ≡ some (ino, inode)
  unfolding lookup_final walk path_of join_stack eq_string drop skip_slashes
      cnos.Ext2Vol.Inode.◌>>=◌
  lookup_final_one v [] ino inode seg found read = absurd (seg.nonempty refl)
  lookup_final_one v (c ∷ p) ino inode seg found read =
      let whole = take_seg_whole 127 (c ∷ p) seg.no_slash seg.short in
      rw (whole, found) (rw read refl)

  find_in_root-step_into :
      (v : Vol D) (tb : ℕ) (es : List (ℕ × List ℕ)) (base : List ℕ) (ino : ℕ)
      → IsRoot tb es v
      → lookup base es ≡ some (suc ino)
      → step_into hw v 2 base ≡ some (suc ino)
  unfolding step_into ensure cnos.Ext2Vol.Inode.◌>>=◌ find_in_root
  find_in_root-step_into v tb es base ino root there =
      let found = find_from-lookup (root_dir v) es base 0 max_entries root.entries (omega arith) in
      let nonzero : (suc ino == 0) ≡ false = ground arith in
      rw
        (
          read_inode_ram hw v tb root.ram 1 (omega arith),
          root.dir,
          read_ram hw v tb root.ram (root_at v) root.place.1,
          found,
          there,
          nonzero,
        )
        refl

  -- A read from the path of a file in the root directory, at an offset up to the file's end:
  -- it returns the file's bytes from there on, as many as the buffer holds or the file has left.
  pub ext2_read_file_range_lem :
      (v : Vol D) (tb : ℕ) (es : List (ℕ × List ℕ)) (path base : List ℕ) (ino : ℕ) (f : List ℕ)
      (offset buf_sz : ℕ)
      → IsRoot tb es v
      → IsSegment base
      → path_normalize path path_max ≡ some (path_of (base ∷ []))
      → lookup base es ≡ some (suc ino)
      → HasFile v (suc ino) f
      → 0 < buf_sz
      → offset ≤ length f
      → ext2_read_file_range hw v path offset buf_sz
        ≡ some
            (slice f offset (if ltb buf_sz (length f - offset) then buf_sz else length f - offset))
  unfolding ext2_read_file_range find_inode ensure cnos.Ext2Vol.Inode.◌>>=◌
  ext2_read_file_range_lem v tb es path base ino f offset buf_sz root seg normal there has some_room
        inside =
      let nonzero : (buf_sz == 0) ≡ false = ground arith in
      let step = find_in_root-step_into v tb es base ino root there in
      let found = lookup_final_one v base (suc ino) has.inode seg step has.read in
      rw (nonzero, normal, read_super_ram hw v tb root.ram root.magic, found, has.kind)
        (read_range_lem hw v has.inode f offset buf_sz has.file inside)
