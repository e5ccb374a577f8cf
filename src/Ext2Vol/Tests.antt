-- ===== src/Ext2Vol/Tests.antt =====
-- A RAM volume of 256 blocks: it is formatted, a file and a directory are written and read.
use cnos.Prelude.{
  ℕ, ◌+◌, ◌≤◌, ◌<◌, ◌≡◌, refl, ◌⊎◌, Bool, true, false, Option, none, some, List, [], ◌∷◌, ◌++◌,
  arith, length, set_bit, clear_bit, test_bit, ◌-◌, ◌==◌,
}
use cnos.Ext2Vol.Rounds.{loops_end}
use cnos.Ext2Vol.Append.{add_entry-Holds}
use cnos.Ext2Vol.Inodes.{read_inode-write_inode}
use cnos.Ext2Vol.Inode.{
  read_inode, ensure, is_dir, is_file, inode_block, inode_off, skip_slashes, read_super, read_gd,
  step_into, walk, lookup_final, read_meta, open_parent,
}
use cnos.Ext2Vol.Fresh.{dir_block-Holds}
use cnos.Ext2Vol.Range.{read_range_lem}
use cnos.Vfs.{is_under_dev, ext2_fs, read_file_range}
use cnos.UserFd.{User, sys_read, fd_min}
use cnos.UserFd.Read.{Serves, Reads, sys_read_lem}
use cnos.UserFd.Served.{volume_ops-Serves}
use cnos.UserFd.Bytes.{slice}
use cnos.Path.Canonical.{path_of, join_stack}
use cnos.Ext2Vol.Allocs.{Allocates, IsBitmap, alloc_block-Allocates}
use cnos.Ext2Vol.Create.{Created, ext2_write_file-Created, ext2_read_file_range-ext2_write_file}
use cnos.Ext2Vol.Dirent.{
  find_in_root, find_from, entry_size, list_from, max_entries, add_entry, end_from, dirent_put,
  entry_at,
}
use cnos.Ext2Vol.Formatted.{ext2_format-IsRoot}
use cnos.Ext2Vol.FreshRoot.{IsFresh}
use cnos.Ext2Vol.Root.{meta_of}
use cnos.Path.{
  dot, path_normalize, eq_string, scan, take_seg, skip_slash, push_seg, write_path, emit, emit_one,
  path_split_parent, split_at, last_slash, take, drop, pop,
}
use cnos.Ext2Vol.Ram.{IsRam}
use cnos.Pmm.Count.{count}
use cnos.Ext2Vol.Entries.{NoNul, lookup, end_of, Holds, loops-Holds}
use cnos.Path.Segments.{IsSegment, has_slash}
use cnos.Ext2Vol.Bytes.{
  zero_bytes, bm_get, memcpy, bytes_of, le16, le32, Bytes, block_size, put_le16, put_le32, c_string,
  bm_set, bm_clr,
}
use cnos.Ext2Vol.Write.{
  ext2_write_file, ext2_mkdir, write_inode, first_free_block, alloc_block, alloc_inode, run_then,
  count_blocks, count_inodes, free_bit, chunk, file_inode, dir_inode, dir_block, write_blk,
  write_super, write_gd, write_meta, write_blocks, new_entry, choose_entry, one_more_dir,
}
use cnos.Ext2Vol.Format.{
  volume_ops, ext2_format, lost_found, root_block, first_bits, new_super, new_gd, cleared,
  clear_table, lay_out,
}
use cnos.Ext2Vol.Volume.{
  Driver, Vol, ram_vol, is_ram, is_none, no_volume, vol_check, in_volume, transfer_in, vol_read_blk,
  transfer_out, vol_write_blk, total_blocks_from_vol,
}
use cnos.Ext2Vol.Files.{
  ext2_read_file, ext2_ls, blocks_of, read_range, ext2_read_file_range, path_max, copy_block,
  copy_blocks, find_inode, ext2_ls_at,
}

abbrev no_devices : Driver ℕ
no_devices = record {
  ide_capacity_sectors = λ d drive. none;
  ide_read_sectors = λ d drive sec. none;
  ide_write_sectors = λ d drive sec buf. (false, d);
  ahci_get_abar = λ d. false;
  ahci_capacity_sectors = λ d port. none;
  ahci_read_sectors = λ d port sec. none;
  ahci_write_sectors = λ d port sec buf. (false, d);
}

abbrev root_entries : List (ℕ × List ℕ)
root_entries = (2, dot ∷ []) ∷ (2, dot ∷ dot ∷ []) ∷ (11, lost_found) ∷ []

abbrev raw_volume : Vol ℕ
raw_volume = record {
  type = ram_vol;
  ram = zero_bytes;
  size_bytes = 262144;
  ide_drive = 0;
  ahci_port = 0;
  dev = 0;
}

abbrev fresh : Option Bool × Vol ℕ
fresh = ext2_format no_devices raw_volume

-- `/a` and `/d`.
abbrev path_a : List ℕ
path_a = 47 ∷ 97 ∷ []

abbrev path_d : List ℕ
path_d = 47 ∷ 100 ∷ []

abbrev written : Option Bool × Vol ℕ
written =
    ext2_write_file no_devices path_a (104 ∷ 105 ∷ []) (ext2_mkdir no_devices path_d fresh.1).1

-- The listings, the file read back, the blocks in use and a free inode.
volume_tests :
    (ext2_ls no_devices fresh.1 ≡ some root_entries)
    × ((ext2_ls no_devices written.1 ≡ some (root_entries ++ ((12, 100 ∷ []) ∷ (13, 97 ∷ []) ∷ [])))
        × ((ext2_read_file no_devices written.1 path_a 100 ≡ some (104 ∷ 105 ∷ []))
            × ((count (bm_get (meta_of fresh.1).bb) 256 ≡ 23)
                × (bm_get (meta_of fresh.1).ib 11 ≡ false))))
unfolding memcpy le16 le32 put_le16 put_le32 c_string bm_set bm_clr bm_get is_ram is_none no_volume
    vol_check in_volume transfer_in vol_read_blk transfer_out vol_write_blk total_blocks_from_vol
    entry_size dirent_put entry_at find_from find_in_root list_from end_from add_entry
    cnos.Ext2Vol.Inode.◌>>=◌ ensure is_dir is_file inode_block inode_off skip_slashes read_super
    read_gd read_inode step_into walk lookup_final read_meta open_parent copy_block blocks_of
    copy_blocks read_range find_inode ext2_read_file_range ext2_read_file ext2_ls_at ext2_ls
    run_then count_blocks count_inodes free_bit alloc_block alloc_inode chunk file_inode dir_inode
    dir_block write_blk write_super write_gd write_inode write_meta write_blocks new_entry
    choose_entry ext2_write_file one_more_dir ext2_mkdir first_bits new_super new_gd root_block
    cleared clear_table lay_out ext2_format eq_string path_normalize scan take_seg skip_slash
    push_seg emit emit_one write_path path_split_parent split_at last_slash take drop set_bit
    clear_bit test_bit count pop
volume_tests = (refl, (refl, (refl, (refl, refl))))

raw_volume-IsRam : IsRam raw_volume 256
raw_volume-IsRam = record { type = refl; size = refl; least = omega arith; most = omega arith }

ext2_format-IsRoot_example : (fresh.0 ≡ some true) × IsFresh 256 fresh.1
ext2_format-IsRoot_example = ext2_format-IsRoot no_devices 256 raw_volume raw_volume-IsRam

-- The name `a`.
abbrev name_a : List ℕ
name_a = 97 ∷ []

name_a-IsSegment : IsSegment name_a
unfolding has_slash
name_a-IsSegment = record {
  nonempty = λ e. ground (arith, e);
  not_dot = λ e. ground (arith, e);
  not_dots = λ e. ground (arith, e);
  no_slash = refl;
  short = omega arith;
}

name_a-NoNul : NoNul name_a
unfolding NoNul
name_a-NoNul = (omega arith, tt)

abbrev hello : List ℕ
hello = 104 ∷ 105 ∷ []

path_a_normal : path_normalize path_a path_max ≡ some (path_of (name_a ∷ []))
unfolding path_normalize path_of join_stack scan take_seg skip_slash push_seg eq_string write_path
    emit emit_one
path_a_normal = refl

name_a_absent : lookup name_a root_entries ≡ none
unfolding lookup eq_string
name_a_absent = refl

room : end_of 0 root_entries + entry_size (length name_a) ≤ block_size
unfolding end_of entry_size
room = omega arith

blocks_free : count (bm_get (meta_of fresh.1).bb) 256 + blocks_of (length hello) ≤ 256
unfolding blocks_of
blocks_free = omega (arith, volume_tests.1.1.1.0)

inode_free : (j : ℕ) × (11 ≤ j) × (j < 128) × (bm_get (meta_of fresh.1).ib j ≡ false)
inode_free = (11, omega arith, omega arith, volume_tests.1.1.1.1)

ext2_write_file-Created_example :
    Created no_devices 256 root_entries fresh.1 path_a name_a hello
      (ext2_write_file no_devices path_a hello fresh.1)
ext2_write_file-Created_example =
    ext2_write_file-Created no_devices 256 root_entries fresh.1 path_a name_a hello
      ext2_format-IsRoot_example.1.root name_a-IsSegment name_a-NoNul (omega arith) path_a_normal
      name_a_absent (omega arith) room blocks_free inode_free

ext2_read_file_range-ext2_write_file_example :
    let r = ext2_write_file no_devices path_a hello fresh.1 in
    (r.0 ≡ some true) × (ext2_read_file_range no_devices r.1 path_a 1 100 ≡ some (slice hello 1 1))
ext2_read_file_range-ext2_write_file_example =
    ext2_read_file_range-ext2_write_file no_devices 256 root_entries fresh.1 path_a name_a hello
      ext2_format-IsRoot_example.1.root name_a-IsSegment name_a-NoNul (omega arith) path_a_normal
      name_a_absent (omega arith) room blocks_free inode_free 1 100 (omega arith) (omega arith)

abbrev created : Vol ℕ
created = (ext2_write_file no_devices path_a hello fresh.1).1

on_disk : is_under_dev path_a ≡ false
unfolding is_under_dev
on_disk = refl

path_a_kept : path_normalize path_a 256 ≡ some path_a
unfolding path_normalize scan take_seg skip_slash push_seg eq_string write_path emit emit_one
path_a_kept = refl

-- Descriptor 3 is open on `/a` of the mounted volume, at offset 1.
abbrev reader : User (Vol ℕ)
reader = record {
  vfs = record { mounted = true; fstype = ext2_fs; vol = some created };
  fds = λ i. record { valid = i == 0; path = path_a; offset = 1; size = 2 };
  cwd = 47 ∷ [];
  mem = λ a. 0;
}

created-Serves : Serves (read_file_range (volume_ops no_devices) reader.vfs path_a) hello
created-Serves =
    volume_ops-Serves no_devices created reader.vfs path_a path_a hello refl refl path_a_kept
      on_disk
      (λ o n some_bytes inside.
        (ext2_read_file_range-ext2_write_file no_devices 256 root_entries fresh.1 path_a name_a
          hello ext2_format-IsRoot_example.1.root name_a-IsSegment name_a-NoNul (omega arith)
          path_a_normal name_a_absent (omega arith) room blocks_free inode_free o n some_bytes
          inside).1)

sys_read_example :
    Reads reader
      (3 - fd_min)
      hello
      4096
      1
      (sys_read (volume_ops no_devices) (λ a n. true) 3 4096 100 reader)
sys_read_example =
    sys_read_lem (volume_ops no_devices) (λ a n. true) 3 4096 100 1 reader hello refl refl
      (omega arith) (omega arith) refl (omega arith) created-Serves refl (omega arith) (omega arith)
      refl

read_range_lem_example :
    read_range no_devices created ext2_write_file-Created_example.file.inode 0 1
    ≡ some (slice hello 0 1)
read_range_lem_example =
    read_range_lem no_devices created ext2_write_file-Created_example.file.inode hello 0 1
      ext2_write_file-Created_example.file.file (omega arith)

root_block-Holds : Holds root_block 0 root_entries
root_block-Holds = (dir_block-Holds 0 0 (omega arith) (omega arith)).1

add_entry-Holds_example :
    ((end_of 0 root_entries + entry_size (length name_a) ≤ block_size)
      × (c : Bytes) × (add_entry root_block 12 name_a ≡ some c)
      × Holds c 0 (root_entries ++ ((12, name_a) ∷ [])))
    ⊎ ((block_size < end_of 0 root_entries + entry_size (length name_a))
        × (add_entry root_block 12 name_a ≡ none))
add_entry-Holds_example =
    add_entry-Holds root_block root_entries 12 name_a root_block-Holds (omega arith) name_a-NoNul
      (omega arith)

loops-Holds_example :
    (find_in_root root_block name_a ≡ lookup name_a root_entries)
    × ((list_from max_entries root_block 0 ≡ root_entries)
        × (end_from max_entries root_block 0 ≡ end_of 0 root_entries))
loops-Holds_example = loops-Holds root_block root_entries name_a root_block-Holds

loops_end_example :
    (find_from 200 root_block name_a 0 ≡ find_in_root root_block name_a)
    × ((list_from 200 root_block 0 ≡ list_from max_entries root_block 0)
        × (end_from 200 root_block 0 ≡ end_from max_entries root_block 0))
loops_end_example = loops_end 200 root_block name_a (omega arith)

zero_bytes-IsBitmap : IsBitmap zero_bytes
zero_bytes-IsBitmap = record { byte = λ k lt. omega arith }

alloc_block-Allocates_example :
    Allocates zero_bytes first_free_block 256 0 (alloc_block zero_bytes 256)
    × Allocates zero_bytes 11 128 1 (alloc_inode zero_bytes)
alloc_block-Allocates_example =
    alloc_block-Allocates zero_bytes 256 zero_bytes-IsBitmap (omega arith) (omega arith)

read_inode-write_inode_example :
    let w = (write_inode no_devices 2 (bytes_of hello) raw_volume).1 in
    ((write_inode no_devices 2 (bytes_of hello) raw_volume).0 ≡ some true)
    × ((x : Bytes) × (y : Bytes) × (z : Bytes) × (read_inode no_devices w 2 ≡ some x)
        × (read_inode no_devices w 11 ≡ some y)
        × (read_inode no_devices raw_volume 11 ≡ some z)
        × ((k : ℕ) → k < 128 → (x k ≡ bytes_of hello k) × (y k ≡ z k)))
read_inode-write_inode_example =
    read_inode-write_inode no_devices raw_volume 256 1 10 (bytes_of hello) raw_volume-IsRam
      (omega arith) (omega arith) (λ e. omega arith)
