-- ===== src/Fs/Tests.antt =====
-- The file system's blocks and inodes (fs/bitmap.c, fs/inode.c) on a small device.
use liha_linux.Base.{
  ◌*◌, ◌+◌, ◌==◌, List, [], arith, false, if◌then◌else◌, ltb, refl, some, true, ℕ, ◌↔◌, ◌∷◌, ◌≡◌,
}
use liha_linux.Fs.{BitMap, Fs, Inode, new_block, zero_inode}
use liha_linux.Fs.Dir.{match}
use liha_linux.Fs.Dir.Names.{entry_words, match-put_name}
use liha_linux.Fs.Zones.{Undone, free_block-new_block}
use liha_linux.Fs.Disk.{read_inode, write_inode}
use liha_linux.Fs.Disk.Copied.{SameOnDisk, read_inode-write_inode}
use liha_linux.Fs.Map.{bmap, create_block}
use liha_linux.Fs.Map.Found.{Found, sound, bmap-create_block}

-- The first five bits are set.
abbrev five : BitMap
five = record { bit = λ n. ltb n 5; has = λ n. n == 0; dirt = λ _. false }

-- Two copies of inode 33, the first one changed.
abbrev inodes : ℕ → Inode
inodes n = record zero_inode {
  i_mode = 0x8000;
  i_gid = 3;
  i_nlinks = 1;
  i_dev = 768;
  i_num = 33;
  i_dirt = n == 0;
  i_zone = λ k. if k == 8 then 12 else 0;
}

abbrev device : Fs
device = record {
  zmap = five;
  imap = five;
  s_ninodes = 64;
  s_nzones = 100;
  s_firstdatazone = 10;
  s_imap_blocks = 1;
  s_zmap_blocks = 1;
  word = λ _ _. 0;
  users = λ _. 0;
  can_read = λ _. true;
  inode = inodes;
  last_inode = 0;
  current_time = 7;
}

free_block-new_block_example : Undone device (new_block device)
free_block-new_block_example = free_block-new_block device (omega arith) refl

-- A block on the second level of indirection.
bmap-create_block_example : Found (bmap 0 600) (create_block 0 600 device)
bmap-create_block_example =
    bmap-create_block 0 600 device (omega arith)
      (sound device 0 λ k _. record { used = refl; other = ground arith })

read_inode-write_inode_example :
    (t u : Fs) × (write_inode 0 device ≡ some (tt, t))
    × (read_inode 1 t ≡ some (tt, u))
    × SameOnDisk (device.inode 0) (u.inode 1)
read_inode-write_inode_example =
    read_inode-write_inode 0 1 device (ground arith) refl refl (ground arith) (omega arith) refl

abbrev ls : List ℕ
ls = 108 ∷ 115 ∷ []

-- The name "ls" in the third entry of a block.
match-put_name_example : (match ls (entry_words ls 2 7 (λ _. 0)) 2 ≡ true) ↔ (ls ≡ ls)
match-put_name_example =
    match-put_name ls ls 2 7 (λ _. 0)
      ((omega arith), (omega arith), ((omega arith), (omega arith), tt))
      ((omega arith), (omega arith), ((omega arith), (omega arith), tt)) (omega arith) (omega arith)
      (ground arith)

-- A file with one block.
abbrev with_block : Fs
with_block = record device {
  inode = λ _. record zero_inode { i_zone = λ k. if k == 0 then 13 else 0 };
  word = λ b k. 256 * b + k;
}
