-- ===== src/Fs/Disk.antt =====
-- `read_inode` and `write_inode` of fs/inode.c: an inode as 16 numbers of its block.
pub mod Copied
use liha_linux.Base.{
  ◌%◌, ◌&&◌, ◌*◌, ◌+◌, ◌-◌, ◌/◌, ◌==◌, ◌^◌, false, if◌then◌else◌, leb, ltb, none, not, some, update,
  ◌||◌, ℕ,
}
use liha_linux.Fs.{F, Fs, Inode, set_inode}

abbrev pub inodes_per_block : ℕ
inodes_per_block = 32

-- `2 + sb->s_imap_blocks + sb->s_zmap_blocks + (inode->i_num-1)/INODES_PER_BLOCK`.
abbrev pub inode_block : Fs → ℕ → ℕ
inode_block s num = 2 + s.s_imap_blocks + s.s_zmap_blocks + (num - 1) / inodes_per_block

-- The first number of the inode in its block; `struct d_inode` has 32 bytes.
abbrev pub inode_at : ℕ → ℕ
inode_at num = ((num - 1) % inodes_per_block) * 16

-- The numbers of 16 bits that `struct d_inode` is made of.
pub word_of_inode : Inode → ℕ → ℕ
word_of_inode v k =
    if k == 0
    then v.i_mode
    else if k == 1
    then v.i_uid
    else if k == 2
    then v.i_size % 2 ^ 16
    else if k == 3
    then v.i_size / 2 ^ 16
    else if k == 4
    then v.i_mtime % 2 ^ 16
    else if k == 5
    then v.i_mtime / 2 ^ 16
    else if k == 6
    then v.i_gid + 2 ^ 8 * v.i_nlinks
    else v.i_zone (k - 7)

-- The block with the inode copied into it.
pub copy_inode : (ℕ → ℕ) → ℕ → Inode → ℕ → ℕ
copy_inode old base v j =
    if leb base j && ltb j (base + 16) then word_of_inode v (j - base) else old j

-- `*(struct d_inode *)inode = ...`, from the numbers `w`.
pub from_words : (ℕ → ℕ) → Inode → Inode
from_words w v = record v {
  i_mode = w 0;
  i_uid = w 1;
  i_size = w 2 + 2 ^ 16 * w 3;
  i_mtime = w 4 + 2 ^ 16 * w 5;
  i_gid = w 6 % 2 ^ 8;
  i_nlinks = w 6 / 2 ^ 8;
  i_zone = λ k. w (k + 7);
}

pub read_inode : ℕ → F (Unit {0})
unfolding from_words
read_inode i s =
    let v = s.inode i in
    let block = inode_block s v.i_num in
    if s.can_read block
    then some (tt, set_inode i (from_words (λ k. s.word block (inode_at v.i_num + k)) v) s)
    else none

pub write_inode : ℕ → F (Unit {0})
unfolding copy_inode word_of_inode
write_inode i s =
    let v = s.inode i in
    let block = inode_block s v.i_num in
    let written = record s {
      word = update s.word block (copy_inode (s.word block) (inode_at v.i_num) v);
      inode = update s.inode i (record v { i_dirt = false });
    } in
    if not v.i_dirt || (v.i_dev == 0)
    then some (tt, s)
    else if s.can_read block
    then some (tt, written)
    else none
