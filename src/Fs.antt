-- ===== src/Fs.antt =====
-- fs/bitmap.c, fs/inode.c and fs/truncate.c for one mounted device: its bit maps, the blocks of
-- 512 numbers that files are made of, and the table of inodes. A sleep on a lock is left out; the
-- disk's blocks are read and written through the buffer cache, which `users` and `can_read` stand for.
pub mod Bits
pub mod Zones
pub mod Map
pub mod Disk
pub mod Free
pub mod Table
pub mod Dir
pub mod Path
pub mod File
pub mod Block
pub mod Rw
mod Tests
use liha_linux.Base.{
  ◌%◌, ◌&&◌, ◌*◌, ◌+◌, ◌-◌, ◌/◌, ◌==◌, Bool, Option, ◌^◌, false, if◌then◌else◌, leb, ltb, none, not,
  some, suc, true, update, zero, ◌||◌, ℕ,
}

-- `struct m_inode`.
pub record Inode : Type 0 where
  pub i_mode : ℕ
  pub i_uid : ℕ
  pub i_size : ℕ
  pub i_mtime : ℕ
  pub i_gid : ℕ
  pub i_nlinks : ℕ
  pub i_zone : ℕ → ℕ
  pub i_atime : ℕ
  pub i_ctime : ℕ
  pub i_dev : ℕ
  pub i_num : ℕ
  pub i_count : ℕ
  pub i_dirt : Bool
  pub i_pipe : Bool
  pub i_mount : Bool

-- A bit map: bit `j` of block `i` is bit `i * 8192 + j`; which blocks `s_zmap[i]` or `s_imap[i]` are
-- there, and their `b_dirt`.
pub record BitMap : Type 0 where
  pub bit : ℕ → Bool
  pub has : ℕ → Bool
  pub dirt : ℕ → Bool

-- The device, its `struct super_block`, and `inode_table`; `last_inode`
-- is the static index of `get_empty_inode`. `word` is a block by its numbers of 16
-- bits, `users` the `b_count` of a block's buffer, `can_read` whether `bread` gives one.
pub record Fs : Type 0 where
  pub zmap : BitMap
  pub imap : BitMap
  pub s_ninodes : ℕ
  pub s_nzones : ℕ
  pub s_firstdatazone : ℕ
  pub s_imap_blocks : ℕ
  pub s_zmap_blocks : ℕ
  pub word : ℕ → ℕ → ℕ
  pub users : ℕ → ℕ
  pub can_read : ℕ → Bool
  pub inode : ℕ → Inode
  pub last_inode : ℕ
  pub current_time : ℕ

-- A call of the file system returns, or it is `none` and panics.
abbrev pub F : Type 0 → Type 0
F A = Fs → Option (A × Fs)

abbrev pub pure : {A : Type 0} → A → F A
pure a s = some (a, s)

abbrev pub panic : {A : Type 0} → F A
panic s = none

module _ {A B : Type 0} where
  abbrev pub and_then : Option (A × Fs) → (A → F B) → Option (B × Fs)
  and_then none k = none
  and_then (some p) k = k p.0 p.1

  infixl 5 ◌>>=◌ ◌>>◌
  abbrev pub ◌>>=◌ : F A → (A → F B) → F B
  m >>= k = λ s. and_then (m s) k

  abbrev pub ◌>>◌ : F A → F B → F B
  m >> k = m >>= λ _. k

-- `find_first_zero`, over the `n` bits from `j` on; the number of bits if all are set.
pub find_first_zero : ℕ → ℕ → (ℕ → Bool) → ℕ
find_first_zero zero j bit = j
find_first_zero (suc n) j bit =
    let rest = find_first_zero n (j + 1) bit in if bit j then rest else j

-- The loop over `s_zmap` or `s_imap` from map `i` on, `n` left: the first bit that is clear.
pub first_clear : ℕ → ℕ → BitMap → Option ℕ
unfolding find_first_zero
first_clear zero i m = none
first_clear (suc n) i m =
    let j = find_first_zero 8192 0 (λ j. m.bit (i * 8192 + j)) in
    let rest = first_clear n (i + 1) m in
    if m.has i && ltb j 8192 then some (i * 8192 + j) else rest

-- `set_bit` or `clear_bit`, and `b_dirt = 1`.
abbrev pub write_bit : ℕ → Bool → BitMap → BitMap
write_bit n b m = record m { bit = update m.bit n b; dirt = update m.dirt (n / 8192) true }

abbrev pub take_zone : ℕ → Fs → Fs
take_zone n s = record s { zmap = write_bit n true s.zmap }

-- The block is cleared by `clear_block`; 0 is no block.
pub new_block : F ℕ
unfolding first_clear
new_block s = elim (first_clear 8 0 s.zmap) [
  | none ↦ some (0, s)
  | some n ↦
      let b = n + s.s_firstdatazone - 1 in
      let taken = take_zone n s in
      if leb s.s_nzones b
      then some (0, taken)
      else if s.users b == 0
      then some (b, record taken { word = update taken.word b (λ _. 0) })
      else none
]

-- The block's bit; `block -= sb->s_firstdatazone - 1`.
abbrev pub zone_bit : Fs → ℕ → ℕ
zone_bit s block = block - (s.s_firstdatazone - 1)

-- A buffer that others use keeps the block, and the count that `get_hash_table` raised; a missing map
-- is a null pointer.
pub free_block : ℕ → F (Unit {0})
free_block block s =
    let n = zone_bit s block in
    if ltb block s.s_firstdatazone || leb s.s_nzones block
    then none
    else if not (s.users block == 0)
    then some (tt, record s { users = update s.users block ((s.users block + 1) % 2 ^ 8) })
    else if s.zmap.has (n / 8192) && s.zmap.bit n
    then some (tt, record s { zmap = write_bit n false s.zmap })
    else none

abbrev pub set_inode : ℕ → Inode → Fs → Fs
set_inode i v s = record s { inode = update s.inode i v }

-- `memset(inode,0,sizeof(*inode))`.
abbrev pub zero_inode : Inode
zero_inode = record {
  i_mode = 0;
  i_uid = 0;
  i_size = 0;
  i_mtime = 0;
  i_gid = 0;
  i_nlinks = 0;
  i_zone = λ _. 0;
  i_atime = 0;
  i_ctime = 0;
  i_dev = 0;
  i_num = 0;
  i_count = 0;
  i_dirt = false;
  i_pipe = false;
  i_mount = false;
}

-- A bit that is clear already is only reported.
pub free_inode : ℕ → F (Unit {0})
free_inode i s =
    let v = s.inode i in
    let freed = record s {
      imap = write_bit v.i_num false s.imap;
      inode = update s.inode i zero_inode;
    } in
    if v.i_dev == 0
    then some (tt, set_inode i zero_inode s)
    else if ltb 1 v.i_count || not (v.i_nlinks == 0)
    then none
    else if (v.i_num == 0) || ltb s.s_ninodes v.i_num
    then none
    else if s.imap.has (v.i_num / 8192)
    then some (tt, freed)
    else none
