-- ===== src/Fs/Map.antt =====
-- `_bmap` of fs/inode.c: the block of a file's block, through up to two levels of indirection.
pub mod Slots
pub mod Found
pub mod Reads
use liha_linux.Base.{
  ◌%◌, ◌&&◌, ◌*◌, ◌-◌, ◌/◌, ◌==◌, Bool, ◌^◌, false, if◌then◌else◌, ltb, not, some, true, update, ℕ,
}
use liha_linux.Fs.{F, pure, panic, ◌>>=◌, ◌>>◌, new_block, set_inode}

-- `inode->i_zone[k]=new_block(inode->i_dev)`, and the rest where it is a block.
abbrev pub put_zone : (i k b : ℕ) → F (Unit {0})
put_zone i k b s =
    let v = s.inode i in
    let z = record v { i_zone = update v.i_zone k b } in
    let w = record z { i_ctime = s.current_time; i_dirt = true } in
    some (tt, set_inode i (if b == 0 then z else w) s)

abbrev pub zone : (i k : ℕ) → F ℕ
zone i k s = some ((s.inode i).i_zone k, s)

-- A number of the inode, a new one where there is none.
pub zone_of : Bool → (i k : ℕ) → F ℕ
zone_of create i k = do
  z ← zone i k
  if create && (z == 0) then (do b ← new_block; put_zone i k b; pure b) else pure z

abbrev pub put_word : (block k b : ℕ) → F (Unit {0})
put_word block k b s =
    some (tt, record s { word = update s.word block (update (s.word block) k b) })

abbrev pub word_at : (block k : ℕ) → F ℕ
word_at block k s = some (s.word block k, s)

pub put_new : (block k b : ℕ) → F ℕ
put_new block k b = if b == 0 then pure 0 else (do put_word block k b; pure b)

-- A number of an indirect block; 0 if the block cannot be read.
pub word_of : Bool → (block k : ℕ) → F ℕ
word_of create block k = do
  able ← λ s. some (s.can_read block, s)
  z ← word_at block k
  if not able then pure 0 else if create && (z == 0) then new_block >>= put_new block k else pure z

-- `_bmap`.
pub find_block : Bool → (i block : ℕ) → F ℕ
find_block create i block =
    if ltb block 7
    then zone_of create i block
    else if ltb (block - 7) 512
    then (do z ← zone_of create i 7; if z == 0 then pure 0 else word_of create z (block - 7))
    else if ltb (block - 7 - 512) (512 * 512)
    then (do
      z ← zone_of create i 8
      if z == 0 then pure 0 else (do
        y ← word_of create z ((block - 7 - 512) / 2 ^ 9)
        if y == 0 then pure 0 else word_of create y ((block - 7 - 512) % 2 ^ 9)))
    else panic

abbrev pub bmap : (i block : ℕ) → F ℕ
bmap = find_block false

abbrev pub create_block : (i block : ℕ) → F ℕ
create_block = find_block true
