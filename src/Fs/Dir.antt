-- ===== src/Fs/Dir.antt =====
-- Directories (fs/namei.c): `permission`, `match`, `find_entry`, `add_entry`. A name is the list of
-- its bytes. An entry is named by its block and its place there; it is 8 numbers of the block, the
-- inode and 14 bytes of name, two to a number. Nothing is mounted on the device.
pub mod Names
use Prim.Native.Nat.{bit_and}
use liha_linux.Base.{
  ◌%◌, ◌&&◌, ◌*◌, ◌+◌, ◌-◌, ◌/◌, ◌==◌, Bool, List, Option, [], ◌^◌, false, get_or, if◌then◌else◌,
  leb, length, ltb, none, not, some, suc, take, true, update, zero, ◌||◌, ℕ, ◌∷◌,
}
use liha_linux.Task.{Task}
use liha_linux.Fs.{F, Fs, Inode, pure, ◌>>=◌, ◌>>◌}
use liha_linux.Fs.Map.{bmap, create_block}
use liha_linux.Fs.Free.{change, get_inode}

abbrev pub name_len : ℕ
name_len = 14

abbrev pub dir_entries_per_block : ℕ
dir_entries_per_block = 64

-- `mode >> n` for the class of the user.
abbrev pub mode_for : Task → Inode → ℕ
mode_for me v =
    if me.euid == v.i_uid
    then v.i_mode / 2 ^ 6
    else if me.egid == v.i_gid
    then v.i_mode / 2 ^ 3
    else v.i_mode

unfoldable pub permission : Task → Inode → ℕ → Bool
permission me v mask =
    if not (v.i_dev == 0) && (v.i_nlinks == 0)
    then false
    else (bit_and (bit_and (mode_for me v) mask) 7 == mask) || (me.euid == 0)

-- `de->inode` and `de->name[n]` of the entry `e` of a block.
abbrev pub inode_of : (ℕ → ℕ) → ℕ → ℕ
inode_of w e = w (8 * e)

abbrev pub name_byte : (ℕ → ℕ) → ℕ → ℕ → ℕ
name_byte w e n = let v = w (8 * e + 1 + n / 2) in if n % 2 == 0 then v % 2 ^ 8 else v / 2 ^ 8

-- The comparison of bytes, from byte `n` on.
pub same_bytes : List ℕ → (ℕ → ℕ) → ℕ → ℕ → Bool
same_bytes [] w e n = true
same_bytes (c ∷ name) w e n = (c == name_byte w e n) && same_bytes name w e (n + 1)

pub match : List ℕ → (ℕ → ℕ) → ℕ → Bool
unfolding same_bytes
match name w e =
    let len = length name in
    if (inode_of w e == 0) || ltb name_len len
    then false
    else if ltb len name_len && not (name_byte w e len == 0)
    then false
    else same_bytes name w e 0

-- The loop of `find_entry` at entry `i` of the directory, in place `e` of the block `b`, for at most
-- `n` rounds.
pub find_from : ℕ → (dir : ℕ) → List ℕ → (entries i b e : ℕ) → F (Option (ℕ × ℕ))
unfolding match
find_from zero dir name entries i b e = pure none
find_from (suc n) dir name entries i b e = λ s.
    let next = (do
      block ← bmap dir (i / dir_entries_per_block)
      able ← λ s. some (s.can_read block, s)
      if (block == 0) || not able
          then find_from n dir name entries (i + dir_entries_per_block) b e
          else find_from n dir name entries i block 0) in
    let later = find_from n dir name entries (i + 1) b (e + 1) in
    (if leb entries i
        then pure none
        else if leb dir_entries_per_block e
        then next
        else if match name (s.word b) e
        then pure (some (b, e))
        else later)
      s

-- Behind the test for `..`; a new block costs a round of its own.
pub find_entry : (dir : ℕ) → List ℕ → F (Option (ℕ × ℕ))
unfolding find_from
find_entry dir long = do
  v ← get_inode dir
  able ← λ s. some (s.can_read (v.i_zone 0), s)
  let entries = v.i_size / 16 in
      if (length long == 0) || ((v.i_zone 0 == 0) || not able)
      then pure none
      else find_from (2 * entries + 1) dir (take name_len long) entries 0 (v.i_zone 0) 0

-- The two bytes of the name in number `k` of its 7.
abbrev pub name_at : List ℕ → ℕ → ℕ
name_at name n = get_or name n 0

abbrev pub name_word : List ℕ → ℕ → ℕ
name_word name k = name_at name (2 * k) + 2 ^ 8 * name_at name (2 * k + 1)

-- `for (i=0; i < NAME_LEN ; i++) de->name[i]=...`.
pub put_name : List ℕ → ℕ → (ℕ → ℕ) → ℕ → ℕ
put_name name e w j =
    if leb (8 * e + 1) j && ltb j (8 * e + 8) then name_word name (j - (8 * e + 1)) else w j

-- The entry behind the last one: the directory grows by it.
pub grow : (dir i b e : ℕ) → F (Unit {0})
grow dir i b e s =
    let v = s.inode dir in
    let grown = record v { i_size = (i + 1) * 16; i_dirt = true; i_ctime = s.current_time } in
    if leb v.i_size (i * 16)
    then some (
      tt,
      record s {
        word = update s.word b (update (s.word b) (8 * e) 0);
        inode = update s.inode dir grown;
      },
    )
    else some (tt, s)

-- The rest of a round of `add_entry`: the name is put in a free entry.
pub claim_entry : (dir : ℕ) → List ℕ → (b e : ℕ) → F (Option (ℕ × ℕ))
unfolding put_name
claim_entry dir name b e s =
    let v = record (s.inode dir) { i_mtime = s.current_time } in
    if inode_of (s.word b) e == 0
    then some (
      some (b, e),
      record s {
        inode = update s.inode dir v;
        word = update s.word b (put_name name e (s.word b));
      },
    )
    else some (none, s)

-- The loop of `add_entry`, for at most `n` rounds.
pub add_from : ℕ → (dir : ℕ) → List ℕ → (i b e : ℕ) → F (Option (ℕ × ℕ))
unfolding grow claim_entry
add_from zero dir name i b e = pure none
add_from (suc n) dir name i b e =
    let next = (do
      block ← create_block dir (i / dir_entries_per_block)
      able ← λ s. some (s.can_read block, s)
      if block == 0
          then pure none
          else if able
          then add_from n dir name i block 0
          else add_from n dir name (i + dir_entries_per_block) b e) in
    let here = (do
      grow dir i b e
      found ← claim_entry dir name b e
      elim found as (λ _. F (Option (ℕ × ℕ))) [
        | some p ↦ pure (some p)
        | none ↦ add_from n dir name (i + 1) b (e + 1)
      ]) in
    if leb dir_entries_per_block e then next else here

pub add_entry : (dir : ℕ) → List ℕ → F (Option (ℕ × ℕ))
unfolding add_from
add_entry dir long = do
  v ← get_inode dir
  able ← λ s. some (s.can_read (v.i_zone 0), s)
  if (length long == 0) || ((v.i_zone 0 == 0) || not able)
      then pure none
      else add_from (2 * (v.i_size / 16) + 4) dir (take name_len long) 0 (v.i_zone 0) 0
