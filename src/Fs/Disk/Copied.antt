-- ===== src/Fs/Disk/Copied.antt =====
-- An inode written to its block and read back (fs/inode.c).
use liha_linux.Base.{
  ◌%◌, ◌&&◌, ◌*◌, ◌+◌, ◌-◌, ◌/◌, ◌<◌, ◌==◌, ==_≢, ◌^◌, ap, arith, false, if◌then◌else◌, leb, ltb,
  refl, some, subst, sym, true, update, update_ne, update_self, ℕ, ◌∙◌, ◌≡◌, ◌≢◌,
}
use liha_linux.Fs.{Fs, Inode, set_inode}
use liha_linux.Fs.Disk.{
  copy_inode, from_words, inode_at, inode_block, read_inode, word_of_inode, write_inode,
}

-- The fields that are on the disk.
pub record SameOnDisk (v w : Inode) : Type 0 where
  pub mode : w.i_mode ≡ v.i_mode
  pub uid : w.i_uid ≡ v.i_uid
  pub size : w.i_size ≡ v.i_size
  pub mtime : w.i_mtime ≡ v.i_mtime
  pub gid : w.i_gid ≡ v.i_gid
  pub nlinks : w.i_nlinks ≡ v.i_nlinks
  pub zones : (k : ℕ) → k < 9 → w.i_zone k ≡ v.i_zone k

in_place : (base k : ℕ) → k < 16 → (leb base (base + k) && ltb (base + k) (base + 16)) ≡ true
in_place base k h = ground arith

behind : (k c : ℕ) → c < 7 → (k + 7 == c) ≡ false
behind k c h = ground arith

copied :
    (old : ℕ → ℕ) (base : ℕ) (v : Inode) (k : ℕ)
    → k < 16
    → copy_inode old base v (base + k) ≡ word_of_inode v k
unfolding copy_inode
copied old base v k h =
    ap (λ t. if t then word_of_inode v (base + k - base) else old (base + k)) (in_place base k h)
    ∙ ap (word_of_inode v) {x = base + k - base} {y = k} (omega arith)

zone_word : (v : Inode) (k : ℕ) → word_of_inode v (k + 7) ≡ v.i_zone k
unfolding word_of_inode
zone_word v k =
    let far = λ (c : ℕ) (h : c < 7). behind k c h in
    rw
      (
        far 0 (omega arith),
        far 1 (omega arith),
        far 2 (omega arith),
        far 3 (omega arith),
        far 4 (omega arith),
        far 5 (omega arith),
        far 6 (omega arith),
      )
      (ap v.i_zone {x = k + 7 - 7} {y = k} (omega arith))

halves : (a : ℕ) → a % 2 ^ 16 + 2 ^ 16 * (a / 2 ^ 16) ≡ a
halves a = omega arith

low_byte : (a b : ℕ) → a < 2 ^ 8 → (a + 2 ^ 8 * b) % 2 ^ 8 ≡ a
low_byte a b h = omega arith

high_byte : (a b : ℕ) → a < 2 ^ 8 → (a + 2 ^ 8 * b) / 2 ^ 8 ≡ b
high_byte a b h = omega arith

from_words-SameOnDisk :
    (v u : Inode) (w : ℕ → ℕ)
    → v.i_gid < 2 ^ 8
    → ((k : ℕ) → k < 16 → w k ≡ word_of_inode v k)
    → SameOnDisk v (from_words w u)
unfolding from_words word_of_inode
from_words-SameOnDisk v u w fits h = record {
  mode = h 0 (omega arith);
  uid = h 1 (omega arith);
  size =
      ap (λ a. a + 2 ^ 16 * w 3) (h 2 (omega arith))
      ∙ ap (λ b. v.i_size % 2 ^ 16 + 2 ^ 16 * b) (h 3 (omega arith))
      ∙ halves v.i_size;
  mtime =
      ap (λ a. a + 2 ^ 16 * w 5) (h 4 (omega arith))
      ∙ ap (λ b. v.i_mtime % 2 ^ 16 + 2 ^ 16 * b) (h 5 (omega arith))
      ∙ halves v.i_mtime;
  gid = ap (λ a. a % 2 ^ 8) (h 6 (omega arith)) ∙ low_byte v.i_gid v.i_nlinks fits;
  nlinks = ap (λ a. a / 2 ^ 8) (h 6 (omega arith)) ∙ high_byte v.i_gid v.i_nlinks fits;
  zones = λ k below. h (k + 7) (omega arith) ∙ zone_word v k;
}

-- The state behind the write, and the read of an inode of the number `num`.
abbrev written : ℕ → Fs → Fs
written i s =
    let v = s.inode i in
    let block = inode_block s v.i_num in
    record s {
      word = update s.word block (copy_inode (s.word block) (inode_at v.i_num) v);
      inode = update s.inode i (record v { i_dirt = false });
    }

write_step :
    (i : ℕ) (s : Fs)
    → (s.inode i).i_dirt ≡ true
    → (s.inode i).i_dev ≢ 0
    → s.can_read (inode_block s (s.inode i).i_num) ≡ true
    → write_inode i s ≡ some (tt, written i s)
unfolding write_inode
write_step i s dirty dev able = rw (dirty, ==_≢ (s.inode i).i_dev 0 dev, able) refl

abbrev words : Fs → ℕ → ℕ → ℕ
words s num k = s.word (inode_block s num) (inode_at num + k)

read_step :
    (j num : ℕ) (s : Fs)
    → (s.inode j).i_num ≡ num
    → s.can_read (inode_block s num) ≡ true
    → read_inode j s ≡ some (tt, set_inode j (from_words (words s num) (s.inode j)) s)
unfolding read_inode
read_step j num s e able =
    rw (ap (λ n. s.can_read (inode_block s n)) e ∙ able)
      (ap (λ n. some (tt, set_inode j (from_words (words s n) (s.inode j)) s)) e)

-- An inode that was changed and that is on the device is written to its block; an inode of the same
-- number that is then read has its mode, owner, group, size, time of change, links and zones, which
-- are the fields that the disk holds.
pub read_inode-write_inode :
    (i j : ℕ) (s : Fs)
    → i ≢ j
    → (s.inode j).i_num ≡ (s.inode i).i_num
    → (s.inode i).i_dirt ≡ true
    → (s.inode i).i_dev ≢ 0
    → (s.inode i).i_gid < 2 ^ 8
    → s.can_read (inode_block s (s.inode i).i_num) ≡ true
    → (t u : Fs) × (write_inode i s ≡ some (tt, t))
      × (read_inode j t ≡ some (tt, u))
      × SameOnDisk (s.inode i) (u.inode j)
read_inode-write_inode i j s ne num dirty dev fits able =
    let v = s.inode i in
    let t = written i s in
    let block = inode_block s v.i_num in
    let there = update_ne s.inode i j (record v { i_dirt = false }) (λ e. ne (sym e)) in
    let back = from_words (words t v.i_num) (t.inode j) in
    (
      t,
      set_inode j back t,
      write_step i s dirty dev able,
      read_step j v.i_num t (ap (λ w. w.i_num) there ∙ num) able,
      subst (SameOnDisk v) (sym (update_self t.inode j back)) (
          from_words-SameOnDisk v (t.inode j) (words t v.i_num) fits λ k h.
            ap (λ f. f (inode_at v.i_num + k))
              (update_self s.word block (copy_inode (s.word block) (inode_at v.i_num) v))
            ∙ copied (s.word block) (inode_at v.i_num) v k h),
    )
