-- ===== src/Fs/Map/Reads.antt =====
-- `bmap` (fs/inode.c) changes nothing.
use liha_linux.Base.{
  ◌%◌, ◌*◌, ◌-◌, ◌/◌, ◌==◌, Option, ◌^◌, false, if◌then◌else◌, ltb, none, not, some, ℕ,
}
use liha_linux.Fs.{and_then, F, Fs, pure}
use liha_linux.Fs.Map.{bmap, find_block, word_of, zone_of}
use liha_linux.Fs.Map.Slots.{if_run}

-- A panic, or a result in the same state.
pub data Same (s : Fs) : Option (ℕ × Fs) → Type 0 where
  nothing : Same s none
  same : {b : ℕ} → Same s (some (b, s))

word_of-Same : (z k : ℕ) (s : Fs) → Same s (word_of false z k s)
unfolding word_of
word_of-Same z k s =
    if_run (Same s) (not (s.can_read z)) (pure 0) (pure (s.word z k)) s (λ _. same) (λ _. same)

level-Same : (z k : ℕ) (s : Fs) → Same s ((if z == 0 then pure 0 else word_of false z k) s)
level-Same z k s = if_run (Same s) (z == 0) _ _ s (λ _. same) (λ _. word_of-Same z k s)

then-Same :
    (s : Fs) (o : Option (ℕ × Fs))
    → Same s o
    → (k : ℕ → F ℕ) → ((b : ℕ) → Same s (k b s))
    → Same s (and_then o k)
then-Same s o nothing k h = nothing
then-Same s o (same {b}) k h = h b

pub bmap-Same : (i block : ℕ) (s : Fs) → Same s (bmap i block s)
unfolding find_block zone_of
bmap-Same i block s =
    let far = block - 7 - 512 in
    if_run (Same s) (ltb block 7) _ _ s (λ _. same)
      λ _.
        if_run (Same s) (ltb (block - 7) 512) _ _ s
          (λ _. level-Same ((s.inode i).i_zone 7) (block - 7) s)
          λ _.
            if_run (Same s) (ltb far (512 * 512)) _ _ s
              (λ _.
                if_run (Same s) ((s.inode i).i_zone 8 == 0) _ _ s (λ _. same)
                  λ _.
                    then-Same s (word_of false ((s.inode i).i_zone 8) (far / 2 ^ 9) s)
                      (word_of-Same ((s.inode i).i_zone 8) (far / 2 ^ 9) s)
                      (λ y. if y == 0 then pure 0 else word_of false y (far % 2 ^ 9))
                      (λ y. level-Same y (far % 2 ^ 9) s))
              (λ _. nothing)
