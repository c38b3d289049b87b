-- ===== src/Fs/Map/Slots.antt =====
-- The two places that `_bmap` (fs/inode.c) keeps block numbers in: an inode, an indirect block.
use liha_linux.Base.{
  ◌<◌, ◌==◌, ==_iff, Bool, Bool-cases, Option, ap, false, if◌then◌else◌, inl, inr, none, not, refl,
  some, subst, sym, true, true_is_not_false, update, update_ne, update_self, ℕ, ◌∙◌, ◌≡◌, ◌≢◌, ◌⊎◌,
}
use liha_linux.Fs.{◌>>=◌, ◌>>◌, pure, F, Fs, Inode, and_then, new_block, zone_bit}
use liha_linux.Fs.Zones.{
  NewBlock, full, beyond, busy, fresh, block_of, with_new, bit_of_block, new_block-NewBlock,
}
use liha_linux.Fs.Map.{put_new, put_zone, word_of, zone_of}

-- The block's bit in the map is set.
abbrev pub IsUsed : Fs → ℕ → Type 0
IsUsed s x = s.zmap.bit (zone_bit s x) ≡ true

-- The number of an inode behind a call that creates it, where it is not 0.
pub data Zoned (i k : ℕ) (s : Fs) : Option (ℕ × Fs) → Type 0 where
  no_zone : Zoned i k s none
  zero_zone : {z : ℕ} (t : Fs) → z ≡ 0 → Zoned i k s (some (z, t))
  old_zone : {z : ℕ} → z ≢ 0 → (s.inode i).i_zone k ≡ z → Zoned i k s (some (z, s))
  new_zone :
      {z : ℕ} {t : Fs}
      → z ≢ 0
      → 0 < t.s_firstdatazone
      → (t.inode i).i_zone k ≡ z
      → IsUsed t z
      → ((j : ℕ) → t.word z j ≡ 0)
      → Zoned i k s (some (z, t))

-- The number of an indirect block, likewise.
pub data Worded (z k : ℕ) (s : Fs) : Option (ℕ × Fs) → Type 0 where
  no_word : Worded z k s none
  zero_word : {y : ℕ} (t : Fs) → y ≡ 0 → Worded z k s (some (y, t))
  worded :
      {y : ℕ} {t : Fs}
      → y ≢ 0
      → t.word z k ≡ y
      → t.can_read ≡ s.can_read
      → s.can_read z ≡ true
      → t.inode ≡ s.inode
      → t.s_firstdatazone ≡ s.s_firstdatazone
      → ((x : ℕ) → IsUsed s x → IsUsed t x)
      → ((x j : ℕ) → IsUsed s x → (x ≡ z → j ≢ k) → t.word x j ≡ s.word x j)
      → (y ≡ s.word z k) ⊎ ((IsUsed s y) → ⊥)
      → Worded z k s (some (y, t))

set_stays : (bit : ℕ → Bool) (n m : ℕ) → bit m ≡ true → update bit n true m ≡ true
set_stays bit n m e = elim (Bool-cases (m == n)) [
  | inl f ↦ ap (λ t. if t then true else bit m) f
  | inr f ↦ ap (λ t. if t then true else bit m) f ∙ e
]

-- The block that is cleared was free.
other_word :
    (s : Fs) (n x j : ℕ)
    → 0 < s.s_firstdatazone
    → s.zmap.bit n ≡ false
    → IsUsed s x
    → (with_new n s).word x j ≡ s.word x j
other_word s n x j first clear used =
    ap (λ w. w j)
      (update_ne s.word (block_of s n) x (λ _. 0)
        λ e. true_is_not_false (
          sym used
          ∙ ap (λ b. s.zmap.bit (zone_bit s b)) e
          ∙ ap s.zmap.bit (bit_of_block s n first)
          ∙ clear))

not_zero_block : (b : ℕ) → (b == 0) ≡ false → b ≢ 0
not_zero_block b e = λ z. true_is_not_false (sym ((==_iff b 0).1 z) ∙ e)

module _ (s : Fs) (n : ℕ) (first : 0 < s.s_firstdatazone) where
  now_used : update s.zmap.bit n true (zone_bit s (block_of s n)) ≡ true
  now_used = ap (update s.zmap.bit n true) (bit_of_block s n first) ∙ update_self s.zmap.bit n true

  was_free : s.zmap.bit n ≡ false → IsUsed s (block_of s n) → ⊥
  was_free clear used =
      true_is_not_false (sym used ∙ ap s.zmap.bit (bit_of_block s n first) ∙ clear)

if_zone :
    (t : Bool) (v w : Inode) (k : ℕ)
    → w.i_zone k ≡ v.i_zone k
    → (if t then v else w).i_zone k ≡ v.i_zone k
if_zone true v w k e = refl
if_zone false v w k e = e

zone_there :
    (i k b : ℕ) (s : Fs) (t : Bool)
    → let v = s.inode i in
      let z = record v { i_zone = update v.i_zone k b } in
      let w = record z { i_ctime = s.current_time; i_dirt = true } in
      (update s.inode i (if t then z else w) i).i_zone k ≡ b
zone_there i k b s t =
    let v = s.inode i in
    let z = record v { i_zone = update v.i_zone k b } in
    let w = record z { i_ctime = s.current_time; i_dirt = true } in
    ap (λ u. u.i_zone k) (update_self s.inode i (if t then z else w))
    ∙ if_zone t z w k refl
    ∙ update_self v.i_zone k b

-- One number is written.
one_word :
    (w : ℕ → ℕ → ℕ) (z k b x j : ℕ) → (x ≡ z → j ≢ k) → update w z (update (w z) k b) x j ≡ w x j
one_word w z k b x j h = elim (Bool-cases (x == z)) [
  | inl e ↦
      let p = (==_iff x z).0 e in
      ap (λ y. update w z (update (w z) k b) y j) p
      ∙ ap (λ f. f j) (update_self w z (update (w z) k b))
      ∙ update_ne (w z) k j b (h p)
      ∙ ap (λ y. w y j) (sym p)
  | inr e ↦
      ap (λ f. f j)
        (update_ne w z x (update (w z) k b) (λ p. true_is_not_false (sym ((==_iff x z).1 p) ∙ e)))
]

zone_after :
    (i k : ℕ) (s : Fs) (o : Option (ℕ × Fs))
    → 0 < s.s_firstdatazone
    → NewBlock s o
    → Zoned i k s (and_then o λ b t. and_then (put_zone i k b t) λ _ u. some (b, u))
zone_after i k s o first full = zero_zone _ refl
zone_after i k s o first (beyond clear h) = zero_zone _ refl
zone_after i k s o first (busy clear h) = no_zone
zone_after i k s o first (fresh {n} there clear below free) =
    let b = block_of s n in
    elim (Bool-cases (b == 0)) [
      | inl e ↦ zero_zone _ ((==_iff b 0).0 e)
      | inr e ↦
          new_zone (not_zero_block b e) first (zone_there i k b (with_new n s) (b == 0))
            (now_used s n first) (λ j. ap (λ f. f j) (update_self s.word b (λ _. 0)))
    ]

put_none : (z k b : ℕ) (s : Fs) → (b == 0) ≡ true → put_new z k b s ≡ some (0, s)
unfolding put_new
put_none z k b s e = rw (e) refl

put_some :
    (z k b : ℕ) (s : Fs)
    → (b == 0) ≡ false
    → put_new z k b s ≡ some (b, record s { word = update s.word z (update (s.word z) k b) })
unfolding put_new
put_some z k b s e = rw (e) refl

word_after :
    (z k : ℕ) (s : Fs) (o : Option (ℕ × Fs))
    → 0 < s.s_firstdatazone
    → s.can_read z ≡ true
    → NewBlock s o
    → Worded z k s (and_then o (put_new z k))
unfolding put_new
word_after z k s o first able full = zero_word _ refl
word_after z k s o first able (beyond clear h) = zero_word _ refl
word_after z k s o first able (busy clear h) = no_word
word_after z k s o first able (fresh {n} there clear below free) =
    let b = block_of s n in
    let w = with_new n s in
    elim (Bool-cases (b == 0)) [
      | inl e ↦ subst (Worded z k s) (sym (put_none z k b w e)) (zero_word w refl)
      | inr e ↦ subst (Worded z k s) (sym (put_some z k b w e)) (
          worded (not_zero_block b e)
            (ap (λ f. f k) (update_self w.word z (update (w.word z) k b))
              ∙ update_self (w.word z) k b)
            refl able refl refl (λ x used. set_stays s.zmap.bit n (zone_bit s x) used)
            (λ x j used h. one_word w.word z k b x j h ∙ other_word s n x j first clear used)
            (inr (was_free s n first clear)))
    ]

pub if_run :
    (P : Option (ℕ × Fs) → Type 0) (b : Bool) (m n : F ℕ) (s : Fs)
    → (b ≡ true → P (m s))
    → (b ≡ false → P (n s))
    → P ((if b then m else n) s)
if_run P true m n s f g = f refl
if_run P false m n s f g = g refl

-- The calls themselves.
pub zone_of-Zoned : (i k : ℕ) (s : Fs) → 0 < s.s_firstdatazone → Zoned i k s (zone_of true i k s)
unfolding zone_of
zone_of-Zoned i k s first =
    let z = (s.inode i).i_zone k in
    if_run (Zoned i k s) (z == 0) (new_block >>= λ b. put_zone i k b >> pure b) (pure z) s
      (λ e. zone_after i k s (new_block s) first (new_block-NewBlock s))
      (λ e. old_zone (not_zero_block z e) refl)

pub word_of-Worded : (z k : ℕ) (s : Fs) → 0 < s.s_firstdatazone → Worded z k s (word_of true z k s)
unfolding word_of
word_of-Worded z k s first =
    let y = s.word z k in
    let create = if y == 0 then new_block >>= put_new z k else pure y in
    elim (Bool-cases (s.can_read z)) [
      | inl able ↦
          if_run (Worded z k s) (not (s.can_read z)) (pure 0) create s (λ e. zero_word s refl)
            λ e.
              if_run (Worded z k s) (y == 0) (new_block >>= put_new z k) (pure y) s
                (λ f. word_after z k s (new_block s) first able (new_block-NewBlock s))
                (λ f.
                  worded (not_zero_block y f) refl refl able refl refl (λ x used. used)
                    (λ x j used h. refl) (inl refl))
      | inr able ↦
          if_run (Worded z k s) (not (s.can_read z)) (pure 0) create s (λ e. zero_word s refl)
            (λ e. true_is_not_false (sym (ap not able) ∙ e))
    ]

-- The calls that only read.
pub zone_read : (i k z : ℕ) (s : Fs) → (s.inode i).i_zone k ≡ z → zone_of false i k s ≡ some (z, s)
unfolding zone_of
zone_read i k z s e = ap (λ z. some (z, s)) e

pub word_read :
    (z k y : ℕ) (s : Fs) → s.can_read z ≡ true → s.word z k ≡ y → word_of false z k s ≡ some (y, s)
unfolding word_of
word_read z k y s able e = rw (able) (ap (λ y. some (y, s)) e)
