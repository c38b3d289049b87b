-- ===== src/Fs/Map/Found.antt =====
-- What `create_block` (fs/inode.c) gives, `bmap` finds.
use liha_linux.Base.{
  ◌%◌, ◌*◌, ◌-◌, ◌/◌, ◌<◌, ◌==◌, ==_iff, Bool, Option, ◌^◌, ap, false, if◌then◌else◌, inl, inr, ltb,
  none, refl, some, subst, sym, true, true_is_not_false, ℕ, ◌∙◌, ◌≡◌, ◌≢◌, ◌⊎◌,
}
use liha_linux.Fs.{◌>>=◌, panic, F, Fs, and_then, pure}
use liha_linux.Fs.Map.{find_block, bmap, create_block, word_of, zone_of}
use liha_linux.Fs.Map.Slots.{
  zone_of-Zoned, IsUsed, Worded, Zoned, no_zone, zero_zone, old_zone, new_zone, no_word, zero_word,
  worded, if_run, word_of-Worded, word_read, zone_read,
}

-- The rest of `_bmap` for one level of indirection and for two.
abbrev single : Bool → (k z : ℕ) → F ℕ
single create k z = if z == 0 then pure 0 else word_of create z k

abbrev double : Bool → (k j z : ℕ) → F ℕ
double create k j z = if z == 0 then pure 0 else (word_of create z k >>= single create j)

-- A panic, no block, or a block that a read of the state behind the call gives.
pub data Found (read : F ℕ) : Option (ℕ × Fs) → Type 0 where
  panicked : Found read none
  no_block : {b : ℕ} (t : Fs) → b ≡ 0 → Found read (some (b, t))
  found : {b : ℕ} {t : Fs} → read t ≡ some (b, t) → Found read (some (b, t))

zone_kept : (i k : ℕ) (s : Fs) (o : Option (ℕ × Fs)) → Zoned i k s o → Found (zone_of false i k) o
zone_kept i k s o no_zone = panicked
zone_kept i k s o (zero_zone t e) = no_block t e
zone_kept i k s o (old_zone {z} ne e) = found (zone_read i k z s e)
zone_kept i k s o (new_zone {z} {t} ne first e used zeros) = found (zone_read i k z t e)

single_read :
    (k z y : ℕ) (t : Fs)
    → z ≢ 0
    → t.can_read z ≡ true
    → t.word z k ≡ y
    → single false k z t ≡ some (y, t)
single_read k z y t ne able e =
    if_run (λ o. o ≡ some (y, t)) (z == 0) (pure 0) (word_of false z k) t
      (λ f. absurd (ne ((==_iff z 0).0 f))) (λ f. word_read z k y t able e)

-- One level: the zone `z` of the inode stays while the number in its block is made.
single_kept :
    (i m k z : ℕ) (s : Fs) (o : Option (ℕ × Fs))
    → z ≢ 0
    → (s.inode i).i_zone m ≡ z
    → Worded z k s o
    → Found (zone_of false i m >>= single false k) o
single_kept i m k z s o ne e no_word = panicked
single_kept i m k z s o ne e (zero_word t f) = no_block t f
single_kept i m k z s o ne e (worded {y} {t} yne there reads able same first grows others apart) =
    found (
      ap (λ p. and_then p (single false k)) (zone_read i m z t (ap (λ f. (f i).i_zone m) same ∙ e))
      ∙ single_read k z y t ne (ap (λ f. f z) reads ∙ able) there)

double_read :
    (k j z y x : ℕ) (v : Fs)
    → z ≢ 0
    → v.can_read z ≡ true
    → v.word z k ≡ y
    → single false j y v ≡ some (x, v)
    → double false k j z v ≡ some (x, v)
double_read k j z y x v ne able e rest =
    if_run (λ o. o ≡ some (x, v)) (z == 0) (pure 0) (word_of false z k >>= single false j) v
      (λ f. absurd (ne ((==_iff z 0).0 f)))
      (λ f. ap (λ p. and_then p (single false j)) (word_read z k y v able e) ∙ rest)

-- The indirect block is in use, and no entry of it is the block itself.
pub record Apart (s : Fs) (z k : ℕ) : Type 0 where
  pub used : IsUsed s z
  pub other : s.word z k ≢ z

-- Two levels: the number in the first block stays while the one in the second is made.
module _ (i m k j z : ℕ) (s t : Fs) where
  inner_kept :
      {y : ℕ}
      → z ≢ 0
      → y ≢ 0
      → (t.inode i).i_zone m ≡ z
      → t.word z k ≡ y
      → t.can_read z ≡ true
      → IsUsed t z
      → z ≢ y
      → (o : Option (ℕ × Fs)) → Worded y j t o
      → Found (zone_of false i m >>= double false k j) o
  inner_kept zne yne e there able used apart o no_word = panicked
  inner_kept zne yne e there able used apart o (zero_word v f) = no_block v f
  inner_kept {y} zne yne e there able used apart o
        (worded {y = x} {t = v} xne here reads able' same first grows others far) =
      found (
        ap (λ p. and_then p (double false k j))
          (zone_read i m z v (ap (λ f. (f i).i_zone m) same ∙ e))
        ∙ double_read k j z y x v zne (ap (λ f. f z) reads ∙ able)
            (others z k used (λ q. absurd (apart q)) ∙ there)
            (single_read j y x v yne (ap (λ f. f y) reads ∙ able') here))

not_itself : {s : Fs} {z k y : ℕ} → Apart s z k → (y ≡ s.word z k) ⊎ (IsUsed s y → ⊥) → z ≢ y
not_itself a (inl e) = λ q. a.other (sym e ∙ sym q)
not_itself {s} a (inr free) = λ q. free (subst (IsUsed s) q a.used)

double_kept :
    (i m k j z : ℕ) (s : Fs) (o : Option (ℕ × Fs))
    → z ≢ 0
    → 0 < s.s_firstdatazone
    → (s.inode i).i_zone m ≡ z
    → Apart s z k
    → Worded z k s o
    → Found (zone_of false i m >>= double false k j) (and_then o (single true j))
double_kept i m k j z s o ne first e a no_word = panicked
double_kept i m k j z s o ne first e a (zero_word {y} t f) =
    if_run (Found (zone_of false i m >>= double false k j)) (y == 0) (pure 0) (word_of true y j) t
      (λ _. no_block t refl) (λ g. true_is_not_false (sym ((==_iff y 0).1 f) ∙ g))
double_kept i m k j z s o ne first e a
      (worded {y} {t} yne there reads able same firsts grows others far) =
    if_run (Found (zone_of false i m >>= double false k j)) (y == 0) (pure 0) (word_of true y j) t
      (λ g. absurd (yne ((==_iff y 0).0 g)))
      (λ _.
        inner_kept i m k j z s t ne yne (ap (λ f. (f i).i_zone m) same ∙ e) there
          (ap (λ f. f z) reads ∙ able) (grows z a.used) (not_itself a far) (word_of true y j t)
          (word_of-Worded y j t (subst (λ n. 0 < n) (sym firsts) first)))

-- The inode's second-level block is in use, and no entry of it is the block itself.
pub IsSound : Fs → ℕ → Type 0
IsSound s i = (k : ℕ) → (s.inode i).i_zone 8 ≢ 0 → Apart s ((s.inode i).i_zone 8) k

one_level :
    (i k : ℕ) (s : Fs) (o : Option (ℕ × Fs))
    → 0 < s.s_firstdatazone
    → Zoned i 7 s o
    → Found (zone_of false i 7 >>= single false k) (and_then o (single true k))
one_level i k s o first no_zone = panicked
one_level i k s o first (zero_zone {z} t e) =
    if_run (Found (zone_of false i 7 >>= single false k)) (z == 0) (pure 0) (word_of true z k) t
      (λ _. no_block t refl) (λ g. true_is_not_false (sym ((==_iff z 0).1 e) ∙ g))
one_level i k s o first (old_zone {z} ne e) =
    if_run (Found (zone_of false i 7 >>= single false k)) (z == 0) (pure 0) (word_of true z k) s
      (λ g. absurd (ne ((==_iff z 0).0 g)))
      (λ _. single_kept i 7 k z s (word_of true z k s) ne e (word_of-Worded z k s first))
one_level i k s o first (new_zone {z} {t} ne first' e used zeros) =
    if_run (Found (zone_of false i 7 >>= single false k)) (z == 0) (pure 0) (word_of true z k) t
      (λ g. absurd (ne ((==_iff z 0).0 g)))
      (λ _. single_kept i 7 k z t (word_of true z k t) ne e (word_of-Worded z k t first'))

two_levels :
    (i k j : ℕ) (s : Fs) (o : Option (ℕ × Fs))
    → 0 < s.s_firstdatazone
    → IsSound s i
    → Zoned i 8 s o
    → Found (zone_of false i 8 >>= double false k j) (and_then o (double true k j))
unfolding IsSound
two_levels i k j s o first sound no_zone = panicked
two_levels i k j s o first sound (zero_zone {z} t e) =
    if_run (Found (zone_of false i 8 >>= double false k j)) (z == 0) (pure 0)
      (word_of true z k >>= single true j) t (λ _. no_block t refl)
      (λ g. true_is_not_false (sym ((==_iff z 0).1 e) ∙ g))
two_levels i k j s o first sound (old_zone {z} ne e) =
    if_run (Found (zone_of false i 8 >>= double false k j)) (z == 0) (pure 0)
      (word_of true z k >>= single true j) s (λ g. absurd (ne ((==_iff z 0).0 g)))
      (λ _.
        double_kept i 8 k j z s (word_of true z k s) ne first e
          (subst (λ z. Apart s z k) e (sound k (λ f. ne (sym e ∙ f)))) (word_of-Worded z k s first))
two_levels i k j s o first sound (new_zone {z} {t} ne first' e used zeros) =
    if_run (Found (zone_of false i 8 >>= double false k j)) (z == 0) (pure 0)
      (word_of true z k >>= single true j) t (λ g. absurd (ne ((==_iff z 0).0 g)))
      (λ _.
        double_kept i 8 k j z t (word_of true z k t) ne first' e
          (record { used = used; other = λ f. ne (sym f ∙ zeros k) }) (word_of-Worded z k t first'))

if-Found :
    (b : Bool) (m n : F ℕ) (m' n' : F ℕ) (s : Fs)
    → Found m (m' s)
    → Found n (n' s)
    → Found (if b then m else n) ((if b then m' else n') s)
if-Found true m n m' n' s f g = f
if-Found false m n m' n' s f g = g

-- The block that `create_block` gives for a block of a file is the one that `bmap` then finds for
-- it, on every level of indirection; the inode's second-level block is in use before, if there is
-- one, and none of its entries is the block itself.
pub bmap-create_block :
    (i block : ℕ) (s : Fs)
    → 0 < s.s_firstdatazone
    → IsSound s i
    → Found (bmap i block) (create_block i block s)
unfolding find_block
bmap-create_block i block s first sound =
    let far = block - 7 - 512 in
    let one = λ (c : Bool). zone_of c i 7 >>= single c (block - 7) in
    let two = λ (c : Bool). zone_of c i 8 >>= double c (far / 2 ^ 9) (far % 2 ^ 9) in
    let high = λ (c : Bool). if ltb far (512 * 512) then two c else panic in
    if-Found (ltb block 7) (zone_of false i block)
      (if ltb (block - 7) 512 then one false else high false) (zone_of true i block)
      (if ltb (block - 7) 512 then one true else high true) s
      (zone_kept i block s (zone_of true i block s) (zone_of-Zoned i block s first))
      (if-Found (ltb (block - 7) 512) (one false) (high false) (one true) (high true) s
        (one_level i (block - 7) s (zone_of true i 7 s) first (zone_of-Zoned i 7 s first))
        (if-Found (ltb far (512 * 512)) (two false) panic (two true) panic s
          (two_levels i (far / 2 ^ 9) (far % 2 ^ 9) s (zone_of true i 8 s) first sound
            (zone_of-Zoned i 8 s first))
          panicked))

pub sound :
    (s : Fs) (i : ℕ)
    → ((k : ℕ) → (s.inode i).i_zone 8 ≢ 0 → Apart s ((s.inode i).i_zone 8) k)
    → IsSound s i
unfolding IsSound
sound s i h = h
