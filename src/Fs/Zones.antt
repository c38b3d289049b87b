-- ===== src/Fs/Zones.antt =====
-- `new_block` and `free_block` of fs/bitmap.c.
use liha_linux.Base.{
  ◌+◌, ◌-◌, ◌/◌, ◌<◌, ◌==◌, ==_iff, Bool, Bool-cases, Option, ap, arith, false, if◌then◌else◌, inl,
  inr, leb, leb→le, ltb, none, refl, some, suc, sym, true, true_is_not_false, update, update_self,
  zero, ◌||◌, ℕ, ◌∙◌, ◌≡◌, ◌≢◌, ◌≤◌,
}
use liha_linux.Fs.{Fs, first_clear, free_block, new_block, take_zone, write_bit, zone_bit}
use liha_linux.Fs.Bits.{Clear, clear_bit, first_clear-Clear}

-- The block of a bit of the map.
abbrev pub block_of : Fs → ℕ → ℕ
block_of s n = n + s.s_firstdatazone - 1

abbrev pub with_new : ℕ → Fs → Fs
with_new n s = record (take_zone n s) { word = update s.word (block_of s n) (λ _. 0) }

-- The ways to end: the maps are full; the clear bit is behind the last zone; a block that is in
-- use is handed out, the panic; a block of the data zone that was free.
pub data NewBlock (s : Fs) : Option (ℕ × Fs) → Type 0 where
  full : NewBlock s (some (0, s))
  beyond :
      {n : ℕ}
      → s.zmap.bit n ≡ false
      → s.s_nzones ≤ block_of s n
      → NewBlock s (some (0, take_zone n s))
  busy : {n : ℕ} → s.zmap.bit n ≡ false → s.users (block_of s n) ≢ 0 → NewBlock s none
  fresh :
      {n : ℕ}
      → s.zmap.has (n / 8192) ≡ true
      → s.zmap.bit n ≡ false
      → block_of s n < s.s_nzones
      → s.users (block_of s n) ≡ 0
      → NewBlock s (some (block_of s n, with_new n s))

not_leb : {a b : ℕ} → leb a b ≡ false → b < a
not_leb h = ground arith

above : (s : Fs) (n : ℕ) → 0 < n → s.s_firstdatazone ≤ block_of s n
above s n h = omega arith

pub bit_of_block : (s : Fs) (n : ℕ) → 0 < s.s_firstdatazone → zone_bit s (block_of s n) ≡ n
bit_of_block s n h = omega arith

not_root : (bit : ℕ → Bool) (n : ℕ) → bit 0 ≡ true → bit n ≡ false → 0 < n
not_root bit zero root clear = true_is_not_false (sym root ∙ clear)
not_root bit (suc n) root clear = omega arith

or_both : {a b c : ℕ} → a ≤ b → b < c → (ltb b a || leb c b) ≡ false
or_both h g = ground arith

put_back :
    (bit : ℕ → Bool) (n : ℕ)
    → bit n ≡ false
    → (m : ℕ) → update (update bit n true) n false m ≡ bit m
put_back bit n e m = elim (Bool-cases (m == n)) [
  | inl f ↦
      ap (λ t. if t then false else if t then true else bit m) f
      ∙ sym (ap bit ((==_iff m n).0 f) ∙ e)
  | inr f ↦ ap (λ t. if t then false else if t then true else bit m) f
]

if-NewBlock :
    {s : Fs} (b : Bool) {o p : Option (ℕ × Fs)}
    → (b ≡ true → NewBlock s o)
    → (b ≡ false → NewBlock s p)
    → NewBlock s (if b then o else p)
if-NewBlock true f g = f refl
if-NewBlock false f g = g refl

after_search :
    (s : Fs) (o : Option ℕ)
    → Clear s.zmap o
    → NewBlock s (elim o as (λ _. Option (ℕ × Fs)) [
      | none ↦ some (0, s)
      | some n ↦
          if leb s.s_nzones (block_of s n)
          then some (0, take_zone n s)
          else if s.users (block_of s n) == 0
          then some (block_of s n, with_new n s)
          else none
    ])
after_search s none c = full
after_search s (some n) (clear_bit there clear) =
    if-NewBlock (leb s.s_nzones (block_of s n))
      (λ e. beyond clear (leb→le s.s_nzones (block_of s n) e))
      λ e.
        if-NewBlock (s.users (block_of s n) == 0)
          (λ f. fresh there clear (not_leb e) ((==_iff (s.users (block_of s n)) 0).0 f))
          (λ f.
            busy clear (λ z. true_is_not_false (sym ((==_iff (s.users (block_of s n)) 0).1 z) ∙ f)))

pub new_block-NewBlock : (s : Fs) → NewBlock s (new_block s)
unfolding new_block
new_block-NewBlock s = after_search s (first_clear 8 0 s.zmap) (first_clear-Clear 8 0 s.zmap)

-- What a free makes of the state behind a call of `new_block`.
pub data Undone (s : Fs) : Option (ℕ × Fs) → Type 0 where
  no_zone : Undone s (some (0, s))
  lost : (n : ℕ) → s.s_nzones ≤ block_of s n → Undone s (some (0, take_zone n s))
  panicked : (n : ℕ) → s.users (block_of s n) ≢ 0 → Undone s none
  undone :
      {b : ℕ} {t u : Fs}
      → s.s_firstdatazone ≤ b
      → b < s.s_nzones
      → s.zmap.bit (zone_bit s b) ≡ false
      → free_block b t ≡ some (tt, u)
      → ((m : ℕ) → u.zmap.bit m ≡ s.zmap.bit m)
      → Undone s (some (b, t))

free_fresh :
    (s : Fs) (n : ℕ)
    → 0 < s.s_firstdatazone
    → 0 < n
    → s.zmap.has (n / 8192) ≡ true
    → block_of s n < s.s_nzones
    → s.users (block_of s n) ≡ 0
    → free_block (block_of s n) (with_new n s)
      ≡ some (tt, record (with_new n s) { zmap = write_bit n false (with_new n s).zmap })
unfolding free_block
free_fresh s n first behind there below free =
    let b = block_of s n in
    let t = with_new n s in
    let in_zone = or_both (above s n behind) below in
    let e = bit_of_block s n first in
    let set = ap (update s.zmap.bit n true) e ∙ update_self s.zmap.bit n true in
    let has = ap (λ k. s.zmap.has (k / 8192)) e ∙ there in
    rw (in_zone, (==_iff (s.users b) 0).1 free, has, set)
      (ap (λ k. some (tt, record t { zmap = write_bit k false t.zmap })) e)

undo :
    (s : Fs) (o : Option (ℕ × Fs))
    → 0 < s.s_firstdatazone
    → s.zmap.bit 0 ≡ true
    → NewBlock s o
    → Undone s o
undo s o first root full = no_zone
undo s o first root (beyond {n} clear h) = lost n h
undo s o first root (busy {n} clear h) = panicked n h
undo s o first root (fresh {n} there clear below free) =
    undone (above s n (not_root s.zmap.bit n root clear)) below
      (ap s.zmap.bit (bit_of_block s n first) ∙ clear)
      (free_fresh s n first (not_root s.zmap.bit n root clear) there below free)
      (put_back s.zmap.bit n clear)

-- Bit 0 of the map is set, as `read_super` leaves it. A block that `new_block` gives lies in the data zone and was free; freed again, it leaves the
-- map as it was before. Without a block, nothing changes but for a bit behind the last zone.
pub free_block-new_block :
    (s : Fs) → 0 < s.s_firstdatazone → s.zmap.bit 0 ≡ true → Undone s (new_block s)
free_block-new_block s first root = undo s (new_block s) first root (new_block-NewBlock s)
