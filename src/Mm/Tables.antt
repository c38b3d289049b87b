-- ===== src/Mm/Tables.antt =====
-- The loops of `free_page_tables` and `copy_page_tables` (mm/memory.c) over one page table.
pub mod Free
pub mod Copy
pub mod Fork
use liha_linux.Base.{
  ◌&&◌, ◌*◌, ◌+◌, ◌<◌, ◌==◌, arith, if◌then◌else◌, leb, refl, subst, suc, zero, ℕ, ◌≡◌, ◌≤◌, ◌⊎◌,
}
use liha_linux.Mm.{low_mem, map_nr}
use liha_linux.Mm.Words.{present, read_only}

-- Whether the entry `e` refers to page `i` of the map.
abbrev pub refers : ℕ → ℕ → ℕ
refers e i = if present e && (leb low_mem e && (map_nr e == i)) then 1 else 0

-- How many of the `n` entries at `t` refer to page `i`.
unfoldable pub refs : (ℕ → ℕ) → ℕ → ℕ → ℕ → ℕ
refs word t zero i = 0
refs word t (suc n) i = refers (word t) i + refs word (t + 4) n i

-- The address `a` is none of the `n` entries at `t`.
abbrev pub Outside : ℕ → ℕ → ℕ → Type 0
Outside t n a = (a < t) ⊎ (t + 4 * n ≤ a)

-- What holds at the first entry and at the others holds at all.
pub each_entry :
    (P : ℕ → Type 0) (t n : ℕ)
    → P t
    → ((k : ℕ) → k < n → P (t + 4 + 4 * k))
    → (k : ℕ) → k < suc n
    → P (t + 4 * k)
each_entry P t n first others zero h = subst P (let e : t ≡ t + 4 * 0 = omega arith in e) first
each_entry P t n first others (suc k) h =
    subst P (let e : t + 4 + 4 * k ≡ t + 4 * suc k = omega arith in e) (others k (omega arith))

-- The other way round.
pub first_entry : (P : ℕ → Type 0) (t n : ℕ) → ((k : ℕ) → k < suc n → P (t + 4 * k)) → P t
first_entry P t n all = subst P (let e : t + 4 * 0 ≡ t = omega arith in e) (all 0 (omega arith))

pub other_entries :
    (P : ℕ → Type 0) (t n : ℕ)
    → ((k : ℕ) → k < suc n → P (t + 4 * k))
    → (k : ℕ) → k < n
    → P (t + 4 + 4 * k)
other_entries P t n all k h =
    subst P (let e : t + 4 * suc k ≡ t + 4 + 4 * k = omega arith in e) (all (suc k) (omega arith))

pub refs_same :
    (v w : ℕ → ℕ) (t u n i : ℕ)
    → ((k : ℕ) → k < n → refers (v (t + 4 * k)) i ≡ refers (w (u + 4 * k)) i)
    → refs v t n i ≡ refs w u n i
unfolding refs
refs_same v w t u zero i same = refl
refs_same v w t u (suc n) i same =
    let zero_t : t + 4 * 0 ≡ t = omega arith in
    let zero_u : u + 4 * 0 ≡ u = omega arith in
    let first : refers (v t) i ≡ refers (w u) i =
      subst (λ a. refers (v a) i ≡ refers (w u) i) zero_t
        (subst (λ b. refers (v (t + 4 * 0)) i ≡ refers (w b) i) zero_u (same 0 (omega arith))) in
    omega (arith, first, refs_same v w (t + 4) (u + 4) n i (λ k h. later k h))
  where
    later : (k : ℕ) → k < n → refers (v (t + 4 + 4 * k)) i ≡ refers (w (u + 4 + 4 * k)) i
    later k h =
        let p : t + 4 * suc k ≡ t + 4 + 4 * k = omega arith in
        let q : u + 4 * suc k ≡ u + 4 + 4 * k = omega arith in
        subst (λ a. refers (v a) i ≡ refers (w (u + 4 + 4 * k)) i) p
          (subst (λ b. refers (v (t + 4 * suc k)) i ≡ refers (w b) i) q
            (same (suc k) (omega arith)))

pub refers-read_only : (e i : ℕ) → refers (read_only e) i ≡ refers e i
refers-read_only e i = ground arith
