-- ===== src/Mm/Pages.antt =====
-- `get_free_page` and `free_page` of mm/memory.c.
use liha_linux.Base.{
  ◌%◌, ◌+◌, ◌-◌, ◌<◌, ◌==◌, Bool-cases, Option, ◌^◌, arith, false, inl, inr, leb, ltb, none, refl,
  some, subst, suc, update, update_ne, update_self, zero, ℕ, ◌≡◌, ◌≢◌, ◌≤◌, ◌⊎◌,
}
use liha_linux.Mm.{
  panic, clear_page, map_nr, page_of, low_mem, free_page, get_free_page, paging_pages, take_page,
  Mm, Run, ok, scan,
}

-- What a scan finds is the last byte that is 0.
scan-some :
    (m : ℕ → ℕ) (n : ℕ) {i : ℕ}
    → scan m n ≡ some i
    → (i < n) × (m i ≡ 0) × ((j : ℕ) → i < j → j < n → m j ≢ 0)
unfolding scan
scan-some m zero e = cc
scan-some m (suc n) {i} e = elim (Bool-cases (m n == 0)) [
  | inl free ↦
      let here : n ≡ i = ground arith in (omega arith, ground arith, λ j p q. absurd (omega arith))
  | inr busy ↦
      let below : scan m n ≡ some i = rw busy at e in
      let (p, z, above) = scan-some m n below in
      (omega arith, z, λ j lo hi. later p z above j lo hi busy)
]
  where
    later :
        i < n
        → m i ≡ 0
        → ((j : ℕ) → i < j → j < n → m j ≢ 0)
        → (j : ℕ) → i < j
        → j < suc n
        → (m n == 0) ≡ false
        → m j ≢ 0
    later p z above j lo hi busy = ground (arith, above j)

scan-none : (m : ℕ → ℕ) (n : ℕ) → scan m n ≡ none → (j : ℕ) → j < n → m j ≢ 0
unfolding scan
scan-none m zero e j h = absurd (omega arith)
scan-none m (suc n) e j h = elim (Bool-cases (m n == 0)) [
  | inl free ↦ let found : some n ≡ none = rw free at e in cc found
  | inr busy ↦ elim (Bool-cases (j == n)) [
    | inl same ↦ ground arith
    | inr other ↦ scan-none m n (rw busy at e) j (ground arith)
  ]
]

-- Page `i`, which was free, has been taken: its count is 1, its words are 0, and the rest is as
-- it was.
pub record Taken (s t : Mm) (i : ℕ) : Type 0 where
  pub in_range : i < paging_pages
  pub free : s.mem_map i ≡ 0
  pub last : (j : ℕ) → i < j → j < paging_pages → s.mem_map j ≢ 0
  pub count : t.mem_map i ≡ 1
  pub counts : (j : ℕ) → j ≢ i → t.mem_map j ≡ s.mem_map j
  pub zeroed : (k : ℕ) → k < 4096 → t.word (page_of i + k) ≡ 0
  pub kept : (a : ℕ) → (a < page_of i) ⊎ (page_of i + 4096 ≤ a) → t.word a ≡ s.word a
  pub limit : t.high_memory ≡ s.high_memory

-- The state after `take_page`.
abbrev pub taken : ℕ → Mm → Mm
taken i s = record s { mem_map = update s.mem_map i 1; word = clear_page s.word (page_of i) }

taken-Taken :
    (s : Mm) (i : ℕ)
    → i < paging_pages
    → s.mem_map i ≡ 0
    → ((j : ℕ) → i < j → j < paging_pages → s.mem_map j ≢ 0)
    → Taken s (taken i s) i
taken-Taken s i p z above = record {
  in_range = p;
  free = z;
  last = above;
  count = update_self s.mem_map i 1;
  counts = λ j ne. update_ne s.mem_map i j 1 ne;
  zeroed = λ k h. ground arith;
  kept = λ a h. ground arith;
  limit = refl;
}

-- `get_free_page` returns 0 and changes nothing exactly when every page is in use; else it takes
-- the last free page, gives it the count 1, clears its words, leaves all other counts and words
-- alone, and returns its address.
pub get_free_page_lem :
    (s : Mm)
    → ((get_free_page s ≡ ok 0 s) × ((j : ℕ) → j < paging_pages → s.mem_map j ≢ 0))
      ⊎ ((i : ℕ) × (get_free_page s ≡ ok (page_of i) (taken i s)) × Taken s (taken i s) i)
unfolding get_free_page
get_free_page_lem s = go (scan s.mem_map paging_pages) refl
  where
    go :
        (o : Option ℕ)
        → scan s.mem_map paging_pages ≡ o
        → (((elim o as (λ _. Run ℕ) [ none ↦ ok 0 s | some i ↦ take_page i s ]) ≡ ok 0 s)
            × ((j : ℕ) → j < paging_pages → s.mem_map j ≢ 0))
          ⊎ ((i : ℕ) × ((elim o as (λ _. Run ℕ) [ none ↦ ok 0 s | some i ↦ take_page i s ])
                ≡ ok (page_of i) (taken i s))
              × Taken s (taken i s) i)
    go none e = inl (refl, scan-none s.mem_map paging_pages e)
    go (some i) e =
        let (p, z, above) = scan-some s.mem_map paging_pages e in
        inr (i, refl, taken-Taken s i p z above)

lowered : (n : ℕ) → 0 < n → n < 256 → (n + 2 ^ 8 - 1) % 2 ^ 8 ≡ n - 1
lowered n p h = omega arith

free_ok :
    (addr : ℕ) (s : Mm)
    → low_mem ≤ addr
    → addr < s.high_memory
    → 0 < s.mem_map (map_nr addr)
    → s.mem_map (map_nr addr) < 256
    → free_page addr s
      ≡ ok tt (record s { mem_map = update s.mem_map (map_nr addr) (s.mem_map (map_nr addr) - 1) })
unfolding free_page
free_ok addr s p q r byte =
    let low : ltb addr low_mem ≡ false = ground arith in
    let high : leb s.high_memory addr ≡ false = ground arith in
    let some_left : (s.mem_map (map_nr addr) == 0) ≡ false = ground arith in
    rw (low, high, some_left, lowered (s.mem_map (map_nr addr)) r byte)

-- The branches of `free_page`.
pub free_page_lem :
    (addr : ℕ) (s : Mm)
    → s.mem_map (map_nr addr) < 256
    → (addr < low_mem → free_page addr s ≡ ok tt s)
      × (low_mem ≤ addr → s.high_memory ≤ addr → free_page addr s ≡ panic)
      × (low_mem ≤ addr → s.mem_map (map_nr addr) ≡ 0 → free_page addr s ≡ panic)
      × (low_mem ≤ addr
          → addr < s.high_memory
          → 0 < s.mem_map (map_nr addr)
          → free_page addr s
            ≡ ok tt (record s {
              mem_map = update s.mem_map (map_nr addr) (s.mem_map (map_nr addr) - 1);
            }))
unfolding free_page
free_page_lem addr s byte = (
  λ p. ground arith,
  λ p q. ground arith,
  λ p z. ground arith,
  λ p q r. free_ok addr s p q r (omega arith),
)

abbrev Restored : Mm → ℕ → Mm → Type 0
Restored s page t = (u : Mm) × (free_page page t ≡ ok tt u) × ((j : ℕ) → u.mem_map j ≡ s.mem_map j)

again :
    (s : Mm) (i : ℕ)
    → s.mem_map i ≡ 0
    → page_of i < s.high_memory
    → Restored s (page_of i) (taken i s)
again s i free below =
    let here : map_nr (page_of i) ≡ i = omega arith in
    let one : (taken i s).mem_map (map_nr (page_of i)) ≡ 1 = rw here (update_self s.mem_map i 1) in
    (
      _,
      free_ok (page_of i) (taken i s) (omega arith) below (omega (arith, one)) (omega (arith, one)),
      λ j. ground (arith, here, one),
    )

-- A page below HIGH_MEMORY that `get_free_page` gives is one that `free_page` takes back without a
-- panic, and then the count of every page is as it was before.
pub free_page-get_free_page :
    (s : Mm) {page : ℕ} {t : Mm}
    → get_free_page s ≡ ok page t
    → page ≢ 0
    → page < s.high_memory
    → (u : Mm) × (free_page page t ≡ ok tt u) × ((j : ℕ) → u.mem_map j ≡ s.mem_map j)
free_page-get_free_page s {page} {t} e ne below = elim (get_free_page_lem s) [
  | inl (full, _) ↦ let h : page ≡ 0 = cc in absurd (ne h)
  | inr (i, got, k) ↦
      let p : page_of i ≡ page = cc in
      let q : taken i s ≡ t = cc in
      subst (λ x. Restored s x t) p
        (subst (λ x. Restored s (page_of i) x) q
          (again s i k.free (let h : page < s.high_memory = below in omega (arith, p))))
]
