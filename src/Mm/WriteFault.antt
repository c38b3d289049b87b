-- ===== src/Mm/WriteFault.antt =====
-- `un_wp_page` of mm/memory.c: what a write to a page without the write bit leads to.
use liha_linux.Base.{
  ◌%◌, ◌&&◌, ◌+◌, ◌-◌, ◌<◌, ◌==◌, ==_pos, Bool, Bool-cases, ◌^◌, ap, arith, false, if◌then◌else◌,
  inl, inr, leb, leb→le, ltb, refl, subst, sym, true, update, update_ne, update_self, ℕ, ◌∙◌, ◌≡◌,
  ◌≢◌, ◌≤◌, ◌⊎◌,
}
use liha_linux.Mm.{
  paging_pages, unshare, low_mem, map_nr, get_free_page, page_of, copy_page, Mm, ok, killed,
  un_wp_page,
}
use liha_linux.Mm.Words.{or_two, or_seven, frame}
use liha_linux.Mm.Pages.{get_free_page_lem, Taken, taken}

-- The address lies in the kernel's memory or in a page in use.
abbrev pub IsInUse : Mm → ℕ → Type 0
IsInUse s a =
    (a < low_mem) ⊎ ((low_mem ≤ a) × (s.mem_map (map_nr a) ≢ 0) × (s.mem_map (map_nr a) < 256))

-- The entry at `te` has got page `i` of its own, with the contents that it had before.
pub record Unshared (s t : Mm) (te i : ℕ) : Type 0 where
  pub entry : t.word te ≡ or_seven (page_of i)
  pub contents : (k : ℕ) → k < 4096 → t.word (page_of i + k) ≡ s.word (frame (s.word te) + k)
  pub kept : (a : ℕ) → a ≢ te → (a < page_of i) ⊎ (page_of i + 4096 ≤ a) → t.word a ≡ s.word a
  pub own : t.mem_map i ≡ 1
  pub others :
      (j : ℕ)
      → j ≢ i
      → t.mem_map j
        ≡ s.mem_map j
          - (if leb low_mem (frame (s.word te)) && (j == map_nr (frame (s.word te))) then 1 else 0)

not_in_page :
    (s : Mm) (a i : ℕ) → IsInUse s a → s.mem_map i ≡ 0 → (a < page_of i) ⊎ (page_of i + 4096 ≤ a)
not_in_page s a i (inl h) free = inl (omega arith)
not_in_page s a i (inr h) free =
    let ne : map_nr a ≢ i = λ e. h.1 (ap s.mem_map e ∙ free) in omega (arith, ne)

abbrev IsCount : ℕ → Type 0
IsCount n = (0 < n) × (n < 256)

lowered_by_one : {m n : ℕ} → m ≡ n → IsCount n → (m + 2 ^ 8 - 1) % 2 ^ 8 ≡ n - 1
lowered_by_one e h = omega arith

copy_outside :
    (w : ℕ → ℕ) (from to a : ℕ) → (a < to) ⊎ (to + 4096 ≤ a) → copy_page w from to a ≡ w a
copy_outside w from to a h = ground arith

copy_inside : (w : ℕ → ℕ) (from to k : ℕ) → k < 4096 → copy_page w from to (to + k) ≡ w (from + k)
copy_inside w from to k h =
    let into : (leb to (to + k) && ltb (to + k) (to + 4096)) ≡ true = ground arith in
    let back : to + k - to ≡ k = omega arith in rw (into, back)

is_exclusive : Mm → ℕ → Bool
is_exclusive s te = leb low_mem (frame (s.word te)) && (s.mem_map (map_nr (frame (s.word te))) == 1)

module _ (s : Mm) (te : ℕ) where
  abbrev old : ℕ
  old = frame (s.word te)

  abbrev counts_after : ℕ → ℕ → ℕ
  counts_after i =
      if leb low_mem old
      then update (taken i s).mem_map (map_nr old)
          (((taken i s).mem_map (map_nr old) + 2 ^ 8 - 1) % 2 ^ 8)
      else (taken i s).mem_map

  abbrev result : ℕ → Mm
  result i = record s {
    mem_map = counts_after i;
    word = copy_page (update (taken i s).word te (or_seven (page_of i))) old (page_of i);
  }

  run_unshare :
      (i : ℕ)
      → is_exclusive s te ≡ false
      → get_free_page s ≡ ok (page_of i) (taken i s)
      → un_wp_page te s ≡ ok tt (result i)
  unfolding is_exclusive un_wp_page unshare
  run_unshare i shared e =
      let got : (page_of i == 0) ≡ false = ==_pos (page_of i) (omega arith) in
      elim (Bool-cases (leb low_mem old)) [
        | inl high ↦
            let many : (s.mem_map (map_nr old) == 1) ≡ false = rw high at shared in
            rw (high, many, e, got) refl
        | inr low ↦ rw (low, e, got) refl
      ]

  module _ (i : ℕ) (k : Taken s (taken i s) i) (in_use : IsInUse s te) (old_in_use : IsInUse s old)
      (apart : (te < old) ⊎ (old + 4096 ≤ te)) where
    word_kept :
        (a : ℕ)
        → a ≢ te
        → (a < page_of i) ⊎ (page_of i + 4096 ≤ a)
        → update (taken i s).word te (or_seven (page_of i)) a ≡ s.word a
    word_kept a ne out = update_ne (taken i s).word te a (or_seven (page_of i)) ne ∙ k.kept a out

    old_apart : (old + 4096 ≤ page_of i) ⊎ (page_of i + 4096 ≤ old)
    old_apart = let h = not_in_page s old i old_in_use k.free in omega (arith, h)

    entry_out : (te < page_of i) ⊎ (page_of i + 4096 ≤ te)
    entry_out = not_in_page s te i in_use k.free

    old_counted : leb low_mem old ≡ true → IsCount (s.mem_map (map_nr old))
    old_counted high = elim old_in_use [
      | inl low ↦ absurd (omega (arith, low, leb→le low_mem old high))
      | inr h ↦ (omega (arith, h.1), h.2)
    ]

    own_count : counts_after i i ≡ 1
    own_count = elim (Bool-cases (leb low_mem old)) [
      | inr low ↦ rw low (update_self s.mem_map i 1)
      | inl high ↦
          let ne : i ≢ map_nr old =
            (let h = old_apart in omega (arith, h, leb→le low_mem old high)) in
          rw high (update_ne (taken i s).mem_map (map_nr old) i _ ne ∙ update_self s.mem_map i 1)
    ]

    other_counts :
        (j : ℕ)
        → j ≢ i
        → counts_after i j ≡ s.mem_map j - (if leb low_mem old && (j == map_nr old) then 1 else 0)
    other_counts j ne = elim (Bool-cases (leb low_mem old)) [
      | inr low ↦ rw low (update_ne s.mem_map i j 1 ne ∙ omega arith)
      | inl high ↦ elim (Bool-cases (j == map_nr old)) [
        | inl this ↦
            let p : j ≡ map_nr old = ground arith in
            let q : update s.mem_map i 1 (map_nr old) ≡ s.mem_map j =
              subst (λ x. update s.mem_map i 1 x ≡ s.mem_map j) p (update_ne s.mem_map i j 1 ne) in
            rw (high, this)
              (lowered_by_one q (subst IsCount (ap s.mem_map (sym p)) (old_counted high)))
        | inr other ↦ rw (high, other) (update_ne s.mem_map i j 1 ne ∙ omega arith)
      ]
    ]

    result-Unshared : Unshared s (result i) te i
    result-Unshared = record {
      entry =
          copy_outside (update (taken i s).word te (or_seven (page_of i))) old (page_of i) te
            entry_out
          ∙ update_self (taken i s).word te (or_seven (page_of i));
      contents = λ j j_in.
          copy_inside (update (taken i s).word te (or_seven (page_of i))) old (page_of i) j j_in
          ∙ word_kept (old + j) (omega (arith, apart)) (let h = old_apart in omega (arith, h));
      kept = λ a ne out.
          copy_outside (update (taken i s).word te (or_seven (page_of i))) old (page_of i) a out
          ∙ word_kept a ne out;
      own = own_count;
      others = other_counts;
    }

-- A page that only this entry of a page table refers to gets its write bit back, and nothing else
-- changes.
pub un_wp_page_exclusive :
    (s : Mm) (te : ℕ)
    → low_mem ≤ frame (s.word te)
    → s.mem_map (map_nr (frame (s.word te))) ≡ 1
    → un_wp_page te s ≡ ok tt (record s { word = update s.word te (or_two (s.word te)) })
unfolding un_wp_page
un_wp_page_exclusive s te high one =
    let p : leb low_mem (frame (s.word te)) ≡ true = ground arith in
    let q : (s.mem_map (map_nr (frame (s.word te))) == 1) ≡ true = ground arith in rw (p, q) refl

run_full :
    (s : Mm) (te : ℕ)
    → is_exclusive s te ≡ false
    → get_free_page s ≡ ok 0 s
    → un_wp_page te s ≡ killed s
unfolding is_exclusive un_wp_page unshare
run_full s te shared e = rw (shared, e) refl

-- A page with other references, or in the kernel's memory: if every page is in use the process is
-- killed and nothing changes; else the entry gets a free page of its own, present, writable and
-- open to the user, with the old contents. The old page's count goes down by 1 if it has one, the
-- new one's is 1, and all other counts and words stay. (The entry and the old page must lie in
-- memory in use, and the entry outside the old page.)
pub un_wp_page-Unshared :
    (s : Mm) (te : ℕ)
    → (low_mem ≤ frame (s.word te) → s.mem_map (map_nr (frame (s.word te))) ≢ 1)
    → IsInUse s te
    → IsInUse s (frame (s.word te))
    → (te < frame (s.word te)) ⊎ (frame (s.word te) + 4096 ≤ te)
    → ((un_wp_page te s ≡ killed s) × ((j : ℕ) → j < paging_pages → s.mem_map j ≢ 0))
      ⊎ ((t : Mm) × (i : ℕ) × (un_wp_page te s ≡ ok tt t)
          × (i < paging_pages)
          × (s.mem_map i ≡ 0)
          × Unshared s t te i)
unfolding is_exclusive
un_wp_page-Unshared s te shared in_use old_in_use apart =
    let other : is_exclusive s te ≡ false = ground arith in
    elim (get_free_page_lem s) [
      | inl (e, full) ↦ inl (run_full s te other e, full)
      | inr (i, e, k) ↦ inr (
        result s te i,
        i,
        run_unshare s te i other e,
        k.in_range,
        k.free,
        result-Unshared s te i k in_use old_in_use apart,
      )
    ]
