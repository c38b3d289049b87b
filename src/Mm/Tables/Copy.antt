-- ===== src/Mm/Tables/Copy.antt =====
-- The loop of `copy_page_tables` over one page table.
use liha_linux.Base.{
  ◌%◌, ◌&&◌, ◌*◌, ◌+◌, ◌<◌, Bool-cases, ◌^◌, ap, arith, if◌then◌else◌, inl, inr, leb, ltb, refl,
  subst, suc, update, zero, ℕ, ◌∙◌, ◌≡◌, ◌≢◌, ◌≤◌, ◌⊎◌,
}
use liha_linux.Mm.{copy_entries, map_nr, Mm, ok, share_entry, low_mem}
use liha_linux.Mm.Words.{present, read_only}
use liha_linux.Mm.Tables.{refs_same, each_entry, refers, refs, Outside}

-- What becomes of an entry of the child, where the parent has `e`, and of the parent's.
abbrev pub child_entry : (e old : ℕ) → ℕ
child_entry e old = if present e then read_only e else old

abbrev pub parent_entry : ℕ → ℕ
parent_entry e = if present e && leb low_mem e then read_only e else e

abbrev pub Apart : (from to n : ℕ) → Type 0
Apart from to n = (from + 4 * n ≤ to) ⊎ (to + 4 * n ≤ from)

-- The counts have room for one more reference by each entry, and the tables are apart.
pub record HasRoom (s : Mm) (from to n : ℕ) : Type 0 where
  pub apart : Apart from to n
  pub room : (i : ℕ) → s.mem_map i + refs s.word from n i < 256

pub record Copied (s u : Mm) (from to n : ℕ) : Type 0 where
  pub counts : (i : ℕ) → u.mem_map i ≡ s.mem_map i + refs s.word from n i
  pub child :
      (k : ℕ)
      → k < n
      → u.word (to + 4 * k) ≡ child_entry (s.word (from + 4 * k)) (s.word (to + 4 * k))
  pub parent : (k : ℕ) → k < n → u.word (from + 4 * k) ≡ parent_entry (s.word (from + 4 * k))
  pub kept : (a : ℕ) → Outside from n a → Outside to n a → u.word a ≡ s.word a
  pub limit : u.high_memory ≡ s.high_memory

record Shared (s u : Mm) (from to : ℕ) : Type 0 where
  counts : (i : ℕ) → u.mem_map i ≡ s.mem_map i + refers (s.word from) i
  child : u.word to ≡ child_entry (s.word from) (s.word to)
  parent : u.word from ≡ parent_entry (s.word from)
  kept : (a : ℕ) → a ≢ from → a ≢ to → u.word a ≡ s.word a
  limit : u.high_memory ≡ s.high_memory

share_entry-Shared :
    (from to : ℕ) (s : Mm)
    → from ≢ to
    → ((i : ℕ) → s.mem_map i + refers (s.word from) i < 256)
    → (u : Mm) × (share_entry from to s ≡ ok tt u) × Shared s u from to
unfolding share_entry
share_entry-Shared from to s ne room = elim (Bool-cases (present (s.word from))) [
  | inr absent ↦ (
    s,
    rw absent refl,
    record {
      counts = λ i. ground arith;
      child = ground arith;
      parent = ground arith;
      kept = λ a p q. refl;
      limit = refl;
    },
  )
  | inl there ↦ elim (Bool-cases (ltb low_mem (read_only (s.word from)))) [
    | inr low ↦ (
      record s { word = update s.word to (read_only (s.word from)) },
      rw (there, low) refl,
      record {
        counts = λ i. ground arith;
        child = ground arith;
        parent = ground arith;
        kept = λ a p q. ground arith;
        limit = refl;
      },
    )
    | inl high ↦
        let e = s.word from in
        let i = map_nr (read_only e) in
        let same : i ≡ map_nr e = ground arith in
        let fits : s.mem_map i + 1 < 256 = ground (arith, room i) in
        (
          record s {
            mem_map = update s.mem_map i ((s.mem_map i + 1) % 2 ^ 8);
            word = update (update s.word to (read_only e)) from (read_only e);
          },
          rw (there, high) refl,
          record {
            counts = λ j. ground arith;
            child = ground arith;
            parent = ground arith;
            kept = λ a p q. ground arith;
            limit = refl;
          },
        )
  ]
]

module _ {from to n : ℕ} {s v : Mm} (h : HasRoom s from to (suc n)) (sh : Shared s v from to) where
  later_refs : (i : ℕ) → refs v.word (from + 4) n i ≡ refs s.word (from + 4) n i
  later_refs i = refs_same v.word s.word (from + 4) (from + 4) n i (λ k k<n.
      ap (λ e. refers e i) (sh.kept (from + 4 + 4 * k) (omega arith) (omega (arith, h.apart))))

  later-HasRoom : HasRoom v (from + 4) (to + 4) n
  unfolding refs
  later-HasRoom = record {
    apart = omega (arith, h.apart);
    room = λ i. omega (arith, h.room i, sh.counts i, later_refs i);
  }

  cons-Copied : {u : Mm} → Copied v u (from + 4) (to + 4) n → Copied s u from to (suc n)
  unfolding refs
  cons-Copied {u} c = record {
    counts = λ i. omega (arith, c.counts i, sh.counts i, later_refs i);
    child =
        each_pair (λ a b. u.word b ≡ child_entry (s.word a) (s.word b))
          (c.kept to (omega (arith, h.apart)) (omega arith) ∙ sh.child)
          (λ k k<n.
            rw
              (
                ← sh.kept (from + 4 + 4 * k) (omega arith) (omega (arith, h.apart)),
                ← sh.kept (to + 4 + 4 * k) (omega (arith, h.apart)) (omega arith),
              )
              (c.child k k<n));
    parent =
        each_entry (λ a. u.word a ≡ parent_entry (s.word a)) from n
          (c.kept from (omega arith) (omega (arith, h.apart)) ∙ sh.parent)
          (λ k k<n.
            rw (← sh.kept (from + 4 + 4 * k) (omega arith) (omega (arith, h.apart)))
              (c.parent k k<n));
    kept = λ a p q. c.kept a (omega arith) (omega arith) ∙ sh.kept a (omega arith) (omega arith);
    limit = c.limit ∙ sh.limit;
  }
    where
      each_pair :
          (P : ℕ → ℕ → Type 0)
          → P from to
          → ((k : ℕ) → k < n → P (from + 4 + 4 * k) (to + 4 + 4 * k))
          → (k : ℕ) → k < suc n
          → P (from + 4 * k) (to + 4 * k)
      each_pair P first others zero z =
          subst (λ a. P a (to + 4 * 0)) (let e : from ≡ from + 4 * 0 = omega arith in e)
            (subst (λ b. P from b) (let e : to ≡ to + 4 * 0 = omega arith in e) first)
      each_pair P first others (suc k) z =
          subst (λ a. P a (to + 4 * suc k))
            (let e : from + 4 + 4 * k ≡ from + 4 * suc k = omega arith in e)
            (subst (λ b. P (from + 4 + 4 * k) b)
              (let e : to + 4 + 4 * k ≡ to + 4 * suc k = omega arith in e) (others k (omega arith)))

-- For two tables that do not overlap, and counts that stay below 256, the loop gives the child each
-- present entry of the parent without its write bit, takes the write bit from the parent's entries
-- for pages from LOW_MEM on, raises each page's count by the number of entries that refer to it,
-- and changes nothing else.
pub copy_entries-Copied :
    (n from to : ℕ) (s : Mm)
    → HasRoom s from to n
    → (u : Mm) × (copy_entries n from to s ≡ ok tt u) × Copied s u from to n
unfolding copy_entries refs
copy_entries-Copied zero from to s h = (
  s,
  refl,
  record {
    counts = λ i. omega arith;
    child = λ k z. absurd (omega arith);
    parent = λ k z. absurd (omega arith);
    kept = λ a p q. refl;
    limit = refl;
  },
)
copy_entries-Copied (suc n) from to s h =
    let (v, e, sh) =
      share_entry-Shared from to s (let ne : from ≢ to = omega (arith, h.apart) in ne)
        (λ i. omega (arith, h.room i)) in
    let (u, run, c) = copy_entries-Copied n (from + 4) (to + 4) v (later-HasRoom h sh) in
    (u, rw e run, cons-Copied h sh c)
