-- ===== src/Mm/Tables/Free.antt =====
-- The loop of `free_page_tables` over one page table.
use liha_linux.Base.{
  ◌*◌, ◌+◌, ◌-◌, ◌<◌, Bool-cases, ap, arith, if◌then◌else◌, inl, inr, leb, refl, suc, true, update,
  update_ne, update_self, zero, ℕ, ◌∙◌, ◌≡◌, ◌≤◌,
}
use liha_linux.Mm.{low_mem, map_nr, pure, Mm, ok, free_page, free_entry, free_entries}
use liha_linux.Mm.Words.{present, frame}
use liha_linux.Mm.Pages.{free_page_lem}
use liha_linux.Mm.Tables.{each_entry, other_entries, first_entry, refers, refs, refs_same, Outside}

-- The counts fit a byte, cover the references of the entries, and these lie below HIGH_MEMORY.
pub record IsCounted (s : Mm) (t n : ℕ) : Type 0 where
  pub byte : (i : ℕ) → s.mem_map i < 256
  pub enough : (i : ℕ) → refs s.word t n i ≤ s.mem_map i
  pub real :
      (k : ℕ)
      → k < n
      → present (s.word (t + 4 * k)) ≡ true
      → frame (s.word (t + 4 * k)) < s.high_memory

pub record Freed (s u : Mm) (t n : ℕ) : Type 0 where
  pub counts : (i : ℕ) → u.mem_map i + refs s.word t n i ≡ s.mem_map i
  pub cleared : (k : ℕ) → k < n → u.word (t + 4 * k) ≡ 0
  pub kept : (a : ℕ) → Outside t n a → u.word a ≡ s.word a
  pub limit : u.high_memory ≡ s.high_memory

-- The call of `free_page` for the entry `e`.
drop_ref :
    (e : ℕ) (s : Mm)
    → ((i : ℕ) → s.mem_map i < 256)
    → ((i : ℕ) → refers e i ≤ s.mem_map i)
    → (present e ≡ true → frame e < s.high_memory)
    → (v : ℕ → ℕ) × ((if present e then free_page (frame e) else pure tt) s
        ≡ ok tt (record s { mem_map = v }))
      × ((i : ℕ) → v i + refers e i ≡ s.mem_map i)
drop_ref e s byte enough real = elim (Bool-cases (present e)) [
  | inr absent ↦ (s.mem_map, rw absent refl, λ i. ground arith)
  | inl there ↦ elim (Bool-cases (leb low_mem e)) [
    | inr low ↦
        let p : frame e < low_mem = ground arith in
        (s.mem_map, rw (there, (free_page_lem (frame e) s (byte _)).0 p) refl, λ i. ground arith)
    | inl high ↦
        let p : low_mem ≤ frame e = ground arith in
        let q : map_nr (frame e) ≡ map_nr e = ground arith in
        let r : 0 < s.mem_map (map_nr (frame e)) = ground (arith, enough (map_nr e)) in
        (
          update s.mem_map (map_nr (frame e)) (s.mem_map (map_nr (frame e)) - 1),
          rw (there, (free_page_lem (frame e) s (byte _)).3 p (real there) r) refl,
          λ i. ground arith,
        )
  ]
]

-- One entry.
free_entry_lem :
    (t : ℕ) (s : Mm)
    → ((i : ℕ) → s.mem_map i < 256)
    → ((i : ℕ) → refers (s.word t) i ≤ s.mem_map i)
    → (present (s.word t) ≡ true → frame (s.word t) < s.high_memory)
    → (v : ℕ → ℕ) × (free_entry t s ≡ ok tt (record s { mem_map = v; word = update s.word t 0 }))
      × ((i : ℕ) → v i + refers (s.word t) i ≡ s.mem_map i)
unfolding free_entry
free_entry_lem t s byte enough real =
    let (v, e, counts) = drop_ref (s.word t) s byte enough real in (v, rw e refl, counts)

refs_past : (w : ℕ → ℕ) (t n x i : ℕ) → refs (update w t x) (t + 4) n i ≡ refs w (t + 4) n i
refs_past w t n x i =
    refs_same (update w t x) w (t + 4) (t + 4) n i
      (λ k h. ap (λ e. refers e i) (update_ne w t (t + 4 + 4 * k) x (omega arith)))

module _ {n t : ℕ} {s : Mm} (c : IsCounted s t (suc n)) where
  first_enough : (i : ℕ) → refers (s.word t) i ≤ s.mem_map i
  unfolding refs
  first_enough i = omega (arith, c.enough i)

  first_real : present (s.word t) ≡ true → frame (s.word t) < s.high_memory
  first_real =
      first_entry (λ a. present (s.word a) ≡ true → frame (s.word a) < s.high_memory) t n c.real

  module _ (v : ℕ → ℕ) (counts : (i : ℕ) → v i + refers (s.word t) i ≡ s.mem_map i) where
    abbrev after : Mm
    after = record s { mem_map = v; word = update s.word t 0 }

    after-IsCounted : IsCounted after (t + 4) n
    unfolding refs
    after-IsCounted = record {
      byte = λ i. omega (arith, counts i, c.byte i);
      enough = λ i. omega (arith, counts i, c.enough i, refs_past s.word t n 0 i);
      real = λ k h. rw (update_ne s.word t (t + 4 + 4 * k) 0 (omega arith)) (
          other_entries (λ a. present (s.word a) ≡ true → frame (s.word a) < s.high_memory) t n
            c.real k h);
    }

    cons-Freed : {u : Mm} → Freed after u (t + 4) n → Freed s u t (suc n)
    unfolding refs
    cons-Freed {u} f = record {
      counts = λ i. omega (arith, counts i, f.counts i, refs_past s.word t n 0 i);
      cleared =
          each_entry (λ a. u.word a ≡ 0) t n (f.kept t (omega arith) ∙ update_self s.word t 0)
            f.cleared;
      kept = λ a h. f.kept a (omega arith) ∙ update_ne s.word t a 0 (omega arith);
      limit = f.limit;
    }

-- With counts that cover them, the loop frees the references of all the entries, lowers each count
-- by the number of entries that refer to its page, and clears the entries and nothing else.
pub free_entries-Freed :
    (n t : ℕ) (s : Mm) → IsCounted s t n → (u : Mm) × (free_entries n t s ≡ ok tt u) × Freed s u t n
unfolding free_entries refs
free_entries-Freed zero t s c = (
  s,
  refl,
  record {
    counts = λ i. omega arith;
    cleared = λ k h. absurd (omega arith);
    kept = λ a h. refl;
    limit = refl;
  },
)
free_entries-Freed (suc n) t s c =
    let (v, e, counts) = free_entry_lem t s c.byte (first_enough c) (first_real c) in
    let (u, run, f) =
      free_entries-Freed n (t + 4) (after c v counts) (after-IsCounted c v counts) in
    (u, rw e run, cons-Freed c v counts f)
