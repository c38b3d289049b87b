-- ===== src/Mm/Tables/Fork.antt =====
-- A page table copied for a child (`copy_page_tables`) and freed at its exit (`free_page_tables`).
use liha_linux.Base.{◌*◌, ◌+◌, ◌<◌, Bool-cases, arith, inl, inr, true, ℕ, ◌≡◌}
use liha_linux.Mm.{Mm, ok, copy_entries, free_entries}
use liha_linux.Mm.Words.{present, frame, read_only}
use liha_linux.Mm.Tables.{refers, refs, refs_same, refers-read_only}
use liha_linux.Mm.Tables.Copy.{HasRoom, Copied, child_entry, copy_entries-Copied}
use liha_linux.Mm.Tables.Free.{IsCounted, free_entries-Freed}

-- The pages of the `n` entries at `t` lie below HIGH_MEMORY.
abbrev pub AreReal : Mm → ℕ → ℕ → Type 0
AreReal s t n =
    (k : ℕ)
    → k < n
    → present (s.word (t + 4 * k)) ≡ true
    → frame (s.word (t + 4 * k)) < s.high_memory

abbrev pub IsEmpty : Mm → ℕ → ℕ → Type 0
IsEmpty s t n = (k : ℕ) → k < n → s.word (t + 4 * k) ≡ 0

refers-child : (e i : ℕ) → refers (child_entry e 0) i ≡ refers e i
refers-child e i = ground (arith, refers-read_only e i)

frame_child :
    (e high : ℕ)
    → (present e ≡ true → frame e < high)
    → present (child_entry e 0) ≡ true
    → frame (child_entry e 0) < high
frame_child e high r there = elim (Bool-cases (present e)) [
  | inl p ↦ let same : frame (read_only e) ≡ frame e = omega arith in rw p (rw same (r p))
  | inr absent ↦ let no_bit : present 0 ≡ true = rw absent at there in cc no_bit
]

module _ {n from to : ℕ} {s u : Mm} (empty : IsEmpty s to n) (c : Copied s u from to n) where
  child_refs : (i : ℕ) → refs u.word to n i ≡ refs s.word from n i
  child_refs i =
      refs_same u.word s.word to from n i
        (λ k h. rw (c.child k h, empty k h) (refers-child (s.word (from + 4 * k)) i))

  child-IsCounted : HasRoom s from to n → AreReal s from n → IsCounted u to n
  child-IsCounted h real = record {
    byte = λ i. omega (arith, h.room i, c.counts i);
    enough = λ i. omega (arith, c.counts i, child_refs i);
    real = λ k k<n.
        rw (c.child k k<n, empty k k<n, c.limit)
          (frame_child (s.word (from + 4 * k)) s.high_memory (real k k<n));
  }

-- A table of real pages, copied into an empty one and freed there: both loops succeed, and every
-- page's count is what it was before.
pub free_entries-copy_entries :
    (n from to : ℕ) (s : Mm)
    → HasRoom s from to n
    → AreReal s from n
    → IsEmpty s to n
    → (u v : Mm) × (copy_entries n from to s ≡ ok tt u)
      × (free_entries n to u ≡ ok tt v)
      × ((i : ℕ) → v.mem_map i ≡ s.mem_map i)
      × ((k : ℕ) → k < n → v.word (to + 4 * k) ≡ 0)
free_entries-copy_entries n from to s h real empty =
    let (u, copied, c) = copy_entries-Copied n from to s h in
    let (v, freed, f) = free_entries-Freed n to u (child-IsCounted empty c h real) in
    (
      u,
      v,
      copied,
      freed,
      λ i. omega (arith, f.counts i, c.counts i, child_refs empty c i),
      f.cleared,
    )
