-- ===== src/Mm/Translate/Table.antt =====
-- A new page table in `put_page` (mm/memory.c).
use liha_linux.Base.{
  ◌%◌, ◌+◌, ◌<◌, ◌==◌, Bool-cases, ap, arith, false, inl, inr, subst, sym, true, update, update_ne,
  update_self, ℕ, ◌∙◌, ◌≡◌, ◌≢◌, ◌≤◌, ◌⊎◌,
}
use liha_linux.Mm.{page_of, map_nr, Mm}
use liha_linux.Mm.Words.{or_seven, frame, present}
use liha_linux.Mm.Pages.{taken, Taken}
use liha_linux.Mm.Translate.{
  look_up_same, none_of_dir, above_directory, none_of_entry, IsTable, IsMapped, look_up,
}

-- A new table, all 0, at an entry of the directory that had none.
module _ {s : Mm} (m : IsMapped s) (d i : ℕ) (d_in : d < 4096) (absent : present (s.word d) ≡ false)
    (k : Taken s (taken i s) i) where
  abbrev pub added : Mm
  added = record (taken i s) { word = update (taken i s).word d (or_seven (page_of i)) }

  pub entry_there : added.word d ≡ or_seven (page_of i)
  entry_there = update_self (taken i s).word d (or_seven (page_of i))

  pub frame_there : frame (added.word d) ≡ page_of i
  frame_there = omega (arith, entry_there)

  other_entry : (e : ℕ) → e < 4096 → (e == d) ≡ false → added.word e ≡ s.word e
  other_entry e e_in ne =
      update_ne (taken i s).word d e (or_seven (page_of i)) (ground arith) ∙ k.kept e (omega arith)

  -- No table in use lies in the new page.
  no_overlap :
      (t : ℕ) → t % 4096 ≡ 0 → IsTable s t → (t + 4096 ≤ page_of i) ⊎ (page_of i + 4096 ≤ t)
  no_overlap t aligned (inl h) = omega arith
  no_overlap t aligned (inr h) =
      let ne : map_nr t ≢ i = λ e. h.2 (ap s.mem_map e ∙ k.free) in omega (arith, ne)

  still-IsTable : (t : ℕ) → IsTable s t → IsTable added t
  still-IsTable t (inl h) = inl h
  still-IsTable t (inr h) = inr (h.0, h.1, λ z. h.2 (ground (arith, k.counts (map_nr t))))

  new-IsTable : IsTable added (page_of i)
  new-IsTable =
      let here : map_nr (page_of i) ≡ i = omega arith in
      inr (
        omega arith,
        omega (arith, k.in_range),
        λ z.
            let one : 1 ≡ 0 = sym (update_self s.mem_map i 1) ∙ ap added.mem_map (sym here) ∙ z in
            absurd (omega (arith, one)),
      )

  -- An entry of the directory is the new one, or is what it was.
  dir_cases :
      (e : ℕ)
      → e < 4096
      → ((e ≡ d) × (frame (added.word e) ≡ page_of i))
        ⊎ (((e == d) ≡ false) × (added.word e ≡ s.word e))
  dir_cases e e_in = elim (Bool-cases (e == d)) [
    | inl same ↦
        let p : d ≡ e = ground arith in
        inl (sym p, subst (λ a. frame (added.word a) ≡ page_of i) p frame_there)
    | inr other ↦ inr (other, other_entry e e_in other)
  ]

  old-IsTable :
      (e : ℕ)
      → e < 4096
      → added.word e ≡ s.word e
      → present (added.word e) ≡ true
      → IsTable s (frame (added.word e))
  old-IsTable e e_in same there = rw same (m.tables e e_in (rw same at there))

  clash :
      (e : ℕ)
      → e < 4096
      → added.word e ≡ s.word e
      → present (added.word e) ≡ true
      → frame (added.word e) ≢ page_of i
  clash e e_in same there at_page =
      let h = no_overlap (frame (added.word e)) (omega arith) (old-IsTable e e_in same there) in
      omega arith

  pub added-IsMapped : IsMapped added
  added-IsMapped = record {
    tables = λ e e_in there. elim (dir_cases e e_in) [
      | inl (_, f) ↦ subst (IsTable added) (sym f) new-IsTable
      | inr (_, same) ↦ still-IsTable (frame (added.word e)) (old-IsTable e e_in same there)
    ];
    distinct = λ e f e_in f_in there also eq. elim (dir_cases e e_in) [
      | inl (p, fp) ↦ elim (dir_cases f f_in) [
        | inl (q, fq) ↦ p ∙ sym q
        | inr (_, same) ↦ absurd (clash f f_in same also (sym eq ∙ fp))
      ]
      | inr (_, same) ↦ elim (dir_cases f f_in) [
        | inl (q, fq) ↦ absurd (clash e e_in same there (eq ∙ fq))
        | inr (_, too) ↦
            m.distinct e f e_in f_in (rw same at there) (rw too at also) (rw (same, too) at eq)
      ]
    ];
  }

  word_in_page : (j : ℕ) → j < 4096 → added.word (page_of i + j) ≡ 0
  word_in_page j j_in =
      update_ne (taken i s).word d (page_of i + j) (or_seven (page_of i)) (omega arith)
      ∙ k.zeroed j j_in

  pub look_up-added : (e j : ℕ) → e < 4096 → j < 4096 → look_up added e j ≡ look_up s e j
  look_up-added e j e_in j_in = elim (dir_cases e e_in) [
    | inl (p, f) ↦
        none_of_entry added e j (ap present (ap (λ a. added.word (a + j)) f ∙ word_in_page j j_in))
        ∙ sym (none_of_dir s e j (subst (λ a. present (s.word a) ≡ false) (sym p) absent))
    | inr (other, same) ↦ look_up_same s added e j same λ there.
        let t = m.tables e e_in there in
        update_ne (taken i s).word d (frame (s.word e) + j) (or_seven (page_of i))
          (let h = above_directory s (frame (s.word e)) t in omega (arith, h))
        ∙ k.kept (frame (s.word e) + j)
            (let h = no_overlap (frame (s.word e)) (omega arith) t in omega (arith, h))
  ]
