-- ===== src/Mm/Translate/Write.antt =====
-- `page_table[...] = page | 7` in `put_page` (mm/memory.c), in a table that the directory has.
use mathlib.Core.Path.{subst₂}
use liha_linux.Base.{
  ◌&&◌, ◌+◌, ◌<◌, ◌==◌, Bool-cases, arith, false, if◌then◌else◌, inl, inr, some, true, update,
  update_ne, update_self, ℕ, ◌≡◌, ◌≤◌,
}
use liha_linux.Mm.{Mm}
use liha_linux.Mm.Words.{frame, present}
use liha_linux.Mm.Translate.{above_directory, slot, IsMapped, look_up}

-- A write to one entry of a table that the directory has.
module _ {s : Mm} (m : IsMapped s) (d i x : ℕ) (d_in : d < 4096) (i_in : i < 4096)
    (there : present (s.word d) ≡ true) where
  abbrev pub written : Mm
  written = record s { word = update s.word (frame (s.word d) + i) x }

  directory_kept : (e : ℕ) → e < 4096 → written.word e ≡ s.word e
  directory_kept e e_in =
      let h : 4096 ≤ frame (s.word d) =
        above_directory s (frame (s.word d)) (m.tables d d_in there) in
      update_ne s.word (frame (s.word d) + i) e x (omega arith)

  entry_kept :
      (e j : ℕ)
      → e < 4096
      → j < 4096
      → present (s.word e) ≡ true
      → ((e == d) && (j == i)) ≡ false
      → written.word (frame (s.word e) + j) ≡ s.word (frame (s.word e) + j)
  entry_kept e j e_in j_in also other =
      update_ne s.word (frame (s.word d) + i) (frame (s.word e) + j) x λ same.
        let (f, k) = slot (s.word e) (s.word d) j i j_in i_in same in
        let g = m.distinct e d e_in d_in also there f in ground arith

  look_up_self : present x ≡ true → look_up written d i ≡ some x
  look_up_self px =
      rw (directory_kept d d_in, there, update_self s.word (frame (s.word d) + i) x, px)

  pub look_up_written :
      present x ≡ true
      → (e j : ℕ) → e < 4096
      → j < 4096
      → look_up written e j ≡ (if (e == d) && (j == i) then some x else look_up s e j)
  look_up_written px e j e_in j_in = elim (Bool-cases (present (s.word e))) [
    | inr absent ↦
        let other : (e == d) ≡ false = ground arith in rw (directory_kept e e_in, absent, other)
    | inl also ↦ elim (Bool-cases ((e == d) && (j == i))) [
      | inr other ↦ rw (directory_kept e e_in, also, entry_kept e j e_in j_in also other, other)
      | inl this ↦
          let p : d ≡ e = ground arith in
          let q : i ≡ j = ground arith in
          rw this (subst₂ (λ a b. look_up written a b ≡ some x) p q (look_up_self px))
    ]
  ]

  pub written-IsMapped : IsMapped written
  written-IsMapped = record {
    tables = λ e e_in. rw (directory_kept e e_in) (m.tables e e_in);
    distinct = λ e f e_in f_in.
        rw (directory_kept e e_in, directory_kept f f_in) (m.distinct e f e_in f_in);
  }
