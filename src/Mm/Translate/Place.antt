-- ===== src/Mm/Translate/Place.antt =====
-- `put_page` (mm/memory.c) and the translation of linear addresses.
use liha_linux.Base.{
  ◌&&◌, ◌/◌, ◌<◌, ◌==◌, ==_pos, Bool-cases, ◌^◌, ap, arith, false, if◌then◌else◌, inl, inr, refl,
  some, sym, true, ℕ, ◌∙◌, ◌≡◌, ◌≢◌, ◌⊎◌,
}
use liha_linux.Mm.{table_of, get_free_page, put_page, page_of, paging_pages, Mm, ok}
use liha_linux.Mm.Words.{dir_of, entry_of, or_seven, present}
use liha_linux.Mm.Pages.{taken, get_free_page_lem, Taken}
use liha_linux.Mm.Translate.{translate, IsMapped}
use liha_linux.Mm.Translate.Write.{written-IsMapped, look_up_written, written}
use liha_linux.Mm.Translate.Table.{look_up-added, added-IsMapped, entry_there, frame_there, added}

-- Two addresses with the same entry lie in the same page.
same_page :
    (a b : ℕ)
    → a < 2 ^ 32
    → b < 2 ^ 32
    → ((dir_of a == dir_of b) && (entry_of a == entry_of b)) ≡ (a / 2 ^ 12 == b / 2 ^ 12)
same_page a b p q = ground arith

translate_written :
    (s : Mm) (m : IsMapped s) (page address : ℕ)
    → address < 2 ^ 32
    → (there : present (s.word (dir_of address)) ≡ true) → (a : ℕ) → a < 2 ^ 32
    → translate
        (written m
          (dir_of address)
          (entry_of address)
          (or_seven page)
          (omega arith)
          (omega arith)
          there)
        a
      ≡ (if a / 2 ^ 12 == address / 2 ^ 12 then some (or_seven page) else translate s a)
translate_written s m page address h there a a_in =
    look_up_written m (dir_of address) (entry_of address) (or_seven page) (omega arith)
      (omega arith) there (ground arith) (dir_of a) (entry_of a) (omega arith) (omega arith)
    ∙ ap (λ b. if b then some (or_seven page) else translate s a) (same_page a address a_in h)

abbrev Translated : Mm → ℕ → ℕ → Mm → Type 0
Translated s page address t =
    (a : ℕ)
    → a < 2 ^ 32
    → translate t a
      ≡ (if a / 2 ^ 12 == address / 2 ^ 12 then some (or_seven page) else translate s a)

dir_in : (a : ℕ) → dir_of a < 4096
dir_in a = omega arith

entry_in : (a : ℕ) → entry_of a < 4096
entry_in a = omega arith

place_there :
    (page address : ℕ) (s : Mm)
    → IsMapped s
    → address < 2 ^ 32
    → present (s.word (dir_of address)) ≡ true
    → (t : Mm) × (put_page page address s ≡ ok page t) × IsMapped t × Translated s page address t
unfolding put_page table_of
place_there page address s m h there =
    let d = dir_of address in
    (
      written m d (entry_of address) (or_seven page) (dir_in address) (entry_in address) there,
      rw there refl,
      written-IsMapped m d (entry_of address) (or_seven page) (dir_in address) (entry_in address)
          there,
      translate_written s m page address h there,
    )

module _ (page address : ℕ) (s : Mm) (m : IsMapped s) (h : address < 2 ^ 32)
    (absent : present (s.word (dir_of address)) ≡ false) (i : ℕ) (k : Taken s (taken i s) i) where
  abbrev with_table : Mm
  with_table = added m (dir_of address) i (dir_in address) absent k

  table_there : present (with_table.word (dir_of address)) ≡ true
  table_there = rw (entry_there m (dir_of address) i (dir_in address) absent k) (ground arith)

  new_table_of :
      get_free_page s ≡ ok (page_of i) (taken i s)
      → table_of (dir_of address) s ≡ ok (some (page_of i)) with_table
  unfolding table_of
  new_table_of e =
      let got : (page_of i == 0) ≡ false = ==_pos (page_of i) (omega arith) in
      rw (absent, e, got) refl

  table_of_new : table_of (dir_of address) with_table ≡ ok (some (page_of i)) with_table
  unfolding table_of
  table_of_new = rw table_there (
      ap (λ f. ok (some f) with_table) (frame_there m (dir_of address) i (dir_in address) absent k))

same_table :
    (page address : ℕ) (s t : Mm)
    → table_of (dir_of address) s ≡ table_of (dir_of address) t
    → put_page page address s ≡ put_page page address t
unfolding put_page
same_table page address s t e = rw e

no_table :
    (page address : ℕ) (s : Mm)
    → present (s.word (dir_of address)) ≡ false
    → get_free_page s ≡ ok 0 s
    → put_page page address s ≡ ok 0 s
unfolding put_page table_of
no_table page address s absent e = rw (absent, e) refl

-- Given directory entries with tables of their own, `put_page` ends without a panic. It returns 0
-- and changes nothing when the directory has no table for the address and every page is in use.
-- Else it returns the page, and from then on the address, and with it every address of the same
-- 4096 bytes, is translated to the page, present, writable and open to the user; the translation
-- of every other address is what it was, and the directory's entries still have tables of their own.
pub put_page-translate :
    (page address : ℕ) (s : Mm)
    → IsMapped s
    → page ≢ 0
    → address < 2 ^ 32
    → ((put_page page address s ≡ ok 0 s)
        × (present (s.word (dir_of address)) ≡ false)
        × ((j : ℕ) → j < paging_pages → s.mem_map j ≢ 0))
      ⊎ ((t : Mm) × (put_page page address s ≡ ok page t)
          × IsMapped t
          × ((a : ℕ)
              → a < 2 ^ 32
              → translate t a
                ≡ (if a / 2 ^ 12 == address / 2 ^ 12 then some (or_seven page) else translate s a)))
put_page-translate page address s m ne h = elim (Bool-cases (present (s.word (dir_of address)))) [
  | inl there ↦ inr (place_there page address s m h there)
  | inr absent ↦ elim (get_free_page_lem s) [
    | inl (e, full) ↦ inl (no_table page address s absent e, absent, full)
    | inr (i, e, k) ↦
        let s' = with_table page address s m h absent i k in
        let m' = added-IsMapped m (dir_of address) i (dir_in address) absent k in
        let (t, run, mt, tr) =
          place_there page address s' m' h (table_there page address s m h absent i k) in
        inr (
          t,
          same_table page address s s' (
                new_table_of page address s m h absent i k e
                ∙ sym (table_of_new page address s m h absent i k))
              ∙ run,
          mt,
          λ a a_in.
              tr a a_in
              ∙ ap (λ o. if a / 2 ^ 12 == address / 2 ^ 12 then some (or_seven page) else o)
                  (look_up-added m (dir_of address) i (dir_in address) absent k (dir_of a)
                    (entry_of a) (dir_in a) (entry_in a)),
        )
  ]
]
