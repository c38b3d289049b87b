-- ===== src/Mm/Translate.antt =====
-- The translation of linear addresses by the two-level tables of mm/memory.c.
pub mod Write
pub mod Table
pub mod Place
use liha_linux.Base.{
  ◌+◌, ◌<◌, Bool-cases, Option, arith, false, if◌then◌else◌, inl, inr, none, some, true, ℕ, ◌≡◌,
  ◌≢◌, ◌≤◌, ◌⊎◌,
}
use liha_linux.Mm.{
  page_of, paging_pages, map_nr, low_mem, Mm, ok, table_of, put_page, get_free_page,
}
use liha_linux.Mm.Words.{present, frame, or_seven, dir_of, entry_of}
use liha_linux.Mm.Pages.{taken, Taken, get_free_page_lem}

-- The page table entry that the processor finds for an address.
abbrev pub look_up : Mm → (dir entry : ℕ) → Option ℕ
look_up s dir entry =
    if present (s.word dir)
    then (if present (s.word (frame (s.word dir) + entry))
        then some (s.word (frame (s.word dir) + entry))
        else none)
    else none

abbrev pub translate : Mm → ℕ → Option ℕ
translate s address = look_up s (dir_of address) (entry_of address)

-- A place for a page table: in the kernel's memory behind the directory, or a page in use.
abbrev pub IsTable : Mm → ℕ → Type 0
IsTable s t =
    ((4096 ≤ t) × (t + 4096 ≤ low_mem))
    ⊎ ((low_mem ≤ t) × (map_nr t < paging_pages) × (s.mem_map (map_nr t) ≢ 0))

-- Each entry of the directory has a table of its own.
pub record IsMapped (s : Mm) : Type 0 where
  pub tables : (d : ℕ) → d < 4096 → present (s.word d) ≡ true → IsTable s (frame (s.word d))
  pub distinct :
      (d e : ℕ)
      → d < 4096
      → e < 4096
      → present (s.word d) ≡ true
      → present (s.word e) ≡ true
      → frame (s.word d) ≡ frame (s.word e)
      → d ≡ e

pub above_directory : (s : Mm) (t : ℕ) → IsTable s t → 4096 ≤ t
above_directory s t (inl h) = h.0
above_directory s t (inr h) = omega arith

-- The place of an entry determines its table and its offset.
pub slot :
    (x y i j : ℕ) → i < 4096 → j < 4096 → frame x + i ≡ frame y + j → (frame x ≡ frame y) × (i ≡ j)
slot x y i j p q e = omega arith

pub none_of_dir : (s : Mm) (d j : ℕ) → present (s.word d) ≡ false → look_up s d j ≡ none
none_of_dir s d j absent = rw absent

pub none_of_entry :
    (s : Mm) (d j : ℕ) → present (s.word (frame (s.word d) + j)) ≡ false → look_up s d j ≡ none
none_of_entry s d j absent = elim (Bool-cases (present (s.word d))) [
  | inl there ↦ rw (there, absent)
  | inr none_there ↦ rw none_there
]

pub look_up_same :
    (s t : Mm) (d j : ℕ)
    → t.word d ≡ s.word d
    → (present (s.word d) ≡ true → t.word (frame (s.word d) + j) ≡ s.word (frame (s.word d) + j))
    → look_up t d j ≡ look_up s d j
look_up_same s t d j same entry = elim (Bool-cases (present (s.word d))) [
  | inl there ↦ rw (same, there, entry there)
  | inr absent ↦ rw (same, absent)
]
