-- ===== src/Mm/Tests.antt =====
-- Tests and witnesses for mm/memory.c.
use liha_linux.Base.{
  ◌*◌, ◌+◌, ◌/◌, ◌<◌, ◌==◌, ◌^◌, arith, false, if◌then◌else◌, inl, inr, refl, some, ℕ, ◌≡◌, ◌≢◌,
  ◌⊎◌,
}
use liha_linux.Mm.{
  copy_entries, page_of, paging_pages, put_page, un_wp_page, free_entries, scan, free_page, Mm, ok,
  killed, get_free_page,
}
use liha_linux.Mm.Words.{dir_of, present, or_seven}
use liha_linux.Mm.Pages.{free_page-get_free_page, Taken, taken, get_free_page_lem}
use liha_linux.Mm.Tables.{refs}
use liha_linux.Mm.Tables.Copy.{HasRoom}
use liha_linux.Mm.Tables.Free.{IsCounted, Freed, free_entries-Freed}
use liha_linux.Mm.Tables.Fork.{free_entries-copy_entries}
use liha_linux.Mm.Translate.{IsMapped, translate}
use liha_linux.Mm.Translate.Place.{put_page-translate}
use liha_linux.Mm.WriteFault.{Unshared, un_wp_page-Unshared}

-- Page 1 of the map is in use by two entries of the table at 0x1000, page 2 by one.
abbrev words : ℕ → ℕ
words a =
    if a == 0
    then 0x1007
    else if a == 0x1000
    then 0x101007
    else if a == 0x1004
    then 0x101007
    else if a == 0x1008
    then 0x102005
    else 0

abbrev counts : ℕ → ℕ
counts i = if i == 1 then 2 else if i == 2 then 1 else 0

abbrev state : Mm
state = record { mem_map = counts; word = words; high_memory = 0x1000000 }

get_free_page_lem_example :
    ((get_free_page state ≡ ok 0 state) × ((j : ℕ) → j < paging_pages → counts j ≢ 0))
    ⊎ ((i : ℕ) × (get_free_page state ≡ ok (page_of i) (taken i state))
        × Taken state (taken i state) i)
get_free_page_lem_example = get_free_page_lem state

last_free : get_free_page state ≡ ok 0xfff000 (taken 3839 state)
unfolding get_free_page scan
last_free = refl

free_page-get_free_page_example :
    (u : Mm) × (free_page 0xfff000 (taken 3839 state) ≡ ok tt u)
    × ((j : ℕ) → u.mem_map j ≡ counts j)
free_page-get_free_page_example =
    free_page-get_free_page state last_free (omega arith) (omega arith)

state-IsMapped : IsMapped state
state-IsMapped = record {
  tables = λ d d_in there. ground arith;
  distinct = λ d e d_in e_in there also same. ground arith;
}

put_page-translate_example :
    ((put_page 0x103000 0x3000 state ≡ ok 0 state)
      × (present (words (dir_of 0x3000)) ≡ false)
      × ((j : ℕ) → j < paging_pages → counts j ≢ 0))
    ⊎ ((t : Mm) × (put_page 0x103000 0x3000 state ≡ ok 0x103000 t)
        × IsMapped t
        × ((a : ℕ)
            → a < 2 ^ 32
            → translate t a ≡ (
                if a / 2 ^ 12 == 0x3000 / 2 ^ 12
                then some (or_seven 0x103000)
                else translate state a)))
put_page-translate_example =
    put_page-translate 0x103000 0x3000 state state-IsMapped (omega arith) (omega arith)

un_wp_page-Unshared_example :
    ((un_wp_page 0x1000 state ≡ killed state) × ((j : ℕ) → j < paging_pages → counts j ≢ 0))
    ⊎ ((t : Mm) × (i : ℕ) × (un_wp_page 0x1000 state ≡ ok tt t)
        × (i < paging_pages)
        × (counts i ≡ 0)
        × Unshared state t 0x1000 i)
un_wp_page-Unshared_example =
    un_wp_page-Unshared state 0x1000 (λ _ e. absurd (omega (arith, e))) (inl (omega arith))
      (inr (omega arith, omega arith, omega arith)) (inl (omega arith))

room : HasRoom state 0x1000 0x2000 3
unfolding refs
room = record { apart = inl (omega arith); room = λ i. ground arith }

counted : IsCounted state 0x1000 3
unfolding refs
counted = record {
  byte = λ i. ground arith;
  enough = λ i. ground arith;
  real = λ k h there. ground arith;
}

free_entries-Freed_example :
    (u : Mm) × (free_entries 3 0x1000 state ≡ ok tt u) × Freed state u 0x1000 3
free_entries-Freed_example = free_entries-Freed 3 0x1000 state counted

free_entries-copy_entries_example :
    (u v : Mm) × (copy_entries 3 0x1000 0x2000 state ≡ ok tt u)
    × (free_entries 3 0x2000 u ≡ ok tt v)
    × ((i : ℕ) → v.mem_map i ≡ counts i)
    × ((k : ℕ) → k < 3 → v.word (0x2000 + 4 * k) ≡ 0)
free_entries-copy_entries_example =
    free_entries-copy_entries 3 0x1000 0x2000 state room counted.real (λ k h. ground arith)
