-- ===== src/Mm.antt =====
-- mm/memory.c: physical pages with their counts, and the two-level page tables over them.
-- `invalidate` reloads the TLB, which is not modelled; `printk` is dropped.
pub mod Words
pub mod Pages
pub mod Tables
pub mod Translate
pub mod WriteFault
mod Tests
use liha_linux.Base.{
  ◌%◌, ◌&&◌, ◌*◌, ◌+◌, ◌-◌, ◌/◌, ◌==◌, Bool, Option, ◌^◌, false, if◌then◌else◌, leb, ltb, map, none,
  not, some, suc, true, update, zero, ◌||◌, ℕ,
}
use liha_linux.Mm.Words.{present, read_only, entry_of, frame, or_two, dir_of, or_seven}

-- LOW_MEM, PAGING_PAGES and USED.
abbrev pub low_mem : ℕ
low_mem = 0x100000

abbrev pub paging_pages : ℕ
paging_pages = 3840

abbrev pub used : ℕ
used = 100

-- `word` is physical memory by the address of a 32-bit word, `mem_map` an array of `unsigned char`.
pub record Mm : Type 0 where
  pub mem_map : ℕ → ℕ
  pub word : ℕ → ℕ
  pub high_memory : ℕ

-- A call returns, or `panic`s, or ends the process by `oom`, which calls `do_exit(SIGSEGV)`.
pub data Run (A : Type 0) : Type 0 where
  ok : A → Mm → Run A
  panic : Run A
  killed : Mm → Run A

abbrev pub M : Type 0 → Type 0
M A = Mm → Run A

abbrev pub pure : {A : Type 0} → A → M A
pure = ok

module _ {A B : Type 0} where
  abbrev pub and_then : Run A → (A → M B) → Run B
  and_then (ok a s) k = k a s
  and_then panic k = panic
  and_then (killed s) k = killed s

  infixl 5 ◌>>=◌ ◌>>◌
  abbrev pub ◌>>=◌ : M A → (A → M B) → M B
  m >>= k = λ s. and_then (m s) k

  abbrev pub ◌>>◌ : M A → M B → M B
  m >> k = m >>= λ _. k

abbrev pub fail : {A : Type 0} → M A
fail s = panic

abbrev pub oom : {A : Type 0} → M A
oom s = killed s

-- `*p` and `*p = x` on a 32-bit word.
abbrev pub load : ℕ → M ℕ
load p s = ok (s.word p) s

abbrev pub store : ℕ → ℕ → M (Unit {0})
store p x s = ok tt (record s { word = update s.word p x })

-- MAP_NR; the code takes it of addresses from LOW_MEM on.
abbrev pub map_nr : ℕ → ℕ
map_nr addr = (addr - low_mem) / 2 ^ 12

-- `mem_map[i]++` and `mem_map[i]--`.
abbrev pub inc : ℕ → M (Unit {0})
inc i s = ok tt (record s { mem_map = update s.mem_map i ((s.mem_map i + 1) % 2 ^ 8) })

abbrev pub dec : ℕ → M (Unit {0})
dec i s = ok tt (record s { mem_map = update s.mem_map i ((s.mem_map i + 2 ^ 8 - 1) % 2 ^ 8) })

-- `repne ; scasb`, from the last of `n` bytes down to the first.
pub scan : (ℕ → ℕ) → ℕ → Option ℕ
scan map zero = none
scan map (suc n) = if map n == 0 then some n else scan map n

-- `rep ; stosl`: the 1024 words of the page.
abbrev pub clear_page : (ℕ → ℕ) → ℕ → ℕ → ℕ
clear_page word page a = if leb page a && ltb a (page + 4096) then 0 else word a

-- `copy_page`.
abbrev pub copy_page : (ℕ → ℕ) → ℕ → ℕ → ℕ → ℕ
copy_page word from to a = if leb to a && ltb a (to + 4096) then word (from + (a - to)) else word a

-- The address of page `i` of the map.
abbrev pub page_of : ℕ → ℕ
page_of i = low_mem + i * 2 ^ 12

abbrev pub take_page : ℕ → M ℕ
take_page i s =
    let page = page_of i in
    ok page (record s { mem_map = update s.mem_map i 1; word = clear_page s.word page })

unfoldable pub get_free_page : M ℕ
unfolding scan
get_free_page s = elim (scan s.mem_map paging_pages) [ none ↦ ok 0 s | some i ↦ take_page i s ]

unfoldable pub free_page : ℕ → M (Unit {0})
free_page addr s =
    if ltb addr low_mem
    then ok tt s
    else if leb s.high_memory addr
    then panic
    else if s.mem_map (map_nr addr) == 0
    then panic
    else dec (map_nr addr) s

-- The page table of `address`, a new one where the directory has none; `none` if there is no memory.
pub table_of : ℕ → M (Option ℕ)
unfolding get_free_page
table_of dir = do
  entry ← load dir
  if present entry then pure (some (frame entry)) else do
    tmp ← get_free_page
    if tmp == 0 then pure none else do store dir (or_seven tmp); pure (some tmp)

-- The two messages about odd arguments only print.
unfoldable pub put_page : ℕ → ℕ → M ℕ
put_page page address = do
  found ← table_of (dir_of address)
  elim found as (λ _. M ℕ) [
    | none ↦ pure 0
    | some page_table ↦ do store (page_table + entry_of address) (or_seven page); pure page
  ]

-- The second half of `un_wp_page`: the page is shared, or lies in the kernel's memory.
pub unshare : ℕ → ℕ → M (Unit {0})
unfolding get_free_page
unshare table_entry old_page = do
  new_page ← get_free_page
  if new_page == 0 then oom else do
    if leb low_mem old_page then dec (map_nr old_page) else pure tt
    store table_entry (or_seven new_page)
    λ s. ok tt (record s { word = copy_page s.word old_page new_page })

unfoldable pub un_wp_page : ℕ → M (Unit {0})
unfolding unshare
un_wp_page table_entry = do
  entry ← load table_entry
  map ← λ s. ok s.mem_map s
  if leb low_mem (frame entry) && (map (map_nr (frame entry)) == 1)
      then store table_entry (or_two entry)
      else unshare table_entry (frame entry)

-- The `#if 0` part is left out by the compiler.
pub do_wp_page : ℕ → M (Unit {0})
unfolding un_wp_page
do_wp_page address = do dir ← load (dir_of address); un_wp_page (entry_of address + frame dir)

pub write_verify : ℕ → M (Unit {0})
unfolding un_wp_page
write_verify address = do
  page ← load (dir_of address)
  if not (present page) then pure tt else do
    entry ← load (frame page + entry_of address)
    if entry % 4 == 1 then un_wp_page (frame page + entry_of address) else pure tt

-- `free_page(tmp)` also runs when no page was got: 0 lies below LOW_MEM.
pub get_empty_page : ℕ → M (Unit {0})
unfolding get_free_page put_page free_page
get_empty_page address = do
  tmp ← get_free_page
  placed ← if tmp == 0 then pure 0 else put_page tmp address
  if placed == 0 then (do free_page tmp; oom) else pure tt

pub mem_init : ℕ → ℕ → Mm → Mm
mem_init start_mem end_mem s = record s {
  high_memory = end_mem;
  mem_map = λ i.
      if leb (map_nr start_mem) i && ltb i (map_nr start_mem + (end_mem - start_mem) / 2 ^ 12)
      then 0
      else if ltb i paging_pages
      then used
      else s.mem_map i;
}

-- One entry of a page table that goes.
pub free_entry : ℕ → M (Unit {0})
unfolding free_page
free_entry pg_table = do
  entry ← load pg_table
  if present entry then free_page (frame entry) else pure tt
  store pg_table 0

pub free_entries : ℕ → ℕ → M (Unit {0})
free_entries zero pg_table s = ok tt s
free_entries (suc nr) pg_table s =
    and_then (free_entry pg_table s) λ _. free_entries nr (pg_table + 4)

-- One entry of the directory, `dir`, in `free_page_tables`.
pub free_dir : ℕ → M (Unit {0})
unfolding free_entries
free_dir dir = do
  entry ← load dir
  if not (present entry)
      then pure tt
      else do free_entries 1024 (frame entry); dir' ← load dir; free_page (frame dir'); store dir 0

pub free_dirs : ℕ → ℕ → M (Unit {0})
free_dirs zero dir s = ok tt s
free_dirs (suc size) dir s = and_then (free_dir dir s) λ _. free_dirs size (dir + 4)

-- `(size + 0x3fffff) >> 22`, in 32 bits.
abbrev pub dirs_in : ℕ → ℕ
dirs_in size = (size + 0x3fffff) % 2 ^ 32 / 2 ^ 22

pub free_page_tables : (from size : ℕ) → M (Unit {0})
unfolding free_dirs free_dir
free_page_tables from size =
    if not (from % 2 ^ 22 == 0)
    then fail
    else if from == 0
    then fail
    else free_dirs (dirs_in size) (dir_of from)

-- The entry at `from`, shared with the entry at `to`.
pub share_entry : (from to : ℕ) → M (Unit {0})
share_entry from to = do
  this ← load from
  if not (present this) then pure tt else do
    store to (read_only this)
    if ltb low_mem (read_only this)
        then (do store from (read_only this); inc (map_nr (read_only this)))
        else pure tt

pub copy_entries : ℕ → (from to : ℕ) → M (Unit {0})
copy_entries zero from to s = ok tt s
copy_entries (suc nr) from to s =
    and_then (share_entry from to s) λ _. copy_entries nr (from + 4) (to + 4)

-- One entry of the directory in `copy_page_tables`; `false` is the `return -1`.
pub copy_dir : (nr from_dir to_dir : ℕ) → M Bool
unfolding get_free_page copy_entries share_entry
copy_dir nr from_dir to_dir = do
  to_entry ← load to_dir
  from_entry ← load from_dir
  if present to_entry then fail else if not (present from_entry) then pure true else do
    to_table ← get_free_page
    if to_table == 0 then pure false else do
      store to_dir (or_seven to_table)
      copy_entries nr (frame from_entry) to_table
      pure true

pub copy_dirs : (size nr from_dir to_dir : ℕ) → M Bool
copy_dirs zero nr from_dir to_dir s = ok true s
copy_dirs (suc size) nr from_dir to_dir s = and_then (copy_dir nr from_dir to_dir s) λ copied.
    let rest = copy_dirs size nr (from_dir + 4) (to_dir + 4) in if copied then rest else pure false

-- `true` is the result 0, `false` the result -1.
pub copy_page_tables : (from to size : ℕ) → M Bool
unfolding copy_dirs copy_dir
copy_page_tables from to size =
    if not (from % 2 ^ 22 == 0) || not (to % 2 ^ 22 == 0)
    then fail
    else copy_dirs (dirs_in size) (if from == 0 then 0xa0 else 1024) (dir_of from) (dir_of to)
