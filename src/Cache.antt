-- ===== src/Cache.antt =====
-- fs/buffer.c: the buffer cache, with its hash queues and its ring of free buffers as the pointers
-- that the source keeps. A buffer is named by its index from `start_buffer`; `none` is NULL. What
-- the block layer knows of the buffers is its own state, Blk.
pub mod Links
pub mod Ring
pub mod Queues
pub mod Choice
pub mod Least
pub mod Taken
mod Tests
use Prim.Native.Nat.{bit_xor}
use mathlib.Core.Option
use liha_linux.Base.{
  ◌%◌, ◌&&◌, ◌+◌, ◌-◌, ◌==◌, Bool, Option, ◌^◌, false, if◌then◌else◌, ltb, none, not, some, suc,
  true, update, zero, ℕ,
}
use liha_linux.Blk.{Blk, Buffer, Made, read, reada, write, ll_rw_block, set_uptodate}

abbrev pub nr_hash : ℕ
nr_hash = 307

-- The links of `struct buffer_head`, `b_count` (8 bits), `hash_table`, `free_list` and NR_BUFFERS.
pub record Cache : Type 0 where
  pub blk : Blk
  pub count : ℕ → ℕ
  pub next : ℕ → Option ℕ
  pub prev : ℕ → Option ℕ
  pub next_free : ℕ → Option ℕ
  pub prev_free : ℕ → Option ℕ
  pub hash_table : ℕ → Option ℕ
  pub free_list : ℕ
  pub nr_buffers : ℕ

abbrev pub head_of : Cache → ℕ → Buffer
head_of k b = k.blk.buffer b

abbrev pub set_head : ℕ → Buffer → Cache → Cache
set_head b h k = record k { blk = record k.blk { buffer = update k.blk.buffer b h } }

-- `_hashfn`.
pub hashfn : ℕ → ℕ → ℕ
hashfn dev block = bit_xor dev block % nr_hash

-- The hash queue of a buffer's own block.
abbrev pub queue_of : Cache → ℕ → ℕ
queue_of k b = hashfn (head_of k b).b_dev (head_of k b).b_blocknr

abbrev pub is_at : ℕ → Option ℕ → Bool
is_at b none = false
is_at b (some a) = a == b

-- `p->field = v`, where a null `p` is left alone.
abbrev pub store_at : Option ℕ → Option ℕ → (ℕ → Option ℕ) → ℕ → Option ℕ
store_at none v f = f
store_at (some p) v f = update f p v

-- "remove from hash-queue", one statement after the other.
abbrev pub unlink_prev : ℕ → Cache → Cache
unlink_prev b k = record k { prev = store_at (k.next b) (k.prev b) k.prev }

abbrev pub unlink_next : ℕ → Cache → Cache
unlink_next b k = record k { next = store_at (k.prev b) (k.next b) k.next }

abbrev pub unlink_hash : ℕ → Cache → Cache
unlink_hash b k =
    if is_at b (k.hash_table (queue_of k b))
    then record k { hash_table = update k.hash_table (queue_of k b) (k.next b) }
    else k

pub remove_from_hash : ℕ → Cache → Cache
remove_from_hash b k = unlink_hash b (unlink_next b (unlink_prev b k))

-- "remove from free list", for the two neighbours of `b`.
pub unlink_free : (b p n : ℕ) → Cache → Cache
unlink_free b p n k = record k {
  next_free = update k.next_free p (some n);
  prev_free = update k.prev_free n (some p);
  free_list = if k.free_list == b then n else k.free_list;
}

-- `none` is the panic.
pub remove_from_free : ℕ → Cache → Option Cache
unfolding unlink_free
remove_from_free b k = elim (k.prev_free b) [
  | none ↦ none
  | some p ↦ elim (k.next_free b) [ none ↦ none | some n ↦ some (unlink_free b p n k) ]
]

pub remove_from_queues : ℕ → Cache → Option Cache
unfolding remove_from_hash remove_from_free
remove_from_queues b k = remove_from_free b (remove_from_hash b k)

-- "put at end of free list": `last` is `free_list->b_prev_free`, which is not null in a ring.
pub link_free : (b last : ℕ) → Cache → Cache
link_free b last k = record k {
  next_free = update (update k.next_free b (some k.free_list)) last (some b);
  prev_free = update (update k.prev_free b (some last)) k.free_list (some b);
}

-- A write through a null `free_list->b_prev_free` is `none`.
pub insert_into_free : ℕ → Cache → Option Cache
unfolding link_free
insert_into_free b k = elim (k.prev_free k.free_list) [
  | none ↦ none
  | some last ↦ some (link_free b last k)
]

-- "put the buffer in new hash-queue if it has a device". Where the queue was empty, the last
-- statement of the source writes through NULL; that word is no buffer's.
pub insert_into_hash : ℕ → Cache → Cache
insert_into_hash b k =
    let bare = record k { prev = update k.prev b none; next = update k.next b none } in
    let first = k.hash_table (queue_of k b) in
    if (head_of k b).b_dev == 0 then bare else record k {
      next = update k.next b first;
      hash_table = update k.hash_table (queue_of k b) (some b);
      prev = store_at first (some b) (update k.prev b none);
    }

pub insert_into_queues : ℕ → Cache → Option Cache
unfolding insert_into_free insert_into_hash
insert_into_queues b k = Option.map (insert_into_hash b) (insert_into_free b k)

abbrev pub holds : Cache → (dev block : ℕ) → ℕ → Bool
holds k dev block b = ((head_of k b).b_dev == dev) && ((head_of k b).b_blocknr == block)

-- `for (tmp = hash(dev,block) ; tmp != NULL ; tmp = tmp->b_next)`, over at most `n` buffers.
pub walk : ℕ → Cache → (dev block : ℕ) → Option ℕ → Option ℕ
walk zero k dev block at = none
walk (suc n) k dev block none = none
walk (suc n) k dev block (some b) =
    let rest = walk n k dev block (k.next b) in if holds k dev block b then some b else rest

pub find_buffer : (dev block : ℕ) → Cache → Option ℕ
unfolding walk
find_buffer dev block k = walk (suc k.nr_buffers) k dev block (k.hash_table (hashfn dev block))

abbrev pub count_up : ℕ → Cache → Cache
count_up b k = record k { count = update k.count b ((k.count b + 1) % 2 ^ 8) }

-- How an activation ends: with a buffer, with none, asleep on a locked buffer or on `buffer_wait`,
-- after handing dirty buffers to the driver, from the start again, or in a panic.
pub data Got : Type 0 where
  got : ℕ → Cache → Got
  absent : Cache → Got
  waits_for : ℕ → Cache → Got
  waits_for_free : Cache → Got
  writes : ℕ → Cache → Got
  again : Cache → Got
  panic : Got

-- `get_hash_table`, up to `wait_on_buffer`; with the buffer unlocked the test behind it holds.
pub get_hash_table : (dev block : ℕ) → Cache → Got
unfolding find_buffer
get_hash_table dev block k = elim (find_buffer dev block k) [
  | none ↦ absent k
  | some b ↦ if (head_of k b).b_lock then waits_for b (count_up b k) else got b (count_up b k)
]

-- BADNESS.
abbrev pub badness : Cache → ℕ → ℕ
badness k b = (if (head_of k b).b_dirt then 2 else 0) + (if (head_of k b).b_lock then 1 else 0)

-- `!bh || BADNESS(tmp)<BADNESS(bh)`.
abbrev pub is_better : Cache → ℕ → Option ℕ → Bool
is_better k tmp none = true
is_better k tmp (some b) = ltb (badness k tmp) (badness k b)

-- One round of the search: what `bh` is after it, and whether the loop breaks.
pub consider : Cache → ℕ → Option ℕ → Option ℕ × Bool
consider k tmp best =
    if (k.count tmp == 0) && is_better k tmp best
    then (some tmp, badness k tmp == 0)
    else (best, false)

-- `do ... while ((tmp = tmp->b_next_free) != free_list)`, over at most `n` buffers.
pub search_free : ℕ → Cache → ℕ → Option ℕ → Option ℕ
unfolding consider
search_free zero k tmp best = best
search_free (suc n) k tmp best =
    let (best', breaks) = consider k tmp best in
    elim breaks [
      | true ↦ best'
      | false ↦ elim (k.next_free tmp) [
        | none ↦ best'
        | some next ↦ elim (next == k.free_list) [
          | true ↦ best'
          | false ↦ search_free n k next best'
        ]
      ]
    ]

-- The buffer `b` is taken for the block.
abbrev pub with_block : ℕ → (dev block : ℕ) → Cache → Cache
with_block b dev block k = set_head b (record (head_of k b) { b_dev = dev; b_blocknr = block }) k

abbrev pub claim : ℕ → Cache → Cache
claim b k =
    set_head b (record (head_of k b) { b_dirt = false; b_uptodate = false })
      (record k { count = update k.count b 1 })

abbrev pub and_then : Option Cache → (Cache → Got) → Got
and_then none f = panic
and_then (some k) f = f k

pub take_buffer : ℕ → (dev block : ℕ) → Cache → Got
unfolding remove_from_queues insert_into_queues
take_buffer b dev block k =
    and_then (remove_from_queues b (claim b k))
      λ removed. and_then (insert_into_queues b (with_block b dev block removed)) (got b)

-- From `wait_on_buffer(bh)` on, and from the wait in the loop over `b_dirt` on.
pub settle : ℕ → (dev block : ℕ) → Cache → Got
unfolding take_buffer find_buffer
settle b dev block k =
    if (head_of k b).b_lock
    then waits_for b k
    else if not (k.count b == 0)
    then again k
    else if (head_of k b).b_dirt
    then writes b k
    else elim (find_buffer dev block k) [ some _ ↦ again k | none ↦ take_buffer b dev block k ]

abbrev pub or_else : Got → (Cache → Got) → Got
or_else (absent k) f = f k
or_else g f = g

pub getblk : (dev block : ℕ) → Cache → Got
unfolding get_hash_table search_free settle
getblk dev block k = or_else (get_hash_table dev block k) λ k.
    elim (search_free k.nr_buffers k k.free_list none) [
      | none ↦ waits_for_free k
      | some b ↦ settle b dev block k
    ]

-- How `brelse` ends; it wakes a task that waits for a free buffer.
pub brelse : Option ℕ → Cache → Got
brelse none k = absent k
brelse (some b) k =
    if (head_of k b).b_lock
    then waits_for b k
    else if k.count b == 0
    then panic
    else got b (record k { count = update k.count b (k.count b - 1) })

-- `bread` with the buffer of `getblk`: it is up to date, or the read is handed to the driver.
pub data Read : Type 0 where
  ready : ℕ → Cache → Read
  started : ℕ → Made → Cache → Read
  not_yet : Got → Read

pub start_read : Got → Read
start_read (got b k) =
    if (head_of k b).b_uptodate then ready b k else started b (ll_rw_block read b k.blk) k
start_read g = not_yet g

pub bread : (dev block : ℕ) → Cache → Read
unfolding getblk start_read
bread dev block k = start_read (getblk dev block k)

-- `invalidate_buffers`, over the buffers from `i`, `n` left, none of them locked.
pub invalidate_buffers : (n i dev : ℕ) → Cache → Cache
invalidate_buffers zero i dev k = k
invalidate_buffers (suc n) i dev k =
    let invalid = set_head i (record (head_of k i) { b_uptodate = false; b_dirt = false }) k in
    invalidate_buffers n (i + 1) dev (if (head_of k i).b_dev == dev then invalid else k)
