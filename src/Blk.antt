-- ===== src/Blk.antt =====
-- kernel/blk_drv: the table of requests and the elevator of ll_rw_blk.c, `end_request` of blk.h. A
-- request is named by its index in `request`; the requests linked from a device's `current_request`
-- by `next` are a list of indices.
pub mod Order
pub mod Elevator
pub mod Slots
pub mod Reserved
mod Tests
use liha_linux.Base.{
  ◌&&◌, ◌*◌, ◌/◌, ◌==◌, Bool, List, Option, [], ◌^◌, eq_ℤ, false, if◌then◌else◌, leb, ltb, ltb_ℤ,
  negsuc, none, not, pos, some, suc, true, update, zero, ◌||◌, ℕ, ℤ, ◌∷◌,
}

abbrev pub nr_request : ℕ
nr_request = 32

abbrev pub nr_blk_dev : ℕ
nr_blk_dev = 7

-- `struct request`; the device is -1 if the request is free, `bh` names a buffer, `none` is NULL.
pub record Request : Type 0 where
  pub dev : ℤ
  pub cmd : ℕ
  pub errors : ℕ
  pub sector : ℕ
  pub nr_sectors : ℕ
  pub bh : Option ℕ

-- The fields of `struct buffer_head` that the block layer uses.
pub record Buffer : Type 0 where
  pub b_blocknr : ℕ
  pub b_dev : ℕ
  pub b_uptodate : Bool
  pub b_dirt : Bool
  pub b_lock : Bool

-- READ, WRITE, READA and WRITEA.
pub data Command : Type 0 where
  read write reada writea : Command

abbrev pub cmd_of : Command → ℕ
cmd_of read = 0
cmd_of write = 1
cmd_of reada = 0
cmd_of writea = 1

abbrev pub is_ahead : Command → Bool
is_ahead reada = true
is_ahead writea = true
is_ahead _ = false

-- `queue` gives the list of each major device, `has_driver` the devices with a `request_fn`.
pub record Blk : Type 0 where
  pub request : ℕ → Request
  pub buffer : ℕ → Buffer
  pub queue : ℕ → List ℕ
  pub has_driver : ℕ → Bool

-- IN_ORDER.
pub in_order : Request → Request → Bool
in_order s1 s2 =
    ltb s1.cmd s2.cmd
    || (s1.cmd == s2.cmd) && (ltb_ℤ s1.dev s2.dev || eq_ℤ s1.dev s2.dev && ltb s1.sector s2.sector)

-- `for ( ; tmp->next ; tmp=tmp->next)` and what follows it: the list behind `tmp`.
module _ (order : ℕ → ℕ → Bool) (req : ℕ) where
  pub insert_behind : ℕ → List ℕ → List ℕ
  insert_behind tmp [] = req ∷ []
  insert_behind tmp (next ∷ rest) =
      let behind = insert_behind next rest in
      if (order tmp req || not (order tmp next)) && order req next
      then req ∷ next ∷ rest
      else next ∷ behind

abbrev pub clean : Option ℕ → (ℕ → Buffer) → ℕ → Buffer
clean none buffer = buffer
clean (some b) buffer = update buffer b (record (buffer b) { b_dirt = false })

-- The queue after `add_request`, and whether the device is started.
pub enqueue : (ℕ → ℕ → Bool) → ℕ → List ℕ → List ℕ × Bool
unfolding insert_behind
enqueue order req [] = (req ∷ [], true)
enqueue order req (tmp ∷ rest) = (tmp ∷ insert_behind order req tmp rest, false)

pub add_request : ℕ → ℕ → Blk → Blk × Bool
unfolding enqueue in_order
add_request major req s =
    let (queue, starts) =
      enqueue (λ a b. in_order (s.request a) (s.request b)) req (s.queue major) in
    (
      record s { buffer = clean (s.request req).bh s.buffer; queue = update s.queue major queue },
      starts,
    )

-- `while (--req >= request) if (req->dev<0) break;` below `req`.
pub find_request : ℕ → (ℕ → Request) → Option ℕ
find_request zero request = none
find_request (suc req) request =
    let rest = find_request req request in
    if ltb_ℤ (request req).dev (pos 0) then some req else rest

-- `request+NR_REQUEST`, or `request+((NR_REQUEST*2)/3)` for a write.
abbrev pub limit_of : ℕ → ℕ
limit_of rw = if rw == 0 then nr_request else nr_request * 2 / 3

-- How an activation of `make_request` ends. It sleeps on the buffer, or on the table of requests
-- with the buffer locked, and goes on at `repeat` later.
pub data Made : Type 0 where
  returns : Blk → Made
  waits_for_buffer : Blk → Made
  waits_for_request : Blk → Made
  queued : ℕ → Blk → Bool → Made

abbrev pub set_lock : ℕ → Bool → Blk → Blk
set_lock b lock s = record s { buffer = update s.buffer b (record (s.buffer b) { b_lock = lock }) }

-- The request that `make_request` fills in.
abbrev pub request_for : ℕ → ℕ → Buffer → Request
request_for rw b buffer = record {
  dev = pos buffer.b_dev;
  cmd = rw;
  errors = 0;
  sector = buffer.b_blocknr * 2;
  nr_sectors = 2;
  bh = some b;
}

-- From `repeat` on.
pub repeat : ℕ → Command → ℕ → Blk → Made
unfolding find_request add_request
repeat major command b s = elim (find_request (limit_of (cmd_of command)) s.request) [
  | none ↦ if is_ahead command then returns (set_lock b false s) else waits_for_request s
  | some req ↦
      let filled = record s {
        request = update s.request req (request_for (cmd_of command) b (s.buffer b));
      } in
      let (s', starts) = add_request major req filled in queued req s' starts
]

-- With the buffer locked by this task.
pub with_lock : ℕ → Command → ℕ → Blk → Made
unfolding repeat
with_lock major command b s =
    let buffer = s.buffer b in
    let nothing_to_do = if cmd_of command == 1 then not buffer.b_dirt else buffer.b_uptodate in
    let made = repeat major command b s in
    if nothing_to_do then returns (set_lock b false s) else made

pub make_request : ℕ → Command → ℕ → Blk → Made
unfolding with_lock
make_request major command b s =
    if (s.buffer b).b_lock
    then if is_ahead command then returns s else waits_for_buffer s
    else with_lock major command b (set_lock b true s)

-- MAJOR.
abbrev pub major_of : ℕ → ℕ
major_of dev = dev / 2 ^ 8

pub ll_rw_block : Command → ℕ → Blk → Made
unfolding make_request
ll_rw_block command b s =
    let major = major_of (s.buffer b).b_dev in
    let made = make_request major command b s in
    if leb nr_blk_dev major || not (s.has_driver major) then returns s else made

abbrev pub set_uptodate : Bool → Option ℕ → (ℕ → Buffer) → ℕ → Buffer
set_uptodate uptodate none buffer = buffer
set_uptodate uptodate (some b) buffer =
    update buffer b (record (buffer b) { b_uptodate = uptodate; b_lock = false })

-- `end_request` for the first request of a device.
pub end_request : ℕ → Bool → Blk → Blk
end_request major uptodate s = elim (s.queue major) [
  | [] ↦ s
  | current ∷ next ↦ record s {
    buffer = set_uptodate uptodate (s.request current).bh s.buffer;
    request = update s.request current (record (s.request current) { dev = negsuc 0 });
    queue = update s.queue major next;
  }
]
