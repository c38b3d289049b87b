-- ===== src/Blk/Tests.antt =====
-- The block layer (kernel/blk_drv) on a small table of requests.
use liha_linux.Base.{[], false, inr, negsuc, none, pos, refl, suc, true, zero, ℕ, ◌∷◌, ◌≡◌, ◌≢◌}
use liha_linux.Blk.{Blk, Buffer, Request, write, ll_rw_block, end_request, add_request, in_order}
use liha_linux.Blk.Elevator.{
  add_request-IsSwept, IsSwept, AllApart, count, turn, last, nothing, also,
}
use liha_linux.Blk.Reserved.{after, Reach-KeepsForReads, KeepsForReads, start, next, asks, ends}

abbrev request_at : ℕ → Request
request_at sector = record {
  dev = pos 768;
  cmd = 0;
  errors = 0;
  sector = sector;
  nr_sectors = 2;
  bh = none;
}

abbrev requests : ℕ → Request
requests zero = request_at 40
requests (suc zero) = request_at 10
requests (suc (suc zero)) = request_at 60
requests (suc (suc (suc n))) = record (request_at 0) { dev = negsuc 0 }

abbrev buffers : ℕ → Buffer
buffers n = record {
  b_blocknr = n;
  b_dev = 768;
  b_uptodate = false;
  b_dirt = false;
  b_lock = false;
}

-- The device 3 serves sector 40, then 10.
abbrev disk : Blk
disk = record {
  request = requests;
  buffer = buffers;
  queue = λ _. 0 ∷ 1 ∷ [];
  has_driver = λ _. true;
}

disk-IsSwept : IsSwept requests (0 ∷ 1 ∷ [])
unfolding in_order
disk-IsSwept = turn refl last

disk-AllApart : AllApart requests 2 (0 ∷ 1 ∷ [])
unfolding in_order
disk-AllApart = also (inr refl) (also (inr refl) nothing)

add_request-IsSwept_example :
    IsSwept requests ((add_request 3 2 disk).0.queue 3)
    × ((x : ℕ) → count x ((add_request 3 2 disk).0.queue 3) ≡ count x (2 ∷ 0 ∷ 1 ∷ []))
    × ((other : ℕ) → other ≢ 3 → (add_request 3 2 disk).0.queue other ≡ 0 ∷ 1 ∷ [])
add_request-IsSwept_example = add_request-IsSwept 3 2 disk disk-IsSwept disk-AllApart

reads : KeepsForReads requests
reads (suc (suc (suc n))) low high used = refl
reads zero low high used = refl
reads (suc zero) low high used = refl
reads (suc (suc zero)) low high used = refl

-- A write of a buffer, and the end of a request.
Reach-KeepsForReads_example :
    KeepsForReads (end_request 3 true (after (ll_rw_block write 5 disk))).request
Reach-KeepsForReads_example =
    Reach-KeepsForReads {s = disk} reads (next (next start (asks write 5)) (ends 3 true))
