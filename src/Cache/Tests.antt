-- ===== src/Cache/Tests.antt =====
-- Tests of the model of fs/buffer.c on three buffers in a ring.
use liha_linux.Base.{
  ◌==◌, Option, [], arith, false, if◌then◌else◌, negsuc, none, refl, some, suc, true, zero, ℕ, ◌∷◌,
  ◌≡◌,
}
use liha_linux.Cache.{consider, Cache, take_buffer, find_buffer, search_free, got}
use liha_linux.Cache.Queues.{IsRing, IsRingOf, IsRing-IsRingOf}
use liha_linux.Cache.Links.{IsIn}
use liha_linux.Cache.Ring.{step, done}
use liha_linux.Cache.Taken.{take_buffer-IsRingOf, find_buffer-take_buffer}
use liha_linux.Cache.Least.{IsChoice, search_free-IsChoice}

abbrev next_of : ℕ → Option ℕ
next_of zero = some 1
next_of (suc zero) = some 2
next_of (suc (suc n)) = some 0

abbrev prev_of : ℕ → Option ℕ
prev_of zero = some 2
prev_of (suc zero) = some 0
prev_of (suc (suc n)) = some 1

-- Buffer 1 is in use, buffer 2 is dirty.
abbrev three : Cache
three = record {
  blk = record {
    request =
        λ _. record { dev = negsuc 0; cmd = 0; errors = 0; sector = 0; nr_sectors = 0; bh = none };
    buffer = λ n. record {
      b_blocknr = n;
      b_dev = 0;
      b_uptodate = false;
      b_dirt = n == 2;
      b_lock = false;
    };
    queue = λ _. [];
    has_driver = λ _. true;
  };
  count = λ n. if n == 1 then 1 else 0;
  next = λ _. none;
  prev = λ _. none;
  next_free = next_of;
  prev_free = prev_of;
  hash_table = λ _. none;
  free_list = 1;
  nr_buffers = 3;
}

three-IsRing : IsRing three 1 (2 ∷ 0 ∷ [])
three-IsRing = record {
  first = refl;
  distinct = (((ground arith), ((ground arith), tt)), (((ground arith), tt), (tt, tt)));
  links = step refl refl (step refl refl (done refl refl));
}

take_buffer-IsRingOf_example :
    (k' : Cache) × (take_buffer 2 768 5 three ≡ got 2 k') × IsRingOf k' (1 ∷ 0 ∷ 2 ∷ [])
take_buffer-IsRingOf_example =
    take_buffer-IsRingOf 2 768 5 three (1 ∷ []) (0 ∷ []) (ground arith)
      (IsRing-IsRingOf 1 (2 ∷ 0 ∷ []) three three-IsRing)

find_buffer-take_buffer_example :
    (k' : Cache) × (take_buffer 2 768 5 three ≡ got 2 k') × (find_buffer 768 5 k' ≡ some 2)
find_buffer-take_buffer_example =
    find_buffer-take_buffer 2 768 5 three (1 ∷ []) (0 ∷ []) (ground arith) (ground arith)
      (IsRing-IsRingOf 1 (2 ∷ 0 ∷ []) three three-IsRing)

search_free-IsChoice_example :
    IsChoice three (λ c. IsIn c (1 ∷ 2 ∷ 0 ∷ [])) (search_free 3 three 1 none)
search_free-IsChoice_example = search_free-IsChoice three 1 (2 ∷ 0 ∷ []) three-IsRing (omega arith)

-- The clean buffer is picked, and taken for the block.
search_test : search_free 3 three 1 none ≡ some 0
unfolding search_free consider
search_test = refl
