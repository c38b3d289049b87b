-- ===== src/Cache/Taken.antt =====
-- A buffer taken for a block (fs/buffer.c, the end of getblk): where the queues hold it then.
use liha_linux.Base.{
  ◌++◌, ◌==◌, ==_iff, ==_≢, Bool, Bool-cases, List, [], ap, false, if◌then◌else◌, inl, inr, none,
  refl, some, subst, sym, true, update, update_self, ℕ, ◌∙◌, ◌∷◌, ◌≡◌, ◌≢◌,
}
use liha_linux.Cache.{
  is_at, store_at, queue_of, Cache, got, head_of, unlink_next, unlink_prev, remove_from_hash,
  remove_from_free, remove_from_queues, insert_into_hash, insert_into_free, insert_into_queues,
  claim, with_block, take_buffer, find_buffer, walk, hashfn,
}
use liha_linux.Cache.Links.{Out-middle}
use liha_linux.Cache.Queues.{
  IsRingOf-Distinct, IsRingOf-frame, remove_from_free-IsRingOf, insert_into_free-IsRingOf, IsRingOf,
}

if-IsRingOf :
    (t : Bool) (k k' : Cache) (xs : List ℕ)
    → IsRingOf k xs
    → IsRingOf k' xs
    → IsRingOf (if t then k else k') xs
if-IsRingOf true k k' xs r s = r
if-IsRingOf false k k' xs r s = s

remove_from_hash-IsRingOf :
    (b : ℕ) (xs : List ℕ) (k : Cache) → IsRingOf k xs → IsRingOf (remove_from_hash b k) xs
unfolding remove_from_hash
remove_from_hash-IsRingOf b xs k r =
    let l = unlink_next b (unlink_prev b k) in
    let h = record l { hash_table = update l.hash_table (queue_of l b) (l.next b) } in
    if-IsRingOf (is_at b (l.hash_table (queue_of l b))) h l xs
      (IsRingOf-frame xs k h refl refl refl r) (IsRingOf-frame xs k l refl refl refl r)

insert_into_hash-IsRingOf :
    (b : ℕ) (xs : List ℕ) (k : Cache) → IsRingOf k xs → IsRingOf (insert_into_hash b k) xs
unfolding insert_into_hash
insert_into_hash-IsRingOf b xs k r =
    let bare = record k { prev = update k.prev b none; next = update k.next b none } in
    let first = k.hash_table (queue_of k b) in
    let h = record k {
      next = update k.next b first;
      hash_table = update k.hash_table (queue_of k b) (some b);
      prev = store_at first (some b) (update k.prev b none);
    } in
    if-IsRingOf ((head_of k b).b_dev == 0) bare h xs (IsRingOf-frame xs k bare refl refl refl r)
      (IsRingOf-frame xs k h refl refl refl r)

-- The two steps of `take_buffer`: what leaves the queues, and what comes back at their ends.
pub record Taken (b dev block : ℕ) (k : Cache) (xs : List ℕ) : Type 0 where
  pub linked : Cache
  pub runs : take_buffer b dev block k ≡ got b (insert_into_hash b linked)
  pub has_dev : (head_of linked b).b_dev ≡ dev
  pub has_block : (head_of linked b).b_blocknr ≡ block
  pub free : IsRingOf (insert_into_hash b linked) (xs ++ b ∷ [])

take_buffer_steps :
    (b dev block : ℕ) (k k1 k2 : Cache)
    → remove_from_free b (remove_from_hash b (claim b k)) ≡ some k1
    → insert_into_free b (with_block b dev block k1) ≡ some k2
    → take_buffer b dev block k ≡ got b (insert_into_hash b k2)
unfolding take_buffer remove_from_queues insert_into_queues
take_buffer_steps b dev block k k1 k2 e f = rw (e, f) refl

pub take_buffer-Taken :
    (b dev block : ℕ) (k : Cache) (ls rs : List ℕ)
    → ls ++ rs ≢ []
    → IsRingOf k (ls ++ b ∷ rs)
    → Taken b dev block k (ls ++ rs)
take_buffer-Taken b dev block k ls rs many r =
    let all = ls ++ b ∷ rs in
    let c = claim b k in
    let (k1, e, r1) =
      remove_from_free-IsRingOf ls b rs (remove_from_hash b c) many
        (remove_from_hash-IsRingOf b all c (IsRingOf-frame all k c refl refl refl r)) in
    let w = with_block b dev block k1 in
    let (k2, f, same, r2) =
      insert_into_free-IsRingOf b (ls ++ rs) w (Out-middle ls b rs (IsRingOf-Distinct all k r))
        (IsRingOf-frame (ls ++ rs) k1 w refl refl refl r1) in
    let h = record (head_of k1 b) { b_dev = dev; b_blocknr = block } in
    let held = update_self k1.blk.buffer b h in
    record {
      linked = k2;
      runs = take_buffer_steps b dev block k k1 k2 e f;
      has_dev = ap (λ l. (l.buffer b).b_dev) same ∙ ap (λ h. h.b_dev) held;
      has_block = ap (λ l. (l.buffer b).b_blocknr) same ∙ ap (λ h. h.b_blocknr) held;
      free = insert_into_hash-IsRingOf b ((ls ++ rs) ++ b ∷ []) k2 r2;
    }

-- The buffer that `getblk` takes, from anywhere in a ring of two or more free buffers, is the last
-- one of the ring behind it, and the others keep their order.
pub take_buffer-IsRingOf :
    (b dev block : ℕ) (k : Cache) (ls rs : List ℕ)
    → ls ++ rs ≢ []
    → IsRingOf k (ls ++ b ∷ rs)
    → (k' : Cache) × (take_buffer b dev block k ≡ got b k') × IsRingOf k' ((ls ++ rs) ++ b ∷ [])
take_buffer-IsRingOf b dev block k ls rs many r =
    let t = take_buffer-Taken b dev block k ls rs many r in
    (insert_into_hash b t.linked, t.runs, t.free)

-- The head of a hash queue is found at once.
find_first :
    (b dev block : ℕ) (k : Cache)
    → k.hash_table (hashfn dev block) ≡ some b
    → (head_of k b).b_dev ≡ dev
    → (head_of k b).b_blocknr ≡ block
    → find_buffer dev block k ≡ some b
unfolding find_buffer walk
find_first b dev block k e f g =
    let d = (==_iff (head_of k b).b_dev dev).1 f in
    let n = (==_iff (head_of k b).b_blocknr block).1 g in rw (e, d, n) refl

insert_into_hash_head :
    (b : ℕ) (k : Cache)
    → (head_of k b).b_dev ≢ 0
    → (insert_into_hash b k).hash_table (queue_of k b) ≡ some b
unfolding insert_into_hash
insert_into_hash_head b k ne =
    rw (==_≢ (head_of k b).b_dev 0 ne) (update_self k.hash_table (queue_of k b) (some b))

insert_into_hash-blk : (b : ℕ) (k : Cache) → (insert_into_hash b k).blk ≡ k.blk
unfolding insert_into_hash
insert_into_hash-blk b k = elim (Bool-cases ((head_of k b).b_dev == 0)) [
  | inl e ↦ rw (e) refl
  | inr e ↦ rw (e) refl
]

-- A buffer taken for a block of a device is what `find_buffer` finds for that block.
pub find_buffer-take_buffer :
    (b dev block : ℕ) (k : Cache) (ls rs : List ℕ)
    → dev ≢ 0
    → ls ++ rs ≢ []
    → IsRingOf k (ls ++ b ∷ rs)
    → (k' : Cache) × (take_buffer b dev block k ≡ got b k') × (find_buffer dev block k' ≡ some b)
find_buffer-take_buffer b dev block k ls rs ne many r =
    let t = take_buffer-Taken b dev block k ls rs many r in
    let l = t.linked in
    let same = insert_into_hash-blk b l in
    (
      insert_into_hash b l,
      t.runs,
      find_first b dev block (insert_into_hash b l)
          (subst (λ q. (insert_into_hash b l).hash_table q ≡ some b)
            (ap (λ d. hashfn d (head_of l b).b_blocknr) t.has_dev ∙ ap (hashfn dev) t.has_block)
            (insert_into_hash_head b l (λ e. ne (sym t.has_dev ∙ e))))
          (ap (λ d. (d.buffer b).b_dev) same ∙ t.has_dev)
          (ap (λ d. (d.buffer b).b_blocknr) same ∙ t.has_block),
    )
