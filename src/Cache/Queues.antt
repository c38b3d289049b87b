-- ===== src/Cache/Queues.antt =====
-- The ring of free buffers (fs/buffer.c): a buffer that is taken goes to its end.
use liha_linux.Base.{
  ◌++◌, ==_iff, ==_≢, List, Option, [], ap, if◌then◌else◌, refl, some, subst, sym, update, ℕ, ◌∙◌,
  ◌∷◌, ◌≡◌, ◌≢◌,
}
use liha_linux.Cache.{Cache, remove_from_free, unlink_free, insert_into_free, link_free}
use liha_linux.Cache.Links.{Distinct-snoc, Distinct-without, Out, Distinct, Out-right}
use liha_linux.Cache.Ring.{Linked, step, last_of, first_of, back, forth, retarget, without, snoc}

-- `free_list` starts a ring of distinct buffers.
pub record IsRing (k : Cache) (x : ℕ) (xs : List ℕ) : Type 0 where
  pub first : k.free_list ≡ x
  pub distinct : Distinct (x ∷ xs)
  pub links : Linked k.next_free k.prev_free x xs x

neighbours :
    {nf pf : ℕ → Option ℕ} (a : ℕ) (ls : List ℕ) (b : ℕ) (rs : List ℕ) (z : ℕ)
    → Linked nf pf a (ls ++ b ∷ rs) z
    → (pf b ≡ some (last_of a ls)) × (nf b ≡ some (first_of rs z))
neighbours a [] b rs z (step f g l) = (g, forth b rs z l)
neighbours a (c ∷ ls) b rs z (step f g l) = neighbours c ls b rs z l

remove_from_free_lem :
    (b p n : ℕ) (k : Cache)
    → k.prev_free b ≡ some p
    → k.next_free b ≡ some n
    → remove_from_free b k ≡ some (unlink_free b p n k)
unfolding remove_from_free
remove_from_free_lem b p n k e f = rw (e, f, remove_from_free)

insert_into_free_lem :
    (b last : ℕ) (k : Cache)
    → k.prev_free k.free_list ≡ some last
    → insert_into_free b k ≡ some (link_free b last k)
unfolding insert_into_free
insert_into_free_lem b last k e = rw (e, insert_into_free)

behind_first :
    {nf pf : ℕ → Option ℕ} (x y : ℕ) (ys : List ℕ)
    → Distinct (x ∷ (y ∷ ys))
    → Linked nf pf x (y ∷ ys) x
    → Linked (update nf (last_of y ys) (some y)) (update pf y (some (last_of y ys))) y ys y
behind_first x y ys d (step f g l) = retarget y ys x y d.1 d.1.0 l

-- The head leaves the ring.
remove_first :
    (x y : ℕ) (ys : List ℕ) (k : Cache)
    → IsRing k x (y ∷ ys)
    → (k' : Cache) × (remove_from_free x k ≡ some k') × IsRing k' y ys
unfolding unlink_free
remove_first x y ys k r =
    let p = last_of y ys in
    (
      unlink_free x p y k,
      remove_from_free_lem x p y k (back x (y ∷ ys) x r.links) (forth x (y ∷ ys) x r.links),
      record {
        first = ap (λ t. if t then y else k.free_list) ((==_iff k.free_list x).1 r.first);
        distinct = r.distinct.1;
        links = behind_first x y ys r.distinct r.links;
      },
    )

-- Another buffer leaves the ring.
remove_later :
    (x : ℕ) (ls : List ℕ) (b : ℕ) (rs : List ℕ) (k : Cache)
    → IsRing k x (ls ++ b ∷ rs)
    → (k' : Cache) × (remove_from_free b k ≡ some k') × IsRing k' x (ls ++ rs)
unfolding unlink_free
remove_later x ls b rs k r =
    let p = last_of x ls in
    let n = first_of rs x in
    let near = neighbours x ls b rs x r.links in
    (
      unlink_free b p n k,
      remove_from_free_lem b p n k near.0 near.1,
      record {
        first =
            ap (λ t. if t then n else k.free_list)
              (==_≢ k.free_list b (λ e. (Out-right x ls (b ∷ rs) r.distinct.0).0 (sym r.first ∙ e)))
            ∙ r.first;
        distinct = Distinct-without (x ∷ ls) b rs r.distinct;
        links = without x ls b rs x r.distinct r.distinct.0 r.links;
      },
    )

insert_last :
    (b x : ℕ) (xs : List ℕ) (k : Cache)
    → Out b (x ∷ xs)
    → IsRing k x xs
    → (k' : Cache) × (insert_into_free b k ≡ some k')
      × (k'.blk ≡ k.blk)
      × IsRing k' x (xs ++ b ∷ [])
unfolding link_free
insert_last b x xs k new r =
    let last = last_of x xs in
    (
      link_free b last k,
      insert_into_free_lem b last k (ap k.prev_free r.first ∙ back x xs x r.links),
      refl,
      record {
        first = r.first;
        distinct = Distinct-snoc (x ∷ xs) b r.distinct new;
        links =
            subst
              (λ f.
                Linked (update (update k.next_free b (some f)) last (some b))
                  (update (update k.prev_free b (some last)) f (some b)) x (xs ++ b ∷ []) x)
              (sym r.first)
              (snoc x xs b x r.distinct new r.distinct.0 (λ e. new.0 (sym e)) r.links);
      },
    )

pub IsRingOf : Cache → List ℕ → Type 0
IsRingOf k [] = ⊥
IsRingOf k (x ∷ xs) = IsRing k x xs

-- Any buffer of a ring of two or more leaves it.
pub remove_from_free-IsRingOf :
    (ls : List ℕ) (b : ℕ) (rs : List ℕ) (k : Cache)
    → ls ++ rs ≢ []
    → IsRingOf k (ls ++ b ∷ rs)
    → (k' : Cache) × (remove_from_free b k ≡ some k') × IsRingOf k' (ls ++ rs)
unfolding IsRingOf
remove_from_free-IsRingOf [] b [] k h r = absurd (h refl)
remove_from_free-IsRingOf [] b (y ∷ ys) k h r = remove_first b y ys k r
remove_from_free-IsRingOf (x ∷ ls) b rs k h r = remove_later x ls b rs k r

pub insert_into_free-IsRingOf :
    (b : ℕ) (xs : List ℕ) (k : Cache)
    → Out b xs
    → IsRingOf k xs
    → (k' : Cache) × (insert_into_free b k ≡ some k')
      × (k'.blk ≡ k.blk)
      × IsRingOf k' (xs ++ b ∷ [])
unfolding IsRingOf
insert_into_free-IsRingOf b [] k new r = absurd r
insert_into_free-IsRingOf b (x ∷ xs) k new r = insert_last b x xs k new r

-- The ring lies in the links, not in the other fields.
pub IsRingOf-frame :
    (xs : List ℕ) (k k' : Cache)
    → k'.next_free ≡ k.next_free
    → k'.prev_free ≡ k.prev_free
    → k'.free_list ≡ k.free_list
    → IsRingOf k xs
    → IsRingOf k' xs
unfolding IsRingOf
IsRingOf-frame [] k k' e f g r = r
IsRingOf-frame (x ∷ xs) k k' e f g r = record {
  first = g ∙ r.first;
  distinct = r.distinct;
  links =
      subst (λ pf. Linked k'.next_free pf x xs x) (sym f)
        (subst (λ nf. Linked nf k.prev_free x xs x) (sym e) r.links);
}

pub IsRingOf-Distinct : (xs : List ℕ) (k : Cache) → IsRingOf k xs → Distinct xs
unfolding IsRingOf
IsRingOf-Distinct [] k r = tt
IsRingOf-Distinct (x ∷ xs) k r = r.distinct

pub IsRing-IsRingOf : (x : ℕ) (xs : List ℕ) (k : Cache) → IsRing k x xs → IsRingOf k (x ∷ xs)
unfolding IsRingOf
IsRing-IsRingOf x xs k r = r
