-- ===== src/Cache/Least.antt =====
-- What the search of `getblk` (fs/buffer.c) picks: a free buffer of the least badness.
use liha_linux.Base.{
  ◌&&◌, ◌<◌, ◌==◌, ==_iff, Bool-cases, List, Option, [], ap, arith, false, inl, inr, length, ltb,
  none, refl, some, subst, sym, true, true_is_not_false, ℕ, ◌∙◌, ◌∷◌, ◌≡◌, ◌≢◌, ◌≤◌, ◌⊎◌,
}
use liha_linux.Cache.{Cache, badness, is_better, search_free}
use liha_linux.Cache.Links.{Out, IsIn}
use liha_linux.Cache.Queues.{IsRing}
use liha_linux.Cache.Choice.{search_free_list, consider_takes, consider_keeps, pick, best_of}
use liha_linux.Cache.Ring.{Linked}

-- The choice among the buffers of a set: none when all are in use.
pub IsChoice : Cache → (ℕ → Type 0) → Option ℕ → Type 0
IsChoice k P none = (c : ℕ) → P c → k.count c ≢ 0
IsChoice k P (some b) =
    P b × (k.count b ≡ 0) × ((c : ℕ) → P c → k.count c ≡ 0 → badness k b ≤ badness k c)

not_ltb : {a b : ℕ} → ltb a b ≡ false → b ≤ a
not_ltb h = ground arith

le_of_ltb : {a b c : ℕ} → ltb a b ≡ true → b ≤ c → a ≤ c
le_of_ltb h g = ground arith

ap_le : (f : ℕ → ℕ) {c x : ℕ} → c ≡ x → f x ≤ f c
ap_le f {c} {x} e = subst (λ y. f y ≤ f c) e (omega arith)

abbrev And : (ℕ → Type 0) → ℕ → ℕ → Type 0
And P x c = P c ⊎ (c ≡ x)

-- A round adds one buffer to those that were seen.
keeps :
    (k : Cache) (P : ℕ → Type 0) (best : Option ℕ) (x : ℕ)
    → k.count x ≢ 0
    → IsChoice k P best
    → IsChoice k (And P x) best
unfolding IsChoice
keeps k P none x used h =
    λ c p. elim p [ inl q ↦ h c q | inr e ↦ λ z. used (ap k.count (sym e) ∙ z) ]
keeps k P (some b) x used h = (
  inl h.0,
  h.1,
  λ c p z. elim p [ inl q ↦ h.2 c q z | inr e ↦ absurd (used (ap k.count (sym e) ∙ z)) ],
)

stays :
    (k : Cache) (P : ℕ → Type 0) (best : Option ℕ) (x : ℕ)
    → is_better k x best ≡ false
    → IsChoice k P best
    → IsChoice k (And P x) best
unfolding IsChoice
stays k P none x above h = true_is_not_false above
stays k P (some b) x above h = (
  inl h.0,
  h.1,
  λ c p z. elim p [
    | inl q ↦ h.2 c q z
    | inr e ↦ subst (λ y. badness k b ≤ badness k y) (sym e) (not_ltb above)
  ],
)

takes :
    (k : Cache) (P : ℕ → Type 0) (best : Option ℕ) (x : ℕ)
    → k.count x ≡ 0
    → is_better k x best ≡ true
    → IsChoice k P best
    → IsChoice k (And P x) (some x)
unfolding IsChoice
takes k P none x free better h =
    (inr refl, free, λ c p z. elim p [ inl q ↦ absurd (h c q z) | inr e ↦ ap_le (badness k) e ])
takes k P (some b) x free better h = (
  inr refl,
  free,
  λ c p z. elim p [ inl q ↦ le_of_ltb better (h.2 c q z) | inr e ↦ ap_le (badness k) e ],
)

pick-IsChoice :
    (k : Cache) (P : ℕ → Type 0) (best : Option ℕ) (x : ℕ)
    → IsChoice k P best
    → IsChoice k (And P x) (pick k best x)
pick-IsChoice k P best x h = elim (Bool-cases (k.count x == 0)) [
  | inr f ↦
      subst (IsChoice k (And P x))
        (sym (ap (λ c. c.0) (consider_keeps k x best (ap (λ t. t && is_better k x best) f))))
        (keeps k P best x (λ e. true_is_not_false (sym ((==_iff (k.count x) 0).1 e) ∙ f)) h)
  | inl f ↦ elim (Bool-cases (is_better k x best)) [
    | inl g ↦
        subst (IsChoice k (And P x))
          (sym (ap (λ c. c.0) (consider_takes k x best (ap (λ t. t && is_better k x best) f ∙ g))))
          (takes k P best x ((==_iff (k.count x) 0).0 f) g h)
    | inr g ↦
        subst (IsChoice k (And P x))
          (sym (ap (λ c. c.0) (consider_keeps k x best (ap (λ t. t && is_better k x best) f ∙ g))))
          (stays k P best x g h)
  ]
]

IsChoice-same :
    (k : Cache) (P Q : ℕ → Type 0) (best : Option ℕ)
    → ((c : ℕ) → P c → Q c)
    → ((c : ℕ) → Q c → P c)
    → IsChoice k P best
    → IsChoice k Q best
unfolding IsChoice
IsChoice-same k P Q none f g h = λ c q. h c (g c q)
IsChoice-same k P Q (some b) f g h = (f b h.0, h.1, λ c q. h.2 c (g c q))

best_of-IsChoice :
    (k : Cache) (P : ℕ → Type 0) (best : Option ℕ) (xs : List ℕ)
    → IsChoice k P best
    → IsChoice k (λ c. P c ⊎ IsIn c xs) (best_of k best xs)
best_of-IsChoice k P best [] h =
    IsChoice-same k P (λ c. P c ⊎ ⊥) best (λ c. inl)
      (λ c p. elim p [ inl q ↦ q | inr e ↦ absurd e ]) h
best_of-IsChoice k P best (x ∷ xs) h =
    IsChoice-same k (λ c. (P c ⊎ (c ≡ x)) ⊎ IsIn c xs) (λ c. P c ⊎ ((c ≡ x) ⊎ IsIn c xs))
      (best_of k best (x ∷ xs))
      (λ c p. elim p [
        | inl q ↦ elim q [ inl r ↦ inl r | inr r ↦ inr (inl r) ]
        | inr q ↦ inr (inr q)
      ])
      (λ c p. elim p [
        | inl q ↦ inl (inl q)
        | inr q ↦ elim q [ inl r ↦ inl (inr r) | inr r ↦ inr r ]
      ])
      (best_of-IsChoice k (And P x) (pick k best x) xs (pick-IsChoice k P best x h))

none_seen : (k : Cache) → IsChoice k (λ c. ⊥) none
unfolding IsChoice
none_seen k = λ c e. absurd e

search_ring :
    (k : Cache) (x : ℕ) (xs : List ℕ)
    → IsRing k x xs
    → length xs < k.nr_buffers
    → search_free k.nr_buffers k k.free_list none ≡ best_of k none (x ∷ xs)
search_ring k x xs r h =
    ap (λ f. search_free k.nr_buffers k f none) r.first
    ∙ search_free_list k k.nr_buffers x xs none
        (subst (Linked k.next_free k.prev_free x xs) (sym r.first) r.links)
        (subst (λ f. Out f xs) (sym r.first) r.distinct.0) h

-- The search over the ring ends, and its result is a buffer of the ring that nobody uses, of the
-- least badness among these, or none where all are in use; the fuel is the number of buffers.
pub search_free-IsChoice :
    (k : Cache) (x : ℕ) (xs : List ℕ)
    → IsRing k x xs
    → length xs < k.nr_buffers
    → IsChoice k (λ c. IsIn c (x ∷ xs)) (search_free k.nr_buffers k k.free_list none)
search_free-IsChoice k x xs r h =
    let seen = best_of-IsChoice k (λ c. ⊥) none (x ∷ xs) (none_seen k) in
    let same =
      IsChoice-same k (λ c. ⊥ ⊎ IsIn c (x ∷ xs)) (λ c. IsIn c (x ∷ xs)) (best_of k none (x ∷ xs))
        (λ c p. elim p [ inl e ↦ absurd e | inr q ↦ q ]) (λ c. inr) seen in
    subst (IsChoice k (λ c. IsIn c (x ∷ xs))) (sym (search_ring k x xs r h)) same
