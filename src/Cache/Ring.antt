-- ===== src/Cache/Ring.antt =====
-- The ring of free buffers (fs/buffer.c) as a list that starts at `free_list`.
use liha_linux.Base.{
  ◌++◌, List, Option, [], some, sym, update, update_ne, update_self, update_two_other, ℕ, ◌∙◌, ◌∷◌,
  ◌≡◌, ◌≢◌,
}
use liha_linux.Cache.Links.{Out, Distinct, Out-left, Out-right}

-- From `a` the links lead forth and back through `xs` to `z`.
pub data Linked (nf pf : ℕ → Option ℕ) : ℕ → List ℕ → ℕ → Type 0 where
  done : {a z : ℕ} → nf a ≡ some z → pf z ≡ some a → Linked nf pf a [] z
  step :
      {a b z : ℕ} {xs : List ℕ}
      → nf a ≡ some b
      → pf b ≡ some a
      → Linked nf pf b xs z
      → Linked nf pf a (b ∷ xs) z

abbrev pub last_of : ℕ → List ℕ → ℕ
last_of a [] = a
last_of a (b ∷ xs) = last_of b xs

abbrev pub first_of : List ℕ → ℕ → ℕ
first_of [] z = z
first_of (b ∷ xs) z = b

module _ {nf pf : ℕ → Option ℕ} where
  -- A change at buffers that the links do not start from, or do not lead to.
  pub frame_next :
      (p : ℕ) (v : Option ℕ) (a : ℕ) (xs : List ℕ) (z : ℕ)
      → Out p (a ∷ xs)
      → Linked nf pf a xs z
      → Linked (update nf p v) pf a xs z
  frame_next p v a [] z out (done f g) = done (update_ne nf p a v (λ e. out.0 (sym e)) ∙ f) g
  frame_next p v a (b ∷ xs) z out (step f g l) =
      step (update_ne nf p a v (λ e. out.0 (sym e)) ∙ f) g (frame_next p v b xs z out.1 l)

  pub frame_prev :
      (q : ℕ) (v : Option ℕ) (a : ℕ) (xs : List ℕ) (z : ℕ)
      → Out q xs
      → q ≢ z
      → Linked nf pf a xs z
      → Linked nf (update pf q v) a xs z
  frame_prev q v a [] z out ne (done f g) = done f (update_ne pf q z v (λ e. ne (sym e)) ∙ g)
  frame_prev q v a (b ∷ xs) z out ne (step f g l) =
      step f (update_ne pf q b v (λ e. out.0 (sym e)) ∙ g) (frame_prev q v b xs z out.1 ne l)

  -- The last buffer and the one that the end points back to.
  pub back : (a : ℕ) (xs : List ℕ) (z : ℕ) → Linked nf pf a xs z → pf z ≡ some (last_of a xs)
  back a [] z (done f g) = g
  back a (b ∷ xs) z (step f g l) = back b xs z l

  pub forth : (a : ℕ) (xs : List ℕ) (z : ℕ) → Linked nf pf a xs z → nf a ≡ some (first_of xs z)
  forth a [] z (done f g) = f
  forth a (b ∷ xs) z (step f g l) = f

pub Out-last : (p a : ℕ) (xs : List ℕ) → Out p (a ∷ xs) → p ≢ last_of a xs
Out-last p a [] out = out.0
Out-last p a (b ∷ xs) out = Out-last p b xs out.1

pub Out-first : (p : ℕ) (xs : List ℕ) (z : ℕ) → Out p xs → p ≢ z → p ≢ first_of xs z
Out-first p [] z out ne = ne
Out-first p (b ∷ xs) z out ne = out.0

-- The last buffer is led on to another end.
pub retarget :
    {nf pf : ℕ → Option ℕ} (a : ℕ) (xs : List ℕ) (z w : ℕ)
    → Distinct (a ∷ xs)
    → Out w xs
    → Linked nf pf a xs z
    → Linked (update nf (last_of a xs) (some w)) (update pf w (some (last_of a xs))) a xs w
retarget {nf} {pf} a [] z w d out (done f g) =
    done (update_self nf a (some w)) (update_self pf w (some a))
retarget {nf} {pf} a (b ∷ xs) z w d out (step f g l) =
    let p = last_of b xs in
    step (update_ne nf p a (some w) (Out-last a b xs d.0) ∙ f)
      (update_ne pf w b (some p) (λ e. out.0 (sym e)) ∙ g) (retarget b xs z w d.1 out.1 l)

-- The links without `b`: its two neighbours are led to one another.
pub without :
    {nf pf : ℕ → Option ℕ} (a : ℕ) (ls : List ℕ) (b : ℕ) (rs : List ℕ) (z : ℕ)
    → Distinct (a ∷ (ls ++ b ∷ rs))
    → Out z (ls ++ b ∷ rs)
    → Linked nf pf a (ls ++ b ∷ rs) z
    → Linked
        (update nf (last_of a ls) (some (first_of rs z)))
        (update pf (first_of rs z) (some (last_of a ls)))
        a
        (ls ++ rs)
        z
without {nf} {pf} a [] b [] z d out l = done (update_self nf a (some z)) (update_self pf z (some a))
without {nf} {pf} a [] b (c ∷ rs) z d out (step f g (step f' g' l)) =
    step (update_self nf a (some c)) (update_self pf c (some a)) (
      frame_prev c (some a) c rs z d.1.1.0 (λ e. out.1.0 (sym e))
        (frame_next a (some c) c rs z d.0.1 l))
without {nf} {pf} a (c ∷ ls) b rs z d out (step f g l) =
    let p = last_of c ls in
    let n = first_of rs z in
    step (update_ne nf p a (some n) (Out-last a c ls (Out-left a (c ∷ ls) (b ∷ rs) d.0)) ∙ f)
      (update_ne pf n c (some p)
          (Out-first c rs z (Out-right c ls (b ∷ rs) d.1.0).1 (λ e. out.0 (sym e)))
        ∙ g)
      (without c ls b rs z d.1 out.1 l)

-- A new buffer behind the last one.
pub snoc :
    {nf pf : ℕ → Option ℕ} (a : ℕ) (xs : List ℕ) (b z : ℕ)
    → Distinct (a ∷ xs)
    → Out b (a ∷ xs)
    → Out z xs
    → z ≢ b
    → Linked nf pf a xs z
    → Linked
        (update (update nf b (some z)) (last_of a xs) (some b))
        (update (update pf b (some (last_of a xs))) z (some b))
        a
        (xs ++ b ∷ [])
        z
snoc {nf} {pf} a [] b z d new out ne l =
    step (update_self (update nf b (some z)) a (some b))
      (update_ne (update pf b (some a)) z b (some b) (λ e. ne (sym e)) ∙ update_self pf b (some a))
      (done (update_ne (update nf b (some z)) a b (some b) new.0 ∙ update_self nf b (some z))
        (update_self (update pf b (some a)) z (some b)))
snoc {nf} {pf} a (c ∷ xs) b z d new out ne (step f g l) =
    let p = last_of c xs in
    step
      (update_two_other nf b p (some z) (some b) a (λ e. new.0 (sym e)) (Out-last a c xs d.0) ∙ f)
      (update_two_other pf b z (some p) (some b) c (λ e. new.1.0 (sym e)) (λ e. out.0 (sym e)) ∙ g)
      (snoc c xs b z d.1 new.1 out.1 ne l)
