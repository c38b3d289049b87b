-- ===== src/Files/Refs.antt =====
-- How many descriptors refer to a file (fs/fcntl.c, fs/open.c).
use mathlib.Core.Path.{ap₂}
use liha_linux.Base.{
  ◌+◌, ◌<◌, ◌==◌, Bool-cases, Option, ap, arith, if◌then◌else◌, inl, inr, none, refl, some, suc,
  update, update_ne, update_self, zero, ℕ, ◌∙◌, ◌≡◌, ◌≢◌, ◌≤◌,
}

abbrev pub points : Option ℕ → ℕ → ℕ
points none f = 0
points (some g) f = if g == f then 1 else 0

-- The descriptors below `n` that refer to the file `f`.
unfoldable pub refs : ℕ → (ℕ → Option ℕ) → ℕ → ℕ
refs zero filp f = 0
refs (suc n) filp f = points (filp n) f + refs n filp f

points_bound : (o : Option ℕ) (f : ℕ) → points o f ≤ 1
points_bound none f = omega arith
points_bound (some g) f = ground arith

pub refs_bound : (n : ℕ) (filp : ℕ → Option ℕ) (f : ℕ) → refs n filp f ≤ n
unfolding refs
refs_bound zero filp f = omega arith
refs_bound (suc n) filp f =
    let a = points_bound (filp n) f in let b = refs_bound n filp f in omega arith

module _ (filp : ℕ → Option ℕ) (fd : ℕ) (v : Option ℕ) (f : ℕ) where
  refs-outside : (n : ℕ) → n ≤ fd → refs n (update filp fd v) f ≡ refs n filp f
  unfolding refs
  refs-outside zero h = refl
  refs-outside (suc n) h =
      let ne : n ≢ fd = omega arith in
      ap₂ (λ o m. points o f + m) (update_ne filp fd n v ne) (refs-outside n (omega arith))

  pub refs-update :
      (n : ℕ)
      → fd < n
      → refs n (update filp fd v) f + points (filp fd) f ≡ refs n filp f + points v f
  unfolding refs
  refs-update zero h = absurd (omega arith)
  refs-update (suc n) h = elim (Bool-cases (n == fd)) [
    | inl last ↦
        let e : n ≡ fd = ground arith in
        let here : update filp fd v n ≡ v = ap (update filp fd v) e ∙ update_self filp fd v in
        let same = ap (λ x. points (filp x) f) e in
        let top = ap (λ o. points o f) here in
        let below = refs-outside n (omega arith) in omega arith
    | inr other ↦
        let ne : n ≢ fd = ground arith in
        let top = ap (λ o. points o f) (update_ne filp fd n v ne) in
        let ih = refs-update n (ground arith) in omega arith
  ]

  pub refs-there : (n : ℕ) → fd < n → points (filp fd) f ≤ refs n filp f
  unfolding refs
  refs-there zero h = absurd (omega arith)
  refs-there (suc n) h = elim (Bool-cases (n == fd)) [
    | inl last ↦
        let e : n ≡ fd = ground arith in let same = ap (λ x. points (filp x) f) e in omega arith
    | inr other ↦ let ih = refs-there n (ground arith) in omega arith
  ]
