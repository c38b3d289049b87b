-- ===== src/Files/Counts.antt =====
-- `f_count` is the number of descriptors of a file (fs/fcntl.c, `sys_close` of fs/open.c).
use liha_linux.Base.{
  ◌%◌, ◌+◌, ◌-◌, ◌<◌, ◌==◌, ==_pos, Bool-cases, Option, ◌^◌, ap, arith, if◌then◌else◌, inl, inr,
  leb, none, pos, refl, some, subst, suc, sym, update, update_ne, update_self, zero, ℕ, ℤ, ◌∙◌, ◌≡◌,
  ◌≢◌,
}
use liha_linux.Files.{
  fcntl_file, Fcntl, set_flags, sys_fcntl, f_dupfd, f_getfd, f_setfd, f_getfl, f_setfl, f_other,
  closed, Closed, close_file, sys_close, clear_fd, dupfd, filp_at, drop_file, ebadf, emfile, Files,
  find_fd, install, count_up, dup_file, nr_open, einval,
}
use liha_linux.Files.Refs.{refs-there, points, refs, refs_bound, refs-update}

-- `others` counts the descriptors of other processes.
abbrev pub IsCounted : (ℕ → ℕ) → Files → Type 0
IsCounted others k = (f : ℕ) → (k.file f).f_count ≡ others f + refs nr_open k.filp f

abbrev pub Few : (ℕ → ℕ) → Type 0
Few others = (f : ℕ) → others f + nr_open < 2 ^ 16

free_step :
    (n arg : ℕ) (filp : ℕ → Option ℕ) (new : ℕ)
    → (find_fd n (arg + 1) filp ≡ some new → (filp new ≡ none) × (new < arg + 1 + n))
    → (o : Option ℕ) → filp arg ≡ o
    → (elim o as (λ _. Option ℕ) [ none ↦ some arg | some _ ↦ find_fd n (arg + 1) filp ]) ≡ some new
    → (filp new ≡ none) × (new < arg + suc n)
free_step n arg filp new ih none at e =
    let same : arg ≡ new = cc in (subst (λ x. filp x ≡ none) same at, omega arith)
free_step n arg filp new ih (some _) at e = let (free, low) = ih e in (free, omega arith)

find_fd_lem :
    (n arg : ℕ) (filp : ℕ → Option ℕ) (new : ℕ)
    → find_fd n arg filp ≡ some new
    → (filp new ≡ none) × (new < arg + n)
unfolding find_fd
find_fd_lem zero arg filp new e = absurd (let clash : none ≡ some new = e in cc clash)
find_fd_lem (suc n) arg filp new e =
    free_step n arg filp new (find_fd_lem n (arg + 1) filp new) (filp arg) refl e

module _ (others : ℕ → ℕ) where
  install-IsCounted :
      (f new : ℕ) (k : Files)
      → Few others
      → new < nr_open
      → k.filp new ≡ none
      → IsCounted others k
      → IsCounted others (install f new k)
  install-IsCounted f new k few low free h g =
      let filp' = update k.filp new (some f) in
      let more = refs-update k.filp new (some f) g nr_open low in
      let was = ap (λ o. points o g) free in
      let most = refs_bound nr_open filp' g in
      let room = few g in
      let old = h g in
      elim (Bool-cases (g == f)) [
        | inl same ↦
            let e : g ≡ f = ground arith in
            let one : points (some f) g ≡ 1 = ground arith in
            let now =
              ap (λ x. x.f_count)
                (ap (update k.file f (count_up (k.file f))) e
                  ∙ update_self k.file f (count_up (k.file f))) in
            let at_f : (k.file f).f_count ≡ others g + refs nr_open k.filp g =
              ap (λ x. (k.file x).f_count) (sym e) ∙ old in
            now ∙ ap (λ n. (n + 1) % 2 ^ 16) at_f ∙ (omega arith)
        | inr other ↦
            let ne : g ≢ f = ground arith in
            let no_more : points (some f) g ≡ 0 = ground arith in
            ap (λ x. x.f_count) (update_ne k.file f g (count_up (k.file f)) ne)
            ∙ old
            ∙ (omega arith)
      ]

  dup_file-IsCounted :
      (f arg : ℕ) (k : Files)
      → Few others
      → IsCounted others k
      → IsCounted others (dup_file f arg k).1
  unfolding dup_file
  dup_file-IsCounted f arg k few h = elim (Bool-cases (leb nr_open arg)) [
    | inl bad ↦
        subst
          (λ b.
            IsCounted others
              (if b then (einval, k) else picked (find_fd (nr_open - arg) arg k.filp)).1)
          (sym bad) h
    | inr good ↦
        subst
          (λ b.
            IsCounted others
              (if b then (einval, k) else picked (find_fd (nr_open - arg) arg k.filp)).1)
          (sym good)
          (go (find_fd (nr_open - arg) arg k.filp) (λ new e.
            let (free, low) = find_fd_lem (nr_open - arg) arg k.filp new e in
            (free, (let r : new < nr_open = ground (arith, low, good) in r))))
  ]
    where
      picked : Option ℕ → ℤ × Files
      picked none = (emfile, k)
      picked (some new) = (pos new, install f new k)

      go :
          (o : Option ℕ)
          → ((new : ℕ) → o ≡ some new → (k.filp new ≡ none) × (new < nr_open))
          → IsCounted others (picked o).1
      go none free = h
      go (some new) free = install-IsCounted f new k few (free new refl).1 (free new refl).0 h

  dupfd-IsCounted :
      (fd arg : ℕ) (k : Files)
      → Few others
      → IsCounted others k
      → IsCounted others (dupfd fd arg k).1
  unfolding dupfd
  dupfd-IsCounted fd arg k few h = go (filp_at fd k)
    where
      go :
          (o : Option ℕ)
          → IsCounted others
              (elim o as (λ _. ℤ × Files) [ none ↦ (ebadf, k) | some f ↦ dup_file f arg k ]).1
      go none = h
      go (some f) = dup_file-IsCounted f arg k few h

  -- New flags leave the counts.
  flags-IsCounted :
      (f arg : ℕ) (k : Files)
      → IsCounted others k
      → IsCounted others (record k { file = update k.file f (set_flags arg (k.file f)) })
  flags-IsCounted f arg k h g =
      let flagged = set_flags arg (k.file f) in
      elim (Bool-cases (g == f)) [
        | inl same ↦
            let e : g ≡ f = ground arith in
            ap (λ x. x.f_count) (ap (update k.file f flagged) e ∙ update_self k.file f flagged)
            ∙ ap (λ x. (k.file x).f_count) (sym e)
            ∙ h g
        | inr other ↦
            let ne : g ≢ f = ground arith in
            ap (λ x. x.f_count) (update_ne k.file f g flagged ne) ∙ h g
      ]

  fcntl_file-IsCounted :
      (fd f : ℕ) (cmd : Fcntl) (arg : ℕ) (k : Files)
      → Few others
      → IsCounted others k
      → IsCounted others (fcntl_file fd f cmd arg k).1
  unfolding fcntl_file
  fcntl_file-IsCounted fd f f_dupfd arg k few h = dupfd-IsCounted fd arg k few h
  fcntl_file-IsCounted fd f f_setfl arg k few h = flags-IsCounted f arg k h
  fcntl_file-IsCounted fd f f_getfd arg k few h = h
  fcntl_file-IsCounted fd f f_setfd arg k few h = h
  fcntl_file-IsCounted fd f f_getfl arg k few h = h
  fcntl_file-IsCounted fd f f_other arg k few h = h

  sys_fcntl-IsCounted :
      (fd : ℕ) (cmd : Fcntl) (arg : ℕ) (k : Files)
      → Few others
      → IsCounted others k
      → IsCounted others (sys_fcntl fd cmd arg k).1
  unfolding sys_fcntl
  sys_fcntl-IsCounted fd cmd arg k few h = go (filp_at fd k)
    where
      go :
          (o : Option ℕ)
          → IsCounted others
              (elim o as (λ _. ℤ × Files) [
                | none ↦ (ebadf, k)
                | some f ↦ fcntl_file fd f cmd arg k
              ]).1
      go none = h
      go (some f) = fcntl_file-IsCounted fd f cmd arg k few h

  -- The descriptor of an open file counts.
  at_least_one :
      (fd f : ℕ) (k : Files)
      → fd < nr_open
      → k.filp fd ≡ some f
      → IsCounted others k
      → 0 < (k.file f).f_count
  at_least_one fd f k low at h =
      let there = refs-there k.filp fd none f nr_open low in
      let this = ap (λ o. points o f) at in
      let one : points (some f) f ≡ 1 = ground arith in let counted = h f in omega arith

  drop_file-IsCounted :
      (fd f : ℕ) (k : Files)
      → fd < nr_open
      → k.filp fd ≡ some f
      → IsCounted others k
      → IsCounted others (drop_file f (record k { filp = update k.filp fd none }))
  unfolding drop_file
  drop_file-IsCounted fd f k low at h g =
      let less = refs-update k.filp fd none g nr_open low in
      let this = ap (λ o. points o g) at in
      let old = h g in
      let dropped = record (k.file f) { f_count = (k.file f).f_count - 1 } in
      elim (Bool-cases (g == f)) [
        | inl same ↦
            let e : g ≡ f = ground arith in
            let one : points (some f) g ≡ 1 = ground arith in
            let at_f : (k.file f).f_count ≡ others g + refs nr_open k.filp g =
              ap (λ x. (k.file x).f_count) (sym e) ∙ old in
            ap (λ x. x.f_count) (ap (update k.file f dropped) e ∙ update_self k.file f dropped)
            ∙ ap (λ n. n - 1) at_f
            ∙ (omega arith)
        | inr other ↦
            let ne : g ≢ f = ground arith in
            let no_less : points (some f) g ≡ 0 = ground arith in
            ap (λ x. x.f_count) (update_ne k.file f g dropped ne) ∙ old ∙ (omega arith)
      ]

  abbrev pub Closes : Closed → Type 0
  Closes c = (r : ℤ) × (k' : Files) × (c ≡ closed r k') × IsCounted others k'

  close_file-Closes :
      (fd f : ℕ) (k : Files)
      → fd < nr_open
      → k.filp fd ≡ some f
      → IsCounted others k
      → Closes (close_file fd f k)
  unfolding close_file
  close_file-Closes fd f k low at h =
      let used = ==_pos (k.file f).f_count (at_least_one fd f k low at h) in
      (
        pos 0,
        drop_file f (record k { filp = update k.filp fd none }),
        rw used refl,
        drop_file-IsCounted fd f k low at h,
      )

  sys_close-Closes : (fd : ℕ) (k : Files) → IsCounted others k → Closes (sys_close fd k)
  unfolding sys_close
  sys_close-Closes fd k h = elim (Bool-cases (leb nr_open fd)) [
    | inl bad ↦
        subst (λ b. Closes (if b then closed einval k else found (k.filp fd))) (sym bad)
          (einval, k, refl, h)
    | inr good ↦
        subst (λ b. Closes (if b then closed einval k else found (k.filp fd))) (sym good)
          (go (k.filp fd) refl (let low : fd < nr_open = ground arith in low))
  ]
    where
      found : Option ℕ → Closed
      found none = closed einval (clear_fd fd k)
      found (some f) = close_file fd f (clear_fd fd k)

      go : (o : Option ℕ) → k.filp fd ≡ o → fd < nr_open → Closes (found o)
      go none at low = (einval, clear_fd fd k, refl, h)
      go (some f) at low = close_file-Closes fd f (clear_fd fd k) low at h

-- The calls that change the descriptors; `sys_dup2` is a close and a `dupfd`.
pub data Step : Files → Files → Type 0 where
  dup : {k : Files} (fd arg : ℕ) → Step k (dupfd fd arg k).1
  fcntl : {k : Files} (fd : ℕ) (cmd : Fcntl) (arg : ℕ) → Step k (sys_fcntl fd cmd arg k).1
  close : {k k' : Files} (fd : ℕ) (r : ℤ) → sys_close fd k ≡ closed r k' → Step k k'

pub data Reach (k : Files) : Files → Type 0 where
  start : Reach k k
  next : {k' k'' : Files} → Reach k k' → Step k' k'' → Reach k k''

same_files : {r r' : ℤ} {k k' : Files} → closed r k ≡ closed r' k' → k ≡ k'
same_files e = cc

Step-IsCounted :
    (others : ℕ → ℕ) {k k' : Files}
    → Few others
    → Step k k'
    → IsCounted others k
    → IsCounted others k'
Step-IsCounted others {k} few (dup fd arg) h = dupfd-IsCounted others fd arg k few h
Step-IsCounted others {k} few (fcntl fd cmd arg) h = sys_fcntl-IsCounted others fd cmd arg k few h
Step-IsCounted others {k} few (close fd r e) h =
    let (r', k'', e', h') = sys_close-Closes others fd k h in
    subst (IsCounted others) (same_files (sym e' ∙ e)) h'

Reach-IsCounted :
    (others : ℕ → ℕ) {k k' : Files}
    → Few others
    → Reach k k'
    → IsCounted others k
    → IsCounted others k'
Reach-IsCounted others few start h = h
Reach-IsCounted others few (next reach step) h =
    Step-IsCounted others few step (Reach-IsCounted others few reach h)

-- When every file's count is the number of descriptors that refer to it, those of other processes
-- included, it stays so through any sequence of `dupfd`, `sys_fcntl` and `sys_close`, and then `sys_close` of any
-- descriptor returns: it does not panic on a count of 0. The other processes have few descriptors
-- for each file: with the 20 of this process, fewer than 2 ^ 16.
pub Reach-Closes :
    (others : ℕ → ℕ) {k k' : Files}
    → Few others
    → IsCounted others k
    → Reach k k'
    → IsCounted others k' × ((fd : ℕ) → Closes others (sys_close fd k'))
Reach-Closes others {k' = k'} few h reach =
    let now = Reach-IsCounted others few reach h in (now, λ fd. sys_close-Closes others fd k' now)
