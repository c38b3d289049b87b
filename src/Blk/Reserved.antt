-- ===== src/Blk/Reserved.antt =====
-- A third of the requests is kept for reads (`make_request` of kernel/blk_drv/ll_rw_blk.c).
use liha_linux.Base.{
  ◌<◌, ◌==◌, ==_iff, Bool, Bool-cases, List, Option, [], ap, arith, false, if◌then◌else◌, inl, inr,
  leb, negsuc, none, not, refl, some, subst, sym, true, true_is_not_false, update, update_ne,
  update_self, ◌||◌, ℕ, ◌∙◌, ◌∷◌, ◌≡◌, ◌≤◌,
}
use liha_linux.Blk.{
  Blk, Request, Command, Made, read, write, reada, writea, returns, waits_for_buffer,
  waits_for_request, queued, cmd_of, limit_of, is_ahead, set_lock, request_for, add_request,
  find_request, repeat, with_lock, make_request, ll_rw_block, end_request, set_uptodate, major_of,
  nr_blk_dev,
}
use liha_linux.Blk.Slots.{is_free, Search, find_request-Search}

-- The kernel that an activation leaves.
abbrev pub after : Made → Blk
after (returns s) = s
after (waits_for_buffer s) = s
after (waits_for_request s) = s
after (queued req s starts) = s

-- A call of the block layer: a request for a buffer, a task that wakes up at `repeat` or at the lock,
-- the end of a request.
pub data Step : Blk → Blk → Type 0 where
  asks : {s : Blk} (command : Command) (b : ℕ) → Step s (after (ll_rw_block command b s))
  repeats :
      {s : Blk} (major : ℕ) (command : Command) (b : ℕ) → Step s (after (repeat major command b s))
  locks :
      {s : Blk} (major : ℕ) (command : Command) (b : ℕ)
      → Step s (after (with_lock major command b (set_lock b true s)))
  ends : {s : Blk} (major : ℕ) (uptodate : Bool) → Step s (end_request major uptodate s)

pub data Reach (s : Blk) : Blk → Type 0 where
  start : Reach s s
  next : {t u : Blk} → Reach s t → Step t u → Reach s u

-- Two thirds of the 32 requests, at most 21, are for writes: from there on a request that is in use
-- is a read.
abbrev pub KeepsForReads : (ℕ → Request) → Type 0
KeepsForReads request =
    (j : ℕ) → 21 ≤ j → j < 32 → is_free (request j) ≡ false → (request j).cmd ≡ 0

found-low :
    (command : Command) (req : ℕ) → req < limit_of (cmd_of command) → 21 ≤ req → cmd_of command ≡ 0
found-low read req h low = refl
found-low write req h low = absurd (omega arith)
found-low reada req h low = refl
found-low writea req h low = absurd (omega arith)

add_request-request : (major req : ℕ) (s : Blk) → (add_request major req s).0.request ≡ s.request
unfolding add_request
add_request-request major req s = refl

filled-KeepsForReads :
    (command : Command) (req : ℕ) (r : Request) (request : ℕ → Request)
    → req < limit_of (cmd_of command)
    → r.cmd ≡ cmd_of command
    → KeepsForReads request
    → KeepsForReads (update request req r)
filled-KeepsForReads command req r request h e keeps j low high used =
    elim (Bool-cases (j == req)) [
      | inl this ↦
          let here : j ≡ req = (==_iff j req).0 this in
          ap (λ i. (update request req r i).cmd) here
          ∙ ap (λ x. x.cmd) (update_self request req r)
          ∙ e
          ∙ found-low command req h (omega (arith, here))
      | inr other ↦
          let same =
            update_ne request req j r
              (λ same. true_is_not_false (sym ((==_iff j req).1 same) ∙ other)) in
          ap (λ x. x.cmd) same ∙ keeps j low high (ap is_free (sym same) ∙ used)
    ]

if_both : {A : Type 0} (P : A → Type 0) (b : Bool) (x y : A) → P x → P y → P (if b then x else y)
if_both P true x y h k = h
if_both P false x y h k = k

abbrev Kept : Made → Type 0
Kept m = KeepsForReads (after m).request

module _ (command : Command) (b : ℕ) where
  queued-KeepsForReads :
      (major req : ℕ) (s : Blk)
      → req < limit_of (cmd_of command)
      → KeepsForReads s.request
      → KeepsForReads
          (add_request major req (record s {
            request = update s.request req (request_for (cmd_of command) b (s.buffer b));
          })).0.request
  queued-KeepsForReads major req s h keeps =
      subst KeepsForReads
        (sym (
          add_request-request major req (record s {
            request = update s.request req (request_for (cmd_of command) b (s.buffer b));
          })))
        (filled-KeepsForReads command req (request_for (cmd_of command) b (s.buffer b)) s.request h
          refl keeps)

  repeat-KeepsForReads :
      (major : ℕ) (s : Blk) → KeepsForReads s.request → Kept (repeat major command b s)
  unfolding repeat
  repeat-KeepsForReads major s keeps =
      go (find_request (limit_of (cmd_of command)) s.request)
        (find_request-Search (limit_of (cmd_of command)) s.request)
    where
      go :
          (o : Option ℕ)
          → Search s.request (limit_of (cmd_of command)) o
          → Kept (elim o [
            | none ↦ if is_ahead command then returns (set_lock b false s) else waits_for_request s
            | some req ↦
                let filled = record s {
                  request = update s.request req (request_for (cmd_of command) b (s.buffer b));
                } in
                let (s', starts) = add_request major req filled in queued req s' starts
          ])
      go none h =
          if_both Kept (is_ahead command) (returns (set_lock b false s)) (waits_for_request s) keeps
            keeps
      go (some req) h = queued-KeepsForReads major req s h.0 keeps

  with_lock-KeepsForReads :
      (major : ℕ) (s : Blk) → KeepsForReads s.request → Kept (with_lock major command b s)
  unfolding with_lock
  with_lock-KeepsForReads major s keeps =
      if_both Kept
        (if cmd_of command == 1 then not (s.buffer b).b_dirt else (s.buffer b).b_uptodate)
        (returns (set_lock b false s)) (repeat major command b s) keeps
        (repeat-KeepsForReads major s keeps)

  ll_rw_block-KeepsForReads : (s : Blk) → KeepsForReads s.request → Kept (ll_rw_block command b s)
  unfolding ll_rw_block make_request
  ll_rw_block-KeepsForReads s keeps =
      let major = major_of (s.buffer b).b_dev in
      if_both Kept (leb nr_blk_dev major || not (s.has_driver major)) (returns s)
        (make_request major command b s) keeps
        (if_both Kept (s.buffer b).b_lock
          (if is_ahead command then returns s else waits_for_buffer s)
          (with_lock major command b (set_lock b true s))
          (if_both Kept (is_ahead command) (returns s) (waits_for_buffer s) keeps keeps)
          (with_lock-KeepsForReads major (set_lock b true s) keeps))

-- A request that ends is free.
freed-KeepsForReads :
    (current : ℕ) (request : ℕ → Request)
    → KeepsForReads request
    → KeepsForReads (update request current (record (request current) { dev = negsuc 0 }))
freed-KeepsForReads current request keeps j low high used =
    let r = record (request current) { dev = negsuc 0 } in
    elim (Bool-cases (j == current)) [
      | inl this ↦
          let here : j ≡ current = (==_iff j current).0 this in
          let free : true ≡ is_free (update request current r j) =
            ap is_free (sym (update_self request current r))
            ∙ ap (λ i. is_free (update request current r i)) (sym here) in
          absurd (true_is_not_false (free ∙ used))
      | inr other ↦
          let same =
            update_ne request current j r
              (λ same. true_is_not_false (sym ((==_iff j current).1 same) ∙ other)) in
          ap (λ x. x.cmd) same ∙ keeps j low high (ap is_free (sym same) ∙ used)
    ]

end_request-KeepsForReads :
    (major : ℕ) (uptodate : Bool) (s : Blk)
    → KeepsForReads s.request
    → KeepsForReads (end_request major uptodate s).request
unfolding end_request
end_request-KeepsForReads major uptodate s keeps = go (s.queue major)
  where
    go :
        (q : List ℕ)
        → KeepsForReads
            (elim q as (λ _. Blk) [
              | [] ↦ s
              | current ∷ others ↦ record s {
                buffer = set_uptodate uptodate (s.request current).bh s.buffer;
                request = update s.request current (record (s.request current) { dev = negsuc 0 });
                queue = update s.queue major others;
              }
            ]).request
    go [] = keeps
    go (current ∷ others) = freed-KeepsForReads current s.request keeps

Step-KeepsForReads : {s t : Blk} → Step s t → KeepsForReads s.request → KeepsForReads t.request
Step-KeepsForReads {s} (asks command b) keeps = ll_rw_block-KeepsForReads command b s keeps
Step-KeepsForReads {s} (repeats major command b) keeps =
    repeat-KeepsForReads command b major s keeps
Step-KeepsForReads {s} (locks major command b) keeps =
    with_lock-KeepsForReads command b major (set_lock b true s) keeps
Step-KeepsForReads {s} (ends major uptodate) keeps =
    end_request-KeepsForReads major uptodate s keeps

-- Writes never take the last third of the table: where the requests 21 to 31 that are in use are
-- reads, they still are after any sequence of calls of `ll_rw_block`, of tasks that wake up in
-- `make_request`, and of requests that end.
pub Reach-KeepsForReads :
    {s t : Blk} → KeepsForReads s.request → Reach s t → KeepsForReads t.request
Reach-KeepsForReads keeps start = keeps
Reach-KeepsForReads keeps (next reach step) =
    Step-KeepsForReads step (Reach-KeepsForReads keeps reach)
