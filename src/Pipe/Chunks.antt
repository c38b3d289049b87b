-- ===== src/Pipe/Chunks.antt =====
-- One round of `read_pipe` and of `write_pipe` (fs/pipe.c) on the bytes in the pipe.
use mathlib.Core.Path.{ap₂}
use mathlib.Core.List.{append_assoc, append-nil}
use liha_linux.Base.{
  ◌%◌, ◌+◌, ◌++◌, ◌-◌, ◌<◌, List, ap, arith, drop, length, length-append, length-drop, length-take,
  refl, suc, sym, take, take-append-drop, zero, ℕ, ◌∙◌, ◌≡◌, ◌≤◌,
}
use liha_linux.Pipe.{
  page_size, Pipe, pipe_size, Reader, Writer, chars_of, copy_out, copy_in, read_chunk, write_chunk,
}
use liha_linux.Pipe.Window.{
  window, cong_window, window-copy_out, window-append, window_same, copy_in_outside,
  copy_out-copy_in,
}

-- Both indices lie in the page.
pub record IsValid (p : Pipe) : Type 0 where
  pub head_in : p.head < page_size
  pub tail_in : p.tail < page_size

-- The bytes that the pipe holds, oldest first.
abbrev pub contents : Pipe → List ℕ
contents p = window p.page p.tail (pipe_size p)

pub chars_of_bounds :
    (room count size : ℕ)
    → (chars_of room count size ≤ room)
      × (chars_of room count size ≤ count)
      × (chars_of room count size ≤ size)
unfolding chars_of
chars_of_bounds room count size = ground arith

pub chars_of_pos :
    (room count size : ℕ) → 0 < room → 0 < count → 0 < size → 0 < chars_of room count size
unfolding chars_of
chars_of_pos room count size p q r = ground arith

length-copy_out : (page : ℕ → ℕ) (i n : ℕ) → length (copy_out page i n) ≡ n
unfolding copy_out
length-copy_out page i zero = refl
length-copy_out page i (suc n) = omega (arith, length-copy_out page (i + 1) n)

module _ {p : Pipe} (v : IsValid p) where
  pub read_chunk-IsValid : (r : Reader) → IsValid (read_chunk p r).0
  unfolding read_chunk
  read_chunk-IsValid r = omega arith

  -- The bytes that a round takes out are those that were in front.
  pub read_chunk-contents :
      (r : Reader) → (read_chunk p r).1.out ++ contents (read_chunk p r).0 ≡ r.out ++ contents p
  unfolding read_chunk
  read_chunk-contents r =
      let n = chars_of (page_size - p.tail) r.count (pipe_size p) in
      let b = chars_of_bounds (page_size - p.tail) r.count (pipe_size p) in
      append_assoc r.out (copy_out p.page p.tail n) _
      ∙ ap (λ l. r.out ++ l)
          (ap (λ l. copy_out p.page p.tail n ++ l) (cong_window p.page (omega (arith, b)) refl)
            ∙ sym
                (window-copy_out p.page p.tail n (pipe_size (read_chunk p r).0) (omega (arith, b)))
            ∙ cong_window p.page (omega arith) (omega (arith, b)))

  pub write_chunk-IsValid : (w : Writer) → IsValid (write_chunk p w).0
  unfolding write_chunk
  write_chunk-IsValid w = omega arith

  module _ (w : Writer) where
    abbrev written : ℕ
    written = chars_of (page_size - p.head) w.count (page_size - 1 - pipe_size p)

    abbrev bytes : List ℕ
    bytes = take written w.rest

    abbrev after : ℕ → ℕ
    after = copy_in p.page p.head bytes

    sizes :
        (written ≤ page_size - p.head)
        × (written ≤ w.count)
        × (written ≤ page_size - 1 - pipe_size p)
    sizes = chars_of_bounds (page_size - p.head) w.count (page_size - 1 - pipe_size p)

    length-bytes : w.count ≤ length w.rest → length bytes ≡ written
    length-bytes h = omega (arith, length-take written w.rest, sizes)

    old_window : w.count ≤ length w.rest → window after p.tail (pipe_size p) ≡ contents p
    old_window h = window_same after p.page p.tail (pipe_size p) v.tail_in (λ i k.
        copy_in_outside p.page p.head bytes ((p.tail + i) % page_size)
          (omega (arith, length-bytes h, sizes)))

    new_window : w.count ≤ length w.rest → window after p.head written ≡ bytes
    unfolding window
    new_window h =
        cong_window after (omega (arith, v.head_in)) (omega arith)
        ∙ window-copy_out after p.head written 0 (omega (arith, v.head_in, sizes))
        ∙ append-nil _
        ∙ ap (copy_out after p.head) (sym (length-bytes h))
        ∙ copy_out-copy_in p.page p.head bytes

    -- The bytes that a round puts in come from the front of the user's, and go to the end.
    pub write_chunk-contents :
        w.count ≤ length w.rest
        → contents (write_chunk p w).0 ++ (write_chunk p w).1.rest ≡ contents p ++ w.rest
    unfolding write_chunk
    write_chunk-contents h =
        ap (λ l. l ++ drop written w.rest)
          (cong_window after refl (omega (arith, sizes, v.head_in, v.tail_in))
            ∙ window-append after p.tail (pipe_size p) written v.tail_in
            ∙ ap₂ ◌++◌ (old_window h)
                (cong_window after (omega (arith, v.head_in, v.tail_in)) refl ∙ new_window h))
        ∙ append_assoc (contents p) bytes (drop written w.rest)
        ∙ ap (λ l. contents p ++ l) (take-append-drop written w.rest)

-- What a round leaves alone, and what it counts.
pub read_chunk-counts :
    {p : Pipe} (r : Reader)
    → IsValid p
    → 0 < r.count
    → 0 < pipe_size p
    → let (p', r') = read_chunk p r in
      (r'.count < r.count)
      × (r'.read + r'.count ≡ r.read + r.count)
      × (length r'.out + r'.count ≡ length r.out + r.count)
      × (p'.head ≡ p.head)
      × (p'.i_count ≡ p.i_count)
unfolding read_chunk
read_chunk-counts {p} r v more some_left =
    let n = chars_of (page_size - p.tail) r.count (pipe_size p) in
    omega (
      arith,
      chars_of_bounds (page_size - p.tail) r.count (pipe_size p),
      chars_of_pos (page_size - p.tail) r.count (pipe_size p) (omega (arith, v.tail_in)) more
          some_left,
      length-append r.out (copy_out p.page p.tail n),
      length-copy_out p.page p.tail n,
    )

pub write_chunk-counts :
    {p : Pipe} (w : Writer)
    → IsValid p
    → 0 < w.count
    → w.count ≤ length w.rest
    → 0 < page_size - 1 - pipe_size p
    → let (p', w') = write_chunk p w in
      (w'.count < w.count)
      × (w'.written + w'.count ≡ w.written + w.count)
      × (length w'.rest + w.count ≡ length w.rest + w'.count)
      × (w'.count ≤ length w'.rest)
      × (p'.tail ≡ p.tail)
      × (p'.i_count ≡ p.i_count)
unfolding write_chunk
write_chunk-counts {p} w v more enough room =
    let n = chars_of (page_size - p.head) w.count (page_size - 1 - pipe_size p) in
    omega (
      arith,
      chars_of_bounds (page_size - p.head) w.count (page_size - 1 - pipe_size p),
      chars_of_pos (page_size - p.head) w.count (page_size - 1 - pipe_size p)
          (omega (arith, v.head_in)) more room,
      length-drop n w.rest,
    )
