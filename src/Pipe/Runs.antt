-- ===== src/Pipe/Runs.antt =====
-- Whole activations of `read_pipe` and `write_pipe` (fs/pipe.c): they end, they move bytes in order,
-- and they return or sleep when they should.
use liha_linux.Base.{
  ◌+◌, ◌++◌, ◌-◌, ◌<◌, ◌==◌, ==_iff, Bool-cases, arith, if◌then◌else◌, inl, inr, length, negsuc,
  pos, refl, suc, zero, ℕ, ◌∙◌, ◌≡◌, ◌≢◌, ◌≤◌, ◌⊎◌,
}
use liha_linux.Pipe.{
  written_or_error, page_size, Pipe, pipe_size, Reader, Writer, Outcome, returned, broken, sleeping,
  out_of_fuel, read_chunk, read_pipe, write_chunk, write_pipe,
}
use liha_linux.Pipe.Chunks.{
  IsValid, contents, read_chunk-IsValid, read_chunk-contents, read_chunk-counts,
  write_chunk-IsValid, write_chunk-contents, write_chunk-counts,
}

-- A reader returns its count when it has all, or when the pipe is empty and no writer is left;
-- it sleeps on an empty pipe with a writer.
abbrev pub ReadEnd : Outcome → Pipe → Reader → Type 0
ReadEnd (returned n) p r = (n ≡ r.read) × ((r.count ≡ 0) ⊎ ((pipe_size p ≡ 0) × (p.i_count ≢ 2)))
ReadEnd sleeping p r = (0 < r.count) × (pipe_size p ≡ 0) × (p.i_count ≡ 2)
ReadEnd (broken v) p r = ⊥
ReadEnd out_of_fuel p r = ⊥

abbrev pub WriteEnd : Outcome → Pipe → Writer → Type 0
WriteEnd (returned n) p w = (n ≡ w.written) × (w.count ≡ 0)
WriteEnd (broken v) p w =
    (0 < w.count)
    × (pipe_size p ≡ page_size - 1)
    × (p.i_count ≢ 2)
    × (((w.written ≡ 0) × (v ≡ negsuc 0)) ⊎ ((0 < w.written) × (v ≡ pos w.written)))
WriteEnd sleeping p w = (0 < w.count) × (pipe_size p ≡ page_size - 1) × (p.i_count ≡ 2)
WriteEnd out_of_fuel p w = ⊥

pub record Read (p : Pipe) (r : Reader) (end : Outcome × Pipe × Reader) : Type 0 where
  pub valid : IsValid end.1
  pub fifo : end.2.out ++ contents end.1 ≡ r.out ++ contents p
  pub counted : end.2.read + end.2.count ≡ r.read + r.count
  pub put : length end.2.out + end.2.count ≡ length r.out + r.count
  pub same : (end.1.head ≡ p.head) × (end.1.i_count ≡ p.i_count)
  pub ends : ReadEnd end.0 end.1 end.2

pub record Wrote (p : Pipe) (w : Writer) (end : Outcome × Pipe × Writer) : Type 0 where
  pub valid : IsValid end.1
  pub fifo : contents end.1 ++ end.2.rest ≡ contents p ++ w.rest
  pub counted : end.2.written + end.2.count ≡ w.written + w.count
  pub taken : length end.2.rest + w.count ≡ length w.rest + end.2.count
  pub enough : end.2.count ≤ length end.2.rest
  pub same : (end.1.tail ≡ p.tail) × (end.1.i_count ≡ p.i_count)
  pub ends : WriteEnd end.0 end.1 end.2

stop : {p : Pipe} {r : Reader} {o : Outcome} → IsValid p → ReadEnd o p r → Read p r (o, p, r)
stop v e = record {
  valid = v;
  fifo = refl;
  counted = refl;
  put = refl;
  same = (refl, refl);
  ends = e;
}

on_empty :
    (p : Pipe) (r : Reader)
    → 0 < r.count
    → pipe_size p ≡ 0
    → ReadEnd (if p.i_count == 2 then sleeping else returned r.read) p r
on_empty p r more empty = elim (Bool-cases (p.i_count == 2)) [
  | inl writers ↦ rw writers (more, empty, (==_iff p.i_count 2).0 writers)
  | inr alone ↦ rw alone (refl, inr (empty, ground arith))
]

after_round :
    {p : Pipe} {r : Reader} {end : Outcome × Pipe × Reader}
    → IsValid p
    → 0 < r.count
    → 0 < pipe_size p
    → Read (read_chunk p r).0 (read_chunk p r).1 end
    → Read p r end
after_round {p} {r} v more some_left rest =
    let c = read_chunk-counts r v more some_left in
    record {
      valid = rest.valid;
      fifo = rest.fifo ∙ read_chunk-contents v r;
      counted = omega (arith, c, rest.counted);
      put = omega (arith, c, rest.put);
      same = omega (arith, c, rest.same);
      ends = rest.ends;
    }

-- An activation of `read_pipe` on a valid pipe, with more fuel than bytes asked for, never runs out
-- of fuel. It takes bytes off the front of the pipe in order, puts them behind the reader's others,
-- counts them, and leaves the head and the inode's count alone. It returns the bytes read when all
-- have been, or when the pipe is empty and the inode's count is not 2; it sleeps when more are
-- asked for, the pipe is empty and the count is 2; and it never fails with SIGPIPE.
pub read_pipe_lem :
    (fuel : ℕ) (p : Pipe) (r : Reader) → IsValid p → r.count < fuel → Read p r (read_pipe fuel p r)
unfolding read_pipe
read_pipe_lem zero p r v h = absurd (omega arith)
read_pipe_lem (suc fuel) p r v h = elim (Bool-cases (r.count == 0)) [
  | inl done ↦ rw done (stop v (refl, inl (ground arith)))
  | inr more ↦ elim (Bool-cases (pipe_size p == 0)) [
    | inl empty ↦ rw (more, empty) (stop v (on_empty p r (ground arith) (ground arith)))
    | inr some_left ↦
        let c = read_chunk-counts r v (ground arith) (ground arith) in
        rw (more, some_left)
          (after_round v (ground arith) (ground arith) (
            read_pipe_lem fuel (read_chunk p r).0 (read_chunk p r).1 (read_chunk-IsValid v r)
              (omega (arith, c))))
  ]
]

halt :
    {p : Pipe} {w : Writer} {o : Outcome}
    → IsValid p
    → w.count ≤ length w.rest
    → WriteEnd o p w
    → Wrote p w (o, p, w)
halt v h e = record {
  valid = v;
  fifo = refl;
  counted = refl;
  taken = refl;
  enough = h;
  same = (refl, refl);
  ends = e;
}

on_full :
    (p : Pipe) (w : Writer)
    → 0 < w.count
    → pipe_size p ≡ page_size - 1
    → WriteEnd (if p.i_count == 2 then sleeping else broken (written_or_error w.written)) p w
on_full p w more full = elim (Bool-cases (p.i_count == 2)) [
  | inl readers ↦ rw readers (more, full, (==_iff p.i_count 2).0 readers)
  | inr alone ↦ elim (Bool-cases (w.written == 0)) [
    | inl nothing ↦
        rw (alone, nothing) (more, full, ground arith, inl ((==_iff w.written 0).0 nothing, refl))
    | inr something ↦ rw (alone, something) (more, full, ground arith, inr (ground arith, refl))
  ]
]

after_write :
    {p : Pipe} {w : Writer} {end : Outcome × Pipe × Writer}
    → IsValid p
    → 0 < w.count
    → w.count ≤ length w.rest
    → 0 < page_size - 1 - pipe_size p
    → Wrote (write_chunk p w).0 (write_chunk p w).1 end
    → Wrote p w end
after_write {p} {w} v more h room rest =
    let c = write_chunk-counts w v more h room in
    record {
      valid = rest.valid;
      fifo = rest.fifo ∙ write_chunk-contents v w h;
      counted = omega (arith, c, rest.counted);
      taken = omega (arith, c, rest.taken);
      enough = rest.enough;
      same = omega (arith, c, rest.same);
      ends = rest.ends;
    }

-- An activation of `write_pipe` on a valid pipe, with more fuel than bytes to write and those bytes
-- in the user's memory, never runs out of fuel. It puts the user's bytes behind those in the pipe in
-- order, counts them, and leaves the tail and the inode's count alone. It returns the bytes written
-- without a signal exactly when all have been; with bytes left it sleeps on a full pipe whose count
-- is 2, and on a full pipe with another count it raises SIGPIPE and returns the number of bytes
-- written, or -1 if there are none.
pub write_pipe_lem :
    (fuel : ℕ) (p : Pipe) (w : Writer)
    → IsValid p
    → w.count ≤ length w.rest
    → w.count < fuel
    → Wrote p w (write_pipe fuel p w)
unfolding write_pipe
write_pipe_lem zero p w v k h = absurd (omega arith)
write_pipe_lem (suc fuel) p w v k h = elim (Bool-cases (w.count == 0)) [
  | inl done ↦ rw done (halt v k (refl, ground arith))
  | inr more ↦ elim (Bool-cases (page_size - 1 - pipe_size p == 0)) [
    | inl full ↦ rw (more, full) (halt v k (on_full p w (ground arith) (ground arith)))
    | inr room ↦
        let c = write_chunk-counts w v (ground arith) k (ground arith) in
        rw (more, room)
          (after_write v (ground arith) k (ground arith) (
            write_pipe_lem fuel (write_chunk p w).0 (write_chunk p w).1 (write_chunk-IsValid v w)
              (omega (arith, c)) (omega (arith, c))))
  ]
]
