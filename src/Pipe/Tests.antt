-- ===== src/Pipe/Tests.antt =====
-- Tests and witnesses for fs/pipe.c.
use liha_linux.Base.{◌%◌, List, [], arith, false, length, negsuc, pos, refl, ℕ, ◌∷◌, ◌≡◌}
use liha_linux.Pipe.{
  Pipe, Reader, Writer, broken, sleeping, chars_of, copy_out, read_chunk, write_chunk, read_pipe,
  write_pipe,
}
use liha_linux.Pipe.Chunks.{IsValid}
use liha_linux.Pipe.Runs.{Read, Wrote, read_pipe_lem, write_pipe_lem}
use liha_linux.Pipe.System.{System, run_writer, here, next, write, IsSound, stream, Reach-fifo}

-- Three bytes round the end of the page.
abbrev wrapped : Pipe
wrapped = record { head = 1; tail = 4094; page = λ i. i % 256; i_count = 2 }

abbrev ask : ℕ → Reader
ask k = record { count = k; read = 0; out = [] }

abbrev offer : List ℕ → Writer
offer xs = record { count = length xs; written = 0; rest = xs }

wrapped-IsValid : IsValid wrapped
wrapped-IsValid = record { head_in = omega arith; tail_in = omega arith }

read_three : (read_pipe 4 wrapped (ask 3)).2.out ≡ 254 ∷ 255 ∷ 0 ∷ []
unfolding read_pipe read_chunk chars_of copy_out
read_three = refl

read_then_sleep : (read_pipe 9 wrapped (ask 8)).0 ≡ sleeping
unfolding read_pipe read_chunk chars_of copy_out
read_then_sleep = refl

write_broken :
    (write_pipe 9 (record wrapped { head = 4093; i_count = 1 }) (offer (7 ∷ []))).0
    ≡ broken (negsuc 0)
unfolding write_pipe write_chunk
write_broken = refl

-- One byte fits, and the signal is raised for the second one.
write_broken_after :
    (write_pipe 9 (record wrapped { head = 4092; i_count = 1 }) (offer (7 ∷ 8 ∷ []))).0
    ≡ broken (pos 1)
unfolding write_pipe write_chunk chars_of
write_broken_after = refl

read_pipe_lem_example : Read wrapped (ask 3) (read_pipe 4 wrapped (ask 3))
read_pipe_lem_example = read_pipe_lem 4 wrapped (ask 3) wrapped-IsValid (omega arith)

write_pipe_lem_example :
    Wrote wrapped (offer (5 ∷ 6 ∷ [])) (write_pipe 3 wrapped (offer (5 ∷ 6 ∷ [])))
write_pipe_lem_example =
    write_pipe_lem 3 wrapped (offer (5 ∷ 6 ∷ [])) wrapped-IsValid (omega arith) (omega arith)

abbrev start : System
start = record {
  pipe = wrapped;
  reader = ask 0;
  reading = false;
  writer = offer (5 ∷ 6 ∷ []);
  writing = false;
}

abbrev written : System
written = run_writer start (record { count = 2; written = 0; rest = start.writer.rest })

Reach-fifo_example : IsSound written × (stream written ≡ stream start)
Reach-fifo_example =
    Reach-fifo (next here (write start 2 refl (omega arith)))
      (record { valid = wrapped-IsValid; enough = omega arith })
