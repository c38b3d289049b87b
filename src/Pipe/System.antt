-- ===== src/Pipe/System.antt =====
-- A reader and a writer at one pipe (fs/pipe.c): their activations alternate in any order, and
-- either may close its end.
use mathlib.Core.List.{append_assoc}
use liha_linux.Base.{
  ◌+◌, ◌++◌, ◌-◌, Bool, List, ap, arith, false, length, refl, sym, true, ℕ, ◌∙◌, ◌≡◌, ◌≤◌,
}
use liha_linux.Pipe.{Pipe, Reader, Writer, Outcome, sleeping, read_pipe, write_pipe}
use liha_linux.Pipe.Chunks.{IsValid, contents}
use liha_linux.Pipe.Runs.{read_pipe_lem, write_pipe_lem}

abbrev pub is_sleeping : Outcome → Bool
is_sleeping sleeping = true
is_sleeping _ = false

-- `reading` and `writing` say whether a call sleeps inside the kernel.
pub record System : Type 0 where
  pub pipe : Pipe
  pub reader : Reader
  pub reading : Bool
  pub writer : Writer
  pub writing : Bool

pub run_reader : System → Reader → System
run_reader s r =
    let (o, p', r') = read_pipe (r.count + 1) s.pipe r in
    record s { pipe = p'; reader = r'; reading = is_sleeping o }

pub run_writer : System → Writer → System
run_writer s w =
    let (o, p', w') = write_pipe (w.count + 1) s.pipe w in
    record s { pipe = p'; writer = w'; writing = is_sleeping o }

-- A process enters a call, goes on after `sleep_on`, or closes its end (`i_count--`).
pub data Step : System → System → Type 0 where
  read :
      (s : System) (k : ℕ)
      → s.reading ≡ false
      → Step s (run_reader s (record { count = k; read = 0; out = s.reader.out }))
  resume_read : (s : System) → s.reading ≡ true → Step s (run_reader s s.reader)
  write :
      (s : System) (k : ℕ)
      → s.writing ≡ false
      → k ≤ length s.writer.rest
      → Step s (run_writer s (record { count = k; written = 0; rest = s.writer.rest }))
  resume_write : (s : System) → s.writing ≡ true → Step s (run_writer s s.writer)
  close :
      (s : System) → Step s (record s { pipe = record (s.pipe) { i_count = s.pipe.i_count - 1 } })

pub data Reach (s : System) : System → Type 0 where
  here : Reach s s
  next : {t u : System} → Reach s t → Step t u → Reach s u

-- All the bytes of the writer's process: read, in the pipe, or still to be written.
abbrev pub stream : System → List ℕ
stream s = s.reader.out ++ (contents s.pipe ++ s.writer.rest)

pub record IsSound (s : System) : Type 0 where
  pub valid : IsValid s.pipe
  pub enough : s.writer.count ≤ length s.writer.rest

run_reader-IsSound :
    (s : System) (r : Reader)
    → IsSound s
    → r.out ≡ s.reader.out
    → IsSound (run_reader s r) × (stream (run_reader s r) ≡ stream s)
unfolding run_reader
run_reader-IsSound s r i same =
    let l = read_pipe_lem (r.count + 1) s.pipe r i.valid (omega arith) in
    (
      record { valid = l.valid; enough = i.enough },
      sym (append_assoc _ _ s.writer.rest)
          ∙ ap (λ z. z ++ s.writer.rest) (l.fifo ∙ ap (λ z. z ++ contents s.pipe) same)
          ∙ append_assoc _ _ s.writer.rest,
    )

run_writer-IsSound :
    (s : System) (w : Writer)
    → IsSound s
    → w.count ≤ length w.rest
    → w.rest ≡ s.writer.rest
    → IsSound (run_writer s w) × (stream (run_writer s w) ≡ stream s)
unfolding run_writer
run_writer-IsSound s w i h same =
    let l = write_pipe_lem (w.count + 1) s.pipe w i.valid h (omega arith) in
    (
      record { valid = l.valid; enough = l.enough },
      ap (λ z. s.reader.out ++ z) (l.fifo ∙ ap (λ z. contents s.pipe ++ z) same),
    )

Step-IsSound : {s t : System} → Step s t → IsSound s → IsSound t × (stream t ≡ stream s)
Step-IsSound (read s k out_of_call) i = run_reader-IsSound s _ i refl
Step-IsSound (resume_read s in_call) i = run_reader-IsSound s _ i refl
Step-IsSound (write s k out_of_call h) i = run_writer-IsSound s _ i h refl
Step-IsSound (resume_write s in_call) i = run_writer-IsSound s _ i i.enough refl
Step-IsSound (close s) i = (
  record {
    valid = record { head_in = i.valid.head_in; tail_in = i.valid.tail_in };
    enough = i.enough;
  },
  refl,
)

-- Whatever the order of calls, sleeps and closes, what has been read, what is in the pipe and what
-- is still to be written are together, in this order, the bytes that the writer started with (and
-- those that the pipe and the reader had): no byte is lost, repeated or moved past another.
pub Reach-fifo : {s t : System} → Reach s t → IsSound s → IsSound t × (stream t ≡ stream s)
Reach-fifo here i = (i, refl)
Reach-fifo (next r st) i =
    let (j, e) = Reach-fifo r i in let (k, f) = Step-IsSound st j in (k, f ∙ e)
