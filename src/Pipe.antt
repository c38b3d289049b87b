-- ===== src/Pipe.antt =====
-- fs/pipe.c, `read_pipe` and `write_pipe`, with the macros PIPE_HEAD, PIPE_TAIL and PIPE_SIZE of
-- include/linux/fs.h. A process runs a call until it returns or sleeps: one activation.
pub mod Window
pub mod Chunks
pub mod Runs
pub mod System
mod Tests
use liha_linux.Base.{
  ◌%◌, ◌+◌, ◌++◌, ◌-◌, ◌==◌, List, [], ◌^◌, drop, if◌then◌else◌, ltb, negsuc, pos, suc, take,
  update, zero, ℕ, ℤ, ◌∷◌,
}

abbrev pub page_size : ℕ
page_size = 4096

-- The pipe's inode: `i_zone[0]` and `i_zone[1]` are 16-bit counters, `i_size` is the address of the
-- page, `page` the memory from there on.
pub record Pipe : Type 0 where
  pub head : ℕ
  pub tail : ℕ
  pub page : ℕ → ℕ
  pub i_count : ℕ

-- PIPE_SIZE: the mask `& (PAGE_SIZE-1)` is a remainder.
abbrev pub pipe_size : Pipe → ℕ
pipe_size p = (p.head + 2 ^ 16 - p.tail) % page_size

-- The locals of a call of `read_pipe`; `out` is what it has put through `buf`.
pub record Reader : Type 0 where
  pub count : ℕ
  pub read : ℕ
  pub out : List ℕ

-- The locals of a call of `write_pipe`; `rest` is the user's memory from `buf` on.
pub record Writer : Type 0 where
  pub count : ℕ
  pub written : ℕ
  pub rest : List ℕ

-- How an activation ends: by `return`, by `return` after it has raised SIGPIPE in its own task, or by
-- `sleep_on`.
pub data Outcome : Type 0 where
  returned : ℕ → Outcome
  broken : ℤ → Outcome
  sleeping : Outcome
  out_of_fuel : Outcome

-- `chars`, cut to the count and to the size.
pub chars_of : (room count size : ℕ) → ℕ
chars_of room count size =
    let chars = if ltb count room then count else room in if ltb size chars then size else chars

-- `while (chars-->0) put_fs_byte(((char *)inode->i_size)[size++],buf++);`
pub copy_out : (ℕ → ℕ) → ℕ → ℕ → List ℕ
copy_out page size zero = []
copy_out page size (suc chars) = page size ∷ copy_out page (size + 1) chars

-- `while (chars-->0) ((char *)inode->i_size)[size++]=get_fs_byte(buf++);`, over the bytes it reads.
pub copy_in : (ℕ → ℕ) → ℕ → List ℕ → ℕ → ℕ
copy_in page size [] = page
copy_in page size (x ∷ xs) = copy_in (update page size x) (size + 1) xs

-- `PIPE_HEAD += chars; PIPE_HEAD &= (PAGE_SIZE-1);` on an `unsigned short`.
abbrev pub advance : ℕ → ℕ → ℕ
advance i chars = (i + chars) % 2 ^ 16 % page_size

-- One round of the outer loop of `read_pipe`, the pipe not empty.
pub read_chunk : Pipe → Reader → Pipe × Reader
unfolding chars_of
read_chunk p r =
    let chars = chars_of (page_size - p.tail) r.count (pipe_size p) in
    (
      record p { tail = advance p.tail chars },
      record {
        count = r.count - chars;
        read = r.read + chars;
        out = r.out ++ copy_out p.page p.tail chars;
      },
    )

-- From the start of `read_pipe`, or from the end of its `sleep_on`.
pub read_pipe : ℕ → Pipe → Reader → Outcome × Pipe × Reader
read_pipe zero p r = (out_of_fuel, p, r)
read_pipe (suc fuel) p r =
    let more = (let (p', r') = read_chunk p r in read_pipe fuel p' r') in
    if r.count == 0
    then (returned r.read, p, r)
    else if pipe_size p == 0
    then (if p.i_count == 2 then sleeping else returned r.read, p, r)
    else more

-- One round of the outer loop of `write_pipe`, the pipe not full.
pub write_chunk : Pipe → Writer → Pipe × Writer
unfolding chars_of
write_chunk p w =
    let chars = chars_of (page_size - p.head) w.count (page_size - 1 - pipe_size p) in
    (
      record p { head = advance p.head chars; page = copy_in p.page p.head (take chars w.rest) },
      record { count = w.count - chars; written = w.written + chars; rest = drop chars w.rest },
    )

-- `written?written:-1`.
abbrev pub written_or_error : ℕ → ℤ
written_or_error written = if written == 0 then negsuc 0 else pos written

-- From the start of `write_pipe`, or from the end of its `sleep_on`.
pub write_pipe : ℕ → Pipe → Writer → Outcome × Pipe × Writer
write_pipe zero p w = (out_of_fuel, p, w)
write_pipe (suc fuel) p w =
    let more = (let (p', w') = write_chunk p w in write_pipe fuel p' w') in
    if w.count == 0
    then (returned w.written, p, w)
    else if page_size - 1 - pipe_size p == 0
    then (if p.i_count == 2 then sleeping else broken (written_or_error w.written), p, w)
    else more
