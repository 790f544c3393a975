-- ===== src/Pipe.antt =====
-- The pipe of xv6-public/pipe.c. Every function runs under `p->lock`; what a call does between
-- taking the lock and either returning or going to sleep is one step of this model. A process that
-- is woken runs `pipewrite` again on the bytes that it has left, or `piperead` again from the top.
pub mod Queue
pub mod View
pub mod Writes
pub mod Reads
pub mod Refine
pub mod Wakeups
mod Tests
use hyeonseung_os.Base.{
  ℕ, zero, suc, ◌+◌, ◌%◌, Bool, true, false, not, ◌&&◌, ◌||◌, List, [], ◌∷◌, ◌==◌, if◌then◌else◌,
  get_or, set, add32, replicate,
}

abbrev pub pipesize : ℕ
pipesize = 512

-- `struct pipe`, its field `data` named `bytes`.
pub record Pipe : Type 0 where
  pub bytes : List ℕ
  pub nread : ℕ
  pub nwrite : ℕ
  pub readopen : Bool
  pub writeopen : Bool

-- A pipe with the number of processes that sleep on `&p->nread` and on `&p->nwrite`.
pub record PipeState : Type 0 where
  pub pipe : Pipe
  pub open pipe use *
  pub readers : ℕ
  pub writers : ℕ

-- The return of `pipewrite`: `n`, -1, or a sleep with the bytes that are still to write.
pub data WriteOutcome : Type 0 where
  wrote : WriteOutcome
  write_failed : WriteOutcome
  write_sleeps : List ℕ → WriteOutcome

-- The return of `piperead`: the bytes copied out, -1, or a sleep.
pub data ReadOutcome : Type 0 where
  got : List ℕ → ReadOutcome
  read_failed : ReadOutcome
  read_sleeps : ReadOutcome

-- What `pipealloc` stores in a fresh page.
pub pipe_init : List ℕ → Pipe
pipe_init page = record { bytes = page; nread = 0; nwrite = 0; readopen = true; writeopen = true }

pub is_full : Pipe → Bool
is_full p = p.nwrite == add32 p.nread pipesize

pub is_empty : Pipe → Bool
is_empty p = p.nread == p.nwrite

-- `p->data[p->nwrite++ % PIPESIZE] = b`
pub put : Pipe → ℕ → Pipe
put p b = record p { bytes = set p.bytes (p.nwrite % pipesize) b; nwrite = add32 p.nwrite 1 }

-- `p->nread++`, once the byte is read
pub skip : Pipe → Pipe
skip p = record p { nread = add32 p.nread 1 }

-- `p->data[p->nread % PIPESIZE]`
pub front : Pipe → ℕ
front p = get_or p.bytes (p.nread % pipesize) 0

-- `killed` is `myproc()->killed`.
pub pipewrite : Bool → List ℕ → PipeState → WriteOutcome × PipeState
pipewrite killed [] s = (wrote, record s { readers = 0 })
pipewrite killed (b ∷ bs) s =
    if is_full s.pipe
    then (if not s.readopen || killed
        then (write_failed, s)
        else (write_sleeps (b ∷ bs), record s { readers = 0; writers = s.writers + 1 }))
    else pipewrite killed bs (record s { pipe = put s.pipe b })

-- The loop at `piperead-copy`.
pub copy_out : ℕ → Pipe → List ℕ × Pipe
copy_out zero p = ([], p)
copy_out (suc n) p =
    let (out, p') = copy_out n (skip p) in if is_empty p then ([], p) else (front p ∷ out, p')

pub piperead : Bool → ℕ → PipeState → ReadOutcome × PipeState
piperead killed n s =
    if is_empty s.pipe && s.writeopen
    then (if killed then (read_failed, s) else (read_sleeps, record s { readers = s.readers + 1 }))
    else let (out, p) = copy_out n s.pipe in (got out, record s { pipe = p; writers = 0 })

-- Whether the page of the pipe is freed, and the pipe.
pub pipeclose : Bool → PipeState → Bool × PipeState
pipeclose writable s = (not s'.readopen && not s'.writeopen, s')
  where
    close_end : Bool → PipeState
    close_end true = record s { pipe = record (s.pipe) { writeopen = false }; readers = 0 }
    close_end false = record s { pipe = record (s.pipe) { readopen = false }; writers = 0 }

    s' : PipeState
    s' = close_end writable
