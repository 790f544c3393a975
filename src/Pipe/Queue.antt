-- ===== src/Pipe/Queue.antt =====
-- What a client sees of a pipe: a queue of at most PIPESIZE bytes.
use hyeonseung_os.Base.{
  ℕ, ◌+◌, ◌-◌, Bool, true, false, not, ◌&&◌, ◌||◌, List, [], ◌∷◌, ◌++◌, if◌then◌else◌, length, take,
  drop,
}
use hyeonseung_os.Pipe.{
  pipesize, WriteOutcome, wrote, write_failed, write_sleeps, ReadOutcome, got, read_failed,
  read_sleeps,
}

pub record Queue : Type 0 where
  pub items : List ℕ
  pub readopen : Bool
  pub writeopen : Bool
  pub readers : ℕ
  pub writers : ℕ

unfoldable pub is_nil : List ℕ → Bool
is_nil [] = true
is_nil (_ ∷ _) = false

abbrev pub space : Queue → ℕ
space q = pipesize - length q.items

-- The bytes that fit are appended; with a rest the call fails or sleeps.
unfoldable pub write : Bool → List ℕ → Queue → WriteOutcome × Queue
unfolding is_nil
write killed bs q =
    if is_nil rest
    then (wrote, record q' { readers = 0 })
    else (if not q.readopen || killed
        then (write_failed, q')
        else (write_sleeps rest, record q' { readers = 0; writers = q.writers + 1 }))
  where
    rest : List ℕ
    rest = drop (space q) bs

    q' : Queue
    q' = record q { items = q.items ++ take (space q) bs }

-- The first `n` bytes, or all.
unfoldable pub read : Bool → ℕ → Queue → ReadOutcome × Queue
unfolding is_nil
read killed n q =
    if is_nil q.items && q.writeopen
    then (if killed then (read_failed, q) else (read_sleeps, record q { readers = q.readers + 1 }))
    else (got (take n q.items), record q { items = drop n q.items; writers = 0 })

unfoldable pub close : Bool → Queue → Bool × Queue
close true q = (not q.readopen, record q { writeopen = false; readers = 0 })
close false q = (not q.writeopen, record q { readopen = false; writers = 0 })
