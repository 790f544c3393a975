-- ===== src/Files/Tests.antt =====
-- Runs of the calls on open files, and their theorems at a small table.
use hyeonseung_os.Base.{
  ℕ, zero, suc, count, ◌+◌, ◌≡◌, refl, true, false, Option, none, some, ◌>>=◌, ◌⊎◌, List, [], ◌∷◌,
  arith,
}
use hyeonseung_os.Volume.{Volume}
use hyeonseung_os.Files.{
  File, fd_none, fd_inode, Release, Descriptors, sys_dup, sys_close, filealloc, fdalloc, fileclose,
  pipealloc,
}
use hyeonseung_os.Files.Counts.{IsCounted}
use hyeonseung_os.Files.Pipes.{sys_pipe, calls_kept}
use hyeonseung_os.Files.Transfer.{write_refused, reach, pwrite_os, pread_os}
use hyeonseung_os.Files.PastEnd.{pwrite_past_end_panics}

abbrev free_file : File
free_file = record {
  kind = fd_none;
  ref = 0;
  readable = false;
  writable = false;
  pipe = 0;
  ip = 0;
  off = 0;
}

abbrev data_file : File
data_file = record free_file { kind = fd_inode; ref = 1; readable = true; writable = true; ip = 1 }

-- The descriptors 0 and 2 of the process stand for files 0 and 1, and 1 and 3 are free.
abbrev table : ℕ → File
table zero = data_file
table (suc zero) = record data_file { ip = 2 }
table (suc (suc n)) = free_file

abbrev opened : Descriptors
opened = record { files = table; ofile = 1 ∷ 0 ∷ 2 ∷ 0 ∷ [] }

opened-counted : (i : ℕ) → (table i).ref ≡ count (suc i) (1 ∷ 0 ∷ 2 ∷ 0 ∷ []) + 0
unfolding count
opened-counted zero = refl
opened-counted (suc zero) = refl
opened-counted (suc (suc n)) = ground arith

opened-IsCounted : IsCounted (λ i. 0) opened
opened-IsCounted = record { counted = opened-counted }

calls_kept_example :
    ((r : Option ℕ) × (d' : Descriptors) × (sys_dup 2 opened ≡ some (r, d'))
      × IsCounted (λ i. 0) d')
    × ((r : Option Release) × (d' : Descriptors) × (sys_close 2 opened ≡ some (r, d'))
        × IsCounted (λ i. 0) d')
    × (((d' : Descriptors) × (sys_pipe 9 opened ≡ some (none, d'))
          × (d'.ofile ≡ opened.ofile)
          × IsCounted (λ i. 0) d')
        ⊎ ((fd₀ : ℕ) × (fd₁ : ℕ) × (d' : Descriptors) × (sys_pipe 9 opened
              ≡ some (some (fd₀, fd₁), d'))
            × IsCounted (λ i. 0) d'))
calls_kept_example = calls_kept (λ i. 0) 2 9 opened opened-IsCounted

abbrev ends_of : Option (Option (ℕ × ℕ) × Descriptors) → Option (Option (ℕ × ℕ) × List ℕ)
ends_of r = do (p, d) ← r; some (p, d.ofile)

takes_two : ends_of (sys_pipe 9 opened) ≡ some (some (1, 3), 1 ∷ 3 ∷ 2 ∷ 4 ∷ [])
unfolding sys_pipe pipealloc filealloc fdalloc
takes_two = refl

-- One descriptor is free: the first number is given back.
abbrev one_free : Descriptors
one_free = record opened { ofile = 1 ∷ 0 ∷ 2 ∷ [] }

takes_none : ends_of (sys_pipe 9 one_free) ≡ some (none, 1 ∷ 0 ∷ 2 ∷ [])
unfolding sys_pipe pipealloc filealloc fdalloc fileclose
takes_none = refl

abbrev state_of : Option (Option ℕ × Descriptors) → Descriptors
state_of none = opened
state_of (some (r, s)) = s

-- The last file: a second one for the pipe is missing, and the first is given back.
abbrev refs_of : Option (Option (ℕ × ℕ) × (ℕ → File)) → Option (Option (ℕ × ℕ) × ℕ)
refs_of r = do (p, t) ← r; some (p, (t 2).ref)

pipe_made : refs_of (pipealloc 9 table) ≡ some (some (2, 3), 1)
unfolding pipealloc filealloc fileclose
pipe_made = refl

no_page : refs_of (pipealloc 0 table) ≡ some (none, 0)
unfolding pipealloc filealloc fileclose
no_page = refl

abbrev small_volume : Volume
small_volume = record {
  limit = 64;
  used = λ b. false;
  bytes = λ b k. 0;
  inodes = λ n. record { kind = 2; major = 0; minor = 0; nlink = 1; size = 0; addrs = λ i. 0 };
}

pwrite_past_end_panics_example :
    (v' : Volume) × (pwrite_os (some data_file) (λ k. 7) 1 1_082_201_088 small_volume
      ≡ some (write_refused, some (reach 1_082_201_088 data_file), v'))
    × ((v'.inodes 1).size ≡ 1_082_201_089)
    × (pread_os (some data_file) 1 1_082_201_088 v' ≡ none)
pwrite_past_end_panics_example =
    pwrite_past_end_panics data_file (λ k. 7) 1 1_082_201_088 small_volume refl (omega arith)
      (omega arith) (omega arith) (omega arith) (omega arith) (omega arith)
