-- ===== src/Pipe/Wakeups.antt =====
-- Who sleeps on a pipe, and whether something would wake them: `sleep` and `wakeup` in pipe.c.
use hyeonseung_os.Base.{
  ℕ, ◌≤◌, ◌<◌, ◌≡◌, ◌⊎◌, refl, ap, Bool, true, false, List, [], ◌∷◌, arith, length, length-append,
  length-take, length-drop, take, drop,
}
use hyeonseung_os.Pipe.{PipeState, pipewrite, piperead, pipeclose, write_failed}
use hyeonseung_os.Pipe.View.{IsValid, items, view, length-items}
use hyeonseung_os.Pipe.Writes.{pipewrite_refines, pipeclose_refines, pipeclose-IsValid}
use hyeonseung_os.Pipe.Reads.{piperead_refines}
use hyeonseung_os.Pipe.Queue
use hyeonseung_os.Pipe.Queue.{Queue, is_nil, space}
use hyeonseung_os.Pipe.Refine.{Call, writes, reads, closes}

-- A reader sleeps only on an empty pipe that may still be written, a writer only on a full one that
-- may still be read; of an end that is closed nothing is asked.
pub record IsAwake (q : Queue) : Type 0 where
  pub readers_served :
      (q.readers ≡ 0) ⊎ (q.readopen ≡ false) ⊎ ((length q.items ≡ 0) × (q.writeopen ≡ true))
  pub writers_served :
      (q.writers ≡ 0) ⊎ (q.writeopen ≡ false) ⊎ ((length q.items ≡ 512) × (q.readopen ≡ true))

length-is_nil-true : (xs : List ℕ) → is_nil xs ≡ true → length xs ≡ 0
unfolding is_nil
length-is_nil-true [] h = refl
length-is_nil-true (x ∷ xs) h = cc

length-is_nil-false : (xs : List ℕ) → is_nil xs ≡ false → 0 < length xs
unfolding is_nil
length-is_nil-false [] h = cc
length-is_nil-false (x ∷ xs) h = omega arith

write-IsAwake :
    (bs : List ℕ) (q : Queue)
    → length q.items ≤ 512
    → IsAwake q
    → IsAwake (Queue.write false bs q).1
unfolding Queue.write
write-IsAwake bs q h a = ground (
  arith,
  length-append q.items (take (space q) bs),
  length-take (space q) bs,
  length-drop (space q) bs,
  length-is_nil-true (drop (space q) bs),
  length-is_nil-false (drop (space q) bs),
)

read-IsAwake : (k : Bool) (n : ℕ) (q : Queue) → IsAwake q → IsAwake (Queue.read k n q).1
unfolding Queue.read
read-IsAwake k n q a =
    ground (arith, length-drop n q.items, length-is_nil-true q.items, length-is_nil-false q.items)

close-IsAwake : (w : Bool) (q : Queue) → IsAwake q → IsAwake (Queue.close w q).1
unfolding Queue.close
close-IsAwake true q a = ground arith
close-IsAwake false q a = ground arith

-- The pipe after a call.
pub step : PipeState → Call → PipeState
step s (writes k bs) = (pipewrite k bs s).1
step s (reads k n) = (piperead k n s).1
step s (closes w) = (pipeclose w s).1

-- The call is no write by a process that has been killed.
abbrev pub Unkilled : Call → Type 0
Unkilled (writes k bs) = k ≡ false
Unkilled (reads k n) = Unit
Unkilled (closes w) = Unit

items-bound : (s : PipeState) → IsValid s.pipe → length (items s.pipe) ≤ 512
items-bound s v = omega (arith, length-items s.pipe, v.fits)

-- No call strands a sleeper, but for a write by a killed process: the pipe stays valid, a reader of
-- an open read end sleeps only on an empty pipe that may still be written, and a writer of an open
-- write end only on a full one that may still be read.
pub step-IsAwake :
    (c : Call) (s : PipeState)
    → IsValid s.pipe
    → Unkilled c
    → IsAwake (view s)
    → IsValid (step s c).pipe × IsAwake (view (step s c))
unfolding step
step-IsAwake (writes k bs) s v u a =
    let (v', e) = pipewrite_refines k bs s v in
    (v', rw (ap (λ x. x.1) e, u) (write-IsAwake bs (view s) (items-bound s v) a))
step-IsAwake (reads k n) s v u a =
    let (v', e) = piperead_refines k n s v in
    (v', rw (ap (λ x. x.1) e) (read-IsAwake k n (view s) a))
step-IsAwake (closes w) s v u a = (
  pipeclose-IsValid w s v,
  rw (ap (λ x. x.1) (pipeclose_refines w s)) (close-IsAwake w (view s) a),
)

-- The queue that a killed writer leaves.
killed_write :
    (bs : List ℕ) (q : Queue)
    → q.items ≡ []
    → 512 < length bs
    → let (r, q') = Queue.write true bs q in
      (r ≡ write_failed)
      × (q'.readers ≡ q.readers)
      × (length q'.items ≡ 512)
      × (q'.readopen ≡ q.readopen)
unfolding Queue.write
killed_write bs q e h = ground (
  arith,
  length-append q.items (take (space q) bs),
  length-take (space q) bs,
  length-drop (space q) bs,
  length-is_nil-true (drop (space q) bs),
)

-- A killed process that writes more than fits into an empty pipe, whose read end is open and whose
-- readers sleep, fills the pipe, fails, and wakes none of them: they sleep beside 512 bytes.
pub killed_write_strands :
    (bs : List ℕ) (s : PipeState)
    → IsValid s.pipe
    → items s.pipe ≡ []
    → s.readopen ≡ true
    → 0 < s.readers
    → 512 < length bs
    → let (r, s') = pipewrite true bs s in
      (r ≡ write_failed)
      × (s'.readers ≡ s.readers)
      × (length (items s'.pipe) ≡ 512)
      × (¬ IsAwake (view s'))
killed_write_strands bs s v e o p h =
    ground (arith, pipewrite_refines true bs s v, killed_write bs (view s) e h)
