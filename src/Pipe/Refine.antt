-- ===== src/Pipe/Refine.antt =====
-- Any history of calls on a pipe, against the queue of Pipe/Queue.antt.
use hyeonseung_os.Base.{ℕ, ◌≡◌, refl, Bool, List, [], ◌∷◌, if◌then◌else◌}
use hyeonseung_os.Pipe.{PipeState, pipewrite, piperead, pipeclose, WriteOutcome, ReadOutcome}
use hyeonseung_os.Pipe.View.{IsValid, view}
use hyeonseung_os.Pipe.Writes.{pipewrite_refines, pipeclose_refines, pipeclose-IsValid}
use hyeonseung_os.Pipe.Reads.{piperead_refines}
use hyeonseung_os.Pipe.Queue
use hyeonseung_os.Pipe.Queue.{Queue}

pub data Call : Type 0 where
  writes : Bool → List ℕ → Call
  reads : Bool → ℕ → Call
  closes : Bool → Call

pub data Reply : Type 0 where
  written : WriteOutcome → Reply
  read : ReadOutcome → Reply
  closed : Bool → Reply

-- The calls in order, up to the one that frees the page.
pub run : PipeState → List Call → List Reply
run s [] = []
run s (writes k bs ∷ cs) = let (r, s') = pipewrite k bs s in written r ∷ run s' cs
run s (reads k n ∷ cs) = let (r, s') = piperead k n s in read r ∷ run s' cs
run s (closes w ∷ cs) =
    let (freed, s') = pipeclose w s in
    let rest = run s' cs in closed freed ∷ (if freed then [] else rest)

pub run_queue : Queue → List Call → List Reply
run_queue q [] = []
run_queue q (writes k bs ∷ cs) = let (r, q') = Queue.write k bs q in written r ∷ run_queue q' cs
run_queue q (reads k n ∷ cs) = let (r, q') = Queue.read k n q in read r ∷ run_queue q' cs
run_queue q (closes w ∷ cs) =
    let (freed, q') = Queue.close w q in
    let rest = run_queue q' cs in closed freed ∷ (if freed then [] else rest)

-- No history of calls tells a valid pipe from the bounded queue of its bytes: the same replies, byte
-- for byte, whatever the counters, up to the call that frees the page.
pub run_refines :
    (cs : List Call) (s : PipeState) → IsValid s.pipe → run s cs ≡ run_queue (view s) cs
unfolding run run_queue
run_refines [] s v = refl
run_refines (writes k bs ∷ cs) s v =
    let (v', e) = pipewrite_refines k bs s v in rw (run_refines cs (pipewrite k bs s).1 v', ← e)
run_refines (reads k n ∷ cs) s v =
    let (v', e) = piperead_refines k n s v in rw (run_refines cs (piperead k n s).1 v', ← e)
run_refines (closes w ∷ cs) s v =
    rw (run_refines cs (pipeclose w s).1 (pipeclose-IsValid w s v), ← pipeclose_refines w s)
