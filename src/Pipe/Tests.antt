-- ===== src/Pipe/Tests.antt =====
-- Runs of the pipe model, and its theorems at concrete pipes.
use hyeonseung_os.Base.{
  ℕ, ◌-◌, ◌^◌, ◌≡◌, refl, inl, inr, true, false, List, [], ◌∷◌, arith, length, replicate,
  length-replicate,
}
use hyeonseung_os.Pipe.{Pipe, PipeState, pipewrite, put, is_full, write_failed}
use hyeonseung_os.Pipe.View.{IsValid, view, items}
use hyeonseung_os.Pipe.Refine.{Call, writes, reads, closes, run, run_queue, run_refines}
use hyeonseung_os.Pipe.Wakeups.{IsAwake, step, step-IsAwake, killed_write_strands}

-- An empty pipe whose write counter is about to go round.
abbrev worn : Pipe
worn = record {
  bytes = replicate 512 0;
  nread = 2 ^ 32 - 1;
  nwrite = 2 ^ 32 - 1;
  readopen = true;
  writeopen = true;
}

-- One reader sleeps on it.
abbrev awaited : PipeState
awaited = record { pipe = worn; readers = 1; writers = 0 }

worn-IsValid : IsValid worn
worn-IsValid = record {
  page = length-replicate {A = ℕ} 512 0;
  nread_word = omega arith;
  nwrite_word = omega arith;
  fits = omega arith;
}

abbrev calls : List Call
calls = writes false (7 ∷ 8 ∷ 9 ∷ []) ∷ reads false 2 ∷ closes true ∷ reads false 2 ∷ []

counters_go_round : (pipewrite false (7 ∷ 8 ∷ []) awaited).1.pipe.nwrite ≡ 1
unfolding pipewrite put is_full
counters_go_round = refl

run_refines_example : run awaited calls ≡ run_queue (view awaited) calls
run_refines_example = run_refines calls awaited worn-IsValid

awaited-IsAwake : IsAwake (view awaited)
awaited-IsAwake = record { readers_served = inr (inr (refl, refl)); writers_served = inl refl }

step-IsAwake_example :
    IsValid (step awaited (writes false (7 ∷ []))).pipe
    × IsAwake (view (step awaited (writes false (7 ∷ []))))
step-IsAwake_example =
    step-IsAwake (writes false (7 ∷ [])) awaited worn-IsValid refl awaited-IsAwake

killed_write_strands_example :
    let (r, s') = pipewrite true (replicate 600 1) awaited in
    (r ≡ write_failed) × (s'.readers ≡ 1) × (length (items s'.pipe) ≡ 512) × (¬ IsAwake (view s'))
killed_write_strands_example =
    killed_write_strands (replicate 600 1) awaited worn-IsValid refl refl (omega arith)
      (omega (arith, length-replicate {A = ℕ} 600 1))
