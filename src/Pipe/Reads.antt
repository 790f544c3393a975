-- ===== src/Pipe/Reads.antt =====
-- `piperead` against the queue.
use hyeonseung_os.Base.{
  ℕ, zero, suc, ◌≡◌, refl, ap, ◌∙◌, Bool, List, ◌∷◌, arith, take, drop, Bool-cases, inl, inr,
}
use hyeonseung_os.Pipe.{Pipe, PipeState, is_empty, skip, front, copy_out, piperead}
use hyeonseung_os.Pipe.View.{IsValid, items, view, skip-IsValid, items-cons, items-nil}
use hyeonseung_os.Pipe.Queue
use hyeonseung_os.Pipe.Queue.{Queue}

-- What the copying loop does to a pipe `p`.
record Copied (n : ℕ) (p : Pipe) (out : List ℕ × Pipe) : Type 0 where
  valid : IsValid out.1
  bytes : out.0 ≡ take n (items p)
  rest : items out.1 ≡ drop n (items p)
  read_end : out.1.readopen ≡ p.readopen
  write_end : out.1.writeopen ≡ p.writeopen

copy_out-Copied : (n : ℕ) (p : Pipe) → IsValid p → Copied n p (copy_out n p)
unfolding copy_out
copy_out-Copied zero p v = record {
  valid = v;
  bytes = refl;
  rest = refl;
  read_end = refl;
  write_end = refl;
}
copy_out-Copied (suc n) p v = elim (Bool-cases (is_empty p)) [
  | inl e ↦ rw e (record {
    valid = v;
    bytes = rw (items-nil p v e);
    rest = rw (items-nil p v e);
    read_end = refl;
    write_end = refl;
  })
  | inr e ↦
      let ih = copy_out-Copied n (skip p) (skip-IsValid p v e) in
      rw e (record {
        valid = ih.valid;
        bytes = rw (items-cons p v e) (ap (◌∷◌ (front p)) ih.bytes);
        rest = rw (items-cons p v e) ih.rest;
        read_end = ih.read_end ∙ skip_read_end p;
        write_end = ih.write_end ∙ skip_write_end p;
      })
]
  where
    skip_read_end : (q : Pipe) → (skip q).readopen ≡ q.readopen
    skip_read_end q = unfold skip in refl

    skip_write_end : (q : Pipe) → (skip q).writeopen ≡ q.writeopen
    skip_write_end q = unfold skip in refl

is_empty-is_nil : (p : Pipe) → IsValid p → is_empty p ≡ Queue.is_nil (items p)
unfolding Queue.is_nil
is_empty-is_nil p v = elim (Bool-cases (is_empty p)) [
  | inl e ↦ rw (items-nil p v e) e
  | inr e ↦ rw (items-cons p v e) e
]

-- `piperead` returns and leaves what `Queue.read` does, and keeps the pipe valid.
pub piperead_refines :
    (k : Bool) (n : ℕ) (s : PipeState)
    → IsValid s.pipe
    → let (r, s') = piperead k n s in IsValid s'.pipe × ((r, view s') ≡ Queue.read k n (view s))
unfolding piperead Queue.read
piperead_refines k n s v = ground (arith, copy_out-Copied n s.pipe v, is_empty-is_nil s.pipe v)
