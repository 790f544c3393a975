-- ===== src/Pipe/Writes.antt =====
-- `pipewrite` and `pipeclose` against the queue.
use hyeonseung_os.Base.{
  ℕ, suc, ◌-◌, ◌<◌, ◌≡◌, refl, sym, ap, ◌∙◌, Bool, true, false, List, [], ◌∷◌, ◌++◌, append-nil,
  append_assoc, arith, length, length-append, take-nil, drop-nil, Bool-cases, inl, inr,
}
use hyeonseung_os.Pipe.{Pipe, PipeState, is_full, put, pipewrite, pipeclose, wrote}
use hyeonseung_os.Pipe.View.{
  IsValid, items, view, put-IsValid, items-put, length-items, full-count, open-count,
}
use hyeonseung_os.Pipe.Queue
use hyeonseung_os.Pipe.Queue.{Queue}

-- A byte that fits goes to the end of the queue before the rest of the call.
write-cons :
    (k : Bool) (b : ℕ) (bs : List ℕ) (q : Queue)
    → length q.items < 512
    → Queue.write k (b ∷ bs) q ≡ Queue.write k bs (record q { items = q.items ++ b ∷ [] })
unfolding Queue.write
write-cons k b bs q h =
    let more : 512 - length q.items ≡ suc (511 - length q.items) = omega arith in
    let less : 512 - length (q.items ++ b ∷ []) ≡ 511 - length q.items =
      omega (arith, length-append q.items (b ∷ [])) in
    rw (more, less, append_assoc) refl

write-full :
    (k : Bool) (b : ℕ) (bs : List ℕ) (s : PipeState)
    → IsValid s.pipe
    → is_full s.pipe ≡ true
    → let (r, s') = pipewrite k (b ∷ bs) s in (r, view s') ≡ Queue.write k (b ∷ bs) (view s)
unfolding pipewrite Queue.write
write-full k b bs s v f =
    let none_left : 512 - length (items s.pipe) ≡ 0 =
      omega (arith, length-items s.pipe, full-count s.pipe v f) in
    rw (f, none_left, append-nil) (ground arith)

pipewrite-full-IsValid :
    (k : Bool) (b : ℕ) (bs : List ℕ) (s : PipeState)
    → IsValid s.pipe
    → is_full s.pipe ≡ true
    → IsValid (pipewrite k (b ∷ bs) s).1.pipe
unfolding pipewrite
pipewrite-full-IsValid k b bs s v f = rw f (ground arith)

pipewrite-put :
    (k : Bool) (b : ℕ) (bs : List ℕ) (s : PipeState)
    → is_full s.pipe ≡ false
    → pipewrite k (b ∷ bs) s ≡ pipewrite k bs (record s { pipe = put s.pipe b })
unfolding pipewrite
pipewrite-put k b bs s f = rw f

write-nil : (k : Bool) (q : Queue) → Queue.write k [] q ≡ (wrote, record q { readers = 0 })
unfolding Queue.write
write-nil k q = rw (drop-nil, take-nil, append-nil)

write-put :
    (k : Bool) (b : ℕ) (bs : List ℕ) (s : PipeState)
    → IsValid s.pipe
    → is_full s.pipe ≡ false
    → Queue.write k bs (view (record s { pipe = put s.pipe b })) ≡ Queue.write k (b ∷ bs) (view s)
unfolding put
write-put k b bs s v f =
    ap (λ l. Queue.write k bs (record (view s) { items = l })) (items-put s.pipe b v f)
    ∙ sym (write-cons k b bs (view s) (omega (arith, length-items s.pipe, open-count s.pipe v f)))

-- `pipewrite` returns and leaves what `Queue.write` does, and keeps the pipe valid.
pub pipewrite_refines :
    (k : Bool) (bs : List ℕ) (s : PipeState)
    → IsValid s.pipe
    → let (r, s') = pipewrite k bs s in IsValid s'.pipe × ((r, view s') ≡ Queue.write k bs (view s))
pipewrite_refines k [] s v = unfold pipewrite in (v, sym (write-nil k (view s)))
pipewrite_refines k (b ∷ bs) s v = elim (Bool-cases (is_full s.pipe)) [
  | inl f ↦ (pipewrite-full-IsValid k b bs s v f, write-full k b bs s v f)
  | inr f ↦
      let p' : Pipe = put s.pipe b in
      let (v', e) = pipewrite_refines k bs (record s { pipe = p' }) (put-IsValid s.pipe b v f) in
      rw (pipewrite-put k b bs s f) (v', e ∙ write-put k b bs s v f)
]

-- `pipeclose` closes its end of the queue, and frees the page when both ends are closed.
pub pipeclose_refines :
    (w : Bool) (s : PipeState)
    → let (freed, s') = pipeclose w s in (freed, view s') ≡ Queue.close w (view s)
unfolding pipeclose Queue.close
pipeclose_refines true s = ground arith
pipeclose_refines false s = ground arith

pub pipeclose-IsValid : (w : Bool) (s : PipeState) → IsValid s.pipe → IsValid (pipeclose w s).1.pipe
unfolding pipeclose
pipeclose-IsValid true s v = ground arith
pipeclose-IsValid false s v = ground arith
