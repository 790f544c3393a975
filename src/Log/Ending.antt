-- ===== src/Log/Ending.antt =====
-- What `end_op` gives back of the room in the log.
use hyeonseung_os.Base.{
  ℕ, suc, ◌+◌, ◌-◌, ◌≤◌, ◌<◌, ◌≡◌, inl, inr, refl, Bool, true, false, ◌∙◌, ap, arith, ◌==◌, List,
  [], ◌∷◌, ◌++◌, some, length, length-append, Bool-cases,
}
use hyeonseung_os.Log.Space.{LogState, end_op, end_commit, Running, reserved, HasRoom}

reserved-append : (us vs : List ℕ) → reserved (us ++ vs) ≡ reserved us + reserved vs
unfolding reserved
reserved-append [] vs = omega arith
reserved-append (u ∷ us) vs = omega (arith, reserved-append us vs)

reserved-cons : (u : ℕ) (us : List ℕ) → reserved us ≤ reserved (u ∷ us)
unfolding reserved
reserved-cons u us = omega arith

empty_log : (s : LogState) → s.outstanding ≡ 0 → HasRoom (record { log = end_commit s; used = [] })
unfolding end_commit reserved
empty_log s e = record { counted = e; room = omega arith; quiet = inl refl }

-- A running call that ends does not panic. It commits exactly if it was the last one, and after the
-- commit the log has room again with no call running; else the others keep their room.
pub end_op-HasRoom :
    (r : Running) (us vs : List ℕ) (u : ℕ)
    → HasRoom r
    → r.used ≡ us ++ (u ∷ vs)
    → (last : Bool) × (s : LogState) × (end_op r.log ≡ some (last, s))
      × (last ≡ true → (length (us ++ vs) ≡ 0) × HasRoom (record { log = end_commit s; used = [] }))
      × (last ≡ false → (0 < length (us ++ vs)) × HasRoom (record { log = s; used = us ++ vs }))
unfolding end_op
end_op-HasRoom r us vs u v e =
    let total : length r.used ≡ length us + suc (length vs) =
      ap length e ∙ length-append us (u ∷ vs) in
    let others : length (us ++ vs) ≡ length us + length vs = length-append us vs in
    let room : reserved r.used ≡ reserved us + reserved (u ∷ vs) =
      ap reserved e ∙ reserved-append us (u ∷ vs) in
    let room' : reserved (us ++ vs) ≡ reserved us + reserved vs = reserved-append us vs in
    let less = reserved-cons u vs in
    let quiet : r.log.committing ≡ false = ground (arith, v.quiet, total) in
    let s : LogState = record (r.log) { outstanding = r.log.outstanding - 1 } in
    elim (Bool-cases (r.log.outstanding - 1 == 0)) [
      | inl z ↦ (
        true,
        record s { committing = true },
        rw (quiet, z) refl,
        (λ t. (
          ground (arith, v.counted, total, others, z),
          empty_log (record s { committing = true }) (ground (arith, z)),
        )),
        (λ f. cc),
      )
      | inr z ↦ (
        false,
        s,
        rw (quiet, z) refl,
        (λ t. cc),
        (λ f. (
          ground (arith, v.counted, total, others, z),
          record {
            counted = omega (arith, v.counted, total, others);
            room = omega (arith, v.room, room, room', less);
            quiet = inl quiet;
          },
        )),
      )
    ]
